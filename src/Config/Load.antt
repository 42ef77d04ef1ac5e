-- ===== src/Config/Load.antt =====
-- The configuration's records, their defaults, and the loading (core/config/config.go). The encoding of
-- YAML is a parameter; a decoder fills what the data says into the value that it is given.
use Prim.Native.String.{◌++◌ as append}
use service_forge.Prelude.{
  String, Bool, true, false, Option, none, some, List, [], Table, lookup, if◌then◌else◌,
}
use service_forge.Prelude.Int.{ℤ, pos}
use service_forge.Prelude.Text.{is_empty, is_blank}
use service_forge.Prelude.Decimal.{format_int}
use service_forge.Prelude.Float.{Float64}
use service_forge.Errors.{Error}
use service_forge.Errors.Result.{Result, ok, err}
use service_forge.Plugins.{GatewayPluginConfig}
use service_forge.Routes.{GatewayRouteConfig}
use service_forge.Catalog.{ComponentConfig}
use service_forge.Config.{Tree, end, FileSystem, LoadOptions, environment_of, load_raw}

pub record AppConfig : Type 0 where
  pub name : String
  pub version : String
  pub env : String
  pub debug : Bool

pub record ServerConfig : Type 0 where
  pub listen_ip : String
  pub register_ip : String
  pub port : ℤ
  pub timeout : ℤ

pub record GrpcConfig : Type 0 where
  pub listen_ip : String
  pub register_ip : String
  pub port : ℤ

-- The routes without their plugins, as in Routes.
pub record GatewayConfig (F : Float64) : Type 0 where
  pub listen_ip : String
  pub port : ℤ
  pub disable_startup_message : Bool
  pub plugins : List (GatewayPluginConfig F.Carrier)
  pub routes : List (GatewayRouteConfig F)

pub record LogConfig : Type 0 where
  pub format : String
  pub level : String
  pub module_lifecycle : Bool

pub record Config (F : Float64) (S K : Type 0) : Type 0 where
  pub app : AppConfig
  pub server : ServerConfig
  pub grpc : GrpcConfig
  pub gateway : GatewayConfig F
  pub log : LogConfig
  pub components : List ComponentConfig  -- the only field of `Runtime`
  pub modules : Table (Tree S K)
  pub raw : Tree S K

module _ (F : Float64) (S K : Type 0) where
  unfoldable pub default : Config F S K
  default = record {
    app = record { name = ""; version = "v0.1.0"; env = "development"; debug = false };
    server = record {
      listen_ip = "0.0.0.0";
      register_ip = "";
      port = pos 8080;
      timeout = pos 30_000_000_000;
    };
    grpc = record { listen_ip = "0.0.0.0"; register_ip = ""; port = pos 9000 };
    gateway = record {
      listen_ip = "0.0.0.0";
      port = pos 8080;
      disable_startup_message = true;
      plugins = [];
      routes = [];
    };
    log = record { format = "text"; level = "info"; module_lifecycle = false };
    components = [];
    modules = [];
    raw = end;
  }

-- `yaml.Marshal`, and `yaml.Unmarshal` into the framework's configuration and into a value of the
-- service's or of a module's; the two messages are `fmt.Errorf`'s.
pub record Yaml (F : Float64) (S K App : Type 0) : Type 1 where
  pub marshal : Tree S K → Result String
  pub decode_core : String → Config F S K → Result (Config F S K)
  pub decode_app : String → App → Result App
  pub zero_app : App
  pub marshal_failed : Error → Error
  pub core_failed : Error → Error
  pub app_failed : Error → Error

pub record Bundle (F : Float64) (S K App : Type 0) : Type 0 where
  pub core : Config F S K
  pub app : App

module _ {F : Float64} {S K App : Type 0} (O : FileSystem S K) (Y : Yaml F S K App) where
  -- An empty text is not decoded.
  abbrev core_of : String → Config F S K → Result (Config F S K)
  core_of text core = if is_empty text then ok core else Y.decode_core text core

  abbrev app_of : String → Result App
  app_of text = if is_empty text then ok Y.zero_app else Y.decode_app text Y.zero_app

  -- What `Load` sets after decoding.
  unfoldable pub named : LoadOptions → Config F S K → Config F S K
  named opts core = record core {
    app = record (core.app) {
      name = if is_empty opts.service_name then core.app.name else opts.service_name;
      env = if is_empty core.app.env then environment_of O opts else core.app.env;
    };
  }

  unfoldable pub bundle_of : LoadOptions → String → Tree S K → Result (Bundle F S K App)
  unfolding default named
  bundle_of opts text raw = elim (core_of text (record (default F S K) { raw = raw })) [
    | err e ↦ err (Y.core_failed e)
    | ok core ↦ elim (app_of text) [
      | err e ↦ err (Y.app_failed e)
      | ok app ↦ ok (record { core = named opts core; app = app })
    ]
  ]

  unfoldable pub load : LoadOptions → Result (Bundle F S K App)
  unfolding bundle_of load_raw
  load opts = elim (load_raw O opts) [
    | err e ↦ err e
    | ok raw ↦ elim (Y.marshal raw) [
      | err e ↦ err (Y.marshal_failed e)
      | ok text ↦ bundle_of opts text raw
    ]
  ]

  -- A nil configuration is none; a module without settings gets the zero value.
  unfoldable pub module_config : Option (Config F S K) → String → Result App
  module_config none name = ok Y.zero_app
  module_config (some cfg) name = elim (lookup name cfg.modules) [
    | none ↦ ok Y.zero_app
    | some raw ↦ elim (Y.marshal raw) [ err e ↦ err e | ok text ↦ Y.decode_app text Y.zero_app ]
  ]

unfoldable pub address : String → ℤ → String
address ip port = append (if is_blank ip then "0.0.0.0" else ip) (append ":" (format_int port))
