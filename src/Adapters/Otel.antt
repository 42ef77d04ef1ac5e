-- ===== src/Adapters/Otel.antt =====
-- The tracing provider of OpenTelemetry (adapters/otel/otel.go). `Otel` is its SDK.
use service_forge.Prelude.{
  String, Bool, not, ◌&&◌, ◌||◌, Option, none, some, [], ◌∷◌, Table, if◌then◌else◌,
}
use service_forge.Prelude.Text.{is_empty}
use service_forge.Prelude.Int.{pos}
use service_forge.Prelude.Float.{Float64}
use service_forge.Errors.{Error}
use service_forge.Errors.Result.{Result, ok, err}
use service_forge.Adapters.Holder.{Holder}

pub record Config (F : Float64) : Type 0 where
  pub enabled : Bool
  pub endpoint : String
  pub service_name : String
  pub sample_rate : F.Carrier

pub record Otel (F : Float64) (W : Type 0) : Type 1 where
  pub Exporter : Type 0
  pub Resource : Type 0
  pub Provider : Type 0
  pub Tracer : Type 0
  pub Span : Type 0
  -- an endpoint that is reached without TLS, if one is set
  pub new_exporter : Option String → W → Result Exporter × W
  pub new_resource : String → W → Result Resource × W
  -- with a batcher and a sampler of a ratio of the traces, and set as the global provider
  pub new_provider : Exporter → Resource → F.Carrier → W → Provider × W
  pub shutdown : Provider → W → Option Error × W
  pub tracer : Provider → String → Tracer
  pub start : Tracer → String → Table String → W → Span × W
  pub set_attributes : Span → Table String → W → W
  pub record_error : Span → Error → W → W
  pub end_span : Span → W → W

module _ {F : Float64} {W : Type 0} (O : Otel F W) where
  -- `a > b`, which holds of no NaN
  abbrev pub gt : F.Carrier → F.Carrier → Bool
  gt a b = F.le b a && not (F.eq a b)

  abbrev pub sample_rate_of : F.Carrier → F.Carrier
  sample_rate_of rate =
      if F.le rate (F.from_int (pos 0)) || gt rate (F.from_int (pos 1))
      then F.from_int (pos 1)
      else rate

  abbrev pub with_resource : F.Carrier → O.Exporter → Result O.Resource × W → Result O.Provider × W
  with_resource rate exporter (err e, w) = (err e, w)
  with_resource rate exporter (ok res, w) =
      let (provider, w') = O.new_provider exporter res rate w in (ok provider, w')

  abbrev pub with_exporter : F.Carrier → String → Result O.Exporter × W → Result O.Provider × W
  with_exporter rate name (err e, w) = (err e, w)
  with_exporter rate name (ok exporter, w) = with_resource rate exporter (O.new_resource name w)

  unfoldable pub new_provider : Config F → String → W → Result O.Provider × W
  new_provider cfg name w =
      with_exporter (sample_rate_of cfg.sample_rate)
        (if is_empty cfg.service_name then name else cfg.service_name)
        (O.new_exporter (if is_empty cfg.endpoint then none else some cfg.endpoint) w)

  -- `Start` of a tracer; each attribute is a text.
  unfoldable pub start_span : O.Tracer → String → Table String → W → O.Span × W
  start_span tracer name attributes w = O.start tracer name attributes w

  unfoldable pub set_attributes : O.Span → Table String → W → W
  set_attributes span attributes w = O.set_attributes span attributes w

  unfoldable pub record_error : O.Span → Error → W → W
  record_error span e w = O.record_error span e w

  unfoldable pub end_span : O.Span → W → W
  end_span span w = O.end_span span w

  -- `app_name` is the configured name of the application.
  unfoldable pub otel :
      {V : Type 0}
      → (O.Provider → V)
      → String
      → Result (Config F)
      → Holder (Config F) O.Provider V W
  unfolding new_provider
  otel value app_name settings = record {
    name = "tracing.otel";
    settings = settings;
    enabled = λ cfg. cfg.enabled;
    open_new = λ cfg w. new_provider cfg app_name w;
    values = λ p. ("tracing", value p) ∷ [];
    close = O.shutdown;
    ping = λ p w. (none, w);
  }
