-- ===== src/Adapters/Postgres.antt =====
-- The store over PostgreSQL (adapters/postgres/postgres.go). `Gorm` is the client library; a handle of a
-- transaction is a database, as in gorm. A context is reduced to the transaction that it carries.
use Prim.Native.String.{◌++◌ as append}
use service_forge.Prelude.{zero, String, true, Option, none, some, [], ◌∷◌, if◌then◌else◌}
use service_forge.Prelude.Text.{is_empty}
use service_forge.Prelude.Int.{ℤ, pos, is_pos}
use service_forge.Prelude.Decimal.{format_int}
use service_forge.Errors.{Error}
use service_forge.Errors.Result.{Result, ok, err}
use service_forge.Adapters.Holder.{Holder}

pub record Config : Type 0 where
  pub host : String
  pub port : ℤ
  pub user : String
  pub password : String
  pub database : String
  pub ssl_mode : String
  pub time_zone : String
  pub max_open_conns : ℤ
  pub max_idle_conns : ℤ
  pub max_lifetime : ℤ

pub record Gorm (W : Type 0) : Type 1 where
  -- *gorm.DB, and *sql.DB behind it
  pub Db : Type 0
  pub Sql : Type 0
  pub open_dsn : String → W → Result Db × W
  pub sql_of : Db → W → Result Sql × W
  pub set_max_open_conns : Sql → ℤ → W → W
  pub set_max_idle_conns : Sql → ℤ → W → W
  pub set_conn_max_lifetime : Sql → ℤ → W → W
  -- `db.Transaction`: it hands a transaction to the function
  pub transaction : Db → (Db → W → Option Error × W) → W → Option Error × W
  pub close_sql : Sql → W → Option Error × W
  pub ping : Sql → W → Option Error × W

abbrev or_default : String → String → String
or_default default value = if is_empty value then default else value

abbrev or_port : ℤ → ℤ
or_port (pos zero) = pos 5432
or_port port = port

abbrev pub with_defaults : Config → Config
with_defaults cfg = record cfg {
  host = or_default "localhost" cfg.host;
  port = or_port cfg.port;
  ssl_mode = or_default "disable" cfg.ssl_mode;
  time_zone = or_default "Asia/Shanghai" cfg.time_zone;
}

-- The text of a connection's parameter, and the rest of them.
abbrev setting : String → String → String → String
setting name value rest = append name (append "=" (append value rest))

unfoldable pub dsn : Config → String
unfolding format_int
dsn cfg = setting "host" cfg.host (
    setting " port" (format_int cfg.port) (
      setting " user" cfg.user (
        setting " password" cfg.password (
          setting " dbname" cfg.database
            (setting " sslmode" cfg.ssl_mode (setting " TimeZone" cfg.time_zone ""))))))

module _ {W : Type 0} (G : Gorm W) where
  pub record Store : Type 0 where
    pub db : G.Db

  abbrev if_pos : ℤ → (ℤ → W → W) → W → W
  if_pos n f w = if is_pos n then f n w else w

  -- The limits of the pool, each only where it is set.
  abbrev pub limited : Config → G.Sql → W → W
  limited cfg sql w = if_pos cfg.max_lifetime (G.set_conn_max_lifetime sql) (
      if_pos cfg.max_idle_conns (G.set_max_idle_conns sql)
        (if_pos cfg.max_open_conns (G.set_max_open_conns sql) w))

  abbrev pub with_sql : Config → G.Db → Result G.Sql × W → Result Store × W
  with_sql cfg db (err e, w) = (err e, w)
  with_sql cfg db (ok sql, w) = (ok (record { db = db }), limited cfg sql w)

  abbrev pub with_db : Config → Result G.Db × W → Result Store × W
  with_db cfg (err e, w) = (err e, w)
  with_db cfg (ok db, w) = with_sql cfg db (G.sql_of db w)

  unfoldable pub new_store : Config → W → Result Store × W
  unfolding dsn
  new_store cfg w = with_db cfg (G.open_dsn (dsn (with_defaults cfg)) w)

  -- `DB`
  unfoldable pub db_of : Store → Option G.Db → G.Db
  db_of s none = s.db
  db_of s (some tx) = tx

  -- The function is given a context with the transaction.
  unfoldable pub within_tx :
      Store → Option G.Db → (Option G.Db → W → Option Error × W) → W → Option Error × W
  within_tx s ctx f w = G.transaction s.db (λ tx. f (some tx)) w

  abbrev on_sql : (G.Sql → W → Option Error × W) → Result G.Sql × W → Option Error × W
  on_sql f (err e, w) = (some e, w)
  on_sql f (ok sql, w) = f sql w

  unfoldable pub close : Store → W → Option Error × W
  close s w = on_sql G.close_sql (G.sql_of s.db w)

  unfoldable pub health : Store → W → Option Error × W
  health s w = on_sql G.ping (G.sql_of s.db w)

  unfoldable pub postgres :
      {V : Type 0} → (Store → V) → (G.Db → V) → Result Config → Holder Config Store V W
  unfolding new_store close health
  postgres of_store of_db settings = record {
    name = "store.postgres";
    settings = settings;
    enabled = λ cfg. true;
    open_new = new_store;
    values = λ s. ("store", of_store s) ∷ ("tx_manager", of_store s) ∷ ("gorm", of_db s.db) ∷ [];
    close = close;
    ping = health;
  }
