-- ===== src/Adapters/Redis.antt =====
-- The cache over Redis (adapters/redis/redis.go). `Redis` is the client library, whose client is created
-- without a connection; bytes are texts.
use service_forge.Prelude.{
  ℕ, String, Bool, true, ltb, Option, none, some, List, [], ◌∷◌, if◌then◌else◌,
}
use service_forge.Prelude.Text.{is_empty}
use service_forge.Prelude.Int.{ℤ}
use service_forge.Errors.{Error}
use service_forge.Errors.Result.{Result, ok}
use service_forge.Adapters.Holder.{Holder}

pub record Config : Type 0 where
  pub addr : String
  pub username : String
  pub password : String
  pub db : ℤ
  pub pool_size : ℤ
  pub dial_timeout : ℤ
  pub read_timeout : ℤ
  pub write_timeout : ℤ

-- The value of a command may stand beside an error.
pub record Redis (W : Type 0) : Type 1 where
  pub Client : Type 0
  pub new_client : Config → W → Client × W
  pub get : Client → String → W → (String × Option Error) × W
  pub is_nil : Error → Bool
  pub set : Client → String → String → ℤ → W → Option Error × W
  pub del : Client → List String → W → Option Error × W
  pub exists : Client → String → W → (ℕ × Option Error) × W
  pub close : Client → W → Option Error × W
  pub ping : Client → W → Option Error × W

module _ {W : Type 0} (R : Redis W) where
  unfoldable pub new_cache : Config → W → Result R.Client × W
  new_cache cfg w =
      let (client, w') =
        R.new_client
          (record cfg { addr = if is_empty cfg.addr then "localhost:6379" else cfg.addr }) w in
      (ok client, w')

  -- The nil bytes are `none`.
  abbrev read_value : String × Option Error → Option String × Option Error
  read_value (value, none) = (some value, none)
  read_value (value, some e) = (if R.is_nil e then none else some value, some e)

  unfoldable pub get : R.Client → String → W → (Option String × Option Error) × W
  get client key w = let (reply, w') = R.get client key w in (read_value reply, w')

  unfoldable pub set : R.Client → String → String → ℤ → W → Option Error × W
  set client key value ttl w = R.set client key value ttl w

  unfoldable pub delete : R.Client → List String → W → Option Error × W
  delete client keys w = R.del client keys w

  unfoldable pub exists : R.Client → String → W → (Bool × Option Error) × W
  exists client key w = let (reply, w') = R.exists client key w in ((ltb 0 reply.0, reply.1), w')

  unfoldable pub redis :
      {V : Type 0} → (R.Client → V) → (R.Client → V) → Result Config → Holder Config R.Client V W
  unfolding new_cache
  redis of_cache of_client settings = record {
    name = "cache.redis";
    settings = settings;
    enabled = λ cfg. true;
    open_new = new_cache;
    values = λ c. ("cache", of_cache c) ∷ ("redis", of_client c) ∷ [];
    close = R.close;
    ping = R.ping;
  }
