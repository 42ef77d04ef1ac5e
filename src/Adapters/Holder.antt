-- ===== src/Adapters/Holder.antt =====
-- A module that opens one resource in Init, hands it to the other modules, and closes it in Stop: the
-- type Module of adapters/redis, adapters/postgres, adapters/rabbitmq, adapters/consul and adapters/otel.
-- The module's pointer to its resource, nil at first, stands beside the world `W`.
use service_forge.Prelude.{String, Bool, Option, none, some, [], ◌∷◌, Table, insert, if◌then◌else◌}
use service_forge.Errors.{Error}
use service_forge.Errors.Result.{Result, ok, err}
use service_forge.App.{Runtime, Module}

-- What differs between the adapters: `settings` is what `config.ModuleConfig` gives, `enabled` the test
-- on it, and `values` what Init sets, in its order.
pub record Holder (C A V W : Type 0) : Type 0 where
  pub name : String
  pub settings : Result C
  pub enabled : C → Bool
  pub open_new : C → W → Result A × W
  pub values : A → Table V
  pub close : A → W → Option Error × W
  pub ping : A → W → Option Error × W

module _ {C A V W : Type 0} (H : Holder C A V W) where
  -- `app.Set` for each value
  unfoldable pub set_all : Table V → Table V → Table V
  set_all [] values = values
  set_all ((key, value) ∷ rest) values = set_all rest (insert key value values)

  abbrev pub hold :
      Runtime V (Option A × W) → Result A × W → Option Error × Runtime V (Option A × W)
  hold r (err e, w) = (some e, record r { world = (r.world.0, w) })
  hold r (ok a, w) =
      (none, record r { values = set_all (H.values a) r.values; world = (some a, w) })

  abbrev pub init_with :
      Runtime V (Option A × W) → Result C → Option Error × Runtime V (Option A × W)
  init_with r (err e) = (some e, r)
  init_with r (ok cfg) = if H.enabled cfg then hold r (H.open_new cfg r.world.1) else (none, r)

  unfoldable pub init : Runtime V (Option A × W) → Option Error × Runtime V (Option A × W)
  unfolding set_all
  init r = init_with r H.settings

  unfoldable pub stop : Option A × W → Option Error × (Option A × W)
  stop (none, w) = (none, (none, w))
  stop (some a, w) = let (e, w') = H.close a w in (e, (some a, w'))

  unfoldable pub health : Option A × W → Option Error × (Option A × W)
  health (none, w) = (none, (none, w))
  health (some a, w) = let (e, w') = H.ping a w in (e, (some a, w'))

  unfoldable pub adapter : Module V (Option A × W)
  unfolding init stop health
  adapter = record {
    name = H.name;
    init = init;
    start = λ w. (none, w);
    stop = stop;
    health = health;
  }
