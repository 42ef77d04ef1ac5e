-- ===== src/Adapters/Tests.antt =====
-- The adapters over small client libraries: a broker with a queue, one that refuses an exchange, and
-- texts for the modules of the catalog.
use service_forge.Prelude.{
  insert, ℕ, suc, String, false, Option, none, some, List, [], ◌∷◌, ◌≡◌, refl, ap, lookup, length,
}
use service_forge.Prelude.Int.{pos}
use service_forge.Prelude.Text.{trim_space, to_lower, decimal}
use service_forge.App.{Runtime}
use service_forge.Adapters.Holder.{adapter, init, stop}
use service_forge.Adapters.Handles.{Handles, stop-init}
use service_forge.Adapters.Rabbitmq.{Config, EventBus, rabbitmq}
use service_forge.Prelude.{arith, Bool, true, not, ◌⊎◌, inl, inr, ◌≢◌, if◌then◌else◌}
use service_forge.Errors.{plain}
use service_forge.Errors.Result.{Result, ok}
use service_forge.Bus.{Message, Handler}
use service_forge.Adapters.Rabbitmq.{Amqp, Delivery, serve}
use service_forge.Adapters.Messages.{
  IsQueue, on_state, deliveries, one_subscriber, publish_all, serve-eq-publish_all,
}
use service_forge.Adapters.Postgres.{dsn, with_defaults}
use service_forge.Adapters.Defaults.{Adapters, default_catalog}

-- The world is the state of a subscriber beside the queue of the broker.
abbrev first_of : List (Delivery String) → Option (Delivery String)
first_of [] = none
first_of (d ∷ ds) = some d

abbrev rest_of : List (Delivery String) → List (Delivery String)
rest_of [] = []
rest_of (d ∷ ds) = ds

abbrev broker : Amqp String (ℕ × List (Delivery String))
broker = record {
  Conn = String;
  Chan = String;
  dial = λ url w. (ok url, w);
  open_channel = λ conn w. (ok conn, w);
  declare_exchange = λ ch exchange w. (none, w);
  publish = λ ch exchange topic p w. (none, w);
  declare_queue = λ ch w. (ok "q", w);
  bind_queue = λ ch q topic exchange w. (none, w);
  consume = λ ch q w. (none, w);
  receive = λ w. (first_of w.1, (w.0, rest_of w.1));
  ack = λ tag w. w;
  nack = λ tag w. w;
  close_channel = λ ch w. (none, w);
  close_conn = λ conn w. (none, w);
  is_closed = λ conn w. false;
  text = λ s. s;
  sprint = λ s. s;
}

abbrev message : String → Message
message name = record {
  id = name;
  topic = "";
  key = "k";
  headers = ("h", name) ∷ [];
  content_type = "";
  body = [];
}

-- The handler counts.
abbrev counter : Handler ℕ
counter msg s = (none, suc s)

abbrev sent : List (ℕ × Message)
sent = (1, message "a") ∷ (2, message "b") ∷ []

broker-IsQueue : IsQueue broker (λ q. q)
broker-IsQueue = record {
  receives = λ s b d ds q. (ds, ap (λ q. (first_of q, (s, rest_of q))) q, refl);
  acks = λ tag s b. (b, refl, refl);
}

serve-eq-publish_all_example :
    (serve broker 2 (on_state broker counter) (0, deliveries broker "t" sent)).0
    ≡ publish_all broker (one_subscriber broker "t" counter) "t" sent 0
serve-eq-publish_all_example =
    serve-eq-publish_all broker broker-IsQueue (λ s. refl) "t" counter (λ msg s. refl) sent 0
      (deliveries broker "t" sent) refl

dsn_of_defaults :
    dsn (
      with_defaults (record {
        host = "";
        port = pos 0;
        user = "u";
        password = "p";
        database = "d";
        ssl_mode = "";
        time_zone = "";
        max_open_conns = pos 0;
        max_idle_conns = pos 0;
        max_lifetime = pos 0;
      }))
    ≡ "host=localhost port=5432 user=u password=p dbname=d sslmode=disable TimeZone=Asia/Shanghai"
unfolding dsn decimal
dsn_of_defaults = refl

abbrev named_adapters : Adapters String
named_adapters = record {
  redis = "redis";
  memory_cache = "memory cache";
  postgres = "postgres";
  rabbitmq = "rabbitmq";
  memory_event_bus = "memory bus";
  consul = "consul";
  memory_registry = "memory registry";
  otel = "otel";
  noop = λ name key. name;
}

catalog_size : length (default_catalog named_adapters) ≡ 13
unfolding default_catalog insert to_lower trim_space
catalog_size = refl

noop_cache : lookup "cache.noop" (default_catalog named_adapters) ≡ some "cache.noop"
unfolding lookup default_catalog insert to_lower trim_space
noop_cache = refl

-- Which are open of a connection that stood before, the one that is dialed, and its channel. The exchange
-- is refused, which closes the channel.
abbrev Links : Type 0
Links = Bool × Bool × Bool

abbrev links : Amqp String Links
links = record {
  Conn = Bool;
  Chan = Unit {0};
  dial = λ url w. (ok true, (w.0, true, w.2));
  open_channel = λ conn w. (ok tt, (w.0, w.1, true));
  declare_exchange = λ ch exchange w. (some (plain "refused"), (w.0, w.1, false));
  publish = λ ch exchange topic p w. (none, w);
  declare_queue = λ ch w. (ok "q", w);
  bind_queue = λ ch q topic exchange w. (none, w);
  consume = λ ch q w. (none, w);
  receive = λ w. (none, w);
  ack = λ tag w. w;
  nack = λ tag w. w;
  close_channel = λ ch w. (none, (w.0, w.1, false));
  close_conn = λ conn w. (none, if conn then (w.0, false, false) else (false, w.1, w.2));
  is_closed = λ conn w. not w.1;
  text = λ s. s;
  sprint = λ s. s;
}

abbrev is_open : Bool ⊎ Unit {0} → Links → Bool
is_open (inl false) w = w.0
is_open (inl true) w = w.1
is_open (inr ch) w = w.2

links-dials :
    (w : Links) (h : Bool ⊎ Unit {0})
    → is_open h (w.0, true, w.2) ≡ true
    → (is_open h w ≡ true) ⊎ ((conn : Bool) × (ok true ≡ ok conn) × (h ≡ inl conn))
links-dials w (inl false) o = inl o
links-dials w (inl true) o = inr (true, refl, refl)
links-dials w (inr ch) o = inl o

links-opens :
    (w : Links) (h : Bool ⊎ Unit {0})
    → is_open h (w.0, w.1, true) ≡ true
    → (is_open h w ≡ true) ⊎ ((ch : Unit {0}) × (ok tt ≡ ok ch) × (h ≡ inr ch))
links-opens w (inl false) o = inl o
links-opens w (inl true) o = inl o
links-opens w (inr ch) o = inr (ch, refl, refl)

links-closes_channel :
    (w : Links) (h : Bool ⊎ Unit {0}) (ch : Unit {0})
    → is_open h (w.0, w.1, false) ≡ true
    → (is_open h w ≡ true) × (h ≢ inr ch)
links-closes_channel w (inl false) ch o = (o, λ q. ground (arith, q))
links-closes_channel w (inl true) ch o = (o, λ q. ground (arith, q))
links-closes_channel w (inr x) ch o = absurd (ground (arith, o))

links-closes_conn :
    (conn : Bool) (w : Links) (h : Bool ⊎ Unit {0})
    → is_open h (if conn then (w.0, false, false) else (false, w.1, w.2)) ≡ true
    → (is_open h w ≡ true) × (h ≢ inl conn)
links-closes_conn true w (inl false) o = (o, λ q. ground (arith, q))
links-closes_conn true w (inl true) o = absurd (ground (arith, o))
links-closes_conn true w (inr ch) o = absurd (ground (arith, o))
links-closes_conn false w (inl false) o = absurd (ground (arith, o))
links-closes_conn false w (inl true) o = (o, λ q. ground (arith, q))
links-closes_conn false w (inr ch) o = (o, λ q. ground (arith, q))

abbrev open_links : Handles links
open_links = record {
  IsOpen = λ h w. is_open h w ≡ true;
  dials = λ url w h o. links-dials w h o;
  opens = λ conn w h o. links-opens w h o;
  declares = λ ch exchange w h o. (links-closes_channel w h tt o).0;
  closes_channel = λ ch w h o. links-closes_channel w h ch o;
  closes_conn = λ conn w h o. links-closes_conn conn w h o;
}

abbrev unset : Runtime String (Option (EventBus links) × Links)
unset = record { values = []; world = (none, (true, false, false)) }

abbrev settings : Result Config
settings = ok (record { url = ""; exchange = "" })

stop-init_example : is_open (inl false) unset.world.1 ≡ true
unfolding adapter init stop rabbitmq
stop-init_example = stop-init links open_links (inl false) (λ b. "bus") settings unset refl refl
