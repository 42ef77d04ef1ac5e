-- ===== src/Proxy/Tests.antt =====
-- A route with retries and a breaker, over a network that fails twice and then answers.
use service_forge.Prelude.{
  ℕ, ◌+◌, ◌≡◌, refl, String, Option, none, some, [], ◌∷◌, arith, ltb, lookup, if◌then◌else◌,
}
use service_forge.Prelude.Int.{pos}
use service_forge.Prelude.Float.{thousandths}
use service_forge.Prelude.Value.{null}
use service_forge.Errors.{
  code_unavailable, code_not_found, app, new, default_maps, http_status, grpc_code,
}
use service_forge.Errors.Status.{error_code}
use service_forge.Errors.Sample.{plain_status}
use service_forge.Errors.Result.{ok, err}
use service_forge.Breaker.{
  CircuitBreaker, state_closed, state_open, no_counts, before_request, after_request, current_state,
  on_success, on_failure,
}
use service_forge.Retry.{RetryPolicy, retryable, is_breaker_failure}
use service_forge.Balancer.{round_robin, pick, release}
use service_forge.Claims.{outgoing}
use service_forge.Dialer.{Network}
use service_forge.Proxy.{
  Upstream, Route, attempt_timeout, Session, pick_conn, invoke_once, pause, retry_loop,
  invoke_with_retry, invoke,
}
use service_forge.Proxy.{replied, panicked}
use service_forge.Proxy.Attempts.{IsEnd, invoke_with_retry_lem}
use service_forge.Proxy.Guarded.{rejection, panic_rejects}
use service_forge.Proxy.Handled.{handle_route, handle_open}
use service_forge.Errors.Response.{Response, success}
use service_forge.Routes.{Outcome, value, respond}

-- The state counts what happened; a connection is its target.
abbrev counting : Network
counting = record {
  World = ℕ;
  Conn = String;
  new_client = λ target w. (ok target, w);
  close_conn = λ conn w. (none, w);
  resolver = none;
}

-- The first `n` calls fail with the error.
abbrev flaky : ℕ → String → Upstream thousandths String
flaky n code = record {
  network = counting;
  invoker = λ timeout md conn w.
      (some (if ltb w n then err (app (new default_maps code "down")) else ok conn), w + 1);
  now = λ w. w;
  wait = λ d w. (none, w);
  rand_int = λ w n. 0;
  status = plain_status;
  maps = default_maps;
  claims = null;
}

abbrev policy : RetryPolicy
policy = record {
  max_attempts = 3;
  per_try_timeout = pos 0;
  backoff = pos 5;
  retry_on = (code_unavailable, tt) ∷ [];
}

abbrev route : Route String
route = record {
  full_rpc = "/pkg.Service/Call";
  target = "a:1";
  service = "";
  timeout = pos 9;
  retry = some policy;
  forwarder = none;
  conns = "a:1" ∷ "b:1" ∷ [];
}

abbrev breaker : CircuitBreaker thousandths
breaker = record {
  min_requests = 2;
  failure_ratio = 500;
  window = 100;
  open_timeout = 50;
  half_open_max_calls = 1;
  phase = state_closed;
  generation = 0;
  counts = no_counts;
  expiry = 100;
}

abbrev session : (n : ℕ) (code : String) (b : CircuitBreaker thousandths) → Session (flaky n code)
session n code b = record {
  balancer = round_robin 0;
  breaker = some b;
  dialer = record { conns = []; world = 0 };
}

proxy : Unit {0}
unfolding attempt_timeout pick_conn invoke_once pause retry_loop invoke_with_retry invoke
    before_request after_request current_state on_success on_failure retryable is_breaker_failure
    error_code new http_status grpc_code lookup pick release outgoing
proxy = tt

third_attempt_answers :
    (invoke (flaky 2 code_unavailable) route (session 2 code_unavailable breaker)).0
    ≡ replied (ok "b:1")
unfolding proxy
third_attempt_answers = refl

not_found_is_not_retried :
    (invoke (flaky 2 code_not_found) route (session 2 code_not_found breaker)).1.dialer.world ≡ 1
unfolding proxy
not_found_is_not_retried = refl

invoke_with_retry_lem_example :
    IsEnd
      (flaky 9 code_unavailable)
      route
      policy
      3
      0
      (session 9 code_unavailable breaker)
      (invoke_with_retry (flaky 9 code_unavailable) route (session 9 code_unavailable breaker))
invoke_with_retry_lem_example =
    invoke_with_retry_lem (flaky 9 code_unavailable) route policy
      (session 9 code_unavailable breaker) refl (omega arith)

abbrev opened : CircuitBreaker thousandths
opened = record breaker { phase = state_open; generation = 1; expiry = 50 }

-- An upstream whose replies are data for the envelope.
abbrev talking : Upstream thousandths (Outcome String)
talking = record {
  network = counting;
  invoker = λ timeout md conn w. (some (ok (value conn)), w + 1);
  now = λ w. w;
  wait = λ d w. (none, w);
  rand_int = λ w n. 0;
  status = plain_status;
  maps = default_maps;
  claims = null;
}

abbrev visit : CircuitBreaker thousandths → Session talking
visit b = record {
  balancer = round_robin 0;
  breaker = some b;
  dialer = record { conns = []; world = 0 };
}

closed_answers :
    (handle_route talking 7 route (visit breaker)).0 ≡ some (some (200, success 7 "b:1"))
unfolding proxy handle_route respond
closed_answers = refl

handle_open_example :
    (body : Response String) × (handle_route talking 7 route (visit opened)
      ≡ (some (some (http_status default_maps code_unavailable, body)), visit opened))
    × (body.code ≡ code_unavailable)
    × (body.payload ≡ none)
    × (lookup "rpc" body.details ≡ some "/pkg.Service/Call")
handle_open_example = handle_open talking 7 route (visit opened) opened refl refl (omega arith)

-- An upstream whose invoker panics at every call.
abbrev crashing : Upstream thousandths String
crashing = record {
  network = counting;
  invoker = λ timeout md conn w. (none, w + 1);
  now = λ w. w;
  wait = λ d w. (none, w);
  rand_int = λ w n. 0;
  status = plain_status;
  maps = default_maps;
  claims = null;
}

abbrev at : ℕ → Option (CircuitBreaker thousandths) → Session crashing
at now b = record {
  balancer = round_robin 0;
  breaker = b;
  dialer = record { conns = []; world = now };
}

probe_panics : (invoke crashing route (at 60 (some opened))).0 ≡ panicked
unfolding proxy
probe_panics = refl

-- A thousand years later
panic_rejects_example :
    let later =
      at 31_536_000_000_000_000_000 (invoke crashing route (at 60 (some opened))).1.breaker in
    invoke crashing route later ≡ (rejection crashing route, later)
panic_rejects_example =
    panic_rejects crashing route (at 60 (some opened))
      (at 31_536_000_000_000_000_000 (invoke crashing route (at 60 (some opened))).1.breaker) opened
      refl refl (omega arith) (omega arith) refl probe_panics refl
