-- ===== src/Proxy.antt =====
-- The unary proxy of a gateway route (transport/gateway/proxy.go): an attempt, the retries, and the
-- breaker around them.
pub mod Attempts
pub mod Guarded
pub mod Handled
mod Tests
use service_forge.Prelude.{
  ℕ, zero, suc, ◌+◌, ◌≤◌, ◌<◌, String, Bool, true, false, not, ◌&&◌, ltb, Option, none, some, List,
  [], ◌∷◌, get_elem?, length, if◌then◌else◌,
}
use service_forge.Prelude.Text.{is_blank}
use service_forge.Prelude.Int.{ℤ, is_pos}
use service_forge.Prelude.Float.{Float64}
use service_forge.Prelude.Value.{Value}
use service_forge.Errors.{
  code_unavailable, code_deadline_exceeded, Error, app, CodeMaps, new, with_cause, with_details,
}
use service_forge.Errors.Status.{GrpcStatus}
use service_forge.Errors.Result.{Result, ok, err}
use service_forge.Breaker.{CircuitBreaker, before_request, after_request}
use service_forge.Retry.{RetryPolicy, retryable, is_breaker_failure}
use service_forge.Balancer.{Balancer, Release, noop_release, pick, release}
use service_forge.Claims.{ClaimForwarder, Forwarded, metadata, refused, outgoing}
use service_forge.Dialer.{Network, Dialer, dial_target, dial_service}

-- What a request meets outside the gateway's code: the network, the route's invoker (with its deadline,
-- if any, and the claim metadata), the clock, a wait that ends by the backoff (`none`) or by the
-- context's error, and random numbers. An invoker that panics has no result. `claims` is the local `jwt_claims` of the request.
pub record Upstream (F : Float64) (A : Type 0) : Type 1 where
  pub network : Network
  pub invoker :
      Option ℤ
      → List (String × String)
      → network.Conn
      → network.World
      → Option (Result A) × network.World
  pub now : network.World → ℕ
  pub wait : ℤ → network.World → Option Error × network.World
  pub rand_int : network.World → ℕ → ℕ
  pub status : GrpcStatus
  pub maps : CodeMaps
  pub claims : Value F.Carrier

-- What a call comes to: a result or an error, a nil result beside a nil error, or a panic.
pub data Reply (A : Type 0) : Type 0 where
  replied : Result A → Reply A
  no_reply : Reply A
  panicked : Reply A

-- The parts of `proxyRoute` that do not change, for a pool of connections `conns`.
pub record Route (Conn : Type 0) : Type 0 where
  pub full_rpc : String
  pub target : String
  pub service : String
  pub timeout : ℤ
  pub retry : Option RetryPolicy
  pub forwarder : Option ClaimForwarder
  pub conns : List Conn

-- `attemptTimeout`, and the test `timeout > 0` on it
unfoldable pub attempt_timeout : {Conn : Type 0} → Route Conn → ℤ
attempt_timeout r = elim r.retry [
  | none ↦ r.timeout
  | some p ↦ if is_pos p.per_try_timeout then p.per_try_timeout else r.timeout
]

abbrev pub deadline : {Conn : Type 0} → Route Conn → Option ℤ
deadline r = if is_pos (attempt_timeout r) then some (attempt_timeout r) else none

module _ {F : Float64} {A : Type 0} (U : Upstream F A) where
  -- What the calls of a route change: its balancer, its breaker, the dialer and the network.
  pub record Session : Type 0 where
    pub balancer : Balancer
    pub breaker : Option (CircuitBreaker F)
    pub dialer : Dialer U.network

  -- `pickConn`; the connection is nil where there is no pool.
  unfoldable pub pick_conn :
      Route U.network.Conn → Session → Option U.network.Conn × Release × Session
  pick_conn r s = elim r.conns [
    | [] ↦ (none, noop_release, s)
    | conn ∷ rest ↦ elim rest [
      | [] ↦ (some conn, noop_release, s)
      | _ ∷ _ ↦
          let (i, b, rel) = pick (U.rand_int s.dialer.world) (length r.conns) s.balancer in
          (get_elem? r.conns i, rel, record s { balancer = b })
    ]
  ]

  unfoldable pub dial :
      Route U.network.Conn → Dialer U.network → Result U.network.Conn × Dialer U.network
  dial r d =
      if is_blank r.target
      then dial_service U.network r.service d
      else dial_target U.network r.target d

  abbrev with_world : Session → U.network.World → Session
  with_world s w = record s { dialer = record (s.dialer) { world = w } }

  -- The claims are forwarded, then the invoker runs.
  abbrev forward_and_call :
      Route U.network.Conn → U.network.Conn → Session → Forwarded → Option (Result A) × Session
  forward_and_call r conn s (refused e) = (some (err e), s)
  forward_and_call r conn s (metadata md) =
      let (reply, w) = U.invoker (deadline r) md conn s.dialer.world in (reply, with_world s w)

  abbrev call_on : Route U.network.Conn → U.network.Conn → Session → Option (Result A) × Session
  call_on r conn s = forward_and_call r conn s (outgoing F U.maps r.forwarder U.claims)

  abbrev call_dialed :
      Route U.network.Conn
      → Session
      → Result U.network.Conn × Dialer U.network
      → Option (Result A) × Session
  call_dialed r s (err e, d) = (
    some (err (app (with_cause e (new U.maps code_unavailable "grpc target unavailable")))),
    record s { dialer = d },
  )
  call_dialed r s (ok conn, d) = call_on r conn (record s { dialer = d })

  abbrev call_picked :
      Route U.network.Conn → Option U.network.Conn → Session → Option (Result A) × Session
  call_picked r none s = call_dialed r s (dial r s.dialer)
  call_picked r (some conn) s = call_on r conn s

  -- The deferred release runs after everything else, also where the invoker panics.
  unfoldable pub invoke_once : Route U.network.Conn → Session → Option (Result A) × Session
  invoke_once r s =
      let (conn, rel, s') = pick_conn r s in
      let (reply, s'') = call_picked r conn s' in
      (reply, record s'' { balancer = release rel s''.balancer })

  -- The wait before an attempt: none before the first, and none without a backoff.
  unfoldable pub pause : RetryPolicy → ℕ → Session → Option Error × Session
  pause p attempt s =
      if ltb 0 attempt && is_pos p.backoff
      then (let (e, w) = U.wait p.backoff s.dialer.world in (e, with_world s w))
      else (none, s)

  abbrev reply_of : Option (Result A) → Reply A
  reply_of none = panicked
  reply_of (some result) = replied result

  -- The reply of the loop where no attempt is left.
  abbrev last_error : Option Error → Reply A
  last_error none = no_reply
  last_error (some e) = replied (err e)

  -- The loop of `invokeWithRetry`, with the attempts that are left, the number of the attempt, and the
  -- last error.
  unfoldable pub retry_loop :
      Route U.network.Conn → RetryPolicy → ℕ → ℕ → Option Error → Session → Reply A × Session
  retry_loop r p zero attempt last s = (last_error last, s)
  retry_loop r p (suc left) attempt last s =
      let (aborted, s') = pause p attempt s in
      elim aborted [
        | some cause ↦ (
          replied (
              err (
                app
                  (with_cause cause (new U.maps code_deadline_exceeded "gateway retry aborted")))),
          s',
        )
        | none ↦
            let (reply, s'') = invoke_once r s' in
            elim reply [
              | none ↦ (panicked, s'')
              | some result ↦ elim result [
                | ok a ↦ (replied (ok a), s'')
                | err e ↦
                    let again = retry_loop r p left (attempt + 1) (some e) s'' in
                    if retryable U.status U.maps p (some e) then again else (replied (err e), s'')
              ]
            ]
      ]

  unfoldable pub invoke_with_retry : Route U.network.Conn → Session → Reply A × Session
  invoke_with_retry r s = elim r.retry [
    | none ↦ let (reply, s') = invoke_once r s in (reply_of reply, s')
    | some p ↦ retry_loop r p p.max_attempts 0 none s
  ]

  abbrev pub error_of : Reply A → Option Error
  error_of (replied (err e)) = some e
  error_of (replied (ok a)) = none
  error_of no_reply = none
  error_of panicked = none

  abbrev now_of : Session → ℕ
  now_of s = U.now s.dialer.world

  -- `route.breaker.afterRequest(gen, ...)`
  abbrev record_outcome : Option (CircuitBreaker F) → ℕ → Bool → ℕ → Option (CircuitBreaker F)
  record_outcome none gen success now = none
  record_outcome (some b) gen success now = some (after_request gen success now b)

  abbrev recorded : ℕ → Reply A → Session → Session
  recorded gen reply s =
      let success = not (is_breaker_failure U.status U.maps (error_of reply)) in
      record s { breaker = record_outcome s.breaker gen success (now_of s) }

  -- The outcome is recorded behind the call and not deferred, so a panic records none.
  abbrev after_call : ℕ → Reply A × Session → Reply A × Session
  after_call gen (panicked, s) = (panicked, s)
  after_call gen (no_reply, s) = (no_reply, recorded gen no_reply s)
  after_call gen (replied result, s) = (replied result, recorded gen (replied result) s)

  abbrev guarded : Route U.network.Conn → Session → CircuitBreaker F × ℕ × Bool → Reply A × Session
  guarded r s (b, gen, false) = (
    replied (
        err (
          app
            (with_details "rpc" r.full_rpc (new U.maps code_unavailable "circuit breaker open")))),
    record s { breaker = some b },
  )
  guarded r s (b, gen, true) = after_call gen (invoke_with_retry r (record s { breaker = some b }))

  -- `Invoke`
  unfoldable pub invoke : Route U.network.Conn → Session → Reply A × Session
  invoke r s = elim s.breaker [
    | none ↦ invoke_with_retry r s
    | some b ↦ guarded r s (before_request (now_of s) b)
  ]
