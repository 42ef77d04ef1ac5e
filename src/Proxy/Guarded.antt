-- ===== src/Proxy/Guarded.antt =====
-- The breaker around a proxied call (transport/gateway/proxy.go, `Invoke`).
use service_forge.Prelude.{
  ℕ, zero, suc, ◌+◌, ◌≤◌, ◌<◌, ◌≡◌, refl, inl, inr, true, Option, none, some, arith, ◌∙◌, ap, sym,
  Option-cases,
}
use service_forge.Prelude.Float.{Float64}
use service_forge.Errors.{Error, code_unavailable, app, new, with_details}
use service_forge.Errors.Result.{Result, ok, err}
use service_forge.Retry.{RetryPolicy}
use service_forge.Proxy.{
  Upstream, Route, Session, Reply, replied, no_reply, panicked, invoke_once, pause,
  invoke_with_retry, pick_conn, invoke, forward_and_call, call_dialed, call_picked, dial,
  after_call,
}
use service_forge.Dialer.{Dialer}
use service_forge.Claims.{Forwarded, metadata, refused, outgoing}
use service_forge.Proxy.Attempts.{
  Failed, here, failed, attempt, EndsFrom, Ending, retry_loop-EndsFrom, invoke_with_retry_policy,
}
use service_forge.Breaker.{CircuitBreaker, state_open, state_half_open, before_request}
use service_forge.Breaker.Gate.{open_rejects, open_probes_once, half_open_full}

module _ {F : Float64} {A : Type 0} (U : Upstream F A) where
  -- Attempts and waits leave the breaker alone.
  module _ (r : Route U.network.Conn) where
    forward_and_call-breaker :
        (conn : U.network.Conn) (s : Session U) (fw : Forwarded)
        → (forward_and_call U r conn s fw).1.breaker ≡ s.breaker
    forward_and_call-breaker conn s (refused e) = refl
    forward_and_call-breaker conn s (metadata md) = refl

    call_dialed-breaker :
        (s : Session U) (d : Result U.network.Conn × Dialer U.network)
        → (call_dialed U r s d).1.breaker ≡ s.breaker
    call_dialed-breaker s (err e, d) = refl
    call_dialed-breaker s (ok conn, d) =
        forward_and_call-breaker conn (record s { dialer = d })
          (outgoing F U.maps r.forwarder U.claims)

    call_picked-breaker :
        (conn : Option U.network.Conn) (s : Session U)
        → (call_picked U r conn s).1.breaker ≡ s.breaker
    call_picked-breaker none s = call_dialed-breaker s (dial U r s.dialer)
    call_picked-breaker (some conn) s =
        forward_and_call-breaker conn s (outgoing F U.maps r.forwarder U.claims)

    pick_conn-breaker : (s : Session U) → (pick_conn U r s).2.breaker ≡ s.breaker
    unfolding pick_conn
    pick_conn-breaker s = ground arith

    invoke_once-breaker : (s : Session U) → (invoke_once U r s).1.breaker ≡ s.breaker
    unfolding invoke_once
    invoke_once-breaker s =
        call_picked-breaker (pick_conn U r s).0 (pick_conn U r s).2 ∙ pick_conn-breaker s

    pause-breaker :
        (p : RetryPolicy) (n : ℕ) (s : Session U) → (pause U p n s).1.breaker ≡ s.breaker
    unfolding pause
    pause-breaker p n s = ground arith

    attempt-breaker :
        (p : RetryPolicy) (n : ℕ) (s : Session U) → (attempt U r p n s).1.breaker ≡ s.breaker
    attempt-breaker p n s = invoke_once-breaker (pause U p n s).1 ∙ pause-breaker p n s

    Failed-breaker :
        (p : RetryPolicy) (n k : ℕ) (s t : Session U) → Failed U r p n k s t → t.breaker ≡ s.breaker
    Failed-breaker p n k s t here = refl
    Failed-breaker p n k s t (failed e go f again more) =
        Failed-breaker p (n + 1) k (attempt U r p n s).1 t more ∙ attempt-breaker p n s

    Ending-breaker :
        (p : RetryPolicy) (max k : ℕ) (u : Session U) (out : Reply A × Session U)
        → Ending U r p max k u out
        → out.1.breaker ≡ u.breaker
    Ending-breaker p max k u out (inl (cause, q, reply)) =
        ap (λ x. x.1.breaker) (sym q) ∙ pause-breaker p k u
    Ending-breaker p max k u out (inr (x, go, q, final, reply)) =
        ap (λ x. x.1.breaker) (sym q) ∙ attempt-breaker p k u

    EndsFrom-breaker :
        (p : RetryPolicy) (max n left : ℕ) (last : Option Error) (s : Session U)
        (out : Reply A × Session U)
        → EndsFrom U r p max n left last s out
        → out.1.breaker ≡ s.breaker
    EndsFrom-breaker p max n zero last s out q = ap (λ x. x.1.breaker) q
    EndsFrom-breaker p max n (suc left) last s out (k, below, u, before, ending) =
        Ending-breaker p max k u out ending ∙ Failed-breaker p n k s u before

    invoke_with_retry-breaker : (s : Session U) → (invoke_with_retry U r s).1.breaker ≡ s.breaker
    unfolding invoke_with_retry
    invoke_with_retry-breaker s = elim (Option-cases r.retry) [
      | inl e ↦ ground (arith, invoke_once-breaker s)
      | inr (p, e) ↦
          ap (λ x. x.1.breaker) (invoke_with_retry_policy U r p s e)
          ∙ EndsFrom-breaker p p.max_attempts 0 p.max_attempts none s _
              (retry_loop-EndsFrom U r p p.max_attempts 0 p.max_attempts none s (omega arith))
    ]

  -- The answer to a call that the breaker of a route refuses.
  abbrev pub rejection : Route U.network.Conn → Reply A
  rejection r = replied (
      err
        (app (with_details "rpc" r.full_rpc (new U.maps code_unavailable "circuit breaker open"))))

  -- While the breaker is open a call is refused as UNAVAILABLE, naming the RPC; nothing is dialed or
  -- called, and no state changes.
  pub invoke_open :
      (r : Route U.network.Conn) (s : Session U) (b : CircuitBreaker F)
      → s.breaker ≡ some b
      → b.phase ≡ state_open
      → U.now s.dialer.world < b.expiry
      → invoke U r s ≡ (rejection r, s)
  unfolding invoke
  invoke_open r s b e p h = ground (arith, open_rejects (U.now s.dialer.world) b p h)

  invoke_full :
      (r : Route U.network.Conn) (s : Session U) (b : CircuitBreaker F)
      → s.breaker ≡ some b
      → b.phase ≡ state_half_open
      → b.half_open_max_calls ≤ b.counts.requests
      → invoke U r s ≡ (rejection r, s)
  unfolding invoke
  invoke_full r s b e p h = ground (arith, half_open_full (U.now s.dialer.world) b p h)

  after_call-panicked :
      (gen : ℕ) (out : Reply A × Session U)
      → (after_call U gen out).0 ≡ panicked
      → (after_call U gen out).1.breaker ≡ out.1.breaker
  after_call-panicked gen (panicked, s) h = refl
  after_call-panicked gen (replied x, s) h = ground (arith, h)
  after_call-panicked gen (no_reply, s) h = ground (arith, h)

  -- A panic of an admitted call leaves the breaker as its admission did: no outcome is recorded.
  invoke_panicked :
      (r : Route U.network.Conn) (s : Session U) (b : CircuitBreaker F)
      → s.breaker ≡ some b
      → (before_request (U.now s.dialer.world) b).2 ≡ true
      → (invoke U r s).0 ≡ panicked
      → (invoke U r s).1.breaker ≡ some (before_request (U.now s.dialer.world) b).0
  unfolding invoke
  invoke_panicked r s b e a h =
      let (b', gen, allowed) = before_request (U.now s.dialer.world) b in
      let probe : Session U = record s { breaker = some b' } in
      let out = invoke_with_retry U r probe in
      let called : invoke U r s ≡ after_call U gen out = ground (arith, e, a) in
      ap (λ x. x.1.breaker) called
      ∙ after_call-panicked gen out (sym (ap (λ x. x.0) called) ∙ h)
      ∙ invoke_with_retry-breaker r probe

  -- Where the timeout of an open breaker with a quota of one probe has passed and the probe panics, every
  -- later call is refused and changes nothing, whatever time has passed.
  pub panic_rejects :
      (r : Route U.network.Conn) (s u : Session U) (b : CircuitBreaker F)
      → s.breaker ≡ some b
      → b.phase ≡ state_open
      → 0 < b.expiry
      → b.expiry ≤ U.now s.dialer.world
      → b.half_open_max_calls ≡ 1
      → (invoke U r s).0 ≡ panicked
      → u.breaker ≡ (invoke U r s).1.breaker
      → invoke U r u ≡ (rejection r, u)
  panic_rejects r s u b e p armed h q panics same =
      let now = U.now s.dialer.world in
      let (admitted, half_open, full) = open_probes_once now b p h armed q in
      invoke_full r u (before_request now b).0 (same ∙ invoke_panicked r s b e admitted panics)
        half_open full
