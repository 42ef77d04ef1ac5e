-- ===== src/Proxy/Attempts.antt =====
-- How many attempts a proxied call makes and how it ends (transport/gateway/proxy.go,
-- `invokeWithRetry`).
use service_forge.Prelude.{
  ℕ, zero, suc, ◌+◌, ◌<◌, ◌≡◌, refl, ◌⊎◌, inl, inr, true, false, Option, none, some, arith,
  Option-cases, Bool-cases, subst, sym, ap, ◌∙◌,
}
use service_forge.Prelude.Float.{Float64}
use service_forge.Errors.{code_deadline_exceeded, Error, app, new, with_cause}
use service_forge.Errors.Result.{Result, ok, err, Result-cases}
use service_forge.Retry.{RetryPolicy, retryable}
use service_forge.Proxy.{
  Upstream, Route, Session, Reply, replied, reply_of, last_error, invoke_once, pause, retry_loop,
  invoke_with_retry,
}

module _ {F : Float64} {A : Type 0} (U : Upstream F A) (r : Route U.network.Conn)
    (p : RetryPolicy) where
  -- The attempt of a number, behind its wait.
  abbrev pub attempt : ℕ → Session U → Option (Result A) × Session U
  attempt n s = invoke_once U r (pause U p n s).1

  -- `Failed n k s t`: from `s` to `t` the attempts from number `n` up to number `k` are made, and each
  -- ends with an error that is to be retried.
  pub data Failed : ℕ → ℕ → Session U → Session U → Type 0 where
    here : {n : ℕ} {s : Session U} → Failed n n s s
    failed :
        {n k : ℕ} {s t : Session U} (e : Error)
        → (pause U p n s).0 ≡ none
        → (attempt n s).0 ≡ some (err e)
        → retryable U.status U.maps p (some e) ≡ true
        → Failed (n + 1) k (attempt n s).1 t
        → Failed n k s t

  -- The error of a call whose context ends while it waits for its next attempt.
  abbrev pub aborted : Error → Error
  aborted cause = app (with_cause cause (new U.maps code_deadline_exceeded "gateway retry aborted"))

  -- What an attempt, of a number below `max`, has to end with to be the last.
  abbrev pub IsFinal : ℕ → ℕ → Option (Result A) → Type 0
  IsFinal max k none = Unit
  IsFinal max k (some (ok a)) = Unit
  IsFinal max k (some (err e)) = (retryable U.status U.maps p (some e) ≡ false) ⊎ (k + 1 ≡ max)

  -- How a call ends behind its attempts below number `k`: its context ends in the wait, or attempt `k`
  -- is the last, and what it comes to is the reply.
  abbrev pub Ending : ℕ → ℕ → Session U → Reply A × Session U → Type 0
  Ending max k u (reply, t) =
      ((cause : Error) × (pause U p k u ≡ (some cause, t))
        × (reply ≡ replied (err (aborted cause))))
      ⊎ ((x : Option (Result A)) × ((pause U p k u).0 ≡ none)
          × (attempt k u ≡ (x, t))
          × IsFinal max k x
          × (reply ≡ reply_of U x))

  abbrev pub IsEnd : ℕ → ℕ → Session U → Reply A × Session U → Type 0
  IsEnd max n s out = (k : ℕ) × (k < max) × (u : Session U) × Failed n k s u × Ending max k u out

  -- What a loop with attempts left comes to, and one without.
  abbrev pub EndsFrom : ℕ → ℕ → ℕ → Option Error → Session U → Reply A × Session U → Type 0
  EndsFrom max n zero last s out = out ≡ (last_error U last, s)
  EndsFrom max n (suc left) last s out = IsEnd max n s out

  after_failure :
      (max n left : ℕ) (e : Error) (s : Session U) (out : Reply A × Session U)
      → n + left + 1 ≡ max
      → (pause U p n s).0 ≡ none
      → (attempt n s).0 ≡ some (err e)
      → retryable U.status U.maps p (some e) ≡ true
      → EndsFrom max (n + 1) left (some e) (attempt n s).1 out
      → IsEnd max n s out
  after_failure max n zero e s out m go f again h = (
    n,
    omega (arith, m),
    s,
    here,
    inr (
      some (err e),
      go,
      ap (λ x. (x, (attempt n s).1)) f ∙ ap (λ o. (some (err e), o.1)) (sym h),
      inr (omega (arith, m)),
      ap (λ x. x.0) h,
    ),
  )
  after_failure max n (suc left) e s out m go f again (k, below, u, before, ending) =
      (k, below, u, failed e go f again before, ending)

  pub retry_loop-EndsFrom :
      (max n left : ℕ) (last : Option Error) (s : Session U)
      → n + left ≡ max
      → EndsFrom max n left last s (retry_loop U r p left n last s)
  unfolding retry_loop
  retry_loop-EndsFrom max n zero last s m = refl
  retry_loop-EndsFrom max n (suc left) last s m = elim (Option-cases (pause U p n s).0) [
    | inr (cause, stop) ↦
        rw (stop, retry_loop)
          (n, omega (arith, m), s, here, inl (cause, ap (λ x. (x, (pause U p n s).1)) stop, refl))
    | inl go ↦ elim (Option-cases (attempt n s).0) [
      | inl panics ↦
          rw (go, retry_loop)
            (rw (panics, retry_loop)
              (n, omega (arith, m), s, here, inr (none, go, ended panics, tt, refl)))
      | inr (x, q) ↦ elim (Result-cases x) [
        | inl (a, done) ↦
            let done' : (attempt n s).0 ≡ some (ok a) = q ∙ ap some done in
            rw (go, retry_loop)
              (rw (done', retry_loop)
                (n, omega (arith, m), s, here, inr (some (ok a), go, ended done', tt, refl)))
        | inr (e, fails) ↦
            let fails' : (attempt n s).0 ≡ some (err e) = q ∙ ap some fails in
            elim (Bool-cases (retryable U.status U.maps p (some e))) [
              | inr final ↦
                  rw (go, retry_loop)
                    (rw (fails', retry_loop)
                      (rw (final, retry_loop)
                        (
                          n,
                          omega (arith, m),
                          s,
                          here,
                          inr (some (err e), go, ended fails', inl final, refl),
                        )))
              | inl again ↦
                  rw (go, retry_loop)
                    (rw (fails', retry_loop)
                      (rw (again, retry_loop)
                        (after_failure max n left e s _ (omega (arith, m)) go fails' again (
                          retry_loop-EndsFrom max (n + 1) left (some e) (attempt n s).1
                            (omega (arith, m))))))
            ]
      ]
    ]
  ]
    where
      ended : {x : Option (Result A)} → (attempt n s).0 ≡ x → attempt n s ≡ (x, (attempt n s).1)
      ended q = ap (λ x. (x, (attempt n s).1)) q

  pub invoke_with_retry_policy :
      (s : Session U)
      → r.retry ≡ some p
      → invoke_with_retry U r s ≡ retry_loop U r p p.max_attempts 0 none s
  unfolding invoke_with_retry
  invoke_with_retry_policy s e = ground arith

  EndsFrom-pos :
      (max left : ℕ) (s : Session U) (out : Reply A × Session U)
      → 0 < left
      → EndsFrom max 0 left none s out
      → IsEnd max 0 s out
  EndsFrom-pos max zero s out h ends = elim h [ ]
  EndsFrom-pos max (suc left) s out h ends = ends

  -- With a retry policy a call makes at most the policy's number of attempts, and changes its session by
  -- those attempts and the waits between them only. Each attempt but the last ends with an error that is
  -- to be retried. The call comes to what its last attempt comes to: a result, a panic, an error that is
  -- not to be retried, or any error where no attempt is left; or its context ends while it waits for the
  -- next attempt, and it comes to the error of that.
  pub invoke_with_retry_lem :
      (s : Session U)
      → r.retry ≡ some p
      → 0 < p.max_attempts
      → IsEnd p.max_attempts 0 s (invoke_with_retry U r s)
  invoke_with_retry_lem s e h =
      subst (IsEnd p.max_attempts 0 s) (sym (invoke_with_retry_policy s e)) (
        EndsFrom-pos p.max_attempts p.max_attempts s _ h
          (retry_loop-EndsFrom p.max_attempts 0 p.max_attempts none s (omega arith)))
