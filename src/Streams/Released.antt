-- ===== src/Streams/Released.antt =====
-- A stream gives its connection back (transport/gateway/proxy_stream.go and balancer.go).
use service_forge.Prelude.{
  ℕ, zero, suc, ◌+◌, ◌-◌, ◌≡◌, length, refl, ap, ◌∙◌, ◌⊎◌, inl, inr, String, Bool, true, false,
  Option, none, some, List, [], ◌∷◌, get_or, set, arith, Option-cases, subst, sym,
}
use service_forge.Prelude.Float.{Float64}
use service_forge.Errors.{Error}
use service_forge.Errors.Result.{Result, ok, err, Result-cases}
use service_forge.Balancer.{Balancer, counters, least_conn, Release, release, pick, least}
use service_forge.Claims.{Forwarded, metadata, refused, outgoing}
use service_forge.Proxy.{Upstream, Route, Session, pick_conn, dial}
use service_forge.Streams.{
  StreamNet, conn_or_dial, open_stream, bridge_picked, invoke_stream, start_stream, settle,
  relay_on, invoke_server_stream, write_body,
}

Forwarded-cases :
    (x : Forwarded)
    → ((e : Error) × (x ≡ refused e)) ⊎ ((md : List (String × String)) × (x ≡ metadata md))
Forwarded-cases (refused e) = inl (e, refl)
Forwarded-cases (metadata md) = inr (md, refl)

module _ {F : Float64} {A : Type 0} (U : Upstream F A) (N : StreamNet U) where
  balancer-conn_or_dial :
      (r : Route U.network.Conn) (picked : Option U.network.Conn) (s : Session U)
      → (conn_or_dial U N r picked s).1.balancer ≡ s.balancer
  unfolding conn_or_dial
  balancer-conn_or_dial r (some conn) s = refl
  balancer-conn_or_dial r none s = elim (Result-cases (dial U r s.dialer).0) [
    | inl (conn, e) ↦ ground (arith, e)
    | inr (cause, e) ↦ ground (arith, e)
  ]

  balancer-open_stream :
      (client : Bool) (r : Route U.network.Conn) (conn : U.network.Conn) (s : Session U)
      → (open_stream U N client r conn s).1.balancer ≡ s.balancer
  unfolding open_stream
  balancer-open_stream client r conn s =
      elim (Forwarded-cases (outgoing F U.maps r.forwarder U.claims)) [
        | inl (e, q) ↦ ground (arith, q)
        | inr (md, q) ↦ elim (Result-cases (N.new_stream client md conn s.dialer.world).0) [
          | inl (stream, q') ↦ ground (arith, q, q')
          | inr (cause, q') ↦ ground (arith, q, q')
        ]
      ]

  balancer-bridge_picked :
      (r : Route U.network.Conn) (picked : Option U.network.Conn) (s : Session U)
      → (bridge_picked U N r picked s).1.balancer ≡ s.balancer
  unfolding bridge_picked
  balancer-bridge_picked r picked s =
      let kept = balancer-conn_or_dial r picked s in
      elim (Result-cases (conn_or_dial U N r picked s).0) [
        | inr (e, q) ↦ ground (arith, q, kept)
        | inl (conn, q) ↦
            let kept' = balancer-open_stream true r conn (conn_or_dial U N r picked s).1 in
            elim (Result-cases (open_stream U N true r conn (conn_or_dial U N r picked s).1).0) [
              | inr (e, q') ↦ ground (arith, q, q', kept, kept')
              | inl (stream, q') ↦ ground (arith, q, q', kept, kept')
            ]
      ]

  balancer-start_bound :
      (r : Route U.network.Conn) (conn : U.network.Conn) (s : Session U) (bound : Result A)
      → N.bind ≡ some bound
      → ((start_stream U N r conn s).2.balancer ≡ s.balancer)
        × ((started : Result N.Stream) × ((start_stream U N r conn s).0 ≡ some started))
  unfolding start_stream
  balancer-start_bound r conn s bound b = elim (Result-cases bound) [
    | inr (e, q) ↦ rw (b, start_stream) (rw q (refl, (err e, refl)))
    | inl (request, q) ↦
        let kept = balancer-open_stream false r conn s in
        let opened = open_stream U N false r conn s in
        elim (Result-cases opened.0) [
          | inr (e, q') ↦ rw (b, start_stream) (rw q (rw q' (kept, (err e, refl))))
          | inl (stream, q') ↦
              elim (Option-cases (N.send_msg request stream opened.1.dialer.world).0) [
                | inl sent ↦ rw (b, start_stream) (rw q (rw q' (rw sent (kept, (_, refl)))))
                | inr (e, sent) ↦ rw (b, start_stream) (rw q (rw q' (rw sent (kept, (_, refl)))))
              ]
        ]
  ]

  balancer-settle :
      (messages : List A) (rel : Release) (x : Result N.Stream) (flag : Bool) (s : Session U)
      → (write_body U N messages (settle U N rel (some x, flag, s))).balancer
        ≡ release rel s.balancer
  unfolding write_body
  balancer-settle messages rel (ok stream) flag s = refl
  balancer-settle messages rel (err e) true s = refl
  balancer-settle messages rel (err e) false s = refl

  balancer-relay_on :
      (messages : List A) (r : Route U.network.Conn) (rel : Release) (conn : Result U.network.Conn)
      (s : Session U) (bound : Result A)
      → N.bind ≡ some bound
      → (write_body U N messages (relay_on U N r rel conn s)).balancer ≡ release rel s.balancer
  unfolding relay_on write_body
  balancer-relay_on messages r rel (err e) s bound b = refl
  balancer-relay_on messages r rel (ok conn) s bound b =
      let (kept, found) = balancer-start_bound r conn s bound b in
      let (started, q) = found in
      let out = start_stream U N r conn s in
      ap (λ x. (write_body U N messages (settle U N rel (x, out.1, out.2))).balancer) q
      ∙ balancer-settle messages rel started out.1 out.2
      ∙ ap (release rel) kept

  balancer-invoke_server_stream :
      (messages : List A) (r : Route U.network.Conn) (s : Session U) (bound : Result A)
      → N.bind ≡ some bound
      → (write_body U N messages (invoke_server_stream U N r s)).balancer
        ≡ release (pick_conn U r s).1 (pick_conn U r s).2.balancer
  unfolding invoke_server_stream
  balancer-invoke_server_stream messages r s bound b =
      let (picked, rel, s') = pick_conn U r s in
      let dialed = conn_or_dial U N r picked s' in
      balancer-relay_on messages r rel dialed.0 dialed.1 bound b
      ∙ ap (release rel) (balancer-conn_or_dial r picked s')

-- A pick of the least-connections balancer, undone.
release-bump :
    (vs : List ℕ) (i : ℕ)
    → set (set vs i (get_or vs i 0 + 1)) i (get_or (set vs i (get_or vs i 0 + 1)) i 0 - 1) ≡ vs
release-bump [] i = refl
release-bump (v ∷ vs) zero = ap (λ n. n ∷ vs) (omega arith)
release-bump (v ∷ vs) (suc i) = ap (λ r. v ∷ r) (release-bump vs i)

-- The counters of a least-connections balancer, as the next pick among `n` connections reads them, are
-- the kept ones.
abbrev pub HasCounters : ℕ → Option (List ℕ) → Balancer → Type 0
HasCounters n kept b =
    (now : Option (List ℕ)) × (b ≡ least_conn now) × (counters n now ≡ counters n kept)

-- No pool, a pool of one connection, and larger pools.
Pool-cases :
    {Conn : Type 0} (cs : List Conn)
    → (cs ≡ [])
      ⊎ ((c : Conn) × (cs ≡ c ∷ []))
      ⊎ ((c : Conn) × (d : Conn) × (rest : List Conn) × (cs ≡ c ∷ d ∷ rest))
Pool-cases [] = inl refl
Pool-cases (c ∷ []) = inr (inl (c, refl))
Pool-cases (c ∷ d ∷ rest) = inr (inr (c, d, rest, refl))

module _ {F : Float64} {A : Type 0} (U : Upstream F A) where
  release-pick_conn :
      (r : Route U.network.Conn) (s : Session U) (kept : Option (List ℕ))
      → s.balancer ≡ least_conn kept
      → HasCounters (length r.conns) kept (release (pick_conn U r s).1 (pick_conn U r s).2.balancer)
  unfolding pick_conn release pick
  release-pick_conn r s kept e = elim (Pool-cases r.conns) [
    | inl q ↦ rw q (kept, e, refl)
    | inr (inl (c, q)) ↦ rw q (kept, e, refl)
    | inr (inr (c, d, rest, q)) ↦
        let vs = counters (length (c ∷ d ∷ rest)) kept in
        rw q (rw e (some vs, ap (λ ws. least_conn (some ws)) (release-bump vs (least vs)), refl))
  ]

module _ {F : Float64} {A : Type 0} (U : Upstream F A) (N : StreamNet U) where
  balancer-invoke_stream :
      (r : Route U.network.Conn) (s : Session U)
      → (invoke_stream U N r s).1.balancer
        ≡ release (pick_conn U r s).1 (pick_conn U r s).2.balancer
  unfolding invoke_stream
  balancer-invoke_stream r s =
      ap (release (pick_conn U r s).1)
        (balancer-bridge_picked U N r (pick_conn U r s).0 (pick_conn U r s).2)

  -- However a stream ends, and whether it opens or not, the counters of the least-connections balancer
  -- are what they were before: at the end of InvokeStream, and, where the binding of the request does
  -- not panic, once the body writer of InvokeServerStream has ended or there is none.
  pub stream_releases :
      (messages : List A) (r : Route U.network.Conn) (s : Session U) (kept : Option (List ℕ))
      (bound : Result A)
      → s.balancer ≡ least_conn kept
      → N.bind ≡ some bound
      → HasCounters (length r.conns) kept (invoke_stream U N r s).1.balancer
        × HasCounters
            (length r.conns)
            kept
            (write_body U N messages (invoke_server_stream U N r s)).balancer
  stream_releases messages r s kept bound e b =
      let restored = release-pick_conn U r s kept e in
      let same = HasCounters (length r.conns) kept in
      (
        subst same (sym (balancer-invoke_stream r s)) restored,
        subst same (sym (balancer-invoke_server_stream U N messages r s bound b)) restored,
      )
