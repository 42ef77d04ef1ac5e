-- ===== src/Adapters/Handles.antt =====
-- The connections and channels of the RabbitMQ bus (adapters/rabbitmq/rabbitmq.go): `New` on its error
-- paths, `Close`, and the module's Init and Stop.
use service_forge.Prelude.{
  String, Option, none, some, ◌≡◌, ◌≢◌, sym, subst, ap, ◌∙◌, arith, ◌⊎◌, inl, inr, Bool-cases,
}
use service_forge.Errors.{Error}
use service_forge.Errors.Result.{Result, ok, err, ok_inj}
use service_forge.Prelude.{if◌then◌else◌}
use service_forge.App.{Runtime}
use service_forge.Adapters.Holder.{Holder, adapter, init, stop, hold, init_with}
use service_forge.Adapters.Rabbitmq.{
  Amqp, Config, EventBus, new_bus, with_conn, with_channel, with_defaults, declared, rabbitmq,
}

-- Something that holds of a world only where it held before: for any adapter whose closing, after an
-- opening or its failure, has that effect.
module _ {C A V W : Type 0} (H : Holder C A V W) (Open : W → Type 0) where
  abbrev AfterOpening : Result A × W → Type 0
  AfterOpening (err e, w) = Open w
  AfterOpening (ok a, w) = Open (H.close a w).1

  abbrev AfterStop : Option Error × Runtime V (Option A × W) → Type 0
  AfterStop r = Open (stop H r.1.world).1.1

  stop_none : (held : Option A) (w : W) → held ≡ none → Open (stop H (held, w)).1.1 → Open w
  unfolding stop
  stop_none none w nil o = o
  stop_none (some a) w nil o = absurd (ground (arith, nil))

  stop-hold :
      (r : Runtime V (Option A × W)) (x : Result A × W)
      → r.world.0 ≡ none
      → AfterStop (hold H r x)
      → AfterOpening x
  unfolding stop
  stop-hold r (err e, w) nil o = stop_none r.world.0 w nil o
  stop-hold r (ok a, w) nil o = o

  stop-init_with :
      (r : Runtime V (Option A × W)) (settings : Result C)
      → r.world.0 ≡ none
      → ((cfg : C) (w : W) → AfterOpening (H.open_new cfg w) → Open w)
      → AfterStop (init_with H r settings)
      → Open r.world.1
  stop-init_with r (err e) nil closes o = stop_none r.world.0 r.world.1 nil o
  stop-init_with r (ok cfg) nil closes o = elim (Bool-cases (H.enabled cfg)) [
    | inl on ↦ closes cfg r.world.1 (
        stop-hold r (H.open_new cfg r.world.1) nil (
          subst (λ b. AfterStop (if b then hold H r (H.open_new cfg r.world.1) else (none, r))) on
            o))
    | inr off ↦ stop_none r.world.0 r.world.1 nil (
        subst (λ b. AfterStop (if b then hold H r (H.open_new cfg r.world.1) else (none, r))) off o)
  ]

module _ {H W : Type 0} (Q : Amqp H W) where
  -- Which connections and channels are open. Dialing opens at most the connection that it returns, and
  -- `Channel` the channel; nothing else opens any, and what was closed is not open. An error may close
  -- what it likes.
  pub record Handles : Type 1 where
    pub IsOpen : Q.Conn ⊎ Q.Chan → W → Type 0
    pub dials :
        (url : String) (w : W) (h : Q.Conn ⊎ Q.Chan)
        → IsOpen h (Q.dial url w).1
        → IsOpen h w ⊎ ((conn : Q.Conn) × ((Q.dial url w).0 ≡ ok conn) × (h ≡ inl conn))
    pub opens :
        (conn : Q.Conn) (w : W) (h : Q.Conn ⊎ Q.Chan)
        → IsOpen h (Q.open_channel conn w).1
        → IsOpen h w ⊎ ((ch : Q.Chan) × ((Q.open_channel conn w).0 ≡ ok ch) × (h ≡ inr ch))
    pub declares :
        (ch : Q.Chan) (exchange : String) (w : W) (h : Q.Conn ⊎ Q.Chan)
        → IsOpen h (Q.declare_exchange ch exchange w).1
        → IsOpen h w
    pub closes_channel :
        (ch : Q.Chan) (w : W) (h : Q.Conn ⊎ Q.Chan)
        → IsOpen h (Q.close_channel ch w).1
        → IsOpen h w × (h ≢ inr ch)
    pub closes_conn :
        (conn : Q.Conn) (w : W) (h : Q.Conn ⊎ Q.Chan)
        → IsOpen h (Q.close_conn conn w).1
        → IsOpen h w × (h ≢ inl conn)

  module _ (K : Handles) (h : Q.Conn ⊎ Q.Chan) where
    -- The handle is one of the bus.
    abbrev Held : Result (EventBus Q) → Type 0
    Held (err e) = ⊥
    Held (ok b) = (h ≡ inl b.conn) ⊎ (h ≡ inr b.channel)

    declared-Held :
        (conn : Q.Conn) (ch : Q.Chan) (exchange : String) (o : Option Error) (w : W)
        (Before : Type 0)
        → (K.IsOpen h w → Before ⊎ (h ≡ inl conn) ⊎ (h ≡ inr ch))
        → K.IsOpen h (declared Q conn ch exchange (o, w)).1
        → Before ⊎ Held (declared Q conn ch exchange (o, w)).0
    declared-Held conn ch exchange none w Before known left = known left
    declared-Held conn ch exchange (some e) w Before known left =
        let (left', not_conn) = K.closes_conn conn (Q.close_channel ch w).1 h left in
        let (left'', not_chan) = K.closes_channel ch w h left' in
        elim (known left'') [
          | inl before ↦ inl before
          | inr (inl q) ↦ absurd (not_conn q)
          | inr (inr q) ↦ absurd (not_chan q)
        ]

    with_channel-Held :
        (conn : Q.Conn) (exchange : String) (c : Result Q.Chan) (w : W) (Before : Type 0)
        → (K.IsOpen h w → (Before ⊎ (h ≡ inl conn)) ⊎ ((ch : Q.Chan) × (c ≡ ok ch) × (h ≡ inr ch)))
        → K.IsOpen h (with_channel Q conn exchange (c, w)).1
        → Before ⊎ Held (with_channel Q conn exchange (c, w)).0
    with_channel-Held conn exchange (err e) w Before known left =
        let (left', not_conn) = K.closes_conn conn w h left in
        elim (known left') [
          | inl (inl before) ↦ inl before
          | inl (inr q) ↦ absurd (not_conn q)
          | inr (ch, q, _) ↦ absurd (ground (arith, q))
        ]
    with_channel-Held conn exchange (ok ch) w Before known left =
        declared-Held conn ch exchange (Q.declare_exchange ch exchange w).0 _ Before
          (λ o. elim (known (K.declares ch exchange w h o)) [
            | inl (inl before) ↦ inl before
            | inl (inr q) ↦ inr (inl q)
            | inr (ch', q, q') ↦ inr (inr (q' ∙ ap inr (sym (ok_inj q))))
          ])
          left

    with_conn-Held :
        (exchange : String) (c : Result Q.Conn) (w : W) (Before : Type 0)
        → (K.IsOpen h w → Before ⊎ ((conn : Q.Conn) × (c ≡ ok conn) × (h ≡ inl conn)))
        → K.IsOpen h (with_conn Q exchange (c, w)).1
        → Before ⊎ Held (with_conn Q exchange (c, w)).0
    with_conn-Held exchange (err e) w Before known left = elim (known left) [
      | inl before ↦ inl before
      | inr (conn, q, _) ↦ absurd (ground (arith, q))
    ]
    with_conn-Held exchange (ok conn) w Before known left =
        with_channel-Held conn exchange (Q.open_channel conn w).0 _ Before
          (λ o. elim (K.opens conn w h o) [
            | inr new ↦ inr new
            | inl o' ↦ elim (known o') [
              | inl before ↦ inl (inl before)
              | inr (conn', q, q') ↦ inl (inr (q' ∙ ap inl (sym (ok_inj q))))
            ]
          ])
          left

    -- `New` leaves nothing open but what its bus holds, and nothing where it fails.
    new_bus-Held :
        (cfg : Config) (w : W)
        → K.IsOpen h (new_bus Q cfg w).1
        → K.IsOpen h w ⊎ Held (new_bus Q cfg w).0
    unfolding new_bus
    new_bus-Held cfg w left =
        with_conn-Held (with_defaults Q cfg).exchange (Q.dial (with_defaults Q cfg).url w).0 _
          (K.IsOpen h w) (K.dials (with_defaults Q cfg).url w h) left

    bus_closed :
        {V : Type 0} (value : EventBus Q → V) (settings : Result Config)
        (x : Result (EventBus Q) × W) (Before : Type 0)
        → (K.IsOpen h x.1 → Before ⊎ Held x.0)
        → AfterOpening (rabbitmq Q value settings) (K.IsOpen h) x
        → Before
    unfolding rabbitmq
    bus_closed value settings (err e, w) Before known left = elim (known left) [
      | inl before ↦ before
      | inr held ↦ elim held [ ]
    ]
    bus_closed value settings (ok b, w) Before known left =
        let (left', not_conn) = K.closes_conn b.conn (Q.close_channel b.channel w).1 h left in
        let (left'', not_chan) = K.closes_channel b.channel w h left' in
        elim (known left'') [
          | inl before ↦ before
          | inr (inl q) ↦ absurd (not_conn q)
          | inr (inr q) ↦ absurd (not_chan q)
        ]

  -- A connection or a channel that is open when the module has been stopped after Init was open before,
  -- whether Init succeeded or failed, and at whichever step.
  pub stop-init :
      (K : Handles) (h : Q.Conn ⊎ Q.Chan) {V : Type 0} (value : EventBus Q → V)
      (settings : Result Config) (r : Runtime V (Option (EventBus Q) × W))
      → r.world.0 ≡ none
      → let m = adapter (rabbitmq Q value settings) in
        K.IsOpen h (m.stop (m.init r).1.world).1.1 → K.IsOpen h r.world.1
  unfolding adapter init rabbitmq
  stop-init K h value settings r nil left =
      stop-init_with (rabbitmq Q value settings) (K.IsOpen h) r settings nil
        (λ cfg w.
          bus_closed K h value settings (new_bus Q cfg w) (K.IsOpen h w) (new_bus-Held K h cfg w))
        left
