-- ===== src/Adapters/Messages.antt =====
-- What a subscriber of the RabbitMQ bus is given (adapters/rabbitmq/rabbitmq.go), beside the memory bus
-- (adapters/memory/eventbus.go).
use service_forge.Prelude.{
  ℕ, suc, length, String, Option, none, some, List, [], ◌∷◌, Table, ◌≡◌, refl, sym, ap, ◌∙◌, arith,
  lookup, insert, lookup-insert_self,
}
use service_forge.Errors.{Error}
use service_forge.Bus.{
  Message, Handler, EventBus, new_event_bus, subscribe, publish, deliver, handlers_of,
}
use service_forge.Adapters.Rabbitmq.{
  Amqp, Delivery, map_values, publishing_of, message_of, settle, handle_delivery, serve,
}

module _ {H S B : Type 0} (Q : Amqp H (S × B)) where
  map_values-map_values :
      ((s : String) → Q.sprint (Q.text s) ≡ s)
      → (t : Table String) → map_values Q.sprint (map_values Q.text t) ≡ t
  map_values-map_values spells [] = refl
  map_values-map_values spells ((key, value) ∷ rest) =
      ap (λ v. (key, v) ∷ map_values Q.sprint (map_values Q.text rest)) (spells value)
      ∙ ap (λ r. (key, value) ∷ r) (map_values-map_values spells rest)

  -- A message published under a topic, as it is delivered.
  abbrev pub delivery : String → ℕ × Message → Delivery H
  delivery topic (tag, msg) = record {
    tag = tag;
    routing_key = topic;
    content = publishing_of Q msg;
  }

  abbrev pub deliveries : String → List (ℕ × Message) → List (Delivery H)
  deliveries topic [] = []
  deliveries topic (m ∷ ms) = delivery topic m ∷ deliveries topic ms

  -- The message that was published comes back, with its topic.
  message_of-delivery :
      ((s : String) → Q.sprint (Q.text s) ≡ s)
      → (topic : String) (tag : ℕ) (msg : Message)
      → message_of Q (delivery topic (tag, msg)) ≡ record msg { topic = topic }
  unfolding message_of
  message_of-delivery spells topic tag msg =
      ap (λ hs. record msg { topic = topic; headers = hs })
        (map_values-map_values spells msg.headers)

  -- A handler of a state `S`, beside the broker's state.
  abbrev beside : B → Option Error × S → Option Error × (S × B)
  beside b (e, s) = (e, (s, b))

  abbrev pub on_state : Handler S → Handler (S × B)
  on_state handler msg w = beside w.1 (handler msg w.0)

  -- The memory bus with the handler as its only subscriber, and the publication of all messages.
  abbrev pub one_subscriber : String → Handler S → EventBus S
  one_subscriber topic handler = subscribe S topic handler (new_event_bus S)

  unfoldable pub publish_all : EventBus S → String → List (ℕ × Message) → S → S
  publish_all bus topic [] s = s
  publish_all bus topic ((tag, msg) ∷ ms) s = publish_all bus topic ms (publish S topic msg bus s).1

  abbrev subscribers : (T : Type 0) → Option (List (Handler T)) → List (Handler T)
  subscribers T none = []
  subscribers T (some hs) = hs

  handlers_of-one_subscriber :
      (topic : String) (handler : Handler S)
      → handlers_of S topic (one_subscriber topic handler) ≡ handler ∷ []
  unfolding subscribe lookup insert
  handlers_of-one_subscriber topic handler =
      ap (subscribers S) (lookup-insert_self topic (handler ∷ []) [])

  publish-one_subscriber :
      (topic : String) (handler : Handler S) (msg : Message) (s : S)
      → (publish S topic msg (one_subscriber topic handler) s).1
        ≡ (handler (record msg { topic = topic }) s).1
  unfolding publish
  publish-one_subscriber topic handler msg s =
      ap (λ hs. (deliver S (record msg { topic = topic }) hs s).1)
        (handlers_of-one_subscriber topic handler)
      ∙ ground arith

  -- A broker's queue, where `pending` is what it has still to deliver: a delivery is the first of it, and
  -- neither a delivery nor an acknowledgement changes the subscriber.
  pub record IsQueue (pending : B → List (Delivery H)) : Type 0 where
    pub receives :
        (s : S) (b : B) (d : Delivery H) (ds : List (Delivery H))
        → pending b ≡ d ∷ ds
        → (b' : B) × (Q.receive (s, b) ≡ (some d, (s, b'))) × (pending b' ≡ ds)
    pub acks :
        (tag : ℕ) (s : S) (b : B)
        → (b' : B) × (Q.ack tag (s, b) ≡ (s, b')) × (pending b' ≡ pending b)

  module _ {pending : B → List (Delivery H)} (K : IsQueue pending) (topic : String)
      (handler : Handler S) where
    -- One delivery of a message that the handler takes.
    serve-suc :
        (spells : (s : String) → Q.sprint (Q.text s) ≡ s)
        (takes : (msg : Message) (s : S) → (handler msg s).0 ≡ none) (n tag : ℕ) (msg : Message)
        (ds : List (Delivery H)) (s : S) (b : B)
        → pending b ≡ delivery topic (tag, msg) ∷ ds
        → (b' : B) × (serve Q (suc n) (on_state handler) (s, b)
            ≡ serve Q n (on_state handler) ((handler (record msg { topic = topic }) s).1, b'))
          × (pending b' ≡ ds)
    unfolding serve
    serve-suc spells takes n tag msg ds s b q =
        let (b₁, received, left) = K.receives s b (delivery topic (tag, msg)) ds q in
        let sent = record msg { topic = topic } in
        let (b₂, acked, same) = K.acks tag (handler sent s).1 b₁ in
        let handled : on_state handler (message_of Q (delivery topic (tag, msg))) (s, b₁)
            ≡ (none, ((handler sent s).1, b₁)) =
          ap (λ m. on_state handler m (s, b₁)) (message_of-delivery spells topic tag msg)
          ∙ ap (λ e. (e, ((handler sent s).1, b₁))) (takes sent s) in
        (
          b₂,
          ap (handle_delivery Q (on_state handler) (serve Q n (on_state handler))) received
              ∙ ap (λ o. serve Q n (on_state handler) (settle Q tag o)) handled
              ∙ ap (serve Q n (on_state handler)) acked,
          same ∙ left,
        )

  -- Where a handler fails on no message, a subscriber of the RabbitMQ bus that has taken the messages which
  -- the broker had queued, one delivery for each, is in the state that it comes to on the memory bus where
  -- they are published in that order, if the library spells a header that is a text as that text.
  pub serve-eq-publish_all :
      {pending : B → List (Delivery H)} (K : IsQueue pending)
      (spells : (s : String) → Q.sprint (Q.text s) ≡ s) (topic : String) (handler : Handler S)
      (takes : (msg : Message) (s : S) → (handler msg s).0 ≡ none) (ms : List (ℕ × Message)) (s : S)
      (b : B)
      → pending b ≡ deliveries topic ms
      → (serve Q (length ms) (on_state handler) (s, b)).0
        ≡ publish_all (one_subscriber topic handler) topic ms s
  unfolding serve publish_all
  serve-eq-publish_all K spells topic handler takes [] s b q = refl
  serve-eq-publish_all K spells topic handler takes ((tag, msg) ∷ ms) s b q =
      let (b', served, left) =
        serve-suc K topic handler spells takes (length ms) tag msg (deliveries topic ms) s b q in
      ap (λ w. w.0) served
      ∙ serve-eq-publish_all K spells topic handler takes ms
          (handler (record msg { topic = topic }) s).1 b' left
      ∙ ap (publish_all (one_subscriber topic handler) topic ms)
          (sym (publish-one_subscriber topic handler msg s))
