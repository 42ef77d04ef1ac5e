-- ===== src/Unary/Pooled.antt =====
-- Pooled messages are as good as new ones (transport/gateway/proxy.go, `NewUnaryCodecProxy`).
use service_forge.Prelude.{
  ℕ, zero, suc, Option, none, some, List, [], ◌∷◌, All, ◌≡◌, refl, subst, ap, ◌∙◌,
}
use service_forge.Errors.{Error}
use service_forge.Errors.Result.{Result, ok, err}
use service_forge.Payload.{Request}
use service_forge.Unary.{
  Handled, take_out, Codec, Invoke, Pools, write_reply, after_call, call_bound, unary_proxy,
  invoke_pooled, bound_request, continue_bound, unary_codec_proxy,
}

-- What may happen to a proxy: a request, with the choices of its two pools, or a collection of garbage,
-- which drops a message of each.
pub data Event : Type 0 where
  request : Option ℕ × Option ℕ → Request → Event
  collect : Option ℕ × Option ℕ → Event

-- Every message of a pool is as a new one.
abbrev pub Blank : {A : Type 0} → A → List A → Type 0
Blank new = All (λ m. m ≡ new)

take_out-Blank :
    {A : Type 0} (new : A) (i : Option ℕ) (pooled : List A)
    → Blank new pooled
    → ((take_out new i pooled).0 ≡ new) × Blank new (take_out new i pooled).1
take_out-Blank new none pooled h = (refl, h)
take_out-Blank new (some i) [] h = (refl, tt)
take_out-Blank new (some zero) (m ∷ pooled) h = h
take_out-Blank new (some (suc i)) (m ∷ pooled) h =
    let rest = take_out-Blank new (some i) pooled h.1 in (rest.0, (h.0, rest.1))

module _ {Req Resp W : Type 0} (C : Codec Req Resp W) (invoke : Invoke Req Resp W) where
  pub record AllBlank (s : Pools Req Resp) : Type 0 where
    pub requests_are : Blank C.new_request s.requests
    pub responses_are : Blank C.new_response s.responses

  -- The call of a proxy without pools: a new response for each request.
  abbrev result_of : Resp × Option Error × W → Result Resp × W
  result_of (resp, some e, w) = (err e, w)
  result_of (resp, none, w) = (ok resp, w)

  abbrev pub fresh_call : Req → W → Result Resp × W
  fresh_call req w = result_of (invoke req C.new_response w)

  -- The proxy without pools.
  abbrev pub fresh : Request → W → Option (Result Handled) × W
  fresh r w = unary_proxy C.new_request (bound_request C) C.write fresh_call r w

  -- The replies of the proxy to a sequence of events.
  unfoldable pub serve : List Event → Pools Req Resp → W → List (Option (Result Handled)) × W
  serve [] s w = ([], w)
  serve (collect drop ∷ events) s w =
      serve events
        (record {
          requests = (take_out C.new_request drop.0 s.requests).1;
          responses = (take_out C.new_response drop.1 s.responses).1;
        })
        w
  serve (request choice r ∷ events) s w =
      let (reply, s', w') = unary_codec_proxy C invoke choice r s w in
      let (replies, end) = serve events s' w' in (reply ∷ replies, end)

  unfoldable pub serve_fresh : List Event → W → List (Option (Result Handled)) × W
  serve_fresh [] w = ([], w)
  serve_fresh (collect drop ∷ events) w = serve_fresh events w
  serve_fresh (request choice r ∷ events) w =
      let (reply, w') = fresh r w in
      let (replies, end) = serve_fresh events w' in (reply ∷ replies, end)

  module _ (resets_request : (m : Req) → C.reset_request m ≡ C.new_request)
      (resets_response : (m : Resp) → C.reset_response m ≡ C.new_response) where
    written_as_fresh :
        (reply : Resp × Option Error × W)
        → write_reply C.write reply ≡ after_call C.write (result_of reply)
    written_as_fresh (resp, some e, w) = refl
    written_as_fresh (resp, none, w) = refl

    -- The outcome of a pooled call without its pools.
    abbrev outcome : {A B D : Type 0} → A × B × D → A × D
    outcome (a, b, d) = (a, d)

    abbrev AsFresh :
        Option (Result Handled) × W → Option (Result Handled) × Pools Req Resp × W → Type 0
    AsFresh expected pooled = (outcome pooled ≡ expected) × AllBlank pooled.1

    invoke_pooled-AsFresh :
        (i : Option ℕ) (req : Req) (s : Pools Req Resp) (w : W)
        → AllBlank s
        → AsFresh (after_call C.write (fresh_call req w)) (invoke_pooled C invoke i req s w)
    invoke_pooled-AsFresh i req s w h =
        let taken = take_out-Blank C.new_response i s.responses h.responses_are in
        (
          ap (λ m. write_reply C.write (invoke req m w)) taken.0
              ∙ written_as_fresh (invoke req C.new_response w),
          record {
            requests_are = (resets_request req, h.requests_are);
            responses_are = (resets_response _, taken.1);
          },
        )

    continue_bound-AsFresh :
        (i : Option ℕ) (req : Req) (o : Option (Req × Option Error)) (s : Pools Req Resp) (w : W)
        → AllBlank s
        → AsFresh (call_bound C.write fresh_call o w) (continue_bound C invoke i req o s w)
    continue_bound-AsFresh i req none s w h = (
      refl,
      record {
        requests_are = (resets_request req, h.requests_are);
        responses_are = h.responses_are;
      },
    )
    continue_bound-AsFresh i req (some (req', some e)) s w h = (
      refl,
      record {
        requests_are = (resets_request req', h.requests_are);
        responses_are = h.responses_are;
      },
    )
    continue_bound-AsFresh i req (some (req', none)) s w h = invoke_pooled-AsFresh i req' s w h

    unary_codec_proxy-AsFresh :
        (choice : Option ℕ × Option ℕ) (r : Request) (s : Pools Req Resp) (w : W)
        → AllBlank s
        → AsFresh (fresh r w) (unary_codec_proxy C invoke choice r s w)
    unfolding unary_codec_proxy unary_proxy
    unary_codec_proxy-AsFresh choice r s w h =
        let taken = take_out-Blank C.new_request choice.0 s.requests h.requests_are in
        let blank : AllBlank
            (record s { requests = (take_out C.new_request choice.0 s.requests).1 }) =
          record { requests_are = taken.1; responses_are = h.responses_are } in
        subst
          (λ m.
            AsFresh (call_bound C.write fresh_call (bound_request C r m) w)
              (unary_codec_proxy C invoke choice r s w))
          taken.0 (continue_bound-AsFresh choice.1 _ (bound_request C r _) _ w blank)

    abbrev with_later :
        List Event → Option (Result Handled) × W → List (Option (Result Handled)) × W
    with_later events (reply, w) =
        let (replies, end) = serve_fresh events w in (reply ∷ replies, end)

    abbrev reply_of : Option ℕ × Option ℕ → Request → Pools Req Resp → W → Option (Result Handled)
    reply_of choice r s w = (unary_codec_proxy C invoke choice r s w).0

    -- Whatever the pools hand out and the collector drops, a proxy that reuses its messages answers every
    -- sequence of requests as the proxy that makes new ones, also where conversions fail or panic.
    pub serve-eq-serve_fresh :
        (events : List Event) (s : Pools Req Resp) (w : W)
        → AllBlank s
        → serve events s w ≡ serve_fresh events w
    unfolding serve serve_fresh
    serve-eq-serve_fresh [] s w h = refl
    serve-eq-serve_fresh (collect drop ∷ events) s w h = serve-eq-serve_fresh events _ w (record {
      requests_are = (take_out-Blank C.new_request drop.0 s.requests h.requests_are).1;
      responses_are = (take_out-Blank C.new_response drop.1 s.responses h.responses_are).1;
    })
    serve-eq-serve_fresh (request choice r ∷ events) s w h =
        let step = unary_codec_proxy-AsFresh choice r s w h in
        ap (λ p. (reply_of choice r s w ∷ p.0, p.1)) (serve-eq-serve_fresh events _ _ step.1)
        ∙ ap (with_later events) step.0
