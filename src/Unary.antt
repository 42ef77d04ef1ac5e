-- ===== src/Unary.antt =====
-- The invokers of unary calls (transport/gateway/proxy.go, `NewUnaryProxy`, `NewUnaryInvokeProxy` and
-- `NewUnaryCodecProxy`). A `sync.Pool` is the list of what was put back; which of it `Get` hands out, if
-- any, is an argument, and what the collector drops is a step of the pool's owner.
pub mod Pooled
mod Tests
use service_forge.Prelude.{ℕ, zero, suc, String, Option, none, some, List, [], ◌∷◌}
use service_forge.Prelude.Int.{ℤ}
use service_forge.Errors.{Error, CodeMaps}
use service_forge.Errors.Result.{Result, ok, err}
use service_forge.Routes.{normalize_rpc}
use service_forge.Payload.{Request, Json, Reply, bind_proto_request, write_proto_success}

pub data Handled : Type 0 where
  handled_response : Handled

-- `Get` of a pool with `New`: the pooled message of a number, or a new one.
abbrev pub take_out : {A : Type 0} → A → Option ℕ → List A → A × List A
take_out new none pooled = (new, pooled)
take_out new (some i) [] = (new, [])
take_out new (some zero) (m ∷ pooled) = (m, pooled)
take_out new (some (suc i)) (m ∷ pooled) =
    let (taken, rest) = take_out new (some i) pooled in (taken, m ∷ rest)

-- What a proxy is made of: new messages, `proto.Reset`, and the two conversions, where a conversion that
-- panics is `none`.
pub record Codec (Req Resp W : Type 0) : Type 0 where
  pub new_request : Req
  pub new_response : Resp
  pub reset_request : Req → Req
  pub reset_response : Resp → Resp
  pub bind : Option (Request → Req → Option (Req × Option Error))
  pub write : Resp → W → Option Error × W

-- The call: it fills the response.
abbrev pub Invoke : Type 0 → Type 0 → Type 0 → Type 0
Invoke Req Resp W = Req → Resp → W → Resp × Option Error × W

pub record Pools (Req Resp : Type 0) : Type 0 where
  pub requests : List Req
  pub responses : List Resp

-- A panic is `none`.
abbrev pub written : {W : Type 0} → Option Error × W → Option (Result Handled) × W
written (some e, w) = (some (err e), w)
written (none, w) = (some (ok handled_response), w)

module _ {Resp W : Type 0} where
  abbrev pub write_reply :
      (Resp → W → Option Error × W) → Resp × Option Error × W → Option (Result Handled) × W
  write_reply write (resp, some e, w) = (some (err e), w)
  write_reply write (resp, none, w) = written (write resp w)

  abbrev pub after_call :
      (Resp → W → Option Error × W) → Result Resp × W → Option (Result Handled) × W
  after_call write (err e, w) = (some (err e), w)
  after_call write (ok resp, w) = written (write resp w)

module _ {Req Resp W : Type 0} where
  abbrev pub call_bound :
      (Resp → W → Option Error × W)
      → (Req → W → Result Resp × W)
      → Option (Req × Option Error)
      → W
      → Option (Result Handled) × W
  call_bound write call none w = (none, w)
  call_bound write call (some (req, some e)) w = (some (err e), w)
  call_bound write call (some (req, none)) w = after_call write (call req w)

  -- `NewUnaryProxy`
  unfoldable pub unary_proxy :
      Req
      → (Request → Req → Option (Req × Option Error))
      → (Resp → W → Option Error × W)
      → (Req → W → Result Resp × W)
      → Request
      → W
      → Option (Result Handled) × W
  unary_proxy new bind write call r w = call_bound write call (bind r new) w

  -- Everything behind the taking of the request, with the deferred functions: each message that was
  -- taken is reset and put back, also where the conversion panics.
  abbrev pub put_request : Codec Req Resp W → Req → Pools Req Resp → Pools Req Resp
  put_request C req s = record s { requests = C.reset_request req ∷ s.requests }

  abbrev pub put_both : Codec Req Resp W → Req → Resp → Pools Req Resp → Pools Req Resp
  put_both C req resp s =
      put_request C req (record s { responses = C.reset_response resp ∷ s.responses })

  abbrev pub respond :
      Codec Req Resp W
      → Invoke Req Resp W
      → Req
      → Resp
      → Pools Req Resp
      → W
      → Option (Result Handled) × Pools Req Resp × W
  respond C invoke req resp s w =
      let reply = invoke req resp w in
      let (result, w') = write_reply C.write reply in (result, put_both C req reply.0 s, w')

  abbrev pub invoke_pooled :
      Codec Req Resp W
      → Invoke Req Resp W
      → Option ℕ
      → Req
      → Pools Req Resp
      → W
      → Option (Result Handled) × Pools Req Resp × W
  invoke_pooled C invoke i req s w =
      let (resp, rest) = take_out C.new_response i s.responses in
      respond C invoke req resp (record s { responses = rest }) w

  abbrev pub bound_request : Codec Req Resp W → Request → Req → Option (Req × Option Error)
  bound_request C r req = elim C.bind [ none ↦ some (req, none) | some bind ↦ bind r req ]

  abbrev pub continue_bound :
      Codec Req Resp W
      → Invoke Req Resp W
      → Option ℕ
      → Req
      → Option (Req × Option Error)
      → Pools Req Resp
      → W
      → Option (Result Handled) × Pools Req Resp × W
  continue_bound C invoke i req none s w = (none, put_request C req s, w)
  continue_bound C invoke i req (some (req', some e)) s w = (some (err e), put_request C req' s, w)
  continue_bound C invoke i req (some (req', none)) s w = invoke_pooled C invoke i req' s w

  -- `NewUnaryCodecProxy`; the two numbers are the choices of the pools.
  unfoldable pub unary_codec_proxy :
      Codec Req Resp W
      → Invoke Req Resp W
      → Option ℕ × Option ℕ
      → Request
      → Pools Req Resp
      → W
      → Option (Result Handled) × Pools Req Resp × W
  unary_codec_proxy C invoke choice r s w =
      let (req, rest) = take_out C.new_request choice.0 s.requests in
      continue_bound C invoke choice.1 req (bound_request C r req) (record s { requests = rest }) w

  abbrev pub invoke_normalized :
      Codec Req Resp W
      → (String → Invoke Req Resp W)
      → Result (String × String)
      → Option ℕ × Option ℕ
      → Request
      → Pools Req Resp
      → W
      → Option (Result Handled) × Pools Req Resp × W
  invoke_normalized C invoke (err e) choice r s w = (some (err e), s, w)
  invoke_normalized C invoke (ok (full_rpc, service)) choice r s w =
      unary_codec_proxy C (invoke full_rpc) choice r s w

  -- `NewUnaryInvokeProxy`, with a codec of `proto_codec`; `invoke` is `conn.Invoke` of a method.
  unfoldable pub unary_invoke_proxy :
      String
      → Codec Req Resp W
      → (String → Invoke Req Resp W)
      → Option ℕ × Option ℕ
      → Request
      → Pools Req Resp
      → W
      → Option (Result Handled) × Pools Req Resp × W
  unary_invoke_proxy rpc C invoke choice r s w =
      invoke_normalized C invoke (normalize_rpc rpc) choice r s w

-- The codec of protobuf messages, with the empty ones, over a world that ends in the response.
abbrev pub proto_codec :
    {J Req Resp W : Type 0}
    → Json J Req
    → Json J Resp
    → CodeMaps
    → Req
    → Resp
    → (W → ℤ)
    → Codec Req Resp (W × Reply)
proto_codec N N' maps request response now = record {
  new_request = request;
  new_response = response;
  reset_request = λ m. request;
  reset_response = λ m. response;
  bind = some (bind_proto_request N maps);
  write = λ resp w. let (e, reply) = write_proto_success N' (now w.0) resp w.1 in (e, (w.0, reply));
}
