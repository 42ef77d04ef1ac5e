-- ===== src/Payload.antt =====
-- The message that is made of an HTTP request (transport/gateway/proxy.go, `bindProtoRequest`) and the
-- response that carries the reply. Bytes are texts; what encoding/json and protojson do is `Json`'s. A Go
-- map is ranged over in any order: the order of the query's and of the route's entries is the list's.
pub mod Merged
pub mod Bound
mod Tests
use Prim.Native.String.{◌++◌ as append}
use service_forge.Prelude.{
  ℕ, String, Bool, true, false, ltb, Option, none, some, List, [], ◌∷◌, Table, lookup, insert,
  is_some, if◌then◌else◌,
}
use service_forge.Prelude.Text.{is_blank, trim_space}
use service_forge.Prelude.Int.{ℤ}
use service_forge.Prelude.Decimal.{format_int}
use service_forge.Errors.{Error, app, CodeMaps, new, with_cause, code_invalid_argument}
use service_forge.Errors.Result.{Result, ok, err}

-- What is read of a request: its body, the number of its query's arguments and `c.Queries()`, the number
-- of its route's parameters and `c.AllParams()`.
pub record Request : Type 0 where
  pub body : String
  pub query_len : ℕ
  pub queries : Table String
  pub param_len : ℕ
  pub params : Table String

-- A payload is a `map[string]any`; `none` is the nil map.
abbrev pub Payload : Type 0 → Type 0
Payload J = Option (Table J)

-- json.Unmarshal into a payload, which gives the nil map for `null`; json.Marshal; a text as a value;
-- protojson's Unmarshal into a message, which may fill it in part before it fails, and its Marshal.
pub record Json (J M : Type 0) : Type 0 where
  pub unmarshal : String → Result (Payload J)
  pub marshal : Payload J → Result String
  pub text : String → J
  pub unmarshal_message : String → M → M × Option Error
  pub marshal_message : M → Result String

unfoldable pub request_has_payload : Request → Bool
request_has_payload r =
    if is_blank r.body then (if ltb 0 r.query_len then true else ltb 0 r.param_len) else true

-- A panic is `none`.
module _ {J M : Type 0} (N : Json J M) where
  -- `payload[key]`, with its second result
  abbrev pub get : String → Payload J → Option J
  get key none = none
  get key (some entries) = lookup key entries

  -- `payload[key] = value`, which panics on the nil map
  abbrev pub assign : String → J → Payload J → Option (Payload J)
  assign key value none = none
  assign key value (some entries) = some (some (insert key value entries))

  abbrev pub add_missing : String → String → Payload J → Option (Payload J)
  add_missing key value p = if is_some (get key p) then some p else assign key (N.text value) p

  -- the loops over the query and the parameters
  unfoldable pub add_all : Table String → Payload J → Option (Payload J)
  add_all [] p = some p
  add_all ((key, value) ∷ rest) p = elim (add_missing key value p) [
    | none ↦ none
    | some p' ↦ add_all rest p'
  ]

  abbrev pub add_if : ℕ → Table String → Payload J → Option (Payload J)
  add_if n entries p = if ltb 0 n then add_all entries p else some p

  -- The payload before the query: the body's, if there is one.
  abbrev pub body_payload : String → Result (Payload J)
  body_payload body = if is_blank body then ok (some []) else N.unmarshal (trim_space body)

  abbrev pub add_params : Request → Option (Payload J) → Option (Payload J)
  add_params r none = none
  add_params r (some p) = add_if r.param_len r.params p

  -- The payload that is marshalled, from the body's.
  abbrev pub merged : Request → Payload J → Option (Payload J)
  merged r p = add_params r (add_if r.query_len r.queries p)

module _ {J M : Type 0} (N : Json J M) (maps : CodeMaps) where
  abbrev pub invalid : String → Error → Error
  invalid message cause = app (with_cause cause (new maps code_invalid_argument message))

  abbrev pub marshalled : Result String → Result String
  marshalled (ok text) = ok text
  marshalled (err e) = err (invalid "invalid request payload" e)

  abbrev pub marshal_merged : Option (Payload J) → Option (Result String)
  marshal_merged none = none
  marshal_merged (some p) = some (marshalled (N.marshal p))

  abbrev pub payload_of_body : Request → Result (Payload J) → Option (Result String)
  payload_of_body r (err e) = some (err (invalid "invalid json request body" e))
  payload_of_body r (ok p) = marshal_merged (merged N r p)

  unfoldable pub request_payload_json : Request → Option (Result String)
  request_payload_json r = payload_of_body r (body_payload N r.body)

  abbrev pub with_input_error : M × Option Error → M × Option Error
  with_input_error (msg, none) = (msg, none)
  with_input_error (msg, some e) = (msg, some (invalid "request does not match grpc input" e))

  abbrev pub fill : M → Option (Result String) → Option (M × Option Error)
  fill msg none = none
  fill msg (some (err e)) = some (msg, some e)
  fill msg (some (ok text)) = some (with_input_error (N.unmarshal_message text msg))

  -- The message afterwards, and the error.
  unfoldable pub bind_proto_request : Request → M → Option (M × Option Error)
  unfolding request_has_payload request_payload_json
  bind_proto_request r msg =
      if request_has_payload r then fill msg (request_payload_json r) else some (msg, none)

-- The response of fiber's context.
pub record Reply : Type 0 where
  pub status : ℕ
  pub content_type : String
  pub content : String

-- `WriteSuccessJSON`, at a time in seconds
unfoldable pub write_success_json : ℤ → String → Reply
write_success_json now json = record {
  status = 200;
  content_type = "application/json; charset=utf-8";
  content =
      append "{\"code\":\"OK\",\"message\":\"ok\",\"data\":"
        (append json (append ",\"timestamp\":" (append (format_int now) "}")));
}

-- `writeProtoSuccess`: where the message cannot be marshalled the response stays.
unfoldable pub write_proto_success :
    {J M : Type 0} → Json J M → ℤ → M → Reply → Option Error × Reply
write_proto_success N now msg reply = elim (N.marshal_message msg) [
  | err e ↦ (some e, reply)
  | ok json ↦ (none, write_success_json now json)
]
