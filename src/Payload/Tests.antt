-- ===== src/Payload/Tests.antt =====
-- A request with a body, a query and a parameter, and one whose body is `null`.
use service_forge.Prelude.Decimal.{format_int}
use service_forge.Prelude.{
  insert, String, true, Option, none, some, [], ◌∷◌, ◌++◌, Table, ◌≡◌, ◌≢◌, ◌↔◌, refl, str_eq,
  lookup, if◌then◌else◌,
}
use service_forge.Prelude.Int.{pos}
use service_forge.Errors.{default_maps}
use service_forge.Errors.Result.{ok}
use service_forge.Prelude.Text.{decimal, trim_space}
use service_forge.Payload.{
  add_all, request_has_payload, Request, Payload, Json, body_payload, marshalled, fill,
  bind_proto_request, write_success_json,
}
use service_forge.Payload.Merged.{Carries, sent_queries, sent_params}
use service_forge.Payload.Bound.{bind_proto_request_lem, bind_panics_iff}

-- A body is `null`, or the name of an object; a message is the name and the page of one.
abbrev decode : String → Payload String
decode body = if str_eq body "null" then none else some (("name", body) ∷ [])

abbrev or_blank : Option String → String
or_blank none = ""
or_blank (some s) = s

abbrev spelled : Payload String → String
spelled none = "null"
spelled (some entries) = or_blank (lookup "name" entries)

abbrev pub named : Json String String
named = record {
  unmarshal = λ body. ok (decode body);
  marshal = λ p. ok (spelled p);
  text = λ s. s;
  unmarshal_message = λ text msg. (text, none);
  marshal_message = λ msg. ok msg;
}

abbrev request : String → Request
request body = record {
  body = body;
  query_len = 2;
  queries = ("name", "query") ∷ ("page", "2") ∷ [];
  param_len = 1;
  params = ("page", "9") ∷ [];
}

has_payload : request_has_payload (request "item") ≡ true
unfolding request_has_payload trim_space
has_payload = refl

trimmed : body_payload named "item" ≡ ok (some (("name", "item") ∷ []))
unfolding trim_space
trimmed = refl

bind_proto_request_lem_example :
    (entries : Table String) × Carries named (request "item") (("name", "item") ∷ []) entries
    × (bind_proto_request named default_maps (request "item") ""
        ≡ fill named default_maps ""
            (some (marshalled named default_maps (named.marshal (some entries)))))
bind_proto_request_lem_example =
    bind_proto_request_lem named default_maps (request "item") (("name", "item") ∷ []) ""
      has_payload trimmed

bind_panics_iff_example : (bind_proto_request named default_maps (request "null") "" ≡ none) ↔ (
    (body_payload named "null" ≡ ok none)
    × (sent_queries (request "null") ++ sent_params (request "null") ≢ []))
bind_panics_iff_example = bind_panics_iff named default_maps (request "null") ""

bind_null : bind_proto_request named default_maps (request "null") "" ≡ none
unfolding bind_proto_request lookup trim_space add_all
bind_null = refl

bind_item : bind_proto_request named default_maps (request " item ") "" ≡ some ("item", none)
unfolding bind_proto_request lookup trim_space add_all insert
bind_item = refl

envelope_of_reply :
    (write_success_json (pos 12) "{}").content
    ≡ "{\"code\":\"OK\",\"message\":\"ok\",\"data\":{},\"timestamp\":12}"
unfolding write_success_json format_int decimal
envelope_of_reply = refl
