-- ===== src/Unary/Tests.antt =====
-- A proxy whose method answers with the request's message, over pools that hold an empty message.
use service_forge.Routes.{normalize_rpc}
use service_forge.Prelude.{ℕ, String, none, some, List, [], ◌∷◌, ◌≡◌, refl}
use service_forge.Prelude.Int.{pos}
use service_forge.Errors.{default_maps}
use service_forge.Errors.Result.{ok}
use service_forge.Payload.{write_proto_success, bind_proto_request, Request, Json, Reply}
use service_forge.Unary.{
  Codec, Invoke, Pools, handled_response, proto_codec, unary_codec_proxy, unary_invoke_proxy,
}
use service_forge.Unary.Pooled.{Event, request, collect, serve, serve_fresh, serve-eq-serve_fresh}

abbrev echo_json : Json String String
echo_json = record {
  unmarshal = λ body. ok (some (("name", body) ∷ []));
  marshal = λ p. ok "item";
  text = λ s. s;
  unmarshal_message = λ text msg. (text, none);
  marshal_message = λ msg. ok msg;
}

abbrev echo_codec : Codec String String (ℕ × Reply)
echo_codec = proto_codec echo_json echo_json default_maps "" "" (λ n. pos n)

abbrev echo : Invoke String String (ℕ × Reply)
echo req resp w = (req, none, w)

abbrev blank_pools : Pools String String
blank_pools = record { requests = "" ∷ []; responses = "" ∷ [] }

abbrev asked : Request
asked = record { body = "x"; query_len = 0; queries = []; param_len = 0; params = [] }

abbrev unanswered : Reply
unanswered = record { status = 0; content_type = ""; content = "" }

abbrev events : List Event
events =
    request (some 0, none) asked ∷ collect (some 0, some 0) ∷ request (some 0, some 0) asked ∷ []

serve-eq-serve_fresh_example :
    serve echo_codec echo events blank_pools (7, unanswered)
    ≡ serve_fresh echo_codec echo events (7, unanswered)
serve-eq-serve_fresh_example =
    serve-eq-serve_fresh echo_codec echo (λ m. refl) (λ m. refl) events blank_pools (7, unanswered)
      (record { requests_are = (refl, tt); responses_are = (refl, tt) })

served :
    (unary_invoke_proxy "pkg.S/M" echo_codec
      (λ rpc. echo)
      (some 0, none)
      asked
      blank_pools
      (7, unanswered)).0
    ≡ some (ok handled_response)
unfolding unary_invoke_proxy normalize_rpc unary_codec_proxy bind_proto_request write_proto_success
served = refl
