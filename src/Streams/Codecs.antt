-- ===== src/Streams/Codecs.antt =====
-- The registered stream codecs (transport/gateway/proxy_stream.go). A factory of messages is of a type
-- `Factory`, and a nil one is none; the package variable `streamProxies` is a table.
use service_forge.Prelude.{String, Option, none, some, Table, lookup, insert, delete}
use service_forge.Errors.{Error, plain}
use service_forge.Errors.Result.{Result, ok, err}
use service_forge.Routes.{normalize_rpc}

abbrev pub stream_kind_bidi : String
stream_kind_bidi = "bidi"

abbrev pub stream_kind_sse : String
stream_kind_sse = "sse"

pub record StreamCodec (Factory : Type 0) : Type 0 where
  pub kind : String
  pub new_recv : Factory
  pub new_send : Factory

module _ {Factory : Type 0} where
  abbrev store_codec :
      StreamCodec Factory
      → Result (String × String)
      → Table (StreamCodec Factory)
      → Option Error × Table (StreamCodec Factory)
  store_codec codec (err e) codecs = (some e, codecs)
  store_codec codec (ok (full_rpc, service)) codecs = (none, insert full_rpc codec codecs)

  unfoldable pub register_bidi_stream_proxy :
      String
      → Option Factory
      → Option Factory
      → Table (StreamCodec Factory)
      → Option Error × Table (StreamCodec Factory)
  register_bidi_stream_proxy rpc (some recv) (some send) codecs =
      store_codec (record { kind = stream_kind_bidi; new_recv = recv; new_send = send })
        (normalize_rpc rpc) codecs
  register_bidi_stream_proxy rpc _ _ codecs =
      (some (plain "stream proxy requires newRecv and newSend factories"), codecs)

  unfoldable pub register_server_stream_proxy :
      String
      → Option Factory
      → Option Factory
      → Table (StreamCodec Factory)
      → Option Error × Table (StreamCodec Factory)
  register_server_stream_proxy rpc (some req) (some resp) codecs =
      store_codec (record { kind = stream_kind_sse; new_recv = resp; new_send = req })
        (normalize_rpc rpc) codecs
  register_server_stream_proxy rpc _ _ codecs =
      (some (plain "server stream proxy requires newReq and newResp factories"), codecs)

  -- The `Must` functions: none is a panic.
  unfoldable pub or_panic :
      Option Error × Table (StreamCodec Factory) → Option (Table (StreamCodec Factory))
  or_panic (none, codecs) = some codecs
  or_panic (some e, codecs) = none

  unfoldable pub must_register_bidi_stream_proxy :
      String
      → Option Factory
      → Option Factory
      → Table (StreamCodec Factory)
      → Option (Table (StreamCodec Factory))
  unfolding or_panic
  must_register_bidi_stream_proxy rpc recv send codecs =
      or_panic (register_bidi_stream_proxy rpc recv send codecs)

  unfoldable pub must_register_server_stream_proxy :
      String
      → Option Factory
      → Option Factory
      → Table (StreamCodec Factory)
      → Option (Table (StreamCodec Factory))
  unfolding or_panic
  must_register_server_stream_proxy rpc req resp codecs =
      or_panic (register_server_stream_proxy rpc req resp codecs)

  unfoldable pub lookup_stream_proxy :
      String → Table (StreamCodec Factory) → Option (StreamCodec Factory)
  lookup_stream_proxy full_rpc codecs = lookup full_rpc codecs

  unfoldable pub unregister_stream_proxy :
      String → Table (StreamCodec Factory) → Table (StreamCodec Factory)
  unregister_stream_proxy rpc codecs = elim (normalize_rpc rpc) [
    | err e ↦ codecs
    | ok (full_rpc, service) ↦ delete full_rpc codecs
  ]
