-- ===== src/Streams/Frames.antt =====
-- The frames of a WebSocket and the ends of a stream (transport/gateway/proxy_stream.go). The encodings
-- of protobuf are parameters; bytes are texts here.
use service_forge.Prelude.{ℕ, String, Bool, true, false, ◌||◌, ◌==◌}
use service_forge.Errors.{Error}
use service_forge.Errors.Result.{Result, ok, err}

-- The types of the messages that `ReadMessage` gives.
pub data MessageType : Type 0 where
  text_message binary_message : MessageType

abbrev pub is_binary : MessageType → Bool
is_binary text_message = false
is_binary binary_message = true

-- `proto.Marshal`, `proto.Unmarshal`, and protojson's
pub record Encodings (A : Type 0) : Type 0 where
  pub marshal_proto : A → Result String
  pub marshal_json : A → Result String
  pub unmarshal_proto : String → Result A
  pub unmarshal_json : String → Result A

module _ {A : Type 0} (E : Encodings A) where
  unfoldable pub unmarshal_ws_frame : Bool → String → Result A
  unmarshal_ws_frame true bytes = E.unmarshal_proto bytes
  unmarshal_ws_frame false bytes = E.unmarshal_json bytes

  abbrev framed : MessageType → Result String → Result (MessageType × String)
  framed ty (ok bytes) = ok (ty, bytes)
  framed ty (err e) = err e

  unfoldable pub marshal_ws_frame : Bool → A → Result (MessageType × String)
  marshal_ws_frame true msg = framed binary_message (E.marshal_proto msg)
  marshal_ws_frame false msg = framed text_message (E.marshal_json msg)

-- What ends a pump: io.EOF, a close frame of the client with its code, or another error.
pub data PumpError : Type 0 where
  eof : PumpError
  close_frame : ℕ → PumpError
  failed : Error → PumpError

-- 1000, 1001 and 1005: normal closure, going away, no status received
unfoldable pub is_normal_stream_close : PumpError → Bool
is_normal_stream_close eof = true
is_normal_stream_close (close_frame code) = code == 1000 || code == 1001 || code == 1005
is_normal_stream_close (failed e) = false
