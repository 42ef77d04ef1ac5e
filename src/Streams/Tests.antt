-- ===== src/Streams/Tests.antt =====
-- Streams at concrete inputs.
use service_forge.Prelude.{
  ℕ, Bool, true, false, Option, none, some, List, [], ◌∷◌, String, ◌≡◌, refl, ◌⊎◌, All,
}
use service_forge.Prelude.Float.{thousandths}
use service_forge.Prelude.Int.{pos}
use service_forge.Prelude.Text.{is_empty}
use service_forge.Errors.{plain, status, other, default_maps}
use service_forge.Errors.Sample.{plain_status}
use service_forge.Errors.Result.{ok, err}
use service_forge.Balancer.{least_conn}
use service_forge.Dialer.{Network}
use service_forge.Prelude.Value.{null}
use service_forge.Proxy.{Upstream, Route, Session}
use service_forge.Streams.{StreamNet, invoke_stream, invoke_server_stream, write_body}
use service_forge.Streams.Frames.{
  MessageType, text_message, binary_message, is_binary, Encodings, unmarshal_ws_frame,
  marshal_ws_frame, PumpError, eof, close_frame, failed, is_normal_stream_close,
}
use service_forge.Streams.Bidi.{
  Bridge, new_bridge, Event, frame, read_fails, client_returns, encoding_comes, gives_up, message,
  receive_fails, server_returns, relaying, client_step, server_step, step, result,
}
use service_forge.Streams.Encoding.{Run, here, next}
use service_forge.Streams.Pumps.{mirrors_first_frame}
use service_forge.Streams.Progress.{client_over, server_over, is_waiting, ends_unblock}
use service_forge.Streams.Released.{HasCounters, stream_releases}

-- Messages are texts, and an empty frame is not valid.
abbrev texts : Encodings String
texts = record {
  marshal_proto = λ m. ok m;
  marshal_json = λ m. ok m;
  unmarshal_proto = λ s. ok s;
  unmarshal_json = λ s. elim (is_empty s) [ true ↦ err (plain "unexpected end") | false ↦ ok s ];
}

abbrev all_steps : List (Event String) → Bridge String → Option (Bridge String)
all_steps [] b = some b
all_steps (e ∷ es) b = elim (step texts default_maps e b) [ none ↦ none | some c ↦ all_steps es c ]

-- A client that speaks in text frames and then closes, which cancels the stream.
abbrev talk : List (Event String)
talk = frame text_message "hello" none ∷ encoding_comes ∷ message "hi" none ∷ []

abbrev talked : Bridge String
talked = record new_bridge {
  encoding = some false;
  server = relaying false;
  sent = "hello" ∷ [];
  written = (text_message, "hi") ∷ [];
}

talk-Run : Run texts default_maps new_bridge talk talked
unfolding step client_step server_step unmarshal_ws_frame marshal_ws_frame
talk-Run =
    next (frame text_message "hello" none) (encoding_comes ∷ message "hi" none ∷ []) refl
      (next encoding_comes (message "hi" none ∷ []) refl (next (message "hi" none) [] refl here))

mirrors_first_frame_example :
    All
      (λ (f : MessageType × String). some false ≡ some (is_binary f.0))
      ((text_message, "hi") ∷ [])
mirrors_first_frame_example = mirrors_first_frame texts default_maps talked talk talk-Run

ends_unblock_example :
    ((server_over talked.server ≡ false) ⊎ (talked.ws_closed ≡ true))
    × ((client_over talked.client ≡ false) ⊎ ((talked.cancelled ≡ true) ⊎ (talked.broken ≡ true)))
    × ((client_over talked.client ≡ false)
        ⊎ ((is_waiting talked.server ≡ false)
            ⊎ ((talked.cancelled ≡ true) ⊎ ((x : Bool) × (talked.channel ≡ some x)))))
ends_unblock_example = ends_unblock texts default_maps talked talk talk-Run

abbrev cancelled_error : PumpError
cancelled_error = failed (status (other 1) "context canceled")

-- The frame behind the first one is not valid: the client's pump cancels the stream, and the server's
-- pump reports the cancellation before the client's reports INVALID_ARGUMENT.
bad_frame_masked :
    elim (all_steps
      (frame text_message "hello" none
        ∷ encoding_comes
        ∷ frame text_message "" none
        ∷ receive_fails cancelled_error
        ∷ server_returns
        ∷ client_returns
        ∷ [])
      new_bridge) [ none ↦ none | some b ↦ result b ]
    ≡ some (some cancelled_error)
unfolding step client_step server_step unmarshal_ws_frame result is_normal_stream_close
bad_frame_masked = refl

-- The server ends the stream normally: closing the socket fails the client's reading, and the client's
-- pump reports that before the server's reports io.EOF.
eof_masked :
    elim (all_steps
      (frame text_message "hello" none
        ∷ encoding_comes
        ∷ receive_fails eof
        ∷ read_fails (failed (plain "use of closed network connection"))
        ∷ client_returns
        ∷ server_returns
        ∷ [])
      new_bridge) [ none ↦ none | some b ↦ result b ]
    ≡ some (some (failed (plain "use of closed network connection")))
unfolding step client_step server_step unmarshal_ws_frame result is_normal_stream_close
eof_masked = refl

-- A client that leaves with a close frame ends the stream without an error.
client_leaves :
    elim (all_steps
      (frame binary_message "x" none
        ∷ read_fails (close_frame 1001)
        ∷ client_returns
        ∷ gives_up
        ∷ server_returns
        ∷ [])
      new_bridge) [ none ↦ none | some b ↦ result b ]
    ≡ some none
unfolding step client_step server_step unmarshal_ws_frame result is_normal_stream_close
client_leaves = refl

-- A network whose state counts what was written, over two pooled connections.
abbrev pooled : Network
pooled = record {
  World = ℕ;
  Conn = String;
  new_client = λ target w. (ok target, w);
  close_conn = λ conn w. (none, w);
  resolver = none;
}

abbrev upstream : Upstream thousandths String
upstream = record {
  network = pooled;
  invoker = λ timeout md conn w. (some (ok conn), w);
  now = λ w. w;
  wait = λ d w. (none, w);
  rand_int = λ w n. 0;
  status = plain_status;
  maps = default_maps;
  claims = null;
}

abbrev streams : StreamNet upstream
streams = record {
  Stream = String;
  new_stream = λ client md conn w. (ok conn, w);
  send_msg = λ m stream w. (none, w);
  close_send = λ stream w. w;
  cancel = λ w. w;
  bind = some (ok "request");
  bridge = λ stream w. (none, w);
  marshal = λ m. ok m;
  write = λ text w. (none, w);
  flush = λ w. (some (plain "client gone"), w);
}

abbrev route : Route String
route = record {
  full_rpc = "/a.B/C";
  target = "";
  service = "b";
  timeout = pos 0;
  retry = none;
  forwarder = none;
  conns = "one" ∷ "two" ∷ [];
}

abbrev session : Session upstream
session = record {
  balancer = least_conn (some (1 ∷ 0 ∷ []));
  breaker = none;
  dialer = record { conns = []; world = 0 };
}

stream_releases_example :
    HasCounters 2 (some (1 ∷ 0 ∷ [])) (invoke_stream upstream streams route session).1.balancer
    × HasCounters 2
        (some (1 ∷ 0 ∷ []))
        (write_body upstream streams
          ("a" ∷ [])
          (invoke_server_stream upstream streams route session)).balancer
stream_releases_example =
    stream_releases upstream streams ("a" ∷ []) route session (some (1 ∷ 0 ∷ [])) (ok "request")
      refl refl

-- A request with the body `null` and a parameter
abbrev null_body : StreamNet upstream
null_body = record streams { bind = none }
