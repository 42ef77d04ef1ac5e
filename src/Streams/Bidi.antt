-- ===== src/Streams/Bidi.antt =====
-- The two pumps of a bidirectional stream (transport/gateway/proxy_stream.go, `proxyBidi`), which run
-- side by side: one event is a step of one of them, and any order of events that are enabled is a run.
use service_forge.Prelude.{
  Bool, true, false, Option, none, some, List, [], ◌∷◌, ◌++◌, String, if◌then◌else◌,
}
use service_forge.Errors.{Error, app, CodeMaps, code_invalid_argument, new, with_cause}
use service_forge.Errors.Result.{Result, ok, err}
use service_forge.Streams.Frames.{
  MessageType, is_binary, Encodings, unmarshal_ws_frame, marshal_ws_frame, PumpError, failed,
  is_normal_stream_close,
}

-- The client's pump reads, or has an error to return, or has returned.
pub data ClientPhase : Type 0 where
  reading : ClientPhase
  ending : PumpError → ClientPhase
  client_ended : ClientPhase

-- The server's pump waits for the encoding, relays with it, has closed the socket and has a result to
-- return, or has returned.
pub data ServerPhase : Type 0 where
  waiting : ServerPhase
  relaying : Bool → ServerPhase
  closing : Option PumpError → ServerPhase
  server_ended : ServerPhase

-- `encoding` is the flag of the first client frame once there is one, `channel` what is in `encodingC`,
-- and `broken` that a SendMsg failed, which ends the stream. `reported` is the error group's.
pub record Bridge (A : Type 0) : Type 0 where
  pub encoding : Option Bool
  pub channel : Option Bool
  pub client : ClientPhase
  pub server : ServerPhase
  pub cancelled : Bool
  pub ws_closed : Bool
  pub broken : Bool
  pub sent : List A
  pub written : List (MessageType × String)
  pub reported : Option PumpError

abbrev pub new_bridge : {A : Type 0} → Bridge A
new_bridge = record {
  encoding = none;
  channel = none;
  client = reading;
  server = waiting;
  cancelled = false;
  ws_closed = false;
  broken = false;
  sent = [];
  written = [];
  reported = none;
}

-- One step of a pump, with what the libraries answer: a frame is read, and sending it fails or not; the
-- reading fails; the client's pump returns; the server's pump takes the encoding, or gives up; a
-- message comes, and writing it fails or not; the receiving fails; the server's pump returns.
pub data Event (A : Type 0) : Type 0 where
  frame : MessageType → String → Option PumpError → Event A
  read_fails : PumpError → Event A
  client_returns : Event A
  encoding_comes : Event A
  gives_up : Event A
  message : A → Option PumpError → Event A
  receive_fails : PumpError → Event A
  server_returns : Event A

-- `errgroup.Group` keeps the first error.
abbrev pub report : Option PumpError → Option PumpError → Option PumpError
report none later = later
report (some e) later = some e

module _ {A : Type 0} (E : Encodings A) (maps : CodeMaps) where
  abbrev bad_frame : Error → PumpError
  bad_frame e =
      failed (
        app
          (with_cause e (new maps code_invalid_argument "stream frame does not match grpc input")))

  -- The first frame settles the encoding, for the client's pump and for the channel.
  abbrev pub settle : MessageType → Option Bool → Bridge A → Bool × Bridge A
  settle ty (some binary) b = (binary, b)
  settle ty none b =
      (is_binary ty, record b { encoding = some (is_binary ty); channel = some (is_binary ty) })

  abbrev pub send : Result A → Option PumpError → Bridge A → Bridge A
  send (err e) sending b = record b { cancelled = true; client = ending (bad_frame e) }
  send (ok msg) none b = record b { sent = b.sent ++ (msg ∷ []) }
  send (ok msg) (some e) b = record b {
    broken = true;
    client = client_ended;
    reported = report b.reported (some e);
  }

  abbrev pub write : Result (MessageType × String) → Option PumpError → Bridge A → Bridge A
  write (err e) writing b = record b { server = closing (some (failed e)); ws_closed = true }
  write (ok f) none b = record b { written = b.written ++ (f ∷ []) }
  write (ok f) (some e) b = record b { server = closing (some e); ws_closed = true }

  abbrev pub take_encoding : Option Bool → Bridge A → Option (Bridge A)
  take_encoding none b = none
  take_encoding (some binary) b = some (record b { server = relaying binary; channel = none })

  -- Only a cancelled context lets the server's pump give up.
  abbrev pub give_up : Bool → Bridge A → Option (Bridge A)
  give_up false b = none
  give_up true b = some (record b { server = closing none; ws_closed = true })

  -- What an event makes of a phase of its pump; none where it is not enabled.
  unfoldable pub client_step : Event A → ClientPhase → Bridge A → Option (Bridge A)
  client_step (frame ty bytes sending) reading b =
      let (binary, b') = settle ty b.encoding b in
      some (send (unmarshal_ws_frame E binary bytes) sending b')
  client_step (read_fails e) reading b = some (record b { cancelled = true; client = ending e })
  client_step client_returns (ending e) b =
      some (record b { client = client_ended; reported = report b.reported (some e) })
  client_step _ _ b = none

  unfoldable pub server_step : Event A → ServerPhase → Bridge A → Option (Bridge A)
  server_step encoding_comes waiting b = take_encoding b.channel b
  server_step gives_up waiting b = give_up b.cancelled b
  server_step (message msg writing) (relaying binary) b =
      some (write (marshal_ws_frame E binary msg) writing b)
  server_step (receive_fails e) (relaying binary) b =
      some (record b { server = closing (some e); ws_closed = true })
  server_step server_returns (closing e) b =
      some (record b { server = server_ended; reported = report b.reported e })
  server_step _ _ b = none

  unfoldable pub step : Event A → Bridge A → Option (Bridge A)
  unfolding client_step server_step
  step (frame ty bytes sending) b = client_step (frame ty bytes sending) b.client b
  step (read_fails e) b = client_step (read_fails e) b.client b
  step client_returns b = client_step client_returns b.client b
  step encoding_comes b = server_step encoding_comes b.server b
  step gives_up b = server_step gives_up b.server b
  step (message msg writing) b = server_step (message msg writing) b.server b
  step (receive_fails e) b = server_step (receive_fails e) b.server b
  step server_returns b = server_step server_returns b.server b

-- `proxyBidi` returns when both pumps have: the first error, if it is no normal end.
abbrev pub unless_normal : Option PumpError → Option PumpError
unless_normal none = none
unless_normal (some e) = if is_normal_stream_close e then none else some e

unfoldable pub result : {A : Type 0} → Bridge A → Option (Option PumpError)
unfolding is_normal_stream_close
result b = elim (b.client) [
  | client_ended ↦ elim (b.server) [ server_ended ↦ some (unless_normal b.reported) | _ ↦ none ]
  | _ ↦ none
]
