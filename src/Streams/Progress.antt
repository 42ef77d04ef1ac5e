-- ===== src/Streams/Progress.antt =====
-- When one pump ends, the other is not left blocked (transport/gateway/proxy_stream.go, `proxyBidi`).
use service_forge.Prelude.{
  Bool-cases, Bool, true, false, Option, none, some, List, String, ◌≡◌, refl, ap, ◌⊎◌, inl, inr,
}
use service_forge.Errors.{CodeMaps}
use service_forge.Errors.Result.{Result, ok, err}
use service_forge.Streams.Frames.{
  MessageType, is_binary, Encodings, unmarshal_ws_frame, marshal_ws_frame, PumpError,
}
use service_forge.Streams.Bidi.{
  ClientPhase, reading, ending, client_ended, ServerPhase, waiting, relaying, closing, server_ended,
  Bridge, new_bridge, Event, settle, send, write,
}
use service_forge.Streams.Moves.{
  no_some, Moves, framed, read_failed, client_returned, encoding_came, gave_up, messaged,
  receive_failed, server_returned, step-Moves,
}
use service_forge.Streams.Encoding.{Run, here, next}

abbrev pub client_over : ClientPhase → Bool
client_over reading = false
client_over (ending e) = true
client_over client_ended = true

abbrev pub server_over : ServerPhase → Bool
server_over waiting = false
server_over (relaying x) = false
server_over (closing e) = true
server_over server_ended = true

abbrev pub is_waiting : ServerPhase → Bool
is_waiting waiting = true
is_waiting (relaying x) = false
is_waiting (closing e) = false
is_waiting server_ended = false

module _ {A : Type 0} (E : Encodings A) (maps : CodeMaps) where
  record IsLive (b : Bridge A) : Type 0 where
    closed : server_over b.server ≡ true → b.ws_closed ≡ true
    stopped : client_over b.client ≡ true → (b.cancelled ≡ true) ⊎ (b.broken ≡ true)
    spoke : b.broken ≡ true → (x : Bool) × (b.encoding ≡ some x)
    fed : (x : Bool) → b.encoding ≡ some x → b.server ≡ waiting → b.channel ≡ some x

  IsLive-settle :
      (ty : MessageType) (o : Option Bool) (b : Bridge A)
      → b.encoding ≡ o
      → IsLive b
      → IsLive (settle E maps ty o b).1
        × ((x : Bool) × ((settle E maps ty o b).1.encoding ≡ some x))
  IsLive-settle ty (some x) b e l = (l, (x, e))
  IsLive-settle ty none b e l = (
    record {
      closed = l.closed;
      stopped = l.stopped;
      spoke = λ h. (is_binary ty, refl);
      fed = λ x h w. h;
    },
    (is_binary ty, refl),
  )

  IsLive-send :
      (x : Result A) (sending : Option PumpError) (b : Bridge A)
      → (y : Bool) × (b.encoding ≡ some y)
      → IsLive b
      → IsLive (send E maps x sending b)
  IsLive-send (err e) sending b y l = record {
    closed = l.closed;
    stopped = λ h. inl refl;
    spoke = l.spoke;
    fed = l.fed;
  }
  IsLive-send (ok msg) none b y l = record {
    closed = l.closed;
    stopped = l.stopped;
    spoke = l.spoke;
    fed = l.fed;
  }
  IsLive-send (ok msg) (some e) b y l = record {
    closed = l.closed;
    stopped = λ h. inr refl;
    spoke = λ h. y;
    fed = l.fed;
  }

  IsLive-write :
      (x : Result (MessageType × String)) (writing : Option PumpError) (b : Bridge A)
      → IsLive b
      → IsLive (write E maps x writing b)
  IsLive-write (err e) writing b l = record {
    closed = λ h. refl;
    stopped = l.stopped;
    spoke = l.spoke;
    fed = λ x h w. absurd cc;
  }
  IsLive-write (ok f) none b l = record {
    closed = l.closed;
    stopped = l.stopped;
    spoke = l.spoke;
    fed = l.fed;
  }
  IsLive-write (ok f) (some e) b l = record {
    closed = λ h. refl;
    stopped = l.stopped;
    spoke = l.spoke;
    fed = λ x h w. absurd cc;
  }

  IsLive-Moves : (e : Event A) (b c : Bridge A) → Moves E maps e b c → IsLive b → IsLive c
  IsLive-Moves _ b _ (framed ty bytes sending at) l =
      let (binary, b') = settle E maps ty b.encoding b in
      let settled = IsLive-settle ty b.encoding b refl l in
      IsLive-send (unmarshal_ws_frame E binary bytes) sending b' settled.1 settled.0
  IsLive-Moves _ b _ (read_failed e at) l = record {
    closed = l.closed;
    stopped = λ h. inl refl;
    spoke = l.spoke;
    fed = l.fed;
  }
  IsLive-Moves _ b _ (client_returned e at) l = record {
    closed = l.closed;
    stopped = λ h. l.stopped (ap client_over at);
    spoke = l.spoke;
    fed = l.fed;
  }
  IsLive-Moves _ b _ (encoding_came x at full) l = record {
    closed = λ h. absurd cc;
    stopped = l.stopped;
    spoke = l.spoke;
    fed = λ y h w. absurd cc;
  }
  IsLive-Moves _ b _ (gave_up at done) l = record {
    closed = λ h. refl;
    stopped = l.stopped;
    spoke = l.spoke;
    fed = λ y h w. absurd cc;
  }
  IsLive-Moves _ b _ (messaged x msg writing at) l =
      IsLive-write (marshal_ws_frame E x msg) writing b l
  IsLive-Moves _ b _ (receive_failed x e at) l = record {
    closed = λ h. refl;
    stopped = l.stopped;
    spoke = l.spoke;
    fed = λ y h w. absurd cc;
  }
  IsLive-Moves _ b _ (server_returned e at) l = record {
    closed = λ h. l.closed (ap server_over at);
    stopped = l.stopped;
    spoke = l.spoke;
    fed = λ y h w. absurd cc;
  }

  IsLive-Run : (b d : Bridge A) (es : List (Event A)) → Run E maps b es d → IsLive b → IsLive d
  IsLive-Run b _ _ here l = l
  IsLive-Run b d _ (next {c = c} e es q rest) l =
      IsLive-Run c d es rest (IsLive-Moves e b c (step-Moves E maps e b c q) l)

  waits :
      (d : Bridge A)
      → IsLive d
      → (d.cancelled ≡ true) ⊎ (d.broken ≡ true)
      → (p : ServerPhase) → d.server ≡ p
      → (is_waiting d.server ≡ false) ⊎ ((d.cancelled ≡ true) ⊎ ((x : Bool) × (d.channel ≡ some x)))
  waits d l stopped (relaying x) at = inl (ap is_waiting at)
  waits d l stopped (closing e) at = inl (ap is_waiting at)
  waits d l stopped server_ended at = inl (ap is_waiting at)
  waits d l (inl c) waiting at = inr (inl c)
  waits d l (inr broken) waiting at = let (x, e) = l.spoke broken in inr (inr (x, l.fed x e at))

  -- In every run of the two pumps: once the server's pump ends, the socket is closed, so reading it
  -- fails; once the client's pump ends, the stream's context is cancelled or the stream is broken, so
  -- receiving fails, and a server's pump that waits for the encoding finds it in the channel or finds
  -- the context cancelled.
  pub ends_unblock :
      (d : Bridge A) (es : List (Event A))
      → Run E maps new_bridge es d
      → ((server_over d.server ≡ false) ⊎ (d.ws_closed ≡ true))
        × ((client_over d.client ≡ false) ⊎ ((d.cancelled ≡ true) ⊎ (d.broken ≡ true)))
        × ((client_over d.client ≡ false)
            ⊎ ((is_waiting d.server ≡ false)
                ⊎ ((d.cancelled ≡ true) ⊎ ((x : Bool) × (d.channel ≡ some x)))))
  ends_unblock d es run =
      let start : IsLive new_bridge = record {
        closed = λ h. absurd cc;
        stopped = λ h. absurd cc;
        spoke = λ h. absurd cc;
        fed = λ x h w. no_some h;
      } in
      let l = IsLive-Run new_bridge d es run start in
      (
        elim (Bool-cases (server_over d.server)) [ inl h ↦ inr (l.closed h) | inr h ↦ inl h ],
        elim (Bool-cases (client_over d.client)) [ inl h ↦ inr (l.stopped h) | inr h ↦ inl h ],
        elim (Bool-cases (client_over d.client)) [
          | inr h ↦ inl h
          | inl over ↦ inr (waits d l (l.stopped over) d.server refl)
        ],
      )
