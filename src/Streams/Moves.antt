-- ===== src/Streams/Moves.antt =====
-- The steps of the two pumps as a relation: which events are enabled, and what they do
-- (transport/gateway/proxy_stream.go, `proxyBidi`).
use service_forge.Prelude.{Bool, true, false, Option, none, some, String, ◌≡◌, refl, subst}
use service_forge.Errors.{CodeMaps}
use service_forge.Streams.Frames.{
  MessageType, Encodings, unmarshal_ws_frame, marshal_ws_frame, PumpError,
}
use service_forge.Streams.Bidi.{
  ClientPhase, reading, ending, client_ended, ServerPhase, waiting, relaying, closing, server_ended,
  Bridge, Event, frame, read_fails, client_returns, encoding_comes, gives_up, message,
  receive_fails, server_returns, report, settle, send, write, take_encoding, give_up, client_step,
  server_step, step,
}

pub some_inj : {A : Type 0} {x y : A} → some x ≡ some y → x ≡ y
some_inj e = cc

pub no_some : {A B : Type 0} {x : A} → none ≡ some x → B
no_some e = absurd cc

module _ {A : Type 0} (E : Encodings A) (maps : CodeMaps) where
  -- A frame is taken in with the encoding that was settled.
  abbrev pub take_frame : MessageType → String → Option PumpError → Bridge A → Bridge A
  take_frame ty bytes sending b =
      let (binary, b') = settle E maps ty b.encoding b in
      send E maps (unmarshal_ws_frame E binary bytes) sending b'

  -- `Moves e b c`: the event is enabled in `b` and leads to `c`.
  pub data Moves : Event A → Bridge A → Bridge A → Type 0 where
    framed :
        {b : Bridge A} (ty : MessageType) (bytes : String) (sending : Option PumpError)
        → b.client ≡ reading
        → Moves (frame ty bytes sending) b (take_frame ty bytes sending b)
    read_failed :
        {b : Bridge A} (e : PumpError)
        → b.client ≡ reading
        → Moves (read_fails e) b (record b { cancelled = true; client = ending e })
    client_returned :
        {b : Bridge A} (e : PumpError)
        → b.client ≡ ending e
        → Moves client_returns b
            (record b { client = client_ended; reported = report b.reported (some e) })
    encoding_came :
        {b : Bridge A} (x : Bool)
        → b.server ≡ waiting
        → b.channel ≡ some x
        → Moves encoding_comes b (record b { server = relaying x; channel = none })
    gave_up :
        {b : Bridge A}
        → b.server ≡ waiting
        → b.cancelled ≡ true
        → Moves gives_up b (record b { server = closing none; ws_closed = true })
    messaged :
        {b : Bridge A} (x : Bool) (msg : A) (writing : Option PumpError)
        → b.server ≡ relaying x
        → Moves (message msg writing) b (write E maps (marshal_ws_frame E x msg) writing b)
    receive_failed :
        {b : Bridge A} (x : Bool) (e : PumpError)
        → b.server ≡ relaying x
        → Moves (receive_fails e) b (record b { server = closing (some e); ws_closed = true })
    server_returned :
        {b : Bridge A} (e : Option PumpError)
        → b.server ≡ closing e
        → Moves server_returns b
            (record b { server = server_ended; reported = report b.reported e })

  move : (e : Event A) (b c d : Bridge A) → some c ≡ some d → Moves e b c → Moves e b d
  move e b c d q m = subst (Moves e b) (some_inj q) m

  client_moves :
      (e : Event A) (p : ClientPhase) (b c : Bridge A)
      → b.client ≡ p
      → client_step E maps e p b ≡ some c
      → Moves e b c
  unfolding client_step
  client_moves (frame ty bytes sending) reading b c at q =
      move _ b _ c q (framed ty bytes sending at)
  client_moves (frame ty bytes sending) (ending e) b c at q = no_some q
  client_moves (frame ty bytes sending) client_ended b c at q = no_some q
  client_moves (read_fails e) reading b c at q = move _ b _ c q (read_failed e at)
  client_moves (read_fails e) (ending _) b c at q = no_some q
  client_moves (read_fails e) client_ended b c at q = no_some q
  client_moves client_returns (ending e) b c at q = move _ b _ c q (client_returned e at)
  client_moves client_returns reading b c at q = no_some q
  client_moves client_returns client_ended b c at q = no_some q
  client_moves encoding_comes p b c at q = no_some q
  client_moves gives_up p b c at q = no_some q
  client_moves (message msg writing) p b c at q = no_some q
  client_moves (receive_fails e) p b c at q = no_some q
  client_moves server_returns p b c at q = no_some q

  take_encoding_moves :
      (o : Option Bool) (b c : Bridge A)
      → b.server ≡ waiting
      → b.channel ≡ o
      → take_encoding E maps o b ≡ some c
      → Moves encoding_comes b c
  take_encoding_moves none b c at full q = no_some q
  take_encoding_moves (some x) b c at full q = move _ b _ c q (encoding_came x at full)

  give_up_moves :
      (o : Bool) (b c : Bridge A)
      → b.server ≡ waiting
      → b.cancelled ≡ o
      → give_up E maps o b ≡ some c
      → Moves gives_up b c
  give_up_moves false b c at done q = no_some q
  give_up_moves true b c at done q = move _ b _ c q (gave_up at done)

  server_moves :
      (e : Event A) (p : ServerPhase) (b c : Bridge A)
      → b.server ≡ p
      → server_step E maps e p b ≡ some c
      → Moves e b c
  unfolding server_step
  server_moves encoding_comes waiting b c at q = take_encoding_moves b.channel b c at refl q
  server_moves gives_up waiting b c at q = give_up_moves b.cancelled b c at refl q
  server_moves (message msg writing) (relaying x) b c at q =
      move _ b _ c q (messaged x msg writing at)
  server_moves (receive_fails e) (relaying x) b c at q = move _ b _ c q (receive_failed x e at)
  server_moves server_returns (closing e) b c at q = move _ b _ c q (server_returned e at)
  server_moves _ _ b c at q = no_some q

  -- What the executable step does is a move.
  pub step-Moves : (e : Event A) (b c : Bridge A) → step E maps e b ≡ some c → Moves e b c
  unfolding step
  step-Moves (frame ty bytes sending) b c q =
      client_moves (frame ty bytes sending) b.client b c refl q
  step-Moves (read_fails e) b c q = client_moves (read_fails e) b.client b c refl q
  step-Moves client_returns b c q = client_moves client_returns b.client b c refl q
  step-Moves encoding_comes b c q = server_moves encoding_comes b.server b c refl q
  step-Moves gives_up b c q = server_moves gives_up b.server b c refl q
  step-Moves (message msg writing) b c q = server_moves (message msg writing) b.server b c refl q
  step-Moves (receive_fails e) b c q = server_moves (receive_fails e) b.server b c refl q
  step-Moves server_returns b c q = server_moves server_returns b.server b c refl q
