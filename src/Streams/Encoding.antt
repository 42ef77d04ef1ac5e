-- ===== src/Streams/Encoding.antt =====
-- Runs of the two pumps, and the encoding that a run settles (transport/gateway/proxy_stream.go,
-- `proxyBidi`).
use service_forge.Prelude.{Bool, Option, none, some, List, [], ◌∷◌, String, ◌≡◌, refl, ap, ◌∙◌}
use service_forge.Errors.{CodeMaps}
use service_forge.Errors.Result.{Result, ok, err}
use service_forge.Streams.Frames.{
  MessageType, is_binary, Encodings, unmarshal_ws_frame, marshal_ws_frame, PumpError,
}
use service_forge.Streams.Bidi.{Bridge, Event, frame, settle, send, write, step}
use service_forge.Streams.Moves.{
  Moves, framed, read_failed, client_returned, encoding_came, gave_up, messaged, receive_failed,
  server_returned, step-Moves,
}

module _ {A : Type 0} (E : Encodings A) (maps : CodeMaps) where
  -- A run of the two pumps: the events, each enabled where it happens.
  pub data Run : Bridge A → List (Event A) → Bridge A → Type 0 where
    here : {b : Bridge A} → Run b [] b
    next :
        {b c d : Bridge A} (e : Event A) (es : List (Event A))
        → step E maps e b ≡ some c
        → Run c es d
        → Run b (e ∷ es) d

  -- The encoding behind an event: that of the first frame.
  abbrev pub encoding_behind : Event A → Option Bool → Option Bool
  encoding_behind (frame ty bytes sending) none = some (is_binary ty)
  encoding_behind e o = o

  abbrev pub first_encoding : Option Bool → List (Event A) → Option Bool
  first_encoding o [] = o
  first_encoding o (e ∷ es) = first_encoding (encoding_behind e o) es

  encoding-send :
      (x : Result A) (sending : Option PumpError) (b : Bridge A)
      → (send E maps x sending b).encoding ≡ b.encoding
  encoding-send (err e) sending b = refl
  encoding-send (ok msg) none b = refl
  encoding-send (ok msg) (some e) b = refl

  encoding-settle :
      (ty : MessageType) (bytes : String) (sending : Option PumpError) (o : Option Bool)
      (b : Bridge A)
      → b.encoding ≡ o
      → (settle E maps ty o b).1.encoding ≡ encoding_behind (frame ty bytes sending) o
  encoding-settle ty bytes sending (some x) b e = e
  encoding-settle ty bytes sending none b e = refl

  encoding-write :
      (x : Result (MessageType × String)) (writing : Option PumpError) (b : Bridge A)
      → (write E maps x writing b).encoding ≡ b.encoding
  encoding-write (err e) writing b = refl
  encoding-write (ok f) none b = refl
  encoding-write (ok f) (some e) b = refl

  encoding-Moves :
      (e : Event A) (b c : Bridge A)
      → Moves E maps e b c
      → c.encoding ≡ encoding_behind e b.encoding
  encoding-Moves _ b _ (framed ty bytes sending at) =
      let (binary, b') = settle E maps ty b.encoding b in
      encoding-send (unmarshal_ws_frame E binary bytes) sending b'
      ∙ encoding-settle ty bytes sending b.encoding b refl
  encoding-Moves _ b _ (read_failed e at) = refl
  encoding-Moves _ b _ (client_returned e at) = refl
  encoding-Moves _ b _ (encoding_came x at full) = refl
  encoding-Moves _ b _ (gave_up at done) = refl
  encoding-Moves _ b _ (messaged x msg writing at) =
      encoding-write (marshal_ws_frame E x msg) writing b
  encoding-Moves _ b _ (receive_failed x e at) = refl
  encoding-Moves _ b _ (server_returned e at) = refl

  pub encoding-Run :
      (b d : Bridge A) (es : List (Event A))
      → Run b es d
      → d.encoding ≡ first_encoding b.encoding es
  encoding-Run b _ _ here = refl
  encoding-Run b d _ (next {c = c} e es q rest) =
      encoding-Run c d es rest
      ∙ ap (λ o. first_encoding o es) (encoding-Moves e b c (step-Moves E maps e b c q))
