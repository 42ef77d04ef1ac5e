-- ===== src/Streams/Pumps.antt =====
-- What the two pumps relay (transport/gateway/proxy_stream.go, `proxyBidi`): the server answers in the
-- encoding of the client's first frame.
use service_forge.Prelude.{
  Bool, true, false, Option, none, some, List, [], ◌∷◌, String, ◌≡◌, refl, sym, ap, ◌∙◌, subst, inl,
  inr, All, All-append, arith,
}
use service_forge.Errors.{CodeMaps}
use service_forge.Errors.Result.{Result, ok, err, Result-cases}
use service_forge.Streams.Frames.{
  MessageType, is_binary, Encodings, unmarshal_ws_frame, marshal_ws_frame, PumpError,
}
use service_forge.Streams.Bidi.{relaying, Bridge, new_bridge, Event, settle, send, write}
use service_forge.Streams.Moves.{
  no_some, Moves, framed, read_failed, client_returned, encoding_came, gave_up, messaged,
  receive_failed, server_returned, step-Moves,
}
use service_forge.Streams.Encoding.{Run, here, next, first_encoding, encoding-Run}

relaying_inj : {x y : Bool} → relaying x ≡ relaying y → x ≡ y
relaying_inj e = cc

module _ {A : Type 0} (E : Encodings A) (maps : CodeMaps) where
  record Mirrors (b : Bridge A) : Type 0 where
    relayed : (x : Bool) → b.server ≡ relaying x → b.encoding ≡ some x
    queued : (x : Bool) → b.channel ≡ some x → b.encoding ≡ some x
    frames : All (λ (f : MessageType × String). b.encoding ≡ some (is_binary f.0)) b.written

  All-none :
      (o : Option Bool) (fs : List (MessageType × String))
      → All (λ (f : MessageType × String). none ≡ some (is_binary f.0)) fs
      → All (λ (f : MessageType × String). o ≡ some (is_binary f.0)) fs
  All-none o [] h = tt
  All-none o (f ∷ fs) h = (no_some h.0, All-none o fs h.1)

  Mirrors-settle :
      (ty : MessageType) (o : Option Bool) (b : Bridge A)
      → b.encoding ≡ o
      → Mirrors b
      → Mirrors (settle E maps ty o b).1
  Mirrors-settle ty (some x) b e m = m
  Mirrors-settle ty none b e m = record {
    relayed = λ x r. no_some (sym e ∙ m.relayed x r);
    queued = λ x r. r;
    frames = All-none (some (is_binary ty)) b.written (
        subst (λ o. All (λ (f : MessageType × String). o ≡ some (is_binary f.0)) b.written) e
          m.frames);
  }

  Mirrors-send :
      (x : Result A) (sending : Option PumpError) (b : Bridge A)
      → Mirrors b
      → Mirrors (send E maps x sending b)
  Mirrors-send (err e) sending b m = record {
    relayed = m.relayed;
    queued = m.queued;
    frames = m.frames;
  }
  Mirrors-send (ok msg) none b m = record {
    relayed = m.relayed;
    queued = m.queued;
    frames = m.frames;
  }
  Mirrors-send (ok msg) (some e) b m = record {
    relayed = m.relayed;
    queued = m.queued;
    frames = m.frames;
  }

  marshal_ws_frame-type :
      (binary : Bool) (msg : A) (f : MessageType × String)
      → marshal_ws_frame E binary msg ≡ ok f
      → is_binary f.0 ≡ binary
  unfolding marshal_ws_frame
  marshal_ws_frame-type true msg f e = elim (Result-cases (E.marshal_proto msg)) [
    | inl (bytes, q) ↦ ground (arith, q, e)
    | inr (cause, q) ↦ absurd (ground (arith, q, e))
  ]
  marshal_ws_frame-type false msg f e = elim (Result-cases (E.marshal_json msg)) [
    | inl (bytes, q) ↦ ground (arith, q, e)
    | inr (cause, q) ↦ absurd (ground (arith, q, e))
  ]

  Mirrors-write :
      (x : Result (MessageType × String)) (writing : Option PumpError) (b : Bridge A)
      → ((f : MessageType × String) → x ≡ ok f → b.encoding ≡ some (is_binary f.0))
      → Mirrors b
      → Mirrors (write E maps x writing b)
  Mirrors-write (err e) writing b same m = record {
    relayed = λ x r. absurd cc;
    queued = m.queued;
    frames = m.frames;
  }
  Mirrors-write (ok f) none b same m = record {
    relayed = m.relayed;
    queued = m.queued;
    frames =
        All-append (λ (f : MessageType × String). b.encoding ≡ some (is_binary f.0)) b.written
          (f ∷ []) m.frames (same f refl, tt);
  }
  Mirrors-write (ok f) (some e) b same m = record {
    relayed = λ x r. absurd cc;
    queued = m.queued;
    frames = m.frames;
  }

  Moves-Mirrors : (e : Event A) (b c : Bridge A) → Moves E maps e b c → Mirrors b → Mirrors c
  Moves-Mirrors _ b _ (framed ty bytes sending at) m =
      let (binary, b') = settle E maps ty b.encoding b in
      Mirrors-send (unmarshal_ws_frame E binary bytes) sending b'
        (Mirrors-settle ty b.encoding b refl m)
  Moves-Mirrors _ b _ (read_failed e at) m = record {
    relayed = m.relayed;
    queued = m.queued;
    frames = m.frames;
  }
  Moves-Mirrors _ b _ (client_returned e at) m = record {
    relayed = m.relayed;
    queued = m.queued;
    frames = m.frames;
  }
  Moves-Mirrors _ b _ (encoding_came x at full) m = record {
    relayed = λ y r. m.queued x full ∙ ap some (relaying_inj r);
    queued = λ y r. no_some r;
    frames = m.frames;
  }
  Moves-Mirrors _ b _ (gave_up at done) m = record {
    relayed = λ x r. absurd cc;
    queued = m.queued;
    frames = m.frames;
  }
  Moves-Mirrors _ b _ (messaged x msg writing at) m =
      Mirrors-write (marshal_ws_frame E x msg) writing b
        (λ f q. m.relayed x at ∙ ap some (sym (marshal_ws_frame-type x msg f q))) m
  Moves-Mirrors _ b _ (receive_failed x e at) m = record {
    relayed = λ y r. absurd cc;
    queued = m.queued;
    frames = m.frames;
  }
  Moves-Mirrors _ b _ (server_returned e at) m = record {
    relayed = λ x r. absurd cc;
    queued = m.queued;
    frames = m.frames;
  }

  Run-Mirrors : (b d : Bridge A) (es : List (Event A)) → Run E maps b es d → Mirrors b → Mirrors d
  Run-Mirrors b _ _ here m = m
  Run-Mirrors b d _ (next {c = c} e es q rest) m =
      Run-Mirrors c d es rest (Moves-Mirrors e b c (step-Moves E maps e b c q) m)

  -- In every run of the two pumps, each frame that is written to the client is of the type of the first
  -- frame that the client sent; so none is written before that.
  pub mirrors_first_frame :
      (d : Bridge A) (es : List (Event A))
      → Run E maps new_bridge es d
      → All
          (λ (f : MessageType × String). first_encoding E maps none es ≡ some (is_binary f.0))
          d.written
  mirrors_first_frame d es run =
      let m =
        Run-Mirrors new_bridge d es run
          (record { relayed = λ x r. absurd cc; queued = λ x r. no_some r; frames = tt }) in
      subst (λ o. All (λ (f : MessageType × String). o ≡ some (is_binary f.0)) d.written)
        (encoding-Run E maps new_bridge d es run) m.frames
