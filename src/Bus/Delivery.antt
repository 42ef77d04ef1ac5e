-- ===== src/Bus/Delivery.antt =====
-- Who gets a message (adapters/memory/eventbus.go).
use service_forge.Prelude.{
  ◌≡◌, String, Option, none, some, List, [], ◌∷◌, ◌++◌, lookup-insert, arith, eq_iff, str_eq,
  if◌then◌else◌,
}
use service_forge.Errors.{Error}
use service_forge.Bus.{Message, Handler, EventBus, handlers_of, subscribe, deliver, publish}

module _ (W : Type 0) where
  handlers_of-subscribe :
      (topic other : String) (h : Handler W) (b : EventBus W)
      → handlers_of W other (subscribe W topic h b)
        ≡ (if str_eq topic other then handlers_of W topic b ++ (h ∷ []) else handlers_of W other b)
  unfolding subscribe
  handlers_of-subscribe topic other h b =
      ground (arith, lookup-insert topic other (handlers_of W topic b ++ (h ∷ [])) b.handlers)

  -- What one more handler adds to a delivery: it is called last, and only if none failed.
  abbrev pub then_call : Handler W → Message → Option Error × W → Option Error × W
  then_call h msg (none, w) = h msg w
  then_call h msg (some e, w) = (some e, w)

  deliver-append :
      (msg : Message) (hs : List (Handler W)) (h : Handler W) (w : W)
      → deliver W msg (hs ++ (h ∷ [])) w ≡ then_call h msg (deliver W msg hs w)
  unfolding deliver
  deliver-append msg [] h w = ground arith
  deliver-append msg (g ∷ hs) h w = ground (arith, deliver-append msg hs h (g msg w).1)

  -- A new handler gets what is published on its topic from then on, after the earlier ones and unless
  -- one of those failed; other topics are as before.
  pub publish-subscribe :
      (topic other : String) (h : Handler W) (msg : Message) (b : EventBus W) (w : W)
      → publish W other msg (subscribe W topic h b) w ≡ (
          if str_eq topic other
          then then_call h (record msg { topic = other }) (publish W other msg b w)
          else publish W other msg b w)
  unfolding publish
  publish-subscribe topic other h msg b w =
      let msg' = record msg { topic = other } in
      ground (
        arith,
        handlers_of-subscribe topic other h b,
        deliver-append msg' (handlers_of W topic b) h w,
        eq_iff topic other,
      )
