-- ===== src/Payload/Bound.antt =====
-- What a request fills its message with, and when that panics (transport/gateway/proxy.go,
-- `bindProtoRequest`).
use service_forge.Prelude.{
  String, true, false, Option, none, some, [], ◌++◌, Table, ◌≡◌, ◌≢◌, ◌↔◌, refl, sym, ◌∙◌, inl, inr,
  arith, Bool-cases,
}
use service_forge.Errors.{Error, CodeMaps}
use service_forge.Errors.Result.{Result, ok, err, ok_inj}
use service_forge.Payload.{
  Request, Payload, Json, merged, body_payload, marshalled, marshal_merged, payload_of_body,
  request_payload_json, request_has_payload, fill, bind_proto_request,
}
use service_forge.Payload.Merged.{
  some-ne-none, Carries, sent_queries, sent_params, merged_entries, merged_nil_map,
}

err-ne-ok : {A : Type 0} {e : Error} {a : A} → err e ≢ ok a
err-ne-ok q = grind (arith, q)

module _ {J M : Type 0} (N : Json J M) (maps : CodeMaps) where
  -- A request whose body is blank or a JSON object fills its message from one JSON object, in which each
  -- key has its value in the body, else that in the query, else that in the path.
  pub bind_proto_request_lem :
      (r : Request) (body : Table J) (msg : M)
      → request_has_payload r ≡ true
      → body_payload N r.body ≡ ok (some body)
      → (entries : Table J) × Carries N r body entries
        × (bind_proto_request N maps r msg
            ≡ fill N maps msg (some (marshalled N maps (N.marshal (some entries)))))
  unfolding bind_proto_request request_payload_json
  bind_proto_request_lem r body msg has e =
      let (entries, m, at) = merged_entries N r body in
      (entries, at, rw (has, request_payload_json, e, m) refl)

  fill_returns : (msg : M) (text : Result String) → fill N maps msg (some text) ≢ none
  fill_returns msg (err e) q = some-ne-none q
  fill_returns msg (ok text) q = some-ne-none q

  filled_iff :
      (msg : M) (p : Option (Payload J))
      → (fill N maps msg (marshal_merged N maps p) ≡ none) ↔ (p ≡ none)
  filled_iff msg none = (λ e. refl, λ e. refl)
  filled_iff msg (some p) = (
    λ e. absurd (fill_returns msg (marshalled N maps (N.marshal p)) e),
    λ e. absurd (some-ne-none e),
  )

  body_panics_iff :
      (r : Request) (msg : M) (p : Result (Payload J))
      → (fill N maps msg (payload_of_body N maps r p) ≡ none)
        ↔ ((p ≡ ok none) × (sent_queries r ++ sent_params r ≢ []))
  body_panics_iff r msg (err e) = (λ q. absurd (some-ne-none q), λ h. absurd (err-ne-ok h.0))
  body_panics_iff r msg (ok (some body)) =
      let (entries, m, at) = merged_entries N r body in
      (
        λ q. absurd (some-ne-none (sym m ∙ (filled_iff msg (merged N r (some body))).0 q)),
        λ h. absurd (some-ne-none (ok_inj h.0)),
      )
  body_panics_iff r msg (ok none) =
      let filled = filled_iff msg (merged N r none) in
      let nil_map = merged_nil_map N r in
      (λ q. (refl, nil_map.0 (filled.0 q)), λ h. filled.1 (nil_map.1 h.1))

  without_payload :
      (r : Request) → request_has_payload r ≡ false → body_payload N r.body ≡ ok (some [])
  unfolding request_has_payload
  without_payload r e = ground arith

  -- The gateway panics on a request exactly where its body decodes to the nil map, as `null` does, and
  -- its query or its path has an entry.
  pub bind_panics_iff :
      (r : Request) (msg : M)
      → (bind_proto_request N maps r msg ≡ none)
        ↔ ((body_payload N r.body ≡ ok none) × (sent_queries r ++ sent_params r ≢ []))
  unfolding bind_proto_request request_payload_json
  bind_panics_iff r msg = elim (Bool-cases (request_has_payload r)) [
    | inl has ↦ rw has (body_panics_iff r msg (body_payload N r.body))
    | inr hasnt ↦ rw hasnt (
      λ q. absurd (some-ne-none q),
      λ h. absurd (some-ne-none (ok_inj (sym (without_payload r hasnt) ∙ h.0))),
    )
  ]
