-- ===== src/GrpcServer/Registered.antt =====
-- A server that is started and stopped leaves the memory registry as it was
-- (transport/grpcserver/server.go with adapters/memory/registry.go).
use Prim.Native.String.{◌++◌ as append}
use text.Mathlib.TextLemmas.{nil-append, cons-append}
use service_forge.Prelude.{
  ℕ, String, true, false, none, some, [], ◌∷◌, ◌≡◌, refl, ap, ◌∙◌, inl, inr, arith, Table, lookup,
  insert, delete, lookup-insert_self, str_eq, eq_refl, Bool-cases,
}
use service_forge.Prelude.Text.{is_empty}
use service_forge.Dialer.{ServiceInstance}
use service_forge.Bus.{Registry, register, deregister}
use service_forge.GrpcServer.{Registrar, instance_of, init, start, stop, health}

-- adapters/memory/registry.go as a registrar; its errors are always nil.
abbrev pub memory_registrar : Registrar Registry
memory_registrar = record {
  register = λ service r. (none, register service r);
  deregister = λ id r. (none, deregister id r);
}

delete-absent : {V : Type 0} (k : String) (m : Table V) → lookup k m ≡ none → delete k m ≡ m
unfolding lookup delete
delete-absent k [] e = refl
delete-absent k ((j, v) ∷ m) e = elim (Bool-cases (str_eq j k)) [
  | inl q ↦ absurd (ground (arith, q, e))
  | inr q ↦ ground (arith, q, delete-absent k m (ground (arith, q, e)))
]

delete-insert_absent :
    {V : Type 0} (k : String) (v : V) (m : Table V)
    → lookup k m ≡ none
    → delete k (insert k v m) ≡ m
unfolding lookup insert delete
delete-insert_absent k v [] e = ground (arith, eq_refl k)
delete-insert_absent k v ((j, w) ∷ m) e = elim (Bool-cases (str_eq j k)) [
  | inl q ↦ absurd (ground (arith, q, e))
  | inr q ↦ ground (arith, q, delete-insert_absent k v m (ground (arith, q, e)))
]

-- The id of an instance, which has a dash behind the name of the service.
abbrev pub id_of : String → String → String
id_of name uuid = append name (append "-" uuid)

is_empty-dash : (uuid : String) → is_empty (append "-" uuid) ≡ false
is_empty-dash uuid = ap is_empty (cons-append _ String.[] uuid)

is_empty-id_of : (name uuid : String) → is_empty (id_of name uuid) ≡ false
is_empty-id_of String.[] uuid = ap is_empty (nil-append (append "-" uuid)) ∙ is_empty-dash uuid
is_empty-id_of (String.◌∷◌ c name) uuid = ap is_empty (cons-append c name (append "-" uuid))

-- Where its id is not in use, a server that starts over the memory registry and can listen is healthy and
-- serving, and when it stops, the registry is as it was before and the server is not serving.
pub stop-start :
    (name ip uuid : String) (port : ℕ) (r : Registry)
    → lookup (id_of name uuid) r.services ≡ none
    → let (e, m, r') = start uuid none (init name ip port (some memory_registrar)) r in
      (e ≡ none)
      × (health m ≡ none)
      × (m.serving ≡ true)
      × (lookup (id_of name uuid) r'.services ≡ some (instance_of m (id_of name uuid)))
      × ((stop m r').1 ≡ r)
      × ((stop m r').0.serving ≡ false)
unfolding init start stop health register deregister
stop-start name ip uuid port r fresh =
    let m = init name ip port (some memory_registrar) in
    let service = instance_of m (id_of name uuid) in
    (
      refl,
      refl,
      refl,
      lookup-insert_self (id_of name uuid) service r.services,
      rw (is_empty-id_of name uuid) (
          ap (λ (s : Table ServiceInstance). record r { services = s })
            (delete-insert_absent (id_of name uuid) service r.services fresh)),
      refl,
    )
