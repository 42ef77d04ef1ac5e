-- ===== src/Bus/Services.antt =====
-- What the registry resolves (adapters/memory/registry.go).
use service_forge.Prelude.{
  ◌≡◌, refl, ◌≢◌, ◌⊎◌, ◌↔◌, String, none, some, List, [], ◌∷◌, Table, insert, delete, arith, eq_iff,
  lookup, lookup-insert, lookup-delete,
}
use service_forge.Dialer.{ServiceInstance}
use service_forge.Bus.{Registry, register, deregister, named, resolve}

-- Each instance stands under its own id, and no id twice.
abbrev pub IsValid : Table ServiceInstance → Type 0
IsValid [] = Unit
IsValid ((id, service) ∷ services) =
    (service.id ≡ id) × (lookup id services ≡ none) × IsValid services

insert-IsValid :
    (service : ServiceInstance) (services : Table ServiceInstance)
    → IsValid services
    → IsValid (insert service.id service services)
unfolding insert lookup
insert-IsValid service [] h = (refl, refl, tt)
insert-IsValid service ((id, other) ∷ services) (p, q, h) = ground (
  arith,
  eq_iff id service.id,
  eq_iff service.id id,
  insert-IsValid service services h,
  lookup-insert service.id id service services,
)

delete-IsValid :
    (key : String) (services : Table ServiceInstance)
    → IsValid services
    → IsValid (delete key services)
unfolding delete
delete-IsValid key [] h = tt
delete-IsValid key ((id, other) ∷ services) (p, q, h) =
    ground (arith, eq_iff id key, delete-IsValid key services h, lookup-delete key id services)

abbrev pub Listed : ServiceInstance → List ServiceInstance → Type 0
Listed s [] = ⊥
Listed s (x ∷ xs) = (s ≡ x) ⊎ Listed s xs

named_iff :
    (name : String) (services : Table ServiceInstance) (s : ServiceInstance)
    → IsValid services
    → Listed s (named name services) ↔ ((s.name ≡ name) × (lookup s.id services ≡ some s))
unfolding named lookup
named_iff name [] s h = ground arith
named_iff name ((id, x) ∷ services) s (p, q, h) =
    let (there, back) = named_iff name services s h in
    ground (arith, eq_iff id s.id, eq_iff x.name name, there, back)

-- A registered instance is resolved under its name and replaces the one that had its id; the others are
-- resolved as before, and the registry stays well formed.
pub resolve-register :
    (name : String) (service s : ServiceInstance) (r : Registry)
    → IsValid r.services
    → IsValid (register service r).services
      × (Listed s (resolve name (register service r)) ↔ (
          ((s ≡ service) × (service.name ≡ name))
          ⊎ ((s.id ≢ service.id) × Listed s (resolve name r))))
unfolding resolve register
resolve-register name service s r h =
    let h' = insert-IsValid service r.services h in
    (
      h',
      ground (
        arith,
        named_iff name (register service r).services s h',
        named_iff name r.services s h,
        lookup-insert service.id s.id service r.services,
        eq_iff service.id s.id,
      ),
    )

-- A deregistered id is resolved no more; the others are resolved as before, and the registry stays well
-- formed.
pub resolve-deregister :
    (name id : String) (s : ServiceInstance) (r : Registry)
    → IsValid r.services
    → IsValid (deregister id r).services
      × (Listed s (resolve name (deregister id r)) ↔ ((s.id ≢ id) × Listed s (resolve name r)))
unfolding resolve deregister
resolve-deregister name id s r h =
    let h' = delete-IsValid id r.services h in
    (
      h',
      ground (
        arith,
        named_iff name (deregister id r).services s h',
        named_iff name r.services s h,
        lookup-delete id s.id r.services,
        eq_iff id s.id,
      ),
    )
