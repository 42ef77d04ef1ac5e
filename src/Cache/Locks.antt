-- ===== src/Cache/Locks.antt =====
-- Who holds a lock of the cache (adapters/memory/cache.go).
use service_forge.Prelude.{
  ℕ, zero, suc, ◌≡◌, ◌↔◌, String, true, ltb, ◌&&◌, some, lookup-insert_self, lookup-delete_self,
  lookup, arith, sym, subst,
}
use service_forge.Prelude.Int.{ℤ, pos, negsuc, is_pos}
use service_forge.Errors.{plain}
use service_forge.Errors.Result.{ok, err}
use service_forge.Cache.{Cache, Lock, add, lock, unlock, deadline, held}

lock_taken :
    (key : String) (ttl : ℤ) (now later : ℕ) (c c' : Cache) (l : Lock)
    → lock key ttl now later c ≡ (ok l, c')
    → (l.key ≡ some key) × (lookup key c'.locks ≡ some (deadline later ttl))
unfolding lock
lock_taken key ttl now later c c' l e =
    ground (arith, lookup-insert_self key (deadline later ttl) c.locks)

refused_iff :
    (key : String) (ttl : ℤ) (now later : ℕ) (c : Cache)
    → (lock key ttl now later c ≡ (err (plain "lock already held"), c))
      ↔ (held now (lookup key c.locks) ≡ true)
unfolding lock
refused_iff key ttl now later c = ground arith

held_iff :
    (ttl : ℤ) (later again : ℕ)
    → (ltb again (deadline later ttl)) ≡ (is_pos ttl && ltb again (add later ttl))
held_iff (pos zero) later again = ground arith
held_iff (pos (suc n)) later again = ground arith
held_iff (negsuc n) later again = ground arith

-- A lock that was taken is refused to others, and stays as it is, exactly until its time to live has
-- passed. One without a positive time to live is not held at all.
pub lock-lock :
    (key : String) (ttl ttl' : ℤ) (now later again then : ℕ) (c c' : Cache) (l : Lock)
    → lock key ttl now later c ≡ (ok l, c')
    → (lock key ttl' again then c' ≡ (err (plain "lock already held"), c'))
      ↔ ((is_pos ttl && ltb again (add later ttl)) ≡ true)
lock-lock key ttl ttl' now later again then c c' l e = rw (sym (held_iff ttl later again)) (
    subst
      (λ o.
        (lock key ttl' again then c' ≡ (err (plain "lock already held"), c'))
        ↔ (held again o ≡ true))
      (lock_taken key ttl now later c c' l e).1 (refused_iff key ttl' again then c'))

-- Once a lock is released the next caller gets it, at whatever time.
pub lock-unlock :
    (key : String) (ttl ttl' : ℤ) (now later again then : ℕ) (c c' : Cache) (l : Lock)
    → lock key ttl now later c ≡ (ok l, c')
    → (lock key ttl' again then (unlock l c')).0 ≡ ok l
unfolding lock unlock
lock-unlock key ttl ttl' now later again then c c' l e =
    let (named, taken) = lock_taken key ttl now later c c' l e in
    ground (arith, named, lookup-delete_self key c'.locks)
