-- ===== src/Cache/Tests.antt =====
-- The cache at concrete inputs.
use service_forge.Prelude.{◌≡◌, refl, [], ◌∷◌, some, arith, lookup, insert, delete}
use service_forge.Prelude.Int.{pos}
use service_forge.Errors.Result.{ok, err}
use service_forge.Cache.{
  Cache, Lock, new_cache, err_cache_miss, get, set_value, delete_keys, exists, lock, unlock, allow,
}
use service_forge.Cache.Limits.{grants, grants_window, grants_all}

cache : Unit {0}
unfolding get set_value delete_keys exists lock unlock allow grants lookup insert delete
cache = tt

abbrev stored : Cache
stored = set_value "a" (7 ∷ []) (pos 5) 100 new_cache

abbrev locked : Cache
locked = record { items = []; locks = ("job", 110) ∷ [] }

abbrev the_lock : Lock
the_lock = record { key = some "job" }

taken : lock "job" (pos 10) 99 100 new_cache ≡ (ok the_lock, locked)
unfolding cache
taken = refl

missing : get "ip" 100 new_cache ≡ err err_cache_miss
unfolding cache
missing = refl

grants_window_example :
    (c' : Cache) × (grants "ip"
        (pos 2)
        (pos 50)
        ((100, 100) ∷ (101, 102) ∷ (120, 121) ∷ [])
        new_cache
      ≡ some (2, c'))
grants_window_example =
    grants_window "ip" 100 50 2 ((100, 100) ∷ (101, 102) ∷ (120, 121) ∷ []) new_cache (omega arith)
      (omega arith) (ground arith) missing

abbrev full : Cache
full = record { items = ("ip", record { value = 255 ∷ []; expires_at = 900 }) ∷ []; locks = [] }

grants_all_example :
    (c' : Cache) × (grants "ip" (pos 300) (pos 50) ((100, 100) ∷ (101, 102) ∷ []) full
      ≡ some (2, c'))
unfolding cache
grants_all_example =
    grants_all "ip" 300 (pos 50) ((100, 100) ∷ (101, 102) ∷ []) full (omega arith)
      (255, refl, omega arith)
