-- ===== src/Cache/Entries.antt =====
-- What a reader of the cache sees (adapters/memory/cache.go).
use service_forge.Prelude.{
  delete, ℕ, zero, suc, ◌+◌, ◌≡◌, refl, ◌↔◌, String, Bool, false, ◌||◌, List, [], ◌∷◌, Table,
  lookup, lookup-insert, lookup-delete, arith, leb, str_eq, if◌then◌else◌, none,
}
use service_forge.Prelude.Int.{ℤ, pos, negsuc, is_nonpos}
use service_forge.Errors.Result.{ok, err}
use service_forge.Cache.{
  CacheItem, Cache, add, err_cache_miss, get, set_value, delete_all, delete_keys, exists,
}

-- A value that is set at `now` is read at `later` while its time to live has not passed, and for ever
-- where that is not positive; other keys are read as before.
pub get-set_value :
    (key name : String) (value : List ℕ) (ttl : ℤ) (now later : ℕ) (c : Cache)
    → get name later (set_value key value ttl now c) ≡ (
        if str_eq key name
        then (if is_nonpos ttl || leb later (add now ttl) then ok value else err err_cache_miss)
        else get name later c)
unfolding get set_value
get-set_value key name value (pos zero) now later c =
    ground (arith, lookup-insert key name (record { value = value; expires_at = 0 }) c.items)
get-set_value key name value (pos (suc n)) now later c =
    ground
      (arith, lookup-insert key name (record { value = value; expires_at = now + suc n }) c.items)
get-set_value key name value (negsuc n) now later c =
    ground (arith, lookup-insert key name (record { value = value; expires_at = 0 }) c.items)

abbrev pub mentions : List String → String → Bool
mentions [] name = false
mentions (key ∷ keys) name = str_eq key name || mentions keys name

lookup-delete_all :
    (keys : List String) (name : String) (items : Table CacheItem)
    → lookup name (delete_all keys items) ≡ (if mentions keys name then none else lookup name items)
unfolding delete_all
lookup-delete_all [] name items = refl
lookup-delete_all (key ∷ keys) name items =
    ground (arith, lookup-delete_all keys name (delete key items), lookup-delete key name items)

-- After a deletion the keys that it names are absent, and the others are read as before.
pub get-delete_keys :
    (keys : List String) (name : String) (now : ℕ) (c : Cache)
    → get name now (delete_keys keys c)
      ≡ (if mentions keys name then err err_cache_miss else get name now c)
unfolding get delete_keys
get-delete_keys keys name now c = ground (arith, lookup-delete_all keys name c.items)

-- A key exists exactly where a read of it is no miss.
pub exists_iff :
    (key : String) (now : ℕ) (c : Cache)
    → (exists key now c ≡ false) ↔ (get key now c ≡ err err_cache_miss)
unfolding get exists
exists_iff key now c = ground arith
