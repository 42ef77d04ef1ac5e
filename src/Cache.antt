-- ===== src/Cache.antt =====
-- The in-memory cache, its locks and its rate limiter (adapters/memory/cache.go). Instants are numbers
-- of nanoseconds, 0 is the zero time, and each `time.Now()` is an argument. A method runs under the
-- cache's mutex, so it is one step.
pub mod Entries
pub mod Locks
pub mod Limits
mod Tests
use service_forge.Prelude.{
  ℕ, zero, suc, ◌+◌, ◌-◌, ◌%◌, String, Bool, true, false, not, ◌&&◌, ltb, leb, ◌==◌, Option, none,
  some, List, [], ◌∷◌, Table, lookup, insert, delete, is_some, if◌then◌else◌,
}
use service_forge.Prelude.Int.{ℤ, pos, negsuc, is_nonpos}
use service_forge.Errors.{Error, plain}
use service_forge.Errors.Result.{Result, ok, err}

-- `t.Add(d)`. An instant before the zero time does not occur.
abbrev pub add : ℕ → ℤ → ℕ
add t (pos n) = t + n
add t (negsuc n) = t - suc n

abbrev pub err_cache_miss : Error
err_cache_miss = plain "cache miss"

-- A value is its bytes, each below 256.
pub record CacheItem : Type 0 where
  pub value : List ℕ
  pub expires_at : ℕ

pub record Cache : Type 0 where
  pub items : Table CacheItem
  pub locks : Table ℕ

abbrev pub new_cache : Cache
new_cache = record { items = []; locks = [] }

-- `expired`, at the instant `now`
abbrev pub expired : ℕ → ℕ → Bool
expired now t = not (t == 0) && ltb t now

-- `deadline`
abbrev pub deadline : ℕ → ℤ → ℕ
deadline now ttl = if is_nonpos ttl then 0 else add now ttl

-- The value of an entry that is there and not expired.
abbrev live : ℕ → Option CacheItem → Option (List ℕ)
live now none = none
live now (some item) = if expired now item.expires_at then none else some item.value

unfoldable pub get : String → ℕ → Cache → Result (List ℕ)
get key now c = elim (live now (lookup key c.items)) [
  | none ↦ err err_cache_miss
  | some value ↦ ok value
]

unfoldable pub set_value : String → List ℕ → ℤ → ℕ → Cache → Cache
set_value key value ttl now c = record c {
  items = insert key (record { value = value; expires_at = deadline now ttl }) c.items;
}

-- the loop of `Delete`
unfoldable pub delete_all : List String → Table CacheItem → Table CacheItem
delete_all [] items = items
delete_all (key ∷ keys) items = delete_all keys (delete key items)

unfoldable pub delete_keys : List String → Cache → Cache
unfolding delete_all
delete_keys keys c = record c { items = delete_all keys c.items }

unfoldable pub exists : String → ℕ → Cache → Bool
exists key now c = is_some (live now (lookup key c.items))

-- A `Lock`: the key it holds in the cache, or no cache (the zero value).
pub record Lock : Type 0 where
  pub key : Option String

abbrev held : ℕ → Option ℕ → Bool
held now none = false
held now (some until) = ltb now until

-- `Lock`, which reads the clock at `now` for the test and at `later` for the deadline
unfoldable pub lock : String → ℤ → ℕ → ℕ → Cache → Result Lock × Cache
lock key ttl now later c =
    if held now (lookup key c.locks) then (err (plain "lock already held"), c) else (
      ok (record { key = some key }),
      record c { locks = insert key (deadline later ttl) c.locks },
    )

unfoldable pub unlock : Lock → Cache → Cache
unlock l c = elim l.key [ none ↦ c | some key ↦ record c { locks = delete key c.locks } ]

-- `int(item.value[0])`, which panics (`none`) on an empty value
abbrev first_byte : List ℕ → Option ℕ
first_byte [] = none
first_byte (b ∷ bytes) = some b

abbrev stored_count : Option (List ℕ) → Option ℕ
stored_count none = some 0
stored_count (some value) = first_byte value

-- `Allow` for a limit above 0, once the stored count is read
abbrev granted : String → ℕ → ℤ → ℕ → Cache → Option ℕ → Option (Bool × Cache)
granted key limit window now c none = none
granted key limit window now c (some count) =
    if leb limit count
    then some (false, c)
    else some (
      true,
      record c {
        items =
            insert key (record { value = ((count + 1) % 256) ∷ []; expires_at = add now window })
              c.items;
      },
    )

-- `Allow`, whose clock shows `now` before the lock is taken and `later` when the entry is tested;
-- `none` is a panic
unfoldable pub allow : String → ℤ → ℤ → ℕ → ℕ → Cache → Option (Bool × Cache)
allow key (pos zero) window now later c = some (false, c)
allow key (negsuc n) window now later c = some (false, c)
allow key (pos (suc n)) window now later c =
    granted key (suc n) window now c (stored_count (live later (lookup key c.items)))
