-- ===== src/Cache/Limits.antt =====
-- How many calls the rate limiter of the cache lets through (adapters/memory/cache.go, `Allow`).
use service_forge.Errors.Result.{err}
use service_forge.Prelude.{
  subst, sym, inl, inr, Bool-cases, ℕ, zero, suc, ◌+◌, ◌-◌, ◌%◌, ◌≤◌, ◌<◌, ◌≡◌, refl, String, Bool,
  true, false, leb, ltb, List, [], ◌∷◌, Option, none, some, length, All, lookup-insert_self, lookup,
  arith, insert, if◌then◌else◌,
}
use service_forge.Prelude.Int.{ℤ, pos}
use service_forge.Cache.{
  CacheItem, Cache, allow, add, expired, live, stored_count, get, err_cache_miss,
}

abbrev pub count_if : Bool → ℕ → ℕ
count_if true n = suc n
count_if false n = n

-- How many of the calls are let through, each with the two instants that it reads; `none` is a panic.
unfoldable pub grants : String → ℤ → ℤ → List (ℕ × ℕ) → Cache → Option (ℕ × Cache)
grants key limit window [] c = some (0, c)
grants key limit window ((now, later) ∷ calls) c = elim (allow key limit window now later c) [
  | none ↦ none
  | some (pass, c') ↦ elim (grants key limit window calls c') [
    | none ↦ none
    | some (n, c'') ↦ some (count_if pass n, c'')
  ]
]

abbrev pub min : ℕ → ℕ → ℕ
min a b = if leb a b then a else b

module _ (key : String) (start window : ℕ) where
  -- The instants of a call lie in the window that begins at `start`.
  abbrev pub InWindow : ℕ × ℕ → Type 0
  InWindow (now, later) = (start ≤ now) × (start ≤ later) × (later ≤ start + window)

  abbrev counted_once : ℕ → ℕ → Cache → Cache
  counted_once now k c = record c {
    items = insert key (record { value = ((k + 1) % 256) ∷ []; expires_at = now + window }) c.items;
  }

  -- All the window long the cache counts `k` calls of the key.
  abbrev Counted : ℕ → Cache → Type 0
  Counted k c =
      (later : ℕ)
      → start ≤ later
      → later ≤ start + window
      → stored_count (live later (lookup key c.items)) ≡ some k

  one_call :
      (limit k now later : ℕ) (c : Cache)
      → 0 < limit
      → limit < 256
      → InWindow (now, later)
      → Counted k c
      → (c' : Cache) × (allow key (pos limit) (pos window) now later c ≡ some (ltb k limit, c'))
        × Counted (if ltb k limit then suc k else k) c'
  unfolding allow
  one_call zero k now later c p q w h = absurd (omega (arith, p))
  one_call (suc n) k now later c p q w h = elim (Bool-cases (leb (suc n) k)) [
    | inl full ↦ (c, ground (arith, h later w.1 w.2), λ t a b. ground (arith, h t a b))
    | inr room ↦ (
      counted_once now k c,
      ground (arith, h later w.1 w.2),
      λ t a b. ground (
        arith,
        lookup-insert_self key (record { value = ((k + 1) % 256) ∷ []; expires_at = now + window })
            c.items,
      ),
    )
  ]

  grants-Counted :
      (limit k room : ℕ) (calls : List (ℕ × ℕ)) (c : Cache)
      → 0 < limit
      → limit < 256
      → k + room ≡ limit
      → All InWindow calls
      → Counted k c
      → (c' : Cache) × (grants key (pos limit) (pos window) calls c
          ≡ some (min (length calls) room, c'))
  unfolding grants
  grants-Counted limit k room [] c p q r w h = (c, ground arith)
  grants-Counted limit k room ((now, later) ∷ calls) c p q r (w, ws) h =
      let (c', e, h') = one_call limit k now later c p q w h in
      let (c'', e') =
        grants-Counted limit (if ltb k limit then suc k else k) (room - 1) calls c' p q
          (ground arith) ws h' in
      (c'', ground (arith, e, e'))

  -- A key that is absent or expired at the start counts no call.
  missed : (c : Cache) → get key start c ≡ err err_cache_miss → Counted 0 c
  unfolding get
  missed c e t a b = ground arith

  -- Of the calls made in a window that begins with no count of the key, exactly the first `limit` are
  -- let through, for a limit between 1 and 255; none panics.
  pub grants_window :
      (limit : ℕ) (calls : List (ℕ × ℕ)) (c : Cache)
      → 0 < limit
      → limit < 256
      → All InWindow calls
      → get key start c ≡ err err_cache_miss
      → (c' : Cache) × (grants key (pos limit) (pos window) calls c
          ≡ some (min (length calls) limit, c'))
  grants_window limit calls c p q w e =
      grants-Counted limit 0 limit calls c p q (omega arith) w (missed c e)

-- What `Allow` stores: nothing, or one byte.
abbrev pub IsByte : Option CacheItem → Type 0
IsByte none = Unit
IsByte (some item) = (b : ℕ) × (item.value ≡ b ∷ []) × (b < 256)

stored_byte :
    (later : ℕ) (o : Option CacheItem)
    → IsByte o
    → (b : ℕ) × (b < 256) × (stored_count (live later o) ≡ some b)
stored_byte later none h = (0, omega arith, refl)
stored_byte later (some item) (b, e, q) = elim (Bool-cases (expired later item.expires_at)) [
  | inl old ↦ (0, omega arith, ground arith)
  | inr fresh ↦ (b, q, ground arith)
]

passes :
    (key : String) (limit : ℕ) (window : ℤ) (now later : ℕ) (c : Cache)
    → 255 < limit
    → IsByte (lookup key c.items)
    → (c' : Cache) × (allow key (pos limit) window now later c ≡ some (true, c'))
      × IsByte (lookup key c'.items)
unfolding allow
passes key zero window now later c p h = absurd (omega (arith, p))
passes key (suc n) window now later c p h =
    let (b, q, e) = stored_byte later (lookup key c.items) h in
    let item : CacheItem = record { value = ((b + 1) % 256) ∷ []; expires_at = add now window } in
    (
      record c { items = insert key item c.items },
      ground (arith, e),
      subst IsByte (sym (lookup-insert_self key item c.items)) ((b + 1) % 256, refl, omega arith),
    )

-- Where the limit is above 255 the stored byte wraps before it is reached: every call is let through, at
-- whatever instants.
pub grants_all :
    (key : String) (limit : ℕ) (window : ℤ) (calls : List (ℕ × ℕ)) (c : Cache)
    → 255 < limit
    → IsByte (lookup key c.items)
    → (c' : Cache) × (grants key (pos limit) window calls c ≡ some (length calls, c'))
unfolding grants allow
grants_all key limit window [] c p h = (c, refl)
grants_all key limit window ((now, later) ∷ calls) c p h =
    let (c', e, h') = passes key limit window now later c p h in
    let (c'', e') = grants_all key limit window calls c' p h' in (c'', ground (arith, e, e'))
