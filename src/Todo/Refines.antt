-- ===== src/Todo/Refines.antt =====
-- The store of the generated service keeps the promise of Todo/Abstract (templates/generator.go,
-- exampleRepo).
use service_forge.Prelude.{
  ℕ, suc, ◌+◌, ◌^◌, ◌≤◌, ◌<◌, ◌≡◌, refl, sym, ap, ◌∙◌, subst, inl, inr, String, none, List, [], ◌∷◌,
  length, lookup, lookup-insert, lookup-delete, insert, delete, arith, Option-cases,
}
use service_forge.Prelude.Int.{pos}
use service_forge.Prelude.Decimal.{format_int}
use service_forge.Errors.Result.{ok}
use service_forge.Todo.{
  Todo, TodoRepo, next_id, store_new, create, find_by_id, update, delete_by_id, store_all,
  new_todo_repo, fixtures,
}
use service_forge.Todo.Ids.{IsAt, next_seq_lem, fresh, IsAt-insert, IsAt-delete}
use service_forge.Todo.Abstract.{
  put, remove, Command, creates, finds, updates, deletes, todo, deleted, stamped, overwritten, Step,
  created, found, not_found, updated, not_updated, removed, not_removed, Steps, done, next, perform,
  perform_all, view,
}

view-insert :
    (key : String) (t : Todo) (r : TodoRepo)
    → put key t (view r) ≡ (λ j. lookup j (insert key t r.todos))
view-insert key t r = λ i j. sym (lookup-insert key j t r.todos) i

view-delete :
    (key : String) (r : TodoRepo) → remove key (view r) ≡ (λ j. lookup j (delete key r.todos))
view-delete key r = λ i j. sym (lookup-delete key j r.todos) i

-- A command in a store whose counter is at `n`: it is a step of the map, and the store is in order
-- afterwards, its counter moved by at most one.
Performs : ℕ → Command → TodoRepo → Type 0
Performs n c r =
    Step (view r) c (perform c r).0 (view (perform c r).1)
    × ((m : ℕ) × (m ≤ suc n) × IsAt m (perform c r).1)

Performs-create :
    (n now : ℕ) (t : Todo) (r : TodoRepo) → IsAt n r → suc n < 2 ^ 63 → Performs n (creates now t) r
unfolding Performs perform create store_new next_id
Performs-create n now t r at h =
    let key = format_int (pos (suc n)) in
    let t' = stamped key now t in
    rw (next_seq_lem n r at h) (
      subst (λ w. Step (view r) (creates now t) (todo (ok t')) w) (view-insert key t' r)
          (created key now t (fresh n r at)),
      (
        suc n,
        omega arith,
        IsAt-insert n (suc n) (pos (suc n)) r t' (suc n) at refl (omega arith) (omega arith) refl,
      ),
    )

Performs-find : (n : ℕ) (key : String) (r : TodoRepo) → IsAt n r → Performs n (finds key) r
unfolding Performs perform find_by_id
Performs-find n key r at = elim (Option-cases (lookup key r.todos)) [
  | inl e ↦ rw (e, find_by_id) (not_found key e, (n, omega arith, at))
  | inr (t, e) ↦ rw (e, find_by_id) (found key t e, (n, omega arith, at))
]

Performs-update : (n now : ℕ) (t : Todo) (r : TodoRepo) → IsAt n r → Performs n (updates now t) r
unfolding Performs perform update
Performs-update n now t r at = elim (Option-cases (lookup t.id r.todos)) [
  | inl e ↦ rw (e, update) (not_updated now t e, (n, omega arith, at))
  | inr (existing, e) ↦
      let same = at.ids_are t.id existing e in
      let below = at.ids_below t.id existing e in
      let t' = overwritten now t existing in
      rw (e, update)
        (
          subst (λ w. Step (view r) (updates now t) (todo (ok t')) w)
              (ap (λ k. put k t' (view r)) (sym same) ∙ view-insert existing.id t' r)
              (updated now t existing e),
          (
            n,
            omega arith,
            IsAt-insert n n r.seq r t' below.0 at at.seq_is (omega arith) below.1 (same ∙ below.2),
          ),
        )
]

Performs-delete : (n : ℕ) (key : String) (r : TodoRepo) → IsAt n r → Performs n (deletes key) r
unfolding Performs perform delete_by_id
Performs-delete n key r at = elim (Option-cases (lookup key r.todos)) [
  | inl e ↦ rw (e, delete_by_id) (not_removed key e, (n, omega arith, at))
  | inr (t, e) ↦
      rw (e, delete_by_id)
        (
          subst (λ w. Step (view r) (deletes key) (deleted none) w) (view-delete key r)
              (removed key t e),
          (n, omega arith, IsAt-delete n key r at),
        )
]

perform-Performs : (n : ℕ) (c : Command) (r : TodoRepo) → IsAt n r → suc n < 2 ^ 63 → Performs n c r
perform-Performs n (creates now t) r at h = Performs-create n now t r at h
perform-Performs n (finds key) r at h = Performs-find n key r at
perform-Performs n (updates now t) r at h = Performs-update n now t r at
perform-Performs n (deletes key) r at h = Performs-delete n key r at

perform_all-Steps :
    (n : ℕ) (cs : List Command) (r : TodoRepo)
    → IsAt n r
    → n + length cs < 2 ^ 63
    → Steps (view r) cs (perform_all cs r).0 (view (perform_all cs r).1)
unfolding perform_all Performs
perform_all-Steps n [] r at h = done
perform_all-Steps n (c ∷ cs) r at h =
    let p : Performs n c r = perform-Performs n c r at (omega arith) in
    let le : p.1.0 ≤ suc n = p.1.1 in
    let rest = perform_all-Steps p.1.0 cs (perform c r).1 p.1.2 (omega arith) in
    next c (perform c r).0 cs (perform_all cs (perform c r).1).0 p.0 rest

-- Where the counter is after the fixtures are stored.
IsAt-store_all :
    (n now : ℕ) (ts : List Todo) (r : TodoRepo)
    → IsAt n r
    → n + length ts < 2 ^ 63
    → (m : ℕ) × (m ≤ n + length ts) × IsAt m (store_all now ts r)
unfolding store_all Performs perform create
IsAt-store_all n now [] r at h = (n, omega arith, at)
IsAt-store_all n now (t ∷ ts) r at h =
    let p : Performs n (creates now t) r = Performs-create n now t r at (omega arith) in
    let le : p.1.0 ≤ suc n = p.1.1 in
    let rest = IsAt-store_all p.1.0 now ts (store_new now t r).1 p.1.2 (omega arith) in
    (rest.0, omega arith, rest.2)

-- Any run of commands on the seeded store, with fewer than 2^63 - 3 of them, is a run of the map with
-- the same replies: a command answers what the map holds, a failed one changes nothing, and a todo is
-- created under an id that is in use nowhere.
pub store_refines :
    (now : ℕ) (cs : List Command)
    → 3 + length cs < 2 ^ 63
    → Steps
        (view (new_todo_repo now))
        cs
        (perform_all cs (new_todo_repo now)).0
        (view (perform_all cs (new_todo_repo now)).1)
unfolding new_todo_repo lookup
store_refines now cs h =
    let empty : IsAt 0 (record { seq = pos 0; todos = [] }) = record {
      seq_is = refl;
      ids_are = λ k t e. cc;
      ids_below = λ k t e. absurd (ground arith);
    } in
    let seeded =
      IsAt-store_all 0 now fixtures (record { seq = pos 0; todos = [] }) empty (omega arith) in
    perform_all-Steps seeded.0 cs (new_todo_repo now) seeded.2 (omega arith)
