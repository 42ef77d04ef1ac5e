-- ===== src/Todo/Ids.antt =====
-- The ids that the store of the generated service hands out (templates/generator.go, exampleRepo).
use service_forge.Prelude.{
  ℕ, suc, ◌^◌, ◌≤◌, ◌<◌, ◌≡◌, refl, sym, ap, ◌∙◌, inl, inr, String, none, some, lookup,
  lookup-insert, lookup-delete, str_eq, eq_iff, arith, Option-cases, Bool-cases, insert, delete,
}
use service_forge.Prelude.Int.{ℤ, pos, wrap64, wrap64_small, ◌+ℤ◌}
use service_forge.Prelude.Decimal.{format_int, format_int-pos_inj}
use service_forge.Todo.{Todo, TodoRepo, next_seq}

-- A store whose counter is at `n`: what it holds under a key has that id, which spells a number of
-- at most `n`.
pub record IsAt (n : ℕ) (r : TodoRepo) : Type 0 where
  pub seq_is : r.seq ≡ pos n
  pub ids_are : (key : String) (t : Todo) → lookup key r.todos ≡ some t → t.id ≡ key
  pub ids_below :
      (key : String) (t : Todo)
      → lookup key r.todos ≡ some t
      → (k : ℕ) × (k ≤ n) × (key ≡ format_int (pos k))

pub next_seq_lem : (n : ℕ) (r : TodoRepo) → IsAt n r → suc n < 2 ^ 63 → next_seq r ≡ pos (suc n)
unfolding next_seq ◌+ℤ◌
next_seq_lem n r at h =
    ap (λ s. wrap64 (s +ℤ pos 1)) at.seq_is
    ∙ (ap (λ k. wrap64 (pos k)) (omega arith) ∙ wrap64_small (suc n) h)

-- The id that comes next is in use nowhere.
pub fresh : (n : ℕ) (r : TodoRepo) → IsAt n r → lookup (format_int (pos (suc n))) r.todos ≡ none
fresh n r at = elim (Option-cases (lookup (format_int (pos (suc n))) r.todos)) [
  | inl e ↦ e
  | inr (t, e) ↦
      let below = at.ids_below (format_int (pos (suc n))) t e in
      let same = format_int-pos_inj (suc n) below.0 below.2 in absurd (omega arith)
]

-- Writing a todo under its id keeps the store in order, where that id was handed out.
pub IsAt-insert :
    (n m : ℕ) (s : ℤ) (r : TodoRepo) (t : Todo) (k : ℕ)
    → IsAt n r
    → s ≡ pos m
    → n ≤ m
    → k ≤ m
    → t.id ≡ format_int (pos k)
    → IsAt m (record { seq = s; todos = insert t.id t r.todos })
IsAt-insert n m s r t k at moved le le' spelled = record {
  seq_is = moved;
  ids_are = λ key u e.
      ground (arith, lookup-insert t.id key t r.todos, eq_iff t.id key, at.ids_are key u);
  ids_below = λ key u e. elim (Bool-cases (str_eq t.id key)) [
    | inl q ↦ (k, le', sym ((eq_iff t.id key).0 q) ∙ spelled)
    | inr q ↦
        let b = at.ids_below key u (sym (lookup-insert t.id key t r.todos ∙ rw (q) refl) ∙ e) in
        (b.0, omega arith, b.2)
  ];
}

pub IsAt-delete :
    (n : ℕ) (key : String) (r : TodoRepo)
    → IsAt n r
    → IsAt n (record r { todos = delete key r.todos })
IsAt-delete n key r at = record {
  seq_is = at.seq_is;
  ids_are = λ j u e. ground (arith, lookup-delete key j r.todos, eq_iff key j, at.ids_are j u);
  ids_below = λ j u e. elim (Bool-cases (str_eq key j)) [
    | inl q ↦ absurd (ground (arith, lookup-delete key j r.todos))
    | inr q ↦ at.ids_below j u (ground (arith, lookup-delete key j r.todos))
  ];
}
