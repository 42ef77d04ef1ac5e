-- ===== src/Todo/Titles.antt =====
-- The titles in the store of the generated service (templates/generator.go, exampleService): what the
-- service lets in.
use Prim.Native.String.{len}
use service_forge.Prelude.{
  ℕ, ◌≤◌, ◌≡◌, refl, sym, ap, ◌∙◌, inl, inr, String, false, none, some, List, [], ◌∷◌, All, lookup,
  lookup-insert, lookup-delete, insert, str_eq, arith, Option-cases, Bool-cases,
}
use service_forge.Prelude.Int.{pos}
use service_forge.Prelude.Text.{is_empty}
use service_forge.Errors.Result.{ok, Result-cases}
use service_forge.Todo.{
  Todo, TodoRepo, next_id, store_new, store_all, new_todo_repo, fixture, fixtures, create,
  find_by_id, update, delete_by_id,
}
use service_forge.Todo.Service.{
  CreateTodoInput, UpdateTodoInput, validate_title, create_todo, update_todo, delete_todo,
  apply_input,
}

abbrev pub IsTitle : String → Type 0
IsTitle title = (1 ≤ len title) × (len title ≤ 128)

-- Every stored todo has a title of 1 to 128 bytes.
unfoldable pub HasTitles : TodoRepo → Type 0
HasTitles r = (key : String) (t : Todo) → lookup key r.todos ≡ some t → IsTitle t.title

validate_title_lem : (title : String) → validate_title title ≡ none → IsTitle title
unfolding validate_title
validate_title_lem title e = ground arith

HasTitles-insert :
    (key : String) (t : Todo) (r : TodoRepo) (r' : TodoRepo)
    → r'.todos ≡ insert key t r.todos
    → IsTitle t.title
    → HasTitles r
    → HasTitles r'
unfolding HasTitles
HasTitles-insert key t r r' e title all j u found =
    let at = ap (lookup j) (sym e) ∙ found in
    elim (Bool-cases (str_eq key j)) [
      | inl q ↦ ground (arith, lookup-insert key j t r.todos)
      | inr q ↦ all j u (ground (arith, lookup-insert key j t r.todos))
    ]

-- A request that changes the store.
pub data Request : Type 0 where
  create_one : ℕ → CreateTodoInput → Request
  update_one : ℕ → UpdateTodoInput → Request
  delete_one : String → Request

unfoldable pub serve : Request → TodoRepo → TodoRepo
unfolding create_todo update_todo delete_todo
serve (create_one now input) r = (create_todo now input r).1
serve (update_one now input) r = (update_todo now input r).1
serve (delete_one key) r = (delete_todo key r).1

unfoldable pub serve_all : List Request → TodoRepo → TodoRepo
unfolding serve
serve_all [] r = r
serve_all (q ∷ qs) r = serve_all qs (serve q r)

HasTitles-store_new :
    (now : ℕ) (t : Todo) (r : TodoRepo)
    → IsTitle t.title
    → HasTitles r
    → HasTitles (store_new now t r).1
unfolding store_new next_id
HasTitles-store_new now t r title all =
    HasTitles-insert (store_new now t r).0.id (store_new now t r).0 r (store_new now t r).1 refl
      title all

HasTitles-create :
    (now : ℕ) (input : CreateTodoInput) (r : TodoRepo)
    → HasTitles r
    → HasTitles (create_todo now input r).1
unfolding create_todo create
HasTitles-create now input r all = elim (Option-cases (validate_title input.title)) [
  | inl e ↦
      rw (e, create_todo)
        (HasTitles-store_new now (fixture input.title input.content false) r
          (validate_title_lem input.title e) all)
  | inr (e', e) ↦ rw (e, create_todo) all
]

apply_input-title :
    (input : UpdateTodoInput) (t t' : Todo)
    → IsTitle t.title
    → apply_input input t ≡ ok t'
    → IsTitle t'.title
unfolding apply_input
apply_input-title input t t' title e = elim (Bool-cases (is_empty input.title)) [
  | inl q ↦ ground arith
  | inr q ↦ elim (Option-cases (validate_title input.title)) [
    | inl v ↦ ground (arith, validate_title_lem input.title v)
    | inr (e', v) ↦ absurd (ground arith)
  ]
]

HasTitles-update_repo :
    (now : ℕ) (t : Todo) (r : TodoRepo)
    → IsTitle t.title
    → HasTitles r
    → HasTitles (update now t r).1
unfolding update
HasTitles-update_repo now t r title all = elim (Option-cases (lookup t.id r.todos)) [
  | inl e ↦ rw (e, update) all
  | inr (existing, e) ↦
      let t' : Todo = record existing {
        title = t.title;
        content = t.content;
        done = t.done;
        updated_at = now;
      } in
      rw (e, update)
        (HasTitles-insert existing.id t' r (record r { todos = insert existing.id t' r.todos }) refl
          title all)
]

HasTitles-update :
    (now : ℕ) (input : UpdateTodoInput) (r : TodoRepo)
    → HasTitles r
    → HasTitles (update_todo now input r).1
unfolding update_todo find_by_id HasTitles
HasTitles-update now input r all = elim (Option-cases (lookup input.id r.todos)) [
  | inl e ↦ rw (e, find_by_id, update_todo) all
  | inr (t, e) ↦ elim (Result-cases (apply_input input t)) [
    | inl (t', q) ↦
        rw (e, q, find_by_id, update_todo)
          (HasTitles-update_repo now t' r (apply_input-title input t t' (all input.id t e) q) all)
    | inr (e', q) ↦ rw (e, q, find_by_id, update_todo) all
  ]
]

HasTitles-delete : (key : String) (r : TodoRepo) → HasTitles r → HasTitles (delete_todo key r).1
unfolding delete_todo delete_by_id HasTitles
HasTitles-delete key r all = elim (Option-cases (lookup key r.todos)) [
  | inl e ↦ rw (e, delete_todo, delete_by_id) all
  | inr (t, e) ↦
      rw (e, delete_todo, delete_by_id)
        λ j u found. all j u (ground (arith, lookup-delete key j r.todos))
]

HasTitles-serve : (q : Request) (r : TodoRepo) → HasTitles r → HasTitles (serve q r)
unfolding serve
HasTitles-serve (create_one now input) r all = HasTitles-create now input r all
HasTitles-serve (update_one now input) r all = HasTitles-update now input r all
HasTitles-serve (delete_one key) r all = HasTitles-delete key r all

HasTitles-serve_all : (qs : List Request) (r : TodoRepo) → HasTitles r → HasTitles (serve_all qs r)
unfolding serve_all
HasTitles-serve_all [] r all = all
HasTitles-serve_all (q ∷ qs) r all = HasTitles-serve_all qs (serve q r) (HasTitles-serve q r all)

HasTitles-store_all :
    (now : ℕ) (ts : List Todo) (r : TodoRepo)
    → All (λ (t : Todo). IsTitle t.title) ts
    → HasTitles r
    → HasTitles (store_all now ts r)
unfolding store_all
HasTitles-store_all now [] r titles all = all
HasTitles-store_all now (t ∷ ts) r titles all =
    HasTitles-store_all now ts (store_new now t r).1 titles.1
      (HasTitles-store_new now t r titles.0 all)

HasTitles-new_todo_repo : (now : ℕ) → HasTitles (new_todo_repo now)
unfolding new_todo_repo HasTitles lookup
HasTitles-new_todo_repo now =
    HasTitles-store_all now fixtures (record { seq = pos 0; todos = [] })
      ((omega arith, omega arith), ((omega arith, omega arith), ((omega arith, omega arith), tt)))
      (λ key t e. absurd (ground (arith, e)))

-- Whatever is asked of a new store, every todo in it has a title of 1 to 128 bytes.
pub titles_valid : (now : ℕ) (qs : List Request) → HasTitles (serve_all qs (new_todo_repo now))
titles_valid now qs = HasTitles-serve_all qs (new_todo_repo now) (HasTitles-new_todo_repo now)
