-- ===== src/Items/Serviced.antt =====
-- The service of items beside that of todos (templates/generator.go: addServiceService beside
-- exampleService).
use Prim.Native.String.{len}
use service_forge.Prelude.{
  ℕ, String, Bool, false, ◌||◌, ltb, ◌≡◌, refl, sym, ap, ◌∙◌, inl, inr, Bool-cases,
}
use service_forge.Prelude.Text.{is_empty}
use service_forge.Errors.Result.{Result, ok, err, Result-cases}
use service_forge.Todo.{Todo, TodoRepo}
use service_forge.Todo.Service.{
  TodoResult, CreateTodoInput, ListTodosInput, ListTodosResult, UpdateTodoInput,
}
use service_forge.Todo
use service_forge.Todo.Service as Todos
use service_forge.Items.{Item, ItemRepo, new_item, create, find_by_id, update}
use service_forge.Items.Service.{
  ItemResult, CreateItemInput, UpdateItemInput, to_item_result, result_of, validate_name,
  create_item, get_item, apply_input, update_item, delete_item,
}
use service_forge.Items.Mirrored.{
  todo_of, repo_of, todo_error, mirrored, found, deleted, create-repo_of, find_by_id-repo_of,
  update-repo_of, delete_by_id-repo_of,
}

abbrev pub todo_result_of : ItemResult → TodoResult
todo_result_of it = record {
  id = it.id;
  title = it.name;
  content = it.description;
  done = false;
  created_at = it.created_at;
  updated_at = it.updated_at;
}

abbrev pub answered : Result ItemResult → Result TodoResult
answered (ok it) = ok (todo_result_of it)
answered (err e) = err (todo_error e)

abbrev pub changed : Result ItemResult × ItemRepo → Result TodoResult × TodoRepo
changed (reply, r) = (answered reply, repo_of r)

answered-result_of : (x : Result Item) → answered (result_of x) ≡ Todos.result_of (found x)
unfolding to_item_result Todos.to_todo_result
answered-result_of (ok it) = refl
answered-result_of (err e) = refl

pub get_item-repo_of :
    (id : String) (r : ItemRepo) → answered (get_item id r) ≡ Todos.get_todo id (repo_of r)
unfolding get_item Todos.get_todo
get_item-repo_of id r =
    answered-result_of (find_by_id id r) ∙ ap Todos.result_of (find_by_id-repo_of id r)

-- What a change of the store answers, beside the changed store.
abbrev stored : Result Todo × TodoRepo → Result TodoResult × TodoRepo
stored (reply, r) = (Todos.result_of reply, r)

changed-mirrored : (x : Result Item × ItemRepo) → changed (result_of x.0, x.1) ≡ stored (mirrored x)
unfolding to_item_result Todos.to_todo_result
changed-mirrored (ok it, r) = refl
changed-mirrored (err e, r) = refl

abbrev pub create_input : CreateItemInput → CreateTodoInput
create_input input = record { title = input.name; content = input.description }

-- The test of a name, which is that of a title.
abbrev wrong_length : String → Bool
wrong_length s = ltb (len s) 1 || ltb 128 (len s)

pub create_item-repo_of :
    (now : ℕ) (input : CreateItemInput) (r : ItemRepo)
    → changed (create_item now input r) ≡ Todos.create_todo now (create_input input) (repo_of r)
unfolding create_item Todos.create_todo validate_name Todos.validate_title
create_item-repo_of now input r = elim (Bool-cases (wrong_length input.name)) [
  | inl e ↦ rw (e, create_item, Todos.create_todo) refl
  | inr e ↦
      rw (e, create_item, Todos.create_todo)
        (changed-mirrored (create now (new_item input.name input.description) r)
          ∙ ap stored (create-repo_of now (new_item input.name input.description) r))
]

abbrev pub update_input : UpdateItemInput → UpdateTodoInput
update_input input = record {
  id = input.id;
  title = input.name;
  content = input.description;
  done = false;
}

apply_input-todo_of :
    (input : UpdateItemInput) (it : Item)
    → found (apply_input input it) ≡ Todos.apply_input (update_input input) (todo_of it)
unfolding apply_input Todos.apply_input validate_name Todos.validate_title
apply_input-todo_of input it = elim (Bool-cases (is_empty input.description)) [
  | inl d ↦ elim (Bool-cases (is_empty input.name)) [
    | inl n ↦ rw (d, n) refl
    | inr n ↦ elim (Bool-cases (wrong_length input.name)) [
      | inl e ↦ rw (d, n, e) refl
      | inr e ↦ rw (d, n, e) refl
    ]
  ]
  | inr d ↦ elim (Bool-cases (is_empty input.name)) [
    | inl n ↦ rw (d, n) refl
    | inr n ↦ elim (Bool-cases (wrong_length input.name)) [
      | inl e ↦ rw (d, n, e) refl
      | inr e ↦ rw (d, n, e) refl
    ]
  ]
]

-- The end of an update, from the todo with the new title and content.
abbrev saved : ℕ → TodoRepo → Result Todo → Result TodoResult × TodoRepo
saved now r (err e) = (err e, r)
saved now r (ok t) = stored (Todo.update now t r)

abbrev saved_item : ℕ → ItemRepo → Result Item → Result ItemResult × ItemRepo
saved_item now r (err e) = (err e, r)
saved_item now r (ok it) = let (updated, r') = update now it r in (result_of updated, r')

saved-found :
    (now : ℕ) (r : ItemRepo) (x : Result Item)
    → changed (saved_item now r x) ≡ saved now (repo_of r) (found x)
saved-found now r (err e) = refl
saved-found now r (ok it) = changed-mirrored (update now it r) ∙ ap stored (update-repo_of now it r)

update_item-saved :
    (now : ℕ) (input : UpdateItemInput) (r : ItemRepo) (it : Item)
    → find_by_id input.id r ≡ ok it
    → update_item now input r ≡ saved_item now r (apply_input input it)
unfolding update_item
update_item-saved now input r it e = elim (Result-cases (apply_input input it)) [
  | inl (it', a) ↦ rw (e, update_item, a) refl
  | inr (x, a) ↦ rw (e, update_item, a) refl
]

update_todo-saved :
    (now : ℕ) (input : UpdateTodoInput) (r : TodoRepo) (t : Todo)
    → Todo.find_by_id input.id r ≡ ok t
    → Todos.update_todo now input r ≡ saved now r (Todos.apply_input input t)
unfolding Todos.update_todo
update_todo-saved now input r t e = elim (Result-cases (Todos.apply_input input t)) [
  | inl (t', a) ↦ rw (e, Todos.update_todo, a) refl
  | inr (x, a) ↦ rw (e, Todos.update_todo, a) refl
]

pub update_item-repo_of :
    (now : ℕ) (input : UpdateItemInput) (r : ItemRepo)
    → changed (update_item now input r) ≡ Todos.update_todo now (update_input input) (repo_of r)
unfolding update_item Todos.update_todo
update_item-repo_of now input r =
    let f = sym (find_by_id-repo_of input.id r) in
    elim (Result-cases (find_by_id input.id r)) [
      | inr (x, e) ↦ rw (e, update_item, f ∙ ap found e, Todos.update_todo) refl
      | inl (it, e) ↦
          ap changed (update_item-saved now input r it e)
          ∙ saved-found now r (apply_input input it)
          ∙ ap (saved now (repo_of r)) (apply_input-todo_of input it)
          ∙ sym
              (update_todo-saved now (update_input input) (repo_of r) (todo_of it) (f ∙ ap found e))
    ]

pub delete_item-repo_of :
    (id : String) (r : ItemRepo) → deleted (delete_item id r) ≡ Todos.delete_todo id (repo_of r)
unfolding delete_item Todos.delete_todo
delete_item-repo_of id r = delete_by_id-repo_of id r
