-- ===== src/Items/Mirrored.antt =====
-- An item as a todo (templates/generator.go: addServiceRepo beside exampleRepo): the name is its title and
-- the description its content, and it is not done. Every change of the store mirrors that of the other.
use service_forge.Prelude.{
  ℕ, String, false, Option, none, some, [], ◌∷◌, Table, lookup, insert, delete, str_eq,
  if◌then◌else◌, ◌≡◌, refl, ap, ◌∙◌, inl, inr, Bool-cases, Option-cases,
}
use service_forge.Errors.{Error, plain}
use service_forge.Errors.Result.{Result, ok, err}
use service_forge.Todo.{Todo, TodoRepo, todo_not_found, invalid_title}
use service_forge.Todo.Handler.{is_error}
use service_forge.Todo
use service_forge.Items.{Item, ItemRepo, store_new, create, find_by_id, update, delete_by_id}

abbrev pub todo_of : Item → Todo
todo_of it = record {
  id = it.id;
  title = it.name;
  content = it.description;
  done = false;
  created_at = it.created_at;
  updated_at = it.updated_at;
}

abbrev pub todos_of : Table Item → Table Todo
todos_of [] = []
todos_of ((id, it) ∷ rest) = (id, todo_of it) ∷ todos_of rest

abbrev pub repo_of : ItemRepo → TodoRepo
repo_of r = record { seq = r.seq; todos = todos_of r.items }

abbrev pub mapped : {A B : Type 0} → (A → B) → Option A → Option B
mapped f none = none
mapped f (some a) = some (f a)

pub lookup-todos_of :
    (key : String) (items : Table Item)
    → lookup key (todos_of items) ≡ mapped todo_of (lookup key items)
unfolding lookup
lookup-todos_of key [] = refl
lookup-todos_of key ((name, it) ∷ rest) = elim (Bool-cases (str_eq name key)) [
  | inl q ↦ rw (q) refl
  | inr q ↦ rw (q) (lookup-todos_of key rest)
]

todos_of-insert :
    (key : String) (it : Item) (items : Table Item)
    → todos_of (insert key it items) ≡ insert key (todo_of it) (todos_of items)
unfolding insert
todos_of-insert key it [] = refl
todos_of-insert key it ((name, other) ∷ rest) = elim (Bool-cases (str_eq name key)) [
  | inl q ↦ rw (q) refl
  | inr q ↦ rw (q) (ap (λ r. (name, todo_of other) ∷ r) (todos_of-insert key it rest))
]

todos_of-delete :
    (key : String) (items : Table Item) → todos_of (delete key items) ≡ delete key (todos_of items)
unfolding delete
todos_of-delete key [] = refl
todos_of-delete key ((name, other) ∷ rest) = elim (Bool-cases (str_eq name key)) [
  | inl q ↦ rw (q) (todos_of-delete key rest)
  | inr q ↦ rw (q) (ap (λ r. (name, todo_of other) ∷ r) (todos_of-delete key rest))
]

-- A missing item is a missing todo, and an invalid name an invalid title; there are no other errors.
abbrev pub todo_error : Error → Error
todo_error e =
    if is_error "item not found" e
    then todo_not_found
    else if is_error "name must be 1-128 characters" e
    then invalid_title
    else plain ""

-- The result of an operation and the store after it.
abbrev pub mirrored : Result Item × ItemRepo → Result Todo × TodoRepo
mirrored (ok it, r) = (ok (todo_of it), repo_of r)
mirrored (err e, r) = (err (todo_error e), repo_of r)

pub create-repo_of :
    (now : ℕ) (it : Item) (r : ItemRepo)
    → mirrored (create now it r) ≡ Todo.create now (todo_of it) (repo_of r)
unfolding create Todo.create Todo.next_seq
create-repo_of now it r =
    let (created, r') = store_new now it r in
    ap (λ (t : Table Todo). (ok (todo_of created), record (repo_of r') { todos = t }))
      (todos_of-insert created.id created r.items)

abbrev pub found : Result Item → Result Todo
found (ok it) = ok (todo_of it)
found (err e) = err (todo_error e)

pub find_by_id-repo_of :
    (id : String) (r : ItemRepo) → found (find_by_id id r) ≡ Todo.find_by_id id (repo_of r)
unfolding find_by_id Todo.find_by_id
find_by_id-repo_of id r = elim (Option-cases (lookup id r.items)) [
  | inl e ↦
      rw (e, find_by_id, lookup-todos_of id r.items ∙ ap (mapped todo_of) e, Todo.find_by_id) refl
  | inr (it, e) ↦
      rw (e, find_by_id, lookup-todos_of id r.items ∙ ap (mapped todo_of) e, Todo.find_by_id) refl
]

pub update-repo_of :
    (now : ℕ) (it : Item) (r : ItemRepo)
    → mirrored (update now it r) ≡ Todo.update now (todo_of it) (repo_of r)
unfolding update Todo.update
update-repo_of now it r = elim (Option-cases (lookup it.id r.items)) [
  | inl e ↦ rw (e, update, lookup-todos_of it.id r.items ∙ ap (mapped todo_of) e, Todo.update) refl
  | inr (existing, e) ↦
      let updated : Item = record existing {
        name = it.name;
        description = it.description;
        updated_at = now;
      } in
      rw (e, update, lookup-todos_of it.id r.items ∙ ap (mapped todo_of) e, Todo.update)
        (ap (λ (t : Table Todo). (ok (todo_of updated), record (repo_of r) { todos = t }))
          (todos_of-insert updated.id updated r.items))
]

-- The error of a deletion and the store after it.
abbrev pub deleted : Option Error × ItemRepo → Option Error × TodoRepo
deleted (none, r) = (none, repo_of r)
deleted (some e, r) = (some (todo_error e), repo_of r)

pub delete_by_id-repo_of :
    (id : String) (r : ItemRepo) → deleted (delete_by_id id r) ≡ Todo.delete_by_id id (repo_of r)
unfolding delete_by_id Todo.delete_by_id
delete_by_id-repo_of id r = elim (Option-cases (lookup id r.items)) [
  | inl e ↦
      rw (e, delete_by_id, lookup-todos_of id r.items ∙ ap (mapped todo_of) e, Todo.delete_by_id)
        refl
  | inr (existing, e) ↦
      rw (e, delete_by_id, lookup-todos_of id r.items ∙ ap (mapped todo_of) e, Todo.delete_by_id)
        (ap (λ (t : Table Todo). (none, record (repo_of r) { todos = t }))
          (todos_of-delete id r.items))
]
