-- ===== src/Todo/Service.antt =====
-- The business logic of the generated example service (templates/generator.go, the template
-- exampleService). A none is a panic, which the server's recovery turns into an error.
use Prim.Native.String.{len}
use service_forge.Prelude.{
  ℕ, ◌-◌, ◌*◌, ◌/◌, String, Bool, ◌||◌, Option, none, some, List, map, ltb, if◌then◌else◌,
}
use service_forge.Prelude.Int.{ℤ, pos, wrap32, positive_or}
use service_forge.Prelude.Text.{is_empty}
use service_forge.Errors.{Error}
use service_forge.Errors.Result.{Result, ok, err}
use service_forge.Todo.{
  Todo, TodoRepo, invalid_title, fixture, create, find_by_id, list, update, delete_by_id,
}

abbrev pub default_page_size : ℕ
default_page_size = 20

abbrev pub max_page_size : ℕ
max_page_size = 100

pub record TodoResult : Type 0 where
  pub id : String
  pub title : String
  pub content : String
  pub done : Bool
  pub created_at : ℕ
  pub updated_at : ℕ

pub record CreateTodoInput : Type 0 where
  pub title : String
  pub content : String

-- The two numbers are int32.
pub record ListTodosInput : Type 0 where
  pub only_pending : Bool
  pub page : ℤ
  pub page_size : ℤ

pub record ListTodosResult : Type 0 where
  pub todos : List TodoResult
  pub page : ℕ
  pub page_size : ℕ
  pub total : ℕ

pub record UpdateTodoInput : Type 0 where
  pub id : String
  pub title : String
  pub content : String
  pub done : Bool

-- `t.Unix()` of a time after 1970
abbrev pub unix : ℕ → ℕ
unix t = t / 1_000_000_000

unfoldable pub to_todo_result : Todo → TodoResult
to_todo_result t = record {
  id = t.id;
  title = t.title;
  content = t.content;
  done = t.done;
  created_at = unix t.created_at;
  updated_at = unix t.updated_at;
}

abbrev pub result_of : Result Todo → Result TodoResult
result_of (ok t) = ok (to_todo_result t)
result_of (err e) = err e

-- `len` counts bytes.
unfoldable pub validate_title : String → Option Error
validate_title title = if ltb (len title) 1 || ltb 128 (len title) then some invalid_title else none

-- The page and the page size; both are at least 1 afterwards.
unfoldable pub normalize_page : ℤ → ℤ → ℕ × ℕ
normalize_page page size = (
  positive_or 1 page,
  (if ltb max_page_size (positive_or default_page_size size)
      then default_page_size
      else positive_or default_page_size size),
)

unfoldable pub create_todo : ℕ → CreateTodoInput → TodoRepo → Result TodoResult × TodoRepo
unfolding create
create_todo now input r = elim (validate_title input.title) [
  | some e ↦ (err e, r)
  | none ↦
      let (created, r') = create now (fixture input.title input.content Bool.false) r in
      (result_of created, r')
]

unfoldable pub get_todo : String → TodoRepo → Result TodoResult
get_todo id r = result_of (find_by_id id r)

-- `int((page - 1) * pageSize)`, the product being an int32
unfoldable pub offset_of : ℕ → ℕ → ℤ
offset_of page size = wrap32 ((page - 1) * size)

-- `ListTodos` behind `normalizePage`
unfoldable pub list_page : Bool → ℕ → ℕ → TodoRepo → Option ListTodosResult
list_page only_pending page size r = elim (list only_pending (offset_of page size) (pos size) r) [
  | none ↦ none
  | some (todos, total) ↦
      some
        (record { todos = map to_todo_result todos; page = page; page_size = size; total = total })
]

unfoldable pub list_todos : ListTodosInput → TodoRepo → Option ListTodosResult
unfolding normalize_page
list_todos input r =
    let (page, size) = normalize_page input.page input.page_size in
    list_page input.only_pending page size r

-- The todo with the input's title and content, where those are not empty, or a refusal.
unfoldable pub apply_input : UpdateTodoInput → Todo → Result Todo
apply_input input t =
    let t' : Todo = record t {
      title = if is_empty input.title then t.title else input.title;
      content = if is_empty input.content then t.content else input.content;
      done = input.done;
    } in
    if is_empty input.title
    then ok t'
    else elim (validate_title input.title) [ some e ↦ err e | none ↦ ok t' ]

unfoldable pub update_todo : ℕ → UpdateTodoInput → TodoRepo → Result TodoResult × TodoRepo
unfolding update
update_todo now input r = elim (find_by_id input.id r) [
  | err e ↦ (err e, r)
  | ok t ↦ elim (apply_input input t) [
    | err e ↦ (err e, r)
    | ok t' ↦ let (updated, r') = update now t' r in (result_of updated, r')
  ]
]

unfoldable pub delete_todo : String → TodoRepo → Option Error × TodoRepo
delete_todo id r = delete_by_id id r
