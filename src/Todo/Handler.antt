-- ===== src/Todo/Handler.antt =====
-- The gRPC handler of the generated example service (templates/generator.go, the template
-- exampleHandler). A protobuf message is the record of its fields; a timestamp is its seconds.
use service_forge.Prelude.{ℕ, String, Bool, Option, none, some, List, map, str_eq, if◌then◌else◌}
use service_forge.Errors.{
  Error, app, status, plain, CodeMaps, new, code_not_found, code_invalid_argument, code_internal,
}
use service_forge.Errors.Status.{GrpcStatus, error_text}
use service_forge.Errors.Result.{Result, ok, err}
use service_forge.Todo.{TodoRepo}
use service_forge.Todo.Service.{
  TodoResult, CreateTodoInput, ListTodosInput, UpdateTodoInput, create_todo, get_todo, list_todos,
  update_todo, delete_todo,
}

-- The message of the generated package; its two timestamps are `timestamppb.New(time.Unix(s, 0))`.
pub record ProtoTodo : Type 0 where
  pub id : String
  pub title : String
  pub content : String
  pub done : Bool
  pub created_at : ℕ
  pub updated_at : ℕ

pub record ListTodosResponse : Type 0 where
  pub todos : List ProtoTodo
  pub page : ℕ
  pub page_size : ℕ
  pub total : ℕ

unfoldable pub to_proto_todo : TodoResult → ProtoTodo
to_proto_todo t = record {
  id = t.id;
  title = t.title;
  content = t.content;
  done = t.done;
  created_at = t.created_at;
  updated_at = t.updated_at;
}

unfoldable pub ping : String → String
ping message = message

-- `errors.Is` for a target made by `errors.New`, of an error that wraps nothing. The targets'
-- texts differ from each other's, so the text tells which of them it is.
abbrev pub is_error : String → Error → Bool
is_error text (app e) = Bool.false
is_error text (status c m) = Bool.false
is_error text (plain t) = str_eq t text

module _ (S : GrpcStatus) (maps : CodeMaps) where
  -- `toGRPCError`
  unfoldable pub to_app_error : Error → Error
  to_app_error e =
      if is_error "todo not found" e
      then app (new maps code_not_found (error_text S e))
      else if is_error "title must be 1-128 characters" e
      then app (new maps code_invalid_argument (error_text S e))
      else app (new maps code_internal (error_text S e))

  abbrev pub answer : Result TodoResult → Result ProtoTodo
  answer (ok t) = ok (to_proto_todo t)
  answer (err e) = err (to_app_error e)

  unfoldable pub handle_create : ℕ → CreateTodoInput → TodoRepo → Result ProtoTodo × TodoRepo
  handle_create now req r = let (reply, r') = create_todo now req r in (answer reply, r')

  unfoldable pub handle_get : String → TodoRepo → Result ProtoTodo
  handle_get id r = answer (get_todo id r)

  -- A none is a panic.
  unfoldable pub handle_list : ListTodosInput → TodoRepo → Option ListTodosResponse
  handle_list req r = elim (list_todos req r) [
    | none ↦ none
    | some result ↦ some (record {
      todos = map to_proto_todo result.todos;
      page = result.page;
      page_size = result.page_size;
      total = result.total;
    })
  ]

  unfoldable pub handle_update : ℕ → UpdateTodoInput → TodoRepo → Result ProtoTodo × TodoRepo
  handle_update now req r = let (reply, r') = update_todo now req r in (answer reply, r')

  abbrev pub answer_failure : Option Error → Option Error
  answer_failure none = none
  answer_failure (some e) = some (to_app_error e)

  unfoldable pub handle_delete : String → TodoRepo → Option Error × TodoRepo
  handle_delete id r = let (failure, r') = delete_todo id r in (answer_failure failure, r')
