-- ===== src/Todo/Answers.antt =====
-- What a client of the generated service sees (templates/generator.go, exampleHandler), up to the
-- gateway that its errors reach over gRPC (core/errors/errors.go).
use Prim.Native.String.{len}
use service_forge.Prelude.{
  ℕ, ◌≤◌, ◌≡◌, refl, ap, ◌∙◌, String, false, Option, none, some, lookup, lookup-insert_self, arith,
}
use service_forge.Errors.{
  Error, AppError, CodeMaps, default_maps, new, code_not_found, code_invalid_argument,
  http_status_of, http_status,
}
use service_forge.Errors.Status.{GrpcStatus, to_grpc_error, from_grpc_error, error_text}
use service_forge.Errors.Transport.{from_grpc_error-to_grpc_error}
use service_forge.Errors.Result.{Result, ok, err}
use service_forge.Todo.{
  Todo, TodoRepo, todo_not_found, fixture, invalid_title, next_id, store_new, create, find_by_id,
  delete_by_id,
}
use service_forge.Todo.Service.{
  CreateTodoInput, UpdateTodoInput, validate_title, create_todo, get_todo, update_todo, delete_todo,
  to_todo_result,
}
use service_forge.Todo.Handler.{
  ProtoTodo, answer_failure, to_proto_todo, to_app_error, handle_create, handle_get, handle_update,
  handle_delete,
}

-- The error of a reply, if it is one.
abbrev pub failure_of : Result ProtoTodo → Option Error
failure_of (ok t) = none
failure_of (err e) = some e

validate_title-valid :
    (title : String) → 1 ≤ len title → len title ≤ 128 → validate_title title ≡ none
unfolding validate_title
validate_title-valid title h h' = ground arith

delete_by_id_missing :
    (key : String) (r : TodoRepo)
    → lookup key r.todos ≡ none
    → delete_by_id key r ≡ (some todo_not_found, r)
unfolding delete_by_id
delete_by_id_missing key r e = rw (delete_by_id, e) refl

find_stored :
    (now : ℕ) (t : Todo) (r : TodoRepo)
    → find_by_id (store_new now t r).0.id (store_new now t r).1 ≡ ok (store_new now t r).0
unfolding find_by_id store_new next_id
find_stored now t r =
    rw (find_by_id, lookup-insert_self (store_new now t r).0.id (store_new now t r).0 r.todos) refl

module _ (S : GrpcStatus) (maps : CodeMaps) where
  get_missing :
      (key : String) (r : TodoRepo)
      → lookup key r.todos ≡ none
      → handle_get S maps key r ≡ err (to_app_error S maps todo_not_found)
  unfolding handle_get get_todo find_by_id
  get_missing key r e = rw (handle_get, get_todo, find_by_id, e) refl

  update_missing :
      (now : ℕ) (input : UpdateTodoInput) (r : TodoRepo)
      → lookup input.id r.todos ≡ none
      → handle_update S maps now input r ≡ (err (to_app_error S maps todo_not_found), r)
  unfolding handle_update update_todo find_by_id
  update_missing now input r e = rw (handle_update, update_todo, find_by_id, e) refl

  delete_missing :
      (key : String) (r : TodoRepo)
      → lookup key r.todos ≡ none
      → handle_delete S maps key r ≡ (some (to_app_error S maps todo_not_found), r)
  unfolding handle_delete delete_todo
  delete_missing key r e =
      ap (λ (x : Option Error × TodoRepo). (answer_failure S maps x.0, x.1))
        (delete_by_id_missing key r e)

  -- The reply and the store after a creation that is not refused.
  create_stored :
      (now : ℕ) (input : CreateTodoInput) (r : TodoRepo)
      → validate_title input.title ≡ none
      → handle_create S maps now input r ≡ (
          let (t, r') = store_new now (fixture input.title input.content false) r in
          (ok (to_proto_todo (to_todo_result t)), r'))
  unfolding handle_create create_todo create
  create_stored now input r v = rw (handle_create, create_todo, v, create) refl

  get_stored :
      (now : ℕ) (t : Todo) (r : TodoRepo)
      → handle_get S maps (store_new now t r).0.id (store_new now t r).1
        ≡ ok (to_proto_todo (to_todo_result (store_new now t r).0))
  unfolding handle_get get_todo
  get_stored now t r = rw (handle_get, get_todo, find_stored now t r) refl

module _ (S : GrpcStatus) where
  -- The error that the gateway gets of a reply, over the wire and with the framework's codes.
  abbrev pub arrives : Option Error → Option AppError
  arrives e = from_grpc_error S default_maps (to_grpc_error S e)

  abbrev pub missing : AppError
  missing = new default_maps code_not_found "todo not found"

  abbrev pub bad_title : AppError
  bad_title = new default_maps code_invalid_argument "title must be 1-128 characters"

  arrives-missing : arrives (some (to_app_error S default_maps todo_not_found)) ≡ some missing
  unfolding to_app_error error_text
  arrives-missing = (from_grpc_error-to_grpc_error S "todo not found").1.1.1.0

  arrives-bad_title : arrives (some (to_app_error S default_maps invalid_title)) ≡ some bad_title
  unfolding to_app_error error_text
  arrives-bad_title = (from_grpc_error-to_grpc_error S "title must be 1-128 characters").0

  -- Where no todo has the id, reading, updating and deleting it all change nothing and answer the
  -- gateway NOT_FOUND, with the HTTP status 404.
  pub missing_todo :
      (key : String) (now : ℕ) (input : UpdateTodoInput) (r : TodoRepo)
      → lookup key r.todos ≡ none
      → input.id ≡ key
      → (arrives (failure_of (handle_get S default_maps key r)) ≡ some missing)
        × (arrives (failure_of (handle_update S default_maps now input r).0) ≡ some missing)
        × (arrives (handle_delete S default_maps key r).0 ≡ some missing)
        × ((handle_update S default_maps now input r).1 ≡ r)
        × ((handle_delete S default_maps key r).1 ≡ r)
        × (http_status_of missing ≡ 404)
  unfolding new http_status lookup
  missing_todo key now input r e same =
      let e' = ap (λ k. lookup k r.todos) same ∙ e in
      rw
        (
          get_missing S default_maps key r e,
          update_missing S default_maps now input r e',
          delete_missing S default_maps key r e,
        )
        (arrives-missing, arrives-missing, arrives-missing, refl, refl, refl)

  -- A todo that was created with a title of 1 to 128 bytes is what a reading of its id answers next.
  pub get-create :
      (now : ℕ) (input : CreateTodoInput) (r : TodoRepo)
      → 1 ≤ len input.title
      → len input.title ≤ 128
      → (t : ProtoTodo) × ((handle_create S default_maps now input r).0 ≡ ok t)
        × (t.title ≡ input.title)
        × (t.content ≡ input.content)
        × (handle_get S default_maps t.id (handle_create S default_maps now input r).1 ≡ ok t)
  unfolding to_proto_todo to_todo_result store_new next_id
  get-create now input r h h' =
      let v : validate_title input.title ≡ none = validate_title-valid input.title h h' in
      let t = (store_new now (fixture input.title input.content false) r).0 in
      rw (create_stored S default_maps now input r v) (
        to_proto_todo (to_todo_result t),
        refl,
        refl,
        refl,
        get_stored S default_maps now (fixture input.title input.content false) r,
      )
