-- ===== src/Items/Answered.antt =====
-- The handler of a generated service beside that of the generated example service
-- (templates/generator.go: addServiceHandler beside exampleHandler), one request at a time.
use service_forge.Prelude.{
  ℕ, String, false, Option, none, some, List, [], ◌∷◌, map, ◌≡◌, refl, sym, ap, ◌∙◌, inl, inr,
  Bool-cases, Option-cases,
}
use service_forge.Errors.{
  Code, Error, GrpcCode, app, CodeMaps, new, code_of, http_status_of, grpc_code_of,
}
use service_forge.Errors.Status.{GrpcStatus}
use service_forge.Errors.Result.{Result, ok, err}
use service_forge.Todo.{TodoRepo}
use service_forge.Todo.Service.{TodoResult, ListTodosInput, ListTodosResult, list_todos}
use service_forge.Todo.Handler.{ProtoTodo, ListTodosResponse, is_error}
use service_forge.Todo.Handler as Todos
use service_forge.Items.{ItemRepo}
use service_forge.Items.Service.{
  ItemResult, CreateItemInput, ListItemsInput, ListItemsResult, UpdateItemInput, create_item,
  get_item, list_items, update_item, delete_item,
}
use service_forge.Items.Handler.{
  ProtoItem, ListItemsResponse, to_proto_item, to_app_error, answer, handle_create, handle_get,
  handle_list, handle_update, answer_failure, handle_delete,
}
use service_forge.Items.Mirrored.{repo_of, mapped, todo_error, deleted}
use service_forge.Items.Serviced.{
  todo_result_of, answered, changed, create_input, update_input, get_item-repo_of,
  create_item-repo_of, update_item-repo_of, delete_item-repo_of,
}
use service_forge.Items.Listed.{list_input, listed, list_items-repo_of}

abbrev pub proto_todo_of : ProtoItem → ProtoTodo
proto_todo_of it = record {
  id = it.id;
  title = it.name;
  content = it.description;
  done = false;
  created_at = it.created_at;
  updated_at = it.updated_at;
}

abbrev pub response_of : ListItemsResponse → ListTodosResponse
response_of r = record {
  todos = map proto_todo_of r.items;
  page = r.page;
  page_size = r.page_size;
  total = r.total;
}

-- A request to either service. Times are those of the clock.
pub data Request : Type 0 where
  creates : ℕ → CreateItemInput → Request
  gets : String → Request
  lists : ListItemsInput → Request
  updates : ℕ → UpdateItemInput → Request
  deletes : String → Request

-- What the caller sees of a reply: the messages, or the code of a refusal with its HTTP and gRPC codes.
pub data Reply : Type 0 where
  one : ProtoTodo → Reply
  many : ListTodosResponse → Reply
  removed : Reply
  refused : Code → ℕ → GrpcCode → Reply
  panicked other : Reply

abbrev pub refusal : Error → Reply
refusal (app e) = refused (code_of e) (http_status_of e) (grpc_code_of e)
refusal _ = other

abbrev pub reply_of : {A : Type 0} → (A → ProtoTodo) → Result A → Reply
reply_of message (ok a) = one (message a)
reply_of message (err e) = refusal e

abbrev pub failure_of : Option Error → Reply
failure_of none = removed
failure_of (some e) = refusal e

abbrev pub page_reply : {A : Type 0} → (A → ListTodosResponse) → Option A → Reply
page_reply message none = panicked
page_reply message (some a) = many (message a)

module _ (S : GrpcStatus) (maps : CodeMaps) where
  unfoldable pub item_step : Request → ItemRepo → Reply × ItemRepo
  item_step (creates now input) r =
      let (reply, r') = handle_create S maps now input r in (reply_of proto_todo_of reply, r')
  item_step (gets id) r = (reply_of proto_todo_of (handle_get S maps id r), r)
  item_step (lists input) r = (page_reply response_of (handle_list S maps input r), r)
  item_step (updates now input) r =
      let (reply, r') = handle_update S maps now input r in (reply_of proto_todo_of reply, r')
  item_step (deletes id) r =
      let (failure, r') = handle_delete S maps id r in (failure_of failure, r')

  unfoldable pub todo_step : Request → TodoRepo → Reply × TodoRepo
  todo_step (creates now input) r =
      let (reply, r') = Todos.handle_create S maps now (create_input input) r in
      (reply_of (λ t. t) reply, r')
  todo_step (gets id) r = (reply_of (λ t. t) (Todos.handle_get S maps id r), r)
  todo_step (lists input) r =
      (page_reply (λ t. t) (Todos.handle_list S maps (list_input input) r), r)
  todo_step (updates now input) r =
      let (reply, r') = Todos.handle_update S maps now (update_input input) r in
      (reply_of (λ t. t) reply, r')
  todo_step (deletes id) r =
      let (failure, r') = Todos.handle_delete S maps id r in (failure_of failure, r')

  abbrev pub kept : Reply × ItemRepo → Reply × TodoRepo
  kept (reply, r) = (reply, repo_of r)

  refusal-to_app_error :
      (e : Error)
      → refusal (to_app_error S maps e) ≡ refusal (Todos.to_app_error S maps (todo_error e))
  unfolding to_app_error Todos.to_app_error new
  refusal-to_app_error e = elim (Bool-cases (is_error "item not found" e)) [
    | inl a ↦ rw a refl
    | inr a ↦ elim (Bool-cases (is_error "name must be 1-128 characters" e)) [
      | inl b ↦ rw (a, b) refl
      | inr b ↦ rw (a, b) refl
    ]
  ]

  reply-answer :
      (x : Result ItemResult)
      → reply_of proto_todo_of (answer S maps x)
        ≡ reply_of (λ t. t) (Todos.answer S maps (answered x))
  unfolding to_proto_item Todos.to_proto_todo
  reply-answer (ok it) = refl
  reply-answer (err e) = refusal-to_app_error e

  abbrev after_item : Result ItemResult × ItemRepo → Reply × TodoRepo
  after_item (x, r) = (reply_of proto_todo_of (answer S maps x), repo_of r)

  abbrev after_todo : Result TodoResult × TodoRepo → Reply × TodoRepo
  after_todo (x, r) = (reply_of (λ t. t) (Todos.answer S maps x), r)

  after-changed : (x : Result ItemResult × ItemRepo) → after_item x ≡ after_todo (changed x)
  after-changed (x, r) = ap (λ (q : Reply). (q, repo_of r)) (reply-answer x)

  abbrev after_failure : Option Error × TodoRepo → Reply × TodoRepo
  after_failure (e, r) = (failure_of (Todos.answer_failure S maps e), r)

  failed-deleted :
      (x : Option Error × ItemRepo)
      → kept (failure_of (answer_failure S maps x.0), x.1) ≡ after_failure (deleted x)
  failed-deleted (none, r) = refl
  failed-deleted (some e, r) = ap (λ (q : Reply). (q, repo_of r)) (refusal-to_app_error e)

  abbrev item_page : Option ListItemsResult → Reply
  item_page none = panicked
  item_page (some l) = many (record {
    todos = map proto_todo_of (map to_proto_item l.items);
    page = l.page;
    page_size = l.page_size;
    total = l.total;
  })

  abbrev todo_page : Option ListTodosResult → Reply
  todo_page none = panicked
  todo_page (some l) = many (record {
    todos = map Todos.to_proto_todo l.todos;
    page = l.page;
    page_size = l.page_size;
    total = l.total;
  })

  map-proto_todo_of :
      (xs : List ItemResult)
      → map proto_todo_of (map to_proto_item xs) ≡ map Todos.to_proto_todo (map todo_result_of xs)
  unfolding to_proto_item Todos.to_proto_todo
  map-proto_todo_of [] = refl
  map-proto_todo_of (x ∷ xs) =
      ap (λ rest. proto_todo_of (to_proto_item x) ∷ rest) (map-proto_todo_of xs)

  page-listed : (o : Option ListItemsResult) → item_page o ≡ todo_page (mapped listed o)
  page-listed none = refl
  page-listed (some l) =
      ap
        (λ ts.
          many (record { todos = ts; page = l.page; page_size = l.page_size; total = l.total }))
        (map-proto_todo_of l.items)

  item_page-handle_list :
      (input : ListItemsInput) (r : ItemRepo)
      → page_reply response_of (handle_list S maps input r) ≡ item_page (list_items input r)
  unfolding handle_list
  item_page-handle_list input r = elim (Option-cases (list_items input r)) [
    | inl e ↦ rw (e, handle_list) refl
    | inr (l, e) ↦ rw (e, handle_list) refl
  ]

  todo_page-handle_list :
      (input : ListTodosInput) (r : TodoRepo)
      → page_reply (λ t. t) (Todos.handle_list S maps input r) ≡ todo_page (list_todos input r)
  unfolding Todos.handle_list
  todo_page-handle_list input r = elim (Option-cases (list_todos input r)) [
    | inl e ↦ rw (e, Todos.handle_list) refl
    | inr (l, e) ↦ rw (e, Todos.handle_list) refl
  ]

  pub step-repo_of : (q : Request) (r : ItemRepo) → kept (item_step q r) ≡ todo_step q (repo_of r)
  unfolding item_step todo_step handle_create Todos.handle_create handle_get Todos.handle_get
      handle_update Todos.handle_update handle_delete Todos.handle_delete
  step-repo_of (creates now input) r =
      after-changed (create_item now input r) ∙ ap after_todo (create_item-repo_of now input r)
  step-repo_of (gets id) r =
      ap (λ (q : Reply). (q, repo_of r))
        (reply-answer (get_item id r)
          ∙ ap (λ x. reply_of (λ t. t) (Todos.answer S maps x)) (get_item-repo_of id r))
  step-repo_of (lists input) r =
      ap (λ (q : Reply). (q, repo_of r))
        (item_page-handle_list input r
          ∙ page-listed (list_items input r)
          ∙ ap todo_page (sym (list_items-repo_of input r))
          ∙ sym (todo_page-handle_list (list_input input) (repo_of r)))
  step-repo_of (updates now input) r =
      after-changed (update_item now input r) ∙ ap after_todo (update_item-repo_of now input r)
  step-repo_of (deletes id) r =
      failed-deleted (delete_item id r) ∙ ap after_failure (delete_item-repo_of id r)
