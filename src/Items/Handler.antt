-- ===== src/Items/Handler.antt =====
-- The gRPC handler of a generated service (templates/generator.go, the template addServiceHandler). A
-- protobuf message is the record of its fields; a timestamp is its seconds.
use service_forge.Prelude.{ℕ, String, Option, none, some, List, map, if◌then◌else◌}
use service_forge.Errors.{
  Error, app, CodeMaps, new, code_not_found, code_invalid_argument, code_internal,
}
use service_forge.Errors.Status.{GrpcStatus, error_text}
use service_forge.Errors.Result.{Result, ok, err}
use service_forge.Todo.Handler.{is_error}
use service_forge.Items.{ItemRepo}
use service_forge.Items.Service.{
  ItemResult, CreateItemInput, ListItemsInput, UpdateItemInput, create_item, get_item, list_items,
  update_item, delete_item,
}

-- The message of the generated package; its two timestamps are `timestamppb.New(time.Unix(s, 0))`.
pub record ProtoItem : Type 0 where
  pub id : String
  pub name : String
  pub description : String
  pub created_at : ℕ
  pub updated_at : ℕ

pub record ListItemsResponse : Type 0 where
  pub items : List ProtoItem
  pub page : ℕ
  pub page_size : ℕ
  pub total : ℕ

unfoldable pub to_proto_item : ItemResult → ProtoItem
to_proto_item it = record {
  id = it.id;
  name = it.name;
  description = it.description;
  created_at = it.created_at;
  updated_at = it.updated_at;
}

module _ (S : GrpcStatus) (maps : CodeMaps) where
  -- `toGRPCError`
  unfoldable pub to_app_error : Error → Error
  to_app_error e =
      if is_error "item not found" e
      then app (new maps code_not_found (error_text S e))
      else if is_error "name must be 1-128 characters" e
      then app (new maps code_invalid_argument (error_text S e))
      else app (new maps code_internal (error_text S e))

  abbrev pub answer : Result ItemResult → Result ProtoItem
  answer (ok it) = ok (to_proto_item it)
  answer (err e) = err (to_app_error e)

  unfoldable pub handle_create : ℕ → CreateItemInput → ItemRepo → Result ProtoItem × ItemRepo
  handle_create now req r = let (reply, r') = create_item now req r in (answer reply, r')

  unfoldable pub handle_get : String → ItemRepo → Result ProtoItem
  handle_get id r = answer (get_item id r)

  -- A none is a panic.
  unfoldable pub handle_list : ListItemsInput → ItemRepo → Option ListItemsResponse
  handle_list req r = elim (list_items req r) [
    | none ↦ none
    | some result ↦ some (record {
      items = map to_proto_item result.items;
      page = result.page;
      page_size = result.page_size;
      total = result.total;
    })
  ]

  unfoldable pub handle_update : ℕ → UpdateItemInput → ItemRepo → Result ProtoItem × ItemRepo
  handle_update now req r = let (reply, r') = update_item now req r in (answer reply, r')

  abbrev pub answer_failure : Option Error → Option Error
  answer_failure none = none
  answer_failure (some e) = some (to_app_error e)

  unfoldable pub handle_delete : String → ItemRepo → Option Error × ItemRepo
  handle_delete id r = let (failure, r') = delete_item id r in (answer_failure failure, r')
