-- ===== src/Items/Service.antt =====
-- The business logic of a generated service (templates/generator.go, the template addServiceService). A
-- none is a panic.
use Prim.Native.String.{len}
use service_forge.Prelude.{
  ℕ, ◌-◌, ◌*◌, ◌/◌, String, ◌||◌, Option, none, some, List, map, ltb, if◌then◌else◌,
}
use service_forge.Prelude.Int.{ℤ, pos, wrap32, positive_or}
use service_forge.Prelude.Text.{is_empty}
use service_forge.Errors.{Error}
use service_forge.Errors.Result.{Result, ok, err}
use service_forge.Items.{
  Item, ItemRepo, invalid_name, new_item, create, find_by_id, list, update, delete_by_id,
}

abbrev pub default_page_size : ℕ
default_page_size = 20

abbrev pub max_page_size : ℕ
max_page_size = 100

pub record ItemResult : Type 0 where
  pub id : String
  pub name : String
  pub description : String
  pub created_at : ℕ
  pub updated_at : ℕ

pub record CreateItemInput : Type 0 where
  pub name : String
  pub description : String

-- The two numbers are int32.
pub record ListItemsInput : Type 0 where
  pub page : ℤ
  pub page_size : ℤ

pub record ListItemsResult : Type 0 where
  pub items : List ItemResult
  pub page : ℕ
  pub page_size : ℕ
  pub total : ℕ

pub record UpdateItemInput : Type 0 where
  pub id : String
  pub name : String
  pub description : String

-- Times are after 1970.
unfoldable pub to_item_result : Item → ItemResult
to_item_result it = record {
  id = it.id;
  name = it.name;
  description = it.description;
  created_at = it.created_at / 1_000_000_000;
  updated_at = it.updated_at / 1_000_000_000;
}

abbrev pub result_of : Result Item → Result ItemResult
result_of (ok it) = ok (to_item_result it)
result_of (err e) = err e

-- `len` counts bytes.
unfoldable pub validate_name : String → Option Error
validate_name name = if ltb (len name) 1 || ltb 128 (len name) then some invalid_name else none

-- The page and the page size; both are at least 1 afterwards.
unfoldable pub normalize_page : ℤ → ℤ → ℕ × ℕ
normalize_page page size = (
  positive_or 1 page,
  (if ltb max_page_size (positive_or default_page_size size)
      then default_page_size
      else positive_or default_page_size size),
)

unfoldable pub create_item : ℕ → CreateItemInput → ItemRepo → Result ItemResult × ItemRepo
unfolding create
create_item now input r = elim (validate_name input.name) [
  | some e ↦ (err e, r)
  | none ↦
      let (created, r') = create now (new_item input.name input.description) r in
      (result_of created, r')
]

unfoldable pub get_item : String → ItemRepo → Result ItemResult
get_item id r = result_of (find_by_id id r)

-- `int((page - 1) * pageSize)`, the product being an int32
unfoldable pub offset_of : ℕ → ℕ → ℤ
offset_of page size = wrap32 ((page - 1) * size)

-- `ListItems` behind `normalizePage`
unfoldable pub list_page : ℕ → ℕ → ItemRepo → Option ListItemsResult
list_page page size r = elim (list (offset_of page size) (pos size) r) [
  | none ↦ none
  | some (items, total) ↦
      some
        (record { items = map to_item_result items; page = page; page_size = size; total = total })
]

unfoldable pub list_items : ListItemsInput → ItemRepo → Option ListItemsResult
unfolding normalize_page
list_items input r =
    let (page, size) = normalize_page input.page input.page_size in list_page page size r

-- The item with the input's name and description, where those are not empty, or a refusal.
unfoldable pub apply_input : UpdateItemInput → Item → Result Item
apply_input input it =
    let it' : Item = record it {
      name = if is_empty input.name then it.name else input.name;
      description = if is_empty input.description then it.description else input.description;
    } in
    if is_empty input.name
    then ok it'
    else elim (validate_name input.name) [ some e ↦ err e | none ↦ ok it' ]

unfoldable pub update_item : ℕ → UpdateItemInput → ItemRepo → Result ItemResult × ItemRepo
unfolding update
update_item now input r = elim (find_by_id input.id r) [
  | err e ↦ (err e, r)
  | ok it ↦ elim (apply_input input it) [
    | err e ↦ (err e, r)
    | ok it' ↦ let (updated, r') = update now it' r in (result_of updated, r')
  ]
]

unfoldable pub delete_item : String → ItemRepo → Option Error × ItemRepo
delete_item id r = delete_by_id id r
