-- ===== src/Items.antt =====
-- The store of a generated service (templates/generator.go, the templates addServiceModelItem,
-- addServiceModelErrors and addServiceRepo). Each method runs under the store's lock, so it is one step.
-- A time is a number of nanoseconds since 1970, and what `time.Now` answers is an argument.
pub mod Service
pub mod Handler
pub mod Mirrored
pub mod Paged
pub mod Serviced
pub mod Listed
pub mod Answered
pub mod Serves
mod Tests
use Prim.Native.Nat.{Ordering}
use Prim.Native.String.{compare}
use service_forge.Prelude.{
  ℕ, ◌-◌, String, Bool, true, false, ◌&&◌, Option, none, some, List, [], ◌∷◌, Table, lookup, insert,
  delete, length, take, drop, leb, if◌then◌else◌,
}
use service_forge.Prelude.Int.{ℤ, pos, negsuc, wrap64, ◌+ℤ◌, min_int}
use service_forge.Prelude.Decimal.{format_int}
use service_forge.Errors.{Error, plain}
use service_forge.Errors.Result.{Result, ok, err}

pub record Item : Type 0 where
  pub id : String
  pub name : String
  pub description : String
  pub created_at : ℕ
  pub updated_at : ℕ

abbrev pub item_not_found : Error
item_not_found = plain "item not found"

abbrev pub invalid_name : Error
invalid_name = plain "name must be 1-128 characters"

-- `seq` is an int64.
pub record ItemRepo : Type 0 where
  pub seq : ℤ
  pub items : Table Item

unfoldable pub next_id : ItemRepo → String × ItemRepo
unfolding wrap64 ◌+ℤ◌
next_id r = let seq = wrap64 (r.seq +ℤ pos 1) in (format_int seq, record r { seq = seq })

-- Stores an item under the next id, with that id and the times set.
unfoldable pub store_new : ℕ → Item → ItemRepo → Item × ItemRepo
unfolding next_id
store_new now it r =
    let (key, r') = next_id r in
    let created : Item = record it { id = key; created_at = now; updated_at = now } in
    (created, record r' { items = insert key created r'.items })

abbrev pub new_item : String → String → Item
new_item name description = record {
  id = "";
  name = name;
  description = description;
  created_at = 0;
  updated_at = 0;
}

-- `seed`, and `NewItemRepo`
unfoldable pub new_item_repo : ℕ → ItemRepo
unfolding store_new
new_item_repo now =
    let (first, r) =
      store_new now (new_item "first item" "seeded sample data")
        (record { seq = pos 0; items = [] }) in
    (store_new now (new_item "second item" "edit or delete me") r).1

-- The error is always nil; the item is what the caller's pointer holds afterwards.
unfoldable pub create : ℕ → Item → ItemRepo → Result Item × ItemRepo
unfolding store_new
create now it r = let (created, r') = store_new now it r in (ok created, r')

unfoldable pub find_by_id : String → ItemRepo → Result Item
find_by_id id r = elim (lookup id r.items) [ none ↦ err item_not_found | some it ↦ ok it ]

-- the first loop of `List`
unfoldable pub all_items : Table Item → List Item
all_items [] = []
all_items ((id, it) ∷ rest) = it ∷ all_items rest

unfoldable pub insert_by_id : Item → List Item → List Item
insert_by_id it [] = it ∷ []
insert_by_id it (u ∷ us) =
    let rest = insert_by_id it us in
    elim (compare it.id u.id) [ Ordering.lt ↦ u ∷ rest | _ ↦ it ∷ u ∷ us ]

-- `sort.Slice` by `ID >`; the ids are different, so there is one result.
unfoldable pub sort_by_id : List Item → List Item
unfolding insert_by_id
sort_by_id [] = []
sort_by_id (it ∷ its) = insert_by_id it (sort_by_id its)

-- `xs[low:high]`, where none is a panic
unfoldable pub slice : ℤ → ℤ → List Item → Option (List Item)
slice (pos low) (pos high) xs =
    if leb low high && leb high (length xs) then some (take (high - low) (drop low xs)) else none
slice (pos low) (negsuc high) xs = none
slice (negsuc low) high xs = none

-- `List` behind the sort: a page, where none is a panic.
unfoldable pub page_of : ℤ → ℤ → List Item → Option (List Item)
unfolding slice ◌+ℤ◌ wrap64
page_of (pos offset) limit xs =
    if leb (length xs) offset
    then some []
    else slice (pos offset) (min_int (wrap64 (pos offset +ℤ limit)) (pos (length xs))) xs
page_of (negsuc offset) limit xs =
    slice (negsuc offset) (min_int (wrap64 (negsuc offset +ℤ limit)) (pos (length xs))) xs

abbrev pub with_total : ℕ → Option (List Item) → Option (List Item × ℕ)
with_total total none = none
with_total total (some page) = some (page, total)

-- `List`: the page and the total, where none is a panic; the error is always nil.
unfoldable pub list : ℤ → ℤ → ItemRepo → Option (List Item × ℕ)
unfolding all_items sort_by_id page_of
list offset limit r =
    let matched = sort_by_id (all_items r.items) in
    with_total (length matched) (page_of offset limit matched)

unfoldable pub update : ℕ → Item → ItemRepo → Result Item × ItemRepo
update now it r = elim (lookup it.id r.items) [
  | none ↦ (err item_not_found, r)
  | some existing ↦
      let updated : Item = record existing {
        name = it.name;
        description = it.description;
        updated_at = now;
      } in
      (ok updated, record r { items = insert updated.id updated r.items })
]

-- The error of `Delete`, if any.
unfoldable pub delete_by_id : String → ItemRepo → Option Error × ItemRepo
delete_by_id id r = elim (lookup id r.items) [
  | none ↦ (some item_not_found, r)
  | some existing ↦ (none, record r { items = delete id r.items })
]
