-- ===== src/Todo.antt =====
-- The store of the generated example service (templates/generator.go, the templates exampleModelTodo,
-- exampleModelErrors and exampleRepo). Each method runs under the store's lock, so it is one step.
-- A time is a number of nanoseconds since 1970, and what `time.Now` answers is an argument.
pub mod Service
pub mod Handler
pub mod Ids
pub mod Abstract
pub mod Refines
pub mod Pages
pub mod Answers
pub mod Titles
mod Tests
use Prim.Native.Nat.{Ordering}
use Prim.Native.String.{compare}
use service_forge.Prelude.{
  ℕ, ◌-◌, String, Bool, true, false, ◌&&◌, Option, none, some, List, [], ◌∷◌, Table, lookup, insert,
  delete, length, take, drop, leb, if◌then◌else◌,
}
use service_forge.Prelude.Int.{ℤ, pos, negsuc, wrap64, ◌+ℤ◌, min_int}
use service_forge.Prelude.Decimal.{format_int}
use service_forge.Errors.{Error, plain}
use service_forge.Errors.Result.{Result, ok, err}

pub record Todo : Type 0 where
  pub id : String
  pub title : String
  pub content : String
  pub done : Bool
  pub created_at : ℕ
  pub updated_at : ℕ

abbrev pub todo_not_found : Error
todo_not_found = plain "todo not found"

abbrev pub invalid_title : Error
invalid_title = plain "title must be 1-128 characters"

-- `seq` is an int64.
pub record TodoRepo : Type 0 where
  pub seq : ℤ
  pub todos : Table Todo

-- The number behind the counter's, which `nextID` spells.
unfoldable pub next_seq : TodoRepo → ℤ
unfolding wrap64 ◌+ℤ◌
next_seq r = wrap64 (r.seq +ℤ pos 1)

unfoldable pub next_id : TodoRepo → String × TodoRepo
next_id r = (format_int (next_seq r), record r { seq = next_seq r })

-- Stores a todo under the next id, with that id and the times set.
unfoldable pub store_new : ℕ → Todo → TodoRepo → Todo × TodoRepo
unfolding next_id
store_new now t r =
    let (key, r') = next_id r in
    let created : Todo = record t { id = key; created_at = now; updated_at = now } in
    (created, record r' { todos = insert key created r'.todos })

abbrev pub fixture : String → String → Bool → Todo
fixture title content done = record {
  id = "";
  title = title;
  content = content;
  done = done;
  created_at = 0;
  updated_at = 0;
}

abbrev pub fixtures : List Todo
fixtures =
    fixture "Try service-forge" "Run the example-service end to end" true
    ∷ fixture "Read the docs" "Learn how ports and adapters fit together" false
    ∷ fixture "Build your own service" "Copy example-service and rename the resource" false
    ∷ []

-- the loop of `seed`
unfoldable pub store_all : ℕ → List Todo → TodoRepo → TodoRepo
unfolding store_new
store_all now [] r = r
store_all now (t ∷ ts) r = store_all now ts (store_new now t r).1

unfoldable pub new_todo_repo : ℕ → TodoRepo
unfolding store_all
new_todo_repo now = store_all now fixtures (record { seq = pos 0; todos = [] })

-- The error is always nil; the todo is what the caller's pointer holds afterwards.
unfoldable pub create : ℕ → Todo → TodoRepo → Result Todo × TodoRepo
unfolding store_new
create now t r = let (created, r') = store_new now t r in (ok created, r')

unfoldable pub find_by_id : String → TodoRepo → Result Todo
find_by_id id r = elim (lookup id r.todos) [ none ↦ err todo_not_found | some t ↦ ok t ]

-- the loop of `List`
unfoldable pub matching : Bool → Table Todo → List Todo
matching only_pending [] = []
matching only_pending ((id, t) ∷ rest) =
    let more = matching only_pending rest in if only_pending && t.done then more else t ∷ more

unfoldable pub insert_by_id : Todo → List Todo → List Todo
insert_by_id t [] = t ∷ []
insert_by_id t (u ∷ us) =
    let rest = insert_by_id t us in
    elim (compare t.id u.id) [ Ordering.lt ↦ u ∷ rest | _ ↦ t ∷ u ∷ us ]

-- `sort.Slice` by `ID >`; the ids are different, so there is one result.
unfoldable pub sort_by_id : List Todo → List Todo
unfolding insert_by_id
sort_by_id [] = []
sort_by_id (t ∷ ts) = insert_by_id t (sort_by_id ts)

-- `xs[low:high]`, where none is a panic
unfoldable pub slice : ℤ → ℤ → List Todo → Option (List Todo)
slice (pos low) (pos high) xs =
    if leb low high && leb high (length xs) then some (take (high - low) (drop low xs)) else none
slice (pos low) (negsuc high) xs = none
slice (negsuc low) high xs = none

-- `List` behind the sort: a page, where none is a panic.
unfoldable pub page_of : ℤ → ℤ → List Todo → Option (List Todo)
unfolding slice ◌+ℤ◌ wrap64
page_of (pos offset) limit xs =
    if leb (length xs) offset
    then some []
    else slice (pos offset) (min_int (wrap64 (pos offset +ℤ limit)) (pos (length xs))) xs
page_of (negsuc offset) limit xs =
    slice (negsuc offset) (min_int (wrap64 (negsuc offset +ℤ limit)) (pos (length xs))) xs

abbrev pub with_total : ℕ → Option (List Todo) → Option (List Todo × ℕ)
with_total total none = none
with_total total (some page) = some (page, total)

-- `List`: the page and the total, where none is a panic; the error is always nil.
unfoldable pub list : Bool → ℤ → ℤ → TodoRepo → Option (List Todo × ℕ)
unfolding matching sort_by_id page_of
list only_pending offset limit r =
    let matched = sort_by_id (matching only_pending r.todos) in
    with_total (length matched) (page_of offset limit matched)

unfoldable pub update : ℕ → Todo → TodoRepo → Result Todo × TodoRepo
update now t r = elim (lookup t.id r.todos) [
  | none ↦ (err todo_not_found, r)
  | some existing ↦
      let updated : Todo = record existing {
        title = t.title;
        content = t.content;
        done = t.done;
        updated_at = now;
      } in
      (ok updated, record r { todos = insert updated.id updated r.todos })
]

-- The error of `Delete`, if any.
unfoldable pub delete_by_id : String → TodoRepo → Option Error × TodoRepo
delete_by_id id r = elim (lookup id r.todos) [
  | none ↦ (some todo_not_found, r)
  | some existing ↦ (none, record r { todos = delete id r.todos })
]
