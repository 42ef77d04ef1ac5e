-- ===== src/Items/Listed.antt =====
-- The pages of the service of items beside those of the service of todos (templates/generator.go:
-- `ListItems` of addServiceService beside `ListTodos` of exampleService).
use service_forge.Prelude.{ℕ, false, Option, none, some, List, map, ◌≡◌, refl, sym, ap, ◌∙◌}
use service_forge.Prelude.Int.{pos}
use service_forge.Todo.{Todo}
use service_forge.Todo.Service.{
  TodoResult, CreateTodoInput, ListTodosInput, ListTodosResult, UpdateTodoInput,
}
use service_forge.Todo.Service as Todos
use service_forge.Items.{Item, ItemRepo, list}
use service_forge.Items.Service.{
  ListItemsInput, ListItemsResult, to_item_result, normalize_page, offset_of, list_page, list_items,
}
use service_forge.Items.Mirrored.{todo_of, repo_of, mapped}
use service_forge.Items.Paged.{todo_page, list-repo_of}
use service_forge.Items.Serviced.{todo_result_of}

abbrev pub list_input : ListItemsInput → ListTodosInput
list_input input = record { only_pending = false; page = input.page; page_size = input.page_size }

abbrev pub listed : ListItemsResult → ListTodosResult
listed result = record {
  todos = map todo_result_of result.items;
  page = result.page;
  page_size = result.page_size;
  total = result.total;
}

map-todo_result_of :
    (xs : List Item)
    → map todo_result_of (map to_item_result xs) ≡ map Todos.to_todo_result (map todo_of xs)
unfolding to_item_result Todos.to_todo_result
map-todo_result_of List.[] = refl
map-todo_result_of (List.◌∷◌ x xs) =
    ap (λ r. List.◌∷◌ (todo_result_of (to_item_result x)) r) (map-todo_result_of xs)

abbrev todo_results : ℕ → ℕ → Option (List Todo × ℕ) → Option ListTodosResult
todo_results page size none = none
todo_results page size (some (todos, total)) = some (record {
  todos = map Todos.to_todo_result todos;
  page = page;
  page_size = size;
  total = total;
})

abbrev item_results : ℕ → ℕ → Option (List Item × ℕ) → Option ListItemsResult
item_results page size none = none
item_results page size (some (items, total)) =
    some (record { items = map to_item_result items; page = page; page_size = size; total = total })

listed-todo_page :
    (page size : ℕ) (o : Option (List Item × ℕ))
    → todo_results page size (mapped todo_page o) ≡ mapped listed (item_results page size o)
listed-todo_page page size none = refl
listed-todo_page page size (some (items, total)) =
    ap (λ ts. some (record { todos = ts; page = page; page_size = size; total = total }))
      (sym (map-todo_result_of items))

list_page-repo_of :
    (page size : ℕ) (r : ItemRepo)
    → Todos.list_page false page size (repo_of r) ≡ mapped listed (list_page page size r)
unfolding list_page Todos.list_page offset_of Todos.offset_of
list_page-repo_of page size r =
    ap (todo_results page size) (list-repo_of (offset_of page size) (pos size) r)
    ∙ listed-todo_page page size (list (offset_of page size) (pos size) r)

pub list_items-repo_of :
    (input : ListItemsInput) (r : ItemRepo)
    → Todos.list_todos (list_input input) (repo_of r) ≡ mapped listed (list_items input r)
unfolding list_items Todos.list_todos normalize_page Todos.normalize_page
list_items-repo_of input r = list_page-repo_of _ _ r
