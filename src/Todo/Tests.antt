-- ===== src/Todo/Tests.antt =====
-- The example service at concrete inputs.
use service_forge.Prelude.{
  ◌≡◌, refl, true, false, none, some, List, [], ◌∷◌, map, length, take, lookup, insert, arith,
}
use service_forge.Prelude.Int.{pos, wrap64, ◌+ℤ◌}
use service_forge.Prelude.Text.{digits, decimal}
use service_forge.Prelude.Decimal.{format_int}
use service_forge.Errors.{http_status_of}
use service_forge.Errors.Result.{ok}
use service_forge.Errors.Sample.{plain_status}
use service_forge.Errors.{default_maps}
use service_forge.Todo.{
  Todo, TodoRepo, fixture, new_todo_repo, store_all, store_new, next_id, next_seq, matching,
  sort_by_id, insert_by_id,
}
use service_forge.Todo.Service.{to_todo_result, list_todos}
use service_forge.Todo.Handler.{ProtoTodo, handle_create, handle_get, handle_update, handle_delete}
use service_forge.Todo.Abstract.{
  Command, creates, finds, updates, deletes, Steps, perform_all, view,
}
use service_forge.Todo.Refines.{store_refines}
use service_forge.Todo.Pages.{rows, collect, collect_lem, list_todos_panics}
use service_forge.Todo.Answers.{arrives, failure_of, missing, missing_todo, get-create}
use service_forge.Todo.Titles.{HasTitles, create_one, delete_one, serve_all, titles_valid}

abbrev seeded : TodoRepo
seeded = new_todo_repo 7

abbrev milk : Todo
milk = fixture "Buy milk" "two bottles" false

abbrev commands : List Command
commands = creates 9 milk ∷ finds "4" ∷ deletes "1" ∷ updates 10 milk ∷ []

store_refines_example :
    Steps
      (view seeded)
      commands
      (perform_all commands seeded).0
      (view (perform_all commands seeded).1)
store_refines_example = store_refines 7 commands (omega arith)

-- Ten todos: the ids are compared as texts, so "9" stands before "10".
abbrev ten : TodoRepo
ten = store_all 8 (milk ∷ milk ∷ milk ∷ milk ∷ milk ∷ milk ∷ milk ∷ []) seeded

order_of_ten :
    map (λ (t : Todo). t.id) (rows false ten)
    ≡ "9" ∷ "8" ∷ "7" ∷ "6" ∷ "5" ∷ "4" ∷ "3" ∷ "2" ∷ "10" ∷ "1" ∷ []
unfolding new_todo_repo store_all store_new next_id next_seq wrap64 ◌+ℤ◌ format_int digits decimal
    matching sort_by_id insert_by_id insert
order_of_ten = refl

length-rows_of_ten : length (rows false ten) ≡ 10
unfolding new_todo_repo store_all store_new next_id next_seq wrap64 ◌+ℤ◌ format_int digits decimal
    matching sort_by_id insert_by_id insert
length-rows_of_ten = refl

collect_lem_example : collect false 3 4 ten ≡ map to_todo_result (take 12 (rows false ten))
collect_lem_example =
    collect_lem false 3 3 ten (omega arith) (omega arith) (omega (arith, length-rows_of_ten))

list_todos_panics_example :
    list_todos (record { only_pending = true; page = pos 21_474_838; page_size = pos 100 }) seeded
    ≡ none
list_todos_panics_example =
    list_todos_panics true 21_474_837 99 seeded (omega arith) (omega arith) (omega arith)

titles_valid_example :
    HasTitles
      (serve_all (create_one 9 (record { title = ""; content = "x" }) ∷ delete_one "2" ∷ []) seeded)
titles_valid_example =
    titles_valid 7 (create_one 9 (record { title = ""; content = "x" }) ∷ delete_one "2" ∷ [])

missing_todo_example :
    (arrives plain_status (failure_of (handle_get plain_status default_maps "17" seeded))
      ≡ some (missing plain_status))
    × (arrives plain_status (
          failure_of
            (handle_update plain_status default_maps 9
              (record { id = "17"; title = ""; content = ""; done = true })
              seeded).0)
        ≡ some (missing plain_status))
    × (arrives plain_status (handle_delete plain_status default_maps "17" seeded).0
        ≡ some (missing plain_status))
    × ((handle_update plain_status default_maps 9
          (record { id = "17"; title = ""; content = ""; done = true })
          seeded).1
        ≡ seeded)
    × ((handle_delete plain_status default_maps "17" seeded).1 ≡ seeded)
    × (http_status_of (missing plain_status) ≡ 404)
unfolding new_todo_repo store_all store_new next_id next_seq wrap64 ◌+ℤ◌ format_int digits decimal
    lookup insert
missing_todo_example =
    missing_todo plain_status "17" 9 (record { id = "17"; title = ""; content = ""; done = true })
      seeded refl refl

get-create_example :
    (t : ProtoTodo) × ((handle_create plain_status default_maps 9
        (record { title = "Buy milk"; content = "" })
        seeded).0
      ≡ ok t)
    × (t.title ≡ "Buy milk")
    × (t.content ≡ "")
    × (handle_get plain_status default_maps t.id
          (handle_create plain_status default_maps 9
            (record { title = "Buy milk"; content = "" })
            seeded).1
        ≡ ok t)
get-create_example =
    get-create plain_status 9 (record { title = "Buy milk"; content = "" }) seeded (omega arith)
      (omega arith)
