-- ===== src/Items/Tests.antt =====
-- A generated service at concrete requests.
use service_forge.Prelude.{List, [], ◌∷◌, ◌≡◌}
use service_forge.Prelude.Int.{pos}
use service_forge.Errors.{default_maps}
use service_forge.Errors.Sample.{plain_status}
use service_forge.Items.{new_item_repo}
use service_forge.Items.Mirrored.{repo_of}
use service_forge.Items.Answered.{Request, creates, gets, lists, updates, deletes}
use service_forge.Items.Serves.{serve_items, serve_todos, kept_all, serve_items-eq-serve_todos}

abbrev requests : List Request
requests =
    creates 5 (record { name = "third"; description = "" })
    ∷ updates 6 (record { id = "1"; name = ""; description = "seen" })
    ∷ deletes "2"
    ∷ gets "2"
    ∷ lists (record { page = pos 1; page_size = pos 0 })
    ∷ []

serve_items-eq-serve_todos_example :
    kept_all plain_status default_maps
      (serve_items plain_status default_maps requests (new_item_repo 1))
    ≡ serve_todos plain_status default_maps requests (repo_of (new_item_repo 1))
serve_items-eq-serve_todos_example =
    serve_items-eq-serve_todos plain_status default_maps requests (new_item_repo 1)
