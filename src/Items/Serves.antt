-- ===== src/Items/Serves.antt =====
-- A generated service beside the generated example service (templates/generator.go: addServiceHandler
-- beside exampleHandler).
use service_forge.Prelude.{List, [], ◌∷◌, ◌≡◌, refl, ap, ◌∙◌}
use service_forge.Errors.{CodeMaps}
use service_forge.Errors.Status.{GrpcStatus}
use service_forge.Todo.{TodoRepo}
use service_forge.Items.{ItemRepo}
use service_forge.Items.Mirrored.{repo_of}
use service_forge.Items.Answered.{Request, Reply, item_step, todo_step, step-repo_of}

module _ (S : GrpcStatus) (maps : CodeMaps) where
  -- The replies to a sequence of requests, and the store at the end.
  unfoldable pub serve_items : List Request → ItemRepo → List Reply × ItemRepo
  serve_items [] r = ([], r)
  serve_items (q ∷ qs) r =
      let (reply, r') = item_step S maps q r in
      let (replies, end) = serve_items qs r' in (reply ∷ replies, end)

  unfoldable pub serve_todos : List Request → TodoRepo → List Reply × TodoRepo
  serve_todos [] r = ([], r)
  serve_todos (q ∷ qs) r =
      let (reply, r') = todo_step S maps q r in
      let (replies, end) = serve_todos qs r' in (reply ∷ replies, end)

  abbrev pub kept_all : List Reply × ItemRepo → List Reply × TodoRepo
  kept_all (replies, r) = (replies, repo_of r)

  abbrev then_serve : List Request → Reply × TodoRepo → List Reply × TodoRepo
  then_serve qs (reply, r) = let (replies, end) = serve_todos qs r in (reply ∷ replies, end)

  -- A generated service answers every sequence of requests, from any store, as the example service does
  -- whose todos are its items, with the name as the title, the description as the content and none of
  -- them done: the same messages, panics, and codes of refusals, and stores that agree at the end.
  pub serve_items-eq-serve_todos :
      (qs : List Request) (r : ItemRepo) → kept_all (serve_items qs r) ≡ serve_todos qs (repo_of r)
  unfolding serve_items serve_todos
  serve_items-eq-serve_todos [] r = refl
  serve_items-eq-serve_todos (q ∷ qs) r =
      let (reply, r') = item_step S maps q r in
      ap (λ (p : List Reply × TodoRepo). (reply ∷ p.0, p.1)) (serve_items-eq-serve_todos qs r')
      ∙ ap (then_serve qs) (step-repo_of S maps q r)
