-- ===== src/Todo/Abstract.antt =====
-- What the store of the generated service promises: a map from ids to todos that no id of which is
-- handed out twice (templates/generator.go, exampleRepo).
use service_forge.Prelude.{
  ℕ, ◌≡◌, String, Option, none, some, List, [], ◌∷◌, lookup, str_eq, if◌then◌else◌,
}
use service_forge.Errors.{Error}
use service_forge.Errors.Result.{Result, ok, err}
use service_forge.Todo.{Todo, TodoRepo, todo_not_found, create, find_by_id, update, delete_by_id}

-- The store as its clients see it.
abbrev pub View : Type 0
View = String → Option Todo

abbrev pub put : String → Todo → View → View
put key t v = λ j. if str_eq key j then some t else v j

abbrev pub remove : String → View → View
remove key v = λ j. if str_eq key j then none else v j

pub data Command : Type 0 where
  creates : ℕ → Todo → Command
  finds : String → Command
  updates : ℕ → Todo → Command
  deletes : String → Command

pub data Reply : Type 0 where
  todo : Result Todo → Reply
  deleted : Option Error → Reply

-- A new todo, as it is stored under an id.
abbrev pub stamped : String → ℕ → Todo → Todo
stamped key now t = record t { id = key; created_at = now; updated_at = now }

-- A stored todo with the fields of another that may change.
abbrev pub overwritten : ℕ → Todo → Todo → Todo
overwritten now t existing = record existing {
  title = t.title;
  content = t.content;
  done = t.done;
  updated_at = now;
}

-- What one command may do to the map: `Step before command reply after`.
pub data Step : View → Command → Reply → View → Type 0 where
  created :
      {v : View} (key : String) (now : ℕ) (t : Todo)
      → v key ≡ none
      → Step v (creates now t) (todo (ok (stamped key now t))) (put key (stamped key now t) v)
  found : {v : View} (key : String) (t : Todo) → v key ≡ some t → Step v (finds key) (todo (ok t)) v
  not_found :
      {v : View} (key : String) → v key ≡ none → Step v (finds key) (todo (err todo_not_found)) v
  updated :
      {v : View} (now : ℕ) (t existing : Todo)
      → v t.id ≡ some existing
      → Step v
          (updates now t)
          (todo (ok (overwritten now t existing)))
          (put t.id (overwritten now t existing) v)
  not_updated :
      {v : View} (now : ℕ) (t : Todo)
      → v t.id ≡ none
      → Step v (updates now t) (todo (err todo_not_found)) v
  removed :
      {v : View} (key : String) (t : Todo)
      → v key ≡ some t
      → Step v (deletes key) (deleted none) (remove key v)
  not_removed :
      {v : View} (key : String)
      → v key ≡ none
      → Step v (deletes key) (deleted (some todo_not_found)) v

-- A run of commands, and its replies.
pub data Steps : View → List Command → List Reply → View → Type 0 where
  done : {v : View} → Steps v [] [] v
  next :
      {v w u : View} (c : Command) (a : Reply) (cs : List Command) (replies : List Reply)
      → Step v c a w
      → Steps w cs replies u
      → Steps v (c ∷ cs) (a ∷ replies) u

-- The code's answer to a command.
unfoldable pub perform : Command → TodoRepo → Reply × TodoRepo
unfolding create update delete_by_id
perform (creates now t) r = let (reply, r') = create now t r in (todo reply, r')
perform (finds key) r = (todo (find_by_id key r), r)
perform (updates now t) r = let (reply, r') = update now t r in (todo reply, r')
perform (deletes key) r = let (e, r') = delete_by_id key r in (deleted e, r')

unfoldable pub perform_all : List Command → TodoRepo → List Reply × TodoRepo
unfolding perform
perform_all [] r = ([], r)
perform_all (c ∷ cs) r =
    let (reply, r') = perform c r in
    let (replies, r'') = perform_all cs r' in (reply ∷ replies, r'')

abbrev pub view : TodoRepo → View
view r = λ key. lookup key r.todos
