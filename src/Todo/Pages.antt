-- ===== src/Todo/Pages.antt =====
-- The pages of the todo list (templates/generator.go, `List` of exampleRepo and `ListTodos` of
-- exampleService).
use service_forge.Prelude.{
  ℕ, zero, suc, ◌+◌, ◌-◌, ◌*◌, ◌%◌, ◌^◌, ◌≤◌, ◌<◌, ◌≡◌, refl, sym, ap, ◌∙◌, inl, inr, Bool, Option,
  none, some, List, [], ◌∷◌, ◌++◌, map, length, take, drop, length-drop, take_none, take_all,
  take_add, arith, leb, Bool-cases,
}
use service_forge.Prelude.Int.{pos, negsuc, wrap32, wrap64_small, ◌+ℤ◌, min_int}
use service_forge.Todo.{Todo, TodoRepo, matching, sort_by_id, slice, page_of, list}
use service_forge.Todo.Service.{
  TodoResult, ListTodosResult, to_todo_result, normalize_page, offset_of, list_page, list_todos,
}

drop_past : {A : Type 0} (o : ℕ) (xs : List A) → length xs ≤ o → drop o xs ≡ []
drop_past zero [] h = refl
drop_past zero (x ∷ xs) h = absurd (omega arith)
drop_past (suc o) [] h = refl
drop_past (suc o) (x ∷ xs) h = drop_past o xs (omega arith)

-- A slice with bounds in the list's range, cut at the list's end.
slice_lem :
    (o l : ℕ) (xs : List Todo)
    → o < length xs
    → slice (pos o) (min_int (pos (o + l)) (pos (length xs))) xs ≡ some (take l (drop o xs))
unfolding slice
slice_lem o l xs h = elim (Bool-cases (leb (o + l) (length xs))) [
  | inl q ↦ let e : o + l - o ≡ l = omega arith in ground (arith, ap (λ k. take k (drop o xs)) e)
  | inr q ↦
      let e = length-drop o xs in
      let all = take_all (length xs - o) (drop o xs) (omega arith) in
      let all' = take_all l (drop o xs) (ground arith) in ground arith
]

-- A page at an offset that is not negative is that part of the list.
pub page_of_lem :
    (o l : ℕ) (xs : List Todo)
    → length xs + l < 2 ^ 63
    → page_of (pos o) (pos l) xs ≡ some (take l (drop o xs))
unfolding page_of ◌+ℤ◌
page_of_lem o l xs h = elim (Bool-cases (leb (length xs) o)) [
  | inl q ↦ rw (q, drop_past o xs (ground arith)) (ap some (sym (take_none l)))
  | inr q ↦ rw (q, wrap64_small (o + l) (ground arith)) (slice_lem o l xs (ground arith))
]

-- The rows that the list has, in the order of the list.
abbrev pub rows : Bool → TodoRepo → List Todo
rows only_pending r = sort_by_id (matching only_pending r.todos)

unfoldable pub page_at : ℕ → ℕ → List Todo → List Todo
page_at page size xs = take size (drop (page * size) xs)

-- Page numbers count from 0 here.
page_at-suc :
    (n size : ℕ) (xs : List Todo) → take (n * size) xs ++ page_at n size xs ≡ take (suc n * size) xs
unfolding page_at
page_at-suc n size xs =
    let e : suc n * size ≡ n * size + size = omega arith in
    sym (take_add (n * size) size xs) ∙ ap (λ k. take k xs) (sym e)

-- What `ListTodos` answers where the offset fits in an int32.
unfoldable pub listing : ℕ → ℕ → List Todo → ListTodosResult
listing n size xs = record {
  todos = map to_todo_result (page_at n size xs);
  page = suc n;
  page_size = size;
  total = length xs;
}

offset_of-fits : (n size : ℕ) → n * size < 2 ^ 31 → offset_of (suc n) size ≡ pos (n * size)
unfolding offset_of wrap32
offset_of-fits n size h =
    let e : suc n - 1 ≡ n = omega arith in
    let m : (n * size) % 2 ^ 32 ≡ n * size = ground arith in rw (e, m) (ground arith)

offset_of-wraps :
    (n size : ℕ)
    → 2 ^ 31 ≤ (n * size) % 2 ^ 32
    → offset_of (suc n) size ≡ negsuc (2 ^ 32 - 1 - (n * size) % 2 ^ 32)
unfolding offset_of wrap32
offset_of-wraps n size h = let e : suc n - 1 ≡ n = omega arith in rw (e) (ground arith)

-- A page whose offset fits in an int32 is that part of the rows.
pub list_page_lem :
    (only : Bool) (n size : ℕ) (r : TodoRepo)
    → n * size < 2 ^ 31
    → length (rows only r) + size < 2 ^ 63
    → list_page only (suc n) size r ≡ some (listing n size (rows only r))
unfolding listing page_at list_page list sort_by_id matching
list_page_lem only n size r fits room =
    let page = page_of_lem (n * size) size (rows only r) room in
    rw (list_page, offset_of-fits n size fits, list, page) refl

-- An offset that wraps to a negative int32 panics.
pub list_page_panics :
    (only : Bool) (n size : ℕ) (r : TodoRepo)
    → 2 ^ 31 ≤ (n * size) % 2 ^ 32
    → list_page only (suc n) size r ≡ none
unfolding page_of slice list_page list
list_page_panics only n size r h = rw (list_page, offset_of-wraps n size h, list) refl

normalize_page-valid :
    (n k : ℕ) → suc k ≤ 100 → normalize_page (pos (suc n)) (pos (suc k)) ≡ (suc n, suc k)
unfolding normalize_page
normalize_page-valid n k h = ground arith

list_todos_lem :
    (only : Bool) (n k : ℕ) (r : TodoRepo)
    → suc k ≤ 100
    → list_todos (record { only_pending = only; page = pos (suc n); page_size = pos (suc k) }) r
      ≡ list_page only (suc n) (suc k) r
unfolding list_todos
list_todos_lem only n k r h =
    ap (λ (x : ℕ × ℕ). list_page only x.0 x.1 r) (normalize_page-valid n k h)

-- What a client collects that asks for the pages 1 to n.
abbrev pub todos_of : Option ListTodosResult → List TodoResult
todos_of none = []
todos_of (some result) = result.todos

unfoldable pub collect : Bool → ℕ → ℕ → TodoRepo → List TodoResult
collect only zero size r = []
collect only (suc n) size r =
    collect only n size r
    ++ todos_of
        (list_todos (record { only_pending = only; page = pos (suc n); page_size = pos size }) r)

map-append : {A B : Type 0} (f : A → B) (xs ys : List A) → map f (xs ++ ys) ≡ map f xs ++ map f ys
map-append f [] ys = refl
map-append f (x ∷ xs) ys = ap (λ l. f x ∷ l) (map-append f xs ys)

-- The pages 1 to n, of a size from 1 to 100, put together are the first rows of the whole list, each
-- once and in order, as long as their offsets fit in an int32 and the rows and one page
-- are fewer than 2^63.
pub collect_lem :
    (only : Bool) (n k : ℕ) (r : TodoRepo)
    → suc k ≤ 100
    → n * suc k ≤ 2 ^ 31
    → length (rows only r) + suc k < 2 ^ 63
    → collect only n (suc k) r ≡ map to_todo_result (take (n * suc k) (rows only r))
unfolding collect listing
collect_lem only zero k r size fits room = ground arith
collect_lem only (suc n) k r size fits room =
    let xs = rows only r in
    let before = collect_lem only n k r size (omega arith) room in
    let page = list_page_lem only n (suc k) r (omega arith) room in
    let joined = map-append to_todo_result (take (n * suc k) xs) (page_at n (suc k) xs) in
    rw (before, list_todos_lem only n k r size, page)
      (sym joined ∙ ap (map to_todo_result) (page_at-suc n (suc k) xs))

-- A page of a size from 1 to 100 whose offset is at least 2^31 and below 2^32 is not answered: the
-- slice's bound is negative, and the handler panics.
pub list_todos_panics :
    (only : Bool) (n k : ℕ) (r : TodoRepo)
    → suc k ≤ 100
    → 2 ^ 31 ≤ n * suc k
    → n * suc k < 2 ^ 32
    → list_todos (record { only_pending = only; page = pos (suc n); page_size = pos (suc k) }) r
      ≡ none
list_todos_panics only n k r size h h' =
    list_todos_lem only n k r size ∙ list_page_panics only n (suc k) r (ground arith)
