-- ===== src/Items/Paged.antt =====
-- The pages of items beside those of todos (templates/generator.go: `List` of addServiceRepo and of
-- exampleRepo).
use service_forge.Prelude.{
  ℕ, zero, suc, ◌-◌, false, ◌&&◌, Option, none, some, List, [], ◌∷◌, Table, map, length, take, drop,
  leb, ◌≡◌, refl, ap, ◌∙◌, inl, inr, arith, Bool-cases,
}
use service_forge.Prelude.Int.{ℤ, pos, negsuc, wrap64, ◌+ℤ◌, min_int}
use service_forge.Todo.{Todo, TodoRepo}
use service_forge.Todo
use service_forge.Items.{
  Item, ItemRepo, all_items, insert_by_id, sort_by_id, slice, page_of, with_total, list,
}
use service_forge.Items.Mirrored.{todo_of, todos_of, repo_of, mapped}

length-map : {A B : Type 0} (f : A → B) (xs : List A) → length (map f xs) ≡ length xs
length-map f [] = refl
length-map f (x ∷ xs) = ap suc (length-map f xs)

take-map : {A B : Type 0} (f : A → B) (n : ℕ) (xs : List A) → take n (map f xs) ≡ map f (take n xs)
take-map f zero xs = refl
take-map f (suc n) [] = refl
take-map f (suc n) (x ∷ xs) = ap (λ r. f x ∷ r) (take-map f n xs)

drop-map : {A B : Type 0} (f : A → B) (n : ℕ) (xs : List A) → drop n (map f xs) ≡ map f (drop n xs)
drop-map f zero xs = refl
drop-map f (suc n) [] = refl
drop-map f (suc n) (x ∷ xs) = drop-map f n xs

matching-todos_of :
    (items : Table Item) → Todo.matching false (todos_of items) ≡ map todo_of (all_items items)
unfolding Todo.matching all_items
matching-todos_of [] = refl
matching-todos_of ((id, it) ∷ rest) = ap (λ r. todo_of it ∷ r) (matching-todos_of rest)

insert_by_id-map :
    (it : Item) (us : List Item)
    → Todo.insert_by_id (todo_of it) (map todo_of us) ≡ map todo_of (insert_by_id it us)
unfolding Todo.insert_by_id insert_by_id
insert_by_id-map it [] = refl
insert_by_id-map it (u ∷ us) = ground (arith, insert_by_id-map it us)

sort_by_id-map : (us : List Item) → Todo.sort_by_id (map todo_of us) ≡ map todo_of (sort_by_id us)
unfolding Todo.sort_by_id sort_by_id
sort_by_id-map [] = refl
sort_by_id-map (u ∷ us) =
    ap (Todo.insert_by_id (todo_of u)) (sort_by_id-map us) ∙ insert_by_id-map u (sort_by_id us)

slice-map :
    (low high : ℤ) (xs : List Item)
    → Todo.slice low high (map todo_of xs) ≡ mapped (map todo_of) (slice low high xs)
unfolding Todo.slice slice
slice-map (pos low) (pos high) xs = elim (Bool-cases (leb low high && leb high (length xs))) [
  | inl e ↦
      rw (length-map todo_of xs, e)
        (ap some (
          ap (take (high - low)) (drop-map todo_of low xs)
          ∙ take-map todo_of (high - low) (drop low xs)))
  | inr e ↦ rw (length-map todo_of xs, e) refl
]
slice-map (pos low) (negsuc high) xs = refl
slice-map (negsuc low) high xs = refl

page_of-map :
    (offset limit : ℤ) (xs : List Item)
    → Todo.page_of offset limit (map todo_of xs) ≡ mapped (map todo_of) (page_of offset limit xs)
unfolding Todo.page_of page_of
page_of-map (pos offset) limit xs = elim (Bool-cases (leb (length xs) offset)) [
  | inl e ↦ rw (length-map todo_of xs, e) refl
  | inr e ↦
      rw (length-map todo_of xs, e)
        (slice-map (pos offset) (min_int (wrap64 (pos offset +ℤ limit)) (pos (length xs))) xs)
]
page_of-map (negsuc offset) limit xs = refl

abbrev pub todo_page : List Item × ℕ → List Todo × ℕ
todo_page (page, total) = (map todo_of page, total)

with_total-map :
    (total : ℕ) (o : Option (List Item))
    → Todo.with_total total (mapped (map todo_of) o) ≡ mapped todo_page (with_total total o)
with_total-map total none = refl
with_total-map total (some page) = refl

paged :
    (offset limit : ℤ) (xs : List Item)
    → Todo.with_total (length (map todo_of xs)) (Todo.page_of offset limit (map todo_of xs))
      ≡ mapped todo_page (with_total (length xs) (page_of offset limit xs))
paged offset limit xs =
    ap (λ n. Todo.with_total n (Todo.page_of offset limit (map todo_of xs))) (length-map todo_of xs)
    ∙ ap (Todo.with_total (length xs)) (page_of-map offset limit xs)
    ∙ with_total-map (length xs) (page_of offset limit xs)

-- A page of items is the page of the todos that they mirror.
pub list-repo_of :
    (offset limit : ℤ) (r : ItemRepo)
    → Todo.list false offset limit (repo_of r) ≡ mapped todo_page (list offset limit r)
unfolding Todo.list list
list-repo_of offset limit r =
    let sorted =
      ap Todo.sort_by_id (matching-todos_of r.items) ∙ sort_by_id-map (all_items r.items) in
    ap (λ (s : List Todo). Todo.with_total (length s) (Todo.page_of offset limit s)) sorted
    ∙ paged offset limit (sort_by_id (all_items r.items))
