-- ===== src/Util/DynArray/Remove.antt =====
-- Search and removal in the growing array.
use distributed_search_engin.Base.{
  ℕ, zero, suc, ◌+◌, ◌-◌, ◌^◌, ◌≤◌, ◌<◌, ◌≡◌, inl, inr, refl, sym, ap, ◌∙◌, Bool, true, false,
  Option, none, some, List, [], ◌∷◌, ◌++◌, Perm, ◌==◌, get_elem?, get_or, take, drop, length,
  length-append, fill-perm, Bool-cases, Option-cases, arith,
}
use distributed_search_engin.Util.DynArray.{
  DynArray, size, init, push, pop, scan, remove, remove_ordered, contains, contains_loop,
}

-- The size never passes the capacity, and the capacity is positive.
pub record IsValid (a : DynArray) : Type 0 where
  pub fits : size a ≤ a.capacity
  pub positive : 0 < a.capacity

pub init-IsValid : (n : ℕ) → IsValid (init n)
unfolding init
init-IsValid n = ground arith

-- While the capacity is below 2^63, so that doubling it does not wrap, `dynarray_push` keeps the
-- array well formed: the write is inside the capacity.
pub push-IsValid : (a : DynArray) (x : ℕ) → a.capacity < 2 ^ 63 → IsValid a → IsValid (push a x)
unfolding push
push-IsValid a x h v = ground (arith, length-append a.items (x ∷ []))

-- What the scan finds is the first occurrence.
scan-some :
    (xs : List ℕ) (x i : ℕ) {j : ℕ}
    → scan xs x i ≡ some j
    → (k : ℕ) × (j ≡ i + k) × (k < length xs) × (get_or xs k 0 ≡ x)
unfolding scan
scan-some [] x i e = cc
scan-some (y ∷ xs) x i {j} e = elim (Bool-cases (y == x)) [
  | inl here ↦ (0, ground arith, omega arith, ground arith)
  | inr there ↦
      let (k, at, inside, same) = scan-some xs x (i + 1) (rw there at e) in
      (suc k, omega arith, omega arith, same)
]

-- When `dynarray_remove` finds the item, the items left are, with that item, those that were there:
-- it removes one occurrence and nothing else.
pub remove-perm :
    (a : DynArray) (x : ℕ) → (remove a x).0 ≡ true → Perm (x ∷ (remove a x).1.items) a.items
unfolding remove
remove-perm a x e = elim (Option-cases (scan a.items x 0)) [
  | inl gone ↦ absurd (ground arith)
  | inr (i, found) ↦
      let (k, at, inside, same) = scan-some a.items x 0 found in
      let here : get_or a.items i 0 ≡ x = ap (λ j. get_or a.items j 0) (omega arith) ∙ same in
      rw (found, remove, ← here) (fill-perm (size a - 1) a.items i 0 (omega arith) (omega arith))
]

take-drop-cons :
    (xs : List ℕ) (i : ℕ) → i < length xs → take i xs ++ (get_or xs i 0 ∷ drop (suc i) xs) ≡ xs
take-drop-cons [] i h = absurd (omega arith)
take-drop-cons (y ∷ xs) zero h = refl
take-drop-cons (y ∷ xs) (suc i) h = ap (◌∷◌ y) (take-drop-cons xs i (omega arith))

-- When `dynarray_remove_ordered` finds the item, it takes out one occurrence and keeps the order of
-- all others.
pub remove_ordered-append :
    (a : DynArray) (x : ℕ)
    → (remove_ordered a x).0 ≡ true
    → (front back : List ℕ) × (a.items ≡ front ++ (x ∷ back))
      × ((remove_ordered a x).1.items ≡ front ++ back)
unfolding remove_ordered
remove_ordered-append a x e = elim (Option-cases (scan a.items x 0)) [
  | inl gone ↦ absurd (ground arith)
  | inr (i, found) ↦
      let (k, at, inside, same) = scan-some a.items x 0 found in
      let here : get_or a.items i 0 ≡ x = ap (λ j. get_or a.items j 0) (omega arith) ∙ same in
      (
        take i a.items,
        drop (suc i) a.items,
        rw (← here) (sym (take-drop-cons a.items i (omega arith))),
        ground arith,
      )
]

-- What `IsSome` says as a test.
abbrev found? : Option ℕ → Bool
found? none = false
found? (some i) = true

scan-contains : (xs : List ℕ) (x i : ℕ) → found? (scan xs x i) ≡ contains_loop xs x
unfolding contains_loop scan
scan-contains [] x i = refl
scan-contains (y ∷ xs) x i = ground (arith, scan-contains xs x (i + 1))

-- The three searches agree: both removals report success exactly when `dynarray_contains` does.
pub contains-remove :
    (a : DynArray) (x : ℕ)
    → ((remove a x).0 ≡ contains a x) × ((remove_ordered a x).0 ≡ contains a x)
unfolding remove remove_ordered contains
contains-remove a x = ground (arith, scan-contains a.items x 0)

last_of_append :
    (xs : List ℕ) (x : ℕ)
    → (get_elem? (xs ++ (x ∷ [])) (length xs) ≡ some x) × (take (length xs) (xs ++ (x ∷ [])) ≡ xs)
last_of_append [] x = (refl, refl)
last_of_append (y ∷ xs) x = let (at, front) = last_of_append xs x in (at, ap (◌∷◌ y) front)

-- `dynarray_pop` undoes `dynarray_push`.
pub pop-push :
    (a : DynArray) (x : ℕ) → ((pop (push a x)).0 ≡ some x) × ((pop (push a x)).1.items ≡ a.items)
unfolding pop push
pop-push a x =
    let grown = a.items ++ (x ∷ []) in
    let e : length grown - 1 ≡ length a.items = omega (arith, length-append a.items (x ∷ [])) in
    let f : (length grown == 0) ≡ false = ground (arith, length-append a.items (x ∷ [])) in
    rw (f, e) (last_of_append a.items x)
