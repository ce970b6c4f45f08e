-- ===== src/Util/BoundedQueue/Refine.antt =====
-- The ring buffer against the list of the items that it holds, oldest first.
use native.Mathlib.Nat.{mod-add-mod, mod-eq_of_lt, mod-eq-sub-mod}
use mathlib.Core.List.{foldl}
use native.Mathlib.Decide.{dec_lt}
use distributed_search_engin.Base.{
  ℕ, zero, suc, ◌+◌, ◌-◌, ◌%◌, ◌≤◌, ◌<◌, ◌≡◌, refl, sym, ap, ◌∙◌, ◌≢◌, ◌⊎◌, inl, inr, true, false,
  Option, none, some, List, [], ◌∷◌, ◌++◌, ◌==◌, ltb, ne→==, if◌then◌else◌, get_or, get_elem?, set,
  length, length-set, get_or-set, length-append, length-replicate, arith,
}
use distributed_search_engin.Util.BoundedQueue.{
  BoundedQueue, init, push, pop, finalize, foreach, foreach_loop,
}

-- One turn round the buffer, without a remainder.
wrap :
    (cap h k : ℕ)
    → h < cap
    → k ≤ cap
    → (h + k) % cap ≡ (if ltb (h + k) cap then h + k else h + k - cap)
wrap cap h k p q = elim (dec_lt (h + k) cap) [
  | yes r ↦ ground (arith, mod-eq_of_lt r)
  | no r ↦ ground (
    arith,
    mod-eq-sub-mod {n = h + k} {m = cap} (omega arith),
    mod-eq_of_lt {n = h + k - cap} {m = cap} (omega arith),
  )
]

mod_self_of_lt : (h n : ℕ) → h < n → (h + 0) % n ≡ h
mod_self_of_lt h n p = ap (λ k. k % n) (omega arith) ∙ mod-eq_of_lt p

module _ {A : Type 0} where
  -- The queue `q` is well formed and holds the items `xs`, oldest first.
  pub record Holds (q : BoundedQueue A) (xs : List A) : Type 0 where
    pub storage : length q.buf ≡ q.capacity
    pub counted : q.count ≡ length xs
    pub bounded : q.count ≤ q.capacity
    pub head_in : 0 < q.capacity → q.head < q.capacity
    pub tail_at : 0 < q.capacity → q.tail ≡ (q.head + q.count) % q.capacity
    pub slots :
        (k : ℕ) → k < q.count → get_or q.buf ((q.head + k) % q.capacity) none ≡ get_elem? xs k

  -- `bq_init` makes an empty queue.
  pub init-Holds : (capacity : ℕ) → Holds (init capacity) []
  unfolding init
  init-Holds capacity = record {
    storage = length-replicate capacity none;
    counted = refl;
    bounded = omega arith;
    head_in = λ p. p;
    tail_at = λ p. omega arith;
    slots = λ k p. absurd (omega arith);
  }

  get_elem?-append :
      (xs : List A) (x : A) (k : ℕ)
      → get_elem? (xs ++ (x ∷ [])) k ≡ (if k == length xs then some x else get_elem? xs k)
  get_elem?-append [] x zero = refl
  get_elem?-append [] x (suc k) = ground arith
  get_elem?-append (y ∷ xs) x zero = ground arith
  get_elem?-append (y ∷ xs) x (suc k) = ground (arith, get_elem?-append xs x k)

  module _ (q : BoundedQueue A) (xs : List A) (x : A) (h : Holds q xs)
      (room : q.count < q.capacity) where
    abbrev pushed : BoundedQueue A
    pushed = record q {
      buf = set q.buf q.tail (some x);
      tail = (q.tail + 1) % q.capacity;
      count = q.count + 1;
    }

    abbrev at : ℕ → ℕ
    at k = (q.head + k) % q.capacity

    at_ne : (k : ℕ) → k < q.count → at k ≢ at q.count
    at_ne k p = ground (arith, wrap q.capacity q.head k, wrap q.capacity q.head q.count, h.head_in)

    pushed-Holds : Holds pushed (xs ++ (x ∷ []))
    pushed-Holds = record {
      storage = omega (arith, length-set q.buf q.tail (some x), h.storage);
      counted = omega (arith, length-append xs (x ∷ []), h.counted);
      bounded = omega arith;
      head_in = h.head_in;
      tail_at = λ p. rw (h.tail_at p, mod-add-mod) (ap (λ k. k % q.capacity) (omega arith));
      slots = λ k p. ground (
        arith,
        h.head_in,
        h.slots k,
        h.tail_at,
        h.storage,
        get_elem?-append xs x k,
        get_or-set q.buf q.tail (at k) (some x) none,
        at_ne k,
      );
    }

  push-eq :
      (q : BoundedQueue A) (x : A)
      → q.finalized ≡ false
      → q.count < q.capacity
      → push q x ≡ (
        true,
        record q {
          buf = set q.buf q.tail (some x);
          tail = (q.tail + 1) % q.capacity;
          count = q.count + 1;
        },
      )
  unfolding push
  push-eq q x opened room = ground arith

  -- On a queue that holds `xs`, with room and before `bq_finalize`, `bq_push` succeeds and leaves a
  -- queue that holds `xs` and then the item.
  pub push-Holds :
      (q : BoundedQueue A) (xs : List A) (x : A)
      → Holds q xs
      → q.finalized ≡ false
      → q.count < q.capacity
      → ((push q x).0 ≡ true) × Holds (push q x).1 (xs ++ (x ∷ []))
  push-Holds q xs x h opened room = rw (push-eq q x opened room) (refl, pushed-Holds q xs x h room)

  -- A full or a finalized queue refuses the item and stays as it is.
  pub push_refused :
      (q : BoundedQueue A) (x : A)
      → (q.finalized ≡ true) ⊎ (q.capacity ≤ q.count)
      → push q x ≡ (false, q)
  unfolding push
  push_refused q x (inl e) = ground arith
  push_refused q x (inr e) = ground arith

  popped-Holds :
      (q : BoundedQueue A) (x : A) (xs : List A)
      → Holds q (x ∷ xs)
      → Holds (record q { head = (q.head + 1) % q.capacity; count = q.count - 1 }) xs
  popped-Holds q x xs h =
      let some_room : 0 < q.capacity = omega (arith, h.counted, h.bounded) in
      let counted : q.count ≡ suc (length xs) = h.counted in
      record {
        storage = h.storage;
        counted = omega arith;
        bounded = omega (arith, h.bounded);
        head_in = λ p. omega arith;
        tail_at = λ p. rw mod-add-mod (h.tail_at p ∙ ap (λ k. k % q.capacity) (omega arith));
        slots = λ k p. rw mod-add-mod (
            ap (λ i. get_or q.buf (i % q.capacity) none) (omega arith)
            ∙ h.slots (suc k) (omega arith));
      }

  -- On a queue that holds `x` and then `xs`, `bq_pop` returns `x` and leaves a queue that holds `xs`.
  pub pop-Holds :
      (q : BoundedQueue A) (x : A) (xs : List A)
      → Holds q (x ∷ xs)
      → ((pop q).0 ≡ some x) × Holds (pop q).1 xs
  unfolding pop
  pop-Holds q x xs h = rw (ne→== q.count 0 (omega (arith, h.counted))) (
    ap (λ i. get_or q.buf i none)
          (sym (mod_self_of_lt q.head q.capacity (h.head_in (omega (arith, h.counted, h.bounded)))))
        ∙ h.slots 0 (omega (arith, h.counted)),
    popped-Holds q x xs h,
  )

  -- `bq_pop` on an empty queue returns the null pointer and changes nothing.
  pub pop_empty : (q : BoundedQueue A) → Holds q [] → pop q ≡ (none, q)
  unfolding pop
  pop_empty q h = let e : q.count ≡ 0 = h.counted in ground arith

  pub finalize-Holds : (q : BoundedQueue A) (xs : List A) → Holds q xs → Holds (finalize q) xs
  unfolding finalize
  finalize-Holds q xs h = record {
    storage = h.storage;
    counted = h.counted;
    bounded = h.bounded;
    head_in = h.head_in;
    tail_at = h.tail_at;
    slots = h.slots;
  }

  foreach_loop-foldl :
      {S : Type 0} (fn : Option A → S → S) (buf : List (Option A)) (n : ℕ) (xs : List A) (h i : ℕ)
      (s : S)
      → i ≡ h % n
      → ((k : ℕ) → k < length xs → get_or buf ((h + k) % n) none ≡ get_elem? xs k)
      → foreach_loop fn buf n (length xs) i s ≡ foldl (λ t x. fn (some x) t) s xs
  unfolding foreach_loop
  foreach_loop-foldl fn buf n [] h i s e held = refl
  foreach_loop-foldl fn buf n (x ∷ xs) h i s e held =
      let here : get_or buf i none ≡ some x =
        ap (λ j. get_or buf j none) (e ∙ ap (λ j. j % n) (omega arith)) ∙ held 0 (omega arith) in
      ap (λ o. foreach_loop fn buf n (length xs) ((i + 1) % n) (fn o s)) here
      ∙ foreach_loop-foldl fn buf n xs (h + 1) ((i + 1) % n) (fn (some x) s)
          (rw e (mod-add-mod h n 1))
          (λ k p. ap (λ j. get_or buf (j % n) none) (omega arith) ∙ held (suc k) (omega arith))

  -- On a queue that holds `xs`, `bq_foreach` calls `fn` on each item once, from the oldest to the
  -- newest.
  pub foreach-foldl :
      {S : Type 0} (q : BoundedQueue A) (xs : List A) (fn : Option A → S → S) (s : S)
      → Holds q xs
      → foreach q fn s ≡ foldl (λ t x. fn (some x) t) s xs
  unfolding foreach
  foreach-foldl q xs fn s h =
      elim xs as (λ l. Holds q l → foreach q fn s ≡ foldl (λ t x. fn (some x) t) s l) [
        | [] ↦ λ v. ap (λ n. foreach_loop fn q.buf q.capacity n q.head s) v.counted
        | x ∷ l ↦ λ v.
            ap (λ n. foreach_loop fn q.buf q.capacity n q.head s) v.counted
            ∙ foreach_loop-foldl fn q.buf q.capacity (x ∷ l) q.head q.head s
                (sym (mod-eq_of_lt (v.head_in (omega (arith, v.counted, v.bounded)))))
                (λ k p. v.slots k (omega (arith, v.counted)))
      ]
        h
