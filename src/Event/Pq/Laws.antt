-- ===== src/Event/Pq/Laws.antt =====
-- What `pq_push`, `pq_pop` and `pq_peek` promise.
use native.Mathlib.Bridge.{le_prop}
use native.Mathlib.Numerals.{add-one}
use mathlib.Core.List.{Mem, mem-cons, not-mem-nil}
use mathlib.Core.List.Perm
use mathlib.Core.Logic.Or
use distributed_search_engin.Base.{
  ℕ, suc, ◌-◌, ◌^◌, ◌≤◌, ◌<◌, ◌≡◌, refl, ◌∙◌, inl, inr, false, Option, none, some, List, [], ◌∷◌,
  ◌++◌, Perm, ltb, ltb→lt, if◌then◌else◌, get_elem?, set, take, length, length-append, length-set,
  length-take_le, length-perm, get_elem?-get_or, get_or-append, get_or-set, get_or-take,
  concat-perm, set-perm, take-perm, Bool-cases, arith,
}
use distributed_search_engin.Double.{Double, HasOrder}
use distributed_search_engin.Event.Pq.{
  PqEntry, PriorityQueue, less, init, size, peek, grown, push, pop, sift_down,
}
use distributed_search_engin.Event.Pq.Order.{
  IsEntry, IsEntry-prop, AllEntries, AllEntries-perm, blank, at, at-mem, parent, key, key_at,
  less-key, IsHeap, IsKeyHeap, IsHeap-IsKeyHeap, IsKeyHeap-IsHeap, root_least,
}
use distributed_search_engin.Event.Pq.Up.{IsHeapBut, sift_up_restores}
use distributed_search_engin.Event.Pq.Down.{IsHeapAbove, sift_down_restores}

module _ {F K : Type 0} ⦃d : Double F⦄ where
  AllEntries-cons :
      (e : PqEntry F K) (es : List (PqEntry F K)) → IsEntry e → AllEntries es → AllEntries (e ∷ es)
  AllEntries-cons e es h all x m =
      Or.elim (IsEntry-prop x) (mem-cons.0 m) (λ same. rw same h) (all x)

  pub record IsValid (pq : PriorityQueue F K) : Type 0 where
    pub heap : IsHeap pq.entries
    pub entries : AllEntries pq.entries
    pub fits : size pq ≤ pq.capacity
    pub positive : 0 < pq.capacity

  -- `pq_init` makes a well-formed empty queue, whatever capacity is asked for.
  pub init-IsValid : (n : ℕ) → IsValid (init {F = F} {K = K} n)
  unfolding init
  init-IsValid n = record {
    heap = λ c p q. absurd (omega arith);
    entries = λ e m. absurd (not-mem-nil m);
    fits = omega arith;
    positive = ground arith;
  }

  module _ (o : HasOrder d) where
    key_of_mem :
        (es : List (PqEntry F K)) (n : ℕ)
        → ((i : ℕ) → i < length es → n ≤ key_at o es i)
        → (e : PqEntry F K) → Mem e es
        → n ≤ key o e
    key_of_mem [] n h e m = absurd (not-mem-nil m)
    key_of_mem (x ∷ es) n h e m =
        Or.elim le_prop (mem-cons.0 m) (λ same. rw same (h 0 (omega arith)))
          (key_of_mem es n (λ i p. h (suc i) (omega arith)) e)

    -- The root of a heap precedes or ties with every entry.
    pub root_first :
        (es : List (PqEntry F K))
        → AllEntries es
        → IsHeap es
        → 0 < length es
        → (e : PqEntry F K) → Mem e es
        → less e (at es 0) ≡ false
    root_first es all h pos e m = ground (
      arith,
      less-key o e (at es 0) (all e m) (all _ (at-mem es 0 pos)),
      key_of_mem es (key_at o es 0) (λ i. root_least o es i (IsHeap-IsKeyHeap o es all h)) e m,
    )

    grown-IsHeapBut :
        (es : List (PqEntry F K)) (e : PqEntry F K)
        → IsKeyHeap o es
        → IsHeapBut o (es ++ (e ∷ [])) (length es)
    grown-IsHeapBut es e h =
        let whole = length-append es (e ∷ []) in
        record {
          inside = omega (arith, whole);
          edges = λ c p q r. ground (
            arith,
            whole,
            h c,
            get_or-append es (e ∷ []) c blank,
            get_or-append es (e ∷ []) (parent c) blank,
          );
          bridged = λ c p q r s. absurd (omega (arith, whole));
        }

    -- On a well-formed queue of capacity below 2^63, `pq_push` of an entry whose time is not a NaN
    -- succeeds and leaves a well-formed queue of exactly the entries there were and the new one.
    pub push_correct :
        (pq : PriorityQueue F K) (time : F) (seq : ℕ) (cont : Option K)
        → IsValid pq
        → d.is_nan time ≡ false
        → seq < 2 ^ 64
        → pq.capacity < 2 ^ 63
        → (pq' : PriorityQueue F K) × (push pq time seq cont ≡ some pq')
          × IsValid pq'
          × Perm pq'.entries (record { time = time; seq = seq; cont = cont } ∷ pq.entries)
    unfolding push
    push_correct pq time seq cont v number word room =
        let new : PqEntry F K = record { time = time; seq = seq; cont = cont } in
        let added = concat-perm pq.entries new in
        let all : AllEntries (new ∷ pq.entries) =
          AllEntries-cons new pq.entries (record { number = number; word = word }) v.entries in
        let start = grown-IsHeapBut pq.entries new (IsHeap-IsKeyHeap o _ v.entries v.heap) in
        let (es, e, heap, perm) =
          sift_up_restores o (suc (size pq)) (pq.entries ++ (new ∷ [])) (size pq) (omega arith)
            (AllEntries-perm added all) start in
        let same = Perm.trans perm added in
        (
          record { entries = es; capacity = grown pq },
          rw (add-one, e),
          record {
            heap = IsKeyHeap-IsHeap o es (AllEntries-perm same all) heap;
            entries = AllEntries-perm same all;
            fits = ground (arith, length-perm same, v.fits, v.positive);
            positive = ground (arith, v.positive);
          },
          same,
        )

    refilled-IsHeapAbove :
        (es : List (PqEntry F K)) (n : ℕ)
        → length es ≡ suc n
        → 0 < n
        → IsKeyHeap o es
        → IsHeapAbove o (set (take n es) 0 (at es n)) 0
    refilled-IsHeapAbove es n size_n pos h =
        let front = length-take_le n es (omega arith) in
        let written = get_or-set (take n es) 0 in
        record {
          edges = λ c p q r. ground (
            arith,
            h c,
            front,
            length-set (take n es) 0 (at es n),
            written c (at es n) blank,
            written (parent c) (at es n) blank,
            get_or-take n es c blank,
            get_or-take n es (parent c) blank,
          );
          bridged = λ c p q r s. absurd (omega arith);
        }

    refilled-perm :
        (es : List (PqEntry F K)) (n : ℕ)
        → length es ≡ suc n
        → 0 < n
        → Perm (at es 0 ∷ set (take n es) 0 (at es n)) es
    refilled-perm es n size_n pos =
        let front = length-take_le n es (omega arith) in
        let traded = set-perm (take n es) 0 (at es n) blank (omega arith) in
        Perm.trans (rw (get_or-take n es 0 blank pos) at traded) (take-perm n es blank size_n)

    -- What `pq_pop` does once the top is out.
    remainder :
        (es : List (PqEntry F K)) (n : ℕ)
        → length es ≡ suc n
        → AllEntries es
        → IsKeyHeap o es
        → (es' : List (PqEntry F K)) × ((if ltb 0 n
              then sift_down n (set (take n es) 0 (at es n)) 0
              else some (take n es))
            ≡ some es')
          × IsKeyHeap o es'
          × Perm (at es 0 ∷ es') es
    remainder es n size_n all h = elim (Bool-cases (ltb 0 n)) [
      | inr single ↦
          let none_left : n ≡ 0 = ground arith in
          let front = length-take_le n es (omega arith) in
          (
            take n es,
            rw single,
            λ c p q. absurd (omega arith),
            rw none_left (take-perm 0 es blank (omega arith)),
          )
      | inl more ↦
          let pos = ltb→lt 0 n more in
          let perm = refilled-perm es n size_n pos in
          let kept = λ (e : PqEntry F K) (m : Mem e (set (take n es) 0 (at es n))).
            all e ((Perm.mem_iff perm).0 (mem-cons.1 (Or.inr m))) in
          let front : length (set (take n es) 0 (at es n)) ≡ n =
            length-set (take n es) 0 (at es n) ∙ length-take_le n es (omega arith) in
          let (es', e, heap, perm') =
            sift_down_restores o n (set (take n es) 0 (at es n)) 0 (omega arith) (omega arith) kept
              (refilled-IsHeapAbove es n size_n pos h) in
          (es', rw (more, e), heap, Perm.trans (Perm.cons (at es 0) perm') perm)
    ]

    -- On a well-formed queue that is not empty, `pq_pop` returns the entry that `pq_peek` shows and
    -- leaves a well-formed queue of exactly the other entries, and no entry left precedes it: by time,
    -- and by sequence number among equal times.
    pub pop_correct :
        (pq : PriorityQueue F K)
        → IsValid pq
        → 0 < size pq
        → (top : PqEntry F K) × (pq' : PriorityQueue F K) × (pop pq ≡ some (top, pq'))
          × (peek pq ≡ some top)
          × IsValid pq'
          × Perm (top ∷ pq'.entries) pq.entries
          × ((e : PqEntry F K) → Mem e pq'.entries → less e top ≡ false)
          × (pq'.capacity ≡ pq.capacity)
    unfolding pop
    pop_correct pq v pos =
        let es = pq.entries in
        let n = size pq - 1 in
        let (es', e, heap, perm) =
          remainder es n (omega arith) v.entries (IsHeap-IsKeyHeap o es v.entries v.heap) in
        let kept = λ (x : PqEntry F K) (m : Mem x es').
          v.entries x ((Perm.mem_iff perm).0 (mem-cons.1 (Or.inr m))) in
        let first = get_elem?-get_or es 0 blank pos in
        (
          at es 0,
          record pq { entries = es' },
          rw (first, get_elem?-get_or es n blank (omega arith), e),
          first,
          record {
            heap = IsKeyHeap-IsHeap o es' kept heap;
            entries = kept;
            fits = omega (arith, length-perm perm, v.fits);
            positive = v.positive;
          },
          perm,
          λ x m.
              root_first es v.entries v.heap pos x ((Perm.mem_iff perm).0 (mem-cons.1 (Or.inr m))),
          refl,
        )

  no_first : (es : List (PqEntry F K)) → length es ≡ 0 → get_elem? es 0 ≡ none
  no_first [] h = refl
  no_first (e ∷ es) h = absurd (omega arith)

  -- `pq_pop` fails its `assert` on an empty queue.
  pub pop_empty : (pq : PriorityQueue F K) → size pq ≡ 0 → pop pq ≡ none
  unfolding pop
  pop_empty pq h = rw (no_first pq.entries h)
