-- ===== src/Event/Pq/Down.antt =====
-- `pq_sift_down` restores the heap order.
use mathlib.Core.List.Perm
use native.Mathlib.Nat.{le_trans}
use distributed_search_engin.Base.{
  ℕ, zero, suc, ◌+◌, ◌-◌, ◌*◌, ◌≤◌, ◌<◌, ◌≡◌, ◌≢◌, ◌⊎◌, inl, inr, not, some, List, Perm, ltb,
  ltb→lt, ◌==◌, ==_iff, if◌then◌else◌, length, swap, get_elem?-get_or, length-swap, swap-perm,
  Bool-cases, arith,
}
use distributed_search_engin.Double.{Double, HasOrder}
use distributed_search_engin.Event.Pq.{PqEntry, smaller_of, sift_down}
use distributed_search_engin.Event.Pq.Order.{
  AllEntries, AllEntries-perm, blank, parent, exchange-swap, key_at, less-at, IsKeyHeap, key-swap,
}

module _ {F K : Type 0} ⦃d : Double F⦄ (o : HasOrder d) where
  -- Only the edges below `i` may be out of order.
  pub record IsHeapAbove (es : List (PqEntry F K)) (i : ℕ) : Type 0 where
    pub edges :
        (c : ℕ) → 0 < c → c < length es → parent c ≢ i → key_at o es (parent c) ≤ key_at o es c
    pub bridged :
        (c : ℕ)
        → 0 < c
        → c < length es
        → parent c ≡ i
        → 0 < i
        → key_at o es (parent i) ≤ key_at o es c

  -- `m` is `i` or a child of it, and no key among these is smaller.
  record IsSmallest (es : List (PqEntry F K)) (i m : ℕ) : Type 0 where
    inside : m < length es
    near : (m ≡ i) ⊎ ((m ≡ 2 * i + 1) ⊎ (m ≡ 2 * i + 2))
    below : m ≢ i → key_at o es m < key_at o es i
    least : (c : ℕ) → 0 < c → c < length es → parent c ≡ i → key_at o es m ≤ key_at o es c

  smaller_of-eq :
      (es : List (PqEntry F K)) (c s : ℕ)
      → AllEntries es
      → s < length es
      → smaller_of es c s
        ≡ some (
            if ltb c (length es) then (if ltb (key_at o es c) (key_at o es s) then c else s) else s)
  unfolding smaller_of
  smaller_of-eq es c s all h = elim (Bool-cases (ltb c (length es))) [
    | inr outside ↦ rw outside
    | inl within ↦
        let p = ltb→lt c (length es) within in
        rw (
          within,
          get_elem?-get_or es c blank p,
          get_elem?-get_or es s blank h,
          less-at o es c s all p h,
        )
  ]

  abbrev choice : List (PqEntry F K) → ℕ → ℕ → ℕ
  choice es c s =
      if ltb c (length es) then (if ltb (key_at o es c) (key_at o es s) then c else s) else s

  abbrev smallest : List (PqEntry F K) → ℕ → ℕ
  smallest es i = choice es (2 * i + 2) (choice es (2 * i + 1) i)

  choice-lt : (es : List (PqEntry F K)) (c s : ℕ) → s < length es → choice es c s < length es
  choice-lt es c s h = ground arith

  choice-le :
      (es : List (PqEntry F K)) (c s : ℕ)
      → (key_at o es (choice es c s) ≤ key_at o es s)
        × (c < length es → key_at o es (choice es c s) ≤ key_at o es c)
  choice-le es c s = ground arith

  smallest-le :
      (es : List (PqEntry F K)) (i c : ℕ)
      → c < length es
      → (c ≡ 2 * i + 1) ⊎ (c ≡ 2 * i + 2)
      → key_at o es (smallest es i) ≤ key_at o es c
  smallest-le es i c q (inl e) =
      let first = (choice-le es (2 * i + 1) i).1 (omega arith) in
      rw e (le_trans (choice-le es (2 * i + 2) (choice es (2 * i + 1) i)).0 first)
  smallest-le es i c q (inr e) =
      rw e ((choice-le es (2 * i + 2) (choice es (2 * i + 1) i)).1 (omega arith))

  smallest-IsSmallest :
      (es : List (PqEntry F K)) (i : ℕ) → i < length es → IsSmallest es i (smallest es i)
  smallest-IsSmallest es i h = record {
    inside = choice-lt es (2 * i + 2) _ (choice-lt es (2 * i + 1) i h);
    near = ground arith;
    below = λ p. ground arith;
    least = λ c p q r. smallest-le es i c q (omega arith);
  }

  -- One round of the loop, in range.
  sift_down-eq :
      (rounds : ℕ) (es : List (PqEntry F K)) (i : ℕ)
      → AllEntries es
      → i < length es
      → sift_down (suc rounds) es i ≡ (
          if not (smallest es i == i)
          then sift_down rounds (swap es i (smallest es i) blank) (smallest es i)
          else some es)
  unfolding sift_down
  sift_down-eq rounds es i all h = rw (
    smaller_of-eq es (2 * i + 1) i all h,
    smaller_of-eq es (2 * i + 2) (choice es (2 * i + 1) i) all (choice-lt es (2 * i + 1) i h),
    exchange-swap es i (smallest es i) h (smallest-IsSmallest es i h).inside,
  )

  lowered :
      (es : List (PqEntry F K)) (i m : ℕ)
      → i < length es
      → IsHeapAbove es i
      → IsSmallest es i m
      → m ≢ i
      → IsHeapAbove (swap es i m blank) m
  lowered es i m h v s ne =
      let size = length-swap es i m blank in
      let moved = key-swap o es i m h s.inside in
      let small = s.below ne in
      let child : parent m ≡ i = ground (arith, s.near) in
      record {
        edges = λ c p q r.
            ground (arith, size, moved c, moved (parent c), v.edges c, v.bridged m, s.least c);
        bridged = λ c p q r t. ground (arith, size, moved c, moved (parent m), v.edges c);
      }

  -- From a heap but for the edges below `i`, enough rounds make a heap of the same entries.
  pub sift_down_restores :
      (rounds : ℕ) (es : List (PqEntry F K)) (i : ℕ)
      → length es - i < suc rounds
      → i < length es
      → AllEntries es
      → IsHeapAbove es i
      → (es' : List (PqEntry F K)) × (sift_down rounds es i ≡ some es')
        × IsKeyHeap o es'
        × Perm es' es
  sift_down_restores zero es i f h all v = absurd (omega arith)
  sift_down_restores (suc rounds) es i f h all v =
      let m = smallest es i in
      let s = smallest-IsSmallest es i h in
      elim (Bool-cases (m == i)) [
        | inl same ↦
            let e : m ≡ i = (==_iff m i).0 same in
            (
              es,
              rw (sift_down-eq rounds es i all h, same),
              λ c p q. ground (arith, e, v.edges c, s.least c),
              Perm.refl es,
            )
        | inr other ↦
            let ne : m ≢ i = λ e. ground arith in
            let perm = swap-perm es i m blank h s.inside in
            let size = length-swap es i m blank in
            let (es', e, heap, perm') =
              sift_down_restores rounds (swap es i m blank) m
                (omega (arith, s.near, s.inside, size, ne)) (omega (arith, size, s.inside))
                (AllEntries-perm perm all) (lowered es i m h v s ne) in
            (es', rw (sift_down-eq rounds es i all h, other) e, heap, Perm.trans perm' perm)
      ]
