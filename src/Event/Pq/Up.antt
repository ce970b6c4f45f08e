-- ===== src/Event/Pq/Up.antt =====
-- `pq_sift_up` restores the heap order.
use mathlib.Core.List.Perm
use distributed_search_engin.Base.{
  ℕ, zero, suc, ◌≤◌, ◌<◌, ◌≡◌, ◌≢◌, inl, inr, some, List, Perm, ltb, ltb→lt, ltb→le, if◌then◌else◌,
  length, swap, get_elem?-get_or, length-swap, swap-perm, Bool-cases, arith,
}
use distributed_search_engin.Double.{Double, HasOrder}
use distributed_search_engin.Event.Pq.{PqEntry, less, sift_up}
use distributed_search_engin.Event.Pq.Order.{
  AllEntries, AllEntries-perm, blank, at, parent, exchange-swap, key_at, less-at, IsKeyHeap,
  key-swap,
}

module _ {F K : Type 0} ⦃d : Double F⦄ where
  -- One round of the loop, in range.
  sift_up-eq :
      (rounds : ℕ) (es : List (PqEntry F K)) (i : ℕ)
      → i < length es
      → sift_up (suc rounds) es i ≡ (
          if ltb 0 i
          then if less (at es i) (at es (parent i))
            then sift_up rounds (swap es i (parent i) blank) (parent i)
            else some es
          else some es)
  unfolding sift_up
  sift_up-eq rounds es i h = rw (
    get_elem?-get_or es i blank h,
    get_elem?-get_or es (parent i) blank (omega arith),
    exchange-swap es i (parent i) h (omega arith),
  )

  module _ (o : HasOrder d) where
    -- Only the edge above `i` may be out of order.
    pub record IsHeapBut (es : List (PqEntry F K)) (i : ℕ) : Type 0 where
      pub inside : i < length es
      pub edges : (c : ℕ) → 0 < c → c < length es → c ≢ i → key_at o es (parent c) ≤ key_at o es c
      pub bridged :
          (c : ℕ)
          → 0 < c
          → c < length es
          → parent c ≡ i
          → 0 < i
          → key_at o es (parent i) ≤ key_at o es c

    raised :
        (es : List (PqEntry F K)) (i : ℕ)
        → IsHeapBut es i
        → 0 < i
        → key_at o es i < key_at o es (parent i)
        → IsHeapBut (swap es i (parent i) blank) (parent i)
    raised es i v pos below =
        let above : parent i < length es = omega (arith, v.inside) in
        let size = length-swap es i (parent i) blank in
        let moved = key-swap o es i (parent i) v.inside above in
        record {
          inside = omega (arith, size);
          edges =
              λ c p q r. ground (arith, size, moved c, moved (parent c), v.edges c, v.bridged c);
          bridged = λ c p q r s.
              ground
                (arith, size, moved c, moved (parent (parent i)), v.edges c, v.edges (parent i));
        }

    -- From a heap but for the edge above `i`, enough rounds make a heap of the same entries.
    pub sift_up_restores :
        (rounds : ℕ) (es : List (PqEntry F K)) (i : ℕ)
        → i < rounds
        → AllEntries es
        → IsHeapBut es i
        → (es' : List (PqEntry F K)) × (sift_up rounds es i ≡ some es')
          × IsKeyHeap o es'
          × Perm es' es
    sift_up_restores zero es i f all v = absurd (omega arith)
    sift_up_restores (suc rounds) es i f all v = elim (Bool-cases (ltb 0 i)) [
      | inr root ↦ (
        es,
        rw (sift_up-eq rounds es i v.inside, root),
        λ c p q. v.edges c p q (omega (arith, ltb→le 0 i root)),
        Perm.refl es,
      )
      | inl pos ↦
          let above : parent i < length es = omega (arith, v.inside) in
          let tested = less-at o es i (parent i) all v.inside above in
          elim (Bool-cases (ltb (key_at o es i) (key_at o es (parent i)))) [
            | inr settled ↦ (
              es,
              rw (sift_up-eq rounds es i v.inside, pos, tested, settled),
              λ c p q. ground (arith, v.edges c),
              Perm.refl es,
            )
            | inl below ↦
                let same = swap-perm es i (parent i) blank v.inside above in
                let (es', e, heap, perm) =
                  sift_up_restores rounds (swap es i (parent i) blank) (parent i)
                    (omega (arith, ltb→lt 0 i pos)) (AllEntries-perm same all)
                    (raised es i v (ltb→lt _ _ pos) (ltb→lt _ _ below)) in
                (
                  es',
                  rw (sift_up-eq rounds es i v.inside, pos, tested, below) e,
                  heap,
                  Perm.trans perm same,
                )
          ]
    ]
