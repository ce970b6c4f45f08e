-- ===== src/Event/Pq/Order.antt =====
-- The order of events as an order of numbers, and the heap order.
use native.Mathlib.Bridge.{le_prop}
use mathlib.Core.List.{Mem, mem-cons}
use mathlib.Core.List.Perm
use mathlib.Core.Logic.Or
use distributed_search_engin.Base.{
  ℕ, zero, suc, ◌+◌, ◌-◌, ◌*◌, ◌/◌, ◌^◌, ◌≤◌, ◌<◌, ◌≡◌, ◌≢◌, refl, true, false, none, some, List,
  [], ◌∷◌, Perm, ltb, ◌==◌, if◌then◌else◌, get_or, length, swap, get_elem?-get_or, get_or-swap,
  arith,
}
use distributed_search_engin.Double.{Double, HasOrder}
use distributed_search_engin.Event.Pq.{PqEntry, less, exchange}

abbrev pub parent : ℕ → ℕ
parent i = (i - 1) / 2

module _ {F K : Type 0} ⦃d : Double F⦄ where
  -- An entry as the clock makes them: its time is a number, its sequence number a `uint64_t`.
  pub record IsEntry (e : PqEntry F K) : Type 0 where
    pub number : d.is_nan e.time ≡ false
    pub word : e.seq < 2 ^ 64

  pub IsEntry-prop : (e : PqEntry F K) → IsProp (IsEntry e)
  IsEntry-prop e = hlevel le_prop

  abbrev pub AllEntries : List (PqEntry F K) → Type 0
  AllEntries es = (e : PqEntry F K) → Mem e es → IsEntry e

  pub AllEntries-perm : {xs ys : List (PqEntry F K)} → Perm xs ys → AllEntries ys → AllEntries xs
  AllEntries-perm p all e m = all e ((Perm.mem_iff p).0 m)

  abbrev pub blank : PqEntry F K
  blank = record { time = d.of_ℕ 0; seq = 0; cont = none }

  abbrev pub at : List (PqEntry F K) → ℕ → PqEntry F K
  at es i = get_or es i blank

  pub at-mem : (es : List (PqEntry F K)) (i : ℕ) → i < length es → Mem (at es i) es
  at-mem [] i h = absurd (omega arith)
  at-mem (e ∷ es) zero h = mem-cons.1 (Or.inl refl)
  at-mem (e ∷ es) (suc i) h = mem-cons.1 (Or.inr (at-mem es i (omega arith)))

  -- No entry precedes its parent.
  abbrev pub IsHeap : List (PqEntry F K) → Type 0
  IsHeap es = (c : ℕ) → 0 < c → c < length es → less (at es c) (at es (parent c)) ≡ false

  -- `exchange` in range
  pub exchange-swap :
      (es : List (PqEntry F K)) (i j : ℕ)
      → i < length es
      → j < length es
      → exchange es i j ≡ some (swap es i j blank)
  unfolding exchange
  exchange-swap es i j hi hj = rw (get_elem?-get_or es i blank hi, get_elem?-get_or es j blank hj)

  module _ (o : HasOrder d) where
    -- The place of an entry in the order, as one number.
    pub key : PqEntry F K → ℕ
    key e = o.rank e.time * 2 ^ 64 + e.seq

    pub less-key : (a b : PqEntry F K) → IsEntry a → IsEntry b → less a b ≡ ltb (key a) (key b)
    unfolding less key
    less-key a b ha hb = ground (
      arith,
      o.lt_rank a.time b.time ha.number hb.number,
      o.eq_rank a.time b.time ha.number hb.number,
    )

    -- Of two entries with different sequence numbers one precedes the other.
    pub less_total :
        (a b : PqEntry F K)
        → IsEntry a
        → IsEntry b
        → a.seq ≢ b.seq
        → less b a ≡ false
        → less a b ≡ true
    unfolding key
    less_total a b ha hb ne first = ground (arith, less-key a b ha hb, less-key b a hb ha)

    -- What does not precede is not earlier.
    pub lt_of_less :
        (a b : PqEntry F K) → IsEntry a → IsEntry b → less b a ≡ false → d.lt b.time a.time ≡ false
    unfolding key
    lt_of_less a b ha hb first =
        ground (arith, less-key b a hb ha, o.lt_rank b.time a.time hb.number ha.number)

    abbrev pub key_at : List (PqEntry F K) → ℕ → ℕ
    key_at es i = key (at es i)

    -- The tests of the code compare the keys.
    pub less-at :
        (es : List (PqEntry F K)) (i j : ℕ)
        → AllEntries es
        → i < length es
        → j < length es
        → less (at es i) (at es j) ≡ ltb (key_at es i) (key_at es j)
    less-at es i j all hi hj =
        less-key (at es i) (at es j) (all _ (at-mem es i hi)) (all _ (at-mem es j hj))

    -- The heap order by keys.
    abbrev pub IsKeyHeap : List (PqEntry F K) → Type 0
    IsKeyHeap es = (c : ℕ) → 0 < c → c < length es → key_at es (parent c) ≤ key_at es c

    pub IsHeap-IsKeyHeap : (es : List (PqEntry F K)) → AllEntries es → IsHeap es → IsKeyHeap es
    IsHeap-IsKeyHeap es all h c pos inside =
        ground (arith, h c pos inside, less-at es c (parent c) all inside (omega arith))

    pub IsKeyHeap-IsHeap : (es : List (PqEntry F K)) → AllEntries es → IsKeyHeap es → IsHeap es
    IsKeyHeap-IsHeap es all h c pos inside =
        ground (arith, h c pos inside, less-at es c (parent c) all inside (omega arith))

    -- The keys after a swap.
    pub key-swap :
        (es : List (PqEntry F K)) (i j : ℕ)
        → i < length es
        → j < length es
        → (c : ℕ)
        → key_at (swap es i j blank) c
          ≡ (if j == c then key_at es i else if i == c then key_at es j else key_at es c)
    key-swap es i j hi hj c = ground (arith, get_or-swap es i j blank hi hj c)

    -- The order of the keys is total, so equal keys leave two entries in either order.
    root_least_below :
        (n : ℕ) (es : List (PqEntry F K)) (i : ℕ)
        → IsKeyHeap es
        → i < n
        → i < length es
        → key_at es 0 ≤ key_at es i
    root_least_below zero es i h f p = absurd (omega arith)
    root_least_below (suc n) es i h f p = ground (arith, h i, root_least_below n es (parent i) h)

    -- The root of a heap has the least key.
    pub root_least :
        (es : List (PqEntry F K)) (i : ℕ) → IsKeyHeap es → i < length es → key_at es 0 ≤ key_at es i
    root_least es i h p = root_least_below (suc i) es i h (omega arith) p
