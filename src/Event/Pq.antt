-- ===== src/Event/Pq.antt =====
-- src/event/pq.c: the queue of scheduled events, a binary heap ordered by time and then by sequence
-- number. `K` stands for a callback with its context; `none` is the null callback.
-- The list is the entries below `size`; `malloc` and `realloc` are taken to succeed.
pub mod Order
pub mod Up
pub mod Down
pub mod Laws
use distributed_search_engin.Base.{
  ℕ, zero, suc, ◌+◌, ◌-◌, ◌*◌, ◌/◌, ◌%◌, ◌^◌, Bool, true, false, not, Option, none, some, ◌>>=◌,
  List, [], ◌∷◌, ◌++◌, ◌==◌, ltb, if◌then◌else◌, get_elem?, set, take, length,
}
use distributed_search_engin.Double.{Double}

-- `PQEntry`
pub record PqEntry (F K : Type 0) : Type 0 where
  pub time : F
  pub seq : ℕ
  pub cont : Option K

-- `PriorityQueue`
pub record PriorityQueue (F K : Type 0) : Type 0 where
  pub entries : List (PqEntry F K)
  pub capacity : ℕ

module _ {F K : Type 0} where
  -- `pq_init`
  unfoldable pub init : ℕ → PriorityQueue F K
  init initial_capacity = record {
    entries = [];
    capacity = if ltb 0 initial_capacity then initial_capacity else 4096;
  }

  -- `pq_size`
  abbrev pub size : PriorityQueue F K → ℕ
  size pq = length pq.entries

  -- `pq_empty`
  abbrev pub empty : PriorityQueue F K → Bool
  empty pq = size pq == 0

  -- `pq_peek`; `none` is the failed `assert`
  abbrev pub peek : PriorityQueue F K → Option (PqEntry F K)
  peek pq = get_elem? pq.entries 0

  -- the capacity that `pq_push` grows to; the product of `size_t` wraps
  abbrev pub grown : PriorityQueue F K → ℕ
  grown pq = if size pq == pq.capacity then (pq.capacity * 2) % 2 ^ 64 else pq.capacity

  -- `pq_swap` of the entries at two indices
  unfoldable pub exchange : List (PqEntry F K) → ℕ → ℕ → Option (List (PqEntry F K))
  exchange es i j = do a ← get_elem? es i; b ← get_elem? es j; some (set (set es i b) j a)

module _ {F K : Type 0} ⦃d : Double F⦄ where
  -- `pq_less`
  unfoldable pub less : PqEntry F K → PqEntry F K → Bool
  less a b = if not (d.eq a.time b.time) then d.lt a.time b.time else ltb a.seq b.seq

  -- `pq_sift_up`, with the rounds bounded
  unfoldable pub sift_up : ℕ → List (PqEntry F K) → ℕ → Option (List (PqEntry F K))
  sift_up zero es i = none
  sift_up (suc rounds) es i =
      let parent = (i - 1) / 2 in
      let continue_above = exchange es i parent >>= λ es'. sift_up rounds es' parent in
      let round = get_elem? es i >>= λ child.
      get_elem? es parent >>= λ above. if less child above then continue_above else some es in
      if ltb 0 i then round else some es

  -- `if (child < n && pq_less(&entries[child], &entries[smallest])) smallest = child;`
  unfoldable pub smaller_of : List (PqEntry F K) → ℕ → ℕ → Option ℕ
  smaller_of es child smallest =
      let compare_them = get_elem? es child >>= λ a.
      get_elem? es smallest >>= λ b. some (if less a b then child else smallest) in
      if ltb child (length es) then compare_them else some smallest

  -- `pq_sift_down`, with the rounds bounded
  unfoldable pub sift_down : ℕ → List (PqEntry F K) → ℕ → Option (List (PqEntry F K))
  sift_down zero es i = none
  sift_down (suc rounds) es i = smaller_of es (2 * i + 1) i >>= λ with_left.
      smaller_of es (2 * i + 2) with_left >>= λ smallest.
      let continue_below = exchange es i smallest >>= λ es'. sift_down rounds es' smallest in
      if not (smallest == i) then continue_below else some es

  -- `pq_push`
  unfoldable pub push : PriorityQueue F K → F → ℕ → Option K → Option (PriorityQueue F K)
  push pq time seq cont = do
    let written = pq.entries ++ (record { time = time; seq = seq; cont = cont } ∷ [])
    es ← sift_up (size pq + 1) written (size pq)
    some (record { entries = es; capacity = grown pq })

  -- `pq_pop`; `none` is the failed `assert`
  unfoldable pub pop : PriorityQueue F K → Option (PqEntry F K × PriorityQueue F K)
  pop pq = do
    top ← get_elem? pq.entries 0
    let n = size pq - 1
    last ← get_elem? pq.entries n
    let refilled = sift_down n (set (take n pq.entries) 0 last) 0
    es ← if ltb 0 n then refilled else some (take n pq.entries)
    some (top, record pq { entries = es })
