-- ===== src/Index/Routing.antt =====
-- Where a document goes, and what an index counts.
use mathlib.Core.List.{Mem, mem-cons}
use mathlib.Core.Logic.Or
use mathlib.Core.Option.{some-injective}
use native.Mathlib.Nat.{mod-lt}
use distributed_search_engin.Base.{
  ℕ, zero, suc, ◌+◌, ◌-◌, ◌*◌, ◌/◌, ◌%◌, ◌^◌, ◌≤◌, ◌<◌, ◌≡◌, ◌≢◌, refl, sym, ap, ◌∙◌, inl, inr,
  false, Option, none, some, List, [], ◌∷◌, ◌==◌, ltb, get_elem?, length, ℤ, pos, negsuc, ◌+ℤ◌, rem,
  neg_ℕ, ne→==, get_elem?_in_range, Bool-cases, arith,
}
use distributed_search_engin.Double.{Double}
use distributed_search_engin.Types.{DseResult, code}
use distributed_search_engin.Util.DynArray.{size}
use distributed_search_engin.Index.{
  Index, hash_p, hash, shard_at, get_shard_from_hash, get_shard_for, get_shard_direct,
  compute_shard, log_result,
}

get_elem?-mem : (xs : List ℕ) (i : ℕ) {a : ℕ} → get_elem? xs i ≡ some a → Mem a xs
get_elem?-mem [] i e = cc
get_elem?-mem (x ∷ xs) zero {a} e = mem-cons.1 (Or.inl (sym (some-injective _ _ e)))
get_elem?-mem (x ∷ xs) (suc i) e = mem-cons.1 (Or.inr (get_elem?-mem xs i e))

-- The remainder of a number below 0, after the prime is added.
rem-neg :
    (m : ℕ)
    → (h : ℕ) × (rem (rem (neg_ℕ m) hash_p +ℤ pos hash_p) hash_p ≡ pos h)
      × (h < hash_p)
      × ((h + m) % hash_p ≡ 0)
rem-neg zero = (0, refl, omega arith, refl)
rem-neg (suc m) = elim (Bool-cases (suc m % hash_p == 0)) [
  | inl e ↦
      let z : suc m % hash_p ≡ 0 = ground arith in (0, rw z refl, omega arith, omega (arith, z))
  | inr e ↦
      let r = suc m % hash_p - 1 in
      let z : suc m % hash_p ≡ suc r = ground arith in
      let fits : ltb hash_p (suc r) ≡ false = ground arith in
      (hash_p - suc r, rw (z, fits) (ap pos (omega arith)), omega arith, omega arith)
]

-- The remainder of a difference.
rem-diff :
    (c b : ℕ)
    → (h : ℕ) × (rem (rem (neg_ℕ c +ℤ pos b) hash_p +ℤ pos hash_p) hash_p ≡ pos h)
      × (h < hash_p)
      × ((h + c) % hash_p ≡ b % hash_p)
rem-diff zero b = (b % hash_p, ap pos (omega arith), omega arith, omega arith)
rem-diff (suc m) b = elim (Bool-cases (ltb b (suc m))) [
  | inl less ↦
      let (h, eq, bound, sum) = rem-neg (suc m - b) in
      let p : b < suc m = ground arith in (h, rw less eq, bound, omega arith)
  | inr more ↦
      let p : suc m ≤ b = ground arith in
      ((b - suc m) % hash_p, rw more (ap pos (omega arith)), omega arith, omega arith)
]

module _ {F : Type 0} where
  -- The hash of a document whose id is not negative is the remainder of `a * id + b` by the prime.
  pub hash_pos :
      (x : Index F) (n : ℕ)
      → (h q : ℕ) × (hash x (pos n) ≡ pos h)
        × (h < hash_p)
        × (x.hash_a * n + x.hash_b ≡ q * hash_p + h)
  unfolding hash
  hash_pos x n =
      let m = x.hash_a * n + x.hash_b in
      (m % hash_p, m / hash_p, ap pos (omega arith), omega arith, omega arith)

  -- The hash of a document with the negative id `- n - 1` is not negative, below the prime, and
  -- congruent to `b - a * (n + 1)`, though the remainder of a negative number in C is not positive.
  pub hash_negsuc :
      (x : Index F) (n : ℕ)
      → (h : ℕ) × (hash x (negsuc n) ≡ pos h)
        × (h < hash_p)
        × ((h + x.hash_a * suc n) % hash_p ≡ x.hash_b % hash_p)
  unfolding hash
  hash_negsuc x n = rem-diff (x.hash_a * suc n) x.hash_b

  in_range :
      (x : Index F) (i : ℕ)
      → 0 < size x.shards
      → (s : ℕ) × (get_elem? x.shards.items (i % size x.shards) ≡ some s) × Mem s x.shards.items
  in_range x i h =
      let (s, found) = get_elem?_in_range x.shards.items (i % size x.shards) (mod-lt i h) in
      (s, found, get_elem?-mem x.shards.items (i % size x.shards) found)

  hash_total : (x : Index F) (id : ℤ) → (h : ℕ) × (hash x id ≡ pos h)
  hash_total x (pos n) = let (h, q, eq, bound, sum) = hash_pos x n in (h, eq)
  hash_total x (negsuc n) = let (h, eq, bound, sum) = hash_negsuc x n in (h, eq)

  from_hash_eq :
      (x : Index F) (id : ℤ) (h : ℕ)
      → 0 < size x.shards
      → hash x id ≡ pos h
      → get_shard_from_hash x (hash x id) ≡ get_elem? x.shards.items (h % size x.shards)
  unfolding get_shard_from_hash
  from_hash_eq x id h p e = rw (e, ne→== (size x.shards) 0 (omega arith)) refl

  hashed :
      (x : Index F) (id : ℤ)
      → 0 < size x.shards
      → (s : ℕ) × (get_shard_from_hash x (hash x id) ≡ some s) × Mem s x.shards.items
  hashed x id p =
      let (h, eq) = hash_total x id in
      let (s, found, inside) = in_range x h p in (s, from_hash_eq x id h p eq ∙ found, inside)

  direct_eq :
      (x : Index F) (k : ℕ)
      → 0 < size x.shards
      → k ≢ 2 ^ 31 - 1
      → get_shard_direct x k ≡ get_elem? x.shards.items (k % size x.shards)
  unfolding get_shard_direct
  direct_eq x k p least =
      rw (ne→== k (2 ^ 31 - 1) least, ne→== (size x.shards) 0 (omega arith)) refl

  -- The shard that a request goes to is one of the index's, when there is any, for every document and
  -- every given hash but the least `int`.
  pub compute_shard_total :
      (x : Index F) (document_id : ℤ) (given : Option ℤ)
      → 0 < size x.shards
      → given ≢ some (negsuc (2 ^ 31 - 1))
      → (s : ℕ) × (compute_shard x document_id given ≡ some s) × Mem s x.shards.items
  unfolding compute_shard get_shard_for get_shard_from_hash
  compute_shard_total x document_id none p least = hashed x document_id p
  compute_shard_total x document_id (some (pos n)) p least = hashed x (pos n) p
  compute_shard_total x document_id (some (negsuc k)) p least =
      let (s, found, inside) = in_range x k p in
      (s, direct_eq x k p (λ e. least (ap (λ i. some (negsuc i)) e)) ∙ found, inside)

  -- A hash that is given as `- k - 1` chooses the shard number `k`, counted round, unless it is the
  -- least `int`; a hash that is not negative is treated like the id of a document. Neither depends on
  -- the document.
  pub compute_shard_given :
      (x : Index F) (document_id : ℤ) (k n : ℕ)
      → 0 < size x.shards
      → k ≢ 2 ^ 31 - 1
      → (compute_shard x document_id (some (negsuc k))
          ≡ get_elem? x.shards.items (k % size x.shards))
        × (compute_shard x document_id (some (pos n)) ≡ compute_shard x (pos n) none)
  unfolding compute_shard get_shard_for get_shard_from_hash
  compute_shard_given x document_id k n p least = (direct_eq x k p least, refl)

  -- `index_get_shard_from_hash`, which a search calls on a given hash as it stands, reads out of range
  -- on a negative hash that no multiple of the number of shards is: where `index_compute_shard` would
  -- have chosen a shard.
  pub from_hash_negative :
      (x : Index F) (k : ℕ)
      → 0 < size x.shards
      → suc k % size x.shards ≢ 0
      → get_shard_from_hash x (negsuc k) ≡ none
  unfolding get_shard_from_hash
  from_hash_negative x k p h =
      rw (ne→== (size x.shards) 0 (omega arith)) (negative (suc k % size x.shards) h)
    where
      negative : (r : ℕ) → r ≢ 0 → shard_at x (neg_ℕ r) ≡ none
      negative zero z = absurd (z refl)
      negative (suc r) z = refl

module _ {F : Type 0} ⦃d : Double F⦄ where
  -- the results logged one after another
  abbrev pub results : List (DseResult × F) → Index F → Index F
  results [] x = x
  results ((r, latency) ∷ rs) x = results rs (log_result x r latency)

  log_result_step :
      (x : Index F) (r : DseResult) (latency : F)
      → let y = log_result x r latency in
        (y.total_requests ≡ x.total_requests + 1)
        × (y.results_4xx + y.results_5xx ≡ x.results_4xx + x.results_5xx + 1)
        × (y.shards ≡ x.shards)
        × (y.hash_a ≡ x.hash_a)
        × (y.hash_b ≡ x.hash_b)
  unfolding log_result
  log_result_step x r latency = elim (Bool-cases (code r == 1)) [
    | inl good ↦ rw good (refl, omega arith, refl, refl, refl)
    | inr bad ↦ rw bad (refl, omega arith, refl, refl, refl)
  ]

  -- Every result that is logged is counted once, as a success or as a failure, and the routing of the
  -- index stays.
  pub log_result_counts :
      (rs : List (DseResult × F)) (x : Index F)
      → let y = results rs x in
        (y.total_requests ≡ x.total_requests + length rs)
        × (y.results_4xx + y.results_5xx ≡ x.results_4xx + x.results_5xx + length rs)
        × (y.shards ≡ x.shards)
        × (y.hash_a ≡ x.hash_a)
        × (y.hash_b ≡ x.hash_b)
  log_result_counts [] x = (omega arith, omega arith, refl, refl, refl)
  log_result_counts ((r, latency) ∷ rs) x =
      let (a, b, c, e, f) = log_result_counts rs (log_result x r latency) in
      let (a', b', c', e', f') = log_result_step x r latency in
      (omega (arith, a, a'), omega (arith, b, b'), c ∙ c', e ∙ e', f ∙ f')
