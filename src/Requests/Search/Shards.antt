-- ===== src/Requests/Search/Shards.antt =====
-- The shards that a SEARCH request asks.
use native.Mathlib.Nat.{mod-lt}
use distributed_search_engin.Base.{
  ℕ, ◌+◌, ◌%◌, ◌≤◌, ◌<◌, ◌≡◌, refl, sym, ap, ◌∙◌, inl, inr, true, false, ◌||◌, some, List, [], ◌∷◌,
  ◌++◌, map, ◌==◌, ltb, if◌then◌else◌, get_or, get_elem?-get_or, Bool-cases, ==_iff, arith, pos,
}
use distributed_search_engin.Util.DynArray.{size}
use distributed_search_engin.Index.{Index, get_shard_from_hash}
use distributed_search_engin.Requests.Search.Select.{has, count_of, distinct_shards, relevant}

count-append :
    (xs : List ℕ) (s w : ℕ)
    → count_of (xs ++ (s ∷ [])) w ≡ count_of xs w + (if s == w then 1 else 0)
unfolding count_of
count-append [] s w = elim (Bool-cases (s == w)) [ inl e ↦ rw e refl | inr e ↦ rw e refl ]
count-append (x ∷ xs) s w =
    let later = count-append xs s w in
    elim (Bool-cases (x == w)) [ inl e ↦ rw (e, later) (omega arith) | inr e ↦ rw (e, later) refl ]

has-count : (xs : List ℕ) (w : ℕ) → has xs w ≡ ltb 0 (count_of xs w)
unfolding has count_of
has-count [] w = refl
has-count (x ∷ xs) w = elim (Bool-cases (x == w)) [
  | inl e ↦ rw e (ground arith)
  | inr e ↦ rw e (has-count xs w)
]

-- `s` is kept in a list in which nothing occurs twice
kept_once :
    (temp : List ℕ) (s w : ℕ)
    → count_of temp s ≤ 1
    → count_of temp w ≤ 1
    → count_of (if has temp s then temp else temp ++ (s ∷ [])) w
      ≡ (if s == w then 1 else count_of temp w)
kept_once temp s w one one' =
    let seen = has-count temp s in
    elim (Bool-cases (s == w)) [
      | inl same ↦
          let moved = ap (count_of temp) ((==_iff s w).0 same) in
          elim (Bool-cases (has temp s)) [
            | inl e ↦
                let there : ltb 0 (count_of temp s) ≡ true = sym seen ∙ e in
                rw (e, same) (ground (arith, there, moved, one))
            | inr e ↦
                let away : ltb 0 (count_of temp s) ≡ false = sym seen ∙ e in
                rw (e, count-append temp s w, same) (ground (arith, away, moved))
          ]
      | inr other ↦ elim (Bool-cases (has temp s)) [
        | inl e ↦ rw (e, other) refl
        | inr e ↦ rw (e, count-append temp s w, other) (omega arith)
      ]
    ]

module _ {F : Type 0} where
  -- the shard of a hash that is not negative
  abbrev pub target : Index F → ℕ → ℕ
  target x n = get_or x.shards.items (n % size x.shards) 0

  target_found :
      (x : Index F) (n : ℕ) → 0 < size x.shards → get_shard_from_hash x (pos n) ≡ some (target x n)
  unfolding get_shard_from_hash
  target_found x n some_there =
      let inside = mod-lt n some_there in
      let not_empty : (size x.shards == 0) ≡ false = ground arith in
      rw not_empty (get_elem?-get_or x.shards.items (n % size x.shards) 0 inside)

  distinct_from :
      (x : Index F) (ns temp : List ℕ)
      → 0 < size x.shards
      → ((w : ℕ) → count_of temp w ≤ 1)
      → (ss : List ℕ) × (distinct_shards x (map pos ns) temp ≡ some ss)
        × ((w : ℕ)
            → count_of ss w ≡ (
                if ltb 0 (count_of temp w) || ltb 0 (count_of (map (target x) ns) w) then 1 else 0))
  unfolding distinct_shards count_of
  distinct_from x [] temp some_there once = (temp, refl, λ w. ground (arith, once w))
  distinct_from x (n ∷ ns) temp some_there once =
      let s = target x n in
      let temp' = if has temp s then temp else temp ++ (s ∷ []) in
      let step : (w : ℕ) → count_of temp' w ≡ (if s == w then 1 else count_of temp w) =
        λ w. kept_once temp s w (once s) (once w) in
      let (ss, found, counts) =
        distinct_from x ns temp' some_there (λ w. ground (arith, step w, once w)) in
      (ss, rw (target_found x n some_there) found, λ w. counts w ∙ ground (arith, step w))

  -- The shards that a search with given hashes asks: every shard to which one of the hashes goes is
  -- among them exactly once, and no other shard is. The hashes are not negative, and the index has a
  -- shard.
  pub relevant_once :
      (x : Index F) (n : ℕ) (ns : List ℕ)
      → 0 < size x.shards
      → (ss : List ℕ) × (relevant x (map pos (n ∷ ns)) ≡ some ss)
        × ((w : ℕ)
            → count_of ss w ≡ (if ltb 0 (count_of (map (target x) (n ∷ ns)) w) then 1 else 0))
  unfolding relevant count_of
  relevant_once x n ns some_there = distinct_from x (n ∷ ns) [] some_there (λ w. omega arith)
