-- ===== src/Requests/Search/Select.antt =====
-- src/requests/http/search.c: the shards that a SEARCH request asks, the worker for each of them, and the
-- worker that collates the answers.
use distributed_search_engin.Base.{
  ℕ, suc, ◌+◌, Bool, false, ◌||◌, Option, some, ◌>>=◌, List, [], ◌∷◌, ◌++◌, ◌==◌, ltb,
  if◌then◌else◌, ℤ,
}
use distributed_search_engin.Double.{Double}
use distributed_search_engin.Util.Rng.{Rng, double}
use distributed_search_engin.Logical.Shard
use distributed_search_engin.Logical.Shard.{Shard}
use distributed_search_engin.Index
use distributed_search_engin.Index.{Index, get_shard_from_hash}

-- the search for a duplicate in `search_phase_arrived`
unfoldable pub has : List ℕ → ℕ → Bool
has [] s = false
has (t ∷ ts) s = t == s || has ts s

-- how often a worker was chosen
unfoldable pub count_of : List ℕ → ℕ → ℕ
count_of [] w = 0
count_of (v ∷ vs) w = let rest = count_of vs w in if v == w then suc rest else rest

module _ {F : Type 0} where
  -- the shards of the given hashes, each once; `temp` has those that are found already
  unfoldable pub distinct_shards : Index F → List ℤ → List ℕ → Option (List ℕ)
  unfolding has
  distinct_shards x [] temp = some temp
  distinct_shards x (h ∷ hs) temp = do
    s ← Index.get_shard_from_hash x h
    distinct_shards x hs (if has temp s then temp else temp ++ (s ∷ []))

  -- the relevant shards: all, or those of the given hashes
  unfoldable pub relevant : Index F → List ℤ → Option (List ℕ)
  unfolding distinct_shards
  relevant x [] = some x.shards.items
  relevant x (h ∷ hs) = distinct_shards x (h ∷ hs) []

  -- a random worker for each shard
  unfoldable pub cover : (ℕ → Option (Shard F)) → List ℕ → Rng F → Option (List ℕ × Rng F)
  cover shards [] rng = some ([], rng)
  cover shards (s ∷ ss) rng = do
    shard ← shards s
    choice ← Shard.any_worker rng shard
    rest ← cover shards ss choice.1
    some (choice.0 ∷ rest.0, rest.1)

module _ {F : Type 0} ⦃d : Double F⦄ where
  -- The choice of the worker that collates, from the entry `i` on: the one that most shards have, and
  -- a draw decides between equals.
  unfoldable pub pick : List ℕ → List ℕ → (i best_idx best_count : ℕ) → Rng F → ℕ × Rng F
  unfolding count_of
  pick all [] i best_idx best_count rng = (best_idx, rng)
  pick all (w ∷ ws) i best_idx best_count rng =
      let count = count_of all w in
      let draw = double rng in
      let taken = pick all ws (i + 1) i count rng in
      let drawn = pick all ws (i + 1) i count draw.1 in
      let kept = pick all ws (i + 1) best_idx best_count draw.1 in
      let skipped = pick all ws (i + 1) best_idx best_count rng in
      if ltb best_count count
      then taken
      else if count == best_count
      then (if d.lt (d.decimal 5 1) draw.0 then drawn else kept)
      else skipped
