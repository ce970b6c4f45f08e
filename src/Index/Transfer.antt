-- ===== src/Index/Transfer.antt =====
-- src/collection/index.c: the creation of shards, and their transfer to new workers in a blue-green
-- deployment. The shards of an index are here the objects, in the order of its array.
use native.Mathlib.Nat.{mod-lt}
use distributed_search_engin.Base.{
  ℕ, suc, ◌+◌, ◌%◌, ◌<◌, ◌≡◌, refl, ap, ap₂, map, get_elem?_in_range, Option, some, ◌>>=◌, List, [],
  ◌∷◌, ◌++◌, ◌==◌, if◌then◌else◌, get_elem?, length, ne→==, arith,
}
use distributed_search_engin.Double.{Double}
use distributed_search_engin.Actor.{Actor}
use distributed_search_engin.Logical.Shard
use distributed_search_engin.Logical.Shard.{
  Replica, Shard, fresh_row, assign_worker, workers, num_workers,
}

add_zero : (i : ℕ) → i + 0 ≡ i
add_zero i = omega arith

add_suc : (i n : ℕ) → i + suc n ≡ i + 1 + n
add_suc i n = omega arith

module _ {F : Type 0} ⦃d : Double F⦄ where
  -- `index_create_shard`, on an actor that `actor_init` has made
  unfoldable pub create_shard :
      Actor F → (index worker : ℕ) → List (Shard F) → Option (List (Shard F))
  unfolding assign_worker Shard.init
  create_shard actor index worker shards = do
    s ← assign_worker (Shard.init actor index) worker
    some (shards ++ (s ∷ []))

  -- the loop of `index_create_shards`, over the actors that are made
  unfoldable pub create_shards :
      List (Actor F) → (index worker : ℕ) → List (Shard F) → Option (List (Shard F))
  unfolding create_shard
  create_shards [] index worker shards = some shards
  create_shards (a ∷ actors) index worker shards = do
    shards' ← create_shard a index worker shards
    create_shards actors index worker shards'

  -- the loop of `index_create_shards_distributed`, from its round `i` on
  unfoldable pub create_loop :
      List (Actor F) → ℕ → (index : ℕ) → List ℕ → List (Shard F) → Option (List (Shard F))
  unfolding create_shard
  create_loop [] i index all_workers shards = some shards
  create_loop (a ∷ actors) i index all_workers shards = do
    w ← get_elem? all_workers (i % length all_workers)
    shards' ← create_shard a index w shards
    create_loop actors (i + 1) index all_workers shards'

  -- `index_create_shards_distributed`
  unfoldable pub create_shards_distributed :
      List (Actor F) → (index : ℕ) → List ℕ → List (Shard F) → Option (List (Shard F))
  unfolding create_loop
  create_shards_distributed actors index all_workers shards =
      if length all_workers == 0 then some shards else create_loop actors 0 index all_workers shards

  -- the inner loop of `index_transfer_shards_for_blue_green`: the rows of a shard, with the counter
  -- `nw_idx`; `none` is a read out of range
  unfoldable pub transfer_rows : List ℕ → ℕ → List (Replica F) → Option (List (Replica F))
  transfer_rows new_workers nw_idx [] = some []
  transfer_rows new_workers nw_idx (x ∷ xs) = do
    w ← get_elem? new_workers (nw_idx % length new_workers)
    rest ← transfer_rows new_workers (nw_idx + 1) xs
    some (fresh_row w ∷ rest)

  -- its outer loop
  unfoldable pub transfer_loop : List ℕ → ℕ → List (Shard F) → Option (List (Shard F))
  unfolding transfer_rows
  transfer_loop new_workers nw_idx [] = some []
  transfer_loop new_workers nw_idx (s ∷ shards) = do
    rows ← transfer_rows new_workers nw_idx s.replicas
    rest ← transfer_loop new_workers (nw_idx + num_workers s) shards
    some (record s { replicas = rows } ∷ rest)

  -- `index_transfer_shards_for_blue_green`
  unfoldable pub transfer_shards_for_blue_green : List ℕ → List (Shard F) → Option (List (Shard F))
  unfolding transfer_loop
  transfer_shards_for_blue_green new_workers shards =
      if length new_workers == 0 then some shards else transfer_loop new_workers 0 shards

  -- all rows of the shards, in order
  abbrev pub rows : List (Shard F) → List (Replica F)
  rows [] = []
  rows (s ∷ shards) = s.replicas ++ rows shards

  -- The rows of one shard are dealt round.
  pub data Dealt (new_workers : List ℕ) : ℕ → List (Replica F) → Type 0 where
    none_left : {i : ℕ} → Dealt new_workers i []
    next :
        {i : ℕ} (w : ℕ) (xs : List (Replica F))
        → get_elem? new_workers (i % length new_workers) ≡ some w
        → Dealt new_workers (i + 1) xs
        → Dealt new_workers i (fresh_row w ∷ xs)

  rows_total :
      (new_workers : List ℕ) (xs : List (Replica F)) (i : ℕ)
      → 0 < length new_workers
      → (ys : List (Replica F)) × (transfer_rows new_workers i xs ≡ some ys)
        × (length ys ≡ length xs)
        × ((zs : List (Replica F))
            → Dealt new_workers (i + length xs) zs
            → Dealt new_workers i (ys ++ zs))
  unfolding transfer_rows
  rows_total new_workers [] i p = ([], refl, refl, λ zs dealt. rw (add_zero i) at dealt)
  rows_total new_workers (x ∷ xs) i p =
      let (w, chosen) = get_elem?_in_range new_workers (i % length new_workers) (mod-lt i p) in
      let (ys, done, same, dealt) = rows_total new_workers xs (i + 1) p in
      (
        fresh_row w ∷ ys,
        rw (chosen, done) refl,
        ap suc same,
        λ zs later. Dealt.next w (ys ++ zs) chosen (dealt zs (rw (add_suc i (length xs)) at later)),
      )

  transfer_total :
      (new_workers : List ℕ) (shards : List (Shard F)) (i : ℕ)
      → 0 < length new_workers
      → (shards' : List (Shard F)) × (transfer_loop new_workers i shards ≡ some shards')
        × Dealt new_workers i (rows shards')
        × (map num_workers shards' ≡ map num_workers shards)
  unfolding transfer_loop
  transfer_total new_workers [] i p = ([], refl, Dealt.none_left, refl)
  transfer_total new_workers (s ∷ shards) i p =
      let (ys, done, same, dealt) = rows_total new_workers s.replicas i p in
      let (shards', rest, later, sizes) = transfer_total new_workers shards (i + num_workers s) p in
      (
        record s { replicas = ys } ∷ shards',
        rw (done, rest) refl,
        dealt (rows shards') later,
        ap₂ (λ n ns. n ∷ ns) same sizes,
      )

  -- The transfer to new workers, of which there is one at least, succeeds. It deals the new workers
  -- round over all replicas of all shards, in order, each with all metrics 0, and every shard keeps
  -- its number of replicas.
  pub transfer_round_robin :
      (new_workers : List ℕ) (shards : List (Shard F))
      → 0 < length new_workers
      → (shards' : List (Shard F)) × (transfer_shards_for_blue_green new_workers shards
          ≡ some shards')
        × Dealt new_workers 0 (rows shards')
        × (map num_workers shards' ≡ map num_workers shards)
  unfolding transfer_shards_for_blue_green
  transfer_round_robin new_workers shards p =
      rw (ne→== (length new_workers) 0 (omega arith)) (transfer_total new_workers shards 0 p)
