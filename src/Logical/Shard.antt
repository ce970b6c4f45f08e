-- ===== src/Logical/Shard.antt =====
-- include/components/logical/shard.h, src/components/logical/shard.c: the replicas of a shard and what
-- the profiler is told of them. A row of the four arrays of `struct Shard` is a `Replica`, and the
-- list has the rows below `num_workers`.
pub mod Replicas
use distributed_search_engin.Base.{
  ℕ, zero, suc, ◌+◌, ◌-◌, Bool, true, false, Option, none, some, List, [], ◌∷◌, ◌++◌, map, ◌==◌,
  leb, ltb, if◌then◌else◌, get_elem?, length,
}
use distributed_search_engin.Double.{Double}
use distributed_search_engin.Actor.{Actor, MetricKey, ProfileKv}
use distributed_search_engin.Util.Rng.{Rng, choice_index}

-- the entries `workers[i]`, `cpu_cycles[i]`, `num_requests[i]` and `size[i]`
pub record Replica (F : Type 0) : Type 0 where
  pub worker : ℕ
  pub cpu_cycles : F
  pub num_requests : F
  pub size : F

-- `struct Shard`
pub record Shard (F : Type 0) : Type 0 where
  pub base : Actor F
  pub index : ℕ
  pub replicas : List (Replica F)

-- `SHARD_MAX_WORKERS`
abbrev pub max_workers : ℕ
max_workers = 16

-- `PROFILE_MAX_ENTRIES`
abbrev pub profile_max_entries : ℕ
profile_max_entries = 32

module _ {F : Type 0} where
  abbrev pub workers : Shard F → List ℕ
  workers s = map (λ x. x.worker) s.replicas

  abbrev pub num_workers : Shard F → ℕ
  num_workers s = length s.replicas

  -- `shard_init`
  unfoldable pub init : Actor F → ℕ → Shard F
  init base index = record { base = base; index = index; replicas = [] }

  -- the loop of `shard_worker_index`, from the row `i` on; `none` is the result -1
  unfoldable pub worker_index_loop : List (Replica F) → ℕ → ℕ → Option ℕ
  worker_index_loop [] w i = none
  worker_index_loop (x ∷ xs) w i = if x.worker == w then some i else worker_index_loop xs w (i + 1)

  -- `shard_worker_index`
  unfoldable pub worker_index : Shard F → ℕ → Option ℕ
  unfolding worker_index_loop
  worker_index s w = worker_index_loop s.replicas w 0

  -- assignments to the row `i`
  unfoldable pub modify : List (Replica F) → ℕ → (Replica F → Replica F) → List (Replica F)
  modify [] i f = []
  modify (x ∷ xs) zero f = f x ∷ xs
  modify (x ∷ xs) (suc i) f = x ∷ modify xs i f

  -- what the three log functions share: the row of `w` changes, if there is one
  unfoldable pub log : Shard F → ℕ → (Replica F → Replica F) → Shard F
  unfolding worker_index modify
  log s w f = elim (worker_index s w) [
    | none ↦ s
    | some i ↦ record s { replicas = modify s.replicas i f }
  ]

  -- `shard_any_worker`
  unfoldable pub any_worker : Rng F → Shard F → Option (ℕ × Rng F)
  unfolding choice_index
  any_worker r s =
      if num_workers s == 0
      then none
      else elim (get_elem? (workers s) (choice_index r (num_workers s)).0) [
        | none ↦ none
        | some w ↦ some (w, (choice_index r (num_workers s)).1)
      ]

  -- `shard_primary_worker`; with no worker the value is not set
  abbrev pub primary_worker : Shard F → Option ℕ
  primary_worker s = get_elem? (workers s) 0

  -- `shard_num_replicas`
  abbrev pub num_replicas : Shard F → ℕ
  num_replicas s = if ltb 1 (num_workers s) then num_workers s - 1 else 0

module _ {F : Type 0} ⦃d : Double F⦄ where
  -- a row as the code sets it for a worker that is new in the shard
  abbrev pub fresh_row : ℕ → Replica F
  fresh_row w = record {
    worker = w;
    cpu_cycles = d.of_ℕ 0;
    num_requests = d.of_ℕ 0;
    size = d.of_ℕ 0;
  }

  -- `shard_assign_worker`
  unfoldable pub assign_worker : Shard F → ℕ → Option (Shard F)
  assign_worker s w =
      if ltb (num_workers s) max_workers
      then some (record s { replicas = s.replicas ++ (fresh_row w ∷ []) })
      else none

  -- `shard_reassign`
  unfoldable pub reassign : Shard F → ℕ → ℕ → Option (Shard F)
  unfolding worker_index modify
  reassign s old_worker new_worker = elim (worker_index s old_worker) [
    | none ↦ none
    | some i ↦ some (record s { replicas = modify s.replicas i (λ x. fresh_row new_worker) })
  ]

  -- `shard_log_request`
  unfoldable pub log_request : Shard F → ℕ → Shard F
  unfolding log
  log_request s w = log s w (λ x. record x { num_requests = d.add x.num_requests (d.of_ℕ 1) })

  -- `shard_log_compute`
  unfoldable pub log_compute : Shard F → ℕ → F → Shard F
  unfolding log
  log_compute s w cycles = log s w (λ x. record x { cpu_cycles = d.add x.cpu_cycles cycles })

  -- `shard_log_size`
  unfoldable pub log_size : Shard F → ℕ → F → Shard F
  unfolding log
  log_size s w sz = log s w (λ x. record x { size = d.add x.size sz })

  -- the three entries of a row; a worker's `base.id` is read through `id_of`
  abbrev pub row_entries : (ℕ → ℕ) → Replica F → List (ProfileKv F)
  row_entries id_of x =
      record { key = MetricKey.cpu_cycles (id_of x.worker); value = x.cpu_cycles }
      ∷ record { key = MetricKey.num_requests (id_of x.worker); value = x.num_requests }
      ∷ record { key = MetricKey.size (id_of x.worker); value = x.size }
      ∷ []

  -- the loop of `shard_run_profiler`, with `count` entries written
  unfoldable pub profile_loop :
      (ℕ → ℕ) → List (Replica F) → ℕ → List (ProfileKv F) × List (Replica F)
  profile_loop id_of [] count = ([], [])
  profile_loop id_of (x ∷ xs) count =
      let rest = profile_loop id_of xs (count + 3) in
      if leb (count + 3) profile_max_entries
      then (row_entries id_of x ++ rest.0, fresh_row x.worker ∷ rest.1)
      else ([], x ∷ xs)

  -- `shard_run_profiler`
  unfoldable pub run_profiler : (ℕ → ℕ) → Shard F → List (ProfileKv F) × Shard F
  unfolding profile_loop
  run_profiler id_of s =
      let done = profile_loop id_of s.replicas 0 in (done.0, record s { replicas = done.1 })
