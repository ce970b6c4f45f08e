-- ===== src/Index/Tests.antt =====
-- Runs of the routing of documents, and instances of its theorems.
use mathlib.Core.List.{Mem}
use distributed_search_engin.Base.{
  ℕ, ◌+◌, ◌-◌, ◌*◌, ◌%◌, ◌≡◌, ◌<◌, refl, true, none, some, [], ◌∷◌, pos, negsuc, arith,
}
use distributed_search_engin.Double.Sample.{Sample, num, sample}
use distributed_search_engin.Types.{ActorType}
use distributed_search_engin.Index.{
  Index, hash_p, hash, get_shard_from_hash, get_shard_for, get_shard_direct, compute_shard,
}
use distributed_search_engin.Index.Routing.{compute_shard_total, hash_negsuc, from_hash_negative}
use distributed_search_engin.Base.{List, map}
use distributed_search_engin.Logical.Shard.{Replica, Shard, num_workers}
use distributed_search_engin.Index.Transfer.{
  transfer_shards_for_blue_green, Dealt, rows, transfer_round_robin,
}

abbrev index : Index Sample
index = record {
  base = record {
    id = 1;
    type = ActorType.index;
    profiled = true;
    last_profiled = num 0;
    generation = 0;
  };
  name = [];
  shards = record { items = 20 ∷ 21 ∷ 22 ∷ []; capacity = 16 };
  hash_a = 5;
  hash_b = 7;
  total_requests = 0;
  total_latency = num 0;
  results_4xx = 0;
  results_5xx = 0;
  num_replicas = 0;
}

routes :
    (compute_shard index (pos 2) none ≡ some 22)
    × (compute_shard index (pos 2) (some (negsuc 4)) ≡ some 21)
    × (hash index (negsuc 1) ≡ pos (hash_p + 7 - 10))
unfolding compute_shard get_shard_for get_shard_direct hash get_shard_from_hash
routes = (refl, refl, refl)

compute_shard_total_example :
    (s : ℕ) × (compute_shard index (negsuc 8) none ≡ some s) × Mem s index.shards.items
compute_shard_total_example =
    compute_shard_total index (negsuc 8) none (omega arith) (λ e. absurd (cc))

hash_negsuc_example :
    (h : ℕ) × (hash index (negsuc 1) ≡ pos h) × (h < hash_p) × ((h + 5 * 2) % hash_p ≡ 7 % hash_p)
hash_negsuc_example = hash_negsuc index 1

from_hash_negative_example : get_shard_from_hash index (negsuc 4) ≡ none
from_hash_negative_example = from_hash_negative index 4 (omega arith) (omega arith)

abbrev replica : ℕ → Replica Sample
replica w = record { worker = w; cpu_cycles = num 4; num_requests = num 1; size = num 2 }

abbrev shard : List (Replica Sample) → Shard Sample
shard l = record { base = index.base; index = 1; replicas = l }

abbrev two_shards : List (Shard Sample)
two_shards = shard (replica 1 ∷ replica 2 ∷ []) ∷ shard (replica 3 ∷ []) ∷ []

transfer_round_robin_example :
    (shards' : List (Shard Sample)) × (transfer_shards_for_blue_green (8 ∷ 9 ∷ []) two_shards
      ≡ some shards')
    × Dealt (8 ∷ 9 ∷ []) 0 (rows shards')
    × (map num_workers shards' ≡ 2 ∷ 1 ∷ [])
transfer_round_robin_example = transfer_round_robin (8 ∷ 9 ∷ []) two_shards (omega arith)
