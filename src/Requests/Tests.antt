-- ===== src/Requests/Tests.antt =====
-- A GET request that is played to its end, and what the tests of requests share.
mod Put
mod Search
use distributed_search_engin.Base.{
  ℕ, ◌≡◌, refl, ◌||◌, true, false, none, some, [], ◌∷◌, ◌==◌, if◌then◌else◌, pos,
}
use distributed_search_engin.Double.Sample.{Sample, num, minus, sample}
use distributed_search_engin.Types.{ActorType, DseResult, WorkerStatus}
use distributed_search_engin.Actor.{Actor}
use distributed_search_engin.Physical.Cpu.{Cpu}
use distributed_search_engin.Logical.Worker.Sample.{worker, task_actor}
use distributed_search_engin.Logical.Shard.{Shard, Replica}
use distributed_search_engin.Index.{Index}
use distributed_search_engin.Requests.World.{World}
use distributed_search_engin.Requests.Get.{GetRequestCtx, Step}
use distributed_search_engin.Requests.Get.Phases.{play, play_logs_once}

abbrev pub index : Index Sample
index = record {
  base = record {
    id = 1;
    type = ActorType.index;
    profiled = true;
    last_profiled = num 0;
    generation = 0;
  };
  name = [];
  shards = record { items = 20 ∷ 21 ∷ 22 ∷ []; capacity = 16 };
  hash_a = 5;
  hash_b = 7;
  total_requests = 0;
  total_latency = num 0;
  results_4xx = 0;
  results_5xx = 0;
  num_replicas = 0;
}

abbrev row : ℕ → Replica Sample
row w = record { worker = w; cpu_cycles = num 0; num_requests = num 0; size = num 0 }

abbrev pub shard : Shard Sample
shard = record { base = task_actor ActorType.shard; index = 1; replicas = row 30 ∷ row 31 ∷ [] }

abbrev request : GetRequestCtx Sample
request = record {
  time = num 1;
  document_id = pos 2;
  cpu_size = num 4;
  mem_size = num 6;
  given_hash = none;
  phase = 1;
  shard = 22;
  worker = 30;
  start_time = num 1;
  completion_time = num 0;
}

-- The workers 30 and 31 are alike, and the shard 22 has both.
abbrev pub world : {K : Type 0} → World Sample K
world = record {
  now = num 5;
  limit = 3;
  rng = record { s0 = 1; s1 = 2; s2 = 3; s3 = 4; has_spare = false; spare = num 0 };
  index = index;
  shards = λ i. if i == 22 then some shard else none;
  workers = λ i. if i == 30 || i == 31 then some worker else none;
}

play_logs_once_example :
    (world' : World Sample (Step Sample)) × (play DseResult.res_4xx DseResult.err_ram_capacity
        request world
      ≡ some world')
    × (world'.index.total_requests ≡ 1)
    × (world'.index.results_4xx ≡ 0)
    × (world'.index.results_5xx ≡ 1)
play_logs_once_example =
    play_logs_once DseResult.res_4xx DseResult.err_ram_capacity request world refl
