-- ===== src/Requests/Tests/Search.antt =====
-- SEARCH requests on an index with three shards.
use distributed_search_engin.Base.{
  ℕ, ◌≤◌, ◌<◌, ◌≡◌, refl, Option, none, some, List, [], ◌∷◌, map, ◌==◌, ltb, if◌then◌else◌, pos,
  get_or, All, false, arith,
}
use distributed_search_engin.Double.Sample.{Sample, num, sample}
use distributed_search_engin.Types.{DseResult, code}
use distributed_search_engin.Util.Rng.{Rng, double}
use distributed_search_engin.Physical.Ram
use distributed_search_engin.Physical.CpuPool
use distributed_search_engin.Logical.Worker
use distributed_search_engin.Logical.Worker.{Worker, TaskEffect}
use distributed_search_engin.Index.{log_result}
use distributed_search_engin.Requests.Search.{SearchRequestCtx, Step, State, handle, collation_done}
use distributed_search_engin.Requests.Search.Select.{count_of, relevant, pick}
use distributed_search_engin.Requests.Search.Shards.{target, relevant_once}
use distributed_search_engin.Requests.Search.Best.{pick_best}
use distributed_search_engin.Requests.Search.Answers.{deliver, answers_fail, answers_collate}
use distributed_search_engin.Requests.Tests.{world, index}
use distributed_search_engin.Logical.Worker.Sample.{worker}

relevant_once_example :
    (ss : List ℕ) × (relevant index (map pos (5 ∷ 8 ∷ 4 ∷ [])) ≡ some ss)
    × ((w : ℕ)
        → count_of ss w
          ≡ (if ltb 0 (count_of (map (target index) (5 ∷ 8 ∷ 4 ∷ [])) w) then 1 else 0))
relevant_once_example = relevant_once index 5 (8 ∷ 4 ∷ []) (omega arith)

abbrev rng : Rng Sample
rng = record { s0 = 1; s1 = 2; s2 = 3; s3 = 4; has_spare = false; spare = num 0 }

abbrev chosen_workers : List ℕ
chosen_workers = 31 ∷ 30 ∷ 30 ∷ []

pick_best_example :
    let best = (pick chosen_workers chosen_workers 0 0 0 rng).0 in
    (best < 3)
    × All
        (λ v. count_of chosen_workers v ≤ count_of chosen_workers (get_or chosen_workers best 0))
        chosen_workers
pick_best_example = pick_best 31 (30 ∷ 30 ∷ []) rng

abbrev request : SearchRequestCtx Sample
request = record {
  time = num 1;
  cpu_size_query = num 4;
  mem_size_query = num 6;
  cpu_size_response = num 2;
  mem_size_response = num 3;
  cpu_size_collate = num 1;
  given_hashes = [];
  phase = 0;
  start_time = num 1;
  completion_time = num 0;
  shards = 20 ∷ 21 ∷ 22 ∷ [];
  workers = chosen_workers;
  num_shards = 3;
  shards_done = 0;
  worst_response = DseResult.res_4xx;
}

-- the request stands at 7
abbrev state : State Sample
state = record { world = world; requests = λ i. if i == 7 then some request else none }

abbrev all_fine : List DseResult
all_fine = DseResult.res_4xx ∷ DseResult.res_4xx ∷ []

answers_fail_example :
    (worst : DseResult) × (s' : State Sample) × (deliver
        (handle 1)
        7
        (DseResult.res_5xx ∷ all_fine)
        state
      ≡ some (s', []))
    × (code worst ≡ 2)
    × (s'.requests 7 ≡ none)
    × (s'.world.workers ≡ state.world.workers)
    × (s'.world.index ≡ log_result index worst (sample.sub (num 5) (num 1)))
answers_fail_example =
    answers_fail (handle 1) 7 DseResult.res_5xx all_fine state refl refl refl refl (omega arith)

-- the worker 30 takes the collation
abbrev taken : Option (Worker Sample Step × List (TaskEffect Sample Step))
taken = Worker.reserve_compute (num 5) 3 worker (num 1) (num 9) (some (Step.collate_done 7))

abbrev started : Worker Sample Step
started = elim taken [ none ↦ worker | some r ↦ r.0 ]

abbrev effects : List (TaskEffect Sample Step)
effects = elim taken [ none ↦ [] | some r ↦ r.1 ]

answers_collate_example :
    let w = get_or chosen_workers (pick chosen_workers chosen_workers 0 0 0 rng).0 0 in
    (s' : State Sample) × (s'' : State Sample) × (deliver
        (handle 1)
        7
        (DseResult.res_4xx ∷ all_fine)
        state
      ≡ some (s', effects))
    × (s'.world.index ≡ index)
    × (s'.world.workers w ≡ some started)
    × All (λ u. count_of chosen_workers u ≤ count_of chosen_workers w) chosen_workers
    × (collation_done 7 DseResult.err_queue_full s' ≡ some s'')
    × (s''.requests 7 ≡ none)
    × (s''.world.index ≡ log_result index DseResult.res_5xx (sample.sub (num 5) (num 1)))
unfolding Worker.reserve_compute pick double Ram.reserve_pending CpuPool.pool_reserve
answers_collate_example =
    answers_collate (handle 1) 7 DseResult.res_4xx DseResult.err_queue_full all_fine state
      {worker' = started} {effects = effects} refl refl refl refl refl (omega arith) refl refl tt
