-- ===== src/Requests/Tests/Put.antt =====
-- PUT requests on a shard with two workers.
use distributed_search_engin.Base.{
  ℕ, ◌≡◌, refl, Option, none, some, List, [], ◌∷◌, ◌==◌, if◌then◌else◌, pos, arith,
}
use distributed_search_engin.Double.Sample.{Sample, num, sample}
use distributed_search_engin.Types.{DseResult}
use distributed_search_engin.Types.{code}
use distributed_search_engin.Physical.Ram
use distributed_search_engin.Physical.CpuPool
use distributed_search_engin.Logical.Worker
use distributed_search_engin.Logical.Worker.{Worker, TaskEffect}
use distributed_search_engin.Logical.Worker.DiskTasks.{SameCounts}
use distributed_search_engin.Index.{log_result}
use distributed_search_engin.Requests.Put.{
  PutRequestCtx, PutWriteCtx, Step, State, handle, new_write, primary_done,
}
use distributed_search_engin.Requests.Put.Replies.{play, deliver, primary_ends}
use distributed_search_engin.Requests.Put.Fanout.{Part, primary_gathers, all_effects}
use distributed_search_engin.Requests.Put.Overrun.{overrun}
use distributed_search_engin.Requests.Tests.{world, index}
use distributed_search_engin.Logical.Worker.Sample.{worker}

abbrev request : ℕ → PutRequestCtx Sample
request mem_size = record {
  time = num 1;
  document_id = pos 2;
  cpu_size = num 4;
  mem_size = num mem_size;
  given_hash = none;
  phase = 0;
  shard = 22;
  start_time = num 1;
  completion_time = num 0;
  primary_response = DseResult.ok;
  replica_count = 0;
  replicas_done = 0;
  worst_response = DseResult.ok;
}

-- the request stands at 7
abbrev state : ℕ → State Sample
state mem_size = record {
  world = world;
  requests = λ i. if i == 7 then some (request mem_size) else none;
}

abbrev write : PutWriteCtx
write = new_write 7 22 30

primary_ends_example :
    (s' : State Sample) × (w' : Worker Sample Step) × (play
        (handle 1)
        DseResult.res_5xx
        DseResult.res_4xx
        write
        (state 6)
      ≡ some (s', []))
    × (s'.requests 7 ≡ none)
    × (s'.world.index ≡ log_result index DseResult.res_5xx (sample.sub (num 5) (num 1)))
    × (s'.world.workers 30 ≡ some (Worker.log_result w' DseResult.res_5xx))
    × SameCounts worker w'
primary_ends_example =
    primary_ends (handle 1) DseResult.res_5xx DseResult.res_4xx write (state 6) refl refl refl refl
      refl refl

-- the worker 31 takes the write
abbrev taken : Option (Worker Sample Step × List (TaskEffect Sample Step))
taken =
    Worker.reserve_compute (num 5) 3 (Worker.log_request worker) (num 4) (num 6)
      (some (Step.write_compute_done (new_write 7 22 31)))

abbrev part : Part Sample
part = record {
  number = 31;
  idle = worker;
  started = elim taken [ none ↦ worker | some r ↦ r.0 ];
  effects = elim taken [ none ↦ [] | some r ↦ r.1 ];
}

primary_gathers_example :
    (s' : State Sample) × (primary_done (handle 1) 7 DseResult.res_4xx (state 6)
      ≡ some (s', all_effects (part ∷ [])))
    × (s'.world.index ≡ index)
    × ((s'.world.workers 31 ≡ some part.started) × Unit {0})
    × ((worst : DseResult) × (s'' : State Sample) × (deliver 7 (DseResult.res_5xx ∷ []) s'
          ≡ some s'')
        × (code worst ≡ 2)
        × (s''.requests 7 ≡ none)
        × (s''.world.index ≡ log_result index worst (sample.sub (num 5) (num 1))))
unfolding Worker.reserve_compute Worker.log_request Ram.reserve_pending CpuPool.pool_reserve
primary_gathers_example =
    primary_gathers (handle 1) 7 30 DseResult.res_4xx part [] DseResult.res_5xx [] (state 6) refl
      refl refl refl (tt, tt) ((refl, refl, tt), tt) refl

-- 200 bytes are more than the worker 31 has
overrun_example : primary_done (handle 2) 7 DseResult.res_4xx (state 200) ≡ none
overrun_example =
    overrun 0 7 31 30 DseResult.res_4xx (state 200) refl refl refl (omega arith) refl refl refl
