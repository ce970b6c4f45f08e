-- ===== src/Types.antt =====
-- include/types.h: the enumerations that the components share.
use distributed_search_engin.Base.{ℕ, Bool, ◌||◌, ◌==◌, leb, if◌then◌else◌}

-- `DseResult`
pub data DseResult : Type 0 where
  ok res_4xx res_5xx err_queue_full err_ram_capacity err_cpu_shutdown : DseResult
  err_worker_shutdown err_not_steady err_invalid_scaling err_disabled_queue : DseResult
  err_invalid_index : DseResult

-- the number of an enumerator, by which the code compares results
abbrev pub code : DseResult → ℕ
code DseResult.ok = 0
code DseResult.res_4xx = 1
code DseResult.res_5xx = 2
code DseResult.err_queue_full = 3
code DseResult.err_ram_capacity = 4
code DseResult.err_cpu_shutdown = 5
code DseResult.err_worker_shutdown = 6
code DseResult.err_not_steady = 7
code DseResult.err_invalid_scaling = 8
code DseResult.err_disabled_queue = 9
code DseResult.err_invalid_index = 10

-- `dse_result_to_response`
unfoldable pub result_to_response : DseResult → DseResult
result_to_response r = if code r == 0 || code r == 1 then DseResult.res_4xx else DseResult.res_5xx

-- `dse_is_error`
abbrev pub is_error : DseResult → Bool
is_error r = leb 2 (code r)

-- `ActorType`, and `ACTOR_TYPE_COUNT`
pub data ActorType : Type 0 where
  cpu cpu_pool ram disk worker shard index profiler agent : ActorType

abbrev pub actor_type_count : ℕ
actor_type_count = 9

-- `WorkerStatus`
pub data WorkerStatus : Type 0 where
  obsolete blue green : WorkerStatus

-- `DiskOp`
pub data DiskOp : Type 0 where
  read write : DiskOp

-- `RequestType`
pub data RequestType : Type 0 where
  get put search_request : RequestType

-- `ActionType`
pub data ActionType : Type 0 where
  scale_up scale_down scale_out scale_in scale_to shut_down : ActionType
