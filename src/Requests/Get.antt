-- ===== src/Requests/Get.antt =====
-- include/requests/request.h, src/requests/http/get.c: a GET request, as a state machine over a shard and
-- a worker. The continuations that the request gives to its worker are a `Step`.
pub mod Phases
use distributed_search_engin.Base.{
  ℕ, Option, none, some, ◌>>=◌, List, [], ◌==◌, if◌then◌else◌, ℤ, put_at,
}
use distributed_search_engin.Double.{Double}
use distributed_search_engin.Types.{DseResult, DiskOp, is_error}
use distributed_search_engin.Util.Rng.{Rng}
use distributed_search_engin.Logical.Shard
use distributed_search_engin.Logical.Shard.{Shard}
use distributed_search_engin.Logical.Worker
use distributed_search_engin.Logical.Worker.{TaskEffect, response}
use distributed_search_engin.Index
use distributed_search_engin.Requests.World.{World}

-- `GetRequestCtx`, of one index; the shard and the worker are set on arrival, as is `start_time`
pub record GetRequestCtx (F : Type 0) : Type 0 where
  pub time : F
  pub document_id : ℤ
  pub cpu_size : F
  pub mem_size : F
  pub given_hash : Option ℤ
  pub phase : ℕ
  pub shard : ℕ
  pub worker : ℕ
  pub start_time : F
  pub completion_time : F

-- the continuations CONT(get_phase_compute_done, ctx) and CONT(get_phase_disk_done, ctx)
pub data Step (F : Type 0) : Type 0 where
  compute_done disk_done : GetRequestCtx F → Step F

module _ {F : Type 0} ⦃d : Double F⦄ where
  -- `get_request_start`: the time at which `get_phase_arrived` is scheduled on the context
  unfoldable pub start : GetRequestCtx F → F × GetRequestCtx F
  start ctx = (ctx.time, record ctx { phase = 0 })

  -- `get_phase_arrived`
  unfoldable pub arrived :
      GetRequestCtx F → World F (Step F) → Option (World F (Step F) × List (TaskEffect F (Step F)))
  arrived ctx world = do
    s ← Index.compute_shard world.index ctx.document_id ctx.given_hash
    shard ← world.shards s
    choice ← Shard.any_worker world.rng shard
    let w = choice.0
    let logged = Shard.log_compute (Shard.log_request shard w) w ctx.cpu_size
    worker ← world.workers w
    let ctx' = record ctx { start_time = world.now; shard = s; worker = w; phase = 1 }
    r ←
        Worker.reserve_compute world.now world.limit (Worker.log_request worker) ctx.cpu_size
          ctx.mem_size (some (Step.compute_done ctx'))
    some (
      record world {
        rng = choice.1;
        shards = put_at world.shards s logged;
        workers = put_at world.workers w r.0;
      },
      r.1,
    )

  -- the end of a request: the result is logged with the worker and with the index
  unfoldable pub finish : GetRequestCtx F → DseResult → World F (Step F) → Option (World F (Step F))
  finish ctx result world = do
    worker ← world.workers ctx.worker
    some (record world {
      workers = put_at world.workers ctx.worker (Worker.log_result worker result);
      index = Index.log_result world.index result (d.sub world.now ctx.start_time);
    })

  -- `get_phase_compute_done`
  unfoldable pub phase_compute_done :
      GetRequestCtx F
      → DseResult
      → World F (Step F)
      → Option (World F (Step F) × List (TaskEffect F (Step F)))
  unfolding finish
  phase_compute_done ctx result world =
      let ctx' = record ctx { phase = 2 } in
      let failed = finish ctx DseResult.res_5xx world >>= λ world'. some (world', []) in
      let read = world.workers ctx.worker >>= λ worker.
      Worker.reserve_disk world.now worker DiskOp.read ctx.mem_size (some (Step.disk_done ctx'))
      >>= λ r. some (record world { workers = put_at world.workers ctx.worker r.0 }, r.1) in
      if is_error result then failed else read

  -- `get_phase_disk_done`
  unfoldable pub phase_disk_done :
      GetRequestCtx F → DseResult → World F (Step F) → Option (World F (Step F))
  unfolding finish
  phase_disk_done ctx result world = finish ctx (response result) world
