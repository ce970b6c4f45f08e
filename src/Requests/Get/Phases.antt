-- ===== src/Requests/Get/Phases.antt =====
-- What becomes of a GET request that has arrived.
use distributed_search_engin.Base.{
  ◌+◌, ◌≡◌, refl, inl, inr, Bool, true, false, not, ◌&&◌, Option, none, some, ◌>>=◌, List, [], ◌∷◌,
  if◌then◌else◌, Bool-cases, arith, put_at, put_at_same,
}
use distributed_search_engin.Double.{Double}
use distributed_search_engin.Types.{DseResult, DiskOp, is_error}
use distributed_search_engin.Logical.Worker
use distributed_search_engin.Logical.Worker.{
  Worker, TaskEffect, response, Wrap, Last, last, reserve_disk, disk_inner_launch,
}
use distributed_search_engin.Logical.Worker.DiskTasks.{continuations, reserve_disk_total}
use distributed_search_engin.Index.{log_result}
use distributed_search_engin.Requests.World.{World}
use distributed_search_engin.Requests.Get.{
  GetRequestCtx, Step, finish, phase_compute_done, phase_disk_done,
}

response_eq :
    (r : DseResult)
    → response r ≡ (if not (is_error r) then DseResult.res_4xx else DseResult.res_5xx)
response_eq r = elim (Bool-cases (is_error r)) [ inl e ↦ rw e refl | inr e ↦ rw e refl ]

module _ {F : Type 0} ⦃d : Double F⦄ where
  -- The steps that a phase has left to its worker, with the result that the worker gives.
  abbrev pub resume : List (Step F) → DseResult → World F (Step F) → Option (World F (Step F))
  resume [] read world = some world
  resume (Step.disk_done ctx ∷ steps) read world =
      phase_disk_done ctx read world >>= resume steps read
  resume (Step.compute_done ctx ∷ steps) read world = none

  -- A request from the end of its computation: `get_phase_compute_done`, and the continuations that it
  -- has given to its worker.
  abbrev pub play :
      (computed read : DseResult) → GetRequestCtx F → World F (Step F) → Option (World F (Step F))
  play computed read ctx world = do
    r ← phase_compute_done ctx computed world
    resume (continuations r.1) read r.0

  abbrev finished :
      GetRequestCtx F → DseResult → World F (Step F) → Worker F (Step F) → World F (Step F)
  finished ctx result world w = record world {
    workers = put_at world.workers ctx.worker (Worker.log_result w result);
    index = log_result world.index result (d.sub world.now ctx.start_time);
  }

  finish_eq :
      (ctx : GetRequestCtx F) (result : DseResult) (world : World F (Step F))
      {w : Worker F (Step F)}
      → world.workers ctx.worker ≡ some w
      → finish ctx result world ≡ some (finished ctx result world w)
  unfolding finish
  finish_eq ctx result world there = rw there refl

  finish_counts :
      (ctx : GetRequestCtx F) (ok : Bool) (world : World F (Step F)) {w : Worker F (Step F)}
      → world.workers ctx.worker ≡ some w
      → (world' : World F (Step F)) × (finish ctx
            (if ok then DseResult.res_4xx else DseResult.res_5xx)
            world
          ≡ some world')
        × (world'.index.total_requests ≡ world.index.total_requests + 1)
        × (world'.index.results_4xx ≡ world.index.results_4xx + (if ok then 1 else 0))
        × (world'.index.results_5xx ≡ world.index.results_5xx + (if ok then 0 else 1))
  unfolding log_result
  finish_counts ctx true world {w} there = (
    finished ctx DseResult.res_4xx world w,
    finish_eq ctx DseResult.res_4xx world there,
    refl,
    refl,
    omega arith,
  )
  finish_counts ctx false world {w} there = (
    finished ctx DseResult.res_5xx world w,
    finish_eq ctx DseResult.res_5xx world there,
    refl,
    omega arith,
    refl,
  )

  -- A request of a worker that is there is logged with its index exactly once: as a success if neither
  -- the computation nor the read of the disk failed, and as a failure otherwise.
  pub play_logs_once :
      (computed read : DseResult) (ctx : GetRequestCtx F) (world : World F (Step F))
      {w : Worker F (Step F)}
      → world.workers ctx.worker ≡ some w
      → let ok = not (is_error computed) && not (is_error read) in
        (world' : World F (Step F)) × (play computed read ctx world ≡ some world')
        × (world'.index.total_requests ≡ world.index.total_requests + 1)
        × (world'.index.results_4xx ≡ world.index.results_4xx + (if ok then 1 else 0))
        × (world'.index.results_5xx ≡ world.index.results_5xx + (if ok then 0 else 1))
  unfolding phase_compute_done phase_disk_done
  play_logs_once computed read ctx world {w} there = elim (Bool-cases (is_error computed)) [
    | inl failed ↦
        let (world', ended, once, good, bad) = finish_counts ctx false world there in
        (world', rw (failed, ended) refl, once, rw failed good, rw failed bad)
    | inr computed_it ↦
        let (w', effects, reserved, same, once) =
          reserve_disk_total world.now w DiskOp.read ctx.mem_size
            (some (Step.disk_done (record ctx { phase = 2 }))) in
        let world1 = record world { workers = put_at world.workers ctx.worker w' } in
        let here : world1.workers ctx.worker ≡ some w' = put_at_same world.workers ctx.worker w' in
        let ctx2 = record ctx { phase = 2 } in
        let (world', ended, logged, good, bad) =
          finish_counts ctx2 (not (is_error read)) world1 here in
        (
          world',
          rw (computed_it, there, reserved) (rw (once, response_eq read, ended) refl),
          logged,
          rw computed_it good,
          rw computed_it bad,
        )
  ]
