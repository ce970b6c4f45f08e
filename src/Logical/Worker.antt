-- ===== src/Logical/Worker.antt =====
-- include/components/logical/worker.h, src/components/logical/worker.c, and `ram_wrap_done` of
-- src/components/physical/ram.c: what a worker counts, and how a task holds memory while it has a
-- processor or the disk. The continuations that a worker gives to its pool and its disk are a `Wrap`:
-- `ram_wrap_done` around the last step of the task, whose caller is of a type `K`. Of the free lists
-- of contexts nothing is visible here. `queue_length` is at least 1 when a task that was counted in it
-- ends, so that the difference needs no sign.
pub mod Tasks
pub mod DiskTasks
pub mod Sample
use distributed_search_engin.Base.{
  ℕ, zero, suc, ◌+◌, ◌-◌, Bool, true, false, ◌||◌, Option, none, some, ◌>>=◌, List, [], ◌∷◌, ◌++◌,
  leb, if◌then◌else◌, ℤ, pos, negsuc, ◌+ℤ◌,
}
use distributed_search_engin.Double.{Double}
use distributed_search_engin.Types.{DseResult, DiskOp, WorkerStatus, is_error, code}
use distributed_search_engin.Actor.{Actor, MetricKey, ProfileKv}
use distributed_search_engin.Physical.Ram
use distributed_search_engin.Physical.Ram.{Ram}
use distributed_search_engin.Physical.Disk
use distributed_search_engin.Physical.Disk.{Disk, DiskReserveCtx}
use distributed_search_engin.Physical.CpuPool
use distributed_search_engin.Physical.CpuPool.{CpuPool, ReserveCtx}

-- `WorkerReserveComputeCtx` and `WorkerReserveDiskCtx`, of one worker: the step that ends a task
pub data Last (K : Type 0) : Type 0 where
  reserve_compute_phase1_done reserve_disk_done : Option K → Last K

-- `RamWrapCtx`: the reservation to remove, and what follows
pub record Wrap (K : Type 0) : Type 0 where
  pub reservation_id : ℕ
  pub caller : Last K

-- `struct Worker`, with the components that it points to
pub record Worker (F K : Type 0) : Type 0 where
  pub base : Actor F
  pub cpu_pool : CpuPool F (Wrap K)
  pub ram : Ram F
  pub disk : Disk F
  pub total_requests : ℕ
  pub results_4xx : ℕ
  pub results_5xx : ℕ
  pub queue_length : ℕ
  pub request_count : ℕ
  pub status : WorkerStatus

-- What a task does outside of the worker, in the order in which it does it: the completion of a
-- reservation of a processor or the disk is scheduled after a delay, the pool does something else, or
-- a caller is invoked. Where it invokes several, the code runs each before it goes on.
pub data TaskEffect (F K : Type 0) : Type 0 where
  cpu_done_after : F → ReserveCtx F (Wrap K) → TaskEffect F K
  disk_done_after : F → DiskReserveCtx F (Wrap K) → TaskEffect F K
  pool_does : CpuPool.Effect F (Wrap K) → TaskEffect F K
  invoke : Option K → DseResult → TaskEffect F K

-- the answer of a task, in `reserve_compute_phase1_done` and `reserve_disk_done`
abbrev pub response : DseResult → DseResult
response r = if is_error r then DseResult.res_5xx else DseResult.res_4xx

module _ {F K : Type 0} where
  -- `worker_log_request`
  unfoldable pub log_request : Worker F K → Worker F K
  log_request w = record w { total_requests = w.total_requests + 1 }

  -- `worker_log_result`
  unfoldable pub log_result : Worker F K → DseResult → Worker F K
  log_result w DseResult.res_4xx = record w { results_4xx = w.results_4xx + 1 }
  log_result w _ = record w { results_5xx = w.results_5xx + 1 }

  -- `reserve_compute_phase1_done`, where `queue_delta` is 1, and `reserve_disk_done`
  unfoldable pub last : Last K → DseResult → Worker F K → Worker F K × List (TaskEffect F K)
  last (Last.reserve_compute_phase1_done caller) r w =
      (record w { queue_length = w.queue_length - 1 }, TaskEffect.invoke caller (response r) ∷ [])
  last (Last.reserve_disk_done caller) r w = (w, TaskEffect.invoke caller (response r) ∷ [])

module _ {F K : Type 0} ⦃d : Double F⦄ where
  -- `worker_run_profiler`
  unfoldable pub run_profiler : Worker F K → List (ProfileKv F) × Worker F K
  run_profiler w = (
    record { key = MetricKey.total_requests; value = d.of_ℕ w.total_requests }
        ∷ record { key = MetricKey.metric_4xx; value = d.of_ℕ w.results_4xx }
        ∷ record { key = MetricKey.metric_5xx; value = d.of_ℕ w.results_5xx }
        ∷ record { key = MetricKey.queue_length; value = d.of_ℕ w.queue_length }
        ∷ [],
    record w { total_requests = 0; results_4xx = 0; results_5xx = 0 },
  )

  -- `ram_wrap_done`: the reservation is removed before the step that follows
  unfoldable pub ram_wrap_done :
      F → Wrap K → DseResult → Worker F K → Worker F K × List (TaskEffect F K)
  unfolding last
  ram_wrap_done now wrap r w =
      last wrap.caller r
        (record w { ram = Ram.remove_reservation_by_id now w.ram wrap.reservation_id })

  -- The effects of the pool on its worker: a `Wrap` that is invoked runs at once.
  unfoldable pub settle :
      F → List (CpuPool.Effect F (Wrap K)) → Worker F K → Worker F K × List (TaskEffect F K)
  unfolding ram_wrap_done
  settle now [] w = (w, [])
  settle now (CpuPool.Effect.reserve_done_after delay ctx ∷ es) w =
      let (w', effects) = settle now es w in (w', TaskEffect.cpu_done_after delay ctx ∷ effects)
  settle now (CpuPool.Effect.spin_up_one_done_after delay ∷ es) w =
      let (w', effects) = settle now es w in
      (w', TaskEffect.pool_does (CpuPool.Effect.spin_up_one_done_after delay) ∷ effects)
  settle now (CpuPool.Effect.delete_actor ∷ es) w =
      let (w', effects) = settle now es w in
      (w', TaskEffect.pool_does CpuPool.Effect.delete_actor ∷ effects)
  settle now (CpuPool.Effect.invoke none r ∷ es) w = settle now es w
  settle now (CpuPool.Effect.invoke (some wrap) r ∷ es) w =
      let (w', before) = ram_wrap_done now wrap r w in
      let (w'', after) = settle now es w' in (w'', before ++ after)

  -- `cpu_reserve_done` on a processor of the worker, with what it wakes
  unfoldable pub cpu_reserve_done :
      F → ReserveCtx F (Wrap K) → Worker F K → Option (Worker F K × List (TaskEffect F K))
  unfolding settle
  cpu_reserve_done now ctx w = do
    r ← CpuPool.reserve_done now ctx w.cpu_pool
    some (settle now r.1 (record w { cpu_pool = r.0 }))

  -- `disk_reserve_done` on the disk of the worker, and the `Wrap` that it invokes
  unfoldable pub disk_reserve_done :
      F → DiskReserveCtx F (Wrap K) → Worker F K → Worker F K × List (TaskEffect F K)
  unfolding ram_wrap_done
  disk_reserve_done now ctx w =
      let (disk, caller, r) = Disk.reserve_done ctx w.disk in
      elim caller [
        | none ↦ (record w { disk = disk }, [])
        | some wrap ↦ ram_wrap_done now wrap r (record w { disk = disk })
      ]

  -- `ram_reserve_pending` on a task that is refused the memory: its step runs at once, with DSE_5XX
  abbrev pub refused : Last K → Worker F K → Option (Worker F K × List (TaskEffect F K))
  unfolding last
  refused step w = some (last step DseResult.res_5xx w)

  -- `cpu_inner_launch` in the memory `ram`
  unfoldable pub cpu_inner_launch :
      F → Worker F K → F → Wrap K → Option (Worker F K × List (TaskEffect F K))
  unfolding settle
  cpu_inner_launch now w cycles on_done = do
    r ← CpuPool.pool_reserve now w.cpu_pool cycles (some on_done)
    some (settle now r.1 (record w { cpu_pool = r.0 }))

  -- `disk_inner_launch`
  unfoldable pub disk_inner_launch :
      F → Worker F K → DiskOp → F → Wrap K → Option (Worker F K × List (TaskEffect F K))
  disk_inner_launch now w DiskOp.read bytes on_done =
      let (disk, delay, ctx) = Disk.reserve_read now w.disk bytes (some on_done) in
      some (record w { disk = disk }, TaskEffect.disk_done_after delay ctx ∷ [])
  disk_inner_launch now w DiskOp.write bytes on_done =
      let (disk, delay, ctx) = Disk.reserve_write now w.disk bytes (some on_done) in
      some (record w { disk = disk }, TaskEffect.disk_done_after delay ctx ∷ [])

  -- `worker_reserve_compute`, with the collection's limit on the queue
  unfoldable pub reserve_compute :
      F → ℕ → Worker F K → F → F → Option K → Option (Worker F K × List (TaskEffect F K))
  unfolding cpu_inner_launch
  reserve_compute now limit w cpu_cycles mem_bytes cont =
      let counted = record w { request_count = w.request_count + 1 } in
      let queued = record counted { queue_length = w.queue_length + 1 } in
      let step = Last.reserve_compute_phase1_done cont in
      if leb limit w.queue_length || d.lt (Ram.available w.ram) mem_bytes
      then some (counted, TaskEffect.invoke cont DseResult.res_5xx ∷ [])
      else elim (Ram.reserve_pending now w.ram mem_bytes) [
        | none ↦ refused step queued
        | some (id, ram) ↦
            cpu_inner_launch now (record queued { ram = ram }) cpu_cycles
              (record { reservation_id = id; caller = step })
      ]

  -- `worker_reserve_disk`
  unfoldable pub reserve_disk :
      F → Worker F K → DiskOp → F → Option K → Option (Worker F K × List (TaskEffect F K))
  unfolding disk_inner_launch
  reserve_disk now w op bytes cont =
      let step = Last.reserve_disk_done cont in
      if d.lt (Ram.available w.ram) bytes
      then some (w, TaskEffect.invoke cont DseResult.res_5xx ∷ [])
      else elim (Ram.reserve_pending now w.ram bytes) [
        | none ↦ refused step w
        | some (id, ram) ↦
            disk_inner_launch now (record w { ram = ram }) op bytes
              (record { reservation_id = id; caller = step })
      ]
