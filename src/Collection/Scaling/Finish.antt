-- ===== src/Collection/Scaling/Finish.antt =====
-- src/collection/collection.c, src/components/logical/worker.c: the end of a scaling, from the new
-- workers on.
pub mod Retire
pub mod Overrun
use distributed_search_engin.Base.{
  ℕ, zero, suc, ◌+◌, Option, none, some, ◌>>=◌, List, [], ◌∷◌, ◌++◌, map, ◌==◌, ltb, if◌then◌else◌,
  get_elem?, length, Bool, true, false, put_at, free_at,
}
use distributed_search_engin.Double.{Double}
use distributed_search_engin.Types.{DseResult, WorkerStatus}
use distributed_search_engin.Physical.CpuPool
use distributed_search_engin.Logical.Shard.{Shard}
use distributed_search_engin.Logical.Worker
use distributed_search_engin.Logical.Worker.{Worker, TaskEffect}
use distributed_search_engin.Index.Transfer.{transfer_shards_for_blue_green}
use distributed_search_engin.Collection
use distributed_search_engin.Collection.Scaling.{Collection, Effect, Ran, worker_list}

abbrev pub is_obsolete : WorkerStatus → Bool
is_obsolete WorkerStatus.obsolete = true
is_obsolete _ = false

-- the workers at some pointers, freed
unfoldable pub free_all : {A : Type 0} → List ℕ → (ℕ → Option A) → ℕ → Option A
free_all [] store = store
free_all (i ∷ is) store = free_all is (free_at store i)

module _ {F K : Type 0} where
  -- the workers that are WORKER_GREEN, in the order of the list
  unfoldable pub green_workers : (ℕ → Option (Worker F K)) → List ℕ → Option (List ℕ)
  green_workers workers [] = some []
  green_workers workers (i ∷ is) = do
    w ← workers i
    rest ← green_workers workers is
    some (elim w.status [ WorkerStatus.green ↦ i ∷ rest | _ ↦ rest ])

  -- a status given to the workers of a list
  unfoldable pub set_status :
      WorkerStatus → List ℕ → (ℕ → Option (Worker F K)) → Option (ℕ → Option (Worker F K))
  set_status status [] workers = some workers
  set_status status (i ∷ is) workers = do
    w ← workers i
    set_status status is (put_at workers i (record w { status = status }))

module _ {F : Type 0} ⦃d : Double F⦄ where
  -- the loop over the indices
  unfoldable pub rebalance : List ℕ → List (List (Shard F)) → Option (List (List (Shard F)))
  rebalance new_workers [] = some []
  rebalance new_workers (shards ∷ indices) = do
    shards' ← transfer_shards_for_blue_green new_workers shards
    rest ← rebalance new_workers indices
    some (shards' ∷ rest)

module _ {F K C : Type 0} ⦃d : Double F⦄ where
  -- further effects after those of a run
  abbrev pub after : List (Effect F K C) → Ran F K C → Ran F K C
  after effects ran = ran >>= λ r. some (r.0, effects ++ r.1)

  -- `scale_phase_spin_down_done`
  unfoldable pub spin_down_done : ℕ → Collection F K C → Ran F K C
  unfolding free_all
  spin_down_done p c = do
    ctx ← c.scalings p
    let more = record ctx { spin_downs_done = ctx.spin_downs_done + 1 }
    some (
        if ctx.spin_downs_done + 1 == ctx.old_count
        then (
          record c {
            dse_config = record c.dse_config { num_workers = ctx.new_num_workers };
            steady = true;
            workers = free_all ctx.old_workers c.workers;
            scalings = free_at c.scalings p;
          },
          Effect.told ctx.caller DseResult.ok ∷ [],
        )
        else (record c { scalings = put_at c.scalings p more }, []))

  -- `worker_spin_down` of the worker `w`, with the continuation of the scaling at `p`; the pool is given
  -- no continuation
  unfoldable pub worker_spin_down : ℕ → ℕ → Collection F K C → Ran F K C
  unfolding spin_down_done
  worker_spin_down w p c = do
    worker ← c.workers w
    let retire = do
      r ← CpuPool.spin_down worker.cpu_pool none
      let settled = Worker.settle c.now r.1 (record worker { cpu_pool = r.0 })
      let deleted = Collection.actor_delete w settled.0.base c.registry
      let gone = record settled.0 { base = deleted.0 }
      let c' = record c { workers = put_at c.workers w gone; registry = deleted.1 }
      after (map (Effect.of_worker w) settled.1) (spin_down_done p c')
    if is_obsolete worker.status then retire else none

  -- The loop that spins the old workers down, from the entry `i` on, with a bound on its rounds; the
  -- test reads the context.
  unfoldable pub spin_downs : ℕ → ℕ → ℕ → Collection F K C → Ran F K C
  spin_downs p zero i c = none
  spin_downs p (suc n) i c = do
    ctx ← c.scalings p
    let round = do
      w ← get_elem? ctx.old_workers i
      r ← worker_spin_down w p c
      after r.1 (spin_downs p n (i + 1) r.0)
    if ltb i ctx.old_count then round else some (c, [])

  -- `scale_phase_workers_ready` up to the spinning down of the old workers: the new workers take the
  -- shards
  unfoldable pub take_over : ℕ → Collection F K C → Option (Collection F K C)
  take_over p c = do
    ctx ← c.scalings p
    new ← green_workers c.workers (worker_list c)
    indices ← rebalance new c.indices
    blue ← set_status WorkerStatus.blue new c.workers
    workers ← set_status WorkerStatus.obsolete ctx.old_workers blue
    let ctx' = record ctx { new_workers = new; new_count = length new; spin_downs_done = 0 }
    some (record c { indices = indices; workers = workers; scalings = put_at c.scalings p ctx' })

  -- `scale_phase_workers_ready`
  unfoldable pub workers_ready : ℕ → Collection F K C → Ran F K C
  workers_ready p c = do
    c' ← take_over p c
    ctx ← c'.scalings p
    let ended = record c' {
      dse_config = record c'.dse_config { num_workers = ctx.new_num_workers };
      steady = true;
      scalings = free_at c'.scalings p;
    }
    if ctx.old_count == 0
        then some (ended, Effect.told ctx.caller DseResult.ok ∷ [])
        else spin_downs p (ctx.old_count + 1) 0 c'
