-- ===== src/Collection/Scaling.antt =====
-- src/collection/collection.c: the scaling of a collection, a blue-green deployment of its workers, and
-- `worker_spin_down` of src/components/logical/worker.c. A context of a scaling is known by its pointer,
-- and an entry `none` is freed memory. The creation of the new workers by workers_spin_up is an effect,
-- which is followed by `workers_ready`. The field `phase` of the context is not used by the code. The sums of
-- numbers of workers are taken to stay in the range of `int`.
pub mod Finish
pub mod Start
mod Tests
use distributed_search_engin.Base.{
  ℕ, zero, suc, ◌+◌, ◌<◌, Bool, true, false, not, ◌&&◌, ◌||◌, Option, none, some, ◌>>=◌, List, [],
  ◌∷◌, ◌++◌, map, ◌==◌, ltb, if◌then◌else◌, get_elem?, set, length, ℤ, pos, negsuc, ◌+ℤ◌, neg_ℕ,
  put_at, free_at,
}
use distributed_search_engin.Double.{Double}
use distributed_search_engin.Types.{DseResult, ActorType, WorkerStatus}
use distributed_search_engin.Config.{
  Config, DseCollectionConfig, cpus_per_worker, memory_per_worker,
}
use distributed_search_engin.Physical.Cpu.{Cpu, start_blue_green}
use distributed_search_engin.Physical.CpuPool
use distributed_search_engin.Logical.Shard.{Shard}
use distributed_search_engin.Logical.Worker
use distributed_search_engin.Logical.Worker.{Worker, TaskEffect}
use distributed_search_engin.Index.Transfer.{transfer_shards_for_blue_green}
use distributed_search_engin.Collection.{Registry, get_by_type, actor_delete}

-- `ScaleCtx`, of one collection; the caller's continuation is of the type `C`
pub record ScaleCtx (C : Type 0) : Type 0 where
  pub new_num_workers : ℕ
  pub new_half_ocus : ℕ
  pub old_workers : List ℕ
  pub old_count : ℕ
  pub new_workers : List ℕ
  pub new_count : ℕ
  pub spin_downs_done : ℕ
  pub caller : Option C

-- What the scaling uses of `struct DSECollection`: also the workers by their pointers, and of each
-- index in the table its shards.
pub record Collection (F K C : Type 0) : Type 0 where
  pub now : F
  pub dse_config : DseCollectionConfig F
  pub config : Config F
  pub steady : Bool
  pub registry : Registry
  pub workers : ℕ → Option (Worker F K)
  pub indices : List (List (Shard F))
  pub scalings : ℕ → Option (ScaleCtx C)

-- What a scaling does outside of the collection: a worker that spins down ends its tasks, workers are
-- spun up for the context at a pointer, and a caller is invoked.
pub data Effect (F K C : Type 0) : Type 0 where
  of_worker : ℕ → TaskEffect F K → Effect F K C
  spin_up : (count cpus : ℕ) → (frequency memory : F) → (queue_length ctx : ℕ) → Effect F K C
  told : Option C → DseResult → Effect F K C

abbrev pub Ran : (F K C : Type 0) → Type 0
Ran F K C = Option (Collection F K C × List (Effect F K C))

-- the registered workers, of `collection_workers`
abbrev pub worker_list : {F K C : Type 0} → Collection F K C → List ℕ
worker_list c = (get_by_type c.registry ActorType.worker).items

module _ {F : Type 0} ⦃d : Double F⦄ where
  -- the inner loop of `scale_workers_start`, over the processors of a pool
  unfoldable pub halve_cpus : F → F → List ℕ → List (Cpu F) → Option (List (Cpu F))
  halve_cpus now util [] heap = some heap
  halve_cpus now util (i ∷ is) heap = do
    cpu ← get_elem? heap i
    cpu' ← start_blue_green now util cpu
    halve_cpus now util is (set heap i cpu')

module _ {F K : Type 0} ⦃d : Double F⦄ where
  -- one round of the loop that marks the old workers
  unfoldable pub halve_worker : F → F → Worker F K → Option (Worker F K)
  unfolding halve_cpus
  halve_worker now util w = do
    heap ← halve_cpus now util w.cpu_pool.cpus.items w.cpu_pool.heap
    some (record w {
      cpu_pool = record w.cpu_pool {
        frequency = d.div w.cpu_pool.frequency (d.of_ℕ 2);
        heap = heap;
      };
    })

  -- that loop
  unfoldable pub halve_workers :
      F → F → List ℕ → (ℕ → Option (Worker F K)) → Option (ℕ → Option (Worker F K))
  unfolding halve_worker
  halve_workers now util [] workers = some workers
  halve_workers now util (i ∷ is) workers = do
    w ← workers i
    w' ← halve_worker now util w
    halve_workers now util is (put_at workers i w')

-- `- z`
abbrev pub negated : ℤ → ℤ
negated (pos n) = neg_ℕ n
negated (negsuc n) = pos (suc n)

module _ {F K C : Type 0} ⦃d : Double F⦄ where
  -- `scale_workers_start`, with the context at `p`
  unfoldable pub scale_workers_start : ℕ → ℕ → ℕ → Option C → Collection F K C → Ran F K C
  unfolding halve_workers
  scale_workers_start p new_num_workers new_half_ocus cont c =
      let old = worker_list c in
      let ctx : ScaleCtx C = record {
        new_num_workers = new_num_workers;
        new_half_ocus = new_half_ocus;
        old_workers = old;
        old_count = length old;
        new_workers = [];
        new_count = 0;
        spin_downs_done = 0;
        caller = cont;
      } in
      let larger = record c.dse_config {
        half_ocus_per_worker = new_half_ocus;
        num_workers = c.dse_config.num_workers + new_num_workers;
      } in
      let started = do
        workers ← halve_workers c.now c.config.blue_green_cpu_util old c.workers
        some (
          record c {
            steady = false;
            workers = workers;
            dse_config = larger;
            scalings = put_at c.scalings p ctx;
          },
          Effect.spin_up new_num_workers (cpus_per_worker larger) larger.cpu_frequency
                (memory_per_worker larger c.config) larger.queue_length p
              ∷ [],
        )
      in if not c.steady && not c.config.ignore_steady
        then some (c, Effect.told cont DseResult.err_not_steady ∷ [])
        else started

  -- `collection_scale_to`; the arguments are of the type `int`
  unfoldable pub scale_to : ℕ → ℤ → ℤ → Option C → Collection F K C → Ran F K C
  unfolding scale_workers_start
  scale_to p (pos num_workers) (pos half_ocus) cont c =
      if not c.steady && not c.config.ignore_steady
      then some (c, Effect.told cont DseResult.err_not_steady ∷ [])
      else if c.dse_config.num_workers == num_workers
          && c.dse_config.half_ocus_per_worker == half_ocus
      then some (c, Effect.told cont DseResult.res_4xx ∷ [])
      else if num_workers == 0 || half_ocus == 0
      then some (c, Effect.told cont DseResult.err_invalid_scaling ∷ [])
      else scale_workers_start p num_workers half_ocus cont c
  scale_to p num_workers half_ocus cont c =
      if not c.steady && not c.config.ignore_steady
      then some (c, Effect.told cont DseResult.err_not_steady ∷ [])
      else some (c, Effect.told cont DseResult.err_invalid_scaling ∷ [])

  -- `collection_scale_up`
  unfoldable pub scale_up : ℕ → ℤ → Option C → Collection F K C → Ran F K C
  scale_up p count cont c =
      scale_to p (pos c.dse_config.num_workers) (pos c.dse_config.half_ocus_per_worker +ℤ count)
        cont c

  -- `collection_scale_down`
  unfoldable pub scale_down : ℕ → ℤ → Option C → Collection F K C → Ran F K C
  scale_down p count cont c =
      scale_to p (pos c.dse_config.num_workers)
        (pos c.dse_config.half_ocus_per_worker +ℤ negated count) cont c

  -- `collection_scale_out`
  unfoldable pub scale_out : ℕ → ℤ → Option C → Collection F K C → Ran F K C
  scale_out p count cont c =
      scale_to p (pos c.dse_config.num_workers +ℤ count) (pos c.dse_config.half_ocus_per_worker)
        cont c

  -- `collection_scale_in`
  unfoldable pub scale_in : ℕ → ℤ → Option C → Collection F K C → Ran F K C
  scale_in p count cont c =
      scale_to p (pos c.dse_config.num_workers +ℤ negated count)
        (pos c.dse_config.half_ocus_per_worker) cont c
