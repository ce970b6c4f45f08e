-- ===== src/Physical/CpuPool.antt =====
-- include/components/physical/cpu.h, src/components/physical/cpu.c: the processors of a worker, and the
-- queue of the tasks that wait for one. A `CPU *` is the number of the processor in the list `heap`
-- of those that were made, and a continuation is of a type `K`, `none` where it is CONT_NULL. An
-- operation gives back what it does to the rest of the program, in the order in which it does it;
-- where it invokes a continuation in the middle, what follows does not read what that may change.
pub mod Handover
pub mod Shutdown
pub mod SpinUp
use distributed_search_engin.Base.{
  ℕ, zero, suc, ◌+◌, ◌-◌, Bool, true, false, not, ◌&&◌, ◌||◌, Option, none, some, ◌>>=◌, List, [],
  ◌∷◌, ◌++◌, ◌==◌, leb, ltb, if◌then◌else◌, get_elem?, set, length,
}
use distributed_search_engin.Double.{Double}
use distributed_search_engin.Types.{DseResult}
use distributed_search_engin.Actor.{Actor, MetricKey, ProfileKv}
use distributed_search_engin.Util.DynArray
use distributed_search_engin.Util.DynArray.{DynArray}
use distributed_search_engin.Util.BoundedQueue
use distributed_search_engin.Util.BoundedQueue.{BoundedQueue}
use distributed_search_engin.Physical.Cpu
use distributed_search_engin.Physical.Cpu.{Cpu, idle_mark, is_idle}

-- `CPUReserveCtx`
pub record ReserveCtx (F K : Type 0) : Type 0 where
  pub cpu : ℕ
  pub cycles : F
  pub duration : F
  pub caller : Option K

-- `CPUPoolReserveWaitCtx`, of one pool
pub record WaitCtx (F K : Type 0) : Type 0 where
  pub cycles : F
  pub caller : Option K

-- `struct CPUPool`, with the processors that it points to; of its worker the number is used
pub record CpuPool (F K : Type 0) : Type 0 where
  pub base : Actor F
  pub worker_id : ℕ
  pub frequency : F
  pub cpus : DynArray
  pub available_cpus : DynArray
  pub spinning_down : Bool
  pub wait_queue : BoundedQueue (WaitCtx F K)
  pub heap : List (Cpu F)

-- What an operation does outside: `cpu_reserve_done` is scheduled on its context after a delay,
-- `cpu_spin_up_one_done` is scheduled after a delay, a continuation is invoked, the actor of the pool
-- is deleted.
pub data Effect (F K : Type 0) : Type 0 where
  reserve_done_after : F → ReserveCtx F K → Effect F K
  spin_up_one_done_after : F → Effect F K
  invoke : Option K → DseResult → Effect F K
  delete_actor : Effect F K

module _ {F : Type 0} ⦃d : Double F⦄ where
  module _ {K : Type 0} where
    -- `cpu_pool_init` up to its loop, and the same part of `cpu_pool_spin_up_async`
    unfoldable pub make_pool : Actor F → ℕ → F → ℕ → ℕ → CpuPool F K
    unfolding DynArray.init BoundedQueue.init
    make_pool base worker_id frequency array_capacity queue_capacity = record {
      base = base;
      worker_id = worker_id;
      frequency = frequency;
      cpus = DynArray.init array_capacity;
      available_cpus = DynArray.init array_capacity;
      spinning_down = false;
      wait_queue = BoundedQueue.init queue_capacity;
      heap = [];
    }

    -- a new processor, of the given actor, that joins the pool
    unfoldable pub add_cpu : Actor F → CpuPool F K → CpuPool F K
    unfolding Cpu.init DynArray.push
    add_cpu actor p =
        let cpu = length p.heap in
        record p {
          heap = p.heap ++ (Cpu.init actor p.frequency ∷ []);
          cpus = DynArray.push p.cpus cpu;
          available_cpus = DynArray.push p.available_cpus cpu;
        }

    -- the loop of `cpu_pool_init`, over the actors that `cpu_init` makes
    unfoldable pub add_cpus : List (Actor F) → CpuPool F K → CpuPool F K
    unfolding add_cpu
    add_cpus [] p = p
    add_cpus (a ∷ actors) p = add_cpus actors (add_cpu a p)

    -- `cpu_pool_init`
    unfoldable pub pool_init : Actor F → ℕ → List (Actor F) → F → ℕ → CpuPool F K
    unfolding make_pool add_cpus
    pool_init base worker_id initial_cpus frequency queue_capacity =
        add_cpus initial_cpus (make_pool base worker_id frequency 8 queue_capacity)

    -- `cpu_reserve`, of the processor `c` at `cpu`; `none` is the failed assertion
    unfoldable pub reserve_cpu :
        F → CpuPool F K → ℕ → Cpu F → F → Option K → Option (CpuPool F K × List (Effect F K))
    unfolding DynArray.remove
    reserve_cpu now p cpu c cycles cont =
        let duration = d.div cycles c.freq in
        if not c.enabled
        then some (p, Effect.invoke cont DseResult.err_cpu_shutdown ∷ [])
        else if is_idle c
        then some (
          record p {
            heap = set p.heap cpu (record c { last_reserved_time = now });
            available_cpus = (DynArray.remove p.available_cpus cpu).1;
          },
          Effect.reserve_done_after duration
                (record { cpu = cpu; cycles = cycles; duration = duration; caller = cont })
              ∷ [],
        )
        else none

    -- `cpu_reserve`; `none` also for a wild pointer
    unfoldable pub reserve :
        F → CpuPool F K → ℕ → F → Option K → Option (CpuPool F K × List (Effect F K))
    unfolding reserve_cpu
    reserve now p cpu cycles cont = do c ← get_elem? p.heap cpu; reserve_cpu now p cpu c cycles cont

    -- the part that `cpu_pool_reserve` and `cpu_pool_reserve_got_cpu` share: the first available
    -- processor is reserved
    unfoldable pub reserve_first :
        F → CpuPool F K → F → Option K → Option (CpuPool F K × List (Effect F K))
    unfolding reserve
    reserve_first now p cycles cont = do
      cpu ← get_elem? p.available_cpus.items 0
      c ← get_elem? p.heap cpu
      if is_idle c then reserve now p cpu cycles cont else none

    -- `cpu_pool_reserve`
    unfoldable pub pool_reserve :
        F → CpuPool F K → F → Option K → Option (CpuPool F K × List (Effect F K))
    unfolding reserve_first BoundedQueue.push
    pool_reserve now p cycles cont =
        if ltb 0 (DynArray.size p.available_cpus)
        then reserve_first now p cycles cont
        else if BoundedQueue.full p.wait_queue || p.wait_queue.finalized
        then some (p, Effect.invoke cont DseResult.err_queue_full ∷ [])
        else some (
          record p {
            wait_queue =
                (BoundedQueue.push p.wait_queue (record { cycles = cycles; caller = cont })).1;
          },
          [],
        )

    -- `cpu_pool_reserve_got_cpu`
    unfoldable pub got_cpu :
        F → WaitCtx F K → CpuPool F K → Option (CpuPool F K × List (Effect F K))
    unfolding reserve_first
    got_cpu now wait p =
        if DynArray.size p.available_cpus == 0
        then some (p, Effect.invoke wait.caller DseResult.err_cpu_shutdown ∷ [])
        else reserve_first now p wait.cycles wait.caller

    -- `cpu_pool_release`, of the processor `c`
    unfoldable pub release : F → CpuPool F K → Cpu F → Option (CpuPool F K × List (Effect F K))
    unfolding got_cpu
    release now p c =
        let (stored, queue) = BoundedQueue.pop p.wait_queue in
        if (c.enabled || p.spinning_down) && not (BoundedQueue.empty p.wait_queue)
        then elim stored [
          | none ↦ some (record p { wait_queue = queue }, [])
          | some wait ↦ got_cpu now wait (record p { wait_queue = queue })
        ]
        else some (p, [])

    -- what `cpu_reserve_done` does to the processor `c`, and the pool with it
    abbrev pub worked : F → ReserveCtx F K → Cpu F → Cpu F
    worked now ctx c =
        let actual_duration = d.fmin ctx.duration (d.sub now c.last_reserved_time) in
        record c {
          busy_time =
              d.add c.busy_time (d.mul actual_duration (d.sub (d.of_ℕ 1) c.baseline_utilization));
          last_reserved_time = idle_mark;
        }

    abbrev pub give_back : F → ReserveCtx F K → CpuPool F K → Cpu F → CpuPool F K
    give_back now ctx p c = record p {
      heap = set p.heap ctx.cpu (worked now ctx c);
      available_cpus =
          if c.enabled then DynArray.push p.available_cpus ctx.cpu else p.available_cpus;
    }

    -- `cpu_reserve_done`: the caller is invoked last
    unfoldable pub reserve_done :
        F → ReserveCtx F K → CpuPool F K → Option (CpuPool F K × List (Effect F K))
    unfolding release DynArray.push
    reserve_done now ctx p = do
      c ← get_elem? p.heap ctx.cpu
      r ← release now (give_back now ctx p c) (worked now ctx c)
      some (r.0, r.1 ++ (Effect.invoke ctx.caller DseResult.res_4xx ∷ []))

    -- one round of the loop of `cpu_pool_spin_down` before the others
    abbrev pub dismiss :
        Option (WaitCtx F K)
        → Option (BoundedQueue (WaitCtx F K) × List (Effect F K))
        → Option (BoundedQueue (WaitCtx F K) × List (Effect F K))
    dismiss none rest = rest
    dismiss (some wait) none = none
    dismiss (some wait) (some (q, effects)) =
        some (q, Effect.invoke wait.caller DseResult.err_worker_shutdown ∷ effects)

    -- the loop of `cpu_pool_spin_down`, which ends when the queue is empty: `fuel` pops are enough if
    -- the queue holds no more
    unfoldable pub drain :
        ℕ → BoundedQueue (WaitCtx F K) → Option (BoundedQueue (WaitCtx F K) × List (Effect F K))
    drain zero q = if BoundedQueue.empty q then some (q, []) else none
    drain (suc fuel) q =
        let rest = drain fuel (BoundedQueue.pop q).1 in
        if BoundedQueue.empty q then some (q, []) else dismiss (BoundedQueue.pop q).0 rest

    -- `cpu_pool_spin_down`; the length of the queue is fuel enough
    unfoldable pub spin_down : CpuPool F K → Option K → Option (CpuPool F K × List (Effect F K))
    unfolding drain BoundedQueue.finalize
    spin_down p cont = do
      let q = BoundedQueue.finalize p.wait_queue
      r ← drain q.count q
      some (
        record p { spinning_down = true; wait_queue = r.0 },
        r.1 ++ (Effect.delete_actor ∷ Effect.invoke cont DseResult.ok ∷ []),
      )
