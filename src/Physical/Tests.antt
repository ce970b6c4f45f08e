-- ===== src/Physical/Tests.antt =====
-- Instances of the theorems on the memory, the disk and the processors of a worker.
use mathlib.Core.List.{Pairwise-singleton}
use native.Mathlib.Bridge.{le_prop}
use distributed_search_engin.Base.{
  ℕ, zero, suc, ◌+◌, ◌%◌, ◌^◌, ◌≤◌, ◌<◌, ◌≡◌, refl, true, false, none, some, List, [], ◌∷◌, get_or,
  get_elem?, Perm, All-mem, arith,
}
use distributed_search_engin.Double.{IsWhole}
use distributed_search_engin.Double.Sample.{Sample, num, minus, sample, sample_exact, sample_sign}
use distributed_search_engin.Types.{ActorType, DiskOp, DseResult}
use distributed_search_engin.Actor.{Actor}
use distributed_search_engin.Util.BoundedQueue.{BoundedQueue}
use distributed_search_engin.Util.BoundedQueue.Refine.{Holds}
use distributed_search_engin.Physical.Ram
use distributed_search_engin.Physical.Ram.{
  Ram, RamReservation, reserve_pending, remove_reservation_by_id,
}
use distributed_search_engin.Physical.Ram.Account.{
  total, fresh, reserve_granted, reserve_refused, remove_correct,
}
use distributed_search_engin.Physical.Disk.{Disk}
use distributed_search_engin.Physical.Disk.Totals.{Event, Running, history, history_totals}
use distributed_search_engin.Physical.Cpu
use distributed_search_engin.Physical.Cpu.{Cpu}
use distributed_search_engin.Physical.CpuPool.{
  CpuPool, ReserveCtx, WaitCtx, Effect, reserve_done, spin_down,
}
use distributed_search_engin.Physical.CpuPool.Handover.{completion, reserve_done_hands_over}
use distributed_search_engin.Physical.CpuPool.Shutdown.{spin_down_correct}
use distributed_search_engin.Base.{map, replicate}
use distributed_search_engin.Physical.CpuPool.SpinUp.{spin_up_async, complete, spin_up_completes}

abbrev actor : ActorType → Actor Sample
actor t = record { id = 1; type = t; profiled = true; last_profiled = num 0; generation = 0 }

abbrev held : RamReservation Sample
held = record { id = 4; start_time = num 1; num_bytes = num 30 }

-- A memory of 100 bytes, of which 30 are reserved.
abbrev ram : Ram Sample
ram = record {
  base = actor ActorType.ram;
  worker_id = 1;
  capacity = num 100;
  utilized = num 30;
  integrated_utilization = num 0;
  ongoing = held ∷ [];
  ongoing_capacity = 64;
  next_reservation_id = 5;
}

whole : (n : ℕ) → n ≤ 2 ^ 53 → IsWhole sample (num n)
whole n p = record { whole = refl; small = p }

ram-IsValid : Ram.Account.IsValid ram
ram-IsValid = record {
  capacity_whole = whole 100 (omega arith);
  sizes = (whole 30 (omega arith), tt);
  accounted = refl;
  within = omega arith;
  given = All-mem (λ x. x.id < 5) ram.ongoing (λ x. le_prop) (omega arith, tt);
  distinct = Pairwise-singleton _ held;
}

reserve_granted_example :
    (r' : Ram Sample) × (reserve_pending (num 2) ram (num 70) ≡ some (5, r'))
    × Ram.Account.IsValid r'
    × (r'.capacity ≡ num 100)
    × Perm r'.ongoing (fresh ram (num 2) (num 70) ∷ ram.ongoing)
reserve_granted_example =
    reserve_granted sample_exact (num 2) ram (num 70) ram-IsValid (whole 70 (omega arith))
      (omega arith) (omega arith)

remove_correct_example :
    let r' = remove_reservation_by_id (num 9) ram 4 in
    Ram.Account.IsValid r'
    × Perm (held ∷ r'.ongoing) ram.ongoing
    × (sample.to_ℕ r'.utilized + 30 ≡ 30)
    × (r'.integrated_utilization ≡ num 240)
remove_correct_example = remove_correct sample_exact (num 9) ram 0 ram-IsValid refl

abbrev disk : Disk Sample
disk = record {
  base = actor ActorType.disk;
  read_speed = num 10;
  write_speed = num 5;
  last_read_start = minus;
  last_write_start = minus;
  total_read = num 0;
  total_write = num 0;
}

-- A read of 40 bytes and a write of 10 that overlap; the read, the second under way, is done first,
-- and another read goes on.
abbrev overlap : List (Event Sample ℕ)
overlap =
    Event.start (num 1) (num 40) DiskOp.read (some 1)
    ∷ Event.start (num 2) (num 10) DiskOp.write (some 2)
    ∷ Event.done 1
    ∷ Event.start (num 3) (num 7) DiskOp.read none
    ∷ Event.done 1
    ∷ []

abbrev played : Running Sample ℕ
played = history overlap (record { disk = disk; under_way = []; answers = [] })

history_totals_example :
    (played.disk.total_read ≡ num 40)
    × (played.disk.total_write ≡ num 10)
    × (played.under_way ≡ record { bytes = num 7; op = DiskOp.read; caller = none } ∷ [])
    × (played.answers ≡ (some 1, DseResult.res_4xx) ∷ (some 2, DseResult.res_4xx) ∷ [])
    × (played.disk.read_speed ≡ num 10)
    × (played.disk.write_speed ≡ num 5)
history_totals_example = history_totals overlap disk

abbrev processor : Cpu Sample
processor = record {
  base = actor ActorType.cpu;
  freq = num 2;
  last_reserved_time = minus;
  busy_time = num 0;
  enabled = true;
  blue_green_active = false;
  blue_green_start = num 0;
  baseline_utilization = num 0;
  empty_profile_count = 0;
}

abbrev no_wait : WaitCtx Sample ℕ
no_wait = record { cycles = num 0; caller = none }

abbrev waiter : WaitCtx Sample ℕ
waiter = record { cycles = num 8; caller = some 3 }

-- A queue for two tasks, with none and with one that waits.
abbrev no_queue : BoundedQueue (WaitCtx Sample ℕ)
no_queue = record {
  buf = none ∷ none ∷ [];
  head = 0;
  tail = 0;
  count = 0;
  capacity = 2;
  finalized = false;
}

abbrev queue : BoundedQueue (WaitCtx Sample ℕ)
queue = record no_queue { buf = some waiter ∷ none ∷ []; tail = 1; count = 1 }

no_queue-Holds : Holds no_queue []
no_queue-Holds = record {
  storage = refl;
  counted = refl;
  bounded = omega arith;
  head_in = λ p. p;
  tail_at = λ p. refl;
  slots = λ k p. absurd (omega arith);
}

queue-Holds : Holds queue (waiter ∷ [])
queue-Holds = record {
  storage = refl;
  counted = refl;
  bounded = omega arith;
  head_in = λ p. p;
  tail_at = λ p. refl;
  slots = slots;
}
  where
    slots : (k : ℕ) → k < 1 → get_or queue.buf ((0 + k) % 2) none ≡ get_elem? (waiter ∷ []) k
    slots zero p = refl
    slots (suc k) p = absurd (omega arith)

abbrev idle_pool : CpuPool Sample ℕ
idle_pool = record {
  base = actor ActorType.cpu_pool;
  worker_id = 1;
  frequency = num 2;
  cpus = record { items = 0 ∷ []; capacity = 8 };
  available_cpus = record { items = 0 ∷ []; capacity = 8 };
  spinning_down = false;
  wait_queue = no_queue;
  heap = processor ∷ [];
}

abbrev busy_pool : CpuPool Sample ℕ
busy_pool = record idle_pool {
  available_cpus = record { items = []; capacity = 8 };
  wait_queue = queue;
  heap = record processor { last_reserved_time = num 1 } ∷ [];
}

abbrev closed_pool : CpuPool Sample ℕ
closed_pool = record busy_pool { wait_queue = record no_queue { finalized = true } }

closed-Holds : Holds closed_pool.wait_queue []
closed-Holds = record {
  storage = refl;
  counted = refl;
  bounded = omega arith;
  head_in = λ p. p;
  tail_at = λ p. refl;
  slots = λ k p. absurd (omega arith);
}

abbrev task : ReserveCtx Sample ℕ
task = record { cpu = 0; cycles = num 4; duration = num 2; caller = some 9 }

reserve_done_hands_over_example :
    (p' : CpuPool Sample ℕ) × (reserve_done (num 3) task busy_pool
      ≡ some (
        p',
        completion 0 processor (num 8) (some 3) ∷ Effect.invoke (some 9) DseResult.res_4xx ∷ [],
      ))
    × Holds p'.wait_queue []
    × (p'.available_cpus.items ≡ [])
reserve_done_hands_over_example =
    reserve_done_hands_over sample_sign (num 3) busy_pool task
      (record processor { last_reserved_time = num 1 }) waiter [] refl refl refl queue-Holds

spin_down_correct_example :
    (p' : CpuPool Sample ℕ) × (spin_down busy_pool none
      ≡ some (
        p',
        Effect.invoke (some 3) DseResult.err_worker_shutdown
            ∷ Effect.delete_actor
            ∷ Effect.invoke none DseResult.ok
            ∷ [],
      ))
    × Holds p'.wait_queue []
    × (p'.wait_queue.finalized ≡ true)
    × (p'.spinning_down ≡ true)
spin_down_correct_example = spin_down_correct busy_pool none (waiter ∷ []) queue-Holds

spin_up_completes_example :
    let started =
      spin_up_async {K = ℕ} (actor ActorType.cpu_pool) 1 2 (num 2) 4 (num 220) (some 7) in
    (p : CpuPool Sample ℕ) × (started.2 ≡ replicate 2 (Effect.spin_up_one_done_after (num 220)))
    × (complete (actor ActorType.cpu ∷ actor ActorType.cpu ∷ []) started.1 started.0
        ≡ some (p, none, Effect.invoke (some 7) DseResult.ok ∷ []))
    × (p.heap ≡ map (λ x. Cpu.init x (num 2)) (replicate 2 (actor ActorType.cpu)))
    × (p.cpus.items ≡ 0 ∷ 1 ∷ [])
    × (p.available_cpus.items ≡ 0 ∷ 1 ∷ [])
spin_up_completes_example =
    spin_up_completes (actor ActorType.cpu_pool) 1 (actor ActorType.cpu) (actor ActorType.cpu ∷ [])
      (num 2) 4 (num 220) (some 7)
