-- ===== src/Logical/Tests.antt =====
-- Instances of the theorems on shards.
use distributed_search_engin.Base.{
  ℕ, ◌≡◌, refl, true, none, some, [], ◌∷◌, ◌++◌, map, take, replicate,
}
use distributed_search_engin.Double.Sample.{Sample, num, sample}
use distributed_search_engin.Types.{ActorType}
use distributed_search_engin.Logical.Shard.{
  Replica, Shard, worker_index_loop, worker_index, run_profiler,
}
use distributed_search_engin.Logical.Shard.Replicas.{metrics, zeroed, run_profiler_ten}
use mathlib.Core.List.{not-mem-nil, Pairwise}
use distributed_search_engin.Base.{◌≤◌, ◌^◌, false, Perm, arith}
use distributed_search_engin.Double.{IsWhole}
use distributed_search_engin.Double.Sample.{minus, sample_exact, sample_sign}
use distributed_search_engin.Types.{WorkerStatus, DseResult}
use distributed_search_engin.Actor.{Actor}
use distributed_search_engin.Physical.Ram
use distributed_search_engin.Physical.Ram.Account.{fresh}
use distributed_search_engin.Physical.Cpu.{Cpu, is_idle}
use distributed_search_engin.Logical.Worker.{Worker, Last, TaskEffect, reserve_compute}
use distributed_search_engin.Logical.Worker.Tasks.{reserve_compute_starts}
use mathlib.Core.List.{Pairwise-singleton}
use native.Mathlib.Bridge.{le_prop}
use distributed_search_engin.Base.{All-mem, ◌<◌, ◌+◌}
use distributed_search_engin.Physical.Ram.{RamReservation}
use distributed_search_engin.Logical.Worker.{cpu_reserve_done}
use distributed_search_engin.Logical.Worker.Tasks.{cpu_reserve_done_ends}

abbrev row : ℕ → ℕ → Replica Sample
row w n = record { worker = w; cpu_cycles = num n; num_requests = num 1; size = num 2 }

abbrev shard : Shard Sample
shard = record {
  base = record {
    id = 1;
    type = ActorType.shard;
    profiled = true;
    last_profiled = num 0;
    generation = 0;
  };
  index = 1;
  replicas = row 30 5 ∷ row 31 6 ∷ replicate 9 (row 32 7);
}

second : worker_index shard 31 ≡ some 1
unfolding worker_index worker_index_loop
second = refl

run_profiler_ten_example :
    ((run_profiler (λ w. w) shard).0
      ≡ metrics (λ w. w) (row 30 5 ∷ row 31 6 ∷ replicate 8 (row 32 7)))
    × ((run_profiler (λ w. w) shard).1.replicas
        ≡ map zeroed (take 10 shard.replicas) ++ (row 32 7 ∷ []))
run_profiler_ten_example = run_profiler_ten (λ w. w) shard

abbrev task_actor : ActorType → Actor Sample
task_actor t = record { id = 1; type = t; profiled = true; last_profiled = num 0; generation = 0 }

abbrev processor : Cpu Sample
processor = record {
  base = task_actor ActorType.cpu;
  freq = num 2;
  last_reserved_time = minus;
  busy_time = num 0;
  enabled = true;
  blue_green_active = false;
  blue_green_start = num 0;
  baseline_utilization = num 0;
  empty_profile_count = 0;
}

-- A worker with one processor, 100 bytes of memory, and nothing to do.
abbrev worker : Worker Sample ℕ
worker = record {
  base = task_actor ActorType.worker;
  cpu_pool = record {
    base = task_actor ActorType.cpu_pool;
    worker_id = 1;
    frequency = num 2;
    cpus = record { items = 0 ∷ []; capacity = 8 };
    available_cpus = record { items = 0 ∷ []; capacity = 8 };
    spinning_down = false;
    wait_queue = record {
      buf = none ∷ none ∷ [];
      head = 0;
      tail = 0;
      count = 0;
      capacity = 2;
      finalized = false;
    };
    heap = processor ∷ [];
  };
  ram = record {
    base = task_actor ActorType.ram;
    worker_id = 1;
    capacity = num 100;
    utilized = num 0;
    integrated_utilization = num 0;
    ongoing = [];
    ongoing_capacity = 64;
    next_reservation_id = 5;
  };
  disk = record {
    base = task_actor ActorType.disk;
    read_speed = num 10;
    write_speed = num 5;
    last_read_start = minus;
    last_write_start = minus;
    total_read = num 0;
    total_write = num 0;
  };
  total_requests = 0;
  results_4xx = 0;
  results_5xx = 0;
  queue_length = 0;
  request_count = 0;
  status = WorkerStatus.blue;
}

whole : (n : ℕ) → n ≤ 2 ^ 53 → IsWhole sample (num n)
whole n p = record { whole = refl; small = p }

empty-IsValid : Ram.Account.IsValid worker.ram
empty-IsValid = record {
  capacity_whole = whole 100 (omega arith);
  sizes = tt;
  accounted = refl;
  within = omega arith;
  given = λ x m. absurd (not-mem-nil m);
  distinct = Pairwise.nil;
}

reserve_compute_starts_example :
    (w' : Worker Sample ℕ) × (reserve_compute (num 1) 3 worker (num 4) (num 6) (some 2)
      ≡ some (
        w',
        TaskEffect.cpu_done_after (num 2) (record {
          cpu = 0;
          cycles = num 4;
          duration = num 2;
          caller =
              some
                (record { reservation_id = 5; caller = Last.reserve_compute_phase1_done (some 2) });
        })
            ∷ [],
      ))
    × Ram.Account.IsValid w'.ram
    × Perm w'.ram.ongoing (fresh worker.ram (num 1) (num 6) ∷ [])
    × (w'.queue_length ≡ 1)
    × Perm (0 ∷ w'.cpu_pool.available_cpus.items) (0 ∷ [])
reserve_compute_starts_example =
    reserve_compute_starts sample_exact (num 1) 3 worker (num 4) (num 6) (some 2) 0 [] processor
      (omega arith) empty-IsValid (whole 6 (omega arith)) (omega arith) (omega arith) refl refl refl
      refl

abbrev held : RamReservation Sample
held = record { id = 4; start_time = num 1; num_bytes = num 30 }

-- The worker with one task that holds 30 bytes.
abbrev busy_worker : Worker Sample ℕ
busy_worker = record worker {
  queue_length = 1;
  ram = record worker.ram { utilized = num 30; ongoing = held ∷ [] };
}

busy-IsValid : Ram.Account.IsValid busy_worker.ram
busy-IsValid = record {
  capacity_whole = whole 100 (omega arith);
  sizes = (whole 30 (omega arith), tt);
  accounted = refl;
  within = omega arith;
  given = All-mem (λ x. x.id < 5) busy_worker.ram.ongoing (λ x. le_prop) (omega arith, tt);
  distinct = Pairwise-singleton _ held;
}

abbrev busy_processor : Cpu Sample
busy_processor = record processor { last_reserved_time = num 1 }

-- the task of the reservation 4 is on the processor
abbrev working : Worker Sample ℕ
working = record busy_worker {
  cpu_pool = record worker.cpu_pool {
    available_cpus = record { items = []; capacity = 8 };
    heap = busy_processor ∷ [];
  };
}

cpu_reserve_done_ends_example :
    (w' : Worker Sample ℕ) × (c' : Cpu Sample) × (cpu_reserve_done
        (num 9)
        (record {
          cpu = 0;
          cycles = num 4;
          duration = num 2;
          caller =
              some
                (record { reservation_id = 4; caller = Last.reserve_compute_phase1_done (some 2) });
        })
        working
      ≡ some (w', TaskEffect.invoke (some 2) DseResult.res_4xx ∷ []))
    × Ram.Account.IsValid w'.ram
    × Perm (held ∷ w'.ram.ongoing) (held ∷ [])
    × (sample.to_ℕ w'.ram.utilized + 30 ≡ 30)
    × (w' ≡ record working { queue_length = 0; ram = w'.ram; cpu_pool = w'.cpu_pool })
    × (w'.cpu_pool.available_cpus.items ≡ 0 ∷ [])
    × (w'.cpu_pool.heap ≡ c' ∷ [])
    × (is_idle c' ≡ true)
    × (w'.cpu_pool.wait_queue ≡ working.cpu_pool.wait_queue)
cpu_reserve_done_ends_example =
    cpu_reserve_done_ends sample_exact sample_sign (num 9) working 0 (num 4) (num 2) (some 2) 0
      busy-IsValid refl refl refl refl
