-- ===== src/Logical/Worker/Sample.antt =====
-- An idle worker, for tests.
use distributed_search_engin.Base.{none, [], ◌∷◌, true, false}
use distributed_search_engin.Double.Sample.{Sample, num, minus}
use distributed_search_engin.Types.{ActorType, WorkerStatus}
use distributed_search_engin.Actor.{Actor}
use distributed_search_engin.Physical.Cpu.{Cpu}
use distributed_search_engin.Logical.Worker.{Worker}

abbrev pub task_actor : ActorType → Actor Sample
task_actor t = record { id = 1; type = t; profiled = true; last_profiled = num 0; generation = 0 }

abbrev pub processor : Cpu Sample
processor = record {
  base = task_actor ActorType.cpu;
  freq = num 2;
  last_reserved_time = minus;
  busy_time = num 0;
  enabled = true;
  blue_green_active = false;
  blue_green_start = num 0;
  baseline_utilization = num 0;
  empty_profile_count = 0;
}

-- A worker with one processor, 100 bytes of memory, and nothing to do.
abbrev pub worker : {K : Type 0} → Worker Sample K
worker = record {
  base = task_actor ActorType.worker;
  cpu_pool = record {
    base = task_actor ActorType.cpu_pool;
    worker_id = 1;
    frequency = num 2;
    cpus = record { items = 0 ∷ []; capacity = 8 };
    available_cpus = record { items = 0 ∷ []; capacity = 8 };
    spinning_down = false;
    wait_queue = record {
      buf = none ∷ none ∷ [];
      head = 0;
      tail = 0;
      count = 0;
      capacity = 2;
      finalized = false;
    };
    heap = processor ∷ [];
  };
  ram = record {
    base = task_actor ActorType.ram;
    worker_id = 1;
    capacity = num 100;
    utilized = num 0;
    integrated_utilization = num 0;
    ongoing = [];
    ongoing_capacity = 64;
    next_reservation_id = 5;
  };
  disk = record {
    base = task_actor ActorType.disk;
    read_speed = num 10;
    write_speed = num 5;
    last_read_start = minus;
    last_write_start = minus;
    total_read = num 0;
    total_write = num 0;
  };
  total_requests = 0;
  results_4xx = 0;
  results_5xx = 0;
  queue_length = 0;
  request_count = 0;
  status = WorkerStatus.blue;
}
