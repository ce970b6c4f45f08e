-- ===== src/Actor.antt =====
-- include/collection/actor.h: the part that every component of the simulator has in common, and the
-- results of profiling.
use distributed_search_engin.Base.{ℕ, Bool}
use distributed_search_engin.Types.{ActorType}

-- `struct Actor`; `profiled` says whether the function pointer `run_profiler` is set
pub record Actor (F : Type 0) : Type 0 where
  pub id : ℕ
  pub type : ActorType
  pub profiled : Bool
  pub last_profiled : F
  pub generation : ℕ

-- The keys of the metrics; a number is the one that the key shows in brackets.
pub data MetricKey : Type 0 where
  utilization_frac utilization_avg utilization_ratio : ℕ → MetricKey
  read_utilization_frac write_utilization_frac read_bytes write_bytes : MetricKey
  read_rate_bytes write_rate_bytes : MetricKey
  total_requests metric_4xx metric_5xx queue_length latency num_shards : MetricKey
  cpu_cycles num_requests size : ℕ → MetricKey

-- `ProfileKV`
pub record ProfileKv (F : Type 0) : Type 0 where
  pub key : MetricKey
  pub value : F
