-- ===== src/Config.antt =====
-- include/config.h: the parameters of a simulation.
use distributed_search_engin.Base.{ℕ, ◌/◌, ◌^◌, ◌*◌, Bool, false, ltb, if◌then◌else◌}
use distributed_search_engin.Double.{Double}

-- `Config`
pub record Config (F : Type 0) : Type 0 where
  pub cpu_spin_up_delay : F
  pub cpu_spin_down_delay : F
  pub worker_ready_time : F
  pub worker_spin_down_time : F
  pub compute_hash_timeout : F
  pub disk_read_speed : F
  pub disk_write_speed : F
  pub index_creation_time : F
  pub shard_creation_time : F
  pub memory_per_half_ocu : F
  pub cpu_frequency : F
  pub blue_green_cpu_util : F
  pub ignore_steady : Bool
  pub debug : Bool

-- `DSECollectionConfig`
pub record DseCollectionConfig (F : Type 0) : Type 0 where
  pub num_workers : ℕ
  pub half_ocus_per_worker : ℕ
  pub cpu_frequency : F
  pub queue_length : ℕ

module _ {F : Type 0} ⦃d : Double F⦄ where
  -- `config_default`
  unfoldable pub default : Config F
  default = record {
    cpu_spin_up_delay = d.of_ℕ 220;
    cpu_spin_down_delay = d.of_ℕ 0;
    worker_ready_time = d.of_ℕ 0;
    worker_spin_down_time = d.of_ℕ 0;
    compute_hash_timeout = d.decimal 1 5;
    disk_read_speed = d.of_ℕ (10 ^ 9);
    disk_write_speed = d.of_ℕ (10 ^ 9);
    index_creation_time = d.of_ℕ 60;
    shard_creation_time = d.of_ℕ 0;
    memory_per_half_ocu = d.of_ℕ (2 * 10 ^ 9);
    cpu_frequency = d.of_ℕ (10 ^ 9);
    blue_green_cpu_util = d.decimal 7 1;
    ignore_steady = false;
    debug = false;
  }

  -- `dse_config_memory_per_worker`
  unfoldable pub memory_per_worker : DseCollectionConfig F → Config F → F
  memory_per_worker c config = d.mul (d.of_ℕ c.half_ocus_per_worker) config.memory_per_half_ocu

-- `dse_config_cpus_per_worker`
unfoldable pub cpus_per_worker : {F : Type 0} → DseCollectionConfig F → ℕ
cpus_per_worker c = let half = c.half_ocus_per_worker / 2 in if ltb 1 half then half else 1
