-- ===== src/Physical/Cpu.antt =====
-- include/components/physical/cpu.h, src/components/physical/cpu.c: one processor of a worker. `now` is the
-- time of the collection's clock.
use distributed_search_engin.Base.{
  ℕ, ◌+◌, Bool, true, false, not, ◌&&◌, Option, none, some, List, [], ◌∷◌, leb, if◌then◌else◌,
}
use distributed_search_engin.Double.{Double}
use distributed_search_engin.Actor.{Actor, MetricKey, ProfileKv}

-- `struct CPU`, without the pointer to its pool
pub record Cpu (F : Type 0) : Type 0 where
  pub base : Actor F
  pub freq : F
  pub last_reserved_time : F
  pub busy_time : F
  pub enabled : Bool
  pub blue_green_active : Bool
  pub blue_green_start : F
  pub baseline_utilization : F
  pub empty_profile_count : ℕ

module _ {F : Type 0} ⦃d : Double F⦄ where
  -- the literal -1.0 and the test `t < 0.0`, by which a processor is idle
  abbrev pub idle_mark : F
  idle_mark = d.neg (d.of_ℕ 1)

  abbrev pub is_idle : Cpu F → Bool
  is_idle c = d.lt c.last_reserved_time (d.of_ℕ 0)

  -- `cpu_init`, on an actor that `actor_init` has made
  unfoldable pub init : Actor F → F → Cpu F
  init base freq = record {
    base = base;
    freq = freq;
    last_reserved_time = idle_mark;
    busy_time = d.of_ℕ 0;
    enabled = true;
    blue_green_active = false;
    blue_green_start = d.of_ℕ 0;
    baseline_utilization = d.of_ℕ 0;
    empty_profile_count = 0;
  }

  -- `cpu_run_profiler`, for a processor of the worker `worker_id`
  unfoldable pub run_profiler : F → ℕ → Cpu F → List (ProfileKv F) × Cpu F
  run_profiler now worker_id c =
      let busy = d.le (d.of_ℕ 0) c.last_reserved_time in
      let idle = d.eq c.busy_time (d.of_ℕ 0) && not busy in
      let counted =
        if idle then record c { empty_profile_count = c.empty_profile_count + 1 } else c in
      let total_time = d.sub now c.base.last_profiled in
      let partial =
        if busy
        then d.mul (d.sub now c.last_reserved_time) (d.sub (d.of_ℕ 1) c.baseline_utilization)
        else d.of_ℕ 0 in
      let utilization_frac = d.div (d.add c.busy_time partial) total_time in
      let bg_start = if c.blue_green_active then c.blue_green_start else now in
      let baseline =
        d.div (d.mul c.baseline_utilization (d.sub now (d.fmax c.base.last_profiled bg_start)))
          total_time in
      if idle && leb 3 counted.empty_profile_count
      then ([], counted)
      else if d.le total_time (d.of_ℕ 0)
      then ([], counted)
      else (
        record {
          key = MetricKey.utilization_frac worker_id;
          value = d.add baseline utilization_frac;
        }
            ∷ [],
        record counted {
          busy_time = d.of_ℕ 0;
          last_reserved_time = if busy then now else c.last_reserved_time;
        },
      )

  -- `cpu_start_blue_green`; `none` is the failed assertion
  unfoldable pub start_blue_green : F → F → Cpu F → Option (Cpu F)
  start_blue_green now bg_util c =
      if c.blue_green_active
      then none
      else some (record c {
        blue_green_active = true;
        blue_green_start = now;
        freq = d.mul c.freq (d.sub (d.of_ℕ 1) bg_util);
        baseline_utilization = bg_util;
      })
