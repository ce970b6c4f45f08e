-- ===== src/Physical/Disk.antt =====
-- include/components/physical/disk.h, src/components/physical/disk.c: the disk of a worker.
-- A continuation is of a type `K`, and is `none` where the code has CONT_NULL. `now` is the time of the
-- collection's clock. An operation gives back what it does to the clock, in place of doing it.
pub mod Totals
use distributed_search_engin.Base.{ℕ, Bool, Option, List, [], ◌∷◌, if◌then◌else◌}
use distributed_search_engin.Double.{Double}
use distributed_search_engin.Types.{DiskOp, DseResult}
use distributed_search_engin.Actor.{Actor, MetricKey, ProfileKv}

-- `struct Disk`; of its worker nothing is used
pub record Disk (F : Type 0) : Type 0 where
  pub base : Actor F
  pub read_speed : F
  pub write_speed : F
  pub last_read_start : F
  pub last_write_start : F
  pub total_read : F
  pub total_write : F

-- `DiskReserveCtx`, of one disk
pub record DiskReserveCtx (F K : Type 0) : Type 0 where
  pub bytes : F
  pub op : DiskOp
  pub caller : Option K

module _ {F : Type 0} ⦃d : Double F⦄ where
  -- `disk_init`, on an actor that `actor_init` has made
  unfoldable pub init : Actor F → F → F → Disk F
  init base read_speed write_speed = record {
    base = base;
    read_speed = read_speed;
    write_speed = write_speed;
    last_read_start = d.neg (d.of_ℕ 1);
    last_write_start = d.neg (d.of_ℕ 1);
    total_read = d.of_ℕ 0;
    total_write = d.of_ℕ 0;
  }

  -- the share of the interval since `start`, which is negative if the disk is idle
  abbrev pub busy_frac : F → F → F → F
  busy_frac now total_time start =
      if d.le (d.of_ℕ 0) start then d.div (d.sub now start) total_time else d.of_ℕ 0

  -- `disk_run_profiler`
  unfoldable pub run_profiler : F → Disk F → List (ProfileKv F) × Disk F
  run_profiler now k =
      let total_time = d.sub now k.base.last_profiled in
      let read_frac = busy_frac now total_time k.last_read_start in
      let write_frac = busy_frac now total_time k.last_write_start in
      if d.le total_time (d.of_ℕ 0) then ([], k) else (
        record { key = MetricKey.read_utilization_frac; value = read_frac }
            ∷ record { key = MetricKey.write_utilization_frac; value = write_frac }
            ∷ record { key = MetricKey.read_bytes; value = k.total_read }
            ∷ record { key = MetricKey.write_bytes; value = k.total_write }
            ∷ record { key = MetricKey.read_rate_bytes; value = d.div k.total_read total_time }
            ∷ record { key = MetricKey.write_rate_bytes; value = d.div k.total_write total_time }
            ∷ [],
        record k { total_read = d.of_ℕ 0; total_write = d.of_ℕ 0 },
      )

  module _ {K : Type 0} where
    -- `disk_reserve_done`: the disk, and the continuation that is invoked with its result
    unfoldable pub reserve_done : DiskReserveCtx F K → Disk F → Disk F × Option K × DseResult
    reserve_done ctx k = elim ctx.op [
      | DiskOp.read ↦ (
        record k { total_read = d.add k.total_read ctx.bytes; last_read_start = d.neg (d.of_ℕ 1) },
        ctx.caller,
        DseResult.res_4xx,
      )
      | DiskOp.write ↦ (
        record k {
          total_write = d.add k.total_write ctx.bytes;
          last_write_start = d.neg (d.of_ℕ 1);
        },
        ctx.caller,
        DseResult.res_4xx,
      )
    ]

    -- `disk_reserve_op`: the disk, and the delay after which `disk_reserve_done` runs on the context
    unfoldable pub reserve_op : F → Disk F → F → DiskOp → Option K → Disk F × F × DiskReserveCtx F K
    reserve_op now k bytes op cont =
        let speed : F = elim op [ DiskOp.read ↦ k.read_speed | DiskOp.write ↦ k.write_speed ] in
        let started : Disk F = elim op [
          | DiskOp.read ↦ record k { last_read_start = now }
          | DiskOp.write ↦ record k { last_write_start = now }
        ] in
        (started, d.div bytes speed, record { bytes = bytes; op = op; caller = cont })

    -- `disk_reserve_read`
    unfoldable pub reserve_read : F → Disk F → F → Option K → Disk F × F × DiskReserveCtx F K
    unfolding reserve_op
    reserve_read now k bytes cont = reserve_op now k bytes DiskOp.read cont

    -- `disk_reserve_write`
    unfoldable pub reserve_write : F → Disk F → F → Option K → Disk F × F × DiskReserveCtx F K
    unfolding reserve_op
    reserve_write now k bytes cont = reserve_op now k bytes DiskOp.write cont
