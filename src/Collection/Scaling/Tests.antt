-- ===== src/Collection/Scaling/Tests.antt =====
-- A collection of two workers that is scaled.
use distributed_search_engin.Base.{
  ℕ, ◌≡◌, refl, none, some, [], ◌∷◌, ◌==◌, if◌then◌else◌, All, replicate, true, false, pos, arith,
}
use distributed_search_engin.Double.Sample.{Sample, num, sample}
use distributed_search_engin.Types.{WorkerStatus}
use distributed_search_engin.Config.{default, cpus_per_worker}
use distributed_search_engin.Util.BoundedQueue
use distributed_search_engin.Logical.Worker.{Worker}
use distributed_search_engin.Logical.Worker.Sample.{worker, processor}
use distributed_search_engin.Collection.{no_array}
use distributed_search_engin.Collection.Scaling.{ScaleCtx, Collection, Effect, scale_to}
use distributed_search_engin.Collection.Scaling.Start.{Halved, scale_to_starts}
use distributed_search_engin.Collection.Scaling.Finish.{take_over}

abbrev scaling : ScaleCtx ℕ
scaling = record {
  new_num_workers = 3;
  new_half_ocus = 4;
  old_workers = 30 ∷ 31 ∷ [];
  old_count = 2;
  new_workers = [];
  new_count = 0;
  spin_downs_done = 0;
  caller = some 9;
}

-- the workers 30 and 31 with a status; the context of a scaling stands at 7
abbrev collection : WorkerStatus → Collection Sample ℕ ℕ
collection status = record {
  now = num 5;
  dse_config = record {
    num_workers = 2;
    half_ocus_per_worker = 2;
    cpu_frequency = num 2;
    queue_length = 2;
  };
  config = default;
  steady = true;
  registry = record {
    counters = replicate 9 2;
    actors = record { items = 30 ∷ 31 ∷ []; capacity = 64 };
    actors_by_type =
        no_array
        ∷ no_array
        ∷ no_array
        ∷ no_array
        ∷ record { items = 30 ∷ 31 ∷ []; capacity = 16 }
        ∷ no_array
        ∷ no_array
        ∷ no_array
        ∷ no_array
        ∷ [];
    index_entries = [];
  };
  workers = λ i.
      if i == 30
      then some (record worker { status = status })
      else if i == 31
      then some (record worker { status = status })
      else none;
  indices = [];
  scalings = λ i. if i == 7 then some scaling else none;
}

abbrev before : Collection Sample ℕ ℕ
before = collection WorkerStatus.blue

scale_to_starts_example :
    (c' : Collection Sample ℕ ℕ) × (ctx : ScaleCtx ℕ) × (scale_to 8 (pos 3) (pos 4) (some 9) before
      ≡ some (
        c',
        Effect.spin_up 3
              (cpus_per_worker c'.dse_config)
              (num 2)
              (sample.mul (num 4) before.config.memory_per_half_ocu)
              2
              8
            ∷ [],
      ))
    × (c'.steady ≡ false)
    × (c'.dse_config.num_workers ≡ 5)
    × (c'.dse_config.half_ocus_per_worker ≡ 4)
    × All (Halved before.workers c'.workers) (30 ∷ 31 ∷ [])
    × (c'.scalings 8 ≡ some ctx)
    × (ctx.old_workers ≡ 30 ∷ 31 ∷ [])
    × (ctx.old_count ≡ 2)
    × (ctx.spin_downs_done ≡ 0)
    × (ctx.new_num_workers ≡ 3)
    × (ctx.caller ≡ some 9)
scale_to_starts_example =
    scale_to_starts 8 2 3 (some 9) before refl refl ((omega arith, tt), (tt, tt))
      (
        (worker, refl, (tt, tt), ((processor, refl, refl), tt)),
        ((worker, refl, (tt, tt), ((processor, refl, refl), tt)), tt),
      )

abbrev retiring : Collection Sample ℕ ℕ
retiring = collection WorkerStatus.obsolete

abbrev old_worker : Worker Sample ℕ
old_worker = record worker { status = WorkerStatus.obsolete }

abbrev taken : Collection Sample ℕ ℕ
taken = elim (take_over 7 before) [ none ↦ before | some c ↦ c ]
