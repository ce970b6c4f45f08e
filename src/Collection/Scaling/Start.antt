-- ===== src/Collection/Scaling/Start.antt =====
-- Which requests for a scaling are refused, and how one starts.
use distributed_search_engin.Base.{
  ℕ, zero, suc, ◌+◌, ◌≤◌, ◌<◌, ◌≡◌, ◌≢◌, refl, sym, ap, ◌∙◌, true, false, not, ◌&&◌, ◌||◌, Option,
  some, List, [], ◌∷◌, ◌==◌, ltb, get_elem?, set, length, All, pos, negsuc, ◌+ℤ◌, put_at,
  put_at_same, put_at_other, Bool-cases, ltb→lt, ◌-◌, ◌⊎◌, inl, inr, arith,
}
use distributed_search_engin.Double.{Double}
use distributed_search_engin.Types.{DseResult}
use distributed_search_engin.Config.{cpus_per_worker, memory_per_worker}
use distributed_search_engin.Physical.Cpu.{Cpu, start_blue_green}
use distributed_search_engin.Logical.Worker.{Worker}
use distributed_search_engin.Collection.Scaling.{
  ScaleCtx, Collection, Effect, worker_list, halve_cpus, halve_worker, halve_workers,
  scale_workers_start, scale_to, scale_in, scale_down,
}
use distributed_search_engin.Collection.Scaling.Finish.Retire.{Distinct}

get_elem?-set_other :
    {A : Type 0} (xs : List A) (i j : ℕ) (v : A) → j ≢ i → get_elem? (set xs i v) j ≡ get_elem? xs j
get_elem?-set_other [] i j v apart = refl
get_elem?-set_other (x ∷ xs) zero zero v apart = absurd (apart refl)
get_elem?-set_other (x ∷ xs) zero (suc j) v apart = refl
get_elem?-set_other (x ∷ xs) (suc i) zero v apart = refl
get_elem?-set_other (x ∷ xs) (suc i) (suc j) v apart =
    get_elem?-set_other xs i j v (λ e. apart (ap suc e))

module _ {F : Type 0} ⦃d : Double F⦄ where
  -- a processor that is there and takes part in no deployment
  abbrev pub Free : List (Cpu F) → ℕ → Type 0
  Free heap i = (cpu : Cpu F) × (get_elem? heap i ≡ some cpu) × (cpu.blue_green_active ≡ false)

  Free-keep :
      (heap : List (Cpu F)) (i : ℕ) (cpu : Cpu F) (js : List ℕ)
      → All (λ j. j ≢ i) js
      → All (Free heap) js
      → All (Free (set heap i cpu)) js
  Free-keep heap i cpu [] apart free = tt
  Free-keep heap i cpu (j ∷ js) apart free =
      let ((other, there, idle), others) = free in
      (
        (other, get_elem?-set_other heap i j cpu apart.0 ∙ there, idle),
        Free-keep heap i cpu js apart.1 others,
      )

  halve_cpus_total :
      (now util : F) (is : List ℕ) (heap : List (Cpu F))
      → Distinct is
      → All (Free heap) is
      → (heap' : List (Cpu F)) × (halve_cpus now util is heap ≡ some heap')
  unfolding halve_cpus start_blue_green
  halve_cpus_total now util [] heap distinct free = (heap, refl)
  halve_cpus_total now util (i ∷ is) heap distinct free =
      let ((cpu, there, idle), others) = free in
      let cpu' : Cpu F = record cpu {
        blue_green_active = true;
        blue_green_start = now;
        freq = d.mul cpu.freq (d.sub (d.of_ℕ 1) util);
        baseline_utilization = util;
      } in
      let (heap', rest) =
        halve_cpus_total now util is (set heap i cpu') distinct.1
          (Free-keep heap i cpu' is distinct.0 others) in
      (heap', rw (there, idle) rest)

module _ {F K : Type 0} ⦃d : Double F⦄ where
  -- a worker that is there, with distinct processors that are all free
  abbrev pub Halvable : (ℕ → Option (Worker F K)) → ℕ → Type 0
  Halvable workers i =
      (w : Worker F K) × (workers i ≡ some w)
      × Distinct w.cpu_pool.cpus.items
      × All (Free w.cpu_pool.heap) w.cpu_pool.cpus.items

  -- the frequency of its pool is half of what it was
  abbrev pub Halved : (old new : ℕ → Option (Worker F K)) → ℕ → Type 0
  Halved old new i =
      (w : Worker F K) × (w' : Worker F K) × (old i ≡ some w)
      × (new i ≡ some w')
      × (w'.cpu_pool.frequency ≡ d.div w.cpu_pool.frequency (d.of_ℕ 2))

  Halvable-keep :
      (workers : ℕ → Option (Worker F K)) (i : ℕ) (w : Worker F K) (js : List ℕ)
      → All (λ j. j ≢ i) js
      → All (Halvable workers) js
      → All (Halvable (put_at workers i w)) js
  Halvable-keep workers i w [] apart halvable = tt
  Halvable-keep workers i w (j ∷ js) apart halvable =
      let ((other, there, distinct, free), others) = halvable in
      (
        (other, put_at_other workers j i w apart.0 ∙ there, distinct, free),
        Halvable-keep workers i w js apart.1 others,
      )

  Halved-put_at :
      (workers new : ℕ → Option (Worker F K)) (i : ℕ) (w : Worker F K) (js : List ℕ)
      → All (λ j. j ≢ i) js
      → All (Halved (put_at workers i w) new) js
      → All (Halved workers new) js
  Halved-put_at workers new i w [] apart halved = tt
  Halved-put_at workers new i w (j ∷ js) apart halved =
      let ((x, y, old, changed, half), others) = halved in
      (
        (x, y, sym (put_at_other workers j i w apart.0) ∙ old, changed, half),
        Halved-put_at workers new i w js apart.1 others,
      )

  halve_workers_total :
      (now util : F) (is : List ℕ) (workers : ℕ → Option (Worker F K))
      → Distinct is
      → All (Halvable workers) is
      → (new : ℕ → Option (Worker F K)) × (halve_workers now util is workers ≡ some new)
        × All (Halved workers new) is
        × ((v : ℕ) → All (λ j. j ≢ v) is → new v ≡ workers v)
  unfolding halve_workers halve_worker
  halve_workers_total now util [] workers distinct halvable = (workers, refl, tt, λ v far. refl)
  halve_workers_total now util (i ∷ is) workers distinct halvable =
      let ((w, there, apart, free), others) = halvable in
      let (heap, halved) =
        halve_cpus_total now util w.cpu_pool.cpus.items w.cpu_pool.heap apart free in
      let w' : Worker F K = record w {
        cpu_pool = record w.cpu_pool {
          frequency = d.div w.cpu_pool.frequency (d.of_ℕ 2);
          heap = heap;
        };
      } in
      let (new, rest, all, far) =
        halve_workers_total now util is (put_at workers i w') distinct.1
          (Halvable-keep workers i w' is distinct.0 others) in
      (
        new,
        rw (there, halved) rest,
        (
          (w, w', there, far i distinct.0 ∙ put_at_same workers i w', refl),
          Halved-put_at workers new i w' is distinct.0 all,
        ),
        λ v away. far v away.1 ∙ put_at_other workers v i w' (λ e. away.0 (sym e)),
      )

below_one :
    (n m : ℕ) → n ≤ suc m → (pos n +ℤ negsuc m ≡ pos 0) ⊎ ((k : ℕ) × (pos n +ℤ negsuc m ≡ negsuc k))
below_one n m h = elim (Bool-cases (ltb n (suc m))) [
  | inl less ↦
      let k = m - n in
      let gap : suc m - n ≡ suc k = omega (arith, ltb→lt n (suc m) less) in
      inr (k, rw (less, gap) refl)
  | inr not_less ↦
      let none_left : n - suc m ≡ 0 = omega (arith, h) in inl (rw (not_less, none_left) refl)
]

module _ {F K C : Type 0} ⦃d : Double F⦄ where
  -- A scaling to other sizes of at least one worker and one half OCU starts, if the collection is steady
  -- or that is ignored, and if the workers are there with processors that take part in no deployment:
  -- the collection is no longer steady, the pools of all workers have half their frequency, the number
  -- of workers in the configuration is the sum of old and new ones, the context remembers the old
  -- workers and the caller, and the new workers are asked for once, with the new sizes. The caller is
  -- told nothing yet.
  pub scale_to_starts :
      (p n h : ℕ) (cont : Option C) (c : Collection F K C)
      → (not c.steady && not c.config.ignore_steady) ≡ false
      → (c.dse_config.num_workers == suc n && c.dse_config.half_ocus_per_worker == suc h) ≡ false
      → Distinct (worker_list c)
      → All (Halvable c.workers) (worker_list c)
      → (c' : Collection F K C) × (ctx : ScaleCtx C) × (scale_to p
            (pos (suc n))
            (pos (suc h))
            cont
            c
          ≡ some (
            c',
            Effect.spin_up
                  (suc n)
                  (cpus_per_worker c'.dse_config)
                  c.dse_config.cpu_frequency
                  (d.mul (d.of_ℕ (suc h)) c.config.memory_per_half_ocu)
                  c.dse_config.queue_length
                  p
                ∷ [],
          ))
        × (c'.steady ≡ false)
        × (c'.dse_config.num_workers ≡ c.dse_config.num_workers + suc n)
        × (c'.dse_config.half_ocus_per_worker ≡ suc h)
        × All (Halved c.workers c'.workers) (worker_list c)
        × (c'.scalings p ≡ some ctx)
        × (ctx.old_workers ≡ worker_list c)
        × (ctx.old_count ≡ length (worker_list c))
        × (ctx.spin_downs_done ≡ 0)
        × (ctx.new_num_workers ≡ suc n)
        × (ctx.caller ≡ cont)
  unfolding scale_to scale_workers_start memory_per_worker
  scale_to_starts p n h cont c allowed other distinct halvable =
      let old = worker_list c in
      let (workers, halved, all, far) =
        halve_workers_total c.now c.config.blue_green_cpu_util old c.workers distinct halvable in
      let positive : (suc n == 0 || suc h == 0) ≡ false = ground arith in
      let ctx : ScaleCtx C = record {
        new_num_workers = suc n;
        new_half_ocus = suc h;
        old_workers = old;
        old_count = length old;
        new_workers = [];
        new_count = 0;
        spin_downs_done = 0;
        caller = cont;
      } in
      (
        record c {
          steady = false;
          workers = workers;
          dse_config = record c.dse_config {
            half_ocus_per_worker = suc h;
            num_workers = c.dse_config.num_workers + suc n;
          };
          scalings = put_at c.scalings p ctx;
        },
        ctx,
        rw (allowed, other, positive, halved) refl,
        refl,
        refl,
        refl,
        all,
        put_at_same c.scalings p ctx,
        refl,
        refl,
        refl,
        refl,
        refl,
      )

  -- A request to scale in by as many workers as there are, or more, and one to scale down by as many
  -- half OCUs as a worker has, or more, is refused: the collection is as before, and the caller is told
  -- DSE_ERR_INVALID_SCALING.
  pub scale_below_one :
      (p m : ℕ) (cont : Option C) (c : Collection F K C)
      → (not c.steady && not c.config.ignore_steady) ≡ false
      → 0 < c.dse_config.num_workers
      → 0 < c.dse_config.half_ocus_per_worker
      → c.dse_config.num_workers ≤ suc m
      → c.dse_config.half_ocus_per_worker ≤ suc m
      → (scale_in p (pos (suc m)) cont c
          ≡ some (c, Effect.told cont DseResult.err_invalid_scaling ∷ []))
        × (scale_down p (pos (suc m)) cont c
            ≡ some (c, Effect.told cont DseResult.err_invalid_scaling ∷ []))
  unfolding scale_in scale_down scale_to
  scale_below_one p m cont c allowed some_workers some_half in_ down =
      let num = c.dse_config.num_workers in
      let half = c.dse_config.half_ocus_per_worker in
      let no_workers : (num == 0) ≡ false = ground (arith, some_workers) in
      let no_half : (half == 0) ≡ false = ground (arith, some_half) in
      let same : (num == num) ≡ true = ground arith in
      (
        elim (below_one num m in_) [
          | inl e ↦ rw e (rw (allowed, no_workers) refl)
          | inr (k, e) ↦ rw e (rw allowed refl)
        ],
        elim (below_one half m down) [
          | inl e ↦ rw e (rw (allowed, same, no_half, no_workers) refl)
          | inr (k, e) ↦ rw e (rw allowed refl)
        ],
      )
