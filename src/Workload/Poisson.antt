-- ===== src/Workload/Poisson.antt =====
-- src/generator/workload.c: the Poisson generator, which draws a request at a time and the delay to
-- the next one. sqrt, log, sin and the number pi are parameters; the draws that may repeat run on fuel.
use distributed_search_engin.Base.{
  ℕ, ◌+◌, Bool, true, false, ◌||◌, not, Option, none, some, ◌>>=◌, List, [], ◌∷◌, if◌then◌else◌,
  get_elem?, length, pos,
}
use distributed_search_engin.Double.{Double}
use distributed_search_engin.Util.Rng.{Rng, int, uniform, choice_index}
use distributed_search_engin.Util.Rng.Draws.{gauss, expovariate}
use distributed_search_engin.Collection.{IndexEntry, Registry}
use distributed_search_engin.Workload.{
  Effect, new_get, new_put, new_search, start_get, start_put, start_search,
}

-- `PoissonWorkloadGenerator`, with the generator `rng` of the collection; nothing is written to
-- `save_file`
pub record PoissonWorkloadGenerator (F : Type 0) : Type 0 where
  pub rng : Rng F
  pub rate : F
  pub rate_mean : F
  pub rate_period : F
  pub sinusoidal : Bool
  pub cpu_mean : F
  pub cpu_std : F
  pub mem_mean : F
  pub mem_std : F
  pub count : ℕ
  pub end_time : F
  pub active : Bool

-- what a dispatch does: a request is started, the next dispatch is scheduled after a delay, and the
-- clock is stopped at once
pub data Arrival (F : Type 0) : Type 0 where
  request : Effect F → Arrival F
  next_after : F → Arrival F
  stop : Arrival F

module _ {F : Type 0} ⦃d : Double F⦄ where
  -- `poisson_workload_init`; the two fields of the sinusoidal rate are not set
  unfoldable pub init : Rng F → F → F → F → F → F → F → F → F → PoissonWorkloadGenerator F
  init rng unset unset' rate end_time cpu_mean cpu_std mem_mean mem_std = record {
    rng = rng;
    rate = rate;
    rate_mean = unset;
    rate_period = unset';
    sinusoidal = false;
    cpu_mean = cpu_mean;
    cpu_std = cpu_std;
    mem_mean = mem_mean;
    mem_std = mem_std;
    count = 0;
    end_time = end_time;
    active = true;
  }

  -- `poisson_workload_init_sinusoidal`
  unfoldable pub init_sinusoidal : Rng F → F → F → F → F → F → F → F → PoissonWorkloadGenerator F
  unfolding init
  init_sinusoidal rng rate_mean rate_period end_time cpu_mean cpu_std mem_mean mem_std =
      let gen =
        init rng rate_mean rate_period rate_mean end_time cpu_mean cpu_std mem_mean mem_std in
      record gen { sinusoidal = true; rate_mean = rate_mean; rate_period = rate_period }

  -- the request for a draw `rnd` between 0 and 1: a GET up to 0.35, a PUT up to 0.85, else a SEARCH
  unfoldable pub drawn_request : F → F → F → F → ℕ → ℕ → Effect F
  drawn_request rnd time cpu_size mem_size index document =
      if d.le rnd (d.decimal 35 2)
      then start_get index (new_get time (pos document) cpu_size mem_size none)
      else if d.le rnd (d.decimal 85 2)
      then start_put index (new_put time (pos document) cpu_size mem_size none)
      else start_search index (
          new_search time (d.div cpu_size (d.of_ℕ 10)) (d.div mem_size (d.of_ℕ 10)) cpu_size
            mem_size (d.mul cpu_size (d.of_ℕ 2)) [])

module _ {F : Type 0} ⦃d : Double F⦄ (sqrt log sin : F → F) (pi : F) where
  -- `poisson_get_rate`
  unfoldable pub get_rate : PoissonWorkloadGenerator F → F → F
  get_rate gen time =
      let angle = d.div (d.mul (d.mul (d.of_ℕ 2) pi) time) gen.rate_period in
      let c1 = d.div (d.add (d.of_ℕ 1) (sin angle)) (d.of_ℕ 2) in
      if not gen.sinusoidal
      then gen.rate
      else d.mul (d.add (d.decimal 5 1) (d.mul (d.decimal 15 1) c1)) gen.rate_mean

  -- the scheduling of the next arrival, which also is `poisson_workload_start`
  unfoldable pub start :
      ℕ → F → PoissonWorkloadGenerator F → Option (PoissonWorkloadGenerator F × List (Arrival F))
  unfolding get_rate
  start fuel time gen = do
    (delay, rng) ← expovariate sqrt log fuel gen.rng (get_rate gen time)
    let drawn : PoissonWorkloadGenerator F = record gen { rng = rng }
    some (drawn, Arrival.next_after delay ∷ [])

  -- the draws of a request: its sizes, its kind, its index and its document
  unfoldable pub draw_request :
      ℕ
      → List IndexEntry
      → F
      → PoissonWorkloadGenerator F
      → Option (PoissonWorkloadGenerator F × Option (Effect F))
  unfolding drawn_request
  draw_request fuel entries time gen = do
    (cpu, r1) ← gauss sqrt log fuel gen.rng gen.cpu_mean gen.cpu_std
    (mem, r2) ← gauss sqrt log fuel r1 gen.mem_mean gen.mem_std
    let (rnd, r3) = uniform r2 (d.of_ℕ 0) (d.of_ℕ 1)
    let (idx_i, r4) = choice_index r3 (length entries)
    let (doc_id, r5) = int r4 0 1000000000
    let cpu_size = d.fmax (d.of_ℕ 1) cpu
    let mem_size = d.fmax (d.of_ℕ 1) mem
    let without : PoissonWorkloadGenerator F = record gen { rng = r3; count = gen.count + 1 }
    let drawn : PoissonWorkloadGenerator F = record gen { rng = r5; count = gen.count + 1 }
    some (elim (get_elem? entries idx_i) [
      | none ↦ (without, none)
      | some e ↦ (drawn, some (drawn_request rnd time cpu_size mem_size e.index doc_id))
    ])

  -- a request that is started, and the next arrival; a collection without an index ends the arrivals
  abbrev ask :
      ℕ
      → F
      → PoissonWorkloadGenerator F
      → Option (Effect F)
      → Option (PoissonWorkloadGenerator F × List (Arrival F))
  ask fuel time gen none = some (gen, [])
  ask fuel time gen (some e) = do
    (scheduled, next) ← start fuel time gen
    some (scheduled, Arrival.request e ∷ next)

  -- `poisson_dispatch_next`, at the time of the clock
  unfoldable pub dispatch_next :
      ℕ
      → Registry
      → F
      → PoissonWorkloadGenerator F
      → Option (PoissonWorkloadGenerator F × List (Arrival F))
  unfolding start draw_request
  dispatch_next fuel c time gen =
      let dispatched = do
        (drawn, asked) ← draw_request fuel c.index_entries time gen
        ask fuel time drawn asked
      in if not gen.active || d.le gen.end_time time
        then some (gen, Arrival.stop ∷ [])
        else dispatched
