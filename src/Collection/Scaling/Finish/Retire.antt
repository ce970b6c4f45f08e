-- ===== src/Collection/Scaling/Finish/Retire.antt =====
-- The old workers of a scaling, spun down one after the other.
use distributed_search_engin.Base.{
  ℕ, ◌≡◌, ◌≢◌, ◌∙◌, true, false, some, List, [], ◌∷◌, map, ◌==◌, ◌||◌, Bool, All,
}
use distributed_search_engin.Double.{Double}
use distributed_search_engin.Types.{WorkerStatus}
use distributed_search_engin.Util.BoundedQueue.Refine.{Holds}
use distributed_search_engin.Physical.Ram
use distributed_search_engin.Physical.CpuPool
use distributed_search_engin.Physical.CpuPool.{WaitCtx}
use distributed_search_engin.Logical.Worker
use distributed_search_engin.Logical.Worker.{Worker, Wrap, TaskEffect}
use distributed_search_engin.Collection
use distributed_search_engin.Collection.Scaling.{Collection, Effect}

-- whether a list has a number
abbrev pub among : ℕ → List ℕ → Bool
among v [] = false
among v (w ∷ ws) = v == w || among v ws

-- no worker occurs twice
abbrev pub Distinct : List ℕ → Type 0
Distinct [] = Unit
Distinct (w ∷ ws) = All (λ v. v ≢ w) ws × Distinct ws

module _ {F K C : Type 0} where
  -- what a worker does as it ends its tasks
  abbrev pub OfWorker : Effect F K C → Type 0
  OfWorker (Effect.of_worker w e) = Unit
  OfWorker (Effect.spin_up a b e f g h) = ⊥
  OfWorker (Effect.told k r) = ⊥

  abbrev of_worker_all : ℕ → List (TaskEffect F K) → List (Effect F K C)
  of_worker_all w es = map (Effect.of_worker w) es

module _ {F K C : Type 0} where
  -- a worker that is obsolete, with a queue of tasks that wait
  abbrev pub Retiring : Collection F K C → ℕ → Type 0
  Retiring c w =
      (worker : Worker F K) × (waiting : List (WaitCtx F (Wrap K))) × (c.workers w ≡ some worker)
      × (worker.status ≡ WorkerStatus.obsolete)
      × Holds worker.cpu_pool.wait_queue waiting

  pub Retiring-keep :
      (c c' : Collection F K C) (w : ℕ) (ws : List ℕ)
      → ((v : ℕ) → v ≢ w → c'.workers v ≡ c.workers v)
      → All (λ v. v ≢ w) ws
      → All (Retiring c) ws
      → All (Retiring c') ws
  Retiring-keep c c' w [] kept apart retiring = tt
  Retiring-keep c c' w (v ∷ ws) kept apart retiring =
      let ((worker, waiting, there, old, holds), others) = retiring in
      (
        (worker, waiting, kept v apart.0 ∙ there, old, holds),
        Retiring-keep c c' w ws kept apart.1 others,
      )

module _ {F K : Type 0} where
  -- a worker whose pool is closed, with no tasks that wait
  abbrev pub Stopped : Worker F K → Type 0
  Stopped worker =
      (worker.status ≡ WorkerStatus.obsolete)
      × (worker.cpu_pool.spinning_down ≡ true)
      × (worker.cpu_pool.wait_queue.finalized ≡ true)
      × (worker.cpu_pool.wait_queue.count ≡ 0)

module _ {F K : Type 0} ⦃d : Double F⦄ where
  -- what a worker keeps when its tasks are dismissed
  abbrev Kept : Worker F K → Worker F K → Type 0
  Kept w w' = (w'.base ≡ w.base) × (w'.cpu_pool ≡ w.cpu_pool) × (w'.status ≡ w.status)
