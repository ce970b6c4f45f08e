-- ===== src/Profiler/Tests.antt =====
-- A profile of a collection with two actors, one of which has no profile.
use distributed_search_engin.Base.{
  ℕ, zero, suc, ◌≡◌, refl, true, Option, none, some, List, [], ◌∷◌, length, arith,
}
use distributed_search_engin.Double.Sample.{Sample, num, sample}
use distributed_search_engin.Types.{WorkerStatus}
use distributed_search_engin.Actor.{MetricKey, ProfileKv}
use distributed_search_engin.Agent.{ProfileEntry}
use distributed_search_engin.Profiler.{Profiler, View, Key, profile}
use distributed_search_engin.Profiler.History.{Fits, Adds, profile-Adds}

abbrev view : View ℕ
view = record {
  coll_repr = 67 ∷ [];
  num_workers = 2;
  half_ocus_per_worker = 4;
  steady = true;
  statuses = WorkerStatus.blue ∷ WorkerStatus.green ∷ [];
  actors_by_type = (0 ∷ 1 ∷ []) ∷ [] ∷ [];
}

abbrev text : Key → List ℕ
text key = 107 ∷ []

abbrev repr : ℕ → List ℕ
repr a = a ∷ []

abbrev run_profiler : ℕ → View ℕ → Option (List (ProfileKv Sample) × View ℕ)
run_profiler zero c = none
run_profiler (suc a) c = some (record { key = MetricKey.latency; value = num 7 } ∷ [], c)

abbrev profiled_at : ℕ → Sample → View ℕ → View ℕ
profiled_at a time c = c

abbrev act : ℕ → List (ProfileEntry Sample) → View ℕ → View ℕ
act g history c = record c { num_workers = length history }

abbrev profiler : Profiler Sample ℕ
profiler = record {
  history = [];
  history_capacity = 4;
  agents = 9 ∷ [];
  period = num 300;
  active = true;
}

abbrev view_of : View ℕ → View ℕ
view_of c = c

abbrev profiled : Profiler Sample ℕ × View ℕ
profiled = profile text repr view_of run_profiler profiled_at act (num 300) (profiler, view)

-- five metrics of the collection and one of an actor, which the agent sees; the array has grown
profiled_counts :
    (length profiled.0.history ≡ 6)
    × (profiled.0.history_capacity ≡ 8)
    × (profiled.1.num_workers ≡ 6)
unfolding profile
profiled_counts = (refl, refl, refl)

profiler-Fits : Fits profiler
unfolding Fits
profiler-Fits = (omega arith, omega arith)

profile-Adds_example : Adds (num 300) profiler profiled.0
profile-Adds_example =
    profile-Adds text repr view_of run_profiler profiled_at act (num 300) profiler view
      profiler-Fits
