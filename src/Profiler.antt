-- ===== src/Profiler.antt =====
-- include/profiler/profiler.h, src/profiler/profiler.c: the periodic profile of a collection. The
-- collection is of an abstract type `W`, which the profiler only reads through a view and changes by
-- calling its actors and agents; snprintf is a parameter.
pub mod History
mod Tests
use distributed_search_engin.Base.{
  ℕ, ◌+◌, ◌*◌, Bool, true, false, Option, none, some, List, [], ◌∷◌, ◌==◌, ◌++◌, if◌then◌else◌,
  length, take,
}
use distributed_search_engin.Double.{Double}
use distributed_search_engin.Types.{WorkerStatus}
use distributed_search_engin.Actor.{MetricKey, ProfileKv}
use distributed_search_engin.Agent.{ProfileEntry}

-- `struct Profiler`, but for its actor and its file; `history` has the entries below `history_count`
pub record Profiler (F G : Type 0) : Type 0 where
  pub history : List (ProfileEntry F)
  pub history_capacity : ℕ
  pub agents : List G
  pub period : F
  pub active : Bool

-- What a profile reads of a collection: its text, its configuration, the workers that are registered
-- and the actors by type. An actor is of an abstract type.
pub record View (A : Type 0) : Type 0 where
  pub coll_repr : List ℕ
  pub num_workers : ℕ
  pub half_ocus_per_worker : ℕ
  pub steady : Bool
  pub statuses : List WorkerStatus
  pub actors_by_type : List (List A)

-- The keys of the metrics of the collection, and those of an actor.
pub data Key : Type 0 where
  num_workers blue_workers green_workers ocus_per_worker steady : Key
  metric : MetricKey → Key

-- A tick is scheduled after a delay.
pub data Effect (F : Type 0) : Type 0 where
  tick_after : F → Effect F

-- the counts of the loop over the workers
abbrev pub blue : List WorkerStatus → ℕ
blue [] = 0
blue (WorkerStatus.blue ∷ ws) = blue ws + 1
blue (WorkerStatus.green ∷ ws) = blue ws
blue (WorkerStatus.obsolete ∷ ws) = blue ws

abbrev pub green : List WorkerStatus → ℕ
green [] = 0
green (WorkerStatus.blue ∷ ws) = green ws
green (WorkerStatus.green ∷ ws) = green ws + 1
green (WorkerStatus.obsolete ∷ ws) = green ws

module _ {F G : Type 0} ⦃d : Double F⦄ where
  -- `profiler_init`
  unfoldable pub init : List G → Profiler F G
  init agents = record {
    history = [];
    history_capacity = 4096;
    agents = agents;
    period = d.of_ℕ 300;
    active = true;
  }

  -- `profiler_print`: the entry that it keeps; the line that it writes is output
  unfoldable pub print : Profiler F G → F → List ℕ → List ℕ → F → Profiler F G
  print p time actor key value =
      let full = length p.history == p.history_capacity in
      record p {
        history =
            p.history
            ++ (record { time = time; actor = take 63 actor; key = take 95 key; value = value }
                ∷ []);
        history_capacity = if full then p.history_capacity * 2 else p.history_capacity;
      }

  -- `profiler_run_periodically`
  unfoldable pub run_periodically : F → F → Profiler F G → Profiler F G × List (Effect F)
  run_periodically period first_delay p =
      let delay = if d.lt (d.of_ℕ 0) first_delay then first_delay else period in
      (record p { period = period }, Effect.tick_after delay ∷ [])

module _ {F G : Type 0} ⦃d : Double F⦄ (text : Key → List ℕ) where
  -- the metrics of an actor
  unfoldable pub print_all : F → List ℕ → List (ProfileKv F) → Profiler F G → Profiler F G
  unfolding print
  print_all time actor [] p = p
  print_all time actor (kv ∷ kvs) p =
      print_all time actor kvs (print p time actor (text (Key.metric kv.key)) kv.value)

  -- the metrics of the collection
  unfoldable pub profile_collection : {A : Type 0} → F → View A → Profiler F G → Profiler F G
  unfolding print
  profile_collection time c p =
      let row : Key → F → Profiler F G → Profiler F G =
        λ key value q. print q time c.coll_repr (text key) value in
      let workers = row Key.num_workers (d.of_ℕ c.num_workers) p in
      let blues = row Key.blue_workers (d.of_ℕ (blue c.statuses)) workers in
      let greens = row Key.green_workers (d.of_ℕ (green c.statuses)) blues in
      let half = d.div (d.of_ℕ c.half_ocus_per_worker) (d.of_ℕ 2) in
      let ocus = row Key.ocus_per_worker half greens in
      row Key.steady (if c.steady then d.of_ℕ 1 else d.of_ℕ 0) ocus

module _ {F G A W : Type 0} ⦃d : Double F⦄ (text : Key → List ℕ) (repr : A → List ℕ)
    (view : W → View A) (run_profiler : A → W → Option (List (ProfileKv F) × W))
    (profiled_at : A → F → W → W) (act : G → List (ProfileEntry F) → W → W) where
  -- the entries of an actor, from what its `run_profiler` gives: none without that function. The
  -- function `profiled_at` sets its field `last_profiled`.
  unfoldable pub printed :
      F → A → Profiler F G × W → Option (List (ProfileKv F) × W) → Profiler F G × W
  unfolding print_all
  printed time a (p, w) none = (p, w)
  printed time a (p, w) (some (kvs, w')) =
      (print_all text time (repr a) kvs p, profiled_at a time w')

  -- an actor of the loop
  unfoldable pub profile_actor : F → A → Profiler F G × W → Profiler F G × W
  unfolding printed
  profile_actor time a s = printed time a s (run_profiler a s.1)

  unfoldable pub profile_actors : F → List A → Profiler F G × W → Profiler F G × W
  unfolding profile_actor
  profile_actors time [] s = s
  profile_actors time (a ∷ actors) s = profile_actors time actors (profile_actor time a s)

  unfoldable pub profile_types : F → List (List A) → Profiler F G × W → Profiler F G × W
  unfolding profile_actors
  profile_types time [] s = s
  profile_types time (actors ∷ types) s = profile_types time types (profile_actors time actors s)

  -- the agents, one after the other, with the history of this profile
  unfoldable pub act_all : List G → List (ProfileEntry F) → W → W
  act_all [] history w = w
  act_all (g ∷ gs) history w = act_all gs history (act g history w)

  -- `profiler_profile`, at the time of the clock
  unfoldable pub profile : F → Profiler F G × W → Profiler F G × W
  unfolding profile_collection profile_types act_all
  profile time (p, w) =
      let c = view w in
      let (q, w') = profile_types time c.actors_by_type (profile_collection text time c p, w) in
      (q, act_all q.agents q.history w')

  -- `profiler_tick`
  unfoldable pub tick : F → Profiler F G × W → (Profiler F G × W) × List (Effect F)
  unfolding profile
  tick time (p, w) =
      let s = profile time (p, w) in
      if p.active then (s, Effect.tick_after s.0.period ∷ []) else ((p, w), [])
