-- ===== src/Agent.antt =====
-- include/agent/agent.h, src/agent/agent.c: the agents that scale a collection. What an agent asks of
-- the collection is a list of actions, in order, which `perform` carries out; nobody waits for their
-- results. strstr is a parameter.
pub mod Oblivious
mod Tests
use distributed_search_engin.Base.{
  ℕ, zero, suc, ◌+◌, ◌-◌, ◌*◌, ◌%◌, Bool, true, false, not, ◌&&◌, Option, none, some, ◌>>=◌, List,
  [], ◌∷◌, ◌++◌, ◌==◌, ltb, if◌then◌else◌, get_elem?, get_or, set, take, length, replicate, ℤ, pos,
}
use distributed_search_engin.Double.{Double}
use distributed_search_engin.Types.{ActionType}
use distributed_search_engin.Actor.{Actor}
use distributed_search_engin.Collection.Scaling.{
  Collection, Effect, Ran, scale_to, scale_up, scale_down, scale_out, scale_in,
}

-- the number of an enumerator, by which the code indexes `request_counts`, and ACTION_TYPE_COUNT
abbrev pub action_index : ActionType → ℕ
action_index ActionType.scale_up = 0
action_index ActionType.scale_down = 1
action_index ActionType.scale_out = 2
action_index ActionType.scale_in = 3
action_index ActionType.scale_to = 4
action_index ActionType.shut_down = 5

abbrev pub action_type_count : ℕ
action_type_count = 6

-- `struct Agent`, but for the pointer to its function
pub record Agent (F : Type 0) : Type 0 where
  pub base : Actor F
  pub request_counts : List ℕ

-- `ObliviousAction`; what an action does not use is 0
pub record ObliviousAction (F : Type 0) : Type 0 where
  pub trigger_time : F
  pub action : ActionType
  pub count : ℤ
  pub num_workers : ℤ
  pub half_ocus : ℤ

-- `ObliviousAgent`: `actions` has the entries below `num_actions`
pub record ObliviousAgent (F : Type 0) : Type 0 where
  pub base_agent : Agent F
  pub actions : List (ObliviousAction F)
  pub actions_capacity : ℕ

-- `ProfileEntry` of include/profiler/profiler.h, with texts as lists of characters
pub record ProfileEntry (F : Type 0) : Type 0 where
  pub time : F
  pub actor : List ℕ
  pub key : List ℕ
  pub value : F

-- What `perform` leaves: the collection and its effects, or the clock stopped.
pub data Performed (F K C : Type 0) : Type 0 where
  scaled : Ran F K C → Performed F K C
  stop_clock : Performed F K C

-- one more action of a type
unfoldable pub counted : {F : Type 0} → ActionType → Agent F → Agent F
counted t a = record a {
  request_counts =
      set a.request_counts (action_index t) (get_or a.request_counts (action_index t) 0 + 1);
}

-- the loop of `agent_run_profiler`, over the counts from the number `i` on
unfoldable pub profile_counts : {F : Type 0} ⦃d : Double F⦄ → ℕ → List ℕ → List (ℕ × F)
profile_counts i [] = []
profile_counts ⦃d⦄ i (n ∷ counts) =
    let rest = profile_counts (i + 1) counts in if ltb 0 n then (i, d.of_ℕ n) ∷ rest else rest

module _ {F : Type 0} ⦃d : Double F⦄ where
  -- `agent_run_profiler`: the numbers of the actions that were asked for, and how often
  unfoldable pub run_profiler : Agent F → List (ℕ × F) × Agent F
  unfolding profile_counts
  run_profiler a = (
    profile_counts 0 a.request_counts,
    record a { request_counts = replicate (length a.request_counts) 0 },
  )

  -- `agent_init`, on an actor that `actor_init` has made
  unfoldable pub init : Actor F → Agent F
  init base = record { base = base; request_counts = replicate action_type_count 0 }

  -- `oblivious_agent_init`
  unfoldable pub oblivious_init : Actor F → ObliviousAgent F
  unfolding init
  oblivious_init base = record { base_agent = init base; actions = []; actions_capacity = 32 }

  -- the growth of the array before an action is added, and the action
  unfoldable pub added : ObliviousAction F → ObliviousAgent F → ObliviousAgent F
  added action a = record a {
    actions = a.actions ++ (action ∷ []);
    actions_capacity =
        if length a.actions == a.actions_capacity
        then a.actions_capacity * 2
        else a.actions_capacity;
  }

  -- `oblivious_agent_add`
  unfoldable pub add : F → ActionType → ℤ → ObliviousAgent F → ObliviousAgent F
  unfolding added
  add time action count a =
      added
        (record {
          trigger_time = time;
          action = action;
          count = count;
          num_workers = pos 0;
          half_ocus = pos 0;
        })
        a

  -- `oblivious_agent_add_scale_to`
  unfoldable pub add_scale_to : F → ℤ → ℤ → ObliviousAgent F → ObliviousAgent F
  unfolding added
  add_scale_to time num_workers half_ocus a =
      added
        (record {
          trigger_time = time;
          action = ActionType.scale_to;
          count = pos 0;
          num_workers = num_workers;
          half_ocus = half_ocus;
        })
        a

  -- the entry at `i` replaced by the last one, which goes
  unfoldable pub swap_out :
      List (ObliviousAction F) → ℕ → ObliviousAction F → List (ObliviousAction F)
  swap_out actions i it =
      let last = length actions - 1 in take last (set actions i (get_or actions last it))

  -- The loop of `oblivious_act`, from the entry `i` on, with a bound on its rounds: the agent, and the
  -- actions that are carried out.
  unfoldable pub act_from :
      F → ℕ → ℕ → ObliviousAgent F → Option (ObliviousAgent F × List (ObliviousAction F))
  unfolding swap_out counted
  act_from now zero i a = none
  act_from now (suc n) i a =
      let round = do
        it ← get_elem? a.actions i
        let fired = record a {
          base_agent = counted it.action a.base_agent;
          actions = swap_out a.actions i it;
        }
        let done = act_from now n i fired >>= λ r. some (r.0, it ∷ r.1)
        if d.le it.trigger_time now then done else act_from now n (i + 1) a
      in if ltb i (length a.actions) then round else some (a, [])

  -- `oblivious_act` at the time `now`
  unfoldable pub oblivious_act :
      F → ObliviousAgent F → Option (ObliviousAgent F × List (ObliviousAction F))
  unfolding act_from
  oblivious_act now a = act_from now (length a.actions + 1) 0 a

-- what `oblivious_act` asks of the collection for an action, with the context of a scaling at `p`
unfoldable pub perform :
    {F K C : Type 0} ⦃d : Double F⦄ → ℕ → ObliviousAction F → Collection F K C → Performed F K C
perform p it c = elim it.action [
  | ActionType.scale_up ↦ scaled (scale_up p it.count none c)
  | ActionType.scale_down ↦ scaled (scale_down p it.count none c)
  | ActionType.scale_out ↦ scaled (scale_out p it.count none c)
  | ActionType.scale_in ↦ scaled (scale_in p it.count none c)
  | ActionType.scale_to ↦ scaled (scale_to p it.num_workers it.half_ocus none c)
  | ActionType.shut_down ↦ stop_clock
]

module _ {F : Type 0} ⦃d : Double F⦄ (strstr : List ℕ → List ℕ → Bool) where
  -- The loop of `spendy_act`, over the history from its end, with the texts CPU and utilization_frac:
  -- the sum and the number of the values at the latest time.
  unfoldable pub utilization : List ℕ → List ℕ → F → List (ProfileEntry F) → F → ℕ → F × ℕ
  utilization cpu frac last_time [] sum n = (sum, n)
  utilization cpu frac last_time (e ∷ es) sum n =
      let counts = strstr e.actor cpu && strstr e.key frac in
      let rest =
        utilization cpu frac last_time es (if counts then d.add sum e.value else sum)
          (if counts then n + 1 else n) in
      if d.eq e.time last_time then rest else (sum, n)

  -- `spendy_act`, on the history from its end: the agent, and whether it asks to scale up by one
  unfoldable pub spendy_act : List ℕ → List ℕ → List (ProfileEntry F) → Agent F → Agent F × Bool
  unfolding utilization counted
  spendy_act cpu frac [] a = (a, false)
  spendy_act cpu frac (e ∷ es) a =
      let time_min = d.to_ℕ (d.div e.time (d.of_ℕ 60)) in
      let found = utilization cpu frac e.time (e ∷ es) (d.of_ℕ 0) 0 in
      let busy = d.le (d.decimal 5 1) (d.div found.0 (d.of_ℕ found.1)) in
      if not (time_min % 5 == 0)
      then (a, false)
      else if ltb 0 found.1 && busy
      then (counted ActionType.scale_up a, true)
      else (a, false)
