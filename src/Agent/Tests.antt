-- ===== src/Agent/Tests.antt =====
-- An oblivious agent with three actions, of which two are due.
use distributed_search_engin.Base.{
  ℕ, ◌≡◌, List, [], ◌∷◌, ◌++◌, some, All, Perm, pos, replicate, true,
}
use distributed_search_engin.Double.Sample.{Sample, num, sample}
use distributed_search_engin.Types.{ActorType, ActionType}
use distributed_search_engin.Agent.{ObliviousAction, ObliviousAgent, oblivious_act}
use distributed_search_engin.Agent.Oblivious.{IsDue, Waits, oblivious_act-IsDue}

abbrev action : ℕ → ActionType → ObliviousAction Sample
action time type = record {
  trigger_time = num time;
  action = type;
  count = pos 1;
  num_workers = pos 0;
  half_ocus = pos 0;
}

abbrev agent : ObliviousAgent Sample
agent = record {
  base_agent = record {
    base = record {
      id = 1;
      type = ActorType.agent;
      profiled = true;
      last_profiled = num 0;
      generation = 0;
    };
    request_counts = replicate 6 0;
  };
  actions =
      action 300 ActionType.scale_out
      ∷ action 900 ActionType.scale_in
      ∷ action 600 ActionType.shut_down
      ∷ [];
  actions_capacity = 32;
}

oblivious_act-IsDue_example :
    (a' : ObliviousAgent Sample) × (fired : List (ObliviousAction Sample)) × (oblivious_act
        (num 600)
        agent
      ≡ some (a', fired))
    × Perm (fired ++ a'.actions) agent.actions
    × All (IsDue (num 600)) fired
    × All (Waits (num 600)) a'.actions
oblivious_act-IsDue_example = oblivious_act-IsDue (num 600) agent
