-- ===== src/Workload/Tests.antt =====
-- Loaded requests that are dispatched, and a line that is loaded.
use distributed_search_engin.Base.{◌≡◌, List, [], ◌∷◌, false, true, replicate}
use distributed_search_engin.Double.Sample.{Sample, num, sample}
use distributed_search_engin.Types.{RequestType}
use distributed_search_engin.Collection.{Registry, no_array}
use distributed_search_engin.Workload.{
  RequestDescriptor, LoadedWorkloadGenerator, blank, dispatch_next,
}
use distributed_search_engin.Workload.Dispatch.{rounds, schedule, rounds_dispatch}

-- an index of the name "a"
abbrev registry : Registry
registry = record {
  counters = replicate 9 0;
  actors = no_array;
  actors_by_type = replicate 9 no_array;
  index_entries = record { name = 97 ∷ []; index = 40 } ∷ [];
}

abbrev get_request : RequestDescriptor Sample
get_request = record blank { index_name = 97 ∷ []; time = num 3 }

abbrev put_request : RequestDescriptor Sample
put_request = record blank { type = RequestType.put; index_name = 97 ∷ []; time = num 5 }

abbrev requests : List (RequestDescriptor Sample)
requests = get_request ∷ put_request ∷ []

abbrev generator : LoadedWorkloadGenerator Sample
generator = record { requests = requests; current = 0; active = true }

rounds_dispatch_example :
    let done = rounds 2 registry generator in
    (done.1 ≡ schedule registry requests)
    × (done.0.active ≡ false)
    × (dispatch_next registry done.0 ≡ (done.0, []))
rounds_dispatch_example = rounds_dispatch registry get_request (put_request ∷ [])
