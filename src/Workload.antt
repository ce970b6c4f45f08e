-- ===== src/Workload.antt =====
-- include/generator/workload.h, src/generator/workload.c: the requests that are loaded from lines of
-- JSON, and their dispatch. The lines are what fgets gives, without the NUL; strtod, strtol and the
-- conversion of a double to an int are parameters.
pub mod Dispatch
pub mod Load
pub mod Poisson
mod Tests
use distributed_search_engin.Base.{
  ℕ, ◌+◌, Bool, true, false, ◌&&◌, ◌||◌, Option, none, some, ◌>>=◌, List, [], ◌∷◌, ◌++◌, ◌==◌, ltb,
  if◌then◌else◌, get_elem?, length, ℤ, pos,
}
use distributed_search_engin.Double.{Double}
use distributed_search_engin.Types.{DseResult, RequestType}
use distributed_search_engin.Util.JsonScan.{
  quote, scan_object, parse_string, parse_int_array, is_empty_array,
}
use distributed_search_engin.Collection.{Registry, same_name, get_index}
use distributed_search_engin.Requests.Get
use distributed_search_engin.Requests.Get.{GetRequestCtx}
use distributed_search_engin.Requests.Put
use distributed_search_engin.Requests.Put.{PutRequestCtx}
use distributed_search_engin.Requests.Search
use distributed_search_engin.Requests.Search.{SearchRequestCtx}

-- `RequestDescriptor`; the hashes are a list
pub record RequestDescriptor (F : Type 0) : Type 0 where
  pub type : RequestType
  pub time : F
  pub index_name : List ℕ
  pub document_id : ℤ
  pub cpu_size : F
  pub mem_size : F
  pub given_hash : ℤ
  pub has_given_hash : Bool
  pub cpu_size_query : F
  pub mem_size_query : F
  pub cpu_size_response : F
  pub mem_size_response : F
  pub cpu_size_collate : F
  pub given_hashes : List ℤ

-- `LoadedWorkloadGenerator`; the list has the entries below `num_requests`
pub record LoadedWorkloadGenerator (F : Type 0) : Type 0 where
  pub requests : List (RequestDescriptor F)
  pub current : ℕ
  pub active : Bool

-- What the generator does: a request on an index is scheduled at its time, the next dispatch is
-- scheduled at a time, and the stop of the clock is scheduled after a delay.
pub data Effect (F : Type 0) : Type 0 where
  get_at : ℕ → F → GetRequestCtx F → Effect F
  put_request_at : ℕ → F → PutRequestCtx F → Effect F
  search_at : ℕ → F → SearchRequestCtx F → Effect F
  next_at stop_after : F → Effect F

module _ {F : Type 0} ⦃d : Double F⦄ where
  -- a descriptor after `memset`: the type of number 0 is REQUEST_GET
  abbrev pub blank : RequestDescriptor F
  blank = record {
    type = RequestType.get;
    time = d.of_ℕ 0;
    index_name = [];
    document_id = pos 0;
    cpu_size = d.of_ℕ 0;
    mem_size = d.of_ℕ 0;
    given_hash = pos 0;
    has_given_hash = false;
    cpu_size_query = d.of_ℕ 0;
    mem_size_query = d.of_ℕ 0;
    cpu_size_response = d.of_ℕ 0;
    mem_size_response = d.of_ℕ 0;
    cpu_size_collate = d.of_ℕ 0;
    given_hashes = [];
  }

  -- the contexts that calloc and the assignments after it make
  abbrev pub new_get : F → ℤ → F → F → Option ℤ → GetRequestCtx F
  new_get time document_id cpu_size mem_size given_hash = record {
    time = time;
    document_id = document_id;
    cpu_size = cpu_size;
    mem_size = mem_size;
    given_hash = given_hash;
    phase = 0;
    shard = 0;
    worker = 0;
    start_time = d.of_ℕ 0;
    completion_time = d.of_ℕ 0;
  }

  abbrev pub new_put : F → ℤ → F → F → Option ℤ → PutRequestCtx F
  new_put time document_id cpu_size mem_size given_hash = record {
    time = time;
    document_id = document_id;
    cpu_size = cpu_size;
    mem_size = mem_size;
    given_hash = given_hash;
    phase = 0;
    shard = 0;
    start_time = d.of_ℕ 0;
    completion_time = d.of_ℕ 0;
    primary_response = DseResult.ok;
    replica_count = 0;
    replicas_done = 0;
    worst_response = DseResult.ok;
  }

  abbrev pub new_search : F → F → F → F → F → F → List ℤ → SearchRequestCtx F
  new_search time cpu_query mem_query cpu_response mem_response cpu_collate given_hashes = record {
    time = time;
    cpu_size_query = cpu_query;
    mem_size_query = mem_query;
    cpu_size_response = cpu_response;
    mem_size_response = mem_response;
    cpu_size_collate = cpu_collate;
    given_hashes = given_hashes;
    phase = 0;
    start_time = d.of_ℕ 0;
    completion_time = d.of_ℕ 0;
    shards = [];
    workers = [];
    num_shards = 0;
    shards_done = 0;
    worst_response = DseResult.ok;
  }

  -- the calls that start a request on an index
  abbrev pub start_get : ℕ → GetRequestCtx F → Effect F
  start_get index ctx = Effect.get_at index (Get.start ctx).0 (Get.start ctx).1

  abbrev pub start_put : ℕ → PutRequestCtx F → Effect F
  start_put index ctx = Effect.put_request_at index (Put.start ctx).0 (Put.start ctx).1

  abbrev pub start_search : ℕ → SearchRequestCtx F → Effect F
  start_search index ctx = Effect.search_at index (Search.start ctx).0 (Search.start ctx).1

  -- `dispatch_request`: nothing for an index that is not known
  unfoldable pub dispatch_request : Registry → RequestDescriptor F → List (Effect F)
  unfolding get_index Get.start Put.start Search.start
  dispatch_request r rd = elim (get_index r rd.index_name) [
    | none ↦ []
    | some index ↦
        let hash = if rd.has_given_hash then some rd.given_hash else none in
        elim rd.type [
          | RequestType.get ↦
              start_get index (new_get rd.time rd.document_id rd.cpu_size rd.mem_size hash) ∷ []
          | RequestType.put ↦
              start_put index (new_put rd.time rd.document_id rd.cpu_size rd.mem_size hash) ∷ []
          | RequestType.search_request ↦
              start_search index (
                new_search rd.time rd.cpu_size_query rd.mem_size_query rd.cpu_size_response
                  rd.mem_size_response rd.cpu_size_collate rd.given_hashes)
              ∷ []
        ]
  ]

  -- `workload_dispatch_next`
  unfoldable pub dispatch_next :
      Registry → LoadedWorkloadGenerator F → LoadedWorkloadGenerator F × List (Effect F)
  dispatch_next r gen =
      let taken = record gen { current = gen.current + 1 } in
      elim (get_elem? gen.requests gen.current) [
        | none ↦ (gen, [])
        | some rd ↦
            let dispatched = dispatch_request r rd in
            if gen.active
            then elim (get_elem? gen.requests (gen.current + 1)) [
              | some next ↦ (taken, dispatched ++ (Effect.next_at next.time ∷ []))
              | none ↦ (
                record taken { active = false },
                dispatched ++ (Effect.stop_after (d.of_ℕ 1) ∷ []),
              )
            ]
            else (gen, [])
      ]

  -- `workload_start`
  unfoldable pub start : LoadedWorkloadGenerator F → List (Effect F)
  start gen = elim gen.requests [ [] ↦ [] | rd ∷ rds ↦ Effect.next_at rd.time ∷ [] ]
