-- ===== src/Requests/Search.antt =====
-- include/requests/request.h, src/requests/http/search.c: a SEARCH request, which queries shards on one
-- worker each and then collates the answers on one of these workers. As with a PUT request, the
-- context is shared and known by its pointer, and an entry `none` of `requests` is freed memory.
pub mod Select
pub mod Shards
pub mod Best
pub mod Answers
use distributed_search_engin.Base.{
  ℕ, zero, suc, ◌+◌, Bool, true, false, ◌&&◌, ◌||◌, Option, none, some, ◌>>=◌, List, [], ◌∷◌, ◌++◌,
  ◌==◌, ltb, if◌then◌else◌, get_elem?, length, ℤ, put_at, free_at,
}
use distributed_search_engin.Double.{Double}
use distributed_search_engin.Types.{DseResult, DiskOp, is_error, code}
use distributed_search_engin.Util.Rng.{Rng, double}
use distributed_search_engin.Logical.Shard
use distributed_search_engin.Logical.Shard.{Shard}
use distributed_search_engin.Logical.Worker
use distributed_search_engin.Logical.Worker.{TaskEffect}
use distributed_search_engin.Index
use distributed_search_engin.Index.{Index}
use distributed_search_engin.Requests.Search.Select.{relevant, cover, pick}
use distributed_search_engin.Requests.World.{World, Ran, before, exec}

-- `SearchRequestCtx`, of one index; the hashes, shards and workers are lists
pub record SearchRequestCtx (F : Type 0) : Type 0 where
  pub time : F
  pub cpu_size_query : F
  pub mem_size_query : F
  pub cpu_size_response : F
  pub mem_size_response : F
  pub cpu_size_collate : F
  pub given_hashes : List ℤ
  pub phase : ℕ
  pub start_time : F
  pub completion_time : F
  pub shards : List ℕ
  pub workers : List ℕ
  pub num_shards : ℕ
  pub shards_done : ℕ
  pub worst_response : DseResult

-- `SearchShardCtx`
pub record SearchShardCtx : Type 0 where
  pub parent : ℕ
  pub shard : ℕ
  pub worker : ℕ
  pub phase : ℕ
  pub response : DseResult

-- a `SearchShardCtx` as the code makes it
abbrev pub new_query : ℕ → ℕ → ℕ → SearchShardCtx
new_query parent shard worker = record {
  parent = parent;
  shard = shard;
  worker = worker;
  phase = 0;
  response = DseResult.res_4xx;
}

-- the continuations CONT(search_shard_compute_done, sc) and so on; the last is on the request
pub data Step : Type 0 where
  shard_compute_done shard_disk_done shard_response_done : SearchShardCtx → Step
  collate_done : ℕ → Step

-- the collection, and the requests by their pointers
pub record State (F : Type 0) : Type 0 where
  pub world : World F Step
  pub requests : ℕ → Option (SearchRequestCtx F)

abbrev pub Handle : Type 0 → Type 0
Handle F = Step → DseResult → State F → Ran F Step (State F)

-- the response of a shard after one more result
abbrev pub noted : DseResult → SearchShardCtx → SearchShardCtx
noted result sc = record sc {
  response = if is_error result then DseResult.res_5xx else sc.response;
}

module _ {F : Type 0} ⦃d : Double F⦄ where
  -- `search_request_start`
  unfoldable pub start : SearchRequestCtx F → F × SearchRequestCtx F
  start ctx = (ctx.time, record ctx { phase = 0 })

  -- the end of a request: the result is logged with the index, and the context freed
  unfoldable pub finish : ℕ → SearchRequestCtx F → DseResult → State F → State F
  finish p ctx result s = record {
    world = record s.world {
      index = Index.log_result s.world.index result (d.sub s.world.now ctx.start_time);
    };
    requests = free_at s.requests p;
  }

  -- the start of the query on one shard, in the loop of `search_phase_arrived`
  unfoldable pub start_shard : SearchShardCtx → State F → Ran F Step (State F)
  start_shard sc s = do
    ctx ← s.requests sc.parent
    worker ← s.world.workers sc.worker
    shard ← s.world.shards sc.shard
    let cycles = d.add ctx.cpu_size_query ctx.cpu_size_response
    let logged = Shard.log_compute (Shard.log_request shard sc.worker) sc.worker cycles
    r ←
        Worker.reserve_compute s.world.now s.world.limit (Worker.log_request worker)
          ctx.cpu_size_query ctx.mem_size_query (some (Step.shard_compute_done sc))
    some (
      record s {
        world = record s.world {
          shards = put_at s.world.shards sc.shard logged;
          workers = put_at s.world.workers sc.worker r.0;
        };
      },
      r.1,
    )

  -- the start of a query, with what it invokes before it returns
  abbrev pub launch : Handle F → SearchShardCtx → State F → Ran F Step (State F)
  launch handle sc s = start_shard sc s >>= λ r. exec handle r.1 r.0

  -- `search_shard_compute_done`
  unfoldable pub compute_done : SearchShardCtx → DseResult → State F → Ran F Step (State F)
  compute_done sc result s = do
    ctx ← s.requests sc.parent
    worker ← s.world.workers sc.worker
    let sc' = record (noted result sc) { phase = 1 }
    r ←
        Worker.reserve_disk s.world.now worker DiskOp.read ctx.mem_size_response
          (some (Step.shard_disk_done sc'))
    some (
      record s { world = record s.world { workers = put_at s.world.workers sc.worker r.0 } },
      r.1,
    )

  -- `search_shard_disk_done`
  unfoldable pub disk_done : SearchShardCtx → DseResult → State F → Ran F Step (State F)
  disk_done sc result s = do
    ctx ← s.requests sc.parent
    worker ← s.world.workers sc.worker
    let sc' = record (noted result sc) { phase = 2 }
    r ←
        Worker.reserve_compute s.world.now s.world.limit worker ctx.cpu_size_response
          ctx.mem_size_response (some (Step.shard_response_done sc'))
    some (
      record s { world = record s.world { workers = put_at s.world.workers sc.worker r.0 } },
      r.1,
    )

  -- the last part of `search_shard_finished`: the collation starts
  unfoldable pub collate : Handle F → ℕ → SearchRequestCtx F → State F → Ran F Step (State F)
  collate handle p ctx s = do
    let choice = pick ctx.workers ctx.workers 0 0 0 s.world.rng
    w ← get_elem? ctx.workers choice.0
    worker ← s.world.workers w
    let mem = d.mul (d.of_ℕ ctx.num_shards) ctx.mem_size_response
    r ←
        Worker.reserve_compute s.world.now s.world.limit worker ctx.cpu_size_collate mem
          (some (Step.collate_done p))
    exec handle r.1 (record s {
      world = record s.world { rng = choice.1; workers = put_at s.world.workers w r.0 };
    })

  -- `search_shard_finished`
  unfoldable pub finished : Handle F → ℕ → DseResult → State F → Ran F Step (State F)
  unfolding finish
  finished handle p shard_response s = do
    ctx ← s.requests p
    let worst =
        if ltb (code ctx.worst_response) (code shard_response)
        then shard_response
        else ctx.worst_response
    let ctx' = record ctx { worst_response = worst; shards_done = ctx.shards_done + 1 }
    let s' = record s { requests = put_at s.requests p ctx' }
    if ltb (ctx.shards_done + 1) ctx.num_shards
        then some (s', [])
        else if is_error worst
        then some (finish p ctx' worst s', [])
        else collate handle p ctx' s'

  -- `search_shard_response_done`
  unfoldable pub response_done :
      Handle F → SearchShardCtx → DseResult → State F → Ran F Step (State F)
  unfolding finished
  response_done handle sc result s = do
    worker ← s.world.workers sc.worker
    let response = (noted result sc).response
    finished handle sc.parent response (record s {
      world = record s.world {
        workers = put_at s.world.workers sc.worker (Worker.log_result worker response);
      };
    })

  -- `search_collate_done`
  unfoldable pub collation_done : ℕ → DseResult → State F → Option (State F)
  unfolding finish
  collation_done p result s = do
    ctx ← s.requests p
    some (finish p ctx (if is_error result then DseResult.res_5xx else DseResult.res_4xx) s)

  -- A continuation of a request, and all that it invokes before it returns. The depth of the
  -- invocations is bounded by the first argument.
  unfoldable pub handle : ℕ → Handle F
  unfolding compute_done disk_done response_done collation_done
  handle zero step result s = none
  handle (suc n) (Step.shard_compute_done sc) result s =
      compute_done sc result s >>= λ r. exec (handle n) r.1 r.0
  handle (suc n) (Step.shard_disk_done sc) result s =
      disk_done sc result s >>= λ r. exec (handle n) r.1 r.0
  handle (suc n) (Step.shard_response_done sc) result s = response_done (handle n) sc result s
  handle (suc n) (Step.collate_done p) result s = collation_done p result s >>= λ s'. some (s', [])

  -- The loop of `search_phase_arrived` that starts the queries, from the entry `i` on, with a bound on
  -- its rounds. The test reads the context of the request, and what a query invokes at once runs
  -- before the next round.
  unfoldable pub start_shards : Handle F → ℕ → ℕ → ℕ → State F → Ran F Step (State F)
  start_shards step p zero i s = none
  start_shards step p (suc n) i s = do
    ctx ← s.requests p
    let query = do
      shard ← get_elem? ctx.shards i
      worker ← get_elem? ctx.workers i
      ran ← launch step (new_query p shard worker) s
      before ran.1 (start_shards step p n (i + 1) ran.0)
    if ltb i ctx.num_shards then query else some (s, [])

  -- `search_phase_arrived` on the context at `p`
  unfoldable pub arrived : ℕ → ℕ → State F → Ran F Step (State F)
  unfolding relevant cover finish start_shards handle
  arrived n p s = do
    ctx ← s.requests p
    shards ← relevant s.world.index ctx.given_hashes
    chosen ← cover s.world.shards shards s.world.rng
    let ctx' = record ctx {
      start_time = s.world.now;
      shards = shards;
      workers = chosen.0;
      num_shards = length shards;
      shards_done = 0;
      worst_response = DseResult.res_4xx;
    }
    let s' : State F = record {
      world = record s.world { rng = chosen.1 };
      requests = put_at s.requests p ctx';
    }
    if length shards == 0
        then some (finish p ctx' DseResult.res_4xx s', [])
        else start_shards (handle n) p (length shards + 1) 0 s'
