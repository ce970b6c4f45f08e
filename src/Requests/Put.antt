-- ===== src/Requests/Put.antt =====
-- include/requests/request.h, src/requests/http/put.c: a PUT request, which is written on the primary
-- worker of a shard and then on its replicas. The context of a request is shared by its writes and is
-- known by its pointer; that of a write belongs to its one continuation. An entry of `requests` that
-- is `none` is freed memory, and a read of it is undefined.
pub mod Replies
pub mod Fanout
pub mod Overrun
use distributed_search_engin.Base.{
  ℕ, zero, suc, ◌+◌, Bool, ◌||◌, Option, none, some, ◌>>=◌, List, [], ◌∷◌, ◌==◌, ltb, if◌then◌else◌,
  get_elem?, length, ℤ, put_at, free_at,
}
use distributed_search_engin.Double.{Double}
use distributed_search_engin.Types.{DseResult, DiskOp, is_error, code}
use distributed_search_engin.Logical.Shard
use distributed_search_engin.Logical.Shard.{
  Shard, primary_worker, num_replicas, num_workers, workers,
}
use distributed_search_engin.Logical.Worker
use distributed_search_engin.Logical.Worker.{TaskEffect}
use distributed_search_engin.Index
use distributed_search_engin.Requests.World.{World, Ran, before, exec}

-- `PutRequestCtx`, of one index; what follows the hash is set while the request is played
pub record PutRequestCtx (F : Type 0) : Type 0 where
  pub time : F
  pub document_id : ℤ
  pub cpu_size : F
  pub mem_size : F
  pub given_hash : Option ℤ
  pub phase : ℕ
  pub shard : ℕ
  pub start_time : F
  pub completion_time : F
  pub primary_response : DseResult
  pub replica_count : ℕ
  pub replicas_done : ℕ
  pub worst_response : DseResult

-- `PutWriteCtx`
pub record PutWriteCtx : Type 0 where
  pub parent : ℕ
  pub shard : ℕ
  pub worker : ℕ
  pub phase : ℕ
  pub response : DseResult

-- a `PutWriteCtx` as the code makes it for a worker, with what put_start_write sets
abbrev pub new_write : ℕ → ℕ → ℕ → PutWriteCtx
new_write parent shard worker = record {
  parent = parent;
  shard = shard;
  worker = worker;
  phase = 0;
  response = DseResult.res_4xx;
}

-- the continuations CONT(put_write_compute_done, wctx) and CONT(put_write_disk_done, wctx)
pub data Step : Type 0 where
  write_compute_done write_disk_done : PutWriteCtx → Step

-- the collection, and the requests by their pointers
pub record State (F : Type 0) : Type 0 where
  pub world : World F Step
  pub requests : ℕ → Option (PutRequestCtx F)

abbrev pub Handle : Type 0 → Type 0
Handle F = Step → DseResult → State F → Ran F Step (State F)

-- the response of a write after one more result
abbrev pub noted : DseResult → PutWriteCtx → PutWriteCtx
noted result wctx = record wctx {
  response = if is_error result then DseResult.res_5xx else wctx.response;
}

module _ {F : Type 0} ⦃d : Double F⦄ where
  -- `put_request_start`: the time at which `put_phase_arrived` is scheduled on the context
  unfoldable pub start : PutRequestCtx F → F × PutRequestCtx F
  start ctx = (ctx.time, record ctx { phase = 0 })

  -- `put_start_write`, with `on_done` the step put_write_compute_done on `wctx`
  unfoldable pub start_write : PutWriteCtx → State F → Ran F Step (State F)
  start_write wctx s = do
    ctx ← s.requests wctx.parent
    worker ← s.world.workers wctx.worker
    shard ← s.world.shards wctx.shard
    let w = wctx.worker
    let logged = Shard.log_compute (Shard.log_request shard w) w ctx.cpu_size
    let wctx' = record wctx { phase = 0; response = DseResult.res_4xx }
    r ←
        Worker.reserve_compute s.world.now s.world.limit (Worker.log_request worker) ctx.cpu_size
          ctx.mem_size (some (Step.write_compute_done wctx'))
    some (
      record s {
        world = record s.world {
          shards = put_at s.world.shards wctx.shard (Shard.log_size logged w ctx.mem_size);
          workers = put_at s.world.workers w r.0;
        };
      },
      r.1,
    )

  -- the start of a write, with what it invokes before it returns
  abbrev pub launch : Handle F → PutWriteCtx → State F → Ran F Step (State F)
  launch handle wctx s = start_write wctx s >>= λ r. exec handle r.1 r.0

  -- `put_write_compute_done`
  unfoldable pub compute_done : PutWriteCtx → DseResult → State F → Ran F Step (State F)
  compute_done wctx result s = do
    ctx ← s.requests wctx.parent
    worker ← s.world.workers wctx.worker
    let wctx' = record (noted result wctx) { phase = 1 }
    r ←
        Worker.reserve_disk s.world.now worker DiskOp.write ctx.mem_size
          (some (Step.write_disk_done wctx'))
    some (
      record s { world = record s.world { workers = put_at s.world.workers wctx.worker r.0 } },
      r.1,
    )

  -- the end of a request: its result is logged with the index, and the context freed
  unfoldable pub finish : ℕ → PutRequestCtx F → DseResult → State F → State F
  finish p ctx result s = record {
    world = record s.world {
      index = Index.log_result s.world.index result (d.sub ctx.completion_time ctx.start_time);
    };
    requests = free_at s.requests p;
  }

  -- `put_replica_done`
  unfoldable pub replica_done : ℕ → DseResult → State F → Option (State F)
  unfolding finish
  replica_done p result s = do
    ctx ← s.requests p
    let worst = if ltb (code ctx.worst_response) (code result) then result else ctx.worst_response
    let ctx' = record ctx { worst_response = worst; replicas_done = ctx.replicas_done + 1 }
    some (
        if ctx.replicas_done + 1 == ctx.replica_count
        then finish p ctx' worst s
        else record s { requests = put_at s.requests p ctx' })

  -- The loop of `put_primary_done`, from the row `i` on, with a bound on its rounds. The test reads the
  -- context of the request, and what a write invokes at once runs before the next round.
  unfoldable pub start_replicas : Handle F → ℕ → ℕ → ℕ → State F → Ran F Step (State F)
  start_replicas handle p zero i s = none
  start_replicas handle p (suc n) i s = do
    ctx ← s.requests p
    shard ← s.world.shards ctx.shard
    let write = do
      w ← get_elem? (workers shard) i
      ran ← launch handle (new_write p ctx.shard w) s
      before ran.1 (start_replicas handle p n (i + 1) ran.0)
    if ltb i (num_workers shard) then write else some (s, [])

  -- `put_primary_done`
  unfoldable pub primary_done : Handle F → ℕ → DseResult → State F → Ran F Step (State F)
  unfolding finish start_replicas
  primary_done handle p result s = do
    ctx ← s.requests p
    shard ← s.world.shards ctx.shard
    let ctx' = record ctx { primary_response = result; completion_time = s.world.now }
    let gather = record ctx' {
      replica_count = num_replicas shard;
      replicas_done = 0;
      worst_response = DseResult.res_4xx;
    }
    let gathering = record s { requests = put_at s.requests p gather }
    if is_error result || num_replicas shard == 0
        then some (finish p ctx' result s, [])
        else start_replicas handle p (length (workers shard)) 1 gathering

  -- `put_write_disk_done`
  unfoldable pub disk_done : Handle F → PutWriteCtx → DseResult → State F → Ran F Step (State F)
  unfolding replica_done primary_done
  disk_done handle wctx result s = do
    worker ← s.world.workers wctx.worker
    let response = (noted result wctx).response
    let s' = record s {
      world = record s.world {
        workers = put_at s.world.workers wctx.worker (Worker.log_result worker response);
      };
    }
    ctx ← s'.requests wctx.parent
    shard ← s'.world.shards ctx.shard
    primary ← primary_worker shard
    if wctx.worker == primary
        then primary_done handle wctx.parent response s'
        else (replica_done wctx.parent response s' >>= λ s''. some (s'', []))

  -- A continuation of a write, and all that it invokes before it returns. The depth of the invocations
  -- is bounded by the first argument.
  unfoldable pub handle : ℕ → Handle F
  unfolding compute_done disk_done
  handle zero step result s = none
  handle (suc n) (Step.write_compute_done wctx) result s =
      compute_done wctx result s >>= λ r. exec (handle n) r.1 r.0
  handle (suc n) (Step.write_disk_done wctx) result s = disk_done (handle n) wctx result s

  -- `put_phase_arrived` on the context at `p`
  unfoldable pub arrived : ℕ → ℕ → State F → Ran F Step (State F)
  unfolding start_write handle
  arrived n p s = do
    ctx ← s.requests p
    shard ← Index.compute_shard s.world.index ctx.document_id ctx.given_hash
    target ← s.world.shards shard
    primary ← primary_worker target
    let ctx' = record ctx { start_time = s.world.now; shard = shard }
    launch (handle n) (new_write p shard primary) (record s { requests = put_at s.requests p ctx' })
