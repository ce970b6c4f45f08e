-- ===== src/Requests/Put/Replies.antt =====
-- What the answers of the writes make of a PUT request.
use distributed_search_engin.Base.{
  ℕ, suc, ◌+◌, ◌≡◌, refl, ap, ◌∙◌, true, false, not, ◌&&◌, ◌||◌, Option, none, some, ◌>>=◌, List,
  [], ◌∷◌, ◌==◌, ltb, if◌then◌else◌, length, max, Bool-cases, inl, inr, arith, put_at, put_at_same,
  free_at_same,
}
use distributed_search_engin.Double.{Double}
use distributed_search_engin.Types.{DseResult, DiskOp, is_error, code}
use distributed_search_engin.Event.Gather.{max_code}
use distributed_search_engin.Logical.Shard.{Shard, primary_worker, num_replicas}
use distributed_search_engin.Logical.Worker
use distributed_search_engin.Logical.Worker.{Worker}
use distributed_search_engin.Logical.Worker.DiskTasks.{
  SameCounts, continuations, reserve_disk_total,
}
use distributed_search_engin.Index.{log_result}
use distributed_search_engin.Requests.World.{World, Ran, before}
use distributed_search_engin.Requests.Put.{
  PutRequestCtx, PutWriteCtx, Step, State, Handle, noted, finish, replica_done, primary_done,
  disk_done, compute_done,
}

-- the answer of a write: 4xx if neither the computation nor the disk failed
abbrev pub answer : (computed written : DseResult) → DseResult
answer computed written =
    if not (is_error computed) && not (is_error written)
    then DseResult.res_4xx
    else DseResult.res_5xx

answer_eq :
    (computed written : DseResult) (wctx : PutWriteCtx)
    → wctx.response ≡ DseResult.res_4xx
    → (noted written (record (noted computed wctx) { phase = 1 })).response
      ≡ answer computed written
answer_eq computed written wctx fresh = elim (Bool-cases (is_error computed)) [
  | inl a ↦ elim (Bool-cases (is_error written)) [ inl b ↦ rw (a, b) refl | inr b ↦ rw (a, b) refl ]
  | inr a ↦ elim (Bool-cases (is_error written)) [
    | inl b ↦ rw (a, b) refl
    | inr b ↦ rw (a, b) fresh
  ]
]

module _ {F : Type 0} ⦃d : Double F⦄ where
  -- the replicas answer one after the other
  abbrev pub deliver : ℕ → List DseResult → State F → Option (State F)
  deliver p [] s = some s
  deliver p (r ∷ rs) s = replica_done p r s >>= deliver p rs

  -- the request at `p` has ended with `result`: nothing but the index and the context differs
  abbrev pub Ended : ℕ → PutRequestCtx F → DseResult → State F → State F → Type 0
  Ended p ctx result s s' =
      (s'.requests p ≡ none)
      × (s'.world.index
          ≡ log_result s.world.index result (d.sub ctx.completion_time ctx.start_time))
      × (s'.world.workers ≡ s.world.workers)
      × (s'.world.shards ≡ s.world.shards)

  -- The answers of all replicas of a request end it: its index logs one result, the worst of them,
  -- with the latency until the primary was done, and the context is freed at the last answer.
  pub deliver_all :
      (rs : List DseResult) (r : DseResult) (p : ℕ) (ctx : PutRequestCtx F) (s : State F)
      → s.requests p ≡ some ctx
      → ctx.replicas_done + suc (length rs) ≡ ctx.replica_count
      → (worst : DseResult) × (s' : State F) × (deliver p (r ∷ rs) s ≡ some s')
        × Ended p ctx worst s s'
        × (code worst ≡ max_code (max (code ctx.worst_response) (code r)) rs)
  unfolding replica_done finish
  deliver_all [] r p ctx s there e =
      let worst = if ltb (code ctx.worst_response) (code r) then r else ctx.worst_response in
      let ctx' = record ctx { worst_response = worst; replicas_done = ctx.replicas_done + 1 } in
      let last : (ctx.replicas_done + 1 == ctx.replica_count) ≡ true = ground arith in
      (
        worst,
        finish p ctx' worst s,
        rw (there, last) refl,
        (free_at_same s.requests p, refl, refl, refl),
        ground arith,
      )
  deliver_all (r' ∷ rs) r p ctx s there e =
      let worst = if ltb (code ctx.worst_response) (code r) then r else ctx.worst_response in
      let ctx' = record ctx { worst_response = worst; replicas_done = ctx.replicas_done + 1 } in
      let more : (ctx.replicas_done + 1 == ctx.replica_count) ≡ false = ground arith in
      let s1 : State F = record s { requests = put_at s.requests p ctx' } in
      let (w, s', done, ended, top) =
        deliver_all rs r' p ctx' s1 (put_at_same s.requests p ctx') (omega arith) in
      let larger : code worst ≡ max (code ctx.worst_response) (code r) = ground arith in
      (w, s', rw (there, more) done, ended, top ∙ ap (λ m. max_code (max m (code r')) rs) larger)

  -- The steps that a write has left to its worker, with the result that the worker gives.
  abbrev pub resume : Handle F → DseResult → List Step → State F → Ran F Step (State F)
  resume handle written [] s = some (s, [])
  resume handle written (Step.write_disk_done wctx ∷ steps) s = do
    ran ← disk_done handle wctx written s
    before ran.1 (resume handle written steps ran.0)
  resume handle written (Step.write_compute_done wctx ∷ steps) s = none

  -- A write from the end of its computation: `put_write_compute_done`, and the continuations that it
  -- has given to its worker.
  abbrev pub play :
      Handle F → (computed written : DseResult) → PutWriteCtx → State F → Ran F Step (State F)
  play handle computed written wctx s = do
    ran ← compute_done wctx computed s
    resume handle written (continuations ran.1) ran.0

  -- The write on the primary worker that fails, or that has no replicas to follow, ends the request:
  -- the index logs its answer, with the latency until now, the context is freed, and the worker
  -- counts the answer once.
  pub primary_ends :
      (handle : Handle F) (computed written : DseResult) (wctx : PutWriteCtx) (s : State F)
      → {ctx : PutRequestCtx F} {w : Worker F Step} {shard : Shard F}
      → s.requests wctx.parent ≡ some ctx
      → s.world.workers wctx.worker ≡ some w
      → s.world.shards ctx.shard ≡ some shard
      → primary_worker shard ≡ some wctx.worker
      → wctx.response ≡ DseResult.res_4xx
      → let result = answer computed written in
        (is_error result || num_replicas shard == 0) ≡ true
        → (s' : State F) × (w' : Worker F Step) × (play handle computed written wctx s
            ≡ some (s', []))
          × (s'.requests wctx.parent ≡ none)
          × (s'.world.index ≡ log_result s.world.index result (d.sub s.world.now ctx.start_time))
          × (s'.world.workers wctx.worker ≡ some (Worker.log_result w' result))
          × SameCounts w w'
  unfolding compute_done disk_done primary_done finish
  primary_ends handle computed written wctx s {ctx} {w} {shard} there works stands first fresh
        over =
      let (w', effects, reserved, same, once) =
        reserve_disk_total s.world.now w DiskOp.write ctx.mem_size
          (some (Step.write_disk_done (record (noted computed wctx) { phase = 1 }))) in
      let s1 : World F Step = record s.world { workers = put_at s.world.workers wctx.worker w' } in
      let result = answer computed written in
      let itself : (wctx.worker == wctx.worker) ≡ true = ground arith in
      let named = answer_eq computed written wctx fresh in
      let ctx' = record ctx { primary_response = result; completion_time = s.world.now } in
      let logged : State F = record {
        world = record s1 { workers = put_at s1.workers wctx.worker (Worker.log_result w' result) };
        requests = s.requests;
      } in
      (
        finish wctx.parent ctx' result logged,
        w',
        rw (there, works, reserved)
            (rw (once, put_at_same s.world.workers wctx.worker w', named, there, stands, first)
              (rw (itself, over) refl)),
        free_at_same s.requests wctx.parent,
        refl,
        put_at_same s1.workers wctx.worker (Worker.log_result w' result),
        same,
      )
