-- ===== src/Requests/Put/Overrun.antt =====
-- A replica that answers before its write returns.
use distributed_search_engin.Base.{
  ℕ, suc, ◌+◌, ◌≡◌, ◌≢◌, refl, ap, ◌∙◌, true, false, Option, none, some, List, [], ◌∷◌, ◌==◌, ltb,
  leb, if◌then◌else◌, get_elem?, length, Bool-cases, inl, inr, arith, ne→==, put_at, put_at_same,
  free_at_same,
}
use distributed_search_engin.Double.{Double}
use distributed_search_engin.Types.{DseResult, DiskOp, is_error, code}
use distributed_search_engin.Physical.Ram
use distributed_search_engin.Logical.Shard
use distributed_search_engin.Logical.Shard.{
  Shard, primary_worker, workers, num_workers, num_replicas,
}
use distributed_search_engin.Logical.Worker
use distributed_search_engin.Logical.Worker.{Worker, TaskEffect, reserve_compute, reserve_disk}
use distributed_search_engin.Requests.World.{exec}
use distributed_search_engin.Requests.Put.{
  PutRequestCtx, Step, State, handle, new_write, noted, start_write, start_replicas, compute_done,
  launch, disk_done, replica_done, primary_done, finish,
}
use distributed_search_engin.Requests.Put.Fanout.{start_logs-workers, length-workers}

module _ {F : Type 0} ⦃d : Double F⦄ where
  compute_short :
      {K : Type 0} (now : F) (limit : ℕ) (w : Worker F K) (cycles bytes : F) (cont : Option K)
      → d.lt (Ram.available w.ram) bytes ≡ true
      → reserve_compute now limit w cycles bytes cont
        ≡ some (
          record w { request_count = w.request_count + 1 },
          TaskEffect.invoke cont DseResult.res_5xx ∷ [],
        )
  unfolding reserve_compute
  compute_short now limit w cycles bytes cont short = elim (Bool-cases (leb limit w.queue_length)) [
    | inl full ↦ rw full refl
    | inr room ↦ rw (room, short) refl
  ]

  disk_short :
      {K : Type 0} (now : F) (w : Worker F K) (op : DiskOp) (bytes : F) (cont : Option K)
      → d.lt (Ram.available w.ram) bytes ≡ true
      → reserve_disk now w op bytes cont ≡ some (w, TaskEffect.invoke cont DseResult.res_5xx ∷ [])
  unfolding reserve_disk
  disk_short now w op bytes cont short = rw short refl

  first_logged :
      (shard : Shard F) (primary w : ℕ) (ws : List ℕ) (a b : F)
      → workers shard ≡ primary ∷ ws
      → primary_worker (Shard.log_size (Shard.log_compute (Shard.log_request shard w) w a) w b)
        ≡ some primary
  first_logged shard primary w ws a b rows =
      ap (λ l. get_elem? l 0) (start_logs-workers shard w a b ∙ rows)

  -- the write of a replica whose worker is short of memory, from its start to its answer
  write_short :
      (n p w primary : ℕ) (s : State F)
      → {ctx : PutRequestCtx F} {shard : Shard F} {worker : Worker F Step} → s.requests p ≡ some ctx
      → s.world.shards ctx.shard ≡ some shard
      → workers shard ≡ primary ∷ w ∷ []
      → w ≢ primary
      → s.world.workers w ≡ some worker
      → d.lt (Ram.available worker.ram) ctx.mem_size ≡ true
      → ctx.replicas_done + 1 ≡ ctx.replica_count
      → (s' : State F) × (launch (handle (suc (suc n))) (new_write p ctx.shard w) s ≡ some (s', []))
        × (s'.requests p ≡ none)
  unfolding start_write exec handle compute_done disk_done replica_done finish Worker.log_request
  write_short n p w primary s {ctx} {shard} {worker} there stands stands_rows apart works short
        last =
      let asked = Worker.log_request worker in
      let cont = some (Step.write_compute_done (new_write p ctx.shard w)) in
      let counted : Worker F Step = record asked { request_count = asked.request_count + 1 } in
      let compute =
        compute_short s.world.now s.world.limit asked ctx.cpu_size ctx.mem_size cont short in
      let wctx1 = record (noted DseResult.res_5xx (new_write p ctx.shard w)) { phase = 1 } in
      let disk =
        disk_short s.world.now counted DiskOp.write ctx.mem_size (some (Step.write_disk_done wctx1))
          short in
      let logged =
        Shard.log_size (Shard.log_compute (Shard.log_request shard w) w ctx.cpu_size) w
          ctx.mem_size in
      let shards = put_at s.world.shards ctx.shard logged in
      let once = put_at s.world.workers w counted in
      let twice = put_at once w counted in
      let worst =
        if ltb (code ctx.worst_response) 2 then DseResult.res_5xx else ctx.worst_response in
      let s3 : State F = record s {
        world = record s.world {
          shards = shards;
          workers = put_at twice w (Worker.log_result counted DseResult.res_5xx);
        };
      } in
      let ctx' = record ctx { worst_response = worst; replicas_done = ctx.replicas_done + 1 } in
      let first = first_logged shard primary w (w ∷ []) ctx.cpu_size ctx.mem_size stands_rows in
      let other : (w == primary) ≡ false = ne→== w primary apart in
      let full : (ctx.replicas_done + 1 == ctx.replica_count) ≡ true = ground arith in
      (
        finish p ctx' worst s3,
        rw (there, works, stands, compute)
            (rw (there, put_at_same s.world.workers w counted, disk)
              (rw (put_at_same once w counted, there, put_at_same s.world.shards ctx.shard logged)
                (rw (first, other, full) refl))),
        free_at_same s.requests p,
      )

  -- On a shard with one replica, whose worker has not room enough in its memory for the write: the
  -- replica answers inside the loop that starts the writes, which frees the context of the request, and
  -- the loop then reads the freed context. No bound on the depth of the calls avoids that.
  pub overrun :
      (n p w primary : ℕ) (result : DseResult) (s : State F)
      → {ctx : PutRequestCtx F} {shard : Shard F} {worker : Worker F Step} → s.requests p ≡ some ctx
      → s.world.shards ctx.shard ≡ some shard
      → workers shard ≡ primary ∷ w ∷ []
      → w ≢ primary
      → s.world.workers w ≡ some worker
      → d.lt (Ram.available worker.ram) ctx.mem_size ≡ true
      → is_error result ≡ false
      → primary_done (handle (suc (suc n))) p result s ≡ none
  unfolding primary_done start_replicas
  overrun n p w primary result s {ctx} {shard} {worker} there stands rows apart works short fine =
      let two : num_workers shard ≡ 2 = length-workers shard [] (primary ∷ w ∷ []) rows in
      let gather : PutRequestCtx F = record ctx {
        primary_response = result;
        completion_time = s.world.now;
        replica_count = num_replicas shard;
        replicas_done = 0;
        worst_response = DseResult.res_4xx;
      } in
      let s1 : State F = record s { requests = put_at s.requests p gather } in
      let there1 = put_at_same s.requests p gather in
      let count : 0 + 1 ≡ num_replicas shard = ground (arith, two) in
      let (s', ran, freed) =
        write_short n p w primary s1 there1 stands rows apart works short count in
      let some_there : (num_replicas shard == 0) ≡ false = ground (arith, two) in
      let more : ltb 1 (num_workers shard) ≡ true = ground (arith, two) in
      let next : get_elem? (workers shard) 1 ≡ some w = ap (λ l. get_elem? l 1) rows in
      let fuel : length (workers shard) ≡ 2 = ap length rows in
      rw (there, stands, fine, some_there)
        (rw fuel (rw (there1, stands, next) (rw ran (rw (freed, more) refl))))
