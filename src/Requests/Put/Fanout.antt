-- ===== src/Requests/Put/Fanout.antt =====
-- The writes on the replicas of a shard, once the primary has written.
use distributed_search_engin.Base.{
  ℕ, zero, suc, ◌+◌, ◌≡◌, ◌≢◌, refl, sym, ap, ◌∙◌, none, some, List, [], ◌∷◌, ◌++◌, map, get_elem?,
  ltb, ◌==◌, true, false, length, length-append, All, Option-cases, inl, inr, append_assoc, arith,
  put_at, put_at_same, put_at_other,
}
use distributed_search_engin.Double.{Double}
use distributed_search_engin.Types.{DseResult, is_error, code}
use distributed_search_engin.Logical.Shard
use distributed_search_engin.Logical.Shard.{
  Shard, Replica, workers, num_workers, num_replicas, log, modify, worker_index, worker_index_loop,
}
use distributed_search_engin.Logical.Worker
use distributed_search_engin.Logical.Worker.{Worker, TaskEffect}
use distributed_search_engin.Event.Gather.{max_code}
use distributed_search_engin.Index.{log_result}
use distributed_search_engin.Requests.World.{World, Quiet, exec-Quiet}
use distributed_search_engin.Requests.Put.{
  PutRequestCtx, Step, State, Handle, new_write, start_write, start_replicas, primary_done,
}
use distributed_search_engin.Requests.Put.Replies.{deliver, deliver_all}

get_elem?-after :
    (front : List ℕ) (w : ℕ) (ws : List ℕ) → get_elem? (front ++ (w ∷ ws)) (length front) ≡ some w
get_elem?-after [] w ws = refl
get_elem?-after (v ∷ front) w ws = get_elem?-after front w ws

length-map : {A B : Type 0} (f : A → B) (xs : List A) → length (map f xs) ≡ length xs
length-map f [] = refl
length-map f (x ∷ xs) = ap suc (length-map f xs)

get_elem?-length : (xs : List ℕ) → get_elem? xs (length xs) ≡ none
get_elem?-length [] = refl
get_elem?-length (x ∷ xs) = get_elem?-length xs

module _ {F : Type 0} where
  modify-workers :
      (xs : List (Replica F)) (i : ℕ) (f : Replica F → Replica F)
      → ((x : Replica F) → (f x).worker ≡ x.worker)
      → map (λ x. x.worker) (modify xs i f) ≡ map (λ x. x.worker) xs
  unfolding modify
  modify-workers [] i f kept = refl
  modify-workers (x ∷ xs) zero f kept = ap (λ w. w ∷ map (λ x. x.worker) xs) (kept x)
  modify-workers (x ∷ xs) (suc i) f kept = ap (◌∷◌ x.worker) (modify-workers xs i f kept)

  log-workers :
      (shard : Shard F) (w : ℕ) (f : Replica F → Replica F)
      → ((x : Replica F) → (f x).worker ≡ x.worker)
      → workers (log shard w f) ≡ workers shard
  unfolding log worker_index
  log-workers shard w f kept = elim (Option-cases (worker_index_loop shard.replicas w 0)) [
    | inl e ↦ rw (log, e) refl
    | inr (i, e) ↦ rw (log, e) (modify-workers shard.replicas i f kept)
  ]

-- A replica's part: the number of its worker, the worker before and after the write has started, and
-- what the start schedules.
pub record Part (F : Type 0) : Type 0 where
  pub number : ℕ
  pub idle : Worker F Step
  pub started : Worker F Step
  pub effects : List (TaskEffect F Step)

module _ {F : Type 0} where
  abbrev pub numbers : List (Part F) → List ℕ
  numbers parts = map (λ x. x.number) parts

  abbrev pub all_effects : List (Part F) → List (TaskEffect F Step)
  all_effects [] = []
  all_effects (x ∷ xs) = x.effects ++ all_effects xs

  -- no worker has two parts
  abbrev pub Distinct : List (Part F) → Type 0
  Distinct [] = Unit
  Distinct (x ∷ xs) = All (λ (y : Part F). y.number ≢ x.number) xs × Distinct xs

module _ {F : Type 0} ⦃d : Double F⦄ where
  -- the worker of a part takes the write, and answers later
  abbrev pub Ready : ℕ → PutRequestCtx F → World F Step → Part F → Type 0
  Ready p ctx world x =
      (world.workers x.number ≡ some x.idle)
      × (Worker.reserve_compute world.now world.limit (Worker.log_request x.idle) ctx.cpu_size
            ctx.mem_size (some (Step.write_compute_done (new_write p ctx.shard x.number)))
          ≡ some (x.started, x.effects))
      × Quiet x.effects

  pub length-workers :
      (shard : Shard F) (front ws : List ℕ)
      → workers shard ≡ front ++ ws
      → num_workers shard ≡ length front + length ws
  length-workers shard front ws rows =
      sym (length-map (λ (x : Replica F). x.worker) shard.replicas)
      ∙ ap length rows
      ∙ length-append front ws

  pub start_logs-workers :
      (shard : Shard F) (w : ℕ) (a b : F)
      → workers (Shard.log_size (Shard.log_compute (Shard.log_request shard w) w a) w b)
        ≡ workers shard
  unfolding Shard.log_size Shard.log_compute Shard.log_request
  start_logs-workers shard w a b =
      log-workers _ w _ (λ x. refl)
      ∙ log-workers _ w _ (λ x. refl)
      ∙ log-workers shard w _ (λ x. refl)

  -- the loop has started the writes of the parts, and left the requests and the index
  abbrev pub FannedOut : List (Part F) → State F → State F → Type 0
  FannedOut parts s s' =
      (s'.requests ≡ s.requests)
      × (s'.world.index ≡ s.world.index)
      × ((v : ℕ)
          → All (λ (y : Part F). y.number ≢ v) parts
          → s'.world.workers v ≡ s.world.workers v)
      × All (λ (x : Part F). s'.world.workers x.number ≡ some x.started) parts

  Ready-keep :
      (p : ℕ) (ctx : PutRequestCtx F) (world world' : World F Step) (w : ℕ) (parts : List (Part F))
      → world'.now ≡ world.now
      → world'.limit ≡ world.limit
      → ((v : ℕ) → v ≢ w → world'.workers v ≡ world.workers v)
      → All (λ (y : Part F). y.number ≢ w) parts
      → All (Ready p ctx world) parts
      → All (Ready p ctx world') parts
  Ready-keep p ctx world world' w [] time lim kept apart ready = tt
  Ready-keep p ctx world world' w (x ∷ xs) time lim kept apart ready =
      let ((there, taken, quiet), others) = ready in
      (
        (kept x.number apart.0 ∙ there, rw (time, lim) taken, quiet),
        Ready-keep p ctx world world' w xs time lim kept apart.1 others,
      )

  start_replicas_total :
      (handle : Handle F) (p : ℕ) (ctx : PutRequestCtx F) (parts : List (Part F)) (front : List ℕ)
      (s : State F)
      → {shard : Shard F} → s.requests p ≡ some ctx
      → s.world.shards ctx.shard ≡ some shard
      → workers shard ≡ front ++ numbers parts
      → Distinct parts
      → All (Ready p ctx s.world) parts
      → (s' : State F) × (start_replicas handle p (suc (length parts)) (length front) s
          ≡ some (s', all_effects parts))
        × FannedOut parts s s'
  unfolding start_replicas start_write
  start_replicas_total handle p ctx [] front s {shard} there stands rows distinct ready =
      let none_left : ltb (length front) (num_workers shard) ≡ false =
        ground (arith, length-workers shard front [] rows) in
      (s, rw (there, stands, none_left) refl, (refl, refl, (λ v far. refl), tt))
  start_replicas_total handle p ctx (x ∷ xs) front s {shard} there stands rows distinct ready =
      let ((works, taken, quiet), others) = ready in
      let more : ltb (length front) (num_workers shard) ≡ true =
        ground (arith, length-workers shard front (x.number ∷ numbers xs) rows) in
      let next : get_elem? (workers shard) (length front) ≡ some x.number =
        ap (λ l. get_elem? l (length front)) rows ∙ get_elem?-after front x.number (numbers xs) in
      let logged =
        Shard.log_size (Shard.log_compute (Shard.log_request shard x.number) x.number ctx.cpu_size)
          x.number ctx.mem_size in
      let s1 : State F = record s {
        world = record s.world {
          shards = put_at s.world.shards ctx.shard logged;
          workers = put_at s.world.workers x.number x.started;
        };
      } in
      let rows1 : workers logged ≡ (front ++ (x.number ∷ [])) ++ numbers xs =
        start_logs-workers shard x.number ctx.cpu_size ctx.mem_size
        ∙ rows
        ∙ sym (append_assoc front (x.number ∷ []) (numbers xs)) in
      let kept =
        Ready-keep p ctx s.world s1.world x.number xs refl refl
          (λ v apart. put_at_other s.world.workers v x.number x.started apart) distinct.0 others in
      let (s', ran, (same, index, far, started)) =
        start_replicas_total handle p ctx xs (front ++ (x.number ∷ [])) s1 there
          (put_at_same s.world.shards ctx.shard logged) rows1 distinct.1 kept in
      let longer : length (front ++ (x.number ∷ [])) ≡ length front + 1 =
        length-append front (x.number ∷ []) in
      let ran1 = rw longer at ran in
      (
        s',
        rw (there, stands, more, next, works, taken, exec-Quiet handle x.effects s1 quiet, ran1)
            refl,
        (
          same,
          index,
          (λ v away.
              far v away.1
              ∙ put_at_other s.world.workers v x.number x.started (λ e. away.0 (sym e))),
          (far x.number distinct.0 ∙ put_at_same s.world.workers x.number x.started, started),
        ),
      )

  -- The write on the primary worker succeeds, on a shard of distinct workers whose replicas have all
  -- room for the write: one write starts on each replica and no answer is logged yet. Whatever answers
  -- the replicas then give, the request is logged with its index exactly at the last one, with the
  -- worst of them and the latency until the primary was done, and its context is freed.
  pub primary_gathers :
      (handle : Handle F) (p primary : ℕ) (result : DseResult) (x : Part F) (xs : List (Part F))
      (r : DseResult) (rs : List DseResult) (s : State F)
      → {ctx : PutRequestCtx F} {shard : Shard F} → s.requests p ≡ some ctx
      → s.world.shards ctx.shard ≡ some shard
      → workers shard ≡ primary ∷ numbers (x ∷ xs)
      → is_error result ≡ false
      → Distinct (x ∷ xs)
      → All (Ready p ctx s.world) (x ∷ xs)
      → length rs ≡ length xs
      → (s' : State F) × (primary_done handle p result s ≡ some (s', all_effects (x ∷ xs)))
        × (s'.world.index ≡ s.world.index)
        × All (λ (y : Part F). s'.world.workers y.number ≡ some y.started) (x ∷ xs)
        × ((worst : DseResult) × (s'' : State F) × (deliver p (r ∷ rs) s' ≡ some s'')
            × (code worst ≡ max_code 1 (r ∷ rs))
            × (s''.requests p ≡ none)
            × (s''.world.index ≡ log_result s.world.index worst (d.sub s.world.now ctx.start_time)))
  unfolding primary_done
  primary_gathers handle p primary result x xs r rs s {ctx} {shard} there stands rows fine distinct
        ready all =
      let rows_count : num_workers shard ≡ suc (suc (length xs)) =
        let same = length-map (λ (y : Part F). y.number) xs in
        omega (arith, same, length-workers shard (primary ∷ []) (numbers (x ∷ xs)) rows) in
      let fuel : length (workers shard) ≡ suc (suc (length xs)) =
        length-map (λ (y : Replica F). y.worker) shard.replicas ∙ rows_count in
      let gather : PutRequestCtx F = record ctx {
        primary_response = result;
        completion_time = s.world.now;
        replica_count = num_replicas shard;
        replicas_done = 0;
        worst_response = DseResult.res_4xx;
      } in
      let s1 : State F = record s { requests = put_at s.requests p gather } in
      let (s', ran, (same, index, far, started)) =
        start_replicas_total handle p gather (x ∷ xs) (primary ∷ []) s1
          (put_at_same s.requests p gather) stands rows distinct ready in
      let some_there : (num_replicas shard == 0) ≡ false = ground (arith, rows_count) in
      let count : gather.replica_count ≡ suc (length xs) = ground (arith, rows_count) in
      let there' : s'.requests p ≡ some gather =
        ap (λ q. q p) same ∙ put_at_same s.requests p gather in
      let (worst, s'', done, (freed, logged, works, stays), top) =
        deliver_all rs r p gather s' there' (omega (arith, count, all)) in
      let relogged = ap (λ i. log_result i worst (d.sub s.world.now ctx.start_time)) index in
      (
        s',
        rw (there, stands, fine, some_there) (rw fuel ran),
        index,
        started,
        (worst, s'', done, top, freed, logged ∙ relogged),
      )
