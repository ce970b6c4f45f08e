-- ===== src/Requests/Search/Answers.antt =====
-- What the answers of the shards make of a SEARCH request.
use distributed_search_engin.Base.{
  ℕ, suc, ◌+◌, ◌≤◌, ◌≡◌, refl, ap, ◌∙◌, true, false, Option, none, some, ◌>>=◌, List, [], ◌∷◌, ltb,
  if◌then◌else◌, length, get_or, get_elem?-get_or, append-nil, max, All, arith, put_at, put_at_same,
  free_at_same,
}
use distributed_search_engin.Double.{Double}
use distributed_search_engin.Types.{DseResult, is_error, code}
use distributed_search_engin.Event.Gather.{max_code}
use distributed_search_engin.Logical.Worker.{Worker, TaskEffect, reserve_compute}
use distributed_search_engin.Index.{log_result}
use distributed_search_engin.Requests.World.{Ran, before, Quiet, exec-Quiet}
use distributed_search_engin.Requests.Search.{
  SearchRequestCtx, Step, State, Handle, finish, finished, collate, collation_done,
}
use distributed_search_engin.Requests.Search.Select.{count_of, pick}
use distributed_search_engin.Requests.Search.Best.{pick_best}

before_nil : {F K S : Type 0} (ran : Ran F K S) → before [] ran ≡ ran
before_nil none = refl
before_nil (some r) = refl

ran_nil : {F K S : Type 0} (ran : Ran F K S) → (ran >>= λ r. before r.1 (some (r.0, []))) ≡ ran
ran_nil none = refl
ran_nil (some (s, es)) = rw (append-nil es) refl

module _ {F : Type 0} ⦃d : Double F⦄ where
  -- the shards answer one after the other
  abbrev pub deliver : Handle F → ℕ → List DseResult → State F → Ran F Step (State F)
  deliver handle p [] s = some (s, [])
  deliver handle p (r ∷ rs) s =
      finished handle p r s >>= λ ran. before ran.1 (deliver handle p rs ran.0)

  -- the context after the last answer
  abbrev answered : SearchRequestCtx F → DseResult → SearchRequestCtx F
  answered ctx worst = record ctx { worst_response = worst; shards_done = ctx.num_shards }

  deliver_last :
      (rs : List DseResult) (r : DseResult) (handle : Handle F) (p : ℕ) (ctx : SearchRequestCtx F)
      (s : State F)
      → s.requests p ≡ some ctx
      → ctx.shards_done + suc (length rs) ≡ ctx.num_shards
      → (worst : DseResult) × (left : ℕ → Option (SearchRequestCtx F)) × (deliver handle p
            (r ∷ rs)
            s
          ≡ (if is_error worst
              then some (finish p (answered ctx worst) worst (record s { requests = left }), [])
              else collate handle p (answered ctx worst) (record s { requests = left })))
        × (code worst ≡ max_code (max (code ctx.worst_response) (code r)) rs)
        × (left p ≡ some (answered ctx worst))
  unfolding finished finish
  deliver_last [] r handle p ctx s there e =
      let worst = if ltb (code ctx.worst_response) (code r) then r else ctx.worst_response in
      let last : ltb (ctx.shards_done + 1) ctx.num_shards ≡ false = ground arith in
      let all : ctx.shards_done + 1 ≡ ctx.num_shards = omega (arith, e) in
      (
        worst,
        put_at s.requests p (answered ctx worst),
        rw (there, last, all) (ran_nil _),
        ground arith,
        put_at_same s.requests p (answered ctx worst),
      )
  deliver_last (r' ∷ rs) r handle p ctx s there e =
      let worst = if ltb (code ctx.worst_response) (code r) then r else ctx.worst_response in
      let ctx' = record ctx { worst_response = worst; shards_done = ctx.shards_done + 1 } in
      let more : ltb (ctx.shards_done + 1) ctx.num_shards ≡ true = ground arith in
      let s1 : State F = record s { requests = put_at s.requests p ctx' } in
      let (w, left, done, top, here) =
        deliver_last rs r' handle p ctx' s1 (put_at_same s.requests p ctx') (omega arith) in
      let larger : code worst ≡ max (code ctx.worst_response) (code r) = ground arith in
      (
        w,
        left,
        rw (there, more) (before_nil _ ∙ done),
        top ∙ ap (λ m. max_code (max m (code r')) rs) larger,
        here,
      )

  -- All shards have answered a search, one at least with an error: the request is logged with its
  -- index once, at the last answer, with the worst of them and the latency until then; its context is
  -- freed and nothing more is started.
  pub answers_fail :
      (handle : Handle F) (p : ℕ) (r : DseResult) (rs : List DseResult) (s : State F)
      → {ctx : SearchRequestCtx F} → s.requests p ≡ some ctx
      → ctx.shards_done ≡ 0
      → suc (length rs) ≡ ctx.num_shards
      → ctx.worst_response ≡ DseResult.res_4xx
      → 2 ≤ max_code 1 (r ∷ rs)
      → (worst : DseResult) × (s' : State F) × (deliver handle p (r ∷ rs) s ≡ some (s', []))
        × (code worst ≡ max_code 1 (r ∷ rs))
        × (s'.requests p ≡ none)
        × (s'.world.workers ≡ s.world.workers)
        × (s'.world.index ≡ log_result s.world.index worst (d.sub s.world.now ctx.start_time))
  unfolding finish
  answers_fail handle p r rs s {ctx} there none_done count fresh bad =
      let (worst, left, done, top, here) =
        deliver_last rs r handle p ctx s there (omega (arith, none_done, count)) in
      let top' = top ∙ ap (λ m. max_code (max (code m) (code r)) rs) fresh in
      let failed : is_error worst ≡ true = ground (arith, top', bad) in
      (
        worst,
        finish p (answered ctx worst) worst (record s { requests = left }),
        done ∙ rw failed refl,
        top',
        free_at_same left p,
        refl,
        refl,
      )

  -- All shards have answered a search, none with an error: the answers are collated on a worker that
  -- answered for as many shards as any other. If it takes the task, nothing is logged yet, and once
  -- the collation is done the request is logged with its index, as 4xx if the collation did not fail
  -- and as 5xx if it did, with the latency until then, and its context is freed.
  pub answers_collate :
      (handle : Handle F) (p : ℕ) (r collated : DseResult) (rs : List DseResult) (s : State F)
      → {ctx : SearchRequestCtx F} {v : ℕ} {vs : List ℕ} {worker worker' : Worker F Step}
        {effects : List (TaskEffect F Step)}
      → s.requests p ≡ some ctx
      → ctx.shards_done ≡ 0
      → suc (length rs) ≡ ctx.num_shards
      → ctx.workers ≡ v ∷ vs
      → ctx.worst_response ≡ DseResult.res_4xx
      → max_code 1 (r ∷ rs) ≤ 1
      → let chosen = (pick (v ∷ vs) (v ∷ vs) 0 0 0 s.world.rng).0 in
        let w = get_or (v ∷ vs) chosen 0 in
        s.world.workers w ≡ some worker
        → reserve_compute s.world.now s.world.limit worker ctx.cpu_size_collate
            (d.mul (d.of_ℕ ctx.num_shards) ctx.mem_size_response)
            (some (Step.collate_done p))
          ≡ some (worker', effects)
        → Quiet effects
        → (s' : State F) × (s'' : State F) × (deliver handle p (r ∷ rs) s ≡ some (s', effects))
          × (s'.world.index ≡ s.world.index)
          × (s'.world.workers w ≡ some worker')
          × All (λ u. count_of (v ∷ vs) u ≤ count_of (v ∷ vs) w) (v ∷ vs)
          × (collation_done p collated s' ≡ some s'')
          × (s''.requests p ≡ none)
          × (s''.world.index
              ≡ log_result s.world.index
                  (if is_error collated then DseResult.res_5xx else DseResult.res_4xx)
                  (d.sub s.world.now ctx.start_time))
  unfolding finish collate collation_done
  answers_collate handle p r collated rs s {ctx} {v} {vs} {worker} {worker'} {effects} there
        none_done count chosen_from fresh good works taken quiet =
      let (worst, left, done, top, here) =
        deliver_last rs r handle p ctx s there (omega (arith, none_done, count)) in
      let top' = top ∙ ap (λ m. max_code (max (code m) (code r)) rs) fresh in
      let fine : is_error worst ≡ false = ground (arith, top', good) in
      let ctx' = answered ctx worst in
      let result = if is_error collated then DseResult.res_5xx else DseResult.res_4xx in
      let choice = pick (v ∷ vs) (v ∷ vs) 0 0 0 s.world.rng in
      let (inside, greatest) = pick_best v vs s.world.rng in
      let found = get_elem?-get_or (v ∷ vs) choice.0 0 inside in
      let w = get_or (v ∷ vs) choice.0 0 in
      let s' : State F = record {
        world = record s.world { rng = choice.1; workers = put_at s.world.workers w worker' };
        requests = left;
      } in
      (
        s',
        finish p ctx' result s',
        done
            ∙ rw (fine, chosen_from)
                (rw (found, works, taken) (exec-Quiet handle effects s' quiet)),
        refl,
        put_at_same s.world.workers w worker',
        greatest,
        rw here refl,
        free_at_same left p,
        refl,
      )
