-- ===== src/Event/Gather.antt =====
-- include/event/continuation.h: GatherCtx, which waits for a number of children.
use distributed_search_engin.Base.{
  ℕ, suc, ◌+◌, ◌<◌, ◌≡◌, refl, ap, ◌∙◌, Option, none, some, List, [], ◌∷◌, ◌==◌, ltb, if◌then◌else◌,
  length, max, arith,
}
use distributed_search_engin.Types.{DseResult, code}

-- `GatherCtx`
pub record GatherCtx (K : Type 0) : Type 0 where
  pub parent : Option K
  pub total : ℕ
  pub completed : ℕ
  pub worst_result : DseResult

-- What `gather_child_done` leaves: the context with a child more done, or the context freed and the
-- parent to be invoked with a result.
pub data Progress (K : Type 0) : Type 0 where
  waiting : GatherCtx K → Progress K
  finished : Option K → DseResult → Progress K

module _ {K : Type 0} where
  -- `gather_create`
  unfoldable pub create : ℕ → Option K → GatherCtx K
  create total parent = record {
    parent = parent;
    total = total;
    completed = 0;
    worst_result = DseResult.ok;
  }

  -- `gather_child_done`
  unfoldable pub child_done : GatherCtx K → DseResult → Progress K
  child_done g result =
      let worst = if ltb (code g.worst_result) (code result) then result else g.worst_result in
      let completed = g.completed + 1 in
      if completed == g.total
      then finished g.parent worst
      else waiting (record g { completed = completed; worst_result = worst })

  -- A child reports to the gather, which must still be there: `none` is a use after free.
  abbrev pub deliver : Progress K → List DseResult → Option (Progress K)
  deliver p [] = some p
  deliver (waiting g) (r ∷ rs) = deliver (child_done g r) rs
  deliver (finished parent worst) (r ∷ rs) = none

-- The largest of the numbers of the results, and `m`.
abbrev pub max_code : ℕ → List DseResult → ℕ
max_code m [] = m
max_code m (r ∷ rs) = max_code (max m (code r)) rs

module _ {K : Type 0} where
  deliver_all :
      (rs : List DseResult) (r : DseResult) (g : GatherCtx K)
      → g.completed + suc (length rs) ≡ g.total
      → (worst : DseResult) × (deliver (waiting g) (r ∷ rs) ≡ some (finished g.parent worst))
        × (code worst ≡ max_code (max (code g.worst_result) (code r)) rs)
  unfolding child_done
  deliver_all [] r g e = (
    (if ltb (code g.worst_result) (code r) then r else g.worst_result),
    ground arith,
    ground arith,
  )
  deliver_all (r' ∷ rs) r g e =
      let worst = if ltb (code g.worst_result) (code r) then r else g.worst_result in
      let g' = record g { completed = g.completed + 1; worst_result = worst } in
      let (w, done, top) = deliver_all rs r' g' (omega arith) in
      let step : child_done g r ≡ waiting g' = ground arith in
      let larger : code worst ≡ max (code g.worst_result) (code r) = ground arith in
      (
        w,
        ap (λ p. deliver p (r' ∷ rs)) step ∙ done,
        top ∙ ap (λ m. max_code (max m (code r')) rs) larger,
      )

  -- A gather of `total` children, at least one, waits until as many have reported, and then invokes
  -- its parent, once, with the worst of the results: the one with the largest number.
  pub gather_correct :
      (parent : Option K) (r : DseResult) (rs : List DseResult)
      → (worst : DseResult) × (deliver (waiting (create (suc (length rs)) parent)) (r ∷ rs)
          ≡ some (finished parent worst))
        × (code worst ≡ max_code 0 (r ∷ rs))
  unfolding create
  gather_correct parent r rs = deliver_all rs r (create (suc (length rs)) parent) (omega arith)

  deliver_fewer :
      (rs : List DseResult) (g : GatherCtx K)
      → g.completed + length rs < g.total
      → (g' : GatherCtx K) × (deliver (waiting g) rs ≡ some (waiting g'))
  unfolding child_done
  deliver_fewer [] g h = (g, refl)
  deliver_fewer (r ∷ rs) g h =
      let worst = if ltb (code g.worst_result) (code r) then r else g.worst_result in
      let g' = record g { completed = g.completed + 1; worst_result = worst } in
      let step : child_done g r ≡ waiting g' = ground arith in
      let (g'', waits) = deliver_fewer rs g' (omega arith) in
      (g'', ap (λ p. deliver p rs) step ∙ waits)

  -- Before that the parent is not invoked.
  pub gather_waits :
      (parent : Option K) (total : ℕ) (rs : List DseResult)
      → length rs < total
      → (g : GatherCtx K) × (deliver (waiting (create total parent)) rs ≡ some (waiting g))
  unfolding create
  gather_waits parent total rs h = deliver_fewer rs (create total parent) (omega arith)
