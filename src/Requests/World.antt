-- ===== src/Requests/World.antt =====
-- What the requests of src/requests/http share: the collection as a request sees it, and the
-- continuations that run before a call returns.
use distributed_search_engin.Base.{ℕ, Option, none, some, ◌>>=◌, List, [], ◌∷◌, ◌++◌, ◌≡◌, refl}
use distributed_search_engin.Types.{DseResult}
use distributed_search_engin.Util.Rng.{Rng}
use distributed_search_engin.Logical.Shard.{Shard}
use distributed_search_engin.Logical.Worker.{Worker, TaskEffect}
use distributed_search_engin.Index.{Index}

-- What a request reads and changes: the time, the limit on a worker's queue, the generator, its
-- index, and the shards and workers by their pointers. Its continuations are of the type `K`.
pub record World (F K : Type 0) : Type 0 where
  pub now : F
  pub limit : ℕ
  pub rng : Rng F
  pub index : Index F
  pub shards : ℕ → Option (Shard F)
  pub workers : ℕ → Option (Worker F K)

-- a state, and what is left to schedule
abbrev pub Ran : (F K S : Type 0) → Type 0
Ran F K S = Option (S × List (TaskEffect F K))

-- Effects that only schedule: no continuation runs before the call returns.
abbrev pub Quiet : {F K : Type 0} → List (TaskEffect F K) → Type 0
Quiet [] = Unit
Quiet (TaskEffect.invoke k r ∷ es) = ⊥
Quiet (TaskEffect.cpu_done_after delay ctx ∷ es) = Quiet es
Quiet (TaskEffect.disk_done_after delay ctx ∷ es) = Quiet es
Quiet (TaskEffect.pool_does e ∷ es) = Quiet es

module _ {F K S : Type 0} where
  -- further effects after those of a run
  abbrev pub before : List (TaskEffect F K) → Ran F K S → Ran F K S
  before effects ran = ran >>= λ r. some (r.0, effects ++ r.1)

  -- The effects of a worker on its caller: a continuation that is invoked runs at once, by `handle`.
  unfoldable pub exec : (K → DseResult → S → Ran F K S) → List (TaskEffect F K) → S → Ran F K S
  exec handle [] s = some (s, [])
  exec handle (TaskEffect.invoke none r ∷ es) s = exec handle es s
  exec handle (TaskEffect.invoke (some k) r ∷ es) s =
      handle k r s >>= λ ran. before ran.1 (exec handle es ran.0)
  exec handle (TaskEffect.cpu_done_after delay ctx ∷ es) s =
      before (TaskEffect.cpu_done_after delay ctx ∷ []) (exec handle es s)
  exec handle (TaskEffect.disk_done_after delay ctx ∷ es) s =
      before (TaskEffect.disk_done_after delay ctx ∷ []) (exec handle es s)
  exec handle (TaskEffect.pool_does e ∷ es) s =
      before (TaskEffect.pool_does e ∷ []) (exec handle es s)

  pub exec-Quiet :
      (handle : K → DseResult → S → Ran F K S) (es : List (TaskEffect F K)) (s : S)
      → Quiet es
      → exec handle es s ≡ some (s, es)
  unfolding exec
  exec-Quiet handle [] s quiet = refl
  exec-Quiet handle (TaskEffect.cpu_done_after delay ctx ∷ es) s quiet =
      rw (exec-Quiet handle es s quiet) refl
  exec-Quiet handle (TaskEffect.disk_done_after delay ctx ∷ es) s quiet =
      rw (exec-Quiet handle es s quiet) refl
  exec-Quiet handle (TaskEffect.pool_does e ∷ es) s quiet = rw (exec-Quiet handle es s quiet) refl
  exec-Quiet handle (TaskEffect.invoke k r ∷ es) s quiet = absurd quiet
