-- ===== src/Collection/Scaling/Finish/Overrun.antt =====
-- The loop that spins the old workers down, and the context that the last one frees.
use distributed_search_engin.Base.{ℕ, suc, ◌≡◌, true, none, List, [], ◌∷◌, ◌++◌, if◌then◌else◌, All}
use distributed_search_engin.Double.{Double}
use distributed_search_engin.Types.{DseResult}
use distributed_search_engin.Collection.Scaling.{ScaleCtx, Collection, Effect}
use distributed_search_engin.Collection.Scaling.Finish.{after, spin_downs}
use distributed_search_engin.Collection.Scaling.Finish.Retire.{among, OfWorker}

module _ {F K C : Type 0} ⦃d : Double F⦄ where
  -- The collection `c'` after a scaling of the context `ctx`, which began with the collection `c`.
  abbrev pub IsScaled : ScaleCtx C → ℕ → Collection F K C → Collection F K C → Type 0
  IsScaled ctx p c c' =
      (c'.steady ≡ true)
      × (c'.dse_config.num_workers ≡ ctx.new_num_workers)
      × (c'.scalings p ≡ none)
      × (c'.indices ≡ c.indices)
      × ((v : ℕ) → c'.workers v ≡ (if among v ctx.old_workers then none else c.workers v))

  abbrev told : ScaleCtx C → List (Effect F K C)
  told ctx = Effect.told ctx.caller DseResult.ok ∷ []

  -- what the loop does to the workers from the entry `i` on, before its last test
  abbrev Runs : ScaleCtx C → (p m i : ℕ) → Collection F K C → Type 0
  Runs ctx p m i c =
      (c' : Collection F K C) × (effects : List (Effect F K C)) × (k : ℕ) × (spin_downs p m i c
        ≡ after (effects ++ told ctx) (spin_downs p (suc k) ctx.old_count c'))
      × All OfWorker effects
      × IsScaled ctx p c c'
