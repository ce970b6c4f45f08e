-- ===== src/Physical/CpuPool/SpinUp.antt =====
-- src/components/physical/cpu.c: a pool whose processors spin up, all with the same delay.
use distributed_search_engin.Base.{
  ℕ, zero, suc, true, false, ◌+◌, ◌≡◌, refl, ap, ◌∙◌, Option, none, some, List, [], ◌∷◌, ◌++◌, ◌==◌,
  if◌then◌else◌, length, length-append, append_assoc, map, replicate, ne→==, arith,
}
use distributed_search_engin.Double.{Double}
use distributed_search_engin.Types.{DseResult}
use distributed_search_engin.Actor.{Actor}
use distributed_search_engin.Util.DynArray
use distributed_search_engin.Physical.Cpu
use distributed_search_engin.Physical.CpuPool.{CpuPool, Effect, make_pool, add_cpu}

-- so many numbers, from one on
abbrev pub numbers : ℕ → ℕ → List ℕ
numbers zero i = []
numbers (suc n) i = i ∷ numbers n (i + 1)

-- `CPUPoolSpinUpCtx`, of one pool
pub record SpinUpCtx (K : Type 0) : Type 0 where
  pub num_cpus : ℕ
  pub cpus_done : ℕ
  pub caller : Option K

module _ {F K : Type 0} ⦃d : Double F⦄ where
  -- the loop of `cpu_pool_spin_up_async`
  unfoldable pub spin_up_effects : ℕ → F → List (Effect F K)
  spin_up_effects zero delay = []
  spin_up_effects (suc n) delay = Effect.spin_up_one_done_after delay ∷ spin_up_effects n delay

  -- `cpu_pool_spin_up_async`: the pool, the context if there is anything to wait for, and the effects
  unfoldable pub spin_up_async :
      Actor F
      → ℕ
      → ℕ
      → F
      → ℕ
      → F
      → Option K
      → CpuPool F K × Option (SpinUpCtx K) × List (Effect F K)
  unfolding make_pool spin_up_effects
  spin_up_async base worker_id num_cpus frequency queue_capacity delay cont =
      let p = make_pool base worker_id frequency num_cpus queue_capacity in
      if num_cpus == 0 then (p, none, Effect.invoke cont DseResult.ok ∷ []) else (
        p,
        some (record { num_cpus = num_cpus; cpus_done = 0; caller = cont }),
        spin_up_effects num_cpus delay,
      )

  -- `cpu_spin_up_one_done`: `none` for the context once it is freed
  unfoldable pub spin_up_one_done :
      Actor F → SpinUpCtx K → CpuPool F K → CpuPool F K × Option (SpinUpCtx K) × List (Effect F K)
  unfolding add_cpu
  spin_up_one_done actor ctx p =
      if ctx.cpus_done + 1 == ctx.num_cpus
      then (add_cpu actor p, none, Effect.invoke ctx.caller DseResult.ok ∷ [])
      else (add_cpu actor p, some (record ctx { cpus_done = ctx.cpus_done + 1 }), [])

  -- effects that come before those of what follows
  abbrev before :
      List (Effect F K)
      → Option (CpuPool F K × Option (SpinUpCtx K) × List (Effect F K))
      → Option (CpuPool F K × Option (SpinUpCtx K) × List (Effect F K))
  before effects none = none
  before effects (some r) = some (r.0, r.1, effects ++ r.2)

  -- The completions of the spin-up, one for each of the actors that are made; `none` is a completion
  -- after the context was freed.
  abbrev pub complete :
      List (Actor F)
      → Option (SpinUpCtx K)
      → CpuPool F K
      → Option (CpuPool F K × Option (SpinUpCtx K) × List (Effect F K))
  complete [] ctx p = some (p, ctx, [])
  complete (a ∷ actors) none p = none
  complete (a ∷ actors) (some ctx) p =
      let step = spin_up_one_done a ctx p in before step.2 (complete actors step.1 step.0)

  -- the pool `p'` is `p` with a new processor for each of the actors, all of them available
  abbrev pub Joined : CpuPool F K → List (Actor F) → CpuPool F K → Type 0
  Joined p actors p' =
      (p'.heap ≡ p.heap ++ map (λ a. Cpu.init a p.frequency) actors)
      × (p'.cpus.items ≡ p.cpus.items ++ numbers (length actors) (length p.heap))
      × (p'.available_cpus.items
          ≡ p.available_cpus.items ++ numbers (length actors) (length p.heap))

  one-Joined : (a : Actor F) (p : CpuPool F K) → Joined p (a ∷ []) (add_cpu a p)
  unfolding add_cpu DynArray.push
  one-Joined a p = (refl, refl, refl)

  more-Joined :
      (a : Actor F) (actors : List (Actor F)) (p p' : CpuPool F K)
      → Joined (add_cpu a p) actors p'
      → Joined p (a ∷ actors) p'
  unfolding add_cpu DynArray.push
  more-Joined a actors p p' (heap, cpus, available) =
      let size : length (p.heap ++ (Cpu.init a p.frequency ∷ [])) ≡ length p.heap + 1 =
        length-append p.heap (Cpu.init a p.frequency ∷ []) in
      let rest = numbers (length actors) (length p.heap + 1) in
      (
        heap ∙ append_assoc p.heap (Cpu.init a p.frequency ∷ []) _,
        cpus
            ∙ ap (λ n. (p.cpus.items ++ (length p.heap ∷ [])) ++ numbers (length actors) n) size
            ∙ append_assoc p.cpus.items (length p.heap ∷ []) rest,
        available
            ∙ ap
                (λ n. (p.available_cpus.items ++ (length p.heap ∷ [])) ++ numbers (length actors) n)
                size
            ∙ append_assoc p.available_cpus.items (length p.heap ∷ []) rest,
      )

  complete_all :
      (a : Actor F) (actors : List (Actor F)) (ctx : SpinUpCtx K) (p : CpuPool F K)
      → ctx.cpus_done + suc (length actors) ≡ ctx.num_cpus
      → (p' : CpuPool F K) × (complete (a ∷ actors) (some ctx) p
          ≡ some (p', none, Effect.invoke ctx.caller DseResult.ok ∷ []))
        × Joined p (a ∷ actors) p'
  unfolding spin_up_one_done
  complete_all a [] ctx p e =
      let over : (ctx.cpus_done + 1 == ctx.num_cpus) ≡ true = ground arith in
      (add_cpu a p, rw over refl, one-Joined a p)
  complete_all a (b ∷ actors) ctx p e =
      let more : (ctx.cpus_done + 1 == ctx.num_cpus) ≡ false =
        ne→== (ctx.cpus_done + 1) ctx.num_cpus (omega arith) in
      let waits : spin_up_one_done a ctx p
          ≡ (add_cpu a p, some (record ctx { cpus_done = ctx.cpus_done + 1 }), []) =
        rw more refl in
      let (p', rest, joined) =
        complete_all b actors (record ctx { cpus_done = ctx.cpus_done + 1 }) (add_cpu a p)
          (omega arith) in
      (
        p',
        ap (λ t. before t.2 (complete (b ∷ actors) t.1 t.0)) waits ∙ ap (before []) rest,
        more-Joined a (b ∷ actors) p p' joined,
      )

  spin_up_effects_eq :
      (n : ℕ) (delay : F)
      → spin_up_effects n delay ≡ replicate n (Effect.spin_up_one_done_after delay)
  unfolding spin_up_effects
  spin_up_effects_eq zero delay = refl
  spin_up_effects_eq (suc n) delay =
      ap (λ es. Effect.spin_up_one_done_after delay ∷ es) (spin_up_effects_eq n delay)

  -- A pool that spins up with one processor at least schedules one completion for each, after the same
  -- delay. The completions tell its caller of success once, with the last, and then the pool has
  -- exactly one new processor for each, numbered from 0, all of them available.
  pub spin_up_completes :
      (base : Actor F) (worker_id : ℕ) (a : Actor F) (actors : List (Actor F)) (frequency : F)
      (queue_capacity : ℕ) (delay : F) (cont : Option K)
      → let count = suc (length actors) in
        let started = spin_up_async base worker_id count frequency queue_capacity delay cont in
        (p : CpuPool F K) × (started.2 ≡ replicate count (Effect.spin_up_one_done_after delay))
        × (complete (a ∷ actors) started.1 started.0
            ≡ some (p, none, Effect.invoke cont DseResult.ok ∷ []))
        × (p.heap ≡ map (λ x. Cpu.init x frequency) (a ∷ actors))
        × (p.cpus.items ≡ numbers count 0)
        × (p.available_cpus.items ≡ numbers count 0)
  unfolding spin_up_async make_pool DynArray.init
  spin_up_completes base worker_id a actors frequency queue_capacity delay cont =
      let some_cpu : (suc (length actors) == 0) ≡ false =
        ne→== (suc (length actors)) 0 (omega arith) in
      let (p, done, (heap, cpus, available)) =
        complete_all a actors
          (record { num_cpus = suc (length actors); cpus_done = 0; caller = cont })
          (make_pool base worker_id frequency (suc (length actors)) queue_capacity) (omega arith) in
      rw some_cpu (p, spin_up_effects_eq (suc (length actors)) delay, done, heap, cpus, available)
