-- ===== src/Physical/CpuPool/Shutdown.antt =====
-- Spinning a pool up and down.
use distributed_search_engin.Base.{
  ℕ, zero, suc, ◌≤◌, ◌≡◌, refl, ap₂, true, false, Option, some, List, [], ◌∷◌, ◌++◌, map, ◌==◌,
  length, ne→==, Bool-cases, inl, inr, ◌∙◌, arith,
}
use distributed_search_engin.Double.{Double}
use distributed_search_engin.Types.{DseResult}
use distributed_search_engin.Util.BoundedQueue
use distributed_search_engin.Util.BoundedQueue.{BoundedQueue}
use distributed_search_engin.Util.BoundedQueue.Refine.{Holds, pop-Holds, finalize-Holds}
use distributed_search_engin.Physical.CpuPool.{CpuPool, WaitCtx, Effect, dismiss, drain, spin_down}

module _ {F K : Type 0} ⦃d : Double F⦄ where
  -- the waiting tasks are told, in their order
  abbrev pub dismissed : List (WaitCtx F K) → List (Effect F K)
  dismissed waiting = map (λ w. Effect.invoke w.caller DseResult.err_worker_shutdown) waiting

  pop_keeps_finalized :
      (q : BoundedQueue (WaitCtx F K)) → (BoundedQueue.pop q).1.finalized ≡ q.finalized
  unfolding BoundedQueue.pop
  pop_keeps_finalized q = elim (Bool-cases (q.count == 0)) [ inl e ↦ rw e refl | inr e ↦ rw e refl ]

  drain_all :
      (waiting : List (WaitCtx F K)) (q : BoundedQueue (WaitCtx F K)) (fuel : ℕ)
      → Holds q waiting
      → length waiting ≤ fuel
      → (q' : BoundedQueue (WaitCtx F K)) × (drain fuel q ≡ some (q', dismissed waiting))
        × Holds q' []
        × (q'.finalized ≡ q.finalized)
  unfolding drain
  drain_all [] q zero h p =
      let e : (q.count == 0) ≡ true = ground (arith, h.counted) in (q, rw e refl, h, refl)
  drain_all [] q (suc fuel) h p =
      let e : (q.count == 0) ≡ true = ground (arith, h.counted) in (q, rw e refl, h, refl)
  drain_all (w ∷ waiting) q zero h p = absurd (omega arith)
  drain_all (w ∷ waiting) q (suc fuel) h p =
      let e : (q.count == 0) ≡ false = ne→== q.count 0 (omega (arith, h.counted)) in
      let (first, shorter) = pop-Holds q w waiting h in
      let (q', rest, empty, same) =
        drain_all waiting (BoundedQueue.pop q).1 fuel shorter (omega arith) in
      (q', rw e (ap₂ dismiss first rest), empty, same ∙ pop_keeps_finalized q)

  -- A pool that spins down dismisses all tasks that wait, in the order in which they came, with
  -- DSE_ERR_WORKER_SHUTDOWN, then deletes its actor, and then tells the caller of success. The loop
  -- ends with the queue empty and closed.
  pub spin_down_correct :
      (p : CpuPool F K) (cont : Option K) (waiting : List (WaitCtx F K))
      → Holds p.wait_queue waiting
      → (p' : CpuPool F K) × (spin_down p cont
          ≡ some (
            p',
            dismissed waiting ++ (Effect.delete_actor ∷ Effect.invoke cont DseResult.ok ∷ []),
          ))
        × Holds p'.wait_queue []
        × (p'.wait_queue.finalized ≡ true)
        × (p'.spinning_down ≡ true)
  unfolding spin_down BoundedQueue.finalize
  spin_down_correct p cont waiting h =
      let q = BoundedQueue.finalize p.wait_queue in
      let closed = finalize-Holds p.wait_queue waiting h in
      let (q', drained, empty, same) =
        drain_all waiting q q.count closed (omega (arith, closed.counted)) in
      (record p { spinning_down = true; wait_queue = q' }, rw drained refl, empty, same, refl)
