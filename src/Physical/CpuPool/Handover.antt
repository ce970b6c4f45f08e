-- ===== src/Physical/CpuPool/Handover.antt =====
-- Who gets a processor: a task that asks for one, or that waits when one is given back.
use distributed_search_engin.Base.{
  ℕ, suc, ◌<◌, ◌≡◌, refl, ap, ◌∙◌, true, false, ◌||◌, Option, some, ◌>>=◌, List, [], ◌∷◌, ◌++◌,
  ◌==◌, leb, ltb, get_elem?, set, length, length-perm, Perm, ne→==, lt→ltb, lt→leb, get_elem?-set,
  arith,
}
use distributed_search_engin.Double.{Double, HasSign}
use distributed_search_engin.Types.{DseResult}
use distributed_search_engin.Util.DynArray
use distributed_search_engin.Util.DynArray.{DynArray}
use distributed_search_engin.Util.DynArray.Remove.{remove-perm}
use distributed_search_engin.Util.BoundedQueue
use distributed_search_engin.Util.BoundedQueue.Refine.{Holds, push-Holds, pop-Holds}
use distributed_search_engin.Physical.Cpu.{Cpu, is_idle}
use distributed_search_engin.Physical.CpuPool.{
  CpuPool, ReserveCtx, WaitCtx, Effect, reserve_cpu, reserve, reserve_first, pool_reserve, got_cpu,
  release, worked, give_back, reserve_done,
}

first_removed :
    (a : DynArray) (x : ℕ) (xs : List ℕ)
    → a.items ≡ x ∷ xs
    → Perm (x ∷ (DynArray.remove a x).1.items) a.items
unfolding DynArray.remove DynArray.scan
first_removed a x xs e =
    let same : (x == x) ≡ true = ground arith in
    remove-perm a x (rw (e, DynArray.remove, DynArray.scan, same) refl)

only_one : {A : Type 0} (xs : List A) → suc (length xs) ≡ 1 → xs ≡ []
only_one [] e = refl
only_one (x ∷ xs) e = absurd (omega (arith, e))

module _ {F K : Type 0} ⦃d : Double F⦄ where
  -- The completion that a task is given on a processor.
  abbrev pub completion : ℕ → Cpu F → F → Option K → Effect F K
  completion cpu c cycles cont =
      Effect.reserve_done_after (d.div cycles c.freq)
        (record { cpu = cpu; cycles = cycles; duration = d.div cycles c.freq; caller = cont })

  reserve_first_total :
      (now : F) (p : CpuPool F K) (cycles : F) (cont : Option K) (cpu : ℕ) (rest : List ℕ)
      (c : Cpu F)
      → p.available_cpus.items ≡ cpu ∷ rest
      → get_elem? p.heap cpu ≡ some c
      → c.enabled ≡ true
      → is_idle c ≡ true
      → reserve_first now p cycles cont
        ≡ some (
          record p {
            heap = set p.heap cpu (record c { last_reserved_time = now });
            available_cpus = (DynArray.remove p.available_cpus cpu).1;
          },
          completion cpu c cycles cont ∷ [],
        )
  unfolding reserve_first reserve reserve_cpu
  reserve_first_total now p cycles cont cpu rest c items at on idle = rw (items, at, idle, on) refl

  -- When a processor is available, a task gets the first one at once: that it is done is scheduled
  -- after the cycles divided by the frequency, the processor is marked busy from now on, it and no
  -- other leaves the available ones, and no waiting task is overtaken, as the queue stays.
  pub pool_reserve_at_once :
      (now : F) (p : CpuPool F K) (cycles : F) (cont : Option K) (cpu : ℕ) (rest : List ℕ)
      (c : Cpu F)
      → p.available_cpus.items ≡ cpu ∷ rest
      → get_elem? p.heap cpu ≡ some c
      → c.enabled ≡ true
      → is_idle c ≡ true
      → (p' : CpuPool F K) × (pool_reserve now p cycles cont
          ≡ some (p', completion cpu c cycles cont ∷ []))
        × Perm (cpu ∷ p'.available_cpus.items) p.available_cpus.items
        × (p'.heap ≡ set p.heap cpu (record c { last_reserved_time = now }))
        × (p'.wait_queue ≡ p.wait_queue)
  unfolding pool_reserve
  pool_reserve_at_once now p cycles cont cpu rest c items at on idle =
      let some_cpu : ltb 0 (length p.available_cpus.items) ≡ true =
        ap (λ l. ltb 0 (length l)) items ∙ lt→ltb 0 (suc (length rest)) (omega arith) in
      (
        record p {
          heap = set p.heap cpu (record c { last_reserved_time = now });
          available_cpus = (DynArray.remove p.available_cpus cpu).1;
        },
        rw some_cpu (reserve_first_total now p cycles cont cpu rest c items at on idle),
        first_removed p.available_cpus cpu rest items,
        refl,
        refl,
      )

  -- When no processor is available and the queue is open and not full, a task waits behind those
  -- that wait, and nothing else happens.
  pub pool_reserve_waits :
      (now : F) (p : CpuPool F K) (cycles : F) (cont : Option K) (waiting : List (WaitCtx F K))
      → p.available_cpus.items ≡ []
      → Holds p.wait_queue waiting
      → p.wait_queue.finalized ≡ false
      → length waiting < p.wait_queue.capacity
      → (p' : CpuPool F K) × (pool_reserve now p cycles cont ≡ some (p', []))
        × Holds p'.wait_queue (waiting ++ (record { cycles = cycles; caller = cont } ∷ []))
        × (p'.heap ≡ p.heap)
        × (p'.available_cpus ≡ p.available_cpus)
  unfolding pool_reserve
  pool_reserve_waits now p cycles cont waiting items h opened room =
      let no_cpu : ltb 0 (length p.available_cpus.items) ≡ false =
        ap (λ l. ltb 0 (length l)) items in
      let space : leb p.wait_queue.capacity p.wait_queue.count ≡ false =
        lt→leb p.wait_queue.capacity p.wait_queue.count (omega (arith, h.counted)) in
      let wait : WaitCtx F K = record { cycles = cycles; caller = cont } in
      (
        record p { wait_queue = (BoundedQueue.push p.wait_queue wait).1 },
        rw (no_cpu, opened, space) refl,
        (push-Holds p.wait_queue waiting wait h opened (omega (arith, h.counted))).1,
        refl,
        refl,
      )

  -- When no processor is available and the queue is full or closed, a task is refused with
  -- DSE_ERR_QUEUE_FULL, and the pool stays as it is.
  pub pool_reserve_refused :
      (now : F) (p : CpuPool F K) (cycles : F) (cont : Option K) (waiting : List (WaitCtx F K))
      → p.available_cpus.items ≡ []
      → Holds p.wait_queue waiting
      → (p.wait_queue.finalized || leb p.wait_queue.capacity (length waiting)) ≡ true
      → pool_reserve now p cycles cont ≡ some (p, Effect.invoke cont DseResult.err_queue_full ∷ [])
  unfolding pool_reserve
  pool_reserve_refused now p cycles cont waiting items h closed =
      let no_cpu : ltb 0 (length p.available_cpus.items) ≡ false =
        ap (λ l. ltb 0 (length l)) items in
      let shut : (leb p.wait_queue.capacity p.wait_queue.count || p.wait_queue.finalized) ≡ true =
        ground (arith, h.counted) in
      rw (no_cpu, shut) refl

  got_cpu_total :
      (now : F) (p : CpuPool F K) (wait : WaitCtx F K) (cpu : ℕ) (rest : List ℕ) (c : Cpu F)
      → p.available_cpus.items ≡ cpu ∷ rest
      → get_elem? p.heap cpu ≡ some c
      → c.enabled ≡ true
      → is_idle c ≡ true
      → got_cpu now wait p
        ≡ some (
          record p {
            heap = set p.heap cpu (record c { last_reserved_time = now });
            available_cpus = (DynArray.remove p.available_cpus cpu).1;
          },
          completion cpu c wait.cycles wait.caller ∷ [],
        )
  unfolding got_cpu
  got_cpu_total now p wait cpu rest c items at on idle =
      let some_cpu : (length p.available_cpus.items == 0) ≡ false =
        ap (λ l. length l == 0) items ∙ ne→== (suc (length rest)) 0 (omega arith) in
      rw some_cpu (reserve_first_total now p wait.cycles wait.caller cpu rest c items at on idle)

  release_wakes :
      (now : F) (p : CpuPool F K) (c : Cpu F) (wait : WaitCtx F K)
      → c.enabled ≡ true
      → (p.wait_queue.count == 0) ≡ false
      → (BoundedQueue.pop p.wait_queue).0 ≡ some wait
      → release now p c
        ≡ got_cpu now wait (record p { wait_queue = (BoundedQueue.pop p.wait_queue).1 })
  unfolding release
  release_wakes now p c wait on waits stored = rw (on, waits, stored) refl

  given_items :
      (now : F) (ctx : ReserveCtx F K) (p : CpuPool F K) (c : Cpu F)
      → c.enabled ≡ true
      → p.available_cpus.items ≡ []
      → (give_back now ctx p c).available_cpus.items ≡ ctx.cpu ∷ []
  unfolding DynArray.push
  given_items now ctx p c on items = rw (on, items) refl

  -- A processor that is given back, when no other is available, goes to the task that has waited
  -- longest: its completion is scheduled on this processor, the caller of the task before it is told
  -- of success after that, no processor is left available, and the other tasks wait on.
  pub reserve_done_hands_over :
      HasSign d
      → (now : F) (p : CpuPool F K) (ctx : ReserveCtx F K) (c : Cpu F) (wait : WaitCtx F K)
        (waiting : List (WaitCtx F K))
      → get_elem? p.heap ctx.cpu ≡ some c
      → c.enabled ≡ true
      → p.available_cpus.items ≡ []
      → Holds p.wait_queue (wait ∷ waiting)
      → (p' : CpuPool F K) × (reserve_done now ctx p
          ≡ some (
            p',
            completion ctx.cpu c wait.cycles wait.caller
                ∷ Effect.invoke ctx.caller DseResult.res_4xx
                ∷ [],
          ))
        × Holds p'.wait_queue waiting
        × (p'.available_cpus.items ≡ [])
  unfolding reserve_done release got_cpu
  reserve_done_hands_over sign now p ctx c wait waiting at on items h =
      let (stored, shorter) = pop-Holds p.wait_queue wait waiting h in
      let waits : (p.wait_queue.count == 0) ≡ false =
        ne→== p.wait_queue.count 0 (omega (arith, h.counted)) in
      let p1 = record (give_back now ctx p c) { wait_queue = (BoundedQueue.pop p.wait_queue).1 } in
      let c' = worked now ctx c in
      let only = given_items now ctx p c on items in
      let got =
        got_cpu_total now p1 wait ctx.cpu [] c' only (get_elem?-set p.heap ctx.cpu c' at) on
          sign.minus_one in
      let released = release_wakes now (give_back now ctx p c) c' wait on waits stored in
      (
        record p1 {
          heap = set p1.heap ctx.cpu (record c' { last_reserved_time = now });
          available_cpus = (DynArray.remove p1.available_cpus ctx.cpu).1;
        },
        rw at (
            ap
              (λ o.
                o >>= (λ r. some (r.0, r.1 ++ (Effect.invoke ctx.caller DseResult.res_4xx ∷ []))))
              (released ∙ got)),
        shorter,
        only_one (DynArray.remove p1.available_cpus ctx.cpu).1.items
            (length-perm (first_removed p1.available_cpus ctx.cpu [] only) ∙ ap length only),
      )
