-- ===== src/Logical/Worker/Tasks.antt =====
-- What a worker does with a task, from the request to the answer.
use distributed_search_engin.Base.{
  ℕ, ◌+◌, ◌^◌, ◌≤◌, ◌<◌, ◌≡◌, refl, inl, inr, ◌⊎◌, true, false, ◌||◌, Option, some, List, [], ◌∷◌,
  leb, get_elem?, set, ◌++◌, Perm, lt→leb, arith,
}
use distributed_search_engin.Double.{Double, HasExact, HasSign, IsWhole}
use distributed_search_engin.Types.{DseResult}
use distributed_search_engin.Physical.Ram
use distributed_search_engin.Physical.Ram.Account.{total, fresh, reserve_granted, granted_test}
use distributed_search_engin.Physical.Cpu.{Cpu, is_idle}
use distributed_search_engin.Physical.CpuPool.Handover.{pool_reserve_at_once}
use distributed_search_engin.Physical.Ram.{RamReservation}
use distributed_search_engin.Physical.Ram.Account.{remove_correct}
use distributed_search_engin.Logical.Worker.{ram_wrap_done, last, response, cpu_reserve_done}
use distributed_search_engin.Physical.CpuPool
use distributed_search_engin.Util.DynArray
use distributed_search_engin.Base.{◌-◌}
use distributed_search_engin.Logical.Worker.{
  Worker, Wrap, Last, TaskEffect, settle, cpu_inner_launch, reserve_compute,
}

module _ {F K : Type 0} ⦃d : Double F⦄ where
  -- A task for which the queue of the worker has no place, or its memory no room, is answered with
  -- DSE_5XX at once, and only the number of requests shows it.
  pub reserve_compute_rejects :
      (now : F) (limit : ℕ) (w : Worker F K) (cycles bytes : F) (cont : Option K)
      → (limit ≤ w.queue_length) ⊎ (d.lt (Ram.available w.ram) bytes ≡ true)
      → reserve_compute now limit w cycles bytes cont
        ≡ some (
          record w { request_count = w.request_count + 1 },
          TaskEffect.invoke cont DseResult.res_5xx ∷ [],
        )
  unfolding reserve_compute
  reserve_compute_rejects now limit w cycles bytes cont (inl h) =
      let full : leb limit w.queue_length ≡ true = ground arith in rw full refl
  reserve_compute_rejects now limit w cycles bytes cont (inr h) =
      let full : (leb limit w.queue_length || d.lt (Ram.available w.ram) bytes) ≡ true =
        ground arith in
      rw full refl

  -- A task for which there is a place, room and an idle processor starts on it: the memory has one
  -- reservation more, of its bytes from now on, the queue is longer by one, and the completion is
  -- scheduled after the cycles divided by the frequency, which will remove that reservation and
  -- answer the caller.
  pub reserve_compute_starts :
      HasExact d
      → (now : F) (limit : ℕ) (w : Worker F K) (cycles bytes : F) (cont : Option K) (cpu : ℕ)
        (rest : List ℕ) (c : Cpu F)
      → w.queue_length < limit
      → Ram.Account.IsValid w.ram
      → IsWhole d bytes
      → total w.ram.ongoing + d.to_ℕ bytes ≤ d.to_ℕ w.ram.capacity
      → w.ram.next_reservation_id + 1 < 2 ^ 64
      → w.cpu_pool.available_cpus.items ≡ cpu ∷ rest
      → get_elem? w.cpu_pool.heap cpu ≡ some c
      → c.enabled ≡ true
      → is_idle c ≡ true
      → (w' : Worker F K) × (reserve_compute now limit w cycles bytes cont
          ≡ some (
            w',
            TaskEffect.cpu_done_after (d.div cycles c.freq) (record {
              cpu = cpu;
              cycles = cycles;
              duration = d.div cycles c.freq;
              caller = some (record {
                reservation_id = w.ram.next_reservation_id;
                caller = Last.reserve_compute_phase1_done cont;
              });
            })
                ∷ [],
          ))
        × Ram.Account.IsValid w'.ram
        × Perm w'.ram.ongoing (fresh w.ram now bytes ∷ w.ram.ongoing)
        × (w'.queue_length ≡ w.queue_length + 1)
        × Perm (cpu ∷ w'.cpu_pool.available_cpus.items) w.cpu_pool.available_cpus.items
  unfolding reserve_compute cpu_inner_launch settle
  reserve_compute_starts e now limit w cycles bytes cont cpu rest c place v whole room small items
        at on idle =
      let open_ : leb limit w.queue_length ≡ false = lt→leb limit w.queue_length place in
      let roomy = granted_test e w.ram bytes v whole room in
      let (r', granted, valid, cap, perm) = reserve_granted e now w.ram bytes v whole room small in
      let wrap : Wrap K = record {
        reservation_id = w.ram.next_reservation_id;
        caller = Last.reserve_compute_phase1_done cont;
      } in
      let (p', reserved, taken, heap, queue) =
        pool_reserve_at_once now w.cpu_pool cycles (some wrap) cpu rest c items at on idle in
      (
        record w {
          request_count = w.request_count + 1;
          queue_length = w.queue_length + 1;
          ram = r';
          cpu_pool = p';
        },
        rw (open_, roomy, granted) (rw reserved refl),
        valid,
        perm,
        refl,
        taken,
      )

  -- `ram_wrap_done` on a task that held memory, with whatever result
  ram_wrap_done_eq :
      HasExact d
      → (now : F) (w : Worker F K) (cont : Option K) (r : DseResult) (j : ℕ) {x : RamReservation F}
      → Ram.Account.IsValid w.ram
      → get_elem? w.ram.ongoing j ≡ some x
      → let ended =
          ram_wrap_done now
            (record { reservation_id = x.id; caller = Last.reserve_compute_phase1_done cont })
            r
            w in
        Ram.Account.IsValid ended.0.ram
        × Perm (x ∷ ended.0.ram.ongoing) w.ram.ongoing
        × (d.to_ℕ ended.0.ram.utilized + d.to_ℕ x.num_bytes ≡ d.to_ℕ w.ram.utilized)
        × (ended.0 ≡ record w { ram = ended.0.ram; queue_length = w.queue_length - 1 })
        × (ended.1 ≡ TaskEffect.invoke cont (response r) ∷ [])
  unfolding ram_wrap_done last
  ram_wrap_done_eq e now w cont r j v at =
      let (valid, perm, freed, integrated) = remove_correct e now w.ram j v at in
      (valid, perm, freed, refl, refl)

  -- A computation that held memory is done on an enabled processor, while no other task waits: exactly
  -- its reservation is gone from the memory, which stays valid, its bytes are free again, the queue is
  -- shorter by one, its processor is idle and available again, the other processors, the waiting tasks
  -- and the rest of the worker stay, and all that happens outside is that the caller is told DSE_4XX.
  pub cpu_reserve_done_ends :
      HasExact d
      → HasSign d
      → (now : F) (w : Worker F K) (cpu : ℕ) (cycles duration : F) (cont : Option K) (j : ℕ)
        {x : RamReservation F} {c : Cpu F}
      → Ram.Account.IsValid w.ram
      → get_elem? w.ram.ongoing j ≡ some x
      → get_elem? w.cpu_pool.heap cpu ≡ some c
      → c.enabled ≡ true
      → w.cpu_pool.wait_queue.count ≡ 0
      → (w' : Worker F K) × (c' : Cpu F) × (cpu_reserve_done now
            (record {
              cpu = cpu;
              cycles = cycles;
              duration = duration;
              caller = some (record {
                reservation_id = x.id;
                caller = Last.reserve_compute_phase1_done cont;
              });
            })
            w
          ≡ some (w', TaskEffect.invoke cont DseResult.res_4xx ∷ []))
        × Ram.Account.IsValid w'.ram
        × Perm (x ∷ w'.ram.ongoing) w.ram.ongoing
        × (d.to_ℕ w'.ram.utilized + d.to_ℕ x.num_bytes ≡ d.to_ℕ w.ram.utilized)
        × (w'
            ≡ record w { queue_length = w.queue_length - 1; ram = w'.ram; cpu_pool = w'.cpu_pool })
        × (w'.cpu_pool.available_cpus.items ≡ w.cpu_pool.available_cpus.items ++ (cpu ∷ []))
        × (w'.cpu_pool.heap ≡ set w.cpu_pool.heap cpu c')
        × (is_idle c' ≡ true)
        × (w'.cpu_pool.wait_queue ≡ w.cpu_pool.wait_queue)
  unfolding cpu_reserve_done settle CpuPool.reserve_done CpuPool.release DynArray.push ram_wrap_done
      last
  cpu_reserve_done_ends e sign now w cpu cycles duration cont j {x} {c} v held at on alone =
      let ctx : CpuPool.ReserveCtx F (Wrap K) = record {
        cpu = cpu;
        cycles = cycles;
        duration = duration;
        caller =
            some (record { reservation_id = x.id; caller = Last.reserve_compute_phase1_done cont });
      } in
      let done : Worker F K = record w { cpu_pool = CpuPool.give_back now ctx w.cpu_pool c } in
      let (valid, perm, freed, same, told) =
        ram_wrap_done_eq e now done cont DseResult.res_4xx j v held in
      (
        record done {
          ram = Ram.remove_reservation_by_id now w.ram x.id;
          queue_length = w.queue_length - 1;
        },
        CpuPool.worked now ctx c,
        rw (at, on, alone) refl,
        valid,
        perm,
        freed,
        refl,
        rw on refl,
        refl,
        sign.minus_one,
        refl,
      )
