-- ===== src/Logical/Worker/DiskTasks.antt =====
-- What a worker does with a task on its disk.
use distributed_search_engin.Base.{
  ℕ, ◌≡◌, refl, inl, inr, Option, none, some, List, [], ◌∷◌, Bool-cases, Option-cases,
}
use distributed_search_engin.Double.{Double}
use distributed_search_engin.Types.{DseResult, DiskOp}
use distributed_search_engin.Physical.Disk
use distributed_search_engin.Physical.Ram
use distributed_search_engin.Logical.Worker.{
  Worker, TaskEffect, Wrap, Last, last, reserve_disk, disk_inner_launch,
}

module _ {K : Type 0} where
  -- the continuation of a task, before others
  abbrev pub asked : Option K → List K → List K
  asked none ks = ks
  asked (some k) ks = k ∷ ks

  abbrev pub asked_last : Last K → List K → List K
  asked_last (Last.reserve_compute_phase1_done cont) ks = asked cont ks
  asked_last (Last.reserve_disk_done cont) ks = asked cont ks

  abbrev pub asked_wrap : Option (Wrap K) → List K → List K
  asked_wrap none ks = ks
  asked_wrap (some wrap) ks = asked_last wrap.caller ks

module _ {F K : Type 0} where
  -- the continuations of the tasks that wait in some effects, or are answered in them
  abbrev pub continuations : List (TaskEffect F K) → List K
  continuations [] = []
  continuations (TaskEffect.invoke cont r ∷ es) = asked cont (continuations es)
  continuations (TaskEffect.cpu_done_after delay ctx ∷ es) =
      asked_wrap ctx.caller (continuations es)
  continuations (TaskEffect.disk_done_after delay ctx ∷ es) =
      asked_wrap ctx.caller (continuations es)
  continuations (TaskEffect.pool_does e ∷ es) = continuations es

module _ {F K : Type 0} ⦃d : Double F⦄ where
  -- what the counters of a worker and its processors are, and that they stay
  abbrev pub SameCounts : Worker F K → Worker F K → Type 0
  SameCounts w w' =
      (w'.results_4xx ≡ w.results_4xx)
      × (w'.results_5xx ≡ w.results_5xx)
      × (w'.total_requests ≡ w.total_requests)
      × (w'.queue_length ≡ w.queue_length)
      × (w'.cpu_pool ≡ w.cpu_pool)

  launch_total :
      (now : F) (w : Worker F K) (op : DiskOp) (bytes : F) (id : ℕ) (cont : Option K)
      → (w' : Worker F K) × (effects : List (TaskEffect F K)) × (disk_inner_launch now w op bytes
            (record { reservation_id = id; caller = Last.reserve_disk_done cont })
          ≡ some (w', effects))
        × SameCounts w w'
        × (continuations effects ≡ asked cont [])
  unfolding disk_inner_launch Disk.reserve_read Disk.reserve_write Disk.reserve_op
  launch_total now w DiskOp.read bytes id cont = (_, _, refl, (refl, refl, refl, refl, refl), refl)
  launch_total now w DiskOp.write bytes id cont = (_, _, refl, (refl, refl, refl, refl, refl), refl)

  -- A request for the disk of a worker always returns, leaves what the worker counts, and will answer
  -- its caller once.
  pub reserve_disk_total :
      (now : F) (w : Worker F K) (op : DiskOp) (bytes : F) (cont : Option K)
      → (w' : Worker F K) × (effects : List (TaskEffect F K)) × (reserve_disk now w op bytes cont
          ≡ some (w', effects))
        × SameCounts w w'
        × (continuations effects ≡ asked cont [])
  unfolding reserve_disk last
  reserve_disk_total now w op bytes cont = elim (Bool-cases (d.lt (Ram.available w.ram) bytes)) [
    | inl short ↦ (
      w,
      TaskEffect.invoke cont DseResult.res_5xx ∷ [],
      rw short refl,
      (refl, refl, refl, refl, refl),
      refl,
    )
    | inr room ↦ elim (Option-cases (Ram.reserve_pending now w.ram bytes)) [
      | inl none_left ↦
          let refused_it = last (Last.reserve_disk_done cont) DseResult.res_5xx w in
          (
            refused_it.0,
            refused_it.1,
            rw (room, none_left) refl,
            (refl, refl, refl, refl, refl),
            refl,
          )
      | inr (got, granted) ↦
          let (w', effects, launched, same, once) =
            launch_total now (record w { ram = got.1 }) op bytes got.0 cont in
          (w', effects, rw (room, granted) launched, same, once)
    ]
  ]
