-- ===== src/Logical/Shard/Replicas.antt =====
-- The replica set of a shard.
use distributed_search_engin.Base.{
  ℕ, zero, suc, ◌+◌, ◌*◌, ◌≤◌, ◌<◌, ◌≡◌, refl, ap, ◌∙◌, inl, inr, true, none, some, List, [], ◌∷◌,
  ◌++◌, map, ◌==◌, leb, take, drop, length, Bool-cases, ==_iff, arith,
}
use distributed_search_engin.Double.{Double}
use distributed_search_engin.Actor.{MetricKey, ProfileKv}
use distributed_search_engin.Logical.Shard.{
  Replica, Shard, worker_index_loop, worker_index, modify, log, fresh_row, reassign, log_request,
  log_compute, log_size, profile_loop, run_profiler,
}

module _ {F : Type 0} where
  -- What `modify` does at the index that the scan finds.
  modify_at :
      (xs : List (Replica F)) (w i : ℕ) (f : Replica F → Replica F) {j : ℕ}
      → worker_index_loop xs w i ≡ some j
      → (front back : List (Replica F)) × (x : Replica F) × (j ≡ i + length front)
        × (x.worker ≡ w)
        × (xs ≡ front ++ (x ∷ back))
        × (modify xs (length front) f ≡ front ++ (f x ∷ back))
        × (worker_index_loop front w i ≡ none)
  unfolding worker_index_loop modify
  modify_at [] w i f e = cc
  modify_at (x ∷ xs) w i f {j} e = elim (Bool-cases (x.worker == w)) [
    | inl here ↦ ([], xs, x, ground arith, (==_iff x.worker w).0 here, refl, refl, refl)
    | inr there ↦
        let (front, back, y, at, own, split, changed, first) =
          modify_at xs w (i + 1) f (rw there at e) in
        (
          x ∷ front,
          back,
          y,
          omega (arith, at),
          own,
          ap (λ l. x ∷ l) split,
          ap (λ l. x ∷ l) changed,
          rw there first,
        )
  ]

  found_at :
      (front back : List (Replica F)) (x : Replica F) (w i : ℕ)
      → worker_index_loop front w i ≡ none
      → x.worker ≡ w
      → worker_index_loop (front ++ (x ∷ back)) w i ≡ some (i + length front)
  unfolding worker_index_loop
  found_at [] back x w i none_before own = rw ((==_iff x.worker w).1 own) (ap some (omega arith))
  found_at (y ∷ front) back x w i none_before own = elim (Bool-cases (y.worker == w)) [
    | inl here ↦ absurd (ground arith)
    | inr there ↦
        rw there
          (found_at front back x w (i + 1) (rw there at none_before) own ∙ ap some (omega arith))
  ]

  modify-append :
      (front back : List (Replica F)) (x : Replica F) (f : Replica F → Replica F)
      → modify (front ++ (x ∷ back)) (length front) f ≡ front ++ (f x ∷ back)
  unfolding modify
  modify-append [] back x f = refl
  modify-append (y ∷ front) back x f = ap (λ l. y ∷ l) (modify-append front back x f)

  log_at :
      (s : Shard F) (front back : List (Replica F)) (x : Replica F) (w : ℕ)
      (f : Replica F → Replica F)
      → s.replicas ≡ front ++ (x ∷ back)
      → worker_index_loop front w 0 ≡ none
      → x.worker ≡ w
      → (log s w f).replicas ≡ front ++ (f x ∷ back)
  unfolding log worker_index
  log_at s front back x w f split first own =
      let found : worker_index s w ≡ some (length front) =
        ap (λ l. worker_index_loop l w 0) split
        ∙ found_at front back x w 0 first own
        ∙ ap some (omega arith) in
      rw (log, found, split) (modify-append front back x f)

module _ {F : Type 0} ⦃d : Double F⦄ where
  -- The three log functions add to the first row that the worker has, each to its own entry, and all
  -- other rows stay.
  pub logs_add :
      (s : Shard F) (w : ℕ) (cycles sz : F) {i : ℕ}
      → worker_index s w ≡ some i
      → (front back : List (Replica F)) × (x : Replica F) × (x.worker ≡ w)
        × (s.replicas ≡ front ++ (x ∷ back))
        × (worker_index_loop front w 0 ≡ none)
        × ((log_size (log_compute (log_request s w) w cycles) w sz).replicas
            ≡ front
              ++ (record x {
                num_requests = d.add x.num_requests (d.of_ℕ 1);
                cpu_cycles = d.add x.cpu_cycles cycles;
                size = d.add x.size sz;
              }
                  ∷ back))
  unfolding log_request log_compute log_size worker_index
  logs_add s w cycles sz {i} e =
      let (front, back, x, at, own, split, changed, first) = modify_at s.replicas w 0 (λ y. y) e in
      let f = λ (y : Replica F). record y { num_requests = d.add y.num_requests (d.of_ℕ 1) } in
      let g = λ (y : Replica F). record y { cpu_cycles = d.add y.cpu_cycles cycles } in
      let k = λ (y : Replica F). record y { size = d.add y.size sz } in
      (
        front,
        back,
        x,
        own,
        split,
        first,
        log_at (log (log s w f) w g) front back (g (f x)) w k
            (log_at (log s w f) front back (f x) w g (log_at s front back x w f split first own)
              first own)
            first own,
      )

  -- A reassignment replaces the first row of the old worker by a row of the new one, with all
  -- metrics 0, and all other rows stay.
  pub reassign_correct :
      (s : Shard F) (old new : ℕ) {i : ℕ}
      → worker_index s old ≡ some i
      → (s' : Shard F) × (front back : List (Replica F)) × (x : Replica F) × (reassign s old new
          ≡ some s')
        × (x.worker ≡ old)
        × (s.replicas ≡ front ++ (x ∷ back))
        × (s'.replicas ≡ front ++ (fresh_row new ∷ back))
        × (worker_index_loop front old 0 ≡ none)
  unfolding reassign worker_index
  reassign_correct s old new {i} e =
      let (front, back, x, at, own, split, changed, first) =
        modify_at s.replicas old 0 (λ y. fresh_row new) e in
      (
        record s { replicas = modify s.replicas i (λ y. fresh_row new) },
        front,
        back,
        x,
        rw (reassign, e),
        own,
        split,
        ap (λ k. modify s.replicas k (λ y. fresh_row new)) (omega (arith, at)) ∙ changed,
        first,
      )

  -- the three metrics of each replica: what it has counted, under the number of its worker
  abbrev pub metrics : (ℕ → ℕ) → List (Replica F) → List (ProfileKv F)
  metrics id_of [] = []
  metrics id_of (x ∷ xs) =
      record { key = MetricKey.cpu_cycles (id_of x.worker); value = x.cpu_cycles }
      ∷ record { key = MetricKey.num_requests (id_of x.worker); value = x.num_requests }
      ∷ record { key = MetricKey.size (id_of x.worker); value = x.size }
      ∷ metrics id_of xs

  -- a replica of a worker without any counts
  abbrev pub zeroed : Replica F → Replica F
  zeroed x = record {
    worker = x.worker;
    cpu_cycles = d.of_ℕ 0;
    num_requests = d.of_ℕ 0;
    size = d.of_ℕ 0;
  }

  profile_loop_split :
      (id_of : ℕ → ℕ) (xs : List (Replica F)) (count k : ℕ)
      → count + 3 * k ≤ 32
      → 32 < count + 3 * k + 3
      → ((profile_loop id_of xs count).0 ≡ metrics id_of (take k xs))
        × ((profile_loop id_of xs count).1 ≡ map zeroed (take k xs) ++ drop k xs)
  unfolding profile_loop
  profile_loop_split id_of [] count zero p q = (refl, refl)
  profile_loop_split id_of [] count (suc k) p q = (refl, refl)
  profile_loop_split id_of (x ∷ xs) count zero p q = ground arith
  profile_loop_split id_of (x ∷ xs) count (suc k) p q =
      let (l, r) = profile_loop_split id_of xs (count + 3) k (omega arith) (omega arith) in
      let fits : leb (count + 3) 32 ≡ true = ground arith in
      rw fits (ap (λ t. metrics id_of (x ∷ []) ++ t) l, ap (λ t. zeroed x ∷ t) r)

  -- The profiler reports the first ten replicas, the three metrics of each in their order, and resets
  -- the metrics of these to 0. The other replicas are neither reported nor reset.
  pub run_profiler_ten :
      (id_of : ℕ → ℕ) (s : Shard F)
      → ((run_profiler id_of s).0 ≡ metrics id_of (take 10 s.replicas))
        × ((run_profiler id_of s).1.replicas
            ≡ map zeroed (take 10 s.replicas) ++ drop 10 s.replicas)
  unfolding run_profiler
  run_profiler_ten id_of s = profile_loop_split id_of s.replicas 0 10 (omega arith) (omega arith)
