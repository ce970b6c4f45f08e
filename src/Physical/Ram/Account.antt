-- ===== src/Physical/Ram/Account.antt =====
-- The memory account: what is in use is the sum of the reservations, and never more than there is.
use mathlib.Core.HLevel.{¬_prop}
use mathlib.Core.Logic.{∥∥₁_elim}
use mathlib.Core.List.{Mem, mem-cons, Pairwise, Pairwise-cons, Permᴰ}
use mathlib.Core.List.Perm
use mathlib.Core.Logic.Or
use native.Mathlib.Bridge.{le_prop}
use native.Mathlib.Nat.{ℕ_set, zero-add}
use distributed_search_engin.Base.{
  ℕ, zero, suc, ◌+◌, ◌-◌, ◌^◌, ◌≤◌, ◌<◌, ◌≡◌, ◌≢◌, refl, sym, ap, ap₂, ◌∙◌, inl, inr, false, none,
  some, List, [], ◌∷◌, Perm, ltb, ltb→le, lt→ltb, get_elem?, get_or, set, take, length, Bool-cases,
  concat-perm, fill-perm, get_elem?-get_or, get_or-mem, get_elem?-some, All, All-append, All-set,
  All-take, All-get_or, take-set, arith,
}
use distributed_search_engin.Double.{Double, HasExact, IsWhole}
use distributed_search_engin.Physical.Ram.{
  RamReservation, Ram, available, add_reservation, find, swap_out, remove_reservation_by_id,
  reserve_pending,
}

module _ {F : Type 0} ⦃d : Double F⦄ where
  -- The bytes reserved, as a whole number.
  abbrev pub total : List (RamReservation F) → ℕ
  total [] = 0
  total (x ∷ xs) = d.to_ℕ x.num_bytes + total xs

  totalᴰ : {xs ys : List (RamReservation F)} → Permᴰ xs ys → total xs ≡ total ys
  totalᴰ Permᴰ.nil = refl
  totalᴰ (Permᴰ.cons e p) = omega (arith, ap (λ x. d.to_ℕ x.num_bytes) e, totalᴰ p)
  totalᴰ (Permᴰ.swap e f) =
      omega (arith, ap (λ x. d.to_ℕ x.num_bytes) e, ap (λ x. d.to_ℕ x.num_bytes) f)
  totalᴰ (Permᴰ.trans p q) = totalᴰ p ∙ totalᴰ q

  pub total-perm : {xs ys : List (RamReservation F)} → Perm xs ys → total xs ≡ total ys
  total-perm p = ∥∥₁_elim p (ℕ_set _ _) totalᴰ

  -- All sizes are whole numbers below 2^53, the memory in use is their sum, which is within the
  -- capacity, and no two reservations have one id.
  pub record IsValid (r : Ram F) : Type 0 where
    pub capacity_whole : IsWhole d r.capacity
    pub sizes : All (λ x. IsWhole d x.num_bytes) r.ongoing
    pub accounted : r.utilized ≡ d.of_ℕ (total r.ongoing)
    pub within : total r.ongoing ≤ d.to_ℕ r.capacity
    pub given : (x : RamReservation F) → Mem x r.ongoing → x.id < r.next_reservation_id
    pub distinct : Pairwise (λ x y. x.id ≢ y.id) r.ongoing

  abbrev pub fresh : Ram F → F → F → RamReservation F
  fresh r now num_bytes = record {
    id = r.next_reservation_id;
    start_time = now;
    num_bytes = num_bytes;
  }

  module _ (e : HasExact d) where
    -- The test of `ram_reserve_pending` compares the sizes as whole numbers.
    refused_iff :
        (r : Ram F) (num_bytes : F)
        → IsValid r
        → IsWhole d num_bytes
        → d.lt (available r) num_bytes
          ≡ ltb (d.to_ℕ r.capacity - total r.ongoing) (d.to_ℕ num_bytes)
    refused_iff r num_bytes v w =
        let cap_small = v.capacity_whole.small in
        let left : available r ≡ d.of_ℕ (d.to_ℕ r.capacity - total r.ongoing) =
          ap₂ d.sub (v.capacity_whole.whole ∙ ap d.of_ℕ (omega (arith, v.within))) v.accounted
          ∙ e.sub_exact (d.to_ℕ r.capacity - total r.ongoing) (total r.ongoing)
              (omega (arith, v.within)) in
        ap₂ d.lt left w.whole
        ∙ e.lt_exact (d.to_ℕ r.capacity - total r.ongoing) (d.to_ℕ num_bytes) (omega arith) w.small

    -- A request for more than the capacity less what is reserved is refused.
    pub reserve_refused :
        (now : F) (r : Ram F) (num_bytes : F)
        → IsValid r
        → IsWhole d num_bytes
        → d.to_ℕ r.capacity < total r.ongoing + d.to_ℕ num_bytes
        → reserve_pending now r num_bytes ≡ none
    unfolding reserve_pending
    reserve_refused now r num_bytes v w h = rw (
      refused_iff r num_bytes v w,
      lt→ltb (d.to_ℕ r.capacity - total r.ongoing) (d.to_ℕ num_bytes) (omega (arith, v.within)),
    )

    -- The test of a request that is granted.
    pub granted_test :
        (r : Ram F) (num_bytes : F)
        → IsValid r
        → IsWhole d num_bytes
        → total r.ongoing + d.to_ℕ num_bytes ≤ d.to_ℕ r.capacity
        → d.lt (available r) num_bytes ≡ false
    granted_test r num_bytes v w h = refused_iff r num_bytes v w ∙ ground (arith, v.within)

    -- Any other request is granted: the account stays valid, with exactly one reservation more, of
    -- the bytes asked for from now on, under an id that no other has.
    pub reserve_granted :
        (now : F) (r : Ram F) (num_bytes : F)
        → IsValid r
        → IsWhole d num_bytes
        → total r.ongoing + d.to_ℕ num_bytes ≤ d.to_ℕ r.capacity
        → r.next_reservation_id + 1 < 2 ^ 64
        → (r' : Ram F) × (reserve_pending now r num_bytes ≡ some (r.next_reservation_id, r'))
          × IsValid r'
          × (r'.capacity ≡ r.capacity)
          × Perm r'.ongoing (fresh r now num_bytes ∷ r.ongoing)
    unfolding reserve_pending
    reserve_granted now r num_bytes v w h small =
        let new = fresh r now num_bytes in
        let perm = concat-perm r.ongoing new in
        let granted : ltb (d.to_ℕ r.capacity - total r.ongoing) (d.to_ℕ num_bytes) ≡ false =
          ground arith in
        (
          (add_reservation (record r { utilized = d.add r.utilized num_bytes }) now num_bytes).1,
          rw (refused_iff r num_bytes v w, granted),
          record {
            capacity_whole = v.capacity_whole;
            sizes = All-append _ r.ongoing (new ∷ []) v.sizes (w, tt);
            accounted =
                ap₂ d.add v.accounted w.whole
                ∙ e.add_exact (total r.ongoing) (d.to_ℕ num_bytes)
                    (omega (arith, v.capacity_whole.small))
                ∙ ap d.of_ℕ (omega (arith, total-perm perm));
            within = omega (arith, total-perm perm);
            given = λ x m.
                Or.elim le_prop (mem-cons.0 ((Perm.mem_iff perm).0 m))
                  (λ same. rw same (omega arith)) (λ old. omega (arith, v.given x old));
            distinct =
                Perm.pairwise (λ a b. ¬_prop) (λ a b ne eq. ne (sym eq)) (Perm.symm perm)
                  (Pairwise.cons (λ y old eq. absurd (omega (arith, v.given y old))) v.distinct);
          },
          refl,
          perm,
        )

    abbrev blank : RamReservation F
    blank = record { id = 0; start_time = d.of_ℕ 0; num_bytes = d.of_ℕ 0 }

    swap_out-eq :
        (xs : List (RamReservation F)) (i : ℕ)
        → i < length xs
        → swap_out xs i ≡ take (length xs - 1) (set xs i (get_or xs (length xs - 1) blank))
    unfolding swap_out
    swap_out-eq xs i h =
        let n = length xs - 1 in
        let at = get_elem?-get_or xs n blank (omega arith) in
        elim (Bool-cases (ltb i n)) [
          | inl inner ↦ rw (at, swap_out, inner)
          | inr last ↦
              let e : i ≡ n = omega (arith, ltb→le i n last) in
              rw (at, swap_out, last, e) (sym (take-set n xs (get_or xs n blank)))
        ]

    swap_out-perm :
        (xs : List (RamReservation F)) (i : ℕ)
        → i < length xs
        → Perm (get_or xs i blank ∷ swap_out xs i) xs
    swap_out-perm xs i h =
        rw (swap_out-eq xs i h) (fill-perm (length xs - 1) xs i blank (omega arith) h)

    find-at :
        (xs : List (RamReservation F)) (id i j : ℕ)
        → j < length xs
        → (get_or xs j blank).id ≡ id
        → Pairwise (λ x y. x.id ≢ y.id) xs
        → find xs id i ≡ some (i + j, get_or xs j blank)
    unfolding find
    find-at [] id i j h eq p = absurd (omega arith)
    find-at (x ∷ xs) id i zero h eq p = ground arith
    find-at (x ∷ xs) id i (suc j) h eq p =
        let ne = (Pairwise-cons.0 p).0 (get_or xs j blank) (get_or-mem xs j blank (omega arith)) in
        let later = find-at xs id (i + 1) j (omega arith) eq (Pairwise-cons.0 p).1 in ground arith

    -- What is left when the reservation at `j` goes.
    abbrev removed : F → Ram F → ℕ → Ram F
    removed now r j =
        let x = get_or r.ongoing j blank in
        record r {
          integrated_utilization =
              d.add r.integrated_utilization
                (d.mul x.num_bytes (d.sub now (d.fmax r.base.last_profiled x.start_time)));
          utilized = d.sub r.utilized x.num_bytes;
          ongoing = swap_out r.ongoing j;
        }

    remove-eq :
        (now : F) (r : Ram F) (j : ℕ)
        → IsValid r
        → j < length r.ongoing
        → remove_reservation_by_id now r (get_or r.ongoing j blank).id ≡ removed now r j
    unfolding remove_reservation_by_id
    remove-eq now r j v h =
        rw (find-at r.ongoing _ 0 j h refl v.distinct, remove_reservation_by_id, zero-add)

    removed-utilized :
        (now : F) (r : Ram F) (j : ℕ)
        → IsValid r
        → j < length r.ongoing
        → (removed now r j).utilized ≡ d.of_ℕ (total (swap_out r.ongoing j))
    removed-utilized now r j v h =
        let size = All-get_or _ r.ongoing j blank v.sizes h in
        let sum = total-perm (swap_out-perm r.ongoing j h) in
        ap₂ d.sub (v.accounted ∙ ap d.of_ℕ (omega arith)) size.whole
        ∙ e.sub_exact (total (swap_out r.ongoing j)) (d.to_ℕ (get_or r.ongoing j blank).num_bytes)
            (omega (arith, v.within, v.capacity_whole.small))

    removed-IsValid :
        (now : F) (r : Ram F) (j : ℕ) → IsValid r → j < length r.ongoing → IsValid (removed now r j)
    removed-IsValid now r j v h =
        let perm = swap_out-perm r.ongoing j h in
        let last_in : length r.ongoing - 1 < length r.ongoing = omega arith in
        record {
          capacity_whole = v.capacity_whole;
          sizes = rw (swap_out-eq r.ongoing j h) (
              All-take _ (length r.ongoing - 1) _
                (All-set _ r.ongoing j _ v.sizes (All-get_or _ r.ongoing _ blank v.sizes last_in)));
          accounted = removed-utilized now r j v h;
          within = omega (arith, total-perm perm, v.within);
          given = λ x m. v.given x ((Perm.mem_iff perm).0 (mem-cons.1 (Or.inr m)));
          distinct =
              (Pairwise-cons.0 (
                Perm.pairwise (λ a b. ¬_prop) (λ a b ne eq. ne (sym eq)) (Perm.symm perm)
                  v.distinct)).1;
        }

    -- Removing the reservation at the index `j` by its id: exactly that reservation goes, the account
    -- stays valid, its bytes are available again, and its bytes times the time since it began, or
    -- since the last profiling if that is later, are added to the integral.
    pub remove_correct :
        (now : F) (r : Ram F) (j : ℕ) {x : RamReservation F}
        → IsValid r
        → get_elem? r.ongoing j ≡ some x
        → let r' = remove_reservation_by_id now r x.id in
          IsValid r'
          × Perm (x ∷ r'.ongoing) r.ongoing
          × (d.to_ℕ r'.utilized + d.to_ℕ x.num_bytes ≡ d.to_ℕ r.utilized)
          × (r'.integrated_utilization
              ≡ d.add r.integrated_utilization
                  (d.mul x.num_bytes (d.sub now (d.fmax r.base.last_profiled x.start_time))))
    remove_correct now r j {x} v at =
        let (h, same) = get_elem?-some r.ongoing j blank at in
        let sum = total-perm (swap_out-perm r.ongoing j h) in
        let small = v.capacity_whole.small in
        let before : d.to_ℕ r.utilized ≡ total r.ongoing =
          ap d.to_ℕ v.accounted ∙ e.to-of (total r.ongoing) (omega (arith, v.within)) in
        let after : d.to_ℕ (removed now r j).utilized ≡ total (swap_out r.ongoing j) =
          ap d.to_ℕ (removed-utilized now r j v h)
          ∙ e.to-of (total (swap_out r.ongoing j)) (omega (arith, v.within)) in
        rw (← same, remove-eq now r j v h)
          (removed-IsValid now r j v h, swap_out-perm r.ongoing j h, omega arith, refl)
