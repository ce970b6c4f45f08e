-- ===== src/Physical/Ram.antt =====
-- src/components/physical/ram.c: memory reservations that are held while another operation runs.
-- The list is the slots below `ongoing_count`. `now` is the time of the clock.
pub mod Account
use distributed_search_engin.Base.{
  ℕ, zero, suc, ◌+◌, ◌-◌, ◌*◌, ◌%◌, ◌^◌, Bool, true, false, Option, none, some, List, [], ◌∷◌, ◌++◌,
  ◌==◌, ltb, if◌then◌else◌, get_elem?, set, take, length,
}
use distributed_search_engin.Double.{Double}
use distributed_search_engin.Actor.{Actor, MetricKey, ProfileKv}

-- `RamReservation`
pub record RamReservation (F : Type 0) : Type 0 where
  pub id : ℕ
  pub start_time : F
  pub num_bytes : F

-- `struct RAM`; of its worker only the number is used
pub record Ram (F : Type 0) : Type 0 where
  pub base : Actor F
  pub worker_id : ℕ
  pub capacity : F
  pub utilized : F
  pub integrated_utilization : F
  pub ongoing : List (RamReservation F)
  pub ongoing_capacity : ℕ
  pub next_reservation_id : ℕ

module _ {F : Type 0} ⦃d : Double F⦄ where
  -- `ram_init`, on an actor that `actor_init` has made
  unfoldable pub init : Actor F → ℕ → F → Ram F
  init base worker_id capacity = record {
    base = base;
    worker_id = worker_id;
    capacity = capacity;
    utilized = d.of_ℕ 0;
    integrated_utilization = d.of_ℕ 0;
    ongoing = [];
    ongoing_capacity = 64;
    next_reservation_id = 0;
  }

  -- `ram_available`
  abbrev pub available : Ram F → F
  available r = d.sub r.capacity r.utilized

  -- the sum of the loop in `ram_run_profiler`
  unfoldable pub partial_loop : F → F → List (RamReservation F) → F → F
  partial_loop now last_profiled [] partial = partial
  partial_loop now last_profiled (x ∷ xs) partial =
      partial_loop now last_profiled xs
        (d.add partial (d.mul (d.sub now (d.fmax last_profiled x.start_time)) x.num_bytes))

  -- `ram_run_profiler`
  unfoldable pub run_profiler : F → Ram F → List (ProfileKv F) × Ram F
  unfolding partial_loop
  run_profiler now r =
      let last_profiled = r.base.last_profiled in
      let total_time = d.sub now last_profiled in
      let partial = partial_loop now last_profiled r.ongoing (d.of_ℕ 0) in
      let avg = d.div (d.add r.integrated_utilization partial) total_time in
      if d.le total_time (d.of_ℕ 0) then ([], r) else (
        record { key = MetricKey.utilization_avg r.worker_id; value = avg }
            ∷ record { key = MetricKey.utilization_ratio r.worker_id; value = d.div avg r.capacity }
            ∷ [],
        record r { integrated_utilization = d.of_ℕ 0 },
      )

-- `ram_add_reservation`: the id of the new reservation, a `uint64_t`, and the memory that has it
unfoldable pub add_reservation : {F : Type 0} → Ram F → F → F → ℕ × Ram F
add_reservation r start_time num_bytes =
    let id = r.next_reservation_id in
    (
      id,
      record r {
        ongoing =
            r.ongoing ++ (record { id = id; start_time = start_time; num_bytes = num_bytes } ∷ []);
        ongoing_capacity =
            if length r.ongoing == r.ongoing_capacity
            then r.ongoing_capacity * 2
            else r.ongoing_capacity;
        next_reservation_id = (id + 1) % 2 ^ 64;
      },
    )

-- The loop of `ram_remove_reservation_by_id` up to the reservation: its index and itself.
unfoldable pub find : {F : Type 0} → List (RamReservation F) → ℕ → ℕ → Option (ℕ × RamReservation F)
find [] id i = none
find (x ∷ xs) id i = if x.id == id then some (i, x) else find xs id (i + 1)

-- `ongoing[i] = ongoing[n]` and `ongoing_count--`, where `n` is the last index
unfoldable pub swap_out : {F : Type 0} → List (RamReservation F) → ℕ → List (RamReservation F)
swap_out xs i =
    let n = length xs - 1 in
    elim (get_elem? xs n) [ none ↦ xs | some last ↦ take n (if ltb i n then set xs i last else xs) ]

module _ {F : Type 0} ⦃d : Double F⦄ where
  -- `ram_remove_reservation_by_id`
  unfoldable pub remove_reservation_by_id : F → Ram F → ℕ → Ram F
  unfolding find swap_out
  remove_reservation_by_id now r id = elim (find r.ongoing id 0) [
    | none ↦ r
    | some (i, x) ↦
        let start = d.fmax r.base.last_profiled x.start_time in
        record r {
          integrated_utilization =
              d.add r.integrated_utilization (d.mul x.num_bytes (d.sub now start));
          utilized = d.sub r.utilized x.num_bytes;
          ongoing = swap_out r.ongoing i;
        }
  ]

  -- `ram_reserve_pending`: `none` if the caller is refused with DSE_5XX, else the id that the
  -- completion, `ram_wrap_done`, gives to `ram_remove_reservation_by_id`, and the memory in which the
  -- inner operation is launched
  unfoldable pub reserve_pending : F → Ram F → F → Option (ℕ × Ram F)
  unfolding add_reservation
  reserve_pending now r num_bytes =
      if d.lt (available r) num_bytes
      then none
      else some (add_reservation (record r { utilized = d.add r.utilized num_bytes }) now num_bytes)
