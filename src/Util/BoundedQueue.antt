-- ===== src/Util/BoundedQueue.antt =====
-- include/util/bounded_queue.h: a ring buffer of pointers that can be closed for pushes.
-- Counts and indices stay below the capacity, an `int`, so they are plain numbers.
pub mod Refine
use distributed_search_engin.Base.{
  ℕ, zero, suc, ◌+◌, ◌-◌, ◌%◌, Bool, true, false, ◌||◌, Option, none, some, List, ◌==◌, leb,
  if◌then◌else◌, get_or, set, replicate,
}

-- `BoundedQueue`; a slot is `none` for the null pointer that `calloc` leaves in it.
pub record BoundedQueue (A : Type 0) : Type 0 where
  pub buf : List (Option A)
  pub head : ℕ
  pub tail : ℕ
  pub count : ℕ
  pub capacity : ℕ
  pub finalized : Bool

module _ {A : Type 0} where
  -- `bq_init`
  unfoldable pub init : ℕ → BoundedQueue A
  init capacity = record {
    buf = replicate capacity none;
    head = 0;
    tail = 0;
    count = 0;
    capacity = capacity;
    finalized = false;
  }

  -- `bq_empty`
  abbrev pub empty : BoundedQueue A → Bool
  empty q = q.count == 0

  -- `bq_full`
  abbrev pub full : BoundedQueue A → Bool
  full q = leb q.capacity q.count

  -- `bq_size`
  abbrev pub size : BoundedQueue A → ℕ
  size q = q.count

  -- `bq_push`
  unfoldable pub push : BoundedQueue A → A → Bool × BoundedQueue A
  push q item = if q.finalized || leb q.capacity q.count then (false, q) else (
    true,
    record q {
      buf = set q.buf q.tail (some item);
      tail = (q.tail + 1) % q.capacity;
      count = q.count + 1;
    },
  )

  -- `bq_pop`
  unfoldable pub pop : BoundedQueue A → Option A × BoundedQueue A
  pop q = if q.count == 0 then (none, q) else (
    get_or q.buf q.head none,
    record q { head = (q.head + 1) % q.capacity; count = q.count - 1 },
  )

  -- `bq_finalize`
  unfoldable pub finalize : BoundedQueue A → BoundedQueue A
  finalize q = record q { finalized = true }

  -- the loop of `bq_foreach`: `rounds` items are left, from the slot `idx` on
  unfoldable pub foreach_loop :
      {S : Type 0} → (Option A → S → S) → List (Option A) → ℕ → ℕ → ℕ → S → S
  foreach_loop fn buf capacity zero idx s = s
  foreach_loop fn buf capacity (suc rounds) idx s =
      foreach_loop fn buf capacity rounds ((idx + 1) % capacity) (fn (get_or buf idx none) s)

  -- `bq_foreach`, with what `userdata` points to as the state
  unfoldable pub foreach : {S : Type 0} → BoundedQueue A → (Option A → S → S) → S → S
  unfolding foreach_loop
  foreach q fn s = foreach_loop fn q.buf q.capacity q.count q.head s
