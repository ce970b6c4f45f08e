-- ===== src/Event/Tests.antt =====
-- Runs of the event core and instances of its theorems.
use mathlib.Core.Bool.{Bool-set}
use mathlib.Core.List.{Mem, mem-cons, Pairwise-pair}
use mathlib.Core.Logic.Or
use mathlib.Core.HLevel.{¬_prop}
use native.Mathlib.Bridge.{le_prop}
use distributed_search_engin.Base.{
  ℕ, zero, suc, ◌≤◌, ◌≡◌, ◌⊎◌, refl, true, false, Option, none, some, ◌>>=◌, List, [], ◌∷◌, Perm,
  All-mem, arith,
}
use distributed_search_engin.Double.Sample.{Sample, num, sample, sample_order}
use distributed_search_engin.Types.{DseResult, code}
use distributed_search_engin.Event.Pq
use distributed_search_engin.Event.Pq.{
  PqEntry, PriorityQueue, less, size, peek, push, pop, sift_up, sift_down, smaller_of, exchange,
}
use distributed_search_engin.Event.Pq.Order.{IsEntry, IsEntry-prop, IsHeap}
use distributed_search_engin.Event.Pq.Laws.{push_correct, pop_correct}
use distributed_search_engin.Event.Clock
use distributed_search_engin.Event.Clock.{
  Clock, HasClock, schedule, schedule_delay, stop, going, rounds, run, round, advance,
}
use distributed_search_engin.Event.Clock.Schedule.{schedule_correct, schedule_delay_correct, fifo}
use distributed_search_engin.Event.Clock.Run.{Callbacks, advance-IsValid, rounds_total}
use distributed_search_engin.Event.Gather.{
  Progress, waiting, finished, create, child_done, deliver, max_code, gather_correct,
}

abbrev entry : ℕ → ℕ → ℕ → PqEntry Sample ℕ
entry time seq k = record { time = num time; seq = seq; cont = some k }

abbrev two : PriorityQueue Sample ℕ
two = record { entries = entry 3 2 10 ∷ entry 7 1 11 ∷ []; capacity = 4 }

-- Events leave by time, and by sequence number at one time.
four_pops : Option (List (Option ℕ))
unfolding push pop sift_up sift_down smaller_of exchange less
four_pops = do
  a ← push two (num 7) 3 (some 12)
  b ← push a (num 1) 4 (some 13)
  c ← pop b
  e ← pop c.1
  f ← pop e.1
  g ← pop f.1
  some (c.0.cont ∷ e.0.cont ∷ f.0.cont ∷ g.0.cont ∷ [])

pop_order : four_pops ≡ some (some 13 ∷ some 10 ∷ some 11 ∷ some 12 ∷ [])
unfolding four_pops
pop_order = refl

two-IsHeap : IsHeap two.entries
unfolding less
two-IsHeap zero p q = absurd (omega arith)
two-IsHeap (suc zero) p q = refl
two-IsHeap (suc (suc c)) p q = absurd (omega arith)

two-entries : (e : PqEntry Sample ℕ) → Mem e two.entries → IsEntry e
two-entries = All-mem IsEntry two.entries IsEntry-prop (
  record { number = refl; word = omega arith },
  (record { number = refl; word = omega arith }, tt),
)

two-IsValid : Pq.Laws.IsValid two
two-IsValid = record {
  heap = two-IsHeap;
  entries = two-entries;
  fits = omega arith;
  positive = omega arith;
}

push_correct_example :
    (pq : PriorityQueue Sample ℕ) × (push two (num 1) 3 (some 12) ≡ some pq)
    × Pq.Laws.IsValid pq
    × Perm pq.entries (entry 1 3 12 ∷ two.entries)
push_correct_example =
    push_correct sample_order two (num 1) 3 (some 12) two-IsValid refl (omega arith) (omega arith)

pop_correct_example :
    (top : PqEntry Sample ℕ) × (pq : PriorityQueue Sample ℕ) × (pop two ≡ some (top, pq))
    × (peek two ≡ some top)
    × Pq.Laws.IsValid pq
    × Perm (top ∷ pq.entries) two.entries
    × ((e : PqEntry Sample ℕ) → Mem e pq.entries → less e top ≡ false)
    × (pq.capacity ≡ 4)
pop_correct_example = pop_correct sample_order two two-IsValid (omega arith)

-- A clock at time 2 that holds the two events, and callbacks that do nothing but stop it at 0.
abbrev clock : Clock Sample ℕ
clock = record { time = num 2; counter = 2; pq = two; running = true }

clock-IsValid : Clock.Schedule.IsValid clock
clock-IsValid = record {
  queue = two-IsValid;
  number = refl;
  future =
      All-mem (λ e. sample.lt e.time (num 2) ≡ false) two.entries (λ e. Bool-set _ _)
        (refl, (refl, tt));
  given = All-mem (λ e. e.seq ≤ 2) two.entries (λ e. le_prop) (omega arith, (omega arith, tt));
  distinct = (Pairwise-pair (λ a b. ¬_prop)).1 (omega arith);
}

schedule_correct_example :
    (c : Clock Sample ℕ) × (schedule clock (num 1) (some 12) ≡ some c)
    × Clock.Schedule.IsValid c
    × (c.time ≡ num 2)
    × (c.counter ≡ 3)
    × (c.running ≡ true)
    × Perm c.pq.entries (entry 2 3 12 ∷ two.entries)
schedule_correct_example =
    schedule_correct sample_order clock (num 1) (some 12) clock-IsValid refl (omega arith)
      (omega arith)

fifo_example :
    (c : Clock Sample ℕ) × (new : PqEntry Sample ℕ) × (schedule clock (num 3) (some 12) ≡ some c)
    × Perm c.pq.entries (new ∷ two.entries)
    × (new.time ≡ num 3)
    × (new.cont ≡ some 12)
    × (less (entry 3 2 10) new ≡ true)
    × (less new (entry 3 2 10) ≡ false)
fifo_example =
    fifo sample_order clock (num 3) (some 12) (entry 3 2 10) clock-IsValid refl (omega arith)
      (omega arith) (mem-cons.1 (Or.inl refl)) refl

abbrev itself : HasClock Sample ℕ (Clock Sample ℕ)
itself = record { clock = λ c. c; with_clock = λ c s. c; clock-with_clock = λ c s. refl }

abbrev handle : ℕ → DseResult → Clock Sample ℕ → Option (Clock Sample ℕ)
handle zero r c = some (stop c)
handle (suc k) r c = some c

-- No callback schedules anything: as many rounds are needed as there are events.
record IsFit (n : ℕ) (c : Clock Sample ℕ) : Type 0 where
  valid : Clock.Schedule.IsValid c
  few : size c.pq ≤ n

stopped-IsValid : (c : Clock Sample ℕ) → Clock.Schedule.IsValid c → Clock.Schedule.IsValid (stop c)
unfolding stop
stopped-IsValid c v = record {
  queue = v.queue;
  number = v.number;
  future = v.future;
  given = v.given;
  distinct = v.distinct;
}

same_size : (c : Clock Sample ℕ) → size (stop c).pq ≡ size c.pq
unfolding stop
same_size c = refl

same_time : (c : Clock Sample ℕ) → (stop c).time ≡ c.time
unfolding stop
same_time c = refl

handled :
    (n : ℕ) (c c' : Clock Sample ℕ) (cont : Option ℕ)
    → IsFit (suc n) c
    → advance itself handle c ≡ some (cont, c')
    → (c'' : Clock Sample ℕ) × (Clock.cont_invoke handle cont DseResult.ok c' ≡ some c'')
      × IsFit n c''
      × (c''.time ≡ c'.time)
handled n c c' none fit e =
    let (v, fewer) = advance-IsValid itself handle sample_order c c' none fit.valid e in
    (c', refl, record { valid = v; few = omega (arith, fit.few) }, refl)
handled n c c' (some zero) fit e =
    let (v, fewer) = advance-IsValid itself handle sample_order c c' (some zero) fit.valid e in
    (
      stop c',
      refl,
      record { valid = stopped-IsValid c' v; few = omega (arith, fit.few, same_size c') },
      same_time c',
    )
handled n c c' (some (suc k)) fit e =
    let (v, fewer) = advance-IsValid itself handle sample_order c c' (some (suc k)) fit.valid e in
    (c', refl, record { valid = v; few = omega (arith, fit.few) }, refl)

IsFit-callbacks : Callbacks itself handle IsFit
IsFit-callbacks = record { valid = λ n c fit. fit.valid; handled = handled }

clock-IsFit : IsFit 2 clock
clock-IsFit = record { valid = clock-IsValid; few = omega arith }

rounds_total_example :
    (c : Clock Sample ℕ) × (rounds itself handle 2 clock ≡ some c)
    × (m : ℕ) × IsFit m c
    × (sample.lt c.time (num 2) ≡ false)
    × ((m ≡ 0) ⊎ (going itself handle c ≡ false))
rounds_total_example =
    rounds_total itself handle sample_order IsFit IsFit-callbacks 2 clock clock-IsFit

abbrev five_results : Option (Progress ℕ)
five_results =
    deliver (waiting (create 3 (some 7)))
      (DseResult.ok ∷ DseResult.err_ram_capacity ∷ DseResult.res_4xx ∷ [])

worst_of_three : five_results ≡ some (finished (some 7) DseResult.err_ram_capacity)
unfolding create child_done
worst_of_three = refl

gather_correct_example :
    (worst : DseResult) × (five_results ≡ some (finished (some 7) worst))
    × (code worst ≡ max_code 0 (DseResult.ok ∷ DseResult.err_ram_capacity ∷ DseResult.res_4xx ∷ []))
gather_correct_example =
    gather_correct (some 7) DseResult.ok (DseResult.err_ram_capacity ∷ DseResult.res_4xx ∷ [])
