-- ===== src/Event/Clock/Schedule.antt =====
-- Scheduling and advancing: the invariant of the clock, and the order in which events fire.
use mathlib.Core.Bool.{Bool-set}
use mathlib.Core.HLevel.{¬_prop}
use mathlib.Core.List.{Mem, mem-cons, not-mem-nil, Pairwise, Pairwise-cons}
use mathlib.Core.List.Perm
use mathlib.Core.Logic.Or
use native.Mathlib.Bridge.{le_prop}
use distributed_search_engin.Base.{
  ◌+◌, ◌%◌, ◌^◌, ◌≤◌, ◌<◌, ◌≡◌, ◌≢◌, refl, sym, inl, inr, true, false, Option, some, List, ◌∷◌,
  Perm, if◌then◌else◌, Bool-cases, arith,
}
use distributed_search_engin.Double.{Double, HasOrder}
use distributed_search_engin.Event.Pq
use distributed_search_engin.Event.Pq.{PqEntry, PriorityQueue, less, size}
use distributed_search_engin.Event.Pq.Order.{less_total, lt_of_less}
use distributed_search_engin.Event.Pq.Laws.{push_correct, pop_correct}
use distributed_search_engin.Event.Clock.{Clock, init, schedule, schedule_delay}

module _ {F K : Type 0} ⦃d : Double F⦄ where
  -- Two scheduled events never carry the same sequence number.
  abbrev pub Distinct : List (PqEntry F K) → Type 0
  Distinct = Pairwise (λ a b. a.seq ≢ b.seq)

  -- Nothing is scheduled before the present, and the sequence numbers were all given out by the
  -- counter, each once.
  pub record IsValid (c : Clock F K) : Type 0 where
    pub queue : Pq.Laws.IsValid c.pq
    pub number : d.is_nan c.time ≡ false
    pub future : (e : PqEntry F K) → Mem e c.pq.entries → d.lt e.time c.time ≡ false
    pub given : (e : PqEntry F K) → Mem e c.pq.entries → e.seq ≤ c.counter
    pub distinct : Distinct c.pq.entries

  -- `clock_init`, if the literal 0.0 is a number.
  pub init-IsValid : d.is_nan (d.of_ℕ 0) ≡ false → IsValid (init {F = F} {K = K})
  unfolding init Pq.init
  init-IsValid zero_number = record {
    queue = Pq.Laws.init-IsValid 4096;
    number = zero_number;
    future = λ e m. absurd (not-mem-nil m);
    given = λ e m. absurd (not-mem-nil m);
    distinct = Pairwise.nil;
  }

  -- The time at which an event scheduled for `target` fires.
  abbrev pub clamped : Clock F K → F → F
  clamped c target = if d.lt target c.time then c.time else target

  module _ (o : HasOrder d) where
    clamped_number :
        (c : Clock F K) (target : F)
        → d.is_nan c.time ≡ false
        → d.is_nan target ≡ false
        → (d.is_nan (clamped c target) ≡ false) × (d.lt (clamped c target) c.time ≡ false)
    clamped_number c target hc ht =
        ground (arith, o.lt_rank c.time c.time hc hc, o.lt_rank target c.time ht hc)

    -- On a valid clock, `clock_schedule` at a time that is not a NaN succeeds, keeps the clock valid,
    -- leaves its time, and adds exactly one event: at the target, or now if the target is past, with
    -- the next sequence number, which no other event carries.
    pub schedule_correct :
        (c : Clock F K) (target : F) (cont : Option K)
        → IsValid c
        → d.is_nan target ≡ false
        → c.counter + 1 < 2 ^ 64
        → c.pq.capacity < 2 ^ 63
        → (c' : Clock F K) × (schedule c target cont ≡ some c')
          × IsValid c'
          × (c'.time ≡ c.time)
          × (c'.counter ≡ c.counter + 1)
          × (c'.running ≡ c.running)
          × Perm c'.pq.entries
              (record { time = clamped c target; seq = c.counter + 1; cont = cont } ∷ c.pq.entries)
    unfolding schedule
    schedule_correct c target cont v number small room =
        let e : (c.counter + 1) % 2 ^ 64 ≡ c.counter + 1 = omega arith in
        let (real, later) = clamped_number c target v.number number in
        let (pq, pushed, valid, perm) =
          push_correct o c.pq (clamped c target) (c.counter + 1) cont v.queue real small room in
        (
          record c { counter = c.counter + 1; pq = pq },
          rw (e, pushed),
          record {
            queue = valid;
            number = v.number;
            future = λ x m.
                Or.elim (Bool-set _ _) (mem-cons.0 ((Perm.mem_iff perm).0 m))
                  (λ same. rw same later) (v.future x);
            given = λ x m.
                Or.elim le_prop (mem-cons.0 ((Perm.mem_iff perm).0 m))
                  (λ same. rw same (omega arith)) (λ old. omega (arith, v.given x old));
            distinct =
                Perm.pairwise (λ a b. ¬_prop) (λ a b ne e. ne (sym e)) (Perm.symm perm)
                  (Pairwise.cons (λ y old e. absurd (omega (arith, v.given y old))) v.distinct);
          },
          refl,
          refl,
          refl,
          perm,
        )

    after_old :
        (c : Clock F K) (target : F) (cont : Option K) (e : PqEntry F K)
        → IsValid c
        → d.is_nan target ≡ false
        → Mem e c.pq.entries
        → d.lt (clamped c target) e.time ≡ false
        → less e (record { time = clamped c target; seq = c.counter + 1; cont = cont }) ≡ true
    unfolding less
    after_old c target cont e v number m not_later =
        let real = (clamped_number c target v.number number).0 in
        let entry = v.queue.entries e m in
        ground (
          arith,
          v.given e m,
          o.lt_rank (clamped c target) e.time real entry.number,
          o.lt_rank e.time (clamped c target) entry.number real,
          o.eq_rank e.time (clamped c target) entry.number real,
        )

    -- First in, first out: on a valid clock, `clock_schedule` at a time that is not a NaN adds an event
    -- with the given continuation, and an event that was already scheduled for the same time as that
    -- one or an earlier time fires before it.
    pub fifo :
        (c : Clock F K) (target : F) (cont : Option K) (e : PqEntry F K)
        → IsValid c
        → d.is_nan target ≡ false
        → c.counter + 1 < 2 ^ 64
        → c.pq.capacity < 2 ^ 63
        → Mem e c.pq.entries
        → d.lt (clamped c target) e.time ≡ false
        → (c' : Clock F K) × (new : PqEntry F K) × (schedule c target cont ≡ some c')
          × Perm c'.pq.entries (new ∷ c.pq.entries)
          × (new.time ≡ clamped c target)
          × (new.cont ≡ cont)
          × (less e new ≡ true)
          × (less new e ≡ false)
    unfolding less
    fifo c target cont e v number small room m not_later =
        let (c', scheduled, valid, time, counter, running, perm) =
          schedule_correct c target cont v number small room in
        let new : PqEntry F K = record {
          time = clamped c target;
          seq = c.counter + 1;
          cont = cont;
        } in
        let first = after_old c target cont e v number m not_later in
        let real = (clamped_number c target v.number number).0 in
        let entry = v.queue.entries e m in
        (
          c',
          new,
          scheduled,
          perm,
          refl,
          refl,
          first,
          ground (
            arith,
            v.given e m,
            o.lt_rank (clamped c target) e.time real entry.number,
            o.lt_rank e.time (clamped c target) entry.number real,
            o.eq_rank (clamped c target) e.time real entry.number,
          ),
        )

    -- `clock_schedule_delay` succeeds on a valid clock, keeps it valid, leaves its time, and adds one
    -- event: now if the delay is at most zero, else at the time plus the delay, unless rounding puts
    -- that sum before now.
    pub schedule_delay_correct :
        (c : Clock F K) (duration : F) (cont : Option K)
        → IsValid c
        → d.is_nan (d.add c.time duration) ≡ false
        → c.counter + 1 < 2 ^ 64
        → c.pq.capacity < 2 ^ 63
        → (c' : Clock F K) × (schedule_delay c duration cont ≡ some c')
          × IsValid c'
          × (c'.time ≡ c.time)
          × (c'.counter ≡ c.counter + 1)
          × (c'.running ≡ c.running)
          × Perm c'.pq.entries (
              record {
                time =
                    if d.le duration (d.of_ℕ 0) then c.time else clamped c (d.add c.time duration);
                seq = c.counter + 1;
                cont = cont;
              }
              ∷ c.pq.entries)
    unfolding schedule_delay
    schedule_delay_correct c duration cont v number small room =
        elim (Bool-cases (d.le duration (d.of_ℕ 0))) [
          | inl now ↦
              let same : clamped c c.time ≡ c.time = ground arith in
              rw now (rw same at (schedule_correct c c.time cont v v.number small room))
          | inr later ↦
              rw later (schedule_correct c (d.add c.time duration) cont v number small room)
        ]

    -- What the head of the loop does to a valid clock: the event taken is not in the past, the rest is
    -- valid at its time, and the event strictly precedes every event that is left.
    pub pop-IsValid :
        (c : Clock F K)
        → IsValid c
        → 0 < size c.pq
        → (ev : PqEntry F K) × (pq : PriorityQueue F K) × (Pq.pop c.pq ≡ some (ev, pq))
          × IsValid (record c { time = ev.time; pq = pq })
          × (d.lt ev.time c.time ≡ false)
          × ((e : PqEntry F K) → Mem e pq.entries → less ev e ≡ true)
          × Perm (ev ∷ pq.entries) c.pq.entries
    pop-IsValid c v pos =
        let (ev, pq, popped, top, valid, perm, first, kept) = pop_correct o c.pq v.queue pos in
        let was = λ (e : PqEntry F K) (m : Mem e pq.entries).
          (Perm.mem_iff perm).0 (mem-cons.1 (Or.inr m)) in
        let ev_was = (Perm.mem_iff perm).0 (mem-cons.1 (Or.inl refl)) in
        let real = v.queue.entries ev ev_was in
        let apart =
          Pairwise-cons.0
            (Perm.pairwise (λ a b. ¬_prop) (λ a b ne e. ne (sym e)) (Perm.symm perm) v.distinct) in
        (
          ev,
          pq,
          popped,
          record {
            queue = valid;
            number = real.number;
            future = λ e m. lt_of_less o ev e real (v.queue.entries e (was e m)) (first e m);
            given = λ e m. v.given e (was e m);
            distinct = apart.1;
          },
          v.future ev ev_was,
          λ e m. less_total o ev e real (v.queue.entries e (was e m)) (apart.0 e m) (first e m),
          perm,
        )
