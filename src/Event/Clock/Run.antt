-- ===== src/Event/Clock/Run.antt =====
-- The event loop, for callbacks that keep to the interface of the clock.
use mathlib.Core.Path.{subst}
use mathlib.Core.Option.{some-injective}
use distributed_search_engin.Base.{
  ◌⊎◌, ℕ, zero, suc, ◌+◌, ◌<◌, ◌≡◌, refl, sym, ap, ◌∙◌, inl, inr, true, false, Option, none, some,
  ◌==◌, Bool-cases, length-perm, arith,
}
use distributed_search_engin.Double.{Double, HasOrder}
use distributed_search_engin.Types.{DseResult}
use distributed_search_engin.Event.Pq
use distributed_search_engin.Event.Pq.{PqEntry, size}
use distributed_search_engin.Event.Clock.{HasClock, cont_invoke, going, advance, round, rounds}
use distributed_search_engin.Event.Clock.Schedule.{IsValid, pop-IsValid}
use distributed_search_engin.Event.Pq.Laws.{pop_empty}

module _ {F K S : Type 0} ⦃d : Double F⦄ (h : HasClock F K S)
    (call : K → DseResult → S → Option S) where
  -- What the loop asks of the callbacks: `Safe n s` says that the state `s` is fit for `n` rounds. Its
  -- clock is valid then, and an event taken from it can be handled: its callback returns, does not
  -- touch the time, and leaves a state that is fit for one round less.
  pub record Callbacks (Safe : ℕ → S → Type 0) : Type 0 where
    pub valid : (n : ℕ) (s : S) → Safe n s → IsValid (h.clock s)
    pub handled :
        (n : ℕ) (s s' : S) (cont : Option K)
        → Safe (suc n) s
        → advance h call s ≡ some (cont, s')
        → (s'' : S) × (cont_invoke call cont DseResult.ok s' ≡ some s'')
          × Safe n s''
          × ((h.clock s'').time ≡ (h.clock s').time)

  going-pos : (s : S) → going h call s ≡ true → 0 < size (h.clock s).pq
  going-pos s e = ground arith

  advance-eq :
      (s : S) (ev : PqEntry F K) (pq : Pq.PriorityQueue F K)
      → Pq.pop (h.clock s).pq ≡ some (ev, pq)
      → advance h call s
        ≡ some (ev.cont, h.with_clock (record (h.clock s) { time = ev.time; pq = pq }) s)
  unfolding advance
  advance-eq s ev pq e = rw e

  advance-none : (s : S) → size (h.clock s).pq ≡ 0 → advance h call s ≡ none
  unfolding advance
  advance-none s e = rw (pop_empty (h.clock s).pq e)

  -- What a callback finds when an event has been taken: a valid clock with an event less.
  pub advance-IsValid :
      HasOrder d
      → (s s' : S) (cont : Option K) → IsValid (h.clock s)
      → advance h call s ≡ some (cont, s')
      → IsValid (h.clock s') × (size (h.clock s').pq + 1 ≡ size (h.clock s).pq)
  advance-IsValid o s s' cont v e = elim (Bool-cases (size (h.clock s).pq == 0)) [
    | inl nothing ↦ let stuck = advance-none s (ground arith) in absurd (cc)
    | inr some_event ↦
        let (ev, pq, popped, valid, later, first, perm) =
          pop-IsValid o (h.clock s) v (ground arith) in
        let c1 = record (h.clock s) { time = ev.time; pq = pq } in
        let same : h.with_clock c1 s ≡ s' =
          ap (λ (t : Option K × S). t.1)
            (some-injective _ _ (sym (advance-eq s ev pq popped) ∙ e)) in
        subst (λ (t : S). IsValid (h.clock t) × (size (h.clock t).pq + 1 ≡ size (h.clock s).pq))
          same (rw (h.clock-with_clock c1 s) (valid, omega (arith, length-perm perm)))
  ]

  module _ (o : HasOrder d) (Safe : ℕ → S → Type 0) (c : Callbacks Safe) where
    -- One round: the next event fires, at a time that is not before the present.
    round_total :
        (n : ℕ) (s : S)
        → Safe (suc n) s
        → going h call s ≡ true
        → (s' : S) × (round h call s ≡ some s')
          × Safe n s'
          × (d.lt (h.clock s').time (h.clock s).time ≡ false)
    unfolding round
    round_total n s safe e =
        let (ev, pq, popped, v, later, first, perm) =
          pop-IsValid o (h.clock s) (c.valid (suc n) s safe) (going-pos s e) in
        let s1 = h.with_clock (record (h.clock s) { time = ev.time; pq = pq }) s in
        let taken : advance h call s ≡ some (ev.cont, s1) = advance-eq s ev pq popped in
        let (s2, called, safe2, same) = c.handled n s s1 ev.cont safe taken in
        (
          s2,
          rw (taken, called),
          safe2,
          rw (same, h.clock-with_clock (record (h.clock s) { time = ev.time; pq = pq }) s) later,
        )

    not_before_trans :
        (a b c : S) (i j k : ℕ)
        → Safe i a
        → Safe j b
        → Safe k c
        → d.lt (h.clock b).time (h.clock a).time ≡ false
        → d.lt (h.clock c).time (h.clock b).time ≡ false
        → d.lt (h.clock c).time (h.clock a).time ≡ false
    not_before_trans x y z i j k sx sy sz p q =
        let nx = (c.valid i x sx).number in
        let ny = (c.valid j y sy).number in
        let nz = (c.valid k z sz).number in
        ground (
          arith,
          o.lt_rank (h.clock y).time (h.clock x).time ny nx,
          o.lt_rank (h.clock z).time (h.clock y).time nz ny,
          o.lt_rank (h.clock z).time (h.clock x).time nz nx,
        )

    never_before_itself :
        (s : S) (i : ℕ) → Safe i s → d.lt (h.clock s).time (h.clock s).time ≡ false
    never_before_itself s i safe =
        let real = (c.valid i s safe).number in
        ground (arith, o.lt_rank (h.clock s).time (h.clock s).time real real)

    -- From a state that is fit for `n` rounds, `n` rounds of the loop succeed, whatever the callbacks
    -- schedule, and the time never goes back. Either all rounds were made and the state is fit for no
    -- more, or the loop has ended.
    pub rounds_total :
        (n : ℕ) (s : S)
        → Safe n s
        → (s' : S) × (rounds h call n s ≡ some s')
          × (m : ℕ) × Safe m s'
          × (d.lt (h.clock s').time (h.clock s).time ≡ false)
          × ((m ≡ 0) ⊎ (going h call s' ≡ false))
    unfolding rounds
    rounds_total zero s safe = (s, refl, 0, safe, never_before_itself s 0 safe, inl refl)
    rounds_total (suc n) s safe = elim (Bool-cases (going h call s)) [
      | inr ended ↦ (s, rw ended, suc n, safe, never_before_itself s (suc n) safe, inr ended)
      | inl goes ↦
          let (s1, one, safe1, later) = round_total n s safe goes in
          let (s2, rest, m, safe2, later2, over) = rounds_total n s1 safe1 in
          (
            s2,
            rw (goes, one) rest,
            m,
            safe2,
            not_before_trans s s1 s2 (suc n) n m safe safe1 safe2 later later2,
            over,
          )
    ]
