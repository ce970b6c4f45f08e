-- ===== src/Event/Clock.antt =====
-- src/event/clock.c and include/event/continuation.h: the simulated time and the event loop.
pub mod Schedule
pub mod Run
use distributed_search_engin.Base.{
  ℕ, zero, suc, ◌+◌, ◌%◌, ◌^◌, Bool, true, false, not, ◌&&◌, Option, none, some, ◌>>=◌, ◌≡◌,
  if◌then◌else◌,
}
use distributed_search_engin.Double.{Double}
use distributed_search_engin.Types.{DseResult}
use distributed_search_engin.Event.Pq
use distributed_search_engin.Event.Pq.{PriorityQueue}

-- `struct Clock`; the counter is a `uint64_t`
pub record Clock (F K : Type 0) : Type 0 where
  pub time : F
  pub counter : ℕ
  pub pq : PriorityQueue F K
  pub running : Bool

-- `cont_invoke`: the null continuation does nothing. `call` runs a callback on the program's state.
abbrev pub cont_invoke :
    {K S : Type 0} → (K → DseResult → S → Option S) → Option K → DseResult → S → Option S
cont_invoke call none result s = some s
cont_invoke call (some k) result s = call k result s

module _ {F K : Type 0} ⦃d : Double F⦄ where
  -- `clock_init`
  unfoldable pub init : Clock F K
  unfolding Pq.init
  init = record { time = d.of_ℕ 0; counter = 0; pq = Pq.init 4096; running = false }

  -- `clock_schedule`
  unfoldable pub schedule : Clock F K → F → Option K → Option (Clock F K)
  schedule clock target_time cont = do
    let counter = (clock.counter + 1) % 2 ^ 64
    let target = if d.lt target_time clock.time then clock.time else target_time
    pq ← Pq.push clock.pq target counter cont
    some (record clock { counter = counter; pq = pq })

  -- `clock_schedule_delay`
  unfoldable pub schedule_delay : Clock F K → F → Option K → Option (Clock F K)
  schedule_delay clock duration cont =
      if d.le duration (d.of_ℕ 0)
      then schedule clock clock.time cont
      else schedule clock (d.add clock.time duration) cont

-- `clock_stop`
unfoldable pub stop : {F K : Type 0} → Clock F K → Clock F K
stop clock = record clock { running = false }

-- The place of the clock in the program's state, which the callbacks change as a whole.
pub record HasClock (F K S : Type 0) : Type 0 where
  pub clock : S → Clock F K
  pub with_clock : Clock F K → S → S
  pub clock-with_clock : (c : Clock F K) (s : S) → clock (with_clock c s) ≡ c

module _ {F K S : Type 0} ⦃d : Double F⦄ (h : HasClock F K S)
    (call : K → DseResult → S → Option S) where
  -- the condition of the loop in `clock_run`
  abbrev pub going : S → Bool
  going s = (h.clock s).running && not (Pq.empty (h.clock s).pq)

  -- the head of the loop's body: the next event is taken and the time set
  unfoldable pub advance : S → Option (Option K × S)
  advance s =
      let c = h.clock s in
      Pq.pop c.pq >>= λ (ev, pq).
      some (ev.cont, h.with_clock (record c { time = ev.time; pq = pq }) s)

  -- the body of the loop
  unfoldable pub round : S → Option S
  unfolding advance
  round s = advance s >>= λ (cont, s'). cont_invoke call cont DseResult.ok s'

  -- the loop, stopped after a number of rounds
  unfoldable pub rounds : ℕ → S → Option S
  rounds zero s = some s
  rounds (suc n) s = let next = round s >>= rounds n in if going s then next else some s

  -- `clock_run`; `none` also if the loop still goes on after `n` rounds
  unfoldable pub run : ℕ → S → Option S
  run n s = do
    s' ← rounds n (h.with_clock (record (h.clock s) { running = true }) s)
    if going s' then none else some (h.with_clock (record (h.clock s') { running = false }) s')
