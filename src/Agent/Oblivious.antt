-- ===== src/Agent/Oblivious.antt =====
-- What an oblivious agent does at a time.
use distributed_search_engin.Base.{
  ℕ, zero, suc, ◌+◌, ◌-◌, ◌≤◌, ◌<◌, ◌≡◌, refl, ap, ◌∙◌, true, false, some, List, [], ◌∷◌, ◌++◌, ltb,
  get_elem?, get_elem?_in_range, get_elem?-some, get_or, set, take, length, length-set, take-set,
  length-take_le, All, Perm, fill-perm, Bool-cases, ltb→lt, ltb→le, inl, inr, arith,
}
use mathlib.Core.List.Perm
use mathlib.Core.Option.{some-injective}
use distributed_search_engin.Double.{Double}
use distributed_search_engin.Agent.{
  ObliviousAction, ObliviousAgent, swap_out, counted, act_from, oblivious_act,
}

take-take : {A : Type 0} (i m : ℕ) (xs : List A) → i ≤ m → take i (take m xs) ≡ take i xs
take-take zero m xs h = refl
take-take (suc i) zero xs h = absurd (omega arith)
take-take (suc i) (suc m) [] h = refl
take-take (suc i) (suc m) (x ∷ xs) h = ap (◌∷◌ x) (take-take i m xs (omega arith))

take-length : {A : Type 0} (xs : List A) → take (length xs) xs ≡ xs
take-length [] = refl
take-length (x ∷ xs) = ap (◌∷◌ x) (take-length xs)

All-take_more :
    {A : Type 0} (P : A → Type 0) (i : ℕ) (xs : List A) {x : A}
    → All P (take i xs)
    → get_elem? xs i ≡ some x
    → P x
    → All P (take (suc i) xs)
All-take_more P i [] all at p = tt
All-take_more P zero (y ∷ ys) all at p = (rw (some-injective _ _ at) p, tt)
All-take_more P (suc i) (y ∷ ys) all at p = (all.0, All-take_more P i ys all.1 at p)

module _ {F : Type 0} ⦃d : Double F⦄ where
  -- the actions below `i` of a list
  abbrev pub Waits : F → ObliviousAction F → Type 0
  Waits now it = d.le it.trigger_time now ≡ false

  abbrev pub IsDue : F → ObliviousAction F → Type 0
  IsDue now it = d.le it.trigger_time now ≡ true

  swap_out-perm :
      (actions : List (ObliviousAction F)) (i : ℕ) (it : ObliviousAction F)
      → get_elem? actions i ≡ some it
      → Perm (it ∷ swap_out actions i it) actions
        × (suc (length (swap_out actions i it)) ≡ length actions)
  unfolding swap_out
  swap_out-perm actions i it at =
      let (inside, same) = get_elem?-some actions i it at in
      let n = length actions - 1 in
      let size : length actions ≡ suc n = omega (arith, inside) in
      let last = get_or actions n it in
      (
        rw same at (fill-perm n actions i it size inside),
        ap suc
              (length-take_le n (set actions i last) (rw (length-set actions i last) (omega arith)))
            ∙ omega (arith, inside),
      )

  swap_out-take :
      (actions : List (ObliviousAction F)) (i : ℕ) (it : ObliviousAction F)
      → i < length actions
      → take i (swap_out actions i it) ≡ take i actions
  unfolding swap_out
  swap_out-take actions i it inside =
      let n = length actions - 1 in
      let last = get_or actions n it in
      take-take i n (set actions i last) (omega (arith, inside)) ∙ take-set i actions last

  act_from-All :
      (n i : ℕ) (now : F) (a : ObliviousAgent F)
      → length a.actions < i + n
      → i ≤ length a.actions
      → All (Waits now) (take i a.actions)
      → (a' : ObliviousAgent F) × (fired : List (ObliviousAction F)) × (act_from now n i a
          ≡ some (a', fired))
        × Perm (fired ++ a'.actions) a.actions
        × All (IsDue now) fired
        × All (Waits now) a'.actions
  unfolding act_from swap_out
  act_from-All zero i now a fuel place before = absurd (omega (arith, fuel, place))
  act_from-All (suc n) i now a fuel place before = elim (Bool-cases (ltb i (length a.actions))) [
    | inr over ↦
        let here : i ≡ length a.actions = omega (arith, place, ltb→le i (length a.actions) over) in
        (
          a,
          [],
          rw over refl,
          Perm.refl a.actions,
          tt,
          rw (take-length a.actions) at (rw here at before),
        )
    | inl inside ↦
        let (it, found) = get_elem?_in_range a.actions i (ltb→lt i (length a.actions) inside) in
        let place' = ltb→lt i (length a.actions) inside in
        let one : suc i ≡ i + 1 = omega arith in
        elim (Bool-cases (d.le it.trigger_time now)) [
          | inl due ↦
              let fired_it : ObliviousAgent F = record a {
                base_agent = counted it.action a.base_agent;
                actions = swap_out a.actions i it;
              } in
              let (moved, size) = swap_out-perm a.actions i it found in
              let (a', fired, ran, perm, all, left) =
                act_from-All n i now fired_it (omega (arith, size, fuel))
                  (omega (arith, size, place')) (rw (swap_out-take a.actions i it place') before) in
              (
                a',
                it ∷ fired,
                rw (inside, found) (rw due (rw ran refl)),
                Perm.trans (Perm.cons it perm) moved,
                (due, all),
                left,
              )
          | inr waits ↦
              let (a', fired, ran, perm, all, left) =
                act_from-All n (i + 1) now a (omega (arith, fuel)) (omega (arith, place'))
                  (rw one at (All-take_more (Waits now) i a.actions before found waits)) in
              (a', fired, rw (inside, found) (rw waits ran), perm, all, left)
        ]
  ]

  -- At any time an oblivious agent carries out exactly its actions that are due, each once, and keeps
  -- the others: what it does and what it keeps are together the actions that it had, up to their order,
  -- all that it does is due, and nothing that it keeps is.
  pub oblivious_act-IsDue :
      (now : F) (a : ObliviousAgent F)
      → (a' : ObliviousAgent F) × (fired : List (ObliviousAction F)) × (oblivious_act now a
          ≡ some (a', fired))
        × Perm (fired ++ a'.actions) a.actions
        × All (IsDue now) fired
        × All (Waits now) a'.actions
  unfolding oblivious_act
  oblivious_act-IsDue now a =
      act_from-All (length a.actions + 1) 0 now a (omega arith) (omega arith) tt
