-- ===== src/Requests/Search/Best.antt =====
-- The worker that collates the answers to a SEARCH request.
use distributed_search_engin.Base.{
  ℕ, ◌+◌, ◌≤◌, ◌<◌, ◌≡◌, refl, sym, ap, ◌∙◌, inl, inr, ◌⊎◌, true, List, [], ◌∷◌, ◌++◌, ◌==◌, ltb,
  get_or, length, length-append, append-nil, append_assoc, All, All-append, Bool-cases, ==_iff,
  ltb→lt, ltb→le, arith,
}
use distributed_search_engin.Double.{Double}
use distributed_search_engin.Util.Rng.{Rng, double}
use distributed_search_engin.Requests.Search.Select.{count_of, pick}

-- the count of the best entry is not below that of any entry of a list
abbrev pub Best : List ℕ → List ℕ → ℕ → ℕ → Type 0
Best all seen best_idx best_count =
    All (λ v. count_of all v ≤ best_count) seen
    × ((best_count ≡ 0)
        ⊎ ((best_idx < length all) × (count_of all (get_or all best_idx 0) ≡ best_count)))

All-weaken :
    (f : ℕ → ℕ) (m n : ℕ) (vs : List ℕ) → m ≤ n → All (λ v. f v ≤ m) vs → All (λ v. f v ≤ n) vs
All-weaken f m n [] h all = tt
All-weaken f m n (v ∷ vs) h all = (omega (arith, all.0), All-weaken f m n vs h all.1)

get_or-after :
    (front : List ℕ) (w : ℕ) (ws : List ℕ)
    → (length front < length (front ++ (w ∷ ws)))
      × (get_or (front ++ (w ∷ ws)) (length front) 0 ≡ w)
get_or-after [] w ws = (omega arith, refl)
get_or-after (v ∷ front) w ws =
    let (inside, same) = get_or-after front w ws in (omega (arith, inside), same)

-- one more entry is seen, and taken or passed over
Best-take :
    (front : List ℕ) (w : ℕ) (ws all : List ℕ) {best_idx best_count : ℕ}
    → front ++ (w ∷ ws) ≡ all
    → Best all front best_idx best_count
    → best_count ≤ count_of all w
    → Best all (front ++ (w ∷ [])) (length front) (count_of all w)
Best-take front w ws all {best_idx} {best_count} split best more =
    let (inside, same) = rw split at (get_or-after front w ws) in
    let bound = All-weaken (count_of all) best_count (count_of all w) front more best.0 in
    (
      All-append (λ v. count_of all v ≤ count_of all w) front (w ∷ []) bound (omega arith, tt),
      inr (inside, ap (count_of all) same),
    )

Best-keep :
    (front : List ℕ) (w : ℕ) (all : List ℕ) {best_idx best_count : ℕ}
    → Best all front best_idx best_count
    → count_of all w ≤ best_count
    → Best all (front ++ (w ∷ [])) best_idx best_count
Best-keep front w all {best_idx} {best_count} best less =
    (All-append (λ v. count_of all v ≤ best_count) front (w ∷ []) best.0 (less, tt), best.1)

count_first : (w : ℕ) (ws : List ℕ) → 0 < count_of (w ∷ ws) w
unfolding count_of
count_first w ws = let same : (w == w) ≡ true = ground arith in rw same (omega arith)

module _ {F : Type 0} ⦃d : Double F⦄ where
  pick_from :
      (ws front all : List ℕ) (i best_idx best_count : ℕ) (rng : Rng F)
      → front ++ ws ≡ all
      → length front ≡ i
      → Best all front best_idx best_count
      → (count : ℕ) × Best all all (pick all ws i best_idx best_count rng).0 count
  unfolding pick
  pick_from [] front all i best_idx best_count rng split place best =
      (best_count, (rw (sym (append-nil front) ∙ split) at best.0, best.1))
  pick_from (w ∷ ws) front all i best_idx best_count rng split place best =
      let split' = append_assoc front (w ∷ []) ws ∙ split in
      let place' : length (front ++ (w ∷ [])) ≡ i + 1 =
        length-append front (w ∷ []) ∙ ap (λ n. n + 1) place in
      let count = count_of all w in
      let taken = rw place at (Best-take front w ws all split best) in
      let kept = Best-keep front w all best in
      let go = λ (idx n : ℕ) (r : Rng F).
        pick_from ws (front ++ (w ∷ [])) all (i + 1) idx n r split' place' in
      elim (Bool-cases (ltb best_count count)) [
        | inl more ↦ rw more (go i count rng (taken (omega (arith, ltb→lt best_count count more))))
        | inr not_more ↦ elim (Bool-cases (count == best_count)) [
          | inl tie ↦
              let even = (==_iff count best_count).0 tie in
              elim (Bool-cases (d.lt (d.decimal 5 1) (double rng).0)) [
                | inl drawn ↦
                    rw (not_more, tie, drawn)
                      (go i count (double rng).1 (taken (omega (arith, even))))
                | inr passed ↦
                    rw (not_more, tie, passed)
                      (go best_idx best_count (double rng).1 (kept (omega (arith, even))))
              ]
          | inr less ↦
              rw (not_more, less)
                (go best_idx best_count rng (kept (ltb→le best_count count not_more)))
        ]
      ]

  -- The worker that collates the answers of a search is one of those that answered, and no other
  -- answered for more shards, whatever the generator draws.
  pub pick_best :
      (w : ℕ) (ws : List ℕ) (rng : Rng F)
      → let all = w ∷ ws in
        let best = (pick all all 0 0 0 rng).0 in
        (best < length all) × All (λ v. count_of all v ≤ count_of all (get_or all best 0)) all
  pick_best w ws rng =
      let all = w ∷ ws in
      let best = (pick all all 0 0 0 rng).0 in
      let (count, (bound, found)) = pick_from all [] all 0 0 0 rng refl refl (tt, inl refl) in
      elim found [
        | inl zero_count ↦ absurd (omega (arith, count_first w ws, bound.0, zero_count))
        | inr (inside, same) ↦ (
          inside,
          All-weaken (count_of all) count (count_of all (get_or all best 0)) all
              (omega (arith, same)) bound,
        )
      ]
