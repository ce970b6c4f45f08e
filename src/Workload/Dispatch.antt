-- ===== src/Workload/Dispatch.antt =====
-- The dispatch of loaded requests, one after the other.
use distributed_search_engin.Base.{
  ℕ, zero, suc, ◌+◌, ◌≡◌, refl, sym, ap, ap₂, ◌∙◌, true, false, none, some, List, [], ◌∷◌, ◌++◌,
  get_elem?, get_elem?-after, length, length-append, append_assoc, append-nil, arith,
}
use distributed_search_engin.Double.{Double}
use distributed_search_engin.Collection.{Registry}
use distributed_search_engin.Workload.{
  RequestDescriptor, LoadedWorkloadGenerator, Effect, dispatch_request, dispatch_next,
}

get_elem?-length : {A : Type 0} (xs : List A) → get_elem? xs (length xs) ≡ none
get_elem?-length [] = refl
get_elem?-length (x ∷ xs) = get_elem?-length xs

module _ {F : Type 0} ⦃d : Double F⦄ where
  -- so many rounds of the dispatch
  abbrev pub rounds :
      ℕ → Registry → LoadedWorkloadGenerator F → LoadedWorkloadGenerator F × List (Effect F)
  rounds zero r gen = (gen, [])
  rounds (suc n) r gen =
      let round = dispatch_next r gen in
      let rest = rounds n r round.0 in (rest.0, round.1 ++ rest.1)

  -- what the requests of a workload come to: each is dispatched, and the dispatch of the next one is
  -- scheduled at its time, or after the last the stop of the clock one second later
  abbrev pub schedule : Registry → List (RequestDescriptor F) → List (Effect F)
  schedule r [] = []
  schedule r (rd ∷ []) = dispatch_request r rd ++ (Effect.stop_after (d.of_ℕ 1) ∷ [])
  schedule r (rd ∷ next ∷ rds) =
      (dispatch_request r rd ++ (Effect.next_at next.time ∷ [])) ++ schedule r (next ∷ rds)

  abbrev at : List (RequestDescriptor F) → ℕ → LoadedWorkloadGenerator F
  at all i = record { requests = all; current = i; active = true }

  abbrev ended : List (RequestDescriptor F) → ℕ → LoadedWorkloadGenerator F
  ended all i = record { requests = all; current = i; active = false }

  dispatch_last :
      (r : Registry) (all : List (RequestDescriptor F)) (i : ℕ) {rd : RequestDescriptor F}
      → get_elem? all i ≡ some rd
      → get_elem? all (i + 1) ≡ none
      → dispatch_next r (at all i) ≡ (ended all (i + 1), schedule r (rd ∷ []))
  unfolding dispatch_next
  dispatch_last r all i here over = rw (here, over) refl

  dispatch_over :
      (r : Registry) (all : List (RequestDescriptor F)) (i : ℕ)
      → get_elem? all i ≡ none
      → dispatch_next r (ended all i) ≡ (ended all i, [])
  unfolding dispatch_next
  dispatch_over r all i over = rw over refl

  dispatch_more :
      (r : Registry) (all : List (RequestDescriptor F)) (i : ℕ) {rd next : RequestDescriptor F}
      → get_elem? all i ≡ some rd
      → get_elem? all (i + 1) ≡ some next
      → dispatch_next r (at all i)
        ≡ (at all (i + 1), dispatch_request r rd ++ (Effect.next_at next.time ∷ []))
  unfolding dispatch_next
  dispatch_more r all i here more = rw (here, more) refl

  rounds_step :
      (n : ℕ) (r : Registry) (g g' g'' : LoadedWorkloadGenerator F) {es fs : List (Effect F)}
      → dispatch_next r g ≡ (g', es)
      → rounds n r g' ≡ (g'', fs)
      → rounds (suc n) r g ≡ (g'', es ++ fs)
  rounds_step n r g g' g'' {es = es} step follows =
      ap (λ round. let rest = rounds n r round.0 in (rest.0, round.1 ++ rest.1)) step
      ∙ ap (λ rest. (rest.0, es ++ rest.1)) follows

  rounds_from :
      (r : Registry) (rds : List (RequestDescriptor F)) (rd : RequestDescriptor F)
      (front all : List (RequestDescriptor F)) (i : ℕ)
      → front ++ (rd ∷ rds) ≡ all
      → length front ≡ i
      → rounds (suc (length rds)) r (at all i)
        ≡ (ended all (i + suc (length rds)), schedule r (rd ∷ rds))
  rounds_from r [] rd front all i split place =
      let here : get_elem? all i ≡ some rd =
        ap₂ get_elem? (sym split) (sym place) ∙ get_elem?-after front rd [] in
      let size : length all ≡ i + 1 =
        ap length (sym split) ∙ length-append front (rd ∷ []) ∙ omega (arith, place) in
      let over : get_elem? all (i + 1) ≡ none =
        ap (get_elem? all) (sym size) ∙ get_elem?-length all in
      rounds_step zero r (at all i) (ended all (i + 1)) (ended all (i + 1))
        (dispatch_last r all i here over) refl
      ∙ ap (λ es. (ended all (i + 1), es)) (append-nil (schedule r (rd ∷ [])))
  rounds_from r (next ∷ rds) rd front all i split place =
      let here : get_elem? all i ≡ some rd =
        ap₂ get_elem? (sym split) (sym place) ∙ get_elem?-after front rd (next ∷ rds) in
      let split' = append_assoc front (rd ∷ []) (next ∷ rds) ∙ split in
      let place' : length (front ++ (rd ∷ [])) ≡ i + 1 =
        length-append front (rd ∷ []) ∙ omega (arith, place) in
      let more : get_elem? all (i + 1) ≡ some next =
        ap₂ get_elem? (sym split') (sym place') ∙ get_elem?-after (front ++ (rd ∷ [])) next rds in
      let rest = rounds_from r rds next (front ++ (rd ∷ [])) all (i + 1) split' place' in
      let count : i + 1 + suc (length rds) ≡ i + suc (suc (length rds)) = omega arith in
      rounds_step (suc (length rds)) r (at all i) (at all (i + 1))
        (ended all (i + 1 + suc (length rds))) (dispatch_more r all i here more) rest
      ∙ ap (λ j. (ended all j, schedule r (rd ∷ next ∷ rds))) count

  -- A workload of at least one request: as many rounds of the dispatch as there are requests dispatch
  -- each request once, in the order of the file, schedule each next round at the time of its request,
  -- and schedule the stop of the clock once, after the last; then the generator is not active, and a
  -- further round does nothing.
  pub rounds_dispatch :
      (r : Registry) (rd : RequestDescriptor F) (rds : List (RequestDescriptor F))
      → let all = rd ∷ rds in
        let gen : LoadedWorkloadGenerator F = record {
          requests = all;
          current = 0;
          active = true;
        } in
        let done = rounds (length all) r gen in
        (done.1 ≡ schedule r all)
        × (done.0.active ≡ false)
        × (dispatch_next r done.0 ≡ (done.0, []))
  unfolding dispatch_next
  rounds_dispatch r rd rds =
      let all = rd ∷ rds in
      let ran = rounds_from r rds rd [] all 0 refl refl in
      let size : 0 + length all ≡ length all = omega arith in
      let over : get_elem? all (0 + length all) ≡ none =
        ap (get_elem? all) size ∙ get_elem?-length all in
      (
        ap (λ x. x.1) ran,
        ap (λ x. x.0.active) ran,
        ap (λ x. dispatch_next r x.0) ran
            ∙ dispatch_over r all (0 + length all) over
            ∙ ap (λ x. (x.0, [])) (sym ran),
      )
