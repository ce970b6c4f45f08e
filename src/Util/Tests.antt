-- ===== src/Util/Tests.antt =====
-- Runs of the containers and instances of their theorems.
use distributed_search_engin.Base.{
  ℕ, zero, suc, ◌+◌, ◌*◌, ◌%◌, ◌<◌, ◌≡◌, refl, true, false, Option, none, some, [], ◌∷◌, get_or,
  get_elem?, arith,
}
use distributed_search_engin.Double.Sample.{Sample, num}
use distributed_search_engin.Util.BoundedQueue
use distributed_search_engin.Util.BoundedQueue.{BoundedQueue}
use distributed_search_engin.Util.BoundedQueue.Refine.{Holds, push-Holds, pop-Holds}
use distributed_search_engin.Util.DynArray
use distributed_search_engin.Util.DynArray.{DynArray}
use distributed_search_engin.Util.Rng.{Rng, splitmix64}

-- A ring of three slots that has gone round: it holds 7 and 8.
abbrev ring : BoundedQueue ℕ
ring = record {
  buf = some 8 ∷ some 6 ∷ some 7 ∷ [];
  head = 2;
  tail = 1;
  count = 2;
  capacity = 3;
  finalized = false;
}

ring-Holds : Holds ring (7 ∷ 8 ∷ [])
ring-Holds = record {
  storage = refl;
  counted = refl;
  bounded = omega arith;
  head_in = λ p. omega arith;
  tail_at = λ p. refl;
  slots = slots;
}
  where
    slots : (k : ℕ) → k < 2 → get_or ring.buf ((2 + k) % 3) none ≡ get_elem? {A = ℕ} (7 ∷ 8 ∷ []) k
    slots zero p = refl
    slots (suc zero) p = refl
    slots (suc (suc k)) p = absurd (omega arith)

push-Holds_example :
    ((BoundedQueue.push ring 9).0 ≡ true) × Holds (BoundedQueue.push ring 9).1 (7 ∷ 8 ∷ 9 ∷ [])
push-Holds_example = push-Holds ring (7 ∷ 8 ∷ []) 9 ring-Holds refl (omega arith)

pop-Holds_example : ((BoundedQueue.pop ring).0 ≡ some 7) × Holds (BoundedQueue.pop ring).1 (8 ∷ [])
pop-Holds_example = pop-Holds ring 7 (8 ∷ []) ring-Holds

abbrev add_item : Option ℕ → ℕ → ℕ
add_item none s = s
add_item (some x) s = s * 10 + x

abbrev four : DynArray
four = record { items = 5 ∷ 6 ∷ 7 ∷ 8 ∷ []; capacity = 4 }

removed_items : (DynArray.remove four 6).1.items ≡ 5 ∷ 8 ∷ 7 ∷ []
unfolding DynArray.remove DynArray.scan
removed_items = refl

removed_in_order : (DynArray.remove_ordered four 6).1.items ≡ 5 ∷ 7 ∷ 8 ∷ []
unfolding DynArray.remove_ordered DynArray.scan
removed_in_order = refl

found : (DynArray.remove four 6).0 ≡ true
unfolding DynArray.remove DynArray.scan
found = refl

found_in_order : (DynArray.remove_ordered four 6).0 ≡ true
unfolding DynArray.remove_ordered DynArray.scan
found_in_order = refl

abbrev rng : Rng Sample
rng = record { s0 = 1; s1 = 2; s2 = 3; s3 = 4; has_spare = false; spare = num 0 }

first_word : (splitmix64 0).0 ≡ 16294208416658607535
unfolding splitmix64
first_word = refl
