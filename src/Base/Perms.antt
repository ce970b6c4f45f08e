-- ===== src/Base/Perms.antt =====
-- Rearrangements: how writes and swaps change the multiset of a list.
use Prim.Native.Nat.{ℕ, zero, suc, ◌<◌}
use native.Mathlib.Nat.{ℕ_set}
use mathlib.Core.Path.{◌≡◌, refl, ◌∙◌}
use mathlib.Core.Logic.{∥∥₁_elim}
use mathlib.Core.List.{
  List, [], ◌∷◌, ◌++◌, Perm, Permᴰ, perm_append_singleton, Mem, mem-cons, not-mem-nil,
}
use mathlib.Core.Logic.Or
use mathlib.Core.Option.{some}
use mathlib.Core.List.Perm
use native.Mathlib.Omega.{arith}
use distributed_search_engin.Base.Tests.{◌==◌, if◌then◌else◌}
use distributed_search_engin.Base.Lists.{
  length, get_or, get_elem?, All, set, take, length-set, get_or-set, take-append_last,
}

module _ {ℓ} {A : Type ℓ} where
  -- By induction on the derivation of the rearrangement.
  lengthᴰ : {old new : List A} → Permᴰ old new → length old ≡ length new
  lengthᴰ (Permᴰ.trans first second) = lengthᴰ first ∙ lengthᴰ second
  lengthᴰ (Permᴰ.swap e f) = refl
  lengthᴰ (Permᴰ.cons e tails) = let same = lengthᴰ tails in omega arith
  lengthᴰ Permᴰ.nil = refl

  pub length-perm : {old new : List A} → Perm old new → length old ≡ length new
  length-perm moved = ∥∥₁_elim moved (ℕ_set _ _) lengthᴰ

  -- A write trades the old entry for the new one.
  pub set-perm :
      (xs : List A) (i : ℕ) (v d : A) → i < length xs → Perm (get_or xs i d ∷ set xs i v) (v ∷ xs)
  set-perm [] i v d h = absurd (omega arith)
  set-perm (x ∷ xs) zero v d h = Perm.swap v x xs
  set-perm (x ∷ xs) (suc i) v d h =
      Perm.trans (Perm.swap x _ _)
        (Perm.trans (Perm.cons x (set-perm xs i v d (omega arith))) (Perm.swap v x xs))

  -- What stands in the place of a swapped entry.
  abbrev pub swap : List A → ℕ → ℕ → A → List A
  swap xs i j d = set (set xs i (get_or xs j d)) j (get_or xs i d)

  pub length-swap : (xs : List A) (i j : ℕ) (d : A) → length (swap xs i j d) ≡ length xs
  length-swap xs i j d = simp length-set

  pub get_or-swap :
      (xs : List A) (i j : ℕ) (d : A)
      → i < length xs
      → j < length xs
      → (c : ℕ)
      → get_or (swap xs i j d) c d
        ≡ (if j == c then get_or xs i d else if i == c then get_or xs j d else get_or xs c d)
  get_or-swap xs i j d hi hj c = rw (
    get_or-set (set xs i (get_or xs j d)) j c (get_or xs i d) d (rw length-set hj),
    get_or-set xs i c (get_or xs j d) d hi,
  )

  pub swap-perm :
      (xs : List A) (i j : ℕ) (d : A) → i < length xs → j < length xs → Perm (swap xs i j d) xs
  swap-perm xs i j d hi hj =
      let ys = set xs i (get_or xs j d) in
      let kept : get_or ys j d ≡ get_or xs j d =
        ground (arith, get_or-set xs i j (get_or xs j d) d) in
      let written = rw kept at (set-perm ys j (get_or xs i d) d (rw length-set hj)) in
      Perm.cons_inv (Perm.trans written (set-perm xs i (get_or xs j d) d hi))

  pub concat-perm : (xs : List A) (a : A) → Perm (xs ++ (a ∷ [])) (a ∷ xs)
  concat-perm xs a = perm_append_singleton a xs

  -- Moving the last entry to the front of the list that loses its front.
  pub take-perm :
      (n : ℕ) (xs : List A) (d : A) → length xs ≡ suc n → Perm (get_or xs n d ∷ take n xs) xs
  take-perm n xs d h =
      Perm.trans (Perm.symm (concat-perm (take n xs) (get_or xs n d)))
        (rw (take-append_last n xs d h) (Perm.refl xs))

  -- Removing the entry at `i` and moving the last entry into its place.
  pub fill-perm :
      (n : ℕ) (xs : List A) (i : ℕ) (d : A)
      → length xs ≡ suc n
      → i < length xs
      → Perm (get_or xs i d ∷ take n (set xs i (get_or xs n d))) xs
  fill-perm n xs i d h p =
      let last = get_or xs n d in
      let ys = set xs i last in
      let same : get_or ys n d ≡ last = ground (arith, get_or-set xs i n last d) in
      let moved = rw same at (take-perm n ys d (length-set xs i last ∙ h)) in
      Perm.cons_inv (
        Perm.trans (Perm.swap (get_or xs i d) last (take n ys))
          (Perm.trans (Perm.cons (get_or xs i d) moved) (set-perm xs i last d p)))

  pub get_or-mem : (xs : List A) (i : ℕ) (d : A) → i < length xs → Mem (get_or xs i d) xs
  get_or-mem [] i d h = absurd (omega arith)
  get_or-mem (x ∷ xs) zero d h = mem-cons.1 (Or.inl refl)
  get_or-mem (x ∷ xs) (suc i) d h = mem-cons.1 (Or.inr (get_or-mem xs i d (omega arith)))

  pub get_elem?-some :
      (xs : List A) (i : ℕ) (d : A) {a : A}
      → get_elem? xs i ≡ some a
      → (i < length xs) × (get_or xs i d ≡ a)
  get_elem?-some [] i d e = cc
  get_elem?-some (x ∷ xs) zero d e = (omega arith, ground arith)
  get_elem?-some (x ∷ xs) (suc i) d e =
      let (inside, same) = get_elem?-some xs i d e in (omega arith, same)

  pub All-mem {κ} :
      (P : A → Type κ) (xs : List A)
      → ((a : A) → IsProp (P a))
      → All P xs
      → (a : A) → Mem a xs
      → P a
  All-mem P [] prop h a m = absurd (not-mem-nil m)
  All-mem P (x ∷ xs) prop h a m =
      Or.elim (prop a) (mem-cons.0 m) (λ same. rw same h.0) (All-mem P xs prop h.1 a)
