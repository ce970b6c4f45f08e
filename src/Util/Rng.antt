-- ===== src/Util/Rng.antt =====
-- include/util/rng.h, src/util/rng.c: the generator xoshiro256**, seeded by SplitMix64.
pub mod Draws
use native.Mathlib.Nat.{mod-lt}
use distributed_search_engin.Base.{
  ℕ, ◌+◌, ◌-◌, ◌*◌, ◌/◌, ◌%◌, ◌^◌, ◌≤◌, ◌<◌, Bool, false, leb, if◌then◌else◌, bit_or, bit_xor,
  Bool-cases, inl, inr, arith,
}
use distributed_search_engin.Double.{Double}

-- `RNG`: the four words `s`, and the variate that `rng_gauss` keeps
pub record Rng (F : Type 0) : Type 0 where
  pub s0 : ℕ
  pub s1 : ℕ
  pub s2 : ℕ
  pub s3 : ℕ
  pub has_spare : Bool
  pub spare : F

abbrev word : ℕ
word = 2 ^ 64

-- `splitmix64`: the result, and the word that `state` points to
unfoldable pub splitmix64 : ℕ → ℕ × ℕ
splitmix64 state =
    let s = (state + 0x9e3779b97f4a7c15) % word in
    let a = (bit_xor s (s / 2 ^ 30) * 0xbf58476d1ce4e5b9) % word in
    let b = (bit_xor a (a / 2 ^ 27) * 0x94d049bb133111eb) % word in (bit_xor b (b / 2 ^ 31), s)

-- `rng_seed`
unfoldable pub seed : {F : Type 0} ⦃d : Double F⦄ → ℕ → Rng F
unfolding splitmix64
seed ⦃d⦄ n =
    let (a, sm) = splitmix64 n in
    let (b, sm') = splitmix64 sm in
    let (c, sm'') = splitmix64 sm' in
    let (e, sm''') = splitmix64 sm'' in
    record { s0 = a; s1 = b; s2 = c; s3 = e; has_spare = false; spare = d.of_ℕ 0 }

-- `rotl`
unfoldable pub rotl : ℕ → ℕ → ℕ
rotl x k = bit_or ((x * 2 ^ k) % word) (x / 2 ^ (64 - k))

module _ {F : Type 0} where
  -- `rng_next`
  unfoldable pub next : Rng F → ℕ × Rng F
  unfolding rotl
  next r =
      let t = (r.s1 * 2 ^ 17) % word in
      let s2 = bit_xor r.s2 r.s0 in
      let s3 = bit_xor r.s3 r.s1 in
      let s1 = bit_xor r.s1 s2 in
      let s0 = bit_xor r.s0 s3 in
      (
        (rotl ((r.s1 * 5) % word) 7 * 9) % word,
        record r { s0 = s0; s1 = s1; s2 = bit_xor s2 t; s3 = rotl s3 45 },
      )

  -- `rng_int`, for bounds that are not negative
  unfoldable pub int : Rng F → ℕ → ℕ → ℕ × Rng F
  unfolding next
  int r lo hi = if leb hi lo then (lo, r) else (lo + (next r).0 % (hi - lo + 1), (next r).1)

  -- `rng_choice_index`
  unfoldable pub choice_index : Rng F → ℕ → ℕ × Rng F
  unfolding next
  choice_index r n = ((next r).0 % n, (next r).1)

  -- `rng_int` stays within its bounds, and `rng_choice_index` below `n`, whatever the state.
  pub draws_bounded :
      (r : Rng F) (lo hi n : ℕ)
      → lo ≤ hi
      → 0 < n
      → (lo ≤ (int r lo hi).0) × ((int r lo hi).0 ≤ hi) × ((choice_index r n).0 < n)
  unfolding int choice_index
  draws_bounded r lo hi n p q =
      let v = (next r).0 in
      let below : v % n < n = mod-lt v q in
      let inside : v % (hi - lo + 1) < hi - lo + 1 = mod-lt v (omega arith) in
      elim (Bool-cases (leb hi lo)) [
        | inl e ↦ rw e (omega arith, omega arith, below)
        | inr e ↦ rw e (omega arith, omega arith, below)
      ]

module _ {F : Type 0} ⦃d : Double F⦄ where
  -- `rng_double`
  unfoldable pub double : Rng F → F × Rng F
  unfolding next
  double r = (d.mul (d.of_ℕ ((next r).0 / 2 ^ 11)) (d.div (d.of_ℕ 1) (d.of_ℕ (2 ^ 53))), (next r).1)

  -- `rng_uniform`
  unfoldable pub uniform : Rng F → F → F → F × Rng F
  unfolding double
  uniform r lo hi = (d.add lo (d.mul (double r).0 (d.sub hi lo)), (double r).1)
