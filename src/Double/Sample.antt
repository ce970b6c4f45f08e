-- ===== src/Double/Sample.antt =====
-- A small arithmetic on which the laws of `Double` hold and programs run: the natural numbers, one
-- value below them, and a NaN. It serves the tests.
use distributed_search_engin.Base.{
  ℕ, zero, suc, ◌+◌, ◌-◌, ◌*◌, ◌/◌, ◌^◌, ◌≡◌, refl, Bool, true, false, ◌==◌, ltb, leb,
  if◌then◌else◌, arith,
}
use distributed_search_engin.Double.{Double, HasOrder, HasExact, HasSign}

pub data Sample : Type 0 where
  num : ℕ → Sample
  minus nan : Sample

abbrev lift : (ℕ → ℕ → Sample) → Sample → Sample → Sample
lift f (num a) (num b) = f a b
lift f (num a) minus = minus
lift f (num a) nan = nan
lift f minus (num b) = minus
lift f minus minus = minus
lift f minus nan = nan
lift f nan b = nan

abbrev test : (ℕ → ℕ → Bool) → Sample → Sample → Bool
test f (num a) (num b) = f (suc a) (suc b)
test f (num a) minus = f (suc a) 0
test f (num a) nan = false
test f minus (num b) = f 0 (suc b)
test f minus minus = f 0 0
test f minus nan = false
test f nan b = false

abbrev negate : Sample → Sample
negate (num zero) = num zero
negate (num (suc n)) = minus
negate minus = num 1
negate nan = nan

abbrev nan? : Sample → Bool
nan? nan = true
nan? (num n) = false
nan? minus = false

abbrev place : Sample → ℕ
place (num n) = suc n
place minus = 0
place nan = 0

abbrev truncate : Sample → ℕ
truncate (num n) = n
truncate minus = 0
truncate nan = 0

instance abbrev pub sample : Double Sample
sample = record {
  of_ℕ = num;
  to_ℕ = truncate;
  decimal = λ m k. num (m / 10 ^ k);
  neg = negate;
  add = lift (λ a b. num (a + b));
  sub = lift (λ a b. if leb b a then num (a - b) else minus);
  mul = lift (λ a b. num (a * b));
  div = lift (λ a b. if b == 0 then nan else num (a / b));
  fmin = λ a b. if test ltb b a then b else a;
  fmax = λ a b. if test ltb a b then b else a;
  lt = test ltb;
  le = test leb;
  eq = test ◌==◌;
  is_nan = nan?;
}

test-place :
    (f : ℕ → ℕ → Bool) (a b : Sample)
    → nan? a ≡ false
    → nan? b ≡ false
    → test f a b ≡ f (place a) (place b)
test-place f (num a) (num b) p q = refl
test-place f (num a) minus p q = refl
test-place f minus (num b) p q = refl
test-place f minus minus p q = refl
test-place f nan b p q = ground arith
test-place f a nan p q = ground arith

pub sample_order : HasOrder sample
sample_order = record {
  rank = place;
  lt_rank = test-place ltb;
  le_rank = test-place leb;
  eq_rank = test-place ◌==◌;
}

pub sample_exact : HasExact sample
sample_exact = record {
  to-of = λ n h. refl;
  add_exact = λ m n h. refl;
  sub_exact = λ m n h. ground arith;
  mul_exact = λ m n p q h. refl;
  lt_exact = λ m n p q. ground arith;
}

pub sample_sign : HasSign sample
sample_sign = record { minus_one = refl }
