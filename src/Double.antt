-- ===== src/Double.antt =====
-- The C type `double`: a parameter of the model, with the operations that the simulator uses.
-- What the theorems rely on of IEEE 754 stands in the records of laws below.
pub mod Sample
use distributed_search_engin.Base.{ℕ, ◌+◌, ◌*◌, ◌^◌, ◌≤◌, ◌≡◌, Bool, true, false, ltb, leb, ◌==◌}

-- The arithmetic, the comparisons and the functions of math.h, over a type `F` of values.
pub record Double (F : Type 0) : Type 0 where
  -- an `int` converted to `double`, and a literal without a fraction
  pub of_ℕ : ℕ → F
  -- a `double` converted to `int`, which drops the fraction
  pub to_ℕ : F → ℕ
  -- the literal m * 10^-k
  pub decimal : ℕ → ℕ → F
  pub neg : F → F
  pub add : F → F → F
  pub sub : F → F → F
  pub mul : F → F → F
  pub div : F → F → F
  pub fmin : F → F → F
  pub fmax : F → F → F
  -- `a < b`, `a <= b` and `a == b`, each false on a NaN
  pub lt : F → F → Bool
  pub le : F → F → Bool
  pub eq : F → F → Bool
  pub is_nan : F → Bool

-- IEEE 754 comparisons: the values that are not NaN are linearly ordered, and `rank` numbers them in
-- that order (the two zeros alike), since there are finitely many.
pub record HasOrder {F : Type 0} (d : Double F) : Type 0 where
  pub rank : F → ℕ
  pub lt_rank :
      (a b : F) → d.is_nan a ≡ false → d.is_nan b ≡ false → d.lt a b ≡ ltb (rank a) (rank b)
  pub le_rank :
      (a b : F) → d.is_nan a ≡ false → d.is_nan b ≡ false → d.le a b ≡ leb (rank a) (rank b)
  pub eq_rank : (a b : F) → d.is_nan a ≡ false → d.is_nan b ≡ false → d.eq a b ≡ (rank a == rank b)

-- IEEE 754 arithmetic on integers of at most 53 bits is exact.
abbrev pub max_exact : ℕ
max_exact = 2 ^ 53

pub record HasExact {F : Type 0} (d : Double F) : Type 0 where
  pub to-of : (n : ℕ) → n ≤ max_exact → d.to_ℕ (d.of_ℕ n) ≡ n
  pub add_exact : (m n : ℕ) → m + n ≤ max_exact → d.add (d.of_ℕ m) (d.of_ℕ n) ≡ d.of_ℕ (m + n)
  pub sub_exact : (m n : ℕ) → m + n ≤ max_exact → d.sub (d.of_ℕ (m + n)) (d.of_ℕ n) ≡ d.of_ℕ m
  pub mul_exact :
      (m n : ℕ)
      → m ≤ max_exact
      → n ≤ max_exact
      → m * n ≤ max_exact
      → d.mul (d.of_ℕ m) (d.of_ℕ n) ≡ d.of_ℕ (m * n)
  pub lt_exact : (m n : ℕ) → m ≤ max_exact → n ≤ max_exact → d.lt (d.of_ℕ m) (d.of_ℕ n) ≡ ltb m n

-- A whole number that `double` represents exactly.
pub record IsWhole {F : Type 0} (d : Double F) (x : F) : Type 0 where
  pub whole : x ≡ d.of_ℕ (d.to_ℕ x)
  pub small : d.to_ℕ x ≤ max_exact

-- IEEE 754 signs: the literal -1.0, which marks a device as idle, is below 0.
pub record HasSign {F : Type 0} (d : Double F) : Type 0 where
  pub minus_one : d.lt (d.neg (d.of_ℕ 1)) (d.of_ℕ 0) ≡ true
