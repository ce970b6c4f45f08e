-- ===== src/Base/Int.antt =====
-- The signed integers of C code, over the native numbers: sums, and remainders that round to 0.
use Prim.Native.Nat.{ℕ, zero, suc, ◌+◌, ◌-◌, ◌*◌, ◌%◌}
use distributed_search_engin.Base.Tests.{ltb, if◌then◌else◌}

pub data ℤ : Type 0 where
  pos negsuc : ℕ → ℤ

-- `- n`
abbrev pub neg_ℕ : ℕ → ℤ
neg_ℕ zero = pos 0
neg_ℕ (suc n) = negsuc n

-- `m - n`
abbrev pub sub_ℕ : ℕ → ℕ → ℤ
sub_ℕ m n = if ltb m n then neg_ℕ (n - m) else pos (m - n)

infixl 65 ◌+ℤ◌
abbrev pub ◌+ℤ◌ : ℤ → ℤ → ℤ
pos a +ℤ pos b = pos (a + b)
pos a +ℤ negsuc b = sub_ℕ a (suc b)
negsuc a +ℤ pos b = sub_ℕ b (suc a)
negsuc a +ℤ negsuc b = negsuc (a + b + 1)

-- `a * z`, for a factor `a` that is not negative
abbrev pub scale : ℕ → ℤ → ℤ
scale a (pos n) = pos (a * n)
scale a (negsuc n) = neg_ℕ (a * suc n)

-- `z % p`, for `0 < p`: the sign is that of `z`
abbrev pub rem : ℤ → ℕ → ℤ
rem (pos n) p = pos (n % p)
rem (negsuc n) p = neg_ℕ (suc n % p)
