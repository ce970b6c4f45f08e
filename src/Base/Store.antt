-- ===== src/Base/Store.antt =====
-- Objects by their pointers: a store gives the object at a pointer, and nothing once it is freed.
use Prim.Native.Nat.{ℕ}
use mathlib.Core.Path.{◌≡◌, refl}
use mathlib.Core.Logic.{◌≢◌}
use mathlib.Core.Bool.{true}
use mathlib.Core.Option.{Option, none, some}
use native.Mathlib.Omega.{arith}
use distributed_search_engin.Base.Tests.{◌==◌, if◌then◌else◌, ne→==}

-- an object written back to its place
abbrev pub put_at : {A : Type 0} → (ℕ → Option A) → ℕ → A → ℕ → Option A
put_at store at a i = if i == at then some a else store i

-- an object freed
abbrev pub free_at : {A : Type 0} → (ℕ → Option A) → ℕ → ℕ → Option A
free_at store at i = if i == at then none else store i

pub put_at_same : {A : Type 0} (store : ℕ → Option A) (i : ℕ) (a : A) → put_at store i a i ≡ some a
put_at_same store i a = let same : (i == i) ≡ true = ground arith in rw same refl

pub put_at_other :
    {A : Type 0} (store : ℕ → Option A) (i j : ℕ) (a : A) → i ≢ j → put_at store j a i ≡ store i
put_at_other store i j a apart = rw (ne→== i j apart) refl

pub free_at_same : {A : Type 0} (store : ℕ → Option A) (i : ℕ) → free_at store i i ≡ none
free_at_same store i = let same : (i == i) ≡ true = ground arith in rw same refl
