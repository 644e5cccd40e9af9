-- ===== src/Prelude/Int64.antt =====
-- Go's `int64` and `int`: integers from -2^63 to 2^63 - 1, whose sums wrap around.
use fnshare.Prelude.Tests.{ltb, if◌then◌else◌}
use fnshare.Prelude.Int.{ℤ, pos, negsuc, ◌+ℤ◌, ◌-ℤ◌, ◌≤ℤ◌}
use Prim.Native.Nat.{◌-◌, ◌%◌, ◌^◌}
use mathlib.Core.Path.{◌≡◌}
use native.Mathlib.Omega.{arith}

unfoldable pub wrap64 : ℤ → ℤ
wrap64 (pos n) =
    if ltb (n % 2 ^ 64) (2 ^ 63) then pos (n % 2 ^ 64) else negsuc (2 ^ 64 - 1 - n % 2 ^ 64)
wrap64 (negsuc n) =
    if ltb (n % 2 ^ 64) (2 ^ 63) then negsuc (n % 2 ^ 64) else pos (2 ^ 64 - 1 - n % 2 ^ 64)

unfoldable pub add64 : ℤ → ℤ → ℤ
add64 a b = wrap64 (a +ℤ b)

unfoldable pub sub64 : ℤ → ℤ → ℤ
sub64 a b = wrap64 (a -ℤ b)

abbrev pub max_int64 : ℤ
max_int64 = pos 9223372036854775807

abbrev pub min_int64 : ℤ
min_int64 = negsuc 9223372036854775807

-- A value in range is kept.
pub wrap64_in_range : (a : ℤ) → min_int64 ≤ℤ a → a ≤ℤ max_int64 → wrap64 a ≡ a
unfolding wrap64
wrap64_in_range (pos n) l h = ground arith
wrap64_in_range (negsuc n) l h = ground arith

-- The result is always an `int64`.
pub wrap64_range : (a : ℤ) → (min_int64 ≤ℤ wrap64 a) × (wrap64 a ≤ℤ max_int64)
unfolding wrap64
wrap64_range (pos n) = ground arith
wrap64_range (negsuc n) = ground arith

pub add64_in_range : (a b : ℤ) → min_int64 ≤ℤ a +ℤ b → a +ℤ b ≤ℤ max_int64 → add64 a b ≡ a +ℤ b
unfolding add64
add64_in_range a b l h = wrap64_in_range (a +ℤ b) l h

pub sub64_in_range : (a b : ℤ) → min_int64 ≤ℤ a -ℤ b → a -ℤ b ≤ℤ max_int64 → sub64 a b ≡ a -ℤ b
unfolding sub64
sub64_in_range a b l h = wrap64_in_range (a -ℤ b) l h

-- Wrapping at each step is wrapping once at the end.
pub wrap64-add : (a b : ℤ) → wrap64 (wrap64 a +ℤ b) ≡ wrap64 (a +ℤ b)
unfolding wrap64 ◌+ℤ◌
wrap64-add (pos n) (pos m) = ground arith
wrap64-add (pos n) (negsuc m) = ground arith
wrap64-add (negsuc n) (pos m) = ground arith
wrap64-add (negsuc n) (negsuc m) = ground arith
