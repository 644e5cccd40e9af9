-- ===== src/Prelude/Clock.antt =====
-- Go's `time.Time`: the zero time, or an instant in nanoseconds since 1970.
use fnshare.Prelude.Int.{ℤ, pos, negsuc}
use Prim.Native.Nat.{ℕ, ◌*◌, ◌/◌}
use mathlib.Core.Path.{◌≡◌, refl}
use mathlib.Core.Bool.{Bool, true, false}

pub data Time : Type 0 where
  zero_time : Time
  at : ℕ → Time

abbrev pub is_zero : Time → Bool
is_zero zero_time = true
is_zero (at n) = false

abbrev pub second : ℕ
second = 1000000000

-- The CBOR library writes a time as whole seconds, and the zero time as null.
unfoldable pub to_seconds : Time → Time
to_seconds zero_time = zero_time
to_seconds (at n) = at (n / second * second)

pub is_zero-to_seconds : (t : Time) → is_zero (to_seconds t) ≡ is_zero t
unfolding to_seconds
is_zero-to_seconds zero_time = refl
is_zero-to_seconds (at n) = refl

-- `UnixNano`; the zero time is in the year 1.
unfoldable pub unix_nano : Time → ℤ
unix_nano zero_time = negsuc 6795364578871345151
unix_nano (at n) = pos n

-- `Unix`
unfoldable pub unix : Time → ℤ
unix zero_time = negsuc 62135596799
unix (at n) = pos (n / second)
