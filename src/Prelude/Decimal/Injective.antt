-- ===== src/Prelude/Decimal/Injective.antt =====
-- Two numbers with the same digits are equal.
use fnshare.Prelude.Tests.{ltb, Bool-cases}
use mathlib.Core.Logic.{inl, inr}
use fnshare.Prelude.Bytes.{Bytes}
use fnshare.Prelude.Decimal.{digits_fuel, decimal}
use Prim.Native.Nat.{ℕ, zero, suc, ◌+◌, ◌-◌, ◌*◌, ◌/◌, ◌%◌, ◌<◌}
use native.Mathlib.Omega.{arith}
use mathlib.Core.Path.{◌≡◌, refl, ap, sym, ◌∙◌}
use mathlib.Core.Bool.{false}
use mathlib.Core.List.{[], ◌∷◌, ◌++◌}

-- The number that digits stand for.
value : ℕ → Bytes → ℕ
value acc [] = acc
value acc (c ∷ s) = value (acc * 10 + (c - 48)) s

value-append : (acc c : ℕ) (s : Bytes) → value acc (s ++ c ∷ []) ≡ value acc s * 10 + (c - 48)
unfolding value
value-append acc c [] = refl
value-append acc c (d ∷ s) = value-append (acc * 10 + (d - 48)) c s

over : {n : ℕ} → ltb n 10 ≡ false → n / 10 < n
over h = ground arith

value-digits_fuel : (fuel n : ℕ) → n < fuel → value 0 (digits_fuel fuel n) ≡ n
unfolding digits_fuel value
value-digits_fuel zero n h = absurd (omega arith)
value-digits_fuel (suc fuel) n h = elim (Bool-cases (ltb n 10)) [
  | inl digit ↦ ground arith
  | inr long ↦
      let rest = value-digits_fuel fuel (n / 10) (omega (arith, over long)) in
      let e : digits_fuel (suc fuel) n ≡ digits_fuel fuel (n / 10) ++ (48 + n % 10) ∷ [] =
        ground arith in
      ap (value 0) e
      ∙ value-append 0 (48 + n % 10) (digits_fuel fuel (n / 10))
      ∙ omega (arith, rest)
]

pub decimal-injective : (m n : ℕ) → decimal m ≡ decimal n → m ≡ n
unfolding decimal
decimal-injective m n e =
    sym (value-digits_fuel (suc m) m (omega arith))
    ∙ ap (value 0) e
    ∙ value-digits_fuel (suc n) n (omega arith)
