-- ===== src/File/Cache/Keys.antt =====
-- internal/file/cache.go, `cacheKey` and `itoa`: two stripes never share a key.
use fnshare.Prelude.{
  ℕ, zero, suc, ◌+◌, ◌-◌, ◌*◌, ◌/◌, ◌%◌, ◌<◌, ◌≡◌, refl, ap, sym, ◌∙◌, ◌≢◌, inl, inr, [], true,
  false, ◌∷◌, ◌++◌, arith, Bool-cases, subst, ltb,
}
use fnshare.Prelude.Bytes.{Bytes}
use fnshare.File.Cache.{itoa_loop, itoa, cache_key}

-- The number that digits stand for, behind those that were read.
value : ℕ → Bytes → ℕ
value n [] = n
value n (c ∷ s) = value (n * 10 + (c - b'0')) s

digit : (n : ℕ) → n / 10 * 10 + (b'0' + n % 10 - b'0') ≡ n
digit n = omega arith

itoa_loop_step :
    (fuel n : ℕ) (buf : Bytes)
    → ltb 0 n ≡ true
    → itoa_loop (suc fuel) n buf ≡ itoa_loop fuel (n / 10) ((b'0' + n % 10) ∷ buf)
unfolding itoa_loop
itoa_loop_step fuel n buf h = ground arith

itoa_loop_done : (fuel n : ℕ) (buf : Bytes) → ltb 0 n ≡ false → itoa_loop fuel n buf ≡ buf
unfolding itoa_loop
itoa_loop_done zero n buf h = refl
itoa_loop_done (suc fuel) n buf h = ground arith

value-itoa_loop :
    (fuel n : ℕ) (buf : Bytes) → n < fuel → value 0 (itoa_loop fuel n buf) ≡ value n buf
unfolding value
value-itoa_loop zero n buf h = absurd (omega arith)
value-itoa_loop (suc fuel) n buf h = elim (Bool-cases (ltb 0 n)) [
  | inr done ↦
      let none_left : 0 ≡ n = ground arith in
      ap (value 0) (itoa_loop_done (suc fuel) n buf done) ∙ ap (λ (k : ℕ). value k buf) none_left
  | inl more ↦
      ap (value 0) (itoa_loop_step fuel n buf more)
      ∙ value-itoa_loop fuel (n / 10) ((b'0' + n % 10) ∷ buf) (ground arith)
      ∙ ap (λ (k : ℕ). value k buf) (digit n)
]

value-itoa : (n : ℕ) → value 0 (itoa n) ≡ n
unfolding itoa value
value-itoa n = ground (arith, value-itoa_loop (suc n) n [])

itoa_loop-zero : (n : ℕ) (buf : Bytes) → itoa_loop zero n buf ≡ buf
unfolding itoa_loop
itoa_loop-zero n buf = refl

abbrev NoColon : Bytes → Type 0
NoColon [] = Unit {0}
NoColon (c ∷ s) = (c ≢ b':') × NoColon s

not_colon : (n : ℕ) → b'0' + n % 10 ≢ b':'
not_colon n h = omega arith

itoa_loop-NoColon : (fuel n : ℕ) (buf : Bytes) → NoColon buf → NoColon (itoa_loop fuel n buf)
itoa_loop-NoColon zero n buf h = subst NoColon (sym (itoa_loop-zero n buf)) h
itoa_loop-NoColon (suc fuel) n buf h = elim (Bool-cases (ltb 0 n)) [
  | inr done ↦ subst NoColon (sym (itoa_loop_done (suc fuel) n buf done)) h
  | inl more ↦
      subst NoColon (sym (itoa_loop_step fuel n buf more))
        (itoa_loop-NoColon fuel (n / 10) ((b'0' + n % 10) ∷ buf) (not_colon n, h))
]

itoa-NoColon : (n : ℕ) → NoColon (itoa n)
unfolding itoa
itoa-NoColon n = ground (arith, itoa_loop-NoColon (suc n) n [] tt)

append-NoColon : (s t : Bytes) → NoColon (s ++ b':' ∷ t) → ⊥
append-NoColon [] t h = h.0 refl
append-NoColon (c ∷ s) t h = append-NoColon s t h.1

split_last :
    (f g s t : Bytes) → NoColon s → NoColon t → f ++ b':' ∷ s ≡ g ++ b':' ∷ t → (f ≡ g) × (s ≡ t)
split_last [] [] s t hs ht e = (refl, cc)
split_last [] (y ∷ g) s t hs ht e = absurd (append-NoColon g t (subst NoColon {x = s} (cc) hs))
split_last (x ∷ f) [] s t hs ht e = absurd (append-NoColon f s (subst NoColon {x = t} (cc) ht))
split_last (x ∷ f) (y ∷ g) s t hs ht e =
    let rest = split_last f g s t hs ht (cc) in let first : x ≡ y = cc in (cc, rest.1)

-- Two stripes have the same key in the cache only if they are the same stripe of the same file,
-- whatever bytes the ids of files are made of.
pub cache_key-injective :
    (f g : Bytes) (i j : ℕ) → cache_key f i ≡ cache_key g j → (f ≡ g) × (i ≡ j)
unfolding cache_key
cache_key-injective f g i j e =
    let parts = split_last f g (itoa i) (itoa j) (itoa-NoColon i) (itoa-NoColon j) e in
    (parts.0, sym (value-itoa i) ∙ ap (value 0) parts.1 ∙ value-itoa j)
