-- ===== src/Fuse/Names.antt =====
-- The names of the tree: what the operating system takes for the name of a file.
use fnshare.Prelude.{
  ℕ, zero, suc, ◌≤◌, ◌<◌, ◌≡◌, ◌≢◌, refl, ap, sym, ◌∙◌, subst, inl, inr, false, [], ◌∷◌, arith,
  Bool-cases, length, take, ltb, ◌==◌, length-take,
}
use fnshare.Prelude.Bytes.{Bytes, codes}
use fnshare.Fuse.{replaced, sanitize}

-- No slash, and no zero byte.
abbrev pub IsClean : Bytes → Type 0
IsClean [] = Unit {0}
IsClean (c ∷ s) = (c ≢ 47) × (c ≢ 0) × IsClean s

IsClean-replaced : (s : Bytes) → IsClean (replaced s)
unfolding replaced
IsClean-replaced [] = tt
IsClean-replaced (c ∷ s) =
    (λ e. absurd (ground arith), λ e. absurd (ground arith), IsClean-replaced s)

IsClean-take : (n : ℕ) (s : Bytes) → IsClean s → IsClean (take n s)
IsClean-take zero s h = tt
IsClean-take (suc n) [] h = tt
IsClean-take (suc n) (c ∷ s) h = (h.0, h.1, IsClean-take n s h.2)

length-replaced : (s : Bytes) → length (replaced s) ≡ length s
unfolding replaced
length-replaced [] = refl
length-replaced (c ∷ s) = ap suc (length-replaced s)

replaced_clean : (s : Bytes) → IsClean s → replaced s ≡ s
unfolding replaced
replaced_clean [] h = refl
replaced_clean (c ∷ s) h = ground (arith, replaced_clean s h.2)

-- A name that the operating system takes.
abbrev pub IsName : Bytes → Type 0
IsName t = (1 ≤ length t) × (length t ≤ 200) × IsClean t

IsName-long : (s : Bytes) → 200 < length (replaced s) → IsName (take 200 (replaced s))
IsName-long s long = (
  omega (arith, length-take 200 (replaced s)),
  omega (arith, length-take 200 (replaced s)),
  IsClean-take 200 (replaced s) (IsClean-replaced s),
)

IsName-short : (s : Bytes) → 1 ≤ length s → length (replaced s) ≤ 200 → IsName (replaced s)
IsName-short s some_bytes short = (omega (arith, length-replaced s), short, IsClean-replaced s)

IsName-empty : IsName (codes "_")
IsName-empty =
    (omega arith, omega arith, ((λ e. absurd (omega arith)), (λ e. absurd (omega arith)), tt))

at_most : {k n : ℕ} → ltb k n ≡ false → n ≤ k
at_most h = ground arith

not_over : {k n : ℕ} → n ≤ k → ltb k n ≡ false
not_over h = ground arith

sanitize-IsName : (s : Bytes) → IsName (sanitize s)
unfolding sanitize
sanitize-IsName s = elim (Bool-cases (length s == 0)) [
  | inl empty ↦ let e : sanitize s ≡ codes "_" = ground arith in subst IsName (sym e) IsName-empty
  | inr some_bytes ↦ elim (Bool-cases (ltb 200 (length (replaced s)))) [
    | inl long ↦
        let e : sanitize s ≡ take 200 (replaced s) = ground arith in
        subst IsName (sym e) (IsName-long s (ground arith))
    | inr short ↦
        let e : sanitize s ≡ replaced s = ground arith in
        subst IsName (sym e) (IsName-short s (ground arith) (at_most short))
  ]
]

sanitize_short :
    (s : Bytes)
    → (length s == 0) ≡ false
    → ltb 200 (length (replaced s)) ≡ false
    → sanitize s ≡ replaced s
unfolding sanitize
sanitize_short s some_bytes fits = ground arith

sanitize_name : (s : Bytes) → IsName s → sanitize s ≡ s
sanitize_name s (some_bytes, fits, clean) =
    sanitize_short s (ground arith) (not_over (omega (arith, length-replaced s)))
    ∙ replaced_clean s clean

-- The name that is shown for any text has 1 to 200 bytes, none of them a slash or zero, and is
-- shown as it is.
pub sanitize_lem : (s : Bytes) → IsName (sanitize s) × (sanitize (sanitize s) ≡ sanitize s)
sanitize_lem s = (sanitize-IsName s, sanitize_name (sanitize s) (sanitize-IsName s))
