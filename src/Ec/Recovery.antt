-- ===== src/Ec/Recovery.antt =====
-- Any k of the k + m shards give the content back.
use fnshare.Prelude.{
  ℕ, suc, ◌+◌, ◌≤◌, ◌≡◌, refl, ap, ◌∙◌, ◌≢◌, ◌⊎◌, inl, inr, true, false, ◌||◌, List, [], ◌∷◌, ◌++◌,
  some, arith, ok, if◌then◌else◌, length, length-append, Bool-cases, Option-cases,
  take-length-append, take, ltb, ◌==◌,
}
use fnshare.Prelude.Bytes.{Bytes}
use mathlib.Core.List.{append-nil}
use fnshare.Ec.{Params, ReedSolomon, encode, decode, concat}

-- `partial` is `full` with some shards missing.
abbrev pub Masks : List Bytes → List Bytes → Type 0
Masks [] [] = Unit {0}
Masks [] (f ∷ full) = ⊥
Masks (p ∷ partial) [] = ⊥
Masks (p ∷ partial) (f ∷ full) = ((p ≡ []) ⊎ (p ≡ f)) × Masks partial full

-- The shards that are there.
abbrev pub present : List Bytes → ℕ
present [] = 0
present ([] ∷ shards) = present shards
present ((c ∷ s) ∷ shards) = present shards + 1

abbrev pub AllPresent : List Bytes → Type 0
AllPresent [] = Unit {0}
AllPresent (s ∷ shards) = (s ≢ []) × AllPresent shards

-- What the library documents: `Split` gives k + m shards, none empty, of which the first k hold the
-- content and its padding; `Encode` leaves those alone and fills in the rest; what it made passes
-- `Verify`, and `Reconstruct` finds it again from any k of its shards.
pub record ReedSolomonLaws (rs : ReedSolomon) : Type 0 where
  pub split_content :
      (k m : ℕ) (content : Bytes) (shards : List Bytes)
      → rs.split k m content ≡ some shards
      → (content ≢ [])
        × (length shards ≡ k + m)
        × ((padding : Bytes) × (concat (take k shards) ≡ content ++ padding))
  pub encode_content :
      (k m : ℕ) (shards full : List Bytes)
      → rs.encode k m shards ≡ some full
      → (length full ≡ length shards) × (take k full ≡ take k shards) × AllPresent full
  pub verify_encode :
      (k m : ℕ) (shards full : List Bytes)
      → rs.encode k m shards ≡ some full
      → rs.verify k m full ≡ some true
  pub reconstruct_encode :
      (k m : ℕ) (shards full partial : List Bytes)
      → rs.encode k m shards ≡ some full
      → Masks partial full
      → k ≤ present partial
      → rs.reconstruct k m partial ≡ some full

length-Masks : (partial full : List Bytes) → Masks partial full → length partial ≡ length full
length-Masks [] [] h = refl
length-Masks [] (f ∷ full) h = absurd h
length-Masks (p ∷ partial) [] h = absurd h
length-Masks (p ∷ partial) (f ∷ full) h = ap suc (length-Masks partial full h.1)

no_padding : (content padding : Bytes) → length padding ≡ 0 → content ++ padding ≡ content
no_padding content [] h = append-nil content
no_padding content (x ∷ padding) h = absurd (omega arith)

ltb_false→le : (a b : ℕ) → ltb a b ≡ false → b ≤ a
ltb_false→le a b h = ground arith

-- What the trimming at the end of `Decode` leaves of the content and its padding.
trimmed :
    (content padding out : Bytes)
    → out ≡ content ++ padding
    → (if ltb (length content) (length out) then take (length content) out else out) ≡ content
trimmed content padding out e = elim (Bool-cases (ltb (length content) (length out))) [
  | inl more ↦ rw (more, e) (take-length-append content padding)
  | inr same ↦
      rw (same, e)
        (no_padding content padding
          (omega (arith, ltb_false→le _ _ same, ap length e, length-append content padding)))
]

-- What a successful `Encode` did.
pub record Encoded (rs : ReedSolomon) (p : Params) (content : Bytes) (full : List Bytes)
    : Type 0 where
  pub valid : (p.data_shards == 0 || p.parity_shards == 0) ≡ false
  pub accepted : rs.accepts p.data_shards p.parity_shards ≡ true
  pub shards : List Bytes
  pub split : rs.split p.data_shards p.parity_shards content ≡ some shards
  pub encoded : rs.encode p.data_shards p.parity_shards shards ≡ some full

pub encode-Encoded :
    (rs : ReedSolomon) (p : Params) (content : Bytes) (full : List Bytes)
    → encode rs p content ≡ ok full
    → Encoded rs p content full
unfolding encode
encode-Encoded rs p content full e =
    elim (Option-cases (rs.split p.data_shards p.parity_shards content)) [
      | inl none_made ↦ absurd (ground arith)
      | inr (shards, made) ↦ record {
        valid = ground arith;
        accepted = ground arith;
        shards = shards;
        split = made;
        encoded = ground arith;
      }
    ]

module _ (rs : ReedSolomon) (laws : ReedSolomonLaws rs) where
  -- The shards that `Encode` made of a content, any of them lost but k, are decoded to that
  -- content, and `Decode` puts every lost shard back.
  pub decode-encode :
      (p : Params) (content : Bytes) (full partial : List Bytes)
      → encode rs p content ≡ ok full
      → Masks partial full
      → p.data_shards ≤ present partial
      → decode rs p partial (length content) ≡ ok (content, full)
  unfolding decode
  decode-encode p content full partial e masks enough = ground (
    arith,
    encoded.accepted,
    count,
    laws.reconstruct_encode k m shards full partial encoded.encoded masks enough,
    laws.verify_encode k m shards full encoded.encoded,
    trimmed content padding (concat (take k full)) (ap concat (made.1) ∙ padded),
  )
    where
      encoded : Encoded rs p content full
      encoded = encode-Encoded rs p content full e

      k : ℕ
      k = p.data_shards

      m : ℕ
      m = p.parity_shards

      shards : List Bytes
      shards = encoded.shards

      made : (length full ≡ length shards) × (take k full ≡ take k shards) × AllPresent full
      made = laws.encode_content k m shards full encoded.encoded

      padding : Bytes
      padding = (laws.split_content k m content shards encoded.split).2.0

      padded : concat (take k shards) ≡ content ++ padding
      padded = (laws.split_content k m content shards encoded.split).2.1

      count : length partial ≡ k + m
      count =
          length-Masks partial full masks
          ∙ made.0
          ∙ (laws.split_content k m content shards encoded.split).1
