-- ===== src/Tests/Mirror.antt =====
-- A Reed-Solomon library for one data shard: every shard is a copy of the content.
use fnshare.Prelude.{
  ℕ, zero, suc, ◌+◌, ◌≤◌, ◌≡◌, refl, ap, ◌≢◌, inl, inr, Bool, true, false, List, [], ◌∷◌, ◌++◌,
  Option, none, some, arith, length, take, ◌==◌, if◌then◌else◌, ite, subst,
}
use fnshare.Prelude.Bytes.{Bytes, bytes_dec}
use fnshare.Ec.{ReedSolomon, concat}
use fnshare.Ec.Recovery.{Masks, present, AllPresent, ReedSolomonLaws}

unfoldable pub copies : ℕ → Bytes → List Bytes
copies zero s = []
copies (suc n) s = s ∷ copies n s

unfoldable pub empties : ℕ → List Bytes
empties zero = []
empties (suc n) = [] ∷ empties n

-- The first shard that is there.
unfoldable pub first : List Bytes → Option Bytes
first [] = none
first ([] ∷ shards) = first shards
first ((c ∷ s) ∷ shards) = some (c ∷ s)

unfoldable pub all_same : Bytes → List Bytes → Bool
all_same s [] = true
all_same s (t ∷ shards) = ite (bytes_dec s t) (all_same s shards) false

unfoldable pub split : ℕ → ℕ → Bytes → Option (List Bytes)
split k m [] = none
split k m (c ∷ s) = if k == 1 then some ((c ∷ s) ∷ empties m) else none

unfoldable pub encode : ℕ → ℕ → List Bytes → Option (List Bytes)
encode k m [] = none
encode k m ([] ∷ shards) = none
encode k m ((c ∷ s) ∷ shards) =
    if k == 1 then some ((c ∷ s) ∷ copies (length shards) (c ∷ s)) else none

unfoldable pub refill : ℕ → Option Bytes → Option (List Bytes)
refill n none = none
refill n (some s) = some (copies n s)

unfoldable pub check : Option Bytes → List Bytes → Option Bool
check none shards = some false
check (some s) shards = some (all_same s shards)

abbrev pub mirror : ReedSolomon
mirror = record {
  accepts = λ k m. k == 1;
  split = split;
  encode = encode;
  reconstruct = λ k m shards. refill (length shards) (first shards);
  verify = λ k m shards. check (first shards) shards;
}

length-copies : (n : ℕ) (s : Bytes) → length (copies n s) ≡ n
unfolding copies
length-copies zero s = refl
length-copies (suc n) s = ap suc (length-copies n s)

length-empties : (n : ℕ) → length (empties n) ≡ n
unfolding empties
length-empties zero = refl
length-empties (suc n) = ap suc (length-empties n)

all_same-copies : (n : ℕ) (s : Bytes) → all_same s (copies n s) ≡ true
unfolding copies all_same
all_same-copies zero s = refl
all_same-copies (suc n) s = ground (arith, all_same-copies n s)

AllPresent-copies : (n c : ℕ) (s : Bytes) → AllPresent (copies n (c ∷ s))
unfolding copies
AllPresent-copies zero c s = tt
AllPresent-copies (suc n) c s = (λ e. cc, AllPresent-copies n c s)

first-Masks :
    (n c : ℕ) (s : Bytes) (partial : List Bytes)
    → Masks partial (copies n (c ∷ s))
    → 1 ≤ present partial
    → first partial ≡ some (c ∷ s)
unfolding copies first
first-Masks n c s [] h l = absurd (omega arith)
first-Masks zero c s (p ∷ partial) h l = absurd h
first-Masks (suc n) c s ([] ∷ partial) h l = first-Masks n c s partial h.1 l
first-Masks (suc n) c s ((d ∷ t) ∷ partial) (inl e, h) l = absurd (cc)
first-Masks (suc n) c s ((d ∷ t) ∷ partial) (inr e, h) l = ap some e

length-Masks : (partial full : List Bytes) → Masks partial full → length partial ≡ length full
length-Masks [] [] h = refl
length-Masks [] (f ∷ full) h = absurd h
length-Masks (p ∷ partial) [] h = absurd h
length-Masks (p ∷ partial) (f ∷ full) h = ap suc (length-Masks partial full h.1)

one : (k : ℕ) → (k == 1) ≡ true → k ≡ 1
one k h = ground arith

mirror-encode :
    (k m : ℕ) (shards full : List Bytes)
    → encode k m shards ≡ some full
    → (k ≡ 1)
      × (c : ℕ) × (s : Bytes) × (rest : List Bytes) × (shards ≡ (c ∷ s) ∷ rest)
      × (full ≡ copies (suc (length rest)) (c ∷ s))
unfolding encode copies
mirror-encode k m [] full h = absurd (ground arith)
mirror-encode k m ([] ∷ shards) full h = absurd (ground arith)
mirror-encode k m ((c ∷ s) ∷ shards) full h = (ground arith, c, s, shards, refl, ground arith)

mirror-split :
    (k m : ℕ) (content : Bytes) (shards : List Bytes)
    → split k m content ≡ some shards
    → (content ≢ [])
      × (length shards ≡ k + m)
      × ((padding : Bytes) × (concat (take k shards) ≡ content ++ padding))
unfolding split
mirror-split k m [] shards h = absurd (ground arith)
mirror-split k m (c ∷ s) shards h =
    (λ e. cc, ground (arith, made, length-empties m), ([], rw (made.0, made.1) refl))
  where
    made : (k ≡ 1) × (shards ≡ (c ∷ s) ∷ empties m)
    made = (ground arith, ground arith)

mirror-content :
    (k m : ℕ) (shards full : List Bytes)
    → encode k m shards ≡ some full
    → (length full ≡ length shards) × (take k full ≡ take k shards) × AllPresent full
unfolding copies
mirror-content k m shards full h =
    let (one, c, s, rest, made, all) = mirror-encode k m shards full h in
    rw (one, made, all)
      (
        ap suc (length-copies (length rest) (c ∷ s)),
        refl,
        AllPresent-copies (suc (length rest)) c s,
      )

mirror-check :
    (k m : ℕ) (shards full : List Bytes)
    → encode k m shards ≡ some full
    → check (first full) full ≡ some true
unfolding copies first check
mirror-check k m shards full h =
    let (one, c, s, rest, made, all) = mirror-encode k m shards full h in
    rw all (ap some (all_same-copies (suc (length rest)) (c ∷ s)))

mirror-refill :
    (k m : ℕ) (shards full partial : List Bytes)
    → encode k m shards ≡ some full
    → Masks partial full
    → k ≤ present partial
    → refill (length partial) (first partial) ≡ some full
unfolding refill
mirror-refill k m shards full partial h masks enough =
    let (one, c, s, rest, made, all) = mirror-encode k m shards full h in
    ground (
      arith,
      first-Masks (suc (length rest)) c s partial (subst (Masks partial) all masks) (omega arith),
      length-Masks partial full masks,
      length-copies (suc (length rest)) (c ∷ s),
      all,
    )

pub mirror-ReedSolomonLaws : ReedSolomonLaws mirror
mirror-ReedSolomonLaws = record {
  split_content = mirror-split;
  encode_content = mirror-content;
  verify_encode = mirror-check;
  reconstruct_encode = mirror-refill;
}
