-- ===== src/Tests/Instances.antt =====
-- Concrete instances of the parameters: small, but they meet the laws that the theorems assume.
use fnshare.Prelude.{
  ℕ, ◌-◌, ◌≡◌, refl, ap, Bool, true, false, [], ◌∷◌, ◌++◌, Option, none, some, arith, length,
  length-append, take, take-length-append, ite, if_pos, if_neg,
}
use fnshare.Prelude.Bytes.{Bytes, bytes_dec, codes}
use fnshare.Codec.{Codec, ReadsBack}
use fnshare.Crypto.{Primitives, PrimitivesLaws}
use fnshare.Prelude.{ℕ_discrete, ◌∙◌, subst, sym, ltb, ◌&&◌}
use fnshare.Prelude.Int.{ℤ}
use fnshare.Prelude.Clock.{Time}
use fnshare.Prelude.Paths.{path_dec}
use fnshare.Blockstore.Integrity.{Sha256Laws, AreBytes}
use fnshare.Blockstore.{hash_of, hex, hex_digit}
use fnshare.Ledger.{Entry}
use fnshare.Group.{Group, Member}
use fnshare.Manifest.{Manifest, Stripe}

-- A codec for one value.
unfoldable pub only_marshal : {A : Type 0} → Discrete A → A → Bytes → A → Option Bytes
only_marshal dec a raw x = ite (dec x a) (some raw) none

unfoldable pub only_unmarshal : {A : Type 0} → A → Bytes → Bytes → Option A
only_unmarshal a raw s = ite (bytes_dec s raw) (some a) none

abbrev pub only : {A : Type 0} → Discrete A → (A → A) → A → Bytes → Codec A
only dec norm a raw = record {
  marshal = only_marshal dec a raw;
  unmarshal = only_unmarshal (norm a) raw;
}

pub only-ReadsBack :
    {A : Type 0} (dec : Discrete A) (norm : A → A) (a : A) (raw : Bytes)
    → ReadsBack (only dec norm a raw) norm
unfolding only_marshal only_unmarshal
only-ReadsBack dec norm a raw x raw' e = elim (dec x a) [
  | yes p ↦ ground (arith, ap norm p)
  | no p ↦ absurd (ground arith)
]

abbrev pub never : {A : Type 0} → Codec A
never = record { marshal = λ a. none; unmarshal = λ s. none }

unfoldable pub ℤ_dec : Discrete ℤ
unfolding ℕ_discrete
ℤ_dec = hlevel ℕ_discrete

unfoldable pub time_dec : Discrete Time
unfolding ℕ_discrete
time_dec = hlevel ℕ_discrete

unfoldable pub entry_dec : Discrete Entry
unfolding bytes_dec ℤ_dec time_dec
entry_dec = hlevel (bytes_dec, ℤ_dec, time_dec)

unfoldable pub member_dec : Discrete Member
unfolding bytes_dec ℤ_dec time_dec
member_dec = hlevel (bytes_dec, ℤ_dec, time_dec, path_dec)

unfoldable pub group_dec : Discrete Group
unfolding bytes_dec time_dec
group_dec = hlevel (bytes_dec, time_dec)

unfoldable pub stripe_dec : Discrete Stripe
unfolding bytes_dec ℕ_discrete
stripe_dec = hlevel (bytes_dec, ℕ_discrete)

unfoldable pub manifest_dec : Discrete Manifest
unfolding bytes_dec time_dec stripe_dec ℕ_discrete
manifest_dec = hlevel (bytes_dec, time_dec, stripe_dec, ℕ_discrete)

-- Sealing appends a tag of zeros, and a box is its text.
abbrev pub tag : Bytes
tag = 0 ∷ 0 ∷ 0 ∷ 0 ∷ 0 ∷ 0 ∷ 0 ∷ 0 ∷ 0 ∷ 0 ∷ 0 ∷ 0 ∷ 0 ∷ 0 ∷ 0 ∷ 0 ∷ []

abbrev pub plain : Primitives
plain = record {
  gcm_seal = λ key nonce text. text ++ tag;
  gcm_open = λ key nonce text. some (take (length text - 16) text);
  box_seal = λ public random text. text;
  box_open = λ public private text. some text;
  pair = λ public private. true;
}

pub plain-PrimitivesLaws : PrimitivesLaws plain
plain-PrimitivesLaws = record {
  gcm_open-seal = λ key nonce text. ap some (
      ap (λ (n : ℕ). take n (text ++ tag)) (omega (arith, length-append text tag))
      ∙ take-length-append text tag);
  length-gcm_seal = λ key nonce text. length-append text tag;
  box_open-seal = λ public private random text h. refl;
}

-- One shard has a hash of its own, all other contents have another.
abbrev pub ones : Bytes
ones =
    255 ∷ 1 ∷ 1 ∷ 1 ∷ 1 ∷ 1 ∷ 1 ∷ 1 ∷ 1 ∷ 1 ∷ 1 ∷ 1 ∷ 1 ∷ 1 ∷ 1 ∷ 1 ∷ 1 ∷ 1 ∷ 1 ∷ 1 ∷ 1 ∷ 1 ∷ 1 ∷ 1
    ∷ 1 ∷ 1 ∷ 1 ∷ 1 ∷ 1 ∷ 1 ∷ 1 ∷ 1 ∷ []

abbrev pub zeros : Bytes
zeros = tag ++ tag

abbrev pub shard : Bytes
shard = codes "shard"

unfoldable pub digest_of : Bytes → Bytes → Bytes
digest_of special content = ite (bytes_dec content special) ones zeros

abbrev pub digest : Bytes → Bytes
digest = digest_of shard

unfoldable are_bytes : Bytes → Bool
are_bytes [] = true
are_bytes (c ∷ s) = ltb c 256 && are_bytes s

are_bytes-AreBytes : (s : Bytes) → are_bytes s ≡ true → AreBytes s
unfolding are_bytes
are_bytes-AreBytes [] h = tt
are_bytes-AreBytes (c ∷ s) h = (ground arith, are_bytes-AreBytes s (ground arith))

pub digest_of-Sha256Laws : (special : Bytes) → Sha256Laws (digest_of special)
unfolding digest_of are_bytes
digest_of-Sha256Laws special = record {
  size = λ content. ground arith;
  bytes = λ content. elim (bytes_dec content special) [
    | yes p ↦
        subst AreBytes (sym (if_pos (bytes_dec content special) p ones zeros))
          (are_bytes-AreBytes ones refl)
    | no p ↦
        subst AreBytes (sym (if_neg (bytes_dec content special) p ones zeros))
          (are_bytes-AreBytes zeros refl)
  ];
}

pub digest-Sha256Laws : Sha256Laws digest
digest-Sha256Laws = digest_of-Sha256Laws shard

pub digest_of-no_collision :
    (special other : Bytes)
    → hash_of (digest_of special) other ≡ hash_of (digest_of special) special
    → other ≡ special
unfolding digest_of hash_of hex hex_digit bytes_dec
digest_of-no_collision special other e = elim (bytes_dec other special) [
  | yes p ↦ p
  | no p ↦ absurd (ground arith)
]

-- Signatures of one key on one message.
unfoldable pub signs : Bytes → Bytes → Bytes → Bytes → Bool
signs owner text key message =
    ite (bytes_dec key owner) (ite (bytes_dec message text) true false) false
