-- ===== src/Codec.antt =====
-- The CBOR and JSON libraries, which are not part of the repository: a codec for each type that the
-- program writes. `marshal` fails as `cbor.Marshal` does, and `unmarshal` on text that it refuses.
use fnshare.Prelude.{◌≡◌, Option, some}
use fnshare.Prelude.Bytes.{Bytes}

pub record Codec (A : Type 0) : Type 0 where
  pub marshal : A → Option Bytes
  pub unmarshal : Bytes → Option A

-- What is written reads back, up to what the format does not keep (`norm`: the fractions of a
-- second in a time).
abbrev pub ReadsBack : {A : Type 0} → Codec A → (A → A) → Type 0
ReadsBack {A} c norm =
    (a : A) (raw : Bytes) → c.marshal a ≡ some raw → c.unmarshal raw ≡ some (norm a)
