-- ===== src/Ec.antt =====
-- internal/ec/ec.go: erasure coding of one stripe.
-- The Reed-Solomon library is not part of the repository: it is the parameter `ReedSolomon`, with
-- its documented behaviour as `ReedSolomonLaws`. A missing shard is an empty one, as there. The
-- two counts are non-negative here: a negative one is refused where 0 is.
use fnshare.Prelude.{
  ℕ, zero, suc, ◌+◌, ◌-◌, ◌*◌, ◌/◌, ◌≤◌, ◌<◌, ◌≡◌, refl, ap, ◌∙◌, ◌≢◌, ◌⊎◌, inl, inr, Bool, true,
  false, not, ◌&&◌, ◌||◌, List, [], ◌∷◌, ◌++◌, Option, none, some, arith, Result, ok, err, guard,
  or_fail, ◌>>=◌, ◌>>◌, if◌then◌else◌, length, take, ltb, leb, ◌==◌,
}
use fnshare.Prelude.Bytes.{Bytes}
pub mod Recovery

pub record Params : Type 0 where
  pub data_shards : ℕ
  pub parity_shards : ℕ

-- `reedsolomon.New`, and the methods of the encoder for `k` data and `m` parity shards.
pub record ReedSolomon : Type 0 where
  pub accepts : ℕ → ℕ → Bool
  pub split : ℕ → ℕ → Bytes → Option (List Bytes)
  pub encode : ℕ → ℕ → List Bytes → Option (List Bytes)
  pub reconstruct : ℕ → ℕ → List Bytes → Option (List Bytes)
  pub verify : ℕ → ℕ → List Bytes → Option Bool

pub data EcError : Type 0 where
  invalid_params new_failed split_failed encode_failed : EcError
  expected_shards : ℕ → ℕ → EcError
  reconstruct_failed verify_failed : EcError

-- `Default`
unfoldable pub default : Params
default = record { data_shards = 2; parity_shards = 1 }

-- `ShardSize`; dividing by no data shards is a fault.
unfoldable pub shard_size : Params → ℕ → Option ℕ
shard_size p file_size =
    if file_size == 0
    then some 0
    else if p.data_shards == 0
    then none
    else some ((file_size + p.data_shards - 1) / p.data_shards)

abbrev pub concat : List Bytes → Bytes
concat [] = []
concat (s ∷ shards) = s ++ concat shards

module _ (rs : ReedSolomon) where
  -- `Encode`
  unfoldable pub encode : Params → Bytes → Result EcError (List Bytes)
  encode p bytes = do
    guard (not (p.data_shards == 0 || p.parity_shards == 0)) invalid_params
    guard (rs.accepts p.data_shards p.parity_shards) new_failed
    shards ← or_fail (rs.split p.data_shards p.parity_shards bytes) split_failed
    or_fail (rs.encode p.data_shards p.parity_shards shards) encode_failed

  -- `Decode`: the content, and the shards, which `Reconstruct` filled in.
  unfoldable pub decode : Params → List Bytes → ℕ → Result EcError (Bytes × List Bytes)
  decode p shards file_size = do
    guard (rs.accepts p.data_shards p.parity_shards) new_failed
    guard (length shards == p.data_shards + p.parity_shards)
        (expected_shards (p.data_shards + p.parity_shards) (length shards))
    full ← or_fail (rs.reconstruct p.data_shards p.parity_shards shards) reconstruct_failed
    valid ← or_fail (rs.verify p.data_shards p.parity_shards full) verify_failed
    guard valid verify_failed
    let out = concat (take p.data_shards full)
    ok (if ltb file_size (length out) then take file_size out else out, full)
