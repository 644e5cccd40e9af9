-- ===== src/Manifest.antt =====
-- internal/manifest/manifest.go: how a file was cut into stripes and shards, and who holds them.
-- Counts and sizes are natural numbers here: a manifest with a negative one is not represented.
pub mod Kept
use fnshare.Prelude.{
  ℕ, Bool, true, List, [], ◌∷◌, ◌++◌, Option, none, some, Result, ok, err, get_elem?,
}
use fnshare.Prelude.Bytes.{Bytes, codes}
use fnshare.Prelude.Clock.{Time}
use fnshare.Codec.{Codec}
use fnshare.Store.{Badger, StoreError, not_found}
use fnshare.Store

pub record Stripe : Type 0 where
  pub index : ℕ
  pub shard_ids : List Bytes
  pub plaintext_bytes : ℕ
  pub ciphertext_bytes : ℕ

pub record Manifest : Type 0 where
  pub file_id : Bytes
  pub group_id : Bytes
  pub filename : Bytes
  pub size : ℕ
  pub data_shards : ℕ
  pub parity_shards : ℕ
  pub stripe_data_size : ℕ
  pub holders : List Bytes
  pub stripes : List Stripe
  pub created_at : Time
  pub owner_peer_id : Bytes
  pub mode : Bytes
  pub wrapped_key : Bytes
  pub filename_encrypted : Bool

abbrev pub mode_shared : Bytes
mode_shared = codes "shared"

abbrev pub mode_private : Bytes
mode_private = codes "private"

-- `HolderForShard`: the empty text for a slot that does not exist.
unfoldable pub holder_for_shard : Manifest → ℕ → Bytes
holder_for_shard m idx = elim (get_elem? m.holders idx) [ none ↦ [] | some holder ↦ holder ]

abbrev pub key_prefix : Bytes
key_prefix = codes "manifest/"

unfoldable pub key : Bytes → Bytes
key file_id = key_prefix ++ file_id

pub data ManifestError : Type 0 where
  manifest_not_found marshal_failed unmarshal_failed : ManifestError
  store : StoreError → ManifestError

module _ (b : Badger) (c : Codec Manifest) where
  -- `Put`
  unfoldable pub put : b.Db → Manifest → Result ManifestError b.Db
  put db m = elim (c.marshal m) [
    | none ↦ err marshal_failed
    | some raw ↦ elim (Store.put b db (key m.file_id) raw) [
      | ok db' ↦ ok db'
      | err e ↦ err (store e)
    ]
  ]

  -- `Get`
  unfoldable pub get : b.Db → Bytes → Result ManifestError Manifest
  get db file_id = elim (Store.get b db (key file_id)) [
    | err e ↦ elim e [
      | not_found ↦ err manifest_not_found
      | Store.badger x ↦ err (store (Store.badger x))
    ]
    | ok raw ↦ elim (c.unmarshal raw) [ none ↦ err unmarshal_failed | some m ↦ ok m ]
  ]

  -- `List`: entries that do not decode are skipped.
  unfoldable pub list : b.Db → List Manifest × Option StoreError
  list db =
      let visit : List Manifest → Bytes → Bytes → List Manifest × Bool =
        λ out _ v. elim (c.unmarshal v) [ none ↦ (out, true) | some m ↦ (out ++ m ∷ [], true) ] in
      Store.iterate b db key_prefix visit []
