-- ===== src/File/Open.antt =====
-- internal/file/file.go, `OpenReader`, `fetchManifest` and `Get`: the manifest, here or from the first
-- member that has it, and the key of the file. `members` of `AllMembersAcrossGroups` come in the
-- order of the store; Go leaves the order of its map open.
pub mod Own
pub mod Foreign
use fnshare.Prelude.{
  ℕ, suc, List, [], ◌∷◌, ◌++◌, Option, none, some, Result, ok, err, if◌then◌else◌, length, ◌==◌,
  ite,
}
use fnshare.Prelude.Bytes.{Bytes, bytes_dec}
use fnshare.Store.{StoreError}
use fnshare.Group
use fnshare.Group.{Member, GroupError}
use fnshare.Manifest
use fnshare.Manifest.{Manifest, ManifestError, manifest_not_found}
use fnshare.Node.Blocks.{State, Response, get_manifest_from_peer}
use fnshare.File.Keys.{KeyError, unwrap_for_mode, maybe_decrypt_filename}
use fnshare.File.ReadAt.{ReadError, read, eof}
use fnshare.File.Service.{FileService, services}

pub data OpenError : Type 0 where
  members_failed : StoreError → OpenError
  no_peer_has_manifest not_part_of_group : OpenError
  manifest_failed : ManifestError → OpenError
  key_failed : KeyError → OpenError

-- `Reader`, without the service; the position is that of `fnshare.File.ReadAt`.
pub record Reader : Type 0 where
  pub manifest : Manifest
  pub key : Bytes
  pub decrypted_filename : Bytes

module _ (f : FileService) where
  -- The loop of `fetchManifest`; `answer` is what a peer answers to the request for the manifest.
  unfoldable pub ask_members : (Bytes → Option Response) → List (Bytes × Member) → Option Manifest
  ask_members answer [] = none
  ask_members answer ((peer, m) ∷ members) =
      let rest = ask_members answer members in
      ite (bytes_dec m.peer_id f.identity.self) rest (elim (f.decode_peer m.peer_id) [
        | none ↦ rest
        | some pid ↦ elim (get_manifest_from_peer (services f) (answer pid)) [
          | none ↦ rest
          | some found ↦ some found
        ]
      ])

  -- `fetchManifest`
  unfoldable pub fetch_manifest :
      (Bytes → Option Response) → f.deps.badger.Db → Result OpenError Manifest
  fetch_manifest answer db = elim (Group.all_members_across_groups f.deps db) [
    | err e ↦ err (members_failed e)
    | ok members ↦ elim (ask_members answer members) [
      | none ↦ err no_peer_has_manifest
      | some m ↦ ok m
    ]
  ]

  -- `_ = manifest.Put(s.store, m)`
  unfoldable pub remember : f.deps.badger.Db → Manifest → f.deps.badger.Db
  remember db m = elim (Manifest.put f.deps.badger f.manifests db m) [ ok db' ↦ db' | err e ↦ db ]

  -- The manifest that `OpenReader` goes on with.
  unfoldable pub find_manifest :
      (Bytes → Option Response)
      → f.deps.badger.Db
      → Bytes
      → f.deps.badger.Db × Result OpenError Manifest
  find_manifest answer db file_id = elim (Manifest.get f.deps.badger f.manifests db file_id) [
    | ok m ↦ (db, ok m)
    | err e ↦ elim e [
      | manifest_not_found ↦ elim (fetch_manifest answer db) [
        | err x ↦ (db, err x)
        | ok m ↦ (remember db m, ok m)
      ]
      | x ↦ (db, err (manifest_failed x))
    ]
  ]

  -- What `OpenReader` does with the manifest.
  unfoldable pub reader_for : f.deps.badger.Db → Manifest → Result OpenError Reader
  reader_for db m = elim (Group.load_by_id f.deps db m.group_id) [
    | err e ↦ err not_part_of_group
    | ok g ↦ elim (unwrap_for_mode f.primitives f.base64 f.identity m g) [
      | err e ↦ err (key_failed e)
      | ok key ↦ ok (record {
        manifest = m;
        key = key;
        decrypted_filename = maybe_decrypt_filename f.primitives f.base64 f.identity m key;
      })
    ]
  ]

  -- `OpenReader`
  unfoldable pub open_reader :
      (Bytes → Option Response)
      → State (services f)
      → Bytes
      → State (services f) × Result OpenError Reader
  open_reader answer st file_id =
      let (db, r) = find_manifest answer st.db file_id in
      elim r [
        | err e ↦ (record st { db = db }, err e)
        | ok m ↦ (record st { db = db }, reader_for db m)
      ]
