-- ===== src/File/Keys.antt =====
-- internal/file/file.go: the keys of a file, how its name is kept, which group it belongs to, and
-- the list of files; internal/file/pname.go: the names that the owner keeps for private files.
-- base64 is a parameter; the random bytes are arguments.
pub mod Wrapping
use fnshare.Prelude.{
  ℕ, ◌≡◌, refl, Bool, true, false, not, ◌&&◌, ◌||◌, List, [], ◌∷◌, ◌++◌, map, Option, none, some,
  arith, Result, ok, err, guard, or_fail, ◌>>=◌, ◌>>◌, if◌then◌else◌, length, ◌==◌, ite,
}
use fnshare.Prelude.Bytes.{Bytes, codes, bytes_dec}
use fnshare.Codec.{Codec}
use fnshare.Store.{Badger, StoreError}
use fnshare.Store
use fnshare.Group
use fnshare.Group.{Group, Member, Deps, GroupError}
use fnshare.Manifest
use fnshare.Manifest.{Manifest, mode_shared, mode_private}
use fnshare.Crypto.{
  Primitives, CryptoError, file_key_size, enc_pub_size, seal_aes, open_aes, seal_anonymous,
  open_anonymous,
}

pub record Base64 : Type 0 where
  pub encode : Bytes → Bytes
  pub decode : Bytes → Option Bytes

-- What the service knows of this node.
pub record Identity : Type 0 where
  pub self : Bytes
  pub enc_pub : Bytes
  pub enc_priv : Bytes

pub data KeyError : Type 0 where
  no_shared_key no_keypair only_owner predates_encryption : KeyError
  unknown_mode : Bytes → KeyError
  crypto_failed : CryptoError → KeyError

-- The wrapped key, the name for the manifest, and whether that is encrypted.
abbrev pub Wrapped : Type 0
Wrapped = Bytes × Bytes × Bool

abbrev pub or_crypto : {A : Type 0} → Result CryptoError A → Result KeyError A
or_crypto (ok a) = ok a
or_crypto (err e) = err (crypto_failed e)

module _ (c : Primitives) (b : Base64) (self : Identity) where
  unfoldable pub wrap_shared : Bytes → Bytes → Group → Option Bytes → Result KeyError Wrapped
  wrap_shared file_key filename g nonce = do
    guard (length g.shared_key == file_key_size) no_shared_key
    wrapped ← or_crypto (seal_aes c g.shared_key nonce file_key)
    ok (wrapped, filename, false)

  unfoldable pub wrap_private :
      Bytes → Bytes → Option Bytes → Option Bytes → Result KeyError Wrapped
  wrap_private file_key filename random nonce = do
    guard (length self.enc_pub == enc_pub_size) no_keypair
    wrapped ← or_crypto (seal_anonymous c file_key self.enc_pub random)
    ct ← or_crypto (seal_aes c file_key nonce filename)
    ok (wrapped, b.encode ct, true)

  -- `wrapForMode`: `random` is what the box takes, `nonce` what AES-GCM takes.
  unfoldable pub wrap_for_mode :
      Bytes → Bytes → Bytes → Group → Option Bytes → Option Bytes → Result KeyError Wrapped
  wrap_for_mode mode file_key filename g random nonce =
      ite (bytes_dec mode mode_shared) (wrap_shared file_key filename g nonce) (
        ite (bytes_dec mode mode_private) (wrap_private file_key filename random nonce)
          (err (unknown_mode mode)))

  unfoldable pub unwrap_shared : Manifest → Group → Result KeyError Bytes
  unwrap_shared m g = do
    guard (length g.shared_key == file_key_size) no_shared_key
    or_crypto (open_aes c g.shared_key m.wrapped_key)

  unfoldable pub unwrap_private : Manifest → Result KeyError Bytes
  unwrap_private m =
      ite (bytes_dec m.owner_peer_id self.self)
        (or_crypto (open_anonymous c m.wrapped_key self.enc_pub self.enc_priv)) (err only_owner)

  -- `unwrapForMode`
  unfoldable pub unwrap_for_mode : Manifest → Group → Result KeyError Bytes
  unwrap_for_mode m g = ite (bytes_dec m.mode mode_shared) (unwrap_shared m g) (
      ite (bytes_dec m.mode []) (err predates_encryption)
        (ite (bytes_dec m.mode mode_private) (unwrap_private m) (err (unknown_mode m.mode))))

  -- `maybeDecryptFilename`: the empty text where it fails.
  unfoldable pub maybe_decrypt_filename : Manifest → Bytes → Bytes
  maybe_decrypt_filename m file_key =
      if not m.filename_encrypted then m.filename else elim (b.decode m.filename) [
        | none ↦ []
        | some ct ↦ elim (open_aes c file_key ct) [ err e ↦ [] | ok pt ↦ pt ]
      ]

pub data ResolveError : Type 0 where
  not_found : GroupError → ResolveError
  list_failed : StoreError → ResolveError
  no_group many_groups : ResolveError

-- `resolveGroup`
unfoldable pub resolve_group : (d : Deps) → d.badger.Db → Bytes → Result ResolveError Group
resolve_group d db gid =
    if not (length gid == 0)
    then elim (Group.load_by_id d db gid) [ ok g ↦ ok g | err e ↦ err (not_found e) ]
    else (let (groups, e) = Group.list_groups d db in
        elim e [
          | some x ↦ err (list_failed x)
          | none ↦ elim groups [
            | [] ↦ err no_group
            | g ∷ rest ↦ elim rest [ [] ↦ ok g | h ∷ more ↦ err many_groups ]
          ]
        ])

abbrev pub pname_key_prefix : Bytes
pname_key_prefix = codes "pname/"

unfoldable pub pname_key : Bytes → Bytes
pname_key file_id = pname_key_prefix ++ file_id

module _ (b : Badger) (names : Codec Bytes) where
  -- `savePrivateName`: none where it fails.
  unfoldable pub save_private_name : b.Db → Bytes → Bytes → Option b.Db
  save_private_name db file_id name =
      if length name == 0 then some db else elim (names.marshal name) [
        | none ↦ none
        | some raw ↦ elim (Store.put b db (pname_key file_id) raw) [
          | err e ↦ none
          | ok db' ↦ some db'
        ]
      ]

  -- `loadPrivateName`
  unfoldable pub load_private_name : b.Db → Bytes → Option Bytes
  load_private_name db file_id = elim (Store.get b db (pname_key file_id)) [
    | err e ↦ none
    | ok raw ↦ names.unmarshal raw
  ]

  -- What `List` shows of a manifest: the owner sees the names of its private files.
  unfoldable pub shown : b.Db → Bytes → Manifest → Manifest
  shown db self m =
      if ite (bytes_dec m.mode mode_private) true false
        && (ite (bytes_dec m.owner_peer_id self) true false && m.filename_encrypted)
      then elim (load_private_name db m.file_id) [
        | none ↦ m
        | some name ↦ record m { filename = name; filename_encrypted = false }
      ]
      else m

  -- `(*Service).List`
  unfoldable pub list_files : Codec Manifest → b.Db → Bytes → Result StoreError (List Manifest)
  list_files manifests db self =
      let (all, e) = Manifest.list b manifests db in
      elim e [ some x ↦ err x | none ↦ ok (map (shown db self) all) ]
