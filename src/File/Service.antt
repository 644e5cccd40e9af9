-- ===== src/File/Service.antt =====
-- internal/file/file.go: what the file service works with, and the ids of the members of a group.
use fnshare.Prelude.{
  ℕ, Bool, true, false, ◌&&◌, ◌||◌, List, [], ◌∷◌, map, Option, none, some, Result, ok, err,
  if◌then◌else◌, ltb, ◌==◌,
}
use fnshare.Prelude.Bytes.{Bytes}
use fnshare.Prelude.Clock.{Time}
use fnshare.Prelude.Paths.{FilePath}
use fnshare.Codec.{Codec}
use fnshare.Store.{StoreError}
use fnshare.Group
use fnshare.Group.{Deps, Member}
use fnshare.Ec.{Params, ReedSolomon}
use fnshare.Crypto.{Primitives}
use fnshare.Manifest.{Manifest}
use fnshare.Ledger
use fnshare.Node.Blocks.{Services}
use fnshare.File.Fetch.{Context}
use fnshare.File.Keys.{Base64, Identity}

-- The fields of `Service`, and the libraries that its methods call. The store is that of `deps`.
pub record FileService : Type 1 where
  pub deps : Deps
  pub manifests : Codec Manifest
  pub entries : Codec Ledger.Entry
  pub names : Codec Bytes
  pub sha256 : Bytes → Bytes
  pub root : FilePath
  pub base64 : Base64
  pub identity : Identity
  pub decode_peer : Bytes → Option Bytes
  pub rs : ReedSolomon
  pub primitives : Primitives
  pub params : Params
  pub stripe_size : ℕ
  pub spool : Option FilePath

abbrev pub services : FileService → Services
services f = record {
  badger = f.deps.badger;
  manifests = f.manifests;
  entries = f.entries;
  sha256 = f.sha256;
  root = f.root;
}

abbrev pub context : (f : FileService) → Time → Context (services f)
context f now = record {
  now = now;
  self = f.identity.self;
  decode_peer = f.decode_peer;
  rs = f.rs;
  primitives = f.primitives;
}

-- The order of Go's strings.
unfoldable pub less : Bytes → Bytes → Bool
less [] [] = false
less [] (d ∷ t) = true
less (c ∷ s) [] = false
less (c ∷ s) (d ∷ t) = ltb c d || (c == d && less s t)

unfoldable pub insert_string : Bytes → List Bytes → List Bytes
insert_string s [] = s ∷ []
insert_string s (t ∷ ts) =
    let rest = insert_string s ts in if less t s then t ∷ rest else s ∷ t ∷ ts

-- `sort.Strings`
unfoldable pub sort_strings : List Bytes → List Bytes
sort_strings [] = []
sort_strings (s ∷ ss) = insert_string s (sort_strings ss)

-- `groupMemberIDs`
unfoldable pub group_member_ids : (d : Deps) → d.badger.Db → Bytes → Result StoreError (List Bytes)
group_member_ids d db gid =
    let (members, e) = Group.list_members d db gid in
    elim e [ some x ↦ err x | none ↦ ok (sort_strings (map (λ (m : Member). m.peer_id) members)) ]
