-- ===== src/File/Open/Foreign.antt =====
-- What a peer can do with its answer to `fetchManifest`.
use fnshare.Prelude.{◌≡◌, ap, ◌∙◌, ◌≢◌, List, ◌∷◌, Option, some, arith, ok, err}
use fnshare.Prelude.Bytes.{Bytes}
use fnshare.Codec.{ReadsBack}
use fnshare.Store.{BadgerLaws}
use fnshare.Group
use fnshare.Group.{Member}
use fnshare.Manifest
use fnshare.Manifest.{Manifest, manifest_not_found}
use fnshare.Manifest.Kept.{get-put}
use fnshare.Node.Blocks.{State, Response, get_manifest_from_peer}
use fnshare.File.Service.{FileService, services}
use fnshare.File.Open.{ask_members, fetch_manifest, remember, find_manifest, open_reader}

module _ (f : FileService) where
  -- The first member answers.
  ask_first :
      (answer : Bytes → Option Response) (peer pid : Bytes) (mem : Member)
      (members : List (Bytes × Member)) (raw : Bytes) (m : Manifest)
      → mem.peer_id ≢ f.identity.self
      → f.decode_peer mem.peer_id ≡ some pid
      → answer pid ≡ some (ok raw)
      → f.manifests.unmarshal raw ≡ some m
      → ask_members f answer ((peer, mem) ∷ members) ≡ some m
  unfolding ask_members get_manifest_from_peer
  ask_first answer peer pid mem members raw m other decodes answers reads = ground arith

  -- `OpenReader` of a file that this node has no manifest of asks the members, and saves whatever
  -- manifest the first of them answers with, under the id that this manifest names, which need not be
  -- the one that was asked for: a member can replace the manifest that this node has of any other
  -- file.
  pub open_reader_overwrites :
      (laws : BadgerLaws f.deps.badger) (norm : Manifest → Manifest)
      (answer : Bytes → Option Response) (st : State (services f)) (file_id peer pid raw : Bytes)
      (mem : Member) (members : List (Bytes × Member)) (m : Manifest) (db : f.deps.badger.Db)
      → ReadsBack f.manifests norm
      → Manifest.get f.deps.badger f.manifests st.db file_id ≡ err manifest_not_found
      → Group.all_members_across_groups f.deps st.db ≡ ok ((peer, mem) ∷ members)
      → mem.peer_id ≢ f.identity.self
      → f.decode_peer mem.peer_id ≡ some pid
      → answer pid ≡ some (ok raw)
      → f.manifests.unmarshal raw ≡ some m
      → Manifest.put f.deps.badger f.manifests st.db m ≡ ok db
      → Manifest.get f.deps.badger f.manifests (open_reader f answer st file_id).0.db m.file_id
        ≡ ok (norm m)
  unfolding open_reader find_manifest fetch_manifest remember
  open_reader_overwrites laws norm answer st file_id peer pid raw mem members m db reads absent
        listed other decodes answers decoded saved =
      let asked = ask_first answer peer pid mem members raw m other decodes answers decoded in
      ap (λ d. Manifest.get f.deps.badger f.manifests d m.file_id) (ground (arith, asked))
      ∙ get-put f.deps.badger laws f.manifests norm st.db db m reads saved
