-- ===== src/Spool.antt =====
-- internal/spool/spool.go: shards and manifests that wait for a holder to come back, in files named
-- `<kind>_<key>` in a folder for each peer. The disk is that of `fnshare.Blockstore`; folders are
-- not shown, so a folder without files, which the source may leave behind, is not listed.
pub mod Worker
use fnshare.Prelude.{
  Bool, not, ◌||◌, List, [], ◌∷◌, ◌++◌, Option, none, some, Result, ok, err, or_fail, if◌then◌else◌,
  length, ◌==◌, ite,
}
use fnshare.Prelude.Bytes.{Bytes, codes, has_prefix}
use fnshare.Prelude.Paths.{FilePath, path_dec, join}
use fnshare.Prelude.Assoc.{delete}
use fnshare.Blockstore.{Files, Disk, BlockError, write_atomically}
use mathlib.Core.List.{lookup}

pub data Kind : Type 0 where
  shard manifest : Kind

unfoldable pub kind_dec : Discrete Kind
kind_dec = hlevel

abbrev pub kind_name : Kind → Bytes
kind_name shard = codes "s"
kind_name manifest = codes "m"

pub record Entry : Type 0 where
  pub peer_id : Bytes
  pub kind : Kind
  pub key : Bytes
  pub path : FilePath

pub data SpoolError : Type 0 where
  empty_peer_or_key : SpoolError
  disk_failed : BlockError → SpoolError
  read_failed remove_failed : SpoolError

-- The file of an entry.
unfoldable pub entry_path : FilePath → Bytes → Kind → Bytes → FilePath
entry_path root peer kind key = join (join root peer) (kind_name kind ++ (codes "_" ++ key))

-- `write`
unfoldable pub write :
    FilePath → Disk → Files → Bytes → Kind → Bytes → Bytes → Result SpoolError Files
write root disk files peer kind key bytes =
    if length peer == 0 || length key == 0
    then err empty_peer_or_key
    else elim (write_atomically disk files (entry_path root peer kind key) bytes) [
      | ok files' ↦ ok files'
      | err e ↦ err (disk_failed e)
    ]

-- `EnqueueShard`
unfoldable pub enqueue_shard :
    FilePath → Disk → Files → Bytes → Bytes → Bytes → Result SpoolError Files
enqueue_shard root disk files peer id bytes = write root disk files peer shard id bytes

-- `EnqueueManifest`
unfoldable pub enqueue_manifest :
    FilePath → Disk → Files → Bytes → Bytes → Bytes → Result SpoolError Files
enqueue_manifest root disk files peer id raw = write root disk files peer manifest id raw

-- The entry that a file name stands for: `<kind>_<key>` with a key, of a known kind.
unfoldable pub entry_of : FilePath → Bytes → Bytes → Option Entry
entry_of dir peer (k ∷ u ∷ c ∷ key) =
    if has_prefix (codes ".tmp-") (k ∷ u ∷ c ∷ key) || not (u == b'_')
    then none
    else if k == b's'
    then some
        (record { peer_id = peer; kind = shard; key = c ∷ key; path = (k ∷ u ∷ c ∷ key) ∷ dir })
    else if k == b'm'
    then some
        (record { peer_id = peer; kind = manifest; key = c ∷ key; path = (k ∷ u ∷ c ∷ key) ∷ dir })
    else none
entry_of dir peer _ = none

-- `ListEntries`: the files right in the folder of the peer.
unfoldable pub entries_in : FilePath → Bytes → Files → List Entry
entries_in dir peer [] = []
entries_in dir peer (([], bytes) ∷ files) = entries_in dir peer files
entries_in dir peer ((name ∷ parent, bytes) ∷ files) =
    let rest = entries_in dir peer files in
    ite (path_dec parent dir) (elim (entry_of dir peer name) [ none ↦ rest | some e ↦ e ∷ rest ])
      rest

unfoldable pub list_entries : FilePath → Files → Bytes → List Entry
list_entries root files peer = entries_in (join root peer) peer files

-- `Read`; `unreadable` is a file that cannot be read although it is there.
unfoldable pub read : Bool → Files → Entry → Result SpoolError Bytes
read unreadable files e =
    if unreadable then err read_failed else or_fail (lookup path_dec e.path files) read_failed

-- `Remove`; `refused` is a removal that fails.
unfoldable pub remove : Bool → Files → Entry → Result SpoolError Files
remove refused files e = if refused then err remove_failed else ok (delete path_dec e.path files)
