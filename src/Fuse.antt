-- ===== src/Fuse.antt =====
-- internal/fuse/fs.go: the files as a read-only tree, a folder for each group.
-- The mount and the inodes of the library, and `Getattr`, are not shown. The flags of an open file are
-- those of Linux, as a number.
pub mod Names
pub mod Listing
pub mod Access
use fnshare.Prelude.{
  ℕ, ◌/◌, ◌%◌, Bool, true, false, not, ◌&&◌, ◌||◌, List, [], ◌∷◌, ◌++◌, map, Option, none, some,
  Result, ok, err, if◌then◌else◌, length, take, ltb, leb, ◌==◌, ite,
}
use fnshare.Prelude.Bytes.{Bytes, codes, bytes_dec}
use fnshare.Group
use fnshare.Group.{Group}
use fnshare.Manifest.{Manifest, mode_shared, mode_private}
use fnshare.Node.Blocks.{State, Response}
use fnshare.File.Keys.{list_files}
use fnshare.File.ReadAt
use fnshare.File.ReadAt.{ReadError, eof}
use fnshare.File.Open.{Reader, open_reader}
use fnshare.File.Service.{FileService, services}

-- `strings.NewReplacer("/", "_", "\x00", "_")`
unfoldable pub replaced : Bytes → Bytes
replaced [] = []
replaced (c ∷ s) = (if c == b'/' || c == 0 then b'_' else c) ∷ replaced s

-- `sanitize`
unfoldable pub sanitize : Bytes → Bytes
sanitize s =
    if length s == 0
    then codes "_"
    else if ltb 200 (length (replaced s))
    then take 200 (replaced s)
    else replaced s

-- `shortID`
unfoldable pub short_id : Manifest → Bytes
short_id m = if leb 12 (length m.file_id) then take 12 m.file_id else m.file_id

-- `visibleName`
unfoldable pub visible_name : Manifest → Bytes → Bytes
visible_name m self =
    if ite (bytes_dec m.mode mode_private) true false && m.filename_encrypted
    then ite (bytes_dec m.owner_peer_id self) (short_id m ++ codes ".bin") []
    else if not (length m.filename == 0)
    then m.filename
    else short_id m ++ codes ".bin"

pub data Errno : Type 0 where
  eio enoent erofs : Errno
  -- the node has no such method
  not_a_folder : Errno
  -- a slice out of range
  fault : Errno

pub record DirEntry : Type 0 where
  pub name : Bytes
  pub is_dir : Bool

-- The nodes of the tree: `rootNode`, `groupNode`, `privateNode` and `fileNode`.
pub data Node : Type 0 where
  root_node : Node
  group_node : Bytes → Bytes → Node
  private_node : Bytes → Node
  file_node : Manifest → Node

-- What `listFiles` returns: the shared files, and the private ones of this node.
abbrev pub Shown : Type 0
Shown = List Manifest × List Manifest

abbrev pub dot_private : Bytes
dot_private = codes ".private"

module _ (f : FileService) (db : f.deps.badger.Db) where
  abbrev pub self : Bytes
  self = f.identity.self

  -- `sanitize(visibleName(m, self))`
  abbrev pub shown_name : Manifest → Bytes
  shown_name m = sanitize (visible_name m self)

  -- `all, _ := files.List()`
  unfoldable pub all_files : List Manifest
  all_files = elim (list_files f.deps.badger f.names f.manifests db self) [
    | ok ms ↦ ms
    | err e ↦ []
  ]

  -- One round of the loop of `listFiles`.
  unfoldable pub sorted_in : Bytes → Manifest → Shown → Shown
  sorted_in group_id m (shared, owned) =
      ite (bytes_dec m.group_id group_id)
        (ite (bytes_dec m.mode mode_shared) (m ∷ shared, owned)
          (ite (bytes_dec m.mode []) (m ∷ shared, owned)
            (ite (bytes_dec m.mode mode_private)
              (ite (bytes_dec m.owner_peer_id self) (shared, m ∷ owned) (shared, owned))
              (shared, owned))))
        (shared, owned)

  unfoldable pub sort_files : Bytes → List Manifest → Shown
  sort_files group_id [] = ([], [])
  sort_files group_id (m ∷ ms) = sorted_in group_id m (sort_files group_id ms)

  -- `(*groupNode).listFiles`
  unfoldable pub list_group_files : Bytes → Shown
  list_group_files group_id = sort_files group_id all_files

  unfoldable pub owned_of : Bytes → List Manifest → List Manifest
  owned_of group_id [] = []
  owned_of group_id (m ∷ ms) =
      let rest = owned_of group_id ms in
      ite (bytes_dec m.group_id group_id)
        (ite (bytes_dec m.mode mode_private) (ite (bytes_dec m.owner_peer_id self) (m ∷ rest) rest)
          rest)
        rest

  -- `(*privateNode).ownedHere`
  unfoldable pub owned_here : Bytes → List Manifest
  owned_here group_id = owned_of group_id all_files

  abbrev pub group_entry : Group → DirEntry
  group_entry g = record { name = sanitize g.name; is_dir = true }

  abbrev pub file_entry : Manifest → DirEntry
  file_entry m = record { name = shown_name m; is_dir = false }

  abbrev pub private_entry : DirEntry
  private_entry = record { name = dot_private; is_dir = true }

  -- `(*rootNode).Readdir`
  abbrev pub read_root : Result Errno (List DirEntry)
  read_root =
      let (groups, e) = Group.list_groups f.deps db in
      elim e [ some x ↦ err eio | none ↦ ok (map group_entry groups) ]

  -- `(*groupNode).Readdir`
  abbrev pub read_group : Bytes → Result Errno (List DirEntry)
  read_group group_id =
      let (shared, owned) = list_group_files group_id in
      ok (map file_entry shared ++ (if length owned == 0 then [] else private_entry ∷ []))

  -- `(*privateNode).Readdir`
  abbrev pub read_private : Bytes → Result Errno (List DirEntry)
  read_private group_id = ok (map file_entry (owned_here group_id))

  unfoldable pub readdir : Node → Result Errno (List DirEntry)
  readdir root_node = read_root
  readdir (group_node group_id name) = read_group group_id
  readdir (private_node group_id) = read_private group_id
  readdir (file_node m) = err not_a_folder

  -- `for _, g := range groups` in `Lookup`
  unfoldable pub find_group : Bytes → List Group → Result Errno Node
  find_group name [] = err enoent
  find_group name (g ∷ groups) =
      let rest = find_group name groups in
      ite (bytes_dec (sanitize g.name) name) (ok (group_node g.id g.name)) rest

  -- The loop over the files in `Lookup`.
  unfoldable pub find_file : Bytes → List Manifest → Result Errno Node
  find_file name [] = err enoent
  find_file name (m ∷ ms) =
      let rest = find_file name ms in ite (bytes_dec (shown_name m) name) (ok (file_node m)) rest

  -- `(*rootNode).Lookup`
  abbrev pub look_in_root : Bytes → Result Errno Node
  look_in_root name =
      let (groups, e) = Group.list_groups f.deps db in
      elim e [ some x ↦ err eio | none ↦ find_group name groups ]

  -- `(*groupNode).Lookup`
  abbrev pub look_in_group : Bytes → Bytes → Result Errno Node
  look_in_group group_id name =
      let (shared, owned) = list_group_files group_id in
      ite (bytes_dec name dot_private)
        (if length owned == 0 then err enoent else ok (private_node group_id))
        (find_file name shared)

  -- `(*privateNode).Lookup`
  abbrev pub look_in_private : Bytes → Bytes → Result Errno Node
  look_in_private group_id name = find_file name (owned_here group_id)

  unfoldable pub lookup : Node → Bytes → Result Errno Node
  lookup root_node name = look_in_root name
  lookup (group_node group_id group_name) name = look_in_group group_id name
  lookup (private_node group_id) name = look_in_private group_id name
  lookup (file_node m) name = err not_a_folder

-- `flags & (O_WRONLY|O_RDWR|O_APPEND|O_TRUNC) != 0`, with the values 1, 2, 1024 and 512
unfoldable pub writes : ℕ → Bool
writes flags = not (flags % 4 == 0) || not (flags / 512 % 4 == 0)

-- `(*fileNode).Open`; the warning cuts the file id.
unfoldable pub open_file :
    (f : FileService)
    → (Bytes → Option Response)
    → Manifest
    → ℕ
    → State (services f)
    → State (services f) × Result Errno Reader
open_file f answer m flags st =
    let (st', r) = open_reader f answer st m.file_id in
    if writes flags then (st, err erofs) else elim r [
      | ok rdr ↦ (st', ok rdr)
      | err e ↦ (st', err (if ltb (length m.file_id) 12 then fault else eio))
    ]

-- `(*openFile).Read`: what `ReadAt` copied, unless it failed.
unfoldable pub read :
    {S E : Type 0} → (S → ℕ → S × Result E Bytes) → Manifest → S → ℕ → ℕ → S × Result Errno Bytes
read stripe_bytes m s len offset =
    let (s', out, e) = ReadAt.read_at stripe_bytes m s len offset in
    elim e [ none ↦ (s', ok out) | some x ↦ elim x [ eof ↦ (s', ok out) | y ↦ (s', err eio) ] ]
