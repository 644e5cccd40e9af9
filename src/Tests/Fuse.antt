-- ===== src/Tests/Fuse.antt =====
-- The tree of a node with one group and one shared file.
use fnshare.Prelude.{refl, true, false, [], ◌∷◌, ◌++◌, ok, ◌≡◌, ◌↔◌, arith}
use fnshare.Prelude.Bytes.{Bytes, codes}
use fnshare.Store.Memory.{MemoryDb}
use fnshare.Fuse.{DirEntry, Node, root_node, group_node, file_node, lookup, readdir, sanitize}
use fnshare.Fuse.Access.{at_root, enter, IsAllowed, Reaches-IsAllowed}
use fnshare.Fuse.Listing.{Has, Finds, lookup-readdir}
use fnshare.Fuse.Names.{IsName, sanitize_lem}
use fnshare.File.Open.Own.{kept}
use fnshare.Tests.Put.{service, start, manifest}

sanitize_lem_example :
    IsName (sanitize (codes "a/b")) × (sanitize (sanitize (codes "a/b")) ≡ sanitize (codes "a/b"))
sanitize_lem_example = sanitize_lem (codes "a/b")

abbrev db : MemoryDb
db = record start.db {
  entries = start.db.entries ++ (codes "manifest/0102030405060708", codes "manifest") ∷ [];
}

abbrev friends : Node
friends = group_node (codes "a group of friends") (codes "friends")

lookup-readdir_example :
    Has (record { name = codes "a.txt"; is_dir = false } ∷ []) (codes "a.txt") false
    ↔ Finds (lookup service db friends (codes "a.txt")) false
unfolding readdir fnshare.Fuse.list_group_files fnshare.Fuse.sort_files fnshare.Fuse.all_files
    fnshare.File.Keys.list_files fnshare.Manifest.list fnshare.Store.iterate
    fnshare.Store.iterate_items fnshare.Store.Memory.matching fnshare.Prelude.Bytes.has_prefix
    fnshare.Prelude.ℕ_discrete fnshare.Tests.Instances.only_unmarshal
    fnshare.Prelude.Bytes.bytes_dec fnshare.Fuse.sorted_in fnshare.File.Keys.shown sanitize
    fnshare.Fuse.visible_name fnshare.File.Keys.load_private_name fnshare.File.Keys.pname_key
    fnshare.Fuse.owned_here fnshare.Fuse.owned_of fnshare.Fuse.replaced fnshare.Fuse.short_id
    fnshare.Group.list_groups fnshare.Store.get
lookup-readdir_example =
    lookup-readdir service db friends (record { name = codes "a.txt"; is_dir = false } ∷ [])
      (codes "a.txt") false refl (λ same. absurd (ground arith))

Reaches-IsAllowed_example : IsAllowed service db (kept manifest)
unfolding lookup fnshare.Group.list_groups fnshare.Store.iterate fnshare.Store.iterate_items
    fnshare.Store.Memory.matching fnshare.Prelude.Bytes.has_prefix fnshare.Prelude.ℕ_discrete
    fnshare.Tests.Instances.only_unmarshal fnshare.Prelude.Bytes.bytes_dec fnshare.Fuse.find_group
    sanitize fnshare.Fuse.replaced fnshare.Fuse.find_file fnshare.Fuse.list_group_files
    fnshare.Fuse.sort_files fnshare.Fuse.all_files fnshare.File.Keys.list_files
    fnshare.File.Keys.load_private_name fnshare.File.Keys.pname_key fnshare.File.Keys.shown
    fnshare.Fuse.owned_here fnshare.Fuse.owned_of fnshare.Fuse.short_id fnshare.Fuse.sorted_in
    fnshare.Fuse.visible_name fnshare.Manifest.list fnshare.Store.get
Reaches-IsAllowed_example = Reaches-IsAllowed service db (kept manifest) (
    enter friends (file_node (kept manifest)) (codes "a.txt")
      (enter root_node friends (codes "friends") at_root refl) refl)
