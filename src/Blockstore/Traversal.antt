-- ===== src/Blockstore/Traversal.antt =====
-- An id that is no hash can name a file outside the folder of the shards.
use fnshare.Prelude.{◌≡◌, ◌∷◌, ◌++◌, arith}
use fnshare.Prelude.Bytes.{Bytes, codes, bytes_dec}
use fnshare.Prelude.Paths.{FilePath, IsPlain, join, split_slash, walk, enter, split_slash-NoSlash}
use fnshare.Blockstore.{path}

-- The id `./../<name>` leads to the file of that name in the data folder, beside the shards.
pub path_escapes :
    (data_dir : FilePath) (blocks name : Bytes)
    → IsPlain name
    → path (blocks ∷ data_dir) (codes "./../" ++ name) ≡ name ∷ data_dir
unfolding path join split_slash walk enter bytes_dec
path_escapes data_dir blocks name h = ground (arith, split_slash-NoSlash name h.no_slash)
