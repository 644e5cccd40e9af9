-- ===== src/Blockstore.antt =====
-- internal/blockstore/blockstore.go: shards on the local disk, under the hash of their content.
-- The disk is a list of files by path; temporary files and folders are not shown. SHA-256 is a
-- parameter. Where a system call fails is an argument.
pub mod Integrity
pub mod Traversal
use fnshare.Prelude.{
  ℕ, ◌+◌, ◌-◌, ◌/◌, ◌%◌, ◌≡◌, refl, Bool, true, false, ◌&&◌, List, [], ◌∷◌, ◌++◌, Option, none,
  some, arith, Result, ok, err, guard, or_fail, ◌>>=◌, ◌>>◌, if◌then◌else◌, length, take, ltb, ◌==◌,
  ite,
}
use fnshare.Prelude.Bytes.{Bytes, codes, bytes_dec}
use fnshare.Prelude.Paths.{FilePath, path_dec, join}
use fnshare.Prelude.Assoc.{insert, delete}
use mathlib.Core.List.{lookup}

abbrev pub Files : Type 0
Files = List (FilePath × Bytes)

-- `hex.EncodeToString`
unfoldable pub hex_digit : ℕ → ℕ
hex_digit n = if ltb n 10 then b'0' + n else b'a' + (n - 10)

unfoldable pub hex : Bytes → Bytes
unfolding hex_digit
hex [] = []
hex (c ∷ s) = hex_digit (c / 16) ∷ hex_digit (c % 16) ∷ hex s

pub data BlockError : Type 0 where
  block_not_found hash_mismatch io_failed : BlockError

-- What the disk does with a write: `os.MkdirAll`, `os.CreateTemp`, `Write`, `Close` and `os.Rename`
-- may each fail.
pub data Disk : Type 0 where
  fine mkdir_fails create_fails write_fails close_fails rename_fails : Disk

module _ (sha256 : Bytes → Bytes) where
  -- `HashOf`
  unfoldable pub hash_of : Bytes → Bytes
  hash_of content = hex (sha256 content)

  -- `verifyHash`
  unfoldable pub verify_hash : Bytes → Bytes → Bool
  unfolding hash_of
  verify_hash expected_hex content = ite (bytes_dec (hash_of content) expected_hex) true false

-- `(*Store).path`, under the folder `root`.
unfoldable pub path : FilePath → Bytes → FilePath
path root shard_id =
    if ltb (length shard_id) 2
    then join root shard_id
    else join (join root (take 2 shard_id)) shard_id

-- The temporary file, renamed to `dst` once it is complete.
unfoldable pub write_atomically : Disk → Files → FilePath → Bytes → Result BlockError Files
write_atomically fine files dst content = ok (insert path_dec dst content files)
write_atomically mkdir_fails files dst content = err io_failed
write_atomically create_fails files dst content = err io_failed
write_atomically write_fails files dst content = err io_failed
write_atomically close_fails files dst content = err io_failed
write_atomically rename_fails files dst content = err io_failed

module _ (sha256 : Bytes → Bytes) (root : FilePath) where
  -- `Put`
  unfoldable pub put : Disk → Files → Bytes → Bytes → Result BlockError Files
  put disk files shard_id content = do
    guard (verify_hash sha256 shard_id content) hash_mismatch
    write_atomically disk files (path root shard_id) content

-- `Get` on a disk that reads each file that it has; the error of one that does not is not shown.
unfoldable pub get : FilePath → Files → Bytes → Result BlockError Bytes
get root files shard_id = or_fail (lookup path_dec (path root shard_id) files) block_not_found

-- `Has`
unfoldable pub has : FilePath → Files → Bytes → Bool
has root files shard_id = elim (lookup path_dec (path root shard_id) files) [
  | none ↦ false
  | some content ↦ true
]

-- `Delete`: a missing file is no error. `refused` is a removal that fails for another reason.
unfoldable pub remove : FilePath → Bool → Files → Bytes → Result BlockError Files
remove root refused files shard_id =
    if refused && has root files shard_id
    then err io_failed
    else ok (delete path_dec (path root shard_id) files)
