-- ===== src/Tests/Node.antt =====
-- A node with a group in memory: requests for shards, a join, a round of member sync.
use fnshare.Prelude.{
  ℕ, refl, ap, true, false, Bool, List, [], ◌∷◌, ◌++◌, Option, none, some, Result, ok, err, ◌≡◌,
  ◌⊎◌, arith, ite, if◌then◌else◌, ◌==◌, length, ◌≢◌,
}
use fnshare.Prelude.Bytes.{Bytes, codes, bytes_dec}
use fnshare.Prelude.Clock.{at}
use fnshare.Prelude.Paths.{FilePath, IsPlain}
use fnshare.Codec.{Codec}
use fnshare.Store.Memory.{memory, empty_db}
use fnshare.Blockstore.{fine, write_fails, hash_of}
use fnshare.Node.Blocks.{
  Request, Services, State, put_shard, get_shard, handle_blocks, write_frame, read_frame,
  ServeError, blockstore_not_initialized,
}
use fnshare.Node.Blocks.Frames.{read_frame-write_frame}
use fnshare.Node.Blocks.Serving.{Event, handle_all, put_shard_kept, handle_blocks_escapes}
use fnshare.Tests.Instances.{
  only, only-ReadsBack, never, group_dec, member_dec, digest, digest-Sha256Laws,
  digest_of-no_collision, shard, zeros, ones, tag, signs,
}

abbrev data_dir : FilePath
data_dir = codes "data" ∷ []

abbrev services : Services
services = record {
  badger = memory;
  manifests = never;
  entries = never;
  sha256 = digest;
  root = codes "blocks" ∷ data_dir;
}

-- A node with a key file beside its shards.
abbrev start : State services
start = record {
  db = empty_db;
  files = (codes "key" ∷ data_dir, codes "secret") ∷ [];
  dirty = [];
  has_blocks = true;
  has_ledger = false;
}

abbrev shard_put : Request
shard_put = record { op = put_shard; id = hash_of digest shard; body = shard }

-- Other requests in between: a shard with a wrong id, and one that another peer stores.
abbrev others : List Event
others =
    record {
      now = at 2;
      disk = fine;
      remote = codes "eve";
      request = some (record { op = put_shard; id = hash_of digest shard; body = codes "other" });
    }
    ∷ record {
      now = at 3;
      disk = fine;
      remote = codes "eve";
      request = some (record { op = put_shard; id = hash_of digest []; body = [] });
    }
    ∷ []

abbrev after_put : State services
after_put = (handle_blocks services (at 1) fine (codes "bob") start (some shard_put)).0

put_shard_kept_example :
    (handle_blocks services
      (at 4)
      fine
      (codes "carol")
      (handle_all services others after_put)
      (some (record { op = get_shard; id = hash_of digest shard; body = [] }))).1
    ≡ ok shard
unfolding handle_blocks fnshare.Node.Blocks.serve_block fnshare.Node.Blocks.serve_op
    fnshare.Node.Blocks.serve_put_shard fnshare.Blockstore.put fnshare.Blockstore.verify_hash
    bytes_dec fnshare.Blockstore.hex digest fnshare.Blockstore.write_atomically
    fnshare.Tests.Instances.digest_of
put_shard_kept_example =
    put_shard_kept services digest-Sha256Laws shard (digest_of-no_collision shard) (at 1) (at 4)
      fine fine (codes "bob") (codes "carol") (hash_of digest shard) start after_put others refl

key-IsPlain : IsPlain (codes "key")
key-IsPlain = record {
  no_slash =
      (λ e. absurd (omega arith), (λ e. absurd (omega arith), (λ e. absurd (omega arith), tt)));
  some_bytes = λ e. cc;
  not_dot = λ e. cc;
  not_dots = λ e. cc;
}

handle_blocks_escapes_example :
    (handle_blocks services
      (at 1)
      fine
      (codes "eve")
      start
      (some (record { op = get_shard; id = codes "./../key"; body = [] }))).1
    ≡ ok (codes "secret")
unfolding mathlib.Core.List.lookup fnshare.Prelude.Paths.path_dec
handle_blocks_escapes_example =
    handle_blocks_escapes services (at 1) fine (codes "eve") (codes "key") (codes "blocks")
      (codes "secret") data_dir start refl key-IsPlain refl refl

abbrev text_codec : Codec Bytes
text_codec = only bytes_dec (λ s. s) (codes "hello") (codes "\"hello\"")

read_frame-write_frame_example :
    read_frame text_codec (0 ∷ 0 ∷ 0 ∷ 7 ∷ codes "\"hello\"" ++ codes "rest")
    ≡ ok (codes "hello", codes "rest")
unfolding write_frame fnshare.Tests.Instances.only_marshal bytes_dec fnshare.Node.Blocks.put_uint32
read_frame-write_frame_example =
    read_frame-write_frame text_codec (λ s. s)
      (only-ReadsBack bytes_dec (λ s. s) (codes "hello") (codes "\"hello\"")) (codes "hello")
      (0 ∷ 0 ∷ 0 ∷ 7 ∷ codes "\"hello\"") (codes "rest") refl
