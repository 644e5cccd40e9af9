-- ===== src/Tests/Put.antt =====
-- A node that puts a file of five bytes into a group of three, reads it and opens it again.
use fnshare.Prelude.{
  ℕ, zero, suc, ◌≤◌, subst, refl, ap, sym, ◌∙◌, true, false, List, [], ◌∷◌, ◌++◌, Option, none,
  some, Result, ok, err, ◌≡◌, arith, ite, take, drop, length,
}
use fnshare.Prelude.Int.{pos}
use fnshare.Prelude.Bytes.{Bytes, codes, bytes_dec}
use fnshare.Prelude.Clock.{Time, zero_time, at}
use fnshare.Store.Memory.{MemoryDb, memory, memory-BadgerLaws}
use fnshare.Codec.{Codec}
use fnshare.Group.{Group, Member, Deps, group_key, member_key}
use fnshare.Blockstore
use fnshare.Blockstore.{fine, hash_of}
use fnshare.Manifest
use fnshare.Manifest.{Manifest, Stripe}
use fnshare.Node.Blocks.{State, Response}
use fnshare.File.ReadAt.{read_at}
use fnshare.File.Fetch.{fetch_and_decrypt_stripe, slots_of}
use fnshare.File.Fetch.Gather.{able, Distinguishes, Honest}
use fnshare.File.Fetch.Recovery.{given}
use fnshare.File.Service.{FileService, services, context}
use fnshare.File.Put.{PutError, PutOptions, Draws, Answers, Body, put, mode_of}
use fnshare.File.Put.Recorded.{put-Recorded}
use fnshare.File.Put.ReadBack.{Reachable, read_at-put}
use fnshare.File.Open.{open_reader}
use fnshare.File.Open.Own.{kept, open_reader-put}
use fnshare.File.Open.Foreign.{open_reader_overwrites}
use fnshare.Tests.Instances.{
  only, only-ReadsBack, never, group_dec, manifest_dec, shard, digest_of, digest_of-no_collision,
  zeros, tag, plain, plain-PrimitivesLaws,
}
use fnshare.Tests.Mirror.{mirror, mirror-ReedSolomonLaws}
use fnshare.Prelude.{ℕ_discrete}
use mathlib.Core.List.{lookup}
use mathlib.Core.Option.{some-injective}

abbrev sealed : Bytes
sealed = codes "twelve bytesshard" ++ tag

abbrev group : Group
group = record {
  id = codes "a group of friends";
  name = codes "friends";
  admin_pub = [];
  admin_priv = [];
  created_at = zero_time;
  is_admin_node = false;
  shared_key = zeros;
}

-- A member record is its peer id.
abbrev member : Bytes → Member
member peer = record {
  peer_id = peer;
  nickname = [];
  node_pub = [];
  enc_pub = [];
  contributed = pos 0;
  joined_at = zero_time;
  admitted_by_sig = [];
  last_addrs = [];
  admission_invite = [];
}

abbrev peers : Codec Member
peers = record { marshal = λ m. some m.peer_id; unmarshal = λ raw. some (member raw) }

abbrev id : Bytes
id = hash_of (digest_of sealed) sealed

abbrev pub manifest : Manifest
manifest = record {
  file_id = codes "0102030405060708";
  group_id = codes "a group of friends";
  filename = codes "a.txt";
  size = 5;
  data_shards = 1;
  parity_shards = 2;
  stripe_data_size = 8;
  holders = codes "cy" ∷ codes "bo" ∷ codes "al" ∷ [];
  stripes =
      record {
        index = 0;
        shard_ids = id ∷ id ∷ id ∷ [];
        plaintext_bytes = 5;
        ciphertext_bytes = 33;
      }
      ∷ [];
  created_at = at 1000000000;
  owner_peer_id = codes "al";
  mode = codes "shared";
  wrapped_key = codes "wrapping key" ++ (zeros ++ tag);
  filename_encrypted = false;
}

abbrev pub service : FileService
service = record {
  deps = record {
    badger = memory;
    groups = only group_dec (λ g. g) group (codes "group");
    members = peers;
    addresses = never;
    ed25519 = record { sign = λ key message. []; verify = λ key message sig. true };
    invites = record {
      header = λ raw. none;
      fields = λ raw. none;
      bytes_value = λ raw. none;
      body = λ raw. none;
      marshal_payload = λ p. none;
    };
  };
  manifests = only manifest_dec kept manifest (codes "manifest");
  entries = never;
  names = never;
  sha256 = digest_of sealed;
  root = codes "blocks" ∷ [];
  base64 = record { encode = λ s. s; decode = λ s. some s };
  identity = record { self = codes "al"; enc_pub = zeros; enc_priv = zeros };
  decode_peer = λ p. some p;
  rs = mirror;
  primitives = plain;
  params = record { data_shards = 1; parity_shards = 2 };
  stripe_size = 8;
  spool = some (codes "spool" ∷ []);
}

abbrev pub start : State (services service)
start = record {
  db = record {
    entries =
        (codes "group/a group of friends", codes "group")
        ∷ (codes "member/a group of friends/cy", codes "cy")
        ∷ (codes "member/a group of friends/bo", codes "bo")
        ∷ (codes "member/a group of friends/al", codes "al")
        ∷ [];
    broken = false;
  };
  files = [];
  dirty = [];
  has_blocks = true;
  has_ledger = false;
}

abbrev draws : Draws
draws = record {
  file_id = some (1 ∷ 2 ∷ 3 ∷ 4 ∷ 5 ∷ 6 ∷ 7 ∷ 8 ∷ []);
  file_key = some zeros;
  wrap_random = some [];
  wrap_nonce = some (codes "wrapping key");
  stripe_nonce = λ i. some (codes "twelve bytes");
}

-- bo takes its shard, cy cannot be reached.
abbrev answers : Answers
answers = record {
  shard = λ peer shard_id. ite (bytes_dec peer (codes "bo")) (some (ok [])) none;
  manifest = λ peer. none;
}

abbrev body : Body
body = record { bytes = shard; fails = false }

abbrev options : PutOptions
options = record { group_id = []; mode = [] }

abbrev uploaded : State (services service) × Result PutError Manifest
uploaded = put service (at 1000000000) fine draws answers (codes "a.txt") body options start

puts : uploaded.1 ≡ ok manifest
unfolding put fnshare.File.Put.draft fnshare.File.Keys.resolve_group fnshare.Group.list_groups
    fnshare.Store.iterate fnshare.Store.iterate_items fnshare.Store.Memory.matching
    fnshare.Prelude.Bytes.has_prefix ℕ_discrete fnshare.Tests.Instances.only_unmarshal bytes_dec
    fnshare.Crypto.new_file_key fnshare.File.Service.group_member_ids fnshare.Group.list_members
    fnshare.Group.members_prefix fnshare.File.Service.sort_strings
    fnshare.File.Service.insert_string hash_of Blockstore.hex Blockstore.hex_digit Blockstore.path
    Blockstore.put Blockstore.verify_hash Blockstore.write_atomically fnshare.Crypto.seal_aes
    fnshare.Crypto.seal_anonymous fnshare.Ec.encode fnshare.File.Fetch.ship_shard
    fnshare.File.Fetch.ship_shards fnshare.File.Fetch.spool_shard fnshare.File.Fetch.stripe_for
    fnshare.File.Fetch.upload_stripe fnshare.File.Keys.pname_key fnshare.File.Keys.save_private_name
    fnshare.File.Keys.wrap_for_mode fnshare.File.Keys.wrap_private fnshare.File.Keys.wrap_shared
    fnshare.File.Put.finish fnshare.File.Put.keep_name fnshare.File.Put.manifest_for
    fnshare.File.Put.replicate fnshare.File.Put.replicate_to fnshare.File.Put.upload_of
    fnshare.File.Service.less fnshare.File.Upload.after_stripe fnshare.File.Upload.put_loop
    fnshare.File.Upload.upload_at group_key fnshare.Group.load_by_id fnshare.Holders.pick
    fnshare.Holders.place fnshare.Holders.sort_by_score fnshare.Holders.uint64
    fnshare.Holders.weight fnshare.Ledger.current fnshare.Ledger.found fnshare.Ledger.key
    fnshare.Ledger.load_entry fnshare.Ledger.record_stored_on_them fnshare.Ledger.stamp
    fnshare.Ledger.touch Manifest.key Manifest.put fnshare.Node.Blocks.put_manifest_raw_on_peer
    fnshare.Node.Blocks.put_shard_on_peer fnshare.Prelude.Assoc.insert fnshare.Prelude.Int.◌+ℤ◌
    fnshare.Prelude.Int64.add64 fnshare.Prelude.Int64.wrap64 fnshare.Prelude.Paths.enter
    fnshare.Prelude.Paths.join fnshare.Prelude.Paths.path_dec fnshare.Prelude.Paths.split_slash
    fnshare.Prelude.Paths.walk fnshare.Spool.enqueue_manifest fnshare.Spool.enqueue_shard
    fnshare.Spool.entry_path fnshare.Spool.write fnshare.Store.get fnshare.Store.put
    mathlib.Core.List.lookup fnshare.Tests.Mirror.split fnshare.Tests.Mirror.encode digest_of
    fnshare.Tests.Mirror.copies fnshare.Tests.Mirror.empties fnshare.Tests.Instances.only_marshal
    manifest_dec fnshare.Store.Memory.write
puts = refl

put-Recorded_example :
    (Manifest.get memory service.manifests uploaded.0.db manifest.file_id ≡ ok (kept manifest))
    × (manifest.data_shards ≡ 1)
    × (manifest.parity_shards ≡ 2)
    × (manifest.stripe_data_size ≡ 8)
    × (length manifest.holders ≡ 3)
    × (manifest.owner_peer_id ≡ codes "al")
    × (manifest.mode ≡ mode_of [])
put-Recorded_example =
    put-Recorded service memory-BadgerLaws kept (at 1000000000) fine draws answers (codes "a.txt")
      body options start manifest (only-ReadsBack manifest_dec kept manifest (codes "manifest"))
      puts

-- Later only bo gives its shard, and this node has lost its own.
abbrev bo_gives : Bytes → Bytes → Option Response
bo_gives peer shard_id = ite (bytes_dec peer (codes "bo")) (some (ok sealed)) none

abbrev Had : Stripe → Type 0
Had stripe =
    let from = given (services service) (context service (at 7)) [] bo_gives in
    Distinguishes (digest_of sealed) stripe.shard_ids
    × Honest (digest_of sealed) from (slots_of stripe.shard_ids manifest.holders)
    × (1 ≤ able from (slots_of stripe.shard_ids manifest.holders))

had : Had (record {
  index = 0;
  shard_ids = id ∷ id ∷ id ∷ [];
  plaintext_bytes = 5;
  ciphertext_bytes = 33;
})
unfolding Blockstore.get lookup bytes_dec
had = (
  (one, (one, (one, tt))),
  (
    (λ raw e. absurd (ground arith)),
    (
      (λ raw e. ap (hash_of (digest_of sealed)) (ground arith)),
      ((λ raw e. absurd (ground arith)), tt),
    ),
  ),
  omega arith,
)
  where
    one :
        (x y : Bytes)
        → hash_of (digest_of sealed) x ≡ id
        → hash_of (digest_of sealed) y ≡ id
        → x ≡ y
    one x y h k = digest_of-no_collision sealed x h ∙ sym (digest_of-no_collision sealed y k)

reachable : Reachable service (at 7) bo_gives [] manifest
reachable zero stripe e = subst Had (some-injective _ stripe e) had
reachable (suc i) stripe e = absurd (ground arith)

read_at-put_example :
    let r =
      read_at
        (fetch_and_decrypt_stripe
          (services service)
          (context service (at 7))
          bo_gives
          manifest
          zeros)
        manifest
        start
        3
        1 in
    (r.1 ≡ take 3 (drop 1 shard)) × (r.2 ≡ none)
read_at-put_example =
    read_at-put service plain-PrimitivesLaws mirror-ReedSolomonLaws (at 1000000000) (at 7) fine
      draws answers (codes "a.txt") body options start manifest bo_gives start zeros 3 1
      (omega arith) refl (λ i. (codes "twelve bytes", refl, refl)) refl puts reachable (omega arith)

open_reader-put_example :
    (open_reader service (λ peer. none) uploaded.0 manifest.file_id).1
    ≡ ok (record { manifest = kept manifest; key = zeros; decrypted_filename = codes "a.txt" })
unfolding fnshare.File.Keys.resolve_group fnshare.Group.list_groups fnshare.Store.iterate
    fnshare.Store.iterate_items fnshare.Store.Memory.matching fnshare.Prelude.Bytes.has_prefix
    ℕ_discrete fnshare.Tests.Instances.only_unmarshal bytes_dec fnshare.Group.load_by_id
    fnshare.Store.get fnshare.Store.Memory.read lookup put fnshare.File.Put.draft
    fnshare.Crypto.new_file_key fnshare.File.Service.group_member_ids fnshare.Group.list_members
    fnshare.Group.members_prefix fnshare.File.Service.sort_strings
    fnshare.File.Service.insert_string fnshare.File.Service.less fnshare.File.Keys.wrap_for_mode
    fnshare.File.Keys.wrap_shared fnshare.Crypto.seal_aes fnshare.File.Upload.put_loop
    fnshare.File.Upload.upload_at fnshare.File.Fetch.upload_stripe fnshare.File.Put.upload_of
    fnshare.Ec.encode fnshare.Tests.Mirror.split fnshare.Tests.Mirror.encode
    fnshare.File.Fetch.ship_shards hash_of Blockstore.hex Blockstore.hex_digit Blockstore.path
    Blockstore.put Blockstore.verify_hash Blockstore.write_atomically fnshare.Crypto.seal_anonymous
    fnshare.File.Fetch.ship_shard fnshare.File.Fetch.spool_shard fnshare.File.Fetch.stripe_for
    fnshare.File.Keys.pname_key fnshare.File.Keys.save_private_name fnshare.File.Keys.wrap_private
    fnshare.File.Put.finish fnshare.File.Put.keep_name fnshare.File.Put.manifest_for
    fnshare.File.Put.replicate fnshare.File.Put.replicate_to fnshare.File.Upload.after_stripe
    group_key fnshare.Holders.pick fnshare.Holders.place fnshare.Holders.sort_by_score
    fnshare.Holders.uint64 fnshare.Holders.weight fnshare.Ledger.current fnshare.Ledger.found
    fnshare.Ledger.key fnshare.Ledger.load_entry fnshare.Ledger.record_stored_on_them
    fnshare.Ledger.stamp fnshare.Ledger.touch Manifest.key Manifest.put
    fnshare.Node.Blocks.put_manifest_raw_on_peer fnshare.Node.Blocks.put_shard_on_peer
    fnshare.Prelude.Assoc.insert fnshare.Prelude.Int.◌+ℤ◌ fnshare.Prelude.Int64.add64
    fnshare.Prelude.Int64.wrap64 fnshare.Prelude.Paths.enter fnshare.Prelude.Paths.join
    fnshare.Prelude.Paths.path_dec fnshare.Prelude.Paths.split_slash fnshare.Prelude.Paths.walk
    fnshare.Spool.enqueue_manifest fnshare.Spool.enqueue_shard fnshare.Spool.entry_path
    fnshare.Spool.write fnshare.Store.put fnshare.Tests.Mirror.copies fnshare.Tests.Mirror.empties
    digest_of fnshare.Tests.Instances.only_marshal manifest_dec fnshare.Store.Memory.write
open_reader-put_example =
    open_reader-put service memory-BadgerLaws plain-PrimitivesLaws (λ s. refl) (at 1000000000) fine
      draws answers (codes "a.txt") body options start manifest (λ peer. none) group zeros []
      (codes "wrapping key") (only-ReadsBack manifest_dec kept manifest (codes "manifest")) refl
      refl refl refl refl refl refl puts refl

-- bo is asked for a file that nobody has, and answers with the manifest of another one.
open_reader_overwrites_example :
    Manifest.get memory service.manifests
      (open_reader service (λ peer. some (ok (codes "manifest"))) start (codes "nothing")).0.db
      manifest.file_id
    ≡ ok (kept manifest)
unfolding Manifest.get fnshare.Store.get fnshare.Store.Memory.read lookup bytes_dec Manifest.key
    fnshare.Group.all_members_across_groups fnshare.Store.iterate fnshare.Store.iterate_items
    fnshare.Store.Memory.matching fnshare.Prelude.Bytes.has_prefix
    fnshare.Tests.Instances.only_unmarshal fnshare.Prelude.Clock.to_seconds Manifest.put
    fnshare.Tests.Instances.only_marshal manifest_dec hash_of Blockstore.hex digest_of
    fnshare.Store.put fnshare.Store.Memory.write fnshare.Prelude.Assoc.insert
open_reader_overwrites_example =
    open_reader_overwrites service memory-BadgerLaws kept (λ peer. some (ok (codes "manifest")))
      start (codes "nothing") (codes "cy") (codes "cy") (codes "manifest") (member (codes "cy"))
      ((codes "bo", member (codes "bo")) ∷ (codes "al", member (codes "al")) ∷ []) manifest
      (record start.db {
        entries = start.db.entries ++ (codes "manifest/0102030405060708", codes "manifest") ∷ [];
      })
      (only-ReadsBack manifest_dec kept manifest (codes "manifest")) refl refl
      (λ e. absurd (ground arith)) refl refl refl refl
