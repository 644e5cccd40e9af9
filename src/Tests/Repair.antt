-- ===== src/Tests/Repair.antt =====
-- A node that takes over the slot of a holder that is offline.
use fnshare.Prelude.{
  ℕ, ◌+◌, ◌≤◌, refl, true, false, List, [], ◌∷◌, ◌++◌, none, some, ok, ◌≡◌, arith, get_elem?, set,
  length,
}
use fnshare.Prelude.Int.{pos}
use fnshare.Prelude.{ℕ_discrete}
use fnshare.Prelude.Bytes.{Bytes, codes, bytes_dec}
use fnshare.Prelude.Clock.{zero_time, at}
use fnshare.Store.Memory.{memory, memory-BadgerLaws}
use fnshare.Codec.{Codec}
use fnshare.Group.{Group, Member, list_members}
use fnshare.Blockstore
use fnshare.Blockstore.{Disk, fine, hash_of}
use fnshare.Manifest
use fnshare.Manifest.{Manifest, Stripe}
use fnshare.Node.Blocks.{State}
use fnshare.Repair.{Repairer, services, Answers, alive}
use fnshare.Repair.Scan.{migrated, live_count, is_busy, repair_file, scan_for_offline_peer}
use fnshare.Repair.Crash.{scan_crashes}
use fnshare.Repair.Placing.{Held, AllHeld, repair_file-self}
use fnshare.Repair.Spare.{IsMember, slots, repair_file-migrated}
use fnshare.Tests.Instances.{
  only, only-ReadsBack, never, manifest_dec, digest_of, digest_of-Sha256Laws, shard,
}
use fnshare.Tests.Mirror.{mirror}

-- A member record is its peer id.
abbrev peers : Codec Member
peers = record {
  marshal = λ m. some m.peer_id;
  unmarshal = λ raw. some (record {
    peer_id = raw;
    nickname = [];
    node_pub = [];
    enc_pub = [];
    contributed = pos 0;
    joined_at = zero_time;
    admitted_by_sig = [];
    last_addrs = [];
    admission_invite = [];
  });
}

abbrev id : Bytes
id = hash_of (digest_of shard) shard

abbrev with_holders : Bytes → List Bytes → Manifest
with_holders file_id holders = record {
  file_id = file_id;
  group_id = codes "a group of friends";
  filename = codes "a.txt";
  size = 5;
  data_shards = 1;
  parity_shards = 2;
  stripe_data_size = 8;
  holders = holders;
  stripes =
      record { index = 0; shard_ids = id ∷ id ∷ id ∷ []; plaintext_bytes = 5; ciphertext_bytes = 5 }
      ∷ [];
  created_at = at 1000000000;
  owner_peer_id = codes "cy";
  mode = codes "shared";
  wrapped_key = [];
  filename_encrypted = false;
}

abbrev before : Manifest
before = with_holders (codes "0102030405060708") (codes "cy" ∷ codes "bo" ∷ codes "di" ∷ [])

abbrev after : Manifest
after = with_holders (codes "0102030405060708") (codes "cy" ∷ codes "al" ∷ codes "di" ∷ [])

abbrev short_one : Manifest
short_one = with_holders (codes "f") (codes "bo" ∷ [])

abbrev repairer : Manifest → Repairer
repairer m = record {
  deps = record {
    badger = memory;
    groups = never;
    members = peers;
    addresses = never;
    ed25519 = record { sign = λ key message. []; verify = λ key message sig. true };
    invites = record {
      header = λ raw. none;
      fields = λ raw. none;
      bytes_value = λ raw. none;
      body = λ raw. none;
      marshal_payload = λ p. none;
    };
  };
  manifests = only manifest_dec (λ x. x) m (codes "manifest");
  entries = never;
  sha256 = digest_of shard;
  root = codes "blocks" ∷ [];
  self = codes "al";
  decode_peer = λ p. some p;
  rs = mirror;
}

-- Nobody answers, and no peer was seen alive.
abbrev answers : Answers
answers = record { get = λ peer shard_id. none; put = λ peer shard_id. none }

abbrev start : State (services (repairer after))
start = record {
  db = record {
    entries =
        (codes "member/a group of friends/bo", codes "bo")
        ∷ (codes "member/a group of friends/al", codes "al")
        ∷ [];
    broken = false;
  };
  files = (Blockstore.path (codes "blocks" ∷ []) id, shard) ∷ [];
  dirty = [];
  has_blocks = true;
  has_ledger = false;
}

moves :
    (repair_file (repairer after) (at 5) answers fine before 1 start).1
    ≡ ok (migrated after (codes "al") (codes "cy" ∷ codes "di" ∷ []))
unfolding repair_file live_count alive bytes_dec fnshare.Ledger.is_online mathlib.Core.List.lookup
    fnshare.Ledger.load_entry fnshare.Store.get fnshare.Store.Memory.read fnshare.Ledger.key
    fnshare.Group.list_members fnshare.Store.iterate fnshare.Store.iterate_items
    fnshare.Store.Memory.matching fnshare.Prelude.Bytes.has_prefix fnshare.Group.members_prefix
    fnshare.Repair.Scan.find_spare Blockstore.get hash_of Blockstore.hex Blockstore.hex_digit
    Blockstore.path Blockstore.put Blockstore.verify_hash Blockstore.write_atomically
    fnshare.Ec.decode fnshare.Ledger.current fnshare.Ledger.found
    fnshare.Ledger.record_downloaded_from fnshare.Ledger.record_stored_on_them fnshare.Ledger.stamp
    fnshare.Ledger.touch Manifest.key Manifest.put fnshare.Node.Blocks.get_shard_from_peer
    fnshare.Node.Blocks.put_shard_on_peer fnshare.Prelude.Assoc.insert fnshare.Prelude.Int.◌+ℤ◌
    fnshare.Prelude.Int64.add64 fnshare.Prelude.Int64.wrap64 fnshare.Prelude.Paths.enter
    fnshare.Prelude.Paths.join fnshare.Prelude.Paths.path_dec fnshare.Prelude.Paths.split_slash
    fnshare.Prelude.Paths.walk fnshare.Repair.ask_holder is_busy fnshare.Repair.migrate_stripe_shard
    fnshare.Repair.migrate_stripes fnshare.Repair.Scan.move_to_spare fnshare.Repair.place
    fnshare.Repair.Scan.propagated fnshare.Repair.restored fnshare.Repair.Scan.slot_peer
    fnshare.Repair.survivors fnshare.Repair.take_slot fnshare.Store.put ℕ_discrete digest_of
    fnshare.Tests.Mirror.refill fnshare.Tests.Mirror.first fnshare.Tests.Mirror.check
    fnshare.Tests.Mirror.copies fnshare.Tests.Mirror.all_same fnshare.Tests.Instances.only_marshal
    manifest_dec fnshare.Store.Memory.write
moves = refl

repair_file-migrated_example :
    (spare : Bytes) × (after ≡ record before { holders = set before.holders 1 spare })
    × (codes "al" ≡ spare)
    × IsMember
        (repairer after)
        (at 5)
        start
        spare
        (list_members (repairer after).deps start.db before.group_id).0
    × (is_busy (repairer after) (at 5) spare before.holders ≡ false)
    × (alive (repairer after) (at 5) start spare ≡ true)
    × (live_count (repairer after) (at 5) start before.holders ≤ 1)
    × (live_count (repairer after) (at 5) start after.holders
        ≡ live_count (repairer after) (at 5) start before.holders + 1)
    × (slots spare after.holders ≡ 1)
    × ((q : Bytes) → ¬ (q ≡ spare) → slots q after.holders ≤ slots q before.holders)
    × (Manifest.get memory
          (repairer after).manifests
          (repair_file (repairer after) (at 5) answers fine before 1 start).0.db
          before.file_id
        ≡ ok after)
unfolding alive bytes_dec fnshare.Ledger.is_online mathlib.Core.List.lookup
    fnshare.Ledger.load_entry fnshare.Store.get fnshare.Store.Memory.read fnshare.Ledger.key is_busy
repair_file-migrated_example =
    repair_file-migrated (repairer after) (at 5) start memory-BadgerLaws (λ x. x) answers fine
      before after 1 (codes "bo") (codes "al") (codes "cy" ∷ codes "di" ∷ [])
      (only-ReadsBack manifest_dec (λ x. x) after (codes "manifest")) refl refl moves

repair_file-self_example :
    let files = (repair_file (repairer after) (at 5) answers fine before 1 start).0.files in
    AllHeld (repairer after) (at 5) (digest_of-Sha256Laws shard) answers fine 1 files before.stripes
    × ((other : Bytes)
        → Held (repairer after) start.files other
        → Held (repairer after) files other)
repair_file-self_example =
    repair_file-self (repairer after) (at 5) (digest_of-Sha256Laws shard) answers fine before after
      1 (codes "bo") (codes "al") (codes "cy" ∷ codes "di" ∷ []) start refl refl moves

-- Another member once sent a manifest with an id of one letter.
abbrev struck : State (services (repairer short_one))
struck = record {
  db = record { entries = (codes "manifest/f", codes "manifest") ∷ []; broken = false };
  files = [];
  dirty = [];
  has_blocks = true;
  has_ledger = false;
}

scan_crashes_example :
    (scan_for_offline_peer (repairer short_one) (at 5) answers fine (codes "bo") struck).1 ≡ true
unfolding Manifest.list fnshare.Store.iterate fnshare.Store.iterate_items
    fnshare.Store.Memory.matching fnshare.Prelude.Bytes.has_prefix ℕ_discrete
    fnshare.Tests.Instances.only_unmarshal bytes_dec fnshare.Repair.Scan.index_of
    fnshare.Holders.index_from
scan_crashes_example =
    scan_crashes (repairer short_one) (at 5) answers fine (codes "bo") short_one 0 [] [] struck refl
      refl refl
