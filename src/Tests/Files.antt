-- ===== src/Tests/Files.antt =====
-- One stripe up and down again, a wrapped key, holders, the spool and a session.
use fnshare.Prelude.{
  refl, ap, sym, ◌∙◌, true, false, [], ◌∷◌, ◌++◌, Option, none, some, ok, ◌≡◌, arith, ite,
}
use fnshare.Prelude.Bytes.{Bytes, codes, bytes_dec}
use fnshare.Prelude.Clock.{zero_time, at}
use fnshare.Store.Memory.{memory, empty_db}
use fnshare.Blockstore
use fnshare.Blockstore.{Files, fine, hash_of}
use fnshare.Manifest.{Manifest, Stripe}
use fnshare.Node.Blocks.{Services, State, Response}
use fnshare.File.Fetch.{Context, fetch_and_decrypt_stripe, upload_stripe, slots_of}
use fnshare.File.Fetch.Gather.{Distinguishes, Honest}
use fnshare.File.Fetch.Recovery.{given, fetch_and_decrypt_stripe-upload_stripe}
use fnshare.Tests.Instances.{
  shard, never, digest_of, digest_of-no_collision, zeros, tag, plain, plain-PrimitivesLaws,
}
use fnshare.Prelude.{◌≢◌, ◌*◌, ◌≤◌, length, err}
use fnshare.File.Upload.{Upload, put_loop, out_of_fuel}
use fnshare.File.Upload.Stripes.{put_loop_ends}
use fnshare.Tests.Mirror.{mirror, mirror-ReedSolomonLaws}
use fnshare.File.Cache.{StripeCache, Call, gets, puts, run, new_stripe_cache, get, put}
use fnshare.File.Cache.Bounded.{IsBounded, run-IsBounded}
use mathlib.Core.List.{lookup}

-- The ciphertext of the stripe, which is also each of its shards.
abbrev sealed : Bytes
sealed = codes "twelve bytesshard" ++ tag

abbrev services : Services
services = record {
  badger = memory;
  manifests = never;
  entries = never;
  sha256 = digest_of sealed;
  root = codes "blocks" ∷ [];
}

abbrev context : Context services
context = record {
  now = at 1;
  self = codes "me";
  decode_peer = λ p. some p;
  rs = mirror;
  primitives = plain;
}

abbrev start : State services
start = record { db = empty_db; files = []; dirty = []; has_blocks = true; has_ledger = false }

abbrev id : Bytes
id = hash_of (digest_of sealed) sealed

abbrev stripe : Stripe
stripe = record {
  index = 0;
  shard_ids = id ∷ id ∷ id ∷ [];
  plaintext_bytes = 5;
  ciphertext_bytes = 33;
}

abbrev manifest : Manifest
manifest = record {
  file_id = codes "file";
  group_id = codes "group";
  filename = codes "a.txt";
  size = 5;
  data_shards = 1;
  parity_shards = 2;
  stripe_data_size = 8;
  holders = codes "al" ∷ codes "bo" ∷ codes "cy" ∷ [];
  stripes = stripe ∷ [];
  created_at = zero_time;
  owner_peer_id = codes "me";
  mode = codes "shared";
  wrapped_key = zeros ++ tag;
  filename_encrypted = false;
}

-- At the upload everybody takes the shard; at the download only bo answers.
abbrev all_take : Bytes → Bytes → Option Response
all_take peer shard_id = some (ok [])

abbrev bo_gives : Bytes → Bytes → Option Response
bo_gives peer shard_id = ite (bytes_dec peer (codes "bo")) (some (ok sealed)) none

distinct : Distinguishes (digest_of sealed) (id ∷ id ∷ id ∷ [])
distinct = (one, (one, (one, tt)))
  where
    one :
        (x y : Bytes)
        → hash_of (digest_of sealed) x ≡ id
        → hash_of (digest_of sealed) y ≡ id
        → x ≡ y
    one x y h k = digest_of-no_collision sealed x h ∙ sym (digest_of-no_collision sealed y k)

honest :
    Honest
      (digest_of sealed)
      (given services context [] bo_gives)
      (slots_of (id ∷ id ∷ id ∷ []) (codes "al" ∷ codes "bo" ∷ codes "cy" ∷ []))
unfolding Blockstore.get lookup bytes_dec
honest = (
  (λ raw e. absurd (ground arith)),
  (
    (λ raw e. ap (hash_of (digest_of sealed)) (ground arith)),
    ((λ raw e. absurd (ground arith)), tt),
  ),
)

fetch_and_decrypt_stripe-upload_stripe_example :
    (fetch_and_decrypt_stripe services context bo_gives manifest zeros start 0).1
    ≡ ok (codes "shard")
unfolding upload_stripe fnshare.Crypto.seal_aes fnshare.Ec.encode fnshare.Tests.Mirror.split
    fnshare.Tests.Mirror.encode fnshare.File.Fetch.ship_shards fnshare.File.Fetch.ship_shard
    bytes_dec fnshare.Node.Blocks.put_shard_on_peer fnshare.Tests.Mirror.copies
    fnshare.Tests.Mirror.empties fnshare.File.Fetch.stripe_for Blockstore.get lookup
fetch_and_decrypt_stripe-upload_stripe_example =
    fetch_and_decrypt_stripe-upload_stripe services context plain-PrimitivesLaws
      mirror-ReedSolomonLaws all_take none fine (record { data_shards = 1; parity_shards = 2 })
      zeros (codes "twelve bytes") (codes "al" ∷ codes "bo" ∷ codes "cy" ∷ []) 0 (codes "shard")
      start stripe bo_gives start manifest 0 refl refl refl refl refl distinct honest (omega arith)

abbrev upload : Upload
upload = record {
  answer = all_take;
  spool = none;
  disk = fine;
  params = record { data_shards = 1; parity_shards = 2 };
  key = zeros;
  holders = codes "al" ∷ codes "bo" ∷ codes "cy" ∷ [];
  nonce = λ idx. some (codes "twelve bytes");
}

put_loop_ends_example :
    (put_loop services context upload 8 true 6 0 shard start).1 ≢ err out_of_fuel
put_loop_ends_example =
    put_loop_ends services context upload 8 (omega arith) true 6 0 shard start (omega arith)

-- Two stripes of two bytes do not fit into three.
abbrev cached : StripeCache
cached =
    run
      (puts (codes "f") 0 (codes "ab") ∷ puts (codes "f") 1 (codes "cd") ∷ gets (codes "f") 1 ∷ [])
      (new_stripe_cache 3)

evicted : (get cached (codes "f") 0).1 ≡ none
unfolding fnshare.File.Cache.get lookup run put new_stripe_cache fnshare.File.Cache.evict_locked
    fnshare.File.Cache.stored fnshare.File.Cache.evict_loop bytes_dec fnshare.File.Cache.cache_key
    fnshare.File.Cache.itoa fnshare.File.Cache.itoa_loop fnshare.File.Cache.pop_back
    fnshare.File.Cache.move_to_front fnshare.Prelude.Assoc.delete
evicted = refl

run-IsBounded_example :
    IsBounded
      (run (puts (codes "f") 0 (codes "ab") ∷ gets (codes "f") 12 ∷ []) (new_stripe_cache 3))
run-IsBounded_example = run-IsBounded 3 (puts (codes "f") 0 (codes "ab") ∷ gets (codes "f") 12 ∷ [])
