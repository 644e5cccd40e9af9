-- ===== src/Tests/Storage.antt =====
-- One shard on a disk, one stripe coded and decoded, one text sealed and opened, one read.
use fnshare.Prelude.{
  ℕ, ◌+◌, refl, true, false, List, [], ◌∷◌, ◌++◌, Option, none, some, Result, ok, err, ◌≡◌, arith,
  inl, inr, length, ite,
}
use fnshare.Prelude.Bytes.{Bytes, codes, bytes_dec}
use fnshare.Prelude.Clock.{zero_time}
use fnshare.Prelude.Paths.{FilePath}
use fnshare.Blockstore
use fnshare.Blockstore.{Files, fine, write_fails, hash_of, put, get}
use fnshare.Blockstore.Integrity.{
  IsIntact, hash_of-IsShardId, get-put, Op, puts, removes, run, run-IsIntact,
}
use fnshare.Ec.{Params, decode}
use fnshare.Ec.Recovery.{decode-encode}
use fnshare.Manifest.{Manifest, Stripe}
use fnshare.File.ReadAt.{read_at}
use fnshare.Prelude.{ap, sym}
use fnshare.File.Cache.{StripeCache, cache_key}
use fnshare.File.Cache.Keys.{cache_key-injective}
use fnshare.File.Cached.{stripe_bytes}
use fnshare.File.Cached.Coherent.{IsCoherent, read_at-stripe_bytes}
use fnshare.File.ReadAt.Slices.{stripe_of, Describes, read_at_lem}
use fnshare.Tests.Instances.{digest_of, digest, digest-Sha256Laws, shard}
use mathlib.Core.List.{lookup}
use fnshare.Tests.Mirror.{mirror, mirror-ReedSolomonLaws}

abbrev root : FilePath
root = codes "blocks" ∷ []

abbrev id : Bytes
id = hash_of digest shard

abbrev full_name : Bytes
full_name = codes "ff01010101010101010101010101010101010101010101010101010101010101"

abbrev on_disk : Files
on_disk = (full_name ∷ codes "ff" ∷ root, shard) ∷ []

get-put_example : get root on_disk id ≡ ite (bytes_dec id id) (ok shard) (get root [] id)
unfolding put Blockstore.verify_hash bytes_dec Blockstore.hex digest_of Blockstore.write_atomically
    fnshare.Prelude.Assoc.insert Blockstore.path fnshare.Prelude.Paths.join
get-put_example =
    get-put digest root fine [] on_disk id shard id refl
      (hash_of-IsShardId digest shard digest-Sha256Laws)
      (hash_of-IsShardId digest shard digest-Sha256Laws)

nothing : (other content : Bytes) → get root [] other ≡ ok content → ⊥
unfolding get lookup
nothing other content e = ground arith

-- A shard under a wrong name, one on a full disk, one that stays, and a name that leads elsewhere.
abbrev calls : List Op
calls =
    puts fine (codes "ab") shard
    ∷ puts write_fails id shard
    ∷ puts fine id shard
    ∷ removes false (codes "../x")
    ∷ []

run-IsIntact_example : IsIntact digest root (run digest root calls [])
run-IsIntact_example =
    run-IsIntact digest root calls [] digest-Sha256Laws
      (λ other content h e. absurd (nothing other content e))

-- Two of three shards are lost.
decode-encode_example :
    decode mirror (record { data_shards = 1; parity_shards = 2 }) ([] ∷ [] ∷ shard ∷ []) 5
    ≡ ok (shard, shard ∷ shard ∷ shard ∷ [])
unfolding fnshare.Ec.encode fnshare.Tests.Mirror.split fnshare.Tests.Mirror.encode
    fnshare.Tests.Mirror.copies fnshare.Tests.Mirror.empties
decode-encode_example =
    decode-encode mirror mirror-ReedSolomonLaws (record { data_shards = 1; parity_shards = 2 })
      shard (shard ∷ shard ∷ shard ∷ []) ([] ∷ [] ∷ shard ∷ []) refl
      (inl refl, (inl refl, (inr refl, tt))) (omega arith)

abbrev stripe : Stripe
stripe = record { index = 0; shard_ids = []; plaintext_bytes = 2; ciphertext_bytes = 30 }

abbrev manifest : Manifest
manifest = record {
  file_id = codes "file";
  group_id = codes "group";
  filename = codes "a.txt";
  size = 5;
  data_shards = 1;
  parity_shards = 2;
  stripe_data_size = 2;
  holders = [];
  stripes = stripe ∷ stripe ∷ stripe ∷ [];
  created_at = zero_time;
  owner_peer_id = [];
  mode = codes "shared";
  wrapped_key = [];
  filename_encrypted = false;
}

abbrev stripes : Unit {0} → ℕ → Unit {0} × Result (Unit {0}) Bytes
stripes s i = (s, ok (stripe_of 2 shard i))

describes : Describes stripes manifest (λ s. Unit {0}) shard
describes = record { positive = omega arith; size = refl; enough = omega arith }

-- Three bytes across two stripes, and a read that the end of the file cuts short.
read_at_lem_example :
    Unit {0}
    × ((read_at stripes manifest tt 3 1).1 ≡ codes "har")
    × ((read_at stripes manifest tt 3 1).2 ≡ none)
read_at_lem_example =
    read_at_lem stripes manifest (λ s. Unit {0}) shard (λ s i g h. (tt, refl)) describes tt 3 1 tt
      (omega arith)

-- The same three bytes when the first stripe is in the cache.
abbrev cache : StripeCache
cache = record { max_bytes = 4; lru = (cache_key (codes "file") 0, codes "sh") ∷ []; cur_bytes = 2 }

read_at-stripe_bytes_example :
    let r = read_at (stripe_bytes stripes (codes "file")) manifest (cache, tt) 3 1 in
    IsCoherent (λ f i. stripe_of 2 shard i) r.0.0
    × (r.1 ≡ (read_at stripes manifest tt 3 1).1)
    × (r.2 ≡ (read_at stripes manifest tt 3 1).2)
unfolding stripe_of
read_at-stripe_bytes_example =
    read_at-stripe_bytes (λ f i. stripe_of 2 shard i) stripes manifest (λ s. Unit {0}) shard
      (λ s i g h. (tt, refl)) describes (λ i h. refl) cache tt 3 1 (tells, tt) tt (omega arith)
  where
    tells :
        (f : Bytes) (i : ℕ)
        → cache_key f i ≡ cache_key (codes "file") 0
        → codes "sh" ≡ stripe_of 2 shard i
    tells f i key = ap (stripe_of 2 shard) (sym (cache_key-injective f (codes "file") i 0 key).1)
