-- ===== src/File/Cache.antt =====
-- internal/file/cache.go: the cache of decrypted stripes that the readers share. The list has the
-- most recently used entry first. Go's `index` is the lookup of a key in the list here; Index has the
-- cache with the map, and Index/Refines compares the two. The bound is not negative, and each operation
-- holds the lock while it runs, so an operation is one step.
pub mod Bounded
pub mod Entries
pub mod Eviction
pub mod Index
pub mod Keys
use fnshare.Prelude.{
  ℕ, zero, suc, ◌+◌, ◌-◌, ◌/◌, ◌%◌, List, [], ◌∷◌, ◌++◌, Option, none, some, if◌then◌else◌, length,
  ltb, ◌==◌,
}
use fnshare.Prelude.Assoc.{delete}
use mathlib.Core.List.{lookup}
use fnshare.Prelude.Bytes.{Bytes, bytes_dec}

-- The key and the bytes.
abbrev pub CacheEntry : Type 0
CacheEntry = Bytes × Bytes

pub record StripeCache : Type 0 where
  pub max_bytes : ℕ
  pub lru : List CacheEntry
  pub cur_bytes : ℕ

unfoldable pub new_stripe_cache : ℕ → StripeCache
new_stripe_cache max_bytes = record { max_bytes = max_bytes; lru = []; cur_bytes = 0 }

-- The loop of `itoa`, which writes the digits from the back. A number has fewer digits than itself
-- and one more.
unfoldable pub itoa_loop : ℕ → ℕ → Bytes → Bytes
itoa_loop zero n buf = buf
itoa_loop (suc fuel) n buf =
    let more = itoa_loop fuel (n / 10) ((b'0' + n % 10) ∷ buf) in if ltb 0 n then more else buf

-- `itoa` of a number that is not negative, as the index of a stripe is.
unfoldable pub itoa : ℕ → Bytes
itoa n = if n == 0 then b'0' ∷ [] else itoa_loop (suc n) n []

unfoldable pub cache_key : Bytes → ℕ → Bytes
cache_key file_id stripe_idx = file_id ++ b':' ∷ itoa stripe_idx

-- `Back` and `Remove` of it: the list without its last element, and that element.
unfoldable pub pop_back {ℓ} : {A : Type ℓ} → List A → Option (List A × A)
pop_back [] = none
pop_back (x ∷ xs) = elim (pop_back xs) [ none ↦ some ([], x) | some (ys, y) ↦ some (x ∷ ys, y) ]

-- `evictLocked` on a list and the count of its bytes. A round takes one element, and a round on
-- the empty list returns, so the length of the list is fuel enough.
unfoldable pub evict_loop : ℕ → ℕ → List CacheEntry → ℕ → List CacheEntry × ℕ
evict_loop zero max_bytes lru cur = (lru, cur)
evict_loop (suc fuel) max_bytes lru cur =
    if ltb max_bytes cur
    then elim (pop_back lru) [
      | none ↦ (lru, cur)
      | some (rest, oldest) ↦ evict_loop fuel max_bytes rest (cur - length oldest.1)
    ]
    else (lru, cur)

unfoldable pub evict_locked : StripeCache → StripeCache
evict_locked c =
    let (lru, cur) = evict_loop (length c.lru) c.max_bytes c.lru c.cur_bytes in
    record { max_bytes = c.max_bytes; lru = lru; cur_bytes = cur }

-- `MoveToFront`, with the bytes that the entry has then.
unfoldable pub move_to_front : Bytes → Bytes → List CacheEntry → List CacheEntry
move_to_front k bytes lru = (k, bytes) ∷ delete bytes_dec k lru

unfoldable pub get : StripeCache → Bytes → ℕ → StripeCache × Option Bytes
get c file_id stripe_idx =
    let k = cache_key file_id stripe_idx in
    elim (lookup bytes_dec k c.lru) [
      | none ↦ (c, none)
      | some bytes ↦ (record c { lru = move_to_front k bytes c.lru }, some bytes)
    ]

-- What `Put` has done before it evicts.
unfoldable pub stored : StripeCache → Bytes → Bytes → StripeCache
stored c k bytes = elim (lookup bytes_dec k c.lru) [
  | none ↦ record c { lru = (k, bytes) ∷ c.lru; cur_bytes = c.cur_bytes + length bytes }
  | some old ↦ record c {
    lru = move_to_front k bytes c.lru;
    cur_bytes = c.cur_bytes - length old + length bytes;
  }
]

unfoldable pub put : StripeCache → Bytes → ℕ → Bytes → StripeCache
put c file_id stripe_idx bytes =
    if ltb c.max_bytes (length bytes)
    then c
    else evict_locked (stored c (cache_key file_id stripe_idx) bytes)

-- A call of the cache.
pub data Call : Type 0 where
  gets : Bytes → ℕ → Call
  puts : Bytes → ℕ → Bytes → Call

unfoldable pub run : List Call → StripeCache → StripeCache
run [] c = c
run (gets file_id idx ∷ calls) c = run calls (get c file_id idx).0
run (puts file_id idx bytes ∷ calls) c = run calls (put c file_id idx bytes)
