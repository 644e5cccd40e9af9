-- ===== src/File/Cache/Index.antt =====
-- internal/file/cache.go with the index as Go keeps it: a map from the key of an entry to the element of
-- the list that holds the entry. An element has a number of its own, as a pointer has. A pointer to an
-- element that is not in the list is never met (Index/Refines), and finds nothing here.
pub mod Elements
pub mod Refines
use fnshare.Prelude.{
  ℕ, zero, suc, ◌+◌, ◌-◌, List, [], ◌∷◌, Option, none, some, if◌then◌else◌, length, ltb, ℕ_discrete,
}
use fnshare.Prelude.Assoc.{delete, insert}
use fnshare.Prelude.Bytes.{Bytes, bytes_dec}
use fnshare.File.Cache.{CacheEntry, cache_key, pop_back, Call, gets, puts}
use mathlib.Core.List.{lookup}

-- `list.Element`
abbrev pub Element : Type 0
Element = ℕ × CacheEntry

pub record Indexed : Type 0 where
  pub max_bytes : ℕ
  pub lru : List Element
  pub index : List (Bytes × ℕ)
  pub cur_bytes : ℕ
  -- the number of the next element
  pub next : ℕ

-- `Get`; an index that points to no element of the list finds nothing.
unfoldable pub get_indexed : Indexed → Bytes → ℕ → Indexed × Option Bytes
get_indexed c file_id stripe_idx = elim (lookup bytes_dec (cache_key file_id stripe_idx) c.index) [
  | none ↦ (c, none)
  | some i ↦ elim (lookup ℕ_discrete i c.lru) [
    | none ↦ (c, none)
    | some entry ↦ (record c { lru = (i, entry) ∷ delete ℕ_discrete i c.lru }, some entry.1)
  ]
]

-- The loop of `evictLocked`, on the list, the index and the count.
unfoldable pub evict_indexed_loop :
    ℕ → ℕ → List Element → List (Bytes × ℕ) → ℕ → List Element × List (Bytes × ℕ) × ℕ
evict_indexed_loop zero max_bytes lru index cur = (lru, index, cur)
evict_indexed_loop (suc fuel) max_bytes lru index cur =
    if ltb max_bytes cur
    then elim (pop_back lru) [
      | none ↦ (lru, index, cur)
      | some (rest, oldest) ↦
          evict_indexed_loop fuel max_bytes rest (delete bytes_dec oldest.1.0 index)
            (cur - length oldest.1.1)
    ]
    else (lru, index, cur)

unfoldable pub evict_indexed : Indexed → Indexed
evict_indexed c =
    let (lru, index, cur) =
      evict_indexed_loop (length c.lru) c.max_bytes c.lru c.index c.cur_bytes in
    record c { lru = lru; index = index; cur_bytes = cur }

-- What `Put` has done before it evicts.
unfoldable pub stored_indexed : Indexed → Bytes → Bytes → Indexed
stored_indexed c k bytes = elim (lookup bytes_dec k c.index) [
  | none ↦ record c {
    lru = (c.next, (k, bytes)) ∷ c.lru;
    index = insert bytes_dec k c.next c.index;
    cur_bytes = c.cur_bytes + length bytes;
    next = c.next + 1;
  }
  | some i ↦ elim (lookup ℕ_discrete i c.lru) [
    | none ↦ c
    | some old ↦ record c {
      lru = (i, (old.0, bytes)) ∷ delete ℕ_discrete i c.lru;
      cur_bytes = c.cur_bytes - length old.1 + length bytes;
    }
  ]
]

unfoldable pub put_indexed : Indexed → Bytes → ℕ → Bytes → Indexed
put_indexed c file_id stripe_idx bytes =
    if ltb c.max_bytes (length bytes)
    then c
    else evict_indexed (stored_indexed c (cache_key file_id stripe_idx) bytes)

-- `NewStripeCache`
unfoldable pub new_indexed : ℕ → Indexed
new_indexed max_bytes = record {
  max_bytes = max_bytes;
  lru = [];
  index = [];
  cur_bytes = 0;
  next = 0;
}

unfoldable pub run_indexed : List Call → Indexed → Indexed
run_indexed [] c = c
run_indexed (gets file_id idx ∷ calls) c = run_indexed calls (get_indexed c file_id idx).0
run_indexed (puts file_id idx bytes ∷ calls) c = run_indexed calls (put_indexed c file_id idx bytes)
