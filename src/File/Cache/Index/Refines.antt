-- ===== src/File/Cache/Index/Refines.antt =====
-- internal/file/cache.go: the cache with its index does what the cache without it does.
use fnshare.Prelude.{
  ℕ, zero, suc, ◌+◌, ◌-◌, ◌≡◌, refl, ap, ◌∙◌, List, [], ◌∷◌, none, some, arith, length, ltb,
  Bool-cases, Option-cases, inl, inr, ℕ_discrete,
}
use fnshare.Prelude.Assoc.{delete, insert, lookup-delete, lookup-insert}
use fnshare.Prelude.Bytes.{Bytes, bytes_dec}
use fnshare.File.Cache.{
  CacheEntry, StripeCache, new_stripe_cache, cache_key, evict_loop, evict_locked, pop_back,
  move_to_front, get, stored, put, Call, gets, puts, run,
}
use fnshare.File.Cache.Index.{
  Element, Indexed, get_indexed, evict_indexed_loop, evict_indexed, stored_indexed, put_indexed,
  new_indexed, run_indexed,
}
use fnshare.File.Cache.Index.Elements.{
  element_of, Tidy, Pointed, entries, Found, element_of-Found, lookup-entries_absent, Tidy-delete,
  pop_back-Last,
}
use fnshare.File.Cache.Bounded.{stored_new, stored_old, get_hit, get_miss}
use mathlib.Core.List.{lookup}

-- The cache without its index.
abbrev pub forget : Indexed → StripeCache
forget c = record { max_bytes = c.max_bytes; lru = entries c.lru; cur_bytes = c.cur_bytes }

-- The index points to the elements of the list.
abbrev pub Coherent : Indexed → Type 0
Coherent c = Pointed c.index c.lru × Tidy c.next c.lru

length-entries : (lru : List Element) → length (entries lru) ≡ length lru
length-entries [] = refl
length-entries (e ∷ lru) = ap suc (length-entries lru)

-- The list and the count with an index, and without.
abbrev Same : ℕ → List Element × List (Bytes × ℕ) × ℕ → List CacheEntry × ℕ → Type 0
Same next r s = (s ≡ (entries r.0, r.2)) × Pointed r.1 r.0 × Tidy next r.0

evict_indexed_loop-Same :
    (next fuel max_bytes : ℕ) (lru : List Element) (index : List (Bytes × ℕ)) (cur : ℕ)
    → Pointed index lru
    → Tidy next lru
    → Same next
        (evict_indexed_loop fuel max_bytes lru index cur)
        (evict_loop fuel max_bytes (entries lru) cur)
unfolding evict_indexed_loop evict_loop pop_back
evict_indexed_loop-Same next zero max_bytes lru index cur p t = (refl, p, t)
evict_indexed_loop-Same next (suc fuel) max_bytes [] index cur p t =
    elim (Bool-cases (ltb max_bytes cur)) [
      | inl over ↦ rw over (refl, p, tt)
      | inr fits ↦ rw fits (refl, p, tt)
    ]
evict_indexed_loop-Same next (suc fuel) max_bytes (e ∷ lru) index cur p t =
    elim (Bool-cases (ltb max_bytes cur)) [
      | inr fits ↦ rw fits (refl, p, t)
      | inl over ↦
          let (rest, (i, (k, b)), popped, last) = pop_back-Last next e lru t in
          rw (over, popped, last.0)
            (evict_indexed_loop-Same next fuel max_bytes rest (delete bytes_dec k index)
              (cur - length b)
              (λ q. ground (arith, lookup-delete bytes_dec q k index, p q, last.1 q)) last.4)
    ]

-- The cache with its index is coherent and is the other one.
abbrev pub IsSame : Indexed → StripeCache → Type 0
IsSame c s = (s ≡ forget c) × Coherent c

evict_indexed-IsSame :
    (c : Indexed) → Coherent c → IsSame (evict_indexed c) (evict_locked (forget c))
unfolding evict_indexed evict_locked
evict_indexed-IsSame c (p, t) =
    let (same, p', t') =
      evict_indexed_loop-Same c.next (length c.lru) c.max_bytes c.lru c.index c.cur_bytes p t in
    (rw (length-entries c.lru, same) refl, (p', t'))

get_indexed_hit :
    (c : Indexed) (file_id : Bytes) (idx i : ℕ) (entry : CacheEntry)
    → lookup bytes_dec (cache_key file_id idx) c.index ≡ some i
    → lookup ℕ_discrete i c.lru ≡ some entry
    → get_indexed c file_id idx
      ≡ (record c { lru = (i, entry) ∷ delete ℕ_discrete i c.lru }, some entry.1)
unfolding get_indexed
get_indexed_hit c file_id idx i entry h at = ground arith

get_indexed_miss :
    (c : Indexed) (file_id : Bytes) (idx : ℕ)
    → lookup bytes_dec (cache_key file_id idx) c.index ≡ none
    → get_indexed c file_id idx ≡ (c, none)
unfolding get_indexed
get_indexed_miss c file_id idx h = ground arith

stored_indexed_old :
    (c : Indexed) (k bytes : Bytes) (i : ℕ) (old : CacheEntry)
    → lookup bytes_dec k c.index ≡ some i
    → lookup ℕ_discrete i c.lru ≡ some old
    → stored_indexed c k bytes ≡ record c {
      lru = (i, (old.0, bytes)) ∷ delete ℕ_discrete i c.lru;
      cur_bytes = c.cur_bytes - length old.1 + length bytes;
    }
unfolding stored_indexed
stored_indexed_old c k bytes i old h at = ground arith

stored_indexed_new :
    (c : Indexed) (k bytes : Bytes)
    → lookup bytes_dec k c.index ≡ none
    → stored_indexed c k bytes ≡ record c {
      lru = (c.next, (k, bytes)) ∷ c.lru;
      index = insert bytes_dec k c.next c.index;
      cur_bytes = c.cur_bytes + length bytes;
      next = c.next + 1;
    }
unfolding stored_indexed
stored_indexed_new c k bytes h = ground arith

-- An element that moves to the front keeps the index right.
moved :
    (next : ℕ) (index : List (Bytes × ℕ)) (lru : List Element) (k bytes : Bytes) (i : ℕ)
    → Pointed index lru
    → Tidy next lru
    → element_of k lru ≡ some i
    → Found next k i lru
    → Pointed index ((i, (k, bytes)) ∷ delete ℕ_discrete i lru)
      × Tidy next ((i, (k, bytes)) ∷ delete ℕ_discrete i lru)
unfolding element_of
moved next index lru k bytes i p t here (b, at, lt, holds, gone, others) = (
  λ q. ground (arith, p q, others q),
  (
    ground (arith, others k),
    ground (arith, lookup-delete ℕ_discrete i i lru),
    lt,
    Tidy-delete i next lru t,
  ),
)

get_indexed-IsSame :
    (c : Indexed) (file_id : Bytes) (idx : ℕ)
    → Coherent c
    → IsSame (get_indexed c file_id idx).0 (get (forget c) file_id idx).0
      × ((get_indexed c file_id idx).1 ≡ (get (forget c) file_id idx).1)
unfolding move_to_front
get_indexed-IsSame c file_id idx (p, t) =
    let k = cache_key file_id idx in
    elim (Option-cases (element_of k c.lru)) [
      | inl out ↦
          rw
            (
              get_indexed_miss c file_id idx (p k ∙ out),
              get_miss (forget c) file_id idx (lookup-entries_absent k c.lru out),
            )
            ((refl, (p, t)), refl)
      | inr (i, here) ↦
          let found = element_of-Found c.next k i c.lru t here in
          rw
            (
              get_indexed_hit c file_id idx i (k, found.0) (p k ∙ here) found.1,
              get_hit (forget c) file_id idx found.0 found.3,
            )
            ((rw found.4 refl, moved c.next c.index c.lru k found.0 i p t here found), refl)
    ]

older : (next : ℕ) (lru : List Element) → Tidy next lru → Tidy (next + 1) lru
older next [] t = tt
older next ((i, (k, b)) ∷ lru) (fresh, own, lt, t) = (fresh, own, omega arith, older next lru t)

unused : (next : ℕ) (lru : List Element) → Tidy next lru → lookup ℕ_discrete next lru ≡ none
unfolding lookup
unused next [] t = refl
unused next ((i, (k, b)) ∷ lru) (fresh, own, lt, t) = ground (arith, unused next lru t)

stored_indexed-IsSame :
    (c : Indexed) (k bytes : Bytes)
    → Coherent c
    → IsSame (stored_indexed c k bytes) (stored (forget c) k bytes)
unfolding move_to_front element_of
stored_indexed-IsSame c k bytes (p, t) = elim (Option-cases (element_of k c.lru)) [
  | inl out ↦
      rw
        (
          stored_indexed_new c k bytes (p k ∙ out),
          stored_new (forget c) k bytes (lookup-entries_absent k c.lru out),
        )
        (
          refl,
          (
            λ q. ground (arith, p q, lookup-insert bytes_dec q k c.next c.index),
            (out, unused c.next c.lru t, omega arith, older c.next c.lru t),
          ),
        )
  | inr (i, here) ↦
      let found = element_of-Found c.next k i c.lru t here in
      rw
        (
          stored_indexed_old c k bytes i (k, found.0) (p k ∙ here) found.1,
          stored_old (forget c) k found.0 bytes found.3,
        )
        (rw found.4 refl, moved c.next c.index c.lru k bytes i p t here found)
]

put_indexed-IsSame :
    (c : Indexed) (file_id : Bytes) (idx : ℕ) (bytes : Bytes)
    → Coherent c
    → IsSame (put_indexed c file_id idx bytes) (put (forget c) file_id idx bytes)
unfolding put_indexed put
put_indexed-IsSame c file_id idx bytes w = elim (Bool-cases (ltb c.max_bytes (length bytes))) [
  | inl large ↦ rw large (refl, w)
  | inr small ↦
      let (same, w') = stored_indexed-IsSame c (cache_key file_id idx) bytes w in
      rw (small, same) (evict_indexed-IsSame (stored_indexed c (cache_key file_id idx) bytes) w')
]

run_indexed-StaysSame :
    (calls : List Call) (c : Indexed)
    → Coherent c
    → IsSame (run_indexed calls c) (run calls (forget c))
unfolding run_indexed run
run_indexed-StaysSame [] c w = (refl, w)
run_indexed-StaysSame (gets file_id idx ∷ calls) c w =
    let ((same, w'), got) = get_indexed-IsSame c file_id idx w in
    rw same (run_indexed-StaysSame calls (get_indexed c file_id idx).0 w')
run_indexed-StaysSame (puts file_id idx bytes ∷ calls) c w =
    let (same, w') = put_indexed-IsSame c file_id idx bytes w in
    rw same (run_indexed-StaysSame calls (put_indexed c file_id idx bytes) w')

-- Whatever calls of `Get` and `Put` a new cache has seen, the index points to the element of each key
-- in the list and to nothing else, the list and the count are those of the cache without an index,
-- and the next `Get` returns the same.
pub run_indexed-IsSame :
    (calls : List Call) (max_bytes : ℕ) (file_id : Bytes) (idx : ℕ)
    → IsSame (run_indexed calls (new_indexed max_bytes)) (run calls (new_stripe_cache max_bytes))
      × ((get_indexed (run_indexed calls (new_indexed max_bytes)) file_id idx).1
          ≡ (get (run calls (new_stripe_cache max_bytes)) file_id idx).1)
unfolding new_indexed new_stripe_cache lookup element_of
run_indexed-IsSame calls max_bytes file_id idx =
    let (same, w) = run_indexed-StaysSame calls (new_indexed max_bytes) (λ k. refl, tt) in
    (
      (same, w),
      rw same (get_indexed-IsSame (run_indexed calls (new_indexed max_bytes)) file_id idx w).1,
    )
