-- ===== src/File/Cache/Bounded.antt =====
-- internal/file/cache.go: the cache counts its bytes right, keeps its bound, and keeps what was put
-- last.
use fnshare.Prelude.{
  ℕ, ◌+◌, ◌-◌, ◌≤◌, ◌<◌, ◌≡◌, refl, ap, sym, ◌∙◌, subst, inl, inr, List, [], ◌∷◌, none, some, arith,
  Bool-cases, Option-cases, length, ltb,
}
use mathlib.Core.List.{lookup}
use fnshare.Prelude.Bytes.{Bytes, bytes_dec}
use fnshare.File.Cache.{
  StripeCache, new_stripe_cache, cache_key, evict_locked, move_to_front, get, stored, put, Call,
  gets, puts, run,
}
use fnshare.File.Cache.Entries.{
  total, Distinct, front, total-delete, move_to_front-Distinct, total-move_to_front,
  front-move_to_front, lookup-front_entry,
}
use fnshare.File.Cache.Eviction.{evict_loop-Sound, evict_loop-front}

-- The count is that of the bytes held, and at most the bound.
abbrev pub IsBounded : StripeCache → Type 0
IsBounded c = (c.cur_bytes ≡ total c.lru) × (c.cur_bytes ≤ c.max_bytes) × Distinct c.lru

-- The steps of the operations.
pub stored_new :
    (c : StripeCache) (k bytes : Bytes)
    → lookup bytes_dec k c.lru ≡ none
    → stored c k bytes
      ≡ record c { lru = (k, bytes) ∷ c.lru; cur_bytes = c.cur_bytes + length bytes }
unfolding stored
stored_new c k bytes h = ground arith

pub stored_old :
    (c : StripeCache) (k old bytes : Bytes)
    → lookup bytes_dec k c.lru ≡ some old
    → stored c k bytes ≡ record c {
      lru = move_to_front k bytes c.lru;
      cur_bytes = c.cur_bytes - length old + length bytes;
    }
unfolding stored
stored_old c k old bytes h = ground arith

-- A cache in which a put has stored its entry, before it evicts.
abbrev Holds : Bytes → Bytes → ℕ → StripeCache → Type 0
Holds k bytes max_bytes c =
    (c.cur_bytes ≡ total c.lru)
    × Distinct c.lru
    × (front c.lru ≡ some (k, bytes))
    × (c.max_bytes ≡ max_bytes)

stored-Holds :
    (c : StripeCache) (k bytes : Bytes) → IsBounded c → Holds k bytes c.max_bytes (stored c k bytes)
unfolding total
stored-Holds c k bytes w = elim (Option-cases (lookup bytes_dec k c.lru)) [
  | inl h ↦
      subst (Holds k bytes c.max_bytes) (sym (stored_new c k bytes h))
        (omega (arith, w.0), (h, w.2), refl, refl)
  | inr (old, h) ↦ subst (Holds k bytes c.max_bytes) (sym (stored_old c k old bytes h)) (
    omega (arith, w.0, total-delete k old c.lru w.2 h, total-move_to_front k bytes c.lru),
    move_to_front-Distinct k bytes c.lru w.2,
    front-move_to_front k bytes c.lru,
    refl,
  )
]

-- A put whose bytes fit.
pub put_fits :
    (c : StripeCache) (file_id : Bytes) (idx : ℕ) (bytes : Bytes)
    → length bytes ≤ c.max_bytes
    → put c file_id idx bytes ≡ evict_locked (stored c (cache_key file_id idx) bytes)
unfolding put
put_fits c file_id idx bytes fits = ground arith

pub put_large :
    (c : StripeCache) (file_id : Bytes) (idx : ℕ) (bytes : Bytes)
    → c.max_bytes < length bytes
    → put c file_id idx bytes ≡ c
unfolding put
put_large c file_id idx bytes large = ground arith

pub get_hit :
    (c : StripeCache) (file_id : Bytes) (idx : ℕ) (bytes : Bytes)
    → lookup bytes_dec (cache_key file_id idx) c.lru ≡ some bytes
    → get c file_id idx
      ≡ (record c { lru = move_to_front (cache_key file_id idx) bytes c.lru }, some bytes)
unfolding get
get_hit c file_id idx bytes h = ground arith

pub get_miss :
    (c : StripeCache) (file_id : Bytes) (idx : ℕ)
    → lookup bytes_dec (cache_key file_id idx) c.lru ≡ none
    → get c file_id idx ≡ (c, none)
unfolding get
get_miss c file_id idx h = ground arith

evict_locked-IsBounded :
    (k bytes : Bytes) (max_bytes : ℕ) (c : StripeCache)
    → Holds k bytes max_bytes c
    → IsBounded (evict_locked c)
unfolding evict_locked
evict_locked-IsBounded k bytes max_bytes c h =
    evict_loop-Sound (length c.lru) c.max_bytes c.cur_bytes c.lru (omega arith) h.0 h.1

evict_locked-front :
    (k bytes : Bytes) (max_bytes : ℕ) (c : StripeCache)
    → Holds k bytes max_bytes c
    → length bytes ≤ max_bytes
    → front (evict_locked c).lru ≡ some (k, bytes)
unfolding evict_locked
evict_locked-front k bytes max_bytes c h fits =
    evict_loop-front (length c.lru) c.max_bytes c.cur_bytes c.lru (k, bytes)
      (omega (arith, fits, h.3)) h.0 h.2

put-IsBounded :
    (c : StripeCache) (file_id : Bytes) (idx : ℕ) (bytes : Bytes)
    → IsBounded c
    → IsBounded (put c file_id idx bytes)
put-IsBounded c file_id idx bytes w =
    let k = cache_key file_id idx in
    elim (Bool-cases (ltb c.max_bytes (length bytes))) [
      | inl large ↦ subst IsBounded (sym (put_large c file_id idx bytes (ground arith))) w
      | inr small ↦
          subst IsBounded (sym (put_fits c file_id idx bytes (ground arith))) (
            evict_locked-IsBounded k bytes c.max_bytes (stored c k bytes)
              (stored-Holds c k bytes w))
    ]

get-IsBounded :
    (c : StripeCache) (file_id : Bytes) (idx : ℕ) → IsBounded c → IsBounded (get c file_id idx).0
get-IsBounded c file_id idx w =
    let k = cache_key file_id idx in
    elim (Option-cases (lookup bytes_dec k c.lru)) [
      | inl h ↦ subst (λ r. IsBounded r.0) (sym (get_miss c file_id idx h)) w
      | inr (old, h) ↦
          subst (λ r. IsBounded r.0) (sym (get_hit c file_id idx old h))
            (
              omega (arith, w.0, total-delete k old c.lru w.2, total-move_to_front k old c.lru),
              w.1,
              move_to_front-Distinct k old c.lru w.2,
            )
    ]

run-StaysBounded : (calls : List Call) (c : StripeCache) → IsBounded c → IsBounded (run calls c)
unfolding run
run-StaysBounded [] c w = w
run-StaysBounded (gets file_id idx ∷ calls) c w =
    run-StaysBounded calls (get c file_id idx).0 (get-IsBounded c file_id idx w)
run-StaysBounded (puts file_id idx bytes ∷ calls) c w =
    run-StaysBounded calls (put c file_id idx bytes) (put-IsBounded c file_id idx bytes w)

-- Whatever calls of `Get` and `Put` a new cache has seen, its count of bytes is the sum of the
-- lengths of the entries that it holds, that count is at most its bound, and no two entries have
-- the same key.
pub run-IsBounded :
    (max_bytes : ℕ) (calls : List Call) → IsBounded (run calls (new_stripe_cache max_bytes))
unfolding new_stripe_cache total
run-IsBounded max_bytes calls =
    run-StaysBounded calls (new_stripe_cache max_bytes) (refl, omega arith, tt)

-- When the bytes of a stripe are not longer than the bound of a cache whose count is right and
-- within the bound, then after they were put, which may evict other entries, `Get` of the same
-- stripe returns them.
pub get-put_stripe :
    (c : StripeCache) (file_id : Bytes) (idx : ℕ) (bytes : Bytes)
    → IsBounded c
    → length bytes ≤ c.max_bytes
    → (get (put c file_id idx bytes) file_id idx).1 ≡ some bytes
get-put_stripe c file_id idx bytes w fits =
    let k = cache_key file_id idx in
    let kept =
      evict_locked-front k bytes c.max_bytes (stored c k bytes) (stored-Holds c k bytes w) fits in
    let first = ap (λ d. front d.lru) (put_fits c file_id idx bytes fits) ∙ kept in
    let hit = lookup-front_entry k bytes (put c file_id idx bytes).lru first in
    ap (λ r. r.1) (get_hit (put c file_id idx bytes) file_id idx bytes hit)
