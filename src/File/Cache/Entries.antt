-- ===== src/File/Cache/Entries.antt =====
-- internal/file/cache.go: lemmas on the entries of the cache.
use fnshare.Prelude.{
  ℕ, ◌+◌, ◌≡◌, refl, ap, sym, ◌∙◌, subst, inl, inr, List, [], ◌∷◌, ◌++◌, ◌⊎◌, Option, none, some,
  arith, length,
}
use mathlib.Core.List.{lookup}
use mathlib.Core.Option.{some-injective}
use fnshare.Prelude.Assoc.{delete, lookup-delete}
use fnshare.Prelude.Bytes.{Bytes, bytes_dec}
use fnshare.File.Cache.{CacheEntry, move_to_front}

-- The bytes of the entries.
unfoldable pub total : List CacheEntry → ℕ
total [] = 0
total (e ∷ lru) = length e.1 + total lru

-- No two entries have the same key.
abbrev pub Distinct : List CacheEntry → Type 0
Distinct [] = Unit {0}
Distinct (e ∷ lru) = (lookup bytes_dec e.0 lru ≡ none) × Distinct lru

pub total-append : (xs ys : List CacheEntry) → total (xs ++ ys) ≡ total xs + total ys
unfolding total
total-append [] ys = omega arith
total-append (x ∷ xs) ys = omega (arith, total-append xs ys)

lookup-front :
    (k : Bytes) (xs ys : List CacheEntry)
    → lookup bytes_dec k (xs ++ ys) ≡ none
    → lookup bytes_dec k xs ≡ none
unfolding lookup
lookup-front k [] ys h = refl
lookup-front k (x ∷ xs) ys h = ground (arith, lookup-front k xs ys)

pub Distinct-front : (xs ys : List CacheEntry) → Distinct (xs ++ ys) → Distinct xs
Distinct-front [] ys d = tt
Distinct-front (x ∷ xs) ys d = (lookup-front x.0 xs ys d.0, Distinct-front xs ys d.1)

-- The first entry.
abbrev pub front : List CacheEntry → Option CacheEntry
front [] = none
front (e ∷ lru) = some e

pub front-append :
    (xs : List CacheEntry) (y e : CacheEntry)
    → front (xs ++ y ∷ []) ≡ some e
    → ((xs ≡ []) × (y ≡ e)) ⊎ (front xs ≡ some e)
front-append [] y e h = inl (refl, some-injective y e h)
front-append (x ∷ xs) y e h = inr h

delete-absent :
    (k : Bytes) (lru : List CacheEntry)
    → lookup bytes_dec k lru ≡ none
    → delete bytes_dec k lru ≡ lru
unfolding lookup delete
delete-absent k [] h = refl
delete-absent k (e ∷ lru) h = ground (arith, delete-absent k lru)

pub delete_same :
    (k : Bytes) (e : CacheEntry) (lru : List CacheEntry)
    → k ≡ e.0
    → delete bytes_dec k (e ∷ lru) ≡ delete bytes_dec k lru
unfolding delete
delete_same k e lru same = ground arith

pub delete_other :
    (k : Bytes) (e : CacheEntry) (lru : List CacheEntry)
    → ¬ (k ≡ e.0)
    → delete bytes_dec k (e ∷ lru) ≡ e ∷ delete bytes_dec k lru
unfolding delete
delete_other k e lru other = ground arith

pub lookup_same :
    (k : Bytes) (e : CacheEntry) (lru : List CacheEntry)
    → k ≡ e.0
    → lookup bytes_dec k (e ∷ lru) ≡ some e.1
unfolding lookup
lookup_same k e lru same = ground arith

pub lookup_other :
    (k : Bytes) (e : CacheEntry) (lru : List CacheEntry)
    → ¬ (k ≡ e.0)
    → lookup bytes_dec k (e ∷ lru) ≡ lookup bytes_dec k lru
unfolding lookup
lookup_other k e lru other = ground arith

pub total-delete :
    (k old : Bytes) (lru : List CacheEntry)
    → Distinct lru
    → lookup bytes_dec k lru ≡ some old
    → total lru ≡ length old + total (delete bytes_dec k lru)
unfolding lookup total
total-delete k old [] d h = absurd (ground arith)
total-delete k old (e ∷ lru) d h = elim (bytes_dec k e.0) [
  | yes same ↦
      let absent : lookup bytes_dec k lru ≡ none =
        subst (λ j. lookup bytes_dec j lru ≡ none) (sym same) d.0 in
      let kept : total (delete bytes_dec k (e ∷ lru)) ≡ total lru =
        ap total (delete_same k e lru same ∙ delete-absent k lru absent) in
      let size : length e.1 ≡ length old =
        ap length (some-injective e.1 old (sym (lookup_same k e lru same) ∙ h)) in
      omega arith
  | no other ↦
      let rest = total-delete k old lru d.1 (sym (lookup_other k e lru other) ∙ h) in
      let kept = ap total (delete_other k e lru other) in omega (arith, rest, kept)
]

Distinct-delete :
    (k : Bytes) (lru : List CacheEntry) → Distinct lru → Distinct (delete bytes_dec k lru)
unfolding delete
Distinct-delete k [] d = tt
Distinct-delete k (e ∷ lru) d = elim (bytes_dec k e.0) [
  | yes same ↦ subst Distinct (sym (delete_same k e lru same)) (Distinct-delete k lru d.1)
  | no other ↦
      subst Distinct (sym (delete_other k e lru other))
        (ground (arith, lookup-delete bytes_dec e.0 k lru), Distinct-delete k lru d.1)
]

pub move_to_front-Distinct :
    (k bytes : Bytes) (lru : List CacheEntry) → Distinct lru → Distinct (move_to_front k bytes lru)
unfolding move_to_front
move_to_front-Distinct k bytes lru d =
    (ground (arith, lookup-delete bytes_dec k k lru), Distinct-delete k lru d)

pub total-move_to_front :
    (k bytes : Bytes) (lru : List CacheEntry)
    → total (move_to_front k bytes lru) ≡ length bytes + total (delete bytes_dec k lru)
unfolding move_to_front total
total-move_to_front k bytes lru = refl

pub front-move_to_front :
    (k bytes : Bytes) (lru : List CacheEntry) → front (move_to_front k bytes lru) ≡ some (k, bytes)
unfolding move_to_front
front-move_to_front k bytes lru = refl

pub lookup-front_entry :
    (k bytes : Bytes) (lru : List CacheEntry)
    → front lru ≡ some (k, bytes)
    → lookup bytes_dec k lru ≡ some bytes
unfolding lookup
lookup-front_entry k bytes [] h = absurd (ground arith)
lookup-front_entry k bytes (e ∷ lru) h =
    let same = some-injective e (k, bytes) h in
    lookup_same k e lru (sym (ap (λ x. x.0) same)) ∙ ap (λ x. some x.1) same
