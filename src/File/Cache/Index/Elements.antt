-- ===== src/File/Cache/Index/Elements.antt =====
-- internal/file/cache.go: the elements of the list by number and by key.
use fnshare.Prelude.{
  ℕ, ◌<◌, ◌≡◌, refl, ap, List, [], ◌∷◌, Option, none, some, arith, ite, if_pos, if_neg, ℕ_discrete,
}
use fnshare.Prelude.Assoc.{delete, lookup-delete}
use fnshare.Prelude.Bytes.{Bytes, bytes_dec}
use fnshare.File.Cache.{CacheEntry, pop_back}
use fnshare.File.Cache.Index.{Element}
use mathlib.Core.List.{lookup}

-- The element of a key in the list.
unfoldable pub element_of : Bytes → List Element → Option ℕ
element_of k [] = none
element_of k ((i, (j, bytes)) ∷ lru) = ite (bytes_dec k j) (some i) (element_of k lru)

-- Each key and each element is there once, and the next number is new.
abbrev pub Tidy : ℕ → List Element → Type 0
Tidy next [] = Unit {0}
Tidy next ((i, (k, bytes)) ∷ lru) =
    (element_of k lru ≡ none) × (lookup ℕ_discrete i lru ≡ none) × (i < next) × Tidy next lru

-- The index points to the element of each key, and to nothing for the others.
abbrev pub Pointed : List (Bytes × ℕ) → List Element → Type 0
Pointed index lru = (k : Bytes) → lookup bytes_dec k index ≡ element_of k lru

abbrev pub entries : List Element → List CacheEntry
entries [] = []
entries ((i, e) ∷ lru) = e ∷ entries lru

delete_absent :
    {K V : Type 0} (dec : Discrete K) (k : K) (m : List (K × V))
    → lookup dec k m ≡ none
    → delete dec k m ≡ m
unfolding lookup delete
delete_absent dec k [] h = refl
delete_absent dec k (e ∷ m) h = ground (arith, delete_absent dec k m)

pub lookup-entries_absent :
    (k : Bytes) (lru : List Element)
    → element_of k lru ≡ none
    → lookup bytes_dec k (entries lru) ≡ none
unfolding lookup element_of
lookup-entries_absent k [] h = refl
lookup-entries_absent k ((i, (j, b)) ∷ lru) h = ground (arith, lookup-entries_absent k lru)

element_of-delete_absent :
    (i : ℕ) (k : Bytes) (lru : List Element)
    → element_of k lru ≡ none
    → element_of k (delete ℕ_discrete i lru) ≡ none
unfolding delete element_of
element_of-delete_absent i k [] h = refl
element_of-delete_absent i k ((j, (q, b)) ∷ lru) h =
    ground (arith, element_of-delete_absent i k lru)

pub Tidy-delete :
    (i next : ℕ) (lru : List Element) → Tidy next lru → Tidy next (delete ℕ_discrete i lru)
unfolding delete
Tidy-delete i next [] t = tt
Tidy-delete i next ((j, (k, b)) ∷ lru) (fresh, own, lt, t) = elim (ℕ_discrete i j) [
  | yes p ↦ rw (if_pos _ p) (Tidy-delete i next lru t)
  | no p ↦ rw (if_neg _ p) (
    element_of-delete_absent i k lru fresh,
    ground (arith, lookup-delete ℕ_discrete j i lru),
    lt,
    Tidy-delete i next lru t,
  )
]

-- What the element of a key is.
abbrev pub Found : ℕ → Bytes → ℕ → List Element → Type 0
Found next k i lru =
    (b : Bytes) × (lookup ℕ_discrete i lru ≡ some (k, b))
    × (i < next)
    × (lookup bytes_dec k (entries lru) ≡ some b)
    × (entries (delete ℕ_discrete i lru) ≡ delete bytes_dec k (entries lru))
    × ((q : Bytes)
        → element_of q (delete ℕ_discrete i lru) ≡ ite (bytes_dec q k) none (element_of q lru))

pub element_of-Found :
    (next : ℕ) (k : Bytes) (i : ℕ) (lru : List Element)
    → Tidy next lru
    → element_of k lru ≡ some i
    → Found next k i lru
unfolding element_of lookup delete
element_of-Found next k i [] t h = absurd (ground arith)
element_of-Found next k i ((j, (kj, b)) ∷ lru) (fresh, own, lt, t) h = elim (bytes_dec k kj) [
  | yes p ↦
      let same : i ≡ j = ground arith in
      (
        b,
        ground arith,
        ground arith,
        ground arith,
        ground (
          arith,
          ap entries (delete_absent ℕ_discrete j lru own),
          delete_absent bytes_dec kj (entries lru) (lookup-entries_absent kj lru fresh),
        ),
        λ q. ground (arith, ap (element_of q) (delete_absent ℕ_discrete j lru own)),
      )
  | no p ↦
      let (b', at, small, holds, gone, others) = element_of-Found next k i lru t (ground arith) in
      (b', ground arith, small, ground arith, ground arith, λ q. ground (arith, others q))
]

-- What the last element is, and what the list is without it.
abbrev pub Last : ℕ → List Element → List Element → Element → Type 0
Last next lru rest (i, (k, b)) =
    (pop_back (entries lru) ≡ some (entries rest, (k, b)))
    × ((q : Bytes) → element_of q rest ≡ ite (bytes_dec q k) none (element_of q lru))
    × ((j : ℕ) → lookup ℕ_discrete j lru ≡ none → lookup ℕ_discrete j rest ≡ none)
    × ((j : ℕ) × (element_of k lru ≡ some j))
    × Tidy next rest

pub pop_back-Last :
    (next : ℕ) (e : Element) (lru : List Element)
    → Tidy next (e ∷ lru)
    → (rest : List Element) × (last : Element) × (pop_back (e ∷ lru) ≡ some (rest, last))
      × Last next (e ∷ lru) rest last
unfolding pop_back element_of lookup
pop_back-Last next (i, (k, b)) [] t =
    ([], (i, (k, b)), refl, (refl, λ q. ground arith, λ j h. refl, (i, ground arith), tt))
pop_back-Last next (i, (k, b)) (f ∷ lru) (fresh, own, lt, t) =
    let (rest, (n, (kn, bn)), e, l) = pop_back-Last next f lru t in
    (
      (i, (k, b)) ∷ rest,
      (n, (kn, bn)),
      ground arith,
      (
        ground arith,
        λ q. ground (arith, l.1 q, l.3),
        λ j h. ground (arith, l.2 j),
        elim (bytes_dec kn k) [ yes p ↦ (i, ground arith) | no p ↦ (l.3.0, ground (arith, l.3)) ],
        (ground (arith, l.1 k), l.2 i own, lt, l.4),
      ),
    )
