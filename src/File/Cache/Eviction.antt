-- ===== src/File/Cache/Eviction.antt =====
-- internal/file/cache.go: the eviction keeps the count right, ends within the bound, and keeps the
-- first entry when it fits.
use fnshare.Prelude.{
  ℕ, zero, suc, ◌+◌, ◌-◌, ◌≤◌, ◌≡◌, refl, ap, sym, ◌∙◌, subst, inl, inr, true, false, List, [], ◌∷◌,
  ◌++◌, Option, none, some, arith, Bool-cases, Option-cases, length, length-append, ltb,
}
use fnshare.File.Cache.{CacheEntry, pop_back, evict_loop}
use fnshare.File.Cache.Entries.{total, Distinct, total-append, Distinct-front, front, front-append}

-- What `pop_back` returns.
abbrev pub Popped : List CacheEntry → Option (List CacheEntry × CacheEntry) → Type 0
Popped lru none = lru ≡ []
Popped lru (some (rest, oldest)) = lru ≡ rest ++ oldest ∷ []

pub pop_back-Popped : (lru : List CacheEntry) → Popped lru (pop_back lru)
unfolding pop_back
pop_back-Popped [] = refl
pop_back-Popped (x ∷ xs) = elim (Option-cases (pop_back xs)) [
  | inl h ↦ simp h (ap (◌∷◌ x) (subst (Popped xs) h (pop_back-Popped xs)))
  | inr (p, h) ↦ simp h (ap (◌∷◌ x) (subst (Popped xs) h (pop_back-Popped xs)))
]

-- After the eviction: the count is right, within the bound, and the keys differ.
abbrev pub Sound : ℕ → List CacheEntry × ℕ → Type 0
Sound max_bytes (lru, cur) = (cur ≡ total lru) × (cur ≤ max_bytes) × Distinct lru

pub evict_step :
    (fuel max_bytes cur : ℕ) (lru rest : List CacheEntry) (oldest : CacheEntry)
    → ltb max_bytes cur ≡ true
    → pop_back lru ≡ some (rest, oldest)
    → evict_loop (suc fuel) max_bytes lru cur
      ≡ evict_loop fuel max_bytes rest (cur - length oldest.1)
unfolding evict_loop
evict_step fuel max_bytes cur lru rest oldest over popped = ground arith

pub evict_rest :
    (fuel max_bytes cur : ℕ) (lru : List CacheEntry)
    → ltb max_bytes cur ≡ false
    → evict_loop fuel max_bytes lru cur ≡ (lru, cur)
unfolding evict_loop
evict_rest zero max_bytes cur lru within = refl
evict_rest (suc fuel) max_bytes cur lru within = ground arith

pub evict_loop-Sound :
    (fuel max_bytes cur : ℕ) (lru : List CacheEntry)
    → length lru ≤ fuel
    → cur ≡ total lru
    → Distinct lru
    → Sound max_bytes (evict_loop fuel max_bytes lru cur)
unfolding evict_loop total
evict_loop-Sound zero max_bytes cur [] enough count d = (count, omega arith, d)
evict_loop-Sound zero max_bytes cur (e ∷ lru) enough count d = absurd (omega arith)
evict_loop-Sound (suc fuel) max_bytes cur lru enough count d =
    elim (Bool-cases (ltb max_bytes cur)) [
      | inr within ↦
          subst (Sound max_bytes) (sym (evict_rest (suc fuel) max_bytes cur lru within))
            (count, ground arith, d)
      | inl over ↦ elim (Option-cases (pop_back lru)) [
        | inl h ↦
            let empty : lru ≡ [] = subst (Popped lru) h (pop_back-Popped lru) in
            let nothing : total lru ≡ 0 = ap total empty in absurd (ground arith)
        | inr (p, h) ↦
            let parts : lru ≡ p.0 ++ p.1 ∷ [] = subst (Popped lru) h (pop_back-Popped lru) in
            subst (Sound max_bytes) (sym (evict_step fuel max_bytes cur lru p.0 p.1 over h)) (
              evict_loop-Sound fuel max_bytes (cur - length p.1.1) p.0
                (omega (arith, ap length parts, length-append p.0 (p.1 ∷ [])))
                (omega (arith, ap total parts, total-append p.0 (p.1 ∷ [])))
                (Distinct-front p.0 (p.1 ∷ []) (subst Distinct parts d)))
      ]
    ]

pub evict_loop-front :
    (fuel max_bytes cur : ℕ) (lru : List CacheEntry) (e : CacheEntry)
    → length e.1 ≤ max_bytes
    → cur ≡ total lru
    → front lru ≡ some e
    → front (evict_loop fuel max_bytes lru cur).0 ≡ some e
unfolding evict_loop total
evict_loop-front zero max_bytes cur lru e fits count first = first
evict_loop-front (suc fuel) max_bytes cur lru e fits count first =
    elim (Bool-cases (ltb max_bytes cur)) [
      | inr within ↦
          subst (λ r. front r.0 ≡ some e) (sym (evict_rest (suc fuel) max_bytes cur lru within))
            first
      | inl over ↦ elim (Option-cases (pop_back lru)) [
        | inl h ↦
            let empty : lru ≡ [] = subst (Popped lru) h (pop_back-Popped lru) in
            let nothing : total lru ≡ 0 = ap total empty in absurd (ground arith)
        | inr (p, h) ↦
            let parts : lru ≡ p.0 ++ p.1 ∷ [] = subst (Popped lru) h (pop_back-Popped lru) in
            let count' : total lru ≡ total p.0 + total (p.1 ∷ []) =
              ap total parts ∙ total-append p.0 (p.1 ∷ []) in
            subst (λ r. front r.0 ≡ some e) (sym (evict_step fuel max_bytes cur lru p.0 p.1 over h))
              (elim (front-append p.0 p.1 e (sym (ap front parts) ∙ first)) [
                | inl (alone, same) ↦
                    let none_left : total p.0 ≡ 0 = ap total alone in
                    let size : length p.1.1 ≡ length e.1 = ap (λ x. length x.1) same in
                    absurd (ground arith)
                | inr still ↦
                    evict_loop-front fuel max_bytes (cur - length p.1.1) p.0 e fits (omega arith)
                      still
              ])
      ]
    ]
