-- ===== src/Holders/Stability.antt =====
-- The holders of a file do not depend on the order of the members, and one member more or less moves
-- one slot at most.
use fnshare.Prelude.{
  ℕ, zero, suc, min, ◌≡◌, refl, ap, sym, subst, ◌∙◌, ◌≤◌, ◌++◌, ◌⊎◌, inl, inr, List, [], ◌∷◌, arith,
  length, length-take, take, ltb, take_of_length-le, take-nil, Bool-cases,
}
use fnshare.Prelude.Bytes.{Bytes}
use fnshare.Holders.{weight, place, sort_by_score, pick}
use mathlib.Core.List.{Mem, Permᴰ, mem-cons_self, mem-cons_of_mem}
use mathlib.Core.List.Permᴰ

module _ (sha256 : Bytes → Bytes) (key : Bytes) where
  -- Different members weigh differently.
  abbrev pub Untied : List Bytes → Type 0
  Untied peers =
      (p q : Bytes) → Mem p peers → Mem q peers → weight sha256 p key ≡ weight sha256 q key → p ≡ q

  place_comm :
      (p q : Bytes) (peers : List Bytes)
      → (weight sha256 p key ≡ weight sha256 q key → p ≡ q)
      → place sha256 key p (place sha256 key q peers)
        ≡ place sha256 key q (place sha256 key p peers)
  unfolding place
  place_comm p q [] h = ground arith
  place_comm p q (x ∷ peers) h = ground (arith, place_comm p q peers h)

  Untied-tail : (p : Bytes) (peers : List Bytes) → Untied (p ∷ peers) → Untied peers
  Untied-tail p peers u = λ x y i j e. u x y (mem-cons_of_mem p i) (mem-cons_of_mem p j) e

  sort_by_score-Permᴰ :
      (xs ys : List Bytes)
      → Permᴰ xs ys
      → Untied xs
      → sort_by_score sha256 key xs ≡ sort_by_score sha256 key ys
  unfolding sort_by_score
  sort_by_score-Permᴰ _ _ Permᴰ.nil u = refl
  sort_by_score-Permᴰ _ _ (Permᴰ.cons {a = x} {l₁ = xs} {l₂ = ys} e p) u =
      rw (e, sort_by_score-Permᴰ xs ys p (Untied-tail x xs u)) refl
  sort_by_score-Permᴰ _ _ (Permᴰ.swap {a = x} {b = y} {l = xs} e f) u =
      rw (← e, ← f)
        (place_comm x y (sort_by_score sha256 key xs)
          (u x y mem-cons_self (mem-cons_of_mem x mem-cons_self)))
  sort_by_score-Permᴰ xs zs (Permᴰ.trans {l₂ = ys} p q) u =
      sort_by_score-Permᴰ xs ys p u
      ∙ sort_by_score-Permᴰ ys zs q
          (λ x y i j e. u x y (Permᴰ.mem (Permᴰ.symm p) i) (Permᴰ.mem (Permᴰ.symm p) j) e)

  -- What `sort.Slice` promises of its result, the order of ties left open.
  abbrev Descending : List Bytes → Type 0
  Descending [] = Unit {0}
  Descending (p ∷ []) = Unit {0}
  Descending (p ∷ q ∷ peers) = (weight sha256 q key ≤ weight sha256 p key) × Descending (q ∷ peers)

  place_first :
      (p : Bytes) (peers : List Bytes)
      → Descending (p ∷ peers)
      → Untied (p ∷ peers)
      → place sha256 key p peers ≡ p ∷ peers
  unfolding place
  place_first p [] d u = refl
  place_first p (q ∷ peers) (le, d) u =
      elim (Bool-cases (ltb (weight sha256 q key) (weight sha256 p key))) [
        | inl heavier ↦ ground arith
        | inr lighter ↦
            let same : p ≡ q =
              u p q mem-cons_self (mem-cons_of_mem p mem-cons_self) (ground arith) in
            let rest : place sha256 key p peers ≡ p ∷ peers =
              place_first p peers (subst (λ z. Descending (z ∷ peers)) (sym same) d)
                (subst (λ z. Untied (z ∷ peers)) (sym same) (Untied-tail p (q ∷ peers) u)) in
            ground arith
      ]

  sort_by_score-Descending :
      (peers : List Bytes)
      → Descending peers
      → Untied peers
      → sort_by_score sha256 key peers ≡ peers
  unfolding sort_by_score
  sort_by_score-Descending [] d u = refl
  sort_by_score-Descending (p ∷ []) d u = place_first p [] d u
  sort_by_score-Descending (p ∷ q ∷ peers) d u =
      ap (place sha256 key p)
        (sort_by_score-Descending (q ∷ peers) d.1 (Untied-tail p (q ∷ peers) u))
      ∙ place_first p (q ∷ peers) d u

  -- Any result that `sort.Slice` may give for peers of different weights is this one.
  sort_by_score_unique :
      (xs ys : List Bytes)
      → Permᴰ xs ys
      → Descending ys
      → Untied xs
      → sort_by_score sha256 key xs ≡ ys
  sort_by_score_unique xs ys p d u =
      sort_by_score-Permᴰ xs ys p u
      ∙ sort_by_score-Descending ys d
          (λ x y i j e. u x y (Permᴰ.mem (Permᴰ.symm p) i) (Permᴰ.mem (Permᴰ.symm p) j) e)

  length-place :
      (p : Bytes) (peers : List Bytes) → length (place sha256 key p peers) ≡ suc (length peers)
  unfolding place
  length-place p [] = refl
  length-place p (q ∷ peers) = ground (arith, length-place p peers)

  length-sort_by_score :
      (peers : List Bytes) → length (sort_by_score sha256 key peers) ≡ length peers
  unfolding sort_by_score
  length-sort_by_score [] = refl
  length-sort_by_score (p ∷ peers) =
      length-place p (sort_by_score sha256 key peers) ∙ ap suc (length-sort_by_score peers)

  -- The three branches of `Pick` are one: the first `n` of the sorted candidates.
  pick-take :
      (peers : List Bytes) (n : ℕ)
      → pick sha256 peers key n ≡ take n (sort_by_score sha256 key peers)
  unfolding pick
  pick-take peers n =
      ground
        (arith, take_of_length-le n (sort_by_score sha256 key peers), length-sort_by_score peers)

  -- The first `n` after a peer was placed: the same peers, or the peer among one fewer of them.
  take-place :
      (p : Bytes) (n : ℕ) (peers : List Bytes)
      → (take (suc n) (place sha256 key p peers) ≡ take (suc n) peers)
        ⊎ (take (suc n) (place sha256 key p peers) ≡ place sha256 key p (take n peers))
  unfolding place
  take-place p n [] = inr (ground (arith, take-nil {A = Bytes} n))
  take-place p zero (q ∷ peers) =
      elim (Bool-cases (ltb (weight sha256 q key) (weight sha256 p key))) [
        | inl heavier ↦ inr (ground arith)
        | inr lighter ↦ inl (ground arith)
      ]
  take-place p (suc n) (q ∷ peers) =
      elim (Bool-cases (ltb (weight sha256 q key) (weight sha256 p key))) [
        | inl heavier ↦ inr (ground arith)
        | inr lighter ↦ elim (take-place p n peers) [
          | inl same ↦ inl (ground arith)
          | inr moved ↦ inr (ground arith)
        ]
      ]

  -- Whatever order the candidates come in, `Pick` picks the same holders in the same order, if no two
  -- of them have the same weight.
  pub pick_any_order :
      (n : ℕ) (xs ys : List Bytes)
      → Permᴰ xs ys
      → Untied xs
      → pick sha256 xs key n ≡ pick sha256 ys key n
  pick_any_order n xs ys p u =
      pick-take xs n ∙ ap (take n) (sort_by_score-Permᴰ xs ys p u) ∙ sym (pick-take ys n)

  -- Where a peer was placed: the others stay as they were, before and after it.
  place-between :
      (p : Bytes) (peers : List Bytes)
      → (before : List Bytes) × (after : List Bytes) × (peers ≡ before ++ after)
        × (place sha256 key p peers ≡ before ++ p ∷ after)
  unfolding place
  place-between p [] = ([], [], refl, refl)
  place-between p (q ∷ peers) =
      elim (Bool-cases (ltb (weight sha256 q key) (weight sha256 p key))) [
        | inl heavier ↦ ([], q ∷ peers, refl, ground arith)
        | inr lighter ↦
            let (before, after, parts, placed) = place-between p peers in
            (q ∷ before, after, ap (λ l. q ∷ l) parts, ground (arith, ap (λ l. q ∷ l) placed))
      ]

  take-take : (n : ℕ) (peers : List Bytes) → take n (take (suc n) peers) ≡ take n peers
  take-take zero peers = refl
  take-take (suc n) [] = refl
  take-take (suc n) (q ∷ peers) = ap (λ l. q ∷ l) (take-take n peers)

  -- When a member joins, wherever it stands among the members, and no two of them have the same
  -- weight, then either the n + 1 holders of a file stay the same, or they are the first n of those from
  -- before, in the same order, with the new member among them.
  pub pick-join :
      (p : Bytes) (xs ys : List Bytes) (n : ℕ)
      → Permᴰ (p ∷ xs) ys
      → Untied (p ∷ xs)
      → (pick sha256 ys key (suc n) ≡ pick sha256 xs key (suc n))
        ⊎ ((before : List Bytes) × (after : List Bytes) × (take n (pick sha256 xs key (suc n))
              ≡ before ++ after)
            × (pick sha256 ys key (suc n) ≡ before ++ p ∷ after))
  unfolding sort_by_score
  pick-join p xs ys n perm u =
      let same_pick : pick sha256 ys key (suc n)
          ≡ take (suc n) (sort_by_score sha256 key (p ∷ xs)) =
        sym (pick_any_order (suc n) (p ∷ xs) ys perm u) ∙ pick-take (p ∷ xs) (suc n) in
      elim (take-place p n (sort_by_score sha256 key xs)) [
        | inl same ↦ inl (same_pick ∙ same ∙ sym (pick-take xs (suc n)))
        | inr moved ↦
            let (before, after, parts, placed) =
              place-between p (take n (sort_by_score sha256 key xs)) in
            inr (
              before,
              after,
              ap (take n) (pick-take xs (suc n))
                  ∙ take-take n (sort_by_score sha256 key xs)
                  ∙ parts,
              same_pick ∙ moved ∙ placed,
            )
      ]

  -- There are as many holders as were asked for, or as there are members if those are fewer.
  pub length-pick : (xs : List Bytes) (n : ℕ) → length (pick sha256 xs key n) ≡ min n (length xs)
  length-pick xs n =
      ap length (pick-take xs n)
      ∙ length-take n (sort_by_score sha256 key xs)
      ∙ ap (min n) (length-sort_by_score xs)
