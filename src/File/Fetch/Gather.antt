-- ===== src/File/Fetch/Gather.antt =====
-- What the loop over the slots gathers.
use fnshare.Prelude.{
  ℕ, ◌+◌, ◌≤◌, ◌≡◌, refl, ap, sym, ◌∙◌, ◌≢◌, ◌⊎◌, inl, inr, true, false, List, [], ◌∷◌, map, Option,
  none, some, arith, length, Option-cases, Bool-cases, leb, subst,
}
use fnshare.Prelude.Bytes.{Bytes}
use fnshare.Blockstore.{hash_of}
use fnshare.Ec.Recovery.{Masks, present, AllPresent}
use fnshare.File.Fetch.{Gathered, empties, gather, slots_of}

-- The slots that give their shard.
abbrev pub able : (Bytes → Bytes → Option Bytes) → List (Bytes × Bytes) → ℕ
able answer [] = 0
able answer ((id, holder) ∷ slots) = elim (answer id holder) [
  | none ↦ able answer slots
  | some raw ↦ able answer slots + 1
]

-- Each slot gives its shard or nothing.
abbrev pub Answers : (Bytes → Bytes → Option Bytes) → List (Bytes × Bytes) → List Bytes → Type 0
Answers answer [] [] = Unit {0}
Answers answer [] (f ∷ full) = ⊥
Answers answer ((id, holder) ∷ slots) [] = ⊥
Answers answer ((id, holder) ∷ slots) (f ∷ full) =
    ((answer id holder ≡ none) ⊎ (answer id holder ≡ some f)) × Answers answer slots full

present-cons :
    (f : Bytes) (shards : List Bytes) → f ≢ [] → present (f ∷ shards) ≡ present shards + 1
present-cons [] shards h = absurd (h refl)
present-cons (c ∷ f) shards h = refl

present-empties : {A : Type 0} (s : List A) → present (empties s) ≡ 0
present-empties [] = refl
present-empties (a ∷ s) = present-empties s

Masks-empties :
    (answer : Bytes → Bytes → Option Bytes) (slots : List (Bytes × Bytes)) (full : List Bytes)
    → Answers answer slots full
    → Masks (empties slots) full
Masks-empties answer [] [] h = tt
Masks-empties answer [] (f ∷ full) h = absurd h
Masks-empties answer (slot ∷ slots) [] h = absurd h
Masks-empties answer (slot ∷ slots) (f ∷ full) h = (inl refl, Masks-empties answer slots full h.1)

module _ {S : Type 0} (fetch : S → Bytes → Bytes → S × Option Bytes) (k : ℕ) (Good : S → Type 0)
    (answer : Bytes → Bytes → Option Bytes)
    (steady : (s : S) (id holder : Bytes)
      → Good s
      → Good (fetch s id holder).0 × ((fetch s id holder).1 ≡ answer id holder)) where
  -- What the loop gathers is the shards with some missing, at least k of them if so many can be had.
  unfoldable pub GathersWell : List (Bytes × Bytes) → List Bytes → ℕ → Gathered S → Type 0
  GathersWell slots full gathered r =
      Good r.0
      × Masks r.1 full
      × (r.2 ≡ gathered + present r.1)
      × (k ≤ gathered + able answer slots → k ≤ r.2)

  gather-nil : (s : S) (gathered : ℕ) → gather fetch k [] s gathered ≡ (s, [], gathered)
  unfolding gather
  gather-nil s gathered = refl

  gather-enough :
      (slots : List (Bytes × Bytes)) (s : S) (gathered : ℕ)
      → leb k gathered ≡ true
      → gather fetch k slots s gathered ≡ (s, empties slots, gathered)
  unfolding gather
  gather-enough [] s gathered h = refl
  gather-enough ((id, holder) ∷ slots) s gathered h = ground arith

  gather-missed :
      (id holder : Bytes) (slots : List (Bytes × Bytes)) (s : S) (gathered : ℕ)
      → leb k gathered ≡ false
      → (fetch s id holder).1 ≡ none
      → let r = gather fetch k slots (fetch s id holder).0 gathered in
        gather fetch k ((id, holder) ∷ slots) s gathered ≡ (r.0, [] ∷ r.1, r.2)
  unfolding gather
  gather-missed id holder slots s gathered h e = ground arith

  gather-had :
      (id holder raw : Bytes) (slots : List (Bytes × Bytes)) (s : S) (gathered : ℕ)
      → leb k gathered ≡ false
      → (fetch s id holder).1 ≡ some raw
      → let r = gather fetch k slots (fetch s id holder).0 (gathered + 1) in
        gather fetch k ((id, holder) ∷ slots) s gathered ≡ (r.0, raw ∷ r.1, r.2)
  unfolding gather
  gather-had id holder raw slots s gathered h e = ground arith

  pub gather-GathersWell :
      (slots : List (Bytes × Bytes)) (full : List Bytes) (s : S) (gathered : ℕ)
      → Good s
      → AllPresent full
      → Answers answer slots full
      → GathersWell slots full gathered (gather fetch k slots s gathered)
  unfolding GathersWell
  gather-GathersWell [] [] s gathered g a h =
      subst (GathersWell [] [] gathered) (sym (gather-nil s gathered))
        (g, tt, omega arith, λ e. omega arith)
  gather-GathersWell [] (f ∷ full) s gathered g a h = absurd h
  gather-GathersWell (slot ∷ slots) [] s gathered g a h = absurd h
  gather-GathersWell ((id, holder) ∷ slots) (f ∷ full) s gathered g a h =
      let step = steady s id holder g in
      elim (Bool-cases (leb k gathered)) [
        | inl enough ↦
            subst (GathersWell ((id, holder) ∷ slots) (f ∷ full) gathered)
              (sym (gather-enough ((id, holder) ∷ slots) s gathered enough))
              (
                g,
                (inl refl, Masks-empties answer slots full h.1),
                omega (arith, present-empties slots),
                λ e. ground arith,
              )
        | inr more ↦ elim h.0 [
          | inl missed ↦
              let rest =
                gather-GathersWell slots full (fetch s id holder).0 gathered step.0 a.1 h.1 in
              subst (GathersWell ((id, holder) ∷ slots) (f ∷ full) gathered)
                (sym (gather-missed id holder slots s gathered more (step.1 ∙ missed)))
                (rest.0, (inl refl, rest.1), rest.2, λ e. rest.3 (ground arith))
          | inr had ↦
              let rest =
                gather-GathersWell slots full (fetch s id holder).0 (gathered + 1) step.0 a.1 h.1 in
              subst (GathersWell ((id, holder) ∷ slots) (f ∷ full) gathered)
                (sym (gather-had id holder f slots s gathered more (step.1 ∙ had)))
                (
                  rest.0,
                  (inr refl, rest.1),
                  omega (
                    arith,
                    rest.2,
                    present-cons f (gather fetch k slots (fetch s id holder).0 (gathered + 1)).1
                        a.0,
                  ),
                  λ e. rest.3 (ground arith),
                )
        ]
      ]

-- What each round keeps, the loop keeps.
pub gather-keeps :
    {S : Type 0} (fetch : S → Bytes → Bytes → S × Option Bytes) (k : ℕ) (Good : S → Type 0)
    (keeps : (s : S) (id holder : Bytes) → Good s → Good (fetch s id holder).0)
    (slots : List (Bytes × Bytes)) (s : S) (gathered : ℕ)
    → Good s
    → Good (gather fetch k slots s gathered).0
unfolding gather
gather-keeps fetch k Good keeps [] s gathered g = g
gather-keeps fetch k Good keeps ((id, holder) ∷ slots) s gathered g =
    let next = keeps s id holder g in
    elim (Bool-cases (leb k gathered)) [
      | inl enough ↦ simp enough g
      | inr more ↦ elim (Option-cases (fetch s id holder).1) [
        | inl missed ↦
            simp (more, missed)
              (gather-keeps fetch k Good keeps slots (fetch s id holder).0 gathered next)
        | inr (raw, had) ↦
            simp (more, had)
              (gather-keeps fetch k Good keeps slots (fetch s id holder).0 (gathered + 1) next)
      ]
    ]

-- Contents under one of the ids are the same: SHA-256 has no collision there.
abbrev pub Distinguishes : (Bytes → Bytes) → List Bytes → Type 0
Distinguishes sha256 [] = Unit {0}
Distinguishes sha256 (id ∷ ids) =
    ((x y : Bytes) → hash_of sha256 x ≡ id → hash_of sha256 y ≡ id → x ≡ y)
    × Distinguishes sha256 ids

-- Whatever a slot gives has the hash that it was asked for.
abbrev pub Honest : (Bytes → Bytes) → (Bytes → Bytes → Option Bytes) → List (Bytes × Bytes) → Type 0
Honest sha256 answer [] = Unit {0}
Honest sha256 answer ((id, holder) ∷ slots) =
    ((raw : Bytes) → answer id holder ≡ some raw → hash_of sha256 raw ≡ id)
    × Honest sha256 answer slots

pub Honest-Answers :
    (sha256 : Bytes → Bytes) (answer : Bytes → Bytes → Option Bytes) (full holders : List Bytes)
    → length holders ≡ length full
    → Distinguishes sha256 (map (hash_of sha256) full)
    → Honest sha256 answer (slots_of (map (hash_of sha256) full) holders)
    → Answers answer (slots_of (map (hash_of sha256) full) holders) full
Honest-Answers sha256 answer [] holders l d h = tt
Honest-Answers sha256 answer (f ∷ full) [] l d h = absurd (omega arith)
Honest-Answers sha256 answer (f ∷ full) (holder ∷ holders) l d h = (
  elim (Option-cases (answer (hash_of sha256 f) holder)) [
    | inl nothing ↦ inl nothing
    | inr (raw, had) ↦ inr (had ∙ ap some (d.0 raw f (h.0 raw had) refl))
  ],
  Honest-Answers sha256 answer full holders (omega arith) d.1 h.1,
)
