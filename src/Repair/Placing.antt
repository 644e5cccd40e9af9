-- ===== src/Repair/Placing.antt =====
-- The shards of a slot that this node takes over are on its disk, each under its own hash.
use fnshare.Prelude.{
  ℕ, ◌+◌, ◌≡◌, refl, ap, sym, ◌∙◌, subst, inl, inr, List, [], ◌∷◌, none, some, arith, ok,
  ok-injective, Bool-cases, Option-cases, Result-cases, length, if_pos, if_neg, get_elem?, ltb,
  ◌==◌,
}
use mathlib.Core.Option.{some-injective}
use fnshare.Prelude.Bytes.{Bytes, bytes_dec}
use fnshare.Prelude.Clock.{Time}
use fnshare.Blockstore
use fnshare.Blockstore.{Disk, Files, hash_of}
use fnshare.Blockstore.Integrity.{Sha256Laws, IsShardId, hash_of-IsShardId, get-put, put_content}
use fnshare.Ec
use fnshare.Group
use fnshare.Manifest.{Manifest, Stripe}
use fnshare.Node.Blocks.{State}
use fnshare.Repair.Survivors.{survivors-files}
use fnshare.Repair.Moved.{holders_of, get_elem?-set, repair_file-Moved}
use fnshare.Repair.{
  Repairer, services, RepairError, Answers, survivors, place, restored, migrate_stripe_shard,
  migrate_stripes,
}
use fnshare.Repair.Scan.{migrated, find_spare, repair_file}

-- A shard with the right content is on the disk.
abbrev pub Held : (r : Repairer) → Files → Bytes → Type 0
Held r files id =
    (shard : Bytes) × (Blockstore.get r.root files id ≡ ok shard) × (hash_of r.sha256 shard ≡ id)

module _ (r : Repairer) (sha : Sha256Laws r.sha256) where
  restored_lem :
      (now : Time) (stripe : Stripe) (slot : ℕ) (full : List Bytes) (id shard : Bytes)
      → restored r now stripe slot full ≡ ok (id, shard)
      → (hash_of r.sha256 shard ≡ id) × (get_elem? stripe.shard_ids slot ≡ some id)
  unfolding restored
  restored_lem now stripe slot full id shard e = elim (Option-cases (get_elem? full slot)) [
    | inl none_there ↦ absurd (ground arith)
    | inr (s, s_is) ↦ elim (Bool-cases (length s == 0)) [
      | inl empty ↦ absurd (ground arith)
      | inr some_bytes ↦ elim (Option-cases (get_elem? stripe.shard_ids slot)) [
        | inl no_id ↦ absurd (ground arith)
        | inr (k, k_is) ↦ elim (bytes_dec (hash_of r.sha256 s) k) [
          | no differs ↦ absurd (ground arith)
          | yes same ↦
              let pair : ◌≡◌ {A = Bytes × Bytes} (k, s) (id, shard) =
                ok-injective {E = RepairError} _ _ (ground arith) in
              (
                sym (ap (λ p. hash_of r.sha256 (p.1)) pair) ∙ same ∙ ap (λ p. p.0) pair,
                k_is ∙ ap (λ p. some (p.0)) pair,
              )
        ]
      ]
    ]
  ]

  Held-IsShardId : (files : Files) (id : Bytes) → Held r files id → IsShardId id
  Held-IsShardId files id (shard, here, same) =
      subst IsShardId same (hash_of-IsShardId r.sha256 shard sha)

  -- A shard that was put is held, and so is every shard that was held before.
  Held-put :
      (disk : Disk) (files files' : Files) (id shard : Bytes)
      → Blockstore.put r.sha256 r.root disk files id shard ≡ ok files'
      → Held r files' id × ((other : Bytes) → Held r files other → Held r files' other)
  Held-put disk files files' id shard e =
      let same = (put_content r.sha256 r.root disk files files' id shard e).0 in
      let is_id = subst IsShardId same (hash_of-IsShardId r.sha256 shard sha) in
      (
        (
          shard,
          get-put r.sha256 r.root disk files files' id shard id e is_id is_id
              ∙ if_pos (bytes_dec id id) refl _ _,
          same,
        ),
        (λ (other : Bytes) (held : Held r files other). elim (bytes_dec other id) [
          | yes p ↦ (
            shard,
            get-put r.sha256 r.root disk files files' id shard other e is_id
                  (Held-IsShardId files other held)
                ∙ if_pos (bytes_dec other id) p _ _,
            same ∙ sym p,
          )
          | no p ↦ (
            held.0,
            get-put r.sha256 r.root disk files files' id shard other e is_id
                  (Held-IsShardId files other held)
                ∙ if_neg (bytes_dec other id) p _ _
                ∙ held.1,
            held.2,
          )
        ]),
      )

module _ (r : Repairer) (now : Time) (sha : Sha256Laws r.sha256) (a : Answers) (disk : Disk) where
  place_self :
      (spare id shard : Bytes) (st : State (services r))
      → spare ≡ r.self
      → (place r now a disk spare id shard st).1 ≡ none
      → let files = (place r now a disk spare id shard st).0.files in
        Held r files id × ((other : Bytes) → Held r st.files other → Held r files other)
  unfolding place
  place_self spare id shard st self e =
      elim (Result-cases (Blockstore.put r.sha256 r.root disk st.files id shard)) [
        | inr (x, bad) ↦ absurd (ground arith)
        | inl (files', done) ↦
            let now_files : (place r now a disk spare id shard st).0.files ≡ files' =
              ground arith in
            subst (λ fs. Held r fs id × ((other : Bytes) → Held r st.files other → Held r fs other))
              (sym now_files) (Held-put r sha disk st.files files' id shard done)
      ]

  migrate_stripe_shard-self :
      (m : Manifest) (stripe : Stripe) (slot : ℕ) (spare : Bytes) (st : State (services r))
      → spare ≡ r.self
      → (migrate_stripe_shard r now a disk m stripe slot spare st).1 ≡ none
      → let files = (migrate_stripe_shard r now a disk m stripe slot spare st).0.files in
        ((id : Bytes) × (get_elem? stripe.shard_ids slot ≡ some id) × Held r files id)
        × ((other : Bytes) → Held r st.files other → Held r files other)
  unfolding migrate_stripe_shard
  migrate_stripe_shard-self m stripe slot spare st self e =
      let found = survivors r now a m slot stripe.shard_ids 0 st 0 in
      let total = m.data_shards + m.parity_shards in
      elim (Bool-cases (length stripe.shard_ids == total)) [
        | inr malformed ↦ absurd (ground arith)
        | inl right ↦ elim (Option-cases found.1) [
          | inl crashed ↦ absurd (ground arith)
          | inr (shards, some_found) ↦ elim (Bool-cases (ltb shards.1 m.data_shards)) [
            | inl few ↦ absurd (ground arith)
            | inr enough ↦
                elim (Result-cases (
                  Ec.decode r.rs
                    (record { data_shards = m.data_shards; parity_shards = m.parity_shards })
                    shards.0 stripe.ciphertext_bytes)) [
                      | inr (x, bad) ↦ absurd (ground arith)
                      | inl (decoded, good) ↦
                          elim (Result-cases (restored r now stripe slot decoded.1)) [
                            | inr (x, bad) ↦ absurd (ground arith)
                            | inl (shard, whole) ↦
                                let st' = found.0 in
                                let run : migrate_stripe_shard r now a disk m stripe slot spare st
                                    ≡ place r now a disk spare shard.0 shard.1 st' =
                                  ground arith in
                                let placed =
                                  place_self spare shard.0 shard.1 st' self
                                    (ap (λ x. x.1) (sym run) ∙ e) in
                                let kept : (id : Bytes) → Held r st.files id → Held r st'.files id =
                                  λ id held.
                                    subst (λ fs. Held r fs id)
                                      (sym (survivors-files r now a m slot stripe.shard_ids 0 st 0))
                                      held in
                                subst
                                  (λ fs.
                                    ((id : Bytes) × (get_elem? stripe.shard_ids slot ≡ some id)
                                      × Held r fs id)
                                    × ((other : Bytes) → Held r st.files other → Held r fs other))
                                  (ap (λ x. x.0.files) (sym run))
                                  (
                                    (
                                      shard.0,
                                      (restored_lem r sha now stripe slot decoded.1 shard.0 shard.1
                                          whole).1,
                                      placed.0,
                                    ),
                                    (λ (other : Bytes) (held : Held r st.files other).
                                        placed.1 other (kept other held)),
                                  )
                          ]
                    ]
          ]
        ]
      ]

  -- The shard at the slot of each stripe is held.
  abbrev pub AllHeld : ℕ → Files → List Stripe → Type 0
  AllHeld slot files [] = Unit {0}
  AllHeld slot files (stripe ∷ stripes) =
      ((id : Bytes) × (get_elem? stripe.shard_ids slot ≡ some id) × Held r files id)
      × AllHeld slot files stripes

  migrate_stripes-self :
      (m : Manifest) (slot : ℕ) (spare : Bytes) (stripes : List Stripe) (st : State (services r))
      → spare ≡ r.self
      → (migrate_stripes r now a disk m slot spare stripes st).1 ≡ none
      → let files = (migrate_stripes r now a disk m slot spare stripes st).0.files in
        AllHeld slot files stripes × ((other : Bytes) → Held r st.files other → Held r files other)
  unfolding migrate_stripes
  migrate_stripes-self m slot spare [] st self e = (tt, λ other held. held)
  migrate_stripes-self m slot spare (stripe ∷ stripes) st self e =
      let one = migrate_stripe_shard r now a disk m stripe slot spare st in
      elim (Option-cases one.1) [
        | inr (x, bad) ↦ absurd (ground arith)
        | inl good ↦
            let run : migrate_stripes r now a disk m slot spare (stripe ∷ stripes) st
                ≡ migrate_stripes r now a disk m slot spare stripes one.0 =
              ground arith in
            let first = migrate_stripe_shard-self m stripe slot spare st self good in
            let rest =
              migrate_stripes-self m slot spare stripes one.0 self (ap (λ x. x.1) (sym run) ∙ e) in
            subst
              (λ fs.
                AllHeld slot fs (stripe ∷ stripes)
                × ((other : Bytes) → Held r st.files other → Held r fs other))
              (ap (λ x. x.0.files) (sym run))
              (
                ((first.0.0, first.0.1, rest.1 first.0.0 first.0.2), rest.0),
                (λ (other : Bytes) (held : Held r st.files other).
                    rest.1 other (first.1 other held)),
              )
      ]

  -- If a repair reports that a slot was moved to this node, the shard at that slot of each stripe
  -- of the file is on its disk with the content that its id is the hash of, and no shard that the
  -- disk held before is lost.
  pub repair_file-self :
      (m m' : Manifest) (slot : ℕ) (old from : Bytes) (told : List Bytes) (st : State (services r))
      → get_elem? m.holders slot ≡ some old
      → get_elem? m'.holders slot ≡ some r.self
      → (repair_file r now a disk m slot st).1 ≡ ok (migrated m' from told)
      → let files = (repair_file r now a disk m slot st).0.files in
        AllHeld slot files m.stripes
        × ((other : Bytes) → Held r st.files other → Held r files other)
  repair_file-self m m' slot old from told st at here e =
      let (risk, found, moved) = repair_file-Moved r now a disk m m' slot from told st e in
      let spare = find_spare r now st m.holders (Group.list_members r.deps st.db m.group_id).0 in
      let self : spare ≡ r.self = some-injective _ _ (
        sym (get_elem?-set m.holders slot old spare at)
        ∙ ap (λ x. get_elem? (holders_of x) slot) (sym moved.manifest)
        ∙ here) in
      subst
        (λ fs.
          AllHeld slot fs m.stripes × ((other : Bytes) → Held r st.files other → Held r fs other))
        (sym moved.files) (migrate_stripes-self m slot spare m.stripes st self moved.stripes)
