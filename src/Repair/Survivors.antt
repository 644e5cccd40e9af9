-- ===== src/Repair/Survivors.antt =====
-- Gathering the shards of the other slots changes no file.
use fnshare.Prelude.{
  ℕ, ◌+◌, ◌≡◌, refl, ◌⊎◌, inl, inr, List, [], ◌∷◌, Option, none, some, arith, ok, err, Bool-cases,
  Option-cases, Result-cases, get_elem?, leb, ◌==◌,
}
use fnshare.Prelude.Bytes.{Bytes, bytes_dec}
use fnshare.Prelude.Clock.{Time}
use fnshare.Blockstore
use fnshare.Blockstore.{Disk, Files, hash_of}
use fnshare.Ledger
use fnshare.Manifest.{Manifest}
use fnshare.Node.Blocks.{State, Response, get_shard_from_peer}
use fnshare.Repair.{
  Repairer, services, with_shard, Answers, Taken, got, missed, panicked, ask_holder, take_slot,
  survivors,
}

module _ (r : Repairer) (now : Time) where
  get_shard_from_peer-files :
      (pid : Bytes) (answer : Option Response) (st : State (services r))
      → (get_shard_from_peer (services r) now pid answer st).0.files ≡ st.files
  unfolding get_shard_from_peer
  get_shard_from_peer-files pid none st = refl
  get_shard_from_peer-files pid (some (err e)) st = refl
  get_shard_from_peer-files pid (some (ok body)) st = ground arith

  ask_holder-files :
      (answers : Answers) (st : State (services r)) (id holder : Bytes)
      → (ask_holder r now answers st id holder).0.files ≡ st.files
  unfolding ask_holder
  ask_holder-files answers st id holder = elim (bytes_dec holder r.self) [
    | yes here ↦ ground arith
    | no away ↦ elim (Bool-cases (Ledger.is_online r.deps.badger r.entries st.db st.dirty holder)) [
      | inr off ↦ ground arith
      | inl on ↦ elim (Option-cases (r.decode_peer holder)) [
        | inl bad ↦ ground arith
        | inr (pid, good) ↦
            elim (Option-cases
              (get_shard_from_peer (services r) now pid (answers.get pid id) st).1) [
                | inl missing ↦
                    ground (arith, get_shard_from_peer-files pid (answers.get pid id) st)
                | inr (raw, given) ↦
                    ground (arith, get_shard_from_peer-files pid (answers.get pid id) st)
              ]
      ]
    ]
  ]

  take_slot-files :
      (answers : Answers) (m : Manifest) (slot : ℕ) (st : State (services r)) (i : ℕ) (id : Bytes)
      → (take_slot r now answers m slot st i id).0.files ≡ st.files
  unfolding take_slot
  take_slot-files answers m slot st i id = elim (Bool-cases (i == slot)) [
    | inl same ↦ ground arith
    | inr other ↦ elim (Result-cases (Blockstore.get r.root st.files id)) [
      | inl (raw, here) ↦ ground arith
      | inr (e, gone) ↦ elim (Option-cases (get_elem? m.holders i)) [
        | inl bad ↦ ground arith
        | inr (holder, there) ↦ ground (arith, ask_holder-files answers st id holder)
      ]
    ]
  ]

  Taken-cases : (t : Taken) → ((raw : Bytes) × (t ≡ got raw)) ⊎ ((t ≡ missed) ⊎ (t ≡ panicked))
  Taken-cases (got raw) = inl (raw, refl)
  Taken-cases missed = inr (inl refl)
  Taken-cases panicked = inr (inr refl)

  with_shard-state :
      (raw : Bytes) (had : State (services r) × Option (List Bytes × ℕ))
      → (with_shard raw had).0 ≡ had.0
  with_shard-state raw (st, none) = refl
  with_shard-state raw (st, some (shards, n)) = refl

  pub survivors-files :
      (answers : Answers) (m : Manifest) (slot : ℕ) (ids : List Bytes) (i : ℕ)
      (st : State (services r)) (gathered : ℕ)
      → (survivors r now answers m slot ids i st gathered).0.files ≡ st.files
  unfolding survivors
  survivors-files answers m slot [] i st gathered = refl
  survivors-files answers m slot (id ∷ ids) i st gathered =
      let first = take_slot-files answers m slot st i id in
      let st' = (take_slot r now answers m slot st i id).0 in
      elim (Bool-cases (leb m.data_shards gathered)) [
        | inl enough ↦ ground arith
        | inr more ↦ elim (Taken-cases (take_slot r now answers m slot st i id).1) [
          | inl (raw, had) ↦
              let rest = survivors-files answers m slot ids (i + 1) st' (gathered + 1) in
              ground (
                arith,
                first,
                rest,
                with_shard-state raw
                    (survivors r now answers m slot ids (i + 1) st' (gathered + 1)),
              )
          | inr (inl skipped) ↦
              let rest = survivors-files answers m slot ids (i + 1) st' gathered in
              ground (
                arith,
                first,
                rest,
                with_shard-state [] (survivors r now answers m slot ids (i + 1) st' gathered),
              )
          | inr (inr crashed) ↦ ground (arith, first)
        ]
      ]
