-- ===== src/Repair.antt =====
-- internal/repair/repair.go: the slot of a holder that went offline moves to a spare member.
-- What the other nodes answer, the clock and the disk are arguments. A log line is left out, but not
-- the panic of one that cuts an id that is shorter than 12 bytes.
pub mod Scan
pub mod Crash
pub mod Moved
pub mod Placing
pub mod Survivors
pub mod Spare
use fnshare.Prelude.{
  ℕ, zero, suc, ◌+◌, Bool, true, false, not, ◌&&◌, ◌||◌, List, [], ◌∷◌, Option, none, some, Result,
  ok, err, if◌then◌else◌, length, get_elem?, set, ltb, leb, ◌==◌, ite,
}
use fnshare.Prelude.Bytes.{Bytes, codes, bytes_dec}
use fnshare.Prelude.Clock.{Time}
use fnshare.Prelude.Paths.{FilePath}
use fnshare.Codec.{Codec}
use fnshare.Store.{StoreError}
use fnshare.Blockstore
use fnshare.Blockstore.{Disk, BlockError, hash_of}
use fnshare.Ec
use fnshare.Ec.{ReedSolomon, EcError}
use fnshare.Group
use fnshare.Group.{Deps, Member}
use fnshare.Holders.{index_from}
use fnshare.Ledger
use fnshare.Prelude.Int.{ℤ, pos, negsuc}
use fnshare.Manifest
use fnshare.Manifest.{Manifest, Stripe, ManifestError}
use fnshare.Node.Blocks.{Services, State, Response, get_shard_from_peer, put_shard_on_peer}
use fnshare.File.Fetch.{empties}

-- The fields of `Service`, with the node that moves shards, and the libraries.
pub record Repairer : Type 1 where
  pub deps : Deps
  pub manifests : Codec Manifest
  pub entries : Codec Ledger.Entry
  pub sha256 : Bytes → Bytes
  pub root : FilePath
  pub self : Bytes
  pub decode_peer : Bytes → Option Bytes
  pub rs : ReedSolomon

abbrev pub services : Repairer → Services
services r = record {
  badger = r.deps.badger;
  manifests = r.manifests;
  entries = r.entries;
  sha256 = r.sha256;
  root = r.root;
}

pub data RepairError : Type 0 where
  malformed : ℕ → RepairError
  not_enough : ℕ → ℕ → RepairError
  ec_failed : EcError → RepairError
  no_shard hash_mismatch bad_spare ship_failed : RepairError
  local_put : BlockError → RepairError
  list_failed : StoreError → RepairError
  save_failed : ManifestError → RepairError
  -- an index or a slice out of range
  fault : RepairError

-- What the other nodes answer: to a request for a shard, and to a shard.
pub record Answers : Type 0 where
  pub get : Bytes → Bytes → Option Response
  pub put : Bytes → Bytes → Option Response

-- What the loop over the slots finds in one of them.
pub data Taken : Type 0 where
  got : Bytes → Taken
  missed panicked : Taken

-- A shard before those that were gathered from the later slots.
abbrev pub with_shard :
    {S : Type 0} → Bytes → S × Option (List Bytes × ℕ) → S × Option (List Bytes × ℕ)
with_shard raw (st, none) = (st, none)
with_shard raw (st, some (shards, n)) = (st, some (raw ∷ shards, n))

module _ (r : Repairer) (now : Time) where
  -- `h == self || s.ledger.IsOnline(h)`
  unfoldable pub alive : State (services r) → Bytes → Bool
  alive st h =
      ite (bytes_dec h r.self) true (Ledger.is_online r.deps.badger r.entries st.db st.dirty h)

  -- A holder of which the shard is not here.
  unfoldable pub ask_holder :
      Answers → State (services r) → Bytes → Bytes → State (services r) × Taken
  ask_holder answers st id holder =
      ite (bytes_dec holder r.self) (st, missed)
        (if not (Ledger.is_online r.deps.badger r.entries st.db st.dirty holder)
          then (st, missed)
          else elim (r.decode_peer holder) [
            | none ↦ (st, missed)
            | some pid ↦
                let (st', raw) = get_shard_from_peer (services r) now pid (answers.get pid id) st in
                elim raw [ none ↦ (st', missed) | some bytes ↦ (st', got bytes) ]
          ])

  -- One slot other than the one to restore: the shard here, or from its holder.
  unfoldable pub take_slot :
      Answers → Manifest → ℕ → State (services r) → ℕ → Bytes → State (services r) × Taken
  take_slot answers m slot st i id =
      if i == slot then (st, missed) else elim (Blockstore.get r.root st.files id) [
        | ok raw ↦ (st, got raw)
        | err e ↦ elim (get_elem? m.holders i) [
          | none ↦ (st, panicked)
          | some holder ↦ ask_holder answers st id holder
        ]
      ]

  -- `for i := 0; i < total && gathered < k; i++` over the ids from the slot `i` on: the shards, an
  -- empty one for each that was not had, and their number; none for a panic.
  unfoldable pub survivors :
      Answers
      → Manifest
      → ℕ
      → List Bytes
      → ℕ
      → State (services r)
      → ℕ
      → State (services r) × Option (List Bytes × ℕ)
  survivors answers m slot [] i st gathered = (st, some ([], gathered))
  survivors answers m slot (id ∷ ids) i st gathered =
      let (st', taken) = take_slot answers m slot st i id in
      let had = survivors answers m slot ids (i + 1) st' (gathered + 1) in
      let without = survivors answers m slot ids (i + 1) st' gathered in
      if leb m.data_shards gathered then (st, some (empties (id ∷ ids), gathered)) else elim taken [
        | got raw ↦ with_shard raw had
        | missed ↦ with_shard [] without
        | panicked ↦ (st', none)
      ]

  -- The shard to the spare.
  unfoldable pub place :
      Answers
      → Disk
      → Bytes
      → Bytes
      → Bytes
      → State (services r)
      → State (services r) × Option RepairError
  place answers disk spare id shard st =
      ite (bytes_dec spare r.self)
        (elim (Blockstore.put r.sha256 r.root disk st.files id shard) [
          | ok files ↦ (record st { files = files }, none)
          | err e ↦ (st, some (local_put e))
        ])
        (elim (r.decode_peer spare) [
          | none ↦ (st, some bad_spare)
          | some pid ↦
              let (st', sent) =
                put_shard_on_peer (services r) now pid shard (answers.put pid id) st in
              (st', if sent then none else some ship_failed)
        ])

  -- The id of the slot and its shard, of those that `Decode` filled in, once its hash is that id.
  unfoldable pub restored : Stripe → ℕ → List Bytes → Result RepairError (Bytes × Bytes)
  restored stripe slot full = elim (get_elem? full slot) [
    | none ↦ err fault
    | some shard ↦
        if length shard == 0 then err no_shard else elim (get_elem? stripe.shard_ids slot) [
          | none ↦ err fault
          | some id ↦
              ite (bytes_dec (hash_of r.sha256 shard) id) (ok (id, shard)) (err hash_mismatch)
        ]
  ]

  -- `migrateStripeShard`: the new state, and the error.
  unfoldable pub migrate_stripe_shard :
      Answers
      → Disk
      → Manifest
      → Stripe
      → ℕ
      → Bytes
      → State (services r)
      → State (services r) × Option RepairError
  migrate_stripe_shard answers disk m stripe slot spare st =
      let total = m.data_shards + m.parity_shards in
      let (st', found) = survivors answers m slot stripe.shard_ids 0 st 0 in
      if not (length stripe.shard_ids == total)
      then (st, some (malformed stripe.index))
      else elim found [
        | none ↦ (st', some fault)
        | some (shards, gathered) ↦
            if ltb gathered m.data_shards
            then (st', some (not_enough gathered m.data_shards))
            else elim (Ec.decode r.rs
                (record { data_shards = m.data_shards; parity_shards = m.parity_shards }) shards
                stripe.ciphertext_bytes) [
                  | err e ↦ (st', some (ec_failed e))
                  | ok (ct, full) ↦ elim (restored stripe slot full) [
                    | err e ↦ (st', some e)
                    | ok (id, shard) ↦ place answers disk spare id shard st'
                  ]
                ]
      ]

  -- `for _, stripe := range m.Stripes`; it stops at the first error.
  unfoldable pub migrate_stripes :
      Answers
      → Disk
      → Manifest
      → ℕ
      → Bytes
      → List Stripe
      → State (services r)
      → State (services r) × Option RepairError
  migrate_stripes answers disk m slot spare [] st = (st, none)
  migrate_stripes answers disk m slot spare (stripe ∷ stripes) st =
      let (st', e) = migrate_stripe_shard answers disk m stripe slot spare st in
      let rest = migrate_stripes answers disk m slot spare stripes st' in
      elim e [ some x ↦ (st', some x) | none ↦ rest ]
