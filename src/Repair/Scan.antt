-- ===== src/Repair/Scan.antt =====
-- internal/repair/repair.go: the choice of a spare, the repair of a file, and the scan.
use fnshare.Prelude.{
  ℕ, ◌+◌, Bool, true, false, not, ◌||◌, List, [], ◌∷◌, none, some, Result, ok, err, if◌then◌else◌,
  length, get_elem?, set, ltb, ◌==◌, ite,
}
use fnshare.Prelude.Bytes.{Bytes, codes, bytes_dec}
use fnshare.Prelude.Clock.{Time}
use fnshare.Blockstore.{Disk}
use fnshare.Group
use fnshare.Group.{Deps, Member}
use fnshare.Holders.{index_from}
use fnshare.Prelude.Int.{ℤ, pos, negsuc}
use fnshare.Manifest
use fnshare.Manifest.{Manifest, Stripe, ManifestError}
use fnshare.Node.Blocks.{State}
use fnshare.Repair.{
  Repairer, services, RepairError, list_failed, save_failed, fault, Answers, alive, migrate_stripes,
}

module _ (r : Repairer) (now : Time) where
  -- The number of holders that are alive.
  unfoldable pub live_count : State (services r) → List Bytes → ℕ
  live_count st [] = 0
  live_count st (h ∷ holders) =
      if alive r now st h then live_count st holders + 1 else live_count st holders

  -- `busy[…]`
  unfoldable pub is_busy : Bytes → List Bytes → Bool
  is_busy peer [] = false
  is_busy peer (h ∷ holders) = ite (bytes_dec h peer) true (is_busy peer holders)

  -- The first member that is no holder and alive; empty if there is none.
  unfoldable pub find_spare : State (services r) → List Bytes → List Member → Bytes
  find_spare st holders [] = []
  find_spare st holders (mem ∷ members) =
      let rest = find_spare st holders members in
      if is_busy mem.peer_id holders
      then rest
      else if not (alive r now st mem.peer_id)
      then rest
      else mem.peer_id

  -- The peers that `PutManifestOnPeer` is called for, whatever comes of it.
  unfoldable pub propagated : List Bytes → List Bytes
  propagated [] = []
  propagated (h ∷ holders) =
      let rest = propagated holders in
      ite (bytes_dec h r.self) rest (elim (r.decode_peer h) [ none ↦ rest | some pid ↦ pid ∷ rest ])

-- `indexOf`
unfoldable pub index_of : List Bytes → Bytes → ℤ
index_of s v = index_from v s 0

-- `slotPeer`
unfoldable pub slot_peer : Manifest → ℕ → Bytes
slot_peer m slot = elim (get_elem? m.holders slot) [ none ↦ codes "?" | some holder ↦ holder ]

-- How `repairFile` ends without an error.
pub data Outcome : Type 0 where
  has_headroom no_spare : Outcome
  -- the manifest, the holder that the log names as the old one, and the peers that are told
  migrated : Manifest → Bytes → List Bytes → Outcome

-- `id[:12]` in a log line
abbrev pub short : Bytes → Bool
short id = ltb (length id) 12

module _ (r : Repairer) (now : Time) where
  -- `repairFile` once there is a spare.
  unfoldable pub move_to_spare :
      Answers
      → Disk
      → Manifest
      → ℕ
      → Bytes
      → State (services r)
      → State (services r) × Result RepairError Outcome
  move_to_spare answers disk m slot spare st =
      let (st', e) = migrate_stripes r now answers disk m slot spare m.stripes st in
      let m' : Manifest = record m { holders = set m.holders slot spare } in
      elim e [
        | some x ↦ (st', if short m.file_id then err fault else err x)
        | none ↦ elim (Manifest.put r.deps.badger r.manifests st'.db m') [
          | err x ↦ (st', err (save_failed x))
          | ok db ↦ (
            record st' { db = db },
            if short m.file_id
                then err fault
                else ok (migrated m' (slot_peer m' slot) (propagated r now m'.holders)),
          )
        ]
      ]

  -- `repairFile` of a holder's slot.
  unfoldable pub repair_file :
      Answers
      → Disk
      → Manifest
      → ℕ
      → State (services r)
      → State (services r) × Result RepairError Outcome
  repair_file answers disk m slot st =
      let (members, e) = Group.list_members r.deps st.db m.group_id in
      let spare = find_spare r now st m.holders members in
      if ltb m.data_shards (live_count r now st m.holders)
      then (st, if short m.file_id then err fault else ok has_headroom)
      else elim e [
        | some x ↦ (st, err (list_failed x))
        | none ↦
            if length spare == 0
            then (st, if short m.file_id || short m.group_id then err fault else ok no_spare)
            else move_to_spare answers disk m slot spare st
      ]

  -- Whether the error ends the scan: a panic, or one that is met when the log line for it cuts the id.
  abbrev pub is_fatal : Manifest → RepairError → Bool
  is_fatal m fault = true
  is_fatal m _ = short m.file_id

  -- The loop of `ScanForOfflinePeer`, and whether it panicked; the place of the offline peer in a list
  -- of holders is -1 if it is no holder.
  unfoldable pub scan_files :
      Answers → Disk → Bytes → List Manifest → State (services r) → State (services r) × Bool
  scan_files answers disk offline [] st = (st, false)
  scan_files answers disk offline (m ∷ manifests) st =
      let next = scan_files answers disk offline manifests in
      elim (index_of m.holders offline) [
        | negsuc n ↦ next st
        | pos slot ↦
            let (st', result) = repair_file answers disk m slot st in
            elim result [
              | ok outcome ↦ next st'
              | err e ↦ if is_fatal m e then (st', true) else next st'
            ]
      ]

  -- `ScanForOfflinePeer`
  unfoldable pub scan_for_offline_peer :
      Answers → Disk → Bytes → State (services r) → State (services r) × Bool
  scan_for_offline_peer answers disk offline st =
      let (manifests, e) = Manifest.list r.deps.badger r.manifests st.db in
      elim e [ some x ↦ (st, false) | none ↦ scan_files answers disk offline manifests st ]
