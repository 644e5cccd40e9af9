-- ===== src/Repair/Crash.antt =====
-- A manifest with a short id ends the process of every node that scans it.
use fnshare.Prelude.{
  ℕ, ◌≡◌, refl, ◌⊎◌, inl, inr, Bool, true, false, List, [], ◌∷◌, ◌++◌, none, arith, Result, ok, err,
  Bool-cases, Result-cases,
}
use fnshare.Prelude.Int.{ℤ, pos, negsuc}
use fnshare.Prelude.Bytes.{Bytes}
use fnshare.Prelude.Clock.{Time}
use fnshare.Blockstore.{Disk}
use fnshare.Group
use fnshare.Manifest
use fnshare.Manifest.{Manifest}
use fnshare.Node.Blocks.{State}
use fnshare.Repair.{Repairer, services, RepairError, Answers}
use fnshare.Repair.Scan.{
  find_spare, index_of, short, move_to_spare, repair_file, is_fatal, scan_files,
  scan_for_offline_peer,
}

module _ (r : Repairer) (now : Time) (answers : Answers) (disk : Disk) where
  abbrev failed : {A : Type 0} → Result RepairError A → Bool
  failed (ok a) = false
  failed (err e) = true

  move_to_spare-failed :
      (m : Manifest) (slot : ℕ) (spare : Bytes) (st : State (services r))
      → short m.file_id ≡ true
      → failed (move_to_spare r now answers disk m slot spare st).1 ≡ true
  unfolding move_to_spare
  move_to_spare-failed m slot spare st h = ground arith

  repair_file-failed :
      (m : Manifest) (slot : ℕ) (st : State (services r))
      → short m.file_id ≡ true
      → failed (repair_file r now answers disk m slot st).1 ≡ true
  unfolding repair_file
  repair_file-failed m slot st h =
      let spare = find_spare r now st m.holders (Group.list_members r.deps st.db m.group_id).0 in
      ground (arith, move_to_spare-failed m slot spare st h)

  short-is_fatal :
      (m : Manifest) (e : RepairError) → short m.file_id ≡ true → is_fatal r now m e ≡ true
  short-is_fatal m e h = ground arith

  ℤ-cases : (z : ℤ) → ((n : ℕ) × (z ≡ pos n)) ⊎ ((n : ℕ) × (z ≡ negsuc n))
  ℤ-cases (pos n) = inl (n, refl)
  ℤ-cases (negsuc n) = inr (n, refl)

  -- If what follows crashes from every state, so does the scan.
  scan_files-cons :
      (offline : Bytes) (x : Manifest) (rest : List Manifest) (st : State (services r))
      → ((st' : State (services r)) → (scan_files r now answers disk offline rest st').1 ≡ true)
      → (scan_files r now answers disk offline (x ∷ rest) st).1 ≡ true
  unfolding scan_files
  scan_files-cons offline x rest st crash = elim (ℤ-cases (index_of x.holders offline)) [
    | inr (n, no_holder) ↦ ground (arith, crash st)
    | inl (slot, holder) ↦
        let res = repair_file r now answers disk x slot st in
        elim (Result-cases res.1) [
          | inl (outcome, good) ↦ ground (arith, crash res.0)
          | inr (e, bad) ↦ elim (Bool-cases (is_fatal r now x e)) [
            | inl fatal ↦ ground arith
            | inr warned ↦ ground (arith, crash res.0)
          ]
        ]
  ]

  scan_files-crashes :
      (offline : Bytes) (m : Manifest) (slot : ℕ) (before after : List Manifest)
      (st : State (services r))
      → short m.file_id ≡ true
      → index_of m.holders offline ≡ pos slot
      → (scan_files r now answers disk offline (before ++ m ∷ after) st).1 ≡ true
  unfolding scan_files
  scan_files-crashes offline m slot [] after st h holder =
      let res = repair_file r now answers disk m slot st in
      elim (Result-cases res.1) [
        | inl (outcome, good) ↦ absurd (ground (arith, repair_file-failed m slot st h))
        | inr (e, bad) ↦ ground (arith, short-is_fatal m e h)
      ]
  scan_files-crashes offline m slot (x ∷ before) after st h holder =
      scan_files-cons offline x (before ++ m ∷ after) st
        (λ st'. scan_files-crashes offline m slot before after st' h holder)

  -- If the store lists a manifest whose file id is shorter than 12 bytes and that names the offline
  -- peer as a holder, the scan for that peer panics, whatever the rest of the manifest says, however
  -- many holders are alive, and whatever the other nodes answer.
  pub scan_crashes :
      (offline : Bytes) (m : Manifest) (slot : ℕ) (before after : List Manifest)
      (st : State (services r))
      → Manifest.list r.deps.badger r.manifests st.db ≡ (before ++ m ∷ after, none)
      → short m.file_id ≡ true
      → index_of m.holders offline ≡ pos slot
      → (scan_for_offline_peer r now answers disk offline st).1 ≡ true
  unfolding scan_for_offline_peer
  scan_crashes offline m slot before after st listed h holder =
      ground (arith, scan_files-crashes offline m slot before after st h holder)
