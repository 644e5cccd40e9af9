-- ===== src/Repair/Spare.antt =====
-- A file whose slot was moved has one holder more that is alive.
use fnshare.Prelude.{
  ℕ, zero, suc, ◌+◌, ◌≤◌, ◌≡◌, refl, ap, sym, ◌∙◌, subst, true, false, List, [], ◌∷◌, some, arith,
  ok, length, get_elem?, set, ◌==◌, ite, inl, inr, Bool-cases,
}
use mathlib.Core.List.{Mem, mem-cons_self, mem-cons_of_mem}
use mathlib.Core.Option.{some-injective}
use fnshare.Prelude.Bytes.{Bytes, bytes_dec}
use fnshare.Prelude.Clock.{Time}
use fnshare.Codec.{ReadsBack}
use fnshare.Store.{BadgerLaws}
use fnshare.Blockstore.{Disk}
use fnshare.Group
use fnshare.Group.{Member}
use fnshare.Manifest
use fnshare.Manifest.{Manifest}
use fnshare.Manifest.Kept.{get-put}
use fnshare.Node.Blocks.{State}
use fnshare.Repair.Moved.{moved_to, holders_of, get_elem?-set, repair_file-Moved}
use fnshare.Repair.{Repairer, services, Answers, alive}
use fnshare.Repair.Scan.{migrated, live_count, is_busy, find_spare, slot_peer, repair_file}

-- How many slots of a file a peer holds.
unfoldable pub slots : Bytes → List Bytes → ℕ
slots peer [] = 0
slots peer (h ∷ holders) = ite (bytes_dec h peer) (slots peer holders + 1) (slots peer holders)

module _ (r : Repairer) (now : Time) (st : State (services r)) where
  live_count-set :
      (holders : List Bytes) (slot : ℕ) (old spare : Bytes)
      → get_elem? holders slot ≡ some old
      → alive r now st old ≡ false
      → alive r now st spare ≡ true
      → live_count r now st (set holders slot spare) ≡ live_count r now st holders + 1
  unfolding live_count
  live_count-set [] slot old spare at dead here = absurd (ground arith)
  live_count-set (h ∷ holders) zero old spare at dead here =
      let same : h ≡ old = some-injective h old at in
      let down : alive r now st h ≡ false = ap (alive r now st) same ∙ dead in ground arith
  live_count-set (h ∷ holders) (suc slot) old spare at dead here =
      ground (arith, live_count-set holders slot old spare at dead here)

  -- A peer of the list of members.
  abbrev pub IsMember : Bytes → List Member → Type 0
  IsMember peer members = (mem : Member) × Mem mem members × (mem.peer_id ≡ peer)

  find_spare_lem :
      (holders : List Bytes) (members : List Member)
      → (length (find_spare r now st holders members) == 0) ≡ false
      → IsMember (find_spare r now st holders members) members
        × (is_busy r now (find_spare r now st holders members) holders ≡ false)
        × (alive r now st (find_spare r now st holders members) ≡ true)
  unfolding find_spare
  find_spare_lem holders [] found = absurd (ground arith)
  find_spare_lem holders (m ∷ members) found =
      let later : find_spare r now st holders (m ∷ members) ≡ find_spare r now st holders members
          → IsMember (find_spare r now st holders (m ∷ members)) (m ∷ members)
            × (is_busy r now (find_spare r now st holders (m ∷ members)) holders ≡ false)
            × (alive r now st (find_spare r now st holders (m ∷ members)) ≡ true) =
        λ e.
          let ((mem, at, own), free, up) =
            find_spare_lem holders members (ap (λ s. length s == 0) (sym e) ∙ found) in
          rw e ((mem, mem-cons_of_mem m at, own), free, up) in
      elim (Bool-cases (is_busy r now m.peer_id holders)) [
        | inl busy ↦ later (ground arith)
        | inr free ↦ elim (Bool-cases (alive r now st m.peer_id)) [
          | inl up ↦
              let this : find_spare r now st holders (m ∷ members) ≡ m.peer_id = ground arith in
              rw this ((m, mem-cons_self, refl), free, up)
          | inr down ↦ later (ground arith)
        ]
      ]

  slots-set :
      (q : Bytes) (holders : List Bytes) (slot : ℕ) (spare : Bytes)
      → ¬ (q ≡ spare)
      → slots q (set holders slot spare) ≤ slots q holders
  unfolding slots
  slots-set q [] slot spare ne = omega arith
  slots-set q (h ∷ holders) zero spare ne = ground arith
  slots-set q (h ∷ holders) (suc slot) spare ne = ground (arith, slots-set q holders slot spare ne)

  slots-is_busy :
      (q : Bytes) (holders : List Bytes) → is_busy r now q holders ≡ false → slots q holders ≡ 0
  unfolding is_busy slots
  slots-is_busy q [] free = refl
  slots-is_busy q (h ∷ holders) free = ground (arith, slots-is_busy q holders)

  slots-set_spare :
      (holders : List Bytes) (slot : ℕ) (old spare : Bytes)
      → get_elem? holders slot ≡ some old
      → is_busy r now spare holders ≡ false
      → slots spare (set holders slot spare) ≡ 1
  unfolding is_busy slots
  slots-set_spare [] slot old spare at free = absurd (ground arith)
  slots-set_spare (h ∷ holders) zero old spare at free = ground (arith, slots-is_busy spare holders)
  slots-set_spare (h ∷ holders) (suc slot) old spare at free =
      ground (arith, slots-set_spare holders slot old spare)

  -- The log names the holder that the slot has now.
  slot_peer-set :
      (m : Manifest) (slot : ℕ) (old spare : Bytes)
      → get_elem? m.holders slot ≡ some old
      → slot_peer (record m { holders = set m.holders slot spare }) slot ≡ spare
  unfolding slot_peer
  slot_peer-set m slot old spare at = ground (arith, get_elem?-set m.holders slot old spare at)

  -- If a repair reports that the slot of a holder that is down was moved, then at most as many holders
  -- as are needed to read the file were alive; the slot went to a member of the group of the file that
  -- held no slot of it and is alive, so that one holder more is alive; that member has this one slot,
  -- and no other peer has more slots than before; and the manifest with the new holder is in the
  -- store. The log line names the new holder as the old one.
  pub repair_file-migrated :
      (laws : BadgerLaws r.deps.badger) (norm : Manifest → Manifest) (answers : Answers)
      (disk : Disk) (m m' : Manifest) (slot : ℕ) (old from : Bytes) (told : List Bytes)
      → ReadsBack r.manifests norm
      → get_elem? m.holders slot ≡ some old
      → alive r now st old ≡ false
      → (repair_file r now answers disk m slot st).1 ≡ ok (migrated m' from told)
      → (spare : Bytes) × (m' ≡ record m { holders = set m.holders slot spare })
        × (from ≡ spare)
        × IsMember spare (Group.list_members r.deps st.db m.group_id).0
        × (is_busy r now spare m.holders ≡ false)
        × (alive r now st spare ≡ true)
        × (live_count r now st m.holders ≤ m.data_shards)
        × (live_count r now st m'.holders ≡ live_count r now st m.holders + 1)
        × (slots spare m'.holders ≡ 1)
        × ((q : Bytes) → ¬ (q ≡ spare) → slots q m'.holders ≤ slots q m.holders)
        × (Manifest.get r.deps.badger r.manifests
              (repair_file r now answers disk m slot st).0.db
              m.file_id
            ≡ ok (norm m'))
  repair_file-migrated laws norm answers disk m m' slot old from told reads at dead e =
      let (risk, found, moved) = repair_file-Moved r now answers disk m m' slot from told st e in
      let members = Group.list_members r.deps st.db m.group_id in
      let spare = find_spare r now st m.holders members.0 in
      let free = find_spare_lem m.holders members.0 found in
      (
        spare,
        moved.manifest,
        moved.named ∙ slot_peer-set m slot old spare at,
        free.0,
        free.1,
        free.2,
        ground arith,
        ap (λ x. live_count r now st (holders_of x)) moved.manifest
            ∙ live_count-set m.holders slot old spare at dead free.2,
        ap (λ x. slots spare (holders_of x)) moved.manifest
            ∙ slots-set_spare m.holders slot old spare at free.1,
        λ q ne.
            subst (λ x. slots q (holders_of x) ≤ slots q m.holders) (sym moved.manifest)
              (slots-set q m.holders slot spare ne),
        ap (λ d. Manifest.get r.deps.badger r.manifests d m.file_id) moved.stored
            ∙ get-put r.deps.badger laws r.manifests norm _ moved.db (moved_to m slot spare) reads
                moved.saved
            ∙ ap (λ x. ok (norm x)) (sym moved.manifest),
      )
