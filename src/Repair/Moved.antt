-- ===== src/Repair/Moved.antt =====
-- How a repair ends that reports a moved slot: each stripe was moved and the manifest saved.
use fnshare.Prelude.{
  ℕ, zero, suc, [], ◌∷◌, get_elem?, subst, ◌≡◌, refl, ap, sym, ◌∙◌, inl, inr, false, ◌||◌, List,
  none, some, arith, ok, Bool-cases, Option-cases, Result-cases, length, set, ltb, ◌==◌,
}
use fnshare.Prelude.Bytes.{Bytes}
use fnshare.Prelude.Clock.{Time}
use fnshare.Blockstore.{Disk}
use fnshare.Group
use fnshare.Manifest
use fnshare.Manifest.{Manifest}
use fnshare.Node.Blocks.{State}
use fnshare.Repair.{Repairer, services, Answers, migrate_stripes}
use fnshare.Repair.Scan.{
  migrated, live_count, find_spare, slot_peer, short, move_to_spare, repair_file,
}

abbrev pub holders_of : Manifest → List Bytes
holders_of m = m.holders

pub get_elem?-set :
    (holders : List Bytes) (slot : ℕ) (old spare : Bytes)
    → get_elem? holders slot ≡ some old
    → get_elem? (set holders slot spare) slot ≡ some spare
get_elem?-set [] slot old spare at = absurd (ground arith)
get_elem?-set (h ∷ holders) zero old spare at = refl
get_elem?-set (h ∷ holders) (suc slot) old spare at = get_elem?-set holders slot old spare at

-- The manifest with the slot moved.
abbrev pub moved_to : Manifest → ℕ → Bytes → Manifest
moved_to m slot spare = record m { holders = set m.holders slot spare }

module _ (r : Repairer) (now : Time) (a : Answers) (disk : Disk) (m m' : Manifest) (slot : ℕ)
    (from : Bytes) (told : List Bytes) (st : State (services r)) where
  -- Its steps.
  pub record Moved (spare : Bytes) (after : State (services r)) : Type 0 where
    pub stripes : (migrate_stripes r now a disk m slot spare m.stripes st).1 ≡ none
    pub db : r.deps.badger.Db
    pub saved :
        Manifest.put r.deps.badger r.manifests
          (migrate_stripes r now a disk m slot spare m.stripes st).0.db
          (moved_to m slot spare)
        ≡ ok db
    pub stored : after.db ≡ db
    pub files : after.files ≡ (migrate_stripes r now a disk m slot spare m.stripes st).0.files
    pub manifest : m' ≡ moved_to m slot spare
    pub named : from ≡ slot_peer (moved_to m slot spare) slot

  move_to_spare-Moved :
      (spare : Bytes)
      → (move_to_spare r now a disk m slot spare st).1 ≡ ok (migrated m' from told)
      → Moved spare (move_to_spare r now a disk m slot spare st).0
  unfolding move_to_spare
  move_to_spare-Moved spare e =
      let moved = migrate_stripes r now a disk m slot spare m.stripes st in
      elim (Option-cases moved.1) [
        | inr (x, bad) ↦ elim (Bool-cases (short m.file_id)) [
          | inl s ↦ absurd (ground arith)
          | inr s ↦ absurd (ground arith)
        ]
        | inl good ↦
            elim (Result-cases
              (Manifest.put r.deps.badger r.manifests moved.0.db (moved_to m slot spare))) [
                | inr (x, bad) ↦ absurd (ground arith)
                | inl (db, saved) ↦ elim (Bool-cases (short m.file_id)) [
                  | inl s ↦ absurd (ground arith)
                  | inr s ↦ record {
                    stripes = good;
                    db = db;
                    saved = saved;
                    stored = ground arith;
                    files = ground arith;
                    manifest = ground arith;
                    named = ground arith;
                  }
                ]
              ]
      ]

  pub repair_file-Moved :
      (repair_file r now a disk m slot st).1 ≡ ok (migrated m' from told)
      → let spare = find_spare r now st m.holders (Group.list_members r.deps st.db m.group_id).0 in
        (ltb m.data_shards (live_count r now st m.holders) ≡ false)
        × ((length spare == 0) ≡ false)
        × Moved spare (repair_file r now a disk m slot st).0
  unfolding repair_file
  repair_file-Moved e =
      let members = Group.list_members r.deps st.db m.group_id in
      let spare = find_spare r now st m.holders members.0 in
      elim (Bool-cases (ltb m.data_shards (live_count r now st m.holders))) [
        | inl room ↦ elim (Bool-cases (short m.file_id)) [
          | inl s ↦ absurd (ground arith)
          | inr s ↦ absurd (ground arith)
        ]
        | inr risk ↦ elim (Option-cases members.1) [
          | inr (x, bad) ↦ absurd (ground arith)
          | inl good ↦ elim (Bool-cases (length spare == 0)) [
            | inl none_free ↦ elim (Bool-cases (short m.file_id || short m.group_id)) [
              | inl s ↦ absurd (ground arith)
              | inr s ↦ absurd (ground arith)
            ]
            | inr found ↦
                let run : repair_file r now a disk m slot st
                    ≡ move_to_spare r now a disk m slot spare st =
                  ground arith in
                (
                  risk,
                  found,
                  subst (λ x. Moved spare x) (ap (λ x. x.0) (sym run))
                      (move_to_spare-Moved spare (ap (λ x. x.1) (sym run) ∙ e)),
                )
          ]
        ]
      ]
