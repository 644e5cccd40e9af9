-- ===== src/Manifest/Kept.antt =====
-- A manifest that was put is what `Get` finds.
use fnshare.Prelude.{◌≡◌, ap, sym, ◌∙◌, inl, inr, some, arith, ok, Option-cases, Result-cases}
use fnshare.Prelude.Bytes.{Bytes}
use fnshare.Codec.{Codec, ReadsBack}
use fnshare.Store
use fnshare.Store.{Badger, BadgerLaws, get-put_self}
use fnshare.Manifest
use fnshare.Manifest.{Manifest}

module _ (b : Badger) (laws : BadgerLaws b) (c : Codec Manifest) where
  -- The bytes that a successful `Put` leaves in the store.
  pub stored-put :
      (db db' : b.Db) (m : Manifest)
      → Manifest.put b c db m ≡ ok db'
      → (raw : Bytes) × (c.marshal m ≡ some raw)
        × (Store.get b db' (Manifest.key m.file_id) ≡ ok raw)
  unfolding Manifest.put
  stored-put db db' m e = elim (Option-cases (c.marshal m)) [
    | inl bad ↦ absurd (ground arith)
    | inr (raw, made) ↦ elim (Result-cases (Store.put b db (Manifest.key m.file_id) raw)) [
      | inr (x, bad) ↦ absurd (ground arith)
      | inl (db2, done) ↦
          let same : db2 ≡ db' = ground arith in
          (
            raw,
            made,
            ap (λ d. Store.get b d (Manifest.key m.file_id)) (sym same)
                ∙ get-put_self b laws db db2 (Manifest.key m.file_id) raw done,
          )
    ]
  ]

  pub get_of_stored :
      (db : b.Db) (id raw : Bytes) (m : Manifest)
      → Store.get b db (Manifest.key id) ≡ ok raw
      → c.unmarshal raw ≡ some m
      → Manifest.get b c db id ≡ ok m
  unfolding Manifest.get
  get_of_stored db id raw m here reads = ground arith

  pub get-put :
      (norm : Manifest → Manifest) (db db' : b.Db) (m : Manifest)
      → ReadsBack c norm
      → Manifest.put b c db m ≡ ok db'
      → Manifest.get b c db' m.file_id ≡ ok (norm m)
  get-put norm db db' m reads e =
      let (raw, made, here) = stored-put db db' m e in
      get_of_stored db' m.file_id raw (norm m) here (reads m raw made)
