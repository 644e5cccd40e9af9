-- ===== src/File/Put/Recorded.antt =====
-- What `Put` leaves in the store when it returns a manifest.
use fnshare.Prelude.{
  ℕ, ◌+◌, ◌≡◌, refl, ap, sym, ◌∙◌, subst, ◌≢◌, inl, inr, List, [], ◌∷◌, some, arith, Result, ok,
  Bool-cases, Option-cases, Result-cases, length, ◌==◌,
}
use fnshare.Prelude.Bytes.{Bytes, bytes_dec}
use fnshare.Prelude.Clock.{Time}
use fnshare.Codec.{ReadsBack}
use fnshare.Store
use fnshare.Store.{BadgerLaws, get-put_self, get-put_ne}
use fnshare.Blockstore.{Disk}
use fnshare.Manifest
use fnshare.Manifest.{Manifest, Stripe, mode_private}
use fnshare.Manifest.Kept.{stored-put, get_of_stored}
use fnshare.Node.Blocks.{State}
use fnshare.File.Keys.{save_private_name, pname_key}
use fnshare.File.Service.{FileService, services}
use fnshare.File.Put.{
  PutError, mode_of, PutOptions, Draws, Answers, Body, Draft, replicate_to, replicate, keep_name,
  finish, put,
}
use fnshare.File.Put.Drafted.{Drafted, draft-Drafted}
use fnshare.File.Put.Went.{Finished, looped, completed, put-Went}

first_byte : Bytes → ℕ
first_byte [] = 0
first_byte (c ∷ s) = c

other_key : (s t : Bytes) → Manifest.key s ≢ pname_key t
unfolding Manifest.key pname_key first_byte
other_key s t e =
    let bytes : first_byte (Manifest.key s) ≡ first_byte (pname_key t) = ap first_byte e in
    omega (arith, bytes)

module _ (f : FileService) where
  replicate_to-db :
      (disk : Disk) (answers : Answers) (id raw : Bytes) (st : State (services f)) (holder : Bytes)
      → (replicate_to f disk answers id raw st holder).db ≡ st.db
  unfolding replicate_to
  replicate_to-db disk answers id raw st holder = ground arith

  replicate-db :
      (disk : Disk) (answers : Answers) (id raw : Bytes) (holders : List Bytes)
      (st : State (services f))
      → (replicate f disk answers id raw holders st).db ≡ st.db
  unfolding replicate
  replicate-db disk answers id raw [] st = refl
  replicate-db disk answers id raw (holder ∷ holders) st =
      replicate-db disk answers id raw holders (replicate_to f disk answers id raw st holder)
      ∙ replicate_to-db disk answers id raw st holder

  module _ (laws : BadgerLaws f.deps.badger) where
    save_private_name-get :
        (db db' : f.deps.badger.Db) (id name k : Bytes)
        → save_private_name f.deps.badger f.names db id name ≡ some db'
        → k ≢ pname_key id
        → Store.get f.deps.badger db' k ≡ Store.get f.deps.badger db k
    unfolding save_private_name
    save_private_name-get db db' id name k e ne = elim (Option-cases (f.names.marshal name)) [
      | inl bad ↦ elim (Bool-cases (length name == 0)) [
        | inl unnamed ↦ ap (λ d. Store.get f.deps.badger d k) (ground arith)
        | inr named ↦ absurd (ground arith)
      ]
      | inr (raw, made) ↦ elim (Bool-cases (length name == 0)) [
        | inl unnamed ↦ ap (λ d. Store.get f.deps.badger d k) (ground arith)
        | inr named ↦ elim (Result-cases (Store.put f.deps.badger db (pname_key id) raw)) [
          | inr (x, bad) ↦ absurd (ground arith)
          | inl (db2, put) ↦
              let same : db2 ≡ db' = ground arith in
              ap (λ d. Store.get f.deps.badger d k) (sym same)
              ∙ get-put_ne f.deps.badger laws db db2 (pname_key id) k raw put ne
        ]
      ]
    ]

    keep_name-get :
        (filename k : Bytes) (m : Manifest) (st : State (services f))
        → k ≢ pname_key m.file_id
        → Store.get f.deps.badger (keep_name f filename m st).db k ≡ Store.get f.deps.badger st.db k
    unfolding keep_name
    keep_name-get filename k m st ne =
        elim (Option-cases (save_private_name f.deps.badger f.names st.db m.file_id filename)) [
          | inl failed ↦ ap (λ d. Store.get f.deps.badger d k) (ground arith)
          | inr (db, kept) ↦ elim (bytes_dec m.mode mode_private) [
            | no shared ↦ ap (λ d. Store.get f.deps.badger d k) (ground arith)
            | yes private ↦
                ap (λ d. Store.get f.deps.badger d k) (ground arith)
                ∙ save_private_name-get st.db db m.file_id filename k kept ne
          ]
        ]

    -- What the end of a successful call leaves under the key of the manifest.
    finish-get :
        (norm : Manifest → Manifest) (disk : Disk) (answers : Answers) (filename : Bytes)
        (d : Draft) (stripes : List Stripe) (total : ℕ) (st : State (services f)) (m : Manifest)
        → ReadsBack f.manifests norm
        → Finished f disk answers filename d stripes total st m
        → Manifest.get f.deps.badger f.manifests
            (finish f disk answers filename d (stripes, total) st).0.db
            d.manifest.file_id
          ≡ ok (norm (completed f d stripes total))
    finish-get norm disk answers filename d stripes total st m reads end =
        let m' = completed f d stripes total in
        let k = Manifest.key m'.file_id in
        let kept = keep_name f filename m' (record st { db = end.saved }) in
        let same =
          ap (λ (t : State (services f)). t.db) end.left
          ∙ replicate-db disk answers m'.file_id end.raw m'.holders kept in
        let (raw, made, stored) =
          stored-put f.deps.badger laws f.manifests st.db end.saved m' end.put_manifest in
        let here =
          ap (λ db. Store.get f.deps.badger db k) same
          ∙ keep_name-get filename k m' (record st { db = end.saved })
              (other_key m'.file_id m'.file_id)
          ∙ stored in
        get_of_stored f.deps.badger laws f.manifests
          (finish f disk answers filename d (stripes, total) st).0.db m'.file_id raw (norm m') here
          (reads m' raw made)

    -- The manifest that `Put` returned is on this node afterwards, up to what the format keeps, also
    -- if no holder could be reached. It has the parameters of the service, a holder for each of the
    -- k + m slots, this node as the owner, and the mode that was asked for, shared if none was.
    pub put-Recorded :
        (norm : Manifest → Manifest) (now : Time) (disk : Disk) (draws : Draws) (answers : Answers)
        (filename : Bytes) (body : Body) (opts : PutOptions) (st : State (services f))
        (m : Manifest)
        → ReadsBack f.manifests norm
        → (put f now disk draws answers filename body opts st).1 ≡ ok m
        → (Manifest.get f.deps.badger f.manifests
              (put f now disk draws answers filename body opts st).0.db
              m.file_id
            ≡ ok (norm m))
          × (m.data_shards ≡ f.params.data_shards)
          × (m.parity_shards ≡ f.params.parity_shards)
          × (m.stripe_data_size ≡ f.stripe_size)
          × (length m.holders ≡ f.params.data_shards + f.params.parity_shards)
          × (m.owner_peer_id ≡ f.identity.self)
          × (m.mode ≡ mode_of opts.mode)
    put-Recorded norm now disk draws answers filename body opts st m reads e =
        let w = put-Went f now disk draws answers filename body opts st m e in
        let d = w.drafted in
        let m' = completed f d w.stripes w.total in
        let drafted : Drafted f draws filename opts st.db d =
          draft-Drafted f now draws filename opts st.db d w.from_draft in
        let end = w.finished in
        subst
          (λ x.
            (Manifest.get f.deps.badger f.manifests
                (put f now disk draws answers filename body opts st).0.db x.file_id
              ≡ ok (norm x))
            × (x.data_shards ≡ f.params.data_shards)
            × (x.parity_shards ≡ f.params.parity_shards)
            × (x.stripe_data_size ≡ f.stripe_size)
            × (length x.holders ≡ f.params.data_shards + f.params.parity_shards)
            × (x.owner_peer_id ≡ f.identity.self)
            × (x.mode ≡ mode_of opts.mode))
          (sym end.made)
          (
            ap
                  (λ (r : State (services f) × Result PutError Manifest).
                    Manifest.get f.deps.badger f.manifests r.0.db m'.file_id)
                  w.is_finish
                ∙ finish-get norm disk answers filename d w.stripes w.total
                    (looped f now disk draws answers body d st).0 m reads end,
            drafted.data_shards,
            drafted.parity_shards,
            drafted.stripe_data_size,
            drafted.holders,
            drafted.owner,
            drafted.mode,
          )
