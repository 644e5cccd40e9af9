-- ===== src/File/Put/Went.antt =====
-- The steps of a `Put` that returns a manifest.
use fnshare.Prelude.{
  ℕ, suc, ◌≡◌, ap, sym, ◌∙◌, inl, inr, false, List, some, arith, Result, ok, ok-injective,
  Bool-cases, Option-cases, Result-cases, length, ltb, ◌==◌,
}
use fnshare.Prelude.Bytes.{Bytes}
use fnshare.Prelude.Clock.{Time}
use fnshare.Blockstore.{Disk}
use fnshare.Manifest
use fnshare.Manifest.{Manifest, Stripe, mode_private}
use fnshare.Node.Blocks.{State}
use fnshare.File.Service.{FileService, services, context}
use fnshare.File.Upload
use fnshare.File.Upload.{put_loop}
use fnshare.File.Put.{
  PutOptions, Draws, Answers, Body, Draft, draft, upload_of, replicate, keep_name, finish, put,
}

module _ (f : FileService) where
  -- The loop of `Put` on what it has drafted.
  abbrev pub looped :
      Time
      → Disk
      → Draws
      → Answers
      → Body
      → Draft
      → State (services f)
      → State (services f) × Result Upload.PutError (List Stripe × ℕ)
  looped now disk draws answers body d st =
      put_loop (services f) (context f now) (upload_of f disk draws answers d) f.stripe_size
        body.fails (suc (length body.bytes)) 0 body.bytes st

  -- The manifest of a draft, with its stripes and its size.
  abbrev pub completed : Draft → List Stripe → ℕ → Manifest
  completed d stripes total = record d.manifest { stripes = stripes; size = total }

  -- How the end of a call that returned `m` went: what was saved, and the state that it left.
  pub record Finished (disk : Disk) (answers : Answers) (filename : Bytes) (d : Draft)
      (stripes : List Stripe) (total : ℕ) (st : State (services f)) (m : Manifest) : Type 0 where
    pub saved : f.deps.badger.Db
    pub raw : Bytes
    pub not_empty : (total == 0) ≡ false
    pub made : m ≡ completed d stripes total
    pub put_manifest :
        Manifest.put f.deps.badger f.manifests st.db (completed d stripes total) ≡ ok saved
    pub marshalled : f.manifests.marshal (completed d stripes total) ≡ some raw
    pub left :
        (finish f disk answers filename d (stripes, total) st).0
        ≡ replicate f disk answers d.manifest.file_id raw d.manifest.holders
            (keep_name f filename (completed d stripes total) (record st { db = saved }))

  finish-Finished :
      (disk : Disk) (answers : Answers) (filename : Bytes) (d : Draft) (stripes : List Stripe)
      (total : ℕ) (st : State (services f)) (m : Manifest)
      → (finish f disk answers filename d (stripes, total) st).1 ≡ ok m
      → Finished disk answers filename d stripes total st m
  unfolding finish
  finish-Finished disk answers filename d stripes total st m e =
      let m' = completed d stripes total in
      elim (Bool-cases (total == 0)) [
        | inl empty ↦ absurd (ground arith)
        | inr some_bytes ↦ elim (Result-cases (Manifest.put f.deps.badger f.manifests st.db m')) [
          | inr (x, bad) ↦ absurd (ground arith)
          | inl (db, saved) ↦ elim (Option-cases (f.manifests.marshal m')) [
            | inl bad ↦ absurd (ground arith)
            | inr (raw, marshalled) ↦ elim (Bool-cases (ltb (length d.group.id) 12)) [
              | inl short ↦ absurd (ground arith)
              | inr long ↦
                  let whole : finish f disk answers filename d (stripes, total) st ≡ (
                    replicate f disk answers d.manifest.file_id raw d.manifest.holders
                        (keep_name f filename m' (record st { db = db })),
                    ok m',
                  ) =
                    ground arith in
                  record {
                    saved = db;
                    raw = raw;
                    not_empty = some_bytes;
                    made = ok-injective m m' (sym e ∙ ap (λ r. r.1) whole);
                    put_manifest = saved;
                    marshalled = marshalled;
                    left = ap (λ r. r.0) whole;
                  }
            ]
          ]
        ]
      ]

  -- What the call that returned `m` went through.
  pub record Went (now : Time) (disk : Disk) (draws : Draws) (answers : Answers) (filename : Bytes)
      (body : Body) (opts : PutOptions) (st : State (services f)) (m : Manifest) : Type 0 where
    pub drafted : Draft
    pub stripes : List Stripe
    pub total : ℕ
    pub from_draft : draft f now draws filename opts st.db ≡ ok drafted
    pub from_loop : (looped now disk draws answers body drafted st).1 ≡ ok (stripes, total)
    pub finished :
        Finished disk answers filename drafted stripes total
          (looped now disk draws answers body drafted st).0
          m
    pub is_finish :
        put f now disk draws answers filename body opts st
        ≡ finish f disk answers filename drafted
            (stripes, total)
            (looped now disk draws answers body drafted st).0

  pub put-Went :
      (now : Time) (disk : Disk) (draws : Draws) (answers : Answers) (filename : Bytes)
      (body : Body) (opts : PutOptions) (st : State (services f)) (m : Manifest)
      → (put f now disk draws answers filename body opts st).1 ≡ ok m
      → Went now disk draws answers filename body opts st m
  unfolding put
  put-Went now disk draws answers filename body opts st m e =
      elim (Result-cases (draft f now draws filename opts st.db)) [
        | inr (x, bad) ↦ absurd (ground arith)
        | inl (d, drafted) ↦ elim (Result-cases (looped now disk draws answers body d st).1) [
          | inr (x, bad) ↦ absurd (ground arith)
          | inl ((stripes, total), done) ↦
              let same : put f now disk draws answers filename body opts st
                  ≡ finish f disk answers filename d (stripes, total)
                      (looped now disk draws answers body d st).0 =
                ground arith in
              record {
                drafted = d;
                stripes = stripes;
                total = total;
                from_draft = drafted;
                from_loop = done;
                finished =
                    finish-Finished disk answers filename d stripes total
                      (looped now disk draws answers body d st).0 m (sym (ap (λ r. r.1) same) ∙ e);
                is_finish = same;
              }
        ]
      ]
