-- ===== src/File/Put.antt =====
-- internal/file/file.go, `Put`: a file is cut into stripes, these are sent to the holders, and the
-- manifest after them. The random bytes, the clock, the disk and what the other nodes answer are
-- arguments.
pub mod Drafted
pub mod Went
pub mod Recorded
pub mod ReadBack
use fnshare.Prelude.{
  ℕ, suc, ◌+◌, Bool, true, false, not, ◌&&◌, ◌||◌, List, [], ◌∷◌, Option, none, some, Result, ok,
  err, guard, or_fail, ◌>>=◌, ◌>>◌, if◌then◌else◌, length, ltb, ◌==◌, ite,
}
use fnshare.Prelude.Bytes.{Bytes, bytes_dec}
use fnshare.Prelude.Clock.{Time}
use fnshare.Store.{StoreError}
use fnshare.Blockstore.{Disk, hex}
use fnshare.Crypto.{CryptoError, new_file_key}
use fnshare.Group.{Group}
use fnshare.Holders
use fnshare.Manifest
use fnshare.Manifest.{Manifest, ManifestError, mode_shared, mode_private}
use fnshare.Node.Blocks.{State, Response, put_manifest_raw_on_peer}
use fnshare.Spool
use fnshare.File.Keys.{
  ResolveError, KeyError, Wrapped, resolve_group, wrap_for_mode, save_private_name,
}
use fnshare.File.Service.{FileService, services, context, group_member_ids}
use fnshare.File.Upload
use fnshare.File.Upload.{Upload, Uploaded, put_loop}

-- `PutOptions`
pub record PutOptions : Type 0 where
  pub group_id : Bytes
  pub mode : Bytes

-- What `crypto/rand` gives, in the order in which `Put` takes it: the id, the key, the two inputs of
-- the wrapping, and a nonce for each stripe.
pub record Draws : Type 0 where
  pub file_id : Option Bytes
  pub file_key : Option Bytes
  pub wrap_random : Option Bytes
  pub wrap_nonce : Option Bytes
  pub stripe_nonce : ℕ → Option Bytes

-- What the other nodes answer: a shard that is sent to a peer, and the manifest.
pub record Answers : Type 0 where
  pub shard : Bytes → Bytes → Option Response
  pub manifest : Bytes → Option Response

-- What `Put` reads: the bytes, and whether a failure follows them.
pub record Body : Type 0 where
  pub bytes : Bytes
  pub fails : Bool

pub data PutError : Type 0 where
  unresolved : ResolveError → PutError
  unknown_mode : Bytes → PutError
  no_randomness file_is_empty marshal_failed : PutError
  crypto_failed : CryptoError → PutError
  members_failed : StoreError → PutError
  too_few_members : ℕ → ℕ → PutError
  wrap_failed : KeyError → PutError
  upload_failed : Upload.PutError → PutError
  save_failed : ManifestError → PutError
  -- `g.ID[:12]` of a shorter id
  fault : PutError

abbrev pub or_error : {A E : Type 0} → (E → PutError) → Result E A → Result PutError A
or_error f (ok a) = ok a
or_error f (err e) = err (f e)

-- What `Put` has before it reads the body: the group, the key, and the manifest so far.
pub record Draft : Type 0 where
  pub group : Group
  pub file_key : Bytes
  pub manifest : Manifest

-- The mode that is meant by the option.
abbrev pub mode_of : Bytes → Bytes
mode_of mode = if length mode == 0 then mode_shared else mode

abbrev pub known_mode : Bytes → Bool
known_mode mode =
    ite (bytes_dec mode mode_shared) true (ite (bytes_dec mode mode_private) true false)

-- The error of too few members; the id of the group is cut to 12 bytes in its text.
abbrev pub too_few : Group → ℕ → ℕ → PutError
too_few g members slots = if ltb (length g.id) 12 then fault else too_few_members members slots

module _ (f : FileService) where
  -- The literal of the manifest.
  unfoldable pub manifest_for : Time → Bytes → Group → List Bytes → Bytes → Wrapped → Manifest
  manifest_for now file_id g holders mode (wrapped, display_name, fn_encrypted) = record {
    file_id = file_id;
    group_id = g.id;
    filename = display_name;
    size = 0;
    data_shards = f.params.data_shards;
    parity_shards = f.params.parity_shards;
    stripe_data_size = f.stripe_size;
    holders = holders;
    stripes = [];
    created_at = now;
    owner_peer_id = f.identity.self;
    mode = mode;
    wrapped_key = wrapped;
    filename_encrypted = fn_encrypted;
  }

  -- `Put` up to the loop.
  unfoldable pub draft :
      Time → Draws → Bytes → PutOptions → f.deps.badger.Db → Result PutError Draft
  draft now draws filename opts db = do
    g ← or_error unresolved (resolve_group f.deps db opts.group_id)
    let mode = mode_of opts.mode
    guard (known_mode mode) (unknown_mode mode)
    raw ← or_fail draws.file_id no_randomness
    let file_id = hex raw
    file_key ← or_error crypto_failed (new_file_key draws.file_key)
    let total_slots = f.params.data_shards + f.params.parity_shards
    member_ids ← or_error members_failed (group_member_ids f.deps db g.id)
    guard (not (ltb (length member_ids) total_slots)) (too_few g (length member_ids) total_slots)
    let holders = Holders.pick f.sha256 member_ids file_id total_slots
    w ← or_error wrap_failed (
        wrap_for_mode f.primitives f.base64 f.identity mode file_key filename g draws.wrap_random
          draws.wrap_nonce)
    ok (record {
      group = g;
      file_key = file_key;
      manifest = manifest_for now file_id g holders mode w;
    })

  -- What the stripes of one upload share.
  unfoldable pub upload_of : Disk → Draws → Answers → Draft → Upload
  upload_of disk draws answers d = record {
    answer = answers.shard;
    spool = f.spool;
    disk = disk;
    params = f.params;
    key = d.file_key;
    holders = d.manifest.holders;
    nonce = draws.stripe_nonce;
  }

  -- One round of the loop that replicates the manifest. A holder that cannot be reached gets it from
  -- the spool, if there is one; what fails is only logged.
  unfoldable pub replicate_to :
      Disk → Answers → Bytes → Bytes → State (services f) → Bytes → State (services f)
  replicate_to disk answers file_id raw st holder =
      ite (bytes_dec holder f.identity.self) st (elim (f.decode_peer holder) [
        | none ↦ st
        | some pid ↦
            if put_manifest_raw_on_peer (services f) (answers.manifest pid)
            then st
            else elim f.spool [
              | none ↦ st
              | some root ↦ elim (Spool.enqueue_manifest root disk st.files holder file_id raw) [
                | ok files ↦ record st { files = files }
                | err e ↦ st
              ]
            ]
      ])

  unfoldable pub replicate :
      Disk → Answers → Bytes → Bytes → List Bytes → State (services f) → State (services f)
  replicate disk answers file_id raw [] st = st
  replicate disk answers file_id raw (holder ∷ holders) st =
      replicate disk answers file_id raw holders (replicate_to disk answers file_id raw st holder)

  -- The name that the owner keeps for a private file; a failure is only logged.
  unfoldable pub keep_name : Bytes → Manifest → State (services f) → State (services f)
  keep_name filename m st =
      ite (bytes_dec m.mode mode_private)
        (elim (save_private_name f.deps.badger f.names st.db m.file_id filename) [
          | none ↦ st
          | some db ↦ record st { db = db }
        ])
        st

  -- `Put` behind the loop: the manifest is saved and replicated.
  unfoldable pub finish :
      Disk
      → Answers
      → Bytes
      → Draft
      → List Manifest.Stripe × ℕ
      → State (services f)
      → State (services f) × Result PutError Manifest
  finish disk answers filename d (stripes, total) st =
      let m : Manifest = record d.manifest { stripes = stripes; size = total } in
      if total == 0
      then (st, err file_is_empty)
      else elim (Manifest.put f.deps.badger f.manifests st.db m) [
        | err e ↦ (st, err (save_failed e))
        | ok db ↦
            let kept = keep_name filename m (record st { db = db }) in
            elim (f.manifests.marshal m) [
              | none ↦ (kept, err marshal_failed)
              | some raw ↦ (
                replicate disk answers m.file_id raw m.holders kept,
                if ltb (length d.group.id) 12 then err fault else ok m,
              )
            ]
      ]

  -- `Put`; every round of its loop that goes on takes a stripe, so that the length of the body and
  -- one more is fuel enough.
  unfoldable pub put :
      Time
      → Disk
      → Draws
      → Answers
      → Bytes
      → Body
      → PutOptions
      → State (services f)
      → State (services f) × Result PutError Manifest
  put now disk draws answers filename body opts st = elim (draft now draws filename opts st.db) [
    | err e ↦ (st, err e)
    | ok d ↦
        let (st', r) =
          put_loop (services f) (context f now) (upload_of disk draws answers d) f.stripe_size
            body.fails (suc (length body.bytes)) 0 body.bytes st in
        elim r [
          | err e ↦ (st', err (upload_failed e))
          | ok uploaded ↦ finish disk answers filename d uploaded st'
        ]
  ]
