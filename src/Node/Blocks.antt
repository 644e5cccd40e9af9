-- ===== src/Node/Blocks.antt =====
-- internal/node/blocks.go: the protocol by which nodes store and fetch shards and manifests.
-- A response is the body, or the error that the source puts into `Response.Error`. Streams and
-- deadlines are left out: `exchange` is what a stream to a peer answers, if it can be opened.
pub mod Frames
pub mod Serving
use fnshare.Prelude.{
  ℕ, zero, suc, ◌+◌, ◌*◌, ◌/◌, ◌%◌, ◌^◌, ◌≡◌, refl, Bool, true, false, List, [], ◌∷◌, ◌++◌, Option,
  none, some, arith, Result, ok, err, guard, or_fail, ◌>>=◌, ◌>>◌, not, if◌then◌else◌, length, take,
  drop, ltb, ite,
}
use fnshare.Prelude.Int.{ℤ, pos}
use fnshare.Prelude.Bytes.{Bytes, bytes_dec}
use fnshare.Prelude.Clock.{Time}
use fnshare.Prelude.Paths.{FilePath}
use fnshare.Codec.{Codec}
use fnshare.Store.{Badger}
use fnshare.Blockstore
use fnshare.Blockstore.{Files, Disk, BlockError}
use fnshare.Manifest
use fnshare.Manifest.{Manifest, ManifestError}
use fnshare.Ledger
use fnshare.Ledger.{Dirty}

pub data Op : Type 0 where
  put_shard get_shard put_manifest get_manifest : Op
  unknown_op : ℕ → Op

pub record Request : Type 0 where
  pub op : Op
  pub id : Bytes
  pub body : Bytes

pub data ServeError : Type 0 where
  decode_failed blockstore_not_initialized file_id_mismatch manifest_decode marshal_failed :
      ServeError
  block : BlockError → ServeError
  manifest : ManifestError → ServeError
  unknown : ℕ → ServeError

abbrev pub Response : Type 0
Response = Result ServeError Bytes

-- What the node works with: the store and its codecs, SHA-256, and the folder of the shards.
pub record Services : Type 1 where
  pub badger : Badger
  pub manifests : Codec Manifest
  pub entries : Codec Ledger.Entry
  pub sha256 : Bytes → Bytes
  pub root : FilePath

-- The state that the handler changes; a node without a ledger or a blockstore has the flag down.
pub record State (s : Services) : Type 0 where
  pub db : s.badger.Db
  pub files : Files
  pub dirty : Dirty
  pub has_blocks : Bool
  pub has_ledger : Bool

module _ (s : Services) where
  -- The four branches of `serveBlock`.
  unfoldable pub serve_put_shard : Disk → State s → Bytes → Bytes → State s × Response
  serve_put_shard disk st id body = elim (Blockstore.put s.sha256 s.root disk st.files id body) [
    | err e ↦ (st, err (block e))
    | ok files' ↦ (record st { files = files' }, ok [])
  ]

  unfoldable pub serve_get_shard : State s → Bytes → State s × Response
  serve_get_shard st id = elim (Blockstore.get s.root st.files id) [
    | err e ↦ (st, err (block e))
    | ok raw ↦ (st, ok raw)
  ]

  unfoldable pub serve_put_manifest : State s → Bytes → Bytes → State s × Response
  serve_put_manifest st id body = elim (s.manifests.unmarshal body) [
    | none ↦ (st, err manifest_decode)
    | some m ↦
        ite (bytes_dec m.file_id id)
          (elim (Manifest.put s.badger s.manifests st.db m) [
            | err e ↦ (st, err (manifest e))
            | ok db' ↦ (record st { db = db' }, ok [])
          ])
          (st, err file_id_mismatch)
  ]

  unfoldable pub serve_get_manifest : State s → Bytes → State s × Response
  serve_get_manifest st id = elim (Manifest.get s.badger s.manifests st.db id) [
    | err e ↦ (st, err (manifest e))
    | ok m ↦ elim (s.manifests.marshal m) [
      | none ↦ (st, err marshal_failed)
      | some raw ↦ (st, ok raw)
    ]
  ]

  unfoldable pub serve_op : Op → Disk → State s → Bytes → Bytes → State s × Response
  serve_op put_shard disk st id body = serve_put_shard disk st id body
  serve_op get_shard disk st id body = serve_get_shard st id
  serve_op put_manifest disk st id body = serve_put_manifest st id body
  serve_op get_manifest disk st id body = serve_get_manifest st id
  serve_op (unknown_op n) disk st id body = (st, err (unknown n))

  -- `serveBlock`
  unfoldable pub serve_block : Disk → State s → Request → State s × Response
  serve_block disk st req =
      if st.has_blocks
      then serve_op req.op disk st req.id req.body
      else (st, err blockstore_not_initialized)

  -- The traffic that `handleBlocks` charges to the remote peer.
  unfoldable pub charge : Time → Op → Bytes → ℕ → State s → Response → State s
  charge now op remote sent st (err e) = st
  charge now put_shard remote sent st (ok body) = record st {
    dirty = Ledger.record_stored_for_them s.badger s.entries now st.db st.dirty remote (pos sent);
  }
  charge now get_shard remote sent st (ok body) = record st {
    dirty =
        Ledger.record_served_to_them s.badger s.entries now st.db st.dirty remote
          (pos (length body));
  }
  charge now _ remote sent st (ok body) = st

  -- `handleBlocks`; no request is a frame that does not decode.
  unfoldable pub handle_blocks : Time → Disk → Bytes → State s → Option Request → State s × Response
  handle_blocks now disk remote st none = (st, err decode_failed)
  handle_blocks now disk remote st (some req) =
      let (st', resp) = serve_block disk st req in
      (if st.has_ledger then charge now req.op remote (length req.body) st' resp else st', resp)

  -- `PutShardOnPeer`, `GetShardFromPeer`, `PutManifestRawOnPeer` and `GetManifestFromPeer`, after the
  -- exchange with the peer: the new state, and whether it succeeded or what came back.
  unfoldable pub put_shard_on_peer :
      Time → Bytes → Bytes → Option Response → State s → State s × Bool
  put_shard_on_peer now peer content none st = (st, false)
  put_shard_on_peer now peer content (some (err e)) st = (st, false)
  put_shard_on_peer now peer content (some (ok body)) st = (
    if st.has_ledger
        then record st {
          dirty =
              Ledger.record_stored_on_them s.badger s.entries now st.db st.dirty peer
                (pos (length content));
        }
        else st,
    true,
  )

  unfoldable pub get_shard_from_peer :
      Time → Bytes → Option Response → State s → State s × Option Bytes
  get_shard_from_peer now peer none st = (st, none)
  get_shard_from_peer now peer (some (err e)) st = (st, none)
  get_shard_from_peer now peer (some (ok body)) st = (
    if st.has_ledger
        then record st {
          dirty =
              Ledger.record_downloaded_from s.badger s.entries now st.db st.dirty peer
                (pos (length body));
        }
        else st,
    some body,
  )

  unfoldable pub put_manifest_raw_on_peer : Option Response → Bool
  put_manifest_raw_on_peer none = false
  put_manifest_raw_on_peer (some (err e)) = false
  put_manifest_raw_on_peer (some (ok body)) = true

  unfoldable pub get_manifest_from_peer : Option Response → Option Manifest
  get_manifest_from_peer none = none
  get_manifest_from_peer (some (err e)) = none
  get_manifest_from_peer (some (ok body)) = s.manifests.unmarshal body

-- Frames: four bytes of length, the highest first, and the payload.
abbrev pub max_frame_size : ℕ
max_frame_size = 67108864

pub data FrameError : Type 0 where
  frame_marshal frame_unmarshal short_read : FrameError
  frame_too_large : ℕ → FrameError

-- `binary.BigEndian.PutUint32` of a `uint32`.
unfoldable pub put_uint32 : ℕ → Bytes
put_uint32 n = n / 16777216 % 256 ∷ n / 65536 % 256 ∷ n / 256 % 256 ∷ n % 256 ∷ []

-- `binary.BigEndian.Uint32`
unfoldable pub uint32 : Bytes → ℕ
uint32 (a ∷ b ∷ c ∷ d ∷ []) = a * 16777216 + b * 65536 + c * 256 + d
uint32 _ = 0

-- `io.ReadFull` of `n` bytes: these and what follows them.
unfoldable pub read_full : ℕ → Bytes → Result FrameError (Bytes × Bytes)
read_full n s = if ltb (length s) n then err short_read else ok (take n s, drop n s)

module _ {A : Type 0} (c : Codec A) where
  -- `writeFrame`: the bytes that go out.
  unfoldable pub write_frame : A → Result FrameError Bytes
  write_frame v = do
    raw ← or_fail (c.marshal v) frame_marshal
    guard (not (ltb max_frame_size (length raw))) (frame_too_large (length raw))
    ok (put_uint32 (length raw % 2 ^ 32) ++ raw)

  -- `readFrame`: the value, and what is left of the stream.
  unfoldable pub read_frame : Bytes → Result FrameError (A × Bytes)
  read_frame s = do
    (hdr, s') ← read_full 4 s
    let n = uint32 hdr
    guard (not (ltb max_frame_size n)) (frame_too_large n)
    (buf, rest) ← read_full n s'
    v ← or_fail (c.unmarshal buf) frame_unmarshal
    ok (v, rest)
