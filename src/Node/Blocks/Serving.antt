-- ===== src/Node/Blocks/Serving.antt =====
-- What the handler stores, returns and charges.
use fnshare.Prelude.{
  ℕ, ◌≡◌, refl, ap, ◌∙◌, true, List, [], ◌∷◌, ◌++◌, Option, none, some, arith, Result, ok, err,
  Result-cases, subst, sym, inl, inr, Bool-cases, if_pos, length,
}
use fnshare.Prelude.Bytes.{Bytes, codes, bytes_dec}
use fnshare.Prelude.Clock.{Time}
use fnshare.Prelude.Paths.{FilePath, path_dec, IsPlain}
use fnshare.Blockstore
use fnshare.Blockstore.{Disk, Files, hash_of}
use fnshare.Blockstore.Integrity.{IsShardId, Sha256Laws, hash_of-IsShardId, put_content, get-put}
use fnshare.Blockstore.Traversal.{path_escapes}
use fnshare.Node.Blocks.{
  Op, put_shard, get_shard, put_manifest, get_manifest, unknown_op, Request, ServeError, Services,
  State, serve_block, serve_op, serve_put_shard, serve_get_shard, serve_put_manifest,
  serve_get_manifest, charge, handle_blocks,
}
use mathlib.Core.List.{lookup}

module _ (s : Services) (now : Time) (disk : Disk) where
  serve_op_refused :
      (st : State s) (op : Op) (id body : Bytes) (e : ServeError)
      → (serve_op s op disk st id body).1 ≡ err e
      → (serve_op s op disk st id body).0 ≡ st
  unfolding serve_op serve_put_shard serve_get_shard serve_put_manifest serve_get_manifest
  serve_op_refused st put_shard id body e h = ground arith
  serve_op_refused st get_shard id body e h = ground arith
  serve_op_refused st put_manifest id body e h = ground arith
  serve_op_refused st get_manifest id body e h = ground arith
  serve_op_refused st (unknown_op n) id body e h = refl

  -- A request that is refused, for whatever reason, changes nothing and is charged to nobody.
  pub handle_blocks_refused :
      (remote : Bytes) (st : State s) (request : Option Request) (e : ServeError)
      → (handle_blocks s now disk remote st request).1 ≡ err e
      → (handle_blocks s now disk remote st request).0 ≡ st
  unfolding handle_blocks serve_block charge
  handle_blocks_refused remote st none e h = refl
  handle_blocks_refused remote st (some req) e h =
      ground (arith, serve_op_refused st req.op req.id req.body e)

  -- Any peer can fetch any file of the data folder beside the shards: the id `./../<name>` is not
  -- checked to be a hash.
  pub handle_blocks_escapes :
      (remote name blocks content : Bytes) (data_dir : FilePath) (st : State s)
      → s.root ≡ blocks ∷ data_dir
      → IsPlain name
      → st.has_blocks ≡ true
      → lookup path_dec (name ∷ data_dir) st.files ≡ some content
      → (handle_blocks s now disk remote st
          (some (record { op = get_shard; id = codes "./../" ++ name; body = [] }))).1
        ≡ ok content
  unfolding handle_blocks serve_block serve_op serve_get_shard Blockstore.get
  handle_blocks_escapes remote name blocks content data_dir st r h b there = ground (
    arith,
    path_escapes data_dir blocks name h,
    ap (λ (q : FilePath). Blockstore.path q (codes "./../" ++ name)) r,
  )

-- One request: when it arrives, what the disk does, who sends it, and the request.
pub record Event : Type 0 where
  pub now : Time
  pub disk : Disk
  pub remote : Bytes
  pub request : Option Request

module _ (s : Services) where
  -- The state after a list of requests.
  unfoldable pub handle_all : List Event → State s → State s
  handle_all [] st = st
  handle_all (e ∷ events) st =
      handle_all events (handle_blocks s e.now e.disk e.remote st e.request).0

module _ (s : Services) (laws : Sha256Laws s.sha256) where
  -- The shard is there, and the node serves it.
  abbrev Holds : State s → Bytes → Bytes → Type 0
  Holds st id content = (st.has_blocks ≡ true) × (Blockstore.get s.root st.files id ≡ ok content)

  module _ (content : Bytes)
      (no_collision : (other : Bytes)
        → hash_of s.sha256 other ≡ hash_of s.sha256 content
        → other ≡ content) where
    put-Holds :
        (disk : Disk) (files files' : Files) (id body : Bytes)
        → Blockstore.put s.sha256 s.root disk files id body ≡ ok files'
        → Blockstore.get s.root files (hash_of s.sha256 content) ≡ ok content
        → Blockstore.get s.root files' (hash_of s.sha256 content) ≡ ok content
    put-Holds disk files files' id body e h =
        let k = put_content s.sha256 s.root disk files files' id body e in
        let g =
          get-put s.sha256 s.root disk files files' id body (hash_of s.sha256 content) e
            (subst IsShardId k.0 (hash_of-IsShardId s.sha256 body laws))
            (hash_of-IsShardId s.sha256 content laws) in
        elim (bytes_dec (hash_of s.sha256 content) id) [
          | yes p ↦ ground (arith, g, no_collision body (k.0 ∙ sym p))
          | no p ↦ ground (arith, g)
        ]

    serve_op-Holds :
        (disk : Disk) (st : State s) (op : Op) (id body : Bytes)
        → Holds st (hash_of s.sha256 content) content
        → Holds (serve_op s op disk st id body).0 (hash_of s.sha256 content) content
    unfolding serve_op serve_put_shard serve_get_shard serve_put_manifest serve_get_manifest
    serve_op-Holds disk st put_shard id body h =
        elim (Result-cases (Blockstore.put s.sha256 s.root disk st.files id body)) [
          | inl (files', p) ↦
              (ground arith, ground (arith, put-Holds disk st.files files' id body p h.1))
          | inr (e, p) ↦ (ground arith, ground arith)
        ]
    serve_op-Holds disk st get_shard id body h = (ground arith, ground arith)
    serve_op-Holds disk st put_manifest id body h = (ground arith, ground arith)
    serve_op-Holds disk st get_manifest id body h = (ground arith, ground arith)
    serve_op-Holds disk st (unknown_op n) id body h = h

    charge-Holds :
        (now : Time) (op : Op) (remote : Bytes) (sent : ℕ) (st : State s)
        (resp : Result ServeError Bytes)
        → Holds st (hash_of s.sha256 content) content
        → Holds (charge s now op remote sent st resp) (hash_of s.sha256 content) content
    unfolding charge
    charge-Holds now op remote sent st (err e) h = h
    charge-Holds now put_shard remote sent st (ok body) h = h
    charge-Holds now get_shard remote sent st (ok body) h = h
    charge-Holds now put_manifest remote sent st (ok body) h = h
    charge-Holds now get_manifest remote sent st (ok body) h = h
    charge-Holds now (unknown_op n) remote sent st (ok body) h = h

    serve_block-Holds :
        (disk : Disk) (st : State s) (req : Request)
        → Holds st (hash_of s.sha256 content) content
        → Holds (serve_block s disk st req).0 (hash_of s.sha256 content) content
    unfolding serve_block
    serve_block-Holds disk st req h =
        let k = serve_op-Holds disk st req.op req.id req.body h in
        (ground (arith, k.0, h.0), ground (arith, k.1, h.0))

    handle_blocks-Holds :
        (now : Time) (disk : Disk) (remote : Bytes) (st : State s) (request : Option Request)
        → Holds st (hash_of s.sha256 content) content
        → Holds (handle_blocks s now disk remote st request).0 (hash_of s.sha256 content) content
    unfolding handle_blocks
    handle_blocks-Holds now disk remote st none h = h
    handle_blocks-Holds now disk remote st (some req) h = elim (Bool-cases st.has_ledger) [
      | inl p ↦ simp p (
          charge-Holds now req.op remote (length req.body) _ (serve_block s disk st req).1
            (serve_block-Holds disk st req h))
      | inr p ↦ simp p (serve_block-Holds disk st req h)
    ]

    handle_all-Holds :
        (events : List Event) (st : State s)
        → Holds st (hash_of s.sha256 content) content
        → Holds (handle_all s events st) (hash_of s.sha256 content) content
    unfolding handle_all
    handle_all-Holds [] st h = h
    handle_all-Holds (e ∷ events) st h =
        handle_all-Holds events _ (handle_blocks-Holds e.now e.disk e.remote st e.request h)

    put_shard_Holds :
        (now : Time) (disk : Disk) (writer id : Bytes) (st st' : State s)
        → handle_blocks s now disk writer st
            (some (record { op = put_shard; id = id; body = content }))
          ≡ (st', ok [])
        → (hash_of s.sha256 content ≡ id) × Holds st' (hash_of s.sha256 content) content
    unfolding handle_blocks serve_block serve_op serve_put_shard charge
    put_shard_Holds now disk writer id st st' e = elim (Bool-cases st.has_blocks) [
      | inr p ↦ absurd (ground arith)
      | inl p ↦ elim (Result-cases (Blockstore.put s.sha256 s.root disk st.files id content)) [
        | inr (e', q) ↦ absurd (ground arith)
        | inl (files', q) ↦
            let k = put_content s.sha256 s.root disk st.files files' id content q in
            let i = hash_of-IsShardId s.sha256 content laws in
            let g =
              get-put s.sha256 s.root disk st.files files' id content (hash_of s.sha256 content) q
                (subst IsShardId k.0 i) i in
            let found : Blockstore.get s.root files' (hash_of s.sha256 content) ≡ ok content =
              g ∙ if_pos (bytes_dec (hash_of s.sha256 content) id) k.0 _ _ in
            let stored : st'.files ≡ files' = ground arith in
            (
              k.0,
              (
                ground arith,
                ap (λ f. Blockstore.get s.root f (hash_of s.sha256 content)) stored ∙ found,
              ),
            )
      ]
    ]

    -- A shard that a peer stored on this node is what any peer gets back, whatever requests come in
    -- between, from whomever they come, if no other content has the shard's SHA-256.
    pub put_shard_kept :
        (now later : Time) (disk at_get : Disk) (writer reader id : Bytes) (st st' : State s)
        (events : List Event)
        → handle_blocks s now disk writer st
            (some (record { op = put_shard; id = id; body = content }))
          ≡ (st', ok [])
        → (handle_blocks s later at_get reader
            (handle_all s events st')
            (some (record { op = get_shard; id = id; body = [] }))).1
          ≡ ok content
    unfolding handle_blocks serve_block serve_op serve_put_shard serve_get_shard
    put_shard_kept now later disk at_get writer reader id st st' events e =
        let h = put_shard_Holds now disk writer id st st' e in
        let k = handle_all-Holds events st' h.1 in ground (arith, h.0, k.0, k.1)
