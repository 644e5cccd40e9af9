-- ===== src/File/Put/ReadBack.antt =====
-- A file that was put is read back, byte for byte.
use fnshare.Prelude.{
  ℕ, zero, suc, ◌+◌, ◌*◌, ◌≤◌, ◌<◌, ◌^◌, ◌≡◌, refl, ap, sym, ◌∙◌, subst, false, ◌||◌, List, [], ◌∷◌,
  Option, none, some, arith, ok, length, map, get_elem?, take, drop, ltb, leb, if◌then◌else◌,
}
use mathlib.Core.Option.{some-injective}
use fnshare.Prelude.Bytes.{Bytes}
use fnshare.Prelude.Clock.{Time}
use fnshare.Blockstore.{Files, Disk, hash_of}
use fnshare.Ec.Recovery.{ReedSolomonLaws}
use fnshare.Crypto.{PrimitivesLaws}
use fnshare.Manifest.{Manifest, Stripe}
use fnshare.Node.Blocks.{State, Response}
use fnshare.File.Fetch.{slots_of, upload_stripe, stripe_for, fetch_and_decrypt_stripe}
use fnshare.File.Fetch.Gather.{able, Distinguishes, Honest}
use fnshare.File.Fetch.Recovery.{
  given, upload_stripe_inv, fetch_stripe_lem, fetch_and_decrypt_stripe-files,
}
use fnshare.File.ReadAt.{read_at, eof}
use fnshare.File.ReadAt.Slices.{stripe_of, Serves, Describes, read_at_lem}
use fnshare.File.Service.{FileService, services, context}
use fnshare.File.Upload.{upload_at, put_loop}
use fnshare.File.Upload.Stripes.{Good, put_loop-Good, Cut-bytes, put_loop_lem}
use fnshare.File.Put.{PutOptions, Draws, Answers, Body, Draft, upload_of, put}
use fnshare.File.Put.Drafted.{draft-Drafted}
use fnshare.File.Put.Went.{Went, put-Went}

get_elem?-below {ℓ} :
    {A : Type ℓ} (xs : List A) (i : ℕ) → i < length xs → (x : A) × (get_elem? xs i ≡ some x)
get_elem?-below [] i h = absurd (omega arith)
get_elem?-below (x ∷ xs) zero h = (x, refl)
get_elem?-below (x ∷ xs) (suc i) h = get_elem?-below xs i (omega arith)

module _ (f : FileService) where
  -- Each stripe of the manifest can be had: k slots or more give a shard, every shard that a slot
  -- gives has the hash that names it, and no two contents share one of these hashes.
  abbrev pub Reachable : Time → (Bytes → Bytes → Option Response) → Files → Manifest → Type 0
  Reachable now answer files m =
      let from = given (services f) (context f now) files answer in
      (i : ℕ) (stripe : Stripe)
      → get_elem? m.stripes i ≡ some stripe
      → Distinguishes f.sha256 stripe.shard_ids
        × Honest f.sha256 from (slots_of stripe.shard_ids m.holders)
        × (m.data_shards ≤ able from (slots_of stripe.shard_ids m.holders))

  -- Every stripe gets a nonce of 12 bytes.
  abbrev pub HasNonces : Draws → Type 0
  HasNonces draws =
      (i : ℕ) → (nonce : Bytes) × (draws.stripe_nonce i ≡ some nonce) × (length nonce ≡ 12)

  module _ (aes : PrimitivesLaws f.primitives) (coding : ReedSolomonLaws f.rs) where
    stripe_back :
        (now later : Time) (disk : Disk) (draws : Draws) (answers : Answers) (d : Draft)
        (m : Manifest) (i : ℕ) (plaintext : Bytes) (before st : State (services f))
        (stripe : Stripe) (answer : Bytes → Bytes → Option Response)
        → HasNonces draws
        → (upload_at
            (services f)
            (context f now)
            (upload_of f disk draws answers d)
            i
            plaintext
            before).1
          ≡ ok stripe
        → get_elem? m.stripes i ≡ some stripe
        → f.params ≡ record { data_shards = m.data_shards; parity_shards = m.parity_shards }
        → length m.holders ≡ m.data_shards + m.parity_shards
        → Reachable later answer st.files m
        → (fetch_and_decrypt_stripe (services f) (context f later) answer m d.file_key st i).1
          ≡ ok plaintext
    unfolding upload_at upload_of fetch_and_decrypt_stripe stripe_for
    stripe_back now later disk draws answers d m i plaintext before st stripe answer nonces up at
          same wide reach =
        let (nonce, drawn, n12) = nonces i in
        let up' : (upload_stripe (services f) (context f now) answers.shard f.spool disk f.params
              d.file_key (some nonce) d.manifest.holders i plaintext before).1
            ≡ ok stripe =
          ap
            (λ n.
              (upload_stripe (services f) (context f now) answers.shard f.spool disk f.params
                d.file_key n d.manifest.holders i plaintext before).1)
            (sym drawn)
          ∙ up in
        let (ct, full, sealed, encoded, made) =
          upload_stripe_inv (services f) (context f now) answers.shard f.spool disk f.params
            d.file_key (some nonce) d.manifest.holders i plaintext before stripe up' in
        let ids : stripe.shard_ids ≡ map (hash_of f.sha256) full =
          ap (λ (t : Stripe). t.shard_ids) made in
        let from = given (services f) (context f later) st.files answer in
        let r = reach i stripe at in
        let lem =
          fetch_stripe_lem (services f) (context f later) aes coding answer st m f.params i
            d.file_key nonce plaintext ct full n12 sealed encoded same wide
            (subst (λ x. Distinguishes f.sha256 x) ids r.0)
            (subst (λ x. Honest f.sha256 from (slots_of x m.holders)) ids r.1)
            (subst (λ x. m.data_shards ≤ able from (slots_of x m.holders)) ids r.2) in
        ground (arith, lem)

    -- The stripes of a manifest that `Put` returned, with the key that it drew, are the pieces of the
    -- body.
    put-Serves :
        (now later : Time) (disk : Disk) (draws : Draws) (answers : Answers) (filename : Bytes)
        (body : Body) (opts : PutOptions) (st : State (services f)) (m : Manifest)
        (answer : Bytes → Bytes → Option Response) (files : Files)
        (w : Went f now disk draws answers filename body opts st m)
        → 0 < f.stripe_size
        → body.fails ≡ false
        → HasNonces draws
        → Reachable later answer files m
        → let fetch =
            fetch_and_decrypt_stripe (services f) (context f later) answer m w.drafted.file_key in
          Serves fetch m (λ t. t.files ≡ files) body.bytes
          × Describes fetch m (λ t. t.files ≡ files) body.bytes
    put-Serves now later disk draws answers filename body opts st m answer files w positive sound
          nonces reach =
        let d = w.drafted in
        let drafted = draft-Drafted f now draws filename opts st.db d w.from_draft in
        let made = w.finished.made in
        let stripes_are : m.stripes ≡ w.stripes = ap (λ (x : Manifest). x.stripes) made in
        let size_is : m.size ≡ w.total = ap (λ (x : Manifest). x.size) made in
        let k_is : m.data_shards ≡ f.params.data_shards =
          ap (λ (x : Manifest). x.data_shards) made ∙ drafted.data_shards in
        let m_is : m.parity_shards ≡ f.params.parity_shards =
          ap (λ (x : Manifest). x.parity_shards) made ∙ drafted.parity_shards in
        let cut : m.stripe_data_size ≡ f.stripe_size =
          ap (λ (x : Manifest). x.stripe_data_size) made ∙ drafted.stripe_data_size in
        let wide : length m.holders ≡ m.data_shards + m.parity_shards =
          ap (λ (x : Manifest). length x.holders) made
          ∙ drafted.holders
          ∙ omega (arith, k_is, m_is) in
        let same : f.params
            ≡ record { data_shards = m.data_shards; parity_shards = m.parity_shards } =
          ground (arith, k_is, m_is) in
        let u = upload_of f disk draws answers d in
        let loop : (put_loop (services f) (context f now) u f.stripe_size false
              (suc (length body.bytes)) 0 body.bytes st).1
            ≡ ok (w.stripes, w.total) =
          subst
            (λ b.
              (put_loop (services f) (context f now) u f.stripe_size b (suc (length body.bytes)) 0
                body.bytes st).1
              ≡ ok (w.stripes, w.total))
            sound w.from_loop in
        let all : Good (services f) (context f now) u f.stripe_size positive 0 body.bytes
            (ok (w.stripes, w.total)) =
          subst (Good (services f) (context f now) u f.stripe_size positive 0 body.bytes) loop (
            put_loop-Good (services f) (context f now) u f.stripe_size positive
              (suc (length body.bytes)) 0 body.bytes st) in
        let covers : length body.bytes ≤ length m.stripes * m.stripe_data_size =
          subst (λ (x : List Stripe). length body.bytes ≤ length x * m.stripe_data_size)
            (sym stripes_are)
            (subst (λ (n : ℕ). length body.bytes ≤ length w.stripes * n) (sym cut)
              (Cut-bytes (services f) (context f now) u f.stripe_size positive 0 body.bytes
                w.stripes all.1)) in
        (
          λ t i good inside.
              (let (stripe, at) = get_elem?-below m.stripes i inside in
                let at' : get_elem? w.stripes i ≡ some stripe =
                  subst (λ x. get_elem? x i ≡ some stripe) stripes_are at in
                let (_, _, before_up) =
                  put_loop_lem (services f) (context f now) u f.stripe_size positive
                    (suc (length body.bytes)) body.bytes st w.stripes w.total i stripe loop at' in
                let before = before_up.0 in
                let up = before_up.1 in
                (
                  fetch_and_decrypt_stripe-files (services f) (context f later) answer files m
                      d.file_key t i good,
                  stripe_back now later disk draws answers d m i
                        (stripe_of f.stripe_size body.bytes i) before t stripe answer nonces up at
                        same wide (subst (λ x. Reachable later answer x m) (sym good) reach)
                      ∙ ap (λ (n : ℕ). ok (stripe_of n body.bytes i)) (sym cut),
                )),
          record {
            positive = omega (arith, cut, positive);
            size = size_is ∙ all.0;
            enough = covers;
          },
        )

    -- A file that `Put` accepted, from a body that did not fail, is read back: with the key that was
    -- drawn, `ReadAt` returns the bytes of the body from the offset on, as many as fit in `dst`, and
    -- `io.EOF` exactly if the body ends before the end of `dst` or at the offset. The nonces were 12
    -- bytes, and each stripe can be had when it is read: k slots or more give a shard, every shard
    -- that a slot gives has the hash that names it, and no two contents share one of these hashes.
    pub read_at-put :
        (now later : Time) (disk : Disk) (draws : Draws) (answers : Answers) (filename : Bytes)
        (body : Body) (opts : PutOptions) (st : State (services f)) (m : Manifest)
        (answer : Bytes → Bytes → Option Response) (reader : State (services f)) (key : Bytes)
        (len offset : ℕ)
        → 0 < f.stripe_size
        → body.fails ≡ false
        → HasNonces draws
        → draws.file_key ≡ some key
        → (put f now disk draws answers filename body opts st).1 ≡ ok m
        → Reachable later answer reader.files m
        → offset + len < 2 ^ 63
        → let r =
            read_at
              (fetch_and_decrypt_stripe (services f) (context f later) answer m key)
              m
              reader
              len
              offset in
          (r.1 ≡ take len (drop offset body.bytes))
          × (r.2 ≡ (
              if leb (length body.bytes) offset || ltb (length body.bytes) (offset + len)
              then some eof
              else none))
    read_at-put now later disk draws answers filename body opts st m answer reader key len offset
          positive sound nonces drawn e reach range =
        let w = put-Went f now disk draws answers filename body opts st m e in
        let drafted = draft-Drafted f now draws filename opts st.db w.drafted w.from_draft in
        let key_is : w.drafted.file_key ≡ key = some-injective _ _ (sym drafted.key ∙ drawn) in
        let good =
          put-Serves now later disk draws answers filename body opts st m answer reader.files w
            positive sound nonces reach in
        subst
          (λ k.
            let r =
              read_at (fetch_and_decrypt_stripe (services f) (context f later) answer m k) m reader
                len offset in
            (r.1 ≡ take len (drop offset body.bytes))
            × (r.2 ≡ (
                if leb (length body.bytes) offset || ltb (length body.bytes) (offset + len)
                then some eof
                else none)))
          key_is
          (let r =
              read_at_lem
                (fetch_and_decrypt_stripe (services f) (context f later) answer m
                  w.drafted.file_key)
                m (λ t. t.files ≡ reader.files) body.bytes good.0 good.1 reader len offset refl
                range in
            (r.1, r.2))
