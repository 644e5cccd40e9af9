-- ===== src/File/Fetch/Recovery.antt =====
-- A stripe that was uploaded is read back from any k of its holders.
use fnshare.Prelude.{
  ℕ, ◌+◌, ◌≤◌, ◌≡◌, refl, ap, ◌∙◌, inl, inr, List, map, Option, none, some, arith, ok, err, length,
  length-map, get_elem?, Result-cases, Option-cases, subst, ite,
}
use fnshare.Prelude.Bytes.{Bytes, bytes_dec}
use fnshare.Prelude.Paths.{FilePath}
use fnshare.Blockstore
use fnshare.Blockstore.{Files, Disk, hash_of}
use fnshare.Ec
use fnshare.Ec.{Params}
use fnshare.Ec.Recovery.{Masks, present, AllPresent, ReedSolomonLaws, encode-Encoded, decode-encode}
use fnshare.Crypto.{PrimitivesLaws, seal_aes, open_aes-seal_aes}
use fnshare.Manifest.{Manifest, Stripe}
use fnshare.Node.Blocks.{Services, State, Response, get_shard_from_peer}
use fnshare.File.Fetch.{
  gather, slots_of, Context, fetch_shard, decode_stripe, fetch_stripe, fetch_and_decrypt_stripe,
  stripe_for, upload_stripe,
}
use fnshare.File.Fetch.Gather.{
  able, GathersWell, gather-GathersWell, gather-keeps, Distinguishes, Honest, Honest-Answers,
}

module _ (s : Services) (c : Context s) where
  -- The shard in an answer.
  abbrev body_of : Option Response → Option Bytes
  body_of none = none
  body_of (some (err e)) = none
  body_of (some (ok body)) = some body

  get_shard_from_peer-steady :
      (pid : Bytes) (r : Option Response) (st : State s)
      → ((get_shard_from_peer s c.now pid r st).0.files ≡ st.files)
        × ((get_shard_from_peer s c.now pid r st).1 ≡ body_of r)
  unfolding get_shard_from_peer
  get_shard_from_peer-steady pid none st = (refl, refl)
  get_shard_from_peer-steady pid (some (err e)) st = (refl, refl)
  get_shard_from_peer-steady pid (some (ok body)) st = (ground arith, refl)

  -- What a slot gives: the local shard, or what the holder answers.
  abbrev pub given : Files → (Bytes → Bytes → Option Response) → Bytes → Bytes → Option Bytes
  given files answer id holder = elim (Blockstore.get s.root files id) [
    | ok raw ↦ some raw
    | err e ↦
        ite (bytes_dec holder c.self) none
          (elim (c.decode_peer holder) [ none ↦ none | some pid ↦ body_of (answer pid id) ])
  ]

  fetch_shard-steady :
      (answer : Bytes → Bytes → Option Response) (files : Files) (st : State s) (id holder : Bytes)
      → st.files ≡ files
      → ((fetch_shard s c answer st id holder).0.files ≡ files)
        × ((fetch_shard s c answer st id holder).1 ≡ given files answer id holder)
  unfolding fetch_shard
  fetch_shard-steady answer files st id holder h = elim (Option-cases (c.decode_peer holder)) [
    | inl bad ↦ (ground arith, ground (arith, ap (λ f. Blockstore.get s.root f id) h))
    | inr (pid, good) ↦
        let peer = get_shard_from_peer-steady pid (answer pid id) st in
        (ground (arith, peer.0), ground (arith, peer.1, ap (λ f. Blockstore.get s.root f id) h))
  ]

  -- Fetching a stripe leaves the disk alone.
  pub fetch_and_decrypt_stripe-files :
      (answer : Bytes → Bytes → Option Response) (files : Files) (m : Manifest) (key : Bytes)
      (st : State s) (idx : ℕ)
      → st.files ≡ files
      → (fetch_and_decrypt_stripe s c answer m key st idx).0.files ≡ files
  unfolding fetch_and_decrypt_stripe fetch_stripe
  fetch_and_decrypt_stripe-files answer files m key st idx h =
      elim (Option-cases (get_elem? m.stripes idx)) [
        | inl nothing ↦ ground arith
        | inr (stripe, at) ↦
            let kept =
              gather-keeps (fetch_shard s c answer) m.data_shards (λ t. t.files ≡ files)
                (λ t id holder g. (fetch_shard-steady answer files t id holder g).0)
                (slots_of stripe.shard_ids m.holders) st 0 h in
            ground (arith, kept)
      ]

  -- What `uploadStripe` did when it returned a stripe.
  pub upload_stripe_inv :
      (answer : Bytes → Bytes → Option Response) (spool : Option FilePath) (disk : Disk)
      (p : Params) (key : Bytes) (nonce : Option Bytes) (holders : List Bytes) (idx : ℕ)
      (plaintext : Bytes) (st : State s) (stripe : Stripe)
      → (upload_stripe s c answer spool disk p key nonce holders idx plaintext st).1 ≡ ok stripe
      → (ct : Bytes) × (full : List Bytes) × (seal_aes c.primitives key nonce plaintext ≡ ok ct)
        × (Ec.encode c.rs p ct ≡ ok full)
        × (stripe ≡ stripe_for s c idx plaintext ct full)
  unfolding upload_stripe
  upload_stripe_inv answer spool disk p key nonce holders idx plaintext st stripe h =
      elim (Result-cases (seal_aes c.primitives key nonce plaintext)) [
        | inr (e, bad) ↦ absurd (ground arith)
        | inl (ct, sealed) ↦ elim (Result-cases (Ec.encode c.rs p ct)) [
          | inr (e, bad) ↦ absurd (ground arith)
          | inl (full, encoded) ↦ (ct, full, sealed, encoded, ground arith)
        ]
      ]

  module _ (aes : PrimitivesLaws c.primitives) (coding : ReedSolomonLaws c.rs) where
    decode_stripe_lem :
        (m : Manifest) (stripe : Stripe) (p : Params) (key nonce plaintext ct : Bytes)
        (full shards : List Bytes)
        → length nonce ≡ 12
        → seal_aes c.primitives key (some nonce) plaintext ≡ ok ct
        → Ec.encode c.rs p ct ≡ ok full
        → p ≡ record { data_shards = m.data_shards; parity_shards = m.parity_shards }
        → stripe.ciphertext_bytes ≡ length ct
        → Masks shards full
        → m.data_shards ≤ present shards
        → decode_stripe s c m stripe key shards ≡ ok plaintext
    unfolding decode_stripe
    decode_stripe_lem m stripe p key nonce plaintext ct full shards n sealed encoded same size masks
          enough =
        ground (
          arith,
          decode-encode c.rs coding
              (record { data_shards = m.data_shards; parity_shards = m.parity_shards }) ct full
              shards (subst (λ q. Ec.encode c.rs q ct ≡ ok full) same encoded) masks enough,
          (open_aes-seal_aes c.primitives aes key nonce plaintext ct n sealed).0,
        )

    full_shape :
        (p : Params) (ct : Bytes) (full : List Bytes)
        → Ec.encode c.rs p ct ≡ ok full
        → (length full ≡ p.data_shards + p.parity_shards) × AllPresent full
    full_shape p ct full e =
        let encoded = encode-Encoded c.rs p ct full e in
        let made =
          coding.encode_content p.data_shards p.parity_shards encoded.shards full encoded.encoded in
        (
          made.0
              ∙ (coding.split_content p.data_shards p.parity_shards ct encoded.shards
                  encoded.split).1,
          made.2,
        )

    pub fetch_stripe_lem :
        (answer : Bytes → Bytes → Option Response) (st : State s) (m : Manifest) (p : Params)
        (n : ℕ) (key nonce plaintext ct : Bytes) (full : List Bytes)
        → length nonce ≡ 12
        → seal_aes c.primitives key (some nonce) plaintext ≡ ok ct
        → Ec.encode c.rs p ct ≡ ok full
        → p ≡ record { data_shards = m.data_shards; parity_shards = m.parity_shards }
        → length m.holders ≡ m.data_shards + m.parity_shards
        → let ids = map (hash_of s.sha256) full in
          Distinguishes s.sha256 ids
          → Honest s.sha256 (given st.files answer) (slots_of ids m.holders)
          → m.data_shards ≤ able (given st.files answer) (slots_of ids m.holders)
          → (fetch_stripe s c answer m (stripe_for s c n plaintext ct full) key st).1 ≡ ok plaintext
    unfolding fetch_stripe stripe_for GathersWell
    fetch_stripe_lem answer st m p n key nonce plaintext ct full n12 sealed encoded same wide d h
          enough =
        let shape = full_shape p ct full encoded in
        let size : length full ≡ m.data_shards + m.parity_shards = ground (arith, shape.0, same) in
        let slots = slots_of (map (hash_of s.sha256) full) m.holders in
        let g =
          gather-GathersWell (fetch_shard s c answer) m.data_shards (λ t. t.files ≡ st.files)
            (given st.files answer) (λ t id holder. fetch_shard-steady answer st.files t id holder)
            slots full st 0 refl shape.1
            (Honest-Answers s.sha256 (given st.files answer) full m.holders (omega (arith, size)) d
              h) in
        let r = gather (fetch_shard s c answer) m.data_shards slots st 0 in
        let some_k : m.data_shards ≤ r.2 = g.3 (omega arith) in
        ground (
          arith,
          size,
          length-map full (hash_of s.sha256),
          some_k,
          decode_stripe_lem m (stripe_for s c n plaintext ct full) p key nonce plaintext ct full r.1
              n12 sealed encoded same refl g.1 (omega (arith, some_k, g.2)),
        )

    -- A stripe that `uploadStripe` returned, whatever became of its shards on the way, is read back by
    -- `fetchAndDecryptStripe` as the plaintext it was made of, if the manifest names it with the
    -- parameters of the upload and as many holders as slots, the nonce was 12 bytes, at least k
    -- slots give a shard, every shard that a slot gives has the hash that names it, and no two contents
    -- share one of these hashes.
    pub fetch_and_decrypt_stripe-upload_stripe :
        (sent : Bytes → Bytes → Option Response) (spool : Option FilePath) (disk : Disk)
        (p : Params) (key nonce : Bytes) (holders : List Bytes) (n : ℕ) (plaintext : Bytes)
        (before : State s) (stripe : Stripe) (answer : Bytes → Bytes → Option Response)
        (st : State s) (m : Manifest) (idx : ℕ)
        → length nonce ≡ 12
        → (upload_stripe s c sent spool disk p key (some nonce) holders n plaintext before).1
          ≡ ok stripe
        → get_elem? m.stripes idx ≡ some stripe
        → p ≡ record { data_shards = m.data_shards; parity_shards = m.parity_shards }
        → length m.holders ≡ m.data_shards + m.parity_shards
        → Distinguishes s.sha256 stripe.shard_ids
        → Honest s.sha256 (given st.files answer) (slots_of stripe.shard_ids m.holders)
        → m.data_shards ≤ able (given st.files answer) (slots_of stripe.shard_ids m.holders)
        → (fetch_and_decrypt_stripe s c answer m key st idx).1 ≡ ok plaintext
    unfolding fetch_and_decrypt_stripe stripe_for
    fetch_and_decrypt_stripe-upload_stripe sent spool disk p key nonce holders n plaintext before
          stripe answer st m idx n12 up at same wide d h enough =
        let (ct, full, sealed, encoded, made) =
          upload_stripe_inv sent spool disk p key (some nonce) holders n plaintext before stripe
            up in
        let ids : stripe.shard_ids ≡ map (hash_of s.sha256) full =
          ap (λ (t : Stripe). t.shard_ids) made in
        let lem =
          fetch_stripe_lem answer st m p n key nonce plaintext ct full n12 sealed encoded same wide
            (subst (λ i. Distinguishes s.sha256 i) ids d)
            (subst (λ i. Honest s.sha256 (given st.files answer) (slots_of i m.holders)) ids h)
            (subst (λ i. m.data_shards ≤ able (given st.files answer) (slots_of i m.holders)) ids
              enough) in
        ground (arith, lem)
