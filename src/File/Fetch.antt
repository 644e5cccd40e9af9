-- ===== src/File/Fetch.antt =====
-- internal/file/reader.go, `fetchAndDecryptStripe`, and `uploadStripe` of internal/file/file.go: one
-- stripe from its holders, and to them. What the other nodes answer is an argument, and so are the
-- random bytes, what the disk does, and `peer.Decode`.
pub mod Gather
pub mod Recovery
use fnshare.Prelude.{
  ℕ, suc, ◌+◌, ◌≡◌, refl, Bool, true, false, not, ◌&&◌, ◌||◌, List, [], ◌∷◌, ◌++◌, map, Option,
  none, some, arith, Result, ok, err, guard, or_fail, ◌>>=◌, ◌>>◌, if◌then◌else◌, length, get_elem?,
  ltb, leb, ◌==◌, ite,
}
use fnshare.Prelude.Bytes.{Bytes, bytes_dec}
use fnshare.Prelude.Clock.{Time}
use fnshare.Blockstore
use fnshare.Blockstore.{Disk, BlockError, hash_of}
use fnshare.Spool
use fnshare.Ec
use fnshare.Ec.{Params, ReedSolomon, EcError}
use fnshare.Crypto.{Primitives, CryptoError, seal_aes, open_aes}
use fnshare.Manifest.{Manifest, Stripe}
use fnshare.Node.Blocks.{Services, State, Response, get_shard_from_peer, put_shard_on_peer}
use fnshare.Prelude.Paths.{FilePath}

pub data StripeError : Type 0 where
  out_of_range malformed : StripeError
  not_enough : ℕ → ℕ → StripeError
  ec_failed : EcError → StripeError
  crypto_failed : CryptoError → StripeError
  local_put : BlockError → StripeError
  bad_holder : Bytes → StripeError
  ship_failed : Bytes → StripeError
  -- an index past the end of `holderList`
  fault : StripeError

-- The shards of a stripe that were had, an empty one for each that was not, and their number.
abbrev pub Gathered : Type 0 → Type 0
Gathered S = S × List Bytes × ℕ

abbrev pub empties : {A : Type 0} → List A → List Bytes
empties [] = []
empties (a ∷ s) = [] ∷ empties s

module _ {S : Type 0} (fetch : S → Bytes → Bytes → S × Option Bytes) (k : ℕ) where
  -- `for i := 0; i < total && gathered < k; i++`, over the ids and the holders of the slots.
  unfoldable pub gather : List (Bytes × Bytes) → S → ℕ → Gathered S
  gather [] s gathered = (s, [], gathered)
  gather ((id, holder) ∷ slots) s gathered =
      let (s', raw) = fetch s id holder in
      let had = gather slots s' (gathered + 1) in
      let missed = gather slots s' gathered in
      if leb k gathered then (s, empties ((id, holder) ∷ slots), gathered) else elim raw [
        | some bytes ↦ (had.0, bytes ∷ had.1, had.2)
        | none ↦ (missed.0, [] ∷ missed.1, missed.2)
      ]

-- The slots of a stripe: the id of each shard and its holder.
abbrev pub slots_of : List Bytes → List Bytes → List (Bytes × Bytes)
slots_of [] holders = []
slots_of (id ∷ ids) [] = []
slots_of (id ∷ ids) (h ∷ holders) = (id, h) ∷ slots_of ids holders

-- What one upload or download works with.
pub record Context (s : Services) : Type 0 where
  pub now : Time
  pub self : Bytes
  pub decode_peer : Bytes → Option Bytes
  pub rs : ReedSolomon
  pub primitives : Primitives

module _ (s : Services) (c : Context s) where
  -- One slot: the local shard first, then the holder; `answer` is what a peer answers for an id.
  unfoldable pub fetch_shard :
      (Bytes → Bytes → Option Response) → State s → Bytes → Bytes → State s × Option Bytes
  fetch_shard answer st id holder = elim (Blockstore.get s.root st.files id) [
    | ok raw ↦ (st, some raw)
    | err e ↦
        ite (bytes_dec holder c.self) (st, none)
          (elim (c.decode_peer holder) [
            | none ↦ (st, none)
            | some pid ↦ get_shard_from_peer s c.now pid (answer pid id) st
          ])
  ]

  -- The end of `fetchAndDecryptStripe`.
  unfoldable pub decode_stripe : Manifest → Stripe → Bytes → List Bytes → Result StripeError Bytes
  decode_stripe m stripe key shards =
      elim (Ec.decode c.rs (record { data_shards = m.data_shards; parity_shards = m.parity_shards })
        shards stripe.ciphertext_bytes) [
          | err e ↦ err (ec_failed e)
          | ok (ct, full) ↦ elim (open_aes c.primitives key ct) [
            | ok pt ↦ ok pt
            | err e ↦ err (crypto_failed e)
          ]
        ]

  -- The stripe that was found in the manifest.
  unfoldable pub fetch_stripe :
      (Bytes → Bytes → Option Response)
      → Manifest
      → Stripe
      → Bytes
      → State s
      → State s × Result StripeError Bytes
  fetch_stripe answer m stripe key st =
      let total = m.data_shards + m.parity_shards in
      let (st', shards, gathered) =
        gather (fetch_shard answer) m.data_shards (slots_of stripe.shard_ids m.holders) st 0 in
      if not (length stripe.shard_ids == total) || not (length m.holders == total)
      then (st, err malformed)
      else if ltb gathered m.data_shards
      then (st', err (not_enough gathered m.data_shards))
      else (st', decode_stripe m stripe key shards)

  -- `fetchAndDecryptStripe`
  unfoldable pub fetch_and_decrypt_stripe :
      (Bytes → Bytes → Option Response)
      → Manifest
      → Bytes
      → State s
      → ℕ
      → State s × Result StripeError Bytes
  fetch_and_decrypt_stripe answer m key st idx = elim (get_elem? m.stripes idx) [
    | none ↦ (st, err out_of_range)
    | some stripe ↦ fetch_stripe answer m stripe key st
  ]

  -- A shard for a holder that does not answer goes to the spool, if there is one.
  unfoldable pub spool_shard :
      Option FilePath → Disk → State s → Bytes → Bytes → Bytes → State s × Option StripeError
  spool_shard none disk st holder id shard = (st, some (ship_failed holder))
  spool_shard (some root) disk st holder id shard =
      elim (Spool.enqueue_shard root disk st.files holder id shard) [
        | ok files ↦ (record st { files = files }, none)
        | err e ↦ (st, some (ship_failed holder))
      ]

  -- One round of the loop of `uploadStripe`: a shard to its holder.
  unfoldable pub ship_shard :
      (Bytes → Bytes → Option Response)
      → Option FilePath
      → Disk
      → State s
      → Bytes
      → Bytes
      → State s × Option StripeError
  ship_shard answer spool disk st holder shard =
      let id = hash_of s.sha256 shard in
      ite (bytes_dec holder c.self)
        (elim (Blockstore.put s.sha256 s.root disk st.files id shard) [
          | ok files ↦ (record st { files = files }, none)
          | err e ↦ (st, some (local_put e))
        ])
        (elim (c.decode_peer holder) [
          | none ↦ (st, some (bad_holder holder))
          | some pid ↦
              let (st', sent) = put_shard_on_peer s c.now pid shard (answer pid id) st in
              if sent then (st', none) else spool_shard spool disk st' holder id shard
        ])

  -- The loop over the shards and the holder of each; it stops at the first error.
  unfoldable pub ship_shards :
      (Bytes → Bytes → Option Response)
      → Option FilePath
      → Disk
      → List Bytes
      → List Bytes
      → State s
      → State s × Option StripeError
  ship_shards answer spool disk [] holders st = (st, none)
  ship_shards answer spool disk (shard ∷ shards) [] st = (st, some fault)
  ship_shards answer spool disk (shard ∷ shards) (holder ∷ holders) st =
      let (st', e) = ship_shard answer spool disk st holder shard in
      let rest = ship_shards answer spool disk shards holders st' in
      elim e [ some x ↦ (st', some x) | none ↦ rest ]

  -- The stripe that `uploadStripe` records.
  unfoldable pub stripe_for : ℕ → Bytes → Bytes → List Bytes → Stripe
  stripe_for idx plaintext ct shards = record {
    index = idx;
    shard_ids = map (hash_of s.sha256) shards;
    plaintext_bytes = length plaintext;
    ciphertext_bytes = length ct;
  }

  -- `uploadStripe`; `nonce` comes from the random source.
  unfoldable pub upload_stripe :
      (Bytes → Bytes → Option Response)
      → Option FilePath
      → Disk
      → Params
      → Bytes
      → Option Bytes
      → List Bytes
      → ℕ
      → Bytes
      → State s
      → State s × Result StripeError Stripe
  upload_stripe answer spool disk p key nonce holders idx plaintext st =
      elim (seal_aes c.primitives key nonce plaintext) [
        | err e ↦ (st, err (crypto_failed e))
        | ok ct ↦ elim (Ec.encode c.rs p ct) [
          | err e ↦ (st, err (ec_failed e))
          | ok shards ↦
              let (st', e) = ship_shards answer spool disk shards holders st in
              elim e [
                | some x ↦ (st', err x)
                | none ↦ (st', ok (stripe_for idx plaintext ct shards))
              ]
        ]
      ]
