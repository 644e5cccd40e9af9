-- ===== src/File/Upload.antt =====
-- internal/file/file.go: the loop of `Put` that cuts a body into stripes and uploads each of them.
-- A body is the bytes that it yields, and whether it then fails instead of ending.
pub mod Stripes
use fnshare.Prelude.{
  ℕ, zero, suc, ◌+◌, ◌≡◌, refl, Bool, true, false, not, ◌&&◌, List, [], ◌∷◌, Option, none, some,
  Result, ok, err, if◌then◌else◌, length, take, drop, ltb, ◌==◌,
}
use fnshare.Prelude.Bytes.{Bytes}
use fnshare.Prelude.Paths.{FilePath}
use fnshare.Blockstore.{Disk}
use fnshare.Ec.{Params}
use fnshare.Manifest.{Stripe}
use fnshare.Node.Blocks.{Services, State, Response}
use fnshare.File.Fetch.{Context, StripeError, upload_stripe}

pub data PutError : Type 0 where
  stripe_failed : ℕ → StripeError → PutError
  read_body : PutError
  out_of_fuel : PutError

-- The stripes that were uploaded, and the bytes in them.
abbrev pub Uploaded : Type 0
Uploaded = Result PutError (List Stripe × ℕ)

abbrev pub with_stripe : Stripe → ℕ → Uploaded → Uploaded
with_stripe stripe n (err e) = err e
with_stripe stripe n (ok (stripes, total)) = ok (stripe ∷ stripes, n + total)

-- What all stripes of one upload share: the answers of the peers, the spool, the disk, the
-- parameters, the key, the holders, and the nonce of each stripe.
pub record Upload : Type 0 where
  pub answer : Bytes → Bytes → Option Response
  pub spool : Option FilePath
  pub disk : Disk
  pub params : Params
  pub key : Bytes
  pub holders : List Bytes
  pub nonce : ℕ → Option Bytes

-- One stripe of the upload.
unfoldable pub upload_at :
    (s : Services) → Context s → Upload → ℕ → Bytes → State s → State s × Result StripeError Stripe
upload_at s c u idx chunk st =
    upload_stripe s c u.answer u.spool u.disk u.params u.key (u.nonce idx) u.holders idx chunk st

module _ (s : Services) (c : Context s) (u : Upload) (stripe_size : ℕ) (fails : Bool) where
  -- What follows a stripe that was uploaded: the end, a failing body, or the next round.
  unfoldable pub after_stripe :
      Bool → Stripe → ℕ → State s → State s × Uploaded → State s × Uploaded
  after_stripe short stripe n st rest =
      if not short
      then (rest.0, with_stripe stripe n rest.1)
      else if fails
      then (st, err read_body)
      else (st, ok (stripe ∷ [], n))

  -- The loop of `Put` over the body. A round that goes on takes `stripe_size` bytes, so with a
  -- positive size the length of the body and one more is fuel enough.
  unfoldable pub put_loop : ℕ → ℕ → Bytes → State s → State s × Uploaded
  put_loop zero idx body st = (st, err out_of_fuel)
  put_loop (suc fuel) idx body st =
      let chunk = take stripe_size body in
      let short = ltb (length body) stripe_size in
      let (st', r) = upload_at s c u idx chunk st in
      let rest = put_loop fuel (idx + 1) (drop stripe_size body) st' in
      if length chunk == 0 && (short && not fails) then (st, ok ([], 0)) else elim r [
        | err e ↦ (st', err (stripe_failed idx e))
        | ok stripe ↦ after_stripe short stripe (length chunk) st' rest
      ]
