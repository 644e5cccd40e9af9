-- ===== src/File/Cached.antt =====
-- internal/file/reader.go, `stripeBytes`: a stripe from the cache, or from its holders.
pub mod Coherent
use fnshare.Prelude.{ℕ, none, some, Result, ok, err}
use fnshare.Prelude.Bytes.{Bytes}
use fnshare.File.Cache.{StripeCache, get, put}

module _ {S E : Type 0} (fetch : S → ℕ → S × Result E Bytes) (file_id : Bytes) where
  -- `stripeBytes` of a reader of the file `file_id`; `fetch` is `fetchAndDecryptStripe`.
  unfoldable pub stripe_bytes : StripeCache × S → ℕ → (StripeCache × S) × Result E Bytes
  stripe_bytes (cache, s) idx =
      let (cache', hit) = get cache file_id idx in
      let (s', r) = fetch s idx in
      elim hit [
        | some found ↦ ((cache', s), ok found)
        | none ↦ elim r [
          | err e ↦ ((cache', s'), err e)
          | ok found ↦ ((put cache' file_id idx found, s'), ok found)
        ]
      ]
