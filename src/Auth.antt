-- ===== src/Auth.antt =====
-- internal/auth/auth.go: the password of the owner, and the sessions. bcrypt is a parameter; random
-- tokens and the clock, in nanoseconds, are arguments. The file with the token of the command line
-- is not shown.
pub mod Sessions
use fnshare.Prelude.{
  ℕ, ◌+◌, ◌*◌, ◌≡◌, refl, Bool, true, false, not, ◌&&◌, ◌||◌, List, [], ◌∷◌, Option, none, some,
  Result, ok, err, guard, or_fail, ◌>>=◌, ◌>>◌, if◌then◌else◌, length, ltb, ite,
}
use fnshare.Prelude.Bytes.{Bytes, codes, bytes_dec}
use fnshare.Prelude.Assoc.{insert, delete}
use fnshare.Store.{Badger, StoreError}
use fnshare.Store
use mathlib.Core.List.{lookup}

pub record Bcrypt : Type 0 where
  -- `GenerateFromPassword`, with the salt from the random source
  pub generate : Bytes → Bytes → Option Bytes
  -- `CompareHashAndPassword`
  pub compare : Bytes → Bytes → Bool

pub data AuthError : Type 0 where
  too_short bcrypt_failed bad_password no_randomness : AuthError
  store : StoreError → AuthError

abbrev pub key_password_hash : Bytes
key_password_hash = codes "auth/password"

-- 30 days
abbrev pub token_ttl : ℕ
token_ttl = 30 * 24 * 3600 * 1000000000

abbrev pub Sessions : Type 0
Sessions = List (Bytes × ℕ)

module _ (b : Badger) (bcrypt : Bcrypt) where
  -- `HasPassword`
  unfoldable pub has_password : b.Db → Bool
  has_password db = elim (Store.get b db key_password_hash) [ ok hash ↦ true | err e ↦ false ]

  -- `SetPassword`
  unfoldable pub set_password : b.Db → Bytes → Bytes → Result AuthError b.Db
  set_password db salt password = do
    guard (not (ltb (length password) 6)) too_short
    hash ← or_fail (bcrypt.generate salt password) bcrypt_failed
    elim (Store.put b db key_password_hash hash) [ ok db' ↦ ok db' | err e ↦ err (store e) ]

  -- `VerifyAndIssue`: `token` comes from the random source.
  unfoldable pub verify_and_issue :
      b.Db → Sessions → Option Bytes → ℕ → Bytes → Sessions × Result AuthError Bytes
  verify_and_issue db sessions token now password = elim (Store.get b db key_password_hash) [
    | err e ↦ (sessions, err bad_password)
    | ok hash ↦
        if not (bcrypt.compare hash password) then (sessions, err bad_password) else elim token [
          | none ↦ (sessions, err no_randomness)
          | some tok ↦ (insert bytes_dec tok (now + token_ttl) sessions, ok tok)
        ]
  ]

module _ (cli_token : Bytes) where
  -- `ValidateSession`: an expired session is removed.
  unfoldable pub validate_session : Sessions → ℕ → Bytes → Sessions × Bool
  validate_session sessions now token =
      ite (bytes_dec token []) (sessions, false)
        (ite (bytes_dec token cli_token) (sessions, true)
          (elim (lookup bytes_dec token sessions) [
            | none ↦ (sessions, false)
            | some exp ↦
                if ltb exp now then (delete bytes_dec token sessions, false) else (sessions, true)
          ]))

  -- `Logout`
  unfoldable pub logout : Sessions → Bytes → Sessions
  logout sessions token = ite (bytes_dec token cli_token) sessions (delete bytes_dec token sessions)
