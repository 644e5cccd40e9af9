-- ===== src/Auth/Sessions.antt =====
-- Which tokens are accepted, over any sequence of calls.
use fnshare.Prelude.{
  ℕ, ◌+◌, ◌≤◌, ◌<◌, ◌≡◌, refl, ap, sym, ◌∙◌, ◌⊎◌, inl, inr, true, false, not, List, [], ◌∷◌, Option,
  none, some, arith, ltb, ite, if_pos, if_neg, subst, Bool-cases, Option-cases, Result-cases, ok,
  err, Bool, if◌then◌else◌,
}
use fnshare.Prelude.Bytes.{Bytes, bytes_dec}
use fnshare.Prelude.Assoc.{delete, lookup-insert, lookup-delete}
use fnshare.Auth.{Sessions, Bcrypt, key_password_hash, verify_and_issue, validate_session, logout}
use fnshare.Store
use fnshare.Store.{Badger}
use mathlib.Core.List.{lookup}

-- What is done, and when: a login with a password and a new token, none where the random source fails;
-- or a token that is validated, or logged out.
pub data Event : Type 0 where
  login : ℕ → Bytes → Option Bytes → Event
  validated logged_out : ℕ → Bytes → Event

abbrev pub time_of : Event → ℕ
time_of (login t password drawn) = t
time_of (validated t token) = t
time_of (logged_out t token) = t

-- The events, the newest first, come in the order of their times, and all before `now`.
abbrev pub Ordered : ℕ → List Event → Type 0
Ordered now [] = Unit {0}
Ordered now (e ∷ events) = (time_of e ≤ now) × Ordered (time_of e) events

-- 30 days in nanoseconds.
abbrev pub month : ℕ
month = 2592000000000000

module _ (b : Badger) (bcrypt : Bcrypt) (db : b.Db) (cli_token : Bytes) where
  -- Whether the store has a hash that the password fits.
  abbrev pub is_right : Bytes → Bool
  is_right password = elim (Store.get b db key_password_hash) [
    | err e ↦ false
    | ok hash ↦ bcrypt.compare hash password
  ]

  -- The token that a login gives, if it gives one.
  abbrev pub given : Bytes → Option Bytes → Option Bytes
  given password drawn = if is_right password then drawn else none

  abbrev pub renewed : Bytes → ℕ → Option Bytes → Option ℕ → Option ℕ
  renewed token t none before = before
  renewed token t (some other) before = ite (bytes_dec token other) (some (t + month)) before

  -- When a token runs out: what counts is when it was given last, and whether it was logged out since.
  abbrev pub expiry : Bytes → List Event → Option ℕ
  expiry token [] = none
  expiry token (login t password drawn ∷ events) =
      renewed token t (given password drawn) (expiry token events)
  expiry token (validated t other ∷ events) = expiry token events
  expiry token (logged_out t other ∷ events) =
      ite (bytes_dec other cli_token) (expiry token events)
        (ite (bytes_dec token other) none (expiry token events))

  -- The sessions after the events.
  unfoldable pub after : List Event → Sessions
  after [] = []
  after (login t password drawn ∷ events) =
      (verify_and_issue b bcrypt db (after events) drawn t password).0
  after (validated t token ∷ events) = (validate_session cli_token (after events) t token).0
  after (logged_out t token ∷ events) = logout cli_token (after events) token

  lookup-verify_and_issue :
      (sessions : Sessions) (t : ℕ) (password token : Bytes) (drawn : Option Bytes)
      → lookup bytes_dec token (verify_and_issue b bcrypt db sessions drawn t password).0
        ≡ renewed token t (given password drawn) (lookup bytes_dec token sessions)
  unfolding verify_and_issue
  lookup-verify_and_issue sessions t password token drawn =
      elim (Result-cases (Store.get b db key_password_hash)) [
        | inr (e, unset) ↦ ground arith
        | inl (hash, set) ↦ elim (Bool-cases (bcrypt.compare hash password)) [
          | inr wrong ↦ ground arith
          | inl right ↦ elim (Option-cases drawn) [
            | inl failed ↦ ground arith
            | inr (other, is) ↦
                ground (arith, lookup-insert bytes_dec token other (t + month) sessions)
          ]
        ]
      ]

  -- The map has the expiry, or has dropped a session that had run out.
  abbrev Agrees : ℕ → Option ℕ → Option ℕ → Type 0
  Agrees now kept spec =
      (kept ≡ spec) ⊎ ((kept ≡ none) × (exp : ℕ) × (spec ≡ some exp) × (exp < now))

  later-Agrees :
      (t now : ℕ) (kept spec : Option ℕ) → t ≤ now → Agrees t kept spec → Agrees now kept spec
  later-Agrees t now kept spec l (inl same) = inl same
  later-Agrees t now kept spec l (inr (gone, exp, is, old)) = inr (gone, exp, is, omega arith)

  lookup-validate_session :
      (sessions : Sessions) (t : ℕ) (token other : Bytes)
      → Agrees t
          (lookup bytes_dec token (validate_session cli_token sessions t other).0)
          (lookup bytes_dec token sessions)
  unfolding validate_session
  lookup-validate_session sessions t token other =
      elim (Option-cases (lookup bytes_dec other sessions)) [
        | inl unknown ↦ inl (ground arith)
        | inr (exp, known) ↦ elim (Bool-cases (ltb exp t)) [
          | inr live ↦ inl (ground arith)
          | inl old ↦ elim (bytes_dec token other) [
            | no q ↦ inl (ground (arith, lookup-delete bytes_dec token other sessions))
            | yes q ↦ elim (bytes_dec other []) [
              | yes empty ↦ inl (ground arith)
              | no some_bytes ↦ elim (bytes_dec other cli_token) [
                | yes cli ↦ inl (ground arith)
                | no session ↦ inr (
                  ground (arith, lookup-delete bytes_dec token other sessions),
                  exp,
                  ground (arith, ap (λ k. lookup bytes_dec k sessions) q),
                  ground arith,
                )
              ]
            ]
          ]
        ]
      ]

  both :
      (t : ℕ) (kept mid spec : Option ℕ)
      → Agrees t kept mid
      → Agrees t mid spec
      → Agrees t kept spec
  both t kept mid spec (inl same) h = rw same h
  both t kept mid spec (inr (gone, exp, is, old)) (inl same) = inr (gone, exp, sym same ∙ is, old)
  both t kept mid spec (inr (gone, exp, is, old)) (inr (none_there, x, y, z)) =
      absurd (ground arith)

  on_both :
      {P : Type 0} (now : ℕ) (d : Dec P) (a kept spec : Option ℕ)
      → Agrees now kept spec
      → Agrees now (ite d a kept) (ite d a spec)
  on_both now (yes p) a kept spec h = inl refl
  on_both now (no p) a kept spec h = h

  logout-Agrees :
      (now : ℕ) (token other : Bytes) (sessions : Sessions) (spec : Option ℕ)
      → Agrees now (lookup bytes_dec token sessions) spec
      → Agrees now
          (lookup bytes_dec token (logout cli_token sessions other))
          (ite (bytes_dec other cli_token) spec (ite (bytes_dec token other) none spec))
  unfolding logout
  logout-Agrees now token other sessions spec h = elim (bytes_dec other cli_token) [
    | yes cli ↦
        rw
          (
            if_pos (bytes_dec other cli_token) cli sessions (delete bytes_dec other sessions),
            if_pos (bytes_dec other cli_token) cli spec (ite (bytes_dec token other) none spec),
          )
          h
    | no session ↦
        rw
          (
            if_neg (bytes_dec other cli_token) session sessions (delete bytes_dec other sessions),
            if_neg (bytes_dec other cli_token) session spec (ite (bytes_dec token other) none spec),
            lookup-delete bytes_dec token other sessions,
          )
          (on_both now (bytes_dec token other) none _ _ h)
  ]

  renewed-Agrees :
      (now t : ℕ) (token : Bytes) (new : Option Bytes) (kept spec : Option ℕ)
      → Agrees now kept spec
      → Agrees now (renewed token t new kept) (renewed token t new spec)
  renewed-Agrees now t token none kept spec h = h
  renewed-Agrees now t token (some other) kept spec h =
      on_both now (bytes_dec token other) (some (t + month)) kept spec h

  after-Agrees :
      (now : ℕ) (token : Bytes) (events : List Event)
      → Ordered now events
      → Agrees now (lookup bytes_dec token (after events)) (expiry token events)
  unfolding after lookup
  after-Agrees now token [] o = inl refl
  after-Agrees now token (login t password drawn ∷ events) o =
      let before = later-Agrees t now _ _ o.0 (after-Agrees t token events o.1) in
      subst (λ k. Agrees now k (expiry token (login t password drawn ∷ events)))
        (sym (lookup-verify_and_issue (after events) t password token drawn))
        (renewed-Agrees now t token (given password drawn) _ _ before)
  after-Agrees now token (validated t other ∷ events) o = later-Agrees t now _ _ o.0 (
      both t _ _ _ (lookup-validate_session (after events) t token other)
        (after-Agrees t token events o.1))
  after-Agrees now token (logged_out t other ∷ events) o =
      logout-Agrees now token other (after events) (expiry token events)
        (later-Agrees t now _ _ o.0 (after-Agrees t token events o.1))

  -- After any calls in the order of their times, with the password hash that is in the store,
  -- `ValidateSession` accepts a token exactly if it is not empty, and is that of the command line, or
  -- `VerifyAndIssue` gave it last for a right password no longer than 30 days ago, and it was not
  -- logged out since.
  pub validate_session_lem :
      (now : ℕ) (token : Bytes) (events : List Event)
      → Ordered now events
      → (validate_session cli_token (after events) now token).1
        ≡ ite (bytes_dec token []) false (
            ite
              (bytes_dec token cli_token)
              true
              (elim (expiry token events) [ none ↦ false | some exp ↦ not (ltb exp now) ]))
  unfolding validate_session
  validate_session_lem now token events o = elim (after-Agrees now token events o) [
    | inl same ↦ ground (arith, same)
    | inr (gone, exp, is, old) ↦ ground arith
  ]
