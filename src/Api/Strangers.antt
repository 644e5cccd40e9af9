-- ===== src/Api/Strangers.antt =====
-- Who has neither a token nor the password changes nothing.
use fnshare.Prelude.{
  ◌≡◌, ◌≢◌, refl, ap, sym, ◌∙◌, subst, inl, inr, true, false, List, [], ◌∷◌, Option, none, some,
  arith, ok, length, ◌==◌, Bool-cases,
}
use fnshare.Prelude.Bytes.{Bytes, bytes_dec}
use fnshare.Prelude.Assoc.{delete}
use fnshare.Auth
use fnshare.Auth.{Sessions, key_password_hash}
use fnshare.Store
use fnshare.Api.{Deps, Server, Reply}
use fnshare.Api.Routes.{
  Request, Call, state, logout, init, login, gated, extract_token, has_password, validate,
  require_auth, handle_auth_state, handle_auth_init, handle_auth_login, handle_auth_logout, route,
  run,
}
use mathlib.Core.List.{lookup}

delete_absent :
    (k : Bytes) (sessions : Sessions)
    → lookup bytes_dec k sessions ≡ none
    → delete bytes_dec k sessions ≡ sessions
unfolding delete lookup
delete_absent k [] h = refl
delete_absent k (e ∷ sessions) h = elim (bytes_dec k e.0) [
  | yes same ↦ absurd (ground arith)
  | no other ↦ ground (arith, delete_absent k sessions)
]

module _ (d : Deps) (hash : Bytes) where
  -- A wrong password.
  abbrev IsWrong : Option Bytes → Type 0
  IsWrong none = Unit {0}
  IsWrong (some p) = d.bcrypt.compare hash p ≡ false

  abbrev pub Guesses : Request → Type 0
  Guesses (login password token) = IsWrong password
  Guesses _ = Unit {0}

  -- A caller with no token that is accepted, and with no right password.
  abbrev pub IsStranger : Sessions → Call → Type 0
  IsStranger sessions r =
      (extract_token r ≢ d.cli_token)
      × (lookup bytes_dec (extract_token r) sessions ≡ none)
      × Guesses r.request

  abbrev pub AreStrangers : Sessions → List Call → Type 0
  AreStrangers sessions [] = Unit {0}
  AreStrangers sessions (r ∷ calls) = IsStranger sessions r × AreStrangers sessions calls

  -- What such a caller is answered: 401 behind the gate, 409 for a new password, and no token.
  abbrev pub Refused : Request → Reply → Type 0
  Refused (gated g) reply = reply.code ≡ 401
  Refused (init salt password token) reply = reply.code ≡ 409
  Refused (login password token) reply = (reply.code ≢ 200) × (reply.cookie ≡ none)
  Refused _ reply = Unit {0}

  abbrev pub AllRefused : List Call → List Reply → Type 0
  AllRefused [] replies = Unit {0}
  AllRefused (r ∷ calls) [] = ⊥
  AllRefused (r ∷ calls) (reply ∷ replies) = Refused r.request reply × AllRefused calls replies

  validate_stranger :
      (r : Call) (s : Server d)
      → extract_token r ≢ d.cli_token
      → lookup bytes_dec (extract_token r) s.sessions ≡ none
      → validate d r s ≡ (s.sessions, false)
  unfolding Auth.validate_session
  validate_stranger r s ne none_there = ground arith

  has_password_lem :
      (s : Server d)
      → Store.get d.files.deps.badger s.node.db key_password_hash ≡ ok hash
      → has_password d s ≡ true
  unfolding Auth.has_password
  has_password_lem s h = ground arith

  route_stranger :
      (q : Request) (r : Call) (s : Server d)
      → Store.get d.files.deps.badger s.node.db key_password_hash ≡ ok hash
      → extract_token r ≢ d.cli_token
      → lookup bytes_dec (extract_token r) s.sessions ≡ none
      → Guesses q
      → ((route d q r s).0 ≡ s) × Refused q (route d q r s).1
  unfolding route handle_auth_state handle_auth_init handle_auth_login handle_auth_logout
      require_auth Auth.verify_and_issue Auth.logout
  route_stranger state r s h ne none_there g =
      (ground (arith, validate_stranger r s ne none_there, has_password_lem s h), tt)
  route_stranger logout r s h ne none_there g = elim (Bool-cases (length (extract_token r) == 0)) [
    | inl empty ↦ (ground arith, tt)
    | inr some_token ↦ (ground (arith, delete_absent (extract_token r) s.sessions none_there), tt)
  ]
  route_stranger (init salt password token) r s h ne none_there g =
      (ground (arith, has_password_lem s h), ground (arith, has_password_lem s h))
  route_stranger (login none token) r s h ne none_there g =
      (refl, (λ e. absurd (ground arith), refl))
  route_stranger (login (some p) token) r s h ne none_there g =
      (ground arith, (λ e. absurd (ground arith), ground arith))
  route_stranger (gated q) r s h ne none_there g = (
    ground (arith, validate_stranger r s ne none_there, has_password_lem s h),
    ground (arith, validate_stranger r s ne none_there, has_password_lem s h),
  )

  -- Once a password is set: callers whose token is neither that of the command line nor one of a
  -- session, and who guess no right password, leave everything as it was, the store, the files, the
  -- settings and the sessions, in any number of requests; each request behind the gate is answered
  -- 401, each for a new password 409, and no login gives them a token.
  pub run_strangers :
      (calls : List Call) (s : Server d)
      → Store.get d.files.deps.badger s.node.db key_password_hash ≡ ok hash
      → AreStrangers s.sessions calls
      → ((run d calls s).0 ≡ s) × AllRefused calls (run d calls s).1
  unfolding run
  run_strangers [] s h strangers = (refl, tt)
  run_strangers (r ∷ calls) s h ((ne, none_there, guess), strangers) =
      let (same, refused) = route_stranger r.request r s h ne none_there guess in
      let rest = run_strangers calls s h strangers in
      (
        ap (λ x. (run d calls x).0) same ∙ rest.0,
        (refused, subst (λ x. AllRefused calls (run d calls x).1) (sym same) rest.1),
      )
