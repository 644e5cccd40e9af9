-- ===== src/Api/Login.antt =====
-- A login opens the gate.
use fnshare.Prelude.{
  ℕ, ◌+◌, ◌≤◌, ◌≡◌, ◌≢◌, refl, ap, sym, ◌∙◌, true, some, arith, ok, if_pos, [], ◌∷◌,
}
use fnshare.Prelude.Bytes.{Bytes, bytes_dec}
use fnshare.Prelude.Assoc.{insert, lookup-insert}
use fnshare.Auth
use fnshare.Auth.{token_ttl, key_password_hash}
use fnshare.Store
use fnshare.Api.{Deps, Server}
use fnshare.Api.Routes.{
  Call, Gated, login, gated, extract_token, validate, require_auth, handle, handle_auth_login,
  route, serve, with_token,
}
use mathlib.Core.List.{lookup}

module _ (d : Deps) where
  -- The server after a login at `now`.
  abbrev pub logged_in : ℕ → Bytes → Server d → Server d
  logged_in now token s = record s {
    sessions = insert bytes_dec token (now + token_ttl) s.sessions;
  }

  login_lem :
      (r : Call) (s : Server d) (hash password token : Bytes)
      → Store.get d.files.deps.badger s.node.db key_password_hash ≡ ok hash
      → d.bcrypt.compare hash password ≡ true
      → route d (login (some password) (some token)) r s
        ≡ (logged_in r.now token s, with_token d token)
  unfolding route handle_auth_login Auth.verify_and_issue
  login_lem r s hash password token h right = ground arith

  -- A session that has not run out is valid, also when its token is that of the command line.
  validate_live :
      (r : Call) (s : Server d) (exp : ℕ)
      → extract_token r ≢ []
      → lookup bytes_dec (extract_token r) s.sessions ≡ some exp
      → r.now ≤ exp
      → validate d r s ≡ (s.sessions, true)
  unfolding Auth.validate_session
  validate_live r s exp some_bytes here live = ground arith

  extract_token_cookie :
      (r : Call) (token : Bytes) → r.cookie ≡ some token → token ≢ [] → extract_token r ≡ token
  unfolding extract_token
  extract_token_cookie r [] has some_bytes = absurd (some_bytes refl)
  extract_token_cookie r (c ∷ token) has some_bytes = ground arith

  -- A login with the right password gives a token in a cookie and changes nothing but the sessions;
  -- then each request behind the gate with this cookie, no later than 30 days after the login, is
  -- answered by its handler.
  pub serve-login :
      (r q : Call) (s : Server d) (g : Gated) (hash password token : Bytes)
      → Store.get d.files.deps.badger s.node.db key_password_hash ≡ ok hash
      → d.bcrypt.compare hash password ≡ true
      → r.request ≡ login (some password) (some token)
      → q.request ≡ gated g
      → q.cookie ≡ some token
      → token ≢ []
      → q.now ≤ r.now + token_ttl
      → (serve d r s ≡ (logged_in r.now token s, with_token d token))
        × (serve d q (logged_in r.now token s) ≡ handle d g (logged_in r.now token s))
  unfolding route require_auth
  serve-login r q s g hash password token h right is_login is_gated has some_bytes live =
      let s' = logged_in r.now token s in
      let same : extract_token q ≡ token = extract_token_cookie q token has some_bytes in
      let here : lookup bytes_dec (extract_token q) s'.sessions ≡ some (r.now + token_ttl) =
        lookup-insert bytes_dec (extract_token q) token (r.now + token_ttl) s.sessions
        ∙ if_pos (bytes_dec (extract_token q) token) same _ _ in
      let valid =
        validate_live q s' (r.now + token_ttl) (λ e. some_bytes (sym same ∙ e)) here live in
      (
        ap (λ x. route d x r s) is_login ∙ login_lem r s hash password token h right,
        ap (λ x. route d x q s') is_gated ∙ ground (arith, valid),
      )
