-- ===== src/Api/Routes.antt =====
-- internal/api/server.go: the gate, the handlers for the password and the sessions, and the routes.
use fnshare.Prelude.{
  ℕ, Bool, List, [], ◌∷◌, Option, none, some, ok, err, if◌then◌else◌, not, length, ◌==◌,
}
use fnshare.Prelude.Int.{ℤ}
use fnshare.Prelude.Bytes.{Bytes, codes}
use fnshare.Prelude.Clock.{Time}
use fnshare.Auth
use fnshare.Auth.{Sessions}
use fnshare.Blockstore.{Disk}
use fnshare.Config.{Writing}
use fnshare.File.Put.{PutOptions, Draws, Answers, Body}
use fnshare.Api.{
  Deps, Server, Reply, auth_state, auth_token, done, no_password_set, login_required, write_json,
  write_err,
}
use fnshare.Api.Handlers.{
  NewKeys, handle_get_config, handle_patch_config, handle_list_groups, handle_create_group,
  handle_list_files, handle_upload, handle_ledger, handle_status,
}
use fnshare.Api.Joining.{InviteRequest, handle_invite, handle_join_group}
use fnshare.Node.Join.{JoinResponse}

-- The requests for the routes behind the gate, but for a download, with what their handlers draw
-- and find.
pub data Gated : Type 0 where
  get_config list_groups list_all ledger : Gated
  show_status : List Bytes → List Bytes → Gated
  invite : ℕ → Option Bytes → Option InviteRequest → Gated
  join : ℤ → Bool → Option JoinResponse → Option Bytes → Gated
  patch_config : Writing → Option (Option Bytes × Option ℤ) → Gated
  create_group : Time → Time → Option NewKeys → Option Bytes → Gated
  upload : Time → Disk → Draws → Answers → Bytes → PutOptions → Body → Gated

-- The requests, with the password that the body has, the salt of the hash and the new token.
pub data Request : Type 0 where
  state logout : Request
  init : Bytes → Option Bytes → Option Bytes → Request
  login : Option Bytes → Option Bytes → Request
  gated : Gated → Request

-- A request at a time, in nanoseconds, with its cookie and the header `X-Auth-Token`.
pub record Call : Type 0 where
  pub now : ℕ
  pub cookie : Option Bytes
  pub header : Bytes
  pub request : Request

-- `extractToken`
unfoldable pub extract_token : Call → Bytes
extract_token r = elim r.cookie [
  | none ↦ r.header
  | some value ↦ if not (length value == 0) then value else r.header
]

module _ (d : Deps) where
  -- `Auth.HasPassword()` and `Auth.ValidateSession(extractToken(r))`
  abbrev pub has_password : Server d → Bool
  has_password s = Auth.has_password d.files.deps.badger d.bcrypt s.node.db

  abbrev pub validate : Call → Server d → Sessions × Bool
  validate r s = Auth.validate_session d.cli_token s.sessions r.now (extract_token r)

  -- `requireAuth`
  unfoldable pub require_auth : (Server d → Server d × Reply) → Call → Server d → Server d × Reply
  require_auth next r s =
      let (sessions, valid) = validate r s in
      let s' : Server d = record s { sessions = sessions } in
      if valid
      then next s'
      else if not (has_password s')
      then (s', write_json 401 no_password_set)
      else (s', write_json 401 login_required)

  -- `handleAuthState`
  unfoldable pub handle_auth_state : Call → Server d → Server d × Reply
  handle_auth_state r s =
      let (sessions, valid) = validate r s in
      let s' : Server d = record s { sessions = sessions } in
      if not (has_password s)
      then (s, write_json 200 (auth_state (codes "no_password")))
      else if not valid
      then (s', write_json 200 (auth_state (codes "needs_login")))
      else (s', write_json 200 (auth_state (codes "ok")))

  -- `setSessionCookie`, and the reply with the token.
  abbrev pub with_token : Bytes → Reply
  with_token token = record { code = 200; cookie = some token; body = auth_token token }

  -- `VerifyAndIssue`, and the reply; `code` is that of a failure.
  abbrev issue : ℕ → Option Bytes → Call → Bytes → Server d → Server d × Reply
  issue code token r password s =
      let (sessions, res) =
        Auth.verify_and_issue d.files.deps.badger d.bcrypt s.node.db s.sessions token r.now
          password in
      let s' : Server d = record s { sessions = sessions } in
      elim res [ ok tok ↦ (s', with_token tok) | err e ↦ (s', write_err code) ]

  -- `handleAuthInit`
  unfoldable pub handle_auth_init :
      Bytes → Option Bytes → Option Bytes → Call → Server d → Server d × Reply
  handle_auth_init salt password token r s =
      if has_password s then (s, write_err 409) else elim password [
        | none ↦ (s, write_err 400)
        | some p ↦ elim (Auth.set_password d.files.deps.badger d.bcrypt s.node.db salt p) [
          | err e ↦ (s, write_err 400)
          | ok db ↦ issue 500 token r p (record s { node = record s.node { db = db } })
        ]
      ]

  -- `handleAuthLogin`
  unfoldable pub handle_auth_login :
      Option Bytes → Option Bytes → Call → Server d → Server d × Reply
  handle_auth_login password token r s = elim password [
    | none ↦ (s, write_err 400)
    | some p ↦ issue 401 token r p s
  ]

  -- `handleAuthLogout`
  unfoldable pub handle_auth_logout : Call → Server d → Server d × Reply
  handle_auth_logout r s =
      let token = extract_token r in
      let reply : Reply = record { code = 200; cookie = some []; body = done } in
      if length token == 0
      then (s, reply)
      else (record s { sessions = Auth.logout d.cli_token s.sessions token }, reply)

  -- The handlers behind the gate.
  unfoldable pub handle : Gated → Server d → Server d × Reply
  handle get_config s = handle_get_config d s
  handle list_groups s = handle_list_groups d s
  handle list_all s = handle_list_files d s
  handle ledger s = handle_ledger d s
  handle (show_status addrs peers) s = handle_status d addrs peers s
  handle (invite now random req) s = handle_invite d now random req s
  handle (join now reached response text) s = handle_join_group d now reached response text s
  handle (patch_config disk patch) s = handle_patch_config d disk patch s
  handle (create_group created now keys name) s = handle_create_group d created now keys name s
  handle (upload now disk draws answers name opts body) s =
      handle_upload d now disk draws answers name opts body s

  -- The routes of `New`.
  unfoldable pub route : Request → Call → Server d → Server d × Reply
  route state r s = handle_auth_state r s
  route logout r s = handle_auth_logout r s
  route (init salt password token) r s = handle_auth_init salt password token r s
  route (login password token) r s = handle_auth_login password token r s
  route (gated g) r s = require_auth (handle g) r s

  abbrev pub serve : Call → Server d → Server d × Reply
  serve r s = route r.request r s

  -- The requests one after the other.
  unfoldable pub run : List Call → Server d → Server d × List Reply
  run [] s = (s, [])
  run (r ∷ calls) s =
      let (s', reply) = serve r s in let (s'', replies) = run calls s' in (s'', reply ∷ replies)
