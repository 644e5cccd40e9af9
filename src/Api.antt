-- ===== src/Api.antt =====
-- internal/api/server.go: the HTTP interface of the owner of a node. A request is what its handler
-- reads of it, with none for a body that does not decode; a reply is the code, the cookie that it
-- sets, and the body. Error texts are not shown, but for those of the gate. The mutex over the
-- settings makes each change one step.
pub mod Handlers
pub mod Founding
pub mod Joining
pub mod Login
pub mod Routes
pub mod Strangers
use fnshare.Prelude.{ℕ, Bool, List, Option, none, some}
use fnshare.Prelude.Int.{ℤ}
use fnshare.Prelude.Bytes.{Bytes}
use fnshare.Prelude.Clock.{Time}
use fnshare.Codec.{Codec}
use fnshare.Auth.{Bcrypt, Sessions}
use fnshare.Config.{Config}
use fnshare.Invite.{Formats}
use fnshare.Ledger
use fnshare.Manifest.{Manifest}
use fnshare.Node.Blocks.{State}
use fnshare.File.Service.{FileService, services}

-- The fields of `Deps` that do not change, and the libraries.
pub record Deps : Type 1 where
  pub files : FileService
  pub has_files : Bool
  pub bcrypt : Bcrypt
  pub cli_token : Bytes
  pub yaml : Codec Config
  pub formats : Formats
  -- `Identity.PubKey.Raw()`
  pub raw_pub_key : Option Bytes

-- What the handlers change: the state of the node, with the store, the sessions, the settings and their
-- file.
pub record Server (d : Deps) : Type 0 where
  pub node : State (services d.files)
  pub sessions : Sessions
  pub cfg : Config
  pub config_file : Bytes

pub record MemberSummary : Type 0 where
  pub peer_id : Bytes
  pub nickname : Bytes
  pub contributed : ℤ
  pub joined_at : Time
  pub is_online : Bool
  pub reputation : ℤ
  pub offline_since : Time

pub record GroupSummary : Type 0 where
  pub id : Bytes
  pub name : Bytes
  pub is_admin : Bool
  pub members : List MemberSummary

pub record FileSummary : Type 0 where
  pub file_id : Bytes
  pub group_id : Bytes
  pub group_name : Bytes
  pub filename : Bytes
  pub size : ℕ
  pub created_at : ℤ
  pub owner : Bytes
  pub mode : Bytes
  pub encrypted : Bool

pub record ConfigPublic : Type 0 where
  pub nickname : Bytes
  pub public_host : Bytes
  pub public_port : ℤ
  pub contributed : ℤ

pub record Status : Type 0 where
  pub peer_id : Bytes
  pub nickname : Bytes
  pub data_dir : Bytes
  pub contributed : ℤ
  pub listen_addrs : List Bytes
  pub connected_peers : List Bytes
  pub groups : List GroupSummary

pub data ReplyBody : Type 0 where
  failed done no_password_set login_required : ReplyBody
  auth_state auth_token : Bytes → ReplyBody
  settings : ConfigPublic → ReplyBody
  groups : List GroupSummary → ReplyBody
  group : GroupSummary → ReplyBody
  files : List FileSummary → ReplyBody
  uploaded : Manifest → ReplyBody
  status : Status → ReplyBody
  link : Bytes → ReplyBody
  -- the id, the name and the number of members of the group that was joined
  joined : Bytes → Bytes → ℕ → ReplyBody
  entries : List Ledger.Entry → ReplyBody

pub record Reply : Type 0 where
  pub code : ℕ
  pub cookie : Option Bytes
  pub body : ReplyBody

-- A handler that panics has no reply.
abbrev pub panicked : Reply
panicked = record { code = 0; cookie = none; body = failed }

-- `writeJSON` and `writeErr`
abbrev pub write_json : ℕ → ReplyBody → Reply
write_json code body = record { code = code; cookie = none; body = body }

abbrev pub write_err : ℕ → Reply
write_err code = write_json code failed
