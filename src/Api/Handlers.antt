-- ===== src/Api/Handlers.antt =====
-- internal/api/server.go: the handlers behind the gate that show and change settings, groups and
-- files; that of a download is not shown.
use fnshare.Prelude.{
  true, false, List, [], ◌∷◌, map, Option, none, some, ok, err, if◌then◌else◌, length, ◌==◌, ite,
  not,
}
use fnshare.Prelude.Int.{ℤ, pos, negsuc}
use fnshare.Prelude.Bytes.{Bytes, codes, bytes_dec}
use fnshare.Prelude.Clock.{Time, zero_time, unix}
use fnshare.Prelude.Assoc.{insert}
use fnshare.Blockstore.{Disk}
use fnshare.Config
use fnshare.Config.{Config, Writing}
use fnshare.Group
use fnshare.Group.{Group, Member}
use fnshare.Ledger
use fnshare.Ledger.{Entry}
use fnshare.Manifest.{Manifest}
use fnshare.File.Keys.{list_files}
use fnshare.File.Put.{PutOptions, Draws, Answers, Body, put}
use fnshare.Api.{
  Deps, Server, MemberSummary, GroupSummary, FileSummary, Reply, settings, groups, group, files,
  uploaded, entries, status, write_json, write_err,
}
use mathlib.Core.List.{lookup}

-- The four keys of `group.Create`: the id in hex, the two keys of the admin, and the shared key.
pub record NewKeys : Type 0 where
  pub id : Bytes
  pub public : Bytes
  pub private : Bytes
  pub shared : Bytes

abbrev pub port_or_default : ℤ → ℤ
port_or_default (pos n) = if n == 0 then pos 4001 else pos n
port_or_default (negsuc n) = negsuc n

-- The rows by their peer; a later one replaces an earlier one.
unfoldable pub by_peer : List (Bytes × Entry) → List Entry → List (Bytes × Entry)
by_peer rows [] = rows
by_peer rows (e ∷ es) = by_peer (insert bytes_dec e.peer_id e rows) es

-- The names of the groups by their id.
unfoldable pub names_of : List (Bytes × Bytes) → List Group → List (Bytes × Bytes)
names_of names [] = names
names_of names (g ∷ gs) = names_of (insert bytes_dec g.id g.name names) gs

module _ (d : Deps) where
  abbrev db_of : Server d → d.files.deps.badger.Db
  db_of s = s.node.db

  -- `handleGetConfig`
  unfoldable pub handle_get_config : Server d → Server d × Reply
  handle_get_config s = (
    s,
    write_json 200 (
        settings (record {
          nickname = s.cfg.nickname;
          public_host = s.cfg.public_host;
          public_port = port_or_default s.cfg.public_port;
          contributed = s.cfg.contributed_bytes;
        })),
  )

  abbrev or_kept {ℓ} : {A : Type ℓ} → Option A → A → A
  or_kept none a = a
  or_kept (some b) a = b

  -- `handlePatchConfig`: the settings are changed also where they cannot be saved.
  unfoldable pub handle_patch_config :
      Writing → Option (Option Bytes × Option ℤ) → Server d → Server d × Reply
  handle_patch_config disk none s = (s, write_err 400)
  handle_patch_config disk (some (host, port)) s =
      let cfg : Config = record s.cfg {
        public_host = or_kept host s.cfg.public_host;
        public_port = or_kept port s.cfg.public_port;
      } in
      let s' : Server d = record s { cfg = cfg } in
      elim (Config.save d.yaml disk cfg) [
        | err e ↦ (s', write_err 500)
        | ok raw ↦ handle_get_config (record s' { config_file = raw })
      ]

  -- A row of `membersWithLiveness`.
  unfoldable pub member_summary : List (Bytes × Entry) → Member → MemberSummary
  member_summary rows m =
      let unknown : MemberSummary = record {
        peer_id = m.peer_id;
        nickname = m.nickname;
        contributed = m.contributed;
        joined_at = m.joined_at;
        is_online = false;
        reputation = pos 0;
        offline_since = zero_time;
      } in
      ite (bytes_dec m.peer_id d.files.identity.self)
        (record unknown { is_online = true; reputation = pos 100 })
        (elim (lookup bytes_dec m.peer_id rows) [
          | none ↦ unknown
          | some e ↦ record unknown {
            is_online = e.is_online;
            reputation = e.reputation;
            offline_since = e.offline_since;
          }
        ])

  -- `membersWithLiveness`
  unfoldable pub members_with_liveness : Server d → Bytes → List MemberSummary
  members_with_liveness s gid =
      let members = (Group.list_members d.files.deps (db_of s) gid).0 in
      let rows =
        if s.node.has_ledger
        then elim (Ledger.all d.files.deps.badger d.files.entries (db_of s) s.node.dirty) [
          | ok es ↦ by_peer [] es
          | err e ↦ []
        ]
        else [] in
      map (member_summary rows) members

  abbrev summary_of : Server d → Group → GroupSummary
  summary_of s g = record {
    id = g.id;
    name = g.name;
    is_admin = g.is_admin_node;
    members = members_with_liveness s g.id;
  }

  -- `handleListGroups`
  unfoldable pub handle_list_groups : Server d → Server d × Reply
  handle_list_groups s =
      let (gs, e) = Group.list_groups d.files.deps (db_of s) in
      elim e [
        | some x ↦ (s, write_err 500)
        | none ↦ (s, write_json 200 (groups (map (summary_of s) gs)))
      ]

  abbrev pub with_db : Server d → d.files.deps.badger.Db → Server d
  with_db s db = record s { node = record s.node { db = db } }

  -- This node as the first member of a group.
  abbrev pub self_member : Server d → Time → Bytes → Bytes → Member
  self_member s now raw sig = record {
    peer_id = d.files.identity.self;
    nickname = s.cfg.nickname;
    node_pub = raw;
    enc_pub = d.files.identity.enc_pub;
    contributed = s.cfg.contributed_bytes;
    joined_at = now;
    admitted_by_sig = sig;
    last_addrs = [];
    admission_invite = [];
  }

  -- `handleCreateGroup` once the group is saved.
  unfoldable pub add_self : Time → Group → Server d → Server d × Reply
  add_self now g s = elim d.raw_pub_key [
    | none ↦ (s, write_err 500)
    | some raw ↦ elim (Group.admit_member d.files.deps g d.files.identity.self now) [
      | err e ↦ (s, write_err 500)
      | ok sig ↦ elim (Group.put_member d.files.deps (db_of s) g.id (self_member s now raw sig)) [
        | err e ↦ (s, write_err 500)
        | ok db ↦ (
          with_db s db,
          write_json 200
              (group (record { id = g.id; name = g.name; is_admin = true; members = [] })),
        )
      ]
    ]
  ]

  -- `handleCreateGroup`, with the time at which `group.Create` reads the clock and the time of the
  -- admission; no keys where the random source fails.
  unfoldable pub handle_create_group :
      Time → Time → Option NewKeys → Option Bytes → Server d → Server d × Reply
  handle_create_group created now keys none s = (s, write_err 400)
  handle_create_group created now keys (some name) s =
      if length name == 0 then (s, write_err 400) else elim keys [
        | none ↦ (s, write_err 500)
        | some k ↦
            let g = Group.create d.files.deps k.id name k.public k.private k.shared created in
            elim (Group.save d.files.deps (db_of s) g) [
              | err e ↦ (s, write_err 500)
              | ok db ↦ add_self now g (with_db s db)
            ]
      ]

  -- A row of `handleListFiles`.
  unfoldable pub file_summary : List (Bytes × Bytes) → Manifest → FileSummary
  file_summary names m = record {
    file_id = m.file_id;
    group_id = m.group_id;
    group_name = elim (lookup bytes_dec m.group_id names) [ none ↦ [] | some name ↦ name ];
    filename = m.filename;
    size = m.size;
    created_at = unix m.created_at;
    owner = m.owner_peer_id;
    mode = m.mode;
    encrypted = m.filename_encrypted;
  }

  -- `handleListFiles`
  unfoldable pub handle_list_files : Server d → Server d × Reply
  handle_list_files s =
      let (gs, e) = Group.list_groups d.files.deps (db_of s) in
      let names : List (Bytes × Bytes) = elim e [ some x ↦ [] | none ↦ names_of [] gs ] in
      if not d.has_files
      then (s, write_json 200 (files []))
      else elim (list_files d.files.deps.badger d.files.names d.files.manifests (db_of s)
          d.files.identity.self) [
            | err x ↦ (s, write_err 500)
            | ok ms ↦ (s, write_json 200 (files (map (file_summary names) ms)))
          ]

  -- `handleUpload`
  unfoldable pub handle_upload :
      Time → Disk → Draws → Answers → Bytes → PutOptions → Body → Server d → Server d × Reply
  handle_upload now disk draws answers name opts body s =
      let filename = if length name == 0 then codes "unnamed" else name in
      let (node, r) = put d.files now disk draws answers filename body opts s.node in
      let s' : Server d = record s { node = node } in
      if not d.has_files
      then (s, write_err 503)
      else elim r [ err e ↦ (s', write_err 500) | ok m ↦ (s', write_json 200 (uploaded m)) ]

  -- `handleLedger`
  unfoldable pub handle_ledger : Server d → Server d × Reply
  handle_ledger s =
      if not s.node.has_ledger
      then (s, write_json 200 (entries []))
      else elim (Ledger.all d.files.deps.badger d.files.entries (db_of s) s.node.dirty) [
        | err e ↦ (s, write_err 500)
        | ok es ↦ (s, write_json 200 (entries es))
      ]

  -- `handleStatus`, with the addresses and the peers that the host reports.
  unfoldable pub handle_status : List Bytes → List Bytes → Server d → Server d × Reply
  handle_status addrs peers s = (
    s,
    write_json 200 (
        status (record {
          peer_id = d.files.identity.self;
          nickname = s.cfg.nickname;
          data_dir = s.cfg.data_dir;
          contributed = s.cfg.contributed_bytes;
          listen_addrs = addrs;
          connected_peers = peers;
          groups = map (summary_of s) (Group.list_groups d.files.deps (db_of s)).0;
        })),
  )
