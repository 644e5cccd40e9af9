-- ===== src/Api/Joining.antt =====
-- internal/api/server.go: the handlers that invite to a group and join one.
use fnshare.Prelude.{
  ℕ, ◌*◌, ◌/◌, Bool, List, [], ◌∷◌, ◌++◌, Option, none, some, ok, err, if◌then◌else◌, length, ltb,
  ◌==◌, not,
}
use fnshare.Prelude.Int.{ℤ, pos, negsuc, ◌+ℤ◌, ◌*ℤ◌, pos_part}
use fnshare.Prelude.Int64.{wrap64}
use fnshare.Prelude.Bytes.{Bytes, codes}
use fnshare.Prelude.Decimal.{decimal_ℤ}
use fnshare.Group
use fnshare.Group.{Group}
use fnshare.Invite
use fnshare.Node.Join.{JoinResponse}
use fnshare.Node.Members.{join_via_peer}
use fnshare.Api.{Deps, Server, Reply, link, joined, panicked, write_json, write_err}
use fnshare.Api.Handlers.{port_or_default}

pub record InviteRequest : Type 0 where
  pub group_id : Bytes
  pub bootstrap : List Bytes
  pub ttl_hours : ℤ
  pub quota_gb : ℤ

-- `Unix()` of nanoseconds since 1970.
abbrev whole_seconds : ℤ → ℤ
whole_seconds (pos n) = pos (n / 1000000000)
whole_seconds (negsuc n) = negsuc (n / 1000000000)

-- `time.Duration(hours) * time.Hour`, or three days for zero.
unfoldable pub ttl_of : ℤ → ℤ
ttl_of hours =
    let ttl = wrap64 (hours *ℤ pos 3600000000000) in if pos_part ttl == 0 then zero_or ttl else ttl
  where
    zero_or : ℤ → ℤ
    zero_or (pos n) = pos (72 * 3600000000000)
    zero_or (negsuc n) = negsuc n

unfoldable pub quota_of : ℤ → ℤ
quota_of gb = if pos_part gb == 0 then pos 0 else wrap64 (gb *ℤ pos (1024 * 1024 * 1024))

module _ (d : Deps) where
  -- The address from the settings, where the request has none.
  unfoldable pub bootstrap_of : Server d → List Bytes → Option (List Bytes)
  bootstrap_of s given =
      if not (length given == 0)
      then some given
      else if length s.cfg.public_host == 0
      then none
      else some (
          (codes "/dns4/"
            ++ (s.cfg.public_host
                ++ (codes "/tcp/"
                    ++ (decimal_ℤ (port_or_default s.cfg.public_port)
                        ++ (codes "/p2p/" ++ d.files.identity.self)))))
          ∷ [])

  -- The group to invite to: the one of the request, or the only one.
  unfoldable pub group_of : Server d → Bytes → Option Bytes
  group_of s gid =
      if not (length gid == 0)
      then some gid
      else elim (Group.list_groups d.files.deps s.node.db).0 [
        | [] ↦ none
        | g ∷ rest ↦ elim rest [ [] ↦ some g.id | h ∷ more ↦ none ]
      ]

  -- `handleInvite` for a group of which this node is the admin; `now` is in nanoseconds, and
  -- `random` the nonce.
  unfoldable pub send_invite :
      ℕ → Option Bytes → Group → List Bytes → InviteRequest → Server d → Server d × Reply
  send_invite now random g bootstrap req s =
      elim (Invite.create d.files.deps g bootstrap random (whole_seconds (pos now))
        (whole_seconds (pos now +ℤ ttl_of req.ttl_hours)) (quota_of req.quota_gb)) [
          | err e ↦ (s, write_err 500)
          | ok inv ↦ elim (Invite.encode d.files.deps d.formats inv) [
            | err e ↦ (s, write_err 500)
            | ok text ↦ (s, write_json 200 (link text))
          ]
        ]

  -- `handleInvite`
  unfoldable pub handle_invite :
      ℕ → Option Bytes → Option InviteRequest → Server d → Server d × Reply
  handle_invite now random none s = (s, write_err 400)
  handle_invite now random (some req) s = elim (bootstrap_of s req.bootstrap) [
    | none ↦ (s, write_err 400)
    | some bootstrap ↦ elim (group_of s req.group_id) [
      | none ↦ (s, write_err 400)
      | some gid ↦ elim (Group.load_by_id d.files.deps s.node.db gid) [
        | err e ↦ (s, write_err 404)
        | ok g ↦
            if not g.is_admin_node
            then (s, if ltb (length gid) 12 then panicked else write_err 403)
            else send_invite now random g bootstrap req s
      ]
    ]
  ]

  -- `handleJoinGroup` once the invite is decoded: whether a bootstrap peer was reached, and its
  -- response, none where it fails or refuses.
  unfoldable pub join_group :
      Bool → Option JoinResponse → Invite.Invite → Server d → Server d × Reply
  join_group reached response inv s = elim (Group.load_by_id d.files.deps s.node.db inv.group_id) [
    | ok existing ↦ (s, write_err 409)
    | err e ↦ if not reached then (s, write_err 502) else elim response [
      | none ↦ (s, write_err 500)
      | some resp ↦
          let (db, failed) = join_via_peer d.files.deps inv resp s.node.db in
          let s' : Server d = record s { node = record s.node { db = db } } in
          elim failed [
            | some x ↦ (s', write_err 500)
            | none ↦ elim (Group.save_bootstrap d.files.deps db inv.group_id inv.bootstrap_peers) [
              | err x ↦ (s', write_err 500)
              | ok db' ↦ (
                record s { node = record s.node { db = db' } },
                write_json 200 (joined resp.group_id resp.group_name (length resp.members)),
              )
            ]
          ]
    ]
  ]

  -- `handleJoinGroup`, at `now` in Unix seconds.
  unfoldable pub handle_join_group :
      ℤ → Bool → Option JoinResponse → Option Bytes → Server d → Server d × Reply
  handle_join_group now reached response none s = (s, write_err 400)
  handle_join_group now reached response (some text) s =
      elim (Invite.decode d.files.deps d.formats now text) [
        | err e ↦ (s, write_err 400)
        | ok inv ↦ join_group reached response inv s
      ]
