-- ===== src/Node/Join.antt =====
-- internal/node/protocol.go: joining a group, and learning its members from other nodes.
-- Streams, JSON and deadlines are left out: a handler takes the decoded request, if there is one,
-- and returns the response. The clock, the remote peer and its address are arguments.
pub mod Admission
use fnshare.Prelude.{
  ℕ, ◌≡◌, refl, Bool, true, false, not, ◌&&◌, ◌||◌, List, [], ◌∷◌, ◌++◌, map, Option, none, some,
  arith, Result, ok, err, if◌then◌else◌, length, ltb, ◌==◌, ite,
}
use fnshare.Prelude.Int.{ℤ, pos}
use fnshare.Prelude.Bytes.{Bytes, codes, bytes_dec}
use fnshare.Prelude.Clock.{Time, unix_nano, unix}
use fnshare.Codec.{Codec}
use fnshare.Store.{StoreError}
use fnshare.Group
use fnshare.Group.{Group, Member, Deps, GroupError}
use fnshare.Invite
use fnshare.Invite.{Invite, InviteError}

pub record JoinRequest : Type 0 where
  pub invite : Option Invite
  pub nickname : Bytes
  pub contributed : ℤ
  pub node_pub : Bytes
  pub enc_pub : Bytes

pub data JoinError : Type 0 where
  decode_request invite_required : JoinError
  invite_invalid : InviteError → JoinError
  not_part_of_group : Bytes → JoinError
  admission_failed persist_failed : GroupError → JoinError

pub record JoinResponse : Type 0 where
  pub group_id : Bytes
  pub group_name : Bytes
  pub group_admin : Bytes
  pub group_shared_key : Bytes
  pub admission_at : ℤ
  pub admit_sig : Bytes
  pub members : List Member

-- `g.ID[:12]` in a log line panics for a shorter id.
abbrev pub is_short : Bytes → Bool
is_short id = ltb (length id) 12

-- The members as the handler sends them, and why the caller asks.
abbrev pub ListResult : Type 0
ListResult = List Member × Option StoreError

module _ (d : Deps) (raw_invite : Codec Invite) where
  open d use {badger}

  -- The signature that the response carries: only an admin node signs.
  unfoldable pub admission : Group → Bytes → Time → Result GroupError (ℤ × Bytes)
  admission g remote now =
      if g.is_admin_node
      then elim (Group.admit_member d g remote now) [
        | ok sig ↦ ok (unix_nano now, sig)
        | err e ↦ err e
      ]
      else ok (pos 0, [])

  -- The invite that a node which cannot sign keeps as the proof of admission.
  unfoldable pub kept_invite : Group → Invite → Bytes
  kept_invite g inv =
      if g.is_admin_node then [] else elim (raw_invite.marshal inv) [ none ↦ [] | some raw ↦ raw ]

  -- The new entry of the membership table.
  unfoldable pub joined : Group → JoinRequest → Invite → Bytes → Bytes → Time → Bytes → Member
  joined g req inv remote address now sig = record {
    peer_id = remote;
    nickname = req.nickname;
    node_pub = req.node_pub;
    enc_pub = req.enc_pub;
    contributed = req.contributed;
    joined_at = now;
    admitted_by_sig = sig;
    last_addrs = if length address == 0 then [] else address ∷ [];
    admission_invite = kept_invite g inv;
  }

  -- `handleJoin` from the lookup of the group on; the last part is whether it panics, which it can in
  -- the log line after the response is sent.
  unfoldable pub admit :
      badger.Db
      → Group
      → JoinRequest
      → Invite
      → Bytes
      → Bytes
      → Time
      → badger.Db × Result JoinError JoinResponse × Bool
  admit db g req inv remote address now = elim (admission g remote now) [
    | err e ↦ (db, err (admission_failed e), false)
    | ok (admitted_at, sig) ↦
        elim (Group.put_member d db g.id (joined g req inv remote address now sig)) [
          | err e ↦ (db, err (persist_failed e), false)
          | ok db' ↦ (
            db',
            ok (record {
              group_id = g.id;
              group_name = g.name;
              group_admin = g.admin_pub;
              group_shared_key = g.shared_key;
              admission_at = admitted_at;
              admit_sig = sig;
              members = (Group.list_members d db' g.id).0;
            }),
            is_short g.id,
          )
        ]
  ]

  -- `handleJoin`; no request is one that does not decode.
  unfoldable pub handle_join :
      badger.Db
      → Option JoinRequest
      → Bytes
      → Bytes
      → Time
      → badger.Db × Result JoinError JoinResponse × Bool
  handle_join db none remote address now = (db, err decode_request, false)
  handle_join db (some req) remote address now = elim req.invite [
    | none ↦ (db, err invite_required, false)
    | some inv ↦ elim (Invite.verify d (unix now) inv) [
      | err e ↦ (db, err (invite_invalid e), false)
      | ok _ ↦ elim (Group.load_by_id d db inv.group_id) [
        | err e ↦ (db, err (not_part_of_group inv.group_id), false)
        | ok g ↦ admit db g req inv remote address now
      ]
    ]
  ]
