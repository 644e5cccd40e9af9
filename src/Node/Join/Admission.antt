-- ===== src/Node/Join/Admission.antt =====
-- Whom `handleJoin` lets in, and what a refusal leaves behind.
use fnshare.Prelude.{
  ◌≡◌, refl, ◌≢◌, false, [], Option, none, some, arith, ok, err, Option-cases, Result-cases, inl,
  inr,
}
use fnshare.Prelude.Bytes.{Bytes}
use fnshare.Prelude.Int.{pos}
use fnshare.Prelude.Clock.{Time, unix}
use fnshare.Codec.{Codec}
use fnshare.Group
use fnshare.Group.{Group, Deps}
use fnshare.Invite
use fnshare.Invite.{Invite}
use fnshare.Node.Join.{
  JoinRequest, JoinResponse, JoinError, admission, joined, admit, handle_join, is_short,
}

module _ (d : Deps) (raw_invite : Codec Invite) where
  open d use {badger}

  admit_refused :
      (db : badger.Db) (g : Group) (req : JoinRequest) (inv : Invite) (remote address : Bytes)
      (now : Time) (e : JoinError)
      → (admit d raw_invite db g req inv remote address now).1 ≡ err e
      → (admit d raw_invite db g req inv remote address now).0 ≡ db
  unfolding admit
  admit_refused db g req inv remote address now e h = ground arith

  -- Whatever the reason of a refusal is, from a request that does not decode to a store that
  -- cannot be written, `handleJoin` leaves the store as it was.
  pub handle_join_refused :
      (db : badger.Db) (request : Option JoinRequest) (remote address : Bytes) (now : Time)
      (e : JoinError)
      → (handle_join d raw_invite db request remote address now).1 ≡ err e
      → (handle_join d raw_invite db request remote address now).0 ≡ db
  unfolding handle_join
  handle_join_refused db none remote address now e h = refl
  handle_join_refused db (some req) remote address now e h = elim (Option-cases req.invite) [
    | inl missing ↦ rw (missing, handle_join) refl
    | inr (inv, there) ↦ elim (Result-cases (Invite.verify d (unix now) inv)) [
      | inr (x, bad) ↦ ground arith
      | inl (_, good) ↦ elim (Result-cases (Group.load_by_id d db inv.group_id)) [
        | inr (x, unknown) ↦ ground arith
        | inl (g, found) ↦ ground (arith, admit_refused db g req inv remote address now e)
      ]
    ]
  ]

  -- A node that is no admin lets in everyone who brings an invite that is consistent in itself: if
  -- it names a group of this node and is signed under the key that it carries, the answer is the
  -- shared key of the group, although that key is not the key of the group's admin. Once that is sent
  -- the handler panics if the id of the group is shorter than 12 bytes.
  pub handle_join_any_signer :
      (db db' : badger.Db) (g : Group) (req : JoinRequest) (inv : Invite) (remote address : Bytes)
      (now : Time)
      → req.invite ≡ some inv
      → Invite.verify d (unix now) inv ≡ ok tt
      → Group.load_by_id d db inv.group_id ≡ ok g
      → g.is_admin_node ≡ false
      → inv.group_admin_pub ≢ g.admin_pub
      → Group.put_member d db g.id (joined d raw_invite g req inv remote address now []) ≡ ok db'
      → (resp : JoinResponse) × (handle_join d raw_invite db (some req) remote address now
          ≡ (db', ok resp, is_short g.id))
        × (resp.group_shared_key ≡ g.shared_key)
  unfolding handle_join admit admission
  handle_join_any_signer db db' g req inv remote address now i v l na other w = (
    record {
      group_id = g.id;
      group_name = g.name;
      group_admin = g.admin_pub;
      group_shared_key = g.shared_key;
      admission_at = pos 0;
      admit_sig = [];
      members = (Group.list_members d db' g.id).0;
    },
    ground arith,
    refl,
  )
