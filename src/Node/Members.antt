-- ===== src/Node/Members.antt =====
-- internal/node/protocol.go: serving the membership table, and merging those of other nodes.
-- What the connected peers answer is an argument: the reply of each to `FetchMembersFrom`.
pub mod Merge
use fnshare.Prelude.{
  ℕ, ◌≡◌, refl, Bool, true, false, not, ◌&&◌, ◌||◌, List, [], ◌∷◌, ◌++◌, map, Option, none, some,
  arith, Result, ok, err, if◌then◌else◌, length, ltb, ◌==◌, ite,
}
use fnshare.Prelude.Bytes.{Bytes, codes, bytes_dec}
use fnshare.Prelude.Clock.{zero_time}
use fnshare.Store.{StoreError}
use fnshare.Group
use fnshare.Group.{Group, Member, Deps, GroupError}
use fnshare.Invite.{Invite}
use fnshare.Node.Join.{JoinResponse, is_short}

pub data MembersReply : Type 0 where
  decode_failed group_id_required not_in_group : MembersReply
  list_failed : StoreError → MembersReply
  members_of : Bytes → List Member → MembersReply
  -- `req.GroupID[:12]` of a shorter text
  fault : MembersReply

abbrev pub mem : Bytes → List Bytes → Bool
mem p [] = false
mem p (q ∷ known) = ite (bytes_dec p q) true (mem p known)

module _ (d : Deps) where
  open d use {badger}

  -- `handleMembers`; no request is one that does not decode.
  unfoldable pub handle_members : badger.Db → Option Bytes → MembersReply
  handle_members db none = decode_failed
  handle_members db (some gid) =
      if length gid == 0 then group_id_required else elim (Group.load_by_id d db gid) [
        | err e ↦ if ltb (length gid) 12 then fault else not_in_group
        | ok g ↦
            let (members, e) = Group.list_members d db gid in
            elim e [ some x ↦ list_failed x | none ↦ members_of gid members ]
      ]

  -- What `SyncGroupMembers` does with one member that a peer sent; the last part is whether the log
  -- line panics.
  unfoldable pub merge_member :
      Group → Bytes → Member → badger.Db → List Bytes → badger.Db × List Bytes × Bool
  merge_member g self m db known =
      if mem m.peer_id known || ite (bytes_dec m.peer_id self) true false
      then (db, known, false)
      else if not (Group.verify_membership d g m)
      then (db, known, is_short g.id)
      else elim (Group.put_member d db g.id m) [
        | err e ↦ (db, known, is_short g.id)
        | ok db' ↦ (db', m.peer_id ∷ known, is_short g.id)
      ]

  -- The loop over the members that one peer sent: the store, who is known, and whether it panicked.
  unfoldable pub merge_members :
      Group → Bytes → List Member → badger.Db → List Bytes → badger.Db × List Bytes × Bool
  merge_members g self [] db known = (db, known, false)
  merge_members g self (m ∷ members) db known =
      let next = merge_member g self m db known in
      let rest = merge_members g self members next.0 next.1 in if next.2 then next else rest

  -- The loop over the connected peers: no members where the fetch failed.
  unfoldable pub merge_replies :
      Group
      → Bytes
      → List (Option (List Member))
      → badger.Db
      → List Bytes
      → badger.Db × List Bytes × Bool
  merge_replies g self [] db known = (db, known, false)
  merge_replies g self (none ∷ replies) db known = merge_replies g self replies db known
  merge_replies g self (some members ∷ replies) db known =
      let next = merge_members g self members db known in
      let rest = merge_replies g self replies next.0 next.1 in if next.2 then next else rest

  -- The peers that the table of a group has, where it can be listed.
  unfoldable pub known_in : badger.Db → Group → List Bytes
  known_in db g =
      let (members, e) = Group.list_members d db g.id in
      elim e [ none ↦ map (λ (m : Member). m.peer_id) members | some x ↦ [] ]

  -- `SyncGroupMembers`, and whether it panicked: `reply` gives the answers of the connected peers for
  -- a group. The last log line of a group is reached only after one that cuts the same id.
  unfoldable pub sync_groups :
      List Group → Bytes → (Bytes → List (Option (List Member))) → badger.Db → badger.Db × Bool
  sync_groups [] self reply db = (db, false)
  sync_groups (g ∷ groups) self reply db =
      let next = merge_replies g self (reply g.id) db (known_in db g) in
      let rest = sync_groups groups self reply next.0 in if next.2 then (next.0, true) else rest

  unfoldable pub sync_group_members :
      Bytes → (Bytes → List (Option (List Member))) → badger.Db → badger.Db × Bool
  sync_group_members self reply db =
      let (groups, e) = Group.list_groups d db in
      elim e [ some x ↦ (db, false) | none ↦ sync_groups groups self reply db ]

  -- The loop of `JoinViaPeer` over the members; one that cannot be stored is skipped.
  unfoldable pub put_members : Bytes → List Member → badger.Db → badger.Db
  put_members gid [] db = db
  put_members gid (m ∷ members) db =
      put_members gid members (elim (Group.put_member d db gid m) [ ok db' ↦ db' | err e ↦ db ])

  -- The group that `JoinViaPeer` installs.
  unfoldable pub installed : Invite → JoinResponse → Group
  installed inv resp = record {
    id = resp.group_id;
    name = resp.group_name;
    admin_pub = resp.group_admin;
    admin_priv = [];
    created_at = zero_time;
    is_admin_node = false;
    shared_key =
        if length inv.group_shared_key == 0 then resp.group_shared_key else inv.group_shared_key;
  }

  -- `JoinViaPeer`, from the response of the peer on.
  unfoldable pub join_via_peer : Invite → JoinResponse → badger.Db → badger.Db × Option GroupError
  join_via_peer inv resp db = elim (Group.save d db (installed inv resp)) [
    | err e ↦ (db, some e)
    | ok db' ↦ (put_members resp.group_id resp.members db', none)
  ]
