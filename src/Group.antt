-- ===== src/Group.antt =====
-- internal/group/group.go: the groups that this node belongs to, and their members.
-- Ed25519 is the parameter `Ed25519`, and the CBOR library the codecs and `InviteCbor` of `Deps`.
pub mod Membership
use fnshare.Prelude.{
  ℕ, ◌≡◌, refl, Bool, true, false, not, ◌&&◌, ◌||◌, List, [], ◌∷◌, ◌++◌, Option, none, some, arith,
  Result, ok, err, if◌then◌else◌, length, ◌==◌, ite, when_some,
}
use fnshare.Prelude.Int.{ℤ, pos}
use fnshare.Prelude.Bytes.{Bytes, codes, bytes_dec, has_prefix}
use fnshare.Prelude.Clock.{Time, unix_nano}
use fnshare.Prelude.Decimal.{decimal_ℤ}
use fnshare.Prelude.{drop}
use fnshare.Codec.{Codec}
use fnshare.Store.{Badger, StoreError, not_found}
use fnshare.Store
use mathlib.Core.List.{lookup}

pub record Group : Type 0 where
  pub id : Bytes
  pub name : Bytes
  pub admin_pub : Bytes
  pub admin_priv : Bytes
  pub created_at : Time
  pub is_admin_node : Bool
  pub shared_key : Bytes

pub record Member : Type 0 where
  pub peer_id : Bytes
  pub nickname : Bytes
  pub node_pub : Bytes
  pub enc_pub : Bytes
  pub contributed : ℤ
  pub joined_at : Time
  pub admitted_by_sig : Bytes
  pub last_addrs : List Bytes
  pub admission_invite : Bytes

-- The part of an invite that its signature covers: `signedPayload` here, and `payload` of the
-- invite package, which has the same fields and tags.
pub record Payload : Type 0 where
  pub group_id : Bytes
  pub group_name : Bytes
  pub group_admin_pub : Bytes
  pub group_shared_key : Bytes
  pub bootstrap_peers : List Bytes
  pub nonce : Bytes
  pub issued_at : ℤ
  pub expires_at : ℤ
  pub quota_cap : ℤ

-- The fields that `VerifyMembership` decodes first.
pub record Header : Type 0 where
  pub group_id : Bytes
  pub group_admin_pub : Bytes
  pub signature : Bytes

pub record Ed25519 : Type 0 where
  -- private key, message
  pub sign : Bytes → Bytes → Bytes
  -- public key, message, signature
  pub verify : Bytes → Bytes → Bytes → Bool

-- `cbor.Unmarshal` of an invite into the three types that this package gives it, and of a raw
-- field; `cbor.Marshal` of the payload.
pub record InviteCbor : Type 0 where
  pub header : Bytes → Option Header
  pub fields : Bytes → Option (List (Bytes × Bytes))
  pub bytes_value : Bytes → Option Bytes
  pub body : Bytes → Option Payload
  pub marshal_payload : Payload → Option Bytes

pub record Deps : Type 1 where
  pub badger : Badger
  pub groups : Codec Group
  pub members : Codec Member
  pub addresses : Codec (List Bytes)
  pub ed25519 : Ed25519
  pub invites : InviteCbor

abbrev pub group_key_prefix : Bytes
group_key_prefix = codes "group/"

abbrev pub member_key_prefix : Bytes
member_key_prefix = codes "member/"

abbrev pub bootstrap_key_prefix : Bytes
bootstrap_key_prefix = codes "bootstrap/"

unfoldable pub group_key : Bytes → Bytes
group_key gid = group_key_prefix ++ gid

unfoldable pub members_prefix : Bytes → Bytes
members_prefix gid = member_key_prefix ++ (gid ++ codes "/")

unfoldable pub member_key : Bytes → Bytes → Bytes
member_key gid pid = member_key_prefix ++ (gid ++ (codes "/" ++ pid))

unfoldable pub bootstrap_key : Bytes → Bytes
bootstrap_key gid = bootstrap_key_prefix ++ gid

pub data GroupError : Type 0 where
  no_group member_not_found not_admin marshal_failed unmarshal_failed : GroupError
  store : StoreError → GroupError

abbrev pub private_key_size : ℕ
private_key_size = 64

-- `admitMessage`
unfoldable pub admit_message : Bytes → Bytes → Time → Bytes
admit_message gid pid t =
    codes "fnshare-admit|"
    ++ (gid ++ (codes "|" ++ (pid ++ (codes "|" ++ decimal_ℤ (unix_nano t)))))

-- A `Get` whose missing key is an error of this package.
abbrev pub or_missing : GroupError → Result StoreError Bytes → Result GroupError Bytes
or_missing missing (ok raw) = ok raw
or_missing missing (err not_found) = err missing
or_missing missing (err (Store.badger e)) = err (store (Store.badger e))

-- `strings.SplitN(rest, "/", 2)`, if there are two parts.
unfoldable pub cut_slash : Bytes → Option (Bytes × Bytes)
cut_slash [] = none
cut_slash (c ∷ s) =
    if c == b'/'
    then some ([], s)
    else elim (cut_slash s) [ none ↦ none | some (a, r) ↦ some (c ∷ a, r) ]

module _ (d : Deps) where
  open d use {badger, groups, members, addresses, ed25519, invites}

  -- `Create`: `pub`, `priv` and `sk` come from the random source, `id` is `hex.EncodeToString(pub)`.
  unfoldable pub create : Bytes → Bytes → Bytes → Bytes → Bytes → Time → Group
  create id name pub_key priv_key sk now = record {
    id = id;
    name = name;
    admin_pub = pub_key;
    admin_priv = priv_key;
    created_at = now;
    is_admin_node = true;
    shared_key = sk;
  }

  -- `Save`
  unfoldable pub save : badger.Db → Group → Result GroupError badger.Db
  save db g = elim (groups.marshal g) [
    | none ↦ err marshal_failed
    | some raw ↦ elim (Store.put badger db (group_key g.id) raw) [
      | ok db' ↦ ok db'
      | err e ↦ err (store e)
    ]
  ]

  -- `LoadByID`
  unfoldable pub load_by_id : badger.Db → Bytes → Result GroupError Group
  load_by_id db gid = elim (or_missing no_group (Store.get badger db (group_key gid))) [
    | err e ↦ err e
    | ok raw ↦ elim (groups.unmarshal raw) [ none ↦ err unmarshal_failed | some g ↦ ok g ]
  ]

  -- `ListGroups`
  unfoldable pub list_groups : badger.Db → List Group × Option StoreError
  list_groups db =
      let visit : List Group → Bytes → Bytes → List Group × Bool = λ out _ v.
        elim (groups.unmarshal v) [ none ↦ (out, true) | some g ↦ (out ++ g ∷ [], true) ] in
      Store.iterate badger db group_key_prefix visit []

  -- `AdmitMember`
  unfoldable pub admit_member : Group → Bytes → Time → Result GroupError Bytes
  admit_member g pid joined_at =
      if length g.admin_priv == private_key_size
      then ok (ed25519.sign g.admin_priv (admit_message g.id pid joined_at))
      else err not_admin

  -- `VerifyAdmission`
  unfoldable pub verify_admission : Group → Bytes → Time → Bytes → Bool
  verify_admission g pid joined_at sig =
      ed25519.verify g.admin_pub (admit_message g.id pid joined_at) sig

  -- `verifyInviteSignature`
  unfoldable pub verify_invite_signature : Bytes → Bytes → Bool
  verify_invite_signature raw admin_pub = when_some (invites.fields raw) λ full.
      when_some (lookup bytes_dec (codes "sig") full) λ sig_raw.
        when_some (invites.bytes_value sig_raw) λ sig. when_some (invites.body raw) λ body.
          when_some (invites.marshal_payload body)
            λ canonical. ed25519.verify admin_pub canonical sig

  -- The part of `VerifyMembership` for an admission invite.
  unfoldable pub verify_invite : Group → Bytes → Bool
  verify_invite g raw = when_some (invites.header raw) λ inv.
      ite (bytes_dec inv.group_id g.id)
        (ite (bytes_dec inv.group_admin_pub g.admin_pub) (verify_invite_signature raw g.admin_pub)
          false)
        false

  -- `VerifyMembership`
  unfoldable pub verify_membership : Group → Member → Bool
  verify_membership g m =
      if not (length m.admitted_by_sig == 0)
        && verify_admission g m.peer_id m.joined_at m.admitted_by_sig
      then true
      else if length m.admission_invite == 0
      then false
      else verify_invite g m.admission_invite

  -- `PutMember`
  unfoldable pub put_member : badger.Db → Bytes → Member → Result GroupError badger.Db
  put_member db gid m = elim (members.marshal m) [
    | none ↦ err marshal_failed
    | some raw ↦ elim (Store.put badger db (member_key gid m.peer_id) raw) [
      | ok db' ↦ ok db'
      | err e ↦ err (store e)
    ]
  ]

  -- `GetMember`
  unfoldable pub get_member : badger.Db → Bytes → Bytes → Result GroupError Member
  get_member db gid pid =
      elim (or_missing member_not_found (Store.get badger db (member_key gid pid))) [
        | err e ↦ err e
        | ok raw ↦ elim (members.unmarshal raw) [ none ↦ err unmarshal_failed | some m ↦ ok m ]
      ]

  -- `ListMembers`
  unfoldable pub list_members : badger.Db → Bytes → List Member × Option StoreError
  list_members db gid =
      let visit : List Member → Bytes → Bytes → List Member × Bool = λ out _ v.
        elim (members.unmarshal v) [ none ↦ (out, true) | some m ↦ (out ++ m ∷ [], true) ] in
      Store.iterate badger db (members_prefix gid) visit []

  -- `AllMembersAcrossGroups`: the first entry of each peer. Go's order of the map is unspecified.
  unfoldable pub all_members_across_groups : badger.Db → Result StoreError (List (Bytes × Member))
  all_members_across_groups db =
      let visit : List (Bytes × Member) → Bytes → Bytes → List (Bytes × Member) × Bool = λ seen _ v.
        elim (members.unmarshal v) [
          | none ↦ (seen, true)
          | some m ↦ elim (lookup bytes_dec m.peer_id seen) [
            | some _ ↦ (seen, true)
            | none ↦ (seen ++ (m.peer_id, m) ∷ [], true)
          ]
        ] in
      let (seen, e) = Store.iterate badger db member_key_prefix visit [] in
      elim e [ none ↦ ok seen | some x ↦ err x ]

  -- `MemberOf`
  unfoldable pub member_of : badger.Db → Bytes → List Bytes × Option StoreError
  member_of db pid =
      let visit : List Bytes → Bytes → Bytes → List Bytes × Bool = λ gids k _.
        elim (cut_slash (drop (length member_key_prefix) k)) [
          | none ↦ (gids, true)
          | some (gid, rest) ↦ (ite (bytes_dec rest pid) (gids ++ gid ∷ []) gids, true)
        ] in
      Store.iterate badger db member_key_prefix visit []

  -- `SaveBootstrap`
  unfoldable pub save_bootstrap : badger.Db → Bytes → List Bytes → Result GroupError badger.Db
  save_bootstrap db gid addrs = elim (addresses.marshal addrs) [
    | none ↦ err marshal_failed
    | some raw ↦ elim (Store.put badger db (bootstrap_key gid) raw) [
      | ok db' ↦ ok db'
      | err e ↦ err (store e)
    ]
  ]

  -- `LoadBootstrap`: no addresses where none are saved.
  unfoldable pub load_bootstrap : badger.Db → Bytes → Result GroupError (List Bytes)
  load_bootstrap db gid = elim (Store.get badger db (bootstrap_key gid)) [
    | err e ↦ elim e [ not_found ↦ ok [] | Store.badger x ↦ err (store (Store.badger x)) ]
    | ok raw ↦ elim (addresses.unmarshal raw) [ none ↦ err unmarshal_failed | some a ↦ ok a ]
  ]

  -- `AllBootstrapAddrs`
  unfoldable pub all_bootstrap_addrs : badger.Db → List Bytes × Option StoreError
  all_bootstrap_addrs db =
      let visit : List Bytes → Bytes → Bytes → List Bytes × Bool = λ out _ v.
        elim (addresses.unmarshal v) [ none ↦ (out, true) | some a ↦ (out ++ a, true) ] in
      Store.iterate badger db bootstrap_key_prefix visit []
