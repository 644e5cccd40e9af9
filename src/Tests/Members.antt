-- ===== src/Tests/Members.antt =====
-- A node with one group in memory: a member with an admission, one with an invite, two joins.
use fnshare.Prelude.{
  ℕ, refl, ap, true, false, Bool, List, [], ◌∷◌, ◌++◌, Option, none, some, Result, ok, err, ◌≡◌,
  ◌⊎◌, arith, ite, if◌then◌else◌, ◌==◌, length, ◌≢◌,
}
use fnshare.Prelude.Int.{pos}
use fnshare.Prelude.Bytes.{Bytes, codes, bytes_dec}
use fnshare.Prelude.Clock.{Time, zero_time, at, unix}
use fnshare.Store.Memory.{MemoryDb, memory, empty_db, memory-BadgerLaws}
use fnshare.Group.{
  Group, Member, Payload, Header, Deps, admit_message, verify_membership, get_member, group_key,
}
use fnshare.Group.Membership.{
  Signed, Unforgeable, Invited, ReadsInvite, verify_membership-Signed, verify_membership_any_peer,
}
use fnshare.Invite.{Invite, payload_of}
use fnshare.Node.Join.{JoinRequest, JoinResponse, handle_join, invite_required}
use fnshare.Node.Join.Admission.{handle_join_refused, handle_join_any_signer}
use fnshare.Node.Members.{mem, merge_members}
use fnshare.Node.Members.Merge.{Proven, merge_members-Proven}
use fnshare.Tests.Instances.{only, only-ReadsBack, never, group_dec, member_dec, zeros, ones, signs}

-- A group whose admin has the key `zeros`, on a node that is no admin.
abbrev group : Group
group = record {
  id = codes "friends-of-al";
  name = codes "friends";
  admin_pub = zeros;
  admin_priv = [];
  created_at = zero_time;
  is_admin_node = false;
  shared_key = codes "shared";
}

abbrev bob : Member
bob = record {
  peer_id = codes "bob";
  nickname = codes "Bob";
  node_pub = [];
  enc_pub = [];
  contributed = pos 0;
  joined_at = at 5;
  admitted_by_sig = codes "sig";
  last_addrs = [];
  admission_invite = [];
}

-- An invite that the owner of a key signed; eve signs with the key `ones`.
abbrev invite : Bytes → Invite
invite key = record {
  group_id = codes "friends-of-al";
  group_name = codes "friends";
  group_admin_pub = key;
  group_shared_key = [];
  bootstrap_peers = [];
  nonce = [];
  issued_at = pos 0;
  expires_at = pos 10;
  quota_cap = pos 0;
  signature = codes "sig";
}

-- The codecs and keys, where one key has signed one text.
abbrev deps : Bytes → Bytes → Member → Deps
deps owner text member = record {
  badger = memory;
  groups = only group_dec (λ g. g) group (codes "group");
  members = only member_dec (λ m. m) member (codes "member");
  addresses = never;
  ed25519 = record {
    sign = λ key message. codes "sig";
    verify = λ key message sig. signs owner text key message;
  };
  invites = record {
    header = λ raw. some (record {
      group_id = codes "friends-of-al";
      group_admin_pub = zeros;
      signature = codes "sig";
    });
    fields = λ raw. some ((codes "sig", codes "raw sig") ∷ []);
    bytes_value = λ raw. some (codes "sig");
    body = λ raw. some (payload_of (invite zeros));
    marshal_payload = λ p. some (codes "payload");
  };
}

abbrev signed_by : Bytes → Bytes → Signed
signed_by owner text = λ key message. Unit {0} × (key ≡ owner) × (message ≡ text)

authentic :
    (owner text : Bytes) (m : Member) → Unforgeable (deps owner text m) (signed_by owner text)
unfolding signs
authentic owner text m key message sig h = (tt, ground arith, ground arith)

-- The admin admitted bob.
abbrev admission_text : Bytes
admission_text = admit_message (codes "friends-of-al") (codes "bob") (at 5)

abbrev admitting : Deps
admitting = deps zeros admission_text bob

verify_membership-Signed_example :
    signed_by zeros admission_text zeros admission_text
    ⊎ Invited admitting (signed_by zeros admission_text) group []
unfolding verify_membership fnshare.Group.verify_admission signs bytes_dec admit_message
    fnshare.Prelude.Decimal.decimal_ℤ fnshare.Prelude.Clock.unix_nano
verify_membership-Signed_example =
    verify_membership-Signed admitting (signed_by zeros admission_text)
      (authentic zeros admission_text bob) group bob refl

-- Eve shows an invite that the admin gave to somebody.
abbrev eve : Member
eve = record bob { peer_id = codes "eve"; admission_invite = codes "raw"; admitted_by_sig = [] }

reads : ReadsInvite (deps zeros (codes "payload") eve) (invite zeros) (codes "raw")
unfolding mathlib.Core.List.lookup bytes_dec
reads = record {
  header_read = refl;
  all_fields = (codes "sig", codes "raw sig") ∷ [];
  fields_read = refl;
  sig_raw = codes "raw sig";
  sig_read = refl;
  sig_value = refl;
  body_read = refl;
}

verify_membership_any_peer_example :
    verify_membership (deps zeros (codes "payload") eve) group eve ≡ true
unfolding fnshare.Invite.verify fnshare.Invite.signed_bytes signs bytes_dec
verify_membership_any_peer_example =
    verify_membership_any_peer (deps zeros (codes "payload") eve) group (invite zeros) (codes "raw")
      (pos 3) eve reads refl refl refl (λ e. cc) refl

merge_members-Proven_example :
    (get_member admitting
        (merge_members admitting group (codes "me") (bob ∷ []) empty_db (codes "al" ∷ [])).0
        (codes "friends-of-al")
        (codes "bob")
      ≡ get_member admitting empty_db (codes "friends-of-al") (codes "bob"))
    ⊎ (Proven admitting memory-BadgerLaws group (codes "bob") (bob ∷ [])
        × (mem (codes "bob") (codes "al" ∷ []) ≡ false)
        × (codes "bob" ≢ codes "me"))
merge_members-Proven_example =
    merge_members-Proven admitting memory-BadgerLaws group (codes "me") (bob ∷ []) empty_db
      (codes "al" ∷ []) (codes "bob")

abbrev no_invite : JoinRequest
no_invite = record {
  invite = none;
  nickname = codes "Eve";
  contributed = pos 0;
  node_pub = [];
  enc_pub = [];
}

handle_join_refused_example :
    (handle_join admitting never empty_db (some no_invite) (codes "eve") [] (at 5)).0 ≡ empty_db
unfolding handle_join
handle_join_refused_example =
    handle_join_refused admitting never empty_db (some no_invite) (codes "eve") [] (at 5)
      invite_required refl

-- Eve signs an invite to the group under a key of her own.
abbrev joined_eve : Member
joined_eve = record bob { peer_id = codes "eve"; nickname = codes "Eve"; admitted_by_sig = [] }

abbrev forging : Deps
forging = deps ones (codes "payload") joined_eve

abbrev forged : JoinRequest
forged = record no_invite { invite = some (invite ones) }

abbrev with_group : MemoryDb
with_group = record empty_db { entries = (codes "group/friends-of-al", codes "group") ∷ [] }

abbrev with_eve : MemoryDb
with_eve = record empty_db {
  entries =
      (codes "group/friends-of-al", codes "group")
      ∷ (codes "member/friends-of-al/eve", codes "member")
      ∷ [];
}

handle_join_any_signer_example :
    (resp : JoinResponse) × (handle_join forging never with_group
        (some forged)
        (codes "eve")
        []
        (at 5)
      ≡ (with_eve, ok resp, false))
    × (resp.group_shared_key ≡ codes "shared")
unfolding fnshare.Invite.verify unix fnshare.Invite.signed_bytes signs bytes_dec
    fnshare.Group.load_by_id fnshare.Store.get fnshare.Store.Memory.read mathlib.Core.List.lookup
    group_key fnshare.Tests.Instances.only_unmarshal fnshare.Group.put_member
    fnshare.Tests.Instances.only_marshal member_dec fnshare.Node.Join.joined
    fnshare.Prelude.Paths.path_dec fnshare.Node.Join.kept_invite fnshare.Group.member_key payload_of
    fnshare.Store.put fnshare.Tests.Instances.time_dec fnshare.Tests.Instances.ℤ_dec
    fnshare.Prelude.ℕ_discrete fnshare.Store.Memory.write fnshare.Prelude.Assoc.insert
handle_join_any_signer_example =
    handle_join_any_signer forging never with_group with_eve group forged (invite ones)
      (codes "eve") [] (at 5) refl refl refl refl (λ e. cc) refl
