-- ===== src/Group/Membership.antt =====
-- What `VerifyMembership` accepts.
use fnshare.Prelude.{
  ◌≡◌, refl, ◌⊎◌, inl, inr, true, false, List, [], ◌∷◌, some, arith, length, ◌==◌, Bool-cases, ◌≢◌,
  when_some_inv,
}
use fnshare.Prelude.Bytes.{Bytes, codes, bytes_dec}
use fnshare.Group.{
  Group, Member, Payload, Header, Deps, admit_message, verify_membership, verify_admission,
  verify_invite, verify_invite_signature,
}
use fnshare.Prelude.Int.{ℤ}
use fnshare.Prelude.{ok}
use fnshare.Invite.{Invite, payload_of}
use fnshare.Invite
use mathlib.Core.List.{lookup}

-- The messages that the owner of a public key has signed.
abbrev pub Signed : Type 1
Signed = Bytes → Bytes → Type 0

-- Nobody but its owner makes a signature that verifies under a key.
abbrev pub Unforgeable : Deps → Signed → Type 0
Unforgeable d signed =
    (key message sig : Bytes) → d.ed25519.verify key message sig ≡ true → signed key message

-- The invite in `raw` is for the group and was signed by the admin.
abbrev pub Invited : Deps → Signed → Group → Bytes → Type 0
Invited d signed g raw =
    (h : Header) × (body : Payload) × (canonical : Bytes) × (d.invites.header raw ≡ some h)
    × (h.group_id ≡ g.id)
    × (d.invites.body raw ≡ some body)
    × (d.invites.marshal_payload body ≡ some canonical)
    × signed g.admin_pub canonical

module _ (d : Deps) (signed : Signed) (authentic : Unforgeable d signed) where
  verify_invite_signature-Signed :
      (raw admin_pub : Bytes)
      → verify_invite_signature d raw admin_pub ≡ true
      → (body : Payload) × (canonical : Bytes) × (d.invites.body raw ≡ some body)
        × (d.invites.marshal_payload body ≡ some canonical)
        × signed admin_pub canonical
  unfolding verify_invite_signature
  verify_invite_signature-Signed raw admin_pub h =
      let (full, _, h) = when_some_inv (d.invites.fields raw) _ h in
      let (sig_raw, _, h) = when_some_inv (lookup bytes_dec (codes "sig") full) _ h in
      let (sig, _, h) = when_some_inv (d.invites.bytes_value sig_raw) _ h in
      let (body, decoded, h) = when_some_inv (d.invites.body raw) _ h in
      let (canonical, marshalled, h) = when_some_inv (d.invites.marshal_payload body) _ h in
      (body, canonical, decoded, marshalled, authentic admin_pub canonical sig h)

  verify_invite-Invited :
      (g : Group) (raw : Bytes) → verify_invite d g raw ≡ true → Invited d signed g raw
  unfolding verify_invite
  verify_invite-Invited g raw h =
      let (header, decoded, h) = when_some_inv (d.invites.header raw) _ h in
      elim (bytes_dec header.group_id g.id) [
        | no p ↦ absurd (ground arith)
        | yes p ↦
            let (body, canonical, b, c, s) =
              verify_invite_signature-Signed raw g.admin_pub (ground arith) in
            (header, body, canonical, decoded, p, b, c, s)
      ]

  -- `VerifyMembership` accepts a member only if the admin of the group signed the admission of
  -- this peer at this time, or an invite to this group that the member comes with.
  pub verify_membership-Signed :
      (g : Group) (m : Member)
      → verify_membership d g m ≡ true
      → signed g.admin_pub (admit_message g.id m.peer_id m.joined_at)
        ⊎ Invited d signed g m.admission_invite
  unfolding verify_membership verify_admission
  verify_membership-Signed g m h =
      elim (Bool-cases (verify_admission d g m.peer_id m.joined_at m.admitted_by_sig)) [
        | inl admitted ↦ inl (authentic _ _ _ admitted)
        | inr other ↦ inr (verify_invite-Invited g m.admission_invite (ground arith))
      ]

-- A CBOR library that reads back what the invite package wrote.
pub record ReadsInvite (d : Deps) (i : Invite) (raw : Bytes) : Type 0 where
  pub header_read :
      d.invites.header raw
      ≡ some (record {
        group_id = i.group_id;
        group_admin_pub = i.group_admin_pub;
        signature = i.signature;
      })
  pub all_fields : List (Bytes × Bytes)
  pub fields_read : d.invites.fields raw ≡ some all_fields
  pub sig_raw : Bytes
  pub sig_read : lookup bytes_dec (codes "sig") all_fields ≡ some sig_raw
  pub sig_value : d.invites.bytes_value sig_raw ≡ some i.signature
  pub body_read : d.invites.body raw ≡ some (payload_of i)

module _ (d : Deps) where
  signature_accepted :
      (g : Group) (i : Invite) (raw : Bytes) (now : ℤ)
      → ReadsInvite d i raw
      → Invite.verify d now i ≡ ok tt
      → i.group_admin_pub ≡ g.admin_pub
      → verify_invite_signature d raw g.admin_pub ≡ true
  unfolding verify_invite_signature Invite.verify Invite.signed_bytes
  signature_accepted g i raw now reads valid same_admin =
      ground (arith, reads.fields_read, reads.sig_read, reads.sig_value, reads.body_read)

  nonempty : (raw : Bytes) → raw ≢ [] → (length raw == 0) ≡ false
  nonempty [] h = absurd (h refl)
  nonempty (c ∷ raw) h = ground arith

  -- One invite, in date or expired, that the admin signed for the group vouches for any peer: an
  -- entry with that invite is accepted whatever its peer, its time and its keys are.
  pub verify_membership_any_peer :
      (g : Group) (i : Invite) (raw : Bytes) (now : ℤ) (m : Member)
      → ReadsInvite d i raw
      → Invite.verify d now i ≡ ok tt
      → i.group_id ≡ g.id
      → i.group_admin_pub ≡ g.admin_pub
      → raw ≢ []
      → m.admission_invite ≡ raw
      → verify_membership d g m ≡ true
  unfolding verify_membership verify_invite
  verify_membership_any_peer g i raw now m reads valid same_group same_admin some_bytes kept =
      ground (
        arith,
        reads.header_read,
        signature_accepted g i raw now reads valid same_admin,
        kept,
        nonempty raw some_bytes,
      )
