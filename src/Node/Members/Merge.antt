-- ===== src/Node/Members/Merge.antt =====
-- What a round of member sync can change.
use fnshare.Prelude.{
  ◌≡◌, refl, ap, sym, ◌∙◌, ◌≢◌, ◌⊎◌, Bool, true, false, List, [], ◌∷◌, arith, ok, Option-cases,
  Result-cases, Bool-cases, inl, inr,
}
use fnshare.Prelude.Bytes.{Bytes, codes, bytes_dec, append-injective_left}
use fnshare.Store.{Badger, BadgerLaws}
use fnshare.Store
use fnshare.Group
use fnshare.Group.{Group, Member, Deps, member_key, get_member, put_member}
use fnshare.Node.Members.{mem, merge_member, merge_members}

member_key-injective : (gid p q : Bytes) → member_key gid p ≡ member_key gid q → p ≡ q
unfolding member_key
member_key-injective gid p q e =
    append-injective_left (codes "/") p q
      (append-injective_left gid _ _ (append-injective_left Group.member_key_prefix _ _ e))

true_and_false : {b : Bool} → b ≡ true → b ≡ false → ⊥
true_and_false p q = ground arith

module _ (d : Deps) (laws : BadgerLaws d.badger) where
  open d use {badger}

  get_member-put_member_ne :
      (db db' : badger.Db) (gid p : Bytes) (m : Member)
      → put_member d db gid m ≡ ok db'
      → p ≢ m.peer_id
      → get_member d db' gid p ≡ get_member d db gid p
  unfolding put_member get_member
  get_member-put_member_ne db db' gid p m w ne = elim (Option-cases (d.members.marshal m)) [
    | inl none_made ↦ absurd (ground arith)
    | inr (raw, made) ↦ rw (
      Store.get-put_ne badger laws db db' (member_key gid m.peer_id) (member_key gid p) raw
          (ground arith) (λ k. ne (member_key-injective gid p m.peer_id k)),
      get_member,
    )
  ]

  -- What one member of a reply does to the entry of the peer `p`: nothing, or it is a new peer
  -- that comes with a valid proof of admission. Who is known stays known.
  abbrev Kept : Group → Bytes → Member → badger.Db → List Bytes → Bytes → Type 0
  Kept g self m db known p =
      let next = merge_member d g self m db known in
      ((get_member d next.0 g.id p ≡ get_member d db g.id p)
        ⊎ ((m.peer_id ≡ p)
            × (Group.verify_membership d g m ≡ true)
            × (mem p known ≡ false)
            × (p ≢ self)))
      × (mem p known ≡ true → mem p next.1 ≡ true)

  merge_member-Kept :
      (g : Group) (self : Bytes) (m : Member) (db : badger.Db) (known : List Bytes) (p : Bytes)
      → Kept g self m db known p
  unfolding merge_member
  merge_member-Kept g self m db known p = elim (Result-cases (put_member d db g.id m)) [
    | inr (e, w) ↦ (inl (ground arith), λ k. ground arith)
    | inl (db', w) ↦ elim (bytes_dec p m.peer_id) [
      | no q ↦
          (inl (ground (arith, get_member-put_member_ne db db' g.id p m w q)), λ k. ground arith)
      | yes q ↦ elim (Bool-cases (mem m.peer_id known)) [
        | inl old ↦ (inl (ground arith), λ k. ground arith)
        | inr new ↦ elim (bytes_dec m.peer_id self) [
          | yes me ↦ (inl (ground arith), λ k. ground arith)
          | no other ↦ elim (Bool-cases (Group.verify_membership d g m)) [
            | inr forged ↦ (inl (ground arith), λ k. ground arith)
            | inl valid ↦ (
              inr (sym q, valid, ap (λ (x : Bytes). mem x known) q ∙ new, λ r. other (sym q ∙ r)),
              λ k. ground arith,
            )
          ]
        ]
      ]
    ]
  ]

  -- Some member of a reply is the peer `p` and has a valid proof of admission.
  abbrev pub Proven : Group → Bytes → List Member → Type 0
  Proven g p [] = ⊥
  Proven g p (m ∷ members) =
      ((m.peer_id ≡ p) × (Group.verify_membership d g m ≡ true)) ⊎ Proven g p members

  -- After a reply is merged, or where that stopped with a panic of a log line, the entry of a peer is as before, or the reply had a valid proof of
  -- admission for that peer, who was not known and is not this node itself: so nothing that a
  -- peer sends changes the entry of a known member or of this node.
  pub merge_members-Proven :
      (g : Group) (self : Bytes) (members : List Member) (db : badger.Db) (known : List Bytes)
      (p : Bytes)
      → (get_member d (merge_members d g self members db known).0 g.id p ≡ get_member d db g.id p)
        ⊎ (Proven g p members × (mem p known ≡ false) × (p ≢ self))
  unfolding merge_members
  merge_members-Proven g self [] db known p = inl refl
  merge_members-Proven g self (m ∷ members) db known p = elim (Bool-cases next.2) [
    | inl panicked ↦ rw panicked (joined next.0 (merge_member-Kept g self m db known p) (inl refl))
    | inr going ↦ rw going (
        joined (merge_members d g self members next.0 next.1).0
          (merge_member-Kept g self m db known p)
          (merge_members-Proven g self members next.0 next.1 p))
  ]
    where
      next : badger.Db × List Bytes × Bool
      next = merge_member d g self m db known

      joined :
          (last : badger.Db)
          → Kept g self m db known p
          → ((get_member d last g.id p ≡ get_member d next.0 g.id p)
              ⊎ (Proven g p members × (mem p next.1 ≡ false) × (p ≢ self)))
          → (get_member d last g.id p ≡ get_member d db g.id p)
            ⊎ ((((m.peer_id ≡ p) × (Group.verify_membership d g m ≡ true)) ⊎ Proven g p members)
                × (mem p known ≡ false)
                × (p ≢ self))
      joined last (inl same, stays) (inl rest) = inl (rest ∙ same)
      joined last (inr (e, v, new, other), stays) r = inr (inl (e, v), new, other)
      joined last (inl same, stays) (inr (proven, new, other)) = elim (Bool-cases (mem p known)) [
        | inl old ↦ absurd (true_and_false (stays old) new)
        | inr fresh ↦ inr (inr proven, fresh, other)
      ]
