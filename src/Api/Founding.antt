-- ===== src/Api/Founding.antt =====
-- The first member of a group that is created, as it is read back from the store.
use fnshare.Prelude.{
  ℕ, ◌≡◌, ◌↔◌, ap, sym, ◌∙◌, inl, inr, Bool, true, some, arith, ok, length, ◌==◌, Bool-cases,
  Option-cases, Result-cases,
}
use mathlib.Core.List.{append_cancel_left}
use fnshare.Prelude.Bytes.{Bytes, codes}
use fnshare.Prelude.Clock.{Time, at, to_seconds, unix_nano}
use fnshare.Prelude.Decimal.{decimal_ℤ}
use fnshare.Prelude.Decimal.Injective.{decimal-injective}
use fnshare.Codec.{ReadsBack}
use fnshare.Store
use fnshare.Store.{BadgerLaws, get-put_self, StoreError}
use fnshare.Group
use fnshare.Group.{Group, Member, admit_message, member_key}
use fnshare.Api.{Deps, Server}
use fnshare.Api.Handlers.{NewKeys, add_self, handle_create_group, self_member, with_db}

-- What Ed25519 does for a pair of keys and two texts: the signature of the first has 64 bytes, and
-- is one of the second only if the texts are the same.
pub record SignatureLaws (d : Group.Deps) (public private text other : Bytes) : Type 0 where
  pub size : length (d.ed25519.sign private text) ≡ 64
  pub right : d.ed25519.verify public text (d.ed25519.sign private text) ≡ true
  pub only : d.ed25519.verify public other (d.ed25519.sign private text) ≡ true → text ≡ other

-- What CBOR keeps of a member.
abbrev pub kept : Member → Member
kept m = record m { joined_at = to_seconds m.joined_at }

admit_message_time :
    (gid pid : Bytes) (n k : ℕ)
    → admit_message gid pid (at n) ≡ admit_message gid pid (at k)
    → n ≡ k
unfolding admit_message decimal_ℤ unix_nano
admit_message_time gid pid n k e = decimal-injective n k (
    append_cancel_left (codes "|") _ _ (
      append_cancel_left pid _ _ (
        append_cancel_left (codes "|") _ _
          (append_cancel_left gid _ _ (append_cancel_left (codes "fnshare-admit|") _ _ e)))))

module _ (d : Deps) where
  -- The group that is created.
  abbrev pub founded : Time → NewKeys → Bytes → Group
  founded created k name = Group.create d.files.deps k.id name k.public k.private k.shared created

  put_member-get :
      (laws : BadgerLaws d.files.deps.badger) (db db' : d.files.deps.badger.Db) (gid : Bytes)
      (m : Member)
      → ReadsBack d.files.deps.members kept
      → Group.put_member d.files.deps db gid m ≡ ok db'
      → Group.get_member d.files.deps db' gid m.peer_id ≡ ok (kept m)
  unfolding Group.put_member Group.get_member
  put_member-get laws db db' gid m reads e = elim (Option-cases (d.files.deps.members.marshal m)) [
    | inl bad ↦ absurd (ground arith)
    | inr (raw, made) ↦
        elim (Result-cases (Store.put d.files.deps.badger db (member_key gid m.peer_id) raw)) [
          | inr (x, bad) ↦ absurd (ground arith)
          | inl (db2, done) ↦
              let here =
                get-put_self d.files.deps.badger laws db db2 (member_key gid m.peer_id) raw done in
              ground (arith, here, reads m raw made)
        ]
  ]

  -- The laws for the text that is signed, and for the one that is checked later.
  abbrev pub Signs : ℕ → NewKeys → Type 0
  Signs n k =
      SignatureLaws d.files.deps k.public k.private
        (admit_message k.id d.files.identity.self (at n))
        (admit_message k.id d.files.identity.self (to_seconds (at n)))

  -- This node as it enters the group.
  abbrev founder : Server d → ℕ → NewKeys → Bytes → Member
  founder s n k raw =
      self_member d s (at n) raw
        (d.files.deps.ed25519.sign k.private (admit_message k.id d.files.identity.self (at n)))

  add_self_lem :
      (created : Time) (n : ℕ) (k : NewKeys) (name : Bytes) (s : Server d)
      → (add_self d (at n) (founded created k name) s).1.code ≡ 200
      → (raw : Bytes) × (db : d.files.deps.badger.Db) × (Group.put_member d.files.deps s.node.db
            k.id
            (founder s n k raw)
          ≡ ok db)
        × ((add_self d (at n) (founded created k name) s).0.node.db ≡ db)
  unfolding add_self Group.create Group.admit_member
  add_self_lem created n k name s e = elim (Option-cases d.raw_pub_key) [
    | inl bad ↦ absurd (ground arith)
    | inr (raw, has) ↦ elim (Bool-cases (length k.private == 64)) [
      | inr wrong ↦ absurd (ground arith)
      | inl right ↦
          elim (Result-cases (Group.put_member d.files.deps s.node.db k.id (founder s n k raw))) [
            | inr (x, bad) ↦ absurd (ground arith)
            | inl (db, done) ↦ (raw, db, done, ground arith)
          ]
    ]
  ]

  handle_create_group_lem :
      (created : Time) (n : ℕ) (k : NewKeys) (name : Bytes) (s : Server d)
      → (handle_create_group d created (at n) (some k) (some name) s).1.code ≡ 200
      → (db : d.files.deps.badger.Db) × (handle_create_group d created (at n) (some k) (some name) s
          ≡ add_self d (at n) (founded created k name) (with_db d s db))
  unfolding handle_create_group
  handle_create_group_lem created n k name s e = elim (Bool-cases (length name == 0)) [
    | inl unnamed ↦ absurd (ground arith)
    | inr named ↦ elim (Result-cases (Group.save d.files.deps s.node.db (founded created k name))) [
      | inr (x, bad) ↦ absurd (ground arith)
      | inl (db, done) ↦ (db, ground arith)
    ]
  ]

  founder_verifies :
      (created : Time) (n : ℕ) (k : NewKeys) (name raw : Bytes) (s : Server d)
      → Signs n k
      → (Group.verify_membership d.files.deps (founded created k name) (kept (founder s n k raw))
          ≡ true)
        ↔ (to_seconds (at n) ≡ at n)
  unfolding Group.verify_membership Group.verify_admission Group.create to_seconds
  founder_verifies created n k name raw s laws =
      let text : Time → Bytes = admit_message k.id d.files.identity.self in
      let sig = d.files.deps.ed25519.sign k.private (text (at n)) in
      let valid : Time → Bool = λ t. d.files.deps.ed25519.verify k.public (text t) sig in
      let size = laws.size in
      (
        λ accepted. elim (Bool-cases (valid (to_seconds (at n)))) [
          | inl right ↦
              sym (ap at (admit_message_time k.id d.files.identity.self n _ (laws.only right)))
          | inr wrong ↦ absurd (ground arith)
        ],
        λ whole.
            let right : valid (to_seconds (at n)) ≡ true = ap valid whole ∙ laws.right in
            ground arith,
      )

  -- A group is created, at whatever time, and its founder admitted at `n` nanoseconds, with keys whose
  -- signature of the one text is none of the other. Then this node is its member in the store, and the member that is read back proves its
  -- admission to the group if and only if `n` is a whole second: the signature is on nanoseconds,
  -- and the store keeps seconds.
  pub handle_create_group_founder :
      (laws : BadgerLaws d.files.deps.badger) (created : Time) (n : ℕ) (k : NewKeys) (name : Bytes)
      (s : Server d)
      → ReadsBack d.files.deps.members kept
      → Signs n k
      → (handle_create_group d created (at n) (some k) (some name) s).1.code ≡ 200
      → (m : Member) × (Group.get_member d.files.deps
            (handle_create_group d created (at n) (some k) (some name) s).0.node.db
            k.id
            d.files.identity.self
          ≡ ok m)
        × ((Group.verify_membership d.files.deps (founded created k name) m ≡ true)
            ↔ (to_seconds (at n) ≡ at n))
  handle_create_group_founder laws created n k name s reads signs e =
      let (db, run) = handle_create_group_lem created n k name s e in
      let s' = with_db d s db in
      let (raw, db', put, is) =
        add_self_lem created n k name s' (ap (λ x. x.1.code) (sym run) ∙ e) in
      (
        kept (founder s' n k raw),
        ap (λ x. Group.get_member d.files.deps x k.id d.files.identity.self)
              (ap (λ x. x.0.node.db) run ∙ is)
            ∙ put_member-get laws s'.node.db db' k.id (founder s' n k raw) reads put,
        founder_verifies created n k name raw s' signs,
      )
