-- ===== src/Fuse/Access.antt =====
-- Which files the tree gives access to.
use fnshare.Prelude.{
  ◌≡◌, refl, sym, ◌∙◌, subst, ◌⊎◌, inl, inr, List, [], ◌∷◌, arith, ok, ok-injective, Bool-cases,
  Option-cases, length, ◌==◌,
}
use fnshare.Prelude.Bytes.{Bytes, bytes_dec}
use fnshare.Group
use fnshare.Group.{Group}
use fnshare.Manifest.{Manifest, mode_shared, mode_private}
use fnshare.File.Service.{FileService}
use fnshare.Fuse
use fnshare.Fuse.{
  Errno, Node, root_node, group_node, private_node, file_node, dot_private, shown_name, all_files,
  sorted_in, sort_files, list_group_files, owned_of, owned_here, find_group, find_file, lookup,
}

abbrev pub In : {A : Type 0} → A → List A → Type 0
In a [] = ⊥
In a (x ∷ xs) = (x ≡ a) ⊎ In a xs

-- Where a file of a longer list is.
later :
    (P : Manifest → Type 0) (x m : Manifest) (ms : List Manifest)
    → In m ms × P m
    → In m (x ∷ ms) × P m
later P x m ms (here, p) = (inr here, p)

abbrev IsShared : Bytes → Manifest → Type 0
IsShared group_id m = (m.group_id ≡ group_id) × ((m.mode ≡ mode_shared) ⊎ (m.mode ≡ []))

module _ (f : FileService) (db : f.deps.badger.Db) where
  abbrev IsOwned : Bytes → Manifest → Type 0
  IsOwned group_id m =
      (m.group_id ≡ group_id) × (m.mode ≡ mode_private) × (m.owner_peer_id ≡ f.identity.self)

  -- The round of the loop keeps the shared files, or adds this one, which is shared then.
  public_round :
      (group_id : Bytes) (x : Manifest) (ms : List Manifest)
      → let rest = (sort_files f db group_id ms).0 in
        ((sort_files f db group_id (x ∷ ms)).0 ≡ rest)
        ⊎ (((sort_files f db group_id (x ∷ ms)).0 ≡ x ∷ rest) × IsShared group_id x)
  unfolding sort_files sorted_in
  public_round group_id x ms = elim (bytes_dec x.group_id group_id) [
    | no other ↦ inl (ground arith)
    | yes here ↦ elim (bytes_dec x.mode mode_shared) [
      | yes s ↦ inr (ground arith, (here, inl s))
      | no not_shared ↦ elim (bytes_dec x.mode []) [
        | yes e ↦ inr (ground arith, (here, inr e))
        | no some_mode ↦ elim (bytes_dec x.mode mode_private) [
          | no unknown ↦ inl (ground arith)
          | yes p ↦ elim (bytes_dec x.owner_peer_id f.identity.self) [
            | yes mine ↦ inl (ground arith)
            | no yours ↦ inl (ground arith)
          ]
        ]
      ]
    ]
  ]

  sort_files-IsShared :
      (group_id : Bytes) (m : Manifest) (ms : List Manifest)
      → In m (sort_files f db group_id ms).0
      → In m ms × IsShared group_id m
  unfolding sort_files
  sort_files-IsShared group_id m [] h = absurd h
  sort_files-IsShared group_id m (x ∷ ms) h = elim (public_round group_id x ms) [
    | inl same ↦
        later (IsShared group_id) x m ms (sort_files-IsShared group_id m ms (subst (In m) same h))
    | inr (more, is) ↦ elim (subst (In m) more h) [
      | inl this ↦ (inl this, subst (IsShared group_id) this is)
      | inr rest ↦ later (IsShared group_id) x m ms (sort_files-IsShared group_id m ms rest)
    ]
  ]

  private_round :
      (group_id : Bytes) (x : Manifest) (ms : List Manifest)
      → (owned_of f db group_id (x ∷ ms) ≡ owned_of f db group_id ms)
        ⊎ ((owned_of f db group_id (x ∷ ms) ≡ x ∷ owned_of f db group_id ms) × IsOwned group_id x)
  unfolding owned_of
  private_round group_id x ms = elim (bytes_dec x.group_id group_id) [
    | no other ↦ inl (ground arith)
    | yes here ↦ elim (bytes_dec x.mode mode_private) [
      | no public ↦ inl (ground arith)
      | yes p ↦ elim (bytes_dec x.owner_peer_id f.identity.self) [
        | yes mine ↦ inr (ground arith, (here, p, mine))
        | no yours ↦ inl (ground arith)
      ]
    ]
  ]

  owned_of-IsOwned :
      (group_id : Bytes) (m : Manifest) (ms : List Manifest)
      → In m (owned_of f db group_id ms)
      → In m ms × IsOwned group_id m
  unfolding owned_of
  owned_of-IsOwned group_id m [] h = absurd h
  owned_of-IsOwned group_id m (x ∷ ms) h = elim (private_round group_id x ms) [
    | inl same ↦
        later (IsOwned group_id) x m ms (owned_of-IsOwned group_id m ms (subst (In m) same h))
    | inr (more, is) ↦ elim (subst (In m) more h) [
      | inl this ↦ (inl this, subst (IsOwned group_id) this is)
      | inr rest ↦ later (IsOwned group_id) x m ms (owned_of-IsOwned group_id m ms rest)
    ]
  ]

  find_file_lem :
      (name : Bytes) (ms : List Manifest) (c : Node)
      → find_file f db name ms ≡ ok c
      → (m : Manifest) × (file_node m ≡ c) × In m ms
  unfolding find_file
  find_file_lem name [] c e = absurd (ground arith)
  find_file_lem name (m ∷ ms) c e = elim (bytes_dec (shown_name f db m) name) [
    | yes same ↦ (m, ok-injective {E = Errno} _ _ (ground arith), inl refl)
    | no other ↦ let (x, is, here) = find_file_lem name ms c (ground arith) in (x, is, inr here)
  ]

  find_group_lem :
      (name : Bytes) (groups : List Group) (c : Node)
      → find_group f db name groups ≡ ok c
      → (g : Group) × (group_node g.id g.name ≡ c) × In g groups
  unfolding find_group
  find_group_lem name [] c e = absurd (ground arith)
  find_group_lem name (g ∷ groups) c e = elim (bytes_dec (Fuse.sanitize g.name) name) [
    | yes same ↦ (g, ok-injective {E = Errno} _ _ (ground arith), inl refl)
    | no other ↦
        let (x, is, here) = find_group_lem name groups c (ground arith) in (x, is, inr here)
  ]

  -- What can be reached from the root by names.
  pub data Reaches : Node → Type 0 where
    at_root : Reaches root_node
    enter : (n c : Node) (name : Bytes) → Reaches n → lookup f db n name ≡ ok c → Reaches c

  abbrev IsGroupHere : Bytes → Type 0
  IsGroupHere group_id = (g : Group) × In g (Group.list_groups f.deps db).0 × (g.id ≡ group_id)

  abbrev pub IsAllowed : Manifest → Type 0
  IsAllowed m =
      In m (all_files f db)
      × ((g : Group) × In g (Group.list_groups f.deps db).0 × (g.id ≡ m.group_id))
      × ((m.mode ≡ mode_shared)
          ⊎ ((m.mode ≡ []) ⊎ ((m.mode ≡ mode_private) × (m.owner_peer_id ≡ f.identity.self))))

  abbrev Fits : Node → Type 0
  Fits root_node = Unit {0}
  Fits (group_node group_id name) = IsGroupHere group_id
  Fits (private_node group_id) = IsGroupHere group_id
  Fits (file_node m) = IsAllowed m

  by_mode :
      (m : Manifest)
      → (m.mode ≡ mode_shared) ⊎ (m.mode ≡ [])
      → (m.mode ≡ mode_shared)
        ⊎ ((m.mode ≡ []) ⊎ ((m.mode ≡ mode_private) × (m.owner_peer_id ≡ f.identity.self)))
  by_mode m (inl s) = inl s
  by_mode m (inr e) = inr (inl e)

  Reaches-Fits : (n : Node) → Reaches n → Fits n
  unfolding lookup list_group_files owned_here
  Reaches-Fits n at_root = tt
  Reaches-Fits n (enter root_node c name r found) =
      let groups = Group.list_groups f.deps db in
      elim (Option-cases groups.1) [
        | inr (x, bad) ↦ absurd (ground arith)
        | inl good ↦
            let (g, is, here) = find_group_lem name groups.0 n (ground arith) in
            subst Fits is (g, here, refl)
      ]
  Reaches-Fits n (enter (group_node group_id group_name) c name r found) =
      let (shared, owned) = list_group_files f db group_id in
      let parent = Reaches-Fits (group_node group_id group_name) r in
      elim (bytes_dec name dot_private) [
        | yes private ↦ elim (Bool-cases (length owned == 0)) [
          | inl none_owned ↦ absurd (ground arith)
          | inr some_owned ↦
              let is : private_node group_id ≡ n = ok-injective {E = Errno} _ _ (ground arith) in
              subst Fits is parent
        ]
        | no public ↦
            let (m, is, here) = find_file_lem name shared n (ground arith) in
            let (listed, (same, mode)) = sort_files-IsShared group_id m (all_files f db) here in
            subst Fits is (listed, (parent.0, parent.1, parent.2 ∙ sym same), by_mode m mode)
      ]
  Reaches-Fits n (enter (private_node group_id) c name r found) =
      let parent = Reaches-Fits (private_node group_id) r in
      let (m, is, here) = find_file_lem name (owned_here f db group_id) n found in
      let (listed, (same, mode, owner)) = owned_of-IsOwned group_id m (all_files f db) here in
      subst Fits is (listed, (parent.0, parent.1, parent.2 ∙ sym same), inr (inr (mode, owner)))
  Reaches-Fits n (enter (file_node m) c name r found) = absurd (ground arith)

  -- Each file that any path of names reaches is in the list of files, belongs to a group of this
  -- node, and is shared, or without a mode, or private and owned by this node: no path leads to a
  -- private file of another node.
  pub Reaches-IsAllowed : (m : Manifest) → Reaches (file_node m) → IsAllowed m
  Reaches-IsAllowed m r = Reaches-Fits (file_node m) r
