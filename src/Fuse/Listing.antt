-- ===== src/Fuse/Listing.antt =====
-- What a folder lists is what is found in it.
use fnshare.Prelude.{
  ◌≡◌, refl, ap, sym, ◌∙◌, subst, ◌⊎◌, ◌↔◌, if◌then◌else◌, inl, inr, Bool, true, false, List, [],
  ◌∷◌, ◌++◌, map, arith, Result, ok, ok-injective, Bool-cases, Option-cases, length, ◌==◌,
}
use fnshare.Prelude.Bytes.{Bytes, bytes_dec}
use fnshare.Group
use fnshare.Group.{Group}
use fnshare.Manifest.{Manifest}
use fnshare.File.Service.{FileService}
use fnshare.Fuse.{
  Errno, DirEntry, Node, root_node, group_node, private_node, file_node, dot_private,
  list_group_files, owned_here, group_entry, file_entry, private_entry, readdir, find_group,
  find_file, lookup,
}

-- An entry of a list of entries.
abbrev pub Has : List DirEntry → Bytes → Bool → Type 0
Has [] name dir = ⊥
Has (e ∷ entries) name dir = ((e.name ≡ name) × (e.is_dir ≡ dir)) ⊎ Has entries name dir

Has-right :
    (xs ys : List DirEntry) (name : Bytes) (dir : Bool) → Has ys name dir → Has (xs ++ ys) name dir
Has-right [] ys name dir h = h
Has-right (x ∷ xs) ys name dir h = inr (Has-right xs ys name dir h)

Has-left :
    (xs ys : List DirEntry) (name : Bytes) (dir : Bool) → Has xs name dir → Has (xs ++ ys) name dir
Has-left [] ys name dir h = absurd h
Has-left (x ∷ xs) ys name dir (inl h) = inl h
Has-left (x ∷ xs) ys name dir (inr h) = inr (Has-left xs ys name dir h)

Has-append :
    (xs ys : List DirEntry) (name : Bytes) (dir : Bool)
    → Has (xs ++ ys) name dir
    → Has xs name dir ⊎ Has ys name dir
Has-append [] ys name dir h = inr h
Has-append (x ∷ xs) ys name dir (inl h) = inl (inl h)
Has-append (x ∷ xs) ys name dir (inr h) = elim (Has-append xs ys name dir h) [
  | inl l ↦ inl (inr l)
  | inr r ↦ inr r
]

abbrev pub is_folder : Node → Bool
is_folder (file_node m) = false
is_folder _ = true

-- A node of the kind is found.
abbrev pub Finds : Result Errno Node → Bool → Type 0
Finds r dir = (n : Node) × (r ≡ ok n) × (is_folder n ≡ dir)

module _ (f : FileService) (db : f.deps.badger.Db) where
  find_group_kind :
      (groups : List Group) (name : Bytes) (n : Node)
      → find_group f db name groups ≡ ok n
      → true ≡ is_folder n
  unfolding find_group
  find_group_kind [] name n e = absurd (ground arith)
  find_group_kind (g ∷ groups) name n e = elim (bytes_dec (group_entry f db g).name name) [
    | yes same ↦
        let this : group_node g.id g.name ≡ n = ok-injective {E = Errno} _ _ (ground arith) in
        ap is_folder this
    | no other ↦ find_group_kind groups name n (ground arith)
  ]

  find_group_listed :
      (groups : List Group) (name : Bytes) (dir : Bool)
      → Has (map (group_entry f db) groups) name dir
      → Finds (find_group f db name groups) dir
  unfolding find_group
  find_group_listed [] name dir h = absurd h
  find_group_listed (g ∷ groups) name dir (inl (same, kind)) =
      (group_node g.id g.name, ground arith, kind)
  find_group_listed (g ∷ groups) name dir (inr h) =
      let (n, found, kind) = find_group_listed groups name dir h in
      elim (bytes_dec (group_entry f db g).name name) [
        | yes same ↦
            (group_node g.id g.name, ground arith, find_group_kind groups name n found ∙ kind)
        | no other ↦ (n, ground arith, kind)
      ]

  listed_find_group :
      (groups : List Group) (name : Bytes) (n : Node)
      → find_group f db name groups ≡ ok n
      → Has (map (group_entry f db) groups) name (is_folder n)
  unfolding find_group
  listed_find_group [] name n e = absurd (ground arith)
  listed_find_group (g ∷ groups) name n e = elim (bytes_dec (group_entry f db g).name name) [
    | yes same ↦
        let this : group_node g.id g.name ≡ n = ok-injective {E = Errno} _ _ (ground arith) in
        inl (same, ap is_folder this)
    | no other ↦ inr (listed_find_group groups name n (ground arith))
  ]

  find_file_kind :
      (ms : List Manifest) (name : Bytes) (n : Node)
      → find_file f db name ms ≡ ok n
      → false ≡ is_folder n
  unfolding find_file
  find_file_kind [] name n e = absurd (ground arith)
  find_file_kind (m ∷ ms) name n e = elim (bytes_dec (file_entry f db m).name name) [
    | yes same ↦
        let this : file_node m ≡ n = ok-injective {E = Errno} _ _ (ground arith) in
        ap is_folder this
    | no other ↦ find_file_kind ms name n (ground arith)
  ]

  find_file_listed :
      (ms : List Manifest) (name : Bytes) (dir : Bool)
      → Has (map (file_entry f db) ms) name dir
      → Finds (find_file f db name ms) dir
  unfolding find_file
  find_file_listed [] name dir h = absurd h
  find_file_listed (m ∷ ms) name dir (inl (same, kind)) = (file_node m, ground arith, kind)
  find_file_listed (m ∷ ms) name dir (inr h) =
      let (n, found, kind) = find_file_listed ms name dir h in
      elim (bytes_dec (file_entry f db m).name name) [
        | yes same ↦ (file_node m, ground arith, find_file_kind ms name n found ∙ kind)
        | no other ↦ (n, ground arith, kind)
      ]

  listed_find_file :
      (ms : List Manifest) (name : Bytes) (n : Node)
      → find_file f db name ms ≡ ok n
      → Has (map (file_entry f db) ms) name (is_folder n)
  unfolding find_file
  listed_find_file [] name n e = absurd (ground arith)
  listed_find_file (m ∷ ms) name n e = elim (bytes_dec (file_entry f db m).name name) [
    | yes same ↦
        let this : file_node m ≡ n = ok-injective {E = Errno} _ _ (ground arith) in
        inl (same, ap is_folder this)
    | no other ↦ inr (listed_find_file ms name n (ground arith))
  ]

  files_kind :
      (ms : List Manifest) (name : Bytes) (dir : Bool)
      → Has (map (file_entry f db) ms) name dir
      → false ≡ dir
  files_kind [] name dir h = absurd h
  files_kind (m ∷ ms) name dir (inl (same, kind)) = kind
  files_kind (m ∷ ms) name dir (inr h) = files_kind ms name dir h

  -- The entry of the folder of private files, if there are any.
  abbrev private_entries : List Manifest → List DirEntry
  private_entries owned = if length owned == 0 then [] else private_entry f db ∷ []

  private_listed :
      (owned : List Manifest) (name : Bytes) (dir : Bool)
      → Has (private_entries owned) name dir
      → ((length owned == 0) ≡ false) × (dot_private ≡ name) × (true ≡ dir)
  private_listed owned name dir h = elim (Bool-cases (length owned == 0)) [
    | inl none_owned ↦
        let e : private_entries owned ≡ [] = ground arith in
        absurd (subst (λ es. Has es name dir) e h)
    | inr some_owned ↦
        let e : private_entries owned ≡ private_entry f db ∷ [] = ground arith in
        elim (subst (λ es. Has es name dir) e h) [
          | inl (same, kind) ↦ (some_owned, same, kind)
          | inr other ↦ absurd other
        ]
  ]

  listed_private :
      (owned : List Manifest) (name : Bytes)
      → (length owned == 0) ≡ false
      → name ≡ dot_private
      → Has (private_entries owned) name true
  listed_private owned name some_owned same =
      let e : private_entries owned ≡ private_entry f db ∷ [] = ground arith in
      subst (λ es. Has es name true) (sym e) (inl (sym same, refl))

  group_listed :
      (group_id group_name name : Bytes) (dir : Bool)
      → ((name ≡ dot_private) → dir ≡ true)
      → let (shared, owned) = list_group_files f db group_id in
        Has (map (file_entry f db) shared ++ private_entries owned) name dir
        → Finds (lookup f db (group_node group_id group_name) name) dir
  unfolding lookup
  group_listed group_id group_name name dir ok_name h =
      let (shared, owned) = list_group_files f db group_id in
      elim (bytes_dec name dot_private) [
        | yes private ↦ elim (Has-append (map (file_entry f db) shared) _ name dir h) [
          | inl l ↦ absurd (ground (arith, files_kind shared name dir l, ok_name private))
          | inr r ↦
              let (some_owned, same, kind) = private_listed owned name dir r in
              (private_node group_id, ground arith, kind)
        ]
        | no public ↦ elim (Has-append (map (file_entry f db) shared) _ name dir h) [
          | inl l ↦
              let (n, found, kind) = find_file_listed shared name dir l in (n, ground arith, kind)
          | inr r ↦ absurd (public (sym (private_listed owned name dir r).1))
        ]
      ]

  listed_group :
      (group_id group_name name : Bytes) (n : Node)
      → lookup f db (group_node group_id group_name) name ≡ ok n
      → let (shared, owned) = list_group_files f db group_id in
        Has (map (file_entry f db) shared ++ private_entries owned) name (is_folder n)
  unfolding lookup
  listed_group group_id group_name name n e =
      let (shared, owned) = list_group_files f db group_id in
      elim (bytes_dec name dot_private) [
        | yes private ↦ elim (Bool-cases (length owned == 0)) [
          | inl none_owned ↦ absurd (ground arith)
          | inr some_owned ↦
              let this : private_node group_id ≡ n = ok-injective {E = Errno} _ _ (ground arith) in
              subst (λ d. Has (map (file_entry f db) shared ++ private_entries owned) name d)
                (ap is_folder this)
                (Has-right (map (file_entry f db) shared) _ name true
                  (listed_private owned name some_owned private))
        ]
        | no public ↦
            Has-left (map (file_entry f db) shared) _ name (is_folder n)
              (listed_find_file shared name n (ground arith))
      ]

  listed :
      (n : Node) (entries : List DirEntry) (name : Bytes) (dir : Bool)
      → readdir f db n ≡ ok entries
      → ((name ≡ dot_private) → dir ≡ true)
      → Has entries name dir
      → Finds (lookup f db n name) dir
  unfolding readdir lookup
  listed root_node entries name dir e ok_name h =
      let groups = Group.list_groups f.deps db in
      elim (Option-cases groups.1) [
        | inr (x, bad) ↦ absurd (ground arith)
        | inl good ↦
            let same : map (group_entry f db) groups.0 ≡ entries =
              ok-injective {E = Errno} _ _ (ground arith) in
            let (n, found, kind) =
              find_group_listed groups.0 name dir (subst (λ es. Has es name dir) (sym same) h) in
            (n, ground (arith, found), kind)
      ]
  listed (group_node group_id group_name) entries name dir e ok_name h =
      group_listed group_id group_name name dir ok_name
        (subst (λ es. Has es name dir) (sym (ok-injective {E = Errno} _ _ e)) h)
  listed (private_node group_id) entries name dir e ok_name h =
      let same : map (file_entry f db) (owned_here f db group_id) ≡ entries =
        ok-injective {E = Errno} _ _ e in
      find_file_listed (owned_here f db group_id) name dir
        (subst (λ es. Has es name dir) (sym same) h)
  listed (file_node m) entries name dir e ok_name h = absurd (ground arith)

  found_listed :
      (n : Node) (entries : List DirEntry) (name : Bytes) (c : Node)
      → readdir f db n ≡ ok entries
      → lookup f db n name ≡ ok c
      → Has entries name (is_folder c)
  unfolding readdir lookup
  found_listed root_node entries name c e found =
      let groups = Group.list_groups f.deps db in
      elim (Option-cases groups.1) [
        | inr (x, bad) ↦ absurd (ground arith)
        | inl good ↦
            let same : map (group_entry f db) groups.0 ≡ entries =
              ok-injective {E = Errno} _ _ (ground arith) in
            subst (λ es. Has es name (is_folder c)) same
              (listed_find_group groups.0 name c (ground arith))
      ]
  found_listed (group_node group_id group_name) entries name c e found =
      subst (λ es. Has es name (is_folder c)) (ok-injective {E = Errno} _ _ e)
        (listed_group group_id group_name name c found)
  found_listed (private_node group_id) entries name c e found =
      subst (λ es. Has es name (is_folder c)) (ok-injective {E = Errno} _ _ e)
        (listed_find_file (owned_here f db group_id) name c found)
  found_listed (file_node m) entries name c e found = absurd (ground arith)

  -- For each folder, name and kind, unless the name is `.private` and the kind that of a file: the
  -- listing of the folder has an entry of the name and the kind if and only if `Lookup` of the name
  -- finds a node of that kind.
  pub lookup-readdir :
      (n : Node) (entries : List DirEntry) (name : Bytes) (dir : Bool)
      → readdir f db n ≡ ok entries
      → ((name ≡ dot_private) → dir ≡ true)
      → Has entries name dir ↔ Finds (lookup f db n name) dir
  lookup-readdir n entries name dir e ok_name = (
    listed n entries name dir e ok_name,
    λ found. subst (Has entries name) found.2 (found_listed n entries name found.0 e found.1),
  )
