-- ===== src/Blockstore/Integrity.antt =====
-- A shard is stored and found under the hash of its content.
use fnshare.Prelude.{
  ℕ, ◌/◌, ◌%◌, ◌≤◌, ◌<◌, ◌≡◌, ap, sym, ◌∙◌, [], ◌∷◌, arith, ok, length, take, ite, if_pos, if_neg,
  subst, Result-cases, Bool-cases, inl, inr, Bool, ◌&&◌, ok-injective, err, Result, List,
}
use fnshare.Prelude.Bytes.{Bytes, bytes_dec}
use fnshare.Prelude.Paths.{FilePath, path_dec, IsPlain, NoSlash, join-IsPlain}
use fnshare.Prelude.Assoc.{insert, delete, lookup-insert, lookup-delete}
use fnshare.Blockstore.{
  Files, Disk, BlockError, fine, remove, has, hash_of, verify_hash, path, write_atomically, put,
  get, hex, hex_digit,
}

-- A name that stays in its own folder under the root, as the hex text of a hash does.
pub record IsShardId (id : Bytes) : Type 0 where
  pub long : 2 ≤ length id
  pub plain : IsPlain id
  pub folder : IsPlain (take 2 id)

abbrev first : Bytes → ℕ
first [] = 0
first (c ∷ s) = c

-- What SHA-256 returns: 32 bytes.
abbrev pub AreBytes : Bytes → Type 0
AreBytes [] = Unit {0}
AreBytes (c ∷ s) = (c < 256) × AreBytes s

pub record Sha256Laws (sha256 : Bytes → Bytes) : Type 0 where
  pub size : (content : Bytes) → length (sha256 content) ≡ 32
  pub bytes : (content : Bytes) → AreBytes (sha256 content)

hex_digit_range : (n : ℕ) → n < 16 → (47 < hex_digit n) × (hex_digit n < 103)
unfolding hex_digit
hex_digit_range n h = ground arith

NoSlash-hex : (s : Bytes) → AreBytes s → NoSlash (hex s)
unfolding hex
NoSlash-hex [] h = tt
NoSlash-hex (c ∷ s) h = (
  λ e. absurd (omega (arith, hex_digit_range (c / 16) (omega arith))),
  (λ e. absurd (omega (arith, hex_digit_range (c % 16) (omega arith))), NoSlash-hex s h.1),
)

-- The name is a hash in hex: two digits at least, of which the first is no dot.
hex-IsShardId : (s : Bytes) → AreBytes s → 1 ≤ length s → IsShardId (hex s)
unfolding hex
hex-IsShardId [] h l = absurd (omega arith)
hex-IsShardId (c ∷ s) h l = record {
  long = omega arith;
  plain = record {
    no_slash = NoSlash-hex (c ∷ s) h;
    some_bytes = λ e. cc;
    not_dot = λ e. cc;
    not_dots = λ e. absurd (omega (arith, ap first e, hex_digit_range (c / 16) (omega arith)));
  };
  folder = record {
    no_slash = ((NoSlash-hex (c ∷ s) h).0, ((NoSlash-hex (c ∷ s) h).1.0, tt));
    some_bytes = λ e. cc;
    not_dot = λ e. cc;
    not_dots = λ e. absurd (omega (arith, ap first e, hex_digit_range (c / 16) (omega arith)));
  };
}

pub hash_of-IsShardId :
    (sha256 : Bytes → Bytes) (content : Bytes)
    → Sha256Laws sha256
    → IsShardId (hash_of sha256 content)
unfolding hash_of
hash_of-IsShardId sha256 content laws =
    hex-IsShardId (sha256 content) (laws.bytes content) (omega (arith, laws.size content))

path-IsShardId :
    (root : FilePath) (id : Bytes) → IsShardId id → path root id ≡ id ∷ take 2 id ∷ root
unfolding path
path-IsShardId root id h = ground (
  arith,
  h.long,
  join-IsPlain root (take 2 id) h.folder,
  join-IsPlain (take 2 id ∷ root) id h.plain,
)

head_of : FilePath → Bytes
head_of [] = []
head_of (p ∷ path) = p

path-injective :
    (root : FilePath) (id other : Bytes)
    → IsShardId id
    → IsShardId other
    → path root id ≡ path root other
    → id ≡ other
unfolding head_of
path-injective root id other h k e =
    ap head_of (sym (path-IsShardId root id h) ∙ e ∙ path-IsShardId root other k)

-- A call that changes the disk, with what the disk does.
pub data Op : Type 0 where
  puts : Disk → Bytes → Bytes → Op
  removes : Bool → Bytes → Op

module _ (sha256 : Bytes → Bytes) (root : FilePath) where
  pub put_content :
      (disk : Disk) (files files' : Files) (id content : Bytes)
      → put sha256 root disk files id content ≡ ok files'
      → (hash_of sha256 content ≡ id) × (files' ≡ insert path_dec (path root id) content files)
  unfolding put verify_hash write_atomically
  put_content disk files files' id content e = elim (bytes_dec (hash_of sha256 content) id) [
    | yes p ↦ (p, stored disk (ground arith))
    | no p ↦ absurd (ground arith)
  ]
    where
      stored :
          (d : Disk)
          → write_atomically d files (path root id) content ≡ ok files'
          → files' ≡ insert path_dec (path root id) content files
      stored fine h = ground arith
      stored _ h = absurd (ground arith)

  -- After a successful `Put` the shard is what `Get` returns, and every other shard is as before.
  pub get-put :
      (disk : Disk) (files files' : Files) (id content other : Bytes)
      → put sha256 root disk files id content ≡ ok files'
      → IsShardId id
      → IsShardId other
      → get root files' other ≡ ite (bytes_dec other id) (ok content) (get root files other)
  unfolding get
  get-put disk files files' id content other e h k = elim (bytes_dec other id) [
    | yes p ↦
        rw
          (
            (put_content disk files files' id content e).1,
            lookup-insert path_dec (path root other) (path root id) content files,
            if_pos (path_dec (path root other) (path root id)) (ap (path root) p) _ _,
          )
          (sym (if_pos (bytes_dec other id) p _ _))
    | no p ↦
        rw
          (
            (put_content disk files files' id content e).1,
            lookup-insert path_dec (path root other) (path root id) content files,
            if_neg (path_dec (path root other) (path root id))
                (λ q. p (path-injective root other id k h q)) _ _,
          )
          (sym (if_neg (bytes_dec other id) p _ _))
  ]

  -- Each shard that can be read has the content that its id is the hash of.
  abbrev pub IsIntact : Files → Type 0
  IsIntact files =
      (id content : Bytes)
      → IsShardId id
      → get root files id ≡ ok content
      → hash_of sha256 content ≡ id

  put-IsIntact :
      (disk : Disk) (files files' : Files) (id content : Bytes)
      → Sha256Laws sha256
      → put sha256 root disk files id content ≡ ok files'
      → IsIntact files
      → IsIntact files'
  put-IsIntact disk files files' id content laws e intact other found k g =
      let own = (put_content disk files files' id content e).0 in
      let h = subst IsShardId own (hash_of-IsShardId sha256 content laws) in
      elim (bytes_dec other id) [
        | yes p ↦ ground (arith, own, get-put disk files files' id content other e h k)
        | no p ↦
            intact other found k (ground (arith, get-put disk files files' id content other e h k))
      ]

  get-delete :
      (files : Files) (place : FilePath) (other found : Bytes)
      → get root (delete path_dec place files) other ≡ ok found
      → get root files other ≡ ok found
  unfolding get
  get-delete files place other found e = elim (path_dec (path root other) place) [
    | yes p ↦ absurd (ground (arith, lookup-delete path_dec (path root other) place files))
    | no p ↦ ground (arith, lookup-delete path_dec (path root other) place files)
  ]

  remove-IsIntact :
      (refused : Bool) (files files' : Files) (id : Bytes)
      → remove root refused files id ≡ ok files'
      → IsIntact files
      → IsIntact files'
  unfolding remove
  remove-IsIntact refused files files' id e intact other found k g =
      elim (Bool-cases (refused && has root files id)) [
        | inl stays ↦ absurd (ground arith)
        | inr gone ↦
            let same : delete path_dec (path root id) files ≡ files' =
              ok-injective {E = BlockError} _ _ (ground arith) in
            intact other found k
              (get-delete files (path root id) other found (ap (λ f. get root f other) same ∙ g))
      ]

  abbrev kept : Result BlockError Files → Files → Files
  kept (ok files') files = files'
  kept (err x) files = files

  -- The disk after a sequence of calls; a call that fails leaves the files as they are.
  abbrev pub run : List Op → Files → Files
  run [] files = files
  run (puts disk id content ∷ ops) files =
      run ops (kept (put sha256 root disk files id content) files)
  run (removes refused id ∷ ops) files = run ops (kept (remove root refused files id) files)

  -- If each shard that can be read has the content that its id is the hash of, then this is still so
  -- after any sequence of `Put` and `Delete`, with any contents and under any ids, also where the
  -- content does not match the id and where the disk fails.
  pub run-IsIntact :
      (ops : List Op) (files : Files)
      → Sha256Laws sha256
      → IsIntact files
      → IsIntact (run ops files)
  run-IsIntact [] files laws intact = intact
  run-IsIntact (puts disk id content ∷ ops) files laws intact =
      elim (Result-cases (put sha256 root disk files id content)) [
        | inl (files', e) ↦
            rw e (
              run-IsIntact ops files' laws
                (put-IsIntact disk files files' id content laws e intact))
        | inr (x, e) ↦ rw e (run-IsIntact ops files laws intact)
      ]
  run-IsIntact (removes refused id ∷ ops) files laws intact =
      elim (Result-cases (remove root refused files id)) [
        | inl (files', e) ↦
            rw e (run-IsIntact ops files' laws (remove-IsIntact refused files files' id e intact))
        | inr (x, e) ↦ rw e (run-IsIntact ops files laws intact)
      ]
