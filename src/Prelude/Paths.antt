-- ===== src/Prelude/Paths.antt =====
-- `filepath.Join` under an absolute folder, as `filepath.Clean` does it: by segments, the innermost
-- first. The working folder and symbolic links play no part.
use fnshare.Prelude.Bytes.{Bytes, codes, bytes_dec}
use fnshare.Prelude.Tests.{◌==◌, if◌then◌else◌}
use Prim.Native.Nat.{ℕ}
use mathlib.Core.Path.{◌≡◌, refl}
use mathlib.Core.Logic.{ite, if_neg, ◌≢◌}
use mathlib.Core.List.{List, [], ◌∷◌}
use native.Mathlib.Omega.{arith}

abbrev pub FilePath : Type 0
FilePath = List Bytes

unfoldable pub path_dec : Discrete FilePath
unfolding bytes_dec
path_dec = hlevel bytes_dec

-- The parts between slashes.
abbrev with_first : ℕ → List Bytes → List Bytes
with_first c [] = (c ∷ []) ∷ []
with_first c (p ∷ parts) = (c ∷ p) ∷ parts

unfoldable pub split_slash : Bytes → List Bytes
split_slash [] = [] ∷ []
split_slash (c ∷ s) =
    let parts = split_slash s in if c == b'/' then [] ∷ parts else with_first c parts

abbrev parent : FilePath → FilePath
parent [] = []
parent (p ∷ path) = path

-- One segment: `.` and an empty one stay, `..` goes up.
unfoldable pub enter : FilePath → Bytes → FilePath
enter path part = ite (bytes_dec part []) path (
    ite (bytes_dec part (codes ".")) path
      (ite (bytes_dec part (codes "..")) (parent path) (part ∷ path)))

unfoldable pub walk : FilePath → List Bytes → FilePath
walk path [] = path
walk path (p ∷ parts) = walk (enter path p) parts

-- `filepath.Join(path, name)`
unfoldable pub join : FilePath → Bytes → FilePath
unfolding walk split_slash enter
join path name = walk path (split_slash name)

-- A name of one segment that is neither `.` nor `..`.
abbrev pub NoSlash : Bytes → Type 0
NoSlash [] = Unit {0}
NoSlash (c ∷ s) = (c ≢ 47) × NoSlash s

pub record IsPlain (name : Bytes) : Type 0 where
  pub no_slash : NoSlash name
  pub some_bytes : name ≢ []
  pub not_dot : name ≢ codes "."
  pub not_dots : name ≢ codes ".."

pub split_slash-NoSlash : (s : Bytes) → NoSlash s → split_slash s ≡ s ∷ []
unfolding split_slash
split_slash-NoSlash [] h = refl
split_slash-NoSlash (c ∷ s) h = ground (arith, split_slash-NoSlash s)

pub join-IsPlain : (path : FilePath) (name : Bytes) → IsPlain name → join path name ≡ name ∷ path
unfolding join
join-IsPlain path name h = rw (
  split_slash-NoSlash name h.no_slash,
  if_neg (bytes_dec name []) h.some_bytes _ _,
  if_neg (bytes_dec name _) h.not_dot _ _,
  if_neg (bytes_dec name _) h.not_dots _ _,
)
