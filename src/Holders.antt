-- ===== src/Holders.antt =====
-- internal/holders/holders.go: which members hold the shards of a file, by rendezvous hashing.
-- SHA-256 is a parameter. `sort.Slice` is an insertion sort here. Go leaves the order of peers of the
-- same weight open, and this sort picks one; the theorems assume that no two peers have the same
-- weight, and then any descending order of the same peers is this one (`sort_by_score_unique`).
pub mod Stability
use fnshare.Prelude.{
  ℕ, zero, suc, ◌+◌, ◌*◌, ◌≡◌, refl, Bool, true, false, List, [], ◌∷◌, ◌++◌, Option, none, some,
  if◌then◌else◌, length, take, ltb, leb, ◌==◌, ite,
}
use fnshare.Prelude.Int.{ℤ, pos, negsuc}
use fnshare.Prelude.Bytes.{Bytes, bytes_dec}

-- `binary.BigEndian.Uint64` of eight bytes.
unfoldable pub uint64 : Bytes → ℕ → ℕ
uint64 [] acc = acc
uint64 (c ∷ s) acc = uint64 s (acc * 256 + c)

module _ (sha256 : Bytes → Bytes) where
  -- `weight`
  unfoldable pub weight : Bytes → Bytes → ℕ
  weight peer key = uint64 (take 8 (sha256 (peer ++ 0 ∷ key))) 0

  -- A peer into its place: behind those that weigh more.
  unfoldable pub place : Bytes → Bytes → List Bytes → List Bytes
  place key p [] = p ∷ []
  place key p (q ∷ peers) =
      let rest = place key p peers in
      if ltb (weight q key) (weight p key) then p ∷ q ∷ peers else q ∷ rest

  -- `sortByScore`
  unfoldable pub sort_by_score : Bytes → List Bytes → List Bytes
  sort_by_score key [] = []
  sort_by_score key (p ∷ peers) = place key p (sort_by_score key peers)

  -- `Pick`
  unfoldable pub pick : List Bytes → Bytes → ℕ → List Bytes
  pick candidates key n =
      if n == 0
      then []
      else if leb (length candidates) n
      then sort_by_score key candidates
      else take n (sort_by_score key candidates)

-- The place of a peer in a list, from `i` on; -1 where it is not.
unfoldable pub index_from : Bytes → List Bytes → ℕ → ℤ
index_from peer [] i = negsuc 0
index_from peer (p ∷ peers) i = ite (bytes_dec p peer) (pos i) (index_from peer peers (i + 1))

-- `IndexOf`
unfoldable pub index_of : (Bytes → Bytes) → List Bytes → Bytes → Bytes → ℤ
index_of sha256 candidates key peer = index_from peer (sort_by_score sha256 key candidates) 0
