-- ===== src/File/ReadAt.antt =====
-- internal/file/reader.go, `ReadAt`, `Read` and `Seek`: random access to the plaintext of a file.
-- `stripe_bytes` is the method of that name on the state `S` of the reader (cache, network).
-- Offsets are natural numbers, as the callers pass them: `Seek` stops at 0.
use fnshare.Prelude.{
  ℕ, zero, suc, ◌+◌, ◌-◌, ◌*◌, ◌/◌, ◌^◌, ◌≤◌, ◌<◌, min, ◌≡◌, refl, Bool, true, false, ◌&&◌, ◌||◌,
  List, [], ◌∷◌, ◌++◌, Option, none, some, arith, Result, ok, err, if◌then◌else◌, length, take,
  drop, ltb, leb, ◌==◌,
}
use fnshare.Prelude.Int.{ℤ, pos, negsuc, pos_part, ltb_ℤ}
use fnshare.Prelude.Int64.{add64}
use fnshare.Prelude.Bytes.{Bytes}
use fnshare.Manifest.{Manifest}
pub mod Slices

pub data ReadError (E : Type 0) : Type 0 where
  eof : ReadError E
  stripe_failed : E → ReadError E
  -- a division by zero or a slice out of range
  fault : ReadError E

-- The new state, the bytes that were copied to `dst`, and the error.
abbrev pub Outcome : Type 0 → Type 0 → Type 0
Outcome S E = S × Bytes × Option (ReadError E)

module _ {S E : Type 0} where
  -- What a round of the loop does with the stripe that it fetched.
  unfoldable pub copy_stripe : (S → ℕ → Outcome S E) → ℕ → ℕ → ℕ → S × Result E Bytes → Outcome S E
  copy_stripe go_on cur in_start end (s, err e) = (s, [], some (stripe_failed e))
  copy_stripe go_on cur in_start end (s, ok stripe) =
      let want = min (end - cur) (length stripe - in_start) in
      let (s', more, e) = go_on s (cur + want) in
      if ltb (length stripe) in_start
      then (s, [], some fault)
      else if want == 0
      then (s, [], none)
      else (s', take want (drop in_start stripe) ++ more, e)

module _ {S E : Type 0} (stripe_bytes : S → ℕ → S × Result E Bytes) (m : Manifest) where
  -- The body of the loop, with what follows it.
  unfoldable pub read_round : (S → ℕ → Outcome S E) → S → ℕ → ℕ → Outcome S E
  read_round go_on s cur end =
      let idx = cur / m.stripe_data_size in
      if m.stripe_data_size == 0
      then (s, [], some fault)
      else if leb (length m.stripes) idx
      then (s, [], none)
      else copy_stripe go_on cur (cur - idx * m.stripe_data_size) end (stripe_bytes s idx)

  -- `for cur := offset; cur < end; { … }`. Each round that goes on copies a byte at least, so
  -- the length of `dst` and one more is fuel enough.
  unfoldable pub read_loop : ℕ → S → ℕ → ℕ → Outcome S E
  read_loop zero s cur end = (s, [], none)
  read_loop (suc fuel) s cur end =
      if ltb cur end then read_round (λ s' c. read_loop fuel s' c end) s cur end else (s, [], none)

  -- `offset + int64(len(dst))`, cut to the size. A sum that wraps is negative, below every offset.
  unfoldable pub end_of : ℕ → ℕ → ℕ
  end_of len offset = if ltb (offset + len) (2 ^ 63) then min (offset + len) m.size else 0

  -- The error of a read that ended with `written` bytes.
  unfoldable pub at_end : ℕ → ℕ → Outcome S E → Outcome S E
  at_end len offset (s, out, some e) = (s, out, some e)
  at_end len offset (s, out, none) =
      if ltb (length out) len && leb m.size (offset + length out)
      then (s, out, some eof)
      else (s, out, none)

  -- `ReadAt`, into a slice of `len` bytes.
  unfoldable pub read_at : S → ℕ → ℕ → Outcome S E
  read_at s len offset =
      if leb m.size offset
      then (s, [], some eof)
      else at_end len offset (read_loop (suc len) s offset (end_of len offset))

  -- `Read`: the position moves on by the bytes that were read. It is never negative (`seek`).
  unfoldable pub read : S → ℕ → ℕ → Outcome S E × ℕ
  read s len position =
      if leb m.size position
      then ((s, [], some eof), position)
      else (let (s', out, e) = read_at s len position in ((s', out, e), position + length out))

pub data Whence : Type 0 where
  seek_start seek_current seek_end : Whence
  other_whence : Whence

-- `Seek`: the new position, or none for a bad `whence`.
unfoldable pub seek : ℕ → ℕ → ℤ → Whence → Option ℕ
seek size position offset seek_start = some (pos_part offset)
seek size position offset seek_current = some (pos_part (add64 (pos position) offset))
seek size position offset seek_end = some (pos_part (add64 (pos size) offset))
seek size position offset other_whence = none
