-- ===== src/Node/Blocks/Frames.antt =====
-- A frame that was written is read back.
use fnshare.Prelude.{
  ℕ, ◌%◌, ◌^◌, ◌≤◌, ◌<◌, ◌≡◌, ◌++◌, some, arith, ok, length, length-append, take-length-append,
  drop-length-append, Option-cases, inl, inr,
}
use fnshare.Prelude.Bytes.{Bytes}
use fnshare.Codec.{Codec, ReadsBack}
use fnshare.Node.Blocks.{put_uint32, uint32, read_full, write_frame, read_frame, max_frame_size}

uint32-put_uint32 : (n : ℕ) → n < 2 ^ 32 → uint32 (put_uint32 n) ≡ n
unfolding uint32 put_uint32
uint32-put_uint32 n h = omega arith

read_full-append : (s rest : Bytes) → read_full (length s) (s ++ rest) ≡ ok (s, rest)
unfolding read_full
read_full-append s rest =
    ground (arith, take-length-append s rest, drop-length-append s rest, length-append s rest)

header_read :
    (raw rest : Bytes)
    → read_full 4 ((put_uint32 (length raw % 2 ^ 32) ++ raw) ++ rest)
      ≡ ok (put_uint32 (length raw % 2 ^ 32), raw ++ rest)
unfolding put_uint32
header_read raw rest = read_full-append (put_uint32 (length raw % 2 ^ 32)) (raw ++ rest)

module _ {A : Type 0} (c : Codec A) (norm : A → A) (reads : ReadsBack c norm) where
  -- Whatever follows a frame on the stream, `readFrame` returns the value that `writeFrame` was given,
  -- as the format keeps it, and leaves the rest of the stream.
  pub read_frame-write_frame :
      (v : A) (frame rest : Bytes)
      → write_frame c v ≡ ok frame
      → read_frame c (frame ++ rest) ≡ ok (norm v, rest)
  unfolding write_frame read_frame
  read_frame-write_frame v frame rest e = elim (Option-cases (c.marshal v)) [
    | inl none_made ↦ absurd (ground arith)
    | inr (raw, made) ↦ ground (
      arith,
      framed raw made,
      header_read raw rest,
      uint32-put_uint32 (length raw % 2 ^ 32) (omega arith),
      read_full-append raw rest,
      reads v raw made,
    )
  ]
    where
      framed :
          (raw : Bytes)
          → c.marshal v ≡ some raw
          → (length raw ≤ max_frame_size) × (frame ≡ put_uint32 (length raw % 2 ^ 32) ++ raw)
      framed raw made = ground arith
