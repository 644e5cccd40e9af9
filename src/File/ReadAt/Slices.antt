-- ===== src/File/ReadAt/Slices.antt =====
-- `ReadAt` returns the slice of the plaintext that was asked for.
use fnshare.Prelude.{
  ℕ, zero, suc, ◌+◌, ◌-◌, ◌*◌, ◌/◌, ◌^◌, ◌≤◌, ◌<◌, min, ◌≡◌, refl, ap, sym, ◌∙◌, true, false, ◌&&◌,
  ◌||◌, ◌++◌, none, some, arith, Result, ok, if◌then◌else◌, length, length-take, length-drop, take,
  drop, Bool-cases, inl, inr, ltb→lt, drop-take, drop-drop, take-take, take-add, take_of_length-le,
  take-nil, drop_of_length-le, leb→le, ltb, leb, ◌==◌,
}
use fnshare.Prelude.Bytes.{Bytes}
use fnshare.Manifest.{Manifest}
use fnshare.File.ReadAt.{Outcome, eof, copy_stripe, read_round, read_loop, end_of, at_end, read_at}
use native.Mathlib.Nat.{div-add-mod, mod-lt}

-- Stripe `i` of a content that is cut every `n` bytes.
unfoldable pub stripe_of : ℕ → Bytes → ℕ → Bytes
stripe_of n content i = take n (drop (i * n) content)

lt_of_mul : (a b n : ℕ) → a * n < b * n → a < b
lt_of_mul a b n h = grind arith

positive : (n : ℕ) → 0 < n → (n == 0) ≡ false
positive n h = ground arith

below : (a b : ℕ) → a < b → leb b a ≡ false
below a b h = ground arith

ltb_false→le : (a b : ℕ) → ltb a b ≡ false → b ≤ a
ltb_false→le a b h = ground arith

leb_false→lt : (a b : ℕ) → leb a b ≡ false → b < a
leb_false→lt a b h = ground arith

take-min-length : (n : ℕ) (xs : Bytes) → take n xs ≡ take (min n (length xs)) xs
take-min-length n xs =
    ap (take n) (sym (take_of_length-le (length xs) xs (omega arith))) ∙ take-take n (length xs) xs

module _ {S E : Type 0} (stripe_bytes : S → ℕ → S × Result E Bytes) (m : Manifest)
    (Good : S → Type 0) (content : Bytes) where
  -- In a good state the stripes of the content are served, and the state stays good.
  abbrev pub Serves : Type 0
  Serves =
      (s : S) (i : ℕ)
      → Good s
      → i < length m.stripes
      → Good (stripe_bytes s i).0
        × ((stripe_bytes s i).1 ≡ ok (stripe_of m.stripe_data_size content i))

  -- The manifest describes the content.
  pub record Describes : Type 0 where
    pub positive : 0 < m.stripe_data_size
    pub size : m.size ≡ length content
    pub enough : length content ≤ length m.stripes * m.stripe_data_size

  abbrev Copied : ℕ → ℕ → Outcome S E → Type 0
  Copied cur end r = Good r.0 × (r.1 ≡ take (end - cur) (drop cur content)) × (r.2 ≡ none)

  -- Where `cur` stands in the stripe that holds it.
  in_stripe :
      (cur : ℕ)
      → 0 < m.stripe_data_size
      → let n = m.stripe_data_size in (cur / n * n ≤ cur) × (cur - cur / n * n < n)
  in_stripe cur h = (
    omega (arith, div-add-mod cur m.stripe_data_size, mod-lt cur h),
    omega (arith, div-add-mod cur m.stripe_data_size, mod-lt cur h),
  )

  chunk :
      (cur want : ℕ)
      → let n = m.stripe_data_size in
        let i = cur / n in
        0 < n
        → want ≤ n - (cur - i * n)
        → take want (drop (cur - i * n) (stripe_of n content i)) ≡ take want (drop cur content)
  unfolding stripe_of
  chunk cur want h le =
      let n = m.stripe_data_size in
      let i = cur / n in
      let o = cur - i * n in
      ap (take want) (
        drop-take o n (drop (i * n) content)
        ∙ ap (take (n - o)) (
            drop-drop o (i * n) content
            ∙ ap (λ (k : ℕ). drop k content) (omega (arith, in_stripe cur h))))
      ∙ take-take want (n - o) (drop cur content)
      ∙ ap (λ (k : ℕ). take k (drop cur content)) (omega arith)

  copy_stripe_lem :
      (go_on : S → ℕ → Outcome S E) (cur in_start end : ℕ) (s : S) (stripe : Bytes)
      → in_start < length stripe
      → cur < end
      → let want = min (end - cur) (length stripe - in_start) in
        copy_stripe go_on cur in_start end (s, ok stripe) ≡ (
          (go_on s (cur + want)).0,
          take want (drop in_start stripe) ++ (go_on s (cur + want)).1,
          (go_on s (cur + want)).2,
        )
  unfolding copy_stripe
  copy_stripe_lem go_on cur in_start end s stripe h k = ground arith

  -- The stripe that holds `cur` is there, and reaches beyond `cur`.
  stripe_index :
      (cur : ℕ) → Describes → cur < length content → cur / m.stripe_data_size < length m.stripes
  stripe_index cur d h =
      lt_of_mul _ _ m.stripe_data_size (omega (arith, (in_stripe cur d.positive).0, d.enough))

  stripe_length :
      (cur : ℕ)
      → Describes
      → cur < length content
      → let n = m.stripe_data_size in cur - cur / n * n < length (stripe_of n content (cur / n))
  unfolding stripe_of
  stripe_length cur d h =
      let n = m.stripe_data_size in
      omega (
        arith,
        in_stripe cur d.positive,
        length-take n (drop (cur / n * n) content),
        length-drop (cur / n * n) content,
      )

  -- A round copies the rest of the stripe, or what is wanted of it, and goes on behind that.
  read_round_lem :
      (serves : Serves) (d : Describes) (go_on : S → ℕ → Outcome S E) (s : S) (cur end : ℕ)
      → Good s
      → end ≤ length content
      → cur < end
      → let n = m.stripe_data_size in
        let i = cur / n in
        let stripe = stripe_of n content i in
        let want = min (end - cur) (length stripe - (cur - i * n)) in
        let after = go_on (stripe_bytes s i).0 (cur + want) in
        read_round stripe_bytes m go_on s cur end
        ≡ (after.0, take want (drop (cur - i * n) stripe) ++ after.1, after.2)
  unfolding read_round
  read_round_lem serves d go_on s cur end g le ce =
      rw (positive m.stripe_data_size d.positive, below _ _ (stripe_index cur d (omega arith)))
        (ap (λ (x : Result E Bytes). copy_stripe go_on cur o end ((stripe_bytes s i).0, x))
            (serves s i g (stripe_index cur d (omega arith))).1
          ∙ copy_stripe_lem go_on cur o end (stripe_bytes s i).0 (stripe_of n content i)
              (stripe_length cur d (omega arith)) ce)
    where
      n : ℕ
      n = m.stripe_data_size

      i : ℕ
      i = cur / n

      o : ℕ
      o = cur - i * n

  stripe_length-le : (i : ℕ) → length (stripe_of m.stripe_data_size content i) ≤ m.stripe_data_size
  unfolding stripe_of
  stripe_length-le i =
      omega (arith, length-take m.stripe_data_size (drop (i * m.stripe_data_size) content))

  rejoined :
      (cur end want : ℕ) {rest : Bytes}
      → want ≤ end - cur
      → rest ≡ take (end - (cur + want)) (drop (cur + want) content)
      → take want (drop cur content) ++ rest ≡ take (end - cur) (drop cur content)
  rejoined cur end want {rest} h e =
      ap (◌++◌ (take want (drop cur content)))
        (e ∙ ap (take (end - (cur + want))) (sym (drop-drop want cur content)))
      ∙ sym (take-add want (end - (cur + want)) (drop cur content))
      ∙ ap (λ (k : ℕ). take k (drop cur content)) (omega arith)

  read_loop_lem :
      (serves : Serves) (d : Describes) (fuel : ℕ) (s : S) (cur end : ℕ)
      → Good s
      → end ≤ length content
      → cur ≤ end
      → end - cur < fuel
      → Copied cur end (read_loop stripe_bytes m fuel s cur end)
  unfolding read_loop
  read_loop_lem serves d zero s cur end g le ce f = absurd (omega arith)
  read_loop_lem serves d (suc fuel) s cur end g le ce f = elim (Bool-cases (ltb cur end)) [
    | inr over ↦ rw over (
      g,
      sym (
          ap (λ (k : ℕ). take k (drop cur content)) {y = 0}
            (omega (arith, ltb_false→le cur end over))),
      refl,
    )
    | inl more ↦
        rw
          (
            more,
            read_round_lem serves d (λ s' c. read_loop stripe_bytes m fuel s' c end) s cur end g le
                (ltb→lt cur end more),
          )
          (let rest =
              read_loop_lem serves d fuel (stripe_bytes s i).0 (cur + want) end
                (serves s i g (index more)).0 le (omega arith) (omega (arith, wanted more)) in
            (rest.0, copied (rest.1), rest.2))
  ]
    where
      n : ℕ
      n = m.stripe_data_size

      i : ℕ
      i = cur / n

      want : ℕ
      want = min (end - cur) (length (stripe_of n content i) - (cur - i * n))

      wanted : ltb cur end ≡ true → 0 < want
      wanted more =
          omega
            (arith, stripe_length cur d (omega (arith, ltb→lt cur end more)), ltb→lt cur end more)

      index : ltb cur end ≡ true → i < length m.stripes
      index more = stripe_index cur d (omega (arith, ltb→lt cur end more))

      fits : want ≤ n - (cur - i * n)
      fits = omega (arith, stripe_length-le i)

      copied :
          {rest : Bytes}
          → rest ≡ take (end - (cur + want)) (drop (cur + want) content)
          → take want (drop (cur - i * n) (stripe_of n content i)) ++ rest
            ≡ take (end - cur) (drop cur content)
      copied {rest} e =
          ap (λ (x : Bytes). x ++ rest) (chunk cur want d.positive fits)
          ∙ rejoined cur end want (omega arith) e

  at_end_lem :
      (len offset : ℕ) (r : Outcome S E)
      → r.2 ≡ none
      → at_end stripe_bytes m len offset r ≡ (
        r.0,
        r.1,
        if ltb (length r.1) len && leb m.size (offset + length r.1) then some eof else none,
      )
  unfolding at_end
  at_end_lem len offset (s, out, none) h = ground arith
  at_end_lem len offset (s, out, some e) h = absurd (ground arith)

  read_inside :
      (serves : Serves) (d : Describes) (s : S) (len offset : ℕ)
      → Good s
      → offset + len < 2 ^ 63
      → offset < length content
      → let r =
          at_end stripe_bytes m len offset
            (read_loop stripe_bytes m (suc len) s offset (end_of stripe_bytes m len offset)) in
        Good r.0
        × (r.1 ≡ take len (drop offset content))
        × (r.2 ≡ (if ltb (length content) (offset + len) then some eof else none))
  unfolding end_of
  read_inside serves d s len offset g h inside =
      rw (at_end_lem len offset r copied.2) (copied.0, whole, ground (arith, d.size, size))
    where
      end : ℕ
      end = end_of stripe_bytes m len offset

      end_eq : end ≡ min (offset + len) (length content)
      end_eq = ground (arith, d.size, h)

      r : Outcome S E
      r = read_loop stripe_bytes m (suc len) s offset end

      copied : Copied offset end r
      copied =
          read_loop_lem serves d (suc len) s offset end g (omega (arith, end_eq))
            (omega (arith, end_eq)) (omega (arith, end_eq))

      whole : r.1 ≡ take len (drop offset content)
      whole =
          copied.1
          ∙ ap (λ (k : ℕ). take k (drop offset content))
              {y = min len (length (drop offset content))}
              (omega (arith, end_eq, length-drop offset content))
          ∙ sym (take-min-length len (drop offset content))

      size : length r.1 ≡ min len (length content - offset)
      size = omega (
        arith,
        ap length whole,
        length-take len (drop offset content),
        length-drop offset content,
      )

  -- Of a file whose stripes can be had, `ReadAt` returns the bytes of the plaintext from the offset
  -- on, as many as fit in `dst`, and the error `io.EOF` exactly if the plaintext ends before the
  -- end of `dst` or at the offset.
  pub read_at_lem :
      (serves : Serves) (d : Describes) (s : S) (len offset : ℕ)
      → Good s
      → offset + len < 2 ^ 63
      → let r = read_at stripe_bytes m s len offset in
        Good r.0
        × (r.1 ≡ take len (drop offset content))
        × (r.2 ≡ (
            if leb (length content) offset || ltb (length content) (offset + len)
            then some eof
            else none))
  unfolding read_at
  read_at_lem serves d s len offset g h = elim (Bool-cases (leb m.size offset)) [
    | inl past ↦
        rw (past, drop_of_length-le offset content (omega (arith, leb→le _ _ past, d.size)))
          (g, sym (take-nil len), ground (arith, d.size))
    | inr inside ↦
        let r =
          read_inside serves d s len offset g h (omega (arith, leb_false→lt _ _ inside, d.size)) in
        rw inside (r.0, r.1, ground (arith, r.2, inside, d.size))
  ]
