-- ===== src/File/Upload/Stripes.antt =====
-- The stripes of an upload are the pieces of the body, one after the other.
use fnshare.Prelude.{
  ℕ, zero, suc, ◌+◌, ◌*◌, ◌≤◌, ◌<◌, ◌≡◌, refl, ap, sym, ◌∙◌, ◌≢◌, subst, inl, inr, Bool, true,
  false, ◌&&◌, List, [], ◌∷◌, some, arith, ok, err, Result-cases, Bool-cases, length, length-take,
  length-drop, take, drop, drop-drop, get_elem?, ltb, ◌==◌,
}
use fnshare.Prelude.Bytes.{Bytes}
use fnshare.Manifest.{Stripe}
use fnshare.Node.Blocks.{Services, State}
use fnshare.File.Fetch.{Context}
use fnshare.File.Upload.{
  out_of_fuel, Uploaded, with_stripe, Upload, upload_at, after_stripe, put_loop,
}
use fnshare.File.ReadAt.Slices.{stripe_of}

module _ (s : Services) (c : Context s) (u : Upload) (stripe_size : ℕ)
    (positive : 0 < stripe_size) where
  -- The stripes from the index `idx` on are those of the body.
  abbrev pub Cut : ℕ → Bytes → List Stripe → Type 0
  Cut idx body [] = body ≡ []
  Cut idx body (stripe ∷ stripes) =
      ((before : State s) × ((upload_at s c u idx (take stripe_size body) before).1 ≡ ok stripe))
      × Cut (idx + 1) (drop stripe_size body) stripes

  abbrev pub Good : ℕ → Bytes → Uploaded → Type 0
  Good idx body (err e) = Unit {0}
  Good idx body (ok (stripes, total)) = (total ≡ length body) × Cut idx body stripes

  empty_of : (body : Bytes) → length body ≡ 0 → body ≡ []
  empty_of [] h = refl
  empty_of (x ∷ body) h = absurd (omega arith)

  with_stripe-Good :
      (idx : ℕ) (body : Bytes) (stripe : Stripe) (before : State s) (rest : Uploaded)
      → (upload_at s c u idx (take stripe_size body) before).1 ≡ ok stripe
      → stripe_size ≤ length body
      → Good (idx + 1) (drop stripe_size body) rest
      → Good idx body (with_stripe stripe (length (take stripe_size body)) rest)
  with_stripe-Good idx body stripe before (err e) up full h = tt
  with_stripe-Good idx body stripe before (ok (stripes, total)) up full h = (
    omega (arith, h.0, length-take stripe_size body, length-drop stripe_size body),
    ((before, up), h.1),
  )

  short_step :
      (fuel idx : ℕ) (body : Bytes) (st : State s) (stripe : Stripe)
      → (length (take stripe_size body) == 0) ≡ false
      → (upload_at s c u idx (take stripe_size body) st).1 ≡ ok stripe
      → ltb (length body) stripe_size ≡ true
      → (put_loop s c u stripe_size false (suc fuel) idx body st).1
        ≡ ok (stripe ∷ [], length (take stripe_size body))
  unfolding put_loop after_stripe
  short_step fuel idx body st stripe more good short = ground arith

  full_step :
      (fuel idx : ℕ) (body : Bytes) (st : State s) (stripe : Stripe)
      → (upload_at s c u idx (take stripe_size body) st).1 ≡ ok stripe
      → ltb (length body) stripe_size ≡ false
      → (put_loop s c u stripe_size false (suc fuel) idx body st).1
        ≡ with_stripe stripe
            (length (take stripe_size body))
            (put_loop s c u stripe_size false fuel
              (idx + 1)
              (drop stripe_size body)
              (upload_at s c u idx (take stripe_size body) st).0).1
  unfolding put_loop after_stripe
  full_step fuel idx body st stripe good full = ground arith

  pub put_loop-Good :
      (fuel idx : ℕ) (body : Bytes) (st : State s)
      → Good idx body (put_loop s c u stripe_size false fuel idx body st).1
  unfolding put_loop after_stripe
  put_loop-Good zero idx body st = tt
  put_loop-Good (suc fuel) idx body st =
      let chunk = take stripe_size body in
      let up = upload_at s c u idx chunk st in
      elim (Bool-cases (length chunk == 0 && (ltb (length body) stripe_size && true))) [
        | inl ended ↦
            let nothing : length body ≡ 0 = ground (arith, length-take stripe_size body) in
            simp ended (sym nothing, empty_of body nothing)
        | inr more ↦ elim (Result-cases up.1) [
          | inr (e, bad) ↦ simp (more, bad) tt
          | inl (stripe, good) ↦ elim (Bool-cases (ltb (length body) stripe_size)) [
            | inl short ↦
                subst (Good idx body)
                  (sym (short_step fuel idx body st stripe (ground arith) good short))
                  (
                    ground (arith, length-take stripe_size body),
                    (
                      (st, good),
                      empty_of (drop stripe_size body)
                          (ground (arith, length-drop stripe_size body)),
                    ),
                  )
            | inr full ↦ subst (Good idx body) (sym (full_step fuel idx body st stripe good full)) (
                with_stripe-Good idx body stripe st _ good (ground arith)
                  (put_loop-Good fuel (idx + 1) (drop stripe_size body) up.0))
          ]
        ]
      ]

  pub Cut-bytes :
      (idx : ℕ) (body : Bytes) (stripes : List Stripe)
      → Cut idx body stripes
      → length body ≤ length stripes * stripe_size
  Cut-bytes idx body [] h = omega (arith, ap length h)
  Cut-bytes idx body (stripe ∷ stripes) h =
      grind (
        arith,
        Cut-bytes (idx + 1) (drop stripe_size body) stripes h.1,
        length-drop stripe_size body,
      )

  Cut-stripe :
      (i idx : ℕ) (body : Bytes) (stripes : List Stripe) (stripe : Stripe)
      → Cut idx body stripes
      → get_elem? stripes i ≡ some stripe
      → (before : State s) × ((upload_at s c u (idx + i) (stripe_of stripe_size body i) before).1
          ≡ ok stripe)
  unfolding stripe_of
  Cut-stripe i idx body [] stripe h g = absurd (ground arith)
  Cut-stripe zero idx body (x ∷ stripes) stripe h g =
      let first : idx + 0 ≡ idx = omega arith in
      let start : 0 * stripe_size ≡ 0 = omega arith in
      rw (first, start) (h.0.0, h.0.1 ∙ ground arith)
  Cut-stripe (suc i) idx body (x ∷ stripes) stripe h g =
      let next : idx + suc i ≡ idx + 1 + i = omega arith in
      let start : suc i * stripe_size ≡ stripe_size + i * stripe_size = grind arith in
      rw (next, start, ← drop-drop (i * stripe_size) stripe_size body)
        (Cut-stripe i (idx + 1) (drop stripe_size body) stripes stripe h.1 g)

  -- If the loop of `Put` ends well on a body that does not fail, the size is that of the body, the
  -- stripes are enough for it, and each stripe of the manifest is what `uploadStripe` returned for the
  -- piece of the body that is stored at its index.
  pub put_loop_lem :
      (fuel : ℕ) (body : Bytes) (st : State s) (stripes : List Stripe) (total i : ℕ)
      (stripe : Stripe)
      → (put_loop s c u stripe_size false fuel 0 body st).1 ≡ ok (stripes, total)
      → get_elem? stripes i ≡ some stripe
      → (total ≡ length body)
        × (length body ≤ length stripes * stripe_size)
        × ((before : State s) × ((upload_at s c u i (stripe_of stripe_size body i) before).1
              ≡ ok stripe))
  put_loop_lem fuel body st stripes total i stripe h g =
      let all = subst (Good 0 body) h (put_loop-Good fuel 0 body st) in
      (
        all.0,
        Cut-bytes 0 body stripes all.1,
        subst
            (λ (k : ℕ).
              (before : State s) × ((upload_at s c u k (stripe_of stripe_size body i) before).1
                ≡ ok stripe))
            (omega arith) (Cut-stripe i 0 body stripes stripe all.1 g),
      )

  -- The loop ends before its fuel does if that is more than the length of the body.
  pub put_loop_ends :
      (fails : Bool) (fuel idx : ℕ) (body : Bytes) (st : State s)
      → length body < fuel
      → (put_loop s c u stripe_size fails fuel idx body st).1 ≢ err out_of_fuel
  unfolding put_loop after_stripe
  put_loop_ends fails zero idx body st h = absurd (omega arith)
  put_loop_ends fails (suc fuel) idx body st h = elim (Bool-cases (ltb (length body) stripe_size)) [
    | inl short ↦ λ e. ground arith
    | inr full ↦
        let rest =
          put_loop_ends fails fuel (idx + 1) (drop stripe_size body)
            (upload_at s c u idx (take stripe_size body) st).0 in
        λ e. ground (arith, rest (ground (arith, length-drop stripe_size body)))
  ]
