-- ===== src/File/Cached/Coherent.antt =====
-- The cache holds what the holders would give, so a read through it gives the same bytes.
use fnshare.Prelude.{
  ℕ, zero, suc, ◌+◌, ◌-◌, ◌<◌, ◌^◌, ◌≡◌, refl, ap, sym, ◌∙◌, subst, inl, inr, true, List, [], ◌∷◌,
  ◌++◌, none, some, arith, Result, ok, Bool-cases, Option-cases, length, ltb,
}
use mathlib.Core.List.{lookup}
use fnshare.Prelude.Assoc.{delete}
use fnshare.Prelude.Bytes.{Bytes, bytes_dec}
use fnshare.Manifest.{Manifest}
use fnshare.File.Cache.{
  CacheEntry, StripeCache, cache_key, evict_loop, evict_locked, move_to_front, stored, put,
}
use fnshare.File.Cache.Entries.{delete_same, delete_other, lookup_same, lookup_other}
use fnshare.File.Cache.Eviction.{Popped, pop_back-Popped, evict_step, evict_rest}
use fnshare.File.Cache.Bounded.{get_hit, get_miss, put_fits, put_large, stored_new, stored_old}
use fnshare.File.Cache.Keys.{cache_key-injective}
use fnshare.File.Cache.{pop_back}
use fnshare.File.Cached.{stripe_bytes}
use fnshare.File.ReadAt.{read_at}
use fnshare.File.ReadAt.Slices.{stripe_of, Serves, Describes, read_at_lem}

evict_empty :
    (fuel max_bytes cur : ℕ) (lru : List CacheEntry)
    → ltb max_bytes cur ≡ true
    → pop_back lru ≡ none
    → evict_loop (suc fuel) max_bytes lru cur ≡ (lru, cur)
unfolding evict_loop
evict_empty fuel max_bytes cur lru over nothing = ground arith

module _ (plain : Bytes → ℕ → Bytes) where
  -- An entry under the key of a stripe holds the plaintext of that stripe.
  abbrev pub Tells : CacheEntry → Type 0
  Tells e = (file_id : Bytes) (idx : ℕ) → cache_key file_id idx ≡ e.0 → e.1 ≡ plain file_id idx

  abbrev pub AllTell : List CacheEntry → Type 0
  AllTell [] = Unit {0}
  AllTell (e ∷ lru) = Tells e × AllTell lru

  abbrev pub IsCoherent : StripeCache → Type 0
  IsCoherent c = AllTell c.lru

  AllTell-front : (xs ys : List CacheEntry) → AllTell (xs ++ ys) → AllTell xs
  AllTell-front [] ys h = tt
  AllTell-front (x ∷ xs) ys h = (h.0, AllTell-front xs ys h.1)

  AllTell-delete :
      (k : Bytes) (lru : List CacheEntry) → AllTell lru → AllTell (delete bytes_dec k lru)
  unfolding delete
  AllTell-delete k [] h = tt
  AllTell-delete k (e ∷ lru) h = elim (bytes_dec k e.0) [
    | yes same ↦ subst AllTell (sym (delete_same k e lru same)) (AllTell-delete k lru h.1)
    | no other ↦ subst AllTell (sym (delete_other k e lru other)) (h.0, AllTell-delete k lru h.1)
  ]

  lookup-Tells :
      (k bytes : Bytes) (lru : List CacheEntry)
      → AllTell lru
      → lookup bytes_dec k lru ≡ some bytes
      → Tells (k, bytes)
  unfolding lookup
  lookup-Tells k bytes [] h found = absurd (ground arith)
  lookup-Tells k bytes (e ∷ lru) h found = elim (bytes_dec k e.0) [
    | yes same ↦
        λ f i key. ground (arith, h.0 f i (key ∙ same), sym (lookup_same k e lru same) ∙ found)
    | no other ↦ lookup-Tells k bytes lru h.1 (sym (lookup_other k e lru other) ∙ found)
  ]

  evict_loop-AllTell :
      (fuel max_bytes cur : ℕ) (lru : List CacheEntry)
      → AllTell lru
      → AllTell (evict_loop fuel max_bytes lru cur).0
  unfolding evict_loop
  evict_loop-AllTell zero max_bytes cur lru h = h
  evict_loop-AllTell (suc fuel) max_bytes cur lru h = elim (Bool-cases (ltb max_bytes cur)) [
    | inr within ↦ subst (λ r. AllTell r.0) (sym (evict_rest (suc fuel) max_bytes cur lru within)) h
    | inl over ↦ elim (Option-cases (pop_back lru)) [
      | inl nothing ↦
          subst (λ r. AllTell r.0) (sym (evict_empty fuel max_bytes cur lru over nothing)) h
      | inr (p, popped) ↦
          let parts : lru ≡ p.0 ++ p.1 ∷ [] = subst (Popped lru) popped (pop_back-Popped lru) in
          subst (λ r. AllTell r.0) (sym (evict_step fuel max_bytes cur lru p.0 p.1 over popped))
            (evict_loop-AllTell fuel max_bytes (cur - length p.1.1) p.0
              (AllTell-front p.0 (p.1 ∷ []) (subst AllTell parts h)))
    ]
  ]

  move_to_front-AllTell :
      (k bytes : Bytes) (lru : List CacheEntry)
      → Tells (k, bytes)
      → AllTell lru
      → AllTell (move_to_front k bytes lru)
  unfolding move_to_front
  move_to_front-AllTell k bytes lru t h = (t, AllTell-delete k lru h)

  stored-IsCoherent :
      (c : StripeCache) (k bytes : Bytes)
      → Tells (k, bytes)
      → IsCoherent c
      → IsCoherent (stored c k bytes)
  stored-IsCoherent c k bytes t h = elim (Option-cases (lookup bytes_dec k c.lru)) [
    | inl new ↦ subst IsCoherent (sym (stored_new c k bytes new)) (t, h)
    | inr (old, had) ↦
        subst IsCoherent (sym (stored_old c k old bytes had))
          (move_to_front-AllTell k bytes c.lru t h)
  ]

  evict_locked-IsCoherent : (c : StripeCache) → IsCoherent c → IsCoherent (evict_locked c)
  unfolding evict_locked
  evict_locked-IsCoherent c h = evict_loop-AllTell (length c.lru) c.max_bytes c.cur_bytes c.lru h

  put-IsCoherent :
      (c : StripeCache) (file_id : Bytes) (idx : ℕ)
      → IsCoherent c
      → IsCoherent (put c file_id idx (plain file_id idx))
  put-IsCoherent c file_id idx h =
      let k = cache_key file_id idx in
      let bytes = plain file_id idx in
      let tells : Tells (k, bytes) = λ f i key.
        (let same = cache_key-injective f file_id i idx key in
          ap (λ (x : Bytes). plain x idx) (sym same.0) ∙ ap (plain f) (sym same.1)) in
      elim (Bool-cases (ltb c.max_bytes (length bytes))) [
        | inl large ↦ subst IsCoherent (sym (put_large c file_id idx bytes (ground arith))) h
        | inr small ↦
            subst IsCoherent (sym (put_fits c file_id idx bytes (ground arith)))
              (evict_locked-IsCoherent (stored c k bytes) (stored-IsCoherent c k bytes tells h))
      ]

  module _ {S E : Type 0} (fetch : S → ℕ → S × Result E Bytes) where
    stripe_bytes_hit :
        (c : StripeCache) (s : S) (file_id bytes : Bytes) (idx : ℕ)
        → lookup bytes_dec (cache_key file_id idx) c.lru ≡ some bytes
        → stripe_bytes fetch file_id (c, s) idx
          ≡ ((record c { lru = move_to_front (cache_key file_id idx) bytes c.lru }, s), ok bytes)
    unfolding stripe_bytes
    stripe_bytes_hit c s file_id bytes idx h = ground (arith, get_hit c file_id idx bytes h)

    stripe_bytes_miss :
        (c : StripeCache) (s : S) (file_id bytes : Bytes) (idx : ℕ)
        → lookup bytes_dec (cache_key file_id idx) c.lru ≡ none
        → (fetch s idx).1 ≡ ok bytes
        → stripe_bytes fetch file_id (c, s) idx
          ≡ ((put c file_id idx bytes, (fetch s idx).0), ok bytes)
    unfolding stripe_bytes
    stripe_bytes_miss c s file_id bytes idx h got = ground (arith, get_miss c file_id idx h)

    -- A good state of the reader: what is cached is right, and the holders serve.
    abbrev GoodReader : (S → Type 0) → StripeCache × S → Type 0
    GoodReader Good r = IsCoherent r.0 × Good r.1

    stripe_bytes-Serves :
        (m : Manifest) (Good : S → Type 0) (content : Bytes)
        → Serves fetch m Good content
        → ((i : ℕ)
            → i < length m.stripes
            → plain m.file_id i ≡ stripe_of m.stripe_data_size content i)
        → Serves (stripe_bytes fetch m.file_id) m (GoodReader Good) content
    stripe_bytes-Serves m Good content serves same (c, s) i good inside =
        let file_id = m.file_id in
        let k = cache_key file_id i in
        let plain_i = plain file_id i in
        let Result_of : (StripeCache × S) × Result E Bytes → Type 0 =
          λ r. GoodReader Good r.0 × (r.1 ≡ ok (stripe_of m.stripe_data_size content i)) in
        elim (Option-cases (lookup bytes_dec k c.lru)) [
          | inr (bytes, hit) ↦
              let tells = lookup-Tells k bytes c.lru good.0 hit in
              subst Result_of (sym (stripe_bytes_hit c s file_id bytes i hit)) (
                (move_to_front-AllTell k bytes c.lru tells good.0, good.1),
                ap ok (tells file_id i refl ∙ same i inside),
              )
          | inl miss ↦
              let served = serves s i good.1 inside in
              let fetched : (fetch s i).1 ≡ ok plain_i = served.1 ∙ ap ok (sym (same i inside)) in
              subst Result_of (sym (stripe_bytes_miss c s file_id plain_i i miss fetched))
                ((put-IsCoherent c file_id i good.0, served.0), ap ok (same i inside))
        ]

    -- When the stripes of a file can be had from the holders and the cache holds nothing false, a
    -- `ReadAt` through the cache returns the bytes and the error that a `ReadAt` without a cache
    -- returns, and leaves a cache that holds nothing false.
    pub read_at-stripe_bytes :
        (m : Manifest) (Good : S → Type 0) (content : Bytes)
        → Serves fetch m Good content
        → Describes fetch m Good content
        → ((i : ℕ)
            → i < length m.stripes
            → plain m.file_id i ≡ stripe_of m.stripe_data_size content i)
        → (c : StripeCache) (s : S) (len offset : ℕ) → IsCoherent c
        → Good s
        → offset + len < 2 ^ 63
        → let r = read_at (stripe_bytes fetch m.file_id) m (c, s) len offset in
          let direct = read_at fetch m s len offset in
          IsCoherent r.0.0 × (r.1 ≡ direct.1) × (r.2 ≡ direct.2)
    read_at-stripe_bytes m Good content serves d same c s len offset coherent good range =
        let cached =
          read_at_lem (stripe_bytes fetch m.file_id) m (GoodReader Good) content
            (stripe_bytes-Serves m Good content serves same)
            (record { positive = d.positive; size = d.size; enough = d.enough }) (c, s) len offset
            (coherent, good) range in
        let direct = read_at_lem fetch m Good content serves d s len offset good range in
        (cached.0.0, cached.1 ∙ sym direct.1, cached.2 ∙ sym direct.2)
