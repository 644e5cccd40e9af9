-- ===== src/Spool/Worker/Delivery.antt =====
-- What leaves the spool was sent.
use fnshare.Prelude.{
  ◌≡◌, refl, ap, sym, ◌∙◌, ◌⊎◌, inl, inr, Bool, true, false, List, [], ◌∷◌, some, arith, ok,
  Bool-cases, Result-cases, subst,
}
use fnshare.Prelude.Bytes.{Bytes}
use fnshare.Prelude.Paths.{FilePath, path_dec}
use fnshare.Prelude.Assoc.{lookup-delete}
use fnshare.Blockstore.{Files}
use fnshare.Spool.{Kind, shard, manifest, kind_dec, Entry, read, remove}
use fnshare.Spool.Worker.{Flushed, removed, flush_kind, flush_kinds}
use mathlib.Core.List.{lookup}

lookup-removed :
    (refuses : Entry → Bool) (files : Files) (e : Entry) (p : FilePath)
    → (lookup path_dec p (removed refuses files e) ≡ lookup path_dec p files) ⊎ (e.path ≡ p)
unfolding removed remove
lookup-removed refuses files e p = elim (path_dec p e.path) [
  | yes q ↦ inr (sym q)
  | no q ↦ inl (ground (arith, lookup-delete path_dec p e.path files))
]

module _ {S : Type 0} (send : S → Kind → Bytes → Bytes → S × Bool)
    (unreadable refuses : Entry → Bool) (Delivered : S → Kind → Bytes → Bytes → Type 0)
    (delivers : (s : S) (k : Kind) (key bytes : Bytes)
      → (send s k key bytes).1 ≡ true
      → Delivered (send s k key bytes).0 k key bytes)
    (stays : (s : S) (k j : Kind) (key other bytes more : Bytes)
      → Delivered s k key bytes
      → Delivered (send s j other more).0 k key bytes) where
  -- Some entry has this path, and its content was delivered.
  abbrev pub Gone : S → List Entry → FilePath → Bytes → Type 0
  Gone s [] p bytes = ⊥
  Gone s (e ∷ entries) p bytes =
      ((e.path ≡ p) × Delivered s e.kind e.key bytes) ⊎ Gone s entries p bytes

  flush_kind-nil :
      (kind : Kind) (s : S) (files : Files)
      → flush_kind send unreadable refuses kind [] s files ≡ (s, files, true)
  unfolding flush_kind
  flush_kind-nil kind s files = refl

  -- The file is there with its content, or gone.
  abbrev pub There : List Entry → FilePath → Bytes → Flushed S → Type 0
  There entries p bytes r = (lookup path_dec p r.1 ≡ some bytes) ⊎ Gone r.0 entries p bytes

  -- What one entry does: it is skipped, ends the flush, or is sent and removed.
  Step : Kind → Entry → List Entry → S → Files → Type 0
  Step kind e entries s files =
      let r = flush_kind send unreadable refuses kind (e ∷ entries) s files in
      (r ≡ flush_kind send unreadable refuses kind entries s files)
      ⊎ ((bytes : Bytes) × (r ≡ ((send s e.kind e.key bytes).0, files, false)))
      ⊎ ((bytes : Bytes) × (read (unreadable e) files e ≡ ok bytes)
          × ((send s e.kind e.key bytes).1 ≡ true)
          × (r
              ≡ flush_kind send unreadable refuses kind entries (send s e.kind e.key bytes).0
                  (removed refuses files e)))

  flush_kind-Step :
      (kind : Kind) (e : Entry) (entries : List Entry) (s : S) (files : Files)
      → Step kind e entries s files
  unfolding Step flush_kind
  flush_kind-Step kind e entries s files = elim (kind_dec e.kind kind) [
    | no other ↦ inl (ground arith)
    | yes same ↦ elim (Result-cases (read (unreadable e) files e)) [
      | inr (x, bad) ↦ inl (ground arith)
      | inl (bytes, found) ↦ elim (Bool-cases (send s e.kind e.key bytes).1) [
        | inl sent ↦ inr (inr (bytes, found, sent, ground arith))
        | inr failed ↦ inr (inl (bytes, ground arith))
      ]
    ]
  ]

  -- What was delivered stays so.
  flush_kind-stays :
      (kind : Kind) (entries : List Entry) (s : S) (files : Files) (k : Kind) (key bytes : Bytes)
      → Delivered s k key bytes
      → Delivered (flush_kind send unreadable refuses kind entries s files).0 k key bytes
  unfolding Step
  flush_kind-stays kind [] s files k key bytes d = rw (flush_kind-nil kind s files) d
  flush_kind-stays kind (e ∷ entries) s files k key bytes d =
      elim (flush_kind-Step kind e entries s files) [
        | inl skipped ↦ rw skipped (flush_kind-stays kind entries s files k key bytes d)
        | inr other ↦ elim other [
          | inl (content, stopped) ↦ rw stopped (stays s k e.kind key e.key bytes content d)
          | inr (content, found, sent, went_on) ↦ rw went_on (
              flush_kind-stays kind entries _ _ k key bytes
                (stays s k e.kind key e.key bytes content d))
        ]
      ]

  -- A file that is gone after a flush of one kind was the file of an entry that was delivered.
  flush_kind-Gone :
      (kind : Kind) (entries : List Entry) (s : S) (files : Files) (p : FilePath) (bytes : Bytes)
      → lookup path_dec p files ≡ some bytes
      → let r = flush_kind send unreadable refuses kind entries s files in
        (lookup path_dec p r.1 ≡ some bytes) ⊎ Gone r.0 entries p bytes
  unfolding Step read
  flush_kind-Gone kind [] s files p bytes h = inl (rw (flush_kind-nil kind s files) h)
  flush_kind-Gone kind (e ∷ entries) s files p bytes h =
      elim (flush_kind-Step kind e entries s files) [
        | inl skipped ↦ subst (There (e ∷ entries) p bytes) (sym skipped) (
            later (flush_kind send unreadable refuses kind entries s files)
              (flush_kind-Gone kind entries s files p bytes h))
        | inr other ↦ elim other [
          | inl (content, stopped) ↦ subst (There (e ∷ entries) p bytes) (sym stopped) (inl h)
          | inr (content, found, sent, went_on) ↦
              let s' = (send s e.kind e.key content).0 in
              let files' = removed refuses files e in
              subst (There (e ∷ entries) p bytes) (sym went_on)
                (elim (lookup-removed refuses files e p) [
                  | inl kept ↦
                      later (flush_kind send unreadable refuses kind entries s' files')
                        (flush_kind-Gone kind entries s' files' p bytes (kept ∙ h))
                  | inr mine ↦
                      let same : content ≡ bytes =
                        ground (arith, ap (λ q. lookup path_dec q files) mine) in
                      let d =
                        subst (λ x. Delivered s' e.kind e.key x) same
                          (delivers s e.kind e.key content sent) in
                      inr (inl (mine, flush_kind-stays kind entries s' files' e.kind e.key bytes d))
                ])
        ]
      ]
    where
      later : (r : Flushed S) → There entries p bytes r → There (e ∷ entries) p bytes r
      later r (inl there) = inl there
      later r (inr gone) = inr (inr gone)

  Gone-stays :
      (kind : Kind) (all entries : List Entry) (s : S) (files : Files) (p : FilePath)
      (bytes : Bytes)
      → Gone s entries p bytes
      → Gone (flush_kind send unreadable refuses kind all s files).0 entries p bytes
  Gone-stays kind all [] s files p bytes h = absurd h
  Gone-stays kind all (e ∷ entries) s files p bytes (inl (here, d)) =
      inl (here, flush_kind-stays kind all s files e.kind e.key bytes d)
  Gone-stays kind all (e ∷ entries) s files p bytes (inr later) =
      inr (Gone-stays kind all entries s files p bytes later)

  -- After both rounds of `flushPeer` each file of the disk is there with its content, or it was the
  -- file of an entry whose content was sent with success: nothing leaves the spool undelivered,
  -- wherever a send, a read or a removal fails.
  pub flush_kinds-Gone :
      (entries : List Entry) (s : S) (files : Files) (p : FilePath) (bytes : Bytes)
      → lookup path_dec p files ≡ some bytes
      → let r = flush_kinds send unreadable refuses entries s files in
        (lookup path_dec p r.1 ≡ some bytes) ⊎ Gone r.0 entries p bytes
  unfolding flush_kinds
  flush_kinds-Gone entries s files p bytes h =
      let first = flush_kind send unreadable refuses shard entries s files in
      elim (Bool-cases first.2) [
        | inr gave_up ↦ simp gave_up (flush_kind-Gone shard entries s files p bytes h)
        | inl answers ↦ elim (flush_kind-Gone shard entries s files p bytes h) [
          | inl there ↦
              simp answers (flush_kind-Gone manifest entries first.0 first.1 p bytes there)
          | inr gone ↦
              simp answers (inr (Gone-stays manifest entries entries first.0 first.1 p bytes gone))
        ]
      ]
