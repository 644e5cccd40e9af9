-- ===== src/File/Keys/Wrapping.antt =====
-- A file key that was wrapped for a manifest comes back, and so does the name of the file.
use fnshare.Prelude.{◌≡◌, ◌⊎◌, sym, inl, inr, true, some, arith, ok, length, Result-cases, subst}
use fnshare.Prelude.Bytes.{Bytes, bytes_dec}
use fnshare.Group.{Group}
use fnshare.Manifest.{Manifest, mode_shared, mode_private}
use fnshare.Crypto.{
  Primitives, PrimitivesLaws, seal_aes, seal_anonymous, open_anonymous, open_aes-seal_aes,
}
use fnshare.File.Keys.{
  Base64, Identity, Wrapped, wrap_for_mode, wrap_shared, wrap_private, unwrap_for_mode,
  unwrap_shared, unwrap_private, maybe_decrypt_filename,
}

module _ (c : Primitives) (laws : PrimitivesLaws c) (b : Base64) (self : Identity) where
  -- The manifest that `Put` writes with the wrapped key, as far as the keys go.
  pub record Carries (m : Manifest) (mode : Bytes) (w : Wrapped) : Type 0 where
    pub mode_is : m.mode ≡ mode
    pub owner_is : m.owner_peer_id ≡ self.self
    pub key_is : m.wrapped_key ≡ w.0
    pub name_is : m.filename ≡ w.1
    pub encrypted_is : m.filename_encrypted ≡ w.2

  open_anonymous-seal_anonymous :
      (text random ct : Bytes)
      → c.pair self.enc_pub self.enc_priv ≡ true
      → length self.enc_priv ≡ 32
      → seal_anonymous c text self.enc_pub (some random) ≡ ok ct
      → open_anonymous c ct self.enc_pub self.enc_priv ≡ ok text
  unfolding seal_anonymous open_anonymous
  open_anonymous-seal_anonymous text random ct p l e =
      ground (arith, laws.box_open-seal self.enc_pub self.enc_priv random text p)

  -- Who can read a file: in the mode `shared` every identity, and the one that wrapped the key, if its
  -- own keys belong together.
  abbrev pub MayRead : Bytes → Identity → Type 0
  MayRead mode reader =
      (mode ≡ mode_shared)
      ⊎ ((reader ≡ self) × (c.pair self.enc_pub self.enc_priv ≡ true) × (length self.enc_priv ≡ 32))

  shared_back :
      (reader : Identity) (m : Manifest) (g : Group) (file_key filename nonce : Bytes) (w : Wrapped)
      → length nonce ≡ 12
      → wrap_shared c b self file_key filename g (some nonce) ≡ ok w
      → Carries m mode_shared w
      → (unwrap_for_mode c b reader m g ≡ ok file_key)
        × (maybe_decrypt_filename c b reader m file_key ≡ filename)
  unfolding wrap_shared unwrap_for_mode unwrap_shared maybe_decrypt_filename
  shared_back reader m g file_key filename nonce w n e carries =
      elim (Result-cases (seal_aes c g.shared_key (some nonce) file_key)) [
        | inr (x, bad) ↦ absurd (ground arith)
        | inl (ct, sealed) ↦
            let opened = (open_aes-seal_aes c laws g.shared_key nonce file_key ct n sealed).0 in
            (
              ground (arith, opened, carries.mode_is, carries.key_is),
              ground (arith, carries.name_is, carries.encrypted_is),
            )
      ]

  module _ (decodes : (s : Bytes) → b.decode (b.encode s) ≡ some s) where
    private_back :
        (m : Manifest) (g : Group) (file_key filename random nonce : Bytes) (w : Wrapped)
        → length nonce ≡ 12
        → c.pair self.enc_pub self.enc_priv ≡ true
        → length self.enc_priv ≡ 32
        → wrap_private c b self file_key filename (some random) (some nonce) ≡ ok w
        → Carries m mode_private w
        → (unwrap_for_mode c b self m g ≡ ok file_key)
          × (maybe_decrypt_filename c b self m file_key ≡ filename)
    unfolding wrap_private unwrap_for_mode unwrap_private maybe_decrypt_filename
    private_back m g file_key filename random nonce w n p l e carries =
        elim (Result-cases (seal_anonymous c file_key self.enc_pub (some random))) [
          | inr (x, bad) ↦ absurd (ground arith)
          | inl (wrapped, boxed) ↦ elim (Result-cases (seal_aes c file_key (some nonce) filename)) [
            | inr (x, bad) ↦ absurd (ground arith)
            | inl (ct, sealed) ↦
                let opened = (open_aes-seal_aes c laws file_key nonce filename ct n sealed).0 in
                let unboxed = open_anonymous-seal_anonymous file_key random wrapped p l boxed in
                (
                  ground (arith, unboxed, carries.mode_is, carries.key_is, carries.owner_is),
                  ground (arith, opened, decodes ct, carries.name_is, carries.encrypted_is),
                )
          ]
        ]

    -- The key and the name of a file come back from a manifest that carries what `wrapForMode` returned
    -- for them: in the mode `shared` whoever unwraps them, owner or not, with the shared key of the
    -- group; in the mode `private` the node that wrapped them, if its keys belong together. The nonce
    -- was 12 bytes, and base64 decodes what it encoded.
    pub unwrap_for_mode-wrap_for_mode :
        (reader : Identity) (m : Manifest) (g : Group) (mode file_key filename random nonce : Bytes)
        (w : Wrapped)
        → length nonce ≡ 12
        → MayRead mode reader
        → wrap_for_mode c b self mode file_key filename g (some random) (some nonce) ≡ ok w
        → Carries m mode w
        → (unwrap_for_mode c b reader m g ≡ ok file_key)
          × (maybe_decrypt_filename c b reader m file_key ≡ filename)
    unfolding wrap_for_mode
    unwrap_for_mode-wrap_for_mode reader m g mode file_key filename random nonce w n may e carries =
        elim (bytes_dec mode mode_shared) [
          | yes shared ↦
              shared_back reader m g file_key filename nonce w n (ground arith)
                (subst (λ k. Carries m k w) shared carries)
          | no other ↦ elim (bytes_dec mode mode_private) [
            | no unknown ↦ absurd (ground arith)
            | yes private ↦ elim may [
              | inl shared ↦ absurd (other shared)
              | inr (same, p, l) ↦
                  subst
                    (λ who.
                      (unwrap_for_mode c b who m g ≡ ok file_key)
                      × (maybe_decrypt_filename c b who m file_key ≡ filename))
                    (sym same)
                    (private_back m g file_key filename random nonce w n p l (ground arith)
                      (subst (λ k. Carries m k w) private carries))
            ]
          ]
        ]
