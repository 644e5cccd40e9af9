-- ===== src/File/Put/Drafted.antt =====
-- What a draft of `Put` says of the upload.
use fnshare.Prelude.{
  ◌+◌, ◌≡◌, refl, subst, true, List, Option, none, some, arith, Result, ok, err, ok-injective,
  >>=-elim, guard-true, guard, or_fail, not, length, ltb,
}
use fnshare.Prelude.Bytes.{Bytes}
use fnshare.Prelude.Clock.{Time}
use fnshare.Blockstore.{hex}
use fnshare.Group.{Group}
use fnshare.Holders
use fnshare.Holders.Stability.{length-pick}
use fnshare.Crypto.{new_file_key}
use fnshare.File.Keys.{Wrapped, resolve_group, wrap_for_mode}
use fnshare.File.Service.{FileService, group_member_ids}
use fnshare.File.Put.{
  PutError, unresolved, unknown_mode, no_randomness, crypto_failed, members_failed, wrap_failed,
  or_error, mode_of, known_mode, too_few, manifest_for, PutOptions, Draws, Draft, draft,
}

module _ (f : FileService) where
  or_error-ok :
      {A E : Type 0} (g : E → PutError) (r : Result E A) {a : A} → or_error g r ≡ ok a → r ≡ ok a
  or_error-ok g (ok b) e = cc
  or_error-ok g (err x) e = absurd (cc)

  new_file_key-some :
      (random : Option Bytes) (key : Bytes) → new_file_key random ≡ ok key → random ≡ some key
  unfolding new_file_key
  new_file_key-some none key e = absurd (cc)
  new_file_key-some (some x) key e = cc

  -- What a draft says of the upload.
  pub record Drafted (draws : Draws) (filename : Bytes) (opts : PutOptions) (db : f.deps.badger.Db)
      (d : Draft) : Type 0 where
    pub data_shards : d.manifest.data_shards ≡ f.params.data_shards
    pub parity_shards : d.manifest.parity_shards ≡ f.params.parity_shards
    pub stripe_data_size : d.manifest.stripe_data_size ≡ f.stripe_size
    pub holders : length d.manifest.holders ≡ f.params.data_shards + f.params.parity_shards
    pub owner : d.manifest.owner_peer_id ≡ f.identity.self
    pub mode : d.manifest.mode ≡ mode_of opts.mode
    pub group : d.manifest.group_id ≡ d.group.id
    pub key : draws.file_key ≡ some d.file_key
    pub resolved : resolve_group f.deps db opts.group_id ≡ ok d.group
    pub wrapped : Wrapped
    pub wraps :
        wrap_for_mode f.primitives f.base64 f.identity
          (mode_of opts.mode)
          d.file_key
          filename
          d.group
          draws.wrap_random
          draws.wrap_nonce
        ≡ ok wrapped
    pub key_is : d.manifest.wrapped_key ≡ wrapped.0
    pub name_is : d.manifest.filename ≡ wrapped.1
    pub encrypted_is : d.manifest.filename_encrypted ≡ wrapped.2

  -- The literal of the manifest says so, if enough members are there.
  manifest_for-Drafted :
      (now : Time) (draws : Draws) (filename id : Bytes) (db : f.deps.badger.Db) (g : Group)
      (ids : List Bytes) (opts : PutOptions) (file_key : Bytes) (w : Wrapped)
      → draws.file_key ≡ some file_key
      → resolve_group f.deps db opts.group_id ≡ ok g
      → wrap_for_mode f.primitives f.base64 f.identity
          (mode_of opts.mode)
          file_key
          filename
          g
          draws.wrap_random
          draws.wrap_nonce
        ≡ ok w
      → let slots = f.params.data_shards + f.params.parity_shards in
        not (ltb (length ids) slots) ≡ true
        → Drafted draws filename opts db (record {
          group = g;
          file_key = file_key;
          manifest =
              manifest_for f now id g (Holders.pick f.sha256 ids id slots) (mode_of opts.mode) w;
        })
  unfolding manifest_for
  manifest_for-Drafted now draws filename id db g ids opts file_key w drawn found wraps enough =
      record {
        data_shards = refl;
        parity_shards = refl;
        stripe_data_size = refl;
        holders =
            ground
              (arith, length-pick f.sha256 id ids (f.params.data_shards + f.params.parity_shards));
        owner = refl;
        mode = refl;
        group = refl;
        key = drawn;
        resolved = found;
        wrapped = w;
        wraps = wraps;
        key_is = refl;
        name_is = refl;
        encrypted_is = refl;
      }

  pub draft-Drafted :
      (now : Time) (draws : Draws) (filename : Bytes) (opts : PutOptions) (db : f.deps.badger.Db)
      (d : Draft)
      → draft f now draws filename opts db ≡ ok d
      → Drafted draws filename opts db d
  unfolding draft
  draft-Drafted now draws filename opts db d e =
      let mode = mode_of opts.mode in
      let slots = f.params.data_shards + f.params.parity_shards in
      >>=-elim (or_error unresolved (resolve_group f.deps db opts.group_id)) _ e λ g resolved e1.
        >>=-elim (guard (known_mode mode) (unknown_mode mode)) _ e1 λ u known e2.
          >>=-elim (or_fail draws.file_id no_randomness) _ e2 λ raw drawn e3.
            >>=-elim (or_error crypto_failed (new_file_key draws.file_key)) _ e3 λ file_key made e4.
              >>=-elim (or_error members_failed (group_member_ids f.deps db g.id)) _ e4
                λ ids listed e5.
                  >>=-elim (guard (not (ltb (length ids) slots)) (too_few g (length ids) slots)) _
                    e5
                    λ v enough e6.
                      >>=-elim
                        (or_error wrap_failed (
                          wrap_for_mode f.primitives f.base64 f.identity mode file_key filename g
                            draws.wrap_random draws.wrap_nonce))
                        _ e6
                        λ w wrapped e7.
                          subst (Drafted draws filename opts db) (ok-injective _ d e7) (
                            manifest_for-Drafted now draws filename (hex raw) db g ids opts file_key
                              w
                              (new_file_key-some draws.file_key file_key
                                (or_error-ok crypto_failed _ made))
                              (or_error-ok unresolved _ resolved)
                              (or_error-ok wrap_failed _ wrapped)
                              (guard-true (not (ltb (length ids) slots))
                                (too_few g (length ids) slots) enough))
