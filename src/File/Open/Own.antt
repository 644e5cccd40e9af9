-- ===== src/File/Open/Own.antt =====
-- The node that put a file opens it.
use fnshare.Prelude.{
  ◌≡◌, refl, inr, ap, sym, ◌∙◌, true, Option, some, arith, ok, ok-injective, length,
}
use fnshare.Prelude.Bytes.{Bytes}
use fnshare.Prelude.Clock.{Time, to_seconds}
use fnshare.Codec.{ReadsBack}
use fnshare.Store.{BadgerLaws}
use fnshare.Blockstore.{Disk}
use fnshare.Crypto.{PrimitivesLaws}
use fnshare.Group
use fnshare.Group.{Group}
use fnshare.Manifest
use fnshare.Manifest.{Manifest}
use fnshare.Node.Blocks.{State, Response}
use mathlib.Core.Option.{some-injective}
use fnshare.File.Keys.{resolve_group, wrap_for_mode, unwrap_for_mode, maybe_decrypt_filename}
use fnshare.File.Keys.Wrapping.{Carries, unwrap_for_mode-wrap_for_mode}
use fnshare.File.Service.{FileService, services}
use fnshare.File.Put.{PutOptions, Draws, Answers, Body, put, mode_of}
use fnshare.File.Put.Drafted.{draft-Drafted}
use fnshare.File.Put.Went.{put-Went}
use fnshare.File.Put.Recorded.{put-Recorded}
use fnshare.File.Open.{find_manifest, reader_for, open_reader}

-- The format keeps the time of a manifest in whole seconds.
abbrev pub kept : Manifest → Manifest
kept m = record m { created_at = to_seconds m.created_at }

module _ (f : FileService) where
  open_of_parts :
      (answer : Bytes → Option Response) (st : State (services f)) (file_id key name : Bytes)
      (m : Manifest) (g : Group)
      → Manifest.get f.deps.badger f.manifests st.db file_id ≡ ok m
      → Group.load_by_id f.deps st.db m.group_id ≡ ok g
      → unwrap_for_mode f.primitives f.base64 f.identity m g ≡ ok key
      → maybe_decrypt_filename f.primitives f.base64 f.identity m key ≡ name
      → (open_reader f answer st file_id).1
        ≡ ok (record { manifest = m; key = key; decrypted_filename = name })
  unfolding open_reader find_manifest reader_for
  open_of_parts answer st file_id key name m g found loaded unwrapped named = ground arith

  -- After `Put` the same node opens the file, whether a holder could be reached or not: the reader has
  -- the manifest that `Put` returned, with its time in whole seconds, the key that was drawn, and the
  -- name that was given, in both modes. The nonce of the wrapping was 12 bytes, the store still gives
  -- the group, base64 decodes what it encoded, and the keys of the node belong together.
  pub open_reader-put :
      (laws : BadgerLaws f.deps.badger) (aes : PrimitivesLaws f.primitives)
      (decodes : (s : Bytes) → f.base64.decode (f.base64.encode s) ≡ some s) (now : Time)
      (disk : Disk) (draws : Draws) (answers : Answers) (filename : Bytes) (body : Body)
      (opts : PutOptions) (st : State (services f)) (m : Manifest)
      (answer : Bytes → Option Response) (g : Group) (key random nonce : Bytes)
      → ReadsBack f.manifests kept
      → f.primitives.pair f.identity.enc_pub f.identity.enc_priv ≡ true
      → length f.identity.enc_priv ≡ 32
      → draws.file_key ≡ some key
      → draws.wrap_random ≡ some random
      → draws.wrap_nonce ≡ some nonce
      → length nonce ≡ 12
      → resolve_group f.deps st.db opts.group_id ≡ ok g
      → (put f now disk draws answers filename body opts st).1 ≡ ok m
      → let after = (put f now disk draws answers filename body opts st).0 in
        Group.load_by_id f.deps after.db g.id ≡ ok g
        → (open_reader f answer after m.file_id).1
          ≡ ok (record { manifest = kept m; key = key; decrypted_filename = filename })
  open_reader-put laws aes decodes now disk draws answers filename body opts st m answer g key
        random nonce reads pair private drawn drawn_random drawn_nonce n12 resolved e loaded =
      let after = (put f now disk draws answers filename body opts st).0 in
      let w = put-Went f now disk draws answers filename body opts st m e in
      let d = w.drafted in
      let drafted = draft-Drafted f now draws filename opts st.db d w.from_draft in
      let made = w.finished.made in
      let here = put-Recorded f laws kept now disk draws answers filename body opts st m reads e in
      let group_is : d.group ≡ g = ok-injective _ _ (sym drafted.resolved ∙ resolved) in
      let file_key_is : d.file_key ≡ key = some-injective _ _ (sym drafted.key ∙ drawn) in
      let mode = mode_of opts.mode in
      let wraps : wrap_for_mode f.primitives f.base64 f.identity mode key filename g (some random)
            (some nonce)
          ≡ ok drafted.wrapped =
        ground (arith, drafted.wraps, group_is, file_key_is, drawn_random, drawn_nonce) in
      let carries : Carries f.primitives aes f.base64 f.identity (kept m) mode drafted.wrapped =
        record {
          mode_is = here.6;
          owner_is = here.5;
          key_is = ap (λ (x : Manifest). x.wrapped_key) made ∙ drafted.key_is;
          name_is = ap (λ (x : Manifest). x.filename) made ∙ drafted.name_is;
          encrypted_is = ap (λ (x : Manifest). x.filename_encrypted) made ∙ drafted.encrypted_is;
        } in
      let unwrapped =
        unwrap_for_mode-wrap_for_mode f.primitives aes f.base64 f.identity decodes f.identity
          (kept m) g mode key filename random nonce drafted.wrapped n12 (inr (refl, pair, private))
          wraps carries in
      let group_id_is : m.group_id ≡ g.id =
        ap (λ (x : Manifest). x.group_id) made
        ∙ drafted.group
        ∙ ap (λ (x : Group). x.id) group_is in
      open_of_parts answer after m.file_id key filename (kept m) g here.0
        (ap (Group.load_by_id f.deps after.db) group_id_is ∙ loaded) unwrapped.0 unwrapped.1
