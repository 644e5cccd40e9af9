-- ===== src/Tests/Services.antt =====
-- A wrapped key, holders, the spool and a session.
use fnshare.Prelude.{
  take, ◌++◌, length, ite, ◌≢◌, ap, ◌∙◌, refl, true, false, Bool, List, [], ◌∷◌, ◌++◌, some, ok,
  ◌≡◌, ◌⊎◌, arith, inl, inr,
}
use fnshare.Prelude.Bytes.{Bytes, codes, bytes_dec}
use fnshare.Prelude.Clock.{zero_time}
use fnshare.Prelude.Paths.{FilePath, path_dec}
use fnshare.Manifest.{Manifest}
use fnshare.Group.{Group}
use fnshare.File.Keys.{Base64, Identity, unwrap_for_mode, maybe_decrypt_filename}
use fnshare.File.Keys.Wrapping.{unwrap_for_mode-wrap_for_mode}
use fnshare.Holders.{pick, weight, uint64}
use fnshare.Holders.Stability.{Untied, pick_any_order, pick-join}
use fnshare.Spool.{Kind, Entry}
use fnshare.Spool
use fnshare.Spool.Worker.{flush_kinds}
use fnshare.Spool.Worker.Delivery.{There, flush_kinds-Gone}
use fnshare.Auth.{Bcrypt, key_password_hash, validate_session}
use fnshare.Auth.Sessions.{Event, login, validated, logged_out, after, validate_session_lem}
use fnshare.Store.Memory.{MemoryDb, memory, empty_db}
use fnshare.Heartbeat.{Probe, run_probes}
use fnshare.Heartbeat.Order.{DifferentPeers, SameLedger, run_probes_any_order}
use mathlib.Core.List.Pairwise
use fnshare.Tests.Instances.{never, zeros, tag, plain, plain-PrimitivesLaws}
use mathlib.Core.List.{lookup, Permᴰ, Mem, eq-or-mem_of_mem-cons, not-mem-nil}
use mathlib.Core.Logic.Or

abbrev me : Identity
me = record { self = codes "me"; enc_pub = zeros; enc_priv = zeros }

-- base64 that writes the text itself.
abbrev plain_text : Base64
plain_text = record { encode = λ s. s; decode = λ s. some s }

abbrev group : Group
group = record {
  id = codes "g";
  name = codes "friends";
  admin_pub = zeros;
  admin_priv = [];
  created_at = zero_time;
  is_admin_node = false;
  shared_key = zeros;
}

abbrev shared_file : Manifest
shared_file = record {
  file_id = codes "file";
  group_id = codes "g";
  filename = codes "a.txt";
  size = 5;
  data_shards = 1;
  parity_shards = 2;
  stripe_data_size = 8;
  holders = [];
  stripes = [];
  created_at = zero_time;
  owner_peer_id = codes "me";
  mode = codes "shared";
  wrapped_key = codes "twelve bytes" ++ (zeros ++ tag);
  filename_encrypted = false;
}

-- Another member, who has no keys of its own, reads what this node wrapped.
abbrev you : Identity
you = record { self = codes "you"; enc_pub = []; enc_priv = [] }

unwrap_for_mode-wrap_for_mode_example :
    (unwrap_for_mode plain plain_text you shared_file group ≡ ok zeros)
    × (maybe_decrypt_filename plain plain_text you shared_file zeros ≡ codes "a.txt")
unfolding fnshare.File.Keys.wrap_for_mode bytes_dec fnshare.File.Keys.wrap_shared
    fnshare.Crypto.seal_aes
unwrap_for_mode-wrap_for_mode_example =
    unwrap_for_mode-wrap_for_mode plain plain-PrimitivesLaws plain_text me (λ s. refl) you
      shared_file group (codes "shared") zeros (codes "a.txt") [] (codes "twelve bytes")
      (codes "twelve bytes" ++ (zeros ++ tag), codes "a.txt", false) refl (inl refl) refl
      (record {
        mode_is = refl;
        owner_is = refl;
        key_is = refl;
        name_is = refl;
        encrypted_is = refl;
      })

-- The hash of a member and a key is the text itself, so that a member weighs what its name says.
abbrev text : Bytes → Bytes
text s = s

one_of : (p a b : Bytes) {C : Type 0} → IsProp C → Mem p (a ∷ b ∷ []) → ((p ≡ a) ⊎ (p ≡ b) → C) → C
one_of p a b prop m k =
    Or.elim prop (eq-or-mem_of_mem-cons m) (λ e. k (inl e))
      (λ rest.
        Or.elim prop (eq-or-mem_of_mem-cons rest) (λ e. k (inr e))
          (λ none_left. absurd (not-mem-nil none_left)))

names_set : (p q : Bytes) → IsProp (p ≡ q)
names_set p q = hlevel

untied : Untied text (codes "k") (codes "al" ∷ codes "bo" ∷ [])
unfolding weight uint64
untied p q i j e =
    one_of p _ _ (names_set p q) i (λ a. one_of q _ _ (names_set p q) j (λ b. ground arith))

pick_any_order_example :
    pick text (codes "al" ∷ codes "bo" ∷ []) (codes "k") 1
    ≡ pick text (codes "bo" ∷ codes "al" ∷ []) (codes "k") 1
pick_any_order_example =
    pick_any_order text (codes "k") 1 (codes "al" ∷ codes "bo" ∷ []) (codes "bo" ∷ codes "al" ∷ [])
      (Permᴰ.swap refl refl) untied

pick-join_example :
    (pick text (codes "bo" ∷ codes "al" ∷ []) (codes "k") 1
      ≡ pick text (codes "bo" ∷ []) (codes "k") 1)
    ⊎ ((before : List Bytes) × (after : List Bytes) × (take 0
            (pick text (codes "bo" ∷ []) (codes "k") 1)
          ≡ before ++ after)
        × (pick text (codes "bo" ∷ codes "al" ∷ []) (codes "k") 1 ≡ before ++ codes "al" ∷ after))
pick-join_example =
    pick-join text (codes "k") (codes "al") (codes "bo" ∷ []) (codes "bo" ∷ codes "al" ∷ []) 0
      (Permᴰ.swap refl refl) untied

-- A holder takes what is sent to it, and the log keeps it.
abbrev Log : Type 0
Log = List (Kind × Bytes × Bytes)

abbrev taken : Log → Kind → Bytes → Bytes → Log × Bool
taken log kind key bytes = ((kind, key, bytes) ∷ log, true)

abbrev InLog : Log → Kind → Bytes → Bytes → Type 0
InLog [] k key bytes = ⊥
InLog (e ∷ log) k key bytes = (e ≡ (k, key, bytes)) ⊎ InLog log k key bytes

abbrev waiting : FilePath
waiting = codes "s_id" ∷ codes "bo" ∷ codes "spool" ∷ []

abbrev queue : List Entry
queue = record { peer_id = codes "bo"; kind = Spool.shard; key = codes "id"; path = waiting } ∷ []

flush_kinds-Gone_example :
    There taken
      (λ e. false)
      (λ e. false)
      InLog
      (λ s k key bytes h. inl refl)
      (λ s k j key other bytes more d. inr d)
      queue
      waiting
      (codes "shard")
      (flush_kinds taken (λ e. false) (λ e. false) queue [] ((waiting, codes "shard") ∷ []))
unfolding lookup path_dec
flush_kinds-Gone_example =
    flush_kinds-Gone taken (λ e. false) (λ e. false) InLog (λ s k key bytes h. inl refl)
      (λ s k j key other bytes more d. inr d) queue [] ((waiting, codes "shard") ∷ []) waiting
      (codes "shard") refl

-- A token that was given, used, logged out and given again; then a wrong password.
abbrev same_text : Bcrypt
same_text = record {
  generate = λ salt password. some password;
  compare = λ hash password. ite (bytes_dec hash password) true false;
}

abbrev with_hash : MemoryDb
with_hash = record { entries = (key_password_hash, codes "sesame") ∷ []; broken = false }

abbrev events : List Event
events =
    login 9 (codes "please") (some (codes "u"))
    ∷ login 8 (codes "sesame") (some (codes "t"))
    ∷ logged_out 7 (codes "t")
    ∷ validated 6 (codes "t")
    ∷ login 5 (codes "sesame") (some (codes "t"))
    ∷ []

validate_session_lem_example :
    (validate_session
      (codes "cli")
      (after memory same_text with_hash (codes "cli") events)
      10
      (codes "t")).1
    ≡ true
unfolding bytes_dec fnshare.Store.get fnshare.Store.Memory.read lookup
validate_session_lem_example =
    validate_session_lem memory same_text with_hash (codes "cli") 10 (codes "t") events
      (omega arith, (omega arith, (omega arith, (omega arith, (omega arith, tt)))))

-- Two probes in both orders: al answers, bo does not.
abbrev al : Probe
al = record { peer = codes "al"; touched = 1; now = 2; answered = true }

abbrev bo : Probe
bo = record { peer = codes "bob"; touched = 3; now = 4; answered = false }

not_same : (p : Probe) → IsProp (al.peer ≢ p.peer)
not_same p = hlevel

only_bo : (p : Probe) → p ≡ bo → al.peer ≢ p.peer
only_bo p e k = first_differs (k ∙ ap (λ (r : Probe). r.peer) e)
  where
    first_differs : codes "al" ≢ codes "bob"
    first_differs k = absurd (omega (arith, ap length k))

apart : DifferentPeers (al ∷ bo ∷ [])
apart =
    Pairwise.cons
      (λ p m.
        Or.elim (not_same p) (eq-or-mem_of_mem-cons m) (only_bo p) (λ n. absurd (not-mem-nil n)))
      (Pairwise.cons (λ p m. absurd (not-mem-nil m)) Pairwise.nil)

run_probes_any_order_example :
    SameLedger memory never empty_db
      (run_probes memory never empty_db (al ∷ bo ∷ []) []).0
      (run_probes memory never empty_db (bo ∷ al ∷ []) []).0
run_probes_any_order_example =
    run_probes_any_order memory never empty_db (al ∷ bo ∷ []) (bo ∷ al ∷ []) []
      (Permᴰ.swap refl refl) apart
