-- ===== src/Ledger/Persist.antt =====
-- `Flush` and `loadEntry`: what reaches the store, and what a failed write loses.
use fnshare.Prelude.{
  ◌≡◌, refl, ap, sym, ◌∙◌, [], ◌∷◌, Option, none, some, arith, ite, if_pos, if_neg, Option-cases,
  Result-cases, inl, inr, ok, ◌++◌,
}
use fnshare.Prelude.Bytes.{Bytes, bytes_dec, append-injective_left}
use fnshare.Prelude.Clock.{to_seconds}
use fnshare.Prelude.Assoc.{insert, lookup-insert}
use fnshare.Codec.{Codec, ReadsBack}
use fnshare.Store.{Badger, BadgerLaws}
use fnshare.Store
use fnshare.Ledger.{Entry, Dirty, key, key_prefix, load_entry, flush_entries, flush}
use mathlib.Core.List.{lookup}

-- An entry as it comes back from the store: its times are in whole seconds.
unfoldable pub in_seconds : Entry → Entry
in_seconds e = record e {
  last_ping_at = to_seconds e.last_ping_at;
  last_seen_at = to_seconds e.last_seen_at;
  offline_since = to_seconds e.offline_since;
  updated_at = to_seconds e.updated_at;
}

-- A map has each key once, and an entry stands under its own peer.
abbrev pub Keyed : Dirty → Type 0
Keyed [] = Unit {0}
Keyed ((k, e) ∷ m) = (e.peer_id ≡ k) × (lookup bytes_dec k m ≡ none) × Keyed m

Keyed-insert :
    (k : Bytes) (e : Entry) (m : Dirty) → e.peer_id ≡ k → Keyed m → Keyed (insert bytes_dec k e m)
unfolding insert lookup
Keyed-insert k e [] h m = (h, refl, tt)
Keyed-insert k e ((j, x) ∷ m) h (own, fresh, rest) = elim (bytes_dec k j) [
  | yes p ↦ rw (if_pos _ p) (h, rw p fresh, rest)
  | no p ↦
      rw (if_neg _ p)
        (own, ground (arith, lookup-insert bytes_dec j k e m), Keyed-insert k e m h rest)
]

key-injective : (p q : Bytes) → key p ≡ key q → p ≡ q
unfolding key
key-injective p q e = append-injective_left key_prefix p q e

-- The dirty entry of a peer as the store will show it, or what the store shows now.
abbrev pub flushed : Option Entry → Option Entry → Option Entry
flushed none loaded = loaded
flushed (some e) loaded = some (in_seconds e)

written :
    (p j : Bytes) (e : Entry) (pending : Dirty)
    → e.peer_id ≡ j
    → lookup bytes_dec j pending ≡ none
    → (loaded : Option Entry)
    → flushed
        (lookup bytes_dec p pending)
        (ite (bytes_dec p e.peer_id) (some (in_seconds e)) loaded)
      ≡ flushed (ite (bytes_dec p j) (some e) (lookup bytes_dec p pending)) loaded
written p j e pending own fresh loaded = elim (bytes_dec p j) [
  | yes q ↦
      rw (if_pos (bytes_dec p e.peer_id) (q ∙ sym own) _ _, if_pos (bytes_dec p j) q _ _, q, fresh)
  | no q ↦ rw (if_neg (bytes_dec p e.peer_id) (λ r. q (r ∙ own)) _ _, if_neg (bytes_dec p j) q _ _)
]

module _ (b : Badger) (laws : BadgerLaws b) (c : Codec Entry) (reads : ReadsBack c in_seconds) where
  load_entry-put :
      (db db' : b.Db) (e : Entry) (raw p : Bytes)
      → c.marshal e ≡ some raw
      → Store.put b db (key e.peer_id) raw ≡ ok db'
      → load_entry b c db' p
        ≡ ite (bytes_dec p e.peer_id) (some (in_seconds e)) (load_entry b c db p)
  unfolding load_entry
  load_entry-put db db' e raw p m w = elim (bytes_dec p e.peer_id) [
    | yes q ↦
        rw (if_pos _ q, q)
          (ground (arith, Store.get-put_self b laws db db' (key e.peer_id) raw w, reads e raw m))
    | no q ↦ rw (if_neg _ q) (
        ground (
          arith,
          Store.get-put_ne b laws db db' (key e.peer_id) (key p) raw w
              (λ k. q (key-injective p e.peer_id k)),
        ))
  ]

  flush_entries-step :
      (j : Bytes) (e : Entry) (pending : Dirty) (db db' : b.Db) (raw : Bytes)
      → c.marshal e ≡ some raw
      → Store.put b db (key e.peer_id) raw ≡ ok db'
      → flush_entries b c ((j, e) ∷ pending) db ≡ flush_entries b c pending db'
  unfolding flush_entries
  flush_entries-step j e pending db db' raw m w = ground arith

  load_entry-flush_entries :
      (pending : Dirty) (db : b.Db) (p : Bytes)
      → Keyed pending
      → (flush_entries b c pending db).1 ≡ none
      → load_entry b c (flush_entries b c pending db).0 p
        ≡ flushed (lookup bytes_dec p pending) (load_entry b c db p)
  unfolding flush_entries lookup
  load_entry-flush_entries [] db p k h = refl
  load_entry-flush_entries ((j, e) ∷ pending) db p (own, fresh, rest) h =
      elim (Option-cases (c.marshal e)) [
        | inl m ↦ absurd (ground arith)
        | inr (raw, m) ↦ elim (Result-cases (Store.put b db (key e.peer_id) raw)) [
          | inr (x, w) ↦ absurd (ground arith)
          | inl (db', w) ↦
              let step = flush_entries-step j e pending db db' raw m w in
              rw step (
                load_entry-flush_entries pending db' p rest (rw step at h)
                ∙ ap (flushed (lookup bytes_dec p pending)) (load_entry-put db db' e raw p m w)
                ∙ written p j e pending own fresh (load_entry b c db p))
        ]
      ]

  -- After a `Flush` without an error the store shows each peer that was in the map with the
  -- counters, the liveness and the reputation that it had there, its times cut to whole seconds,
  -- and every other peer as before; the map is empty.
  pub load_entry-flush :
      (db : b.Db) (dirty : Dirty) (p : Bytes)
      → Keyed dirty
      → (flush b c db dirty).2 ≡ none
      → (load_entry b c (flush b c db dirty).0 p
          ≡ flushed (lookup bytes_dec p dirty) (load_entry b c db p))
        × ((flush b c db dirty).1 ≡ [])
  unfolding flush
  load_entry-flush db dirty p k h = (load_entry-flush_entries dirty db p k h, refl)

  -- Where the walk over the map stopped: what came before is in the store, the rest is not.
  abbrev pub Stopped : b.Db → b.Db → Dirty → Type 0
  Stopped db db' dirty =
      (before : Dirty) × (j : Bytes) × (e : Entry) × (after : Dirty) × (dirty
        ≡ before ++ (j, e) ∷ after)
      × ((p : Bytes)
          → load_entry b c db' p ≡ flushed (lookup bytes_dec p before) (load_entry b c db p))
