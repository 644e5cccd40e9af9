-- ===== src/Ledger.antt =====
-- internal/ledger/ledger.go: what this node knows of each peer, in memory and in the store.
pub mod Liveness
pub mod Persist
pub mod Traffic
pub mod Records
use fnshare.Prelude.{
  ℕ, ◌≡◌, refl, Bool, true, false, not, ◌&&◌, List, [], ◌∷◌, ◌++◌, map, Option, none, some, arith,
  ite, Result, ok, err, if◌then◌else◌,
}
use fnshare.Prelude.Int.{ℤ, pos, negsuc, ◌≤ℤ◌, ltb_ℤ}
use fnshare.Prelude.Int64.{add64, sub64}
use fnshare.Prelude.Bytes.{Bytes, codes, bytes_dec}
use fnshare.Prelude.Clock.{Time, zero_time, is_zero}
use fnshare.Prelude.Assoc.{insert}
use fnshare.Codec.{Codec}
use fnshare.Store.{Badger, StoreError}
use fnshare.Store
use mathlib.Core.List.{lookup}

pub record Entry : Type 0 where
  pub peer_id : Bytes
  pub stored_for_them_bytes : ℤ
  pub served_to_them_bytes : ℤ
  pub stored_on_them_bytes : ℤ
  pub downloaded_from_bytes : ℤ
  pub is_online : Bool
  pub consec_failures : ℤ
  pub last_ping_at : Time
  pub last_seen_at : Time
  pub offline_since : Time
  pub reputation : ℤ
  pub updated_at : Time

abbrev pub offline_threshold : ℤ
offline_threshold = pos 3

abbrev pub reputation_baseline : ℤ
reputation_baseline = pos 100

abbrev pub reputation_min : ℤ
reputation_min = pos 0

abbrev pub reputation_max : ℤ
reputation_max = pos 100

abbrev pub reputation_gain_on_ping : ℤ
reputation_gain_on_ping = pos 1

abbrev pub reputation_loss_on_fail : ℤ
reputation_loss_on_fail = pos 5

abbrev pub key_prefix : Bytes
key_prefix = codes "ledger/local/"

unfoldable pub key : Bytes → Bytes
key peer_id = key_prefix ++ peer_id

-- `&Entry{PeerID: peerID}`
abbrev pub new_entry : Bytes → Entry
new_entry peer = record {
  peer_id = peer;
  stored_for_them_bytes = pos 0;
  served_to_them_bytes = pos 0;
  stored_on_them_bytes = pos 0;
  downloaded_from_bytes = pos 0;
  is_online = false;
  consec_failures = pos 0;
  last_ping_at = zero_time;
  last_seen_at = zero_time;
  offline_since = zero_time;
  reputation = pos 0;
  updated_at = zero_time;
}

pub record PingResult : Type 0 where
  pub went_offline : Bool
  pub went_online : Bool
  pub is_online : Bool
  pub reputation : ℤ

-- The reputation after an answer.
unfoldable pub gain : ℤ → ℤ
gain reputation =
    if ltb_ℤ reputation reputation_max
    then (let gained = add64 reputation reputation_gain_on_ping in
        if ltb_ℤ reputation_max gained then reputation_max else gained)
    else reputation

-- What a failed probe takes off the reputation.
unfoldable pub penalty : ℤ → ℤ
penalty reputation =
    if ltb_ℤ (sub64 reputation reputation_loss_on_fail) reputation_min
    then sub64 reputation reputation_min
    else reputation_loss_on_fail

-- The reputation after a failure that reaches the threshold.
unfoldable pub lose : ℤ → ℤ
unfolding penalty
lose reputation =
    let loss = penalty reputation in
    if ltb_ℤ (pos 0) loss then sub64 reputation loss else reputation

-- The branch of `RecordPing` for a probe that was answered.
unfoldable pub probe_answered : Entry → Entry
probe_answered e = record e {
  consec_failures = pos 0;
  last_seen_at = e.last_ping_at;
  is_online = true;
  offline_since = if is_zero e.offline_since then e.offline_since else zero_time;
  reputation = gain e.reputation;
}

-- The branch for a probe that failed.
unfoldable pub probe_failed : Entry → Entry
probe_failed e =
    let failures = add64 e.consec_failures (pos 1) in
    if ltb_ℤ failures offline_threshold then record e { consec_failures = failures } else record e {
      consec_failures = failures;
      is_online = false;
      offline_since = if is_zero e.offline_since then e.last_ping_at else e.offline_since;
      reputation = lose e.reputation;
    }

-- `RecordPing` on the entry that `touchLocked` returned.
unfoldable pub probe : Time → Bool → Entry → Entry × PingResult
probe now answered e =
    let first_probe = is_zero e.last_ping_at in
    let was_online = if first_probe then answered else e.is_online in
    let pinged : Entry = record e {
      reputation = if first_probe then reputation_baseline else e.reputation;
      last_ping_at = now;
    } in
    let e' = if answered then probe_answered pinged else probe_failed pinged in
    (
      e',
      record {
        went_offline = was_online && not e'.is_online;
        went_online = not was_online && e'.is_online;
        is_online = e'.is_online;
        reputation = e'.reputation;
      },
    )

-- `Ledger.dirty`; the pointers in the map are never shared, so the entries stand in it.
abbrev pub Dirty : Type 0
Dirty = List (Bytes × Entry)

-- The dirty entry comes first, then the one on disk, then a new one.
unfoldable pub found : Bytes → Option Entry → Option Entry → Entry
found peer (some e) loaded = e
found peer none (some e) = e
found peer none none = new_entry peer

-- `e.UpdatedAt = time.Now().UTC()`
unfoldable pub stamp : Time → Entry → Entry
stamp now e = record e { updated_at = now }

module _ (b : Badger) (c : Codec Entry) where
  unfoldable pub load_entry : b.Db → Bytes → Option Entry
  load_entry db peer = elim (Store.get b db (key peer)) [ ok raw ↦ c.unmarshal raw | err e ↦ none ]

  -- The entry that `touchLocked` finds, or makes.
  unfoldable pub current : b.Db → Dirty → Bytes → Entry
  current db dirty peer = found peer (lookup bytes_dec peer dirty) (load_entry db peer)

  -- `touchLocked`, with what the caller does through the pointer that it returns.
  unfoldable pub touch : Time → b.Db → Dirty → Bytes → (Entry → Entry) → Dirty
  touch now db dirty peer change =
      insert bytes_dec peer (change (stamp now (current db dirty peer))) dirty

  unfoldable pub record_stored_for_them : Time → b.Db → Dirty → Bytes → ℤ → Dirty
  record_stored_for_them now db dirty peer n =
      touch now db dirty peer
        λ e. record e { stored_for_them_bytes = add64 e.stored_for_them_bytes n }

  unfoldable pub record_served_to_them : Time → b.Db → Dirty → Bytes → ℤ → Dirty
  record_served_to_them now db dirty peer n =
      touch now db dirty peer
        λ e. record e { served_to_them_bytes = add64 e.served_to_them_bytes n }

  unfoldable pub record_stored_on_them : Time → b.Db → Dirty → Bytes → ℤ → Dirty
  record_stored_on_them now db dirty peer n =
      touch now db dirty peer
        λ e. record e { stored_on_them_bytes = add64 e.stored_on_them_bytes n }

  unfoldable pub record_downloaded_from : Time → b.Db → Dirty → Bytes → ℤ → Dirty
  record_downloaded_from now db dirty peer n =
      touch now db dirty peer
        λ e. record e { downloaded_from_bytes = add64 e.downloaded_from_bytes n }

  -- `RecordPing`: `touched` and `now` are its two readings of the clock.
  unfoldable pub record_ping : Time → Time → b.Db → Dirty → Bytes → Bool → Dirty × PingResult
  record_ping touched now db dirty peer answered = (
    touch touched db dirty peer (λ e. (probe now answered e).0),
    (probe now answered (stamp touched (current db dirty peer))).1,
  )

  -- `IsOnline`
  unfoldable pub is_online : b.Db → Dirty → Bytes → Bool
  is_online db dirty peer = elim (lookup bytes_dec peer dirty) [
    | some e ↦ e.is_online
    | none ↦ elim (load_entry db peer) [ some e ↦ e.is_online | none ↦ false ]
  ]

-- `for pid, e := range l.dirty { disk[pid] = e }`
unfoldable pub overlay : Dirty → Dirty → Dirty
overlay [] disk = disk
overlay ((pid, e) ∷ dirty) disk = overlay dirty (insert bytes_dec pid e disk)

pub data FlushError : Type 0 where
  marshal_failed : FlushError
  store_failed : StoreError → FlushError

module _ (b : Badger) (c : Codec Entry) where
  -- The loop of `Flush`. It stops at the first error; what was written before stays written.
  unfoldable pub flush_entries : List (Bytes × Entry) → b.Db → b.Db × Option FlushError
  flush_entries [] db = (db, none)
  flush_entries ((_, e) ∷ pending) db = elim (c.marshal e) [
    | none ↦ (db, some marshal_failed)
    | some raw ↦ elim (Store.put b db (key e.peer_id) raw) [
      | err x ↦ (db, some (store_failed x))
      | ok db' ↦ flush_entries pending db'
    ]
  ]

  -- `Flush`: the dirty map is emptied first, then written out.
  unfoldable pub flush : b.Db → Dirty → b.Db × Dirty × Option FlushError
  flush db dirty = let (db', e) = flush_entries dirty db in (db', [], e)

  -- `All`: the entries on disk, overwritten by the dirty ones.
  unfoldable pub all : b.Db → Dirty → Result StoreError (List Entry)
  all db dirty =
      let visit : Dirty → Bytes → Bytes → Dirty × Bool = λ disk _ v. elim (c.unmarshal v) [
        | none ↦ (disk, true)
        | some e ↦ (insert bytes_dec e.peer_id e disk, true)
      ] in
      let (disk, e) = Store.iterate b db key_prefix visit [] in
      elim e [ some x ↦ err x | none ↦ ok (map (λ (p : Bytes × Entry). p.1) (overlay dirty disk)) ]
