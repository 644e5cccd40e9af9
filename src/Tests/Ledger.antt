-- ===== src/Tests/Ledger.antt =====
-- The ledger in memory: a few probes, a few transfers, a flush to a good disk and one to a full one.
use fnshare.Prelude.{ℕ, refl, true, false, List, [], ◌∷◌, some, ok, err, ◌≡◌, arith, Bool}
use fnshare.Prelude.Int.{ℤ, pos}
use fnshare.Prelude.Bytes.{Bytes, codes, bytes_dec}
use fnshare.Prelude.Clock.{zero_time, at}
use fnshare.Codec.{Codec}
use fnshare.Store
use fnshare.Store.Memory.{memory, empty_db, memory-BadgerLaws}
use fnshare.Ledger.{
  Entry, new_entry, probe, record_ping, is_online, current, load_entry, flush, found,
}
use fnshare.Ledger.Records.{pings, answers, is_online-pings, record_ping-Reports}
use fnshare.Ledger.Liveness.{Reports, online_after}
use fnshare.Ledger.Traffic.{
  Direction, stored_for_them, served_to_them, Event, counter, total, record_all, counter-record_all,
}
use fnshare.Ledger.Persist.{in_seconds, load_entry-flush}
use fnshare.Tests.Instances.{only, only-ReadsBack, entry_dec, never}

abbrev peer : Bytes
peer = codes "peer"

-- One answer and then two failures, the newest first.
abbrev probes : List (ℕ × ℕ × Bool)
probes = (30, 31, false) ∷ (20, 21, false) ∷ (10, 11, true) ∷ []

is_online-pings_example :
    is_online memory never empty_db (pings memory never empty_db peer probes []) peer
    ≡ online_after (answers memory never empty_db probes)
unfolding current found mathlib.Core.List.lookup load_entry Store.get fnshare.Store.Memory.read
is_online-pings_example = is_online-pings memory never empty_db peer probes [] refl (omega arith)

-- The third failure in a row.
record_ping-Reports_example :
    Reports false
      (answers memory never empty_db probes)
      (record_ping memory never
        (at 40)
        (at 41)
        empty_db
        (pings memory never empty_db peer probes [])
        peer
        false).1
unfolding current found mathlib.Core.List.lookup load_entry Store.get fnshare.Store.Memory.read
record_ping-Reports_example =
    record_ping-Reports memory never empty_db peer probes [] 40 41 false refl (omega arith)

abbrev transfers : List Event
transfers =
    record { time = at 3; direction = stored_for_them; peer = peer; bytes = pos 7 }
    ∷ record { time = at 2; direction = served_to_them; peer = peer; bytes = pos 9 }
    ∷ record { time = at 1; direction = stored_for_them; peer = peer; bytes = pos 5 }
    ∷ []

counter-record_all_example :
    counter stored_for_them
      (current memory never empty_db (record_all memory never empty_db transfers []) peer)
    ≡ pos 12
unfolding current fnshare.Prelude.Int64.wrap64 found mathlib.Core.List.lookup load_entry Store.get
    fnshare.Store.Memory.read fnshare.Prelude.Int.◌+ℤ◌ total fnshare.Ledger.Traffic.direction_dec
    bytes_dec
counter-record_all_example =
    counter-record_all memory never empty_db stored_for_them peer transfers [] refl

abbrev entry : Entry
entry = record (new_entry peer) { stored_for_them_bytes = pos 12; updated_at = at 3500000000 }

abbrev entries : Codec Entry
entries = only entry_dec in_seconds entry (codes "entry")

load_entry-flush_example :
    (load_entry memory entries (flush memory entries empty_db ((peer, entry) ∷ [])).0 peer
      ≡ some (record entry { updated_at = at 3000000000 }))
    × ((flush memory entries empty_db ((peer, entry) ∷ [])).1 ≡ [])
unfolding mathlib.Core.List.lookup flush fnshare.Ledger.flush_entries
    fnshare.Tests.Instances.only_marshal entry_dec Store.put fnshare.Store.Memory.write in_seconds
    fnshare.Prelude.Clock.to_seconds
load_entry-flush_example =
    load_entry-flush memory memory-BadgerLaws entries
      (only-ReadsBack entry_dec in_seconds entry (codes "entry")) empty_db ((peer, entry) ∷ []) peer
      (refl, refl, tt) refl

-- An entry that cannot be encoded, behind one that can.
abbrev two : List (Bytes × Entry)
two = (peer, entry) ∷ (codes "other", new_entry (codes "other")) ∷ []
