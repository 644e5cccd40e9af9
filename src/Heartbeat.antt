-- ===== src/Heartbeat.antt =====
-- internal/heartbeat/heartbeat.go: one scan over the members of all groups. The probes run at the same
-- time; each ends with a call of `RecordPing` under the lock of the ledger, so a scan is the
-- sequence of these calls in the order in which the probes end. Timers and the limit on how many
-- run at once are left out.
pub mod Order
use fnshare.Prelude.{
  ℕ, ◌≡◌, refl, Bool, true, false, List, [], ◌∷◌, ◌++◌, Option, none, some, Result, ok, err,
  if◌then◌else◌, ite,
}
use fnshare.Prelude.Bytes.{Bytes, bytes_dec}
use fnshare.Prelude.Clock.{Time, at}
use fnshare.Codec.{Codec}
use fnshare.Store.{Badger}
use fnshare.Group
use fnshare.Group.{Member, Deps}
use fnshare.Ledger.{Entry, Dirty, PingResult, record_ping}

-- The members that a scan probes: not this node, and none whose id does not decode.
unfoldable pub targets : Bytes → (Bytes → Option Bytes) → List (Bytes × Member) → List Bytes
targets self decode_peer [] = []
targets self decode_peer ((peer, m) ∷ members) =
    let rest = targets self decode_peer members in
    ite (bytes_dec m.peer_id self) rest
      (elim (decode_peer m.peer_id) [ none ↦ rest | some pid ↦ m.peer_id ∷ rest ])

-- A probe that ended: the readings of the clock of `RecordPing`, and whether the peer answered.
pub record Probe : Type 0 where
  pub peer : Bytes
  pub touched : ℕ
  pub now : ℕ
  pub answered : Bool

-- The call of `OnTransition` that a result asks for: the peer, and whether it went offline.
unfoldable pub transition : Bytes → PingResult → List (Bytes × Bool)
transition peer r =
    if r.went_offline then (peer, true) ∷ [] else if r.went_online then (peer, false) ∷ [] else []

module _ (b : Badger) (c : Codec Entry) (db : b.Db) where
  -- What the goroutines of a scan do, in the order in which their probes end.
  unfoldable pub run_probes : List Probe → Dirty → Dirty × List (Bytes × Bool)
  run_probes [] dirty = (dirty, [])
  run_probes (p ∷ probes) dirty =
      let (dirty', r) = record_ping b c (at p.touched) (at p.now) db dirty p.peer p.answered in
      let rest = run_probes probes dirty' in (rest.0, transition p.peer r ++ rest.1)

-- `scan`: `ping` is how the probe of a peer ends, `order` puts the probes into the order in which they
-- end.
unfoldable pub scan :
    (d : Deps)
    → Codec Entry
    → d.badger.Db
    → Bytes
    → (Bytes → Option Bytes)
    → (List Bytes → List Probe)
    → Dirty
    → Dirty × List (Bytes × Bool)
scan d c db self decode_peer order dirty = elim (Group.all_members_across_groups d db) [
  | err e ↦ (dirty, [])
  | ok members ↦ run_probes d.badger c db (order (targets self decode_peer members)) dirty
]
