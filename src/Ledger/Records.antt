-- ===== src/Ledger/Records.antt =====
-- `touchLocked`, the `Record…` methods and `RecordPing` on the whole ledger.
use fnshare.Prelude.{
  ℕ, ◌<◌, ◌≡◌, refl, ◌∙◌, Bool, List, [], ◌∷◌, map, arith, length, length-map, ite, if_pos, if_neg,
}
use fnshare.Prelude.Bytes.{Bytes, bytes_dec}
use fnshare.Prelude.Clock.{Time, at}
use fnshare.Prelude.Assoc.{lookup-insert}
use fnshare.Codec.{Codec}
use fnshare.Store.{Badger}
use fnshare.Ledger.Liveness.{
  History, Tracks, Reports, new_entry-Tracks, stamp-Tracks, probe-Tracks, probe-Reports,
  online_after,
}
use fnshare.Ledger.{Entry, Dirty, new_entry, found, stamp, current, touch, record_ping, is_online}

module _ (b : Badger) (c : Codec Entry) (db : b.Db) where
  -- The entry of the peer is changed, and of no other.
  pub current-touch :
      (now : Time) (dirty : Dirty) (peer q : Bytes) (change : Entry → Entry)
      → current b c db (touch b c now db dirty peer change) q
        ≡ ite
            (bytes_dec q peer)
            (change (stamp now (current b c db dirty peer)))
            (current b c db dirty q)
  unfolding touch current found
  current-touch now dirty peer q change = elim (bytes_dec q peer) [
    | yes p ↦ rw (lookup-insert, if_pos _ p, if_pos _ p)
    | no p ↦ rw (lookup-insert, if_neg _ p, if_neg _ p)
  ]

  pub current-touch_self :
      (now : Time) (dirty : Dirty) (peer : Bytes) (change : Entry → Entry)
      → current b c db (touch b c now db dirty peer change) peer
        ≡ change (stamp now (current b c db dirty peer))
  current-touch_self now dirty peer change =
      current-touch now dirty peer peer change ∙ if_pos (bytes_dec peer peer) refl _ _

  -- `IsOnline` reads the entry that `touchLocked` would return.
  pub is_online-current :
      (dirty : Dirty) (peer : Bytes)
      → is_online b c db dirty peer ≡ (current b c db dirty peer).is_online
  unfolding is_online current found
  is_online-current dirty peer = ground arith

  -- The probes of one peer, the newest first: the two readings of the clock, and the answer.
  abbrev pub pings : Bytes → List (ℕ × ℕ × Bool) → Dirty → Dirty
  pings peer [] dirty = dirty
  pings peer ((touched, now, answered) ∷ ps) dirty =
      (record_ping b c (at touched) (at now) db (pings peer ps dirty) peer answered).0

  abbrev pub answers : List (ℕ × ℕ × Bool) → History
  answers = map (λ (p : ℕ × ℕ × Bool). p.2)

  pings-Tracks :
      (peer : Bytes) (ps : List (ℕ × ℕ × Bool)) (dirty : Dirty)
      → current b c db dirty peer ≡ new_entry peer
      → length ps < 9223372036854775807
      → Tracks (answers ps) (current b c db (pings peer ps dirty) peer)
  unfolding record_ping
  pings-Tracks peer [] dirty h l = rw h (new_entry-Tracks peer)
  pings-Tracks peer ((touched, now, answered) ∷ ps) dirty h l = rw current-touch_self (
      probe-Tracks now answered (answers ps) _
        (stamp-Tracks (at touched) (answers ps) _ (pings-Tracks peer ps dirty h (omega arith)))
        (omega (arith, length-map ps (λ (p : ℕ × ℕ × Bool). p.2))))

  -- After any history of probes of a peer that was new, `IsOnline` answers that it is online
  -- exactly if some probe was answered and fewer than three failed since the last answer.
  pub is_online-pings :
      (peer : Bytes) (ps : List (ℕ × ℕ × Bool)) (dirty : Dirty)
      → current b c db dirty peer ≡ new_entry peer
      → length ps < 9223372036854775807
      → is_online b c db (pings peer ps dirty) peer ≡ online_after (answers ps)
  is_online-pings peer ps dirty h l =
      is_online-current (pings peer ps dirty) peer ∙ (pings-Tracks peer ps dirty h l).online

  -- After any history of probes of a peer that was new, `RecordPing` reports that the peer went
  -- offline exactly on the third failure in a row after an answer, that it came back exactly on
  -- the first answer of a peer that was probed before and offline, and the liveness and the
  -- reputation of the history.
  pub record_ping-Reports :
      (peer : Bytes) (ps : List (ℕ × ℕ × Bool)) (dirty : Dirty) (touched now : ℕ) (answered : Bool)
      → current b c db dirty peer ≡ new_entry peer
      → length ps < 9223372036854775807
      → Reports answered
          (answers ps)
          (record_ping b c (at touched) (at now) db (pings peer ps dirty) peer answered).1
  unfolding record_ping
  record_ping-Reports peer ps dirty touched now answered h l =
      probe-Reports now answered (answers ps) _
        (stamp-Tracks (at touched) (answers ps) _ (pings-Tracks peer ps dirty h l))
        (omega (arith, length-map ps (λ (p : ℕ × ℕ × Bool). p.2)))
