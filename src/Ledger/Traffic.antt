-- ===== src/Ledger/Traffic.antt =====
-- The traffic counters, over any sequence of the four `Record…` methods.
use fnshare.Prelude.{◌≡◌, refl, ap, sym, ◌∙◌, List, [], ◌∷◌, arith, ite, if_pos, if_neg}
use fnshare.Prelude.Int.{ℤ, pos, ◌+ℤ◌, +ℤ_assoc}
use fnshare.Prelude.Int64.{add64, wrap64, wrap64-add}
use fnshare.Prelude.Bytes.{Bytes, bytes_dec}
use fnshare.Prelude.Clock.{Time}
use fnshare.Codec.{Codec}
use fnshare.Store.{Badger}
use fnshare.Ledger.Records.{current-touch}
use fnshare.Ledger.{
  Entry, Dirty, stamp, current, touch, record_stored_for_them, record_served_to_them,
  record_stored_on_them, record_downloaded_from,
}

pub data Direction : Type 0 where
  stored_for_them served_to_them stored_on_them downloaded_from : Direction

unfoldable pub direction_dec : Discrete Direction
direction_dec = hlevel

abbrev pub counter : Direction → Entry → ℤ
counter stored_for_them e = e.stored_for_them_bytes
counter served_to_them e = e.served_to_them_bytes
counter stored_on_them e = e.stored_on_them_bytes
counter downloaded_from e = e.downloaded_from_bytes

pub record Event : Type 0 where
  pub time : Time
  pub direction : Direction
  pub peer : Bytes
  pub bytes : ℤ

-- The bytes of the events in one direction with one peer.
unfoldable pub total : Direction → Bytes → List Event → ℤ
total d q [] = pos 0
total d q (e ∷ events) =
    ite (direction_dec d e.direction)
      (ite (bytes_dec q e.peer) (total d q events +ℤ e.bytes) (total d q events)) (total d q events)

bump : Direction → ℤ → Entry → Entry
bump stored_for_them n e = record e { stored_for_them_bytes = add64 e.stored_for_them_bytes n }
bump served_to_them n e = record e { served_to_them_bytes = add64 e.served_to_them_bytes n }
bump stored_on_them n e = record e { stored_on_them_bytes = add64 e.stored_on_them_bytes n }
bump downloaded_from n e = record e { downloaded_from_bytes = add64 e.downloaded_from_bytes n }

counter-bump :
    (d k : Direction) (n : ℤ) (now : Time) (e : Entry)
    → counter d (bump k n (stamp now e))
      ≡ ite (direction_dec d k) (add64 (counter d e) n) (counter d e)
unfolding bump stamp direction_dec
counter-bump stored_for_them stored_for_them n now e = refl
counter-bump served_to_them served_to_them n now e = refl
counter-bump stored_on_them stored_on_them n now e = refl
counter-bump downloaded_from downloaded_from n now e = refl
counter-bump stored_for_them _ n now e = ground arith
counter-bump _ _ n now e = ground arith

same-ite {ℓ κ} : {P : Type ℓ} {A : Type κ} (d : Dec P) (a : A) → ite d a a ≡ a
same-ite (yes p) a = refl
same-ite (no p) a = refl

+ℤ_zero : (a : ℤ) → a +ℤ pos 0 ≡ a
unfolding ◌+ℤ◌
+ℤ_zero a = ground arith

add64-wrap64 : (a t n : ℤ) → add64 (wrap64 (a +ℤ t)) n ≡ wrap64 (a +ℤ (t +ℤ n))
unfolding add64
add64-wrap64 a t n = wrap64-add (a +ℤ t) n ∙ ap wrap64 (+ℤ_assoc a t n)

module _ (b : Badger) (c : Codec Entry) (db : b.Db) where
  unfoldable pub record_in : Direction → Time → Dirty → Bytes → ℤ → Dirty
  record_in stored_for_them now dirty peer n = record_stored_for_them b c now db dirty peer n
  record_in served_to_them now dirty peer n = record_served_to_them b c now db dirty peer n
  record_in stored_on_them now dirty peer n = record_stored_on_them b c now db dirty peer n
  record_in downloaded_from now dirty peer n = record_downloaded_from b c now db dirty peer n

  -- The events, the newest first.
  pub record_all : List Event → Dirty → Dirty
  unfolding record_in
  record_all [] dirty = dirty
  record_all (e ∷ events) dirty =
      record_in e.direction e.time (record_all events dirty) e.peer e.bytes

  record_in-touch :
      (k : Direction) (now : Time) (dirty : Dirty) (peer : Bytes) (n : ℤ)
      → record_in k now dirty peer n ≡ touch b c now db dirty peer (bump k n)
  unfolding record_in bump record_stored_for_them record_served_to_them record_stored_on_them
      record_downloaded_from
  record_in-touch stored_for_them now dirty peer n = refl
  record_in-touch served_to_them now dirty peer n = refl
  record_in-touch stored_on_them now dirty peer n = refl
  record_in-touch downloaded_from now dirty peer n = refl

  counter-record_in :
      (d k : Direction) (now : Time) (dirty : Dirty) (peer q : Bytes) (n : ℤ)
      → counter d (current b c db (record_in k now dirty peer n) q)
        ≡ ite
            (direction_dec d k)
            (ite
              (bytes_dec q peer)
              (add64 (counter d (current b c db dirty q)) n)
              (counter d (current b c db dirty q)))
            (counter d (current b c db dirty q))
  counter-record_in d k now dirty peer q n = elim (bytes_dec q peer) [
    | yes p ↦
        rw (record_in-touch, current-touch, if_pos _ p, if_pos _ p, p)
          (counter-bump d k n now (current b c db dirty peer))
    | no p ↦
        rw (record_in-touch, current-touch, if_neg _ p, if_neg _ p)
          (sym (same-ite (direction_dec d k) _))
  ]

  -- After any sequence of the four methods, each counter of each peer has grown by the bytes of
  -- the events in that direction with that peer, wrapped to an `int64` once; events with other
  -- peers or in other directions leave it alone.
  pub counter-record_all :
      (d : Direction) (q : Bytes) (events : List Event) (dirty : Dirty)
      → wrap64 (counter d (current b c db dirty q)) ≡ counter d (current b c db dirty q)
      → counter d (current b c db (record_all events dirty) q)
        ≡ wrap64 (counter d (current b c db dirty q) +ℤ total d q events)
  unfolding record_all total
  counter-record_all d q [] dirty h = rw +ℤ_zero (sym h)
  counter-record_all d q (e ∷ events) dirty h = ground (
    arith,
    counter-record_in d e.direction e.time (record_all events dirty) e.peer q e.bytes,
    counter-record_all d q events dirty h,
    wrapped,
  )
    where
      start : ℤ
      start = counter d (current b c db dirty q)

      wrapped :
          add64 (wrap64 (start +ℤ total d q events)) e.bytes
          ≡ wrap64 (start +ℤ (total d q events +ℤ e.bytes))
      wrapped = add64-wrap64 start (total d q events) e.bytes
