-- ===== src/Store/Memory.antt =====
-- A database in memory that meets the laws of `Badger`: the instance at which the theorems are run.
-- Once `broken`, it refuses to write, as a full disk does.
use fnshare.Prelude.{
  ◌≡◌, refl, ap, if_pos, if_neg, ◌≢◌, Bool, false, List, [], ◌∷◌, Option, none, some, arith, Result,
  ok, err, if◌then◌else◌,
}
use fnshare.Prelude.Bytes.{Bytes, bytes_dec, has_prefix}
use fnshare.Prelude.Assoc.{insert, delete, lookup-insert}
use fnshare.Store.{Badger, BadgerError, key_not_found, failed, BadgerLaws, item_of}
use mathlib.Core.List.{lookup}

pub record MemoryDb : Type 0 where
  pub entries : List (Bytes × Bytes)
  pub broken : Bool

unfoldable pub write : MemoryDb → List (Bytes × Bytes) → Result BadgerError MemoryDb
write db entries = if db.broken then err (failed 28) else ok (record db { entries = entries })

unfoldable pub read : Option Bytes → Result BadgerError Bytes
read none = err key_not_found
read (some v) = ok v

unfoldable pub matching : Bytes → List (Bytes × Bytes) → List (Bytes × Result BadgerError Bytes)
matching p [] = []
matching p (e ∷ entries) =
    if has_prefix p e.0 then (e.0, ok e.1) ∷ matching p entries else matching p entries

abbrev pub memory : Badger
memory = record {
  Db = MemoryDb;
  txn_set = λ db k v. write db (insert bytes_dec k v db.entries);
  txn_get = λ db k. read (lookup bytes_dec k db.entries);
  txn_delete = λ db k. write db (delete bytes_dec k db.entries);
  items = λ db p. matching p db.entries;
}

abbrev pub empty_db : MemoryDb
empty_db = record { entries = []; broken = false }

lookup-matching :
    (p k : Bytes) (entries : List (Bytes × Bytes))
    → lookup bytes_dec k (matching p entries)
      ≡ (if has_prefix p k then item_of (read (lookup bytes_dec k entries)) else none)
unfolding lookup matching read
lookup-matching p k [] = ground arith
lookup-matching p k (e ∷ entries) = elim (bytes_dec k e.0) [
  | yes q ↦ ground (arith, lookup-matching p k entries, ap (has_prefix p) q)
  | no q ↦ ground (arith, lookup-matching p k entries)
]

set_entries :
    (db db' : MemoryDb) (entries : List (Bytes × Bytes))
    → write db entries ≡ ok db'
    → db'.entries ≡ entries
unfolding write
set_entries db db' entries e = ground arith

memory-get-set_self :
    (db db' : MemoryDb) (k v : Bytes) → memory.txn_set db k v ≡ ok db' → memory.txn_get db' k ≡ ok v
unfolding read
memory-get-set_self db db' k v e =
    rw (set_entries db db' _ e, lookup-insert, if_pos (bytes_dec k k) refl _ _)

memory-get-set_ne :
    (db db' : MemoryDb) (k j v : Bytes)
    → memory.txn_set db k v ≡ ok db'
    → j ≢ k
    → memory.txn_get db' j ≡ memory.txn_get db j
unfolding read
memory-get-set_ne db db' k j v e ne =
    rw (set_entries db db' _ e, lookup-insert, if_neg (bytes_dec j k) ne _ _)

pub memory-BadgerLaws : BadgerLaws memory
memory-BadgerLaws = record {
  get-set_self = memory-get-set_self;
  get-set_ne = memory-get-set_ne;
  lookup-items = λ db p k. lookup-matching p k db.entries;
}
