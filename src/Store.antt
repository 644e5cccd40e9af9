-- ===== src/Store.antt =====
-- internal/store/store.go: the key-value store of a node.
-- The database under it, BadgerDB, is not part of the repository: it is the parameter `Badger`,
-- with what the callers rely on as the laws of `Badger.Laws`.
use fnshare.Prelude.{
  ℕ, ◌≡◌, refl, ◌≢◌, Bool, true, false, List, [], ◌∷◌, Option, none, some, arith, ite, Result, ok,
  err, if◌then◌else◌, ◌>>=◌,
}
use fnshare.Prelude.Bytes.{Bytes, bytes_dec, has_prefix}
use mathlib.Core.List.{lookup}
pub mod Memory

-- What a BadgerDB transaction fails with.
pub data BadgerError : Type 0 where
  key_not_found : BadgerError
  failed : ℕ → BadgerError

-- `Txn.Set`, `Txn.Get` and `Txn.Delete` in a transaction of their own, and the items that an
-- iterator yields from `Seek(prefix)` while `ValidForPrefix(prefix)`, each with its `ValueCopy`.
pub record Badger : Type 1 where
  pub Db : Type 0
  pub txn_set : Db → Bytes → Bytes → Result BadgerError Db
  pub txn_get : Db → Bytes → Result BadgerError Bytes
  pub txn_delete : Db → Bytes → Result BadgerError Db
  pub items : Db → Bytes → List (Bytes × Result BadgerError Bytes)

-- The item of a key, as the iterator shows it.
abbrev pub item_of : Result BadgerError Bytes → Option (Result BadgerError Bytes)
item_of (ok v) = some (ok v)
item_of (err key_not_found) = none
item_of (err (failed n)) = some (err (failed n))

-- The documented behaviour of the database: a committed write is read back, other keys keep
-- their values, and an iterator shows every key with the prefix, with its value.
pub record BadgerLaws (b : Badger) : Type 0 where
  pub get-set_self :
      (db db' : b.Db) (k v : Bytes) → b.txn_set db k v ≡ ok db' → b.txn_get db' k ≡ ok v
  pub get-set_ne :
      (db db' : b.Db) (k j v : Bytes)
      → b.txn_set db k v ≡ ok db'
      → j ≢ k
      → b.txn_get db' j ≡ b.txn_get db j
  pub lookup-items :
      (db : b.Db) (p k : Bytes)
      → lookup bytes_dec k (b.items db p)
        ≡ (if has_prefix p k then item_of (b.txn_get db k) else none)

pub data StoreError : Type 0 where
  not_found : StoreError
  badger : BadgerError → StoreError

module _ (b : Badger) where
  -- `(*Store).Put`
  unfoldable pub put : b.Db → Bytes → Bytes → Result StoreError b.Db
  put db key value = elim (b.txn_set db key value) [ ok db' ↦ ok db' | err e ↦ err (badger e) ]

  -- `(*Store).Get`
  unfoldable pub get : b.Db → Bytes → Result StoreError Bytes
  get db key = elim (b.txn_get db key) [
    | ok v ↦ ok v
    | err e ↦ elim e [ key_not_found ↦ err not_found | failed n ↦ err (badger (failed n)) ]
  ]

  -- `(*Store).Delete`
  unfoldable pub delete : b.Db → Bytes → Result StoreError b.Db
  delete db key = elim (b.txn_delete db key) [ ok db' ↦ ok db' | err e ↦ err (badger e) ]

-- The loop of `(*Store).Iterate`. The callback works on a state, and says whether to go on.
-- The error, if there is one, comes back beside the state that was reached.
unfoldable pub iterate_items {ℓ} :
    {S : Type ℓ}
    → (S → Bytes → Bytes → S × Bool)
    → List (Bytes × Result BadgerError Bytes)
    → S
    → S × Option StoreError
iterate_items fn [] s = (s, none)
iterate_items fn ((k, err e) ∷ items) s = (s, some (badger e))
iterate_items fn ((k, ok v) ∷ items) s =
    let (s', more) = fn s k v in
    let rest = iterate_items fn items s' in if more then rest else (s', none)

-- `(*Store).Iterate`
unfoldable pub iterate {ℓ} :
    {S : Type ℓ} (b : Badger)
    → b.Db
    → Bytes
    → (S → Bytes → Bytes → S × Bool)
    → S
    → S × Option StoreError
iterate b db prefix fn s = iterate_items fn (b.items db prefix) s

module _ (b : Badger) (laws : BadgerLaws b) where
  -- What `Put` stored is what `Get` returns.
  pub get-put_self : (db db' : b.Db) (k v : Bytes) → put b db k v ≡ ok db' → get b db' k ≡ ok v
  unfolding put get
  get-put_self db db' k v e = ground (arith, laws.get-set_self db db' k v)

  -- A `Put` leaves the other keys alone.
  pub get-put_ne :
      (db db' : b.Db) (k j v : Bytes) → put b db k v ≡ ok db' → j ≢ k → get b db' j ≡ get b db j
  unfolding put get
  get-put_ne db db' k j v e ne = ground (arith, laws.get-set_ne db db' k j v)
