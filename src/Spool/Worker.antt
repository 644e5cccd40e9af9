-- ===== src/Spool/Worker.antt =====
-- internal/spool/worker.go: what waits for a peer is sent when the peer is back online, shards first.
-- `send` is the sender on the state `S` of the node (its ledger), `unreadable` the
-- entries whose file cannot be read, `refuses` those whose file cannot be removed. Timers and deadlines are left out.
pub mod Delivery
use fnshare.Prelude.{
  ℕ, ◌≡◌, refl, Bool, true, false, not, List, [], ◌∷◌, Option, none, some, Result, ok, err,
  if◌then◌else◌, ite, length, ◌==◌,
}
use fnshare.Prelude.Bytes.{Bytes, bytes_dec}
use fnshare.Prelude.Paths.{FilePath, path_dec}
use fnshare.Blockstore.{Files}
use fnshare.Spool.{Kind, shard, manifest, kind_dec, Entry, read, remove, list_entries}

-- The state of the node, the disk, and whether the peer still answers.
abbrev pub Flushed : Type 0 → Type 0
Flushed S = S × Files × Bool

-- An entry that was sent is removed; one that cannot be removed stays.
unfoldable pub removed : (Entry → Bool) → Files → Entry → Files
removed refuses files e = elim (remove (refuses e) files e) [ ok files' ↦ files' | err x ↦ files ]

module _ {S : Type 0} (send : S → Kind → Bytes → Bytes → S × Bool)
    (unreadable refuses : Entry → Bool) where
  -- The inner loop of `flushPeer`. An entry that cannot be read is skipped; the first that cannot be
  -- sent ends the flush.
  unfoldable pub flush_kind : Kind → List Entry → S → Files → Flushed S
  flush_kind kind [] s files = (s, files, true)
  flush_kind kind (e ∷ entries) s files =
      let skipped = flush_kind kind entries s files in
      ite (kind_dec e.kind kind)
        (elim (read (unreadable e) files e) [
          | err x ↦ skipped
          | ok bytes ↦
              let (s', sent) = send s e.kind e.key bytes in
              let rest = flush_kind kind entries s' (removed refuses files e) in
              if sent then rest else (s', files, false)
        ])
        skipped

  -- The two rounds of `flushPeer` over the entries of a peer.
  unfoldable pub flush_kinds : List Entry → S → Files → Flushed S
  flush_kinds entries s files =
      let (s', files', answers) = flush_kind shard entries s files in
      if answers then flush_kind manifest entries s' files' else (s', files', false)

-- `peers` are the folders of the spool, the loop of `flushAll` over `PendingPeers`.
module _ {S : Type 0} (root : FilePath) (decode_peer : Bytes → Option Bytes)
    (send : Bytes → S → Kind → Bytes → Bytes → S × Bool) (unreadable refuses : Entry → Bool)
    (is_online : S → Bytes → Bool) where
  -- `flushPeer`
  unfoldable pub flush_peer : Bytes → S → Files → S × Files
  flush_peer peer s files = elim (decode_peer peer) [
    | none ↦ (s, files)
    | some pid ↦
        let r = flush_kinds (send pid) unreadable refuses (list_entries root files peer) s files in
        (r.0, r.1)
  ]

  -- `flushAll`
  unfoldable pub flush_all : List Bytes → S → Files → S × Files
  flush_all [] s files = (s, files)
  flush_all (peer ∷ peers) s files =
      let next = flush_peer peer s files in
      let flushed = flush_all peers next.0 next.1 in
      let skipped = flush_all peers s files in if is_online s peer then flushed else skipped
