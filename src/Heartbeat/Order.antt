-- ===== src/Heartbeat/Order.antt =====
-- The order in which the probes of a scan end does not matter for the ledger.
use fnshare.Prelude.{◌≡◌, refl, ap, sym, ◌∙◌, ◌≢◌, subst, List, [], ◌∷◌, arith, ite, if_pos, if_neg}
use fnshare.Prelude.Bytes.{Bytes, bytes_dec}
use fnshare.Prelude.Clock.{at}
use fnshare.Codec.{Codec}
use fnshare.Store.{Badger}
use fnshare.Ledger.{Entry, Dirty, stamp, probe, current, record_ping}
use fnshare.Ledger.Records.{current-touch}
use fnshare.Heartbeat.{Probe, run_probes}
use mathlib.Core.List.{Permᴰ, Pairwise, mem-cons_self}
use mathlib.Core.List.Permᴰ

-- The probes are of different peers.
abbrev pub DifferentPeers : List Probe → Type 0
DifferentPeers = Pairwise (λ p q. p.peer ≢ q.peer)

module _ (b : Badger) (c : Codec Entry) (db : b.Db) where
  -- Two ledgers that show the same of each peer.
  abbrev pub SameLedger : Dirty → Dirty → Type 0
  SameLedger dirty other = (q : Bytes) → current b c db dirty q ≡ current b c db other q

  after : Probe → Dirty → Dirty
  after p dirty = (record_ping b c (at p.touched) (at p.now) db dirty p.peer p.answered).0

  current-after :
      (p : Probe) (dirty : Dirty) (q : Bytes)
      → current b c db (after p dirty) q
        ≡ ite
            (bytes_dec q p.peer)
            (probe (at p.now) p.answered (stamp (at p.touched) (current b c db dirty p.peer))).0
            (current b c db dirty q)
  unfolding after record_ping
  current-after p dirty q =
      current-touch b c db (at p.touched) dirty p.peer q (λ e. (probe (at p.now) p.answered e).0)

  after-SameLedger :
      (p : Probe) (dirty other : Dirty)
      → SameLedger dirty other
      → SameLedger (after p dirty) (after p other)
  after-SameLedger p dirty other same q =
      ground (arith, current-after p dirty q, current-after p other q, same q, same p.peer)

  -- What a probe makes of the entry of its peer.
  probed : Probe → Entry → Entry
  probed p e = (probe (at p.now) p.answered (stamp (at p.touched) e)).0

  after_self :
      (p : Probe) (dirty : Dirty) (q : Bytes)
      → q ≡ p.peer
      → current b c db (after p dirty) q ≡ probed p (current b c db dirty p.peer)
  unfolding probed
  after_self p dirty q e = current-after p dirty q ∙ if_pos (bytes_dec q p.peer) e _ _

  after_ne :
      (p : Probe) (dirty : Dirty) (q : Bytes)
      → q ≢ p.peer
      → current b c db (after p dirty) q ≡ current b c db dirty q
  after_ne p dirty q n = current-after p dirty q ∙ if_neg (bytes_dec q p.peer) n _ _

  after_comm :
      (p r : Probe) (dirty : Dirty)
      → p.peer ≢ r.peer
      → SameLedger (after p (after r dirty)) (after r (after p dirty))
  after_comm p r dirty apart q = elim (bytes_dec q p.peer) [
    | yes e ↦
        after_self p (after r dirty) q e
        ∙ ap (probed p) (after_ne r dirty p.peer apart)
        ∙ sym (after_ne r (after p dirty) q (λ k. apart (sym e ∙ k)) ∙ after_self p dirty q e)
    | no n ↦ elim (bytes_dec q r.peer) [
      | yes e ↦
          after_ne p (after r dirty) q n
          ∙ after_self r dirty q e
          ∙ sym (
              after_self r (after p dirty) q e
              ∙ ap (probed r) (after_ne p dirty r.peer (λ k. apart (sym k))))
      | no m ↦
          after_ne p (after r dirty) q n
          ∙ after_ne r dirty q m
          ∙ sym (after_ne r (after p dirty) q m ∙ after_ne p dirty q n)
    ]
  ]

  run_probes-SameLedger :
      (probes : List Probe) (dirty other : Dirty)
      → SameLedger dirty other
      → SameLedger (run_probes b c db probes dirty).0 (run_probes b c db probes other).0
  unfolding run_probes record_ping after
  run_probes-SameLedger [] dirty other same = same
  run_probes-SameLedger (p ∷ probes) dirty other same =
      run_probes-SameLedger probes _ _ (after-SameLedger p dirty other same)

  different : (p q : Probe) → IsProp (p.peer ≢ q.peer)
  different p q = hlevel

  -- If the probes are of different peers, the ledger shows the same of every peer after a scan in
  -- whatever order the probes end.
  pub run_probes_any_order :
      (ps qs : List Probe) (dirty : Dirty)
      → Permᴰ ps qs
      → DifferentPeers ps
      → SameLedger (run_probes b c db ps dirty).0 (run_probes b c db qs dirty).0
  unfolding run_probes record_ping after
  run_probes_any_order _ _ dirty Permᴰ.nil h = λ q. refl
  run_probes_any_order _ _ dirty (Permᴰ.cons {a = x} {b = y} {l₁ = ps} {l₂ = qs} e p)
        (Pairwise.cons h t) =
      subst
        (λ z. SameLedger (run_probes b c db (x ∷ ps) dirty).0 (run_probes b c db (z ∷ qs) dirty).0)
        e (run_probes_any_order ps qs (after x dirty) p t)
  run_probes_any_order _ _ dirty (Permᴰ.swap {a = x} {b = y} {a' = v} {b' = w} {l = ps} e f)
        (Pairwise.cons h t) =
      subst
        (λ z.
          SameLedger (run_probes b c db (x ∷ y ∷ ps) dirty).0
            (run_probes b c db (z ∷ w ∷ ps) dirty).0)
        f
        (subst
          (λ z.
            SameLedger (run_probes b c db (x ∷ y ∷ ps) dirty).0
              (run_probes b c db (y ∷ z ∷ ps) dirty).0)
          e
          (run_probes-SameLedger ps (after y (after x dirty)) (after x (after y dirty))
            (after_comm y x dirty (λ k. h y mem-cons_self (sym k)))))
  run_probes_any_order ps rs dirty (Permᴰ.trans {l₂ = qs} p q) h = λ k.
      run_probes_any_order ps qs dirty p h k
      ∙ run_probes_any_order qs rs dirty q (Permᴰ.pairwise different (λ x y n e. n (sym e)) p h) k
