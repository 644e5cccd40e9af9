-- ===== src/Ledger/Liveness.antt =====
-- The liveness and the reputation that `RecordPing` keeps for a peer, over any history of probes.
use fnshare.Prelude.{
  ℕ, ◌+◌, ◌-◌, min, ◌≤◌, ◌<◌, ◌≡◌, refl, ap, ◌∙◌, Bool, true, false, not, ◌&&◌, List, [], ◌∷◌,
  arith, length, ltb, ◌==◌, if◌then◌else◌,
}
use fnshare.Prelude.Int.{ℤ, pos, ◌+ℤ◌, ◌-ℤ◌}
use fnshare.Prelude.Int64.{add64, sub64, wrap64}
use fnshare.Prelude.Clock.{Time, at, is_zero}
use fnshare.Prelude.Bytes.{Bytes}
use fnshare.Ledger.{
  Entry, PingResult, new_entry, probe, probe_answered, probe_failed, gain, lose, stamp,
}

-- A history of probes, the newest first: whether each was answered.
abbrev pub History : Type 0
History = List Bool

-- The failures since the last answer.
abbrev pub streak : History → ℕ
streak [] = 0
streak (true ∷ ps) = 0
streak (false ∷ ps) = streak ps + 1

abbrev pub seen : History → Bool
seen [] = false
seen (true ∷ ps) = true
seen (false ∷ ps) = seen ps

-- A peer counts as online when it has answered, and fewer than three probes failed since.
abbrev pub online_after : History → Bool
online_after ps = seen ps && ltb (streak ps) 3

-- The reputation starts at 100, gains 1 for an answer up to 100, and loses 5 down to 0 for each
-- failure from the third in a row on.
abbrev pub reputation_after : History → ℕ
reputation_after [] = 100
reputation_after (true ∷ ps) = min 100 (reputation_after ps + 1)
reputation_after (false ∷ ps) =
    if ltb (streak ps + 1) 3 then reputation_after ps else reputation_after ps - 5

abbrev pub is_empty : History → Bool
is_empty [] = true
is_empty (p ∷ ps) = false

pub record Tracks (ps : History) (e : Entry) : Type 0 where
  pub failures : e.consec_failures ≡ pos (streak ps)
  pub online : e.is_online ≡ online_after ps
  pub first : is_zero e.last_ping_at ≡ is_empty ps
  pub offline : is_zero e.offline_since ≡ ltb (streak ps) 3
  pub reputation : is_empty ps ≡ false → e.reputation ≡ pos (reputation_after ps)

reputation_after-le : (ps : History) → reputation_after ps ≤ 100
reputation_after-le [] = omega arith
reputation_after-le (true ∷ ps) = omega arith
reputation_after-le (false ∷ ps) = ground (arith, reputation_after-le ps)

streak-le : (ps : History) → streak ps ≤ length ps
streak-le [] = omega arith
streak-le (true ∷ ps) = omega arith
streak-le (false ∷ ps) = omega (arith, streak-le ps)

-- Counting one more failure does not wrap.
add_one : (n : ℕ) → n < 9223372036854775807 → add64 (pos n) (pos 1) ≡ pos (n + 1)
unfolding add64 ◌+ℤ◌ wrap64
add_one n h = ground arith

sub_small : (n m : ℕ) → n ≤ 100 → m ≤ n → sub64 (pos n) (pos m) ≡ pos (n - m)
unfolding sub64 ◌-ℤ◌ wrap64
sub_small n m h k = ground arith

lose_lem : (r : ℕ) → r ≤ 100 → lose (pos r) ≡ pos (r - 5)
unfolding lose ◌-ℤ◌ wrap64 sub64
lose_lem r h = ground arith

gain_lem : (r : ℕ) → r ≤ 100 → gain (pos r) ≡ pos (min 100 (r + 1))
unfolding gain ◌+ℤ◌ wrap64 add64
gain_lem r h = ground arith

-- The reputation that the branches of `RecordPing` start from.
start : Entry → ℤ
start e = if is_zero e.last_ping_at then pos 100 else e.reputation

start_lem : (ps : History) (e : Entry) → Tracks ps e → start e ≡ pos (reputation_after ps)
unfolding start
start_lem [] e h = ground arith
start_lem (p ∷ ps) e h = ground arith

answered-Tracks :
    (t : ℕ) (ps : History) (e : Entry) → Tracks ps e → Tracks (true ∷ ps) (probe (at t) true e).0
unfolding probe probe_answered start
answered-Tracks t ps e h = record {
  failures = refl;
  online = refl;
  first = refl;
  offline = ground arith;
  reputation = λ _. ap gain (start_lem ps e h) ∙ gain_lem _ (reputation_after-le ps);
}

failed-Tracks :
    (t : ℕ) (ps : History) (e : Entry)
    → Tracks ps e
    → length ps < 9223372036854775807
    → Tracks (false ∷ ps) (probe (at t) false e).0
unfolding probe probe_failed start
failed-Tracks t ps e h l = record {
  failures = ground (arith, counted);
  online = ground (arith, counted);
  first = ground (arith, counted);
  offline = ground (arith, counted);
  reputation = λ _. ground (arith, counted, start_lem ps e h, lost);
}
  where
    counted : add64 e.consec_failures (pos 1) ≡ pos (streak ps + 1)
    counted =
        ap (λ (n : ℤ). add64 n (pos 1)) h.failures
        ∙ add_one (streak ps) (omega (arith, streak-le ps))

    lost : lose (start e) ≡ pos (reputation_after ps - 5)
    lost = ap lose (start_lem ps e h) ∙ lose_lem _ (reputation_after-le ps)

pub new_entry-Tracks : (peer : Bytes) → Tracks [] (new_entry peer)
new_entry-Tracks peer = record {
  failures = refl;
  online = refl;
  first = refl;
  offline = refl;
  reputation = λ e. cc;
}

pub probe-Tracks :
    (t : ℕ) (answered : Bool) (ps : History) (e : Entry)
    → Tracks ps e
    → length ps < 9223372036854775807
    → Tracks (answered ∷ ps) (probe (at t) answered e).0
probe-Tracks t true ps e h l = answered-Tracks t ps e h
probe-Tracks t false ps e h l = failed-Tracks t ps e h l

-- `touchLocked` changes the time of the update alone.
pub stamp-Tracks : (t : Time) (ps : History) (e : Entry) → Tracks ps e → Tracks ps (stamp t e)
unfolding stamp
stamp-Tracks t ps e h = record {
  failures = h.failures;
  online = h.online;
  first = h.first;
  offline = h.offline;
  reputation = h.reputation;
}

-- What `RecordPing` reports after the history `ps`.
pub record Reports (answered : Bool) (ps : History) (r : PingResult) : Type 0 where
  pub went_offline : r.went_offline ≡ (not answered && (seen ps && streak ps == 2))
  pub went_online : r.went_online ≡ (answered && (not (is_empty ps) && not (online_after ps)))
  pub is_online : r.is_online ≡ online_after (answered ∷ ps)
  pub reputation : r.reputation ≡ pos (reputation_after (answered ∷ ps))

probe_is_online :
    (now : Time) (answered : Bool) (e : Entry)
    → ((probe now answered e).1.is_online ≡ (probe now answered e).0.is_online)
      × ((probe now answered e).1.reputation ≡ (probe now answered e).0.reputation)
unfolding probe
probe_is_online now answered e = (refl, refl)

probe_transitions :
    (now : Time) (answered : Bool) (e : Entry)
    → let was = if is_zero e.last_ping_at then answered else e.is_online in
      ((probe now answered e).1.went_offline ≡ (was && not (probe now answered e).0.is_online))
      × ((probe now answered e).1.went_online ≡ (not was && (probe now answered e).0.is_online))
unfolding probe
probe_transitions now answered e = (refl, refl)

pub probe-Reports :
    (t : ℕ) (answered : Bool) (ps : History) (e : Entry)
    → Tracks ps e
    → length ps < 9223372036854775807
    → Reports answered ps (probe (at t) answered e).1
probe-Reports t answered ps e h l = record {
  went_offline = offline answered ps h after;
  went_online = online answered ps h after;
  is_online = (probe_is_online (at t) answered e).0 ∙ after.online;
  reputation = (probe_is_online (at t) answered e).1 ∙ after.reputation refl;
}
  where
    after : Tracks (answered ∷ ps) (probe (at t) answered e).0
    after = probe-Tracks t answered ps e h l

    offline :
        (a : Bool) (qs : History)
        → Tracks qs e
        → Tracks (a ∷ qs) (probe (at t) a e).0
        → (probe (at t) a e).1.went_offline ≡ (not a && (seen qs && streak qs == 2))
    offline true [] k q = ground (arith, (probe_transitions (at t) true e))
    offline false [] k q = ground (arith, (probe_transitions (at t) false e))
    offline true (p ∷ qs) k q = ground (arith, (probe_transitions (at t) true e))
    offline false (p ∷ qs) k q = ground (arith, (probe_transitions (at t) false e))

    online :
        (a : Bool) (qs : History)
        → Tracks qs e
        → Tracks (a ∷ qs) (probe (at t) a e).0
        → (probe (at t) a e).1.went_online ≡ (a && (not (is_empty qs) && not (online_after qs)))
    online true [] k q = ground (arith, (probe_transitions (at t) true e))
    online false [] k q = ground (arith, (probe_transitions (at t) false e))
    online true (p ∷ qs) k q = ground (arith, (probe_transitions (at t) true e))
    online false (p ∷ qs) k q = ground (arith, (probe_transitions (at t) false e))
