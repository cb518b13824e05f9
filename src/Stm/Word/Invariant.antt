-- ===== src/Stm/Word/Invariant.antt =====
-- The invariant of a word of Stm.Word: each access keeps it.
use software_transactional_m.Prelude.{
  ℕ, ◌+◌, ◌%◌, ◌^◌, ◌≡◌, refl, sym, ◌<◌, ◌≤◌, inr, arith, subst, ◌∙◌,
}
use software_transactional_m.Stm.Word.{
  nobody, locking, ticked, Place, loaded, State, fresh, Write, locks, backs_off, ticks, invalid,
  copies, stamps, unlocks, others_tick, Read, begins, samples, loads, finds_unlocked, finds_locked,
  finds_same, finds_other, finds_old, finds_new, goes_on, Reach, here, writes, reads,
}
use software_transactional_m.Stm.Word.Stage.{
  Owned, Seen, newest, top, Seen-owner, Seen-stamp, Seen-copy, Owned-tick, free-Seen, same-Seen,
  old-Seen,
}

pub record Inv (s : State) : Type 0 where
  pub current : s.value ≡ top s.log
  pub past : newest s.log ≤ s.global_clock
  pub owned : Owned s.owner s.version s.global_clock (newest s.log)
  pub begun : s.rv ≤ s.global_clock
  pub seen : Seen s.place s.rv s.version s.owner s.log

Write-Inv : {s t : State} → Write s t → t.global_clock < 2 ^ 32 → Inv s → Inv t
Write-Inv {s} (locks e) room h =
    let owned = subst (λ o. Owned o s.version s.global_clock (newest s.log)) e h.owned in
    record {
      current = h.current;
      past = h.past;
      owned = owned;
      begun = h.begun;
      seen = Seen-owner s.rv s.version s.log s.owner locking s.place (λ v k. (k.0, tt)) h.seen;
    }
Write-Inv {s} (backs_off e) room h =
    let owned = subst (λ o. Owned o s.version s.global_clock (newest s.log)) e h.owned in
    record {
      current = h.current;
      past = h.past;
      owned = owned;
      begun = h.begun;
      seen = Seen-owner s.rv s.version s.log s.owner nobody s.place (λ v k. (k.0, tt)) h.seen;
    }
Write-Inv {s} (ticks v e) room h =
    let owned = subst (λ o. Owned o s.version s.global_clock (newest s.log)) e h.owned in
    let later : s.rv < s.global_clock + 1 = omega (arith, h.begun) in
    record {
      current = h.current;
      past = omega (arith, h.past);
      owned = (owned, omega (arith, h.past), omega arith);
      begun = omega arith;
      seen =
          Seen-owner s.rv s.version s.log s.owner (ticked (s.global_clock + 1) v) s.place
            (λ v k. (k.0, later)) h.seen;
    }
Write-Inv {s} (invalid e) room h =
    let owned = subst (λ o. Owned o s.version s.global_clock (newest s.log)) e h.owned in
    record {
      current = h.current;
      past = h.past;
      owned = owned.0;
      begun = h.begun;
      seen = Seen-owner s.rv s.version s.log s.owner nobody s.place (λ v k. (k.0, tt)) h.seen;
    }
Write-Inv {s} (copies {wv = wv} {v = v} e) room h =
    let owned = subst (λ o. Owned o s.version s.global_clock (newest s.log)) e h.owned in
    let lt : s.version < wv = omega (arith, owned.0, owned.1) in
    record {
      current = refl;
      past = owned.2;
      owned = (refl, lt);
      begun = h.begun;
      seen =
          Seen-copy s.rv s.version s.log wv v s.place lt
            (subst (λ o. Seen s.place s.rv s.version o s.log) e h.seen);
    }
Write-Inv {s} (stamps {wv = wv} e) room h =
    let owned = subst (λ o. Owned o s.version s.global_clock (newest s.log)) e h.owned in
    let narrow : wv % 2 ^ 32 ≡ wv = omega (arith, owned.0, h.past, room) in
    record {
      current = h.current;
      past = h.past;
      owned = narrow ∙ sym owned.0;
      begun = h.begun;
      seen =
          Seen-stamp s.rv s.version s.log (wv % 2 ^ 32) wv s.place (omega (arith, narrow, owned.1))
            (subst (λ o. Seen s.place s.rv s.version o s.log) e h.seen);
    }
Write-Inv {s} (unlocks e) room h =
    let owned = subst (λ o. Owned o s.version s.global_clock (newest s.log)) e h.owned in
    record {
      current = h.current;
      past = h.past;
      owned = owned;
      begun = h.begun;
      seen = Seen-owner s.rv s.version s.log s.owner nobody s.place (λ v k. (k.0, tt)) h.seen;
    }
Write-Inv {s} others_tick room h = record {
  current = h.current;
  past = omega (arith, h.past);
  owned = Owned-tick s.owner s.version s.global_clock (newest s.log) h.owned;
  begun = omega (arith, h.begun);
  seen = h.seen;
}

-- A step of the reader that goes to the place `p`.
read_on :
    {s : State} (p : Place)
    → Inv s
    → Seen p s.rv s.version s.owner s.log
    → Inv (record s { place = p })
read_on p h k = record {
  current = h.current;
  past = h.past;
  owned = h.owned;
  begun = h.begun;
  seen = k;
}

Read-Inv : {s t : State} → Read s t → t.global_clock < 2 ^ 32 → Inv s → Inv t
Read-Inv {s} (begins e) room h = record {
  current = h.current;
  past = h.past;
  owned = h.owned;
  begun = omega arith;
  seen = tt;
}
Read-Inv (samples e) room h = read_on _ h (omega arith)
Read-Inv {s} (loads {v_before = b} e) room h =
    let below : b ≤ s.version = subst (λ p. Seen p s.rv s.version s.owner s.log) e h.seen in
    read_on _ h (
      subst (λ v. Seen (loaded b v) s.rv s.version s.owner s.log) (sym h.current) (below, inr refl))
Read-Inv {s} (finds_unlocked e free) room h = read_on _ h (
    free-Seen s.owner s.rv _ _ s.version s.global_clock s.log free h.owned
      (subst (λ p. Seen p s.rv s.version s.owner s.log) e h.seen))
Read-Inv (finds_locked e _) room h = read_on _ h tt
Read-Inv {s} (finds_same e eq) room h = read_on _ h (
    same-Seen s.owner s.rv _ _ s.version s.log eq
      (subst (λ p. Seen p s.rv s.version s.owner s.log) e h.seen))
Read-Inv (finds_other e _) room h = read_on _ h tt
Read-Inv {s} (finds_old e old) room h = read_on _ h (
    old-Seen s.owner s.rv _ _ s.version s.log old
      (subst (λ p. Seen p s.rv s.version s.owner s.log) e h.seen))
Read-Inv (finds_new e _) room h = read_on _ h tt
Read-Inv (goes_on e) room h = read_on _ h tt

Write-clock : {s t : State} → Write s t → s.global_clock ≤ t.global_clock
Write-clock (locks _) = omega arith
Write-clock (backs_off _) = omega arith
Write-clock (ticks _ _) = omega arith
Write-clock (invalid _) = omega arith
Write-clock (copies _) = omega arith
Write-clock (stamps _) = omega arith
Write-clock (unlocks _) = omega arith
Write-clock others_tick = omega arith

Read-clock : {s t : State} → Read s t → s.global_clock ≡ t.global_clock
Read-clock (begins _) = refl
Read-clock (samples _) = refl
Read-clock (loads _) = refl
Read-clock (finds_unlocked _ _) = refl
Read-clock (finds_locked _ _) = refl
Read-clock (finds_same _ _) = refl
Read-clock (finds_other _ _) = refl
Read-clock (finds_old _ _) = refl
Read-clock (finds_new _ _) = refl
Read-clock (goes_on _) = refl

pub Reach-Inv : {s t : State} → Reach s t → t.global_clock < 2 ^ 32 → Inv s → Inv t
Reach-Inv here room h = h
Reach-Inv (writes r st) room h = Write-Inv st room (Reach-Inv r (omega (arith, Write-clock st)) h)
Reach-Inv (reads r st) room h = Read-Inv st room (Reach-Inv r (omega (arith, Read-clock st)) h)

pub Reach-clock : {s t : State} → Reach s t → s.global_clock ≤ t.global_clock
Reach-clock here = omega arith
Reach-clock (writes r st) = omega (arith, Write-clock st, Reach-clock r)
Reach-clock (reads r st) = omega (arith, Read-clock st, Reach-clock r)

pub fresh-Inv : (clock : ℕ) → Inv (fresh clock)
fresh-Inv clock = record {
  current = refl;
  past = omega arith;
  owned = refl;
  begun = omega arith;
  seen = tt;
}
