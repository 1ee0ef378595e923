-- ===== src/Faults/Calls/History.antt =====
-- What any sequence of calls keeps of the faults.
use shiftlush_api.Prelude.{
  ℕ, ◌+◌, ◌<◌, ◌≤◌, ◌≡◌, sym, true, List, [], ◌∷◌, Text, All, All-append, All-map, All-put, All-at,
  Extends, Extends-refl, Extends-trans, arith,
}
use mathlib.Core.Path.{subst}
use mathlib.Core.List.{append-nil}
use shiftlush_api.Action.{Action, pure, modify, ◌>>◌}
use shiftlush_api.Action.Outcome.{Ends, Ends-weaken}
use shiftlush_api.Action.Keeps.{Keeps, Keeps-bind, Keeps-pure, Keeps-Ends, Keeps-modify}
use shiftlush_api.Fleet.{Fault, Fleet}
use shiftlush_api.Faults.Lifecycle.{
  is_sound, IsLater, IsLater-refl, IsLater-trans, Move-IsLater, Move-is_sound,
}
use shiftlush_api.Faults.Table.{Extends-put, Ascending-put, Ascending-append, IsSound, IsAfter}
use shiftlush_api.Faults.Calls.{Call, run, run_all, later_by}
use shiftlush_api.Faults.Calls.Writes.{Wrote, nothing, added, changed}
use shiftlush_api.Faults.Calls.Steps.{
  report_by_staff-Writes, report_public-Writes, report_by_portal-Writes, assign-Writes,
  arrive-Writes, resolve-Writes, close-Writes, cancel-Writes, edit-Writes,
}

IsAfter-refl : (s : Fleet) → IsAfter s s
IsAfter-refl s = record {
  rows =
      subst (Extends IsLater s.faults) (append-nil s.faults)
        (Extends-refl IsLater s.faults [] IsLater-refl);
  clock = omega arith;
}

Wrote-IsAfter : (s t : Fleet) → IsSound s → Wrote s t → IsAfter s t
Wrote-IsAfter s t i (nothing h) = record {
  rows = subst (Extends IsLater s.faults) (sym h.faults) (IsAfter-refl s).rows;
  clock = subst (λ k. s.now ≤ k) (sym h.now) (omega arith);
}
Wrote-IsAfter s t i (added g _ _ w _ c) = record {
  rows = subst (Extends IsLater s.faults) (sym w) (Extends-refl IsLater s.faults _ IsLater-refl);
  clock = subst (λ k. s.now ≤ k) (sym c) (omega arith);
}
Wrote-IsAfter s t i (changed f g here m w _ c) = record {
  rows =
      subst (Extends IsLater s.faults) (sym w)
        (Extends-put s.faults f g i.ascending here (Move-IsLater m));
  clock = subst (λ k. s.now ≤ k) (sym c) (omega arith);
}

Wrote-IsSound : (s t : Fleet) → IsSound s → Wrote s t → IsSound t
Wrote-IsSound s t i (nothing h) = record {
  ascending = rw h.faults i.ascending;
  keys_used = rw (h.faults, h.next_id) i.keys_used;
  sound = rw (h.faults, h.now) i.sound;
}
Wrote-IsSound s t i (added g k o w n c) = record {
  ascending = rw w (
      Ascending-append s.faults g i.ascending
        (subst (λ j. All (λ f. f.id < j) s.faults) (sym k) i.keys_used));
  keys_used =
      rw (w, n)
        (All-append (λ f. f.id < s.next_id + 1) s.faults (g ∷ [])
          (All-map s.faults (λ f b. omega (arith, b)) i.keys_used) (omega (arith, k), tt));
  sound = rw (w, c) (All-append (λ f. is_sound s.now f ≡ true) s.faults (g ∷ []) i.sound (o, tt));
}
Wrote-IsSound s t i (changed f g here m w n c) =
    let same = (Move-IsLater m).same_id in
    let key = All-at (λ h. h.id < s.next_id) f s.faults i.keys_used here in
    let ok = Move-is_sound m (All-at (λ h. is_sound s.now h ≡ true) f s.faults i.sound here) in
    record {
      ascending = rw w (Ascending-put s.faults f g i.ascending here same);
      keys_used =
          rw (w, n) (All-put (λ h. h.id < s.next_id) _ g s.faults (rw same key) i.keys_used);
      sound = rw (w, c) (All-put (λ h. is_sound s.now h ≡ true) _ g s.faults ok i.sound);
    }

later_is_sound : (now n : ℕ) (f : Fault) → is_sound now f ≡ true → is_sound (now + n) f ≡ true
unfolding is_sound
later_is_sound now n f h = ground arith

-- Sound, and after `before`.
record IsGood (before s : Fleet) : Type 0 where
  pub sound : IsSound s
  pub after : IsAfter before s

IsAfter-trans : (r s t : Fleet) → IsAfter r s → IsAfter s t → IsAfter r t
IsAfter-trans r s t p q = record {
  rows = Extends-trans IsLater r.faults s.faults t.faults IsLater-trans p.rows q.rows;
  clock = omega (arith, p.clock, q.clock);
}

module _ {before : Fleet} where
  Keeps-Writes :
      {A : Type 0} (m : Action Fleet A)
      → ((s : Fleet) → Ends (λ t. t ≡ s) (λ _ t. Wrote s t) m s)
      → Keeps (IsGood before) (m >> pure tt)
  Keeps-Writes m w =
      Keeps-bind m _
        (Keeps-Ends m
          (λ s g. Ends-weaken m s (λ t e. subst (IsGood before) (sym e) g) (λ _ t h. h) (w s))
          λ s g _ t h. record {
            sound = Wrote-IsSound s t g.sound h;
            after = IsAfter-trans before s t g.after (Wrote-IsAfter s t g.sound h);
          })
        λ _. Keeps-pure tt

  Keeps-wait : (n : ℕ) → Keeps (IsGood before) (modify (later_by n))
  Keeps-wait n = Keeps-modify (later_by n) λ s g. record {
    sound = record {
      ascending = g.sound.ascending;
      keys_used = g.sound.keys_used;
      sound = All-map s.faults (later_is_sound s.now n) g.sound.sound;
    };
    after = record { rows = g.after.rows; clock = omega (arith, g.after.clock) };
  }

  run-Keeps : (nr : ℕ → Text) (day : ℕ → ℕ) (c : Call) → Keeps (IsGood before) (run nr day c)
  unfolding run
  run-Keeps nr day (Call.staff_report e d p r w b t) =
      Keeps-Writes _ (report_by_staff-Writes nr e d p r w b t)
  run-Keeps nr day (Call.public_report e r) = Keeps-Writes _ (report_public-Writes nr e r)
  run-Keeps nr day (Call.portal_report k e r) = Keeps-Writes _ (report_by_portal-Writes nr k e r)
  run-Keeps nr day (Call.assign_to k t) = Keeps-Writes _ (assign-Writes k t)
  run-Keeps nr day (Call.arrive_at k) = Keeps-Writes _ (arrive-Writes k)
  run-Keeps nr day (Call.resolve_with k n p b) = Keeps-Writes _ (resolve-Writes day k n p b)
  run-Keeps nr day (Call.close_it k) = Keeps-Writes _ (close-Writes k)
  run-Keeps nr day (Call.cancel_for k r) = Keeps-Writes _ (cancel-Writes k r)
  run-Keeps nr day (Call.edit_to k c) = Keeps-Writes _ (edit-Writes k c)
  run-Keeps nr day (Call.wait n) = Keeps-wait n

run_all-IsGood :
    (nr : ℕ → Text) (day : ℕ → ℕ) (cs : List Call) {before : Fleet} (s : Fleet)
    → IsGood before s
    → IsGood before (run_all nr day cs s)
unfolding run_all
run_all-IsGood nr day [] s g = g
run_all-IsGood nr day (c ∷ cs) s g = run_all-IsGood nr day cs _ ((run-Keeps nr day c).after s g)

-- Whatever references are drawn, whatever the time zone, and whatever is called in whatever order,
-- a sound table of faults stays sound: keys grow, and each fault has the times that its status
-- implies, in order and none in the future, and no time of a state that only lies ahead; it has a
-- technician from assigned to closed, and an answer on billing once resolved or overridden.
pub run_all-IsSound :
    (nr : ℕ → Text) (day : ℕ → ℕ) (cs : List Call) (s : Fleet)
    → IsSound s
    → IsSound (run_all nr day cs s)
run_all-IsSound nr day cs s i =
    (run_all-IsGood nr day cs s (record { sound = i; after = IsAfter-refl s })).sound

-- Where the table is sound, no sequence of calls loses a fault or moves its row, changes its key,
-- firm, lift, reference or time of report, or takes its status back: along open, assigned, on
-- site, resolved and closed or cancelled it only goes on, and closed or cancelled it stays.
pub run_all-IsAfter :
    (nr : ℕ → Text) (day : ℕ → ℕ) (cs : List Call) (s : Fleet)
    → IsSound s
    → IsAfter s (run_all nr day cs s)
run_all-IsAfter nr day cs s i =
    (run_all-IsGood nr day cs s (record { sound = i; after = IsAfter-refl s })).after
