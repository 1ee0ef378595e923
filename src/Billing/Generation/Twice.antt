-- ===== src/Billing/Generation/Twice.antt =====
-- apps/billing/services.py: a second run of the same day.
use shiftlush_api.Prelude.{
  ℕ, ◌+◌, ◌≡◌, refl, sym, ap, ◌∙◌, inl, inr, false, Bool-cases, ltb, leb, ◌==◌, Option, none, some,
  List, [], ◌∷◌, map, any, select, is_some, All, IsDistinct, arith, true_and_false,
}
use mathlib.Core.Path.{subst}
use shiftlush_api.Action.{ok, Action}
use shiftlush_api.Action.Outcome.{Ends, Leaves, Ends-pure, Ends-gets, Ends-bind, Ends-weaken}
use shiftlush_api.Action.Never.{Never, Ends-atomic-Never, returned}
use shiftlush_api.Fleet.{Contract}
use shiftlush_api.Ledger.Models.{Books}
use shiftlush_api.Periods.{Period}
use shiftlush_api.Billing.Fees.{Sources}
use shiftlush_api.Billing.Generation.{
  lookback, is_live_of, DraftRun, draft_or_tell, visit, draft_periods, start_of_draft, periods_of,
  draft_contract, draft_contracts, contracts_of, empty_run, generate,
}
use shiftlush_api.Billing.Generation.Saved.{fault_id}
use shiftlush_api.Billing.Generation.Written.{existing-drafted}
use shiftlush_api.Billing.Generation.Coverage.{IsDone, AllDone, generate-Ends}

-- Nothing is written, and no draft is made.
abbrev IsIdle : DraftRun → Books → DraftRun → Books → Type 0
IsIdle run t next u = (u ≡ t) × (next.created ≡ run.created)

module _ (w : Sources) (today : ℕ) (t : Books) where
  abbrev existing_of : Contract → List ℕ
  existing_of c = map start_of_draft (select (is_live_of c.id) t.drafts)

  told-Ends :
      (vat : Option ℕ) (c : Contract) (p : Period) (run : DraftRun)
      → is_some vat ≡ false
      → Ends Never (IsIdle run t) (draft_or_tell vat w c p run) t
  unfolding draft_or_tell
  told-Ends none c p run h = Ends-pure _ _ (refl, refl)
  told-Ends (some vat_rate) c p run h = cc

  visit-IsIdle :
      (c : Contract) (p : Period) (run : DraftRun)
      → leb today p.end ≡ false
      → IsDone w today c t p
      → Ends Never (IsIdle run t) (visit w today c (existing_of c) p run) t
  unfolding visit
  visit-IsIdle c p run early done = elim (Bool-cases (ltb (p.end + lookback) today)) [
    | inl old ↦ rw (old) (Ends-pure _ _ (refl, refl))
    | inr recent ↦ elim (Bool-cases (any (λ start. start == p.start) (existing_of c))) [
      | inl there ↦ rw (recent) (rw (there) (Ends-pure _ _ (refl, refl)))
      | inr fresh ↦ rw (recent) (
          rw (fresh) (elim (Bool-cases (is_some c.vat_rate)) [
            | inl vat ↦
                true_and_false
                  (existing-drafted c.id p.start t.drafts ∙ done (ground arith) (ground arith) vat)
                  fresh
            | inr none_set ↦ told-Ends c.vat_rate c p run none_set
          ]))
    ]
  ]

  -- The rest of a block, after a part that was idle.
  then-IsIdle :
      (run next : DraftRun) (u : Books) (m : Action Books DraftRun)
      → IsIdle run t next u
      → Ends Never (IsIdle next t) m t
      → Ends Never (IsIdle run t) m u
  then-IsIdle run next u m x h =
      Ends-weaken _ u (λ _ never. never) (λ _ _ y. (y.0, y.1 ∙ x.1))
        (subst (λ v. Ends Never (IsIdle next t) m v) (sym x.0) h)

  draft_periods-IsIdle :
      (c : Contract) (ps : List Period) (run : DraftRun)
      → All (IsDone w today c t) ps
      → Ends Never (IsIdle run t) (draft_periods w today c (existing_of c) ps run) t
  unfolding draft_periods
  draft_periods-IsIdle c [] run h = Ends-pure _ _ (refl, refl)
  draft_periods-IsIdle c (p ∷ ps) run (done, rest) = elim (Bool-cases (leb today p.end)) [
    | inl late ↦ rw (late) (Ends-pure _ _ (refl, refl))
    | inr early ↦ rw (early) (
        Ends-bind _ _ t (visit-IsIdle c p run early done)
          λ next u x. then-IsIdle run next u _ x (draft_periods-IsIdle c ps next rest))
  ]

  draft_contracts-IsIdle :
      (cs : List Contract) (run : DraftRun)
      → All (λ c. All (IsDone w today c t) (periods_of c)) cs
      → Ends Never (IsIdle run t) (draft_contracts w today cs run) t
  unfolding draft_contracts draft_contract
  draft_contracts-IsIdle [] run h = Ends-pure _ _ (refl, refl)
  draft_contracts-IsIdle (c ∷ cs) run (done, rest) =
      Ends-bind _ _ t (Ends-gets _ _ _ (draft_periods-IsIdle c (periods_of c) run done))
        λ next u x. then-IsIdle run next u _ x (draft_contracts-IsIdle cs next rest)

  generate-IsIdle :
      All (λ c. All (IsDone w today c t) (periods_of c)) (contracts_of w today)
      → Ends Never (IsIdle empty_run t) (generate w today) t
  unfolding generate
  generate-IsIdle h = Ends-atomic-Never _ _ t (
      Ends-bind _ _ t (draft_contracts-IsIdle (contracts_of w today) empty_run h)
        λ run u x. Ends-gets _ _ _ (Ends-pure _ _ x))

-- A second run on the same day makes no draft, writes nothing and does not fail, where no two faults
-- have the same key.
pub generate_twice :
    (w : Sources) (today : ℕ)
    → IsDistinct fault_id w.fleet.faults
    → (s t : Books) (run : DraftRun) → generate w today s ≡ (ok run, t)
    → (again : DraftRun) × (generate w today t ≡ (ok again, t)) × (again.created ≡ [])
generate_twice w today distinct s t run first =
    let done =
      subst (Leaves Never (λ _ u. All (AllDone w today distinct u) (contracts_of w today))) first
        (generate-Ends w today distinct s).outcome in
    let second = returned _ (generate w today t) (generate-IsIdle w today t done).outcome in
    (second.0, second.2 ∙ ap (λ u. (ok second.0, u)) second.3.0, second.3.1)
