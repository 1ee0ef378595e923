-- ===== src/Billing/Generation/Coverage.antt =====
-- apps/billing/services.py: the periods that the daily run looks at, and their drafts.
use shiftlush_api.Prelude.{
  ℕ, ◌+◌, ◌≤◌, ◌<◌, ◌≡◌, sym, ◌∙◌, inl, inr, true, Bool-cases, ltb, leb, ◌==◌, Option, none, some,
  List, [], ◌∷◌, any, is_some, In, In-select, In-order_by, All, All-map, All-at, IsDistinct, arith,
}
use shiftlush_api.Action.{ok}
use shiftlush_api.Action.Outcome.{Ends, Ends-pure, Ends-gets, Ends-bind, Ends-weaken}
use shiftlush_api.Action.Never.{Never, Ends-atomic-Never, returned}
use shiftlush_api.Action.Keeps.{Keeps}
use shiftlush_api.Fleet.{Contract}
use shiftlush_api.Ledger.Models.{Books}
use shiftlush_api.Calendar.{from_ordinal}
use shiftlush_api.Calendar.RoundTrip.{from_ordinal-IsDay}
use shiftlush_api.Periods.{Period}
use shiftlush_api.Periods.Tiling.{IsTiled, over, then_tiled, periods-IsTiled}
use shiftlush_api.Billing.Fees.{Sources, last_billed_day}
use shiftlush_api.Billing.Generation.{
  lookback, draft_for, DraftRun, draft_or_tell, visit, draft_periods, periods_of, draft_contract,
  draft_contracts, is_drafted, contract_start, contracts_of, empty_run, generate,
}
use shiftlush_api.Billing.Generation.Loops.{visit-Keeps, draft_periods-Keeps, draft_contracts-Keeps}
use shiftlush_api.Billing.Generation.Saved.{IsDrafted, fault_id, draft_for-Keeps}
use shiftlush_api.Billing.Generation.Written.{draft_for-Ends, Ends-grown, existing-drafted}

module _ (w : Sources) (today : ℕ) where
  kept :
      (contract start : ℕ) (c : Contract) (vat_rate : ℕ) (p : Period)
      → Keeps (IsDrafted contract start) (draft_for w c vat_rate p)
  kept contract start c vat_rate p = draft_for-Keeps contract start w c vat_rate p

  -- The period has its draft, if it ended before the day and not too long before, and the contract
  -- has a VAT rate.
  abbrev pub IsDone : Contract → Books → Period → Type 0
  IsDone c s p =
      p.end < today
      → today ≤ p.end + lookback
      → is_some c.vat_rate ≡ true
      → IsDrafted c.id p.start s

  abbrev IsKnown : ℕ → List ℕ → Books → Type 0
  IsKnown contract existing s =
      (start : ℕ) → any (λ known. known == start) existing ≡ true → IsDrafted contract start s

  IsDone-later :
      (c : Contract) (s : Books) (end from : ℕ) (ps : List Period)
      → IsTiled end from ps
      → today ≤ from
      → All (IsDone c s) ps
  IsDone-later c s end from [] (over _ _) late = tt
  IsDone-later c s end from (p ∷ ps) (then_tiled _ _ _ here order cut rest) late =
      (λ early _ _. absurd (omega arith), IsDone-later c s end (p.end + 1) ps rest (omega arith))

  module _ (distinct : IsDistinct fault_id w.fleet.faults) where
    draft_or_tell-Ends :
        (vat : Option ℕ) (c : Contract) (p : Period) (run : DraftRun) (s : Books)
        → p.start ≤ p.end
        → Ends Never
            (λ _ t. is_some vat ≡ true → IsDrafted c.id p.start t)
            (draft_or_tell vat w c p run)
            s
    unfolding draft_or_tell
    draft_or_tell-Ends none c p run s order = Ends-pure _ _ (λ h. cc)
    draft_or_tell-Ends (some vat_rate) c p run s order =
        Ends-bind _ _ s (draft_for-Ends w distinct c vat_rate p s order)
          λ _ t x. Ends-pure _ _ (λ _. x)

    visit-Ends :
        (c : Contract) (existing : List ℕ) (p : Period) (run : DraftRun) (s : Books)
        → p.start ≤ p.end
        → IsKnown c.id existing s
        → Ends Never (λ _ t. IsDone c t p) (visit w today c existing p run) s
    unfolding visit
    visit-Ends c existing p run s order known = elim (Bool-cases (ltb (p.end + lookback) today)) [
      | inl old ↦ rw (old) (Ends-pure _ _ (λ _ recent _. ground arith))
      | inr recent ↦ elim (Bool-cases (any (λ start. start == p.start) existing)) [
        | inl there ↦ rw (recent) (rw (there) (Ends-pure _ _ (λ _ _ _. known p.start there)))
        | inr fresh ↦ rw (recent) (
            rw (fresh) (
              Ends-weaken _ s (λ _ never. never) (λ _ t x _ _ vat. x vat)
                (draft_or_tell-Ends c.vat_rate c p run s order)))
      ]
    ]

    draft_periods-Ends :
        (c : Contract) (existing : List ℕ) (end from : ℕ) (ps : List Period) (run : DraftRun)
        (s : Books)
        → IsTiled end from ps
        → IsKnown c.id existing s
        → Ends Never (λ _ t. All (IsDone c t) ps) (draft_periods w today c existing ps run) s
    unfolding draft_periods
    draft_periods-Ends c existing end from [] run s (over _ _) known = Ends-pure _ _ tt
    draft_periods-Ends c existing end from (p ∷ ps) run s (then_tiled _ _ _ here order cut rest)
          known =
        elim (Bool-cases (leb today p.end)) [
          | inl late ↦ rw (late) (
              Ends-pure _ _ (
                λ early _ _. ground arith,
                IsDone-later c s end (p.end + 1) ps rest (ground arith),
              ))
          | inr early ↦ rw (early) (
              Ends-bind _ _ s
                (Ends-grown _ s
                  (λ k start.
                    visit-Keeps (IsDrafted k start) w today (kept k start) c existing p run)
                  (visit-Ends c existing p run s order known))
                λ next t x.
                  Ends-weaken _ t (λ _ never. never)
                    (λ _ u y. (λ a b v. y.1 c.id p.start (x.0 a b v), y.0))
                    (Ends-grown _ t
                      (λ k start.
                        draft_periods-Keeps (IsDrafted k start) w today (kept k start) c existing ps
                          next)
                      (draft_periods-Ends c existing end (p.end + 1) ps next t rest
                        (λ start h. x.1 c.id start (known start h)))))
        ]

    draft_contract-Ends :
        (c : Contract) (run : DraftRun) (s : Books)
        → Ends Never (λ _ t. All (IsDone c t) (periods_of c)) (draft_contract w today c run) s
    unfolding draft_contract
    draft_contract-Ends c run s = Ends-gets _ _ _ (
        draft_periods-Ends c _ (last_billed_day c) _ (periods_of c) run s
          (periods-IsTiled (from_ordinal c.start_date) (from_ordinal-IsDay c.start_date)
            (last_billed_day c) c.billing_period)
          (λ start h. sym (existing-drafted c.id start s.drafts) ∙ h))

    abbrev pub AllDone : Books → Contract → Type 0
    AllDone s c = All (IsDone c s) (periods_of c)

    draft_contracts-Ends :
        (cs : List Contract) (run : DraftRun) (s : Books)
        → Ends Never (λ _ t. All (AllDone t) cs) (draft_contracts w today cs run) s
    unfolding draft_contracts
    draft_contracts-Ends [] run s = Ends-pure _ _ tt
    draft_contracts-Ends (c ∷ cs) run s = Ends-bind _ _ s (draft_contract-Ends c run s) λ next t x.
        Ends-weaken _ t (λ _ never. never)
          (λ _ u y. (All-map (periods_of c) (λ p done a b v. y.1 c.id p.start (done a b v)) x, y.0))
          (Ends-grown _ t
            (λ k start. draft_contracts-Keeps (IsDrafted k start) w today (kept k start) cs next)
            (draft_contracts-Ends cs next t))

    pub generate-Ends :
        (s : Books)
        → Ends Never (λ _ t. All (AllDone t) (contracts_of w today)) (generate w today) s
    unfolding generate
    generate-Ends s = Ends-atomic-Never _ _ s (
        Ends-bind _ _ s (draft_contracts-Ends (contracts_of w today) empty_run s)
          λ run t x. Ends-gets _ _ _ (Ends-pure _ _ x))

-- The run of the day makes a draft of every period that it should: for every contract that is
-- active or ended at most 92 days ago, where it has a VAT rate, each of its periods that ended
-- before the day, and at most 92 days before it, has a live draft afterwards. No error stops the
-- run, where no two faults have the same key.
pub generate-IsDrafted :
    (w : Sources) (today : ℕ)
    → IsDistinct fault_id w.fleet.faults
    → (s : Books)
    → (run : DraftRun) × (t : Books) × (generate w today s ≡ (ok run, t))
      × ((c : Contract)
          → In c w.fleet.contracts
          → is_drafted today c ≡ true
          → is_some c.vat_rate ≡ true
          → (p : Period) → In p (periods_of c)
          → p.end < today
          → today ≤ p.end + 92
          → IsDrafted c.id p.start t)
generate-IsDrafted w today distinct s =
    let done = returned _ (generate w today s) (generate-Ends w today distinct s).outcome in
    (
      done.0,
      done.1,
      done.2,
      λ c stored drafted vat p within early recent.
          All-at _ p (periods_of c)
            (All-at _ c (contracts_of w today) done.3 (
              In-order_by contract_start c _
                (In-select (is_drafted today) c w.fleet.contracts stored drafted)))
            within early recent vat,
    )
