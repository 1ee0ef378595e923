-- ===== src/Billing/Generation/Loops.antt =====
-- apps/billing/services.py: the loops of a run, over contracts and their periods.
use shiftlush_api.Prelude.{ℕ, ◌+◌, ◌||◌, ltb, leb, ◌==◌, Option, none, some, List, [], ◌∷◌, any}
use shiftlush_api.Action.{pure, ◌>>=◌}
use shiftlush_api.Action.Keeps.{
  Keeps, Keeps-bind, Keeps-if, Keeps-pure, Keeps-gets, Keeps-atomic, keeps_rules,
}
use shiftlush_api.Fleet.{Contract}
use shiftlush_api.Ledger.Models.{Books}
use shiftlush_api.Periods.{Period}
use shiftlush_api.Billing.Fees.{Sources}
use shiftlush_api.Billing.Generation.{
  lookback, draft_for, DraftRun, draft_or_tell, visit, draft_periods, periods_of, draft_contract,
  draft_contracts, contracts_of, empty_run, generate,
}

module _ (P : Books → Type 0) (w : Sources) (today : ℕ)
    (kept : (c : Contract) (vat_rate : ℕ) (p : Period) → Keeps P (draft_for w c vat_rate p)) where
  draft_or_tell-Keeps :
      (vat : Option ℕ) (c : Contract) (p : Period) (run : DraftRun)
      → Keeps P (draft_or_tell vat w c p run)
  unfolding draft_or_tell
  draft_or_tell-Keeps none c p run = search keeps_rules
  draft_or_tell-Keeps (some vat_rate) c p run = search (keeps_rules, kept)

  pub visit-Keeps :
      (c : Contract) (existing : List ℕ) (p : Period) (run : DraftRun)
      → Keeps P (visit w today c existing p run)
  unfolding visit
  visit-Keeps c existing p run =
      Keeps-if (ltb (p.end + lookback) today || any (λ known. known == p.start) existing) (pure run)
        (draft_or_tell c.vat_rate w c p run) (Keeps-pure run)
        (draft_or_tell-Keeps c.vat_rate c p run)

  pub draft_periods-Keeps :
      (c : Contract) (existing : List ℕ) (ps : List Period) (run : DraftRun)
      → Keeps P (draft_periods w today c existing ps run)
  unfolding draft_periods
  draft_periods-Keeps c existing [] run = search keeps_rules
  draft_periods-Keeps c existing (p ∷ ps) run =
      Keeps-if (leb today p.end) (pure run)
        (visit w today c existing p run >>= λ next. draft_periods w today c existing ps next)
        (Keeps-pure run)
        (Keeps-bind _ _ (visit-Keeps c existing p run)
          λ next. draft_periods-Keeps c existing ps next)

  pub draft_contract-Keeps :
      (c : Contract) (run : DraftRun) → Keeps P (draft_contract w today c run)
  unfolding draft_contract
  draft_contract-Keeps c run =
      Keeps-bind _ _ (Keeps-gets _) λ existing. draft_periods-Keeps c existing (periods_of c) run

  pub draft_contracts-Keeps :
      (cs : List Contract) (run : DraftRun) → Keeps P (draft_contracts w today cs run)
  unfolding draft_contracts
  draft_contracts-Keeps [] run = search keeps_rules
  draft_contracts-Keeps (c ∷ cs) run =
      Keeps-bind _ _ (draft_contract-Keeps c run) λ next. draft_contracts-Keeps cs next

  pub generate-Keeps : Keeps P (generate w today)
  unfolding generate
  generate-Keeps = Keeps-atomic _ (
      Keeps-bind _ _ (draft_contracts-Keeps (contracts_of w today) empty_run)
        λ run. Keeps-bind _ _ (Keeps-gets _) λ ready. Keeps-pure _)
