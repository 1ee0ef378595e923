-- ===== src/Ledger/Decimal/Checked.antt =====
-- What a check of an amount keeps, and what it finds.
use shiftlush_api.Prelude.{◌≡◌, refl, true, false, Bool}
use shiftlush_api.Errors.{Error}
use shiftlush_api.Action.{Result, ok, err, pure, raise}
use shiftlush_api.Action.Outcome.{Reads}
use shiftlush_api.Action.Keeps.{Keeps, keeps_rules}
use shiftlush_api.Ledger.Decimal.{Decimal, is_money, check_money, refuse_unless}

module _ {S : Type 0} where
  refuse_unless-Keeps : {P : S → Type 0} (e : Error) (r : Result Bool) → Keeps P (refuse_unless e r)
  refuse_unless-Keeps e (ok true) = search keeps_rules
  refuse_unless-Keeps e (ok false) = search keeps_rules
  refuse_unless-Keeps e (err x) = search keeps_rules

  pub check_money-Keeps : {P : S → Type 0} (e : Error) (d : Decimal) → Keeps P (check_money e d)
  unfolding check_money
  check_money-Keeps e d = refuse_unless-Keeps e (is_money d)

  refuse_unless-Reads :
      (e : Error) (r : Result Bool) (s : S) → Reads (λ _. r ≡ ok true) (refuse_unless e r) s
  unfolding pure raise
  refuse_unless-Reads e (ok true) s = record { same_state = refl; value = λ _ _. refl }
  refuse_unless-Reads e (ok false) s = record { same_state = refl; value = λ a h. cc }
  refuse_unless-Reads e (err x) s = record { same_state = refl; value = λ a h. cc }

  pub check_money-Reads :
      (e : Error) (d : Decimal) (s : S) → Reads (λ _. is_money d ≡ ok true) (check_money e d) s
  unfolding check_money
  check_money-Reads e d s = refuse_unless-Reads e (is_money d) s
