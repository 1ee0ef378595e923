-- ===== src/Ledger/Openings.antt =====
-- apps/ledger/services.py: the opening balances of accounts and tills.
use shiftlush_api.Prelude.{
  ℕ, Bool, not, ◌&&◌, Option, none, some, List, String, text, is_none, holds, ltb, any,
}
use shiftlush_api.Errors.{invalid, unique}
use shiftlush_api.Action.{Action, pure, raise, gets, raise_if, atomic, ◌>>=◌, ◌>>◌}
use shiftlush_api.Ledger.Decimal.{Decimal, cents}
use shiftlush_api.Ledger.Models.{
  MovementSource, Direction, debit, credit, CashDirection, cash_in, cash_out, Account, CashAccount,
  Movement, DocumentBody, Document, Books,
}
use shiftlush_api.Ledger.Posting.{Choice, blank, chosen, Posting, post, opens_account, opens_cash}
use shiftlush_api.Ledger.Reversal.{is_reversed}
use shiftlush_api.Ledger.Services.{check_amount, create_document, reference}
use shiftlush_api.Ledger.Documents.{check_direction}

-- The side that an opening balance is recorded on: exactly one of the two.
pub data Side : Type 0 where
  on_account : Account → Side
  on_cash : CashAccount → Side

-- `(account is None) == (cash_account is None)` is refused
unfoldable pub one_side : Option Account → Option CashAccount → Action Books Side
one_side (some a) none = pure (on_account a)
one_side none (some c) = pure (on_cash c)
one_side _ _ = raise (invalid "account")

abbrev pub side_field : Side → String
side_field (on_account _) = "account"
side_field (on_cash _) = "cash_account"

abbrev pub side_company : Side → ℕ
side_company (on_account a) = a.company
side_company (on_cash c) = c.company

abbrev pub side_currency : Side → ℕ
side_currency (on_account a) = a.currency
side_currency (on_cash c) = c.currency

-- An opening balance on the side that is not cancelled, and a movement on it.
abbrev pub opens_side : Side → DocumentBody → Bool
opens_side (on_account a) body = opens_account body a.id
opens_side (on_cash c) body = opens_cash body c.id

abbrev pub touches_side : Side → Movement → Bool
touches_side (on_account a) m = holds m.account a.id
touches_side (on_cash c) m = holds m.cash_account c.id

unfoldable pub is_live_opening : Side → Document → Bool
is_live_opening side d = not d.is_deleted && is_none d.cancelled_at && opens_side side d.body

-- A movement on the side, neither cancelled nor a cancellation, dated before `day`: the earliest
-- date among such movements is before `day` exactly when there is one.
unfoldable pub is_earlier : Side → ℕ → List Movement → Movement → Bool
is_earlier side day ms m =
    touches_side side m && not (is_reversed ms m.id) && is_none m.reverses && ltb m.date day

abbrev pub opening_body : Side → Direction → DocumentBody
opening_body (on_account a) d = DocumentBody.opening_balance (some a.id) none d
opening_body (on_cash c) d = DocumentBody.opening_balance none (some c.id) d

-- On a cash account a debit is money in the till and a credit money out.
abbrev pub till_direction : Direction → CashDirection
till_direction debit = cash_in
till_direction credit = cash_out

abbrev pub opening_posting : Side → Direction → Decimal → ℕ → Document → Posting
opening_posting (on_account a) d amount date opening = record {
  account = some a;
  cash_account = none;
  direction = chosen d;
  cash_direction = blank;
  amount = amount;
  currency = a.currency;
  date = date;
  source = chosen MovementSource.opening;
  document = reference opening;
  description = text "Devir";
}
opening_posting (on_cash c) d amount date opening = record {
  account = none;
  cash_account = some c;
  direction = blank;
  cash_direction = chosen (till_direction d);
  amount = amount;
  currency = c.currency;
  date = date;
  source = chosen MovementSource.opening;
  document = reference opening;
  description = text "Devir";
}

unfoldable pub record_opening :
    Choice Direction → Decimal → ℕ → Option Account → Option CashAccount → Action Books Document
record_opening direction amount date account cash_account = do
  side ← one_side account cash_account
  d ← check_direction direction
  check_amount amount
  atomic (do
    standing ← gets (λ s. any (is_live_opening side) s.documents)
    raise_if standing (unique (side_field side))
    earlier ← gets (λ s. any (is_earlier side date s.movements) s.movements)
    raise_if earlier (invalid "date")
    opening ← create_document (side_company side) (cents amount) date (opening_body side d)
    post (opening_posting side d amount date opening)
    pure opening)
