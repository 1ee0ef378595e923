-- ===== src/Ledger/Reversal.antt =====
-- apps/ledger/posting.py: `reverse_document`, which cancels a document by mirroring its movements.
pub mod Effects
use shiftlush_api.Prelude.{
  ℕ, ◌+◌, Bool, true, false, not, ◌&&◌, ◌||◌, Option, none, some, List, [], ◌∷◌, ◌++◌, Text,
  is_some, is_none, holds, ltb, leb, ◌==◌, find, any, select, if◌then◌else◌,
}
use shiftlush_api.Errors.{
  Error, invalid, does_not_exist, field_error, conflict, integrity_error, period_closed,
  currency_mismatch, already_reversed,
}
use shiftlush_api.Action.{
  Result, ok, err, Action, ⊤, pure, raise, gets, or_raise, raise_if, atomic, modify, ◌>>=◌, ◌>>◌,
}
use shiftlush_api.Ledger.Decimal.{Decimal, is_money, cents}
use shiftlush_api.Ledger.Models.{
  MovementSource, Direction, debit, credit, CashDirection, cash_in, cash_out, Company, Account,
  CashAccount, DocumentType, Movement, Document, DocumentBody, Books,
}
use shiftlush_api.Ledger.Posting.{
  mirror_direction, mirror_cash_direction, fresh_company, closed_on, check_date, opens_account,
  opens_cash, later_opening, later_cash_opening, opens_later, opens_cash_later, check_after_opening,
  is_postable, is_opening, misdirected, two_firms, other_currency, first_company, account_id,
  cash_account_id, chosen_or_blank, source_of, type_of, key_of, movement_of, source_tag, type_tag,
  same_type, is_of, same_document, posts_once, clashes, create_movement, post, Choice, blank, other,
  chosen, Posting,
}

-- Some movement cancels the one with key `k`: `reversed_by` of the one-to-one `reverses`.
unfoldable pub is_reversed : List Movement → ℕ → Bool
is_reversed ms k = any (λ (m : Movement). holds m.reverses k) ms

-- The movements of a document that none cancels and that cancel none.
unfoldable pub is_original : List Movement → DocumentType → ℕ → Movement → Bool
unfolding is_of is_reversed
is_original ms t k m = is_of t k m && not (is_reversed ms m.id) && is_none m.reverses

-- `order_by("date", "created_at", "id")`: by date, rows of one day in their order of creation.
unfoldable pub insert_by_date : Movement → List Movement → List Movement
insert_by_date m [] = m ∷ []
insert_by_date m (n ∷ ms) = if ltb n.date m.date then n ∷ insert_by_date m ms else m ∷ n ∷ ms

unfoldable pub order_by_date : List Movement → List Movement
unfolding insert_by_date
order_by_date [] = []
order_by_date (m ∷ ms) = insert_by_date m (order_by_date ms)

-- The row that cancels `original`, under the key `id`.
unfoldable pub mirror_of : ℕ → MovementSource → Movement → ℕ → Movement
unfolding mirror_direction mirror_cash_direction
mirror_of date source original id = record {
  id = id;
  company = original.company;
  account = original.account;
  cash_account = original.cash_account;
  date = date;
  direction = mirror_direction original.direction;
  cash_direction = mirror_cash_direction original.cash_direction;
  amount = original.amount;
  currency = original.currency;
  source = source;
  document_type = original.document_type;
  document_id = original.document_id;
  reverses = some original.id;
  description = original.description;
}

unfoldable pub create_mirrors : ℕ → MovementSource → List Movement → Action Books (List Movement)
unfolding mirror_of create_movement
create_mirrors date source [] = pure []
create_mirrors date source (m ∷ ms) = do
  mirror ← create_movement (mirror_of date source m)
  mirrors ← create_mirrors date source ms
  pure (mirror ∷ mirrors)

abbrev pub is_cancelling : MovementSource → Bool
is_cancelling MovementSource.reversal = true
is_cancelling MovementSource.invoice_cancel = true
is_cancelling _ = false

abbrev pub reraised : {A : Type 0} → Error → Result A → Result A
reraised e (ok a) = ok a
reraised e (err integrity_error) = err e
reraised e (err f) = err f

-- `except IntegrityError: raise e`
unfoldable pub on_integrity_error : {A : Type 0} → Error → Action Books A → Action Books A
on_integrity_error e m s = (reraised e (m s).0, (m s).1)

-- `if not originals: raise ...; ...originals[0].company_id`
unfoldable pub first_of_all : List Movement → Action Books ℕ
first_of_all [] = raise (conflict already_reversed)
first_of_all (m ∷ _) = pure m.company

unfoldable pub reverse_document :
    DocumentType → ℕ → ℕ → MovementSource → Action Books (List Movement)
reverse_document t k date source = do
  raise_if (not (is_cancelling source)) (invalid "source")
  on_integrity_error (conflict already_reversed) (
      atomic (do
        originals ← gets (λ s. order_by_date (select (is_original s.movements t k) s.movements))
        company_id ← first_of_all originals
        company ← fresh_company company_id
        check_date company date
        create_mirrors date source originals))
