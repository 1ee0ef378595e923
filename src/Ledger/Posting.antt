-- ===== src/Ledger/Posting.antt =====
-- apps/ledger/posting.py: the only code that writes movements. The row locks (`lock_sides`) have
-- no effect on one caller's result and are left out; `created_by` and `updated_by` are not kept.
pub mod Posts
use shiftlush_api.Prelude.{
  ℕ, ◌+◌, ◌^◌, length, Bool, true, false, not, ◌&&◌, ◌||◌, Option, none, some, List, [], ◌∷◌, ◌++◌,
  Text, is_some, is_none, holds, ltb, leb, ◌==◌, find, any, select, if◌then◌else◌,
}
use shiftlush_api.Errors.{
  Error, invalid, does_not_exist, field_error, conflict, integrity_error, data_error, period_closed,
  currency_mismatch, already_reversed,
}
use shiftlush_api.Action.{
  Result, ok, err, Action, ⊤, pure, raise, gets, or_raise, raise_if, atomic, modify, ◌>>=◌, ◌>>◌,
}
use shiftlush_api.Ledger.Decimal.{Decimal, check_money, cents}
use shiftlush_api.Ledger.Models.{
  MovementSource, Direction, debit, credit, CashDirection, cash_in, cash_out, Company, Account,
  CashAccount, DocumentType, Movement, Document, DocumentBody, Books,
}

-- A text that should be one of a column's choices: blank (or None), one of them, or another.
pub data Choice (A : Type 0) : Type 0 where
  blank other : Choice A
  chosen : A → Choice A

-- The arguments of `post`.
pub record Posting : Type 0 where
  pub account : Option Account
  pub cash_account : Option CashAccount
  pub direction : Choice Direction
  pub cash_direction : Choice CashDirection
  pub amount : Decimal
  pub currency : ℕ
  pub date : ℕ
  pub source : Choice MovementSource
  pub document : Option (DocumentType × ℕ)
  pub description : Text

unfoldable pub mirror_direction : Option Direction → Option Direction
mirror_direction none = none
mirror_direction (some debit) = some credit
mirror_direction (some credit) = some debit

unfoldable pub mirror_cash_direction : Option CashDirection → Option CashDirection
mirror_cash_direction none = none
mirror_cash_direction (some cash_in) = some cash_out
mirror_cash_direction (some cash_out) = some cash_in

unfoldable pub fresh_company : ℕ → Action Books Company
fresh_company company_id = do
  found ← gets (λ s. find (λ (c : Company). c.id == company_id) s.companies)
  or_raise found (does_not_exist "company")

abbrev pub closed_on : Option ℕ → ℕ → Bool
closed_on none day = false
closed_on (some closed_through) day = leb day closed_through

unfoldable pub check_date : Company → ℕ → Action Books ⊤
check_date company day = do
  today ← gets (λ s. s.today)
  raise_if (ltb today day) (invalid "date")
  raise_if (closed_on company.ledger_closed_through day) (field_error "date" period_closed)

-- The side that an opening balance stands on.
abbrev pub opens_account : DocumentBody → ℕ → Bool
opens_account (DocumentBody.opening_balance account _ _) k = holds account k
opens_account _ k = false

abbrev pub opens_cash : DocumentBody → ℕ → Bool
opens_cash (DocumentBody.opening_balance _ cash _) k = holds cash k
opens_cash _ k = false

-- A live opening balance dated after `day`, on an account and on a cash account.
unfoldable pub later_opening : ℕ → ℕ → Document → Bool
later_opening account day d =
    not d.is_deleted && is_none d.cancelled_at && ltb day d.date && opens_account d.body account

unfoldable pub later_cash_opening : ℕ → ℕ → Document → Bool
later_cash_opening cash day d =
    not d.is_deleted && is_none d.cancelled_at && ltb day d.date && opens_cash d.body cash

abbrev pub opens_later : Option Account → ℕ → Books → Bool
opens_later none day s = false
opens_later (some a) day s = any (later_opening a.id day) s.documents

abbrev pub opens_cash_later : Option CashAccount → ℕ → Books → Bool
opens_cash_later none day s = false
opens_cash_later (some c) day s = any (later_cash_opening c.id day) s.documents

unfoldable pub check_after_opening : Option Account → Option CashAccount → ℕ → Action Books ⊤
check_after_opening account cash_account day = do
  before_account ← gets (opens_later account day)
  raise_if before_account (invalid "date")
  before_cash ← gets (opens_cash_later cash_account day)
  raise_if before_cash (invalid "date")

-- `source not in MovementSource.values or source == MovementSource.REVERSAL`, denied
abbrev pub is_postable : Choice MovementSource → Bool
is_postable blank = false
is_postable other = false
is_postable (chosen MovementSource.reversal) = false
is_postable (chosen _) = true

abbrev pub is_opening : Choice MovementSource → Bool
is_opening (chosen MovementSource.opening) = true
is_opening _ = false

-- `(side is None) != (not direction) or (direction and direction not in values)`
abbrev pub misdirected : {A : Type 0} → Bool → Choice A → Bool
misdirected present blank = present
misdirected present other = true
misdirected present (chosen _) = not present

abbrev pub two_firms : Option Account → Option CashAccount → Bool
two_firms (some a) (some c) = not (a.company == c.company)
two_firms _ _ = false

abbrev pub other_currency : Option Account → Option CashAccount → ℕ → Bool
other_currency none none currency = false
other_currency (some a) none currency = not (a.currency == currency)
other_currency none (some c) currency = not (c.currency == currency)
other_currency (some a) (some c) currency =
    not (a.currency == currency) || not (c.currency == currency)

abbrev pub first_company : Option Account → Option CashAccount → ℕ
first_company (some a) _ = a.company
first_company none (some c) = c.company
first_company none none = 0

abbrev pub account_id : Option Account → Option ℕ
account_id none = none
account_id (some a) = some a.id

abbrev pub cash_account_id : Option CashAccount → Option ℕ
cash_account_id none = none
cash_account_id (some c) = some c.id

-- `direction or ""`, once it is known to be a choice or blank
abbrev pub chosen_or_blank : {A : Type 0} → Choice A → Option A
chosen_or_blank (chosen a) = some a
chosen_or_blank _ = none

abbrev pub source_of : Choice MovementSource → MovementSource
source_of (chosen m) = m
source_of _ = MovementSource.reversal

abbrev pub type_of : Option (DocumentType × ℕ) → Option DocumentType
type_of none = none
type_of (some (t, _)) = some t

abbrev pub key_of : Option (DocumentType × ℕ) → Option ℕ
key_of none = none
key_of (some (_, k)) = some k

-- The row that `post` writes, under the key `id`.
unfoldable pub movement_of : Posting → ℕ → Movement
movement_of p id = record {
  id = id;
  company = first_company p.account p.cash_account;
  account = account_id p.account;
  cash_account = cash_account_id p.cash_account;
  date = p.date;
  direction = chosen_or_blank p.direction;
  cash_direction = chosen_or_blank p.cash_direction;
  amount = cents p.amount;
  currency = p.currency;
  source = source_of p.source;
  document_type = type_of p.document;
  document_id = key_of p.document;
  reverses = none;
  description = p.description;
}

-- The stored spellings of the choices, as numbers.
abbrev pub source_tag : MovementSource → ℕ
source_tag MovementSource.invoice = 0
source_tag MovementSource.invoice_cancel = 1
source_tag MovementSource.collection = 2
source_tag MovementSource.payment_out = 3
source_tag MovementSource.manual = 4
source_tag MovementSource.transfer = 5
source_tag MovementSource.opening = 6
source_tag MovementSource.reversal = 7

abbrev pub type_tag : DocumentType → ℕ
type_tag DocumentType.invoice_draft = 0
type_tag DocumentType.collection = 1
type_tag DocumentType.payment_out = 2
type_tag DocumentType.manual_entry = 3
type_tag DocumentType.transfer = 4
type_tag DocumentType.opening_balance = 5

abbrev pub same_type : Option DocumentType → DocumentType → Bool
same_type none t = false
same_type (some u) t = type_tag u == type_tag t

-- The queries' `document_type=..., document_id=...`.
unfoldable pub is_of : DocumentType → ℕ → Movement → Bool
is_of t k m = same_type m.document_type t && holds m.document_id k

abbrev pub same_document : Option DocumentType → Option ℕ → Movement → Bool
same_document (some t) (some k) m = is_of t k m
same_document _ _ m = false

abbrev pub posts_once : MovementSource → Bool
posts_once MovementSource.invoice = true
posts_once MovementSource.invoice_cancel = true
posts_once _ = false

-- The unique constraint on (source, document), for invoices and their cancellations: one invoice
-- posts once, and is cancelled once.
unfoldable pub clashes : Movement → Movement → Bool
unfolding is_of
clashes new m =
    posts_once new.source
    && source_tag m.source == source_tag new.source
    && same_document new.document_type new.document_id m

-- A row that the columns cannot hold: 14 digits for the amount, 500 characters for the description.
abbrev pub is_unstorable : Movement → Bool
is_unstorable m = leb (10 ^ 14) m.amount || ltb 500 (length m.description)

-- `Movement.objects.create(...)`: the row under a new key, or the database's refusal.
unfoldable pub create_movement : (ℕ → Movement) → Action Books Movement
create_movement row = do
  id ← gets (λ s. s.next_id)
  raise_if (is_unstorable (row id)) data_error
  taken ← gets (λ s. any (clashes (row id)) s.movements)
  raise_if taken integrity_error
  modify (λ s. record s { movements = s.movements ++ (row id ∷ []); next_id = id + 1 })
  pure (row id)

unfoldable pub post : Posting → Action Books Movement
post p = do
  raise_if (not (is_postable p.source)) (invalid "source")
  raise_if (is_none p.account && is_none p.cash_account) (invalid "account")
  raise_if (misdirected (is_some p.account) p.direction) (invalid "direction")
  raise_if (misdirected (is_some p.cash_account) p.cash_direction) (invalid "cash_direction")
  check_money (invalid "amount") p.amount
  raise_if (two_firms p.account p.cash_account) (invalid "cash_account")
  raise_if (other_currency p.account p.cash_account p.currency)
      (field_error "currency" currency_mismatch)
  company ← fresh_company (first_company p.account p.cash_account)
  check_date company p.date
  atomic (do
    if is_opening p.source then pure tt else check_after_opening p.account p.cash_account p.date
    create_movement (movement_of p))
