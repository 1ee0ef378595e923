-- ===== src/Ledger/Parties.antt =====
-- apps/ledger/services.py: accounts, the default till, and the closed period.
use shiftlush_api.Prelude.{
  ℕ, ◌+◌, Bool, true, false, not, ◌&&◌, Option, none, some, List, [], ◌∷◌, ◌++◌, Text, text,
  is_some, is_empty, holds, ltb, find, any, update, truncate, ◌==◌, if◌then◌else◌,
}
use shiftlush_api.Errors.{invalid, required, unique}
use shiftlush_api.Action.{
  Action, pure, raise, gets, or_raise, raise_if, atomic, modify, ◌>>=◌, ◌>>◌,
}
use shiftlush_api.Ledger.Models.{
  AccountKind, CashKind, CashAccountRole, Customer, Supplier, User, Company, Account, CashAccount,
  Books,
}
use shiftlush_api.Ledger.Posting.{Choice, chosen, fresh_company}
use shiftlush_api.Ledger.Services.{same_firm}

abbrev pub default_currency : ℕ
default_currency = 0

-- `Account.unscoped.filter(customer=..., currency=..., is_deleted=False)`
unfoldable pub is_account_of : ℕ → ℕ → Account → Bool
is_account_of customer currency a =
    holds a.customer customer && a.currency == currency && not a.is_deleted

-- A new account under a new key.
unfoldable pub create_account : (ℕ → Account) → Action Books Account
create_account row = do
  id ← gets (λ s. s.next_id)
  modify (λ s. record s { accounts = s.accounts ++ (row id ∷ []); next_id = id + 1 })
  pure (row id)

abbrev pub customer_account : Customer → ℕ → ℕ → Account
customer_account customer currency id = record {
  id = id;
  company = customer.company;
  kind = AccountKind.customer;
  customer = some customer.id;
  supplier = none;
  user = none;
  name = customer.legal_name;
  currency = currency;
  is_active = true;
  is_deleted = false;
}

abbrev pub found_or_created : Option Account → (ℕ → Account) → Action Books Account
found_or_created (some a) row = pure a
found_or_created none row = create_account row

unfoldable pub account_for_customer : Customer → ℕ → Action Books Account
account_for_customer customer currency = do
  account ← gets (λ s. find (is_account_of customer.id currency) s.accounts)
  found_or_created account (customer_account customer currency)

abbrev is_default : Option CashAccountRole → Bool
is_default (some CashAccountRole.default) = true
is_default _ = false

unfoldable pub is_default_till : ℕ → CashAccount → Bool
is_default_till company c = c.company == company && is_default c.role && not c.is_deleted

abbrev pub merkez_kasa : ℕ → ℕ → CashAccount
merkez_kasa company id = record {
  id = id;
  company = company;
  kind = CashKind.cash;
  name = text "Merkez kasa";
  role = some CashAccountRole.default;
  currency = default_currency;
  is_active = true;
  is_deleted = false;
}

unfoldable pub create_cash_account : (ℕ → CashAccount) → Action Books CashAccount
create_cash_account row = do
  id ← gets (λ s. s.next_id)
  modify (λ s. record s { cash_accounts = s.cash_accounts ++ (row id ∷ []); next_id = id + 1 })
  pure (row id)

abbrev pub found_or_made : Option CashAccount → (ℕ → CashAccount) → Action Books CashAccount
found_or_made (some c) row = pure c
found_or_made none row = create_cash_account row

unfoldable pub create_default_cash_account : Company → Action Books CashAccount
create_default_cash_account company = do
  till ← gets (λ s. find (is_default_till company.id) s.cash_accounts)
  found_or_made till (merkez_kasa company.id)

unfoldable pub default_cash_account : ℕ → Action Books CashAccount
default_cash_account company_id = do
  company ← fresh_company company_id
  till ← create_default_cash_account company
  raise_if (not till.is_active) (invalid "cash_account")
  pure till

-- `_has_account` for each kind of party.
unfoldable pub has_customer_account : ℕ → ℕ → List Account → Bool
has_customer_account party currency =
    any (λ (a : Account). not a.is_deleted && a.currency == currency && holds a.customer party)

unfoldable pub has_supplier_account : ℕ → ℕ → List Account → Bool
has_supplier_account party currency =
    any (λ (a : Account). not a.is_deleted && a.currency == currency && holds a.supplier party)

unfoldable pub has_user_account : ℕ → ℕ → List Account → Bool
has_user_account party currency =
    any (λ (a : Account). not a.is_deleted && a.currency == currency && holds a.user party)

abbrev pub party_name : User → Text
party_name user = if is_empty user.full_name then user.email else user.full_name

abbrev account_of : ℕ → AccountKind → Option ℕ → Option ℕ → Option ℕ → Text → ℕ → ℕ → Account
account_of company kind customer supplier user name currency id = record {
  id = id;
  company = company;
  kind = kind;
  customer = customer;
  supplier = supplier;
  user = user;
  name = truncate 200 name;
  currency = currency;
  is_active = true;
  is_deleted = false;
}

-- `open_account`, by the kind: exactly the party that it names, of this firm, with no account yet.
unfoldable pub open_account :
    ℕ
    → Choice AccountKind
    → Option Customer
    → Option Supplier
    → Option User
    → ℕ
    → Action Books Account
open_account company (chosen AccountKind.customer) customer supplier user currency = do
  raise_if (is_some supplier) (invalid "supplier")
  raise_if (is_some user) (invalid "user")
  party ← or_raise customer (required "customer")
  same_firm company "customer" party.company
  taken ← gets (λ s. has_customer_account party.id currency s.accounts)
  raise_if taken (unique "customer")
  create_account
      (account_of company AccountKind.customer (some party.id) none none party.legal_name currency)
open_account company (chosen AccountKind.supplier) customer supplier user currency = do
  raise_if (is_some customer) (invalid "customer")
  raise_if (is_some user) (invalid "user")
  party ← or_raise supplier (required "supplier")
  same_firm company "supplier" party.company
  taken ← gets (λ s. has_supplier_account party.id currency s.accounts)
  raise_if taken (unique "supplier")
  create_account
      (account_of company AccountKind.supplier none (some party.id) none party.name currency)
open_account company (chosen AccountKind.staff) customer supplier user currency = do
  raise_if (is_some customer) (invalid "customer")
  raise_if (is_some supplier) (invalid "supplier")
  party ← or_raise user (required "user")
  same_firm company "user" party.company
  taken ← gets (λ s. has_user_account party.id currency s.accounts)
  raise_if taken (unique "user")
  create_account
      (account_of company AccountKind.staff none none (some party.id) (party_name party) currency)
open_account company _ customer supplier user currency = raise (invalid "kind")

-- `day is not None and day > local_today()`
abbrev after_today : Option ℕ → ℕ → Bool
after_today none today = false
after_today (some day) today = ltb today day

abbrev pub is_company : ℕ → Company → Bool
is_company k c = c.id == k

unfoldable pub set_closed_through : ℕ → Option ℕ → Action Books Company
set_closed_through company_id day = do
  today ← gets (λ s. s.today)
  raise_if (after_today day today) (invalid "closed_through")
  atomic (do
    company ← fresh_company company_id
    modify (λ s. record s {
      companies =
          update (is_company company_id) (λ c. record c { ledger_closed_through = day })
            s.companies;
    })
    pure (record company { ledger_closed_through = day }))
