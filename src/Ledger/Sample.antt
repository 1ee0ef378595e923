-- ===== src/Ledger/Sample.antt =====
-- A concrete firm with one customer, one till and one issued invoice, for tests and examples.
use shiftlush_api.Prelude.{true, false, none, some, [], ◌∷◌, text}
use shiftlush_api.Ledger.Decimal.{Decimal, finite}
use shiftlush_api.Ledger.Models.{
  AccountKind, CashKind, InvoiceStatus, Company, Account, Customer, CashAccount, InvoiceDraft,
  Books,
}

abbrev pub firm : Company
firm = record { id = 1; ledger_closed_through = some 739000 }

abbrev pub buyer : Customer
buyer = record { id = 2; company = 1; legal_name = text "Site A" }

abbrev pub receivable : Account
receivable = record {
  id = 3;
  company = 1;
  kind = AccountKind.customer;
  customer = some 2;
  supplier = none;
  user = none;
  name = text "Site A";
  currency = 0;
  is_active = true;
  is_deleted = false;
}

abbrev pub till : CashAccount
till = record {
  id = 4;
  company = 1;
  kind = CashKind.cash;
  name = text "Merkez Kasa";
  role = none;
  currency = 0;
  is_active = true;
  is_deleted = false;
}

abbrev pub bill : InvoiceDraft
bill = record {
  id = 5;
  company = 1;
  contract = 6;
  customer = 2;
  period_start = 739500;
  period_end = 739530;
  status = InvoiceStatus.issued;
  currency = 0;
  vat_rate = 2000;
  subtotal = 10000;
  vat_amount = 2000;
  total = 12000;
  invoice_number = text "A-1";
  invoice_date = some 739600;
  paid_on = none;
  cancelled_at = none;
  cancel_reason = [];
  notes = [];
}

abbrev pub opened : Books
opened = record {
  today = 739700;
  now = 1000;
  next_id = 10;
  companies = firm ∷ [];
  customers = buyer ∷ [];
  suppliers = [];
  users = [];
  accounts = receivable ∷ [];
  cash_accounts = till ∷ [];
  movements = [];
  documents = [];
  applications = [];
  counters = [];
  drafts = bill ∷ [];
  lines = [];
}

-- 120.00
abbrev pub full : Decimal
full = finite false 12000 2
