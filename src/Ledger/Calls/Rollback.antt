-- ===== src/Ledger/Calls/Rollback.antt =====
-- The books after a service call that raises.
use shiftlush_api.Prelude.{ℕ, ◌≡◌, ◌∙◌, refl, List, Option, none, some, Text, Bool, String}
use mathlib.Core.Path.{subst}
use shiftlush_api.Errors.{Error}
use shiftlush_api.Action.{
  Result, ok, err, Action, restore, modify, raise, gets, or_raise, raise_if, atomic,
}
use shiftlush_api.Action.Outcome.{Ends, Leaves, Ends-bind, Ends-gets}
use shiftlush_api.Action.Keeps.{Keeps, Keeps-modify, Ends-Keeps, keeps_rules}
use shiftlush_api.Action.AllOrNothing.{
  AllOrNothing, ReadsOnly, whole_atomic, whole_pure, whole_raise, whole_after_read,
  whole_before_pure,
}
use shiftlush_api.Ledger.Decimal.Checked.{check_money-Keeps}
use shiftlush_api.Ledger.Decimal.{Decimal}
use shiftlush_api.Ledger.Models.{
  TransferKind, PaymentMethod, Direction, Account, CashAccount, Books, InvoiceDraft, Customer,
}
use shiftlush_api.Ledger.Posting.{Choice, chosen, fresh_company}
use shiftlush_api.Ledger.Services.{cancel, same_firm, check_amount, check_method}
use shiftlush_api.Ledger.Documents.{record_payment_out, record_manual_entry, check_direction}
use shiftlush_api.Ledger.Transfers.{
  transfer_between_accounts, transfer_between_cash, record_transfer,
}
use shiftlush_api.Ledger.Openings.{one_side, record_opening}
use shiftlush_api.Ledger.Invoices.{get_customer, post_invoice, reverse_invoice}
use shiftlush_api.Ledger.Parties.{
  create_account, found_or_created, account_for_customer, create_cash_account, found_or_made,
  create_default_cash_account, default_cash_account,
}
use shiftlush_api.Ledger.Collections.{
  record_collection, cancel_collection, apply_collection, till_for, collect_invoice,
}
use shiftlush_api.Ledger.Calls.{Call, run}

check_amount_reads : (d : Decimal) → ReadsOnly (check_amount d)
unfolding check_amount
check_amount_reads d = record { keeps = λ s. search (keeps_rules, check_money-Keeps) }

raise_if_reads : (b : Bool) (e : Error) → ReadsOnly {S = Books} (raise_if b e)
raise_if_reads b e = record { keeps = λ s. search keeps_rules }

raise_reads : {A : Type 0} (e : Error) → ReadsOnly {S = Books} {A = A} (raise e)
raise_reads e = record { keeps = λ s. search keeps_rules }

same_firm_reads : (k : ℕ) (field : String) (c : ℕ) → ReadsOnly (same_firm k field c)
unfolding same_firm
same_firm_reads k field c = record { keeps = λ s. search keeps_rules }

check_method_reads : (m : Choice PaymentMethod) → ReadsOnly (check_method m)
unfolding check_method
check_method_reads (chosen m) = record { keeps = λ s. search keeps_rules }
check_method_reads _ = record { keeps = λ s. search keeps_rules }

check_direction_reads : (d : Choice Direction) → ReadsOnly (check_direction d)
unfolding check_direction
check_direction_reads (chosen m) = record { keeps = λ s. search keeps_rules }
check_direction_reads _ = record { keeps = λ s. search keeps_rules }

one_side_reads : (a : Option Account) (c : Option CashAccount) → ReadsOnly (one_side a c)
unfolding one_side
one_side_reads (some a) none = record { keeps = λ s. search keeps_rules }
one_side_reads none (some c) = record { keeps = λ s. search keeps_rules }
one_side_reads _ _ = record { keeps = λ s. search keeps_rules }

gets_reads : {A : Type 0} (f : Books → A) → ReadsOnly (gets f)
gets_reads f = record { keeps = λ s. search keeps_rules }

or_raise_reads : {A : Type 0} (o : Option A) (e : Error) → ReadsOnly {S = Books} (or_raise o e)
or_raise_reads o e = record { keeps = λ s. search keeps_rules }

ruleset whole = (
  whole_atomic, whole_pure, whole_raise, whole_after_read, whole_before_pure, check_amount_reads,
  raise_if_reads, raise_reads, same_firm_reads, check_method_reads, check_direction_reads,
  one_side_reads, gets_reads, or_raise_reads,
)

transfer_whole :
    (kind : Choice TransferKind) (amount : Decimal) (date : ℕ) (note : Text) (a b : Option Account)
    (c d : Option CashAccount)
    → AllOrNothing (record_transfer kind amount date note a b c d)
unfolding record_transfer transfer_between_accounts transfer_between_cash
transfer_whole (chosen TransferKind.account) amount date note a b c d = search whole depth 12
transfer_whole (chosen TransferKind.cash) amount date note a b c d = search whole depth 12
transfer_whole _ amount date note a b c d = search whole

run_whole : (c : Call) → AllOrNothing (run c)
unfolding run record_collection apply_collection cancel_collection record_payment_out
    record_manual_entry record_opening cancel post_invoice reverse_invoice
run_whole (Call.collect account cash amount method date note applies) = search whole depth 12
run_whole (Call.apply_to k applies) = search whole depth 12
run_whole (Call.uncollect k) = search whole depth 12
run_whole (Call.pay_out account cash amount method date note) = search whole depth 12
run_whole (Call.enter account direction amount date reason) = search whole depth 12
run_whole (Call.move kind amount date note a b c d) = search (whole, transfer_whole)
run_whole (Call.open_with direction amount date account cash) = search whole depth 12
run_whole (Call.cancel_document k) = search whole depth 12
run_whole (Call.post_invoice_of k date) = search whole depth 12
run_whole (Call.reverse_invoice_of k) = search whole depth 12

collection_whole :
    (a : Account) (c : CashAccount) (amount : Decimal) (m : Choice PaymentMethod) (date : ℕ)
    (note : Text) (applies : List (InvoiceDraft × Decimal))
    → AllOrNothing (record_collection a c amount m date note applies)
unfolding record_collection
collection_whole a c amount m date note applies = search whole depth 12

-- The tables that say what is owed, paid and documented.
pub record IsSameMoney (s t : Books) : Type 0 where
  pub movements : t.movements ≡ s.movements
  pub documents : t.documents ≡ s.documents
  pub applications : t.applications ≡ s.applications
  pub drafts : t.drafts ≡ s.drafts

Keeps-unmoved :
    {s : Books} (g : Books → Books)
    → ((t : Books) → (g t).movements ≡ t.movements)
    → ((t : Books) → (g t).documents ≡ t.documents)
    → ((t : Books) → (g t).applications ≡ t.applications)
    → ((t : Books) → (g t).drafts ≡ t.drafts)
    → Keeps (IsSameMoney s) (modify g)
Keeps-unmoved g a b c d = Keeps-modify g λ t h. record {
  movements = a t ∙ h.movements;
  documents = b t ∙ h.documents;
  applications = c t ∙ h.applications;
  drafts = d t ∙ h.drafts;
}

module _ {before : Books} where
  found_or_made-Keeps :
      (found : Option CashAccount) (row : ℕ → CashAccount)
      → Keeps (IsSameMoney before) (found_or_made found row)
  unfolding create_cash_account
  found_or_made-Keeps (some c) row = search keeps_rules
  found_or_made-Keeps none row = search (keeps_rules, Keeps-unmoved) depth 9

  found_or_created-Keeps :
      (found : Option Account) (row : ℕ → Account)
      → Keeps (IsSameMoney before) (found_or_created found row)
  unfolding create_account
  found_or_created-Keeps (some a) row = search keeps_rules
  found_or_created-Keeps none row = search (keeps_rules, Keeps-unmoved) depth 9

  till_for-Keeps :
      (d : InvoiceDraft) (c : Option CashAccount) → Keeps (IsSameMoney before) (till_for d c)
  unfolding default_cash_account fresh_company create_default_cash_account
  till_for-Keeps d (some c) = search keeps_rules
  till_for-Keeps d none = search (keeps_rules, found_or_made-Keeps) depth 14

  customer-Keeps : (k : ℕ) → Keeps (IsSameMoney before) (get_customer k)
  unfolding get_customer
  customer-Keeps k = search keeps_rules

  account-Keeps :
      (c : Customer) (currency : ℕ) → Keeps (IsSameMoney before) (account_for_customer c currency)
  unfolding account_for_customer
  account-Keeps c currency = search (keeps_rules, found_or_created-Keeps)

restored :
    {A : Type 0} (X : Books → Type 0) (s : Books) (r : Result A × Books)
    → X s
    → Leaves X (λ _ _. Unit {0}) (restore s r)
restored X s (ok a, t) x = tt
restored X s (err e, t) x = x

whole-Ends :
    {A : Type 0} (X : Books → Type 0) (m : Action Books A) (s : Books)
    → AllOrNothing m
    → X s
    → Ends X (λ _ _. Unit {0}) m s
whole-Ends X m s w x = record {
  outcome = subst (λ r. Leaves X (λ _ _. Unit {0}) r) (w.same s) (restored X s (m s) x);
}

IsSameMoney-Ends :
    {A : Type 0} (s : Books) (m : Action Books A) (t : Books)
    → Keeps (IsSameMoney s) m
    → IsSameMoney s t
    → Ends (IsSameMoney s) (λ _ u. IsSameMoney s u) m t
IsSameMoney-Ends s m t k h = Ends-Keeps m t k h

collect_invoice-IsSameMoney :
    (d : InvoiceDraft) (date : ℕ) (c : Option CashAccount) (m : Choice PaymentMethod) (note : Text)
    (s : Books)
    → Ends (IsSameMoney s) (λ _ _. Unit {0}) (collect_invoice d date c m note) s
unfolding collect_invoice
collect_invoice-IsSameMoney d date c m note s =
    let start : IsSameMoney s s = record {
      movements = refl;
      documents = refl;
      applications = refl;
      drafts = refl;
    } in
    Ends-bind _ _ s (IsSameMoney-Ends s _ s (till_for-Keeps d c) start) λ till t at_till.
      Ends-gets _ _ _ (
        Ends-bind _ _ t (IsSameMoney-Ends s _ t (customer-Keeps d.customer) at_till)
          λ customer u found.
            Ends-bind _ _ u (IsSameMoney-Ends s _ u (account-Keeps customer d.currency) found)
              λ a v at_account.
                whole-Ends (IsSameMoney s) _ v (collection_whole a till _ m date note _) at_account)

-- A call of `Call` that raises leaves the books exactly as they were: to run any of them in a
-- transaction of its own changes neither its answer nor what it writes. `collect_invoice` is none
-- of them, since it may make the default till and the customer's account before its transaction
-- begins: where it raises, the movements, documents, applications and drafts are as they were.
pub run_rolls_back :
    (c : Call) (d : InvoiceDraft) (date : ℕ) (till : Option CashAccount) (m : Choice PaymentMethod)
    (note : Text) (s : Books)
    → (atomic (run c) s ≡ run c s)
      × Ends (IsSameMoney s) (λ _ _. Unit {0}) (collect_invoice d date till m note) s
unfolding atomic
run_rolls_back c d date till m note s =
    ((run_whole c).same s, collect_invoice-IsSameMoney d date till m note s)
