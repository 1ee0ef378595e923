-- ===== src/Ledger/Tests.antt =====
-- Concrete books, runs of the service calls on them, and an example of each theorem of the ledger.
use shiftlush_api.Prelude.{
  ◌↔◌, ◌*◌, ◌^◌, ◌<◌, arith, ℕ, ◌≡◌, refl, Bool, true, false, none, some, List, [], ◌∷◌, text,
  select, find, any, update, sum_where, text_eq, is_space, strip_left, strip, truncate, digits,
  zeros, zero_padded, ◌≤◌,
}
use shiftlush_api.Action.{
  Result, ok, err, atomic, ◌>>=◌, pure, raise, gets, or_raise, raise_if, modify, for_each,
}
use shiftlush_api.Errors.{invalid_operation}
use shiftlush_api.Action.Outcome.{Ends}
use shiftlush_api.Prelude.Int.{ℤ, pos, ◌+ℤ◌, ◌-ℤ◌, negsuc}
use shiftlush_api.Ledger.Decimal.{finite, is_money, check_money, cents, quantize_cents, precision}
use shiftlush_api.Ledger.Decimal.WholeCents.{is_money_iff}
use shiftlush_api.Ledger.Models.{
  MovementSource, Movement, credit, cash_in, PaymentMethod, Account, DocumentType, Books,
  TransferKind, Document, DocumentBody,
}
use shiftlush_api.Ledger.Posting.{
  chosen, Posting, post, mirror_direction, mirror_cash_direction, fresh_company, check_date,
  later_opening, later_cash_opening, check_after_opening, movement_of, is_of, clashes,
  create_movement,
}
use shiftlush_api.Ledger.Reversal.{
  reverse_document, is_reversed, is_original, insert_by_date, order_by_date, mirror_of,
  create_mirrors, on_integrity_error, first_of_all,
}
use shiftlush_api.Ledger.Posting.Posts.{IsPosted, post-IsPosted, IsAllowed, post_returns}
use shiftlush_api.Ledger.Reversal.Effects.{IsTakenBack, reverse_document-IsTakenBack}
use shiftlush_api.Ledger.Balances.{account_balance, cash_balance}
use shiftlush_api.Ledger.Calls.{Call, run, run_all}
use shiftlush_api.Ledger.Calls.Growth.{run_all-IsGrown}
use shiftlush_api.Ledger.Calls.Rollback.{IsSameMoney, run_rolls_back}
use shiftlush_api.Ledger.Invariant.{IsGrown}
use shiftlush_api.Calendar.{is_leap, days_in_month, days_before_month, from_ordinal, day_text}
use shiftlush_api.Ledger.Services.{
  same_firm, check_amount, check_method, counts, with_counter, next_number, create_document, lock,
  stamp_cancelled, cancel,
}
use shiftlush_api.Ledger.Documents.{record_payment_out, check_direction, record_manual_entry}
use shiftlush_api.Ledger.Transfers.{
  transfer_between_accounts, transfer_between_cash, record_transfer,
}
use shiftlush_api.Ledger.Openings.{one_side, is_live_opening, is_earlier, record_opening}
use shiftlush_api.Ledger.Parties.{is_account_of, create_account, account_for_customer}
use shiftlush_api.Ledger.Invoices.{
  is_standing, pays, invoice_collected, invoice_remaining, get_draft, is_invoice_movement,
  invoice_description, get_customer, post_debit, post_invoice, reverse_invoice, latest_paid,
  settled, sync_invoice_status,
}
use shiftlush_api.Ledger.Collections.{
  add_to, per_invoice, total_of, create_application, apply_one, apply, insert_key, sorted_keys,
  record_collection, collect_invoice, applied_invoice_ids, cancel_collection, get_account,
  unallocated, apply_collection,
}
use shiftlush_api.Ledger.Sample.{receivable, till, bill, opened, full}
use shiftlush_api.Ledger.Collections.Bounds.{IsApplied, apply_one-IsApplied}
use shiftlush_api.Ledger.Transfers.Conservation.{IsTransferred, record_transfer-IsTransferred}

abbrev post_the_bill : Call
post_the_bill = Call.post_invoice_of 5 none

abbrev pay_the_bill : Call
pay_the_bill =
    Call.collect receivable till full (chosen PaymentMethod.card) 739650 [] ((bill, full) ∷ [])

-- The customer's balance and the till's after some calls.
unfoldable balances_after : List Call → Books → ℤ × ℤ
unfolding pure raise gets or_raise atomic raise_if modify ◌>>=◌ for_each select find any update
    sum_where text_eq is_space strip_left strip truncate digits zeros zero_padded ◌+ℤ◌ ◌-ℤ◌ is_leap
    days_in_month days_before_month from_ordinal day_text quantize_cents is_money check_money cents
    mirror_direction mirror_cash_direction fresh_company check_date later_opening later_cash_opening
    check_after_opening movement_of is_of clashes create_movement post is_reversed is_original
    insert_by_date order_by_date mirror_of create_mirrors on_integrity_error first_of_all
    reverse_document account_balance cash_balance same_firm check_amount check_method counts
    with_counter next_number create_document lock stamp_cancelled cancel record_payment_out
    check_direction record_manual_entry transfer_between_accounts transfer_between_cash
    record_transfer one_side is_live_opening is_earlier record_opening is_account_of create_account
    account_for_customer is_standing pays invoice_collected invoice_remaining get_draft
    is_invoice_movement invoice_description get_customer post_debit post_invoice reverse_invoice
    latest_paid settled sync_invoice_status add_to per_invoice total_of create_application apply_one
    apply insert_key sorted_keys record_collection applied_invoice_ids cancel_collection get_account
    unallocated apply_collection run run_all
balances_after cs s = let s' = run_all cs s in (account_balance 3 s', cash_balance 4 s')

billed : balances_after (post_the_bill ∷ []) opened ≡ (pos 12000, pos 0)
unfolding balances_after
billed = refl

paid : balances_after (post_the_bill ∷ pay_the_bill ∷ []) opened ≡ (pos 0, pos 12000)
unfolding balances_after
paid = refl

-- The collection is document 11; its cancellation takes both legs back.
cancelled :
    balances_after (post_the_bill ∷ pay_the_bill ∷ Call.uncollect 11 ∷ []) opened
    ≡ (pos 12000, pos 0)
unfolding balances_after
cancelled = refl

abbrev is_ok : {A : Type 0} → Result A × Books → Bool
is_ok (ok _, _) = true
is_ok (err _, _) = false

abbrev receipt : Posting
receipt = record {
  account = some receivable;
  cash_account = some till;
  direction = chosen credit;
  cash_direction = chosen cash_in;
  amount = full;
  currency = 0;
  date = 739650;
  source = chosen MovementSource.collection;
  document = some (DocumentType.collection, 7);
  description = text "T-000001";
}

-- `receipt` is not refused.
abbrev received : Books
received = (post receipt opened).1

post-IsPosted_example : Ends (λ s'. s' ≡ opened) (IsPosted receipt opened) (post receipt) opened
post-IsPosted_example = post-IsPosted receipt opened

receipt_posted : is_ok (post receipt opened) ≡ true
unfolding balances_after
receipt_posted = refl

post_returns_example :
    ((m : Movement) × (s' : Books) × (post receipt opened ≡ (ok m, s'))) ↔ IsAllowed receipt opened
post_returns_example = post_returns receipt opened

reverse_document-IsTakenBack_example :
    Ends
      (λ s'. s' ≡ received)
      (λ _. IsTakenBack DocumentType.collection 7 received)
      (reverse_document DocumentType.collection 7 739700 MovementSource.reversal)
      received
reverse_document-IsTakenBack_example =
    reverse_document-IsTakenBack DocumentType.collection 7 739700 MovementSource.reversal received

received_reversed :
    is_ok (reverse_document DocumentType.collection 7 739700 MovementSource.reversal received)
    ≡ true
unfolding balances_after
received_reversed = refl

abbrev bill_paid_and_undone : List Call
bill_paid_and_undone = post_the_bill ∷ pay_the_bill ∷ Call.uncollect 11 ∷ []

run_all-IsGrown_example : IsGrown received (run_all bill_paid_and_undone received)
unfolding balances_after
run_all-IsGrown_example = run_all-IsGrown bill_paid_and_undone received (
  record {
    amount_positive = omega arith;
    has_a_side = refl;
    direction_with_account = refl;
    cash_direction_with_cash_account = refl;
  },
  tt,
)

-- 0.01 more than the bill is asked of a collection of the bill's amount.
abbrev overpaid : Call
overpaid =
    Call.collect receivable till full (chosen PaymentMethod.card) 739650 []
      ((bill, finite false 12001 2) ∷ [])

overpaid_refused : is_ok (run overpaid opened) ≡ false
unfolding balances_after
overpaid_refused = refl

run_rolls_back_example :
    (atomic (run overpaid) opened ≡ run overpaid opened)
    × Ends
        (IsSameMoney opened)
        (λ _ _. Unit {0})
        (collect_invoice bill 739650 none (chosen PaymentMethod.card) [])
        opened
run_rolls_back_example =
    run_rolls_back overpaid bill 739650 none (chosen PaymentMethod.card) [] opened

-- 12.50
is_money_iff_example :
    ((is_money (finite false 1250 2) ≡ ok true) ↔ (
      (n : ℕ) × (0 < n)
      × (n * 10 ^ 2 ≡ 1250 * 100)
      × (n < 10 ^ precision)
      × (cents (finite false 1250 2) ≡ n)))
    × ((is_money (finite false 1250 2) ≡ err invalid_operation)
        ↔ ((0 < 1250) × (10 ^ precision ≤ quantize_cents 1250 2)))
is_money_iff_example = is_money_iff 1250 2

abbrev in_hand : Document
in_hand = record {
  id = 8;
  company = 1;
  amount = 12000;
  date = 739650;
  cancelled_at = none;
  is_deleted = false;
  body = DocumentBody.collection (text "T-000001") 3 4 PaymentMethod.card [];
}

apply_one-IsApplied_example :
    Ends
      (λ s'. s' ≡ opened)
      (λ _ s'. IsApplied in_hand receivable 5 12000 opened s')
      (apply_one in_hand receivable (5, 12000))
      opened
apply_one-IsApplied_example = apply_one-IsApplied in_hand receivable 5 12000 opened

abbrev second_account : Account
second_account = record receivable { id = 9; name = text "Site B" }

abbrev two_accounts : Books
two_accounts = record opened { accounts = receivable ∷ second_account ∷ [] }

record_transfer-IsTransferred_example :
    Ends
      (λ s'. s' ≡ two_accounts)
      (λ _ s'. IsTransferred 3 9 (cents full) two_accounts s')
      (record_transfer
        (chosen TransferKind.account)
        full
        739650
        []
        (some receivable)
        (some second_account)
        none
        none)
      two_accounts
record_transfer-IsTransferred_example =
    record_transfer-IsTransferred receivable second_account full 739650 [] two_accounts

-- The transfer is not refused.
moved_between_accounts :
    balances_after
      (Call.move
          (chosen TransferKind.account)
          full
          739650
          []
          (some receivable)
          (some second_account)
          none
          none
        ∷ [])
      two_accounts
    ≡ (negsuc 11999, pos 0)
unfolding balances_after
moved_between_accounts = refl
