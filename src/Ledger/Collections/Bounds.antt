-- ===== src/Ledger/Collections/Bounds.antt =====
-- What an invoice is paid: the check and the row of one application.
use shiftlush_api.Prelude.{
  ℕ, ◌+◌, ◌≤◌, ◌≡◌, refl, Bool, true, false, not, some, List, [], ◌∷◌, ◌++◌, arith, find, find-In,
  any, sum_where, sum_where-append, ◌==◌,
}
use mathlib.Core.Path.{subst}
use shiftlush_api.Prelude.Int.{pos, ◌-ℤ◌, leb_ℤ}
use shiftlush_api.Action.{modify}
use shiftlush_api.Action.Outcome.{Ends, Ends-gets, Ends-guard, Ends-or_raise}
use shiftlush_api.Ledger.Models.{Account, Document, CollectionApplication, InvoiceDraft, Books}
use shiftlush_api.Ledger.Invoices.{invoice_collected, invoice_remaining, pays, applied}
use shiftlush_api.Ledger.Collections.{
  apply_one, create_application, is_firm_draft, is_unpayable, pairs,
}

-- An application that has gone through: of the firm's own invoice, one that the account's party
-- owes, in the account's currency, and none of it beyond what was still owed.
pub record IsApplied (c : Document) (account : Account) (k amount : ℕ) (s s' : Books) : Type 0 where
  pub invoice : InvoiceDraft
  pub found : find (is_firm_draft c.company k) s.drafts ≡ some invoice
  pub payable : is_unpayable account invoice ≡ false
  pub same_currency : (invoice.currency == account.currency) ≡ true
  pub once : any (pairs c.id k) s.applications ≡ false
  pub within : invoice_collected k s + amount ≤ invoice.total
  pub not_overpaid : invoice_collected k s' ≤ invoice.total
  pub same_documents : s'.documents ≡ s.documents
  pub same_movements : s'.movements ≡ s.movements

remaining_covers :
    (total collected amount : ℕ)
    → leb_ℤ (pos amount) (pos total -ℤ pos collected) ≡ true
    → collected + amount ≤ total
unfolding ◌-ℤ◌
remaining_covers total collected amount h = ground arith

one_row :
    (p : CollectionApplication → Bool) (x : CollectionApplication)
    → sum_where p applied (x ∷ []) ≤ x.amount
unfolding sum_where
one_row p x = ground arith

-- One more application adds at most its amount to what an invoice has been paid.
one_more :
    (k : ℕ) (ds : List Document) (xs : List CollectionApplication) (x : CollectionApplication)
    → sum_where (pays k ds) applied (xs ++ (x ∷ [])) ≤ sum_where (pays k ds) applied xs + x.amount
one_more k ds xs x =
    let split = sum_where-append (pays k ds) applied xs (x ∷ []) in
    let last = one_row (pays k ds) x in omega (arith, split, last)

abbrev paid_row : Document → ℕ → ℕ → ℕ → CollectionApplication
paid_row c k amount id = record {
  id = id;
  company = c.company;
  collection = c.id;
  invoice = k;
  amount = amount;
  is_deleted = false;
}

same_invoice :
    (c k : ℕ) (s : Books) (d : InvoiceDraft) → find (is_firm_draft c k) s.drafts ≡ some d → d.id ≡ k
same_invoice c k s d e = let hit = (find-In (is_firm_draft c k) s.drafts d e).1 in ground arith

fits :
    (c k amount : ℕ) (s : Books) (d : InvoiceDraft)
    → find (is_firm_draft c k) s.drafts ≡ some d
    → not (leb_ℤ (pos amount) (invoice_remaining d s)) ≡ false
    → invoice_collected k s + amount ≤ d.total
unfolding invoice_remaining
fits c k amount s d e h =
    subst (λ j. invoice_collected j s + amount ≤ d.total) (same_invoice c k s d e)
      (remaining_covers d.total (invoice_collected d.id s) amount (ground arith))

-- Where one turn of `_apply` returns, the invoice was the firm's, standing, issued to the account's
-- customer and in its currency, and not yet paid by this collection; what it had been paid and
-- the amount together are no more than its total, so it is not overpaid afterwards. No document
-- or movement changes. Where it raises, nothing has changed.
pub apply_one-IsApplied :
    (c : Document) (account : Account) (k amount : ℕ) (s : Books)
    → Ends
        (λ s'. s' ≡ s)
        (λ _ s'. IsApplied c account k amount s s')
        (apply_one c account (k, amount))
        s
unfolding apply_one create_application modify invoice_collected
apply_one-IsApplied c account k amount s = Ends-gets _ _ _ (
    Ends-or_raise _ _ _ _ refl λ invoice found. Ends-guard _ _ _ _ refl λ payable.
      Ends-guard _ _ _ _ refl λ currency. Ends-gets _ _ _ (
        Ends-guard _ _ _ _ refl λ covered. Ends-gets _ _ _ (
          Ends-guard _ _ _ _ refl λ once. Ends-gets _ _ _ (record {
            outcome = record {
              invoice = invoice;
              found = found;
              payable = payable;
              same_currency = ground arith;
              once = once;
              within = fits c.company k amount s invoice found covered;
              not_overpaid =
                  let room = fits c.company k amount s invoice found covered in
                  let grown =
                    one_more k s.documents s.applications (paid_row c k amount s.next_id) in
                  omega (arith, room, grown);
              same_documents = refl;
              same_movements = refl;
            };
          }))))
