-- ===== src/Ledger/Reversal/Effects.antt =====
-- The balances after `reverse_document`.
use shiftlush_api.Prelude.{ℕ, ◌≡◌, refl, ap, ◌∙◌, some, List, [], ◌∷◌, select, find, ◌==◌}
use shiftlush_api.Prelude.Int.{◌+ℤ◌, int_laws}
use shiftlush_api.Errors.{Error, integrity_error}
use shiftlush_api.Action.{Result, ok, err, Action, ◌>>=◌}
use shiftlush_api.Action.Outcome.{
  Ends, Reads, Ends-bind, Ends-guard, Ends-atomic, Ends-gets, Ends-read, Ends-pure, Ends-weaken,
  Leaves, ok-injective,
}
use shiftlush_api.Ledger.Models.{Movement, MovementSource, DocumentType, Books, Company}
use shiftlush_api.Ledger.Reversal.{
  reverse_document, create_mirrors, mirror_of, is_original, order_by_date, on_integrity_error,
  reraised, first_of_all,
}
use shiftlush_api.Ledger.Posting.Posts.{
  append_movement, fresh_company-Reads, check_date-Reads, create_movement-Ends, IsOpenDay,
}
use shiftlush_api.Ledger.Balances.{account_balance, cash_balance}
use shiftlush_api.Ledger.Balances.Effects.{
  account_effect, cash_effect, account_balance-append_movement, cash_balance-append_movement,
  account_effect-mirror_of, cash_effect-mirror_of, total_effect, total_effect-order_by_date,
  taken_back,
}

-- The movements that a reversal of the document at `s` mirrors, in its order.
abbrev pub originals : DocumentType → ℕ → Books → List Movement
originals t k s = order_by_date (select (is_original s.movements t k) s.movements)

-- The books after mirrors of `ms` were written one after another.
unfoldable pub append_mirrors : ℕ → MovementSource → List Movement → Books → Books
append_mirrors date source [] s = s
append_mirrors date source (m ∷ ms) s =
    append_mirrors date source ms (append_movement (mirror_of date source m s.next_id) s)

create_mirrors-Ends :
    (date : ℕ) (source : MovementSource) (ms : List Movement) (s : Books)
    → Ends
        (λ _. Unit {0})
        (λ _ s'. s' ≡ append_mirrors date source ms s)
        (create_mirrors date source ms)
        s
unfolding create_mirrors append_mirrors
create_mirrors-Ends date source [] s = Ends-pure _ s refl
create_mirrors-Ends date source (m ∷ ms) s =
    Ends-bind {Q = λ _ s'. s' ≡ append_movement (mirror_of date source m s.next_id) s} _ _ s
      (create_movement-Ends (mirror_of date source m) s tt λ _ _. refl)
      λ _ s' e.
        Ends-bind {Q = λ _ t. t ≡ append_mirrors date source ms s'} _ _ s'
          (create_mirrors-Ends date source ms s')
          λ _ t e'. Ends-pure _ t (e' ∙ ap (append_mirrors date source ms) e)

Leaves-reraised :
    {A : Type 0} (X : Books → Type 0) (Q : A → Books → Type 0) (e : Error) (r : Result A × Books)
    → Leaves X Q r
    → Leaves X Q (reraised e r.0, r.1)
Leaves-reraised X Q e (ok a, s) h = h
Leaves-reraised X Q e (err integrity_error, s) h = h
Leaves-reraised X Q e (err f, s) h = h

Ends-on_integrity_error :
    {A : Type 0} {X : Books → Type 0} {Q : A → Books → Type 0} (e : Error) (m : Action Books A)
    (s : Books)
    → Ends X Q m s
    → Ends X Q (on_integrity_error e m) s
unfolding on_integrity_error
Ends-on_integrity_error {X = X} {Q = Q} e m s h = record {
  outcome = Leaves-reraised X Q e (m s) h.outcome;
}

-- What `reverse_document` has checked, and what it has written, when it returns.
pub record IsReversed (t : DocumentType) (k date : ℕ) (source : MovementSource) (s s' : Books)
    : Type 0 where
  pub written : s' ≡ append_mirrors date source (originals t k s) s
  pub first : Movement
  pub rest : List Movement
  pub cut : originals t k s ≡ first ∷ rest
  pub company : Company
  pub found : find (λ (c : Company). c.id == first.company) s.companies ≡ some company
  pub open_day : IsOpenDay s company date

first_of_all-Reads :
    (ms : List Movement) (s : Books)
    → Reads
        (λ k. (m : Movement) × (rest : List Movement) × (ms ≡ m ∷ rest) × (m.company ≡ k))
        (first_of_all ms)
        s
unfolding first_of_all ◌>>=◌
first_of_all-Reads [] s = record { same_state = refl; value = λ a e. absurd (cc e) }
first_of_all-Reads (m ∷ ms) s = record {
  same_state = refl;
  value = λ a e. (m, ms, refl, ok-injective e);
}

pub reverse_document-IsReversed :
    (t : DocumentType) (k date : ℕ) (source : MovementSource) (s : Books)
    → Ends (λ s'. s' ≡ s) (λ _. IsReversed t k date source s) (reverse_document t k date source) s
unfolding reverse_document
reverse_document-IsReversed t k date source s = Ends-guard _ _ _ _ refl λ allowed.
    Ends-on_integrity_error _ _ s (
      Ends-atomic {X = λ _. Unit {0}} _ s refl (
        Ends-gets _ _ _ (
          Ends-read _ _ _ (first_of_all-Reads (originals t k s) s) tt λ company_id h.
            Ends-read _ _ _ (fresh_company-Reads company_id s) tt λ c found.
              Ends-read _ _ _ (check_date-Reads c date s) tt λ _ opened.
                Ends-weaken _ _ (λ _ _. tt)
                  (λ _ s' e. record {
                    written = e;
                    first = h.0;
                    rest = h.1;
                    cut = h.2;
                    company = c;
                    found = rw h.3 found;
                    open_day = opened;
                  })
                  (create_mirrors-Ends date source (originals t k s) s))))

account_balance-append_mirrors :
    (k date : ℕ) (source : MovementSource) (ms : List Movement) (s : Books)
    → account_balance k (append_mirrors date source ms s) +ℤ total_effect (account_effect k) ms
      ≡ account_balance k s
unfolding append_mirrors total_effect
account_balance-append_mirrors k date source [] s = omega int_laws
account_balance-append_mirrors k date source (m ∷ ms) s =
    let m' = mirror_of date source m s.next_id in
    taken_back _ _ _ _ _ _ (account_balance-append_mirrors k date source ms (append_movement m' s))
      (account_balance-append_movement k m' s) (account_effect-mirror_of k date s.next_id source m)

cash_balance-append_mirrors :
    (k date : ℕ) (source : MovementSource) (ms : List Movement) (s : Books)
    → cash_balance k (append_mirrors date source ms s) +ℤ total_effect (cash_effect k) ms
      ≡ cash_balance k s
unfolding append_mirrors total_effect
cash_balance-append_mirrors k date source [] s = omega int_laws
cash_balance-append_mirrors k date source (m ∷ ms) s =
    let m' = mirror_of date source m s.next_id in
    taken_back _ _ _ _ _ _ (cash_balance-append_mirrors k date source ms (append_movement m' s))
      (cash_balance-append_movement k m' s) (cash_effect-mirror_of k date s.next_id source m)

-- The open movements of a document: those that a reversal has still to cancel.
abbrev pub open_movements : DocumentType → ℕ → Books → List Movement
open_movements t k s = select (is_original s.movements t k) s.movements

-- Taking back what the document's open movements had put on every account and every till.
abbrev pub IsTakenBack : DocumentType → ℕ → Books → Books → Type 0
IsTakenBack t k s s' =
    ((a : ℕ)
      → account_balance a s' +ℤ total_effect (account_effect a) (open_movements t k s)
        ≡ account_balance a s)
    × ((c : ℕ)
        → cash_balance c s' +ℤ total_effect (cash_effect c) (open_movements t k s)
          ≡ cash_balance c s)

-- Cancelling a document either raises and leaves the books alone, or takes from the balance of
-- every account and of every cash account exactly what the document's open movements had added.
pub reverse_document-IsTakenBack :
    (t : DocumentType) (k date : ℕ) (source : MovementSource) (s : Books)
    → Ends (λ s'. s' ≡ s) (λ _. IsTakenBack t k s) (reverse_document t k date source) s
reverse_document-IsTakenBack t k date source s =
    Ends-weaken _ s (λ _ e. e)
      (λ _ s' r. (
        λ a.
            rw (r.written, ← total_effect-order_by_date (account_effect a) (open_movements t k s))
              (account_balance-append_mirrors a date source (originals t k s) s),
        λ c.
            rw (r.written, ← total_effect-order_by_date (cash_effect c) (open_movements t k s))
              (cash_balance-append_mirrors c date source (originals t k s) s),
      ))
      (reverse_document-IsReversed t k date source s)
