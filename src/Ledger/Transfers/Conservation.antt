-- ===== src/Ledger/Transfers/Conservation.antt =====
-- The balances after a transfer.
use shiftlush_api.Prelude.{
  ℕ, ◌≡◌, refl, ap, ◌∙◌, Bool, true, false, none, some, Text, ◌==◌, arith, if◌then◌else◌,
}
use shiftlush_api.Prelude.Int.{ℤ, pos, pos_part, neg_part, ◌+ℤ◌, ◌-ℤ◌, int_laws}
use shiftlush_api.Action.{or_raise}
use shiftlush_api.Action.Outcome.{
  Ends-read, Ends, Ends-pure, Ends-gets, Ends-guard, Ends-value, Ends-modify, Ends-atomic,
  Ends-bind, Ends-weaken,
}
use shiftlush_api.Ledger.Decimal.Checked.{check_money-Reads}
use shiftlush_api.Ledger.Decimal.{Decimal, cents}
use shiftlush_api.Ledger.Models.{
  TransferKind, Direction, debit, credit, Account, Document, DocumentBody, Movement, Books,
}
use shiftlush_api.Ledger.Posting.{blank, chosen, Posting, post, movement_of}
use shiftlush_api.Ledger.Posting.Posts.{IsPosted, post-IsPosted}
use shiftlush_api.Ledger.Balances.{account_balance, cash_balance}
use shiftlush_api.Ledger.Balances.Effects.{
  account_effect, cash_effect, account_balance-append_movement, cash_balance-append_movement,
}
use shiftlush_api.Ledger.Services.{create_document, same_firm, check_amount}
use shiftlush_api.Ledger.Transfers.{leg, transfer_between_accounts, record_transfer}

-- The balances after `n` cents went from the account `a` to the account `b`.
pub record IsTransferred (a b n : ℕ) (s s' : Books) : Type 0 where
  pub left : account_balance a s' +ℤ pos n ≡ account_balance a s
  pub arrived : account_balance b s' ≡ account_balance b s +ℤ pos n
  pub others :
      (k : ℕ) → (a == k) ≡ false → (b == k) ≡ false → account_balance k s' ≡ account_balance k s
  pub tills : (k : ℕ) → cash_balance k s' ≡ cash_balance k s

abbrev share : Bool → ℕ → ℕ
share here n = if here then n else 0

credit_effect :
    (a : Account) (d : Decimal) (c date id : ℕ) (t : Document) (note : Text) (k : ℕ)
    → account_effect k (movement_of (leg (some a) none (chosen credit) blank d c date t note) id)
      ≡ pos 0 -ℤ pos (share (a.id == k) (cents d))
unfolding account_effect movement_of ◌-ℤ◌
credit_effect a d c date id t note k = ground arith

debit_effect :
    (a : Account) (d : Decimal) (c date id : ℕ) (t : Document) (note : Text) (k : ℕ)
    → account_effect k (movement_of (leg (some a) none (chosen debit) blank d c date t note) id)
      ≡ pos (share (a.id == k) (cents d)) -ℤ pos 0
unfolding account_effect movement_of ◌-ℤ◌
debit_effect a d c date id t note k = ground arith

no_till_effect :
    (a : Account) (w : Direction) (d : Decimal) (c date id : ℕ) (t : Document) (note : Text) (k : ℕ)
    → cash_effect k (movement_of (leg (some a) none (chosen w) blank d c date t note) id) ≡ pos 0
unfolding cash_effect movement_of ◌-ℤ◌
no_till_effect a w d c date id t note k = ground arith

created :
    (company amount date : ℕ) (body : DocumentBody) (s : Books)
    → Ends
        (λ _. Unit {0})
        (λ _ t. t.movements ≡ s.movements)
        (create_document company amount date body)
        s
unfolding create_document
created company amount date body s = Ends-gets _ _ _ (Ends-modify _ _ _ (Ends-pure _ _ refl))

posted : (p : Posting) (s : Books) → Ends (λ _. Unit {0}) (IsPosted p s) (post p) s
posted p s = Ends-weaken (post p) s (λ _ _. tt) (λ _ _ h. h) (post-IsPosted p s)

posted_balance :
    (p : Posting) (s : Books) (m : Movement) (s' : Books) (k : ℕ)
    → IsPosted p s m s'
    → account_balance k s' ≡ account_balance k s +ℤ account_effect k (movement_of p s.next_id)
posted_balance p s m s' k h = rw (h.written, h.row) (account_balance-append_movement k _ s)

posted_till :
    (p : Posting) (s : Books) (m : Movement) (s' : Books) (k : ℕ)
    → IsPosted p s m s'
    → cash_balance k s' ≡ cash_balance k s +ℤ cash_effect k (movement_of p s.next_id)
posted_till p s m s' k h = rw (h.written, h.row) (cash_balance-append_movement k _ s)

-- The sums of both legs, at an account and at a till.
sum_left :
    (x y z w : ℤ) (n : ℕ)
    → y ≡ x
    → z ≡ y +ℤ (pos 0 -ℤ pos n)
    → w ≡ z +ℤ (pos 0 -ℤ pos 0)
    → w +ℤ pos n ≡ x
sum_left x y z w n e f g = omega (
  int_laws,
  ap pos_part e,
  ap neg_part e,
  ap pos_part f,
  ap neg_part f,
  ap pos_part g,
  ap neg_part g,
)

sum_arrived :
    (x y z w : ℤ) (n : ℕ)
    → y ≡ x
    → z ≡ y +ℤ (pos 0 -ℤ pos 0)
    → w ≡ z +ℤ (pos n -ℤ pos 0)
    → w ≡ x +ℤ pos n
sum_arrived x y z w n e f g = omega (
  int_laws,
  ap pos_part e,
  ap neg_part e,
  ap pos_part f,
  ap neg_part f,
  ap pos_part g,
  ap neg_part g,
)

sum_other : (x y z w : ℤ) → y ≡ x → z ≡ y +ℤ (pos 0 -ℤ pos 0) → w ≡ z +ℤ (pos 0 -ℤ pos 0) → w ≡ x
sum_other x y z w e f g = omega (
  int_laws,
  ap pos_part e,
  ap neg_part e,
  ap pos_part f,
  ap neg_part f,
  ap pos_part g,
  ap neg_part g,
)

sum_none : (x y z w : ℤ) → y ≡ x → z ≡ y +ℤ pos 0 → w ≡ z +ℤ pos 0 → w ≡ x
sum_none x y z w e f g = omega (
  int_laws,
  ap pos_part e,
  ap neg_part e,
  ap pos_part f,
  ap neg_part f,
  ap pos_part g,
  ap neg_part g,
)

same_balance :
    (k : ℕ) (s t : Books) → t.movements ≡ s.movements → account_balance k t ≡ account_balance k s
unfolding account_balance
same_balance k s t e = rw e refl

same_till : (k : ℕ) (s t : Books) → t.movements ≡ s.movements → cash_balance k t ≡ cash_balance k s
unfolding cash_balance
same_till k s t e = rw e refl

module _ (a b : Account) (d : Decimal) (date : ℕ) (note : Text) where
  abbrev out_leg : Document → Posting
  out_leg t = leg (some a) none (chosen credit) blank d a.currency date t note

  abbrev in_leg : Document → Posting
  in_leg t = leg (some b) none (chosen debit) blank d a.currency date t note

  both_legs :
      (t : Document) (s s1 s2 s3 : Books) (m m' : Movement)
      → (a.id == b.id) ≡ false
      → s1.movements ≡ s.movements
      → IsPosted (out_leg t) s1 m s2
      → IsPosted (in_leg t) s2 m' s3
      → IsTransferred a.id b.id (cents d) s s3
  both_legs t s s1 s2 s3 m m' differ e p q =
      let start = λ (k : ℕ). same_balance k s s1 e in
      let out = λ (k : ℕ).
        posted_balance _ s1 m s2 k p
        ∙ ap (λ x. account_balance k s1 +ℤ x)
            (credit_effect a d a.currency date s1.next_id t note k) in
      let back = λ (k : ℕ).
        posted_balance _ s2 m' s3 k q
        ∙ ap (λ x. account_balance k s2 +ℤ x)
            (debit_effect b d a.currency date s2.next_id t note k) in
      let same_a : (a.id == a.id) ≡ true = ground arith in
      let same_b : (b.id == b.id) ≡ true = ground arith in
      let differ' : (b.id == a.id) ≡ false = ground arith in
      record {
        left =
            sum_left _ _ _ _ (cents d) (start a.id) (rw same_a at (out a.id))
              (rw differ' at (back a.id));
        arrived =
            sum_arrived _ _ _ _ (cents d) (start b.id) (rw differ at (out b.id))
              (rw same_b at (back b.id));
        others = λ k f g. sum_other _ _ _ _ (start k) (rw f at (out k)) (rw g at (back k));
        tills = λ k.
            sum_none _ _ _ _ (same_till k s s1 e)
              (posted_till _ s1 m s2 k p
                ∙ ap (λ x. cash_balance k s1 +ℤ x)
                    (no_till_effect a credit d a.currency date s1.next_id t note k))
              (posted_till _ s2 m' s3 k q
                ∙ ap (λ x. cash_balance k s2 +ℤ x)
                    (no_till_effect b debit d a.currency date s2.next_id t note k));
      }

  -- A transfer between two accounts either raises and leaves the books alone, or takes its amount
  -- from the balance of the first, adds it to the balance of the second, and changes no other
  -- account's balance and no till's: nothing is lost on the way.
  pub record_transfer-IsTransferred :
      (s : Books)
      → Ends
          (λ s'. s' ≡ s)
          (λ _ s'. IsTransferred a.id b.id (cents d) s s')
          (record_transfer (chosen TransferKind.account) d date note (some a) (some b) none none)
          s
  unfolding record_transfer transfer_between_accounts same_firm check_amount or_raise
  record_transfer-IsTransferred s = Ends-guard _ _ _ _ refl λ _. Ends-value a _ _ (
      Ends-value b _ _ (
        Ends-guard _ _ _ _ refl λ _. Ends-guard _ _ _ _ refl λ differ. Ends-guard _ _ _ _ refl λ _.
          Ends-read _ _ _ (check_money-Reads _ d s) refl λ _ _.
            Ends-atomic {X = λ _. Unit {0}} _ s refl (
              Ends-bind _ _ s (created _ _ _ _ s) λ t s1 e.
                Ends-bind _ _ s1 (posted (out_leg t) s1) λ m s2 p.
                  Ends-bind _ _ s2 (posted (in_leg t) s2)
                    λ m' s3 q. Ends-pure _ _ (both_legs t s s1 s2 s3 m m' differ e p q))))
