-- ===== src/Ledger/Balances/Effects.antt =====
-- The effect of one movement on a balance, and balances under the writes of posting.
use shiftlush_api.Prelude.{
  ℕ, ◌+◌, ◌≡◌, refl, Bool, List, [], ◌∷◌, ◌++◌, arith, sum_where, sum_where-append, if◌then◌else◌,
  ap, ◌∙◌,
}
use shiftlush_api.Prelude.Int.{ℤ, pos, pos_part, neg_part, ◌+ℤ◌, ◌-ℤ◌, int_laws}
use shiftlush_api.Ledger.Models.{Movement, MovementSource, Books}
use shiftlush_api.Ledger.Balances.{
  amount, debits, credits, brings_in, takes_out, account_balance, cash_balance,
}
use shiftlush_api.Ledger.Reversal.{mirror_of, order_by_date, insert_by_date}
use shiftlush_api.Ledger.Posting.Posts.{append_movement}

-- What one movement adds to a signed sum.
abbrev pub counted : (Movement → Bool) → Movement → ℕ
counted p m = if p m then m.amount else 0

abbrev pub effect_on : (positive negative : Movement → Bool) → Movement → ℤ
effect_on positive negative m = pos (counted positive m) -ℤ pos (counted negative m)

unfoldable pub account_effect : ℕ → Movement → ℤ
account_effect k = effect_on (debits k) (credits k)

unfoldable pub cash_effect : ℕ → Movement → ℤ
cash_effect k = effect_on (brings_in k) (takes_out k)

sum_where-one : (p : Movement → Bool) (m : Movement) → sum_where p amount (m ∷ []) ≡ counted p m
unfolding sum_where
sum_where-one p m = omega arith

sum_where-snoc :
    (p : Movement → Bool) (ms : List Movement) (m : Movement)
    → sum_where p amount (ms ++ (m ∷ [])) ≡ sum_where p amount ms + counted p m
sum_where-snoc p ms m = omega (arith, sum_where-append {0} p amount ms (m ∷ []), sum_where-one p m)

pub account_balance-append_movement :
    (k : ℕ) (m : Movement) (s : Books)
    → account_balance k (append_movement m s) ≡ account_balance k s +ℤ account_effect k m
unfolding account_balance account_effect
account_balance-append_movement k m s =
    omega
      (int_laws, sum_where-snoc (debits k) s.movements m, sum_where-snoc (credits k) s.movements m)

pub cash_balance-append_movement :
    (k : ℕ) (m : Movement) (s : Books)
    → cash_balance k (append_movement m s) ≡ cash_balance k s +ℤ cash_effect k m
unfolding cash_balance cash_effect
cash_balance-append_movement k m s = omega (
  int_laws,
  sum_where-snoc (brings_in k) s.movements m,
  sum_where-snoc (takes_out k) s.movements m,
)

-- A mirror undoes its original on every side.
pub account_effect-mirror_of :
    (k date id : ℕ) (source : MovementSource) (m : Movement)
    → account_effect k m +ℤ account_effect k (mirror_of date source m id) ≡ pos 0
unfolding account_effect mirror_of ◌+ℤ◌ ◌-ℤ◌
account_effect-mirror_of k date id source m = ground arith

pub cash_effect-mirror_of :
    (k date id : ℕ) (source : MovementSource) (m : Movement)
    → cash_effect k m +ℤ cash_effect k (mirror_of date source m id) ≡ pos 0
unfolding cash_effect mirror_of ◌+ℤ◌ ◌-ℤ◌
cash_effect-mirror_of k date id source m = ground arith

-- The effects of a list of movements together.
unfoldable pub total_effect : (Movement → ℤ) → List Movement → ℤ
total_effect effect [] = pos 0
total_effect effect (m ∷ ms) = effect m +ℤ total_effect effect ms

total_effect-insert :
    (effect : Movement → ℤ) (m : Movement) (ms : List Movement)
    → total_effect effect (insert_by_date m ms) ≡ effect m +ℤ total_effect effect ms
unfolding total_effect insert_by_date
total_effect-insert effect m [] = refl
total_effect-insert effect m (n ∷ ms) = grind (int_laws, total_effect-insert effect m ms)

pub total_effect-order_by_date :
    (effect : Movement → ℤ) (ms : List Movement)
    → total_effect effect (order_by_date ms) ≡ total_effect effect ms
unfolding total_effect order_by_date
total_effect-order_by_date effect [] = refl
total_effect-order_by_date effect (m ∷ ms) =
    total_effect-insert effect m (order_by_date ms)
    ∙ ap (λ t. effect m +ℤ t) (total_effect-order_by_date effect ms)

pub taken_back : (x y z t e e' : ℤ) → x +ℤ t ≡ y → y ≡ z +ℤ e' → e +ℤ e' ≡ pos 0 → x +ℤ (e +ℤ t) ≡ z
taken_back x y z t e e' p q r = omega (
  int_laws,
  ap pos_part p,
  ap neg_part p,
  ap pos_part q,
  ap neg_part q,
  ap pos_part r,
  ap neg_part r,
)
