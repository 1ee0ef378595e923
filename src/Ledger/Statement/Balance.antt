-- ===== src/Ledger/Statement/Balance.antt =====
-- apps/ledger/statement.py: what the balances of a statement are.
use shiftlush_api.Prelude.{
  ℕ, ◌+◌, ◌≡◌, refl, ◌∙◌, ap, fun_ext, Bool, true, false, ◌&&◌, ◌||◌, Option, none, some, List, [],
  ◌∷◌, ltb, leb, select, sum_where, holds, Bool-cases, inl, inr, arith, if◌then◌else◌,
}
use shiftlush_api.Prelude.Int.{ℤ, pos, pos_part, neg_part, ◌+ℤ◌, ◌-ℤ◌, int_laws}
use shiftlush_api.Ledger.Models.{Movement, Books}
use shiftlush_api.Ledger.Balances.{
  amount, debits, credits, signed_sum, account_balance, account_balance_before,
}
use shiftlush_api.Ledger.Balances.Effects.{total_effect, total_effect-order_by_date}
use shiftlush_api.Ledger.Statement.{
  StatementRow, total_debit, total_credit, from_day, to_day, debit_of, credit_of, run_balance,
  opening_of, statement_rows,
}

-- Each row's balance is the one before, with its debit and less its credit; `last` is the last.
pub data IsRunning : ℤ → List StatementRow → ℤ → Type 0 where
  at_end : (b : ℤ) → IsRunning b [] b
  then_row :
      (b : ℤ) (r : StatementRow) (rs : List StatementRow) (last : ℤ)
      → r.balance ≡ (b +ℤ pos r.debit) -ℤ pos r.credit
      → IsRunning r.balance rs last
      → IsRunning b (r ∷ rs) last

run_balance-IsRunning :
    (b : ℤ) (ms : List Movement) → IsRunning b (run_balance b ms).0 (run_balance b ms).1
unfolding run_balance
run_balance-IsRunning b [] = at_end b
run_balance-IsRunning b (m ∷ ms) =
    then_row b _ _ _ refl (run_balance-IsRunning ((b +ℤ pos (debit_of m)) -ℤ pos (credit_of m)) ms)

running-total :
    (b : ℤ) (rs : List StatementRow) (last : ℤ)
    → IsRunning b rs last
    → last ≡ (b +ℤ pos (total_debit rs)) -ℤ pos (total_credit rs)
unfolding total_debit total_credit
running-total b [] last (at_end _) = omega int_laws
running-total b (r ∷ rs) last (then_row _ _ _ _ e h) =
    let ih = running-total r.balance rs last h in
    omega (int_laws, ap pos_part e, ap neg_part e, ap pos_part ih, ap neg_part ih)

-- What a movement adds to the balance of its own account.
abbrev own_effect : Movement → ℤ
own_effect m = pos (debit_of m) -ℤ pos (credit_of m)

-- The loop ends with the effects of the movements added to the balance it started with.
run_balance-total_effect :
    (b : ℤ) (ms : List Movement) → (run_balance b ms).1 ≡ b +ℤ total_effect own_effect ms
unfolding run_balance total_effect
run_balance-total_effect b [] = omega int_laws
run_balance-total_effect b (m ∷ ms) =
    let ih = run_balance-total_effect ((b +ℤ pos (debit_of m)) -ℤ pos (credit_of m)) ms in
    omega (int_laws, ap pos_part ih, ap neg_part ih)

effect_first :
    (k : ℕ) (on : Bool) (m : Movement) (d c : ℕ) (rest : ℤ)
    → rest ≡ pos d -ℤ pos c
    → (if holds m.account k && on then own_effect m +ℤ rest else rest)
      ≡ pos ((if debits k m && on then m.amount else 0) + d)
        -ℤ pos ((if credits k m && on then m.amount else 0) + c)
effect_first k on m d c rest e = grind int_laws

selected_first :
    (f : Movement → ℤ) (p : Movement → Bool) (m : Movement) (ms : List Movement)
    → total_effect f (select p (m ∷ ms))
      ≡ (if p m then f m +ℤ total_effect f (select p ms) else total_effect f (select p ms))
unfolding total_effect select
selected_first f p m ms = elim (Bool-cases (p m)) [ inl e ↦ rw (e) refl | inr e ↦ rw (e) refl ]

listed_effect :
    (k : ℕ) (p : ℕ → Bool) (ms : List Movement)
    → total_effect own_effect (select (λ m. holds m.account k && p m.date) ms)
      ≡ signed_sum (λ m. debits k m && p m.date) (λ m. credits k m && p m.date) ms
unfolding total_effect select sum_where
listed_effect k p [] = omega int_laws
listed_effect k p (m ∷ ms) =
    selected_first own_effect (λ m. holds m.account k && p m.date) m ms
    ∙ effect_first k (p m.date) m _ _ _ (listed_effect k p ms)

sums_apart :
    (d : Movement → Bool) (start : ℕ) (q : ℕ → Bool) (ms : List Movement)
    → sum_where (λ m. d m && ltb m.date start) amount ms
        + sum_where (λ m. d m && (leb start m.date && q m.date)) amount ms
      ≡ sum_where (λ m. d m && (ltb m.date start || q m.date)) amount ms
unfolding sum_where
sums_apart d start q [] = refl
sums_apart d start q (m ∷ ms) = grind (arith, sums_apart d start q ms)

-- The movements before a day, and those in a window that starts on it.
before_and_in :
    (k start : ℕ) (q : ℕ → Bool) (ms : List Movement)
    → (signed_sum (λ m. debits k m && ltb m.date start) (λ m. credits k m && ltb m.date start) ms
        +ℤ signed_sum
            (λ m. debits k m && (leb start m.date && q m.date))
            (λ m. credits k m && (leb start m.date && q m.date))
            ms)
      ≡ signed_sum
          (λ m. debits k m && (ltb m.date start || q m.date))
          (λ m. credits k m && (ltb m.date start || q m.date))
          ms
before_and_in k start q ms =
    omega (int_laws, sums_apart (debits k) start q ms, sums_apart (credits k) start q ms)

-- The balance that a statement should close with: of all the account's movements to its last day.
abbrev pub balance_to : ℕ → Option ℕ → Books → ℤ
balance_to k none s = account_balance k s
balance_to k (some end) s = account_balance_before k (end + 1) s

-- The start is not after the day after the end.
abbrev pub in_order : Option ℕ → Option ℕ → Bool
in_order (some start) (some end) = leb start (end + 1)
in_order _ _ = true

nothing_before : (x : ℤ) → (pos 0 +ℤ x) ≡ x
nothing_before x = omega int_laws

always : (b : Bool) → (b && true) ≡ b
always true = refl
always false = refl

-- The same sums, over the same days.
same_days :
    (k : ℕ) (p q : ℕ → Bool) (ms : List Movement)
    → ((day : ℕ) → p day ≡ q day)
    → signed_sum (λ m. debits k m && p m.date) (λ m. credits k m && p m.date) ms
      ≡ signed_sum (λ m. debits k m && q m.date) (λ m. credits k m && q m.date) ms
same_days k p q ms e =
    ap
      (λ (f : ℕ → Bool). signed_sum (λ m. debits k m && f m.date) (λ m. credits k m && f m.date) ms)
      (fun_ext e)

every_day :
    (k : ℕ) (ms : List Movement)
    → signed_sum (λ m. debits k m && true) (λ m. credits k m && true) ms
      ≡ signed_sum (debits k) (credits k) ms
every_day k ms =
    ap (λ (f : Bool → Bool). signed_sum (λ m. f (debits k m)) (λ m. f (credits k m)) ms)
      (fun_ext always)

window-sum :
    (k : ℕ) (start end : Option ℕ) (s : Books)
    → in_order start end ≡ true
    → (opening_of k start s
        +ℤ signed_sum
            (λ m. debits k m && (from_day start m.date && to_day end m.date))
            (λ m. credits k m && (from_day start m.date && to_day end m.date))
            s.movements)
      ≡ balance_to k end s
unfolding account_balance account_balance_before
window-sum k none none s o = nothing_before _ ∙ every_day k s.movements
window-sum k none (some end) s o =
    nothing_before _
    ∙ same_days k (λ d. leb d end) (λ d. ltb d (end + 1)) s.movements (λ d. ground arith)
window-sum k (some start) none s o =
    before_and_in k start (λ _. true) s.movements
    ∙ same_days k (λ d. ltb d start || true) (λ _. true) s.movements (λ d. ground arith)
    ∙ every_day k s.movements
window-sum k (some start) (some end) s o =
    before_and_in k start (λ d. leb d end) s.movements
    ∙ same_days k (λ d. ltb d start || leb d end) (λ d. ltb d (end + 1)) s.movements
        (λ d. ground arith)

-- A statement opens with the balance before its first day, or with nothing; each row's balance is
-- the one before it with its debit and less its credit; and it closes with the balance of all the
-- account's movements up to its last day, or to date, whatever day it starts on, so that one
-- statement goes on where another ends. This needs that the days are in order.
pub statement_rows-IsRunning :
    (k : ℕ) (start end : Option ℕ) (s : Books)
    → in_order start end ≡ true
    → let st = statement_rows k start end s in
      (st.opening ≡ opening_of k start s)
      × IsRunning st.opening st.rows st.closing
      × (st.closing ≡ balance_to k end s)
unfolding statement_rows
statement_rows-IsRunning k start end s o = (
  refl,
  run_balance-IsRunning _ _,
  run_balance-total_effect _ _
      ∙ ap (λ e. opening_of k start s +ℤ e)
          (total_effect-order_by_date own_effect _
            ∙ listed_effect k (λ d. from_day start d && to_day end d) s.movements)
      ∙ window-sum k start end s o,
)
