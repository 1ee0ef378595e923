-- ===== src/Contracts/Numbering.antt =====
-- apps/contracts/services.py: contract numbers, printed and read.
use shiftlush_api.Prelude.{
  ℕ, zero, suc, ◌+◌, ◌-◌, ◌/◌, ◌%◌, ◌≤◌, ◌≡◌, refl, ap, inl, inr, true, false, some, [], ◌∷◌, ◌++◌,
  Text, text, All, All-append, strip, strip_left, is_space, is_empty, digits, zeros, zero_padded,
  read-zero_padded, length, ltb, ◌==◌, Bool-cases, arith,
}
use mathlib.Core.List.{reverse, reverse-cons, reverse-reverse}
use shiftlush_api.Contracts.Terms.{
  shown, before_dash, after_dash, all_digits, int_of, number_prefix, numbered, number_after,
}

abbrev IsDigit : ℕ → Type 0
IsDigit c = (48 ≤ c) × (c ≤ 57)

digits-IsDigit : (fuel n : ℕ) (rest : Text) → All IsDigit rest → All IsDigit (digits fuel n rest)
unfolding digits
digits-IsDigit zero n rest h = h
digits-IsDigit (suc f) n rest h =
    let digit : IsDigit (48 + n % 10) = (omega arith, omega arith) in
    elim (Bool-cases (ltb n 10)) [
      | inl e ↦ rw (e) (digit, h)
      | inr e ↦ rw (e) (digits-IsDigit f (n / 10) ((48 + n % 10) ∷ rest) (digit, h))
    ]

zeros-IsDigit : (k : ℕ) → All IsDigit (zeros k)
unfolding zeros
zeros-IsDigit zero = tt
zeros-IsDigit (suc k) = ((omega arith, omega arith), zeros-IsDigit k)

zero_padded-IsDigit : (width n : ℕ) → All IsDigit (zero_padded width n)
unfolding zero_padded
zero_padded-IsDigit width n =
    All-append _ (zeros (width - length (digits (suc n) n []))) (digits (suc n) n [])
      (zeros-IsDigit _) (digits-IsDigit (suc n) n [] tt)

reverse-IsDigit : (t : Text) → All IsDigit t → All IsDigit (reverse t)
reverse-IsDigit [] h = tt
reverse-IsDigit (c ∷ t) (h, hs) =
    rw (reverse-cons c t) (All-append _ (reverse t) _ (reverse-IsDigit t hs) (h, tt))

digit-not_space : (c : ℕ) → IsDigit c → is_space c ≡ false
unfolding is_space
digit-not_space c h = ground arith

strip_left-digits : (t : Text) → All IsDigit t → strip_left t ≡ t
unfolding strip_left
strip_left-digits [] h = refl
strip_left-digits (c ∷ t) (h, hs) = rw (digit-not_space c h) refl

strip-digits : (t : Text) → All IsDigit t → strip t ≡ t
unfolding strip
strip-digits t h =
    rw (strip_left-digits t h, strip_left-digits (reverse t) (reverse-IsDigit t h))
      (reverse-reverse t)

all_digits-IsDigit : (t : Text) → All IsDigit t → all_digits t ≡ true
unfolding all_digits
all_digits-IsDigit [] h = refl
all_digits-IsDigit (c ∷ t) (h, hs) = let ih = all_digits-IsDigit t hs in ground arith

before_dash-digits : (t : Text) → All IsDigit t → before_dash t ≡ t
unfolding before_dash
before_dash-digits [] h = refl
before_dash-digits (c ∷ t) (h, hs) =
    let other : (c == 45) ≡ false = ground arith in
    rw (other) (ap (λ s. c ∷ s) (before_dash-digits t hs))

after_dash-digits : (s t : Text) → All IsDigit s → after_dash ((s ++ text "-") ++ t) ≡ t
unfolding after_dash
after_dash-digits [] t h = refl
after_dash-digits (c ∷ s) t (h, hs) =
    let other : (c == 45) ≡ false = ground arith in rw (other) (after_dash-digits s t hs)

digits-not_empty : (fuel n c : ℕ) (rest : Text) → is_empty (digits fuel n (c ∷ rest)) ≡ false
unfolding digits
digits-not_empty zero n c rest = refl
digits-not_empty (suc f) n c rest = elim (Bool-cases (ltb n 10)) [
  | inl e ↦ rw (e) refl
  | inr e ↦ rw (e) (digits-not_empty f (n / 10) (48 + n % 10) (c ∷ rest))
]

shown-not_empty : (n : ℕ) → is_empty (shown n) ≡ false
unfolding digits
shown-not_empty n = elim (Bool-cases (ltb n 10)) [
  | inl e ↦ rw (e) refl
  | inr e ↦ rw (e) (digits-not_empty n (n / 10) (48 + n % 10) [])
]

padded-not_empty : (k : ℕ) (t : Text) → is_empty t ≡ false → is_empty (zeros k ++ t) ≡ false
unfolding zeros
padded-not_empty zero t h = h
padded-not_empty (suc k) t h = refl

int_of-zero_padded : (width n : ℕ) → int_of (zero_padded width n) ≡ some n
unfolding int_of
int_of-zero_padded width n =
    let digit = zero_padded-IsDigit width n in
    let full : is_empty (zero_padded width n) ≡ false =
      unfold zero_padded in padded-not_empty _ _ (shown-not_empty n) in
    rw (strip-digits _ digit, full, all_digits-IsDigit _ digit, read-zero_padded width n) refl

after_dash-numbered : (year n : ℕ) → after_dash (numbered year n) ≡ zero_padded 4 n
unfolding numbered number_prefix
after_dash-numbered year n =
    after_dash-digits (shown year) (zero_padded 4 n) (digits-IsDigit (suc year) year [] tt)

-- After the contract number of a sequence comes that of the next sequence: what is printed, split
-- at the dash and read again, is the sequence it was, however many digits it has.
pub number_after-numbered :
    (year sequence : ℕ)
    → number_after year (some (numbered year sequence)) ≡ some (numbered year (sequence + 1))
unfolding number_after
number_after-numbered year n =
    rw
      (
        after_dash-numbered year n,
        before_dash-digits _ (zero_padded-IsDigit 4 n),
        int_of-zero_padded 4 n,
      )
      refl
