-- ===== src/Ledger/Decimal/WholeCents.antt =====
-- What `is_money` admits.
use shiftlush_api.Prelude.{
  ℕ, zero, suc, ◌+◌, ◌-◌, ◌*◌, ◌/◌, ◌%◌, ◌^◌, ◌<◌, ◌≤◌, ◌≡◌, refl, ap, Bool, true, false, ◌↔◌,
  arith, ltb, leb, ◌==◌, ==_iff, if◌then◌else◌, Bool-cases, inl, inr, not_leb→lt, leb→le,
}
use native.Mathlib.Nat.{pow-suc, mul-div_cancel, mul-mod_left}
use shiftlush_api.Errors.{invalid_operation}
use shiftlush_api.Action.{Result, ok, err}
use shiftlush_api.Action.Outcome.{ok-injective}
use shiftlush_api.Ledger.Decimal.{finite, half_even, quantize_cents, is_money, cents, precision}

some_cents : (q p c : ℕ) → 0 < c → q * p ≡ c * 100 → 0 < q
some_cents zero p c h e = omega arith
some_cents (suc q) p c h e = omega arith

-- The answer for `c` over `p`, rounded to `q` cents, where a number from `b` on is too long.
abbrev answer : ℕ → ℕ → ℕ → ℕ → Result Bool
answer b q p c =
    if c == 0 then ok false else if leb b q then err invalid_operation else ok (q * p == c * 100)

module _ (b q p c : ℕ) where
  admitted : answer b q p c ≡ ok true → (0 < q) × (q * p ≡ c * 100) × (q < b)
  admitted h = elim (Bool-cases (c == 0)) [
    | inl e ↦ absurd (cc (rw (e) at h))
    | inr e ↦ elim (Bool-cases (leb b q)) [
      | inl long ↦ absurd (cc (rw (e, long) at h))
      | inr fits ↦
          let same : (q * p == c * 100) ≡ true = ok-injective (rw (e, fits) at h) in
          let exact : q * p ≡ c * 100 = (==_iff (q * p) (c * 100)).0 same in
          (some_cents q p c (ground arith) exact, exact, not_leb→lt b q fits)
    ]
  ]

  accepted : 0 < c → q * p ≡ c * 100 → q < b → answer b q p c ≡ ok true
  accepted positive exact fits =
      let e : (c == 0) ≡ false = ground arith in
      let short : leb b q ≡ false = ground arith in
      rw (e, short) (ap ok ((==_iff (q * p) (c * 100)).1 exact))

  refused : answer b q p c ≡ err invalid_operation → (0 < c) × (b ≤ q)
  refused h = elim (Bool-cases (c == 0)) [
    | inl e ↦ absurd (cc (rw (e) at h))
    | inr e ↦ elim (Bool-cases (leb b q)) [
      | inl long ↦ (ground arith, leb→le b q long)
      | inr fits ↦ absurd (cc (rw (e, fits) at h))
    ]
  ]

  raises : 0 < c → b ≤ q → answer b q p c ≡ err invalid_operation
  raises positive too_long =
      let e : (c == 0) ≡ false = ground arith in
      let long : leb b q ≡ true = ground arith in rw (e, long) refl

-- The stored cents are the amount: cents / 100 = coefficient / 10^places.
pub is_money-cents :
    (c k : ℕ)
    → is_money (finite false c k) ≡ ok true
    → (0 < cents (finite false c k))
      × (cents (finite false c k) * 10 ^ k ≡ c * 100)
      × (cents (finite false c k) < 10 ^ precision)
unfolding is_money cents
is_money-cents c k h = admitted (10 ^ precision) (quantize_cents c k) (10 ^ k) c h

half_even_exact :
    (n d q r : ℕ)
    → 0 < d
    → q ≡ n
    → r ≡ 0
    → (if ltb (2 * r) d then q else if ltb d (2 * r) then q + 1 else q + q % 2) ≡ n
half_even_exact n d q r h e z = ground arith

half_even-mul : (n d : ℕ) → 0 < d → half_even (n * d) d ≡ n
half_even-mul n d h =
    half_even_exact n d (n * d / d) (n * d % d) h (mul-div_cancel n h) (mul-mod_left n d)

hundred : (n c p q r : ℕ) → n * p ≡ c * 100 → p ≡ q * 10 → q ≡ r * 10 → c ≡ n * r
hundred n c p q r e f g = omega (arith, ap (λ (t : ℕ). n * t) f, ap (λ (t : ℕ). n * t) g)

pow_ten_pos : (k : ℕ) → 0 < 10 ^ k
pow_ten_pos zero = omega arith
pow_ten_pos (suc k) = rw (pow-suc 10 k) (omega (arith, pow_ten_pos k))

-- A whole number of cents is rounded to itself.
quantize_exact : (n c k : ℕ) → n * 10 ^ k ≡ c * 100 → quantize_cents c k ≡ n
unfolding quantize_cents
quantize_exact n c zero e = omega arith
quantize_exact n c (suc zero) e = omega arith
quantize_exact n c (suc (suc zero)) e = omega arith
quantize_exact n c (suc (suc (suc k))) e =
    let whole = hundred n c _ _ (10 ^ suc k) e (pow-suc 10 (suc (suc k))) (pow-suc 10 (suc k)) in
    let less : suc (suc (suc k)) - 2 ≡ suc k = omega arith in
    let long : ltb 2 (suc (suc (suc k))) ≡ true = ground arith in
    rw (long, less, whole) (half_even-mul n (10 ^ suc k) (pow_ten_pos (suc k)))

some_coefficient : (n p c : ℕ) → 0 < n → 0 < p → n * p ≡ c * 100 → 0 < c
some_coefficient n p zero h g e = grind arith
some_coefficient n p (suc c) h g e = omega arith

is_money_of_whole :
    (n c k : ℕ)
    → 0 < n
    → n * 10 ^ k ≡ c * 100
    → n < 10 ^ precision
    → is_money (finite false c k) ≡ ok true
unfolding is_money
is_money_of_whole n c k h e fits =
    let same : quantize_cents c k ≡ n = quantize_exact n c k e in
    accepted (10 ^ precision) (quantize_cents c k) (10 ^ k) c
      (some_coefficient n (10 ^ k) c h (pow_ten_pos k) e) (rw (same) e) (rw (same) fits)

too_long_iff :
    (c k : ℕ)
    → (is_money (finite false c k) ≡ err invalid_operation)
      ↔ ((0 < c) × (10 ^ precision ≤ quantize_cents c k))
unfolding is_money
too_long_iff c k = (
  refused (10 ^ precision) (quantize_cents c k) (10 ^ k) c,
  λ h. raises (10 ^ precision) (quantize_cents c k) (10 ^ k) c h.0 h.1,
)

-- A finite amount that is not negative is money exactly when it is a positive whole number of cents
-- of at most 28 digits, and those cents are what the books store of it. The test itself raises
-- exactly when the amount is above zero and its rounded cents have more digits.
pub is_money_iff :
    (c k : ℕ)
    → ((is_money (finite false c k) ≡ ok true) ↔ (
        (n : ℕ) × (0 < n)
        × (n * 10 ^ k ≡ c * 100)
        × (n < 10 ^ precision)
        × (cents (finite false c k) ≡ n)))
      × ((is_money (finite false c k) ≡ err invalid_operation)
          ↔ ((0 < c) × (10 ^ precision ≤ quantize_cents c k)))
is_money_iff c k = (
  (
    λ h.
        let (positive, exact, fits) = is_money-cents c k h in
        (cents (finite false c k), positive, exact, fits, refl),
    λ w. is_money_of_whole w.0 c k w.1 w.2 w.3,
  ),
  too_long_iff c k,
)
