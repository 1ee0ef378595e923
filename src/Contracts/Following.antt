-- ===== src/Contracts/Following.antt =====
-- apps/contracts/services.py: what `next_term` makes of a term.
use shiftlush_api.Prelude.{
  ℕ, ◌+◌, ◌-◌, ◌≤◌, ◌<◌, ◌≡◌, refl, inl, inr, true, ◌&&◌, ltb, ltb→lt, ◌==◌, ==_iff, Bool-cases,
  arith,
}
use shiftlush_api.Calendar.{Date, from_ordinal, to_ordinal}
use shiftlush_api.Calendar.Months.{
  IsDay, add_months, add_months-IsDay, add_months-index, add_months-after, to_ordinal-pos,
}
use shiftlush_api.Calendar.RoundTrip.{to_ordinal-from_ordinal, from_ordinal-IsDay}
use shiftlush_api.Calendar.Order.{from_ordinal-to_ordinal}
use shiftlush_api.Contracts.Terms.{next_term, term_from, months_to}

-- The tests of `term_from`, for a term of `m` months that ends on the day of the month it began.
whole_months :
    (d : Date)
    → IsDay d
    → (m : ℕ) → 1 ≤ m
    → (add_months d m).day ≡ d.day
    → (length : ℕ)
    → term_from d (add_months d m) (to_ordinal (add_months d m)) length
      ≡ (to_ordinal (add_months d m), to_ordinal (add_months (add_months d m) m) - 1)
unfolding term_from
whole_months d v m low same length =
    let count : months_to (add_months d m) - months_to d ≡ m =
      omega (arith, add_months-index d v m) in
    let positive : ltb 0 m ≡ true = ground arith in
    let here = (==_iff _ _).1 same in
    let there = (==_iff (to_ordinal (add_months d m)) _).1 refl in
    rw (count, positive, here, there) refl

-- A term of `m` whole months is followed by `m` whole months, whatever days they have. The
-- months are whole where the day after the term has the number, in its month, of the first day.
pub next_term-months :
    (start m : ℕ)
    → 1 ≤ m
    → (add_months (from_ordinal start) m).day ≡ (from_ordinal start).day
    → let new_start = to_ordinal (add_months (from_ordinal start) m) in
      next_term start (new_start - 1)
      ≡ (new_start, to_ordinal (add_months (from_ordinal new_start) m) - 1)
unfolding next_term
next_term-months start m low same =
    let first = from_ordinal start in
    let v = from_ordinal-IsDay start in
    let w = add_months-IsDay first v m in
    let back : to_ordinal (add_months first m) - 1 + 1 ≡ to_ordinal (add_months first m) =
      omega (arith, to_ordinal-pos (add_months first m) w) in
    let day = from_ordinal-to_ordinal (add_months first m) w in
    rw (back, day) (whole_months first v m low same _)

term_from-follows :
    (first next : Date) (length : ℕ)
    → IsDay next
    → 1 ≤ length
    → let term = term_from first next (to_ordinal next) length in
      (term.0 ≡ to_ordinal next) × (term.0 < term.1)
unfolding term_from
term_from-follows first next length v long =
    let months = months_to next - months_to first in
    elim (Bool-cases (ltb 0 months)) [
      | inl positive ↦
          elim (Bool-cases
            (next.day == first.day && to_ordinal (add_months first months) == to_ordinal next)) [
              | inl e ↦
                  let later = add_months-after next v months (ltb→lt _ _ positive) in
                  rw (positive, e) (refl, omega arith)
              | inr e ↦ rw (positive, e) (refl, omega arith)
            ]
      | inr e ↦ rw (e) (refl, omega arith)
    ]

-- The next term starts the day after the term, and ends after it starts, so that `renew` does not
-- refuse it for its dates.
pub next_term-follows :
    (start end : ℕ)
    → start < end
    → ((next_term start end).0 ≡ end + 1) × ((next_term start end).0 < (next_term start end).1)
unfolding next_term
next_term-follows start end order =
    let there = to_ordinal-from_ordinal (end + 1) (omega arith) in
    rw (there) at (
      term_from-follows (from_ordinal start) (from_ordinal (end + 1)) (end - start)
        (from_ordinal-IsDay (end + 1)) (omega arith))
