-- ===== src/Prelude/Sorted.antt =====
-- `.order_by(key)` of a table in order of creation: rows with equal keys stay in that order.
use Prim.Native.Nat.{ℕ}
use mathlib.Core.Path.{◌≡◌, refl}
use mathlib.Core.Bool.{Bool, true, false}
use mathlib.Core.List.{List, [], ◌∷◌}
use mathlib.Core.Logic.{inl, inr}
use native.Mathlib.Omega.{arith}
use shiftlush_api.Prelude.Tests.{leb, ◌==◌, Bool-cases, if◌then◌else◌}
use shiftlush_api.Prelude.Lists.{select, All, In}
use shiftlush_api.Prelude.Keyed.{IsDistinct}

module _ {A : Type 0} (key : A → ℕ) where
  unfoldable pub insert_by : A → List A → List A
  insert_by x [] = x ∷ []
  insert_by x (y ∷ ys) =
      let rest = insert_by x ys in if leb (key x) (key y) then x ∷ y ∷ ys else y ∷ rest

  unfoldable pub order_by : List A → List A
  unfolding insert_by
  order_by [] = []
  order_by (x ∷ xs) = insert_by x (order_by xs)

  pub All-insert_by :
      (P : A → Type 0) (x : A) (xs : List A) → P x → All P xs → All P (insert_by x xs)
  unfolding insert_by
  All-insert_by P x [] p ps = (p, tt)
  All-insert_by P x (y ∷ ys) p (q, qs) = elim (Bool-cases (leb (key x) (key y))) [
    | inl e ↦ rw (e) (p, (q, qs))
    | inr e ↦ rw (e) (q, All-insert_by P x ys p qs)
  ]

  pub All-order_by : (P : A → Type 0) (xs : List A) → All P xs → All P (order_by xs)
  unfolding order_by
  All-order_by P [] h = tt
  All-order_by P (x ∷ xs) (p, ps) = All-insert_by P x _ p (All-order_by P xs ps)

  In-inserted : (x : A) (xs : List A) → In x (insert_by x xs)
  unfolding insert_by
  In-inserted x [] = inl refl
  In-inserted x (y ∷ ys) = elim (Bool-cases (leb (key x) (key y))) [
    | inl e ↦ rw (e) (inl refl)
    | inr e ↦ rw (e) (inr (In-inserted x ys))
  ]

  In-insert_by : (x z : A) (xs : List A) → In z xs → In z (insert_by x xs)
  unfolding insert_by
  In-insert_by x z [] i = elim i [ ]
  In-insert_by x z (y ∷ ys) i = elim (Bool-cases (leb (key x) (key y))) [
    | inl e ↦ rw (e) (inr i)
    | inr e ↦ rw (e) (elim i [ inl at ↦ inl at | inr j ↦ inr (In-insert_by x z ys j) ])
  ]

  pub In-order_by : (z : A) (xs : List A) → In z xs → In z (order_by xs)
  unfolding order_by
  In-order_by z [] i = i
  In-order_by z (x ∷ xs) (inl at) = rw (at) (In-inserted z _)
  In-order_by z (x ∷ xs) (inr i) = In-insert_by x z _ (In-order_by z xs i)

module _ {A : Type 0} (key id : A → ℕ) where
  IsDistinct-insert_by :
      (x : A) (xs : List A)
      → All (λ y. (id y == id x) ≡ false) xs
      → IsDistinct id xs
      → IsDistinct id (insert_by key x xs)
  unfolding insert_by
  IsDistinct-insert_by x [] h d = (tt, tt)
  IsDistinct-insert_by x (y ∷ ys) (h, hs) (d, ds) = elim (Bool-cases (leb (key x) (key y))) [
    | inl e ↦ rw (e) ((h, hs), (d, ds))
    | inr e ↦ rw (e) (
      All-insert_by key (λ z. (id z == id y) ≡ false) x ys (ground arith) d,
      IsDistinct-insert_by x ys hs ds,
    )
  ]

  pub IsDistinct-order_by : (xs : List A) → IsDistinct id xs → IsDistinct id (order_by key xs)
  unfolding order_by
  IsDistinct-order_by [] d = tt
  IsDistinct-order_by (x ∷ xs) (d, ds) =
      IsDistinct-insert_by x (order_by key xs) (All-order_by key _ xs d) (IsDistinct-order_by xs ds)

module _ {A : Type 0} where
  pub All-select : (P : A → Type 0) (p : A → Bool) (xs : List A) → All P xs → All P (select p xs)
  unfolding select
  All-select P p [] h = tt
  All-select P p (x ∷ xs) (h, hs) = elim (Bool-cases (p x)) [
    | inl e ↦ rw (e) (h, All-select P p xs hs)
    | inr e ↦ rw (e) (All-select P p xs hs)
  ]

  -- Every row that is selected has what was asked.
  pub All-selected : (p : A → Bool) (xs : List A) → All (λ x. p x ≡ true) (select p xs)
  unfolding select
  All-selected p [] = tt
  All-selected p (x ∷ xs) = elim (Bool-cases (p x)) [
    | inl e ↦ rw (e) (e, All-selected p xs)
    | inr e ↦ rw (e) (All-selected p xs)
  ]

  pub In-select : (p : A → Bool) (z : A) (xs : List A) → In z xs → p z ≡ true → In z (select p xs)
  unfolding select
  In-select p z [] i e = i
  In-select p z (x ∷ xs) (inl at) e = rw (at) (rw (e) (inl refl))
  In-select p z (x ∷ xs) (inr i) e = elim (Bool-cases (p x)) [
    | inl f ↦ rw (f) (inr (In-select p z xs i e))
    | inr f ↦ rw (f) (In-select p z xs i e)
  ]

  pub IsDistinct-select :
      (id : A → ℕ) (p : A → Bool) (xs : List A) → IsDistinct id xs → IsDistinct id (select p xs)
  unfolding select
  IsDistinct-select id p [] d = tt
  IsDistinct-select id p (x ∷ xs) (d, ds) = elim (Bool-cases (p x)) [
    | inl e ↦ rw (e) (All-select _ p xs d, IsDistinct-select id p xs ds)
    | inr e ↦ rw (e) (IsDistinct-select id p xs ds)
  ]
