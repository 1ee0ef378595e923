-- ===== src/Prelude/Keyed.antt =====
-- Tables whose rows are told apart by a key.
use Prim.Native.Nat.{ℕ, ◌<◌}
use mathlib.Core.Path.{◌≡◌, sym, ap, ◌∙◌, subst}
use mathlib.Core.Bool.{Bool, true, false}
use mathlib.Core.List.{List, [], ◌∷◌, ◌++◌}
use mathlib.Core.Logic.{inl, inr}
use native.Mathlib.Omega.{arith}
use shiftlush_api.Prelude.Tests.{◌==◌, ==_iff, Bool-cases, true_and_false}
use shiftlush_api.Prelude.Lists.{update, All, All-append, In}

-- No two rows have the same key.
module _ {A : Type 0} (key : A → ℕ) where
  abbrev pub IsDistinct : List A → Type 0
  IsDistinct [] = Unit {0}
  IsDistinct (x ∷ xs) = All (λ y. (key y == key x) ≡ false) xs × IsDistinct xs

  All-apart :
      (x : A) (xs : List A)
      → All (λ y. (key y == key x) ≡ false) xs
      → (y : A) → In y xs
      → key y ≡ key x
      → y ≡ x
  All-apart x [] h y i e = elim i [ ]
  All-apart x (z ∷ xs) (h, hs) y (inl at) e = true_and_false ((==_iff _ _).1 (ap key at ∙ e)) h
  All-apart x (z ∷ xs) (h, hs) y (inr i) e = All-apart x xs hs y i e

  pub IsDistinct-same :
      (xs : List A) → IsDistinct xs → (x y : A) → In x xs → In y xs → key x ≡ key y → x ≡ y
  IsDistinct-same [] h x y i j e = elim i [ ]
  IsDistinct-same (z ∷ xs) (h, hs) x y (inl at) (inl there) e = sym at ∙ there
  IsDistinct-same (z ∷ xs) (h, hs) x y (inl at) (inr j) e =
      sym at ∙ sym (All-apart z xs h y j (sym e ∙ sym (ap key at)))
  IsDistinct-same (z ∷ xs) (h, hs) x y (inr i) (inl there) e =
      All-apart z xs h x i (e ∙ sym (ap key there)) ∙ there
  IsDistinct-same (z ∷ xs) (h, hs) x y (inr i) (inr j) e = IsDistinct-same xs hs x y i j e

  apart-update :
      (p : A → Bool) (g : A → A) (k : ℕ) (xs : List A)
      → ((x : A) → p x ≡ true → key (g x) ≡ key x)
      → All (λ y. (key y == k) ≡ false) xs
      → All (λ y. (key y == k) ≡ false) (update p g xs)
  unfolding update
  apart-update p g k [] same h = tt
  apart-update p g k (x ∷ xs) same (h, hs) = elim (Bool-cases (p x)) [
    | inl e ↦
        rw (e) (subst (λ n. (n == k) ≡ false) (sym (same x e)) h, apart-update p g k xs same hs)
    | inr e ↦ rw (e) (h, apart-update p g k xs same hs)
  ]

  pub IsDistinct-update :
      (p : A → Bool) (g : A → A) (xs : List A)
      → ((x : A) → p x ≡ true → key (g x) ≡ key x)
      → IsDistinct xs
      → IsDistinct (update p g xs)
  unfolding update
  IsDistinct-update p g [] same h = tt
  IsDistinct-update p g (x ∷ xs) same (h, hs) = elim (Bool-cases (p x)) [
    | inl e ↦ rw (e) (
      subst (λ n. All (λ y. (key y == n) ≡ false) (update p g xs)) (sym (same x e))
          (apart-update p g (key x) xs same h),
      IsDistinct-update p g xs same hs,
    )
    | inr e ↦ rw (e) (apart-update p g (key x) xs same h, IsDistinct-update p g xs same hs)
  ]

  -- A row with a key above those of the others.
  pub IsDistinct-append :
      (x : A) (xs : List A)
      → All (λ y. key y < key x) xs
      → IsDistinct xs
      → IsDistinct (xs ++ (x ∷ []))
  IsDistinct-append x [] h d = (tt, tt)
  IsDistinct-append x (y ∷ ys) (h, hs) (d, ds) =
      (All-append _ ys (x ∷ []) d (ground arith, tt), IsDistinct-append x ys hs ds)
