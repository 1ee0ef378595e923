-- ===== src/Prelude/Lists.antt =====
-- The query layer's operations on a table held as a list of rows.
use Prim.Native.Nat.{ℕ, suc, ◌+◌}
use mathlib.Core.Path.{◌≡◌, refl, subst}
use mathlib.Core.Bool.{Bool, true, false, ◌||◌}
use mathlib.Core.Option.{Option, none, some, some-injective}
use mathlib.Core.List.{List, [], ◌∷◌, ◌++◌}
use native.Mathlib.Omega.{arith}
use mathlib.Core.Logic.{◌⊎◌, inl, inr}
use shiftlush_api.Prelude.Tests.{if◌then◌else◌, Bool-cases}

module _ {ℓ} {A : Type ℓ} where
  abbrev pub length : List A → ℕ
  length [] = 0
  length (x ∷ xs) = suc (length xs)

  -- `.filter(p)`
  unfoldable pub select : (A → Bool) → List A → List A
  select p [] = []
  select p (x ∷ xs) = let rest = select p xs in if p x then x ∷ rest else rest

  -- `.filter(p).first()`
  unfoldable pub find : (A → Bool) → List A → Option A
  find p [] = none
  find p (x ∷ xs) = if p x then some x else find p xs

  -- `.filter(p).exists()`
  unfoldable pub any : (A → Bool) → List A → Bool
  any p [] = false
  any p (x ∷ xs) = p x || any p xs

  -- `.save()` of the rows that `p` finds, each changed by `f`
  unfoldable pub update : (A → Bool) → (A → A) → List A → List A
  update p f [] = []
  update p f (x ∷ xs) = (if p x then f x else x) ∷ update p f xs

  -- `.save()` of a row read with `.get()`: the first row that `p` finds becomes `y`
  unfoldable pub put : (A → Bool) → A → List A → List A
  put p y [] = []
  put p y (x ∷ xs) = if p x then y ∷ xs else x ∷ put p y xs

  -- `Sum(f)` over the rows that `p` finds, 0 for none
  unfoldable pub sum_where : (A → Bool) → (A → ℕ) → List A → ℕ
  sum_where p f [] = 0
  sum_where p f (x ∷ xs) = (if p x then f x else 0) + sum_where p f xs

  -- Every row satisfies `P`.
  abbrev pub All {κ} : (A → Type κ) → List A → Type κ
  All P [] = Unit
  All P (x ∷ xs) = P x × All P xs

module _ {ℓ} {A : Type ℓ} where
  pub All-append {κ} : (P : A → Type κ) (xs ys : List A) → All P xs → All P ys → All P (xs ++ ys)
  All-append P [] ys _ q = q
  All-append P (x ∷ xs) ys (p, ps) q = (p, All-append P xs ys ps q)

  pub sum_where-append :
      (p : A → Bool) (f : A → ℕ) (xs ys : List A)
      → sum_where p f (xs ++ ys) ≡ sum_where p f xs + sum_where p f ys
  unfolding sum_where
  sum_where-append p f [] ys = omega arith
  sum_where-append p f (x ∷ xs) ys = omega (arith, sum_where-append p f xs ys)

  find_head {κ} :
      (P : A → Type κ) (p : A → Bool) (x a : A)
      → P x
      → p x ≡ true
      → some x ≡ some a
      → P a × (p a ≡ true)
  find_head P p x a px q e =
      let same = some-injective x a e in (subst P same px, subst (λ y. p y ≡ true) same q)

  pub All-find {κ} :
      (P : A → Type κ) (p : A → Bool) (xs : List A) (a : A)
      → All P xs
      → find p xs ≡ some a
      → P a × (p a ≡ true)
  unfolding find
  All-find P p [] a h e = cc
  All-find P p (x ∷ xs) a (px, pxs) e = elim (Bool-cases (p x)) [
    | inl yes_x ↦ find_head P p x a px yes_x (rw yes_x at e)
    | inr no_x ↦ All-find P p xs a pxs (rw no_x at e)
  ]

  pub All-put {κ} :
      (P : A → Type κ) (p : A → Bool) (y : A) (xs : List A) → P y → All P xs → All P (put p y xs)
  unfolding put
  All-put P p y [] h hs = tt
  All-put P p y (x ∷ xs) h (hx, hs) = elim (Bool-cases (p x)) [
    | inl e ↦ rw e (h, hs)
    | inr e ↦ rw e (hx, All-put P p y xs h hs)
  ]

  pub All-update {κ} :
      (P : A → Type κ) (p : A → Bool) (f : A → A) (xs : List A)
      → ((x : A) → P x → P (f x))
      → All P xs
      → All P (update p f xs)
  unfolding update
  All-update P p f [] h hs = tt
  All-update P p f (x ∷ xs) h (hx, hs) = elim (Bool-cases (p x)) [
    | inl e ↦ rw e (h x hx, All-update P p f xs h hs)
    | inr e ↦ rw e (hx, All-update P p f xs h hs)
  ]

  pub All-map {κ} : {P Q : A → Type κ} (xs : List A) → ((x : A) → P x → Q x) → All P xs → All Q xs
  All-map [] h hs = tt
  All-map (x ∷ xs) h (hx, hs) = (h x hx, All-map xs h hs)

module _ {A : Type 0} where
  -- `x` is one of the rows.
  abbrev pub In : A → List A → Type 0
  In x [] = ⊥
  In x (y ∷ ys) = (y ≡ x) ⊎ In x ys

  pub All-In : (xs : List A) → All (λ x. In x xs) xs
  All-In [] = tt
  All-In (x ∷ xs) = (inl refl, All-map xs (λ _ h. inr h) (All-In xs))

  pub All-at {κ} : (P : A → Type κ) (x : A) (xs : List A) → All P xs → In x xs → P x
  All-at P x [] h i = elim i [ ]
  All-at P x (y ∷ ys) (h, hs) (inl e) = subst P e h
  All-at P x (y ∷ ys) (h, hs) (inr i) = All-at P x ys hs i

  pub find-In : (p : A → Bool) (xs : List A) (a : A) → find p xs ≡ some a → In a xs × (p a ≡ true)
  find-In p xs a e = All-find (λ x. In x xs) p xs a (All-In xs) e

  -- Every row of the first list is related to the row at its place in the second, which may have
  -- more rows at its end.
  abbrev pub Extends : (A → A → Type 0) → List A → List A → Type 0
  Extends R [] ys = Unit
  Extends R (x ∷ xs) [] = ⊥
  Extends R (x ∷ xs) (y ∷ ys) = R x y × Extends R xs ys

  pub Extends-refl :
      (R : A → A → Type 0) (xs ys : List A) → ((x : A) → R x x) → Extends R xs (xs ++ ys)
  Extends-refl R [] ys r = tt
  Extends-refl R (x ∷ xs) ys r = (r x, Extends-refl R xs ys r)

  pub Extends-trans :
      (R : A → A → Type 0) (xs ys zs : List A)
      → ((x y z : A) → R x y → R y z → R x z)
      → Extends R xs ys
      → Extends R ys zs
      → Extends R xs zs
  Extends-trans R [] ys zs t p q = tt
  Extends-trans R (x ∷ xs) [] zs t p q = elim p [ ]
  Extends-trans R (x ∷ xs) (y ∷ ys) [] t p q = elim q [ ]
  Extends-trans R (x ∷ xs) (y ∷ ys) (z ∷ zs) t (p, ps) (q, qs) =
      (t x y z p q, Extends-trans R xs ys zs t ps qs)

  -- Where no row is found, nothing is selected and nothing is changed.
  pub select-none : (p : A → Bool) (xs : List A) → All (λ x. p x ≡ false) xs → select p xs ≡ []
  unfolding select
  select-none p [] h = refl
  select-none p (x ∷ xs) (e, h) = rw (e, select-none p xs h)

  pub update-none :
      (p : A → Bool) (f : A → A) (xs : List A) → All (λ x. p x ≡ false) xs → update p f xs ≡ xs
  unfolding update
  update-none p f [] h = refl
  update-none p f (x ∷ xs) (e, h) = rw (e, update-none p f xs h)

  -- No row is found after a change that takes each out of what is looked for.
  pub All-updated :
      (p : A → Bool) (f : A → A) (xs : List A)
      → ((x : A) → p (f x) ≡ false)
      → All (λ x. p x ≡ false) (update p f xs)
  unfolding update
  All-updated p f [] h = tt
  All-updated p f (x ∷ xs) h = elim (Bool-cases (p x)) [
    | inl e ↦ rw e (h x, All-updated p f xs h)
    | inr e ↦ rw e (e, All-updated p f xs h)
  ]
