-- ===== src/Prelude/Queries.antt =====
-- What `any`, `select` and `update` find in a table that a query has changed.
use mathlib.Core.Path.{◌≡◌, refl, ap}
use mathlib.Core.Bool.{Bool, true, false, not}
use mathlib.Core.List.{List, [], ◌∷◌, ◌++◌}
use mathlib.Core.Logic.{inl, inr}
use native.Mathlib.Omega.{arith}
use shiftlush_api.Prelude.Tests.{Bool-cases}
use shiftlush_api.Prelude.Lists.{any, select, update, In}

module _ {A : Type 0} (c : A → Bool) where
  pub any-append :
      (ks : List A) (k : A) → any c ks ≡ false → c k ≡ false → any c (ks ++ (k ∷ [])) ≡ false
  unfolding any
  any-append [] k h off = rw (off) refl
  any-append (x ∷ ks) k h off =
      let head : c x ≡ false = ground arith in
      let rest : any c ks ≡ false = ground arith in rw (head) (any-append ks k rest off)

  pub any-update :
      (p : A → Bool) (g : A → A) (ks : List A)
      → ((x : A) → p x ≡ true → c x ≡ false → c (g x) ≡ false)
      → any c ks ≡ false
      → any c (update p g ks) ≡ false
  unfolding any update
  any-update p g [] keeps h = refl
  any-update p g (x ∷ ks) keeps h =
      let head : c x ≡ false = ground arith in
      let rest : any c ks ≡ false = ground arith in
      elim (Bool-cases (p x)) [
        | inl e ↦ rw (e) (rw (keeps x e head) (any-update p g ks keeps rest))
        | inr e ↦ rw (e) (rw (head) (any-update p g ks keeps rest))
      ]

  pub any-select : (p : A → Bool) (ks : List A) → any c ks ≡ false → any c (select p ks) ≡ false
  unfolding any select
  any-select p [] h = refl
  any-select p (x ∷ ks) h =
      let head : c x ≡ false = ground arith in
      let rest : any c ks ≡ false = ground arith in
      elim (Bool-cases (p x)) [
        | inl e ↦ rw (e) (rw (head) (any-select p ks rest))
        | inr e ↦ rw (e) (any-select p ks rest)
      ]

  pub update-unfound : (g : A → A) (ks : List A) → any c ks ≡ false → update c g ks ≡ ks
  unfolding any update
  update-unfound g [] h = refl
  update-unfound g (x ∷ ks) h =
      let head : c x ≡ false = ground arith in
      let rest : any c ks ≡ false = ground arith in
      rw (head) (ap (λ xs. x ∷ xs) (update-unfound g ks rest))

  pub select-unfound : (ks : List A) → any c ks ≡ false → select (λ k. not (c k)) ks ≡ ks
  unfolding any select
  select-unfound [] h = refl
  select-unfound (x ∷ ks) h =
      let head : c x ≡ false = ground arith in
      let rest : any c ks ≡ false = ground arith in
      rw (head) (ap (λ xs. x ∷ xs) (select-unfound ks rest))

  pub any-weaker :
      (d : A → Bool) (ks : List A)
      → ((x : A) → c x ≡ false → d x ≡ false)
      → any c ks ≡ false
      → any d ks ≡ false
  unfolding any
  any-weaker d [] weaker h = refl
  any-weaker d (x ∷ ks) weaker h =
      let head : c x ≡ false = ground arith in
      let rest : any c ks ≡ false = ground arith in rw (weaker x head) (any-weaker d ks weaker rest)

  pub any-changed :
      (d p : A → Bool) (g : A → A) (ks : List A)
      → ((x : A) → c x ≡ false → p x ≡ true → d (g x) ≡ false)
      → ((x : A) → c x ≡ false → p x ≡ false → d x ≡ false)
      → any c ks ≡ false
      → any d (update p g ks) ≡ false
  unfolding any update
  any-changed d p g [] hit miss h = refl
  any-changed d p g (x ∷ ks) hit miss h =
      let head : c x ≡ false = ground arith in
      let rest : any c ks ≡ false = ground arith in
      elim (Bool-cases (p x)) [
        | inl e ↦ rw (e) (rw (hit x head e) (any-changed d p g ks hit miss rest))
        | inr e ↦ rw (e) (rw (miss x head e) (any-changed d p g ks hit miss rest))
      ]

  pub any_appended : (xs ys : List A) → any c xs ≡ true → any c (xs ++ ys) ≡ true
  unfolding any
  any_appended [] ys h = cc
  any_appended (x ∷ xs) ys h = elim (Bool-cases (c x)) [
    | inl e ↦ rw (e) refl
    | inr e ↦ rw (e) (any_appended xs ys (rw (e) at h))
  ]

  pub any_last : (xs : List A) (y : A) → c y ≡ true → any c (xs ++ (y ∷ [])) ≡ true
  unfolding any
  any_last [] y h = rw (h) refl
  any_last (x ∷ xs) y h = elim (Bool-cases (c x)) [
    | inl e ↦ rw (e) refl
    | inr e ↦ rw (e) (any_last xs y h)
  ]

  pub any_updated :
      (p : A → Bool) (g : A → A) (xs : List A)
      → ((x : A) → c x ≡ true → c (g x) ≡ true)
      → any c xs ≡ true
      → any c (update p g xs) ≡ true
  unfolding any update
  any_updated p g [] keeps h = h
  any_updated p g (x ∷ xs) keeps h = elim (Bool-cases (c x)) [
    | inl e ↦ elim (Bool-cases (p x)) [
      | inl f ↦ rw (f) (rw (keeps x e) refl)
      | inr f ↦ rw (f) (rw (e) refl)
    ]
    | inr e ↦ let rest = any_updated p g xs keeps (rw (e) at h) in rw (rest) (ground arith)
  ]

  pub any-In : (x : A) (xs : List A) → In x xs → c x ≡ true → any c xs ≡ true
  unfolding any
  any-In x [] i h = elim i [ ]
  any-In x (y ∷ ys) (inl at) h = rw (at) (rw (h) refl)
  any-In x (y ∷ ys) (inr i) h = rw (any-In x ys i h) (ground arith)

  pub any_found : (xs : List A) → any c xs ≡ true → (x : A) × In x xs × (c x ≡ true)
  unfolding any
  any_found [] h = cc
  any_found (x ∷ xs) h = elim (Bool-cases (c x)) [
    | inl e ↦ (x, inl refl, e)
    | inr e ↦ let rest = any_found xs (rw (e) at h) in (rest.0, inr rest.1, rest.2)
  ]
