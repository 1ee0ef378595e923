-- ===== src/Routing/Permutes.antt =====
-- apps/maintenance/routing.py: the orders that it tries.
use shiftlush_api.Prelude.{
  ℕ, zero, suc, ◌+◌, ◌-◌, ◌≡◌, ◌≤◌, refl, ap, sym, ◌∙◌, Bool, false, Option, none, some, List, [],
  ◌∷◌, ◌++◌, length, if◌then◌else◌, ◌==◌, In, inl, inr, Bool-cases, arith,
}
use mathlib.Core.List.{Perm, reverse_perm, append_assoc, append-nil, perm_middle}
use mathlib.Core.List.Perm
use mathlib.Core.Path.{subst}
use shiftlush_api.Routing.Stops.{
  Floats, taken, left, reverse_stretch, pop, remove, range_from, item, before_of,
  max_improvement_passes,
}
use shiftlush_api.Routing.{
  Point, nearest, walk, first_point, nearest_neighbour, gain, tolerance, try_reverse, try_ends,
  try_from, one_pass, passes, two_opt, between,
}

module _ {A : Type 0} where
  equal-perm : {xs ys : List A} → xs ≡ ys → Perm xs ys
  equal-perm {xs} e = subst (λ zs. Perm xs zs) e (Perm.refl xs)

  taken-left : (n : ℕ) (xs : List A) → taken n xs ++ left n xs ≡ xs
  taken-left zero xs = refl
  taken-left (suc n) [] = refl
  taken-left (suc n) (x ∷ xs) = ap (◌∷◌ x) (taken-left n xs)

  reverse_stretch-perm : (n k : ℕ) (xs : List A) → Perm (reverse_stretch n k xs) xs
  reverse_stretch-perm n k xs =
      let turned : Perm (reverse_stretch n k xs) (taken n xs ++ left n xs) =
        Perm.append_left (taken n xs) (
          Perm.trans (Perm.append_right (left k (left n xs)) (reverse_perm (taken k (left n xs))))
            (equal-perm (taken-left k (left n xs)))) in
      Perm.trans turned (equal-perm (taken-left n xs))

  pop-perm : (i : ℕ) (xs : List A) → Perm ((pop i xs).0 ++ (pop i xs).1) xs
  pop-perm i [] = Perm.rfl
  pop-perm zero (x ∷ xs) = Perm.rfl
  pop-perm (suc i) (x ∷ xs) =
      Perm.trans (perm_middle (pop i xs).0 (pop i xs).1) (Perm.cons x (pop-perm i xs))

remove-perm : (x : ℕ) (xs : List ℕ) → In x xs → Perm (x ∷ remove x xs) xs
remove-perm x [] i = elim i [ ]
remove-perm x (y ∷ ys) i = elim (Bool-cases (x == y)) [
  | inl e ↦ rw (e) (equal-perm (ap (λ z. z ∷ ys) (ground arith)))
  | inr e ↦ elim i [
    | inl f ↦ absurd (ground arith)
    | inr j ↦ rw (e) (Perm.trans (Perm.swap y x (remove x ys)) (Perm.cons y (remove-perm x ys j)))
  ]
]

length-remove : (x : ℕ) (xs : List ℕ) → In x xs → suc (length (remove x xs)) ≡ length xs
length-remove x [] i = elim i [ ]
length-remove x (y ∷ ys) i = elim (Bool-cases (x == y)) [
  | inl e ↦ rw (e) refl
  | inr e ↦ elim i [
    | inl f ↦ absurd (ground arith)
    | inr j ↦ rw (e) (ap suc (length-remove x ys j))
  ]
]

module _ (o : Floats) where
  nearest-In : (km : ℕ → o.Float) (best : ℕ) (xs : List ℕ) → In (nearest o km best xs) (best ∷ xs)
  nearest-In km best [] = inl refl
  nearest-In km best (x ∷ xs) =
      let chosen : ℕ = if o.less (km x) (km best) then x else best in
      elim (nearest-In km chosen xs) [
        | inl f ↦ elim (Bool-cases (o.less (km x) (km best))) [
          | inl e ↦ let same : x ≡ chosen = rw (e) refl in inr (inl (same ∙ f))
          | inr e ↦ let same : best ≡ chosen = rw (e) refl in inl (same ∙ f)
        ]
        | inr j ↦ inr (inr j)
      ]

  walk-perm :
      (fuel : ℕ) (points : List (Point o)) (here : Option (Point o)) (remaining order : List ℕ)
      → length remaining ≤ fuel
      → Perm (walk o fuel points here remaining order) (order ++ remaining)
  walk-perm fuel points here [] order h = equal-perm (sym (append-nil order))
  walk-perm zero points here (x ∷ remaining) order h = absurd (omega arith)
  walk-perm (suc fuel) points here (x ∷ remaining) order h =
      let i : ℕ = nearest o (λ j. between o here (item points j)) x remaining in
      let there : In i (x ∷ remaining) =
        nearest-In (λ j. between o here (item points j)) x remaining in
      let fewer : suc (length (remove i (x ∷ remaining))) ≡ suc (length remaining) =
        length-remove i (x ∷ remaining) there in
      Perm.trans
        (walk-perm fuel points (item points i) (remove i (x ∷ remaining)) (order ++ i ∷ [])
          (omega arith))
        (Perm.trans (equal-perm (append_assoc order (i ∷ []) (remove i (x ∷ remaining))))
          (Perm.append_left order (remove-perm i (x ∷ remaining) there)))

  nearest_neighbour-perm :
      (points : List (Point o)) (first : Option ℕ) (start : Option (Point o))
      → Perm (nearest_neighbour o points first start) (range_from 0 (length points))
  unfolding nearest_neighbour
  nearest_neighbour-perm points none start =
      walk-perm (length (range_from 0 (length points))) points start (range_from 0 (length points))
        [] (omega arith)
  nearest_neighbour-perm points (some first) start =
      let popped : List ℕ × List ℕ = pop first (range_from 0 (length points)) in
      Perm.trans
        (walk-perm (length popped.1) points (first_point o points popped.0) popped.1 popped.0
          (omega arith))
        (pop-perm first (range_from 0 (length points)))

  module _ (points : List (Point o)) (start : Option (Point o)) where
    try_reverse-perm :
        (before : Option ℕ) (i j : ℕ) (pass : List ℕ × Bool)
        → Perm (try_reverse o points start before i j pass).0 pass.0
    try_reverse-perm before i j (best, improved) =
        elim (Bool-cases (o.less (tolerance o) (gain o points start before i j best))) [
          | inl e ↦ rw (e) (reverse_stretch-perm i (j + 1 - i) best)
          | inr e ↦ rw (e) Perm.rfl
        ]

    try_ends-perm :
        (before : Option ℕ) (i : ℕ) (js : List ℕ) (pass : List ℕ × Bool)
        → Perm (try_ends o points start before i js pass).0 pass.0
    try_ends-perm before i [] pass = Perm.rfl
    try_ends-perm before i (j ∷ js) pass =
        Perm.trans (try_ends-perm before i js (try_reverse o points start before i j pass))
          (try_reverse-perm before i j pass)

    one_pass-perm :
        (is : List ℕ) (pass : List ℕ × Bool) → Perm (one_pass o points start is pass).0 pass.0
    one_pass-perm [] pass = Perm.rfl
    one_pass-perm (i ∷ is) (best, improved) =
        Perm.trans (one_pass-perm is (try_from o points start i (best, improved))) (
          try_ends-perm (before_of i best) i (range_from (i + 1) (length best - (i + 1)))
            (best, improved))

    passes-perm : (n : ℕ) (best : List ℕ) → Perm (passes o n points start best) best
    passes-perm zero best = Perm.rfl
    passes-perm (suc n) best =
        let pass : List ℕ × Bool =
          one_pass o points start (range_from 0 (length best - 1)) (best, false) in
        let once : Perm pass.0 best =
          one_pass-perm (range_from 0 (length best - 1)) (best, false) in
        elim (Bool-cases pass.1) [
          | inl e ↦ rw (e) (Perm.trans (passes-perm n pass.0) once)
          | inr e ↦ rw (e) once
        ]

    pub two_opt-perm : (order : List ℕ) → Perm (two_opt o order points start) order
    unfolding two_opt
    two_opt-perm order = passes-perm max_improvement_passes order

  pub tried-perm :
      (points : List (Point o)) (first : Option ℕ) (start : Option (Point o))
      → Perm
          (two_opt o (nearest_neighbour o points first start) points start)
          (range_from 0 (length points))
  tried-perm points first start =
      Perm.trans (two_opt-perm points start (nearest_neighbour o points first start))
        (nearest_neighbour-perm points first start)
