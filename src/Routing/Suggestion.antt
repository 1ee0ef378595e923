-- ===== src/Routing/Suggestion.antt =====
-- apps/maintenance/routing.py: what `plan_route` promises of the order that it suggests.
use shiftlush_api.Prelude.{
  ℕ, zero, suc, ◌≡◌, refl, ap, sym, ◌∙◌, fun_ext, true, false, Option, List, [], ◌∷◌, ◌++◌, map,
  select, length, ltb, is_some, is_none, All, ◌⊎◌, inl, inr, Bool-cases, Option-cases,
  true_and_false, All-selected,
}
use mathlib.Core.List.{
  Perm, filter_map, filter_map-filter_map, filter_map-cons-some, filter_map-cons-none,
}
use mathlib.Core.List.Perm
use mathlib.Core.Option.{bind}
use mathlib.Core.Path.{subst}
use shiftlush_api.Routing.Stops.{Floats, Stop, Route, range_from, item, pick}
use shiftlush_api.Routing.{
  Point, point_of, path_km, tolerance, two_opt, nearest_neighbour, firsts, try_first, try_all,
  best_order, plan_route,
}
use shiftlush_api.Routing.Permutes.{tried-perm}

module _ {A : Type 0} where
  item-shifted :
      (x : A) (xs : List A) (k n : ℕ)
      → pick (x ∷ xs) (range_from (suc k) n) ≡ pick xs (range_from k n)
  unfolding filter_map
  item-shifted x xs k zero = refl
  item-shifted x xs k (suc n) = elim (Option-cases (item xs k)) [
    | inl e ↦
        filter_map-cons-none (item (x ∷ xs)) (suc k) (range_from (suc (suc k)) n) e
        ∙ item-shifted x xs (suc k) n
        ∙ sym (filter_map-cons-none (item xs) k (range_from (suc k) n) e)
    | inr (y, e) ↦
        filter_map-cons-some (item (x ∷ xs)) (suc k) (range_from (suc (suc k)) n) e
        ∙ ap (◌∷◌ y) (item-shifted x xs (suc k) n)
        ∙ sym (filter_map-cons-some (item xs) k (range_from (suc k) n) e)
  ]

  pick-all : (xs : List A) → pick xs (range_from 0 (length xs)) ≡ xs
  unfolding filter_map
  pick-all [] = refl
  pick-all (x ∷ xs) = ap (◌∷◌ x) (item-shifted x xs 0 (length xs) ∙ pick-all xs)

  pick-perm :
      (xs : List A) (is : List ℕ) → Perm is (range_from 0 (length xs)) → Perm (pick xs is) xs
  pick-perm xs is p = subst (λ ys. Perm (pick xs is) ys) (pick-all xs) (Perm.filter_map (item xs) p)

module _ {A B : Type 0} (f : A → Option B) where
  item-filter_map :
      (xs : List A) (i : ℕ)
      → All (λ x. is_some (f x) ≡ true) xs
      → bind (item xs i) f ≡ item (filter_map f xs) i
  unfolding bind filter_map
  item-filter_map [] i h = refl
  item-filter_map (x ∷ xs) zero (h, hs) = elim (Option-cases (f x)) [
    | inl e ↦ absurd (true_and_false h (rw (e) refl))
    | inr (y, e) ↦ rw (filter_map-cons-some f x xs e) e
  ]
  item-filter_map (x ∷ xs) (suc i) (h, hs) = elim (Option-cases (f x)) [
    | inl e ↦ absurd (true_and_false h (rw (e) refl))
    | inr (y, e) ↦ rw (filter_map-cons-some f x xs e) (item-filter_map xs i hs)
  ]

  pick-filter_map :
      (xs : List A) (is : List ℕ)
      → All (λ x. is_some (f x) ≡ true) xs
      → filter_map f (pick xs is) ≡ pick (filter_map f xs) is
  pick-filter_map xs is h =
      filter_map-filter_map (item xs) f is
      ∙ ap (λ g. filter_map g is) (fun_ext (λ i. item-filter_map xs i h))

  length-filter_map :
      (xs : List A) → All (λ x. is_some (f x) ≡ true) xs → length (filter_map f xs) ≡ length xs
  unfolding filter_map
  length-filter_map [] h = refl
  length-filter_map (x ∷ xs) (h, hs) = elim (Option-cases (f x)) [
    | inl e ↦ absurd (true_and_false h (rw (e) refl))
    | inr (y, e) ↦ rw (filter_map-cons-some f x xs e) (ap suc (length-filter_map xs hs))
  ]

module _ (o : Floats) where
  open o use {Float, less}

  abbrev pub placed : List (Stop Float) → List (Stop Float)
  placed stops = select (λ stop. is_some (point_of o stop)) stops

  -- The order of `best` is an order of the placed stops; the stops with no position follow, and its
  -- length is no more than that of the order given.
  pub record IsSuggestion (stops : List (Stop Float)) (start : Option (Point o))
      (route : Route Float) : Type 0 where
    pub best : List (Stop Float)
    pub permutes : Perm best (placed stops)
    pub ordered :
        route.order
        ≡ map (λ stop. stop.id) best
          ++ map (λ stop. stop.id) (select (λ stop. is_none (point_of o stop)) stops)
    pub measured : route.total_km ≡ path_km o (filter_map (point_of o) best) start
    pub no_longer :
        less (path_km o (filter_map (point_of o) (placed stops)) start) route.total_km ≡ false

  record IsTried (points : List (Point o)) (start : Option (Point o)) (best : List ℕ × Float)
      : Type 0 where
    permutes : Perm best.0 (range_from 0 (length points))
    measured : best.1 ≡ path_km o (pick points best.0) start
    no_longer : (best.1 ≡ path_km o points start) ⊎ (less best.1 (path_km o points start) ≡ true)

  less_irrefl : (a : Float) → less a a ≡ false
  less_irrefl a = elim (Bool-cases (less a a)) [ inl e ↦ o.less_asym a a e | inr e ↦ e ]

  shorter_trans : (a b c : Float) → less a b ≡ true → (b ≡ c) ⊎ (less b c ≡ true) → less a c ≡ true
  shorter_trans a b c h (inl e) = rw (sym e) h
  shorter_trans a b c h (inr e) = o.less_trans a b c h e

  module _ (points : List (Point o)) (start : Option (Point o)) where
    try_first-IsTried :
        (first : Option ℕ) (best : List ℕ × Float)
        → IsTried points start best
        → IsTried points start (try_first o points start first best)
    try_first-IsTried first (best, best_km) h =
        let order : List ℕ = two_opt o (nearest_neighbour o points first start) points start in
        let km : Float = path_km o (pick points order) start in
        elim (Bool-cases (less km (o.sub best_km (tolerance o)))) [
          | inl e ↦ rw (e) (record {
            permutes = tried-perm o points first start;
            measured = refl;
            no_longer = inr (
                shorter_trans km best_km (path_km o points start) (o.less_sub km best_km e)
                  h.no_longer);
          })
          | inr e ↦ rw (e) h
        ]

    try_all-IsTried :
        (fs : List (Option ℕ)) (best : List ℕ × Float)
        → IsTried points start best
        → IsTried points start (try_all o points start fs best)
    try_all-IsTried [] best h = h
    try_all-IsTried (f ∷ fs) best h =
        try_all-IsTried fs (try_first o points start f best) (try_first-IsTried f best h)

    best_order-IsTried : IsTried points start (best_order o points start)
    unfolding best_order
    best_order-IsTried =
        let given : IsTried points start (range_from 0 (length points), path_km o points start) =
          record {
            permutes = Perm.rfl;
            measured = ap (λ ps. path_km o ps start) (sym (pick-all points));
            no_longer = inl refl;
          } in
        elim (Bool-cases (ltb 1 (length points))) [
          | inl e ↦ rw (e) (
              try_all-IsTried (firsts o start (length points))
                (range_from 0 (length points), path_km o points start) given)
          | inr e ↦ rw (e) given
        ]

  -- The route's order is an order of all the stops with a position, the others behind them, and
  -- its length is what driving those stops in that order measures, never longer than the order
  -- given: whatever the floats' arithmetic, where their comparison is transitive and asymmetric and
  -- taking 1e-9 away makes no number larger.
  pub plan_route-IsSuggestion :
      (stops : List (Stop Float)) (start : Option (Point o))
      → IsSuggestion stops start (plan_route o stops start)
  unfolding plan_route
  plan_route-IsSuggestion stops start =
      let found : List (Stop Float) = placed stops in
      let all_have_one : All (λ stop. is_some (point_of o stop) ≡ true) found =
        All-selected (λ stop. is_some (point_of o stop)) stops in
      let points : List (Point o) = filter_map (point_of o) found in
      let best : List ℕ × Float = best_order o points start in
      let tried : IsTried points start best = best_order-IsTried points start in
      record {
        best = pick found best.0;
        permutes = pick-perm found best.0 (
            subst (λ n. Perm best.0 (range_from 0 n))
              (length-filter_map (point_of o) found all_have_one) tried.permutes);
        ordered = refl;
        measured =
            tried.measured
            ∙ ap (λ ps. path_km o ps start)
                (sym (pick-filter_map (point_of o) found best.0 all_have_one));
        no_longer = elim tried.no_longer [
          | inl e ↦ rw (e) (less_irrefl (path_km o points start))
          | inr e ↦ o.less_asym best.1 (path_km o points start) e
        ];
      }
