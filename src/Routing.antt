-- ===== src/Routing.antt =====
-- apps/maintenance/routing.py: a day's stops in an order that drives little, by straight-line
-- distance.
pub mod Stops
pub mod Permutes
pub mod Suggestion
pub mod Tests
use shiftlush_api.Prelude.{
  ℕ, zero, suc, ◌+◌, ◌-◌, ◌≡◌, Bool, true, false, Option, none, some, List, [], ◌∷◌, ◌++◌, map,
  Text, select, length, is_some, is_none, ltb, min, if◌then◌else◌, ◌==◌, text_eq,
}
use mathlib.Core.List.{filter_map, reverse}
use shiftlush_api.Routing.Stops.{
  Floats, Stop, Route, max_improvement_passes, max_first_stops, range_from, item, pick, pop,
  reverse_stretch, remove, before_of, set_leg,
}

module _ (o : Floats) where
  open o use {Float, literal, add, sub, mul, div, pow, less, sum, sqrt, sin, cos, asin, radians}

  abbrev pub Point : Type 0
  Point = Float × Float

  abbrev pub both : Option Float → Option Float → Option Point
  both (some a) (some b) = some (a, b)
  both _ _ = none

  -- `Stop.point`
  abbrev pub point_of : Stop Float → Option Point
  point_of stop = both stop.latitude stop.longitude

  abbrev pub tolerance : Float
  tolerance = literal 1 9

  abbrev pub at_most_one : Float → Float
  at_most_one x = if less x (literal 1 0) then x else literal 1 0

  unfoldable pub haversine_km : Point → Point → Float
  haversine_km (a0, a1) (b0, b1) =
      let lat1 = radians a0 in
      let lon1 = radians a1 in
      let lat2 = radians b0 in
      let lon2 = radians b1 in
      let h =
        add (pow (sin (div (sub lat2 lat1) (literal 2 0))) 2)
          (mul (mul (cos lat1) (cos lat2)) (pow (sin (div (sub lon2 lon1) (literal 2 0))) 2)) in
      mul (mul (literal 2 0) (literal 63710088 4)) (asin (at_most_one (sqrt h)))

  abbrev pub legs_km : List Point → List Float
  legs_km [] = []
  legs_km (a ∷ []) = []
  legs_km (a ∷ b ∷ points) = haversine_km a b ∷ legs_km (b ∷ points)

  abbrev pub from_start : Option Point → List Point → List Point
  from_start none points = points
  from_start (some start) points = start ∷ points

  unfoldable pub path_km : List Point → Option Point → Float
  path_km points start = sum (legs_km (from_start start points))

  -- The distance of two points; 0.0 where there is no start, and nothing behind the last stop.
  abbrev pub between : Option Point → Option Point → Float
  between (some a) (some b) = haversine_km a b
  between _ _ = literal 0 0

  -- `min(xs, key=...)`, of `best` and `xs`: the first of equals.
  abbrev pub nearest : (ℕ → Float) → ℕ → List ℕ → ℕ
  nearest km best [] = best
  nearest km best (x ∷ xs) = nearest km (if less (km x) (km best) then x else best) xs

  -- `while remaining`, with the number of what remains as fuel.
  abbrev pub walk : ℕ → List Point → Option Point → List ℕ → List ℕ → List ℕ
  walk fuel points here [] order = order
  walk zero points here (x ∷ remaining) order = order
  walk (suc fuel) points here (x ∷ remaining) order =
      let i = nearest (λ j. between here (item points j)) x remaining in
      walk fuel points (item points i) (remove i (x ∷ remaining)) (order ++ i ∷ [])

  abbrev pub first_point : List Point → List ℕ → Option Point
  first_point points [] = none
  first_point points (first ∷ rest) = item points first

  abbrev pub start_at : List Point → Option Point → List ℕ × List ℕ → List ℕ
  start_at points here (order, remaining) = walk (length remaining) points here remaining order

  -- `_nearest_neighbour`
  unfoldable pub nearest_neighbour : List Point → Option ℕ → Option Point → List ℕ
  nearest_neighbour points none start = start_at points start ([], range_from 0 (length points))
  nearest_neighbour points (some first) start =
      let popped = pop first (range_from 0 (length points)) in
      start_at points (first_point points popped.0) popped

  -- `edge` of `_two_opt`
  abbrev pub edge : List Point → Option Point → Option ℕ → Option ℕ → Float
  edge points start a none = literal 0 0
  edge points start none (some b) = between start (item points b)
  edge points start (some a) (some b) = between (item points a) (item points b)

  abbrev pub gain : List Point → Option Point → Option ℕ → ℕ → ℕ → List ℕ → Float
  gain points start before i j best =
      let after = if ltb (j + 1) (length best) then item best (j + 1) else none in
      sub
        (sub (add (edge points start before (item best i)) (edge points start (item best j) after))
          (edge points start before (item best j)))
        (edge points start (item best i) after)

  -- The body of the inner loop, over the order and whether the pass improved it.
  abbrev pub try_reverse :
      List Point → Option Point → Option ℕ → ℕ → ℕ → List ℕ × Bool → List ℕ × Bool
  try_reverse points start before i j (best, improved) =
      if less tolerance (gain points start before i j best)
      then (reverse_stretch i (j + 1 - i) best, true)
      else (best, improved)

  abbrev pub try_ends :
      List Point → Option Point → Option ℕ → ℕ → List ℕ → List ℕ × Bool → List ℕ × Bool
  try_ends points start before i [] pass = pass
  try_ends points start before i (j ∷ js) pass =
      try_ends points start before i js (try_reverse points start before i j pass)

  abbrev pub try_from : List Point → Option Point → ℕ → List ℕ × Bool → List ℕ × Bool
  try_from points start i (best, improved) =
      try_ends points start (before_of i best) i (range_from (i + 1) (length best - (i + 1)))
        (best, improved)

  abbrev pub one_pass : List Point → Option Point → List ℕ → List ℕ × Bool → List ℕ × Bool
  one_pass points start [] pass = pass
  one_pass points start (i ∷ is) pass = one_pass points start is (try_from points start i pass)

  -- The passes, until one improves nothing.
  abbrev pub passes : ℕ → List Point → Option Point → List ℕ → List ℕ
  passes zero points start best = best
  passes (suc n) points start best =
      let pass = one_pass points start (range_from 0 (length best - 1)) (best, false) in
      let rest = passes n points start pass.0 in if pass.1 then rest else pass.0

  -- `_two_opt`
  unfoldable pub two_opt : List ℕ → List Point → Option Point → List ℕ
  two_opt order points start = passes max_improvement_passes points start order

  abbrev pub firsts : Option Point → ℕ → List (Option ℕ)
  firsts (some start) n = none ∷ []
  firsts none n = map some (range_from 0 (min n max_first_stops))

  abbrev pub try_first : List Point → Option Point → Option ℕ → List ℕ × Float → List ℕ × Float
  try_first points start first (best, best_km) =
      let order = two_opt (nearest_neighbour points first start) points start in
      let km = path_km (pick points order) start in
      if less km (sub best_km tolerance) then (order, km) else (best, best_km)

  abbrev pub try_all : List Point → Option Point → List (Option ℕ) → List ℕ × Float → List ℕ × Float
  try_all points start [] best = best
  try_all points start (first ∷ rest) best =
      try_all points start rest (try_first points start first best)

  -- The order of the placed stops and its length.
  unfoldable pub best_order : List Point → Option Point → List ℕ × Float
  best_order points start =
      let given : List ℕ × Float = (range_from 0 (length points), path_km points start) in
      if ltb 1 (length points)
      then try_all points start (firsts start (length points)) given
      else given

  abbrev pub leg_km : Option Point → Option Point → Option Float
  leg_km (some a) (some b) = some (haversine_km a b)
  leg_km _ _ = none

  abbrev pub legs_of :
      Option Point → List (Stop Float) → List (Text × Option Float) → List (Text × Option Float)
  legs_of previous [] legs = legs
  legs_of previous (stop ∷ stops) legs =
      legs_of (point_of stop) stops (set_leg stop.id (leg_km previous (point_of stop)) legs)

  abbrev pub no_legs : List Text → List (Text × Option Float) → List (Text × Option Float)
  no_legs [] legs = legs
  no_legs (id ∷ ids) legs = no_legs ids (set_leg id none legs)

  unfoldable pub plan_route : List (Stop Float) → Option Point → Route Float
  plan_route stops start =
      let placed = select (λ stop. is_some (point_of stop)) stops in
      let unplaced = map (λ stop. stop.id) (select (λ stop. is_none (point_of stop)) stops) in
      let points = filter_map point_of placed in
      let best = best_order points start in
      record {
        order = map (λ stop. stop.id) (pick placed best.0) ++ unplaced;
        total_km = best.1;
        legs = no_legs unplaced (legs_of start (pick placed best.0) []);
        unplaced = unplaced;
      }
