-- ===== src/Routing/Tests.antt =====
-- apps/maintenance/routing.py with numbers of millionths that stop at 0 for the floats: only the
-- way up costs.
use shiftlush_api.Prelude.{
  select, ℕ, zero, suc, ◌+◌, ◌-◌, ◌*◌, ◌/◌, ◌^◌, ◌≡◌, refl, Option, none, some, List, [], ◌∷◌, Text,
  text, ltb, true, false, arith,
}
use mathlib.Core.List.{foldr, filter_map}
use shiftlush_api.Routing.Stops.{Floats, Stop, Route}
use shiftlush_api.Routing.{
  plan_route, best_order, two_opt, nearest_neighbour, path_km, haversine_km,
}
use shiftlush_api.Routing.Suggestion.{IsSuggestion, plan_route-IsSuggestion}

abbrev times : ℕ → ℕ → ℕ
times a b = a * b / 1000000

abbrev raised : ℕ → ℕ → ℕ
raised x zero = 1000000
raised x (suc n) = times x (raised x n)

ltb_trans : (a b c : ℕ) → ltb a b ≡ true → ltb b c ≡ true → ltb a c ≡ true
ltb_trans a b c h k = ground arith

ltb_asym : (a b : ℕ) → ltb a b ≡ true → ltb b a ≡ false
ltb_asym a b h = ground arith

ltb-sub : (a b t : ℕ) → ltb a (b - t) ≡ true → ltb a b ≡ true
ltb-sub a b t h = ground arith

abbrev millionths : Floats
millionths = record {
  Float = ℕ;
  literal = λ d p. d * 1000000 / 10 ^ p;
  add = λ a b. a + b;
  sub = λ a b. a - b;
  mul = times;
  div = λ a b. a * 1000000 / b;
  pow = raised;
  less = ltb;
  sum = foldr (λ a b. a + b) 0;
  sqrt = λ x. x;
  sin = λ x. x;
  cos = λ x. 1000000;
  asin = λ x. x;
  radians = λ x. x;
  less_trans = ltb_trans;
  less_asym = ltb_asym;
  less_sub = λ a b. ltb-sub a b (1 * 1000000 / 10 ^ 9);
}

abbrev stop_at : Text → Option ℕ → Stop ℕ
stop_at id latitude = record { id = id; latitude = latitude; longitude = some 0 }

abbrev given : List (Stop ℕ)
given =
    stop_at (text "e") (some 400000)
    ∷ stop_at (text "x") none
    ∷ stop_at (text "w") (some 100000)
    ∷ stop_at (text "m") (some 200000)
    ∷ []

suggested : Route ℕ
unfolding plan_route best_order two_opt nearest_neighbour path_km haversine_km filter_map select
suggested = plan_route millionths given (some (0, 0))

suggested-order : suggested.order ≡ text "w" ∷ text "m" ∷ text "e" ∷ text "x" ∷ []
unfolding suggested
suggested-order = refl

plan_route-IsSuggestion_example :
    IsSuggestion millionths given (some (0, 0)) (plan_route millionths given (some (0, 0)))
plan_route-IsSuggestion_example = plan_route-IsSuggestion millionths given (some (0, 0))
