-- ===== src/Routing/Stops.antt =====
-- apps/maintenance/routing.py: its rows, the floats as a parameter, and Python's operations on lists.
use shiftlush_api.Prelude.{
  ℕ, zero, suc, ◌≡◌, Bool, true, false, Option, none, some, List, [], ◌∷◌, ◌++◌, Text,
  if◌then◌else◌, ◌==◌, text_eq,
}
use mathlib.Core.List.{filter_map, reverse}

-- Floats, with what `math` and `sum` have for them. `literal d p` is `d` with its last `p` digits
-- behind the point. The laws hold of NaN and the infinities too: every comparison with NaN is
-- false, and taking 1e-9 away makes no number larger.
pub record Floats : Type 1 where
  pub Float : Type 0
  pub literal : ℕ → ℕ → Float
  pub add : Float → Float → Float
  pub sub : Float → Float → Float
  pub mul : Float → Float → Float
  pub div : Float → Float → Float
  pub pow : Float → ℕ → Float
  pub less : Float → Float → Bool
  pub sum : List Float → Float
  pub sqrt : Float → Float
  pub sin : Float → Float
  pub cos : Float → Float
  pub asin : Float → Float
  pub radians : Float → Float
  pub less_trans : (a b c : Float) → less a b ≡ true → less b c ≡ true → less a c ≡ true
  pub less_asym : (a b : Float) → less a b ≡ true → less b a ≡ false
  pub less_sub : (a b : Float) → less a (sub b (literal 1 9)) ≡ true → less a b ≡ true

pub record Stop (F : Type 0) : Type 0 where
  pub id : Text
  pub latitude : Option F
  pub longitude : Option F

pub record Route (F : Type 0) : Type 0 where
  pub order : List Text
  pub total_km : F
  pub legs : List (Text × Option F)
  pub unplaced : List Text

abbrev pub max_improvement_passes : ℕ
max_improvement_passes = 200

abbrev pub max_first_stops : ℕ
max_first_stops = 12

-- `range(from, from + n)`
abbrev pub range_from : ℕ → ℕ → List ℕ
range_from from zero = []
range_from from (suc n) = from ∷ range_from (suc from) n

module _ {A : Type 0} where
  -- `xs[i]`
  abbrev pub item : List A → ℕ → Option A
  item [] i = none
  item (x ∷ xs) zero = some x
  item (x ∷ xs) (suc i) = item xs i

  -- `[xs[i] for i in is]`
  abbrev pub pick : List A → List ℕ → List A
  pick xs is = filter_map (item xs) is

  -- `xs.pop(i)`: what it takes, as a list, and what is left.
  abbrev pub pop : ℕ → List A → List A × List A
  pop i [] = ([], [])
  pop zero (x ∷ xs) = (x ∷ [], xs)
  pop (suc i) (x ∷ xs) = ((pop i xs).0, x ∷ (pop i xs).1)

  abbrev pub taken : ℕ → List A → List A
  taken zero xs = []
  taken (suc n) [] = []
  taken (suc n) (x ∷ xs) = x ∷ taken n xs

  abbrev pub left : ℕ → List A → List A
  left zero xs = xs
  left (suc n) [] = []
  left (suc n) (x ∷ xs) = left n xs

  -- `xs[:n]` with the next `k` elements reversed and the rest behind them.
  abbrev pub reverse_stretch : ℕ → ℕ → List A → List A
  reverse_stretch n k xs = taken n xs ++ (reverse (taken k (left n xs)) ++ left k (left n xs))

-- `xs.remove(x)`
abbrev pub remove : ℕ → List ℕ → List ℕ
remove x [] = []
remove x (y ∷ ys) = if x == y then ys else y ∷ remove x ys

-- `best[i - 1] if i > 0 else None`
abbrev pub before_of : ℕ → List ℕ → Option ℕ
before_of zero best = none
before_of (suc i) best = item best i

-- `legs[id] = leg`: a key that is there keeps its place.
module _ {F : Type 0} where
  abbrev pub set_leg : Text → Option F → List (Text × Option F) → List (Text × Option F)
  set_leg id leg [] = (id, leg) ∷ []
  set_leg id leg ((other, l) ∷ legs) =
      if text_eq id other then (id, leg) ∷ legs else (other, l) ∷ set_leg id leg legs
