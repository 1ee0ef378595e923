-- ===== src/Action.antt =====
-- A service call: it reads and writes a state, and returns or raises. What was written before a
-- raise stays written, so the state comes back beside the error too; `atomic` is Django's
-- `transaction.atomic`, which gives the state back as it was when its block raises.
pub mod Outcome
pub mod Keeps
pub mod AllOrNothing
pub mod Never
use shiftlush_api.Prelude.{Bool, true, false, Option, none, some, List, [], ◌∷◌, if◌then◌else◌}
use shiftlush_api.Errors.{Error, integrity_error}

pub data Result (A : Type 0) : Type 0 where
  ok : A → Result A
  err : Error → Result A

abbrev pub Action : Type 0 → Type 0 → Type 0
Action S A = S → Result A × S

abbrev pub ⊤ : Type 0
⊤ = Unit

module _ {S A : Type 0} where
  unfoldable pub pure : A → Action S A
  pure a s = (ok a, s)

  unfoldable pub raise : Error → Action S A
  raise e s = (err e, s)

  unfoldable pub gets : (S → A) → Action S A
  gets f s = (ok (f s), s)

  -- `.get()` or a check that hands on a value
  unfoldable pub or_raise : Option A → Error → Action S A
  unfolding pure raise
  or_raise none e = raise e
  or_raise (some a) _ = pure a

  -- `with transaction.atomic():`
  abbrev pub restore : S → Result A × S → Result A × S
  restore s (ok a, s') = (ok a, s')
  restore s (err e, s') = (err e, s)

  unfoldable pub atomic : Action S A → Action S A
  atomic m s = restore s (m s)

module _ {S : Type 0} where
  -- `if c: raise e`
  unfoldable pub raise_if : Bool → Error → Action S ⊤
  unfolding pure raise
  raise_if true e = raise e
  raise_if false e = pure tt

  unfoldable pub modify : (S → S) → Action S ⊤
  modify f s = (ok tt, f s)

module _ {S A B : Type 0} where
  abbrev pub proceed : Result A × S → (A → Action S B) → Result B × S
  proceed (ok a, s) f = f a s
  proceed (err e, s) f = (err e, s)

  infixl 5 ◌>>=◌ ◌>>◌
  -- opening this opens the actions above
  unfoldable pub ◌>>=◌ : Action S A → (A → Action S B) → Action S B
  unfolding pure raise gets or_raise raise_if atomic modify
  ◌>>=◌ m f s = proceed (m s) f

  abbrev pub ◌>>◌ : Action S A → Action S B → Action S B
  m >> n = m >>= λ _. n

module _ {S A : Type 0} where
  -- `for x in xs: f(x)`
  unfoldable pub for_each : List A → (A → Action S ⊤) → Action S ⊤
  unfolding ◌>>=◌
  for_each [] f = pure tt
  for_each (x ∷ xs) f = f x >> for_each xs f

abbrev pub is_integrity_error : Error → Bool
is_integrity_error integrity_error = true
is_integrity_error _ = false

-- `except IntegrityError`: none
abbrev pub none_if_refused : {S A : Type 0} → Result A × S → Result (Option A) × S
none_if_refused (ok a, s) = (ok (some a), s)
none_if_refused (err e, s) = if is_integrity_error e then (ok none, s) else (err e, s)
