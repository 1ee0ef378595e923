-- ===== src/Action/AllOrNothing.antt =====
-- Actions that write all of what they write or, where they raise, nothing.
use shiftlush_api.Prelude.{◌≡◌, refl, sym, ap}
use mathlib.Core.Path.{subst}
use shiftlush_api.Errors.{Error}
use shiftlush_api.Action.{
  Result, ok, err, Action, pure, raise, atomic, restore, proceed, ◌>>=◌, ◌>>◌,
}
use shiftlush_api.Action.Keeps.{Keeps}

-- To run it in a transaction changes nothing.
pub record AllOrNothing {S A : Type 0} (m : Action S A) : Type 0 where
  pub same : (s : S) → restore s (m s) ≡ m s

-- It writes nothing, whether it returns or raises.
pub record ReadsOnly {S A : Type 0} (m : Action S A) : Type 0 where
  pub keeps : (s : S) → Keeps (λ s'. s' ≡ s) m

module _ {S A : Type 0} where
  restore_twice : (s : S) (r : Result A × S) → restore s (restore s r) ≡ restore s r
  restore_twice s (ok a, s') = refl
  restore_twice s (err e, s') = refl

  pub whole_atomic : (m : Action S A) → AllOrNothing (atomic m)
  unfolding atomic
  whole_atomic m = record { same = λ s. restore_twice s (m s) }

  pub whole_pure : (a : A) → AllOrNothing {S = S} (pure a)
  unfolding pure
  whole_pure a = record { same = λ s. refl }

  pub whole_raise : (e : Error) → AllOrNothing {S = S} {A = A} (raise e)
  unfolding raise
  whole_raise e = record { same = λ s. refl }

module _ {S A B : Type 0} where
  restore_after_read :
      (s : S) (r : Result A × S) (f : A → Action S B)
      → r.1 ≡ s
      → ((a : A) → AllOrNothing (f a))
      → restore s (proceed r f) ≡ proceed r f
  restore_after_read s (ok a, s') f e w = subst (λ t. restore t (f a s') ≡ f a s') e ((w a).same s')
  restore_after_read s (err x, s') f e w = ap (λ t. (err x, t)) (sym e)

  -- First what only reads, then the rest.
  pub whole_after_read :
      (m : Action S A) (f : A → Action S B)
      → ReadsOnly m
      → ((a : A) → AllOrNothing (f a))
      → AllOrNothing (m >>= f)
  unfolding ◌>>=◌
  whole_after_read m f r w = record {
    same = λ s. restore_after_read s (m s) f ((r.keeps s).after s refl) w;
  }

  restore_before_pure :
      (s : S) (r : Result A × S) (b : B)
      → restore s r ≡ r
      → restore s (proceed r λ _. pure b) ≡ proceed r λ _. pure b
  unfolding pure
  restore_before_pure s (ok a, s') b e = refl
  restore_before_pure s (err x, s') b e = ap (λ (r : Result A × S). proceed r λ _. pure b) e

  pub whole_before_pure : (m : Action S A) (b : B) → AllOrNothing m → AllOrNothing (m >> pure b)
  unfolding ◌>>=◌
  whole_before_pure m b w = record { same = λ s. restore_before_pure s (m s) b (w.same s) }
