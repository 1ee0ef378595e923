-- ===== src/Action/Keeps.antt =====
-- Predicates on the state that an action keeps, whether it returns or raises: one rule for each
-- way to build an action, for `search`.
use shiftlush_api.Prelude.{Bool, true, false, Option, none, some, List, [], ◌∷◌, if◌then◌else◌}
use shiftlush_api.Errors.{Error}
use shiftlush_api.Action.{
  Result, ok, err, Action, ⊤, pure, raise, gets, or_raise, raise_if, atomic, restore, modify,
  proceed, ◌>>=◌, for_each,
}
use shiftlush_api.Action.Outcome.{Ends, Leaves}

pub record Keeps {S A : Type 0} (P : S → Type 0) (m : Action S A) : Type 0 where
  pub after : (s : S) → P s → P (m s).1

restore-Keeps :
    {S A : Type 0} (P : S → Type 0) (s : S) (r : Result A × S) → P s → P r.1 → P (restore s r).1
restore-Keeps P s (ok a, s') p h = h
restore-Keeps P s (err e, s') p h = p

kept-Leaves : {S A : Type 0} (P : S → Type 0) (r : Result A × S) → P r.1 → Leaves P (λ _ s'. P s') r
kept-Leaves P (ok a, s') h = h
kept-Leaves P (err e, s') h = h

module _ {S A : Type 0} {P : S → Type 0} where
  pub Keeps-gets : (f : S → A) → Keeps P (gets f)
  unfolding gets
  Keeps-gets f = record { after = λ s h. h }

  pub Keeps-raise : (e : Error) → Keeps P (raise {A = A} e)
  unfolding raise
  Keeps-raise e = record { after = λ s h. h }

  pub Keeps-pure : (a : A) → Keeps P (pure a)
  unfolding pure
  Keeps-pure a = record { after = λ s h. h }

  pub Keeps-or_raise : (o : Option A) (e : Error) → Keeps P (or_raise o e)
  unfolding or_raise
  Keeps-or_raise none e = record { after = λ s h. h }
  Keeps-or_raise (some a) e = record { after = λ s h. h }

  pub Keeps-atomic : (m : Action S A) → Keeps P m → Keeps P (atomic m)
  unfolding atomic
  Keeps-atomic m k = record { after = λ s h. restore-Keeps P s (m s) h (k.after s h) }

  pub Keeps-if :
      (c : Bool) (m n : Action S A) → Keeps P m → Keeps P n → Keeps P (if c then m else n)
  Keeps-if true m n km kn = km
  Keeps-if false m n km kn = kn

  outcome_keeps :
      {Q : A → S → Type 0} (r : Result A × S)
      → ((a : A) (s' : S) → Q a s' → P s')
      → Leaves P Q r
      → P r.1
  outcome_keeps (ok a, s') f h = f a s' h
  outcome_keeps (err e, s') f h = h

  -- From an outcome at every state that has `P`.
  pub Keeps-Ends :
      {Q : S → A → S → Type 0} (m : Action S A)
      → ((s : S) → P s → Ends P (Q s) m s)
      → ((s : S) → P s → (a : A) (s' : S) → Q s a s' → P s')
      → Keeps P m
  Keeps-Ends m h f = record { after = λ s p. outcome_keeps (m s) (f s p) (h s p).outcome }

  pub Ends-Keeps : (m : Action S A) (s : S) → Keeps P m → P s → Ends P (λ _ s'. P s') m s
  Ends-Keeps m s k h = record { outcome = kept-Leaves P (m s) (k.after s h) }

module _ {S A : Type 0} (X P : S → Type 0) (Q : A → S → Type 0) where
  also : (r : Result A × S) → P r.1 → Leaves X Q r → Leaves X (λ a t. Q a t × P t) r
  also (ok a, t) p h = (h, p)
  also (err e, t) p h = h

  -- How an action ends, and what it keeps besides.
  pub Ends-also :
      (m : Action S A) (s : S) → Keeps P m → P s → Ends X Q m s → Ends X (λ a t. Q a t × P t) m s
  Ends-also m s k p h = record { outcome = also (m s) (k.after s p) h.outcome }

module _ {S : Type 0} {P : S → Type 0} where
  pub Keeps-raise_if : (c : Bool) (e : Error) → Keeps P (raise_if c e)
  unfolding raise_if
  Keeps-raise_if true e = record { after = λ s h. h }
  Keeps-raise_if false e = record { after = λ s h. h }

  pub Keeps-modify : (g : S → S) → ((s : S) → P s → P (g s)) → Keeps P (modify g)
  unfolding modify
  Keeps-modify g h = record { after = h }

module _ {S A B : Type 0} {P : S → Type 0} where
  proceed_keeps :
      (r : Result A × S) (f : A → Action S B)
      → P r.1
      → ((a : A) → Keeps P (f a))
      → P (proceed r f).1
  proceed_keeps (ok a, s) f h k = (k a).after s h
  proceed_keeps (err e, s) f h k = h

  pub Keeps-bind :
      (m : Action S A) (f : A → Action S B)
      → Keeps P m
      → ((a : A) → Keeps P (f a))
      → Keeps P (m >>= f)
  unfolding ◌>>=◌
  Keeps-bind m f km kf = record { after = λ s h. proceed_keeps (m s) f (km.after s h) kf }

module _ {S A : Type 0} {P : S → Type 0} where
  pub Keeps-for_each :
      (xs : List A) (f : A → Action S ⊤) → ((a : A) → Keeps P (f a)) → Keeps P (for_each xs f)
  unfolding for_each
  Keeps-for_each [] f k = Keeps-pure tt
  Keeps-for_each (x ∷ xs) f k = Keeps-bind (f x) _ (k x) (λ _. Keeps-for_each xs f k)

pub ruleset keeps_rules = (
  Keeps-pure, Keeps-raise, Keeps-gets, Keeps-or_raise, Keeps-atomic, Keeps-if, Keeps-raise_if,
  Keeps-bind, Keeps-for_each,
)
