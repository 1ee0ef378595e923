-- ===== src/Action/Outcome.antt =====
-- How an action can end, by a rule for each way to build one: it returns a value and a state with
-- `Q`, or it raises and leaves a state with `X`.
use shiftlush_api.Prelude.{◌≡◌, refl, sym, ap, Bool, true, false, Option, none, some, if◌then◌else◌}
use mathlib.Core.Path.{subst}
use shiftlush_api.Errors.{Error}
use shiftlush_api.Action.{
  Result, ok, err, Action, ⊤, pure, raise, gets, or_raise, raise_if, atomic, restore, modify,
  proceed, ◌>>=◌,
}

abbrev pub Leaves : {S A : Type 0} → (S → Type 0) → (A → S → Type 0) → Result A × S → Type 0
Leaves X Q (ok a, s) = Q a s
Leaves X Q (err e, s) = X s

value_of : {A : Type 0} → A → Result A → A
value_of d (ok a) = a
value_of d (err e) = d

pub ok-injective : {A : Type 0} {a b : A} → ok a ≡ ok b → a ≡ b
unfolding value_of
ok-injective {a = a} e = ap (value_of a) e

-- The action `m`, run at `s`, ends so.
pub record Ends {S A : Type 0} (X : S → Type 0) (Q : A → S → Type 0) (m : Action S A) (s : S)
    : Type 0 where
  pub outcome : Leaves X Q (m s)

-- The action leaves the state alone, and a value that it returns has `Q`.
pub record Reads {S A : Type 0} (Q : A → Type 0) (m : Action S A) (s : S) : Type 0 where
  pub same_state : (m s).1 ≡ s
  pub value : (a : A) → (m s).0 ≡ ok a → Q a

Leaves-restore :
    {S A : Type 0} (X P : S → Type 0) (Q : A → S → Type 0) (s : S) (r : Result A × S)
    → P s
    → Leaves X Q r
    → Leaves P Q (restore s r)
Leaves-restore X P Q s (ok a, s') p h = h
Leaves-restore X P Q s (err e, s') p h = p

module _ {S A : Type 0} {X : S → Type 0} {Q : A → S → Type 0} where
  pub Ends-pure : (a : A) (s : S) → Q a s → Ends X Q (pure a) s
  unfolding pure
  Ends-pure a s q = record { outcome = q }

  pub Ends-raise : (e : Error) (s : S) → X s → Ends X Q (raise e) s
  unfolding raise
  Ends-raise e s x = record { outcome = x }

  -- A read that ends a block.
  pub Ends-found :
      (o : Option A) (e : Error) (s : S)
      → X s
      → ((a : A) → o ≡ some a → Q a s)
      → Ends X Q (or_raise o e) s
  unfolding or_raise
  Ends-found none e s x k = Ends-raise e s x
  Ends-found (some a) e s x k = Ends-pure a s (k a refl)

  pub Ends-if :
      (c : Bool) (m n : Action S A) (s : S)
      → (c ≡ true → Ends X Q m s)
      → (c ≡ false → Ends X Q n s)
      → Ends X Q (if c then m else n) s
  Ends-if true m n s hm hn = hm refl
  Ends-if false m n s hm hn = hn refl

  Leaves-weaken :
      {X' : S → Type 0} {Q' : A → S → Type 0} (r : Result A × S)
      → ((s' : S) → X s' → X' s')
      → ((a : A) (s' : S) → Q a s' → Q' a s')
      → Leaves X Q r
      → Leaves X' Q' r
  Leaves-weaken (ok a, s') f g h = g a s' h
  Leaves-weaken (err e, s') f g h = f s' h

  pub Ends-weaken :
      {X' : S → Type 0} {Q' : A → S → Type 0} (m : Action S A) (s : S)
      → ((s' : S) → X s' → X' s')
      → ((a : A) (s' : S) → Q a s' → Q' a s')
      → Ends X Q m s
      → Ends X' Q' m s
  Ends-weaken m s f g h = record { outcome = Leaves-weaken (m s) f g h.outcome }

  -- A transaction: whatever its block leaves behind when it raises, the state is as before.
  pub Ends-atomic :
      {P : S → Type 0} (m : Action S A) (s : S) → P s → Ends X Q m s → Ends P Q (atomic m) s
  unfolding atomic
  Ends-atomic {P} m s p h = record { outcome = Leaves-restore X P Q s (m s) p h.outcome }

module _ {S A B : Type 0} {X : S → Type 0} {R : B → S → Type 0} where
  Leaves-proceed :
      (Q : A → S → Type 0) (r : Result A × S) (f : A → Action S B)
      → Leaves X Q r
      → ((a : A) (s' : S) → Q a s' → Ends X R (f a) s')
      → Leaves X R (proceed r f)
  Leaves-proceed Q (ok a, s') f h k = (k a s' h).outcome
  Leaves-proceed Q (err e, s') f h k = h

  pub Ends-bind :
      {Q : A → S → Type 0} (m : Action S A) (f : A → Action S B) (s : S)
      → Ends X Q m s
      → ((a : A) (s' : S) → Q a s' → Ends X R (f a) s')
      → Ends X R (m >>= f) s
  unfolding ◌>>=◌
  Ends-bind {Q} m f s h k = record { outcome = Leaves-proceed Q (m s) f h.outcome k }

  Leaves-read :
      (Q : A → Type 0) (r : Result A × S) (f : A → Action S B) (s : S)
      → s ≡ r.1
      → ((a : A) → r.0 ≡ ok a → Q a)
      → X s
      → ((a : A) → Q a → Ends X R (f a) s)
      → Leaves X R (proceed r f)
  Leaves-read Q (ok a, s') f s e q x k = (subst (λ t. Ends X R (f a) t) e (k a (q a refl))).outcome
  Leaves-read Q (err c, s') f s e q x k = subst X e x

  -- The rest of the block runs at the same state, with what the read found.
  pub Ends-read :
      {Q : A → Type 0} (m : Action S A) (f : A → Action S B) (s : S)
      → Reads Q m s
      → X s
      → ((a : A) → Q a → Ends X R (f a) s)
      → Ends X R (m >>= f) s
  unfolding ◌>>=◌
  Ends-read {Q} m f s h x k = record {
    outcome = Leaves-read Q (m s) f s (sym h.same_state) h.value x k;
  }

  pub Ends-gets :
      (g : S → A) (f : A → Action S B) (s : S) → Ends X R (f (g s)) s → Ends X R (gets g >>= f) s
  unfolding ◌>>=◌
  Ends-gets g f s h = record { outcome = h.outcome }

  pub Ends-value :
      (a : A) (f : A → Action S B) (s : S) → Ends X R (f a) s → Ends X R (pure a >>= f) s
  unfolding ◌>>=◌
  Ends-value a f s h = record { outcome = h.outcome }

  pub Ends-or_raise :
      (o : Option A) (e : Error) (f : A → Action S B) (s : S)
      → X s
      → ((a : A) → o ≡ some a → Ends X R (f a) s)
      → Ends X R (or_raise o e >>= f) s
  unfolding ◌>>=◌
  Ends-or_raise none e f s x k = record { outcome = x }
  Ends-or_raise (some a) e f s x k = record { outcome = (k a refl).outcome }

module _ {S B : Type 0} {X : S → Type 0} {R : B → S → Type 0} where
  -- A check that passes gives the rest its condition.
  pub Ends-guard :
      (c : Bool) (e : Error) (f : ⊤ → Action S B) (s : S)
      → X s
      → (c ≡ false → Ends X R (f tt) s)
      → Ends X R (raise_if c e >>= f) s
  unfolding ◌>>=◌
  Ends-guard true e f s x k = record { outcome = x }
  Ends-guard false e f s x k = record { outcome = (k refl).outcome }

  -- A check that is known to pass.
  pub Ends-passed :
      (c : Bool) (e : Error) (f : ⊤ → Action S B) (s : S)
      → c ≡ false
      → Ends X R (f tt) s
      → Ends X R (raise_if c e >>= f) s
  unfolding raise_if ◌>>=◌
  Ends-passed c e f s passes h = rw (passes) (record { outcome = h.outcome })

  pub Ends-modify :
      (g : S → S) (f : ⊤ → Action S B) (s : S) → Ends X R (f tt) (g s) → Ends X R (modify g >>= f) s
  unfolding ◌>>=◌
  Ends-modify g f s h = record { outcome = h.outcome }

known_anyway :
    {S A : Type 0} (P : Type 0) (r : Result A × S) → P → Leaves (λ _. Unit {0}) (λ _ _. P) r
known_anyway P (ok a, s') p = p
known_anyway P (err c, s') p = tt

-- What is known before an action is known where it returns.
pub Ends-known :
    {S A : Type 0} {P : Type 0} (m : Action S A) (s : S) → P → Ends (λ _. Unit {0}) (λ _ _. P) m s
Ends-known {P = P} m s p = record { outcome = known_anyway P (m s) p }

value_left :
    {S A : Type 0} (Q : A → Type 0) (r : Result A × S)
    → Leaves (λ _. Unit {0}) (λ a _. Q a) r
    → (a : A) → r.0 ≡ ok a
    → Q a
value_left Q (ok b, s') h a e = subst Q (ok-injective e) h
value_left Q (err c, s') h a e = cc

module _ {S A : Type 0} {Q : A → Type 0} where
  pub Reads-pure : (a : A) (s : S) → Q a → Reads Q (pure a) s
  unfolding pure
  Reads-pure a s q = record { same_state = refl; value = λ b e. subst Q (ok-injective e) q }

  pub Reads-if :
      (c : Bool) (m n : Action S A) (s : S)
      → (c ≡ true → Reads Q m s)
      → (c ≡ false → Reads Q n s)
      → Reads Q (if c then m else n) s
  Reads-if true m n s hm hn = hm refl
  Reads-if false m n s hm hn = hn refl

  -- From where the action ends.
  pub Reads-Ends :
      (m : Action S A) (s : S) → (m s).1 ≡ s → Ends (λ _. Unit {0}) (λ a _. Q a) m s → Reads Q m s
  Reads-Ends m s same h = record { same_state = same; value = value_left Q (m s) h.outcome }
