-- ===== src/Action/Never.antt =====
-- Actions that return, whatever the state.
use shiftlush_api.Prelude.{◌≡◌, refl, Bool-cases, inl, inr}
use shiftlush_api.Action.{
  Result, ok, err, Action, atomic, restore, is_integrity_error, none_if_refused,
}
use shiftlush_api.Action.Outcome.{Ends, Leaves}

abbrev pub Never : {S : Type 0} → S → Type 0
Never s = ⊥

module _ {S A : Type 0} (Q : A → S → Type 0) where
  restored : (s : S) (r : Result A × S) → Leaves Never Q r → Leaves Never Q (restore s r)
  restored s (ok a, t) h = h
  restored s (err e, t) h = elim h [ ]

  -- A transaction that does not raise.
  pub Ends-atomic-Never : (m : Action S A) (s : S) → Ends Never Q m s → Ends Never Q (atomic m) s
  unfolding atomic
  Ends-atomic-Never m s h = record { outcome = restored s (m s) h.outcome }

  -- What it returned, and where.
  pub returned : (r : Result A × S) → Leaves Never Q r → (a : A) × (t : S) × (r ≡ (ok a, t)) × Q a t
  returned (ok a, t) h = (a, t, refl, h)
  returned (err e, t) h = elim h [ ]

module _ {S A : Type 0} (P : S → Type 0) where
  pub none_if_refused-Leaves :
      (s : S) (r : Result A × S)
      → Leaves Never (λ _ t. P t) r
      → Leaves Never (λ _ t. P t) (none_if_refused (restore s r))
  none_if_refused-Leaves s (ok a, t) h = h
  none_if_refused-Leaves s (err e, t) h = elim h [ ]

  -- What holds of the state still does once the error is caught.
  pub none_if_refused-Keeps : (r : Result A × S) → P r.1 → P (none_if_refused r).1
  none_if_refused-Keeps (ok a, s) h = h
  none_if_refused-Keeps (err e, s) h = elim (Bool-cases (is_integrity_error e)) [
    | inl f ↦ rw (f) h
    | inr f ↦ rw (f) h
  ]
