-- ===== src/Contracts/Lines.antt =====
-- The open lines of lifts under contracts.
use shiftlush_api.Prelude.{ℕ, ◌≡◌, refl, ◌⊎◌, false, List, Text, any}
use shiftlush_api.Errors.{business_rule, not_found, elevator_already_contracted}
use shiftlush_api.Action.{Result, ok, err, Action}
use shiftlush_api.Action.Outcome.{
  Ends, Ends-pure, Ends-gets, Ends-guard, Ends-modify, Ends-atomic, Ends-bind,
}
use shiftlush_api.Fleet.{Contract, Fleet}
use shiftlush_api.Contracts.{is_open_in, count, terminate, ended}
use shiftlush_api.Contracts.Left.{all-Left, end_lines}

-- Where `terminate` returns, no line of the contract is open, so each of its lifts is free for
-- another contract, and the row returned is terminated, with its date and reason, and renews no
-- more. Where it raises, nothing has changed.
pub terminate-IsReleased :
    (c : Contract) (day : ℕ) (reason : Text) (s : Fleet)
    → Ends
        (λ t. t ≡ s)
        (λ g t. (any (is_open_in c.id) t.lines ≡ false) × (g ≡ ended day reason c))
        (terminate c day reason)
        s
unfolding terminate
terminate-IsReleased c day reason s = Ends-atomic {X = λ _. Unit {0}} _ s refl (
    Ends-guard _ _ _ _ tt λ _. Ends-guard _ _ _ _ tt λ _. Ends-gets _ _ _ (
      Ends-bind _ _ s (end_lines c.id day _ s (all-Left c.id s.lines))
        λ _ t h. Ends-modify _ _ _ (Ends-pure _ _ (h, refl))))

-- A refusal with a rule of the API: the lift is unknown, or it is covered.
abbrev pub IsExplained : {A : Type 0} → Result A → Type 0
IsExplained (ok a) = Unit
IsExplained (err e) =
    (e ≡ business_rule not_found) ⊎ (e ≡ business_rule elevator_already_contracted)

-- A call that returns the number of its lifts, or is refused with a rule and has written nothing.
abbrev pub IsAnswered : List ℕ → Fleet → Result ℕ × Fleet → Type 0
IsAnswered ks s (ok n, t) = n ≡ count ks
IsAnswered ks s (err e, t) = IsExplained {A = ℕ} (err e) × (t ≡ s)
