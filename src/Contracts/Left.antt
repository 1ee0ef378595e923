-- ===== src/Contracts/Left.antt =====
-- The open lines of a contract that is being closed, as they are closed one after another.
use shiftlush_api.Prelude.{
  ℕ, ◌≡◌, refl, sym, true, false, List, [], ◌∷◌, any, update, select, All, All-map, All-In, In,
  true_and_false, Bool-cases, inl, inr, arith,
}
use mathlib.Core.Path.{subst}
use shiftlush_api.Action.{modify, for_each}
use shiftlush_api.Action.Outcome.{Ends, Ends-pure, Ends-modify, Ends-bind}
use shiftlush_api.Fleet.{Fleet, ContractElevator}
use shiftlush_api.Contracts.{is_open_in, has_line_id, ended_on, save_status, end_line}

-- Every open line of the contract is one of `rest`.
abbrev pub Left : ℕ → List ContractElevator → List ContractElevator → Type 0
Left c rest ls = All (λ l. is_open_in c l ≡ true → any (λ r. has_line_id r.id l) rest ≡ true) ls

ended_closed : (c day : ℕ) (l : ContractElevator) → is_open_in c (ended_on day l) ≡ false
unfolding is_open_in
ended_closed c day l = ground arith

pub end-Left :
    (c day : ℕ) (r : ContractElevator) (rest ls : List ContractElevator)
    → Left c (r ∷ rest) ls
    → Left c rest (update (has_line_id r.id) (ended_on day) ls)
unfolding update any
end-Left c day r rest [] h = tt
end-Left c day r rest (l ∷ ls) (h, hs) = elim (Bool-cases (has_line_id r.id l)) [
  | inl e ↦ rw e (λ o. true_and_false o (ended_closed c day l), end-Left c day r rest ls hs)
  | inr e ↦ rw e (λ o. rw e at (h o), end-Left c day r rest ls hs)
]

pub none-Left : (c : ℕ) (ls : List ContractElevator) → Left c [] ls → any (is_open_in c) ls ≡ false
unfolding any
none-Left c [] h = refl
none-Left c (l ∷ ls) (h, hs) = elim (Bool-cases (is_open_in c l)) [
  | inl e ↦ absurd (cc (h e))
  | inr e ↦ rw (e, none-Left c ls hs)
]

found_selected :
    (c : ℕ) (l : ContractElevator) (ls : List ContractElevator)
    → In l ls
    → is_open_in c l ≡ true
    → any (λ r. has_line_id r.id l) (select (is_open_in c) ls) ≡ true
unfolding any select
found_selected c l [] i o = elim i [ ]
found_selected c l (x ∷ xs) (inl e) o =
    subst (λ y. any (λ r. has_line_id r.id l) (select (is_open_in c) (y ∷ xs)) ≡ true) (sym e)
      (rw o (ground arith))
found_selected c l (x ∷ xs) (inr i) o = elim (Bool-cases (is_open_in c x)) [
  | inl e ↦ rw (e, found_selected c l xs i o) (ground arith)
  | inr e ↦ rw e (found_selected c l xs i o)
]

selected :
    (c : ℕ) (ls : List ContractElevator)
    → All
        (λ l.
          is_open_in c l ≡ true → any (λ r. has_line_id r.id l) (select (is_open_in c) ls) ≡ true)
        ls
selected c ls = All-map ls (λ l i o. found_selected c l ls i o) (All-In ls)

pub all-Left : (c : ℕ) (ls : List ContractElevator) → Left c (select (is_open_in c) ls) ls
all-Left c ls = selected c ls

end_one :
    (c day : ℕ) (r : ContractElevator) (rest : List ContractElevator) (s : Fleet)
    → Left c (r ∷ rest) s.lines
    → Ends (λ _. Unit {0}) (λ _ t. Left c rest t.lines) (end_line day r) s
unfolding end_line save_status modify
end_one c day r rest s h = Ends-modify _ _ _ (record { outcome = end-Left c day r rest s.lines h })

pub end_lines :
    (c day : ℕ) (rest : List ContractElevator) (s : Fleet)
    → Left c rest s.lines
    → Ends
        (λ _. Unit {0})
        (λ _ t. any (is_open_in c) t.lines ≡ false)
        (for_each rest (end_line day))
        s
unfolding for_each
end_lines c day [] s h = Ends-pure _ _ (none-Left c s.lines h)
end_lines c day (r ∷ rest) s h =
    Ends-bind (end_line day r) _ s (end_one c day r rest s h) λ _ t k. end_lines c day rest t k
