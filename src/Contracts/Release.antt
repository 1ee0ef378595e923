-- ===== src/Contracts/Release.antt =====
-- apps/contracts/services.py: the lifts of a contract that is renewed or runs out.
use shiftlush_api.Prelude.{
  ℕ, ◌+◌, ◌<◌, ◌≡◌, refl, sym, ap, Bool, true, false, not, ◌||◌, Option, some, none, List, [], ◌∷◌,
  ◌++◌, Text, any, update, ◌∙◌, All-append, ◌==◌, leb, arith,
}
use mathlib.Core.Path.{subst}
use shiftlush_api.Action.{modify, for_each, ◌>>=◌}
use shiftlush_api.Action.Outcome.{
  Ends, Ends-pure, Ends-if, Ends-gets, Ends-guard, Ends-modify, Ends-atomic, Ends-bind, Ends-read,
  Ends-weaken, Reads,
}
use shiftlush_api.Action.Keeps.{Keeps, keeps_rules, Ends-also, Keeps-for_each}
use shiftlush_api.Fleet.{ContractStatus, Contract, ContractElevator, Fleet}
use shiftlush_api.Contracts.{is_open_in, save_status, create_line, end_line, is_contract}
use shiftlush_api.Contracts.Left.{Left, end-Left, none-Left, all-Left, end_lines}
use shiftlush_api.Contracts.Terms.{next_term}
use shiftlush_api.Contracts.Renewal.{
  with_contract_status, next_contract_number, create_contract, successor_of, hand_on, hand_over,
  save_contract_status, renew, ExpiryKind, ExpiryOutcome, expire, is_active_contract, renew_at_end,
  let_go, start_successor, activate_successor,
}

added-Left :
    (c : ℕ) (l : ContractElevator) (rest ls : List ContractElevator)
    → (l.contract == c) ≡ false
    → Left c rest ls
    → Left c rest (ls ++ (l ∷ []))
unfolding is_open_in
added-Left c l rest ls apart h = All-append _ ls _ h (λ o. grind arith, tt)

module _ (c : ℕ) (successor : Contract) (apart : (successor.id == c) ≡ false) where
  hand_over-Left :
      (carry copy : Bool) (day : ℕ) (r : ContractElevator) (rest : List ContractElevator)
      (s : Fleet)
      → Left c (r ∷ rest) s.lines
      → Ends (λ _. Unit {0}) (λ _ t. Left c rest t.lines) (hand_over successor carry copy day r) s
  unfolding hand_over hand_on create_line save_status modify
  hand_over-Left true copy day r rest s h = Ends-modify _ _ _ (
      Ends-gets _ _ _ (
        Ends-guard _ _ _ _ tt λ _.
          Ends-gets _ _ _
            (record { outcome = added-Left c _ rest _ apart (end-Left c day r rest s.lines h) })))
  hand_over-Left false copy day r rest s h =
      Ends-modify _ _ _ (record { outcome = end-Left c day r rest s.lines h })

  hand_all_over :
      (carry copy : Bool) (day : ℕ) (rest : List ContractElevator) (s : Fleet)
      → Left c rest s.lines
      → Ends
          (λ _. Unit {0})
          (λ _ t. any (is_open_in c) t.lines ≡ false)
          (for_each rest (hand_over successor carry copy day))
          s
  unfolding for_each
  hand_all_over carry copy day [] s h = Ends-pure _ _ (none-Left c s.lines h)
  hand_all_over carry copy day (r ∷ rest) s h =
      Ends-bind _ _ s (hand_over-Left carry copy day r rest s h)
        λ _ t k. hand_all_over carry copy day rest t k

-- Lifts that are handed over or let go leave the contracts alone.
hand_over-contracts :
    (cs : List Contract) (g : Contract) (carry copy : Bool) (day : ℕ) (r : ContractElevator)
    → Keeps (λ t. t.contracts ≡ cs) (hand_over g carry copy day r)
unfolding hand_over hand_on create_line save_status ◌>>=◌
hand_over-contracts cs g true copy day r = search keeps_rules depth 12
hand_over-contracts cs g false copy day r = search keeps_rules depth 12

end_line-contracts :
    (cs : List Contract) (day : ℕ) (r : ContractElevator)
    → Keeps (λ t. t.contracts ≡ cs) (end_line day r)
unfolding end_line save_status ◌>>=◌
end_line-contracts cs day r = search keeps_rules depth 12

number-Keeps : (P : Fleet → Type 0) (company : ℕ) → Keeps P (next_contract_number company)
unfolding next_contract_number
number-Keeps P company = search (keeps_rules) depth 9

number-Reads : (company : ℕ) (s : Fleet) → Reads (λ _. Unit {0}) (next_contract_number company) s
number-Reads company s = record {
  same_state = (number-Keeps (λ t. t ≡ s) company).after s refl;
  value = λ _ _. tt;
}

create_contract-row :
    (row : Text → ℕ → Contract) (number : Text) (s : Fleet)
    → Ends
        (λ _. Unit {0})
        (λ g t.
          (g ≡ row number s.next_id)
          × (t.lines ≡ s.lines)
          × (t.contracts ≡ s.contracts ++ (g ∷ [])))
        (create_contract row number)
        s
unfolding create_contract
create_contract-row row number s = Ends-gets _ _ _ (
    Ends-gets _ _ _
      (Ends-guard _ _ _ _ tt λ _. Ends-modify _ _ _ (Ends-pure _ _ (refl, refl, refl))))

module _ (c : Contract) (start end : ℕ) (copy : Bool) (s : Fleet) (fresh : c.id < s.next_id) where
  new_id :
      {g : Contract} {number : Text}
      → g ≡ successor_of c s.next_id number start end copy
      → (g.id == c.id) ≡ false
  new_id {g} e = let id : g.id ≡ s.next_id = ap (λ (r : Contract). r.id) e in rw (id) (ground arith)

  new_row :
      {g : Contract} {number : Text}
      → g ≡ successor_of c s.next_id number start end copy
      → g ≡ successor_of c s.next_id g.contract_number start end copy
  new_row {g} {number} e =
      let same : g.contract_number ≡ number = ap (λ (r : Contract). r.contract_number) e in
      subst (λ n. g ≡ successor_of c s.next_id n start end copy) (sym same) e

-- The table once `g` supersedes `c`.
abbrev pub superseded : Contract → Contract → List Contract → List Contract
superseded c g cs =
    update (is_contract c.id) (with_contract_status ContractStatus.renewed) (cs ++ (g ∷ []))

-- Where `renew` returns, no line of the old contract is open, whether its lifts were carried or
-- not, and the successor is a draft on the new dates with the old contract's terms, its prices
-- and VAT rate only if they are copied. The table of contracts gains the successor, and the old
-- contract is marked renewed; no other row changes. Where it raises, nothing has changed. The contract's key
-- is one that was given out before.
pub renew-IsReleased :
    (c : Contract) (start end : ℕ) (carry copy : Bool) (s : Fleet)
    → c.id < s.next_id
    → Ends
        (λ t. t ≡ s)
        (λ g t.
          (any (is_open_in c.id) t.lines ≡ false)
          × (g ≡ successor_of c s.next_id g.contract_number start end copy)
          × (t.contracts ≡ superseded c g s.contracts))
        (renew c start end carry copy)
        s
unfolding renew save_contract_status
renew-IsReleased c start end carry copy s fresh = Ends-atomic {X = λ _. Unit {0}} _ s refl (
    Ends-guard _ _ _ _ tt λ _. Ends-guard _ _ _ _ tt λ _.
      Ends-read _ _ s (number-Reads c.company s) tt λ number _.
        Ends-bind _ _ s (create_contract-row _ number s) λ g t row. Ends-gets _ _ _ (
          Ends-bind _ _ t
            (Ends-also _ _ _ _ t
              (Keeps-for_each _ _ λ r. hand_over-contracts t.contracts g carry copy start r) refl
              (hand_all_over c.id g (new_id c start end copy s fresh row.0) carry copy start _ t
                (all-Left c.id t.lines)))
            λ _ u closed. Ends-modify _ _ _ (
              Ends-pure _ _ (
                closed.0,
                new_row c start end copy s fresh row.0,
                ap (update (is_contract c.id) (with_contract_status ContractStatus.renewed))
                    (closed.1 ∙ row.2),
              ))))

-- The table once the successor is active too.
abbrev pub activated : Contract → List Contract → List Contract
activated g cs = update (is_contract g.id) (with_contract_status ContractStatus.active) cs

-- A contract that does not renew itself: it alone is marked expired.
abbrev pub IsLetGo : Contract → Fleet → ExpiryOutcome → Fleet → Type 0
IsLetGo c s o t =
    (o ≡ record {
      kind = ExpiryKind.expired;
      contract = with_contract_status ContractStatus.expired c;
      successor = none;
    })
    × (t.contracts
        ≡ update (is_contract c.id) (with_contract_status ContractStatus.expired) s.contracts)

-- With a VAT rate the successor becomes active; with none it stays the draft that it is.
abbrev pub IsStarted : Option ℕ → Contract → Contract → Fleet → ExpiryOutcome → Fleet → Type 0
IsStarted (some vat_rate) c g s o t =
    (o ≡ record {
      kind = ExpiryKind.auto_renewed;
      contract = with_contract_status ContractStatus.renewed c;
      successor = some (with_contract_status ContractStatus.active g);
    })
    × (t.contracts ≡ activated g (superseded c g s.contracts))
IsStarted none c g s o t =
    (o ≡ record {
      kind = ExpiryKind.auto_renewal_blocked;
      contract = with_contract_status ContractStatus.renewed c;
      successor = some g;
    })
    × (t.contracts ≡ superseded c g s.contracts)

-- A contract that renews itself: its successor has its terms, for the term that follows.
abbrev pub IsSucceeded : Contract → Fleet → ExpiryOutcome → Fleet → Type 0
IsSucceeded c s o t =
    (g : Contract) × (g
      ≡ successor_of c s.next_id g.contract_number (next_term c.start_date c.end_date).0
          (next_term c.start_date c.end_date).1 true)
    × IsStarted c.vat_rate c g s o t

abbrev pub IsEnded : Bool → Contract → Fleet → ExpiryOutcome → Fleet → Type 0
IsEnded true c s o t = IsSucceeded c s o t
IsEnded false c s o t = IsLetGo c s o t

abbrev pub is_running : Contract → ℕ → Bool
is_running c today = not (is_active_contract c.status) || leb today c.end_date

abbrev pub IsExpired : Contract → ℕ → Fleet → Option ExpiryOutcome → Fleet → Type 0
IsExpired c today s none t = (t ≡ s) × (is_running c today ≡ true)
IsExpired c today s (some o) t =
    (any (is_open_in c.id) t.lines ≡ false)
    × (is_running c today ≡ false)
    × IsEnded c.auto_renew c s o t

module _ (c : Contract) (s : Fleet) where
  with_flag :
      (o : ExpiryOutcome) (t : Fleet) (b : Bool)
      → c.auto_renew ≡ b
      → IsEnded b c s o t
      → IsEnded c.auto_renew c s o t
  with_flag o t b e h = subst (λ x. IsEnded x c s o t) (sym e) h

  with_rate :
      (g : Contract) (o : ExpiryOutcome) (t : Fleet) (v : Option ℕ)
      → v ≡ c.vat_rate
      → IsStarted v c g s o t
      → IsStarted c.vat_rate c g s o t
  with_rate g o t v e h = subst (λ x. IsStarted x c g s o t) e h

module _ (c : Contract) (today : ℕ) (s : Fleet) (past : is_running c today ≡ false) where
  let_go-IsExpired : c.auto_renew ≡ false → Ends (λ _. Unit {0}) (IsExpired c today s) (let_go c) s
  unfolding let_go save_contract_status
  let_go-IsExpired once = Ends-gets _ _ _ (
      Ends-bind _ _ s
        (Ends-also _ _ _ _ s
          (Keeps-for_each _ _ λ r. end_line-contracts s.contracts (c.end_date + 1) r) refl
          (end_lines c.id _ _ s (all-Left c.id s.lines)))
        λ _ t closed. Ends-modify _ _ _ (
          Ends-pure _ _ (
            closed.0,
            past,
            with_flag c s _ _ false once (
              refl,
              ap (update (is_contract c.id) (with_contract_status ContractStatus.expired)) closed.1,
            ),
          )))

  start_successor-IsExpired :
      (g : Contract) (t : Fleet) (rate : Option ℕ)
      → rate ≡ c.vat_rate
      → c.auto_renew ≡ true
      → any (is_open_in c.id) t.lines ≡ false
      → g
        ≡ successor_of c s.next_id g.contract_number
            (next_term c.start_date c.end_date).0
            (next_term c.start_date c.end_date).1
            true
      → t.contracts ≡ superseded c g s.contracts
      → Ends (λ _. Unit {0}) (IsExpired c today s) (start_successor rate c g) t
  unfolding start_successor activate_successor save_contract_status
  start_successor-IsExpired g t none same again closed row table = Ends-pure _ _ (
    closed,
    past,
    with_flag c s _ _ true again (g, row, with_rate c s _ _ _ none same (refl, table)),
  )
  start_successor-IsExpired g t (some rate) same again closed row table = Ends-modify _ _ _ (
      Ends-pure _ _ (
        closed,
        past,
        with_flag c s _ _ true again (
          g,
          row,
          with_rate c s _ _ _ (some rate) same (
            refl,
            ap (update (is_contract g.id) (with_contract_status ContractStatus.active)) table,
          ),
        ),
      ))

  renew_at_end-IsExpired :
      c.id < s.next_id
      → c.auto_renew ≡ true
      → Ends (λ _. Unit {0}) (IsExpired c today s) (renew_at_end c) s
  unfolding renew_at_end
  renew_at_end-IsExpired fresh again =
      Ends-bind _ _ s
        (Ends-weaken _ s (λ _ _. tt) (λ _ _ h. h) (renew-IsReleased c _ _ true true s fresh))
        λ g t h.
          start_successor-IsExpired g t g.vat_rate (ap (λ (r : Contract). r.vat_rate) h.1) again h.0
            h.1 h.2

-- `expire` leaves everything as it is where the contract is not active or has days left. Where it
-- has run out, and the call returns, none of its lines is open. If it does not renew itself, it is
-- marked expired. If it does, it is marked renewed, and the table gains a successor with its terms
-- for the term that follows: active where there is a VAT rate, and a draft where there is none.
-- The answer says which, and no other contract changes. Where it raises, nothing has changed. The
-- contract's key is one that was given out before.
pub expire-IsExpired :
    (c : Contract) (today : ℕ) (s : Fleet)
    → c.id < s.next_id
    → Ends (λ t. t ≡ s) (IsExpired c today s) (expire c today) s
unfolding expire
expire-IsExpired c today s fresh = Ends-atomic {X = λ _. Unit {0}} _ s refl (
    Ends-if (is_running c today) _ _ s (λ running. Ends-pure _ _ (refl, running))
      λ past.
        Ends-if c.auto_renew _ _ s (renew_at_end-IsExpired c today s past fresh)
          (let_go-IsExpired c today s past))
