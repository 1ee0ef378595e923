-- ===== src/Contracts/Calls.antt =====
-- apps/contracts/services.py: sequences of calls that open and close the lines of contracts.
use shiftlush_api.Prelude.{ℕ, Bool, Option, List, [], ◌∷◌, Text}
use shiftlush_api.Action.{Action, ⊤, pure, ◌>>◌}
use shiftlush_api.Fleet.{Contract, Fleet}
use shiftlush_api.Contracts.{add_elevators, remove_elevator, terminate}
use shiftlush_api.Contracts.Renewal.{renew, expire}

pub data LineCall : Type 0 where
  add : Contract → List ℕ → Option ℕ → LineCall
  remove : Contract → ℕ → LineCall
  finish : Contract → ℕ → Text → LineCall
  supersede : Contract → ℕ → ℕ → Bool → Bool → LineCall
  run_out : Contract → ℕ → LineCall

unfoldable pub run : LineCall → Action Fleet ⊤
run (add contract elevator_ids unit_price) =
    add_elevators contract elevator_ids unit_price >> pure tt
run (remove contract elevator) = remove_elevator contract elevator
run (finish contract day reason) = terminate contract day reason >> pure tt
run (supersede contract start end carry_elevators copy_terms) =
    renew contract start end carry_elevators copy_terms >> pure tt
run (run_out contract today) = expire contract today >> pure tt

unfoldable pub run_all : List LineCall → Fleet → Fleet
run_all [] s = s
run_all (c ∷ cs) s = run_all cs (run c s).1
