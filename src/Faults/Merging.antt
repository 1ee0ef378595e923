-- ===== src/Faults/Merging.antt =====
-- What a second public report makes of a fault, and when a new fault finds a free reference.
use shiftlush_api.Prelude.{
  ℕ, zero, suc, ◌+◌, ◌<◌, ◌≤◌, ◌==◌, ==_iff, sym, ◌∙◌, true_and_false, ◌≡◌, refl, ap, true, false,
  Text, ◌∷◌, [], ◌++◌, any, arith, Bool-cases, inl, inr,
}
use shiftlush_api.Action.{ok, ◌>>=◌}
use shiftlush_api.Fleet.{Fault, Fleet}
use shiftlush_api.Faults.Reports.{uses_reference, insert, create_fault}

-- The fleet once the fault is created with the `j`-th reference.
abbrev pub after_insert : (ℕ → Text) → ℕ → (Text → ℕ → Fault) → Fleet → Fleet
after_insert nr j row s = record s {
  faults = s.faults ++ (row (nr j) s.next_id ∷ []);
  next_id = s.next_id + 1;
  drawn = j + 1;
}

-- Where one of the references that the attempts may draw is free, the first free one is taken: the
-- fault is answered and stored with it, under a fresh key, and nothing else is written.
pub insert_returns :
    (nr : ℕ → Text) (attempts company : ℕ) (row : Text → ℕ → Fault) (s : Fleet) (k : ℕ)
    → s.drawn ≤ k
    → k < s.drawn + attempts
    → any (uses_reference company (nr k)) s.faults ≡ false
    → (j : ℕ) × (s.drawn ≤ j)
      × (any (uses_reference company (nr j)) s.faults ≡ false)
      × ((i : ℕ) → s.drawn ≤ i → i < j → any (uses_reference company (nr i)) s.faults ≡ true)
      × (insert nr attempts company row s ≡ (ok (row (nr j) s.next_id), after_insert nr j row s))
unfolding insert create_fault ◌>>=◌
insert_returns nr zero company row s k from until e = absurd (omega arith)
insert_returns nr (suc n) company row s k from until e =
    let next : Fleet = record s { drawn = s.drawn + 1 } in
    elim (Bool-cases (any (uses_reference company (nr s.drawn)) s.faults)) [
      | inr free ↦ (s.drawn, omega arith, free, λ i a b. absurd (omega arith), rw free refl)
      | inl taken ↦ elim (Bool-cases (s.drawn == k)) [
        | inl same ↦
            let at_k : nr s.drawn ≡ nr k = ap nr ((==_iff s.drawn k).0 same) in
            true_and_false taken (ap (λ r. any (uses_reference company r) s.faults) at_k ∙ e)
        | inr apart ↦
            let (j, after, free, earlier, done) =
              insert_returns nr n company row next k (ground arith) (omega arith) e in
            (
              j,
              omega arith,
              free,
              λ i a b. elim (Bool-cases (s.drawn == i)) [
                | inl same ↦
                    ap (λ m. any (uses_reference company (nr m)) s.faults)
                      (sym ((==_iff s.drawn i).0 same))
                    ∙ taken
                | inr other ↦ earlier i (ground arith) b
              ],
              rw taken done,
            )
      ]
    ]
