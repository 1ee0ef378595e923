-- ===== src/Idempotency/Again.antt =====
-- core/idempotency.py: first requests that fail.
use shiftlush_api.Prelude.{
  ◌≡◌, refl, ap, ◌∙◌, false, not, List, [], ◌∷◌, ◌++◌, any, select, Bool-cases, inl, inr, arith,
}
use shiftlush_api.Errors.{Error}
use shiftlush_api.Action.{Result, ok, err, Action, modify}
use shiftlush_api.Idempotency.Table.{
  Response, IdempotencyKey, Keys, Request, in_slot, is_mine, new_key,
}
use shiftlush_api.Idempotency.{release, Served, replay_protected, is_success, let_go}
use shiftlush_api.Idempotency.Once.{token, token-is_mine, after_create, reserve-free}

module _ (q : Request) (s : Keys) where
  select-free :
      (ks : List IdempotencyKey)
      → any (in_slot q.slot) ks ≡ false
      → any
          (in_slot q.slot)
          (select (λ k. not (is_mine (token q s) k)) (ks ++ (new_key q s.now s.next_id ∷ [])))
        ≡ false
  unfolding any select
  select-free [] h = rw (token-is_mine q s) refl
  select-free (x ∷ ks) h =
      let other : in_slot q.slot x ≡ false = ground arith in
      let rest : any (in_slot q.slot) ks ≡ false = ground arith in
      elim (Bool-cases (is_mine (token q s) x)) [
        | inl e ↦ rw (e) (select-free ks rest)
        | inr e ↦ rw (e) (rw (other) (select-free ks rest))
      ]

  release-free :
      any (in_slot q.slot) s.rows ≡ false
      → any (in_slot q.slot) (release (token q s) (after_create q s)).1.rows ≡ false
  unfolding release modify
  release-free h = select-free s.rows h

pub data IsFailure : Result Response → Type 0 where
  raised : (e : Error) → IsFailure (err e)
  refused : (response : Response) → is_success response.status ≡ false → IsFailure (ok response)

module _ {W : Type 0} (handler : Action W Response) (q : Request) (s : Served W) where
  failed_as :
      (w : W) (outcome : Result Response)
      → any (in_slot q.slot) s.keys.rows ≡ false
      → handler s.world ≡ (outcome, w)
      → IsFailure outcome
      → replay_protected handler q s ≡ let_go s outcome (token q s.keys) (after_create q s.keys)
  unfolding replay_protected
  failed_as w (err e) free h (raised _) = rw (reserve-free q s.keys free) (rw (h) refl)
  failed_as w (ok response) free h (refused _ bad) =
      rw (reserve-free q s.keys free) (rw (h) (rw (bad) refl))

  -- A handler that raises under a free key, or answers what is no success, has its answer handed
  -- on, its writes undone and its key free again.
  pub failure_retriable :
      (w : W) (outcome : Result Response)
      → any (in_slot q.slot) s.keys.rows ≡ false
      → handler s.world ≡ (outcome, w)
      → IsFailure outcome
      → (replay_protected handler q s).0 ≡ outcome
        × (replay_protected handler q s).1.world ≡ s.world
        × any (in_slot q.slot) (replay_protected handler q s).1.keys.rows ≡ false
  failure_retriable w outcome free h bad =
      let e = failed_as w outcome free h bad in
      (
        ap (λ r. r.0) e,
        ap (λ r. r.1.world) e,
        ap (λ r. any (in_slot q.slot) r.1.keys.rows) e ∙ release-free q s.keys free,
      )
