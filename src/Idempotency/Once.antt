-- ===== src/Idempotency/Once.antt =====
-- core/idempotency.py: the first request under a key, and the retries of it.
use shiftlush_api.Prelude.{
  ◌+◌, ◌<◌, ◌≡◌, refl, ap, true, false, some, List, [], ◌∷◌, ◌++◌, find, any, update, ◌==◌,
  Bool-cases, inl, inr, arith,
}
use mathlib.Core.Path.{subst}
use shiftlush_api.Action.{Result, ok, Action, modify, gets, pure, ◌>>=◌}
use shiftlush_api.Idempotency.Table.{
  Response, as_stored, IdempotencyKey, Keys, Request, Reservation, in_slot, is_mine, new_key,
  create_key,
}
use shiftlush_api.Idempotency.{
  completed, complete, Steps, reserve, reserve_in, reserved, Served, replay_protected, is_success,
  finish,
}
use shiftlush_api.Idempotency.Kept.{IsAnswered}
use shiftlush_api.Idempotency.Replay.{retry_replayed}

-- The row that the first request under a free key leaves.
abbrev answered_key : Request → Response → Keys → IdempotencyKey
answered_key q response s = completed response (s.now + q.retention) (new_key q s.now s.next_id)

abbrev pub after_create : Request → Keys → Keys
after_create q s = record s {
  rows = s.rows ++ (new_key q s.now s.next_id ∷ []);
  next_id = s.next_id + 1;
}

module _ (q : Request) (s : Keys) where
  abbrev pub token : Reservation
  token = record { pk = s.next_id; reserved_at = s.now }

  pub reserve-free :
      any (in_slot q.slot) s.rows ≡ false → reserve q s ≡ (ok (reserved token), after_create q s)
  unfolding reserve reserve_in create_key gets modify pure ◌>>=◌
  reserve-free h = rw (h) refl

  pub token-is_mine : is_mine token (new_key q s.now s.next_id) ≡ true
  token-is_mine = ground arith

  any-new :
      (ks : List IdempotencyKey)
      → any (is_mine token) (ks ++ (new_key q s.now s.next_id ∷ [])) ≡ true
  unfolding any
  any-new [] = rw (token-is_mine) refl
  any-new (x ∷ ks) =
      rw (any-new ks)
        (elim (Bool-cases (is_mine token x)) [ inl e ↦ rw (e) refl | inr e ↦ rw (e) refl ])

module _ (q : Request) (s : Keys) (response : Response) where
  find-new :
      (ks : List IdempotencyKey)
      → any (in_slot q.slot) ks ≡ false
      → find (in_slot q.slot) (
          update
            (is_mine (token q s))
            (completed response (s.now + q.retention))
            (ks ++ (new_key q s.now s.next_id ∷ [])))
        ≡ some (answered_key q response s)
  unfolding any find update
  find-new [] h =
      let self : (q.slot == q.slot) ≡ true = ground arith in rw (token-is_mine q s) (rw (self) refl)
  find-new (x ∷ ks) h =
      let other : in_slot q.slot x ≡ false = ground arith in
      let rest : any (in_slot q.slot) ks ≡ false = ground arith in
      elim (Bool-cases (is_mine (token q s) x)) [
        | inl e ↦ rw (e) (rw (other) (find-new ks rest))
        | inr e ↦ rw (e) (rw (other) (find-new ks rest))
      ]

  complete-token : (complete (token q s) response q.retention (after_create q s)).0 ≡ ok true
  unfolding complete gets modify pure ◌>>=◌
  complete-token = rw (any-new q s s.rows) refl

  complete-IsAnswered :
      any (in_slot q.slot) s.rows ≡ false
      → IsAnswered
          (answered_key q response s)
          (as_stored response)
          (complete (token q s) response q.retention (after_create q s)).1
  unfolding complete gets modify pure ◌>>=◌
  complete-IsAnswered h = record { found = find-new s.rows h; answered = refl }

module _ {W : Type 0} (handler : Action W Response) (q : Request) (s : Served W)
    (response : Response) (w : W) where
  abbrev served : Keys → Result Response × Served W
  served keys = (ok response, record { keys = keys; world = w })

  first-serves :
      any (in_slot q.slot) s.keys.rows ≡ false
      → handler s.world ≡ (ok response, w)
      → is_success response.status ≡ true
      → replay_protected handler q s
        ≡ served (complete (token q s.keys) response q.retention (after_create q s.keys)).1
  unfolding replay_protected
  first-serves free h good = rw (reserve-free q s.keys free) (
      rw (h) (
        rw (good) (
          ap
            (λ outcome.
              finish s response w (
                outcome,
                (complete (token q s.keys) response q.retention (after_create q s.keys)).1,
              ))
            (complete-token q s.keys response))))

  -- The first request under a free key runs the handler and answers what it answers, where that is
  -- a success. A retry of the same request then gets that answer as it is stored and changes nothing,
  -- whatever requests came between, until the key expires: the same status, and the data as JSON
  -- gives it back, or none where the answer had none.
  pub replay_protected_once :
      any (in_slot q.slot) s.keys.rows ≡ false
      → handler s.world ≡ (ok response, w)
      → is_success response.status ≡ true
      → (again : Request) (t : Served W) → Steps (replay_protected handler q s).1.keys t.keys
      → t.keys.now < s.keys.now + q.retention
      → q.slot ≡ again.slot
      → q.endpoint ≡ again.endpoint
      → q.fingerprint ≡ again.fingerprint
      → (replay_protected handler q s).0 ≡ ok response
        × (replay_protected handler q s).1.world ≡ w
        × replay_protected handler again t ≡ (ok (as_stored response), t)
  replay_protected_once free h good again t steps soon slot endpoint fingerprint =
      let first = first-serves free h good in
      (
        ap (λ r. r.0) first,
        ap (λ r. r.1.world) first,
        retry_replayed handler (answered_key q response s.keys) again (as_stored response) _ t
            (complete-IsAnswered q s.keys response free)
            (subst (λ keys. Steps keys t.keys) (ap (λ r. r.1.keys) first) steps) soon
            (record { slot = slot; endpoint = endpoint; fingerprint = fingerprint }),
      )
