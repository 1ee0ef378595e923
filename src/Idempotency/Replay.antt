-- ===== src/Idempotency/Replay.antt =====
-- core/idempotency.py: the retry of a request whose answer is stored.
use shiftlush_api.Prelude.{
  ℕ, ◌<◌, ◌≡◌, refl, true, false, not, ◌&&◌, ◌||◌, some, List, [], ◌∷◌, find, any, leb, ◌==◌,
  Bool-cases, inl, inr, arith,
}
use shiftlush_api.Errors.{record_in_use, idempotency_key_reused}
use shiftlush_api.Action.{ok, err, Action, gets, pure, raise, ◌>>=◌}
use shiftlush_api.Idempotency.Table.{Response, IdempotencyKey, Keys, Request, in_slot, create_key}
use shiftlush_api.Idempotency.{
  Steps, reserve, reserve_in, meet, Reserved, stored, Served, replay_protected,
}
use shiftlush_api.Idempotency.Kept.{IsAnswered, Steps-IsAnswered}
use mathlib.Core.Path.{subst}

-- The same request, sent again.
pub record IsRetryOf (k : IdempotencyKey) (q : Request) : Type 0 where
  pub slot : k.slot ≡ q.slot
  pub endpoint : k.endpoint ≡ q.endpoint
  pub fingerprint : k.request_hash ≡ q.fingerprint

module _ (slot : ℕ) (k : IdempotencyKey) where
  any-found :
      (ks : List IdempotencyKey) → find (in_slot slot) ks ≡ some k → any (in_slot slot) ks ≡ true
  unfolding find any
  any-found [] h = cc
  any-found (x ∷ ks) h = elim (Bool-cases (in_slot slot x)) [
    | inl e ↦ rw (e) refl
    | inr e ↦ rw (e) (any-found ks (rw (e) at h))
  ]

module _ (k : IdempotencyKey) (q : Request) where
  reserve-met :
      (s : Keys)
      → find (in_slot q.slot) s.rows ≡ some k
      → reserve q s ≡ meet k q s.now (reserve_in 2 false q) s
  unfolding reserve reserve_in create_key gets pure ◌>>=◌
  reserve-met s h = rw (any-found q.slot k s.rows h, h) refl

  met_late :
      (s : Keys) (again : Action Keys Reserved) (response : Response)
      → s.now < k.expires_at
      → k.endpoint ≡ q.endpoint
      → k.request_hash ≡ q.fingerprint
      → k.response ≡ some response
      → meet k q s.now again s ≡ (ok (stored response), s)
  unfolding meet pure
  met_late s again response soon path body h =
      let alive : leb k.expires_at s.now ≡ false = ground arith in
      let one : (k.request_hash == q.fingerprint) ≡ true = ground arith in
      let two : (k.endpoint == q.endpoint) ≡ true = ground arith in rw (alive, one, two, h) refl

  -- Another request under the key.
  met_other :
      (s : Keys) (again : Action Keys Reserved)
      → s.now < k.expires_at
      → ((k.request_hash == q.fingerprint) && (k.endpoint == q.endpoint)) ≡ false
      → meet k q s.now again s ≡ (err (record_in_use idempotency_key_reused), s)
  unfolding meet raise
  met_other s again soon other =
      let alive : leb k.expires_at s.now ≡ false = ground arith in
      let differs : (not (k.request_hash == q.fingerprint) || not (k.endpoint == q.endpoint))
          ≡ true =
        ground arith in
      rw (alive, differs) refl

module _ {W : Type 0} (handler : Action W Response) (k : IdempotencyKey) (q : Request)
    (response : Response) where
  -- An answer that was stored under a key is what a retry gets until the key expires, whatever
  -- requests came between, and the handler does not run again.
  pub retry_replayed :
      (s : Keys) (t : Served W)
      → IsAnswered k response s
      → Steps s t.keys
      → t.keys.now < k.expires_at
      → IsRetryOf k q
      → replay_protected handler q t ≡ (ok response, t)
  unfolding replay_protected
  retry_replayed s t h steps soon same =
      let still = Steps-IsAnswered k response steps soon h in
      let found : find (in_slot q.slot) t.keys.rows ≡ some k =
        subst (λ n. find (in_slot n) t.keys.rows ≡ some k) same.slot still.found in
      rw (reserve-met k q t.keys found) (
        rw
          (met_late k q t.keys (reserve_in 2 false q) response soon same.endpoint same.fingerprint
            still.answered)
          refl)

  -- A key that has an answer refuses a request with another body or to another endpoint until it
  -- expires, and nothing changes.
  pub reuse_refused :
      (s : Keys) (t : Served W)
      → IsAnswered k response s
      → Steps s t.keys
      → t.keys.now < k.expires_at
      → k.slot ≡ q.slot
      → ((k.request_hash == q.fingerprint) && (k.endpoint == q.endpoint)) ≡ false
      → replay_protected handler q t ≡ (err (record_in_use idempotency_key_reused), t)
  unfolding replay_protected
  reuse_refused s t h steps soon slot other =
      let still = Steps-IsAnswered k response steps soon h in
      let found : find (in_slot q.slot) t.keys.rows ≡ some k =
        subst (λ n. find (in_slot n) t.keys.rows ≡ some k) slot still.found in
      rw (reserve-met k q t.keys found)
        (rw (met_other k q t.keys (reserve_in 2 false q) soon other) refl)
