-- ===== src/Idempotency.antt =====
-- core/idempotency.py: the reservation of a key, and the wrapper around a view that creates.
pub mod Table
pub mod Kept
pub mod Replay
pub mod Once
pub mod Again
pub mod Fencing
pub mod Tests
use shiftlush_api.Prelude.{
  ℕ, suc, zero, ◌+◌, ◌≤◌, Bool, true, false, not, ◌&&◌, ◌||◌, Option, none, some, List, [], ◌∷◌,
  ◌++◌, find, any, update, select, is_none, ltb, leb, ◌==◌, if◌then◌else◌,
}
use shiftlush_api.Errors.{
  Error, bad_request, conflict, record_in_use, integrity_error, idempotency_key_required,
  idempotency_key_reused, idempotency_key_in_flight,
}
use shiftlush_api.Action.{
  Result, ok, err, Action, ⊤, pure, raise, gets, raise_if, modify, ◌>>=◌, ◌>>◌,
}
use shiftlush_api.Idempotency.Table.{
  Response, as_stored, IdempotencyKey, Keys, Request, Reservation, pending_timeout, in_slot,
  is_mine, has_expired, is_abandoned, create_key, take_over,
}

pub data Reserved : Type 0 where
  reserved : Reservation → Reserved
  stored : Response → Reserved

-- The reservation, or another look.
abbrev pub or_again : Option Reservation → Action Keys Reserved → Action Keys Reserved
or_again (some r) again = pure (reserved r)
or_again none again = again

-- The answer of a row that is neither expired nor another request's.
abbrev pub answer_of :
    IdempotencyKey → Request → ℕ → Option Response → Action Keys Reserved → Action Keys Reserved
answer_of k q now (some response) again = pure (stored response)
answer_of k q now none again =
    if ltb now (k.created_at + pending_timeout)
    then raise (conflict idempotency_key_in_flight)
    else (take_over k.id (is_abandoned k.id now) q now >>= λ taken. or_again taken again)

unfoldable pub meet : IdempotencyKey → Request → ℕ → Action Keys Reserved → Action Keys Reserved
meet k q now again =
    if leb k.expires_at now
    then (take_over k.id (has_expired k.id now) q now >>= λ taken. or_again taken again)
    else if not (k.request_hash == q.fingerprint) || not (k.endpoint == q.endpoint)
    then raise (record_in_use idempotency_key_reused)
    else answer_of k q now k.response again

-- The row of the slot, after an insert that it refused. None is the race with a release, once.
abbrev pub look :
    Option IdempotencyKey → Bool → Request → ℕ → Action Keys Reserved → Action Keys Reserved
look (some k) first q now again = meet k q now again
look none true q now again = again
look none false q now again = raise integrity_error

abbrev pub or_look :
    Option Reservation → Bool → Request → ℕ → Action Keys Reserved → Action Keys Reserved
or_look (some r) first q now again = pure (reserved r)
or_look none first q now again =
    gets (λ s. find (in_slot q.slot) s.rows) >>= λ found. look found first q now again

-- The loop of `_reserve`, over the attempts that are left.
unfoldable pub reserve_in : ℕ → Bool → Request → Action Keys Reserved
reserve_in zero first q = raise (conflict idempotency_key_in_flight)
reserve_in (suc attempts) first q =
    let again = reserve_in attempts false q in
    gets (λ s. s.now) >>= λ now. create_key q now >>= λ made. or_look made first q now again

unfoldable pub reserve : Request → Action Keys Reserved
reserve q = reserve_in 3 true q

-- `_release`
unfoldable pub release : Reservation → Action Keys ⊤
release r = modify λ s. record s { rows = select (λ k. not (is_mine r k)) s.rows }

abbrev pub completed : Response → ℕ → IdempotencyKey → IdempotencyKey
completed response expires_at k = record k {
  response = some (as_stored response);
  expires_at = expires_at;
}

-- `_complete`: false is `_ReservationLost`.
unfoldable pub complete : Reservation → Response → ℕ → Action Keys Bool
complete r response retention = do
  now ← gets (λ s. s.now)
  matched ← gets (λ s. any (is_mine r) s.rows)
  modify (λ s. record s { rows = update (is_mine r) (completed response (now + retention)) s.rows })
  pure matched

-- `purge_expired_keys`
unfoldable pub purge_expired_keys : Action Keys ⊤
purge_expired_keys =
    modify λ s. record s { rows = select (λ k. not (leb k.expires_at s.now)) s.rows }

-- A table of keys beside what the handlers write.
pub record Served (W : Type 0) : Type 0 where
  pub keys : Keys
  pub world : W

abbrev pub is_success : ℕ → Bool
is_success status = leb 200 status && ltb status 300

module _ {W : Type 0} (s : Served W) where
  -- The work stands if the answer could be stored with it.
  abbrev pub finish : Response → W → Result Bool × Keys → Result Response × Served W
  finish response w (ok true, keys) = (ok response, record { keys = keys; world = w })
  finish response w (ok false, keys) =
      (err (conflict idempotency_key_in_flight), record { keys = keys; world = s.world })
  finish response w (err e, keys) = (err e, record { keys = keys; world = s.world })

  -- The handler's work is undone, and the key let go.
  abbrev pub let_go : Result Response → Reservation → Keys → Result Response × Served W
  let_go outcome r keys = (outcome, record { keys = (release r keys).1; world = s.world })

  abbrev pub after_work :
      Request → Reservation → Keys → Result Response × W → Result Response × Served W
  after_work q r keys (err e, w) = let_go (err e) r keys
  after_work q r keys (ok response, w) =
      if is_success response.status
      then finish response w (complete r response q.retention keys)
      else let_go (ok response) r keys

  abbrev pub after_reserve :
      Action W Response → Request → Result Reserved × Keys → Result Response × Served W
  after_reserve handler q (err e, keys) = (err e, record { keys = keys; world = s.world })
  after_reserve handler q (ok (stored response), keys) =
      (ok response, record { keys = keys; world = s.world })
  after_reserve handler q (ok (reserved r), keys) = after_work q r keys (handler s.world)

-- `replay_protected`, for a request with a key.
unfoldable pub replay_protected :
    {W : Type 0} → Action W Response → Request → Action (Served W) Response
unfolding release complete
replay_protected handler q s = after_reserve s handler q (reserve q s.keys)

-- And for any request: one without the header is refused by a view that needs it, and is not
-- protected by another.
unfoldable pub wrapper :
    {W : Type 0} → Bool → Option Request → Action W Response → Action (Served W) Response
wrapper required (some q) handler s = replay_protected handler q s
wrapper true none handler s = (err (bad_request idempotency_key_required), s)
wrapper false none handler s =
    let result = handler s.world in (result.0, record { keys = s.keys; world = result.1 })

-- What requests do to the table, each as one transaction, in any order. A request acts by a time
-- that it read before.
pub data Step : Keys → Keys → Type 0 where
  ticked : (s : Keys) (n : ℕ) → Step s (record s { now = s.now + n })
  created : (s : Keys) (q : Request) (at : ℕ) → at ≤ s.now → Step s (create_key q at s).1
  took_expired :
      (s : Keys) (q : Request) (pk at : ℕ)
      → at ≤ s.now
      → Step s (take_over pk (has_expired pk at) q at s).1
  took_abandoned :
      (s : Keys) (q : Request) (pk at : ℕ)
      → at ≤ s.now
      → Step s (take_over pk (is_abandoned pk at) q at s).1
  released : (s : Keys) (r : Reservation) → Step s (release r s).1
  finished :
      (s : Keys) (r : Reservation) (response : Response) (retention : ℕ)
      → Step s (complete r response retention s).1
  purged : (s : Keys) → Step s (purge_expired_keys s).1

pub data Steps : Keys → Keys → Type 0 where
  here : (s : Keys) → Steps s s
  then_step : (s t u : Keys) → Step s t → Steps t u → Steps s u
