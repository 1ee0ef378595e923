-- ===== src/Idempotency/Table.antt =====
-- core/idempotency.py: the table of keys, and the two writes that reserve a key. Times are seconds.
-- The company, the principal and the text of a key are one number here, the slot; a body is known by
-- its fingerprint.
use shiftlush_api.Prelude.{
  ℕ, ◌+◌, Bool, not, ◌&&◌, Option, none, some, List, [], ◌∷◌, ◌++◌, any, update, is_none, ltb, leb,
  ◌==◌, if◌then◌else◌,
}
use shiftlush_api.Action.{Action, pure, gets, modify, ◌>>=◌, ◌>>◌}

-- What a handler answers with, and what JSON gives back of it: `json.loads(json.dumps(data,
-- default=str))`, a library's, so any number here.
pub record Data : Type 0 where
  pub value : ℕ
  pub as_json : ℕ

-- A status, and `.data` where the response has it; a plain or a file response has none.
pub record Response : Type 0 where
  pub status : ℕ
  pub body : Option Data

-- What is given back of JSON is given back of it again.
abbrev pub json_of : Option Data → Option Data
json_of none = none
json_of (some d) = some (record { value = d.as_json; as_json = d.as_json })

-- The answer as its row keeps it, and as it is replayed.
abbrev pub as_stored : Response → Response
as_stored response = record response { body = json_of response.body }

pub record IdempotencyKey : Type 0 where
  pub id : ℕ
  pub slot : ℕ
  pub endpoint : ℕ
  pub request_hash : ℕ
  pub response : Option Response
  pub created_at : ℕ
  pub expires_at : ℕ

pub record Keys : Type 0 where
  pub now : ℕ
  pub next_id : ℕ
  pub rows : List IdempotencyKey

-- What a request asks: the slot, the endpoint, the fingerprint, and how long its answer is kept.
pub record Request : Type 0 where
  pub slot : ℕ
  pub endpoint : ℕ
  pub fingerprint : ℕ
  pub retention : ℕ

pub record Reservation : Type 0 where
  pub pk : ℕ
  pub reserved_at : ℕ

abbrev pub pending_timeout : ℕ
pending_timeout = 60

abbrev pub in_slot : ℕ → IdempotencyKey → Bool
in_slot slot k = k.slot == slot

abbrev pub is_pending : IdempotencyKey → Bool
is_pending k = is_none k.response

-- `reservation.mine()`
abbrev pub is_mine : Reservation → IdempotencyKey → Bool
is_mine r k = k.id == r.pk && k.created_at == r.reserved_at && is_pending k

-- The conditions of the two takeovers, at the time `now`.
abbrev pub has_expired : ℕ → ℕ → IdempotencyKey → Bool
has_expired pk now k = k.id == pk && leb k.expires_at now

abbrev pub is_abandoned : ℕ → ℕ → IdempotencyKey → Bool
is_abandoned pk now k = k.id == pk && is_pending k && ltb (k.created_at + pending_timeout) now

abbrev pub new_key : Request → ℕ → ℕ → IdempotencyKey
new_key q now id = record {
  id = id;
  slot = q.slot;
  endpoint = q.endpoint;
  request_hash = q.fingerprint;
  response = none;
  created_at = now;
  expires_at = now + q.retention;
}

-- `IdempotencyKey.objects.create(...)`: none where the slot has a row.
unfoldable pub create_key : Request → ℕ → Action Keys (Option Reservation)
create_key q now = do
  taken ← gets (λ s. any (in_slot q.slot) s.rows)
  if taken then pure none else do
    id ← gets (λ s. s.next_id)
    modify (λ s. record s { rows = s.rows ++ (new_key q now id ∷ []); next_id = id + 1 })
    pure (some (record { pk = id; reserved_at = now }))

abbrev pub taken_over : Request → ℕ → IdempotencyKey → IdempotencyKey
taken_over q now k = record k {
  endpoint = q.endpoint;
  request_hash = q.fingerprint;
  response = none;
  created_at = now;
  expires_at = now + q.retention;
}

-- `_take_over`: the candidates are those with `condition`, and a key is of one row.
unfoldable pub take_over :
    ℕ → (IdempotencyKey → Bool) → Request → ℕ → Action Keys (Option Reservation)
take_over pk condition q now = do
  matched ← gets (λ s. any condition s.rows)
  if not matched then pure none else do
    modify (λ s. record s { rows = update condition (taken_over q now) s.rows })
    pure (some (record { pk = pk; reserved_at = now }))
