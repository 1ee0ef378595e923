-- ===== src/Idempotency/Tests.antt =====
-- core/idempotency.py on concrete requests: a create that counts how often it ran.
use shiftlush_api.Prelude.{ℕ, ◌+◌, ◌≡◌, refl, false, some, find, any, [], ◌∷◌, arith}
use shiftlush_api.Errors.{
  conflict, idempotency_key_in_flight, idempotency_key_reused, record_in_use,
}
use shiftlush_api.Action.{ok, err, Action, gets, modify, pure, ◌>>=◌}
use shiftlush_api.Idempotency.Fencing.{taken_over_fenced}
use shiftlush_api.Idempotency.Table.{
  Reservation, take_over, is_abandoned, Response, as_stored, IdempotencyKey, Keys, Request, in_slot,
  create_key, new_key,
}
use shiftlush_api.Idempotency.{
  complete, release, ticked, here, then_step, Served, replay_protected, reserve, reserve_in,
}
use shiftlush_api.Idempotency.Replay.{reuse_refused}
use shiftlush_api.Idempotency.Once.{replay_protected_once}
use shiftlush_api.Idempotency.Again.{raised, failure_retriable}

abbrev made : Response
made = record { status = 201; body = some (record { value = 7; as_json = 8 }) }

abbrev count : Action ℕ Response
count n = (ok made, n + 1)

abbrev fail : Action ℕ Response
fail n = (err (conflict idempotency_key_in_flight), n + 1)

abbrev a_request : Request
a_request = record { slot = 3; endpoint = 1; fingerprint = 44; retention = 86400 }

abbrev a_table : Keys
a_table = record {
  now = 1000;
  next_id = 5;
  rows = new_key (record { slot = 2; endpoint = 1; fingerprint = 9; retention = 86400 }) 990 4 ∷ [];
}

abbrev a_server : Served ℕ
a_server = record { keys = a_table; world = 0 }

-- The table after the first request, and some time later.
abbrev later : ℕ → Served ℕ
later n =
    let s = (replay_protected count a_request a_server).1 in
    record { keys = record s.keys { now = s.keys.now + n }; world = s.world }

replay_protected_once_example :
    (replay_protected count a_request a_server).0 ≡ ok made
    × (replay_protected count a_request a_server).1.world ≡ 1
    × replay_protected count a_request (later 500) ≡ (ok (as_stored made), later 500)
unfolding any replay_protected reserve reserve_in ◌>>=◌ create_key
replay_protected_once_example =
    replay_protected_once count a_request a_server made 1 refl refl refl a_request (later 500)
      (then_step _ _ _ (ticked _ 500) (here _)) (omega arith) refl refl refl

failure_retriable_example :
    (replay_protected fail a_request a_server).0 ≡ err (conflict idempotency_key_in_flight)
    × (replay_protected fail a_request a_server).1.world ≡ 0
    × any (in_slot 3) (replay_protected fail a_request a_server).1.keys.rows ≡ false
unfolding any
failure_retriable_example =
    failure_retriable fail a_request a_server 1 (err (conflict idempotency_key_in_flight)) refl refl
      (raised _)

abbrev stored_key : IdempotencyKey
stored_key = record (new_key a_request 1000 5) { response = some made }

abbrev stored_table : Keys
stored_table = record { now = 1000; next_id = 6; rows = stored_key ∷ [] }

abbrev much_later : Served ℕ
much_later = record { keys = record stored_table { now = 1500 }; world = 1 }

abbrev another_body : Request
another_body = record a_request { fingerprint = 45 }

reuse_refused_example :
    replay_protected count another_body much_later
    ≡ (err (record_in_use idempotency_key_reused), much_later)
unfolding find
reuse_refused_example =
    reuse_refused count stored_key another_body made stored_table much_later
      (record { found = refl; answered = refl }) (then_step _ _ _ (ticked _ 500) (here _))
      (omega arith) refl refl

-- A first request that hangs, and the table when another takes its key over.
abbrev hung : Reservation
hung = record { pk = 5; reserved_at = 1000 }

abbrev hung_table : Keys
hung_table = record { now = 1100; next_id = 6; rows = new_key a_request 1000 5 ∷ [] }

abbrev table_after : Keys
table_after = (take_over 5 (is_abandoned 5 1100) a_request 1100 hung_table).1

taken_over_fenced_example :
    complete hung made 86400 table_after ≡ (ok false, table_after)
    × release hung table_after ≡ (ok tt, table_after)
unfolding any
taken_over_fenced_example =
    taken_over_fenced hung a_request 1100 hung_table table_after made 86400 (omega arith)
      (omega arith) (omega arith) refl (here _)

-- Another request did take it over.
take_over_abandoned :
    (take_over 5 (is_abandoned 5 1100) a_request 1100 hung_table).0
    ≡ ok (some (record { pk = 5; reserved_at = 1100 }))
unfolding take_over gets modify pure ◌>>=◌ any
take_over_abandoned = refl
