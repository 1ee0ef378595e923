-- ===== src/Idempotency/Fencing.antt =====
-- core/idempotency.py: a request whose reservation was taken over.
use shiftlush_api.Prelude.{
  any-append, any-update, any-select, any-weaker, any-changed, update-unfound, select-unfound, ℕ,
  ◌≤◌, ◌<◌, ◌≡◌, ap, Bool, true, false, not, ◌&&◌, ◌||◌, any, update, leb, ◌==◌, Bool-cases, inl,
  inr, arith,
}
use shiftlush_api.Action.{ok, modify, gets, pure, ◌>>=◌}
use shiftlush_api.Idempotency.Table.{
  Response, IdempotencyKey, Keys, Request, Reservation, in_slot, is_mine, is_abandoned, new_key,
  taken_over, create_key, take_over,
}
use shiftlush_api.Idempotency.{
  release, complete, purge_expired_keys, Step, ticked, created, took_expired, took_abandoned,
  released, finished, purged, Steps, here, then_step,
}

module _ (r : Reservation) where
  -- A row of the reservation that is no later than it.
  abbrev is_level : IdempotencyKey → Bool
  is_level k = k.id == r.pk && (leb k.created_at r.reserved_at || leb k.expires_at r.reserved_at)

  record IsPast (s : Keys) : Type 0 where
    issued : r.pk < s.next_id
    earlier : r.reserved_at < s.now
    behind : any is_level s.rows ≡ false

  create_key-IsPast : (q : Request) (at : ℕ) (s : Keys) → IsPast s → IsPast (create_key q at s).1
  unfolding create_key gets modify pure ◌>>=◌
  create_key-IsPast q at s h =
      let issued = h.issued in
      let fresh : is_level (new_key q at s.next_id) ≡ false = ground arith in
      elim (Bool-cases (any (in_slot q.slot) s.rows)) [
        | inl e ↦ rw (e) h
        | inr e ↦ rw (e) (record {
          issued = omega arith;
          earlier = h.earlier;
          behind = any-append is_level s.rows (new_key q at s.next_id) h.behind fresh;
        })
      ]

  take_over-IsPast :
      (pk at : ℕ) (p : IdempotencyKey → Bool) (q : Request) (s : Keys)
      → ((x : IdempotencyKey)
          → p x ≡ true
          → is_level x ≡ false
          → is_level (taken_over q at x) ≡ false)
      → IsPast s
      → IsPast (take_over pk p q at s).1
  unfolding take_over gets modify pure ◌>>=◌
  take_over-IsPast pk at p q s later h = elim (Bool-cases (any p s.rows)) [
    | inl e ↦ rw (e) (record {
      issued = h.issued;
      earlier = h.earlier;
      behind = any-update is_level p (taken_over q at) s.rows later h.behind;
    })
    | inr e ↦ rw (e) h
  ]

  Step-IsPast : {s t : Keys} → Step s t → IsPast s → IsPast t
  unfolding release complete purge_expired_keys gets modify pure ◌>>=◌
  Step-IsPast (ticked s n) h =
      let earlier = h.earlier in
      record { issued = h.issued; earlier = omega arith; behind = h.behind }
  Step-IsPast (created s q at _) h = create_key-IsPast q at s h
  Step-IsPast (took_expired s q pk at _) h =
      take_over-IsPast pk at _ q s (λ x e off. ground arith) h
  Step-IsPast (took_abandoned s q pk at _) h =
      take_over-IsPast pk at _ q s (λ x e off. ground arith) h
  Step-IsPast (released s r') h = record {
    issued = h.issued;
    earlier = h.earlier;
    behind = any-select is_level _ s.rows h.behind;
  }
  Step-IsPast (finished s r' x retention) h =
      let earlier = h.earlier in
      record {
        issued = h.issued;
        earlier = h.earlier;
        behind = any-update is_level _ _ s.rows (λ k e off. ground arith) h.behind;
      }
  Step-IsPast (purged s) h = record {
    issued = h.issued;
    earlier = h.earlier;
    behind = any-select is_level _ s.rows h.behind;
  }

  Steps-IsPast : {s t : Keys} → Steps s t → IsPast s → IsPast t
  Steps-IsPast (here s) h = h
  Steps-IsPast (then_step s t u step rest) h = Steps-IsPast rest (Step-IsPast step h)

  not_mine : (s : Keys) → IsPast s → any (is_mine r) s.rows ≡ false
  not_mine s h = any-weaker is_level (is_mine r) s.rows (λ x off. ground arith) h.behind

  -- The row of the reservation, where it is not abandoned at the time.
  abbrev is_kept : ℕ → IdempotencyKey → Bool
  is_kept at k = k.id == r.pk && not (is_abandoned r.pk at k)

  taken_over-IsPast :
      (q : Request) (at : ℕ) (s : Keys)
      → r.pk < s.next_id
      → r.reserved_at < at
      → at ≤ s.now
      → any (is_kept at) s.rows ≡ false
      → IsPast (take_over r.pk (is_abandoned r.pk at) q at s).1
  unfolding take_over gets modify pure ◌>>=◌
  taken_over-IsPast q at s issued earlier past h =
      let behind : any is_level (update (is_abandoned r.pk at) (taken_over q at) s.rows) ≡ false =
        any-changed (is_kept at) is_level (is_abandoned r.pk at) (taken_over q at) s.rows
          (λ x off e. ground arith) (λ x off e. ground arith) h in
      elim (Bool-cases (any (is_abandoned r.pk at) s.rows)) [
        | inl e ↦ rw (e) (record { issued = issued; earlier = omega arith; behind = behind })
        | inr e ↦ rw (e) (record {
          issued = issued;
          earlier = omega arith;
          behind = rw (update-unfound (is_abandoned r.pk at) (taken_over q at) s.rows e) at behind;
        })
      ]

  complete-lost :
      (response : Response) (retention : ℕ) (s : Keys)
      → any (is_mine r) s.rows ≡ false
      → complete r response retention s ≡ (ok false, s)
  unfolding complete gets modify pure ◌>>=◌
  complete-lost response retention s h =
      rw (h)
        (ap (λ rows. (ok false, record s { rows = rows })) (update-unfound (is_mine r) _ s.rows h))

  release-lost : (s : Keys) → any (is_mine r) s.rows ≡ false → release r s ≡ (ok tt, s)
  unfolding release modify
  release-lost s h =
      ap (λ rows. (ok tt, record s { rows = rows })) (select-unfound (is_mine r) s.rows h)

  -- Where a request's key is abandoned and another request takes it over, the first request can
  -- neither store an answer under the key nor delete it, whatever requests came between: it is told
  -- that it lost the key, and no row changes.
  pub taken_over_fenced :
      (q : Request) (at : ℕ) (s t : Keys) (response : Response) (retention : ℕ)
      → r.pk < s.next_id
      → r.reserved_at < at
      → at ≤ s.now
      → any (is_kept at) s.rows ≡ false
      → Steps (take_over r.pk (is_abandoned r.pk at) q at s).1 t
      → complete r response retention t ≡ (ok false, t) × release r t ≡ (ok tt, t)
  taken_over_fenced q at s t response retention issued earlier past h steps =
      let lost = not_mine t (Steps-IsPast steps (taken_over-IsPast q at s issued earlier past h)) in
      (complete-lost response retention t lost, release-lost t lost)
