-- ===== src/Idempotency/Kept.antt =====
-- core/idempotency.py: stored answers, while other requests come.
use shiftlush_api.Prelude.{
  ℕ, ◌≤◌, ◌<◌, ◌≡◌, refl, ◌∙◌, ap, Bool, true, false, some, List, [], ◌∷◌, ◌++◌, find, any, update,
  select, leb, Bool-cases, inl, inr, arith,
}
use shiftlush_api.Action.{modify, gets, pure, ◌>>=◌}
use shiftlush_api.Idempotency.Table.{
  Response, IdempotencyKey, Keys, Request, Reservation, in_slot, is_mine, has_expired, is_abandoned,
  create_key, taken_over, take_over,
}
use shiftlush_api.Idempotency.{
  release, complete, purge_expired_keys, Step, ticked, created, took_expired, took_abandoned,
  released, finished, purged, Steps, here, then_step,
}

module _ (slot : ℕ) (k : IdempotencyKey) where
  only : {x : IdempotencyKey} → some x ≡ some k → x ≡ k
  only h = cc

  find-append :
      (ks new : List IdempotencyKey)
      → find (in_slot slot) ks ≡ some k
      → find (in_slot slot) (ks ++ new) ≡ some k
  unfolding find
  find-append [] new h = cc
  find-append (x ∷ ks) new h = elim (Bool-cases (in_slot slot x)) [
    | inl e ↦ rw (e) (rw (e) at h)
    | inr e ↦ rw (e) (find-append ks new (rw (e) at h))
  ]

  find-update :
      (p : IdempotencyKey → Bool) (g : IdempotencyKey → IdempotencyKey) (ks : List IdempotencyKey)
      → ((x : IdempotencyKey) → (g x).slot ≡ x.slot)
      → p k ≡ false
      → find (in_slot slot) ks ≡ some k
      → find (in_slot slot) (update p g ks) ≡ some k
  unfolding find update
  find-update p g [] same off h = h
  find-update p g (x ∷ ks) same off h = elim (Bool-cases (in_slot slot x)) [
    | inl e ↦
        let first : x ≡ k = only (rw (e) at h) in
        let unchanged : p x ≡ false = ap p first ∙ off in rw (unchanged) (rw (e) (ap some first))
    | inr e ↦ elim (Bool-cases (p x)) [
      | inl changed ↦
          rw (changed) (rw (same x) (rw (e) (find-update p g ks same off (rw (e) at h))))
      | inr unchanged ↦ rw (unchanged) (rw (e) (find-update p g ks same off (rw (e) at h)))
    ]
  ]

  find-select :
      (p : IdempotencyKey → Bool) (ks : List IdempotencyKey)
      → p k ≡ true
      → find (in_slot slot) ks ≡ some k
      → find (in_slot slot) (select p ks) ≡ some k
  unfolding find select
  find-select p [] on h = h
  find-select p (x ∷ ks) on h = elim (Bool-cases (in_slot slot x)) [
    | inl e ↦
        let first : x ≡ k = only (rw (e) at h) in
        let stays : p x ≡ true = ap p first ∙ on in rw (stays) (rw (e) (ap some first))
    | inr e ↦ elim (Bool-cases (p x)) [
      | inl stays ↦ rw (stays) (rw (e) (find-select p ks on (rw (e) at h)))
      | inr goes ↦ rw (goes) (find-select p ks on (rw (e) at h))
    ]
  ]

-- The row of the slot, with an answer.
pub record IsAnswered (k : IdempotencyKey) (response : Response) (s : Keys) : Type 0 where
  pub found : find (in_slot k.slot) s.rows ≡ some k
  pub answered : k.response ≡ some response

module _ (k : IdempotencyKey) (response : Response) where
  not_expired : (pk now : ℕ) → now < k.expires_at → has_expired pk now k ≡ false
  not_expired pk now h = elim (Bool-cases (leb k.expires_at now)) [
    | inl e ↦ ground arith
    | inr e ↦ ground arith
  ]

  not_abandoned : (pk now : ℕ) → k.response ≡ some response → is_abandoned pk now k ≡ false
  not_abandoned pk now h = rw (h) (ground arith)

  not_mine : (r : Reservation) → k.response ≡ some response → is_mine r k ≡ false
  not_mine r h = rw (h) (ground arith)

  create_key-IsAnswered :
      (q : Request) (at : ℕ) (s : Keys)
      → IsAnswered k response s
      → IsAnswered k response (create_key q at s).1
  unfolding create_key gets modify pure ◌>>=◌
  create_key-IsAnswered q at s h = elim (Bool-cases (any (in_slot q.slot) s.rows)) [
    | inl e ↦ rw (e) h
    | inr e ↦
        rw (e) (record { found = find-append k.slot k s.rows _ h.found; answered = h.answered })
  ]

  take_over-IsAnswered :
      (pk at : ℕ) (p : IdempotencyKey → Bool) (q : Request) (s : Keys)
      → p k ≡ false
      → IsAnswered k response s
      → IsAnswered k response (take_over pk p q at s).1
  unfolding take_over gets modify pure ◌>>=◌
  take_over-IsAnswered pk at p q s off h = elim (Bool-cases (any p s.rows)) [
    | inl e ↦ rw (e) (record {
      found = find-update k.slot k p (taken_over q at) s.rows (λ x. refl) off h.found;
      answered = h.answered;
    })
    | inr e ↦ rw (e) h
  ]

  Step-IsAnswered :
      {s t : Keys}
      → Step s t
      → s.now < k.expires_at
      → t.now < k.expires_at
      → IsAnswered k response s
      → IsAnswered k response t
  unfolding release complete purge_expired_keys gets modify pure ◌>>=◌
  Step-IsAnswered (ticked s n) before after h = record { found = h.found; answered = h.answered }
  Step-IsAnswered (created s q at _) before after h = create_key-IsAnswered q at s h
  Step-IsAnswered (took_expired s q pk at late) before after h =
      take_over-IsAnswered pk at _ q s (not_expired pk at (omega arith)) h
  Step-IsAnswered (took_abandoned s q pk at late) before after h =
      take_over-IsAnswered pk at _ q s (not_abandoned pk at h.answered) h
  Step-IsAnswered (released s r) before after h = record {
    found = find-select k.slot k _ s.rows (rw (not_mine r h.answered) refl) h.found;
    answered = h.answered;
  }
  Step-IsAnswered (finished s r x retention) before after h = record {
    found = find-update k.slot k _ _ s.rows (λ x. refl) (not_mine r h.answered) h.found;
    answered = h.answered;
  }
  Step-IsAnswered (purged s) before after h = record {
    found = find-select k.slot k _ s.rows (ground arith) h.found;
    answered = h.answered;
  }

  create_key-now : (q : Request) (at : ℕ) (s : Keys) → (create_key q at s).1.now ≡ s.now
  unfolding create_key gets modify pure ◌>>=◌
  create_key-now q at s = elim (Bool-cases (any (in_slot q.slot) s.rows)) [
    | inl e ↦ rw (e) refl
    | inr e ↦ rw (e) refl
  ]

  take_over-now :
      (pk at : ℕ) (p : IdempotencyKey → Bool) (q : Request) (s : Keys)
      → (take_over pk p q at s).1.now ≡ s.now
  unfolding take_over gets modify pure ◌>>=◌
  take_over-now pk at p q s = elim (Bool-cases (any p s.rows)) [
    | inl e ↦ rw (e) refl
    | inr e ↦ rw (e) refl
  ]

  Step-now : {s t : Keys} → Step s t → s.now ≤ t.now
  unfolding release complete purge_expired_keys gets modify pure ◌>>=◌
  Step-now (ticked s n) = omega arith
  Step-now (created s q at _) = rw (create_key-now q at s) (omega arith)
  Step-now (took_expired s q pk at _) =
      rw (take_over-now pk at (has_expired pk at) q s) (omega arith)
  Step-now (took_abandoned s q pk at _) =
      rw (take_over-now pk at (is_abandoned pk at) q s) (omega arith)
  Step-now (released s r) = omega arith
  Step-now (finished s r x retention) = omega arith
  Step-now (purged s) = omega arith

  Steps-now : {s t : Keys} → Steps s t → s.now ≤ t.now
  Steps-now (here s) = omega arith
  Steps-now (then_step s t u step rest) =
      let first = Step-now step in let later = Steps-now rest in omega arith

  pub Steps-IsAnswered :
      {s t : Keys}
      → Steps s t
      → t.now < k.expires_at
      → IsAnswered k response s
      → IsAnswered k response t
  Steps-IsAnswered (here s) soon h = h
  Steps-IsAnswered (then_step s t u step rest) soon h =
      let first = Step-now step in
      let later = Steps-now rest in
      Steps-IsAnswered rest soon (Step-IsAnswered step (omega arith) (omega arith) h)
