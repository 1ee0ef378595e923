-- ===== src/Lockout/Counting.antt =====
-- apps/users/lockout.py: the count of failures within the window.
use shiftlush_api.Prelude.{
  ℕ, ◌+◌, ◌≡◌, refl, ap, ◌∙◌, inl, inr, true, false, Bool-cases, Option-cases, Option, none, some,
  Text, text_eq, text_eq_refl, is_none, leb, if◌then◌else◌,
}
use shiftlush_api.Lockout.{
  Entry, live, entry_of, incremented, plus_one, Cache, max_attempts, attempt_window,
  lockout_seconds, failures_key, lock_key, counted, lock_if_full, record_failure,
}

-- The two keys of a pair are never the same.
same_failures : (d : Text) → text_eq (failures_key d) (failures_key d) ≡ true
same_failures d = text_eq_refl (failures_key d)

same_lock : (d : Text) → text_eq (lock_key d) (lock_key d) ≡ true
same_lock d = text_eq_refl (lock_key d)

pub lock_not_failures : (d e : Text) → text_eq (lock_key d) (failures_key e) ≡ false
unfolding text_eq
lock_not_failures d e = refl

pub failures_not_lock : (d e : Text) → text_eq (failures_key d) (lock_key e) ≡ false
unfolding text_eq
failures_not_lock d e = refl

-- What the cache has of one pair.
pub record Bucket : Type 0 where
  pub failures : Option Entry
  pub lock : Option Entry

abbrev pub bucket_of : (c : Cache) → Text → c.Store → Bucket
bucket_of c digest s = record {
  failures = c.entry (failures_key digest) s;
  lock = c.entry (lock_key digest) s;
}

-- A failure, as the pair sees it: the count that is open, or a new one from zero; one more; and at
-- five the lock instead.
abbrev pub begun : ℕ → Option Entry → Option Entry
begun now e = if is_none (live now e) then entry_of 0 (now + attempt_window) else e

abbrev pub one_more : ℕ → Option ℕ → Option Entry → ℕ × Option Entry
one_more later none e = (1, entry_of 1 (later + attempt_window))
one_more later (some count) e = (count + 1, incremented later e)

abbrev pub closed_at_five : ℕ → Option Entry → ℕ × Option Entry → Bucket
closed_at_five later lock (count, e) =
    if leb max_attempts count
    then record { failures = none; lock = entry_of 1 (later + lockout_seconds) }
    else record { failures = e; lock = lock }

unfoldable pub failed : ℕ → ℕ → Bucket → Bucket
failed now later b =
    closed_at_five later b.lock
      (one_more later (live later (begun now b.failures)) (begun now b.failures))

pub same_bucket :
    {f g l m : Option Entry}
    → f ≡ g
    → l ≡ m
    → ◌≡◌ {A = Bucket} (record { failures = f; lock = l }) (record { failures = g; lock = m })
same_bucket p q = λ i. record { failures = p i; lock = q i }

module _ (c : Cache) (digest : Text) where
  open c use {Store, entry, get, add, set, incr, delete}

  added :
      (now : ℕ) (s : Store)
      → bucket_of c digest (add (failures_key digest) 0 attempt_window now s) ≡ record {
        failures = begun now (entry (failures_key digest) s);
        lock = entry (lock_key digest) s;
      }
  added now s =
      same_bucket
        (c.add_lem (failures_key digest) (failures_key digest) 0 attempt_window now s
          ∙ rw (same_failures digest) refl)
        (c.add_lem (lock_key digest) (failures_key digest) 0 attempt_window now s
          ∙ rw (lock_not_failures digest digest) refl)

  counted-none :
      (later : ℕ) (r : Option ℕ × Store)
      → r.0 ≡ none
      → counted c digest later r ≡ (1, set (failures_key digest) 1 attempt_window later r.1)
  counted-none later (none, s) h = refl
  counted-none later (some n, s) h = cc

  counted-some :
      (later n : ℕ) (r : Option ℕ × Store) → r.0 ≡ some n → counted c digest later r ≡ (n, r.1)
  counted-some later n (none, s) h = cc
  counted-some later n (some m, s) h = let e : m ≡ n = cc in rw (e) refl

  closed :
      (later count : ℕ) (s : Store)
      → bucket_of c digest (lock_if_full c digest later (count, s))
        ≡ closed_at_five later (entry (lock_key digest) s) (count, entry (failures_key digest) s)
  closed later count s = elim (Bool-cases (leb max_attempts count)) [
    | inl e ↦ rw (e) (
        same_bucket
          (c.delete_lem (failures_key digest) (failures_key digest) _
            ∙ rw (same_failures digest) refl)
          (c.delete_lem (lock_key digest) (failures_key digest) _
            ∙ rw (lock_not_failures digest digest) refl
            ∙ c.set_lem (lock_key digest) (lock_key digest) 1 lockout_seconds later s
            ∙ rw (same_lock digest) refl))
    | inr e ↦ rw (e) refl
  ]

  -- The call after its `add`.
  abbrev rest_of : ℕ → Store → Store
  rest_of later s =
      lock_if_full c digest later (counted c digest later (incr (failures_key digest) later s))

  incr_lock :
      (later : ℕ) (s : Store)
      → entry (lock_key digest) (incr (failures_key digest) later s).1 ≡ entry (lock_key digest) s
  incr_lock later s =
      c.incr_lem (lock_key digest) (failures_key digest) later s
      ∙ rw (lock_not_failures digest digest) refl

  incr_failures :
      (later : ℕ) (s : Store)
      → entry (failures_key digest) (incr (failures_key digest) later s).1
        ≡ incremented later (entry (failures_key digest) s)
  incr_failures later s =
      c.incr_lem (failures_key digest) (failures_key digest) later s
      ∙ rw (same_failures digest) refl

  rest-failed :
      (later : ℕ) (s : Store)
      → bucket_of c digest (rest_of later s)
        ≡ closed_at_five later (entry (lock_key digest) s) (
            one_more later
              (live later (entry (failures_key digest) s))
              (entry (failures_key digest) s))
  rest-failed later s = elim (Option-cases (live later (entry (failures_key digest) s))) [
    | inl e ↦
        let r = incr (failures_key digest) later s in
        let none_there = c.incr_value (failures_key digest) later s ∙ ap plus_one e in
        let t = set (failures_key digest) 1 attempt_window later r.1 in
        let f : entry (failures_key digest) t ≡ entry_of 1 (later + attempt_window) =
          c.set_lem (failures_key digest) (failures_key digest) 1 attempt_window later r.1
          ∙ rw (same_failures digest) refl in
        let l : entry (lock_key digest) t ≡ entry (lock_key digest) s =
          c.set_lem (lock_key digest) (failures_key digest) 1 attempt_window later r.1
          ∙ rw (lock_not_failures digest digest) refl
          ∙ incr_lock later s in
        rw (counted-none later r none_there) (closed later 1 t ∙ rw (e) (rw (f) (rw (l) refl)))
    | inr (n, e) ↦
        let r = incr (failures_key digest) later s in
        let one = c.incr_value (failures_key digest) later s ∙ ap plus_one e in
        rw (counted-some later (n + 1) r one) (
          closed later (n + 1) r.1
          ∙ rw (e) (rw (incr_failures later s) (rw (incr_lock later s) refl)))
  ]

  -- Whatever cache keeps what its documentation says, a failure does to a pair's count and lock what
  -- `failed` says, at whatever times its two halves happen.
  pub record_failure-failed :
      (now later : ℕ) (s : Store)
      → bucket_of c digest (record_failure c digest now later s)
        ≡ failed now later (bucket_of c digest s)
  unfolding record_failure failed
  record_failure-failed now later s =
      rest-failed later (add (failures_key digest) 0 attempt_window now s)
      ∙ ap
          (λ (b : Bucket).
            closed_at_five later b.lock (one_more later (live later b.failures) b.failures))
          (added now s)
