-- ===== src/Lockout/Apart.antt =====
-- apps/users/lockout.py: sign-ins of different pairs, in one history.
use shiftlush_api.Prelude.{
  ℕ, ◌≡◌, refl, sym, ap, ◌∙◌, inl, inr, Bool, false, Bool-cases, Option, none, some, List, [], ◌∷◌,
  Text, text_eq, text_eq-eq, text_eq_refl, select, leb, is_some, if◌then◌else◌,
}
use mathlib.Core.Path.{subst}
use shiftlush_api.Lockout.Five.{is_locked_lem}
use shiftlush_api.Lockout.{
  live, Cache, max_attempts, attempt_window, lockout_seconds, failures_key, lock_key, is_locked,
  counted, lock_if_full, record_failure, clear,
}
use shiftlush_api.Lockout.Counting.{
  Bucket, bucket_of, same_bucket, failed, record_failure-failed, lock_not_failures,
  failures_not_lock,
}

-- The calls of sign-ins, in the order in which the cache sees them.
pub data SignIn : Type 0 where
  wrong : (digest : Text) (now later : ℕ) → SignIn
  right : (digest : Text) → SignIn

abbrev pub is_by : Text → SignIn → Bool
is_by e (wrong digest now later) = text_eq e digest
is_by e (right digest) = text_eq e digest

module _ (c : Cache) where
  open c use {Store, entry, add, set, incr, delete}

  unfoldable pub run : SignIn → Store → Store
  run (wrong digest now later) s = record_failure c digest now later s
  run (right digest) s = clear c digest s

  unfoldable pub run_all : List SignIn → Store → Store
  run_all [] s = s
  run_all (x ∷ xs) s = run_all xs (run x s)

  module _ (j digest : Text) (f : text_eq j (failures_key digest) ≡ false)
      (l : text_eq j (lock_key digest) ≡ false) where
    counted_apart :
        (later : ℕ) (r : Option ℕ × Store) → entry j (counted c digest later r).1 ≡ entry j r.1
    counted_apart later (none, s) =
        c.set_lem j (failures_key digest) 1 attempt_window later s ∙ rw (f) refl
    counted_apart later (some n, s) = refl

    closed_apart :
        (later : ℕ) (r : ℕ × Store) → entry j (lock_if_full c digest later r) ≡ entry j r.1
    closed_apart later (count, s) = elim (Bool-cases (leb max_attempts count)) [
      | inl e ↦ rw (e) (
          c.delete_lem j (failures_key digest) _
          ∙ rw (f) refl
          ∙ c.set_lem j (lock_key digest) 1 lockout_seconds later s
          ∙ rw (l) refl)
      | inr e ↦ rw (e) refl
    ]

    failure_apart :
        (now later : ℕ) (s : Store) → entry j (record_failure c digest now later s) ≡ entry j s
    unfolding record_failure
    failure_apart now later s =
        closed_apart later _
        ∙ counted_apart later _
        ∙ c.incr_lem j (failures_key digest) later _
        ∙ rw (f) refl
        ∙ c.add_lem j (failures_key digest) 0 attempt_window now s
        ∙ rw (f) refl

    clear_apart : (s : Store) → entry j (clear c digest s) ≡ entry j s
    unfolding clear
    clear_apart s =
        c.delete_lem j (lock_key digest) _
        ∙ rw (l) refl
        ∙ c.delete_lem j (failures_key digest) s
        ∙ rw (f) refl

  abbrev nothing : Bucket
  nothing = record { failures = none; lock = none }

  -- What a pair sees of a call: its own calls only.
  seen : Text → SignIn → Bucket → Bucket
  seen e (wrong digest now later) b = if text_eq e digest then failed now later b else b
  seen e (right digest) b = if text_eq e digest then nothing else b

  cleared : (e : Text) (s : Store) → bucket_of c e (clear c e s) ≡ nothing
  unfolding clear
  cleared e s =
      same_bucket
        (c.delete_lem (failures_key e) (lock_key e) _
          ∙ rw (failures_not_lock e e) refl
          ∙ c.delete_lem (failures_key e) (failures_key e) s
          ∙ rw (text_eq_refl (failures_key e)) refl)
        (c.delete_lem (lock_key e) (lock_key e) _ ∙ rw (text_eq_refl (lock_key e)) refl)

  other_failures :
      (e digest : Text)
      → text_eq e digest ≡ false
      → text_eq (failures_key e) (failures_key digest) ≡ false
  unfolding text_eq
  other_failures e digest h = h

  other_lock :
      (e digest : Text) → text_eq e digest ≡ false → text_eq (lock_key e) (lock_key digest) ≡ false
  unfolding text_eq
  other_lock e digest h = h

  run-seen :
      (e : Text) (x : SignIn) (s : Store) → bucket_of c e (run x s) ≡ seen e x (bucket_of c e s)
  unfolding run seen
  run-seen e (wrong digest now later) s = elim (Bool-cases (text_eq e digest)) [
    | inl h ↦ rw (h) (
        subst
          (λ d. bucket_of c e (record_failure c d now later s) ≡ failed now later (bucket_of c e s))
          (text_eq-eq e digest h) (record_failure-failed c e now later s))
    | inr h ↦ rw (h) (
        same_bucket
          (failure_apart (failures_key e) digest (other_failures e digest h)
            (failures_not_lock e digest) now later s)
          (failure_apart (lock_key e) digest (lock_not_failures e digest) (other_lock e digest h)
            now later s))
  ]
  run-seen e (right digest) s = elim (Bool-cases (text_eq e digest)) [
    | inl h ↦
        rw (h)
          (subst (λ d. bucket_of c e (clear c d s) ≡ nothing) (text_eq-eq e digest h) (cleared e s))
    | inr h ↦ rw (h) (
        same_bucket
          (clear_apart (failures_key e) digest (other_failures e digest h)
            (failures_not_lock e digest) s)
          (clear_apart (lock_key e) digest (lock_not_failures e digest) (other_lock e digest h) s))
  ]

  seen_all : Text → List SignIn → Bucket → Bucket
  seen_all e [] b = b
  seen_all e (x ∷ xs) b = seen_all e xs (seen e x b)

  run_all-seen_all :
      (e : Text) (xs : List SignIn) (s : Store)
      → bucket_of c e (run_all xs s) ≡ seen_all e xs (bucket_of c e s)
  unfolding run_all seen_all
  run_all-seen_all e [] s = refl
  run_all-seen_all e (x ∷ xs) s =
      run_all-seen_all e xs (run x s) ∙ ap (seen_all e xs) (run-seen e x s)

  unseen : (e : Text) (x : SignIn) (b : Bucket) → is_by e x ≡ false → seen e x b ≡ b
  unfolding seen
  unseen e (wrong digest now later) b h = rw (h) refl
  unseen e (right digest) b h = rw (h) refl

  seen_all-select :
      (e : Text) (xs : List SignIn) (b : Bucket)
      → seen_all e xs b ≡ seen_all e (select (is_by e) xs) b
  unfolding seen_all select
  seen_all-select e [] b = refl
  seen_all-select e (x ∷ xs) b = elim (Bool-cases (is_by e x)) [
    | inl h ↦ rw (h) (seen_all-select e xs (seen e x b))
    | inr h ↦ rw (h) (rw (unseen e x b h) (seen_all-select e xs b))
  ]

  -- After any sign-ins, in any order and at any times, a pair is locked exactly when it would be had
  -- there been its own sign-ins only: what is done under other keys changes nothing for it. So it is
  -- with every cache that does what its documentation says.
  pub run_all-select :
      (e : Text) (xs : List SignIn) (s : Store) (at : ℕ)
      → is_locked c e at (run_all xs s) ≡ is_locked c e at (run_all (select (is_by e) xs) s)
  run_all-select e xs s at =
      let same =
        run_all-seen_all e xs s
        ∙ seen_all-select e xs _
        ∙ sym (run_all-seen_all e (select (is_by e) xs) s) in
      is_locked_lem c e at (run_all xs s)
      ∙ ap (λ (b : Bucket). is_some (live at b.lock)) same
      ∙ sym (is_locked_lem c e at (run_all (select (is_by e) xs) s))
