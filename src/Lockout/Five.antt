-- ===== src/Lockout/Five.antt =====
-- apps/users/lockout.py: a series of failures, and the lock.
use shiftlush_api.Prelude.{
  ℕ, ◌+◌, ◌≤◌, ◌<◌, ◌≡◌, refl, sym, ap, ◌∙◌, true, false, Bool-cases, inl, inr, Option, none, List,
  [], ◌∷◌, Text, is_some, leb, ltb, length, arith,
}
use shiftlush_api.Lockout.{
  Entry, live, entry_of, Cache, failures_key, lock_key, is_locked, record_failure,
}
use shiftlush_api.Lockout.Counting.{Bucket, bucket_of, failed, record_failure-failed}

-- A failure's two times, of its `add` and of the rest.
abbrev pub Times : Type 0
Times = ℕ × ℕ

-- The failures of one pair, in order.
unfoldable pub fail_all : (c : Cache) → Text → List Times → c.Store → c.Store
fail_all c digest [] s = s
fail_all c digest ((now, later) ∷ ts) s = fail_all c digest ts (record_failure c digest now later s)

failed_all : List Times → Bucket → Bucket
failed_all [] b = b
failed_all ((now, later) ∷ ts) b = failed_all ts (failed now later b)

failed_all-cons :
    (now later : ℕ) (ts : List Times) (b : Bucket)
    → failed_all ((now, later) ∷ ts) b ≡ failed_all ts (failed now later b)
unfolding failed_all
failed_all-cons now later ts b = refl

fail_all-failed_all :
    (c : Cache) (digest : Text) (ts : List Times) (s : c.Store)
    → bucket_of c digest (fail_all c digest ts s) ≡ failed_all ts (bucket_of c digest s)
unfolding fail_all failed_all
fail_all-failed_all c digest [] s = refl
fail_all-failed_all c digest ((now, later) ∷ ts) s =
    fail_all-failed_all c digest ts (record_failure c digest now later s)
    ∙ ap (failed_all ts) (record_failure-failed c digest now later s)

-- One after another from `from` on, and all before `until`.
abbrev pub IsPaced : ℕ → ℕ → List Times → Type 0
IsPaced from until [] = Unit {0}
IsPaced from until ((now, later) ∷ ts) =
    (from ≤ now) × (now ≤ later) × (later < until) × IsPaced later until ts

abbrev pub last_time : ℕ → List Times → ℕ
last_time at [] = at
last_time at ((now, later) ∷ ts) = last_time later ts

abbrev bucket : Option Entry → Option Entry → Bucket
bucket failures lock = record { failures = failures; lock = lock }

first_failure :
    (now later : ℕ) (e lock : Option Entry)
    → live now e ≡ none
    → now ≤ later
    → later < now + 900
    → failed now later (bucket e lock) ≡ bucket (entry_of 1 (now + 900)) lock
unfolding failed
first_failure now later e lock gone order soon =
    let yet : ltb later (now + 900) ≡ true = ground arith in rw (gone) (rw (yet) (rw (yet) refl))

next_failure :
    (n d now later : ℕ) (lock : Option Entry)
    → now ≤ later
    → later < d
    → n + 1 < 5
    → failed now later (bucket (entry_of n d) lock) ≡ bucket (entry_of (n + 1) d) lock
unfolding failed
next_failure n d now later lock order soon few =
    let there : ltb now d ≡ true = ground arith in
    let yet : ltb later d ≡ true = ground arith in
    let not_full : leb 5 (n + 1) ≡ false = ground arith in
    rw (there) (rw (yet) (rw (yet) (rw (not_full) refl)))

fifth_failure :
    (d now later : ℕ) (lock : Option Entry)
    → now ≤ later
    → later < d
    → failed now later (bucket (entry_of 4 d) lock) ≡ bucket none (entry_of 1 (later + 900))
unfolding failed
fifth_failure d now later lock order soon =
    let there : ltb now d ≡ true = ground arith in
    let yet : ltb later d ≡ true = ground arith in rw (there) (rw (yet) refl)

few_failures :
    (n d from : ℕ) (ts : List Times) (lock : Option Entry)
    → IsPaced from d ts
    → n + length ts < 5
    → (failed_all ts (bucket (entry_of n d) lock)).lock ≡ lock
unfolding failed_all
few_failures n d from [] lock paced few = refl
few_failures n d from ((now, later) ∷ ts) lock (after, order, soon, paced) few =
    ap (λ b. (failed_all ts b).lock) (next_failure n d now later lock order soon (omega arith))
    ∙ few_failures (n + 1) d later ts lock paced (omega arith)

five_failures :
    (n d from : ℕ) (ts : List Times) (lock : Option Entry)
    → IsPaced from d ts
    → n + length ts ≡ 5
    → n < 5
    → (failed_all ts (bucket (entry_of n d) lock)).lock ≡ entry_of 1 (last_time from ts + 900)
unfolding failed_all
five_failures n d from [] lock paced five few = absurd (omega arith)
five_failures n d from ((now, later) ∷ []) lock (after, order, soon, paced) five few =
    let four : n ≡ 4 = omega arith in
    rw (four) (rw (fifth_failure d now later lock order soon) refl)
five_failures n d from ((now, later) ∷ (u, v) ∷ ts) lock (after, order, soon, paced) five few =
    ap (λ b. (failed_all ((u, v) ∷ ts) b).lock)
      (next_failure n d now later lock order soon (omega arith))
    ∙ five_failures (n + 1) d later ((u, v) ∷ ts) lock paced (omega arith) (omega arith)

live_some : (at until : ℕ) → is_some (live at (entry_of 1 until)) ≡ ltb at until
live_some at until = elim (Bool-cases (ltb at until)) [ inl e ↦ rw (e) refl | inr e ↦ rw (e) refl ]

pub is_locked_lem :
    (c : Cache) (digest : Text) (at : ℕ) (s : c.Store)
    → is_locked c digest at s ≡ is_some (live at (bucket_of c digest s).lock)
unfolding is_locked
is_locked_lem c digest at s = ap is_some (c.get_lem (lock_key digest) at s)

-- Failures of one pair, the first with no count open, the others before the window of fifteen minutes
-- from the first is over. With four or fewer, the pair is locked when it was locked before. With five,
-- it is locked until fifteen minutes after the fifth, and no longer. So it is with every cache that
-- does what its documentation says.
pub fail_all-is_locked :
    (c : Cache) (digest : Text) (s : c.Store) (now later : ℕ) (ts : List Times) (at : ℕ)
    → live now (c.entry (failures_key digest) s) ≡ none
    → now ≤ later
    → later < now + 900
    → IsPaced later (now + 900) ts
    → (length ts < 4
        → is_locked c digest at (fail_all c digest ((now, later) ∷ ts) s) ≡ is_locked c digest at s)
      × (length ts ≡ 4
          → is_locked c digest at (fail_all c digest ((now, later) ∷ ts) s)
            ≡ ltb at (last_time later ts + 900))
fail_all-is_locked c digest s now later ts at gone order soon paced =
    let lock = c.entry (lock_key digest) s in
    let after : (bucket_of c digest (fail_all c digest ((now, later) ∷ ts) s)).lock
        ≡ (failed_all ts (bucket (entry_of 1 (now + 900)) lock)).lock =
      ap (λ (b : Bucket). b.lock)
        (fail_all-failed_all c digest ((now, later) ∷ ts) s
          ∙ failed_all-cons now later ts _
          ∙ ap (failed_all ts) (first_failure now later _ lock gone order soon)) in
    let shown = is_locked_lem c digest at (fail_all c digest ((now, later) ∷ ts) s) in
    (
      λ few.
          shown
          ∙ ap (λ l. is_some (live at l))
              (after ∙ few_failures 1 (now + 900) later ts lock paced (omega arith))
          ∙ sym (is_locked_lem c digest at s),
      λ five.
          shown
          ∙ ap (λ l. is_some (live at l))
              (after ∙ five_failures 1 (now + 900) later ts lock paced (omega arith) (omega arith))
          ∙ live_some at (last_time later ts + 900),
    )
