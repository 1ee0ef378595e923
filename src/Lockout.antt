-- ===== src/Lockout.antt =====
-- apps/users/lockout.py: the sign-in lockout of a pair of an e-mail and an address. The cache is
-- Django's, over Redis; times are seconds, and each call of the cache has its time.
pub mod Counting
pub mod Five
pub mod Apart
pub mod Tests
use shiftlush_api.Prelude.{
  ℕ, suc, ◌+◌, ◌*◌, ◌≡◌, Bool, true, false, ◌&&◌, Option, none, some, List, [], ◌∷◌, ◌++◌, Text,
  text, text_eq, is_some, is_none, leb, ltb, if◌then◌else◌,
}

pub record Entry : Type 0 where
  pub value : ℕ
  pub expires : ℕ

-- What is read of an entry: nothing once it has expired.
abbrev pub live : ℕ → Option Entry → Option ℕ
live now none = none
live now (some e) = if ltb now e.expires then some e.value else none

abbrev pub entry_of : ℕ → ℕ → Option Entry
entry_of value expires = some (record { value = value; expires = expires })

abbrev pub incremented : ℕ → Option Entry → Option Entry
incremented now none = none
incremented now (some e) = if ltb now e.expires then entry_of (e.value + 1) e.expires else some e

abbrev pub plus_one : Option ℕ → Option ℕ
plus_one none = none
plus_one (some n) = some (n + 1)

-- The cache: its calls, each with a key and a time, and what its documentation says of them. `add`
-- writes only where there is nothing, `incr` keeps the expiry and has no answer where there is
-- nothing (`ValueError`).
pub record Cache : Type 1 where
  pub Store : Type 0
  pub entry : Text → Store → Option Entry
  pub get : Text → ℕ → Store → Option ℕ
  pub add : Text → ℕ → ℕ → ℕ → Store → Store
  pub set : Text → ℕ → ℕ → ℕ → Store → Store
  pub incr : Text → ℕ → Store → Option ℕ × Store
  pub delete : Text → Store → Store
  pub get_lem : (k : Text) (now : ℕ) (s : Store) → get k now s ≡ live now (entry k s)
  pub add_lem :
      (j k : Text) (v ttl now : ℕ) (s : Store)
      → entry j (add k v ttl now s) ≡ (
          if text_eq j k && is_none (live now (entry k s))
          then entry_of v (now + ttl)
          else entry j s)
  pub set_lem :
      (j k : Text) (v ttl now : ℕ) (s : Store)
      → entry j (set k v ttl now s) ≡ (if text_eq j k then entry_of v (now + ttl) else entry j s)
  pub incr_value :
      (k : Text) (now : ℕ) (s : Store) → (incr k now s).0 ≡ plus_one (live now (entry k s))
  pub incr_lem :
      (j k : Text) (now : ℕ) (s : Store)
      → entry j (incr k now s).1 ≡ (if text_eq j k then incremented now (entry k s) else entry j s)
  pub delete_lem :
      (j k : Text) (s : Store) → entry j (delete k s) ≡ (if text_eq j k then none else entry j s)

abbrev pub max_attempts : ℕ
max_attempts = 5

abbrev pub attempt_window : ℕ
attempt_window = 15 * 60

abbrev pub lockout_seconds : ℕ
lockout_seconds = 15 * 60

abbrev pub failures_key : Text → Text
failures_key digest = text "login-failures:" ++ digest

abbrev pub lock_key : Text → Text
lock_key digest = text "login-lock:" ++ digest

abbrev or_unknown : Option Text → Text
or_unknown none = text "unknown"
or_unknown (some []) = text "unknown"
or_unknown (some ip) = ip

-- `_digest`, over `str.lower` and the hash.
unfoldable pub digest_of : (Text → Text) → (Text → Text) → Text → Option Text → Text
digest_of lower sha256 email ip = sha256 (lower email ++ 0 ∷ or_unknown ip)

module _ (c : Cache) where
  open c use {Store, get, add, set, incr, delete}

  unfoldable pub is_locked : Text → ℕ → Store → Bool
  is_locked digest now s = is_some (get (lock_key digest) now s)

  -- The count after a failure: where the window closed meanwhile, this one opens the next.
  abbrev pub counted : Text → ℕ → Option ℕ × Store → ℕ × Store
  counted digest now (some count, s) = (count, s)
  counted digest now (none, s) = (1, set (failures_key digest) 1 attempt_window now s)

  abbrev pub lock_if_full : Text → ℕ → ℕ × Store → Store
  lock_if_full digest now (count, s) =
      if leb max_attempts count
      then delete (failures_key digest) (set (lock_key digest) 1 lockout_seconds now s)
      else s

  -- `add` happens at `now`, the rest at `later`.
  unfoldable pub record_failure : Text → ℕ → ℕ → Store → Store
  record_failure digest now later s = lock_if_full digest later (
      counted digest later
        (incr (failures_key digest) later (add (failures_key digest) 0 attempt_window now s)))

  unfoldable pub clear : Text → Store → Store
  clear digest s = delete (lock_key digest) (delete (failures_key digest) s)
