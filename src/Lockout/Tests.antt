-- ===== src/Lockout/Tests.antt =====
-- apps/users/lockout.py over a cache that is a function of the key.
use shiftlush_api.Prelude.{
  ℕ, ◌+◌, ◌<◌, ◌≡◌, refl, Bool, true, false, ◌&&◌, Option, none, List, [], ◌∷◌, Text, text, text_eq,
  select, is_none, ltb, length, arith, if◌then◌else◌,
}
use shiftlush_api.Lockout.{
  Entry, live, entry_of, incremented, plus_one, Cache, is_locked, record_failure,
}
use shiftlush_api.Lockout.Five.{Times, fail_all, fail_all-is_locked}
use shiftlush_api.Lockout.Apart.{SignIn, wrong, right, is_by, run_all, run_all-select}

abbrev memory : Cache
memory = record {
  Store = Text → Option Entry;
  entry = λ k s. s k;
  get = λ k now s. live now (s k);
  add = λ k v ttl now s j.
      if text_eq j k && is_none (live now (s k)) then entry_of v (now + ttl) else s j;
  set = λ k v ttl now s j. if text_eq j k then entry_of v (now + ttl) else s j;
  incr = λ k now s.
      (plus_one (live now (s k)), λ j. if text_eq j k then incremented now (s k) else s j);
  delete = λ k s j. if text_eq j k then none else s j;
  get_lem = λ k now s. refl;
  add_lem = λ j k v ttl now s. refl;
  set_lem = λ j k v ttl now s. refl;
  incr_value = λ k now s. refl;
  incr_lem = λ j k now s. refl;
  delete_lem = λ j k s. refl;
}

abbrev empty : Text → Option Entry
empty k = none

abbrev mine : Text
mine = text "ab12"

abbrev theirs : Text
theirs = text "cd34"

-- Four more failures, within the window that the first opened at 1000.
abbrev four_more : List Times
four_more = (1100, 1100) ∷ (1200, 1201) ∷ (1300, 1300) ∷ (1899, 1899) ∷ []

locked_at : ℕ → List Times → Bool
unfolding fail_all record_failure is_locked text_eq
locked_at at ts = is_locked memory mine at (fail_all memory mine ts empty)

locked_by_the_fifth : locked_at 2798 ((1000, 1000) ∷ four_more) ≡ true
unfolding locked_at
locked_by_the_fifth = refl

open_again : locked_at 2799 ((1000, 1000) ∷ four_more) ≡ false
unfolding locked_at
open_again = refl

-- A failure after the window starts a new count.
spread_out :
    locked_at 1900 ((1000, 1000) ∷ (1100, 1100) ∷ (1200, 1200) ∷ (1300, 1300) ∷ (1900, 1900) ∷ [])
    ≡ false
unfolding locked_at
spread_out = refl

fail_all-is_locked_example :
    (length four_more < 4
      → is_locked memory mine 2000 (fail_all memory mine ((1000, 1000) ∷ four_more) empty)
        ≡ is_locked memory mine 2000 empty)
    × (length four_more ≡ 4
        → is_locked memory mine 2000 (fail_all memory mine ((1000, 1000) ∷ four_more) empty)
          ≡ ltb 2000 2799)
fail_all-is_locked_example =
    fail_all-is_locked memory mine empty 1000 1000 four_more 2000 refl (omega arith) (omega arith)
      (omega arith)

abbrev both : List SignIn
both = wrong mine 1000 1000 ∷ wrong theirs 1001 1001 ∷ right theirs ∷ wrong mine 1002 1002 ∷ []

run_all-select_example :
    is_locked memory mine 1003 (run_all memory both empty)
    ≡ is_locked memory mine 1003 (run_all memory (select (is_by mine) both) empty)
run_all-select_example = run_all-select memory mine both empty 1003
