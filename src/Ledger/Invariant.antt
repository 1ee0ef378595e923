-- ===== src/Ledger/Invariant.antt =====
-- The movements under every service call, and the table's constraints (class Meta of Movement).
pub mod Parts
use shiftlush_api.Prelude.{
  ℕ, ◌+◌, ◌<◌, ◌≡◌, refl, sym, ap, ◌∙◌, Bool, true, false, not, ◌&&◌, Option, none, some, List, [],
  ◌∷◌, ◌++◌, arith, is_some, is_none, ltb, All, All-append, select, if◌then◌else◌, Bool-cases, inl,
  inr,
}
use mathlib.Core.List.{append_assoc, append-nil}
use mathlib.Core.Path.{subst}
use shiftlush_api.Action.{ok, Action, ◌>>=◌}
use shiftlush_api.Action.Outcome.{Ends, Ends-weaken}
use shiftlush_api.Action.Keeps.{Keeps, Keeps-Ends, Keeps-modify, Keeps-bind, keeps_rules}
use shiftlush_api.Ledger.Decimal.{Decimal, finite, is_money, cents}
use shiftlush_api.Ledger.Decimal.WholeCents.{is_money-cents}
use shiftlush_api.Ledger.Models.{
  Movement, MovementSource, DocumentType, Account, CashAccount, Direction, CashDirection, Books,
}
use shiftlush_api.Ledger.Posting.{
  Posting, post, movement_of, Choice, chosen, misdirected, chosen_or_blank, account_id,
  cash_account_id, mirror_direction, mirror_cash_direction,
}
use shiftlush_api.Ledger.Reversal.{
  mirror_of, reverse_document, order_by_date, insert_by_date, is_original,
}
use shiftlush_api.Ledger.Posting.Posts.{append_movement, IsPosted, IsOpenDay, post-IsPosted}
use shiftlush_api.Ledger.Reversal.Effects.{
  originals, append_mirrors, IsReversed, reverse_document-IsReversed,
}

-- The CHECK constraints of the table.
pub record IsWellFormed (m : Movement) : Type 0 where
  pub amount_positive : 0 < m.amount
  pub has_a_side : (is_none m.account && is_none m.cash_account) ≡ false
  pub direction_with_account : is_some m.direction ≡ is_some m.account
  pub cash_direction_with_cash_account : is_some m.cash_direction ≡ is_some m.cash_account

-- A row that may be added on the day `today`.
pub record IsBooked (today : ℕ) (m : Movement) : Type 0 where
  pub well_formed : IsWellFormed m
  pub not_future : ltb today m.date ≡ false

-- The books `s` have grown from `before`: nothing is changed or removed, and all that is new is
-- well booked.
pub record IsGrown (before s : Books) : Type 0 where
  pub new : List Movement
  pub appended : s.movements ≡ before.movements ++ new
  pub booked : All (IsBooked before.today) new
  pub same_day : s.today ≡ before.today

pub IsGrown-refl : (s : Books) → IsGrown s s
IsGrown-refl s = record {
  new = [];
  appended = sym (append-nil s.movements);
  booked = tt;
  same_day = refl;
}

-- A write to other tables.
pub IsGrown-same :
    {before : Books} (s s' : Books)
    → s'.movements ≡ s.movements
    → s'.today ≡ s.today
    → IsGrown before s
    → IsGrown before s'
IsGrown-same s s' e d g = record {
  new = g.new;
  appended = e ∙ g.appended;
  booked = g.booked;
  same_day = d ∙ g.same_day;
}

IsGrown-append_movement :
    {before : Books} (m : Movement) (s : Books)
    → IsBooked before.today m
    → IsGrown before s
    → IsGrown before (append_movement m s)
IsGrown-append_movement {before} m s b g = record {
  new = g.new ++ (m ∷ []);
  appended = ap (λ ms. ms ++ (m ∷ [])) g.appended ∙ append_assoc before.movements g.new (m ∷ []);
  booked = All-append (IsBooked before.today) g.new (m ∷ []) g.booked (b, tt);
  same_day = g.same_day;
}

cents-pos : (d : Decimal) → is_money d ≡ ok true → 0 < cents d
unfolding is_money
cents-pos (finite false c k) h = (is_money-cents c k h).0
cents-pos _ h = absurd (cc h)

directed :
    {A : Type 0} (present : Bool) (d : Choice A)
    → misdirected present d ≡ false
    → is_some (chosen_or_blank d) ≡ present
directed true d h = ground arith
directed false d h = ground arith

some_mirror : (d : Option Direction) → is_some (mirror_direction d) ≡ is_some d
unfolding mirror_direction
some_mirror d = ground arith

some_cash_mirror : (d : Option CashDirection) → is_some (mirror_cash_direction d) ≡ is_some d
unfolding mirror_cash_direction
some_cash_mirror d = ground arith

sided :
    (a : Option Account) (c : Option CashAccount)
    → (is_none a && is_none c) ≡ false
    → (is_none (account_id a) && is_none (cash_account_id c)) ≡ false
sided none none h = h
sided none (some c) h = refl
sided (some a) c h = refl

some_account_id : (a : Option Account) → is_some a ≡ is_some (account_id a)
some_account_id none = refl
some_account_id (some a) = refl

some_cash_account_id : (c : Option CashAccount) → is_some c ≡ is_some (cash_account_id c)
some_cash_account_id none = refl
some_cash_account_id (some c) = refl

posted-IsWellFormed :
    (p : Posting) (s : Books) (m : Movement) (s' : Books) → IsPosted p s m s' → IsWellFormed m
unfolding movement_of
posted-IsWellFormed p s m s' h = subst IsWellFormed (sym h.row) (record {
  amount_positive = cents-pos p.amount h.money;
  has_a_side = sided p.account p.cash_account h.has_side;
  direction_with_account = directed _ _ h.directed ∙ some_account_id p.account;
  cash_direction_with_cash_account =
      directed _ _ h.cash_directed ∙ some_cash_account_id p.cash_account;
})

posted_on_time :
    (p : Posting) (s : Books) (m : Movement) (s' : Books)
    → IsPosted p s m s'
    → ltb s.today m.date ≡ false
unfolding movement_of
posted_on_time p s m s' h =
    subst (λ n. ltb s.today n.date ≡ false) (sym h.row) h.open_day.2.not_future

mirror-IsWellFormed :
    (date id : ℕ) (source : MovementSource) (m : Movement)
    → IsWellFormed m
    → IsWellFormed (mirror_of date source m id)
unfolding mirror_of
mirror-IsWellFormed date id source m w = record {
  amount_positive = w.amount_positive;
  has_a_side = w.has_a_side;
  direction_with_account = some_mirror m.direction ∙ w.direction_with_account;
  cash_direction_with_cash_account =
      some_cash_mirror m.cash_direction ∙ w.cash_direction_with_cash_account;
}

All-select :
    (P : Movement → Type 0) (p : Movement → Bool) (ms : List Movement)
    → All P ms
    → All P (select p ms)
unfolding select
All-select P p [] h = tt
All-select P p (m ∷ ms) h = elim (Bool-cases (p m)) [
  | inl e ↦ rw e (h.0, All-select P p ms h.1)
  | inr e ↦ rw e (All-select P p ms h.1)
]

All-insert_by_date :
    (P : Movement → Type 0) (m : Movement) (ms : List Movement)
    → P m
    → All P ms
    → All P (insert_by_date m ms)
unfolding insert_by_date
All-insert_by_date P m [] p h = (p, tt)
All-insert_by_date P m (n ∷ ms) p h = elim (Bool-cases (ltb n.date m.date)) [
  | inl e ↦ rw e (h.0, All-insert_by_date P m ms p h.1)
  | inr e ↦ rw e (p, h)
]

All-order_by_date :
    (P : Movement → Type 0) (ms : List Movement) → All P ms → All P (order_by_date ms)
unfolding order_by_date
All-order_by_date P [] h = tt
All-order_by_date P (m ∷ ms) h =
    All-insert_by_date P m (order_by_date ms) h.0 (All-order_by_date P ms h.1)

IsWellFormed-of_booked :
    (today : ℕ) (ms : List Movement) → All (IsBooked today) ms → All IsWellFormed ms
IsWellFormed-of_booked today [] h = tt
IsWellFormed-of_booked today (m ∷ ms) h = (h.0.well_formed, IsWellFormed-of_booked today ms h.1)

module _ {before : Books} (sound : All IsWellFormed before.movements) where
  -- The books stay sound as they grow.
  pub sound_of_grown : (s : Books) → IsGrown before s → All IsWellFormed s.movements
  sound_of_grown s g = subst (All IsWellFormed) (sym g.appended) (
      All-append IsWellFormed before.movements g.new sound
        (IsWellFormed-of_booked _ g.new g.booked))

  append_mirrors-IsGrown :
      (date : ℕ) (source : MovementSource) (ms : List Movement) (s : Books)
      → All IsWellFormed ms
      → ltb before.today date ≡ false
      → IsGrown before s
      → IsGrown before (append_mirrors date source ms s)
  unfolding append_mirrors
  append_mirrors-IsGrown date source [] s w d g = g
  append_mirrors-IsGrown date source (m ∷ ms) s w d g =
      append_mirrors-IsGrown date source ms _ w.1 d (
        IsGrown-append_movement (mirror_of date source m s.next_id) s
          (record {
            well_formed = mirror-IsWellFormed date s.next_id source m w.0;
            not_future = unfold mirror_of in d;
          })
          g)

  pub post-Keeps : (p : Posting) → Keeps (IsGrown before) (post p)
  post-Keeps p =
      Keeps-Ends (post p)
        (λ s g.
          Ends-weaken (post p) s (λ s' e. subst (IsGrown before) (sym e) g) (λ m s' h. h)
            (post-IsPosted p s))
        λ s g m s' h. subst (IsGrown before) (sym h.written) (
          IsGrown-append_movement m s
            (record {
              well_formed = posted-IsWellFormed p s m s' h;
              not_future = subst (λ t. ltb t m.date ≡ false) g.same_day (posted_on_time p s m s' h);
            })
            g)

  pub reverse_document-Keeps :
      (t : DocumentType) (k date : ℕ) (source : MovementSource)
      → Keeps (IsGrown before) (reverse_document t k date source)
  reverse_document-Keeps t k date source =
      Keeps-Ends (reverse_document t k date source)
        (λ s g.
          Ends-weaken _ s (λ s' e. subst (IsGrown before) (sym e) g) (λ m s' h. h)
            (reverse_document-IsReversed t k date source s))
        λ s g m s' h. subst (IsGrown before) (sym h.written) (
          append_mirrors-IsGrown date source (originals t k s) s
            (All-order_by_date IsWellFormed _
              (All-select IsWellFormed _ s.movements (sound_of_grown s g)))
            (subst (λ t. ltb t date ≡ false) g.same_day h.open_day.not_future) g)
