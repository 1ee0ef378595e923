-- ===== src/Ledger/Posting/Posts.antt =====
-- What `post` does on every branch.
use shiftlush_api.Prelude.{
  ℕ, ◌+◌, ◌↔◌, inl, inr, Bool-cases, ◌≡◌, refl, true, false, some, [], ◌∷◌, ◌++◌, arith,
  true_and_false, find, if◌then◌else◌, any, ◌==◌, is_some, is_none, ltb, ◌&&◌,
}
use mathlib.Core.Path.{subst}
use shiftlush_api.Errors.{Error, invalid}
use shiftlush_api.Action.{ok, ◌>>=◌, pure}
use shiftlush_api.Action.Outcome.{
  Leaves, Ends, Reads, Ends-guard, Ends-atomic, Ends-gets, Ends-read, Ends-modify, Ends-pure,
  Reads-if, Reads-pure,
}
use shiftlush_api.Ledger.Decimal.{Decimal, is_money, check_money}
use shiftlush_api.Ledger.Decimal.Checked.{check_money-Reads}
use shiftlush_api.Ledger.Models.{Movement, Books, Company}
use shiftlush_api.Ledger.Posting.{
  Posting, post, movement_of, fresh_company, check_date, check_after_opening, create_movement,
  is_unstorable, clashes, first_company, closed_on, check_after_opening, is_opening, is_postable,
  misdirected, two_firms, other_currency, opens_later, opens_cash_later,
}

-- A day on which `company` may book a movement.
pub record IsOpenDay (s : Books) (company : Company) (day : ℕ) : Type 0 where
  pub not_future : ltb s.today day ≡ false
  pub not_closed : closed_on company.ledger_closed_through day ≡ false

pub fresh_company-Reads :
    (k : ℕ) (s : Books)
    → Reads (λ c. find (λ (c : Company). c.id == k) s.companies ≡ some c) (fresh_company k) s
unfolding fresh_company ◌>>=◌
fresh_company-Reads k s = record { same_state = ground arith; value = ground arith }

pub check_date-Reads :
    (c : Company) (day : ℕ) (s : Books) → Reads (λ _. IsOpenDay s c day) (check_date c day) s
unfolding check_date ◌>>=◌
check_date-Reads c day s = record { same_state = ground arith; value = λ a e. ground arith }

pub check_after_opening-Reads :
    (p : Posting) (s : Books)
    → Reads
        (λ _.
          (opens_later p.account p.date s ≡ false)
          × (opens_cash_later p.cash_account p.date s ≡ false))
        (check_after_opening p.account p.cash_account p.date)
        s
unfolding check_after_opening ◌>>=◌
check_after_opening-Reads p s = record { same_state = ground arith; value = λ a e. ground arith }

-- The row `m` goes in at the end, under a key that is then taken.
abbrev pub append_movement : Movement → Books → Books
append_movement m s = record s { movements = s.movements ++ (m ∷ []); next_id = s.next_id + 1 }

-- What `post` has checked, and what it has written, when it returns.
pub record IsPosted (p : Posting) (s : Books) (m : Movement) (s' : Books) : Type 0 where
  pub row : m ≡ movement_of p s.next_id
  pub written : s' ≡ append_movement m s
  pub postable : is_postable p.source ≡ true
  pub has_side : (is_none p.account && is_none p.cash_account) ≡ false
  pub directed : misdirected (is_some p.account) p.direction ≡ false
  pub cash_directed : misdirected (is_some p.cash_account) p.cash_direction ≡ false
  pub money : is_money p.amount ≡ ok true
  pub one_firm : two_firms p.account p.cash_account ≡ false
  pub one_currency : other_currency p.account p.cash_account p.currency ≡ false
  pub open_day :
      (c : Company) × (find
          (λ (c : Company). c.id == first_company p.account p.cash_account)
          s.companies
        ≡ some c)
      × IsOpenDay s c p.date
  pub after_opening :
      is_opening p.source ≡ false
      → (opens_later p.account p.date s ≡ false)
        × (opens_cash_later p.cash_account p.date s ≡ false)
  pub storable : is_unstorable m ≡ false
  pub posts_once : any (clashes m) s.movements ≡ false

abbrev IsAfterOpening : Posting → Books → Type 0
IsAfterOpening p s =
    (opens_later p.account p.date s ≡ false) × (opens_cash_later p.cash_account p.date s ≡ false)

opening_checked :
    (p : Posting) (s : Books)
    → Reads
        (λ _. is_opening p.source ≡ false → IsAfterOpening p s)
        (if is_opening p.source
          then pure tt
          else check_after_opening p.account p.cash_account p.date)
        s
opening_checked p s =
    Reads-if _ _ _ s (λ e. Reads-pure _ s λ e'. true_and_false e e')
      λ e.
        let r = check_after_opening-Reads p s in
        record { same_state = r.same_state; value = λ a h _. r.value a h }

pub create_movement-Ends :
    {X : Books → Type 0} {Q : Movement → Books → Type 0} (row : ℕ → Movement) (s : Books)
    → X s
    → (is_unstorable (row s.next_id) ≡ false
        → any (clashes (row s.next_id)) s.movements ≡ false
        → Q (row s.next_id) (append_movement (row s.next_id) s))
    → Ends X Q (create_movement row) s
unfolding create_movement
create_movement-Ends row s x h = Ends-gets _ _ _ (
    Ends-guard _ _ _ _ x
      λ f. Ends-gets _ _ _ (Ends-guard _ _ _ _ x λ e. Ends-modify _ _ _ (Ends-pure _ _ (h f e))))

pub post-IsPosted : (p : Posting) (s : Books) → Ends (λ s'. s' ≡ s) (IsPosted p s) (post p) s
unfolding post
post-IsPosted p s = Ends-guard _ _ _ _ refl λ e1. Ends-guard _ _ _ _ refl λ e2.
    Ends-guard _ _ _ _ refl λ e3. Ends-guard _ _ _ _ refl λ e4.
      Ends-read _ _ _ (check_money-Reads _ p.amount s) refl λ _ e5. Ends-guard _ _ _ _ refl λ e6.
        Ends-guard _ _ _ _ refl λ e7. Ends-read _ _ _ (fresh_company-Reads _ s) refl λ c found.
          Ends-read _ _ _ (check_date-Reads c p.date s) refl λ _ opened.
            Ends-atomic {X = λ s'. s' ≡ s} _ _ refl (
              Ends-read _ _ _ (opening_checked p s) refl λ _ after.
                create_movement-Ends _ s refl λ fits free. record {
                  row = refl;
                  written = refl;
                  postable = ground arith;
                  has_side = e2;
                  directed = e3;
                  cash_directed = e4;
                  money = e5;
                  one_firm = e6;
                  one_currency = e7;
                  open_day = (c, found, opened);
                  after_opening = after;
                  storable = fits;
                  posts_once = free;
                })

-- All that is asked of a posting: of its arguments, the company's open days, the openings on its
-- sides, which an opening balance itself is not asked for, and what the table takes.
pub record IsAllowed (p : Posting) (s : Books) : Type 0 where
  pub postable : is_postable p.source ≡ true
  pub has_side : (is_none p.account && is_none p.cash_account) ≡ false
  pub directed : misdirected (is_some p.account) p.direction ≡ false
  pub cash_directed : misdirected (is_some p.cash_account) p.cash_direction ≡ false
  pub money : is_money p.amount ≡ ok true
  pub one_firm : two_firms p.account p.cash_account ≡ false
  pub one_currency : other_currency p.account p.cash_account p.currency ≡ false
  pub open_day :
      (c : Company) × (find
          (λ (c : Company). c.id == first_company p.account p.cash_account)
          s.companies
        ≡ some c)
      × IsOpenDay s c p.date
  pub after_opening : is_opening p.source ≡ false → IsAfterOpening p s
  pub storable : is_unstorable (movement_of p s.next_id) ≡ false
  pub posts_once : any (clashes (movement_of p s.next_id)) s.movements ≡ false

opening_passes :
    (p : Posting) (s : Books)
    → (is_opening p.source ≡ false → IsAfterOpening p s)
    → (if is_opening p.source then pure tt else check_after_opening p.account p.cash_account p.date)
        s
      ≡ (ok tt, s)
unfolding check_after_opening pure ◌>>=◌
opening_passes p s after = elim (Bool-cases (is_opening p.source)) [
  | inl e ↦ rw (e) refl
  | inr e ↦ let checked = after e in rw (e, checked.0, checked.1) refl
]

money_passes :
    (e : Error) (d : Decimal) (s : Books) → is_money d ≡ ok true → check_money e d s ≡ (ok tt, s)
unfolding check_money pure
money_passes e d s h = rw (h) refl

allowed-post :
    (p : Posting) (s : Books)
    → IsAllowed p s
    → post p s ≡ (ok (movement_of p s.next_id), append_movement (movement_of p s.next_id) s)
unfolding post fresh_company check_date create_movement ◌>>=◌
allowed-post p s h =
    let (c, found, day) = h.open_day in
    rw (
      h.postable,
      h.has_side,
      h.directed,
      h.cash_directed,
      money_passes (invalid "amount") p.amount s h.money,
      h.one_firm,
      h.one_currency,
      found,
      day.not_future,
      day.not_closed,
      opening_passes p s h.after_opening,
      h.storable,
      h.posts_once,
    )

posted-IsAllowed :
    (p : Posting) (s : Books) (m : Movement) (s' : Books) → post p s ≡ (ok m, s') → IsAllowed p s
posted-IsAllowed p s m s' e =
    let h : IsPosted p s m s' =
      subst (Leaves (λ t. t ≡ s) (IsPosted p s)) e (post-IsPosted p s).outcome in
    record {
      postable = h.postable;
      has_side = h.has_side;
      directed = h.directed;
      cash_directed = h.cash_directed;
      money = h.money;
      one_firm = h.one_firm;
      one_currency = h.one_currency;
      open_day = h.open_day;
      after_opening = h.after_opening;
      storable = subst (λ n. is_unstorable n ≡ false) h.row h.storable;
      posts_once = subst (λ n. any (clashes n) s.movements ≡ false) h.row h.posts_once;
    }

-- `post` returns exactly when what is asked of a posting holds: a source that can be posted, a
-- side, directions for the sides and only for them, an amount that is money, one firm, one
-- currency, an open day, no later opening balance on a side unless the posting is an opening, an
-- amount and a description that the columns hold, and an invoice not posted or cancelled before.
pub post_returns :
    (p : Posting) (s : Books)
    → ((m : Movement) × (s' : Books) × (post p s ≡ (ok m, s'))) ↔ IsAllowed p s
post_returns p s = (
  λ r. posted-IsAllowed p s r.0 r.1 r.2,
  λ h. (movement_of p s.next_id, append_movement (movement_of p s.next_id) s, allowed-post p s h),
)
