-- ===== src/Billing/Papers.antt =====
-- The drafts and lines of a firm's books, and the totals of a draft.
use shiftlush_api.Prelude.{
  ℕ, ◌+◌, ◌≤◌, ◌<◌, ◌≡◌, refl, sym, ◌∙◌, ap, Bool, true, false, List, [], ◌∷◌, ◌++◌, update,
  sum_where, sum_where-append, All, All-map, All-append, All-update, In, All-In, IsDistinct,
  IsDistinct-same, IsDistinct-update, IsDistinct-append, ◌==◌, ==_iff, Bool-cases, inl, inr, arith,
}
use mathlib.Core.Path.{subst}
use shiftlush_api.Ledger.Models.{InvoiceDraft, InvoiceLine, Books}
use shiftlush_api.Ledger.Invoices.{is_draft_id}
use shiftlush_api.Billing.Lines.{is_billed_on, amount_of, totals_of, with_totals}

abbrev pub line_id : InvoiceLine → ℕ
line_id l = l.id

abbrev pub draft_id : InvoiceDraft → ℕ
draft_id d = d.id

abbrev pub IsTotalled : List InvoiceLine → InvoiceDraft → Type 0
IsTotalled ls d = (d.subtotal, d.vat_amount, d.total) ≡ totals_of d ls

-- The rows are told apart by their keys, and the totals of every draft are those of its lines.
pub record IsPapered (s : Books) : Type 0 where
  pub lines_distinct : IsDistinct line_id s.lines
  pub lines_known : All (λ l. l.id < s.next_id) s.lines
  pub drafts_distinct : IsDistinct draft_id s.drafts
  pub totalled : All (IsTotalled s.lines) s.drafts

-- The same, but for the totals of the draft `k`, whose lines have changed.
pub record IsPaperedBut (k : ℕ) (s : Books) : Type 0 where
  pub lines_distinct : IsDistinct line_id s.lines
  pub lines_known : All (λ l. l.id < s.next_id) s.lines
  pub drafts_distinct : IsDistinct draft_id s.drafts
  pub totalled_but : All (λ d. (d.id == k) ≡ false → IsTotalled s.lines d) s.drafts

billed_on : ℕ → List InvoiceLine → ℕ
billed_on k ls = sum_where (is_billed_on k) amount_of ls

-- What is changed for one draft's lines is not changed for another's.
abbrev pub SameElsewhere : ℕ → List InvoiceLine → List InvoiceLine → Type 0
SameElsewhere k ls ls' =
    (j : ℕ)
    → (j == k) ≡ false
    → sum_where (is_billed_on j) amount_of ls' ≡ sum_where (is_billed_on j) amount_of ls

IsTotalled-elsewhere :
    (k : ℕ) (ls ls' : List InvoiceLine) (ds : List InvoiceDraft)
    → SameElsewhere k ls ls'
    → All (IsTotalled ls) ds
    → All (λ d. (d.id == k) ≡ false → IsTotalled ls' d) ds
IsTotalled-elsewhere k ls ls' ds same h = All-map ds (λ d t apart. rw (same d.id apart) t) h

off : (j k : ℕ) (l : InvoiceLine) → (j == k) ≡ false → l.draft ≡ k → is_billed_on j l ≡ false
off j k l apart at = let other : (l.draft == j) ≡ false = rw (at) (ground arith) in rw (other) refl

update_elsewhere :
    (k : ℕ) (p : InvoiceLine → Bool) (g : InvoiceLine → InvoiceLine) (ls : List InvoiceLine)
    → All (λ l. p l ≡ true → l.draft ≡ k) ls
    → ((l : InvoiceLine) → l.draft ≡ k → (g l).draft ≡ k)
    → SameElsewhere k ls (update p g ls)
unfolding update sum_where
update_elsewhere k p g [] h same j apart = refl
update_elsewhere k p g (l ∷ ls) (h, hs) same j apart =
    let rest = update_elsewhere k p g ls hs same j apart in
    elim (Bool-cases (p l)) [
      | inl e ↦ rw (e, off j k (g l) apart (same l (h e)), off j k l apart (h e), rest) refl
      | inr e ↦ rw (e, rest) refl
    ]

pub append_elsewhere :
    (k : ℕ) (l : InvoiceLine) (ls : List InvoiceLine)
    → l.draft ≡ k
    → SameElsewhere k ls (ls ++ (l ∷ []))
unfolding sum_where
append_elsewhere k l ls at j apart =
    let split = sum_where-append (is_billed_on j) amount_of ls (l ∷ []) in
    let none_of_it = off j k l apart at in split ∙ rw (none_of_it) (omega arith)

-- A new line, for the draft `k`.
pub IsPapered-append :
    (k : ℕ) (row : ℕ → InvoiceLine) (s : Books)
    → ((row s.next_id).draft ≡ k)
    → ((row s.next_id).id ≡ s.next_id)
    → IsPapered s
    → IsPaperedBut k (record s { lines = s.lines ++ (row s.next_id ∷ []); next_id = s.next_id + 1 })
IsPapered-append k row s at id h = record {
  lines_distinct =
      IsDistinct-append line_id (row s.next_id) s.lines
        (subst (λ n. All (λ l. l.id < n) s.lines) (sym id) h.lines_known) h.lines_distinct;
  lines_known =
      All-append _ s.lines _ (All-map s.lines (λ l known. omega arith) h.lines_known)
        (omega arith, tt);
  drafts_distinct = h.drafts_distinct;
  totalled_but =
      IsTotalled-elsewhere k s.lines _ s.drafts (append_elsewhere k _ s.lines at) h.totalled;
}

known_update :
    (p : InvoiceLine → Bool) (g : InvoiceLine → InvoiceLine) (n : ℕ) (ls : List InvoiceLine)
    → ((l : InvoiceLine) → p l ≡ true → (g l).id ≡ l.id)
    → All (λ l. l.id < n) ls
    → All (λ l. l.id < n) (update p g ls)
unfolding update
known_update p g n [] key h = tt
known_update p g n (l ∷ ls) key (h, hs) = elim (Bool-cases (p l)) [
  | inl e ↦ rw (e) (subst (λ k. k < n) (sym (key l e)) h, known_update p g n ls key hs)
  | inr e ↦ rw (e) (h, known_update p g n ls key hs)
]

-- Lines of the draft `k` changed, their keys kept.
pub IsPapered-update :
    (k : ℕ) (p : InvoiceLine → Bool) (g : InvoiceLine → InvoiceLine) (s : Books)
    → All (λ l. p l ≡ true → l.draft ≡ k) s.lines
    → ((l : InvoiceLine) → l.draft ≡ k → (g l).draft ≡ k)
    → ((l : InvoiceLine) → p l ≡ true → (g l).id ≡ l.id)
    → IsPapered s
    → IsPaperedBut k (record s { lines = update p g s.lines })
IsPapered-update k p g s own same key h = record {
  lines_distinct = IsDistinct-update line_id p g s.lines key h.lines_distinct;
  lines_known = known_update p g s.next_id s.lines key h.lines_known;
  drafts_distinct = h.drafts_distinct;
  totalled_but =
      IsTotalled-elsewhere k s.lines _ s.drafts (update_elsewhere k p g s.lines own same)
        h.totalled;
}

totals-recomputed :
    (k : ℕ) (r : InvoiceDraft) (ls : List InvoiceLine) (ds : List InvoiceDraft)
    → All (λ d. (d.id == k) ≡ false → IsTotalled ls d) ds
    → All (λ d. (d.id == k) ≡ true → d ≡ r) ds
    → All (IsTotalled ls) (update (is_draft_id k) (with_totals (totals_of r ls)) ds)
unfolding update
totals-recomputed k r ls [] h same = tt
totals-recomputed k r ls (d ∷ ds) (h, hs) (same, sames) = elim (Bool-cases (is_draft_id k d)) [
  | inl e ↦ rw (e) (
    ap (λ (x : InvoiceDraft). totals_of x ls) (sym (same e)),
    totals-recomputed k r ls ds hs sames,
  )
  | inr e ↦ rw (e) (h e, totals-recomputed k r ls ds hs sames)
]

-- The totals of the draft `k` set again.
pub IsPapered-recompute :
    (r : InvoiceDraft) (s : Books)
    → In r s.drafts
    → IsPaperedBut r.id s
    → IsPapered (record s {
      drafts = update (is_draft_id r.id) (with_totals (totals_of r s.lines)) s.drafts;
    })
IsPapered-recompute r s i h = record {
  lines_distinct = h.lines_distinct;
  lines_known = h.lines_known;
  drafts_distinct = IsDistinct-update draft_id _ _ s.drafts (λ d _. refl) h.drafts_distinct;
  totalled = totals-recomputed r.id r s.lines s.drafts h.totalled_but (
      All-map s.drafts
        (λ d j e. IsDistinct-same draft_id s.drafts h.drafts_distinct d r j i ((==_iff _ _).0 e))
        (All-In s.drafts));
}

-- What leaves the lines and drafts alone keeps them, whatever else it writes.
pub IsPapered-same :
    (s t : Books)
    → t.lines ≡ s.lines
    → t.drafts ≡ s.drafts
    → s.next_id ≤ t.next_id
    → IsPapered s
    → IsPapered t
IsPapered-same s t lines drafts later h = record {
  lines_distinct = subst (IsDistinct line_id) (sym lines) h.lines_distinct;
  lines_known =
      subst (All (λ l. l.id < t.next_id)) (sym lines)
        (All-map s.lines (λ l known. omega arith) h.lines_known);
  drafts_distinct = subst (IsDistinct draft_id) (sym drafts) h.drafts_distinct;
  totalled =
      subst (λ ls. All (IsTotalled ls) t.drafts) (sym lines)
        (subst (All (IsTotalled s.lines)) (sym drafts) h.totalled);
}

-- Columns of the drafts changed that the totals do not come from.
pub IsPapered-drafts :
    (p : InvoiceDraft → Bool) (g : InvoiceDraft → InvoiceDraft) (s : Books)
    → ((d : InvoiceDraft) → (g d).id ≡ d.id)
    → ((ls : List InvoiceLine) (d : InvoiceDraft) → IsTotalled ls d → IsTotalled ls (g d))
    → IsPapered s
    → IsPapered (record s { drafts = update p g s.drafts })
IsPapered-drafts p g s key same h = record {
  lines_distinct = h.lines_distinct;
  lines_known = h.lines_known;
  drafts_distinct = IsDistinct-update draft_id p g s.drafts (λ d _. key d) h.drafts_distinct;
  totalled = All-update _ p g s.drafts (same s.lines) h.totalled;
}

-- Columns of the lines changed that are not billed.
unbilled_update :
    (j : ℕ) (p : InvoiceLine → Bool) (g : InvoiceLine → InvoiceLine) (ls : List InvoiceLine)
    → ((l : InvoiceLine) → is_billed_on j (g l) ≡ is_billed_on j l)
    → ((l : InvoiceLine) → (g l).amount ≡ l.amount)
    → sum_where (is_billed_on j) amount_of (update p g ls) ≡ sum_where (is_billed_on j) amount_of ls
unfolding update sum_where
unbilled_update j p g [] on same = refl
unbilled_update j p g (l ∷ ls) on same = elim (Bool-cases (p l)) [
  | inl e ↦ rw (e, on l, same l, unbilled_update j p g ls on same) refl
  | inr e ↦ rw (e, unbilled_update j p g ls on same) refl
]

pub IsPapered-lines :
    (p : InvoiceLine → Bool) (g : InvoiceLine → InvoiceLine) (s : Books)
    → ((l : InvoiceLine) → (g l).id ≡ l.id)
    → ((j : ℕ) (l : InvoiceLine) → is_billed_on j (g l) ≡ is_billed_on j l)
    → ((l : InvoiceLine) → (g l).amount ≡ l.amount)
    → IsPapered s
    → IsPapered (record s { lines = update p g s.lines })
IsPapered-lines p g s key on same h = record {
  lines_distinct = IsDistinct-update line_id p g s.lines (λ l _. key l) h.lines_distinct;
  lines_known = known_update p g s.next_id s.lines (λ l _. key l) h.lines_known;
  drafts_distinct = h.drafts_distinct;
  totalled =
      All-map s.drafts (λ d t. rw (unbilled_update d.id p g s.lines (on d.id) same) t) h.totalled;
}
