-- ===== src/Faults/Table.antt =====
-- The table of faults: its keys, and what a write to it keeps.
use shiftlush_api.Prelude.{
  ◌<◌, ◌≤◌, ◌≡◌, sym, ap, ◌∙◌, true, false, List, [], ◌∷◌, ◌++◌, put, All, All-put, All-at,
  All-append, In, Extends, Extends-refl, ◌==◌, arith, inl, inr, ==_iff,
}
use mathlib.Core.Path.{subst}
use mathlib.Core.List.{append-nil}
use shiftlush_api.Fleet.{Fault, Fleet}
use shiftlush_api.Faults.Reports.{has_fault_id}
use shiftlush_api.Faults.Lifecycle.{is_sound, IsLater, IsLater-refl}

-- Keys grow from row to row.
abbrev pub Ascending : List Fault → Type 0
Ascending [] = Unit
Ascending (f ∷ fs) = All (λ g. f.id < g.id) fs × Ascending fs

-- A row that is put back over the row with its key.
pub Extends-put :
    (fs : List Fault) (f g : Fault)
    → Ascending fs
    → In f fs
    → IsLater f g
    → Extends IsLater fs (put (has_fault_id f.id) g fs)
unfolding put
Extends-put [] f g a i l = elim i [ ]
Extends-put (x ∷ xs) f g (below, a) (inl e) l =
    let hit : (x.id == f.id) ≡ true = (==_iff x.id f.id).1 (ap (λ (y : Fault). y.id) e) in
    rw hit (
      subst (λ y. IsLater y g) (sym e) l,
      subst (Extends IsLater xs) (append-nil xs) (Extends-refl IsLater xs [] IsLater-refl),
    )
Extends-put (x ∷ xs) f g (below, a) (inr i) l =
    let less = All-at (λ y. x.id < y.id) f xs below i in
    let missed : (x.id == f.id) ≡ false = ground arith in
    rw missed (IsLater-refl x, Extends-put xs f g a i l)

pub Ascending-put :
    (fs : List Fault) (f g : Fault)
    → Ascending fs
    → In f fs
    → g.id ≡ f.id
    → Ascending (put (has_fault_id f.id) g fs)
unfolding put
Ascending-put [] f g a i e = tt
Ascending-put (x ∷ xs) f g (below, a) (inl same) e =
    let key : x.id ≡ f.id = ap (λ (y : Fault). y.id) same in
    rw ((==_iff x.id f.id).1 key) (subst (λ k. All (λ y. k < y.id) xs) (key ∙ sym e) below, a)
Ascending-put (x ∷ xs) f g (below, a) (inr i) e =
    let less = All-at (λ y. x.id < y.id) f xs below i in
    let missed : (x.id == f.id) ≡ false = ground arith in
    rw missed (
      All-put (λ y. x.id < y.id) (has_fault_id f.id) g xs (subst (λ k. x.id < k) (sym e) less)
          below,
      Ascending-put xs f g a i e,
    )

pub Ascending-append :
    (fs : List Fault) (g : Fault)
    → Ascending fs
    → All (λ f. f.id < g.id) fs
    → Ascending (fs ++ (g ∷ []))
Ascending-append [] g a h = (tt, tt)
Ascending-append (x ∷ xs) g (below, a) (h, hs) =
    (All-append (λ y. x.id < y.id) xs (g ∷ []) below (h, tt), Ascending-append xs g a hs)

-- What holds of the table at all times: the keys grow and the next one is free, and every row's
-- times are in order.
pub record IsSound (s : Fleet) : Type 0 where
  pub ascending : Ascending s.faults
  pub keys_used : All (λ f. f.id < s.next_id) s.faults
  pub sound : All (λ f. is_sound s.now f ≡ true) s.faults

-- `s` comes after `before`: no row is lost or goes back, and the clock has not gone back.
pub record IsAfter (before s : Fleet) : Type 0 where
  pub rows : Extends IsLater before.faults s.faults
  pub clock : before.now ≤ s.now
