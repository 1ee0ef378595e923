-- ===== src/Prelude/Texts.antt =====
-- Text as a list of code points, with the parts of Python's `str` that the services use.
use Prim.Native.Nat.{ℕ, zero, suc, ◌+◌, ◌-◌, ◌*◌, ◌/◌, ◌%◌, ◌<◌}
use Prim.Native.Char.{code}
use Prim.Native.String.{String}
use mathlib.Core.Path.{◌≡◌, refl, ap, ◌∙◌, sym}
use mathlib.Core.Bool.{Bool, true, false, ◌||◌, ◌&&◌}
use mathlib.Core.List.{List, [], ◌∷◌, ◌++◌, reverse}
use native.Mathlib.Omega.{arith}
use mathlib.Core.Logic.{inl, inr}
use shiftlush_api.Prelude.Tests.{leb, ltb, ltb→lt, not_ltb→le, Bool-cases, ◌==◌, if◌then◌else◌}
use shiftlush_api.Prelude.Lists.{length}

abbrev pub Text : Type 0
Text = List ℕ

-- A literal.
abbrev pub text : String → Text
text String.[] = []
text (String.◌∷◌ c s) = code c ∷ text s

unfoldable pub text_eq : Text → Text → Bool
text_eq [] [] = true
text_eq (a ∷ s) (b ∷ t) = a == b && text_eq s t
text_eq _ _ = false

pub text_eq-eq : (s t : Text) → text_eq s t ≡ true → s ≡ t
unfolding text_eq
text_eq-eq [] [] h = refl
text_eq-eq [] (b ∷ t) h = cc
text_eq-eq (a ∷ s) [] h = cc
text_eq-eq (a ∷ s) (b ∷ t) h =
    let first : a ≡ b = ground arith in
    let rest = text_eq-eq s t (ground arith) in rw (first) (ap (λ u. b ∷ u) rest)

pub text_eq_refl : (s : Text) → text_eq s s ≡ true
unfolding text_eq
text_eq_refl [] = refl
text_eq_refl (a ∷ s) = rw (text_eq_refl s) (ground arith)

-- `str.isspace` of one character.
unfoldable pub is_space : ℕ → Bool
is_space c =
    (leb 9 c && leb c 13)
    || (leb 28 c && leb c 32)
    || c == 133
    || c == 160
    || c == 5760
    || (leb 8192 c && leb c 8202)
    || c == 8232
    || c == 8233
    || c == 8239
    || c == 8287
    || c == 12288

unfoldable pub strip_left : Text → Text
unfolding is_space
strip_left [] = []
strip_left (c ∷ s) = if is_space c then strip_left s else c ∷ s

-- `s.strip()`
unfoldable pub strip : Text → Text
unfolding strip_left
strip s = reverse (strip_left (reverse (strip_left s)))

-- `s[:n]`
unfoldable pub truncate : ℕ → Text → Text
truncate zero s = []
truncate (suc n) [] = []
truncate (suc n) (c ∷ s) = c ∷ truncate n s

-- `not s`
abbrev pub is_empty : Text → Bool
is_empty [] = true
is_empty (_ ∷ _) = false

-- The decimal digits of `n` in front of `rest`; `n + 1` rounds are enough.
unfoldable pub digits : ℕ → ℕ → Text → Text
digits zero n rest = rest
digits (suc fuel) n rest =
    let shown = (48 + n % 10) ∷ rest in
    let more = digits fuel (n / 10) shown in if ltb n 10 then shown else more

unfoldable pub zeros : ℕ → Text
zeros zero = []
zeros (suc n) = 48 ∷ zeros n

-- `f"{n:0{width}d}"`
unfoldable pub zero_padded : ℕ → ℕ → Text
unfolding digits zeros
zero_padded width n = let shown = digits (suc n) n [] in zeros (width - length shown) ++ shown

-- The number that a text of digits shows.
unfoldable pub read : ℕ → Text → ℕ
read acc [] = acc
read acc (c ∷ s) = read (acc * 10 + (c - 48)) s

read-digits : (fuel n : ℕ) (rest : Text) → n < fuel → read 0 (digits fuel n rest) ≡ read n rest
unfolding digits read
read-digits zero n rest h = elim h [ ]
read-digits (suc f) n rest h = elim (Bool-cases (ltb n 10)) [
  | inl small ↦ rw small (ap (λ k. read k rest) (omega (arith, ltb→lt n 10 small)))
  | inr large ↦ rw large (
      read-digits f (n / 10) ((48 + n % 10) ∷ rest) (omega (arith, not_ltb→le n 10 large))
      ∙ ap (λ k. read k rest) (omega arith))
]

read-zeros : (k : ℕ) (t : Text) → read 0 (zeros k ++ t) ≡ read 0 t
unfolding zeros read
read-zeros zero t = refl
read-zeros (suc k) t = read-zeros k t

-- What is printed shows the number.
pub read-zero_padded : (width n : ℕ) → read 0 (zero_padded width n) ≡ n
unfolding zero_padded
read-zero_padded width n =
    read-zeros (width - length (digits (suc n) n [])) (digits (suc n) n [])
    ∙ read-digits (suc n) n [] (omega arith)
    ∙ unfold read in refl

pub zero_padded-injective :
    (width : ℕ) {m n : ℕ} → zero_padded width m ≡ zero_padded width n → m ≡ n
zero_padded-injective width {m} {n} e =
    sym (read-zero_padded width m) ∙ ap (read 0) e ∙ read-zero_padded width n
