-- ===== src/Prelude/Texts.antt =====
-- A Python `str` as the list of its code points: equality, order, and decimal numbers.
use Prim.Native.Nat.{ℕ, zero, suc, ◌+◌, ◌/◌, ◌%◌}
use Prim.Native.Char.{code}
use Prim.Native.String.{String}
use mathlib.Core.Path.{◌≡◌, refl}
use mathlib.Core.Logic.{◌↔◌}
use mathlib.Core.Bool.{Bool, true, false, ◌&&◌, ◌||◌}
use mathlib.Core.List.{List, [], ◌∷◌, ◌++◌}
use native.Mathlib.Omega.{arith}
use realtime_meeting_transla.Prelude.Tests.{ltb, ◌==◌}

abbrev pub Text : Type 0
Text = List ℕ

-- The code points of a literal.
abbrev pub codes : String → Text
codes String.[] = []
codes (String.◌∷◌ c s) = code c ∷ codes s

unfoldable pub text_eq : Text → Text → Bool
text_eq [] [] = true
text_eq [] (y ∷ ys) = false
text_eq (x ∷ xs) [] = false
text_eq (x ∷ xs) (y ∷ ys) = x == y && text_eq xs ys

pub text_eq_iff : (a b : Text) → (text_eq a b ≡ true) ↔ (a ≡ b)
unfolding text_eq
text_eq_iff [] [] = (λ h. refl, λ h. refl)
text_eq_iff [] (y ∷ ys) = ground arith
text_eq_iff (x ∷ xs) [] = ground arith
text_eq_iff (x ∷ xs) (y ∷ ys) = ground (arith, text_eq_iff xs ys)

pub text_eq_refl : (a : Text) → text_eq a a ≡ true
text_eq_refl a = (text_eq_iff a a).1 refl

-- Python's `a < b` on texts: by code points, from the left.
unfoldable pub text_ltb : Text → Text → Bool
text_ltb [] [] = false
text_ltb [] (y ∷ ys) = true
text_ltb (x ∷ xs) [] = false
text_ltb (x ∷ xs) (y ∷ ys) = ltb x y || (x == y && text_ltb xs ys)

-- The order of texts is a strict total order.
pub text_ltb_irrefl : (a : Text) → text_ltb a a ≡ false
unfolding text_ltb
text_ltb_irrefl [] = refl
text_ltb_irrefl (x ∷ a) = ground (arith, text_ltb_irrefl a)

pub text_ltb_trans :
    (a b c : Text) → text_ltb a b ≡ true → text_ltb b c ≡ true → text_ltb a c ≡ true
unfolding text_ltb
text_ltb_trans [] [] c h k = absurd (ground arith)
text_ltb_trans [] (y ∷ b) [] h k = absurd (ground arith)
text_ltb_trans [] (y ∷ b) (z ∷ c) h k = refl
text_ltb_trans (x ∷ a) [] c h k = absurd (ground arith)
text_ltb_trans (x ∷ a) (y ∷ b) [] h k = absurd (ground arith)
text_ltb_trans (x ∷ a) (y ∷ b) (z ∷ c) h k = ground (arith, text_ltb_trans a b c)

pub text_ltb-total : (a b : Text) → text_ltb a b ≡ false → text_ltb b a ≡ false → a ≡ b
unfolding text_ltb
text_ltb-total [] [] h k = refl
text_ltb-total [] (y ∷ b) h k = absurd (ground arith)
text_ltb-total (x ∷ a) [] h k = absurd (ground arith)
text_ltb-total (x ∷ a) (y ∷ b) h k = ground (arith, text_ltb-total a b)

-- `str(n)` of a natural number, the last digit split off each round. Every round divides by ten,
-- so a number is more than enough rounds for itself.
unfoldable pub show_rounds : ℕ → ℕ → Text
show_rounds zero n = (b'0' + n % 10) ∷ []
show_rounds (suc f) n = elim (ltb n 10) [
  | true ↦ (b'0' + n) ∷ []
  | false ↦ show_rounds f (n / 10) ++ (b'0' + n % 10) ∷ []
]

unfoldable pub show : ℕ → Text
unfolding show_rounds
show n = show_rounds n n

-- A character joins the first of some parts of a text.
unfoldable pub longer : ℕ → List Text → List Text
longer c [] = (c ∷ []) ∷ []
longer c (part ∷ parts) = (c ∷ part) ∷ parts
