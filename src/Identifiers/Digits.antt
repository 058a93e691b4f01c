-- ===== src/Identifiers/Digits.antt =====
-- Decimal numbers as they are written and read in identifiers (protocol/identifiers.py).
use realtime_meeting_transla.Prelude.{
  ℕ, zero, suc, ◌+◌, ◌-◌, ◌*◌, ◌/◌, ◌%◌, ◌≤◌, ◌<◌, ◌≡◌, refl, ap, subst, sym, ◌∙◌, [], ◌∷◌, ◌++◌,
  Text, show, show_rounds, length, length-append, All, All-append, arith, ltb, true, false,
  Bool-cases, inl, inr,
}
use realtime_meeting_transla.Identifiers.{zeros, padded}

abbrev pub IsDigit : ℕ → Type 0
IsDigit c = (b'0' ≤ c) × (c ≤ b'9')

-- The number that decimal digits stand for, after some that are worth `v`.
unfoldable pub value : ℕ → Text → ℕ
value v [] = v
value v (c ∷ s) = value (v * 10 + (c - b'0')) s

pub value-append : (v : ℕ) (s : Text) (c : ℕ) → value v (s ++ c ∷ []) ≡ value v s * 10 + (c - b'0')
unfolding value
value-append v [] c = refl
value-append v (d ∷ s) c = value-append (v * 10 + (d - b'0')) s c

show_rounds_small : (f n : ℕ) → ltb n 10 ≡ true → show_rounds (suc f) n ≡ (b'0' + n) ∷ []
unfolding show_rounds
show_rounds_small f n h = rw (h, show_rounds)

show_rounds_large :
    (f n : ℕ)
    → ltb n 10 ≡ false
    → show_rounds (suc f) n ≡ show_rounds f (n / 10) ++ (b'0' + n % 10) ∷ []
unfolding show_rounds
show_rounds_large f n h = rw (h, show_rounds)

pub value-show_rounds : (f n : ℕ) → n ≤ f → value 0 (show_rounds f n) ≡ n
unfolding value show_rounds
value-show_rounds zero n h = omega (arith, h)
value-show_rounds (suc f) n h = elim (Bool-cases (ltb n 10)) [
  | inl small ↦ ap (value 0) (show_rounds_small f n small) ∙ omega arith
  | inr big ↦
      ap (value 0) (show_rounds_large f n big)
      ∙ value-append 0 (show_rounds f (n / 10)) (b'0' + n % 10)
      ∙ omega (arith, value-show_rounds f (n / 10) (ground arith))
]

pub show_rounds-IsDigit : (f n : ℕ) → n ≤ f → All IsDigit (show_rounds f n)
unfolding show_rounds
show_rounds-IsDigit zero n h = ((omega arith, omega arith), tt)
show_rounds-IsDigit (suc f) n h = elim (Bool-cases (ltb n 10)) [
  | inl small ↦
      subst (All IsDigit) (sym (show_rounds_small f n small)) ((ground arith, ground arith), tt)
  | inr big ↦ subst (All IsDigit) (sym (show_rounds_large f n big)) (
      All-append IsDigit (show_rounds f (n / 10)) _ (show_rounds-IsDigit f (n / 10) (ground arith))
        ((omega arith, omega arith), tt))
]

pub value-zeros : (w : ℕ) (s : Text) → value 0 (zeros w s) ≡ value 0 s
unfolding value zeros
value-zeros zero s = refl
value-zeros (suc w) s = value-zeros w s

zeros-IsDigit : (w : ℕ) (s : Text) → All IsDigit s → All IsDigit (zeros w s)
unfolding zeros
zeros-IsDigit zero s h = h
zeros-IsDigit (suc w) s h = ((omega arith, omega arith), zeros-IsDigit w s h)

pub value-padded : (w n : ℕ) → value 0 (padded w n) ≡ n
unfolding padded show
value-padded w n = value-zeros (w - length (show n)) (show n) ∙ value-show_rounds n n (omega arith)

pub padded-IsDigit : (w n : ℕ) → All IsDigit (padded w n)
unfolding padded show
padded-IsDigit w n =
    zeros-IsDigit (w - length (show n)) (show n) (show_rounds-IsDigit n n (omega arith))

pub value-show : (n : ℕ) → value 0 (show n) ≡ n
unfolding show
value-show n = value-show_rounds n n (omega arith)

pub show-IsDigit : (n : ℕ) → All IsDigit (show n)
unfolding show
show-IsDigit n = show_rounds-IsDigit n n (omega arith)

show_rounds-nonempty : (f n : ℕ) → 0 < length (show_rounds f n)
unfolding show_rounds
show_rounds-nonempty zero n = omega arith
show_rounds-nonempty (suc f) n = elim (Bool-cases (ltb n 10)) [
  | inl small ↦ omega (arith, ap length (show_rounds_small f n small))
  | inr big ↦ omega (
    arith,
    ap length (show_rounds_large f n big),
    length-append (show_rounds f (n / 10)) ((b'0' + n % 10) ∷ []),
  )
]

pub show-nonempty : (n : ℕ) → 0 < length (show n)
unfolding show
show-nonempty n = show_rounds-nonempty n n

zeros-nonempty : (w : ℕ) (s : Text) → 0 < length s → 0 < length (zeros w s)
unfolding zeros
zeros-nonempty zero s h = h
zeros-nonempty (suc w) s h = omega arith

pub padded-nonempty : (w n : ℕ) → 0 < length (padded w n)
unfolding padded
padded-nonempty w n = zeros-nonempty (w - length (show n)) (show n) (show-nonempty n)
