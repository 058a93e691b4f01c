-- ===== src/Version/Parsing.antt =====
-- What the version parser accepts (protocol/version.py).
use realtime_meeting_transla.Prelude.{
  ℕ, ◌≡◌, ◌↔◌, refl, ap, ◌∙◌, Option, some, List, [], ◌∷◌, ◌++◌, Text, show, text_eq_iff,
  text_eq_refl, longer, ◌==◌, All, arith, Bool-cases, Option-cases, inl, inr,
}
use realtime_meeting_transla.Prelude.Int.{ℤ, pos, negsuc}
use realtime_meeting_transla.Identifiers.Digits.{IsDigit, show-IsDigit}
use realtime_meeting_transla.Version.{
  Version, version_text, show_ℤ, split_dots, check_parts, parse_parts, parse_list, parse_version,
}

split_dots-nonempty : (s : Text) → (p : Text) × (ps : List Text) × (split_dots s ≡ p ∷ ps)
unfolding split_dots longer
split_dots-nonempty [] = ([], [], refl)
split_dots-nonempty (c ∷ s) =
    let (p, ps, e) = split_dots-nonempty s in
    elim (Bool-cases (c == b'.')) [
      | inl dot ↦ ([], split_dots s, ground arith)
      | inr other ↦ (c ∷ p, ps, ground arith)
    ]

-- One part is the whole text; two are what stands before and behind the dot.
split_one : (s p : Text) → split_dots s ≡ p ∷ [] → s ≡ p
unfolding split_dots longer
split_one [] p h = ground arith
split_one (c ∷ s) p h =
    let (q, qs, e) = split_dots-nonempty s in
    elim (Bool-cases (c == b'.')) [
      | inl dot ↦ absurd (ground arith)
      | inr other ↦ ground (arith, split_one s q)
    ]

split_two : (s a b : Text) → split_dots s ≡ a ∷ b ∷ [] → s ≡ a ++ b'.' ∷ b
unfolding split_dots longer
split_two [] a b h = absurd (ground arith)
split_two (c ∷ s) a b h =
    let (q, qs, e) = split_dots-nonempty s in
    elim (Bool-cases (c == b'.')) [
      | inl dot ↦
          let empty : [] ≡ a = ground arith in
          let last : split_dots s ≡ b ∷ [] = ground arith in
          rw (← empty) (ap (λ x. x ∷ s) (ground arith) ∙ ap (◌∷◌ b'.') (split_one s b last))
      | inr other ↦
          let first : c ∷ q ≡ a = ground arith in
          let last : split_dots s ≡ q ∷ b ∷ [] = ground arith in
          rw (← first) (ap (◌∷◌ c) (split_two s q b last))
    ]

split_digits : (s : Text) → All IsDigit s → split_dots s ≡ s ∷ []
unfolding split_dots longer
split_digits [] h = refl
split_digits (c ∷ s) (hc, h) = ground (arith, split_digits s h)

split_digits-append : (a b : Text) → All IsDigit a → split_dots (a ++ b'.' ∷ b) ≡ a ∷ split_dots b
unfolding split_dots longer
split_digits-append [] b h = refl
split_digits-append (c ∷ a) b (hc, h) = ground (arith, split_digits-append a b h)

-- Python's `int` reads back what `str` prints of a natural number.
module _ (int_of : Text → Option ℤ) (int_of-show : (n : ℕ) → int_of (show n) ≡ some (pos n)) where
  check_parts-some :
      (a b : Text) (x y : ℤ) (v : Version)
      → check_parts int_of a b x y ≡ some v
      → (a ≡ show v.major) × (b ≡ show v.minor)
  unfolding check_parts show_ℤ
  check_parts-some a b (pos m) (pos n) v h =
      ground (arith, text_eq_iff a (show m), text_eq_iff b (show n))
  check_parts-some a b (negsuc m) y v h = absurd (ground arith)
  check_parts-some a b (pos m) (negsuc n) v h = absurd (ground arith)

  parse_parts-some :
      (a b : Text) (v : Version)
      → parse_parts int_of a b ≡ some v
      → (a ≡ show v.major) × (b ≡ show v.minor)
  unfolding parse_parts
  parse_parts-some a b v h = elim (Option-cases (int_of a)) [
    | inl bad ↦ absurd (let k = rw (parse_parts, bad) at h in ground arith)
    | inr (x, at_a) ↦ elim (Option-cases (int_of b)) [
      | inl bad ↦ absurd (let k = rw (parse_parts, at_a, bad) at h in ground arith)
      | inr (y, at_b) ↦ check_parts-some a b x y v (rw (parse_parts, at_a, at_b) at h)
    ]
  ]

  parse_list-some :
      (l : List Text) (v : Version)
      → parse_list int_of l ≡ some v
      → l ≡ show v.major ∷ show v.minor ∷ []
  unfolding parse_list
  parse_list-some [] v h = absurd (ground arith)
  parse_list-some (a ∷ []) v h = absurd (ground arith)
  parse_list-some (a ∷ b ∷ []) v h = let (at_a, at_b) = parse_parts-some a b v h in rw (at_a, at_b)
  parse_list-some (a ∷ b ∷ c ∷ l) v h = absurd (ground arith)

  parse_parts-show : (v : Version) → parse_parts int_of (show v.major) (show v.minor) ≡ some v
  unfolding parse_parts check_parts show_ℤ
  parse_parts-show v =
      rw
        (
          int_of-show v.major,
          int_of-show v.minor,
          parse_parts,
          check_parts,
          show_ℤ,
          text_eq_refl (show v.major),
          text_eq_refl (show v.minor),
        )
        (ground arith)

  -- Where Python's `int` reads back what `str` prints of a natural number, a text is parsed to a
  -- version exactly if it is that version's own text: no sign, no blank, no leading zero.
  pub parse_version_iff :
      (t : Text) (v : Version) → (parse_version int_of t ≡ some v) ↔ (t ≡ version_text v)
  unfolding parse_version version_text parse_list
  parse_version_iff t v =
      let parts : split_dots (version_text v) ≡ show v.major ∷ show v.minor ∷ [] =
        split_digits-append (show v.major) (show v.minor) (show-IsDigit v.major)
        ∙ ap (◌∷◌ (show v.major)) (split_digits (show v.minor) (show-IsDigit v.minor)) in
      (
        λ h. split_two t _ _ (parse_list-some (split_dots t) v h),
        λ e.
            ap (λ x. parse_list int_of (split_dots x)) e
            ∙ ap (parse_list int_of) parts
            ∙ parse_parts-show v,
      )
