-- ===== src/Traceability/Rows/Ids.antt =====
-- What `ID_PATTERN` lets through (tools/traceability_sync.py).
use realtime_meeting_transla.Prelude.{
  ℕ, suc, zero, ◌+◌, ◌*◌, ◌≡◌, refl, ap, ◌∙◌, true, Option, some, List, [], ◌∷◌, ◌++◌, Text, arith,
  Bool-cases, Option-cases, inl, inr,
}
use realtime_meeting_transla.Prelude.Sorting.{In}
use realtime_meeting_transla.Identifiers.{
  strip_prefix, match_dash, at_end, read_digits, match_ordinal,
}
use realtime_meeting_transla.Traceability.Rows.{
  id_domains, match_digits, match_number, match_behind, match_domains, match_id,
}

strip_prefix-some : (p s rest : Text) → strip_prefix p s ≡ some rest → s ≡ p ++ rest
unfolding strip_prefix
strip_prefix-some [] s rest h = ground arith
strip_prefix-some (c ∷ p) [] rest h = absurd (ground arith)
strip_prefix-some (c ∷ p) (d ∷ s) rest h = ground (arith, strip_prefix-some p s rest)

match_dash-some : (s rest : Text) → match_dash s ≡ some rest → s ≡ b'-' ∷ rest
unfolding match_dash
match_dash-some [] rest h = absurd (ground arith)
match_dash-some (c ∷ s) rest h = ground arith

module _ (decimal : ℕ → Option ℕ) where
  -- An id is a domain, a dash and a number.
  abbrev pub IdParts : List Text → Text → Type 0
  IdParts domains s =
      (d : Text) × (n : Text) × In d domains × (s ≡ d ++ b'-' ∷ n) × (match_number decimal n ≡ true)

  match_behind-parts :
      (d s : Text)
      → match_behind decimal (strip_prefix d s) ≡ true
      → (n : Text) × (s ≡ d ++ b'-' ∷ n) × (match_number decimal n ≡ true)
  unfolding match_behind
  match_behind-parts d s h = elim (Option-cases (strip_prefix d s)) [
    | inl bad ↦ absurd (let k = rw (bad, match_behind) at h in ground arith)
    | inr (rest, at_rest) ↦ elim (Option-cases (match_dash rest)) [
      | inl bad ↦ absurd (let k = rw (at_rest, match_behind, bad) at h in ground arith)
      | inr (n, at_n) ↦ (
        n,
        strip_prefix-some d s rest at_rest ∙ ap (λ x. d ++ x) (match_dash-some rest n at_n),
        rw (at_rest, match_behind, at_n) at h,
      )
    ]
  ]

  match_domains-parts :
      (domains : List Text) (s : Text) → match_domains decimal domains s ≡ true → IdParts domains s
  unfolding match_domains
  match_domains-parts [] s h = absurd (ground arith)
  match_domains-parts (d ∷ domains) s h =
      elim (Bool-cases (match_behind decimal (strip_prefix d s))) [
        | inl here ↦ let (n, e, m) = match_behind-parts d s here in (d, n, inl refl, e, m)
        | inr other ↦
            let later : match_domains decimal domains s ≡ true = ground arith in
            let (b, n, i, e, m) = match_domains-parts domains s later in (b, n, inr i, e, m)
      ]

  pub match_id-parts : (s : Text) → match_id decimal s ≡ true → IdParts id_domains s
  unfolding match_id
  match_id-parts s h = match_domains-parts id_domains s h

  read_digits-at_end :
      (v : ℕ) (s : Text) → at_end s ≡ true → at_end (read_digits decimal v s).1 ≡ true
  unfolding read_digits at_end
  read_digits-at_end v [] h = refl
  read_digits-at_end v (c ∷ []) h = elim (Option-cases (decimal c)) [
    | inl bad ↦ rw (bad, read_digits) h
    | inr (d, good) ↦ rw (good, read_digits) refl
  ]
  read_digits-at_end v (c ∷ d ∷ s) h = absurd (ground arith)

  match_digits-read :
      (n : ℕ) (s rest : Text)
      → match_digits decimal n s ≡ some rest
      → ((v : ℕ) → at_end (read_digits decimal v rest).1 ≡ true)
      → (v : ℕ) → at_end (read_digits decimal v s).1 ≡ true
  unfolding match_digits read_digits
  match_digits-read zero s rest h k v = let same : s ≡ rest = ground arith in rw same (k v)
  match_digits-read (suc n) [] rest h k v = absurd (ground arith)
  match_digits-read (suc n) (c ∷ s) rest h k v = elim (Option-cases (decimal c)) [
    | inl bad ↦ absurd (let m = rw (match_digits, bad) at h in ground arith)
    | inr (d, good) ↦
        rw (read_digits, good)
          (match_digits-read n s rest (rw (match_digits, good) at h) k (v * 10 + d))
  ]

  match_ordinal-at_end :
      (s rest : Text)
      → match_digits decimal 3 s ≡ some rest
      → ((v : ℕ) → at_end (read_digits decimal v rest).1 ≡ true)
      → (n : ℕ) × (match_ordinal decimal s ≡ some n)
  unfolding match_digits match_ordinal
  match_ordinal-at_end [] rest h k = absurd (ground arith)
  match_ordinal-at_end (c ∷ s) rest h k = elim (Option-cases (decimal c)) [
    | inl bad ↦ absurd (let m = rw (match_digits, bad) at h in ground arith)
    | inr (d, good) ↦ (
      (read_digits decimal d s).0,
      rw (match_ordinal, good, match_digits-read 2 s rest (rw (match_digits, good) at h) k d) refl,
    )
  ]

  -- The digits of an id are a number.
  pub match_ordinal_of_match_number :
      (s : Text) → match_number decimal s ≡ true → (n : ℕ) × (match_ordinal decimal s ≡ some n)
  unfolding match_number
  match_ordinal_of_match_number s h = elim (Option-cases (match_digits decimal 3 s)) [
    | inl bad ↦ absurd (let k = rw (match_number, bad) at h in ground arith)
    | inr (rest, at_rest) ↦ elim (Bool-cases (at_end rest)) [
      | inl end ↦ match_ordinal-at_end s rest at_rest (λ v. read_digits-at_end v rest end)
      | inr more ↦ elim (Option-cases (match_digits decimal 1 rest)) [
        | inl bad ↦ absurd (let k = rw (match_number, at_rest, more, bad) at h in ground arith)
        | inr (last, at_last) ↦
            let end : at_end last ≡ true = rw (match_number, at_rest, more, at_last) at h in
            match_ordinal-at_end s rest at_rest
              (match_digits-read 1 rest last at_last (λ v. read_digits-at_end v last end))
      ]
    ]
  ]
