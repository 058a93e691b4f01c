-- ===== src/Traceability/Rows/Keys.antt =====
-- A row whose id matches `ID_PATTERN` has its sort keys (tools/traceability_sync.py).
use realtime_meeting_transla.Prelude.{
  ℕ, suc, ◌≡◌, refl, Bool, true, false, ◌&&◌, Option, some, List, [], ◌∷◌, ◌++◌, Text, arith,
  Bool-cases, inl, inr, ltb, text_eq, text_eq_iff, All,
}
use realtime_meeting_transla.Prelude.Sorting.{In, All-In}
use realtime_meeting_transla.Traceability.Cells.{is_rule}
use realtime_meeting_transla.Traceability.Rows.{
  Row, domain, domain_order, number, id_domains, before_dash, after_dash, match_id,
}
use realtime_meeting_transla.Traceability.Rows.Ids.{match_id-parts, match_ordinal_of_match_number}
use realtime_meeting_transla.Traceability.Syncing.{index, row_key, orphan_key}

all_letters : Text → Bool
all_letters [] = true
all_letters (c ∷ s) = ltb 64 c && ltb c 91 && all_letters s

nonempty_letters : Text → Bool
nonempty_letters [] = false
nonempty_letters (c ∷ s) = ltb 64 c && ltb c 91 && all_letters s

domains_letters : All (λ d. nonempty_letters d ≡ true) id_domains
unfolding nonempty_letters all_letters
domains_letters = (
  refl,
  (refl, (refl, (refl, (refl, (refl, (refl, (refl, (refl, (refl, (refl, (refl, tt))))))))))),
)

domain_letters : (d : Text) → In d id_domains → nonempty_letters d ≡ true
domain_letters d i = All-In (λ e. nonempty_letters e ≡ true) id_domains d domains_letters i

before_dash-letters : (d n : Text) → all_letters d ≡ true → before_dash (d ++ b'-' ∷ n) ≡ d
unfolding before_dash all_letters
before_dash-letters [] n h = refl
before_dash-letters (c ∷ d) n h = ground (arith, before_dash-letters d n)

after_dash-letters : (d n : Text) → all_letters d ≡ true → after_dash (d ++ b'-' ∷ n) ≡ some n
unfolding after_dash all_letters
after_dash-letters [] n h = refl
after_dash-letters (c ∷ d) n h = ground (arith, after_dash-letters d n)

nonempty_letters-all : (d : Text) → nonempty_letters d ≡ true → all_letters d ≡ true
unfolding nonempty_letters all_letters
nonempty_letters-all [] h = ground arith
nonempty_letters-all (c ∷ d) h = h

is_rule-letters : (d n : Text) → nonempty_letters d ≡ true → is_rule (d ++ n) ≡ false
unfolding is_rule nonempty_letters
is_rule-letters [] n h = absurd (ground arith)
is_rule-letters (c ∷ d) n h = ground arith

index_of_In : (order : List Text) (d : Text) → In d order → (i : ℕ) × (index order d ≡ some i)
unfolding index
index_of_In [] d i = absurd i
index_of_In (e ∷ order) d i = elim (Bool-cases (text_eq e d)) [
  | inl same ↦ (0, rw (index, same) refl)
  | inr other ↦ elim i [
    | inl here ↦ absurd (ground (arith, text_eq_iff e d))
    | inr there ↦ let (n, e) = index_of_In order d there in (suc n, rw (index, other, e) refl)
  ]
]

module _ (decimal : ℕ → Option ℕ) (row : Row) (h : match_id decimal row.req_id ≡ true) where
  -- A row whose id matches is of one of the domains, and both of its sort keys are there.
  pub match_id-domain : In (domain row) domain_order
  match_id-domain =
      let (d, n, i, e, m) = match_id-parts decimal row.req_id h in
      let letters = nonempty_letters-all d (domain_letters d i) in
      rw (e, before_dash-letters d n letters) i

  pub match_id-number : (n : ℕ) × (number decimal row ≡ some n)
  unfolding number
  match_id-number =
      let (d, s, i, e, m) = match_id-parts decimal row.req_id h in
      let letters = nonempty_letters-all d (domain_letters d i) in
      let (n, at_n) = match_ordinal_of_match_number decimal s m in
      (n, rw (number, e, after_dash-letters d s letters) at_n)

  pub match_id-row_key : (k : ℕ × ℕ) × (row_key decimal row ≡ some k)
  unfolding row_key
  match_id-row_key =
      let (i, at_i) = index_of_In domain_order (domain row) match_id-domain in
      let (n, at_n) = match_id-number in ((i, n), rw (row_key, at_i, at_n) refl)

  pub match_id-orphan_key : (k : Text × ℕ) × (orphan_key decimal row ≡ some k)
  unfolding orphan_key
  match_id-orphan_key =
      let (n, at_n) = match_id-number in ((domain row, n), rw (orphan_key, at_n) refl)

pub match_id-is_rule :
    (decimal : ℕ → Option ℕ) (s : Text) → match_id decimal s ≡ true → is_rule s ≡ false
match_id-is_rule decimal s h =
    let (d, n, i, e, m) = match_id-parts decimal s h in
    rw e (is_rule-letters d (b'-' ∷ n) (domain_letters d i))
