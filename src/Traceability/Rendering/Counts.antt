-- ===== src/Traceability/Rendering/Counts.antt =====
-- The counts of the coverage summary (tools/traceability_sync.py, `render`).
use realtime_meeting_transla.Prelude.{
  ℕ, suc, ◌+◌, ◌≡◌, refl, ap, sym, ◌∙◌, true, false, some, List, [], ◌∷◌, Text, arith, Bool-cases,
  inl, inr, text_eq, text_eq_iff, filterb, filterb_hit, filterb_miss, length, if◌then◌else◌, All,
}
use realtime_meeting_transla.Prelude.Dict.{Dict, lookup, insert, lookup-insert, member}
use realtime_meeting_transla.Traceability.Rows.{Row, allowed_statuses}
use realtime_meeting_transla.Traceability.Rendering.{count_of, count_statuses}

-- The rows of a status.
abbrev pub of_status : Text → List Row → List Row
of_status status rows = filterb (λ row. text_eq row.status status) rows

count_of-insert :
    (status other : Text) (n : ℕ) (counts : Dict ℕ)
    → count_of status (insert other n counts)
      ≡ (if text_eq other status then n else count_of status counts)
unfolding count_of
count_of-insert status other n counts = elim (Bool-cases (text_eq other status)) [
  | inl same ↦
      let e : lookup status (insert other n counts) ≡ some n =
        lookup-insert other status n counts ∙ rw same refl in
      rw (count_of, e, same) refl
  | inr differ ↦
      let e : lookup status (insert other n counts) ≡ lookup status counts =
        lookup-insert other status n counts ∙ rw differ refl in
      rw (count_of, e, differ) refl
]

-- Each count is the number of the rows of its status, on top of what was counted before.
count_statuses_lem :
    (rows : List Row) (counts : Dict ℕ) (status : Text)
    → count_of status (count_statuses rows counts)
      ≡ count_of status counts + length (of_status status rows)
unfolding count_statuses
count_statuses_lem [] counts status = omega arith
count_statuses_lem (row ∷ rows) counts status =
    let more =
      count_statuses_lem rows (insert row.status (count_of row.status counts + 1) counts) status in
    let step = count_of-insert status row.status (count_of row.status counts + 1) counts in
    elim (Bool-cases (text_eq row.status status)) [
      | inl same ↦
          let id = (text_eq_iff row.status status).0 same in
          let hit = rw same at step in
          let own : count_of row.status counts ≡ count_of status counts =
            ap (λ s. count_of s counts) id in
          let size = ap length (filterb_hit (λ r. text_eq r.status status) row rows same) in
          omega (arith, more, hit, own, size)
      | inr differ ↦
          let miss = rw differ at step in
          let size = ap length (filterb_miss (λ r. text_eq r.status status) row rows differ) in
          omega (arith, more, miss, size)
    ]

-- The number that the summary prints for a status is that of the rows which have it.
pub count_of-count_statuses :
    (rows : List Row) (status : Text)
    → count_of status (count_statuses rows []) ≡ length (of_status status rows)
unfolding count_of lookup
count_of-count_statuses rows status = omega (arith, count_statuses_lem rows [] status)

-- The sum of the counts of some statuses.
abbrev pub sum_counts : List Text → Dict ℕ → ℕ
sum_counts [] counts = 0
sum_counts (status ∷ statuses) counts = count_of status counts + sum_counts statuses counts

abbrev sum_lengths : List Text → List Row → ℕ
sum_lengths [] rows = 0
sum_lengths (status ∷ statuses) rows = length (of_status status rows) + sum_lengths statuses rows

-- How often a status stands in a list of them.
abbrev occurrences : Text → List Text → ℕ
occurrences s [] = 0
occurrences s (t ∷ statuses) =
    let rest = occurrences s statuses in if text_eq s t then suc rest else rest

abbrev IsOnce : List Text → Type 0
IsOnce [] = Unit
IsOnce (s ∷ statuses) = (member s statuses ≡ false) × IsOnce statuses

occurrences_none :
    (s : Text) (statuses : List Text) → member s statuses ≡ false → occurrences s statuses ≡ 0
unfolding member
occurrences_none s [] h = refl
occurrences_none s (t ∷ statuses) h =
    ground (arith, occurrences_none s statuses, text_eq_iff s t, text_eq_iff t s)

occurrences_one :
    (s : Text) (statuses : List Text)
    → IsOnce statuses
    → member s statuses ≡ true
    → occurrences s statuses ≡ 1
unfolding member
occurrences_one s [] once h = absurd (ground arith)
occurrences_one s (t ∷ statuses) once h = elim (Bool-cases (text_eq s t)) [
  | inl same ↦
      let e : t ≡ s = sym ((text_eq_iff s t).0 same) in
      let fresh : member s statuses ≡ false = ap (λ k. member k statuses) (sym e) ∙ once.0 in
      rw same (ap suc (occurrences_none s statuses fresh))
  | inr differ ↦
      rw differ
        (occurrences_one s statuses once.1 (ground (arith, text_eq_iff s t, text_eq_iff t s)))
]

sum_lengths_step :
    (row : Row) (rows : List Row) (statuses : List Text)
    → sum_lengths statuses (row ∷ rows)
      ≡ occurrences row.status statuses + sum_lengths statuses rows
sum_lengths_step row rows [] = omega arith
sum_lengths_step row rows (s ∷ statuses) =
    let rest = sum_lengths_step row rows statuses in
    elim (Bool-cases (text_eq row.status s)) [
      | inl same ↦ rw same (omega (arith, rest))
      | inr differ ↦ rw differ (omega (arith, rest))
    ]

sum_lengths_total :
    (statuses : List Text) (rows : List Row)
    → IsOnce statuses
    → All (λ row. member row.status statuses ≡ true) rows
    → sum_lengths statuses rows ≡ length rows
sum_lengths_total statuses [] once h = none_left statuses
  where
    none_left : (statuses : List Text) → sum_lengths statuses [] ≡ 0
    none_left [] = refl
    none_left (s ∷ statuses) = omega (arith, none_left statuses)
sum_lengths_total statuses (row ∷ rows) once h = omega (
  arith,
  sum_lengths_step row rows statuses,
  occurrences_one row.status statuses once h.0,
  sum_lengths_total statuses rows once h.1,
)

sum_counts_lem :
    (rows : List Row) (statuses : List Text)
    → sum_counts statuses (count_statuses rows []) ≡ sum_lengths statuses rows
sum_counts_lem rows [] = refl
sum_counts_lem rows (s ∷ statuses) =
    omega (arith, count_of-count_statuses rows s, sum_counts_lem rows statuses)

-- Where every row has one of the allowed statuses, the counts that the summary prints add up to
-- the total below them.
pub sum_counts-count_statuses :
    (rows : List Row)
    → All (λ row. member row.status allowed_statuses ≡ true) rows
    → sum_counts allowed_statuses (count_statuses rows []) ≡ length rows
unfolding member text_eq
sum_counts-count_statuses rows h =
    sum_counts_lem rows allowed_statuses
    ∙ sum_lengths_total allowed_statuses rows
        (refl, (refl, (refl, (refl, (refl, (refl, (refl, (refl, tt)))))))) h
