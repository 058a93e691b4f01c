-- ===== src/Traceability/Syncing/Entering.antt =====
-- A matrix into which rows are entered one after the other (tools/traceability_sync.py).
use realtime_meeting_transla.Prelude.{
  ℕ, ◌≡◌, ◌≢◌, refl, ap, sym, ◌∙◌, true, false, Option, none, some, List, [], ◌∷◌, ◌++◌,
  append_assoc, append-nil, Text, arith, Bool-cases, inl, inr, ◌⊎◌, All, text_eq, text_eq_iff,
}
use realtime_meeting_transla.Prelude.Sorting.{In, Pairwise}
use realtime_meeting_transla.Prelude.Dict.{Dict, lookup, insert, has_key, lookup-insert}
use realtime_meeting_transla.Traceability.Rows.{Row}
use realtime_meeting_transla.Traceability.Reading.Parsed.{insert_rows}
use realtime_meeting_transla.Traceability.Syncing.{orphaned_rows}
use realtime_meeting_transla.Traceability.Syncing.Result.{Apart}

module _ (decimal : ℕ → Option ℕ) where
  abbrev enter : List Row → Dict Row → Dict Row
  enter = insert_rows decimal

  pub insert_rows-append : (a b : List Row) (d : Dict Row) → enter (a ++ b) d ≡ enter b (enter a d)
  insert_rows-append [] b d = refl
  insert_rows-append (row ∷ a) b d = insert_rows-append a b (insert row.req_id row d)

  -- Where all rows of an id are the same and there is one, that is the entry of the id.
  pub lookup-insert_rows :
      (w : Row) (rows : List Row) (d : Dict Row)
      → All (λ r. r.req_id ≡ w.req_id → r ≡ w) rows
      → (lookup w.req_id d ≡ some w) ⊎ In w rows
      → lookup w.req_id (enter rows d) ≡ some w
  lookup-insert_rows w [] d h (inl known) = known
  lookup-insert_rows w [] d h (inr i) = absurd i
  lookup-insert_rows w (r ∷ rows) d h i = lookup-insert_rows w rows (insert r.req_id r d) h.1 step
    where
      step : (lookup w.req_id (insert r.req_id r d) ≡ some w) ⊎ In w rows
      step = elim (Bool-cases (text_eq r.req_id w.req_id)) [
        | inl same ↦
            let id : r.req_id ≡ w.req_id = (text_eq_iff r.req_id w.req_id).0 same in
            inl (lookup-insert r.req_id w.req_id r d ∙ rw same (ap some (h.0 id)))
        | inr other ↦ elim i [
          | inl known ↦ inl (lookup-insert r.req_id w.req_id r d ∙ rw other known)
          | inr (inl e) ↦ absurd (ground (arith, text_eq_iff r.req_id w.req_id))
          | inr (inr j) ↦ inr j
        ]
      ]

  pub lookup-insert_rows_other :
      (id : Text) (rows : List Row) (d : Dict Row)
      → All (λ r. r.req_id ≢ id) rows
      → lookup id (enter rows d) ≡ lookup id d
  lookup-insert_rows_other id [] d h = refl
  lookup-insert_rows_other id (r ∷ rows) d h =
      let ne = h.0 in
      lookup-insert_rows_other id rows (insert r.req_id r d) h.1
      ∙ ground (arith, lookup-insert r.req_id id r d, text_eq_iff r.req_id id)

  module _ (catalogue : Dict Text) where
    orphaned_rows-insert_known :
        (r : Row) (d : Dict Row)
        → has_key r.req_id catalogue ≡ true
        → orphaned_rows catalogue (insert r.req_id r d) ≡ orphaned_rows catalogue d
    unfolding orphaned_rows insert
    orphaned_rows-insert_known r [] h = rw h refl
    orphaned_rows-insert_known r ((k, v) ∷ d) h = elim (Bool-cases (text_eq k r.req_id)) [
      | inl same ↦
          let id : has_key k catalogue ≡ true = rw ((text_eq_iff k r.req_id).0 same) h in
          rw (same, id) refl
      | inr other ↦ elim (Bool-cases (has_key k catalogue)) [
        | inl kept ↦ rw (other, kept) (orphaned_rows-insert_known r d h)
        | inr gone ↦ rw (other, gone) (ap (◌∷◌ v) (orphaned_rows-insert_known r d h))
      ]
    ]

    orphaned_rows-insert_new :
        (r : Row) (d : Dict Row)
        → has_key r.req_id catalogue ≡ false
        → lookup r.req_id d ≡ none
        → orphaned_rows catalogue (insert r.req_id r d) ≡ orphaned_rows catalogue d ++ r ∷ []
    unfolding orphaned_rows insert lookup
    orphaned_rows-insert_new r [] h n = rw h refl
    orphaned_rows-insert_new r ((k, v) ∷ d) h n = elim (Bool-cases (text_eq k r.req_id)) [
      | inl same ↦ absurd (let m = rw same at n in ground arith)
      | inr other ↦
          let rest = orphaned_rows-insert_new r d h (rw other at n) in
          elim (Bool-cases (has_key k catalogue)) [
            | inl kept ↦ rw (other, kept) rest
            | inr gone ↦ rw (other, gone) (ap (◌∷◌ v) rest)
          ]
    ]

    -- Rows of ids of the catalogue are no orphans.
    pub orphaned_rows-insert_rows_known :
        (rows : List Row) (d : Dict Row)
        → All (λ r. has_key r.req_id catalogue ≡ true) rows
        → orphaned_rows catalogue (enter rows d) ≡ orphaned_rows catalogue d
    orphaned_rows-insert_rows_known [] d h = refl
    orphaned_rows-insert_rows_known (r ∷ rows) d h =
        orphaned_rows-insert_rows_known rows (insert r.req_id r d) h.1
        ∙ orphaned_rows-insert_known r d h.0

    -- Rows of other ids, each new, come to the orphans in their order.
    pub orphaned_rows-insert_rows_new :
        (rows : List Row) (d : Dict Row)
        → All (λ r. has_key r.req_id catalogue ≡ false) rows
        → All (λ r. lookup r.req_id d ≡ none) rows
        → Pairwise Apart rows
        → orphaned_rows catalogue (enter rows d) ≡ orphaned_rows catalogue d ++ rows
    orphaned_rows-insert_rows_new [] d h n p = sym (append-nil (orphaned_rows catalogue d))
    orphaned_rows-insert_rows_new (r ∷ rows) d h n p =
        orphaned_rows-insert_rows_new rows (insert r.req_id r d) h.1 (still_new r d rows n.1 p.0)
          p.1
        ∙ ap (λ l. l ++ rows) (orphaned_rows-insert_new r d h.0 n.0)
        ∙ append_assoc (orphaned_rows catalogue d) (r ∷ []) rows
      where
        still_new :
            (r : Row) (d : Dict Row) (rows : List Row)
            → All (λ b. lookup b.req_id d ≡ none) rows
            → All (Apart r) rows
            → All (λ b. lookup b.req_id (insert r.req_id r d) ≡ none) rows
        still_new r d [] n p = tt
        still_new r d (b ∷ rows) n p =
            let ne = p.0 in
            let new = n.0 in
            (
              ground (arith, lookup-insert r.req_id b.req_id r d, text_eq_iff r.req_id b.req_id),
              still_new r d rows n.1 p.1,
            )
