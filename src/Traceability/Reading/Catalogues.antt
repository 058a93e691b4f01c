-- ===== src/Traceability/Reading/Catalogues.antt =====
-- When `parse_requirement_ids` succeeds (tools/traceability_sync.py).
use realtime_meeting_transla.Prelude.{
  ℕ, ◌≡◌, ◌≢◌, ◌↔◌, refl, ap, sym, subst, ◌∙◌, Option, none, some, List, [], ◌∷◌, ◌++◌,
  append_assoc, append-nil, Text, arith, Option-cases, Bool-cases, inl, inr, text_eq, text_eq_iff,
}
use realtime_meeting_transla.Prelude.Dict.{Dict, lookup, insert, IsDistinct, insert-IsDistinct}
use realtime_meeting_transla.Traceability.Reading.{
  found, read_text, splitlines, requirement_cells, read_ids, parse_requirement_ids,
}

insert_new :
    {V : Type 0} (k : Text) (v : V) (d : Dict V)
    → lookup k d ≡ none
    → insert k v d ≡ d ++ (k, v) ∷ []
unfolding lookup insert
insert_new k v [] h = refl
insert_new k v ((j, w) ∷ d) h = elim (Bool-cases (text_eq j k)) [
  | inl same ↦ absurd (let e = rw same at h in ground arith)
  | inr other ↦ rw other (ap (◌∷◌ (j, w)) (insert_new k v d (rw other at h)))
]

module _ (decimal : ℕ → Option ℕ) where
  abbrev add_requirement : Option (Text × Text) → Dict Text → Dict Text
  add_requirement none rest = rest
  add_requirement (some (req_id, text)) rest = (req_id, text) ∷ rest

  -- The requirements of all lines that have one, in order, repeated ids included.
  abbrev pub requirements : List Text → Dict Text
  requirements [] = []
  requirements (line ∷ lines) =
      add_requirement (requirement_cells decimal line) (requirements lines)

  lookup-append_here :
      {V : Type 0} (k : Text) (v : V) (a b : Dict V) → lookup k (a ++ (k, v) ∷ b) ≡ none → ⊥
  unfolding lookup
  lookup-append_here k v [] b h = ground (arith, text_eq_iff k k)
  lookup-append_here k v ((j, w) ∷ a) b h = elim (Bool-cases (text_eq j k)) [
    | inl same ↦ let e = rw same at h in ground arith
    | inr other ↦ lookup-append_here k v a b (rw other at h)
  ]

  distinct_before :
      {V : Type 0} (k : Text) (v : V) (a b : Dict V)
      → IsDistinct (a ++ (k, v) ∷ b)
      → lookup k a ≡ none
  unfolding lookup
  distinct_before k v [] b h = refl
  distinct_before k v ((j, w) ∷ a) b h = elim (Bool-cases (text_eq j k)) [
    | inl same ↦
        let there : lookup k (a ++ (k, v) ∷ b) ≡ none =
          ap (λ i. lookup i (a ++ (k, v) ∷ b)) (sym ((text_eq_iff j k).0 same)) ∙ h.0 in
        absurd (lookup-append_here k v a b there)
    | inr other ↦ rw other (distinct_before k v a b h.1)
  ]

  -- What `read_ids` accepts behind the ids that it has.
  abbrev Accepts : List Text → Dict Text → Dict Text → Type 0
  Accepts lines known catalogue =
      (known ++ requirements lines ≡ catalogue) × IsDistinct catalogue × (catalogue ≢ [])

  read_ids-found :
      (lines : List Text) (known catalogue : Dict Text)
      → IsDistinct known
      → read_ids decimal lines known ≡ found catalogue
      → Accepts lines known catalogue
  unfolding read_ids
  read_ids-found [] [] catalogue d e = absurd (ground arith)
  read_ids-found [] (entry ∷ known) catalogue d e =
      let same : entry ∷ known ≡ catalogue = ground arith in
      rw (← same) (append-nil (entry ∷ known), d, λ z. ground arith)
  read_ids-found (line ∷ lines) known catalogue d e =
      elim (Option-cases (requirement_cells decimal line)) [
        | inl skipped ↦
            rw (add_requirement, skipped)
              (read_ids-found lines known catalogue d (rw (read_ids, skipped) at e))
        | inr ((req_id, text), kept) ↦ elim (Option-cases (lookup req_id known)) [
          | inr (old, there) ↦ absurd (let k = rw (read_ids, kept, there) at e in ground arith)
          | inl fresh ↦
              let (same, distinct, some_id) =
                read_ids-found lines (insert req_id text known) catalogue
                  (insert-IsDistinct req_id text known d) (rw (read_ids, kept, fresh) at e) in
              (
                rw (add_requirement, kept)
                    (sym (append_assoc known ((req_id, text) ∷ []) (requirements lines))
                      ∙ ap (λ k. k ++ requirements lines) (sym (insert_new req_id text known fresh))
                      ∙ same),
                distinct,
                some_id,
              )
        ]
      ]

  found-read_ids :
      (lines : List Text) (known catalogue : Dict Text)
      → Accepts lines known catalogue
      → read_ids decimal lines known ≡ found catalogue
  unfolding read_ids
  found-read_ids [] [] catalogue (e, d, n) = absurd (n (sym e))
  found-read_ids [] (entry ∷ known) catalogue (e, d, n) =
      ap found (sym (append-nil (entry ∷ known)) ∙ e)
  found-read_ids (line ∷ lines) known catalogue (e, d, n) =
      elim (Option-cases (requirement_cells decimal line)) [
        | inl skipped ↦
            rw (read_ids, skipped)
              (found-read_ids lines known catalogue (rw (add_requirement, skipped) at e, d, n))
        | inr ((req_id, text), kept) ↦
            let parts : known ++ (req_id, text) ∷ requirements lines ≡ catalogue =
              rw (add_requirement, kept) at e in
            let fresh =
              distinct_before req_id text known (requirements lines)
                (subst IsDistinct (sym parts) d) in
            rw (read_ids, kept, fresh)
              (found-read_ids lines (insert req_id text known) catalogue (
                ap (λ k. k ++ requirements lines) (insert_new req_id text known fresh)
                    ∙ append_assoc known ((req_id, text) ∷ []) (requirements lines)
                    ∙ parts,
                d,
                n,
              ))
      ]

  -- The catalogue is read exactly if its lines have requirements, no two of one id; and then it is
  -- those requirements, in the order of the lines.
  pub parse_requirement_ids_iff :
      (file : Text) (catalogue : Dict Text)
      → (parse_requirement_ids decimal (some file) ≡ found catalogue) ↔ (
          (requirements (splitlines (read_text file)) ≡ catalogue)
          × IsDistinct catalogue
          × (catalogue ≢ []))
  unfolding parse_requirement_ids
  parse_requirement_ids_iff file catalogue = (
    read_ids-found (splitlines (read_text file)) [] catalogue tt,
    found-read_ids (splitlines (read_text file)) [] catalogue,
  )
