-- ===== src/Prelude/Dict.antt =====
-- A Python dict with `str` keys, in insertion order, and a set of `str`.
use realtime_meeting_transla.Prelude.{
  ◌≡◌, refl, Bool, true, false, ◌||◌, Option, none, some, List, [], ◌∷◌, arith, Text, text_eq,
  text_eq_iff, text_eq_refl, if◌then◌else◌, Bool-cases, inl, inr, sym,
}
use mathlib.Core.Path.{subst, subst₂}

abbrev pub Dict {ℓ} : Type ℓ → Type ℓ
Dict V = List (Text × V)

module _ {ℓ} {V : Type ℓ} where
  -- `d.get(k)`
  unfoldable pub lookup : Text → Dict V → Option V
  lookup k [] = none
  lookup k ((j, v) ∷ d) = if text_eq j k then some v else lookup k d

  -- `d[k] = v`: a known key keeps its place.
  unfoldable pub insert : Text → V → Dict V → Dict V
  insert k v [] = (k, v) ∷ []
  insert k v ((j, w) ∷ d) = if text_eq j k then (j, v) ∷ d else (j, w) ∷ insert k v d

  -- `k in d`
  abbrev pub has_key : Text → Dict V → Bool
  has_key k d = elim (lookup k d) [ none ↦ false | some v ↦ true ]

  -- No key stands twice, as in every Python dict.
  abbrev pub IsDistinct : Dict V → Type ℓ
  IsDistinct [] = Unit
  IsDistinct ((k, v) ∷ d) = (lookup k d ≡ none) × IsDistinct d

  pub lookup-insert :
      (k j : Text) (v : V) (d : Dict V)
      → lookup j (insert k v d) ≡ (if text_eq k j then some v else lookup j d)
  unfolding lookup insert
  lookup-insert k j v [] = refl
  lookup-insert k j v ((i, w) ∷ d) =
      ground (arith, text_eq_iff k j, text_eq_iff i k, text_eq_iff i j, lookup-insert k j v d)

  pub lookup-insert_self : (k : Text) (v : V) (d : Dict V) → lookup k (insert k v d) ≡ some v
  lookup-insert_self k v d = ground (arith, lookup-insert k k v d, text_eq_iff k k)

  pub insert-IsDistinct : (k : Text) (v : V) (d : Dict V) → IsDistinct d → IsDistinct (insert k v d)
  unfolding insert
  insert-IsDistinct k v [] h = unfold lookup in (refl, tt)
  insert-IsDistinct k v ((j, w) ∷ d) h =
      ground (
        arith,
        insert-IsDistinct k v d h.1,
        lookup-insert k j v d,
        text_eq_iff k j,
        text_eq_iff j k,
      )

-- What holds of every entry of a dict.
module _ {ℓ κ} {V : Type ℓ} (P : Text → V → Type κ) where
  abbrev pub AllEntries : Dict V → Type κ
  AllEntries [] = Unit
  AllEntries ((k, v) ∷ d) = P k v × AllEntries d

  pub lookup-AllEntries :
      (k : Text) (v : V) (d : Dict V) → AllEntries d → lookup k d ≡ some v → P k v
  unfolding lookup
  lookup-AllEntries k v [] h e = absurd (ground arith)
  lookup-AllEntries k v ((j, w) ∷ d) h e = elim (Bool-cases (text_eq j k)) [
    | inl same ↦ let kept : w ≡ v = ground arith in subst₂ P ((text_eq_iff j k).0 same) kept h.0
    | inr other ↦ lookup-AllEntries k v d h.1 (rw other at e)
  ]

  pub insert-AllEntries :
      (k : Text) (v : V) (d : Dict V) → P k v → AllEntries d → AllEntries (insert k v d)
  unfolding insert
  insert-AllEntries k v [] p h = (p, tt)
  insert-AllEntries k v ((j, w) ∷ d) p h = elim (Bool-cases (text_eq j k)) [
    | inl same ↦ rw same (subst (λ i. P i v) (sym ((text_eq_iff j k).0 same)) p, h.1)
    | inr other ↦ rw other (h.0, insert-AllEntries k v d p h.1)
  ]

  lookup_later :
      (j k : Text) (v w : V) (d : Dict V)
      → lookup k d ≡ none
      → lookup j d ≡ some w
      → lookup j ((k, v) ∷ d) ≡ some w
  unfolding lookup
  lookup_later j k v w d n e = elim (Bool-cases (text_eq k j)) [
    | inl same ↦
        absurd (let m : lookup j d ≡ none = rw (← (text_eq_iff k j).0 same) n in ground arith)
    | inr other ↦ rw other e
  ]

  -- What holds of all that `lookup` finds holds of every entry.
  pub AllEntries-of_lookup :
      (d : Dict V)
      → IsDistinct d
      → ((k : Text) (v : V) → lookup k d ≡ some v → P k v)
      → AllEntries d
  unfolding lookup
  AllEntries-of_lookup [] n h = tt
  AllEntries-of_lookup ((k, v) ∷ d) n h = (
    h k v (rw (text_eq_refl k) refl),
    AllEntries-of_lookup d n.1 (λ j w e. h j w (lookup_later j k v w d n.0 e)),
  )

-- `k in s`, for a set
unfoldable pub member : Text → List Text → Bool
member k [] = false
member k (j ∷ s) = text_eq j k || member k s

-- `s.add(k)`
unfoldable pub add : Text → List Text → List Text
unfolding member
add k s = if member k s then s else k ∷ s

pub member-add : (j k : Text) (s : List Text) → member j (add k s) ≡ (text_eq k j || member j s)
unfolding add member
member-add j k s = ground (arith, text_eq_iff k j)
