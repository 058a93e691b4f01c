-- ===== src/Projection/Aliases.antt =====
-- Following speaker aliases to their end (protocol/projection.py).
use realtime_meeting_transla.Prelude.{
  ℕ, zero, suc, ◌+◌, ◌≤◌, ◌<◌, ◌≡◌, refl, ap, sym, ◌∙◌, ◌≢◌, true, false, none, some, List, [], ◌∷◌,
  Text, arith, inl, inr, Bool-cases, Option-cases, if◌then◌else◌, text_eq_iff, length,
}
use realtime_meeting_transla.Prelude.Dict.{
  Dict, lookup, insert, member, add, member-add, lookup-insert,
}
use realtime_meeting_transla.Projection.Speakers.{follow, canonical_speaker, alias_all}

-- The aliases that the loop has not seen.
pub unseen : Dict Text → List Text → ℕ
unseen [] seen = 0
unseen ((k, v) ∷ d) seen = (if member k seen then 0 else 1) + unseen d seen

pub unseen-le-length : (d : Dict Text) (seen : List Text) → unseen d seen ≤ length d
unfolding unseen
unseen-le-length [] seen = omega arith
unseen-le-length ((k, v) ∷ d) seen = ground (arith, unseen-le-length d seen)

pub unseen-add-le :
    (d : Dict Text) (c : Text) (seen : List Text) → unseen d (add c seen) ≤ unseen d seen
unfolding unseen
unseen-add-le [] c seen = omega arith
unseen-add-le ((k, v) ∷ d) c seen = ground (arith, unseen-add-le d c seen, member-add k c seen)

pub unseen-add-lt :
    (d : Dict Text) (c next : Text) (seen : List Text)
    → lookup c d ≡ some next
    → member c seen ≡ false
    → unseen d (add c seen) < unseen d seen
unfolding unseen lookup
unseen-add-lt [] c next seen h new = absurd (ground arith)
unseen-add-lt ((k, v) ∷ d) c next seen h new = ground (
  arith,
  unseen-add-lt d c next seen,
  unseen-add-le d c seen,
  member-add k c seen,
  text_eq_iff k c,
  text_eq_iff c k,
)

-- Enough rounds end the loop by its test, so more rounds make no difference.
pub follow_fuel :
    (f g : ℕ) (d : Dict Text) (c : Text) (seen : List Text)
    → unseen d seen < f
    → unseen d seen < g
    → follow f d c seen ≡ follow g d c seen
unfolding follow
follow_fuel zero g d c seen p q = absurd (omega arith)
follow_fuel (suc f) zero d c seen p q = absurd (omega arith)
follow_fuel (suc f) (suc g) d c seen p q = elim (Option-cases (lookup c d)) [
  | inl end ↦ rw (end, follow)
  | inr (next, more) ↦ elim (Bool-cases (member c seen)) [
    | inl cycle ↦ rw (more, cycle, follow)
    | inr new ↦
        let fewer = unseen-add-lt d c next seen more new in
        rw (more, new, follow) (follow_fuel f g d next (add c seen) (omega arith) (omega arith))
  ]
]

-- The loop of `canonical_speaker` ends within one round more than there are aliases: with any
-- more rounds the result is the same.
pub canonical_speaker_fuel :
    (d : Dict Text) (speaker : Text) (fuel : ℕ)
    → length d < fuel
    → canonical_speaker d (some speaker) ≡ some (follow fuel d speaker [])
unfolding canonical_speaker
canonical_speaker_fuel d speaker fuel h = ap some (
    follow_fuel (suc (length d)) fuel d speaker [] (omega (arith, unseen-le-length d []))
      (omega (arith, unseen-le-length d [])))

pub lookup-alias_all :
    (sources : List Text) (target k : Text) (d : Dict Text)
    → lookup k (alias_all sources target d) ≡ (if member k sources then some target else lookup k d)
unfolding alias_all member
lookup-alias_all [] target k d = refl
lookup-alias_all (a ∷ sources) target k d =
    ground
      (arith, lookup-alias_all sources target k (insert a target d), lookup-insert a k target d)

pub lookup-length : (k v : Text) (d : Dict Text) → lookup k d ≡ some v → 0 < length d
unfolding lookup
lookup-length k v [] h = absurd (ground arith)
lookup-length k v (x ∷ d) h = omega arith

-- One alias, and a target that is no alias: two rounds reach it.
pub follow_once :
    (n : ℕ) (d : Dict Text) (k target : Text)
    → 0 < n
    → lookup k d ≡ some target
    → lookup target d ≡ none
    → follow (suc n) d k [] ≡ target
unfolding follow member
follow_once zero d k target h p q = absurd (omega arith)
follow_once (suc n) d k target h p q = rw (p, q, follow)

-- Two ids that are aliases of each other: the loop comes back to where it started.
pub follow_cycle :
    (n : ℕ) (d : Dict Text) (a b : Text)
    → a ≢ b
    → lookup a d ≡ some b
    → lookup b d ≡ some a
    → follow (suc (suc (suc n))) d a [] ≡ a
unfolding follow member
follow_cycle n d a b ne p q =
    let first : member b (add a []) ≡ false = ground (arith, member-add b a [], text_eq_iff a b) in
    let back : member a (add b (add a [])) ≡ true =
      ground (arith, member-add a b (add a []), member-add a a [], text_eq_iff a a) in
    rw (p, follow, q, first, p, back)

-- Aliasing one speaker to another and then the other to the first leaves two canonical ids: each
-- of the two resolves to itself.
pub canonical_speaker_cycle :
    (a b : Text) (d : Dict Text)
    → a ≢ b
    → let merged = alias_all (b ∷ []) a (alias_all (a ∷ []) b d) in
      (canonical_speaker merged (some a) ≡ some a) × (canonical_speaker merged (some b) ≡ some b)
unfolding alias_all
canonical_speaker_cycle a b d ne =
    let merged = insert b a (insert a b d) in
    let fuel = suc (suc (suc (length merged))) in
    let p : lookup a merged ≡ some b = ground (
      arith,
      lookup-insert b a a (insert a b d),
      lookup-insert a a b d,
      text_eq_iff b a,
      text_eq_iff a a,
    ) in
    let q : lookup b merged ≡ some a =
      ground (arith, lookup-insert b b a (insert a b d), text_eq_iff b b) in
    (
      canonical_speaker_fuel merged a fuel (omega arith)
          ∙ ap some (follow_cycle (length merged) merged a b ne p q),
      canonical_speaker_fuel merged b fuel (omega arith)
          ∙ ap some (follow_cycle (length merged) merged b a (λ e. ne (sym e)) q p),
    )

-- Once speakers are aliased to a target that is not among them and is no alias, each of them
-- resolves to the target.
pub canonical_speaker-alias_all :
    (sources : List Text) (target k : Text) (d : Dict Text)
    → member k sources ≡ true
    → member target sources ≡ false
    → lookup target d ≡ none
    → canonical_speaker (alias_all sources target d) (some k) ≡ some target
unfolding canonical_speaker
canonical_speaker-alias_all sources target k d source apart final =
    let merged = alias_all sources target d in
    let to_target : lookup k merged ≡ some target =
      rw (lookup-alias_all sources target k d, source) in
    let at_end : lookup target merged ≡ none =
      rw (lookup-alias_all sources target target d, apart) final in
    ap some (
      follow_once (length merged) merged k target (lookup-length k target merged to_target)
        to_target at_end)
