-- ===== src/Identifiers/Allocation.antt =====
-- An allocator never hands out an identifier twice (protocol/identifiers.py).
use realtime_meeting_transla.Prelude.{
  ℕ, zero, suc, ◌+◌, ◌≡◌, ◌≢◌, refl, ap, sym, ◌∙◌, true, false, ◌++◌, Text, text_eq, show, arith,
  Bool-cases, inl, inr, drop, length, drop-length_append,
}
use realtime_meeting_transla.Identifiers.{
  OrdinalAllocator, allocate, pad_of, padded, format_speaker_id, speaker_prefix,
}
use realtime_meeting_transla.Identifiers.Digits.{value, value-padded, value-show}

-- The allocator after `n` calls of `allocate`, and the identifier that call `n` returns.
unfoldable pub after : ℕ → OrdinalAllocator → OrdinalAllocator
after zero a = a
after (suc n) a = (allocate (after n a)).1

unfoldable pub nth_identifier : ℕ → OrdinalAllocator → Text
nth_identifier n a = (allocate (after n a)).0

after_lem :
    (n : ℕ) (a : OrdinalAllocator)
    → ((after n a).next ≡ n + a.next) × ((after n a).prefix ≡ a.prefix)
unfolding after allocate
after_lem zero a = (omega arith, refl)
after_lem (suc n) a = let (n_lem, p_lem) = after_lem n a in (omega (arith, n_lem), p_lem)

append_injective : (p s t : Text) → p ++ s ≡ p ++ t → s ≡ t
append_injective p s t h =
    sym (drop-length_append p s) ∙ ap (drop (length p)) h ∙ drop-length_append p t

identifier : Text → ℕ → Text
identifier prefix next = (allocate (record { prefix = prefix; next = next })).0

nth_identifier_lem :
    (n : ℕ) (a : OrdinalAllocator) → nth_identifier n a ≡ identifier a.prefix (n + a.next)
unfolding nth_identifier identifier
nth_identifier_lem n a =
    let (next_n, prefix_n) = after_lem n a in
    ap (λ p. identifier p (after n a).next) prefix_n ∙ ap (identifier a.prefix) next_n

identifier_speaker :
    (p : Text) (n : ℕ)
    → text_eq p speaker_prefix ≡ true
    → identifier p n ≡ speaker_prefix ++ show (suc n)
unfolding identifier allocate format_speaker_id
identifier_speaker p n h = rw h

identifier_other :
    (p : Text) (n : ℕ)
    → text_eq p speaker_prefix ≡ false
    → identifier p n ≡ p ++ padded (pad_of p) n
unfolding identifier allocate
identifier_other p n h = rw h

identifier_injective : (p : Text) (m n : ℕ) → identifier p m ≡ identifier p n → m ≡ n
identifier_injective p m n h = elim (Bool-cases (text_eq p speaker_prefix)) [
  | inl speaker ↦
      let same =
        append_injective speaker_prefix _ _
          (sym (identifier_speaker p m speaker) ∙ h ∙ identifier_speaker p n speaker) in
      omega (arith, sym (value-show (suc m)) ∙ ap (value 0) same ∙ value-show (suc n))
  | inr other ↦
      let same =
        append_injective p _ _
          (sym (identifier_other p m other) ∙ h ∙ identifier_other p n other) in
      sym (value-padded (pad_of p) m) ∙ ap (value 0) same ∙ value-padded (pad_of p) n
]

nth_identifier_injective :
    (a : OrdinalAllocator) (i j : ℕ) → nth_identifier i a ≡ nth_identifier j a → i ≡ j
nth_identifier_injective a i j h = omega (
  arith,
  identifier_injective a.prefix (i + a.next) (j + a.next)
      (sym (nth_identifier_lem i a) ∙ h ∙ nth_identifier_lem j a),
)

-- Any two calls of `allocate` on one allocator return different identifiers, whatever its prefix
-- and whatever the calls between them.
pub nth_identifier_distinct :
    (a : OrdinalAllocator) (i j : ℕ) → i ≢ j → nth_identifier i a ≢ nth_identifier j a
nth_identifier_distinct a i j ne same = ne (nth_identifier_injective a i j same)
