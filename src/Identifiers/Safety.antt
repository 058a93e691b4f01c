-- ===== src/Identifiers/Safety.antt =====
-- What a session id that is accepted looks like (protocol/identifiers.py). It becomes part of a
-- path, so none of its characters may be a separator or a dot.
use realtime_meeting_transla.Prelude.{
  ℕ, zero, suc, ◌+◌, ◌≤◌, ◌≡◌, refl, ap, sym, ◌∙◌, ◌⊎◌, inl, inr, true, Option, none, some, [], ◌∷◌,
  ◌++◌, Text, length, All, All-append, append_assoc, append-nil, length-append, arith, Bool-cases,
  Option-cases, ◌==◌, leb,
}
use realtime_meeting_transla.Identifiers.SessionId.{◌>>=◌}
use realtime_meeting_transla.Identifiers.{
  is_hex, match_hex, match_dash, at_end, match_groups, is_valid_session_id,
}

-- A lower case hexadecimal digit or a dash.
pub data IsIdChar (c : ℕ) : Type 0 where
  digit : b'0' ≤ c → c ≤ b'9' → IsIdChar c
  letter : b'a' ≤ c → c ≤ b'f' → IsIdChar c
  dash : c ≡ b'-' → IsIdChar c

is_hex-IsIdChar : (c : ℕ) → is_hex c ≡ true → IsIdChar c
unfolding is_hex
is_hex-IsIdChar c h = elim (Bool-cases (leb b'0' c)) [
  | inl low ↦ elim (Bool-cases (leb c b'9')) [
    | inl high ↦ IsIdChar.digit (ground arith) (ground arith)
    | inr high ↦ IsIdChar.letter (ground arith) (ground arith)
  ]
  | inr low ↦ absurd (ground arith)
]

-- `r` is what `s` leaves behind its first `n` characters, which are id characters.
record Takes (n : ℕ) (s r : Text) : Type 0 where
  taken : Text
  split : s ≡ taken ++ r
  count : length taken ≡ n
  chars : All IsIdChar taken

Takes-trans : (m n : ℕ) (s r t : Text) → Takes m s r → Takes n r t → Takes (m + n) s t
Takes-trans m n s r t x y = record {
  taken = x.taken ++ y.taken;
  split = x.split ∙ ap (λ z. x.taken ++ z) y.split ∙ sym (append_assoc x.taken y.taken t);
  count = length-append x.taken y.taken ∙ omega (arith, x.count, y.count);
  chars = All-append IsIdChar x.taken y.taken x.chars y.chars;
}

match_hex-Takes : (n : ℕ) (s r : Text) → match_hex n s ≡ some r → Takes n s r
unfolding match_hex
match_hex-Takes zero s r h = record { taken = []; split = ground arith; count = refl; chars = tt }
match_hex-Takes (suc n) [] r h = absurd (ground arith)
match_hex-Takes (suc n) (c ∷ s) r h = elim (Bool-cases (is_hex c)) [
  | inl hex ↦
      let x = match_hex-Takes n s r (ground arith) in
      record {
        taken = c ∷ x.taken;
        split = ap (◌∷◌ c) x.split;
        count = ap suc x.count;
        chars = (is_hex-IsIdChar c hex, x.chars);
      }
  | inr other ↦ absurd (ground arith)
]

match_dash-Takes : (s r : Text) → match_dash s ≡ some r → Takes 1 s r
unfolding match_dash
match_dash-Takes [] r h = absurd (ground arith)
match_dash-Takes (c ∷ s) r h = elim (Bool-cases (c == b'-')) [
  | inl hit ↦ record {
    taken = c ∷ [];
    split = ap (◌∷◌ c) (ground arith);
    count = refl;
    chars = (IsIdChar.dash (ground arith), tt);
  }
  | inr miss ↦ absurd (ground arith)
]

bind-some :
    (m : Option Text) (f : Text → Option Text) (r : Text)
    → (m >>= f) ≡ some r
    → (x : Text) × (m ≡ some x) × (f x ≡ some r)
bind-some none f r h = absurd (ground arith)
bind-some (some x) f r h = (x, refl, h)

match_groups-Takes : (s r : Text) → match_groups s ≡ some r → Takes 36 s r
unfolding match_groups
match_groups-Takes s r h =
    let (s1, e1, h1) = bind-some (match_hex 8 s) _ r h in
    let (s2, e2, h2) = bind-some (match_dash s1) _ r h1 in
    let (s3, e3, h3) = bind-some (match_hex 4 s2) _ r h2 in
    let (s4, e4, h4) = bind-some (match_dash s3) _ r h3 in
    let (s5, e5, h5) = bind-some (match_hex 4 s4) _ r h4 in
    let (s6, e6, h6) = bind-some (match_dash s5) _ r h5 in
    let (s7, e7, h7) = bind-some (match_hex 4 s6) _ r h6 in
    let (s8, e8, h8) = bind-some (match_dash s7) _ r h7 in
    let g8 = Takes-trans 1 12 s7 s8 r (match_dash-Takes s7 s8 e8) (match_hex-Takes 12 s8 r h8) in
    let g7 = Takes-trans 4 13 s6 s7 r (match_hex-Takes 4 s6 s7 e7) g8 in
    let g6 = Takes-trans 1 17 s5 s6 r (match_dash-Takes s5 s6 e6) g7 in
    let g5 = Takes-trans 4 18 s4 s5 r (match_hex-Takes 4 s4 s5 e5) g6 in
    let g4 = Takes-trans 1 22 s3 s4 r (match_dash-Takes s3 s4 e4) g5 in
    let g3 = Takes-trans 4 23 s2 s3 r (match_hex-Takes 4 s2 s3 e3) g4 in
    let g2 = Takes-trans 1 27 s1 s2 r (match_dash-Takes s1 s2 e2) g3 in
    Takes-trans 8 28 s s1 r (match_hex-Takes 8 s s1 e1) g2

-- An accepted session id is 36 hexadecimal digits and dashes, with a newline after them or not.
pub is_valid_session_id-chars :
    (s : Text)
    → is_valid_session_id s ≡ true
    → (t : Text) × (length t ≡ 36) × All IsIdChar t × ((s ≡ t) ⊎ (s ≡ t ++ 10 ∷ []))
unfolding is_valid_session_id at_end
is_valid_session_id-chars s h = elim (Option-cases (match_groups s)) [
  | inl bad ↦ absurd (ground arith)
  | inr (r, found) ↦
      let x = match_groups-Takes s r found in
      (x.taken, x.count, x.chars, ending x.taken s r x.split (ground arith))
]
  where
    ending : (t s r : Text) → s ≡ t ++ r → at_end r ≡ true → (s ≡ t) ⊎ (s ≡ t ++ 10 ∷ [])
    ending t s [] e h = inl (e ∙ append-nil t)
    ending t s (c ∷ []) e h = inr (e ∙ ap (λ k. t ++ k ∷ []) (ground arith))
    ending t s (c ∷ d ∷ r) e h = absurd (ground arith)
