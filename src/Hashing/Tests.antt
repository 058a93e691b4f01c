-- ===== src/Hashing/Tests.antt =====
-- The properties of `sha256_of` with a digest that keeps all its bytes.
use realtime_meeting_transla.Prelude.{ℕ, ◌≡◌, List, [], ◌∷◌, ◌++◌, append_assoc, append-nil, Text}
use realtime_meeting_transla.Hashing.{sha256_of}
use realtime_meeting_transla.Hashing.Whole.{sha256_of_whole}

abbrev no_bytes : List ℕ
no_bytes = []

abbrev keep : List ℕ → List ℕ → List ℕ
keep d bytes = d ++ bytes

abbrev show_bytes : List ℕ → Text
show_bytes d = d

sha256_of_whole_example :
    sha256_of no_bytes keep show_bytes (82 ∷ 73 ∷ 70 ∷ 70 ∷ []) ≡ 82 ∷ 73 ∷ 70 ∷ 70 ∷ []
sha256_of_whole_example =
    sha256_of_whole no_bytes keep show_bytes append-nil append_assoc (82 ∷ 73 ∷ 70 ∷ 70 ∷ [])
