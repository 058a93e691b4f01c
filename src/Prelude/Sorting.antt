-- ===== src/Prelude/Sorting.antt =====
-- Python's `sort(key=…)`, stable, by a test of whether one element's key is smaller.
use mathlib.Core.Path.{◌≡◌, refl, subst, sym}
use mathlib.Core.Logic.{◌⊎◌, inl, inr}
use mathlib.Core.Bool.{Bool, true, false}
use mathlib.Core.List.{List, [], ◌∷◌, ◌++◌, Perm}
use mathlib.Core.List.Perm
use realtime_meeting_transla.Prelude.Tests.{if◌then◌else◌, Bool-cases}
use realtime_meeting_transla.Prelude.Lists.{All}

module _ {ℓ} {A : Type ℓ} (before : A → A → Bool) where
  unfoldable pub insert_by : A → List A → List A
  insert_by a [] = a ∷ []
  insert_by a (b ∷ l) = let rest = insert_by a l in if before b a then b ∷ rest else a ∷ b ∷ l

  unfoldable pub sort_by : List A → List A
  sort_by [] = []
  sort_by (a ∷ l) = insert_by a (sort_by l)

  insert_by-perm : (a : A) (l : List A) → Perm (insert_by a l) (a ∷ l)
  unfolding insert_by
  insert_by-perm a [] = Perm.refl (a ∷ [])
  insert_by-perm a (b ∷ l) = elim (Bool-cases (before b a)) [
    | inl later ↦ rw later (Perm.trans (Perm.cons b (insert_by-perm a l)) (Perm.swap a b l))
    | inr here ↦ rw here (Perm.refl (a ∷ b ∷ l))
  ]

  pub sort_by-perm : (l : List A) → Perm (sort_by l) l
  unfolding sort_by
  sort_by-perm [] = Perm.refl []
  sort_by-perm (a ∷ l) = Perm.trans (insert_by-perm a (sort_by l)) (Perm.cons a (sort_by-perm l))

  -- No element is to stand before the one in front of it.
  abbrev Follows : A → List A → Type 0
  Follows a [] = Unit
  Follows a (b ∷ l) = before b a ≡ false

  abbrev pub IsSorted : List A → Type 0
  IsSorted [] = Unit
  IsSorted (a ∷ l) = Follows a l × IsSorted l

  insert_by_first : (a : A) (l : List A) → Follows a l → insert_by a l ≡ a ∷ l
  unfolding insert_by
  insert_by_first a [] h = refl
  insert_by_first a (b ∷ l) h = rw h

  pub sort_by_sorted : (l : List A) → IsSorted l → sort_by l ≡ l
  unfolding sort_by
  sort_by_sorted [] h = refl
  sort_by_sorted (a ∷ l) h = rw (sort_by_sorted l h.1) (insert_by_first a l h.0)

  module _ (asym : (a b : A) → before a b ≡ true → before b a ≡ false) where
    Follows-insert_by :
        (a b : A) (l : List A) → before b a ≡ true → Follows b l → Follows b (insert_by a l)
    unfolding insert_by
    Follows-insert_by a b [] h k = asym b a h
    Follows-insert_by a b (c ∷ l) h k = elim (Bool-cases (before c a)) [
      | inl later ↦ rw later k
      | inr here ↦ rw here (asym b a h)
    ]

    insert_by-IsSorted : (a : A) (l : List A) → IsSorted l → IsSorted (insert_by a l)
    unfolding insert_by
    insert_by-IsSorted a [] h = (tt, tt)
    insert_by-IsSorted a (b ∷ l) h = elim (Bool-cases (before b a)) [
      | inl later ↦ rw later (Follows-insert_by a b l later h.0, insert_by-IsSorted a l h.1)
      | inr here ↦ rw here (here, h)
    ]

    pub sort_by-IsSorted : (l : List A) → IsSorted (sort_by l)
    unfolding sort_by
    sort_by-IsSorted [] = tt
    sort_by-IsSorted (a ∷ l) = insert_by-IsSorted a (sort_by l) (sort_by-IsSorted l)

    pub sort_by-sort_by : (l : List A) → sort_by (sort_by l) ≡ sort_by l
    sort_by-sort_by l = sort_by_sorted (sort_by l) (sort_by-IsSorted l)

-- A list has a member.
abbrev pub In : {A : Type 0} → A → List A → Type 0
In x [] = ⊥
In x (a ∷ l) = (x ≡ a) ⊎ In x l

pub All-In : {A : Type 0} (P : A → Type 0) (l : List A) (x : A) → All P l → In x l → P x
All-In P [] x h i = absurd i
All-In P (a ∷ l) x h (inl e) = subst P (sym e) h.0
All-In P (a ∷ l) x h (inr i) = All-In P l x h.1 i

pub In-append_left : {A : Type 0} (x : A) (a b : List A) → In x a → In x (a ++ b)
In-append_left x [] b i = absurd i
In-append_left x (y ∷ a) b (inl e) = inl e
In-append_left x (y ∷ a) b (inr i) = inr (In-append_left x a b i)

pub In-append_right : {A : Type 0} (x : A) (a b : List A) → In x b → In x (a ++ b)
In-append_right x [] b i = i
In-append_right x (y ∷ a) b i = inr (In-append_right x a b i)

pub In-append : {A : Type 0} (a b : List A) (x : A) → In x (a ++ b) → In x a ⊎ In x b
In-append [] b x i = inr i
In-append (y ∷ a) b x (inl e) = inl (inl e)
In-append (y ∷ a) b x (inr i) = elim (In-append a b x i) [
  | inl left ↦ inl (inr left)
  | inr right ↦ inr right
]

-- Each element is related to all that follow it.
abbrev pub Pairwise {ℓ κ} : {A : Type ℓ} → (A → A → Type κ) → List A → Type κ
Pairwise R [] = Unit
Pairwise R (a ∷ l) = All (R a) l × Pairwise R l

-- What holds of all elements, or of any two, does so in every order.
module _ {ℓ κ} {A : Type ℓ} (before : A → A → Bool) where
  All-insert_by :
      (P : A → Type κ) (a : A) (l : List A) → P a → All P l → All P (insert_by before a l)
  unfolding insert_by
  All-insert_by P a [] p h = (p, tt)
  All-insert_by P a (b ∷ l) p h = elim (Bool-cases (before b a)) [
    | inl later ↦ rw later (h.0, All-insert_by P a l p h.1)
    | inr here ↦ rw here (p, h)
  ]

  pub All-sort_by : (P : A → Type κ) (l : List A) → All P l → All P (sort_by before l)
  unfolding sort_by
  All-sort_by P [] h = tt
  All-sort_by P (a ∷ l) h = All-insert_by P a (sort_by before l) h.0 (All-sort_by P l h.1)

  Pairwise-insert_by :
      (R : A → A → Type κ)
      → ((a b : A) → R a b → R b a)
      → (a : A) (l : List A) → All (R a) l
      → Pairwise R l
      → Pairwise R (insert_by before a l)
  unfolding insert_by
  Pairwise-insert_by R symm a [] p h = (tt, tt)
  Pairwise-insert_by R symm a (b ∷ l) p h = elim (Bool-cases (before b a)) [
    | inl later ↦
        rw later (All-insert_by (R b) a l (symm a b p.0) h.0, Pairwise-insert_by R symm a l p.1 h.1)
    | inr here ↦ rw here (p, h)
  ]

  pub Pairwise-sort_by :
      (R : A → A → Type κ)
      → ((a b : A) → R a b → R b a)
      → (l : List A) → Pairwise R l
      → Pairwise R (sort_by before l)
  unfolding sort_by
  Pairwise-sort_by R symm [] h = tt
  Pairwise-sort_by R symm (a ∷ l) h =
      Pairwise-insert_by R symm a (sort_by before l) (All-sort_by (R a) l h.0)
        (Pairwise-sort_by R symm l h.1)

module _ {A : Type 0} (before : A → A → Bool) where
  In-insert_by_here : (a : A) (l : List A) → In a (insert_by before a l)
  unfolding insert_by
  In-insert_by_here a [] = inl refl
  In-insert_by_here a (b ∷ l) = elim (Bool-cases (before b a)) [
    | inl later ↦ rw later (inr (In-insert_by_here a l))
    | inr here ↦ rw here (inl refl)
  ]

  In-insert_by : (x a : A) (l : List A) → In x l → In x (insert_by before a l)
  unfolding insert_by
  In-insert_by x a [] i = absurd i
  In-insert_by x a (b ∷ l) i = elim (Bool-cases (before b a)) [
    | inl later ↦ rw later (elim i [ inl e ↦ inl e | inr j ↦ inr (In-insert_by x a l j) ])
    | inr here ↦ rw here (inr i)
  ]

  pub In-sort_by : (x : A) (l : List A) → In x l → In x (sort_by before l)
  unfolding sort_by
  In-sort_by x [] i = absurd i
  In-sort_by x (a ∷ l) (inl e) =
      subst (λ y. In y (insert_by before a (sort_by before l))) (sym e)
        (In-insert_by_here a (sort_by before l))
  In-sort_by x (a ∷ l) (inr i) = In-insert_by x a (sort_by before l) (In-sort_by x l i)
