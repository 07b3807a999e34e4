-- ===== src/Storage/Path/Segments.antt =====
-- What the checks on slashes say of the segments of a path.
use druvia.Prelude.{
  ℕ, ◌==◌, ◌≡◌, ◌≢◌, refl, inl, inr, false, List, [], ◌∷◌, All, any, arith, Bool-cases,
}
use druvia.Storage.Path.{
  Text, slash, push_first, split_slash, has_double_slash, starts_slash, ends_slash, is_dot_segment,
}

-- A segment that names something: not empty, not "." and not "..", and free of slashes.
pub record IsPlain (s : Text) : Type 0 where
  pub nonempty : s ≢ []
  pub not_dots : is_dot_segment s ≡ false
  pub one_part : All (λ c. c ≢ slash) s

All-push_first :
    (c : ℕ) (ss : List Text)
    → c ≢ slash
    → All (All (λ d. d ≢ slash)) ss
    → All (All (λ d. d ≢ slash)) (push_first c ss)
unfolding push_first
All-push_first c [] h k = ((h, tt), tt)
All-push_first c (s ∷ ss) h (k, ks) = ((h, k), ks)

pub split_slash-parts : (cs : Text) → All (All (λ d. d ≢ slash)) (split_slash cs)
unfolding split_slash
split_slash-parts [] = (tt, tt)
split_slash-parts (c ∷ cs) = elim (Bool-cases (c == slash)) [
  | inl same ↦ rw same (tt, split_slash-parts cs)
  | inr other ↦ rw other (All-push_first c _ (ground arith) (split_slash-parts cs))
]

abbrev pub rest_of : List Text → List Text
rest_of [] = []
rest_of (s ∷ ss) = ss

abbrev pub NonEmpty : Text → Type 0
NonEmpty s = s ≢ []

push_first-rest : (c : ℕ) (ss : List Text) → rest_of (push_first c ss) ≡ rest_of ss
unfolding push_first
push_first-rest c [] = refl
push_first-rest c (s ∷ ss) = refl

push_first-NonEmpty :
    (c : ℕ) (ss : List Text) → All NonEmpty (rest_of ss) → All NonEmpty (push_first c ss)
unfolding push_first
push_first-NonEmpty c [] h = (λ e. cc, tt)
push_first-NonEmpty c (s ∷ ss) h = (λ e. cc, h)

-- Only the first segment can be empty where no slash is doubled or last; it is empty where the text
-- is empty or begins with a slash.
pub split_slash-NonEmpty :
    (cs : Text)
    → has_double_slash cs ≡ false
    → ends_slash cs ≡ false
    → All NonEmpty (rest_of (split_slash cs))
      × (cs ≢ [] → starts_slash cs ≡ false → All NonEmpty (split_slash cs))
unfolding split_slash has_double_slash ends_slash
split_slash-NonEmpty [] one inner = (tt, λ h. absurd (h refl))
split_slash-NonEmpty (c ∷ []) one inner = rw inner (tt, λ _ _. (λ e. cc, tt))
split_slash-NonEmpty (c ∷ d ∷ cs) one inner =
    let (later, all) = split_slash-NonEmpty (d ∷ cs) (ground arith) inner in
    elim (Bool-cases (c == slash)) [
      | inl same ↦ rw same (all (λ e. cc) (ground arith), λ _ starts. cc)
      | inr other ↦
          let whole = push_first-NonEmpty c (split_slash (d ∷ cs)) later in
          rw other (rw push_first-rest later, λ _ _. whole)
    ]

IsPlain-All :
    (ss : List Text)
    → All NonEmpty ss
    → any is_dot_segment ss ≡ false
    → All (All (λ d. d ≢ slash)) ss
    → All IsPlain ss
IsPlain-All [] named dots parts = tt
IsPlain-All (s ∷ ss) (n, named) dots (part, parts) = (
  record { nonempty = n; not_dots = ground arith; one_part = part },
  IsPlain-All ss named (ground arith) parts,
)

-- A text that passes the checks on slashes and dots has plain segments only.
pub split_slash-IsPlain :
    (cs : Text)
    → cs ≢ []
    → starts_slash cs ≡ false
    → has_double_slash cs ≡ false
    → ends_slash cs ≡ false
    → any is_dot_segment (split_slash cs) ≡ false
    → All IsPlain (split_slash cs)
split_slash-IsPlain cs some_text starts one inner dots =
    IsPlain-All (split_slash cs) ((split_slash-NonEmpty cs one inner).1 some_text starts) dots
      (split_slash-parts cs)
