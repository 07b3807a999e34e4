-- ===== src/Updater/Semver.antt =====
-- apps/updater/src/manifest.ts: the versions of releases and their order. A text is read as the list
-- of its characters' numbers; `to_double` is the double nearest to a number, as `Number` gives it.
pub mod Lex
pub mod Order
use druvia.Prelude.{
  ℕ, ltb, leb, ◌==◌, ◌*◌, ◌+◌, ◌-◌, if◌then◌else◌, Bool, true, false, ◌&&◌, ◌||◌, not, List, [],
  ◌∷◌, ◌++◌, Option, none, some, Result, ok, err, ◌>>=◌, String, all,
}
use druvia.Prelude.Codes.{Text, codes}

-- The results -1, 0 and 1 of a comparison.
pub data Sign : Type 0 where
  less equal greater : Sign

pub compare_codes : ℕ → ℕ → Sign
compare_codes m n = if ltb m n then less else if ltb n m then greater else equal

-- The order of `<` and `>` on strings, which is that of the first characters that differ.
pub compare_texts : Text → Text → Sign
unfolding compare_codes
compare_texts [] [] = equal
compare_texts [] (d ∷ ds) = less
compare_texts (c ∷ cs) [] = greater
compare_texts (c ∷ cs) (d ∷ ds) = elim (compare_codes c d) [
  | less ↦ less
  | equal ↦ compare_texts cs ds
  | greater ↦ greater
]

abbrev pub is_equal : Sign → Bool
is_equal equal = true
is_equal _ = false

abbrev pub is_greater : Sign → Bool
is_greater greater = true
is_greater _ = false

pub is_digit : ℕ → Bool
is_digit c = leb 0x30 c && leb c 0x39

-- [0-9A-Za-z-]
is_identifier_char : ℕ → Bool
unfolding is_digit
is_identifier_char c =
    is_digit c || ((leb 0x41 c && leb c 0x5a) || ((leb 0x61 c && leb c 0x7a) || c == 0x2d))

is_nonempty : Text → Bool
is_nonempty [] = false
is_nonempty (c ∷ cs) = true

-- /^\d+$/
pub is_numeric : Text → Bool
unfolding is_nonempty is_digit
is_numeric cs = is_nonempty cs && all is_digit cs

value_from : ℕ → Text → ℕ
value_from n [] = n
value_from n (c ∷ cs) = value_from (10 * n + (c - 0x30)) cs

-- The number that a row of digits writes.
pub decimal : Text → ℕ
unfolding value_from
decimal cs = value_from 0 cs

-- The longest row of digits in front of a text, and the rest.
span_digits : Text → Text × Text
unfolding is_digit
span_digits [] = ([], [])
span_digits (c ∷ cs) =
    let rest = span_digits cs in if is_digit c then (c ∷ rest.0, rest.1) else ([], c ∷ cs)

-- (\d+)
digits : Text → Option (Text × Text)
unfolding span_digits is_nonempty
digits cs = let span = span_digits cs in if is_nonempty span.0 then some span else none

push_first : ℕ → List Text → List Text
push_first c [] = (c ∷ []) ∷ []
push_first c (part ∷ parts) = (c ∷ part) ∷ parts

-- split('.')
split_dot : Text → List Text
unfolding push_first
split_dot [] = [] ∷ []
split_dot (c ∷ cs) = let rest = split_dot cs in if c == 0x2e then [] ∷ rest else push_first c rest

is_identifier : Text → Bool
unfolding is_nonempty is_identifier_char
is_identifier cs = is_nonempty cs && all is_identifier_char cs

drop_v : Text → Text
drop_v [] = []
drop_v (c ∷ cs) = if c == 0x76 then cs else c ∷ cs

-- A number and the dot after it.
digits_dot : Text → Option (Text × Text)
unfolding digits
digits_dot cs = elim (digits cs) [
  | some (number, d ∷ ds) ↦ if d == 0x2e then some (number, ds) else none
  | _ ↦ none
]

-- (?:-([0-9A-Za-z-]+(?:\.[0-9A-Za-z-]+)*))?$
prerelease_parts : Text → Option (List Text)
unfolding split_dot is_identifier
prerelease_parts [] = some []
prerelease_parts (c ∷ cs) =
    if c == 0x2d && all is_identifier (split_dot cs) then some (split_dot cs) else none

pub record ParsedSemver : Type 0 where
  pub major : ℕ
  pub minor : ℕ
  pub patch : ℕ
  pub prerelease : List Text

module _ (to_double : ℕ → ℕ) where
  parse_codes : Text → Option ParsedSemver
  unfolding drop_v digits_dot digits prerelease_parts decimal
  parse_codes cs = elim (digits_dot (drop_v cs)) [
    | none ↦ none
    | some (major, after_major) ↦ elim (digits_dot after_major) [
      | none ↦ none
      | some (minor, after_minor) ↦ elim (digits after_minor) [
        | none ↦ none
        | some (patch, after_patch) ↦ elim (prerelease_parts after_patch) [
          | none ↦ none
          | some parts ↦ some record {
            major = to_double (decimal major);
            minor = to_double (decimal minor);
            patch = to_double (decimal patch);
            prerelease = parts;
          }
        ]
      ]
    ]
  ]

  -- A version that does not match the pattern throws INVALID_SEMVER.
  pub parse_semver : String → Result String ParsedSemver
  unfolding parse_codes codes
  parse_semver version = elim (parse_codes (codes version)) [
    | none ↦ err "INVALID_SEMVER"
    | some parsed ↦ ok parsed
  ]

  -- The loop over the parts, past those that are equal.
  pub compare_parts : List Text → List Text → Sign
  unfolding compare_texts is_numeric decimal
  compare_parts [] [] = equal
  compare_parts [] (r ∷ rs) = less
  compare_parts (l ∷ ls) [] = greater
  compare_parts (l ∷ ls) (r ∷ rs) =
      let rest = compare_parts ls rs in
      if is_equal (compare_texts l r)
      then rest
      else if is_numeric l && is_numeric r
      then if ltb (to_double (decimal r)) (to_double (decimal l))
        then greater
        else if ltb (to_double (decimal l)) (to_double (decimal r))
        then less
        else rest
      else if is_numeric l
      then less
      else if is_numeric r
      then greater
      else if is_greater (compare_texts l r)
      then greater
      else less

  pub compare_prerelease : List Text → List Text → Sign
  unfolding compare_parts
  compare_prerelease [] [] = equal
  compare_prerelease [] (r ∷ rs) = greater
  compare_prerelease (l ∷ ls) [] = less
  compare_prerelease (l ∷ ls) (r ∷ rs) = compare_parts (l ∷ ls) (r ∷ rs)

  pub compare_parsed : ParsedSemver → ParsedSemver → Sign
  unfolding compare_prerelease
  compare_parsed a b =
      if ltb b.major a.major
      then greater
      else if ltb a.major b.major
      then less
      else if ltb b.minor a.minor
      then greater
      else if ltb a.minor b.minor
      then less
      else if ltb b.patch a.patch
      then greater
      else if ltb a.patch b.patch
      then less
      else compare_prerelease a.prerelease b.prerelease

  unfoldable pub compare_semver : String → String → Result String Sign
  unfolding compare_parsed parse_semver
  compare_semver left right = do
    a ← parse_semver left
    b ← parse_semver right
    ok (compare_parsed a b)
