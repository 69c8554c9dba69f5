-- ===== src/Glob.antt =====
-- `PatternMatch` of pkg/util/util.go, on the bytes of a pattern and a text. The loop goes on, after a part of
-- the pattern, as a call on what is left of both would: with no text left, it and such a call ask for
-- stars alone, and with no pattern left both compare the text with the empty one. An index or a slice
-- out of range is a panic. A backslash skips the byte behind it, since a case of a Go switch does not
-- fall through.
pub mod Laws
use tinyredis.Prelude.{
  ℕ, Bool, true, false, not, List, [], ◌∷◌, Bytes, if◌then◌else◌, leb, ◌==◌, ◌&&◌, ◌||◌,
}

pub data Matched : Type 0 where
  matched : Bool → Matched
  out_of_range : Matched

unfoldable pub only_stars : Bytes → Bool
only_stars [] = true
only_stars (c ∷ p) = (c == b'*') && only_stars p

-- What a byte of the pattern starts, outside of a class.
pub data Part : Type 0 where
  star any_byte class escape literal : Part

unfoldable pub part_of : ℕ → Part
part_of c =
    if c == b'*'
    then star
    else if c == b'?'
    then any_byte
    else if c == b'['
    then class
    else if c == 92
    then escape
    else literal

-- And what it is inside a class.
pub data ClassPart : Type 0 where
  negation escaped close range single : ClassPart

-- A class so far: whether nothing of it has been read, whether it is negated, whether it holds the
-- byte of the text, and the byte of the pattern that came before.
pub record ClassState : Type 0 where
  pub at_start : Bool
  pub negated : Bool
  pub holds : Bool
  pub before : ℕ

unfoldable pub class_part_of : ClassState → ℕ → ClassPart
class_part_of st c =
    if st.at_start && c == b'^'
    then negation
    else if c == 92
    then escaped
    else if c == b']'
    then close
    else if c == b'-'
    then range
    else single

-- Behind `[`.
abbrev pub new_class : ClassState
new_class = record { at_start = true; negated = false; holds = false; before = b'[' }

-- `match`, at the end of the class.
unfoldable pub class_matches : ClassState → Bool
class_matches st = if st.negated then not st.holds else st.holds

unfoldable pub see : ClassState → ℕ → Bool → ClassState
see st c b = record { at_start = false; negated = st.negated; holds = st.holds || b; before = c }

-- Behind stars, with `c` the next byte of the pattern and `follows` the match of what is behind it. The
-- search for `c` runs to the end of the text, where the slice behind it is out of range.
unfoldable pub star_loop : ℕ → (Bytes → Matched) → Bytes → Matched
star_loop c follows [] = out_of_range
star_loop c follows (d ∷ s) = elim (d == c) [
  | false ↦ star_loop c follows s
  | true ↦ elim (follows s) [
    | out_of_range ↦ out_of_range
    | matched b ↦ elim b [
      | true ↦ matched true
      | false ↦ elim s [ [] ↦ matched false | _ ↦ star_loop c follows s ]
    ]
  ]
]

unfoldable mutual
  pub pattern_match : Bytes → Bytes → Matched
  pattern_match [] [] = matched true
  pattern_match [] (d ∷ s) = matched false
  pattern_match (c ∷ p) [] = matched (only_stars (c ∷ p))
  pattern_match (c ∷ p) (d ∷ s) = elim (part_of c) [
    | star ↦ match_star p (d ∷ s)
    | any_byte ↦ pattern_match p s
    | class ↦ match_in_class p new_class d s
    | escape ↦ match_escape p (d ∷ s)
    | literal ↦ elim (c == d) [ true ↦ pattern_match p s | false ↦ matched false ]
  ]

  -- The other stars in a row.
  pub match_star : Bytes → Bytes → Matched
  match_star [] s = matched true
  match_star (c ∷ p) s = elim (c == b'*') [
    | true ↦ match_star p s
    | false ↦ star_loop c (λ t. pattern_match p t) s
  ]

  pub match_escape : Bytes → Bytes → Matched
  match_escape [] s = matched false
  match_escape (c ∷ p) s = pattern_match p s

  -- The loop over a class, with `d` the byte of the text. A class that does not end matches nothing.
  pub match_in_class : Bytes → ClassState → ℕ → Bytes → Matched
  match_in_class [] st d s = matched false
  match_in_class (c ∷ []) st d s = elim (class_part_of st c) [
    | close ↦ elim (class_matches st) [ true ↦ pattern_match [] s | false ↦ matched false ]
    | _ ↦ matched false
  ]
  match_in_class (c ∷ e ∷ p) st d s = elim (class_part_of st c) [
    | negation ↦
        match_in_class (e ∷ p)
          (record { at_start = false; negated = true; holds = false; before = c }) d s
    | escaped ↦ match_in_class p (see st e (e == d)) d s
    | close ↦ elim (class_matches st) [ true ↦ pattern_match (e ∷ p) s | false ↦ matched false ]
    | range ↦ elim (e == b']') [
      | true ↦ matched false
      | false ↦ match_in_class p (see st e (leb st.before d && leb d e)) d s
    ]
    | single ↦ match_in_class (e ∷ p) (see st c (c == d)) d s
  ]
