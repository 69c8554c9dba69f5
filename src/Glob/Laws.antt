-- ===== src/Glob/Laws.antt =====
-- What the patterns of `PatternMatch` match that clients use most, and where it panics.
use tinyredis.Prelude.{
  among, ℕ, ◌≡◌, ◌≢◌, refl, ◌∙◌, Bool, true, false, [], ◌∷◌, ◌++◌, Bytes, if◌then◌else◌, eqb, ◌==◌,
  ◌&&◌, arith, Bool-cases, inl, inr,
}
use tinyredis.Glob.{
  Matched, matched, out_of_range, only_stars, part_of, literal, star_loop, pattern_match,
  match_star,
}

-- Bytes without a meaning in a pattern.
abbrev pub Literal : Bytes → Type 0
Literal [] = Unit
Literal (c ∷ p) = (part_of c ≡ literal) × Literal p

unfoldable pub starts_with : Bytes → Bytes → Bool
starts_with [] s = true
starts_with (c ∷ p) [] = false
starts_with (c ∷ p) (d ∷ s) = (c == d) && starts_with p s

no_star : (c : ℕ) → part_of c ≡ literal → (c == b'*') ≡ false
unfolding part_of
no_star c h = ground arith

literal_step :
    (c d : ℕ) (p s : Bytes)
    → part_of c ≡ literal
    → pattern_match (c ∷ p) (d ∷ s) ≡ (if c == d then pattern_match p s else matched false)
unfolding pattern_match
literal_step c d p s h = elim (Bool-cases (c == d)) [
  | inl same ↦ rw (pattern_match, h, same) refl
  | inr other ↦ rw (pattern_match, h, other) refl
]

Literal-eqb : (p s : Bytes) → Literal p → pattern_match p s ≡ matched (eqb p s)
unfolding pattern_match only_stars eqb
Literal-eqb [] [] h = refl
Literal-eqb [] (d ∷ s) h = refl
Literal-eqb (c ∷ p) [] h = rw (no_star c h.0) refl
Literal-eqb (c ∷ p) (d ∷ s) h = literal_step c d p s h.0 ∙ ground (arith, Literal-eqb p s h.1)

prefix-star :
    (p s : Bytes) → Literal p → pattern_match (p ++ b'*' ∷ []) s ≡ matched (starts_with p s)
unfolding pattern_match only_stars match_star starts_with part_of
prefix-star [] [] h = refl
prefix-star [] (d ∷ s) h = refl
prefix-star (c ∷ p) [] h = rw (no_star c h.0) refl
prefix-star (c ∷ p) (d ∷ s) h =
    literal_step c d (p ++ b'*' ∷ []) s h.0 ∙ ground (arith, prefix-star p s h.1)

-- A pattern of bytes without a meaning of their own matches the text that equals it and no other,
-- and with a star behind it the texts that begin with it and no others.
pub pattern_match-Literal :
    (p s : Bytes)
    → Literal p
    → (pattern_match p s ≡ matched (eqb p s))
      × (pattern_match (p ++ b'*' ∷ []) s ≡ matched (starts_with p s))
pattern_match-Literal p s h = (Literal-eqb p s h, prefix-star p s h)

absent-star_loop :
    (c : ℕ) (follows : Bytes → Matched) (s : Bytes)
    → among c s ≡ false
    → star_loop c follows s ≡ out_of_range
unfolding star_loop among
absent-star_loop c follows [] h = refl
absent-star_loop c follows (d ∷ s) h =
    let other : (d == c) ≡ false = ground arith in
    rw (star_loop, other) (absent-star_loop c follows s (ground arith))

-- For a pattern of plain bytes, a star and a byte that is no star, and a text that begins with the
-- plain bytes, goes on, and does not have the byte from there on, `PatternMatch` slices out of
-- range and panics.
pub pattern_match-out_of_range :
    (p q : Bytes) (c d : ℕ) (s : Bytes)
    → Literal p
    → c ≢ b'*'
    → among c (d ∷ s) ≡ false
    → pattern_match (p ++ b'*' ∷ c ∷ q) (p ++ d ∷ s) ≡ out_of_range
unfolding pattern_match match_star part_of
pattern_match-out_of_range [] q c d s h other absent =
    let plain : (c == b'*') ≡ false = ground arith in
    rw (pattern_match, match_star, plain)
      (absent-star_loop c (λ t. pattern_match q t) (d ∷ s) absent)
pattern_match-out_of_range (b ∷ p) q c d s h other absent =
    literal_step b b (p ++ b'*' ∷ c ∷ q) (p ++ d ∷ s) h.0
    ∙ ground (arith, pattern_match-out_of_range p q c d s h.1 other absent)
