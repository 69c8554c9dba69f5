-- ===== src/Decimal.antt =====
-- Go's strconv, as the source uses it: `ParseInt(s, 10, 64)` and `Atoi`, which agree where an `int`
-- has 64 bits, and `FormatInt(n, 10)` and `Itoa`.
use tinyredis.Prelude.{
  ℕ, zero, suc, ◌+◌, ◌-◌, ◌*◌, ◌/◌, ◌%◌, ◌^◌, ◌≤◌, ◌<◌, ◌≡◌, ◌≢◌, refl, ◌∙◌, Option, none, some, [],
  ◌∷◌, arith, Bytes, if◌then◌else◌, ltb, leb, ◌==◌, ◌&&◌, Bool-cases, inl, inr,
}
use tinyredis.Prelude.Int.{ℤ, pos, negsuc, IsInt64}

-- The number that decimal digits spell behind `n`; `none` if a byte is no digit.
unfoldable pub scan_digits : ℕ → Bytes → Option ℕ
scan_digits n [] = some n
scan_digits n (c ∷ s) = if leb 48 c && leb c 57 then scan_digits (n * 10 + (c - 48)) s else none

unfoldable pub parse_digits : Bytes → Option ℕ
unfolding scan_digits
parse_digits [] = none
parse_digits (c ∷ s) = scan_digits 0 (c ∷ s)

in_range_pos : Option ℕ → Option ℤ
in_range_pos none = none
in_range_pos (some n) = if ltb n (2 ^ 63) then some (pos n) else none

in_range_neg : Option ℕ → Option ℤ
in_range_neg none = none
in_range_neg (some zero) = some (pos 0)
in_range_neg (some (suc n)) = if ltb n (2 ^ 63) then some (negsuc n) else none

-- `none` stands for each error: a syntax error, or a number out of the range of `int64`.
unfoldable pub parse_int : Bytes → Option ℤ
unfolding parse_digits in_range_pos in_range_neg
parse_int [] = none
parse_int (c ∷ s) =
    if c == b'-'
    then in_range_neg (parse_digits s)
    else if c == b'+'
    then in_range_pos (parse_digits s)
    else in_range_pos (parse_digits (c ∷ s))

-- A round writes one digit and divides by ten, so a number has fuel enough in itself.
unfoldable pub write_digits : ℕ → ℕ → Bytes → Bytes
write_digits zero n out = (48 + n % 10) ∷ out
write_digits (suc fuel) n out =
    let rest = write_digits fuel (n / 10) ((48 + n % 10) ∷ out) in
    if ltb n 10 then (48 + n % 10) ∷ out else rest

unfoldable pub format_nat : ℕ → Bytes
unfolding write_digits
format_nat n = write_digits n n []

unfoldable pub format_int : ℤ → Bytes
unfolding format_nat
format_int (pos n) = format_nat n
format_int (negsuc n) = b'-' ∷ format_nat (suc n)

scan-write :
    (fuel n : ℕ) (out : Bytes)
    → n ≤ fuel
    → scan_digits 0 (write_digits fuel n out) ≡ scan_digits n out
unfolding scan_digits write_digits
scan-write zero n out h = ground arith
scan-write (suc fuel) n out h = elim (Bool-cases (ltb n 10)) [
  | inl small ↦ rw small (ground arith)
  | inr big ↦ rw big (scan-write fuel (n / 10) ((48 + n % 10) ∷ out) (ground arith) ∙ ground arith)
]

-- What is written starts with a digit.
abbrev StartsWithDigit : Bytes → Type 0
StartsWithDigit [] = ⊥
StartsWithDigit (c ∷ s) = (48 ≤ c) × (c ≤ 57)

write-StartsWithDigit : (fuel n : ℕ) (out : Bytes) → StartsWithDigit (write_digits fuel n out)
unfolding write_digits
write-StartsWithDigit zero n out = omega arith
write-StartsWithDigit (suc fuel) n out = elim (Bool-cases (ltb n 10)) [
  | inl small ↦ rw small (omega arith)
  | inr big ↦ rw big (write-StartsWithDigit fuel (n / 10) _)
]

parse_digits-scan : (s : Bytes) → StartsWithDigit s → parse_digits s ≡ scan_digits 0 s
unfolding parse_digits
parse_digits-scan [] h = absurd h
parse_digits-scan (c ∷ s) h = refl

pub parse_digits-format_nat : (n : ℕ) → parse_digits (format_nat n) ≡ some n
unfolding format_nat
parse_digits-format_nat n =
    parse_digits-scan (write_digits n n []) (write-StartsWithDigit n n [])
    ∙ scan-write n n [] (omega arith)
    ∙ unfold scan_digits in refl

parse_unsigned : (s : Bytes) → StartsWithDigit s → parse_int s ≡ in_range_pos (parse_digits s)
unfolding parse_int
parse_unsigned [] h = absurd h
parse_unsigned (c ∷ s) h = ground arith

in_range_pos_fits : (n : ℕ) → n < 2 ^ 63 → in_range_pos (some n) ≡ some (pos n)
unfolding in_range_pos
in_range_pos_fits n h = ground arith

in_range_neg_fits : (n : ℕ) → n < 2 ^ 63 → in_range_neg (some (suc n)) ≡ some (negsuc n)
unfolding in_range_neg
in_range_neg_fits n h = ground arith

parse_minus : (s : Bytes) → parse_int (b'-' ∷ s) ≡ in_range_neg (parse_digits s)
unfolding parse_int
parse_minus s = refl

format_nat-StartsWithDigit : (n : ℕ) → StartsWithDigit (format_nat n)
unfolding format_nat
format_nat-StartsWithDigit n = write-StartsWithDigit n n []

-- Every `int64` is read back from its decimal print.
pub parse_int-format_int : (n : ℤ) → IsInt64 n → parse_int (format_int n) ≡ some n
parse_int-format_int (pos n) h =
    unfold format_int in
    parse_unsigned (format_nat n) (format_nat-StartsWithDigit n)
    ∙ rw parse_digits-format_nat (in_range_pos_fits n h.0)
parse_int-format_int (negsuc n) h =
    unfold format_int in
    parse_minus (format_nat (suc n))
    ∙ rw parse_digits-format_nat (in_range_neg_fits n (omega arith))

-- A print holds no line feed and no carriage return, and is not empty.
abbrev pub NoBreak : Bytes → Type 0
NoBreak [] = Unit {0}
NoBreak (c ∷ s) = (c ≢ 10) × NoBreak s

write-NoBreak : (fuel n : ℕ) (out : Bytes) → NoBreak out → NoBreak (write_digits fuel n out)
unfolding write_digits
write-NoBreak zero n out h = (omega arith, h)
write-NoBreak (suc fuel) n out h = elim (Bool-cases (ltb n 10)) [
  | inl small ↦ rw small (omega arith, h)
  | inr big ↦ rw big (write-NoBreak fuel (n / 10) _ (omega arith, h))
]

pub format_int-NoBreak : (n : ℤ) → NoBreak (format_int n)
unfolding format_int format_nat
format_int-NoBreak (pos n) = write-NoBreak n n [] tt
format_int-NoBreak (negsuc n) = (omega arith, write-NoBreak (suc n) (suc n) [] tt)
