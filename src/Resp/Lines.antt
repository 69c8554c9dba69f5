-- ===== src/Resp/Lines.antt =====
-- What the reader of pkg/RESP/parsestream.go makes of a line and of a bulk string that are written
-- as the protocol says, and that every round of the parser consumes input.
use tinyredis.Prelude.{
  ℕ, zero, suc, ◌+◌, ◌-◌, ◌<◌, ◌≡◌, refl, sym, ap, ◌∙◌, some, [], ◌∷◌, ◌++◌, arith, Bytes, length,
  take, drop, get_elem?, append_assoc, length-append, length-drop, take-append_left,
  drop-append_left, Option-cases, inl, inr,
}
use tinyredis.Prelude.Int.{pos, pos_part, wrap64, ◌+ℤ◌}
use tinyredis.Decimal.{NoBreak}
use tinyredis.Resp.{crlf}
use tinyredis.Resp.Parse.{
  ReadState, Line, got, bad, end_of_file, crash, read_bytes, read_normal, read_bulk, read_full,
  read_line, second_last, payload,
}

pub read_bytes-line :
    (s rest : Bytes) → NoBreak s → read_bytes (s ++ (crlf ++ rest)) ≡ some (s ++ crlf, rest)
unfolding read_bytes
read_bytes-line [] rest h = refl
read_bytes-line (c ∷ s) rest h = ground (arith, read_bytes-line s rest h.1)

elem-crlf : (s : Bytes) (n : ℕ) → n ≡ length s → get_elem? (s ++ crlf) n ≡ some 13
elem-crlf [] zero h = refl
elem-crlf [] (suc n) h = absurd (omega arith)
elem-crlf (c ∷ s) zero h = absurd (omega arith)
elem-crlf (c ∷ s) (suc n) h = elem-crlf s n (omega arith)

elem-crlf_last : (s : Bytes) (n : ℕ) → n ≡ length s + 1 → get_elem? (s ++ crlf) n ≡ some 10
elem-crlf_last [] zero h = absurd (omega arith)
elem-crlf_last [] (suc zero) h = refl
elem-crlf_last [] (suc (suc n)) h = absurd (omega arith)
elem-crlf_last (c ∷ s) zero h = absurd (omega arith)
elem-crlf_last (c ∷ s) (suc n) h = elem-crlf_last s n (omega arith)

second_last-crlf : (s : Bytes) → second_last (s ++ crlf) ≡ some 13
unfolding second_last
second_last-crlf s = ground (
  arith,
  length-append s crlf,
  elem-crlf s (length (s ++ crlf) - 2) (omega (arith, length-append s crlf)),
)

-- A line with no line feed inside is read whole.
pub read_normal-line :
    (s rest : Bytes) → NoBreak s → read_normal (s ++ (crlf ++ rest)) ≡ got (s ++ crlf) rest
unfolding read_normal
read_normal-line s rest h = ground (arith, read_bytes-line s rest h, second_last-crlf s)

pub payload-line : (c : ℕ) (s : Bytes) → payload (c ∷ (s ++ crlf)) ≡ s
payload-line c s = take-append_left s crlf _ (omega (arith, length-append s crlf))

read_full-crlf :
    (s rest : Bytes) → read_full (length s + 2) ((s ++ crlf) ++ rest) ≡ got (s ++ crlf) rest
unfolding read_full
read_full-crlf s rest =
    let two = length-append s crlf in
    let n = length s + 2 in
    let start : take n ((s ++ crlf) ++ rest) ≡ s ++ crlf =
      take-append_left (s ++ crlf) rest n (omega (arith, two)) in
    let behind : drop n ((s ++ crlf) ++ rest) ≡ rest =
      drop-append_left (s ++ crlf) rest n (omega (arith, two)) in
    let before : get_elem? (take n ((s ++ crlf) ++ rest)) (n - 2) ≡ some 13 =
      rw start (elem-crlf s (n - 2) (omega arith)) in
    let last : get_elem? (take n ((s ++ crlf) ++ rest)) (n - 1) ≡ some 10 =
      rw start (elem-crlf_last s (n - 1) (omega arith)) in
    ground (arith, start, behind, before, last, two, length-append (s ++ crlf) rest)

read_bulk-full : (n c : ℕ) (s : Bytes) → read_bulk n (c ∷ s) ≡ read_full n (c ∷ s)
unfolding read_bulk
read_bulk-full n c s = refl

-- A bulk string of the announced length is read whole, whatever its bytes.
pub read_bulk-crlf :
    (s rest : Bytes) → read_bulk (length s + 2) (s ++ (crlf ++ rest)) ≡ got (s ++ crlf) rest
read_bulk-crlf [] rest = read_bulk-full _ _ _ ∙ read_full-crlf [] rest
read_bulk-crlf (c ∷ s) rest =
    read_bulk-full _ _ _
    ∙ ap (read_full (length (c ∷ s) + 2)) (sym (append_assoc (c ∷ s) crlf rest))
    ∙ read_full-crlf (c ∷ s) rest

-- Reading makes the input shorter.
abbrev pub Shorter : Line → ℕ → Type 0
Shorter (got msg rest) n = length rest < n
Shorter (bad rest) n = length rest < n
Shorter end_of_file n = Unit
Shorter crash n = Unit

read_full-Shorter : (n : ℕ) (s : Bytes) → 0 < length s → Shorter (read_full n s) (length s)
unfolding read_full
read_full-Shorter zero s h = ground arith
read_full-Shorter (suc n) s h = ground (arith, length-drop (suc n) s)

read_bulk-Shorter : (n : ℕ) (s : Bytes) → Shorter (read_bulk n s) (length s)
unfolding read_bulk
read_bulk-Shorter n [] = tt
read_bulk-Shorter n (c ∷ s) = read_full-Shorter n (c ∷ s) (omega arith)

read_bytes-lt : (s line rest : Bytes) → read_bytes s ≡ some (line, rest) → length rest < length s
unfolding read_bytes
read_bytes-lt [] line rest h = cc
read_bytes-lt (c ∷ s) line rest h = elim (Option-cases (read_bytes s)) [
  | inl stop ↦ ground arith
  | inr (later, e) ↦ ground (arith, read_bytes-lt s later.0 later.1 e)
]

read_normal-Shorter : (s : Bytes) → Shorter (read_normal s) (length s)
unfolding read_normal
read_normal-Shorter s = elim (Option-cases (read_bytes s)) [
  | inl stop ↦ rw (stop, read_normal) tt
  | inr (found, e) ↦ ground (arith, read_bytes-lt s found.0 found.1 e)
]

pub read_line-Shorter : (st : ReadState) (s : Bytes) → Shorter (read_line st s) (length s)
unfolding read_line
read_line-Shorter st s =
    ground
      (arith, read_normal-Shorter s, read_bulk-Shorter (pos_part (wrap64 (st.bulk_len +ℤ pos 2))) s)
