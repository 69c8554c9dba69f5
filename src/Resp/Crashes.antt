-- ===== src/Resp/Crashes.antt =====
-- Lines on which `parserStream` of pkg/RESP/parsestream.go panics.
use tinyredis.Prelude.{ℕ, suc, ◌≡◌, refl, [], ◌∷◌, Bytes}
use native.Mathlib.Numerals.{add-one}
use tinyredis.Resp.Parse.{
  panicked, idle, parse, parse_loop, after_read, after_round, read_line, read_normal, read_bytes,
  second_last, handle_line, parse_single_line,
}

loop_empty_line :
    (f : ℕ) (rest : Bytes)
    → (parse_loop (suc f) idle (10 ∷ rest) ≡ panicked ∷ [])
      × (parse_loop (suc f) idle (13 ∷ 10 ∷ rest) ≡ panicked ∷ [])
unfolding parse_loop after_read after_round read_line read_normal read_bytes second_last handle_line
    parse_single_line
loop_empty_line f rest = (refl, refl)

-- On a stream that begins with a line feed, or with an empty line, the parser panics before it
-- sends anything, whatever follows.
pub parse_empty_line :
    (rest : Bytes) → (parse (10 ∷ rest) ≡ panicked ∷ []) × (parse (13 ∷ 10 ∷ rest) ≡ panicked ∷ [])
unfolding parse
parse_empty_line rest =
    (rw add-one (loop_empty_line _ rest).0, rw add-one (loop_empty_line _ rest).1)
