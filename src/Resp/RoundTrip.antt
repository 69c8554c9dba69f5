-- ===== src/Resp/RoundTrip.antt =====
-- Commands as clients send them, arrays of bulk strings, through the parser of
-- pkg/RESP/parsestream.go.
use tinyredis.Prelude.{
  ℕ, zero, suc, ◌+◌, ◌^◌, ◌<◌, ◌≤◌, ◌≡◌, ◌≢◌, refl, ap, ◌∙◌, true, false, Option, none, some, List,
  [], ◌∷◌, ◌++◌, map, arith, All, Bytes, length, append_assoc, length-append, take-append_left,
}
use tinyredis.Prelude.Int.{pos, wrap64, ◌+ℤ◌, wrap64_of_IsInt64}
use tinyredis.Decimal.{format_int, parse_int-format_int, format_int-NoBreak}
use tinyredis.Resp.{RedisData, bulk_data, array_data, elements, count, to_bytes, all_bytes, crlf}
use tinyredis.Resp.Parse.{
  Event, parsed, failed, ReadState, idle, Line, got, bad, end_of_file, crash, read_line,
  header_length, parse_bulk, deliver, array_header, bulk_header, handle_line, parse_loop, parse,
  after_read, after_round,
}
use tinyredis.Resp.Lines.{
  read_normal-line, read_bulk-crlf, payload-line, Shorter, read_line-Shorter,
}

-- A round of the loop on a line that is read and understood.
pub loop_round :
    (f : ℕ) (st st' : ReadState) (s msg rest : Bytes) (sent : List Event)
    → read_line st s ≡ got msg rest
    → handle_line st msg ≡ some (sent, st')
    → parse_loop (suc f) st s ≡ sent ++ parse_loop f st' rest
unfolding parse_loop
loop_round f st st' s msg rest sent e h = rw (e, h)

-- Loops that agree on what is left agree after a read.
after_read-agree :
    (loop loop' : ReadState → Bytes → List Event) (st : ReadState) (line : Line) (n : ℕ)
    → Shorter line n
    → ((st : ReadState) (s : Bytes) → length s < n → loop st s ≡ loop' st s)
    → after_read loop st line ≡ after_read loop' st line
unfolding after_read
after_read-agree loop loop' st end_of_file n h same = refl
after_read-agree loop loop' st crash n h same = refl
after_read-agree loop loop' st (bad rest) n h same = ap (λ t. failed ∷ t) (same idle rest h)
after_read-agree loop loop' st (got msg rest) n h same = after_round-agree (handle_line st msg)
  where
    after_round-agree :
        (r : Option (List Event × ReadState)) → after_round loop rest r ≡ after_round loop' rest r
    after_round-agree none = refl
    after_round-agree (some (sent, st')) = ap (λ t. sent ++ t) (same st' rest h)

-- More fuel than the input has bytes changes nothing.
pub parse_loop-fuel :
    (f g : ℕ) (st : ReadState) (s : Bytes)
    → length s < f
    → length s < g
    → parse_loop f st s ≡ parse_loop g st s
unfolding parse_loop
parse_loop-fuel zero g st s hf hg = absurd (omega arith)
parse_loop-fuel (suc f) zero st s hf hg = absurd (omega arith)
parse_loop-fuel (suc f) (suc g) st s hf hg =
    after_read-agree (parse_loop f) (parse_loop g) st (read_line st s) (length s)
      (read_line-Shorter st s) (λ st' s' h. parse_loop-fuel f g st' s' (omega arith) (omega arith))

-- A bulk string whose length, with its line end, is an `int64`.
abbrev pub Fits : Bytes → Type 0
Fits s = length s + 2 < 2 ^ 63

header-parses :
    (c n : ℕ) → n < 2 ^ 63 → header_length (c ∷ (format_int (pos n) ++ crlf)) ≡ some (pos n)
unfolding header_length
header-parses c n h =
    ground
      (arith, payload-line c (format_int (pos n)), parse_int-format_int (pos n) (h, omega arith))

-- The state inside an array of `total` elements of which `array` have come.
abbrev inside : ℕ → List RedisData → ReadState
inside total array = record {
  bulk_len = pos 0;
  array_len = pos total;
  multi_line = false;
  array = array;
  in_array = true;
}

header_line :
    (c n : ℕ) (st : ReadState) (rest : Bytes)
    → c ≢ 10
    → st.multi_line ≡ false
    → read_line st (c ∷ (format_int (pos n) ++ (crlf ++ rest)))
      ≡ got (c ∷ (format_int (pos n) ++ crlf)) rest
unfolding read_line
header_line c n st rest hc hm =
    rw hm (read_normal-line (c ∷ format_int (pos n)) rest (hc, format_int-NoBreak (pos n)))

-- The state between the header of a bulk string and its bytes.
abbrev waiting : ℕ → ℕ → List RedisData → ReadState
waiting total n array = record {
  bulk_len = pos n;
  array_len = pos total;
  multi_line = true;
  array = array;
  in_array = true;
}

bulk_header_round :
    (total n : ℕ) (array : List RedisData)
    → n < 2 ^ 63
    → handle_line (inside total array) (b'$' ∷ (format_int (pos n) ++ crlf))
      ≡ some ([], waiting total n array)
unfolding handle_line bulk_header
bulk_header_round total n array h =
    ground
      (arith, payload-line b'$' (format_int (pos n)), parse_int-format_int (pos n) (h, omega arith))

bulk_size : (n : ℕ) → n + 2 < 2 ^ 63 → wrap64 (pos n +ℤ pos 2) ≡ pos (n + 2)
unfolding ◌+ℤ◌
bulk_size n h = ap wrap64 (ground arith) ∙ wrap64_of_IsInt64 (pos (n + 2)) (h, omega arith)

read_bytes_of_bulk :
    (total : ℕ) (array : List RedisData) (s rest : Bytes)
    → Fits s
    → read_line (waiting total (length s) array) (s ++ (crlf ++ rest)) ≡ got (s ++ crlf) rest
unfolding read_line
read_bytes_of_bulk total array s rest h =
    ground (arith, bulk_size (length s) h, read_bulk-crlf s rest)

parse_bulk-crlf : (s : Bytes) → parse_bulk (s ++ crlf) ≡ bulk_data s
unfolding parse_bulk
parse_bulk-crlf s = ap bulk_data (take-append_left s crlf _ (omega (arith, length-append s crlf)))

bulk_value_round :
    (total n : ℕ) (array : List RedisData) (s : Bytes)
    → handle_line (waiting total n array) (s ++ crlf)
      ≡ some (deliver (inside total array) (bulk_data s))
unfolding handle_line
bulk_value_round total n array s = rw (parse_bulk-crlf s)

bulk-append :
    (s rest : Bytes)
    → to_bytes (bulk_data s) ++ rest
      ≡ b'$' ∷ (format_int (pos (length s)) ++ (crlf ++ (s ++ (crlf ++ rest))))
unfolding to_bytes
bulk-append s rest = simp append_assoc

-- Two rounds of the loop read one bulk string of an array.
bulk_rounds :
    (f total : ℕ) (array : List RedisData) (s rest : Bytes)
    → Fits s
    → parse_loop (suc (suc f)) (inside total array) (to_bytes (bulk_data s) ++ rest)
      ≡ (deliver (inside total array) (bulk_data s)).0
        ++ parse_loop f (deliver (inside total array) (bulk_data s)).1 rest
bulk_rounds f total array s rest h =
    ap (parse_loop (suc (suc f)) (inside total array)) (bulk-append s rest)
    ∙ loop_round (suc f) _ _ _ _ (s ++ (crlf ++ rest)) []
        (header_line b'$' (length s) (inside total array) _ (omega arith) refl)
        (bulk_header_round total (length s) array (omega arith))
    ∙ loop_round f _ _ _ _ rest _ (read_bytes_of_bulk total array s rest h)
        (bulk_value_round total (length s) array s)

-- The rounds that the elements of a command take.
abbrev rounds : List Bytes → ℕ → ℕ
rounds [] f = f
rounds (s ∷ cmd) f = suc (suc (rounds cmd f))

all_bytes-cons :
    (d : RedisData) (ds : List RedisData) (rest : Bytes)
    → all_bytes (elements (d ∷ ds)) ++ rest ≡ to_bytes d ++ (all_bytes (elements ds) ++ rest)
unfolding all_bytes elements
all_bytes-cons d ds rest = append_assoc (to_bytes d) (all_bytes (elements ds)) rest

deliver_last :
    (total : ℕ) (done : List RedisData) (d : RedisData)
    → total ≡ length done + 1
    → deliver (inside total done) d ≡ (parsed (array_data (elements (done ++ d ∷ []))) ∷ [], idle)
unfolding deliver
deliver_last total done d e = ground (arith, length-append done (d ∷ []))

deliver_more :
    (total : ℕ) (done : List RedisData) (d : RedisData)
    → length done + 1 < total
    → deliver (inside total done) d ≡ ([], inside total (done ++ d ∷ []))
unfolding deliver
deliver_more total done d e = ground (arith, length-append done (d ∷ []))

-- The elements that are left complete the array.
array_rounds :
    (f total : ℕ) (done : List RedisData) (s : Bytes) (cmd : List Bytes) (rest : Bytes)
    → All Fits (s ∷ cmd)
    → total ≡ length done + suc (length cmd)
    → parse_loop
        (rounds (s ∷ cmd) f)
        (inside total done)
        (all_bytes (elements (map bulk_data (s ∷ cmd))) ++ rest)
      ≡ parsed (array_data (elements (done ++ map bulk_data (s ∷ cmd)))) ∷ parse_loop f idle rest
array_rounds f total done s [] rest h e = rw (all_bytes-cons (bulk_data s) [] rest) (
    bulk_rounds f total done s (all_bytes (elements []) ++ rest) h.0
    ∙ rw (deliver_last total done (bulk_data s) (omega arith)) (unfold all_bytes elements in refl))
array_rounds f total done s (t ∷ cmd) rest h e =
    let more = map bulk_data (t ∷ cmd) in
    let d = bulk_data s in
    rw (all_bytes-cons d more rest) (
      bulk_rounds (rounds (t ∷ cmd) f) total done s (all_bytes (elements more) ++ rest) h.0
      ∙ rw (deliver_more total done d (omega arith)) (
          array_rounds f total (done ++ d ∷ []) t cmd rest h.1
            (omega (arith, length-append done (d ∷ [])))
          ∙ rw (append_assoc done (d ∷ []) more)))

count-elements : (ds : List RedisData) → count (elements ds) ≡ length ds
unfolding count elements
count-elements [] = refl
count-elements (d ∷ ds) = ap suc (count-elements ds)

array-append :
    (ds : List RedisData) (rest : Bytes)
    → to_bytes (array_data (elements ds)) ++ rest
      ≡ b'*' ∷ (format_int (pos (length ds)) ++ (crlf ++ (all_bytes (elements ds) ++ rest)))
unfolding to_bytes all_bytes
array-append ds rest = simp (count-elements, append_assoc)

array_header_round :
    (n : ℕ)
    → n < 2 ^ 63
    → 0 < n
    → handle_line idle (b'*' ∷ (format_int (pos n) ++ crlf)) ≡ some ([], inside n [])
unfolding handle_line array_header
array_header_round n h positive =
    ground
      (arith, payload-line b'*' (format_int (pos n)), parse_int-format_int (pos n) (h, omega arith))

le-rounds : (cmd : List Bytes) (f : ℕ) → f ≤ rounds cmd f
le-rounds [] f = omega arith
le-rounds (s ∷ cmd) f = omega (arith, le-rounds cmd f)

length-map : (l : List Bytes) (f : Bytes → RedisData) → length (map f l) ≡ length l
length-map [] f = refl
length-map (x ∷ l) f = ap suc (length-map l f)

-- For a command of one word or more, fewer than 2^63 words, each fitting a bulk string (fewer than
-- 2^63 bytes with its line end), the bytes that `ToBytes` writes, at the head of a stream, are
-- parsed into that command, and the parser goes on with the rest of the stream as from its start.
-- So a pipelined stream of commands gives the commands one by one.
pub parse-command :
    (s : Bytes) (cmd : List Bytes) (rest : Bytes)
    → All Fits (s ∷ cmd)
    → length cmd + 1 < 2 ^ 63
    → parse (to_bytes (array_data (elements (map bulk_data (s ∷ cmd)))) ++ rest)
      ≡ parsed (array_data (elements (map bulk_data (s ∷ cmd)))) ∷ parse rest
unfolding parse
parse-command s cmd rest h small =
    let ds = map bulk_data (s ∷ cmd) in
    let n = length (s ∷ cmd) in
    let input = to_bytes (array_data (elements ds)) ++ rest in
    let f = length input + 1 in
    let shorter = length-append (to_bytes (array_data (elements ds))) rest in
    parse_loop-fuel f (suc (rounds (s ∷ cmd) f)) idle input (omega arith)
      (omega (arith, le-rounds (s ∷ cmd) f))
    ∙ ap (parse_loop (suc (rounds (s ∷ cmd) f)) idle) (array-append ds rest)
    ∙ loop_round (rounds (s ∷ cmd) f) idle (inside n []) _ _ (all_bytes (elements ds) ++ rest) []
        (rw (length-map (s ∷ cmd) bulk_data) (header_line b'*' n idle _ (omega arith) refl))
        (array_header_round n (omega arith) (omega arith))
    ∙ array_rounds f n [] s cmd rest h (omega arith)
    ∙ ap (λ t. parsed (array_data (elements ds)) ∷ t)
        (parse_loop-fuel f (length rest + 1) idle rest (omega (arith, shorter)) (omega arith))
