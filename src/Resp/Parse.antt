-- ===== src/Resp/Parse.antt =====
-- pkg/RESP/parsestream.go: `parse`, which turns the bytes of a connection into a channel of results.
-- The reader is the list of the bytes that will arrive before the peer closes the connection, and
-- the channel is the list of what is sent. The parser runs in a goroutine that does not recover, so
-- a panic in it is an outcome of its own, `panicked`, after which nothing is sent.
use tinyredis.Prelude.{
  ℕ, zero, suc, ◌+◌, ◌-◌, Bool, true, false, not, Option, none, some, List, [], ◌∷◌, ◌++◌, Bytes,
  if◌then◌else◌, ltb, ◌==◌, ◌&&◌, ◌||◌, length, take, drop, get_elem?,
}
use tinyredis.Prelude.Int.{ℤ, pos, negsuc, pos_part, ◌+ℤ◌, ltb_ℤ, leb_ℤ, eqb_ℤ, wrap64}
use tinyredis.Decimal.{parse_int}
use tinyredis.Resp.{
  RedisData, string_data, error_data, int_data, plain_data, null_bulk, bulk_data, null_array,
  array_data, elements,
}

pub data Event : Type 0 where
  parsed : RedisData → Event
  failed closed panicked : Event

pub record ReadState : Type 0 where
  pub bulk_len : ℤ
  pub array_len : ℤ
  pub multi_line : Bool
  pub array : List RedisData
  pub in_array : Bool

-- `readState{}`
abbrev pub idle : ReadState
idle = record {
  bulk_len = pos 0;
  array_len = pos 0;
  multi_line = false;
  array = [];
  in_array = false;
}

-- `ReadBytes('\n')`: the bytes up to the line feed, which is kept, and what is left; `none` if the
-- stream ends first.
unfoldable pub read_bytes : Bytes → Option (Bytes × Bytes)
read_bytes [] = none
read_bytes (c ∷ s) =
    if c == 10
    then some (c ∷ [], s)
    else elim (read_bytes s) [ none ↦ none | some (line, rest) ↦ some (c ∷ line, rest) ]

pub data Line : Type 0 where
  got : Bytes → Bytes → Line
  bad : Bytes → Line
  end_of_file crash : Line

-- `msg[len(msg)-2]`, which panics for a message of one byte; `none` is the panic.
unfoldable pub second_last : Bytes → Option ℕ
second_last msg = if ltb (length msg) 2 then none else get_elem? msg (length msg - 2)

-- The bulk branch of `readLine`, for `n` bytes with the line end. `io.ReadFull` gives `io.EOF` if no
-- byte is left, and another error if some are; they are consumed.
unfoldable pub read_full : ℕ → Bytes → Line
read_full n input =
    let msg = take n input in
    if ltb (length input) n then bad [] else elim (get_elem? msg (n - 1)) [
      | none ↦ crash
      | some last ↦ elim (get_elem? msg (n - 2)) [
        | none ↦ crash
        | some before ↦
            if not (last == 10) || not (before == 13)
            then bad (drop n input)
            else got msg (drop n input)
      ]
    ]

unfoldable pub read_bulk : ℕ → Bytes → Line
unfolding read_full
read_bulk n [] = end_of_file
read_bulk n (c ∷ s) = read_full n (c ∷ s)

unfoldable pub read_normal : Bytes → Line
unfolding second_last read_bytes
read_normal input = elim (read_bytes input) [
  | none ↦ end_of_file
  | some (msg, rest) ↦ elim (second_last msg) [
    | none ↦ crash
    | some before ↦ if not (before == 13) then bad rest else got msg rest
  ]
]

-- `make([]byte, bulkLen+2)` panics for a negative length, which the sum has where it wraps around.
-- That the memory suffices for any other length is not checked.
unfoldable pub read_line : ReadState → Bytes → Line
unfolding read_bulk read_normal
read_line st input =
    let n = wrap64 (st.bulk_len +ℤ pos 2) in
    if st.multi_line && leb_ℤ (pos 0) st.bulk_len
    then (if ltb_ℤ n (pos 0) then crash else read_bulk (pos_part n) input)
    else read_normal input

-- `msg[1 : len(msg)-2]`, for a message of three bytes or more.
abbrev pub payload : Bytes → Bytes
payload msg = take (length msg - 3) (drop 1 msg)

-- `parseSingleLine`. The slice panics for a line that is a bare line end.
pub data Single : Type 0 where
  value : RedisData → Single
  invalid slice_panic : Single

unfoldable pub parse_single_line : Bytes → Single
parse_single_line msg = if ltb (length msg) 3 then slice_panic else elim (get_elem? msg 0) [
  | none ↦ slice_panic
  | some kind ↦
      if kind == b'+'
      then value (string_data (payload msg))
      else if kind == b'-'
      then value (error_data (payload msg))
      else if kind == b':'
      then elim (parse_int (payload msg)) [ none ↦ invalid | some n ↦ value (int_data n) ]
      else value (plain_data (payload msg))
]

-- `parseArrayHeader` and `parseBulkHeader`: the length behind the first byte, `none` for an error.
-- A slice of a message of two bytes would panic, and a header has three: its first byte is read.
unfoldable pub header_length : Bytes → Option ℤ
header_length msg = elim (parse_int (payload msg)) [
  | none ↦ none
  | some n ↦ if ltb_ℤ n (negsuc 0) then none else some n
]

unfoldable pub parse_bulk : Bytes → RedisData
parse_bulk msg = bulk_data (take (length msg - 2) msg)

-- A value that is complete: into the array that is being read, which may then be complete itself,
-- or out at once.
unfoldable pub deliver : ReadState → RedisData → List Event × ReadState
deliver st res =
    let array = st.array ++ res ∷ [] in
    if st.in_array
    then (if eqb_ℤ (pos (length array)) st.array_len
        then (parsed (array_data (elements array)) ∷ [], idle)
        else ([], record st { array = array }))
    else (parsed res ∷ [], st)

-- That there is memory for the elements that the header announces is not checked; `make` panics in
-- the source where the length is too large for any slice.
unfoldable pub array_header : ReadState → Bytes → List Event × ReadState
unfolding header_length
array_header st msg = elim (header_length msg) [
  | none ↦ (failed ∷ [], idle)
  | some n ↦
      if eqb_ℤ n (negsuc 0)
      then (parsed null_array ∷ [], idle)
      else if eqb_ℤ n (pos 0)
      then (parsed (array_data (elements [])) ∷ [], idle)
      else ([], record st { array_len = n; in_array = true; array = [] })
]

unfoldable pub bulk_header : ReadState → Bytes → List Event × ReadState
unfolding header_length deliver
bulk_header st msg = elim (header_length msg) [
  | none ↦ (failed ∷ [], idle)
  | some n ↦
      if eqb_ℤ n (negsuc 0)
      then deliver (record st { bulk_len = pos 0; multi_line = false }) null_bulk
      else ([], record st { bulk_len = n; multi_line = true })
]

abbrev pub first_is : Bytes → ℕ → Bool
first_is [] c = false
first_is (d ∷ s) c = d == c

-- One round of the loop on a line that was read: what is sent and the next state, `none` for a panic.
unfoldable pub handle_line : ReadState → Bytes → Option (List Event × ReadState)
unfolding deliver array_header bulk_header parse_single_line parse_bulk
handle_line st msg =
    if st.multi_line
    then some (deliver (record st { multi_line = false; bulk_len = pos 0 }) (parse_bulk msg))
    else if first_is msg b'*'
    then some (array_header st msg)
    else if first_is msg b'$'
    then some (bulk_header st msg)
    else elim (parse_single_line msg) [
      | slice_panic ↦ none
      | invalid ↦ some (failed ∷ [], idle)
      | value res ↦ some (deliver st res)
    ]

-- What follows a round, `loop` being the rounds to come.
unfoldable pub after_round :
    (ReadState → Bytes → List Event) → Bytes → Option (List Event × ReadState) → List Event
after_round loop rest none = panicked ∷ []
after_round loop rest (some (sent, st)) = sent ++ loop st rest

-- What follows a read. An error is sent, and the state starts anew.
unfoldable pub after_read : (ReadState → Bytes → List Event) → ReadState → Line → List Event
unfolding after_round
after_read loop st end_of_file = closed ∷ []
after_read loop st crash = panicked ∷ []
after_read loop st (bad rest) = failed ∷ loop idle rest
after_read loop st (got msg rest) = after_round loop rest (handle_line st msg)

-- The loop. Every round but a last one consumes a byte, so the length of the input bounds them.
unfoldable pub parse_loop : ℕ → ReadState → Bytes → List Event
unfolding after_read
parse_loop zero st input = closed ∷ []
parse_loop (suc fuel) st input = after_read (parse_loop fuel) st (read_line st input)

unfoldable pub parse : Bytes → List Event
parse input = parse_loop (length input + 1) idle input
