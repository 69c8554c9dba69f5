-- ===== src/Resp.antt =====
-- pkg/RESP: the values of the protocol (stringdata.go, errordata.go, intdata.go, plaindata.go,
-- bulkdata.go, arraydata.go), how they are written (`ToBytes`) and read as plain bytes (`ByteData`).
pub mod Parse
pub mod Lines
pub mod RoundTrip
pub mod Crashes
use tinyredis.Prelude.{ℕ, suc, Option, none, some, List, [], ◌∷◌, ◌++◌, Bytes, length}
use tinyredis.Prelude.Int.{ℤ, pos}
use tinyredis.Decimal.{format_int}

-- A bulk string without data is the null bulk string, and an array without data the null array.
mutual
  pub data RedisData : Type 0 where
    string_data : Bytes → RedisData
    error_data : Bytes → RedisData
    int_data : ℤ → RedisData
    plain_data : Bytes → RedisData
    null_bulk : RedisData
    bulk_data : Bytes → RedisData
    null_array : RedisData
    array_data : Elements → RedisData

  pub data Elements : Type 0 where
    nil : Elements
    cons : RedisData → Elements → Elements

unfoldable pub elements : List RedisData → Elements
elements [] = nil
elements (d ∷ rest) = cons d (elements rest)

unfoldable pub count : Elements → ℕ
count nil = 0
count (cons d rest) = suc (count rest)

abbrev pub crlf : Bytes
crlf = 13 ∷ 10 ∷ []

unfoldable mutual
  pub to_bytes : RedisData → Bytes
  to_bytes (string_data s) = b'+' ∷ (s ++ crlf)
  to_bytes (error_data s) = b'-' ∷ (s ++ crlf)
  to_bytes (int_data n) = b':' ∷ (format_int n ++ crlf)
  to_bytes (plain_data s) = s ++ crlf
  to_bytes null_bulk = b'$' ∷ b'-' ∷ b'1' ∷ crlf
  to_bytes (bulk_data s) = b'$' ∷ (format_int (pos (length s)) ++ (crlf ++ (s ++ crlf)))
  to_bytes null_array = b'*' ∷ b'-' ∷ b'1' ∷ crlf
  to_bytes (array_data ds) = b'*' ∷ (format_int (pos (count ds)) ++ (crlf ++ all_bytes ds))

  pub all_bytes : Elements → Bytes
  all_bytes nil = []
  all_bytes (cons d rest) = to_bytes d ++ all_bytes rest

-- A null value has no bytes. The source has nil for a null bulk string and for a null array, and the model
-- the empty text: a null that a client sends as a word is an empty word here, so that GET of a value that
-- was set from it is an empty bulk string, where the source writes null.
unfoldable mutual
  pub byte_data : RedisData → Bytes
  byte_data (string_data s) = s
  byte_data (error_data s) = s
  byte_data (int_data n) = format_int n
  byte_data (plain_data s) = s
  byte_data null_bulk = []
  byte_data (bulk_data s) = s
  byte_data null_array = []
  byte_data (array_data ds) = all_data ds

  pub all_data : Elements → Bytes
  all_data nil = []
  all_data (cons d rest) = byte_data d ++ all_data rest

-- `ToCommand`: the words of a command.
unfoldable pub to_command : Elements → List Bytes
to_command nil = []
to_command (cons d rest) = byte_data d ∷ to_command rest
