-- ===== src/Hashes.antt =====
-- pkg/memdb/hash_struct.go: `Hash`, a Go map from fields to values with a counter. The table lists the
-- fields of the map with their values; the order in which Go visits a map is a parameter, `visit`,
-- where it shows. The random fields and the floating point of the file are not modelled.
pub mod Laws
pub mod Commands
use tinyredis.Prelude.{
  ℕ, zero, suc, ◌+◌, ◌-◌, Bool, true, false, not, Option, none, some, List, [], ◌∷◌, Bytes, map,
  if◌then◌else◌, ◌==◌, length, eqb, is_some, find, replace, unlink,
}
use tinyredis.Prelude.Int.{ℤ, ◌+ℤ◌, wrap64}
use tinyredis.Decimal.{parse_int, format_int}
use tinyredis.Value.{HashTable}

abbrev pub new_hash : HashTable
new_hash = record { table = []; size = 0 }

-- `h.table[key] = value`
unfoldable pub assign : Bytes → Bytes → List (Bytes × Bytes) → List (Bytes × Bytes)
assign key value table =
    if is_some (find key table) then replace key value table else (key, value) ∷ table

unfoldable pub set : HashTable → Bytes → Bytes → HashTable
unfolding assign
set h key value = record {
  table = assign key value h.table;
  size = if is_some (find key h.table) then h.size else h.size + 1;
}

-- `Get`: nothing for a field that is not there.
unfoldable pub get : HashTable → Bytes → Bytes
get h key = elim (find key h.table) [ none ↦ [] | some v ↦ v ]

unfoldable pub del : HashTable → Bytes → HashTable × ℕ
del h key =
    if is_some (find key h.table)
    then (record { table = unlink key h.table; size = h.size - 1 }, 1)
    else (h, 0)

unfoldable pub exist : HashTable → Bytes → Bool
exist h key = is_some (find key h.table)

unfoldable pub str_len : HashTable → Bytes → ℕ
unfolding get
str_len h key = length (get h key)

-- `IncrBy`: `none` for a value that is no number. A field with an empty value counts as a new one.
unfoldable pub incr_by : HashTable → Bytes → ℤ → HashTable × Option ℤ
unfolding get assign
incr_by h key incr =
    if length (get h key) == 0
    then (record { table = assign key (format_int incr) h.table; size = h.size + 1 }, some incr)
    else elim (parse_int (get h key)) [
      | none ↦ (h, none)
      | some n ↦
          let sum = wrap64 (n +ℤ incr) in
          (record h { table = assign key (format_int sum) h.table }, some sum)
    ]
