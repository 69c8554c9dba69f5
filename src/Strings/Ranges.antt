-- ===== src/Strings/Ranges.antt =====
-- pkg/memdb/string.go: `setRangeString`. A slice out of range is a panic, and no reply. That the memory
-- suffices for a length is not checked.
use tinyredis.Prelude.{
  ℕ, not, Option, none, some, List, [], ◌∷◌, ◌++◌, Bytes, if◌then◌else◌, ltb, length, take, drop,
  replicate,
}
use tinyredis.Prelude.Int.{ℤ, pos, pos_part, ◌+ℤ◌, ltb_ℤ, wrap64}
use tinyredis.Decimal.{parse_int}
use tinyredis.Resp.{RedisData, int_data}
use tinyredis.Keyspace.{Keyspace}
use tinyredis.Expiry.{Expiry}
use tinyredis.Value.{Value, string_value, as_string, Found, missing, wrong, found}
use tinyredis.MemDb.{MemDb, named, lookup, store, check_ttl}
use tinyredis.Strings.{error, wrong_type}

-- `copy(dst, src)`: as many bytes as both have.
unfoldable pub copy_into : Bytes → Bytes → Bytes
copy_into [] src = []
copy_into (d ∷ dst) [] = d ∷ dst
copy_into (d ∷ dst) (c ∷ src) = c ∷ copy_into dst src

-- The new value, `none` where the offset is behind it.
unfoldable pub set_range : Bytes → ℕ → Bytes → Option Bytes
unfolding copy_into
set_range old offset val =
    let sum = wrap64 (pos offset +ℤ pos (length val)) in
    let required = if ltb_ℤ sum (pos (length old)) then length old else pos_part sum in
    let new = copy_into (replicate required 0) old in
    if ltb required offset then none else some (take offset new ++ copy_into (drop offset new) val)

-- The offset, `none` for a word that is none.
unfoldable pub offset_of : Bytes → Option ℕ
offset_of word = elim (parse_int word) [
  | none ↦ none
  | some n ↦ if ltb_ℤ n (pos 0) then none else some (pos_part n)
]

module _ (K : Keyspace Value) (E : Expiry) where
  -- The part under the lock, on the value that was there.
  unfoldable pub set_range_old :
      MemDb K E → Bytes → ℕ → Bytes → Bytes → MemDb K E × Option RedisData
  unfolding set_range
  set_range_old m key offset val old = elim (set_range old offset val) [
    | none ↦ (m, none)
    | some new ↦ (store K E m key (string_value new), some (int_data (pos (length new))))
  ]

  unfoldable pub set_range_locked :
      MemDb K E → Bytes → ℕ → Bytes → Found Bytes → MemDb K E × Option RedisData
  unfolding set_range_old
  set_range_locked m key offset val missing = set_range_old m key offset val []
  set_range_locked m key offset val wrong = (m, some wrong_type)
  set_range_locked m key offset val (found old) = set_range_old m key offset val old

  unfoldable pub set_range_string :
      MemDb K E → ℤ → Bytes → List Bytes → MemDb K E × Option RedisData
  unfolding offset_of set_range_locked
  set_range_string m now name (key ∷ word ∷ val ∷ []) =
      let m' = (check_ttl K E m key now).0 in
      if not (named name "setrange")
      then (m, some (error "server error"))
      else elim (offset_of word) [
        | none ↦ (m, some (error "error: offset is not a integer or less than 0"))
        | some offset ↦ set_range_locked m' key offset val (as_string (lookup K E m' key))
      ]
  set_range_string m now name args = (
    m,
    some (error (if named name "setrange" then "error: commands is invalid" else "server error")),
  )
