-- ===== src/Value.antt =====
-- What a key of the database holds: pkg/memdb stores values of five Go types behind `any`. The
-- structures of set_struct.go, hash_struct.go and zset_struct.go stand here with their look-up
-- tables alone; a score is the bit pattern of a float64.
use tinyredis.Prelude.{ℕ, Option, none, some, List, Bytes}
use tinyredis.DoubleList.{DoubleList}

pub record SetTable : Type 0 where
  pub table : List Bytes
  pub size : ℕ

pub record HashTable : Type 0 where
  pub table : List (Bytes × Bytes)
  pub size : ℕ

pub record SortedSet : Type 0 where
  pub dict : List (Bytes × ℕ)
  pub length : ℕ

pub data Value : Type 0 where
  string_value : Bytes → Value
  list_value : DoubleList → Value
  set_value : SetTable → Value
  hash_value : HashTable → Value
  zset_value : SortedSet → Value

-- A type assertion on what `db.Get` returns: the key may be missing, or hold another type.
pub data Found (A : Type 0) : Type 0 where
  missing wrong : Found A
  found : A → Found A

unfoldable pub as_string : Option Value → Found Bytes
as_string none = missing
as_string (some (string_value v)) = found v
as_string (some v) = wrong

unfoldable pub as_list : Option Value → Found DoubleList
as_list none = missing
as_list (some (list_value l)) = found l
as_list (some v) = wrong

unfoldable pub as_set : Option Value → Found SetTable
as_set none = missing
as_set (some (set_value s)) = found s
as_set (some v) = wrong

unfoldable pub as_hash : Option Value → Found HashTable
as_hash none = missing
as_hash (some (hash_value h)) = found h
as_hash (some v) = wrong
