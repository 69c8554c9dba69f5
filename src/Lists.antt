-- ===== src/Lists.antt =====
-- pkg/memdb/list.go: what the commands on one list make of the value of their key, and answer.
pub mod Commands
pub mod Move
pub mod Position
pub mod Laws
use tinyredis.Prelude.{
  ℕ, zero, suc, ◌+◌, ◌-◌, Bool, true, false, not, Option, none, some, List, [], ◌∷◌, ◌++◌, Bytes,
  map, if◌then◌else◌, ltb, leb, ◌==◌, ◌&&◌, ◌||◌, length, text, String, eqb,
}
use tinyredis.Prelude.Int.{ℤ, pos, negsuc, pos_part, leb_ℤ}
use tinyredis.Decimal.{parse_int}
use tinyredis.Resp.{null_array, RedisData, int_data, null_bulk, bulk_data, array_data, elements}
use tinyredis.Keyspace.{Keyspace}
use tinyredis.Expiry.{Expiry}
use tinyredis.DoubleList
use tinyredis.DoubleList.{
  DoubleList, new_list, lpush, rpush, lpop, rpop, index, value_at, trim, remove_element, range,
}
use tinyredis.Value.{Value, list_value, as_list, Found, missing, wrong, found}
use tinyredis.MemDb.{MemDb, named, lookup, store, check_ttl}
use tinyredis.Strings.{Outcome, error, wrong_type, ok_reply}
use tinyredis.Command.{Effect, keep, put, erase, by_type, apply_effect, update_key, live_key}

-- The reply that is an array of bulk strings.
unfoldable pub bulks : List Bytes → RedisData
bulks vals = array_data (elements (map bulk_data vals))

-- A list that has become empty goes.
unfoldable pub put_list : DoubleList → Effect
put_list l = if l.len == 0 then erase else put (list_value l)

unfoldable pub llen_value : Option Value → Effect × RedisData
unfolding by_type
llen_value v = by_type (keep, int_data (pos 0)) (λ l. (keep, int_data (pos l.len))) (as_list v)

unfoldable pub lindex_value : ℤ → Option Value → Effect × RedisData
unfolding by_type
lindex_value i v =
    by_type (keep, null_bulk)
      (λ l. (
        keep,
        elim (index l i) [
          | none ↦ null_bulk
          | some k ↦ elim (value_at l k) [ none ↦ null_bulk | some val ↦ bulk_data val ]
        ],
      ))
      (as_list v)

-- The loops of the push commands over `cmd[2:]`.
unfoldable pub lpush_loop : DoubleList → List Bytes → DoubleList
lpush_loop l [] = l
lpush_loop l (val ∷ rest) = lpush_loop (lpush l val) rest

unfoldable pub rpush_loop : DoubleList → List Bytes → DoubleList
rpush_loop l [] = l
rpush_loop l (val ∷ rest) = rpush_loop (rpush l val) rest

-- `push` stands for one of the two loops.
unfoldable pub push_value :
    (DoubleList → List Bytes → DoubleList) → List Bytes → DoubleList → Effect × RedisData
push_value push vals l = let l' = push l vals in (put (list_value l'), int_data (pos l'.len))

-- The loops of the pop commands: at most `cnt` elements. `pop` stands for `LPop` or `RPop`.
unfoldable pub pop_loop :
    (DoubleList → DoubleList × Option Bytes) → ℕ → DoubleList → DoubleList × List Bytes
pop_loop pop zero l = (l, [])
pop_loop pop (suc cnt) l =
    let (l', val) = pop l in
    let (l'', rest) = pop_loop pop cnt l' in elim val [ none ↦ (l', []) | some v ↦ (l'', v ∷ rest) ]

unfoldable pub pop_value :
    (DoubleList → DoubleList × Option Bytes) → ℕ → Option Value → Effect × RedisData
unfolding by_type pop_loop put_list
pop_value pop zero v =
    by_type (keep, null_bulk)
      (λ l.
        let (l', val) = pop l in
        (put_list l', elim val [ none ↦ null_bulk | some e ↦ bulk_data e ]))
      (as_list v)
pop_value pop (suc cnt) v =
    by_type (keep, null_bulk)
      (λ l. let (l', vals) = pop_loop pop (suc cnt) l in (put_list l', bulks vals)) (as_list v)

unfoldable pub lset_value : ℤ → Bytes → Option Value → Effect × RedisData
unfolding by_type
lset_value i val v =
    by_type (keep, error "key not exist")
      (λ l.
        let (l', success) = DoubleList.set l i val in
        if success then (put (list_value l'), ok_reply) else (keep, error "index out of range"))
      (as_list v)

unfoldable pub lrem_value : ℤ → Bytes → Option Value → Effect × RedisData
unfolding by_type put_list
lrem_value count val v =
    by_type (keep, int_data (pos 0))
      (λ l. let (l', n) = remove_element l val count in (put_list l', int_data (pos n))) (as_list v)

unfoldable pub ltrim_value : ℤ → ℤ → Option Value → Effect × RedisData
unfolding by_type put_list
ltrim_value start end v =
    by_type (keep, ok_reply) (λ l. (put_list (trim l start end), ok_reply)) (as_list v)

-- `MakeEmptyArrayData`, whose data are nil: it is written as the null array.
abbrev pub empty_array : RedisData
empty_array = null_array

unfoldable pub lrange_value : ℤ → ℤ → Option Value → Effect × RedisData
unfolding by_type bulks
lrange_value start end v =
    by_type (keep, empty_array)
      (λ l. (keep, elim (range l start end) [ none ↦ empty_array | some vals ↦ bulks vals ]))
      (as_list v)
