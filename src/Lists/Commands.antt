-- ===== src/Lists/Commands.antt =====
-- pkg/memdb/list.go: the commands on one list, with their checks of name, words and numbers.
use tinyredis.Prelude.{ℕ, not, Option, none, some, List, [], ◌∷◌, Bytes, if◌then◌else◌}
use tinyredis.Prelude.Int.{ℤ, pos, pos_part, leb_ℤ}
use tinyredis.Decimal.{parse_int}
use tinyredis.Resp.{int_data, null_bulk}
use tinyredis.Keyspace.{Keyspace}
use tinyredis.Expiry.{Expiry}
use tinyredis.DoubleList.{new_list, lpop, rpop}
use tinyredis.Value.{Value, as_list}
use tinyredis.MemDb.{MemDb, named}
use tinyredis.Strings.{Outcome, error, ok_reply}
use tinyredis.Lists.{
  llen_value, lindex_value, lpush_loop, rpush_loop, push_value, pop_value, lset_value, lrem_value,
  ltrim_value, lrange_value, empty_array,
}
use tinyredis.Command.{keep, by_type, update_key, live_key}

-- A count that is given must be a positive number; 0 stands for one that is not given.
unfoldable pub pop_count : Bytes → Option ℕ
pop_count word = elim (parse_int word) [
  | none ↦ none
  | some n ↦ if leb_ℤ n (pos 0) then none else some (pos_part n)
]

-- Two numbers, of which each must be one.
unfoldable pub two_numbers : Bytes → Bytes → Option (ℤ × ℤ)
two_numbers s t = elim (parse_int s) [
  | none ↦ none
  | some i ↦ elim (parse_int t) [ none ↦ none | some j ↦ some (i, j) ]
]

module _ (K : Keyspace Value) (E : Expiry) where
  unfoldable pub llen_list : MemDb K E → ℤ → Bytes → List Bytes → Outcome K E
  unfolding llen_value
  llen_list m now name args =
      if not (named name "llen") then (m, error "Server error") else elim args [
        | key ∷ [] ↦ live_key K E m now key (int_data (pos 0)) llen_value
        | _ ↦ (m, error "wrong number of arguments for 'llen' command")
      ]

  unfoldable pub lindex_list : MemDb K E → ℤ → Bytes → List Bytes → Outcome K E
  unfolding lindex_value
  lindex_list m now name args =
      if not (named name "lindex") then (m, error "Server error") else elim args [
        | key ∷ i ∷ [] ↦ elim (parse_int i) [
          | none ↦ (m, error "index is not an integer")
          | some n ↦ live_key K E m now key null_bulk (lindex_value n)
        ]
        | _ ↦ (m, error "wrong number of arguments for 'lindex' command")
      ]

  -- LPUSH and RPUSH make the list where it is missing.
  unfoldable pub lpush_list : MemDb K E → ℤ → Bytes → List Bytes → Outcome K E
  unfolding push_value by_type lpush_loop
  lpush_list m now name args =
      if not (named name "lpush") then (m, error "Server Error") else elim args [
        | key ∷ val ∷ vals ↦
            let push = push_value lpush_loop (val ∷ vals) in
            update_key K E m now key (λ v. by_type (push new_list) push (as_list v))
        | _ ↦ (m, error "wrong number of arguments for 'lpush' command")
      ]

  unfoldable pub rpush_list : MemDb K E → ℤ → Bytes → List Bytes → Outcome K E
  unfolding push_value by_type rpush_loop
  rpush_list m now name args =
      if not (named name "rpush") then (m, error "Server error") else elim args [
        | key ∷ val ∷ vals ↦
            let push = push_value rpush_loop (val ∷ vals) in
            update_key K E m now key (λ v. by_type (push new_list) push (as_list v))
        | _ ↦ (m, error "wrong number of arguments for 'rpush' command")
      ]

  unfoldable pub lpushx_list : MemDb K E → ℤ → Bytes → List Bytes → Outcome K E
  unfolding push_value by_type lpush_loop
  lpushx_list m now name args =
      if not (named name "lpushx") then (m, error "Server Error") else elim args [
        | key ∷ val ∷ vals ↦
            update_key K E m now key (λ v.
              by_type (keep, int_data (pos 0)) (push_value lpush_loop (val ∷ vals)) (as_list v))
        | _ ↦ (m, error "wrong number of arguments for 'lpushx' command")
      ]

  unfoldable pub rpushx_list : MemDb K E → ℤ → Bytes → List Bytes → Outcome K E
  unfolding push_value by_type rpush_loop
  rpushx_list m now name args =
      if not (named name "rpushx") then (m, error "server error") else elim args [
        | key ∷ val ∷ vals ↦
            update_key K E m now key (λ v.
              by_type (keep, int_data (pos 0)) (push_value rpush_loop (val ∷ vals)) (as_list v))
        | _ ↦ (m, error "wrong number of arguments for 'rpushX' command")
      ]

  unfoldable pub lpop_list : MemDb K E → ℤ → Bytes → List Bytes → Outcome K E
  unfolding pop_value pop_count
  lpop_list m now name args =
      if not (named name "lpop") then (m, error "Server error") else elim args [
        | key ∷ [] ↦ live_key K E m now key null_bulk (pop_value lpop 0)
        | key ∷ count ∷ [] ↦ elim (pop_count count) [
          | none ↦ (m, error "count value must be a positive integer")
          | some cnt ↦ live_key K E m now key null_bulk (pop_value lpop cnt)
        ]
        | _ ↦ (m, error "wrong number of arguments for 'lpop' command")
      ]

  unfoldable pub rpop_list : MemDb K E → ℤ → Bytes → List Bytes → Outcome K E
  unfolding pop_value pop_count
  rpop_list m now name args =
      if not (named name "rpop") then (m, error "Server error") else elim args [
        | key ∷ [] ↦ live_key K E m now key null_bulk (pop_value rpop 0)
        | key ∷ count ∷ [] ↦ elim (pop_count count) [
          | none ↦ (m, error "count value must be a positive integer")
          | some cnt ↦ live_key K E m now key null_bulk (pop_value rpop cnt)
        ]
        | _ ↦ (m, error "wrong number of arguments for 'rpop' command")
      ]

  unfoldable pub lset_list : MemDb K E → ℤ → Bytes → List Bytes → Outcome K E
  unfolding lset_value
  lset_list m now name args =
      if not (named name "lset") then (m, error "server error") else elim args [
        | key ∷ i ∷ val ∷ [] ↦ elim (parse_int i) [
          | none ↦ (m, error "index must be an integer")
          | some n ↦ live_key K E m now key (error "key not exist") (lset_value n val)
        ]
        | _ ↦ (m, error "wrong number of arguments for 'lset' command")
      ]

  unfoldable pub lrem_list : MemDb K E → ℤ → Bytes → List Bytes → Outcome K E
  unfolding lrem_value
  lrem_list m now name args =
      if not (named name "lrem") then (m, error "Server error") else elim args [
        | key ∷ count ∷ val ∷ [] ↦ elim (parse_int count) [
          | none ↦ (m, error "count must be an integer")
          | some n ↦ live_key K E m now key (int_data (pos 0)) (lrem_value n val)
        ]
        | _ ↦ (m, error "wrong number of arguments for 'lrem' command")
      ]

  unfoldable pub ltrim_list : MemDb K E → ℤ → Bytes → List Bytes → Outcome K E
  unfolding ltrim_value two_numbers
  ltrim_list m now name args =
      if not (named name "ltrim") then (m, error "Server error") else elim args [
        | key ∷ start ∷ end ∷ [] ↦ elim (two_numbers start end) [
          | none ↦ (m, error "start and end must be an integer")
          | some (i, j) ↦ live_key K E m now key ok_reply (ltrim_value i j)
        ]
        | _ ↦ (m, error "wrong number of arguments for 'ltrim' command")
      ]

  unfoldable pub lrange_list : MemDb K E → ℤ → Bytes → List Bytes → Outcome K E
  unfolding lrange_value two_numbers
  lrange_list m now name args =
      if not (named name "lrange") then (m, error "Server error") else elim args [
        | key ∷ start ∷ end ∷ [] ↦ elim (two_numbers start end) [
          | none ↦ (m, error "index must be an integer")
          | some (i, j) ↦ live_key K E m now key empty_array (lrange_value i j)
        ]
        | _ ↦ (m, error "wrong number of arguments for 'lrange' command")
      ]
