-- ===== src/Sets/Commands.antt =====
-- pkg/memdb/set.go: the commands that write one set or two, and those that read one. SRANDMEMBER, which
-- draws random numbers, is not modelled.
use tinyredis.Prelude.{
  ℕ, zero, suc, ◌+◌, not, Option, none, some, List, [], ◌∷◌, Bytes, if◌then◌else◌, ◌==◌, length,
}
use tinyredis.Prelude.Int.{ℤ, pos, pos_part, ltb_ℤ}
use tinyredis.Decimal.{parse_int}
use tinyredis.Resp.{RedisData, int_data, null_bulk, bulk_data}
use tinyredis.Keyspace.{Keyspace}
use tinyredis.Expiry.{Expiry}
use tinyredis.Value.{Value, SetTable, set_value, as_set, Found, missing, wrong, found}
use tinyredis.MemDb.{MemDb, named, lookup, store, check_ttl}
use tinyredis.Strings.{Outcome, error, wrong_type}
use tinyredis.Command.{Effect, keep, put, erase, by_type, update_key, live_key}
use tinyredis.Lists.{bulks, empty_array}
use tinyredis.Sets.{new_set, add, remove, has, pop, members}

-- A set that has become empty goes.
unfoldable pub put_set : SetTable → Effect
put_set s = if s.size == 0 then erase else put (set_value s)

-- The loops of SADD and SREM over `cmd[2:]`, with the number that they answer.
unfoldable pub add_loop : SetTable → List Bytes → SetTable × ℕ
add_loop s [] = (s, 0)
add_loop s (key ∷ rest) =
    let (s', n) = add s key in let (s'', total) = add_loop s' rest in (s'', n + total)

unfoldable pub remove_loop : SetTable → List Bytes → SetTable × ℕ
remove_loop s [] = (s, 0)
remove_loop s (key ∷ rest) =
    let (s', n) = remove s key in let (s'', total) = remove_loop s' rest in (s'', n + total)

unfoldable pub sadd_value : List Bytes → Option Value → Effect × RedisData
unfolding by_type add_loop
sadd_value keys v =
    let added : SetTable → Effect × RedisData =
      λ s. let (s', n) = add_loop s keys in (put (set_value s'), int_data (pos n)) in
    by_type (added new_set) added (as_set v)

unfoldable pub srem_value : List Bytes → Option Value → Effect × RedisData
unfolding by_type remove_loop put_set
srem_value keys v =
    by_type (keep, int_data (pos 0))
      (λ s. let (s', n) = remove_loop s keys in (put_set s', int_data (pos n))) (as_set v)

unfoldable pub scard_value : Option Value → Effect × RedisData
unfolding by_type
scard_value v = by_type (keep, int_data (pos 0)) (λ s. (keep, int_data (pos s.size))) (as_set v)

unfoldable pub sismember_value : Bytes → Option Value → Effect × RedisData
unfolding by_type
sismember_value val v =
    by_type (keep, int_data (pos 0)) (λ s. (keep, int_data (pos (if has s val then 1 else 0))))
      (as_set v)

module _ (visit : List Bytes → List Bytes) where
  unfoldable pub smembers_value : Option Value → Effect × RedisData
  unfolding by_type
  smembers_value v = by_type (keep, empty_array) (λ s. (keep, bulks (members visit s))) (as_set v)

  -- The loop of SPOP for more than one: it ends at an empty name.
  unfoldable pub spop_loop : ℕ → SetTable → SetTable × List Bytes
  spop_loop zero s = (s, [])
  spop_loop (suc count) s =
      let (s', val) = pop visit s in
      let (s'', rest) = spop_loop count s' in
      if length val == 0 then (s', []) else (s'', val ∷ rest)

  unfoldable pub spop_value : ℕ → Option Value → Effect × RedisData
  unfolding by_type spop_loop put_set
  spop_value count v =
      by_type (keep, null_bulk)
        (λ s.
          let (s1, val) = pop visit s in
          let (s', vals) = spop_loop count s in
          if count == 0
          then (keep, empty_array)
          else if count == 1
          then (put_set s1, bulk_data val)
          else (put_set s', bulks vals))
        (as_set v)

-- The count of SPOP, 1 if it is not given.
unfoldable pub spop_count : Bytes → Option ℕ
spop_count word = elim (parse_int word) [
  | none ↦ none
  | some n ↦ if ltb_ℤ n (pos 0) then none else some (pos_part n)
]

module _ (K : Keyspace Value) (E : Expiry) where
  unfoldable pub sadd_set : MemDb K E → ℤ → Bytes → List Bytes → Outcome K E
  unfolding sadd_value
  sadd_set m now name args =
      if not (named name "sadd") then (m, error "Server error") else elim args [
        | key ∷ val ∷ vals ↦ update_key K E m now key (sadd_value (val ∷ vals))
        | _ ↦ (m, error "wrong number of arguments for 'sadd' command")
      ]

  unfoldable pub srem_set : MemDb K E → ℤ → Bytes → List Bytes → Outcome K E
  unfolding srem_value
  srem_set m now name args =
      if not (named name "srem") then (m, error "Server error") else elim args [
        | key ∷ val ∷ vals ↦ live_key K E m now key (int_data (pos 0)) (srem_value (val ∷ vals))
        | _ ↦ (m, error "wrong number of arguments for 'srem' command")
      ]

  unfoldable pub scard_set : MemDb K E → ℤ → Bytes → List Bytes → Outcome K E
  unfolding scard_value
  scard_set m now name args =
      if not (named name "scard") then (m, error "Server error") else elim args [
        | key ∷ [] ↦ live_key K E m now key (int_data (pos 0)) scard_value
        | _ ↦ (m, error "wrong number of arguments for 'scard' command")
      ]

  unfoldable pub sismember_set : MemDb K E → ℤ → Bytes → List Bytes → Outcome K E
  unfolding sismember_value
  sismember_set m now name args =
      if not (named name "sismember") then (m, error "Server error") else elim args [
        | key ∷ val ∷ [] ↦ live_key K E m now key (int_data (pos 0)) (sismember_value val)
        | _ ↦ (m, error "wrong number of arguments for 'sismember' command")
      ]

  unfoldable pub smembers_set :
      (List Bytes → List Bytes) → MemDb K E → ℤ → Bytes → List Bytes → Outcome K E
  unfolding smembers_value
  smembers_set visit m now name args =
      if not (named name "smembers") then (m, error "Server error") else elim args [
        | key ∷ [] ↦ live_key K E m now key empty_array (smembers_value visit)
        | _ ↦ (m, error "wrong number of arguments for 'smembers' command")
      ]

  unfoldable pub spop_set :
      (List Bytes → List Bytes) → MemDb K E → ℤ → Bytes → List Bytes → Outcome K E
  unfolding spop_value spop_count
  spop_set visit m now name args =
      if not (named name "spop") then (m, error "Server error") else elim args [
        | key ∷ [] ↦ live_key K E m now key null_bulk (spop_value visit 1)
        | key ∷ count ∷ [] ↦ elim (spop_count count) [
          | none ↦ (m, error "count value must be a positive integer")
          | some n ↦ live_key K E m now key null_bulk (spop_value visit n)
        ]
        | _ ↦ (m, error "wrong number of arguments for 'spop' command")
      ]

  -- SMOVE, for sets under both names or none under the second. The names may be one, and then the two
  -- sets are one object, so the second one is read after the removal.
  unfoldable pub move_member : MemDb K E → Bytes → Bytes → Bytes → SetTable → Outcome K E
  move_member m src des val s =
      let (s', n) = remove s val in
      let m1 = store K E m src (set_value s') in
      let target : SetTable = elim (as_set (lookup K E m1 des)) [ found t ↦ t | _ ↦ new_set ] in
      if n == 0
      then (m, int_data (pos 0))
      else (store K E m1 des (set_value (add target val).0), int_data (pos 1))

  unfoldable pub smove_locked :
      MemDb K E → Bytes → Bytes → Bytes → Found SetTable → Found SetTable → Outcome K E
  unfolding move_member
  smove_locked m src des val missing dest = (m, int_data (pos 0))
  smove_locked m src des val wrong dest = (m, wrong_type)
  smove_locked m src des val (found s) wrong = (m, wrong_type)
  smove_locked m src des val (found s) dest = move_member m src des val s

  unfoldable pub smove_set : MemDb K E → ℤ → Bytes → List Bytes → Outcome K E
  unfolding smove_locked
  smove_set m now name args =
      if not (named name "smove") then (m, error "Server error") else elim args [
        | src ∷ des ∷ val ∷ [] ↦
            let m1 = (check_ttl K E m des now).0 in
            let (m2, live) = check_ttl K E m1 src now in
            if live
            then smove_locked m2 src des val (as_set (lookup K E m2 src))
                (as_set (lookup K E m2 des))
            else (m2, int_data (pos 0))
        | _ ↦ (m, error "wrong number of arguments for 'smove' command")
      ]
