-- ===== src/Examples.antt =====
-- The theorems on the commands and on the tables at concrete inputs, over the sharded table and the
-- manager of expiration times, with the length of a key as its hash.
pub mod Commands
pub mod Sequences
pub mod Structures
use tinyredis.Prelude.{
  ℕ, ◌+◌, ◌-◌, ◌*◌, ◌<◌, ◌≤◌, ◌≡◌, ◌≢◌, refl, Bool, true, false, Option, none, some, List, [], ◌∷◌,
  ◌++◌, map, min, arith, Bytes, if◌then◌else◌, length, take, drop, text, to_lower, eqb, eqb_refl,
  String, is_some, ◌&&◌, not,
}
use tinyredis.Prelude.Int.{ℤ, pos, negsuc, ◌+ℤ◌, ◌-ℤ◌, wrap64}
use tinyredis.Decimal.{parse_int}
use tinyredis.Resp.{int_data, to_bytes, array_data, elements, bulk_data}
use tinyredis.Resp.Parse.{parse, parsed, panicked}
use tinyredis.Resp.RoundTrip.{parse-command}
use tinyredis.Resp.Crashes.{parse_empty_line}
use tinyredis.ConMap
use tinyredis.ConMap.Tree.{history_tree, RedBlackTree}
use tinyredis.ConMap.{ConcurrentMap, new_map, table_size}
use tinyredis.ConMap.New.{table_size_bounds, new_map-IsValid, get-new_map}
use tinyredis.ConMap.Laws.{get-set, get-delete, set_if_not_exist_lem, get-set_if_exist}
use tinyredis.ConMap.Size.{IsCounted, total, new_map-IsCounted, set-IsCounted, delete-IsCounted}
use tinyredis.Ttl
use tinyredis.Ttl.{TtlManager, new_ttl_manager, set_ttl, remove_ttl, expire_at}
use tinyredis.Ttl.ShardLaws.{lapsed}
use tinyredis.Ttl.Laws.{expire_at-set_ttl, expire_at-remove_ttl, manager_check_lem}
use tinyredis.Ttl.New.{new_ttl_manager-IsValid}
use tinyredis.Keyspace.{Keyspace}
use tinyredis.Keyspace.Sharded.{sharded}
use tinyredis.Expiry.{Expiry}
use tinyredis.Expiry.Managed.{managed}
use tinyredis.Value.{Value, string_value, as_string}
use tinyredis.MemDb.{
  set_ttl as set_ttl_db, lookup, MemDb, new_mem_db, named, store, check_ttl, expiry_of,
}
use tinyredis.MemDb.View.{IsValid, live, new_mem_db-IsValid, store-IsValid}
use tinyredis.MemDb.Checks.{check_ttl_lem, live-store, live-set_ttl}

abbrev pub hash : Bytes → ℕ
hash key = length key

abbrev pub tree : RedBlackTree Value
tree = history_tree

abbrev pub K : Keyspace Value
K = sharded tree hash

abbrev pub E : Expiry
E = managed hash

abbrev pub a : Bytes
a = text "a"

abbrev pub b : Bytes
b = text "b"

-- A database with the string 41 under `a`.
abbrev pub filled : MemDb K E
filled = store K E (new_mem_db K E (pos 16)) a (string_value (text "41"))

pub filled-IsValid : IsValid K E filled
filled-IsValid =
    store-IsValid K E (new_mem_db K E (pos 16)) a (new_mem_db-IsValid K E (pos 16))
      (string_value (text "41"))

abbrev m0 : ConcurrentMap tree
m0 = new_map tree (pos 16)

abbrev m1 : ConcurrentMap tree
m1 = (ConMap.set tree hash m0 a (string_value (text "41"))).0

m0-IsValid : ConMap.Laws.IsValid tree m0
m0-IsValid = new_map-IsValid tree (pos 16)

m1-IsValid : ConMap.Laws.IsValid tree m1
m1-IsValid = ConMap.Laws.set-IsValid tree hash m0 a (string_value (text "41")) m0-IsValid

m1-IsCounted : IsCounted tree m1
m1-IsCounted =
    (set-IsCounted tree hash m0 a (string_value (text "41")) m0-IsValid
      (new_map-IsCounted tree (pos 16))).0

parse-command_example :
    parse (to_bytes (array_data (elements (map bulk_data (a ∷ b ∷ [])))) ++ text "+x")
    ≡ parsed (array_data (elements (map bulk_data (a ∷ b ∷ [])))) ∷ parse (text "+x")
unfolding text
parse-command_example =
    parse-command a (b ∷ []) (text "+x") (omega arith, (omega arith, tt)) (omega arith)

parse_empty_line_example :
    (parse (10 ∷ text "PING") ≡ panicked ∷ []) × (parse (13 ∷ 10 ∷ text "PING") ≡ panicked ∷ [])
parse_empty_line_example = parse_empty_line (text "PING")

get-set_example :
    ConMap.get tree hash (ConMap.set tree hash m1 b (string_value a)).0 a
    ≡ (if eqb b a then some (string_value a) else ConMap.get tree hash m1 a)
get-set_example = get-set tree hash m1 b a (string_value a) m1-IsValid

get-delete_example :
    ConMap.get tree hash (ConMap.delete tree hash m1 a).0 a
    ≡ (if eqb a a then none else ConMap.get tree hash m1 a)
get-delete_example = get-delete tree hash m1 a a m1-IsValid

set-IsCounted_example :
    IsCounted tree (ConMap.set tree hash m1 b (string_value b)).0
    × (total tree (ConMap.set tree hash m1 b (string_value b)).0.shards ≡ (
        if is_some (ConMap.get tree hash m1 b)
        then total tree m1.shards
        else total tree m1.shards + 1))
set-IsCounted_example = set-IsCounted tree hash m1 b (string_value b) m1-IsValid m1-IsCounted

delete-IsCounted_example :
    IsCounted tree (ConMap.delete tree hash m1 a).0
    × (total tree (ConMap.delete tree hash m1 a).0.shards ≡ (
        if is_some (ConMap.get tree hash m1 a)
        then total tree m1.shards - 1
        else total tree m1.shards))
delete-IsCounted_example = delete-IsCounted tree hash m1 a m1-IsValid m1-IsCounted

table_size_bounds_example : (17 ≤ table_size (pos 17)) × (table_size (pos 17) < 2 * 17)
table_size_bounds_example = table_size_bounds 17 (omega arith) (omega arith)

abbrev tm : TtlManager
tm = set_ttl hash (new_ttl_manager (pos 16)) a (pos 5)

tm-IsValid : Ttl.Laws.IsValid tm
tm-IsValid =
    Ttl.Laws.set_ttl-IsValid hash (new_ttl_manager (pos 16)) a (pos 5)
      (new_ttl_manager-IsValid (pos 16))

expire_at-set_ttl_example :
    expire_at hash (set_ttl hash tm b (pos 9)) a
    ≡ (if eqb b a then some (pos 9) else expire_at hash tm a)
expire_at-set_ttl_example = expire_at-set_ttl hash tm b a (pos 9) tm-IsValid

manager_check_example :
    Ttl.Laws.IsValid (Ttl.check_ttl hash tm a (pos 6)).0
    × ((Ttl.check_ttl hash tm a (pos 6)).1 ≡ not (lapsed (expire_at hash tm a) (pos 6)))
    × ((j : Bytes)
        → expire_at hash (Ttl.check_ttl hash tm a (pos 6)).0 j
          ≡ (if lapsed (expire_at hash tm a) (pos 6) && eqb a j then none else expire_at hash tm j))
manager_check_example = manager_check_lem hash tm a (pos 6) tm-IsValid

check_ttl_example :
    ((j : Bytes)
      → live K E (check_ttl K E filled a (pos 7)).0 (pos 7) j ≡ live K E filled (pos 7) j)
    × ((check_ttl K E filled a (pos 7)).1 ≡ not (lapsed (expiry_of K E filled a) (pos 7)))
    × ((j : Bytes)
        → lookup K E (check_ttl K E filled a (pos 7)).0 j ≡ (
            if lapsed (expiry_of K E filled a) (pos 7) && eqb a j
            then none
            else lookup K E filled j))
    × ((j : Bytes)
        → expiry_of K E (check_ttl K E filled a (pos 7)).0 j ≡ (
            if lapsed (expiry_of K E filled a) (pos 7) && eqb a j
            then none
            else expiry_of K E filled j))
check_ttl_example = check_ttl_lem K E filled a (pos 7) filled-IsValid
