-- ===== src/Dispatch.antt =====
-- pkg/memdb/command.go and `ExecCommand` of pkg/memdb/db.go: the table of commands, and how a command
-- is found in it. The clock is read by the commands, and stands for them as `now`.
pub mod Safety
use tinyredis.Prelude.{
  ℕ, Bool, true, false, Option, none, some, List, [], ◌∷◌, ◌++◌, Bytes, if◌then◌else◌, eqb,
  to_lower, text, String, find,
}
use tinyredis.Prelude.Int.{ℤ}
use tinyredis.Resp.{RedisData}
use tinyredis.Keyspace.{Keyspace}
use tinyredis.Expiry.{Expiry}
use tinyredis.Value.{Value}
use tinyredis.MemDb.{MemDb}
use tinyredis.Strings.{Outcome, error, set_string}
use tinyredis.Strings.Reads.{get_string, get_range_string, mget_string, strlen_string}
use tinyredis.Strings.Writes.{mset_string, setex_string, setnx_string, append_string}
use tinyredis.Strings.Ranges.{set_range_string}
use tinyredis.Strings.Counters.{incr_string, incr_by_string, decr_string, decr_by_string}
use tinyredis.Keys.{
  ping_keys, del_key, exists_key, expire_key, persist_key, ttl_key, type_key, rename_key,
}
use tinyredis.Keys.Pattern.{keys_key}
use tinyredis.Lists.Commands.{
  llen_list, lindex_list, lpush_list, rpush_list, lpushx_list, rpushx_list, lpop_list, rpop_list,
  lset_list, lrem_list, ltrim_list, lrange_list,
}
use tinyredis.Lists.Move.{lmove_list}
use tinyredis.Lists.Position.{lpos_list}
use tinyredis.Sets.Commands.{
  sadd_set, srem_set, scard_set, sismember_set, smembers_set, spop_set, smove_set,
}
use tinyredis.Sets.Algebra.{
  sunion_set, sdiff_set, sinter_set, sunionstore_set, sdiffstore_set, sinterstore_set,
}
use tinyredis.Hashes.Commands.{
  hset_hash, hsetnx_hash, hincrby_hash, hdel_hash, hget_hash, hmget_hash, hexists_hash,
  hstrlen_hash, hlen_hash, hkeys_hash, hvals_hash, hgetall_hash,
}

-- The orders in which Go visits the maps of sets and of hashes.
pub record Visits : Type 0 where
  pub set_order : List Bytes → List Bytes
  pub hash_order : List (Bytes × Bytes) → List (Bytes × Bytes)

-- `ExecCommand`: nil for no words, or a reply, or a panic.
pub data Executed : Type 0 where
  no_result crashed : Executed
  replied : RedisData → Executed

unfoldable pub executed : Option RedisData → Executed
executed none = crashed
executed (some reply) = replied reply

module _ (K : Keyspace Value) (E : Expiry) where
  -- `cmdExecutor`. A command leaves a database and a reply, or none where it panics.
  abbrev pub Executor : Type 0
  Executor = MemDb K E → ℤ → Bytes → List Bytes → MemDb K E × Option RedisData

  -- `CmdTable`
  abbrev pub CmdTable : Type 0
  CmdTable = List (Bytes × Executor)

  -- `RegisterCommand`, for a command that does not panic.
  abbrev pub register :
      String → (MemDb K E → ℤ → Bytes → List Bytes → Outcome K E) → Bytes × Executor
  register name f =
      (text name, λ m now word args. let (m', reply) = f m now word args in (m', some reply))

  abbrev pub register_string_commands : CmdTable
  register_string_commands =
      register "set" (set_string K E)
      ∷ register "get" (get_string K E)
      ∷ (text "setrange", set_range_string K E)
      ∷ register "getrange" (get_range_string K E)
      ∷ register "mset" (λ m now. mset_string K E m)
      ∷ register "mget" (mget_string K E)
      ∷ register "setex" (setex_string K E)
      ∷ register "setnx" (setnx_string K E)
      ∷ register "strlen" (strlen_string K E)
      ∷ register "incr" (incr_string K E)
      ∷ register "incrby" (incr_by_string K E)
      ∷ register "decr" (decr_string K E)
      ∷ register "decrby" (decr_by_string K E)
      ∷ register "append" (append_string K E)
      ∷ []

  abbrev pub register_key_commands : CmdTable
  register_key_commands =
      register "ping" (λ m now. ping_keys K E m)
      ∷ register "del" (del_key K E)
      ∷ register "exists" (exists_key K E)
      ∷ (text "keys", keys_key K E)
      ∷ register "expire" (expire_key K E)
      ∷ register "persist" (persist_key K E)
      ∷ register "ttl" (ttl_key K E)
      ∷ register "type" (type_key K E)
      ∷ register "rename" (rename_key K E)
      ∷ []

  abbrev pub register_list_commands : CmdTable
  register_list_commands =
      register "llen" (llen_list K E)
      ∷ register "lindex" (lindex_list K E)
      ∷ register "lpos" (lpos_list K E)
      ∷ register "lpop" (lpop_list K E)
      ∷ register "rpop" (rpop_list K E)
      ∷ register "lpush" (lpush_list K E)
      ∷ register "lpushx" (lpushx_list K E)
      ∷ register "rpush" (rpush_list K E)
      ∷ register "rpushx" (rpushx_list K E)
      ∷ register "lset" (lset_list K E)
      ∷ register "lrem" (lrem_list K E)
      ∷ register "ltrim" (ltrim_list K E)
      ∷ register "lrange" (lrange_list K E)
      ∷ register "lmove" (lmove_list K E)
      ∷ []

  abbrev pub register_set_commands : Visits → CmdTable
  register_set_commands v =
      register "sadd" (sadd_set K E)
      ∷ register "scard" (scard_set K E)
      ∷ register "sdiff" (sdiff_set K E v.set_order)
      ∷ register "sdiffstore" (sdiffstore_set K E)
      ∷ (text "sinter", sinter_set K E v.set_order)
      ∷ (text "sinterstore", sinterstore_set K E)
      ∷ register "sismember" (sismember_set K E)
      ∷ register "smembers" (smembers_set K E v.set_order)
      ∷ register "smove" (smove_set K E)
      ∷ register "spop" (spop_set K E v.set_order)
      ∷ register "srem" (srem_set K E)
      ∷ register "sunion" (sunion_set K E v.set_order)
      ∷ register "sunionstore" (sunionstore_set K E)
      ∷ []

  abbrev pub register_hash_commands : Visits → CmdTable
  register_hash_commands v =
      register "hdel" (hdel_hash K E)
      ∷ register "hexists" (hexists_hash K E)
      ∷ register "hget" (hget_hash K E)
      ∷ register "hgetall" (hgetall_hash K E v.hash_order)
      ∷ register "hincrby" (hincrby_hash K E)
      ∷ register "hkeys" (hkeys_hash K E v.hash_order)
      ∷ register "hlen" (hlen_hash K E)
      ∷ register "hmget" (hmget_hash K E)
      ∷ register "hset" (hset_hash K E)
      ∷ register "hsetnx" (hsetnx_hash K E)
      ∷ register "hvals" (hvals_hash K E v.hash_order)
      ∷ register "hstrlen" (hstrlen_hash K E)
      ∷ []

  -- The table of the commands that are modelled.
  abbrev pub command_table : Visits → CmdTable
  command_table v =
      register_string_commands
      ++ (register_key_commands
          ++ (register_list_commands ++ (register_set_commands v ++ register_hash_commands v)))

  unfoldable pub exec_command : CmdTable → MemDb K E → ℤ → List Bytes → MemDb K E × Executed
  unfolding executed
  exec_command table m now [] = (m, no_result)
  exec_command table m now (name ∷ args) = elim (find (to_lower name) table) [
    | none ↦ (m, replied (error "error: unsupported command"))
    | some run ↦ let (m', reply) = run m now name args in (m', executed reply)
  ]
