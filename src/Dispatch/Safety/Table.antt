-- ===== src/Dispatch/Safety/Table.antt =====
-- pkg/memdb/command.go and `ExecCommand`: the table as a whole keeps the database well formed.
use tinyredis.Prelude.{
  ◌≡◌, refl, true, false, Option, none, some, List, [], ◌∷◌, ◌++◌, Bytes, if◌then◌else◌, eqb,
  to_lower, find, All, All-append, Bool, subst,
}
use tinyredis.Prelude.Int.{ℤ}
use tinyredis.Keyspace.{Keyspace}
use tinyredis.Expiry.{Expiry}
use tinyredis.Value.{Value}
use tinyredis.MemDb.{MemDb}
use tinyredis.MemDb.View.{IsValid}
use tinyredis.Dispatch.{
  Visits, Executor, CmdTable, register_string_commands, register_key_commands,
  register_list_commands, register_set_commands, register_hash_commands, command_table,
  exec_command, Executed, executed, replied,
}
use tinyredis.Strings.{error}
use tinyredis.Dispatch.Safety.{Keeps}
use tinyredis.Dispatch.Safety.Strings.{
  set_string-Keeps, set_range_string-Keeps, get_string-Keeps, get_range_string-Keeps,
  mset_string-Keeps, mget_string-Keeps, setex_string-Keeps, setnx_string-Keeps, strlen_string-Keeps,
  incr_string-Keeps, incr_by_string-Keeps, decr_string-Keeps, decr_by_string-Keeps,
  append_string-Keeps,
}
use tinyredis.Dispatch.Safety.Keys.{
  ping_keys-Keeps, del_key-Keeps, exists_key-Keeps, expire_key-Keeps, persist_key-Keeps,
  ttl_key-Keeps, type_key-Keeps, rename_key-Keeps,
}
use tinyredis.Keys.Pattern.{keys_key-IsValid}
use tinyredis.Dispatch.Safety.Lists.{
  llen_list-Keeps, lindex_list-Keeps, lpos_list-Keeps, lpop_list-Keeps, rpop_list-Keeps,
  lpush_list-Keeps, lpushx_list-Keeps, rpush_list-Keeps, rpushx_list-Keeps, lset_list-Keeps,
  lrem_list-Keeps, ltrim_list-Keeps, lrange_list-Keeps, lmove_list-Keeps,
}
use tinyredis.Dispatch.Safety.Sets.{
  sadd_set-Keeps, scard_set-Keeps, sdiff_set-Keeps, sdiffstore_set-Keeps, sinter_set-Keeps,
  sinterstore_set-Keeps, sismember_set-Keeps, smembers_set-Keeps, smove_set-Keeps, spop_set-Keeps,
  srem_set-Keeps, sunion_set-Keeps, sunionstore_set-Keeps,
}
use tinyredis.Dispatch.Safety.Hashes.{
  hdel_hash-Keeps, hexists_hash-Keeps, hget_hash-Keeps, hgetall_hash-Keeps, hincrby_hash-Keeps,
  hkeys_hash-Keeps, hlen_hash-Keeps, hmget_hash-Keeps, hset_hash-Keeps, hsetnx_hash-Keeps,
  hvals_hash-Keeps, hstrlen_hash-Keeps,
}

-- A pair, for long rows of proofs.
infixr 4 ◌&◌
◌&◌ : {A B : Type 0} → A → B → A × B
a & b = (a, b)

module _ (K : Keyspace Value) (E : Expiry) where
  -- Every command of a table keeps the database well formed.
  abbrev pub AllKeep : CmdTable K E → Type 0
  AllKeep table = All (λ entry. Keeps K E entry.1) table

  string_commands-Keep : AllKeep (register_string_commands K E)
  string_commands-Keep =
      set_string-Keeps K E
      & get_string-Keeps K E
      & set_range_string-Keeps K E
      & get_range_string-Keeps K E
      & mset_string-Keeps K E
      & mget_string-Keeps K E
      & setex_string-Keeps K E
      & setnx_string-Keeps K E
      & strlen_string-Keeps K E
      & incr_string-Keeps K E
      & incr_by_string-Keeps K E
      & decr_string-Keeps K E
      & decr_by_string-Keeps K E
      & append_string-Keeps K E
      & tt

  key_commands-Keep : AllKeep (register_key_commands K E)
  key_commands-Keep =
      ping_keys-Keeps K E
      & del_key-Keeps K E
      & exists_key-Keeps K E
      & keys_key-IsValid K E
      & expire_key-Keeps K E
      & persist_key-Keeps K E
      & ttl_key-Keeps K E
      & type_key-Keeps K E
      & rename_key-Keeps K E
      & tt

  list_commands-Keep : AllKeep (register_list_commands K E)
  list_commands-Keep =
      llen_list-Keeps K E
      & lindex_list-Keeps K E
      & lpos_list-Keeps K E
      & lpop_list-Keeps K E
      & rpop_list-Keeps K E
      & lpush_list-Keeps K E
      & lpushx_list-Keeps K E
      & rpush_list-Keeps K E
      & rpushx_list-Keeps K E
      & lset_list-Keeps K E
      & lrem_list-Keeps K E
      & ltrim_list-Keeps K E
      & lrange_list-Keeps K E
      & lmove_list-Keeps K E
      & tt

  set_commands-Keep : (v : Visits) → AllKeep (register_set_commands K E v)
  set_commands-Keep v =
      sadd_set-Keeps K E
      & scard_set-Keeps K E
      & sdiff_set-Keeps K E v.set_order
      & sdiffstore_set-Keeps K E
      & sinter_set-Keeps K E v.set_order
      & sinterstore_set-Keeps K E
      & sismember_set-Keeps K E
      & smembers_set-Keeps K E v.set_order
      & smove_set-Keeps K E
      & spop_set-Keeps K E v.set_order
      & srem_set-Keeps K E
      & sunion_set-Keeps K E v.set_order
      & sunionstore_set-Keeps K E
      & tt

  hash_commands-Keep : (v : Visits) → AllKeep (register_hash_commands K E v)
  hash_commands-Keep v =
      hdel_hash-Keeps K E
      & hexists_hash-Keeps K E
      & hget_hash-Keeps K E
      & hgetall_hash-Keeps K E v.hash_order
      & hincrby_hash-Keeps K E
      & hkeys_hash-Keeps K E v.hash_order
      & hlen_hash-Keeps K E
      & hmget_hash-Keeps K E
      & hset_hash-Keeps K E
      & hsetnx_hash-Keeps K E
      & hvals_hash-Keeps K E v.hash_order
      & hstrlen_hash-Keeps K E
      & tt

  pub command_table-AllKeep : (v : Visits) → AllKeep (command_table K E v)
  command_table-AllKeep v =
      let P : (Bytes × Executor K E) → Type 0 = λ entry. Keeps K E entry.1 in
      All-append P (register_string_commands K E)
        (register_key_commands K E
          ++ (register_list_commands K E
              ++ (register_set_commands K E v ++ register_hash_commands K E v)))
        string_commands-Keep
        (All-append P (register_key_commands K E)
          (register_list_commands K E
            ++ (register_set_commands K E v ++ register_hash_commands K E v))
          key_commands-Keep
          (All-append P (register_list_commands K E)
            (register_set_commands K E v ++ register_hash_commands K E v) list_commands-Keep
            (All-append P (register_set_commands K E v) (register_hash_commands K E v)
              (set_commands-Keep v) (hash_commands-Keep v))))

  -- The command that is found in such a table keeps it.
  found-Keeps :
      (table : CmdTable K E) (word : Bytes) (run : Executor K E)
      → AllKeep table
      → find word table ≡ some run
      → Keeps K E run
  unfolding find
  found-Keeps [] word run h e = absurd cc
  found-Keeps ((k, f) ∷ table) word run h e =
      by_test (eqb k word) (found-Keeps table word run h.1) e
    where
      by_test :
          (b : Bool)
          → (find word table ≡ some run → Keeps K E run)
          → (if b then some f else find word table) ≡ some run
          → Keeps K E run
      by_test true next e' = let same : f ≡ run = cc in subst (λ g. Keeps K E g) same h.0
      by_test false next e' = next e'

  pub run_table-IsValid :
      (table : CmdTable K E) (m : MemDb K E) (now : ℤ) (words : List Bytes)
      → AllKeep table
      → IsValid K E m
      → IsValid K E (exec_command K E table m now words).0
  unfolding exec_command
  run_table-IsValid table m now [] keep h = h
  run_table-IsValid table m now (name ∷ args) keep h = by_entry (find (to_lower name) table) refl
    where
      by_entry :
          (o : Option (Executor K E))
          → find (to_lower name) table ≡ o
          → IsValid K E
              (elim o as (λ _. MemDb K E × Executed) [
                | none ↦ (m, replied (error "error: unsupported command"))
                | some run ↦ let (m', reply) = run m now name args in (m', executed reply)
              ]).0
      by_entry none e = h
      by_entry (some run) e = found-Keeps table (to_lower name) run keep e m now name args h

  -- `ExecCommand` with the modelled commands leaves a well-formed database well formed.
  pub exec_command-IsValid :
      (v : Visits) (m : MemDb K E) (now : ℤ) (words : List Bytes)
      → IsValid K E m
      → IsValid K E (exec_command K E (command_table K E v) m now words).0
  exec_command-IsValid v m now words h =
      run_table-IsValid (command_table K E v) m now words (command_table-AllKeep v) h
