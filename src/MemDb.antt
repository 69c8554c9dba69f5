-- ===== src/MemDb.antt =====
-- pkg/memdb/db.go: `MemDb`, the key-value table together with the expiration times, over the
-- interfaces `Keyspace` and `Expiry`. A command holds the locks of its keys while it works, so
-- commands on one key are steps one after the other; the locks themselves are not part of the
-- state. The clock is read once for a command, and handed over as `now`.
pub mod View
pub mod Checks
use tinyredis.Prelude.{
  ℕ, Bool, true, false, Option, none, some, List, [], ◌∷◌, Bytes, if◌then◌else◌, eqb, to_lower,
  text, String, is_some,
}
use tinyredis.Prelude.Int.{ℤ, pos, ◌+ℤ◌, wrap64}
use tinyredis.Keyspace.{Keyspace}
use tinyredis.Expiry.{Expiry}
use tinyredis.Value.{Value}

-- `strings.ToLower(string(cmd[0])) == name`
unfoldable pub named : Bytes → String → Bool
named word name = eqb (to_lower word) (text name)

module _ (K : Keyspace Value) (E : Expiry) where
  pub record MemDb : Type 0 where
    pub db : K.Map
    pub ttl : E.Ttl

  -- `NewMemDb`, for the configured number of shards.
  unfoldable pub new_mem_db : ℤ → MemDb
  new_mem_db shard_num = record { db = K.new_map shard_num; ttl = E.new_ttl shard_num }

  unfoldable pub lookup : MemDb → Bytes → Option Value
  lookup m key = K.get m.db key

  unfoldable pub store : MemDb → Bytes → Value → MemDb
  store m key value = record m { db = (K.set m.db key value).0 }

  unfoldable pub discard : MemDb → Bytes → MemDb
  discard m key = record m { db = (K.delete m.db key).0 }

  unfoldable pub expiry_of : MemDb → Bytes → Option ℤ
  expiry_of m key = E.expire_at m.ttl key

  -- `CheckTTL`: a key that has expired goes from both tables.
  unfoldable pub check_ttl : MemDb → Bytes → ℤ → MemDb × Bool
  unfolding discard
  check_ttl m key now =
      let (ttl, live) = E.check_ttl m.ttl key now in
      if live then (record m { ttl = ttl }, true) else (discard (record m { ttl = ttl }) key, false)

  -- `SetTTL`: 1 if the key is there, and 0, with nothing done, if not.
  unfoldable pub set_ttl : MemDb → Bytes → ℤ → MemDb × ℕ
  unfolding lookup
  set_ttl m key expire =
      if is_some (lookup m key) then (record m { ttl = E.set_ttl m.ttl key expire }, 1) else (m, 0)

  -- `DelTTL`, which always answers 1.
  unfoldable pub del_ttl : MemDb → Bytes → MemDb
  del_ttl m key = record m { ttl = E.remove_ttl m.ttl key }
