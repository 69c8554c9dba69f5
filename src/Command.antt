-- ===== src/Command.antt =====
-- The part that the commands of pkg/memdb share which work on the value of one key: the check for
-- expiration, the look-up, and what they do to the entry while they hold the lock. A value behind a
-- pointer that the source changes in place is put back under its key.
pub mod Laws
use tinyredis.Prelude.{Bool, true, false, Option, none, some, Bytes, if◌then◌else◌}
use tinyredis.Prelude.Int.{ℤ}
use tinyredis.Resp.{RedisData}
use tinyredis.Keyspace.{Keyspace}
use tinyredis.Expiry.{Expiry}
use tinyredis.Value.{Value, Found, missing, wrong, found}
use tinyredis.MemDb.{MemDb, lookup, store, discard, check_ttl, del_ttl}
use tinyredis.Strings.{Outcome, wrong_type}

-- What becomes of the entry: it stays, gets a value, or goes together with its expiration time.
pub data Effect : Type 0 where
  keep : Effect
  put : Value → Effect
  erase : Effect

-- `tem, ok := m.db.Get(key)` and the type assertion that follows it.
unfoldable pub by_type :
    {A : Type 0} → (Effect × RedisData) → (A → Effect × RedisData) → Found A → Effect × RedisData
by_type absent f missing = absent
by_type absent f wrong = (keep, wrong_type)
by_type absent f (found a) = f a

module _ (K : Keyspace Value) (E : Expiry) where
  unfoldable pub apply_effect : MemDb K E → Bytes → Effect → MemDb K E
  apply_effect m key keep = m
  apply_effect m key (put v) = store K E m key v
  apply_effect m key erase = del_ttl K E (discard K E m key) key

  -- The part under the lock.
  unfoldable pub locked : MemDb K E → Bytes → (Option Value → Effect × RedisData) → Outcome K E
  unfolding apply_effect
  locked m key f = let (effect, reply) = f (lookup K E m key) in (apply_effect m key effect, reply)

  -- A command that goes on whether the key has expired or not.
  unfoldable pub update_key :
      MemDb K E → ℤ → Bytes → (Option Value → Effect × RedisData) → Outcome K E
  unfolding locked
  update_key m now key f = locked (check_ttl K E m key now).0 key f

  -- A command that answers `gone` at once for a key that has expired.
  unfoldable pub live_key :
      MemDb K E → ℤ → Bytes → RedisData → (Option Value → Effect × RedisData) → Outcome K E
  unfolding locked
  live_key m now key gone f =
      let (m', live) = check_ttl K E m key now in if live then locked m' key f else (m', gone)
