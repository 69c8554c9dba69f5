-- ===== src/Keys.antt =====
-- pkg/memdb/keys.go: the commands on keys. A command is its name, `cmd[0]`, and its other words, and
-- returns the database with the reply. `keysKey` stands in Keys.Pattern.
pub mod Laws
pub mod Times
pub mod Pattern
use tinyredis.Prelude.{
  ℕ, zero, suc, ◌+◌, ◌-◌, Bool, true, false, not, Option, none, some, List, [], ◌∷◌, ◌++◌, Bytes,
  if◌then◌else◌, ltb, leb, ◌==◌, ◌&&◌, ◌||◌, length, text, String, eqb, to_lower, is_some,
}
use tinyredis.Prelude.Int.{ℤ, pos, negsuc, ◌+ℤ◌, ◌-ℤ◌, ltb_ℤ, wrap64}
use tinyredis.Decimal.{parse_int}
use tinyredis.Resp.{RedisData, string_data, error_data, int_data, bulk_data}
use tinyredis.Keyspace.{Keyspace}
use tinyredis.Expiry.{Expiry}
use tinyredis.Value.{Value, string_value, list_value, set_value, hash_value, zset_value}
use tinyredis.MemDb.{MemDb, named, lookup, store, discard, expiry_of, check_ttl, set_ttl, del_ttl}
use tinyredis.Strings.{Outcome, error, ok_reply}

unfoldable pub type_reply : Option Value → RedisData
type_reply none = string_data (text "none")
type_reply (some (string_value v)) = string_data (text "string")
type_reply (some (list_value v)) = string_data (text "list")
type_reply (some (set_value v)) = string_data (text "set")
type_reply (some (hash_value v)) = string_data (text "hash")
type_reply (some (zset_value v)) = string_data (text "zset")

-- The option of EXPIRE.
pub data ExpireOption : Type 0 where
  always nx xx gt lt unknown : ExpireOption

unfoldable pub expire_option : Bytes → ExpireOption
unfolding named
expire_option word =
    if named word "nx"
    then nx
    else if named word "xx"
    then xx
    else if named word "gt"
    then gt
    else if named word "lt"
    then lt
    else if named word ""
    then always
    else unknown

-- Whether EXPIRE sets the time `expire`, by its option and the time that the key has.
unfoldable pub expire_sets : ExpireOption → Option ℤ → ℤ → Bool
expire_sets always current expire = true
expire_sets nx current expire = not (is_some current)
expire_sets xx current expire = is_some current
expire_sets gt none expire = false
expire_sets gt (some current) expire = ltb_ℤ current expire
expire_sets lt none expire = false
expire_sets lt (some current) expire = ltb_ℤ expire current
expire_sets unknown current expire = false

module _ (K : Keyspace Value) (E : Expiry) where
  unfoldable pub ping_keys : MemDb K E → Bytes → List Bytes → Outcome K E
  ping_keys m name args = if not (named name "ping") then (m, error "server error") else elim args [
    | [] ↦ (m, string_data (text "PONG"))
    | word ∷ [] ↦ (m, bulk_data word)
    | _ ↦ (m, error "error: command args number is invalid")
  ]

  -- The loop of DEL: the database, and how many keys were there.
  unfoldable pub del_loop : MemDb K E → ℤ → List Bytes → MemDb K E × ℕ
  del_loop m now [] = (m, 0)
  del_loop m now (key ∷ rest) =
      let (m', live) = check_ttl K E m key now in
      let (db, n) = K.delete m'.db key in
      let gone = del_ttl K E (record m' { db = db }) key in
      let (m'', count) = del_loop (if live then gone else m') now rest in
      (m'', (if live then n + count else count))

  unfoldable pub del_key : MemDb K E → ℤ → Bytes → List Bytes → Outcome K E
  unfolding del_loop
  del_key m now name keys =
      if not (named name "del")
      then (m, error "Protocol error: command is not del")
      else let (m', count) = del_loop m now keys in (m', int_data (pos count))

  -- The loop of EXISTS.
  unfoldable pub exists_loop : MemDb K E → ℤ → List Bytes → MemDb K E × ℕ
  exists_loop m now [] = (m, 0)
  exists_loop m now (key ∷ rest) =
      let (m', live) = check_ttl K E m key now in
      let there = live && is_some (lookup K E m' key) in
      let (m'', count) = exists_loop m' now rest in (m'', (if there then 1 + count else count))

  unfoldable pub exists_key : MemDb K E → ℤ → Bytes → List Bytes → Outcome K E
  unfolding exists_loop
  exists_key m now name [] = (m, error "protocol error: command is not exists")
  exists_key m now name (key ∷ rest) =
      if not (named name "exists")
      then (m, error "protocol error: command is not exists")
      else let (m', count) = exists_loop m now (key ∷ rest) in (m', int_data (pos count))

  -- EXPIRE under the lock. `option` is the word, empty if there is none.
  unfoldable pub expire_locked : MemDb K E → Bytes → ℤ → Bytes → Outcome K E
  unfolding expire_option expire_sets
  expire_locked m key expire option = elim (expire_option option) [
    | unknown ↦ (
      m,
      error_data (text "error: unsupport " ++ (to_lower option ++ text ", except nx, xx, gt, lt")),
    )
    | kind ↦
        let (m', n) = set_ttl K E m key expire in
        if expire_sets kind (expiry_of K E m key) expire
        then (m', int_data (pos n))
        else (m, int_data (pos 0))
  ]

  -- EXPIRE for a name and a number of words that are right.
  unfoldable pub expire_words : MemDb K E → ℤ → Bytes → Bytes → Bytes → Outcome K E
  unfolding expire_locked
  expire_words m now key seconds option = elim (parse_int seconds) [
    | none ↦ (m, error_data (text "error: " ++ (seconds ++ text " is not int")))
    | some v ↦
        let (m', live) = check_ttl K E m key now in
        if not live then (m', int_data (pos 0)) else expire_locked m' key (wrap64 (now +ℤ v)) option
  ]

  abbrev pub expire_refusal : RedisData
  expire_refusal = error "error: cmdName is not expire or command args number is invalid"

  unfoldable pub expire_key : MemDb K E → ℤ → Bytes → List Bytes → Outcome K E
  unfolding expire_words
  expire_key m now name (key ∷ seconds ∷ []) =
      if named name "expire" then expire_words m now key seconds [] else (m, expire_refusal)
  expire_key m now name (key ∷ seconds ∷ option ∷ []) =
      if named name "expire" then expire_words m now key seconds option else (m, expire_refusal)
  expire_key m now name _ = (m, expire_refusal)

  abbrev pub persist_refusal : RedisData
  persist_refusal = error "error: cmdName is not persist or command args number is invalid"

  unfoldable pub persist_key : MemDb K E → ℤ → Bytes → List Bytes → Outcome K E
  persist_key m now name (key ∷ []) =
      let (m', live) = check_ttl K E m key now in
      if not (named name "persist")
      then (m, persist_refusal)
      else if live
      then (del_ttl K E m' key, int_data (pos 1))
      else (m', int_data (pos 0))
  persist_key m now name _ = (m, persist_refusal)

  abbrev pub ttl_refusal : RedisData
  ttl_refusal = error "error: cmdName is not ttl or command args number is invalid"

  -- TTL, which does not check for expiration first.
  unfoldable pub ttl_key : MemDb K E → ℤ → Bytes → List Bytes → Outcome K E
  ttl_key m now name (key ∷ []) =
      if not (named name "ttl")
      then (m, ttl_refusal)
      else if not (is_some (lookup K E m key))
      then (m, int_data (negsuc 1))
      else elim (expiry_of K E m key) [
        | none ↦ (m, int_data (negsuc 0))
        | some expire ↦ (m, int_data (wrap64 (expire -ℤ now)))
      ]
  ttl_key m now name _ = (m, ttl_refusal)

  abbrev pub type_refusal : RedisData
  type_refusal = error "error: cmdName is not type or command args number is invalid"

  unfoldable pub type_key : MemDb K E → ℤ → Bytes → List Bytes → Outcome K E
  unfolding type_reply
  type_key m now name (key ∷ []) =
      let (m', live) = check_ttl K E m key now in
      if not (named name "type")
      then (m, type_refusal)
      else if live
      then (m', type_reply (lookup K E m' key))
      else (m', bulk_data (text "none"))
  type_key m now name _ = (m, type_refusal)

  -- RENAME under the locks.
  unfoldable pub rename_locked : MemDb K E → Bytes → Bytes → Option Value → Outcome K E
  rename_locked m old new none = (m, error_data (text "error: " ++ (old ++ text " not exist")))
  rename_locked m old new (some value) =
      let m1 = del_ttl K E (discard K E m old) old in
      let m2 = del_ttl K E (discard K E m1 new) new in (store K E m2 new value, ok_reply)

  abbrev pub rename_refusal : RedisData
  rename_refusal = error "error: cmdName is not rename or command args number is not invalid"

  unfoldable pub rename_key : MemDb K E → ℤ → Bytes → List Bytes → Outcome K E
  unfolding rename_locked
  rename_key m now name (old ∷ new ∷ []) =
      let (m', live) = check_ttl K E m old now in
      if not (named name "rename")
      then (m, rename_refusal)
      else if live
      then rename_locked m' old new (lookup K E m' old)
      else (m', error_data (text "error: " ++ (old ++ text " not exist")))
  rename_key m now name _ = (m, rename_refusal)
