-- ===== src/Hashes/Commands.antt =====
-- pkg/memdb/hash.go: the commands on hashes. HRANDFIELD and HINCRBYFLOAT are not modelled.
use tinyredis.Prelude.{
  ℕ, ◌+◌, not, Option, none, some, List, [], ◌∷◌, Bytes, map, if◌then◌else◌, ◌==◌, length,
}
use tinyredis.Prelude.Int.{ℤ, pos}
use tinyredis.Decimal.{parse_int}
use tinyredis.Resp.{RedisData, int_data, null_bulk, bulk_data, array_data, elements}
use tinyredis.Keyspace.{Keyspace}
use tinyredis.Expiry.{Expiry}
use tinyredis.Value.{Value, HashTable, hash_value, as_hash}
use tinyredis.MemDb.{MemDb, named}
use tinyredis.Strings.{Outcome, error}
use tinyredis.Strings.Writes.{pairs_of}
use tinyredis.Command.{Effect, keep, put, erase, by_type, update_key, live_key}
use tinyredis.Lists.{bulks, empty_array}
use tinyredis.Hashes.{new_hash, set, get, del, exist, str_len, incr_by}

-- The loops of HDEL and HSET, with the number that they answer.
unfoldable pub del_loop : HashTable → List Bytes → HashTable × ℕ
del_loop h [] = (h, 0)
del_loop h (key ∷ rest) =
    let (h', n) = del h key in let (h'', total) = del_loop h' rest in (h'', n + total)

unfoldable pub set_loop : HashTable → List (Bytes × Bytes) → HashTable × ℕ
set_loop h [] = (h, 0)
set_loop h ((key, value) ∷ rest) =
    let added = if exist h key then 0 else 1 in
    let (h', total) = set_loop (set h key value) rest in (h', added + total)

-- A value in a reply: an empty one reads as null.
unfoldable pub value_reply : Bytes → RedisData
value_reply v = if length v == 0 then null_bulk else bulk_data v

-- A command that makes the hash where it is missing.
unfoldable pub on_hash : (HashTable → Effect × RedisData) → Option Value → Effect × RedisData
unfolding by_type
on_hash f v = by_type (f new_hash) f (as_hash v)

-- A command that answers `absent` where the hash is missing.
unfoldable pub in_hash :
    RedisData → (HashTable → Effect × RedisData) → Option Value → Effect × RedisData
unfolding by_type
in_hash absent f v = by_type (keep, absent) f (as_hash v)

unfoldable pub hset_value : List (Bytes × Bytes) → HashTable → Effect × RedisData
unfolding set_loop
hset_value pairs h = let (h', n) = set_loop h pairs in (put (hash_value h'), int_data (pos n))

-- The hash is made, where it is missing, before the field is looked up.
unfoldable pub hsetnx_value : Bytes → Bytes → HashTable → Effect × RedisData
hsetnx_value key value h =
    if exist h key
    then (keep, int_data (pos 0))
    else (put (hash_value (set h key value)), int_data (pos 1))

unfoldable pub hincrby_value : Bytes → ℤ → HashTable → Effect × RedisData
hincrby_value key incr h =
    let (h', sum) = incr_by h key incr in
    elim sum [
      | none ↦ (keep, error "value is not an integer")
      | some n ↦ (put (hash_value h'), int_data n)
    ]

unfoldable pub hdel_value : List Bytes → HashTable → Effect × RedisData
unfolding del_loop
hdel_value keys h =
    let (h', n) = del_loop h keys in
    ((if h'.size == 0 then erase else put (hash_value h')), int_data (pos n))

-- The fields and values of HGETALL, one after the other.
unfoldable pub flatten : List (Bytes × Bytes) → List Bytes
flatten [] = []
flatten ((k, v) ∷ rest) = k ∷ v ∷ flatten rest

module _ (K : Keyspace Value) (E : Expiry) where
  unfoldable pub hset_hash : MemDb K E → ℤ → Bytes → List Bytes → Outcome K E
  unfolding hset_value on_hash pairs_of
  hset_hash m now name args =
      if not (named name "hset") then (m, error "Server error") else elim args [
        | key ∷ field ∷ rest ↦ elim (pairs_of (field ∷ rest)) [
          | none ↦ (m, error "wrong number of arguments for 'hset' command")
          | some pairs ↦ update_key K E m now key (on_hash (hset_value pairs))
        ]
        | _ ↦ (m, error "wrong number of arguments for 'hset' command")
      ]

  unfoldable pub hsetnx_hash : MemDb K E → ℤ → Bytes → List Bytes → Outcome K E
  unfolding hsetnx_value on_hash
  hsetnx_hash m now name args =
      if not (named name "hsetnx") then (m, error "server error") else elim args [
        | key ∷ field ∷ value ∷ [] ↦ update_key K E m now key (on_hash (hsetnx_value field value))
        | _ ↦ (m, error "wrong number of arguments for 'hsetnx' command")
      ]

  unfoldable pub hincrby_hash : MemDb K E → ℤ → Bytes → List Bytes → Outcome K E
  unfolding hincrby_value on_hash
  hincrby_hash m now name args =
      if not (named name "hincrby") then (m, error "server error") else elim args [
        | key ∷ field ∷ amount ∷ [] ↦ elim (parse_int amount) [
          | none ↦ (m, error "incr value must be an integer")
          | some incr ↦ update_key K E m now key (on_hash (hincrby_value field incr))
        ]
        | _ ↦ (m, error "wrong number of arguments for 'hincrby' command")
      ]

  unfoldable pub hdel_hash : MemDb K E → ℤ → Bytes → List Bytes → Outcome K E
  unfolding hdel_value in_hash
  hdel_hash m now name args =
      if not (named name "hdel") then (m, error "Server error") else elim args [
        | key ∷ field ∷ fields ↦
            live_key K E m now key (int_data (pos 0))
              (in_hash (int_data (pos 0)) (hdel_value (field ∷ fields)))
        | _ ↦ (m, error "wrong number of arguments for 'hdel' command")
      ]

  unfoldable pub hget_hash : MemDb K E → ℤ → Bytes → List Bytes → Outcome K E
  unfolding in_hash value_reply
  hget_hash m now name args =
      if not (named name "hget") then (m, error "Server error") else elim args [
        | key ∷ field ∷ [] ↦
            live_key K E m now key null_bulk
              (in_hash null_bulk (λ h. (keep, value_reply (get h field))))
        | _ ↦ (m, error "wrong number of arguments for 'hget' command")
      ]

  unfoldable pub hmget_hash : MemDb K E → ℤ → Bytes → List Bytes → Outcome K E
  unfolding in_hash value_reply
  hmget_hash m now name args =
      if not (named name "hmget") then (m, error "Server error") else elim args [
        | key ∷ field ∷ fields ↦
            let nulls = array_data (elements (map (λ f. null_bulk) (field ∷ fields))) in
            live_key K E m now key nulls (
              in_hash nulls (λ h.
                (keep, array_data (elements (map (λ f. value_reply (get h f)) (field ∷ fields))))))
        | _ ↦ (m, error "wrong number of arguments for 'hmget' command")
      ]

  unfoldable pub hexists_hash : MemDb K E → ℤ → Bytes → List Bytes → Outcome K E
  unfolding in_hash
  hexists_hash m now name args =
      if not (named name "hexists") then (m, error "Server error") else elim args [
        | key ∷ field ∷ [] ↦ live_key K E m now key (int_data (pos 0)) (
            in_hash (int_data (pos 0))
              (λ h. (keep, int_data (pos (if exist h field then 1 else 0)))))
        | _ ↦ (m, error "wrong number of arguments for 'hexists' command")
      ]

  unfoldable pub hstrlen_hash : MemDb K E → ℤ → Bytes → List Bytes → Outcome K E
  unfolding in_hash
  hstrlen_hash m now name args =
      if not (named name "hstrlen") then (m, error "server error") else elim args [
        | key ∷ field ∷ [] ↦
            live_key K E m now key (int_data (pos 0))
              (in_hash (int_data (pos 0)) (λ h. (keep, int_data (pos (str_len h field)))))
        | _ ↦ (m, error "wrong number of arguments for 'hstrlen' command")
      ]

  unfoldable pub hlen_hash : MemDb K E → ℤ → Bytes → List Bytes → Outcome K E
  unfolding in_hash
  hlen_hash m now name args =
      if not (named name "hlen") then (m, error "Server error") else elim args [
        | key ∷ [] ↦
            live_key K E m now key (int_data (pos 0))
              (in_hash (int_data (pos 0)) (λ h. (keep, int_data (pos h.size))))
        | _ ↦ (m, error "wrong number of arguments for 'hlen' command")
      ]

  module _ (visit : List (Bytes × Bytes) → List (Bytes × Bytes)) where
    unfoldable pub hkeys_hash : MemDb K E → ℤ → Bytes → List Bytes → Outcome K E
    unfolding in_hash
    hkeys_hash m now name args =
        if not (named name "hkeys") then (m, error "server error") else elim args [
          | key ∷ [] ↦
              live_key K E m now key empty_array
                (in_hash empty_array (λ h. (keep, bulks (map (λ p. p.0) (visit h.table)))))
          | _ ↦ (m, error "wrong number of arguments for 'hkeys' command")
        ]

    unfoldable pub hvals_hash : MemDb K E → ℤ → Bytes → List Bytes → Outcome K E
    unfolding in_hash
    hvals_hash m now name args =
        if not (named name "hvals") then (m, error "server error") else elim args [
          | key ∷ [] ↦
              live_key K E m now key empty_array
                (in_hash empty_array (λ h. (keep, bulks (map (λ p. p.1) (visit h.table)))))
          | _ ↦ (m, error "wrong number of arguments for 'hvals' command")
        ]

    unfoldable pub hgetall_hash : MemDb K E → ℤ → Bytes → List Bytes → Outcome K E
    unfolding in_hash flatten
    hgetall_hash m now name args =
        if not (named name "hgetall") then (m, error "Server error") else elim args [
          | key ∷ [] ↦
              live_key K E m now key empty_array
                (in_hash empty_array (λ h. (keep, bulks (flatten (visit h.table)))))
          | _ ↦ (m, error "wrong number of arguments for 'hgetall' command")
        ]
