-- ===== src/Dispatch/Safety/Hashes.antt =====
-- The commands of pkg/memdb/hash.go.
use tinyredis.Prelude.{not, List, ◌∷◌, Bytes}
use tinyredis.Decimal.{parse_int}
use tinyredis.Keyspace.{Keyspace}
use tinyredis.Expiry.{Expiry}
use tinyredis.Value.{Value}
use tinyredis.MemDb.{named}
use tinyredis.Command.Laws.{update_key-IsValid, live_key-IsValid}
use tinyredis.Dispatch.Safety.{
  Keeps, if-Ok, option-Ok, one_word, two_words, three_words, more_words,
}
use tinyredis.Strings.Writes.{pairs_of}
use tinyredis.Hashes.Commands.{
  hset_hash, hsetnx_hash, hincrby_hash, hdel_hash, hget_hash, hmget_hash, hexists_hash,
  hstrlen_hash, hlen_hash, hkeys_hash, hvals_hash, hgetall_hash,
}

module _ (K : Keyspace Value) (E : Expiry) where
  pub hset_hash-Keeps : Keeps K E (hset_hash K E)
  unfolding hset_hash
  hset_hash-Keeps m now name args h = if-Ok K E (not (named name "hset")) _ _ h (
      more_words K E args _ _ h (λ key word rest.
        option-Ok K E (pairs_of (word ∷ rest)) _ _ h (λ n. update_key-IsValid K E m now key _ h)))

  pub hsetnx_hash-Keeps : Keeps K E (hsetnx_hash K E)
  unfolding hsetnx_hash
  hsetnx_hash-Keeps m now name args h =
      if-Ok K E (not (named name "hsetnx")) _ _ h
        (three_words K E args _ _ h (λ key word next. update_key-IsValid K E m now key _ h))

  pub hincrby_hash-Keeps : Keeps K E (hincrby_hash K E)
  unfolding hincrby_hash
  hincrby_hash-Keeps m now name args h = if-Ok K E (not (named name "hincrby")) _ _ h (
      three_words K E args _ _ h (λ key word next.
        option-Ok K E (parse_int next) _ _ h (λ n. update_key-IsValid K E m now key _ h)))

  pub hdel_hash-Keeps : Keeps K E (hdel_hash K E)
  unfolding hdel_hash
  hdel_hash-Keeps m now name args h =
      if-Ok K E (not (named name "hdel")) _ _ h
        (more_words K E args _ _ h (λ key word rest. live_key-IsValid K E m now key _ _ h))

  pub hget_hash-Keeps : Keeps K E (hget_hash K E)
  unfolding hget_hash
  hget_hash-Keeps m now name args h =
      if-Ok K E (not (named name "hget")) _ _ h
        (two_words K E args _ _ h (λ key word. live_key-IsValid K E m now key _ _ h))

  pub hmget_hash-Keeps : Keeps K E (hmget_hash K E)
  unfolding hmget_hash
  hmget_hash-Keeps m now name args h =
      if-Ok K E (not (named name "hmget")) _ _ h
        (more_words K E args _ _ h (λ key word rest. live_key-IsValid K E m now key _ _ h))

  pub hexists_hash-Keeps : Keeps K E (hexists_hash K E)
  unfolding hexists_hash
  hexists_hash-Keeps m now name args h =
      if-Ok K E (not (named name "hexists")) _ _ h
        (two_words K E args _ _ h (λ key word. live_key-IsValid K E m now key _ _ h))

  pub hstrlen_hash-Keeps : Keeps K E (hstrlen_hash K E)
  unfolding hstrlen_hash
  hstrlen_hash-Keeps m now name args h =
      if-Ok K E (not (named name "hstrlen")) _ _ h
        (two_words K E args _ _ h (λ key word. live_key-IsValid K E m now key _ _ h))

  pub hlen_hash-Keeps : Keeps K E (hlen_hash K E)
  unfolding hlen_hash
  hlen_hash-Keeps m now name args h =
      if-Ok K E (not (named name "hlen")) _ _ h
        (one_word K E args _ _ h (λ key. live_key-IsValid K E m now key _ _ h))

  module _ (visit : List (Bytes × Bytes) → List (Bytes × Bytes)) where
    pub hkeys_hash-Keeps : Keeps K E (hkeys_hash K E visit)
    unfolding hkeys_hash
    hkeys_hash-Keeps m now name args h =
        if-Ok K E (not (named name "hkeys")) _ _ h
          (one_word K E args _ _ h (λ key. live_key-IsValid K E m now key _ _ h))

    pub hvals_hash-Keeps : Keeps K E (hvals_hash K E visit)
    unfolding hvals_hash
    hvals_hash-Keeps m now name args h =
        if-Ok K E (not (named name "hvals")) _ _ h
          (one_word K E args _ _ h (λ key. live_key-IsValid K E m now key _ _ h))

    pub hgetall_hash-Keeps : Keeps K E (hgetall_hash K E visit)
    unfolding hgetall_hash
    hgetall_hash-Keeps m now name args h =
        if-Ok K E (not (named name "hgetall")) _ _ h
          (one_word K E args _ _ h (λ key. live_key-IsValid K E m now key _ _ h))
