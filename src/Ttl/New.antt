-- ===== src/Ttl/New.antt =====
-- What `NewTTLManager` of pkg/memdb/db.go makes: empty shards, as many as a power of two.
use tinyredis.Prelude.{
  ℕ, ◌<◌, ◌≡◌, refl, sym, subst, ◌∙◌, none, some, arith, Bytes, length-replicate, elem-replicate,
  get_elem?, find,
}
use tinyredis.Prelude.Int.{ℤ}
use tinyredis.ConMap.New.{pow_pos}
use tinyredis.Ttl.Heap.{TtlShard, new_shard}
use tinyredis.Ttl.{new_ttl_manager, ttl_shard_count, expire_at, shard_expire_at, shard_for}
use tinyredis.Ttl.ShardLaws
use tinyredis.Ttl.Laws.{IsValid, shard_of, expire_at-shard}

count_pos : (size : ℤ) → 0 < ttl_shard_count size
unfolding ttl_shard_count
count_pos size = pow_pos _

new_shard-IsValid : ShardLaws.IsValid new_shard
unfolding find
new_shard-IsValid = record { distinct = tt; placed = λ k p at. cc at }

pub new_ttl_manager-IsValid : (size : ℤ) → IsValid (new_ttl_manager size)
unfolding new_ttl_manager
new_ttl_manager-IsValid size = record {
  shards_valid = λ i s e.
      subst ShardLaws.IsValid (sym (elem-replicate (ttl_shard_count size) i new_shard s e))
        new_shard-IsValid;
  masked = omega (arith, length-replicate (ttl_shard_count size) new_shard, count_pos size);
}

-- A new manager holds no expiration time.
pub expire_at-new_ttl_manager :
    (murmur : Bytes → ℕ) (size : ℤ) (k : Bytes) → expire_at murmur (new_ttl_manager size) k ≡ none
expire_at-new_ttl_manager murmur size k =
    let tm = new_ttl_manager size in
    let (s, e) = shard_of murmur tm k (new_ttl_manager-IsValid size) in
    expire_at-shard murmur tm k e ∙ rw (fresh_shard s e) no_time
  where
    fresh_shard :
        (s : TtlShard)
        → get_elem? (new_ttl_manager size).shards (shard_for murmur (new_ttl_manager size) k)
          ≡ some s
        → s ≡ new_shard
    fresh_shard s e =
        unfold new_ttl_manager in elem-replicate (ttl_shard_count size) _ new_shard s e

    no_time : shard_expire_at new_shard k ≡ none
    no_time = unfold shard_expire_at find in refl
