-- ===== src/ConMap/Size.antt =====
-- The counter of the table against the sizes of its shards.
use tinyredis.Prelude.{
  ℕ, zero, suc, ◌+◌, ◌-◌, ◌%◌, ◌^◌, ◌≤◌, ◌≡◌, refl, some, List, [], ◌∷◌, arith, Bytes,
  if◌then◌else◌, is_some, Option-cases, inl, inr, get_elem?, replicate, set as set_at,
}
use tinyredis.Prelude.Int.{ℤ}
use tinyredis.ConMap.Tree.{RedBlackTree}
use tinyredis.ConMap.Shard
use tinyredis.ConMap.Shard.{Shard, empty_shard}
use tinyredis.ConMap.Chain
use tinyredis.ConMap.{ConcurrentMap, new_map, get, set, delete, get_key_pos, table_size}
use tinyredis.ConMap.Laws.{IsValid, shard_of, get-shard, shards-set, delete_shape}

module _ {V : Type 0} (T : RedBlackTree V) where
  -- The number of entries in all shards.
  pub total : List (Shard T) → ℕ
  total [] = 0
  total (s ∷ rest) = Shard.size T s + total rest

  total-set :
      (l : List (Shard T)) (i : ℕ) (s s' : Shard T)
      → get_elem? l i ≡ some s
      → total (set_at l i s') + Shard.size T s ≡ total l + Shard.size T s'
  unfolding total
  total-set [] i s s' h = cc
  total-set (t ∷ l) zero s s' h = ground arith
  total-set (t ∷ l) (suc i) s s' h = omega (arith, total-set l i s s' h)

  le-total :
      (l : List (Shard T)) (i : ℕ) (s : Shard T) → get_elem? l i ≡ some s → Shard.size T s ≤ total l
  unfolding total
  le-total [] i s h = cc
  le-total (t ∷ l) zero s h = ground arith
  le-total (t ∷ l) (suc i) s h = omega (arith, le-total l i s h)

  -- The counter holds the number of entries, up to the width of an `int32`.
  pub IsCounted : ConcurrentMap T → Type 0
  IsCounted m = m.count ≡ total m.shards % 2 ^ 32

module _ {V : Type 0} (T : RedBlackTree V) (murmur : Bytes → ℕ) where
  -- `Set` on a well-formed table whose counter holds the number of its entries modulo 2^32 leaves
  -- one whose counter does; there is one entry more if the key is new, and as many as before if
  -- not.
  pub set-IsCounted :
      (m : ConcurrentMap T) (k : Bytes) (v : V)
      → IsValid T m
      → IsCounted T m
      → IsCounted T (set T murmur m k v).0
        × (total T (set T murmur m k v).0.shards
            ≡ (if is_some (get T murmur m k) then total T m.shards else total T m.shards + 1))
  unfolding IsCounted
  set-IsCounted m k v h c =
      let (s, e) = shard_of T murmur m k h in
      let (es, _, _, ec) = shards-set T murmur m k v e in
      let hs = h.shards_valid _ s e in
      ground (
        arith,
        es,
        ec,
        get-shard T murmur m k e,
        Shard.Laws.size-set T s k v hs,
        Shard.Laws.set_fresh T s k v,
        total-set T m.shards (get_key_pos T murmur m k) s (Shard.set T s k v).0 e,
      )

  -- `Delete` on a well-formed table whose counter holds the number of its entries modulo 2^32
  -- leaves one whose counter does; there is one entry fewer if the key was there, and as many as
  -- before if not.
  pub delete-IsCounted :
      (m : ConcurrentMap T) (k : Bytes)
      → IsValid T m
      → IsCounted T m
      → IsCounted T (delete T murmur m k).0
        × (total T (delete T murmur m k).0.shards
            ≡ (if is_some (get T murmur m k) then total T m.shards - 1 else total T m.shards))
  unfolding IsCounted
  delete-IsCounted m k h c =
      let (s, e) = shard_of T murmur m k h in
      let hs = h.shards_valid _ s e in
      elim (Option-cases (get T murmur m k)) [
        | inl missing ↦ ground (arith, delete_shape T murmur m k e)
        | inr (v, found) ↦ ground (
          arith,
          delete_shape T murmur m k e,
          get-shard T murmur m k e,
          Shard.Laws.size-delete T s k hs,
          Shard.Laws.size_pos T s k {v = v} hs,
          le-total T m.shards (get_key_pos T murmur m k) s e,
          total-set T m.shards (get_key_pos T murmur m k) s (Shard.delete T s k).0 e,
        )
      ]

module _ {V : Type 0} (T : RedBlackTree V) where
  total-replicate : (n : ℕ) → total T (replicate n (empty_shard T)) ≡ 0
  unfolding total Shard.size Chain.size
  total-replicate zero = refl
  total-replicate (suc n) = omega (arith, total-replicate n)

  -- A new table is counted.
  pub new_map-IsCounted : (size : ℤ) → IsCounted T (new_map T size)
  unfolding IsCounted new_map
  new_map-IsCounted size = rw (total-replicate (table_size size))
