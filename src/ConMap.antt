-- ===== src/ConMap.antt =====
-- pkg/memdb/concurrentmap.go: the key-value table of the database, sharded by a hash of the key.
-- Each method holds the lock of one shard while it reads or writes it, so a method is one step here,
-- and a sequence of calls is a sequence of steps. The murmur3 sum and the red-black tree are
-- third-party code and enter as parameters.
pub mod Chain
pub mod Tree
pub mod Shard
pub mod Laws
pub mod Size
pub mod New
use tinyredis.Prelude.{
  ℕ, zero, suc, ◌+◌, ◌-◌, ◌/◌, ◌%◌, ◌^◌, Bool, Option, none, some, List, [], ◌∷◌, ◌++◌, Bytes,
  if◌then◌else◌, ltb, ◌==◌, is_some, bit_and, length, get_elem?, replicate, set as set_at, ◌||◌,
}
use tinyredis.Prelude.Int.{ℤ, pos, negsuc, pos_part, ltb_ℤ, leb_ℤ}
use tinyredis.Hash.{hash_key}
use tinyredis.ConMap.Tree.{RedBlackTree}

abbrev pub max_con_size : ℕ
max_con_size = 2 ^ 31 - 1

-- `bits.Len32`, which reads at most 32 bits.
unfoldable pub bit_length : ℕ → ℕ → ℕ
bit_length zero n = 0
bit_length (suc fuel) n = let rest = bit_length fuel (n / 2) in if n == 0 then 0 else rest + 1

unfoldable pub number_of_leading_zeros : ℤ → ℕ
number_of_leading_zeros i = if leb_ℤ i (pos 0) then 32 else 32 - bit_length 32 (pos_part i % 2 ^ 32)

-- The number of shards that `NewConcurrentMap` makes room for.
unfoldable pub table_size : ℤ → ℕ
table_size size =
    let n =
      if ltb_ℤ (pos max_con_size) size || leb_ℤ size (pos 0) then max_con_size else pos_part size in
    2 ^ (32 - number_of_leading_zeros (pos (n - 1)))

-- An `int32` counter is kept by its bits; this is the number that they stand for.
unfoldable pub signed32 : ℕ → ℤ
signed32 u = if ltb u (2 ^ 31) then pos u else negsuc (2 ^ 32 - u - 1)

module _ {V : Type 0} (T : RedBlackTree V) where
  pub record ConcurrentMap : Type 0 where
    pub shards : List (Shard.Shard T)
    pub shard_mask : ℕ
    pub count : ℕ

  unfoldable pub new_map : ℤ → ConcurrentMap
  new_map size = record {
    shards = replicate (table_size size) (Shard.empty_shard T);
    shard_mask = table_size size - 1;
    count = 0;
  }

  unfoldable pub len : ConcurrentMap → ℤ
  unfolding signed32
  len m = signed32 m.count

  -- The loop of `Keys` over the shards, which passes over empty ones.
  unfoldable pub collect_keys : List (Shard.Shard T) → List Bytes
  collect_keys [] = []
  collect_keys (s ∷ rest) =
      if Shard.size T s == 0 then collect_keys rest else Shard.keys T s ++ collect_keys rest

  unfoldable pub keys : ConcurrentMap → List Bytes
  keys m = elim (len m) [ pos zero ↦ [] | _ ↦ collect_keys m.shards ]

  -- The node pool gets the nodes back, and the table is made anew with as many shards.
  unfoldable pub clear : ConcurrentMap → ConcurrentMap
  clear m = new_map (pos (length m.shards))

module _ {V : Type 0} (T : RedBlackTree V) (murmur : Bytes → ℕ) where
  unfoldable pub get_key_pos : ConcurrentMap T → Bytes → ℕ
  get_key_pos m key = bit_and (hash_key murmur key) m.shard_mask

  -- An index out of range would panic in Go; the mask keeps the index inside a well-formed table.
  unfoldable pub get : ConcurrentMap T → Bytes → Option V
  get m key = elim (get_elem? m.shards (get_key_pos m key)) [
    | none ↦ none
    | some s ↦ Shard.get T s key
  ]

  -- What a write to the shard at `i` leaves: the new shard, and one more entry if it is new.
  unfoldable pub store_set : ConcurrentMap T → ℕ → Shard.Shard T × Bool → ConcurrentMap T × ℕ
  store_set m i (s, fresh) =
      if fresh
      then (record m { shards = set_at m.shards i s; count = (m.count + 1) % 2 ^ 32 }, 1)
      else (record m { shards = set_at m.shards i s }, 0)

  unfoldable pub set : ConcurrentMap T → Bytes → V → ConcurrentMap T × ℕ
  unfolding store_set
  set m key value =
      let i = get_key_pos m key in
      elim (get_elem? m.shards i) [
        | none ↦ (m, 0)
        | some s ↦ store_set m i (Shard.set T s key value)
      ]

  unfoldable pub store_delete : ConcurrentMap T → ℕ → Shard.Shard T × Bool → ConcurrentMap T × ℕ
  store_delete m i (s, found) =
      if found
      then (record m { shards = set_at m.shards i s; count = (m.count + 2 ^ 32 - 1) % 2 ^ 32 }, 1)
      else (m, 0)

  unfoldable pub delete : ConcurrentMap T → Bytes → ConcurrentMap T × ℕ
  unfolding store_delete
  delete m key =
      let i = get_key_pos m key in
      elim (get_elem? m.shards i) [
        | none ↦ (m, 0)
        | some s ↦ store_delete m i (Shard.delete T s key)
      ]

  unfoldable pub set_if_exist : ConcurrentMap T → Bytes → V → ConcurrentMap T × ℕ
  set_if_exist m key value =
      let i = get_key_pos m key in
      elim (get_elem? m.shards i) [
        | none ↦ (m, 0)
        | some s ↦
            if is_some (Shard.get T s key)
            then (record m { shards = set_at m.shards i (Shard.put T s key value).0 }, 1)
            else (m, 0)
      ]

  -- The look-up under the read lock and the one under the write lock see the same shard when no
  -- other call comes between the two.
  unfoldable pub set_if_not_exist : ConcurrentMap T → Bytes → V → ConcurrentMap T × ℕ
  unfolding store_set
  set_if_not_exist m key value =
      let i = get_key_pos m key in
      elim (get_elem? m.shards i) [
        | none ↦ (m, 0)
        | some s ↦
            if is_some (Shard.get T s key)
            then (m, 0)
            else ((store_set m i (Shard.set T s key value)).0, 1)
      ]
