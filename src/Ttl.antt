-- ===== src/Ttl.antt =====
-- pkg/memdb/db.go: `TTLManager`, the expiration times of keys, in shards of their own. The clock is
-- an argument `now`. The cleanup goroutine and its timer are not modelled.
pub mod Heap
pub mod Index
pub mod ShardLaws
pub mod Laws
pub mod New
use tinyredis.Prelude.{
  ℕ, zero, suc, ◌+◌, ◌-◌, ◌^◌, Bool, true, false, Option, none, some, List, [], ◌∷◌, ◌++◌, Bytes,
  if◌then◌else◌, ltb, length, get_elem?, replicate, set as set_at, bit_and, find, replace, unlink,
  ◌&&◌,
}
use tinyredis.Prelude.Int.{ℤ, pos, pos_part, ltb_ℤ, leb_ℤ, eqb_ℤ}
use tinyredis.Hash.{hash_key}
use tinyredis.ConMap.{bit_length}

-- One shard, under its lock.

unfoldable pub shard_expire_at : Heap.TtlShard → Bytes → Option ℤ
shard_expire_at s key = elim (find key s.items) [ none ↦ none | some item ↦ some item.expire_at ]

unfoldable pub shard_set_ttl : Heap.TtlShard → Bytes → ℤ → Heap.TtlShard
unfolding Heap.push Heap.fix
shard_set_ttl s key expire = elim (find key s.items) [
  | none ↦ Heap.push s key expire
  | some item ↦
      if eqb_ℤ item.expire_at expire
      then s
      else Heap.fix (record s { items = replace key (record item { expire_at = expire }) s.items })
          item.index
]

-- `releaseTTLItem`, as far as a key that the index still has would show it: the time is 0 from then on.
-- For a key that the index has lost it does nothing.
unfoldable pub release : Bytes → List (Bytes × Heap.TtlItem) → List (Bytes × Heap.TtlItem)
release key items = elim (find key items) [
  | none ↦ items
  | some item ↦ replace key (record item { expire_at = pos 0 }) items
]

-- heap.Remove of the item that stands at place `i`, `delete(shard.keys, key)` and the release of the
-- item that came out of the heap. The two keys are the same where the index of the item is right.
unfoldable pub drop_item : Heap.TtlShard → Bytes → ℕ → Heap.TtlShard
unfolding Heap.remove_at Heap.key_at release
drop_item s key i =
    let s' = Heap.remove_at s i in
    record s' { items = release (Heap.key_at s i) (unlink key s'.items) }

unfoldable pub shard_remove_ttl : Heap.TtlShard → Bytes → Heap.TtlShard
unfolding drop_item
shard_remove_ttl s key = elim (find key s.items) [
  | none ↦ s
  | some item ↦ drop_item s key item.index
]

-- `false` for a key that has expired, whose item goes.
unfoldable pub shard_check_ttl : Heap.TtlShard → Bytes → ℤ → Heap.TtlShard × Bool
unfolding drop_item
shard_check_ttl s key now = elim (find key s.items) [
  | none ↦ (s, true)
  | some item ↦ if ltb_ℤ now item.expire_at then (s, true) else (drop_item s key item.index, false)
]

-- `collectExpiredAndNext`: items leave the heap while the first one has expired. Every round takes
-- one item out, so the length of the heap is fuel enough. The item that is released is in neither
-- the heap nor the index then.
unfoldable pub collect_loop : ℕ → Heap.TtlShard → ℤ → List Bytes → Heap.TtlShard × List Bytes × ℤ
unfolding Heap.pop
collect_loop zero s now expired = (s, expired, pos 0)
collect_loop (suc fuel) s now expired = elim s.heap [
  | [] ↦ (s, expired, pos 0)
  | first ∷ _ ↦
      let (s', key) = Heap.pop s in
      let rest =
        collect_loop fuel (record s' { items = unlink key s'.items }) now (expired ++ key ∷ []) in
      if ltb_ℤ now (Heap.expire_of s first) then (s, expired, Heap.expire_of s first) else rest
]

unfoldable pub collect_expired_and_next : Heap.TtlShard → ℤ → Heap.TtlShard × List Bytes × ℤ
unfolding collect_loop
collect_expired_and_next s now = collect_loop (length s.heap) s now []

pub record TtlManager : Type 0 where
  pub shards : List Heap.TtlShard
  pub shard_mask : ℕ

-- `ttlShardCount`; `bits.Len` reads 64 bits.
unfoldable pub ttl_shard_count : ℤ → ℕ
ttl_shard_count hint =
    let positive = if leb_ℤ hint (pos 0) then 1 else pos_part hint in
    let capped = if ltb 256 positive then 256 else positive in
    let n = if ltb capped 16 then 16 else capped in 2 ^ bit_length 64 (n - 1)

unfoldable pub new_ttl_manager : ℤ → TtlManager
unfolding ttl_shard_count
new_ttl_manager shard_num = record {
  shards = replicate (ttl_shard_count shard_num) Heap.new_shard;
  shard_mask = ttl_shard_count shard_num - 1;
}

module _ (murmur : Bytes → ℕ) where
  unfoldable pub shard_for : TtlManager → Bytes → ℕ
  shard_for tm key = bit_and (hash_key murmur key) tm.shard_mask

  -- An index out of range would panic in Go; the mask keeps the index inside a well-formed table.
  unfoldable pub expire_at : TtlManager → Bytes → Option ℤ
  expire_at tm key = elim (get_elem? tm.shards (shard_for tm key)) [
    | none ↦ none
    | some s ↦ shard_expire_at s key
  ]

  unfoldable pub set_ttl : TtlManager → Bytes → ℤ → TtlManager
  set_ttl tm key expire = elim (get_elem? tm.shards (shard_for tm key)) [
    | none ↦ tm
    | some s ↦ record tm {
      shards = set_at tm.shards (shard_for tm key) (shard_set_ttl s key expire);
    }
  ]

  unfoldable pub remove_ttl : TtlManager → Bytes → TtlManager
  remove_ttl tm key = elim (get_elem? tm.shards (shard_for tm key)) [
    | none ↦ tm
    | some s ↦ record tm { shards = set_at tm.shards (shard_for tm key) (shard_remove_ttl s key) }
  ]

  unfoldable pub check_ttl : TtlManager → Bytes → ℤ → TtlManager × Bool
  check_ttl tm key now = elim (get_elem? tm.shards (shard_for tm key)) [
    | none ↦ (tm, true)
    | some s ↦
        let (s', live) = shard_check_ttl s key now in
        (record tm { shards = set_at tm.shards (shard_for tm key) s' }, live)
  ]
