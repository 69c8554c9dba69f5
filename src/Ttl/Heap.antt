-- ===== src/Ttl/Heap.antt =====
-- pkg/memdb/db.go: `TTLHeap` with the functions of Go's container/heap that it is used with, and
-- the items that the heap and the index `keys` of a shard share. A `*TTLItem` is named by its key,
-- of which a shard has at most one item: `heap` lists the keys in the order of the slice, and
-- `items` is the memory of the items and the map `keys` at once.
use tinyredis.Prelude.{
  ℕ, zero, suc, ◌+◌, ◌-◌, ◌*◌, ◌/◌, Bool, not, ◌&&◌, ◌||◌, none, some, List, [], ◌∷◌, ◌++◌, Bytes,
  if◌then◌else◌, ltb, leb, ◌==◌, length, get_elem?, set as set_at, take, find, replace,
}
use tinyredis.Prelude.Int.{ℤ, pos, ltb_ℤ}

pub record TtlItem : Type 0 where
  pub expire_at : ℤ
  pub index : ℕ

pub record TtlShard : Type 0 where
  pub heap : List Bytes
  pub items : List (Bytes × TtlItem)

abbrev pub new_shard : TtlShard
new_shard = record { heap = []; items = [] }

-- The key at a place of the heap. The heap functions stay inside the slice.
unfoldable pub key_at : TtlShard → ℕ → Bytes
key_at s i = elim (get_elem? s.heap i) [ none ↦ [] | some k ↦ k ]

unfoldable pub expire_of : TtlShard → Bytes → ℤ
expire_of s k = elim (find k s.items) [ none ↦ pos 0 | some item ↦ item.expire_at ]

unfoldable pub less : TtlShard → ℕ → ℕ → Bool
unfolding key_at expire_of
less s i j = ltb_ℤ (expire_of s (key_at s i)) (expire_of s (key_at s j))

-- `item.index = i`
unfoldable pub set_index : Bytes → ℕ → List (Bytes × TtlItem) → List (Bytes × TtlItem)
set_index k i items = elim (find k items) [
  | none ↦ items
  | some item ↦ replace k (record item { index = i }) items
]

unfoldable pub swap : TtlShard → ℕ → ℕ → TtlShard
unfolding set_index key_at
swap s i j = record {
  heap = set_at (set_at s.heap i (key_at s j)) j (key_at s i);
  items = set_index (key_at s i) j (set_index (key_at s j) i s.items);
}

-- heap.up: fuel bounds the rounds, of which there are at most as many as the place has ancestors.
unfoldable pub up : ℕ → TtlShard → ℕ → TtlShard
unfolding swap less
up zero s j = s
up (suc fuel) s j =
    let i = (j - 1) / 2 in
    let rest = up fuel (swap s i j) i in if (i == j) || not (less s j i) then s else rest

-- The child that heap.down compares with.
unfoldable pub smaller_child : TtlShard → ℕ → ℕ → ℕ
smaller_child s i n =
    let left = 2 * i + 1 in if ltb (left + 1) n && less s (left + 1) left then left + 1 else left

-- heap.down, with the place where it stops.
unfoldable pub down : ℕ → TtlShard → ℕ → ℕ → TtlShard × ℕ
unfolding smaller_child swap less
down zero s i n = (s, i)
down (suc fuel) s i n =
    let j = smaller_child s i n in
    let rest = down fuel (swap s i j) j n in
    if leb n (2 * i + 1) || not (less s j i) then (s, i) else rest

-- `if !down(h, i, n) { up(h, i) }`, where `down` answers whether it moved.
unfoldable pub sift : TtlShard → ℕ → ℕ → TtlShard
unfolding down up
sift s i n =
    let (s', i') = down (length s.heap) s i n in if ltb i i' then s' else up (length s.heap) s' i

unfoldable pub fix : TtlShard → ℕ → TtlShard
unfolding sift
fix s i = sift s i (length s.heap)

-- heap.Push of an item whose key is new. The item stands in the memory before it is moved up.
unfoldable pub push : TtlShard → Bytes → ℤ → TtlShard
unfolding up
push s key expire =
    let n = length s.heap in
    let item : TtlItem = record { expire_at = expire; index = n } in
    let s' : TtlShard = record { heap = s.heap ++ key ∷ []; items = (key, item) ∷ s.items } in
    up (n + 1) s' n

-- `TTLHeap.Pop`: the last place goes.
unfoldable pub drop_last : TtlShard → TtlShard
drop_last s = record s { heap = take (length s.heap - 1) s.heap }

-- heap.Remove
unfoldable pub remove_at : TtlShard → ℕ → TtlShard
unfolding drop_last sift swap
remove_at s i = let n = length s.heap - 1 in drop_last (if n == i then s else sift (swap s i n) i n)

-- heap.Pop, with the key that it takes out.
unfoldable pub pop : TtlShard → TtlShard × Bytes
unfolding drop_last down swap
pop s =
    let n = length s.heap - 1 in (drop_last (down (length s.heap) (swap s 0 n) 0 n).0, key_at s 0)
