-- ===== src/ConMap/Shard.antt =====
-- pkg/memdb/concurrentmap.go: a shard's data, which is a `linkedList` or a `treeWrapper`, the
-- conversions between the two, and the part of each `ConcurrentMap` method that holds the lock.
pub mod Laws
use tinyredis.Prelude.{
  ℕ, ◌+◌, ◌≡◌, refl, Bool, not, true, false, Option, none, some, List, [], ◌∷◌, arith, Bytes, eqb,
  eqb_iff, if◌then◌else◌, leb, length, is_some, keys_of, find, Distinct, Bool-cases, inl, inr,
}
use tinyredis.ConMap.Chain
use tinyredis.ConMap.Chain.{LinkedList, new_list}
use tinyredis.ConMap.Tree.{RedBlackTree}

abbrev pub treeify_threshold : ℕ
treeify_threshold = 8

abbrev pub untreeify_threshold : ℕ
untreeify_threshold = 6

module _ {V : Type 0} (T : RedBlackTree V) where
  pub data Shard : Type 0 where
    chain : LinkedList V → Shard
    tree : T.Tree → Shard

  abbrev pub empty_shard : Shard
  empty_shard = chain new_list

  -- The methods of `dataStructure`.
  unfoldable pub get : Shard → Bytes → Option V
  get (chain l) key = Chain.get l key
  get (tree t) key = T.get t key

  -- `treeWrapper.Put` looks the key up first, to tell whether it is new.
  unfoldable pub put : Shard → Bytes → V → Shard × Bool
  put (chain l) key value = let (l', fresh) = Chain.put l key value in (chain l', fresh)
  put (tree t) key value = (tree (T.put t key value), not (is_some (T.get t key)))

  unfoldable pub remove : Shard → Bytes → Shard × Bool
  remove (chain l) key = let (l', found) = Chain.remove l key in (chain l', found)
  remove (tree t) key =
      if is_some (T.get t key) then (tree (T.remove t key), true) else (tree t, false)

  unfoldable pub size : Shard → ℕ
  size (chain l) = Chain.size l
  size (tree t) = T.size t

  unfoldable pub keys : Shard → List Bytes
  keys (chain l) = Chain.keys l
  keys (tree t) = keys_of (T.entries t)

  -- `drainIntoTree`: the nodes go into the tree one by one, from the head on.
  unfoldable pub drain_into_tree : List (Bytes × V) → T.Tree → T.Tree
  drain_into_tree [] t = t
  drain_into_tree ((k, v) ∷ rest) t = drain_into_tree rest (T.put t k v)

  -- The loop of `Delete` that puts what the iterator visits into a new list.
  unfoldable pub refill_list : List (Bytes × V) → LinkedList V → LinkedList V
  refill_list [] l = l
  refill_list ((k, v) ∷ rest) l = refill_list rest (Chain.put l k v).0

  -- A list that has grown to the threshold becomes a tree.
  unfoldable pub treeify : Shard → Shard
  treeify (chain l) =
      if leb treeify_threshold (Chain.size l)
      then tree (drain_into_tree l.head T.empty)
      else chain l
  treeify (tree t) = tree t

  -- A tree that has shrunk to the threshold becomes a list.
  unfoldable pub untreeify : Shard → Shard
  untreeify (chain l) = chain l
  untreeify (tree t) =
      if leb (T.size t) untreeify_threshold
      then chain (refill_list (T.entries t) new_list)
      else tree t

  unfoldable pub set : Shard → Bytes → V → Shard × Bool
  set s key value = let (s', fresh) = put s key value in (if fresh then treeify s' else s', fresh)

  unfoldable pub delete : Shard → Bytes → Shard × Bool
  delete s key = let (s', found) = remove s key in (if found then untreeify s' else s', found)
