-- ===== src/Keyspace/Sharded.antt =====
-- The sharded table of pkg/memdb/concurrentmap.go is a keyspace, whatever the hash and the tree.
use tinyredis.Prelude.{ℕ, Bytes}
use tinyredis.Keyspace.{Keyspace}
use tinyredis.ConMap.Tree.{RedBlackTree}
use tinyredis.ConMap
use tinyredis.ConMap.{ConcurrentMap}
use tinyredis.ConMap.Laws
use tinyredis.ConMap.New

unfoldable pub sharded : {V : Type 0} → RedBlackTree V → (Bytes → ℕ) → Keyspace V
sharded T murmur = record {
  Map = ConcurrentMap T;
  IsValid = Laws.IsValid T;
  new_map = ConMap.new_map T;
  get = ConMap.get T murmur;
  set = ConMap.set T murmur;
  delete = ConMap.delete T murmur;
  set_if_not_exist = ConMap.set_if_not_exist T murmur;
  keys = ConMap.keys T;
  new_map-IsValid = New.new_map-IsValid T;
  get-new_map = New.get-new_map T murmur;
  set-IsValid = Laws.set-IsValid T murmur;
  get-set = Laws.get-set T murmur;
  delete-IsValid = Laws.delete-IsValid T murmur;
  get-delete = Laws.get-delete T murmur;
  delete_result = Laws.delete_result T murmur;
  set_if_not_exist_lem = Laws.set_if_not_exist_lem T murmur;
}
