-- ===== src/Keyspace.antt =====
-- What the commands of pkg/memdb use of `ConcurrentMap`: its operations and the laws that they obey
-- on a well-formed table. `Keyspace.Sharded` fills it with the table of pkg/memdb/concurrentmap.go.
pub mod Sharded
use tinyredis.Prelude.{ℕ, ◌≡◌, Option, none, some, Bytes, List, eqb, if◌then◌else◌, is_some}
use tinyredis.Prelude.Int.{ℤ}

pub record Keyspace (V : Type 0) : Type 1 where
  pub Map : Type 0
  pub IsValid : Map → Type 0
  pub new_map : ℤ → Map
  pub get : Map → Bytes → Option V
  pub set : Map → Bytes → V → Map × ℕ
  pub delete : Map → Bytes → Map × ℕ
  pub set_if_not_exist : Map → Bytes → V → Map × ℕ
  pub keys : Map → List Bytes
  pub new_map-IsValid : (size : ℤ) → IsValid (new_map size)
  pub get-new_map : (size : ℤ) (k : Bytes) → get (new_map size) k ≡ none
  pub set-IsValid : (m : Map) (k : Bytes) (v : V) → IsValid m → IsValid (set m k v).0
  pub get-set :
      (m : Map) (k j : Bytes) (v : V)
      → IsValid m
      → get (set m k v).0 j ≡ (if eqb k j then some v else get m j)
  pub delete-IsValid : (m : Map) (k : Bytes) → IsValid m → IsValid (delete m k).0
  pub get-delete :
      (m : Map) (k j : Bytes)
      → IsValid m
      → get (delete m k).0 j ≡ (if eqb k j then none else get m j)
  pub delete_result :
      (m : Map) (k : Bytes) → IsValid m → (delete m k).1 ≡ (if is_some (get m k) then 1 else 0)
  pub set_if_not_exist_lem :
      (m : Map) (k : Bytes) (v : V)
      → IsValid m
      → set_if_not_exist m k v ≡ (if is_some (get m k) then (m, 0) else ((set m k v).0, 1))
