-- ===== src/ConMap/Chain.antt =====
-- pkg/memdb/concurrentmap.go: `linkedList`, a shard's data while it is small. A node is a pair of a
-- key and a value, and the chain of `next` pointers is a list; the node pool only recycles memory.
use tinyredis.Prelude.{
  ℕ, ◌+◌, ◌-◌, ◌≡◌, Bool, not, true, false, Option, none, some, List, [], ◌∷◌, arith, Bytes, eqb,
  eqb_iff, if◌then◌else◌, length, is_some, keys_of, find, replace, unlink, Distinct, find-replace,
  find-unlink, replace-Distinct, unlink-Distinct, length-replace, length-unlink,
}

pub record LinkedList (V : Type 0) : Type 0 where
  pub head : List (Bytes × V)
  pub count : ℕ

abbrev pub new_list : {V : Type 0} → LinkedList V
new_list = record { head = []; count = 0 }

module _ {V : Type 0} where
  unfoldable pub get : LinkedList V → Bytes → Option V
  get l key = find key l.head

  -- A key that is there is overwritten in place, a new one goes to the front.
  unfoldable pub put : LinkedList V → Bytes → V → LinkedList V × Bool
  put l key value =
      if is_some (find key l.head)
      then (record l { head = replace key value l.head }, false)
      else (record { head = (key, value) ∷ l.head; count = l.count + 1 }, true)

  unfoldable pub remove : LinkedList V → Bytes → LinkedList V × Bool
  remove l key =
      if is_some (find key l.head)
      then (record { head = unlink key l.head; count = l.count - 1 }, true)
      else (l, false)

  unfoldable pub size : LinkedList V → ℕ
  size l = l.count

  unfoldable pub keys : LinkedList V → List Bytes
  keys l = keys_of l.head

  -- No key stands in two nodes, and `count` is the number of nodes.
  pub record IsValid (l : LinkedList V) : Type 0 where
    pub distinct : Distinct l.head
    pub counted : l.count ≡ length l.head

  pub get-put :
      (l : LinkedList V) (k j : Bytes) (v : V)
      → get (put l k v).0 j ≡ (if eqb k j then some v else get l j)
  unfolding get put find
  get-put l k j v = ground (arith, find-replace k j v l.head)

  pub put_new : (l : LinkedList V) (k : Bytes) (v : V) → is_some (get l k) ≡ not (put l k v).1
  unfolding get put
  put_new l k v = ground arith

  pub put-IsValid : (l : LinkedList V) (k : Bytes) (v : V) → IsValid l → IsValid (put l k v).0
  unfolding put
  put-IsValid l k v h =
      ground (arith, replace-Distinct k v l.head h.distinct, length-replace k v l.head)

  pub get-remove :
      (l : LinkedList V) (k j : Bytes)
      → IsValid l
      → get (remove l k).0 j ≡ (if eqb k j then none else get l j)
  unfolding get remove
  get-remove l k j h = ground (arith, find-unlink k j l.head h.distinct, eqb_iff k j)

  pub remove_found : (l : LinkedList V) (k : Bytes) → (remove l k).1 ≡ is_some (get l k)
  unfolding get remove
  remove_found l k = ground arith

  pub remove-IsValid : (l : LinkedList V) (k : Bytes) → IsValid l → IsValid (remove l k).0
  unfolding remove
  remove-IsValid l k h = ground (arith, unlink-Distinct k l.head h.distinct, length-unlink k l.head)
