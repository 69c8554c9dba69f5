-- ===== src/ConMap/Shard/Laws.antt =====
-- A shard as a map: what `set` and `delete` do to look-ups and to the size, whichever of the two
-- data structures it holds before and after.
use tinyredis.Prelude.{
  suc, ◌+◌, ◌-◌, ◌<◌, ◌≡◌, refl, sym, ◌∙◌, not, Option, none, some, List, [], ◌∷◌, arith, Bytes,
  eqb, eqb_iff, eqb_refl, if◌then◌else◌, leb, length, is_some, find, unlink, Distinct, Bool-cases,
  Option-cases, inl, inr, find-unlink, unlink-Distinct, length-unlink,
}
use tinyredis.ConMap.Chain
use tinyredis.ConMap.Chain.{LinkedList, new_list}
use tinyredis.ConMap.Tree.{RedBlackTree}
use tinyredis.ConMap.Shard.{
  Shard, chain, tree, get, put, remove, size, set, delete, treeify, untreeify, drain_into_tree,
  treeify_threshold, untreeify_threshold, refill_list,
}

abbrev or_else : {V : Type 0} → Option V → Option V → Option V
or_else none d = d
or_else (some v) d = some v

find_pos :
    {V : Type 0} (k : Bytes) (l : List (Bytes × V)) {v : V} → find k l ≡ some v → 0 < length l
unfolding find
find_pos k [] h = cc
find_pos k (p ∷ l) h = omega arith

found_of :
    {V : Type 0} (k : Bytes) (v : V) (l m : List (Bytes × V))
    → find k ((k, v) ∷ l) ≡ find k m
    → (w : V) × (find k m ≡ some w)
unfolding find
found_of k v l m same = (v, sym same ∙ rw (eqb_refl k))

-- Taking a key off both sides keeps two lists alike.
find_rest :
    {V : Type 0} (k j : Bytes) (v : V) (l m : List (Bytes × V))
    → find k l ≡ none
    → Distinct m
    → find j ((k, v) ∷ l) ≡ find j m
    → find j l ≡ find j (unlink k m)
unfolding find
find_rest k j v l m fresh d same = ground (arith, find-unlink k j m d, eqb_iff k j)

-- Lists with distinct keys that answer every look-up alike are equally long.
length_of_find :
    {V : Type 0} (l m : List (Bytes × V))
    → Distinct l
    → Distinct m
    → ((k : Bytes) → find k l ≡ find k m)
    → length l ≡ length m
unfolding find
length_of_find [] [] dl dm same = refl
length_of_find [] ((k, v) ∷ m) dl dm same = ground (arith, same k, eqb_iff k k)
length_of_find ((k, v) ∷ l) m dl dm same =
    let ih =
      length_of_find l (unlink k m) dl.1 (unlink-Distinct k m dm)
        (λ j. find_rest k j v l m dl.0 dm (same j)) in
    let (w, e) = found_of k v l m (same k) in
    ground (arith, ih, length-unlink k m, e, find_pos k m e)

unlink_fresh :
    {V : Type 0} (k : Bytes) (l : List (Bytes × V)) → Distinct l → find k (unlink k l) ≡ none
unlink_fresh k l d = find-unlink k k l d ∙ rw (eqb_refl k)

length_moved :
    {V : Type 0} (k : Bytes) (l : List (Bytes × V))
    → suc (length (unlink k l)) ≡ (if is_some (find k l) then length l else length l + 1)
length_moved k l = elim (Option-cases (find k l)) [
  | inl e ↦ ground (arith, length-unlink k l)
  | inr (v, e) ↦ ground (arith, length-unlink k l, find_pos k l e)
]

get-new_list : {V : Type 0} (k : Bytes) → Chain.get {V = V} new_list k ≡ none
unfolding Chain.get find
get-new_list k = refl

new_list-IsValid : {V : Type 0} → Chain.IsValid {V = V} new_list
new_list-IsValid = record { distinct = tt; counted = refl }

module _ {V : Type 0} (T : RedBlackTree V) where
  find-drain :
      (l : List (Bytes × V)) (t : T.Tree) (k : Bytes)
      → Distinct l
      → T.get (drain_into_tree T l t) k ≡ or_else (find k l) (T.get t k)
  unfolding drain_into_tree find
  find-drain [] t k d = refl
  find-drain ((i, v) ∷ l) t k d =
      ground (arith, find-drain l (T.put t i v) k d.1, T.get-put t i k v, eqb_iff i k, d.0)

  get-refill :
      (l : List (Bytes × V)) (a : LinkedList V) (k : Bytes)
      → Distinct l
      → Chain.get (refill_list T l a) k ≡ or_else (find k l) (Chain.get a k)
  unfolding refill_list find
  get-refill [] a k d = refl
  get-refill ((i, v) ∷ l) a k d =
      ground
        (arith, get-refill l (Chain.put a i v).0 k d.1, Chain.get-put a i k v, eqb_iff i k, d.0)

  refill-IsValid :
      (l : List (Bytes × V)) (a : LinkedList V)
      → Chain.IsValid a
      → Chain.IsValid (refill_list T l a)
  unfolding refill_list
  refill-IsValid [] a h = h
  refill-IsValid ((i, v) ∷ l) a h = refill-IsValid l (Chain.put a i v).0 (Chain.put-IsValid a i v h)

  abbrev pub IsValid : Shard T → Type 0
  IsValid (chain l) = Chain.IsValid l
  IsValid (tree t) = Unit

  -- The pairs that a shard holds.
  abbrev pairs : Shard T → List (Bytes × V)
  pairs (chain l) = l.head
  pairs (tree t) = T.entries t

  pairs-Distinct : (s : Shard T) → IsValid s → Distinct (pairs s)
  pairs-Distinct (chain l) h = h.distinct
  pairs-Distinct (tree t) h = T.entries-Distinct t

  find-pairs : (s : Shard T) (k : Bytes) → find k (pairs s) ≡ get T s k
  unfolding get Chain.get
  find-pairs (chain l) k = refl
  find-pairs (tree t) k = T.find-entries t k

  size_pairs : (s : Shard T) → IsValid s → size T s ≡ length (pairs s)
  unfolding size Chain.size
  size_pairs (chain l) h = h.counted
  size_pairs (tree t) h = T.size_lem t

  -- The size is fixed by the look-ups.
  size_of_get :
      (s t : Shard T)
      → IsValid s
      → IsValid t
      → ((k : Bytes) → get T s k ≡ get T t k)
      → size T s ≡ size T t
  size_of_get s t hs ht same =
      size_pairs s hs
      ∙ length_of_find (pairs s) (pairs t) (pairs-Distinct s hs) (pairs-Distinct t ht)
          (λ k. find-pairs s k ∙ same k ∙ sym (find-pairs t k))
      ∙ sym (size_pairs t ht)

  pub get-put :
      (s : Shard T) (k j : Bytes) (v : V)
      → get T (put T s k v).0 j ≡ (if eqb k j then some v else get T s j)
  unfolding get put
  get-put (chain l) k j v = Chain.get-put l k j v
  get-put (tree t) k j v = T.get-put t k j v

  pub put-IsValid : (s : Shard T) (k : Bytes) (v : V) → IsValid s → IsValid (put T s k v).0
  unfolding put
  put-IsValid (chain l) k v h = Chain.put-IsValid l k v h
  put-IsValid (tree t) k v h = tt

  get-remove :
      (s : Shard T) (k j : Bytes)
      → IsValid s
      → get T (remove T s k).0 j ≡ (if eqb k j then none else get T s j)
  unfolding get remove
  get-remove (chain l) k j h = Chain.get-remove l k j h
  get-remove (tree t) k j h = ground (arith, T.get-remove t k j, eqb_iff k j)

  remove-IsValid : (s : Shard T) (k : Bytes) → IsValid s → IsValid (remove T s k).0
  unfolding remove
  remove-IsValid (chain l) k h = Chain.remove-IsValid l k h
  remove-IsValid (tree t) k h = elim (Bool-cases (is_some (T.get t k))) [
    | inl found ↦ rw found tt
    | inr missing ↦ rw missing tt
  ]

  get-treeify : (s : Shard T) (k : Bytes) → IsValid s → get T (treeify T s) k ≡ get T s k
  unfolding get treeify Chain.get
  get-treeify (chain l) k h = ground (arith, find-drain l.head T.empty k h.distinct, T.get-empty k)
  get-treeify (tree t) k h = refl

  treeify-IsValid : (s : Shard T) → IsValid s → IsValid (treeify T s)
  unfolding treeify
  treeify-IsValid (chain l) h = elim (Bool-cases (leb treeify_threshold (Chain.size l))) [
    | inl big ↦ rw big tt
    | inr small ↦ rw small h
  ]
  treeify-IsValid (tree t) h = tt

  get-untreeify : (s : Shard T) (k : Bytes) → get T (untreeify T s) k ≡ get T s k
  unfolding get untreeify
  get-untreeify (chain l) k = refl
  get-untreeify (tree t) k = ground (
    arith,
    get-refill (T.entries t) new_list k (T.entries-Distinct t),
    T.find-entries t k,
    get-new_list {V = V} k,
  )

  untreeify-IsValid : (s : Shard T) → IsValid s → IsValid (untreeify T s)
  unfolding untreeify
  untreeify-IsValid (chain l) h = h
  untreeify-IsValid (tree t) h = elim (Bool-cases (leb (T.size t) untreeify_threshold)) [
    | inl small ↦ rw small (refill-IsValid (T.entries t) new_list new_list-IsValid)
    | inr big ↦ rw big tt
  ]

  pub set-IsValid : (s : Shard T) (k : Bytes) (v : V) → IsValid s → IsValid (set T s k v).0
  unfolding set
  set-IsValid s k v h = elim (Bool-cases (put T s k v).1) [
    | inl fresh ↦ rw fresh (treeify-IsValid (put T s k v).0 (put-IsValid s k v h))
    | inr old ↦ rw old (put-IsValid s k v h)
  ]

  pub delete-IsValid : (s : Shard T) (k : Bytes) → IsValid s → IsValid (delete T s k).0
  unfolding delete
  delete-IsValid s k h = elim (Bool-cases (remove T s k).1) [
    | inl found ↦ rw found (untreeify-IsValid (remove T s k).0 (remove-IsValid s k h))
    | inr missing ↦ rw missing (remove-IsValid s k h)
  ]

  pub get-set :
      (s : Shard T) (k j : Bytes) (v : V)
      → IsValid s
      → get T (set T s k v).0 j ≡ (if eqb k j then some v else get T s j)
  unfolding set
  get-set s k j v h =
      ground (arith, get-put s k j v, get-treeify (put T s k v).0 j (put-IsValid s k v h))

  pub get-delete :
      (s : Shard T) (k j : Bytes)
      → IsValid s
      → get T (delete T s k).0 j ≡ (if eqb k j then none else get T s j)
  unfolding delete
  get-delete s k j h = ground (arith, get-remove s k j h, get-untreeify (remove T s k).0 j)

  -- The flag of `set` says that the key was not there.
  pub set_fresh : (s : Shard T) (k : Bytes) (v : V) → (set T s k v).1 ≡ not (is_some (get T s k))
  unfolding set put get
  set_fresh (chain l) k v = ground (arith, Chain.put_new l k v)
  set_fresh (tree t) k v = refl

  -- The flag of `delete` says that the key was there.
  pub delete_found : (s : Shard T) (k : Bytes) → (delete T s k).1 ≡ is_some (get T s k)
  unfolding delete remove get
  delete_found (chain l) k = Chain.remove_found l k
  delete_found (tree t) k = ground arith

  find_moved :
      (s : Shard T) (k j : Bytes) (v : V)
      → IsValid s
      → (if eqb k j then some v else get T s j) ≡ find j ((k, v) ∷ unlink k (pairs s))
  unfolding find
  find_moved s k j v h =
      ground (arith, find-unlink k j (pairs s) (pairs-Distinct s h), find-pairs s j)

  pub size-set :
      (s : Shard T) (k : Bytes) (v : V)
      → IsValid s
      → size T (set T s k v).0 ≡ (if is_some (get T s k) then size T s else size T s + 1)
  size-set s k v h =
      let s' = (set T s k v).0 in
      let h' = set-IsValid s k v h in
      let l = pairs s in
      ground (
        arith,
        size_pairs s h,
        size_pairs s' h',
        length_moved k l,
        find-pairs s k,
        length_of_find (pairs s') ((k, v) ∷ unlink k l) (pairs-Distinct s' h')
            (unlink_fresh k l (pairs-Distinct s h), unlink-Distinct k l (pairs-Distinct s h))
            (λ j. find-pairs s' j ∙ get-set s k j v h ∙ find_moved s k j v h),
      )

  find_gone :
      (s : Shard T) (k j : Bytes)
      → IsValid s
      → (if eqb k j then none else get T s j) ≡ find j (unlink k (pairs s))
  find_gone s k j h = ground (arith, find-unlink k j (pairs s) (pairs-Distinct s h), find-pairs s j)

  pub size-delete :
      (s : Shard T) (k : Bytes)
      → IsValid s
      → size T (delete T s k).0 ≡ (if is_some (get T s k) then size T s - 1 else size T s)
  size-delete s k h =
      let s' = (delete T s k).0 in
      let h' = delete-IsValid s k h in
      let l = pairs s in
      let d = pairs-Distinct s h in
      ground (
        arith,
        size_pairs s h,
        size_pairs s' h',
        length-unlink k l,
        find-pairs s k,
        length_of_find (pairs s') (unlink k l) (pairs-Distinct s' h') (unlink-Distinct k l d)
            (λ j. find-pairs s' j ∙ get-delete s k j h ∙ find_gone s k j h),
      )

  -- A key that is found makes the size positive.
  pub size_pos : (s : Shard T) (k : Bytes) {v : V} → IsValid s → get T s k ≡ some v → 0 < size T s
  size_pos s k h e = rw (size_pairs s h) (find_pos k (pairs s) (find-pairs s k ∙ e))
