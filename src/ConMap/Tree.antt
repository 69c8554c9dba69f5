-- ===== src/ConMap/Tree.antt =====
-- The red-black tree of github.com/emirpasic/gods, which `treeWrapper` of
-- pkg/memdb/concurrentmap.go wraps: the calls that the source makes, with their documented laws.
use tinyredis.Prelude.{
  ℕ, ◌≡◌, refl, Option, none, some, List, [], ◌∷◌, arith, Bytes, eqb, eqb_iff, if◌then◌else◌,
  length, find, Distinct,
}

pub record RedBlackTree (V : Type 0) : Type 1 where
  pub Tree : Type 0
  pub empty : Tree
  pub get : Tree → Bytes → Option V
  pub put : Tree → Bytes → V → Tree
  pub remove : Tree → Bytes → Tree
  pub size : Tree → ℕ
  -- what the iterator visits
  pub entries : Tree → List (Bytes × V)
  pub get-empty : (k : Bytes) → get empty k ≡ none
  pub get-put :
      (t : Tree) (k j : Bytes) (v : V) → get (put t k v) j ≡ (if eqb k j then some v else get t j)
  pub get-remove :
      (t : Tree) (k j : Bytes) → get (remove t k) j ≡ (if eqb k j then none else get t j)
  pub find-entries : (t : Tree) (k : Bytes) → find k (entries t) ≡ get t k
  pub entries-Distinct : (t : Tree) → Distinct (entries t)
  pub size_lem : (t : Tree) → size t ≡ length (entries t)

-- A tree that the laws can be tried on: the history of the writes, searched from the last.
module _ {V : Type 0} where
  unfoldable pub drop_key : Bytes → List (Bytes × V) → List (Bytes × V)
  drop_key key [] = []
  drop_key key ((k, v) ∷ rest) =
      let later = drop_key key rest in if eqb k key then later else (k, v) ∷ later

  unfoldable pub latest : List (Bytes × V) → List (Bytes × V)
  latest [] = []
  latest ((k, v) ∷ rest) = (k, v) ∷ drop_key k (latest rest)

  pub find-drop_key :
      (k j : Bytes) (l : List (Bytes × V))
      → find j (drop_key k l) ≡ (if eqb k j then none else find j l)
  unfolding find drop_key
  find-drop_key k j [] = ground arith
  find-drop_key k j ((i, w) ∷ l) =
      ground (arith, eqb_iff i k, eqb_iff i j, eqb_iff k j, find-drop_key k j l)

  drop_key-Distinct : (k : Bytes) (l : List (Bytes × V)) → Distinct l → Distinct (drop_key k l)
  unfolding drop_key
  drop_key-Distinct k [] h = tt
  drop_key-Distinct k ((i, w) ∷ l) h =
      ground (arith, find-drop_key k i l, drop_key-Distinct k l h.1)

  pub find-latest : (k : Bytes) (l : List (Bytes × V)) → find k (latest l) ≡ find k l
  unfolding find latest
  find-latest k [] = refl
  find-latest k ((i, w) ∷ l) =
      ground (arith, eqb_iff i k, find-drop_key i k (latest l), find-latest k l)

  pub latest-Distinct : (l : List (Bytes × V)) → Distinct (latest l)
  unfolding latest
  latest-Distinct [] = tt
  latest-Distinct ((i, w) ∷ l) = ground (
    arith,
    find-drop_key i i (latest l),
    eqb_iff i i,
    drop_key-Distinct i (latest l) (latest-Distinct l),
  )

  pub find-cons :
      (k j : Bytes) (v : V) (l : List (Bytes × V))
      → find j ((k, v) ∷ l) ≡ (if eqb k j then some v else find j l)
  unfolding find
  find-cons k j v l = refl

  unfoldable pub history_tree : RedBlackTree V
  unfolding find drop_key latest
  history_tree = record {
    Tree = List (Bytes × V);
    empty = [];
    get = λ t k. find k t;
    put = λ t k v. (k, v) ∷ t;
    remove = λ t k. drop_key k t;
    size = λ t. length (latest t);
    entries = latest;
    get-empty = λ k. refl;
    get-put = λ t k j v. find-cons k j v t;
    get-remove = λ t k j. find-drop_key k j t;
    find-entries = λ t k. find-latest k t;
    entries-Distinct = latest-Distinct;
    size_lem = λ t. refl;
  }
