-- ===== src/DoubleList.antt =====
-- pkg/memdb/list_struct.go: `List`, the doubly linked list behind Redis lists. `vals` holds the
-- values of the nodes between the sentinels `Head` and `Tail`, in the order of the `Next` pointers,
-- of which the `Prev` pointers are the reverse; `len` is the counter that the source keeps beside
-- the nodes. A node is named by its place, counted from the head.
pub mod Laws
pub mod Slices
use tinyredis.Prelude.{
  ℕ, zero, suc, ◌+◌, ◌-◌, ◌/◌, Bool, true, false, Option, none, some, List, [], ◌∷◌, ◌++◌, reverse,
  Bytes, eqb, if◌then◌else◌, ltb, leb, ◌==◌, ◌||◌, length, get_elem?, set as set_at, take, drop,
}
use tinyredis.Prelude.Int.{ℤ, pos, negsuc, pos_part, ◌+ℤ◌, ◌-ℤ◌, wrap64, ltb_ℤ, leb_ℤ}

pub record DoubleList : Type 0 where
  pub vals : List Bytes
  pub len : ℕ

abbrev pub new_list : DoubleList
new_list = record { vals = []; len = 0 }

-- `if index < 0 { index = len + index }`
unfoldable pub from_end : ℕ → ℤ → ℤ
from_end len index = if ltb_ℤ index (pos 0) then pos len +ℤ index else index

-- `Index`: the place of the node, reached from the nearer end.
unfoldable pub index : DoubleList → ℤ → Option ℕ
unfolding from_end
index l i =
    let k = from_end l.len i in
    if ltb_ℤ k (pos 0) || leb_ℤ (pos l.len) k
    then none
    else if leb (pos_part k) (l.len / 2)
    then some (pos_part k)
    else some (length l.vals - 1 - (l.len - 1 - pos_part k))

-- The value of a node.
unfoldable pub value_at : DoubleList → ℕ → Option Bytes
value_at l i = get_elem? l.vals i

-- The loop of `Pos`; `none` is -1.
unfoldable pub pos_loop : Bytes → List Bytes → ℕ → Option ℕ
pos_loop val [] i = none
pos_loop val (v ∷ rest) i = if eqb v val then some i else pos_loop val rest (i + 1)

unfoldable pub position : DoubleList → Bytes → Option ℕ
unfolding pos_loop
position l val = pos_loop val l.vals 0

unfoldable pub lpush : DoubleList → Bytes → DoubleList
lpush l val = record { vals = val ∷ l.vals; len = l.len + 1 }

unfoldable pub rpush : DoubleList → Bytes → DoubleList
rpush l val = record { vals = l.vals ++ val ∷ []; len = l.len + 1 }

-- `LPop`: the value of the node that is taken out. A counter that is not 0 over no nodes would
-- unlink a sentinel; `Laws.IsValid` excludes it.
unfoldable pub lpop : DoubleList → DoubleList × Option Bytes
lpop l = if l.len == 0 then (l, none) else elim l.vals [
  | [] ↦ (l, none)
  | v ∷ rest ↦ (record { vals = rest; len = l.len - 1 }, some v)
]

unfoldable pub rpop : DoubleList → DoubleList × Option Bytes
rpop l = if l.len == 0 then (l, none) else elim (reverse l.vals) [
  | [] ↦ (l, none)
  | v ∷ rest ↦ (record { vals = reverse rest; len = l.len - 1 }, some v)
]

-- `Set`: `false` if there is no such node.
unfoldable pub set : DoubleList → ℤ → Bytes → DoubleList × Bool
unfolding index
set l i val = elim (index l i) [
  | none ↦ (l, false)
  | some k ↦ (record l { vals = set_at l.vals k val }, true)
]

-- The loop of `Range`, at the node of place `i`.
unfoldable pub range_loop : List Bytes → ℕ → ℕ → ℕ → List Bytes
range_loop [] i start stop = []
range_loop (v ∷ rest) i start stop =
    let later = range_loop rest (i + 1) start stop in
    if leb i stop then (if leb start i then v ∷ later else later) else []

-- The bounds of `Range` and `Trim`, as places: `none` if they select nothing.
unfoldable pub bounds : ℕ → ℤ → ℤ → Option (ℕ × ℕ)
unfolding from_end
bounds len start stop =
    let s = from_end len start in
    let e = from_end len stop in
    if ltb_ℤ e s || leb_ℤ (pos len) s || ltb_ℤ e (pos 0)
    then none
    else some (
      (if ltb_ℤ s (pos 0) then 0 else pos_part s),
      (if leb_ℤ (pos len) e then len - 1 else pos_part e),
    )

-- `Range`: `none` is the nil slice.
unfoldable pub range : DoubleList → ℤ → ℤ → Option (List Bytes)
unfolding bounds range_loop
range l start stop = elim (bounds l.len start stop) [
  | none ↦ none
  | some (s, e) ↦ some (range_loop l.vals 0 s e)
]

unfoldable pub clear : DoubleList → DoubleList
clear l = if l.len == 0 then l else record { vals = []; len = 0 }

-- `Trim` finds the first and the last node to keep by a walk from the head and relinks them to the
-- sentinels, so what stands between them stays.
unfoldable pub trim : DoubleList → ℤ → ℤ → DoubleList
unfolding clear bounds range_loop
trim l start stop = if l.len == 0 then l else elim (bounds l.len start stop) [
  | none ↦ clear l
  | some (s, e) ↦ record { vals = range_loop l.vals 0 s e; len = e + 1 - s }
]

-- The walk of `RemoveElement`, which takes out at most `n` nodes with the value and counts them.
unfoldable pub remove_loop : Bytes → ℕ → List Bytes → List Bytes × ℕ
remove_loop val n [] = ([], 0)
remove_loop val zero (v ∷ rest) = (v ∷ rest, 0)
remove_loop val (suc n) (v ∷ rest) =
    let taken = remove_loop val n rest in
    let kept = remove_loop val (suc n) rest in
    if eqb v val then (taken.0, taken.1 + 1) else (v ∷ kept.0, kept.1)

-- From the head for a positive count, from the tail for a negative one, and all for 0. The smallest
-- int is its own negation, so nothing is removed for it.
unfoldable pub remove_element : DoubleList → Bytes → ℤ → DoubleList × ℕ
unfolding remove_loop
remove_element l val count =
    let forward = remove_loop val (if pos_part count == 0 then l.len else pos_part count) l.vals in
    let backward = remove_loop val (pos_part (wrap64 (pos 0 -ℤ count))) (reverse l.vals) in
    if l.len == 0
    then (l, 0)
    else if leb_ℤ (pos 0) count
    then (record { vals = forward.0; len = l.len - forward.1 }, forward.1)
    else (record { vals = reverse backward.0; len = l.len - backward.1 }, backward.1)

-- The loop of `InsertBefore` and `InsertAfter`: the list with `val` beside the first `tar`.
unfoldable pub insert_before : DoubleList → Bytes → Bytes → DoubleList × Option ℕ
unfolding pos_loop
insert_before l val tar = elim (pos_loop tar l.vals 0) [
  | none ↦ (l, none)
  | some i ↦ (record { vals = take i l.vals ++ val ∷ drop i l.vals; len = l.len + 1 }, some i)
]

unfoldable pub insert_after : DoubleList → Bytes → Bytes → DoubleList × Option ℕ
unfolding pos_loop
insert_after l val tar = elim (pos_loop tar l.vals 0) [
  | none ↦ (l, none)
  | some i ↦ (
    record { vals = take (i + 1) l.vals ++ val ∷ drop (i + 1) l.vals; len = l.len + 1 },
    some (i + 1),
  )
]
