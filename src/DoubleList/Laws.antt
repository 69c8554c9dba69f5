-- ===== src/DoubleList/Laws.antt =====
-- Every operation of pkg/memdb/list_struct.go keeps the counter right, and `Index` finds the node
-- that its argument names, from whichever end it walks.
use tinyredis.Prelude.{
  ℕ, ◌-◌, ◌≡◌, refl, sym, Option, none, some, List, [], ◌∷◌, reverse, arith, Bytes, if◌then◌else◌,
  length, length-append, length-reverse, length-set, Bool-cases, Option-cases, inl, inr, get_elem?,
  ltb, ltb→lt, get_elem?-of_le, get_elem?-reverse,
}
use mathlib.Core.List.{reverse-append, reverse-reverse}
use tinyredis.Prelude.Int.{ℤ, pos, negsuc, ◌+ℤ◌}
use tinyredis.DoubleList.{DoubleList, index, value_at, lpush, rpush, lpop, rpop, set}

-- The counter is the number of nodes.
pub record IsValid (l : DoubleList) : Type 0 where
  pub counted : l.len ≡ length l.vals

-- The element that an index of Redis names: from the front, or from the back if it is negative.
abbrev pub nth : List Bytes → ℤ → Option Bytes
nth vals (pos i) = get_elem? vals i
nth vals (negsuc i) = get_elem? (reverse vals) i

pub lpush-IsValid : (l : DoubleList) (v : Bytes) → IsValid l → IsValid (lpush l v)
unfolding lpush
lpush-IsValid l v h = omega arith

pub rpush-IsValid : (l : DoubleList) (v : Bytes) → IsValid l → IsValid (rpush l v)
unfolding rpush
rpush-IsValid l v h = omega (arith, length-append l.vals (v ∷ []))

pub lpop-IsValid : (l : DoubleList) → IsValid l → IsValid (lpop l).0
unfolding lpop
lpop-IsValid l h = ground arith

pub set-IsValid : (l : DoubleList) (i : ℤ) (v : Bytes) → IsValid l → IsValid (set l i v).0
unfolding set
set-IsValid l i v h = elim (Option-cases (index l i)) [
  | inl e ↦ rw (e, set) h
  | inr (k, e) ↦ ground (arith, length-set l.vals k v)
]

-- On a list whose counter is right, `RPop` after `RPush` gives the pushed value and the list as it
-- was.
pub rpop-rpush : (l : DoubleList) (v : Bytes) → IsValid l → rpop (rpush l v) ≡ (l, some v)
unfolding rpop rpush
rpop-rpush l v h = ground (arith, reverse-append l.vals (v ∷ []), reverse-reverse l.vals)

pub lpop-lpush : (l : DoubleList) (v : Bytes) → lpop (lpush l v) ≡ (l, some v)
unfolding lpop lpush
lpop-lpush l v = ground arith

pub rpop-IsValid : (l : DoubleList) → IsValid l → IsValid (rpop l).0
unfolding rpop
rpop-IsValid l h = popped (reverse l.vals) refl
  where
    popped : (r : List Bytes) → reverse l.vals ≡ r → IsValid (rpop l).0
    popped [] e = ground arith
    popped (v ∷ rest) e = ground (arith, length-reverse l.vals, length-reverse rest)

index_pos :
    (l : DoubleList) (i : ℕ)
    → IsValid l
    → index l (pos i) ≡ (if ltb i (length l.vals) then some i else none)
unfolding index
index_pos l i h = ground arith

index_negsuc :
    (l : DoubleList) (i : ℕ)
    → IsValid l
    → index l (negsuc i) ≡ (if ltb i (length l.vals) then some (length l.vals - 1 - i) else none)
unfolding index ◌+ℤ◌
index_negsuc l i h = ground arith

-- On a list whose counter is right, `Index` finds the node whose value stands at the index,
-- counted from the front, or from the back for a negative index, from whichever end it walks; and
-- it finds none where there is no such value.
pub value_at-index :
    (l : DoubleList) (i : ℤ)
    → IsValid l
    → elim (index l i) [ none ↦ none | some k ↦ value_at l k ] ≡ nth l.vals i
unfolding value_at
value_at-index l (pos i) h = elim (Bool-cases (ltb i (length l.vals))) [
  | inl inside ↦ rw (index_pos l i h, inside)
  | inr outside ↦ rw (index_pos l i h, outside) (sym (get_elem?-of_le l.vals i (ground arith)))
]
value_at-index l (negsuc i) h = elim (Bool-cases (ltb i (length l.vals))) [
  | inl inside ↦
      rw (index_negsuc l i h, inside)
        (sym (get_elem?-reverse l.vals i (ltb→lt i (length l.vals) inside)))
  | inr outside ↦
      rw (index_negsuc l i h, outside)
        (sym (get_elem?-of_le (reverse l.vals) i (ground (arith, length-reverse l.vals))))
]
