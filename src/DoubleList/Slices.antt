-- ===== src/DoubleList/Slices.antt =====
-- `Range`, `Trim` and `RemoveElement` of pkg/memdb/list_struct.go against slices and filters.
use tinyredis.Prelude.{
  ℕ, zero, suc, ◌+◌, ◌-◌, ◌≤◌, ◌<◌, ◌≡◌, refl, sym, ap, ◌∙◌, some, List, [], ◌∷◌, reverse, arith,
  Bytes, eqb, if◌then◌else◌, leb, ◌==◌, length, take, drop, length-take, length-drop,
  length-reverse, Bool-cases, Option-cases, inl, inr, leb→le, min,
}
use tinyredis.Prelude.Int.{ℤ, pos, ◌+ℤ◌, ◌-ℤ◌, wrap64, pos_part}
use tinyredis.DoubleList.{DoubleList, range_loop, bounds, trim, clear, remove_loop, remove_element}
use tinyredis.DoubleList.Laws.{IsValid}

take_none : (n : ℕ) (xs : List Bytes) → n ≡ 0 → take n xs ≡ []
take_none zero xs h = refl
take_none (suc n) xs h = absurd (omega arith)

take_some : (n m : ℕ) (x : Bytes) (xs : List Bytes) → n ≡ suc m → take n (x ∷ xs) ≡ x ∷ take m xs
take_some n m x xs h = rw h

drop_none : (n : ℕ) (xs : List Bytes) → n ≡ 0 → drop n xs ≡ xs
drop_none n xs h = rw h

drop_some : (n m : ℕ) (x : Bytes) (xs : List Bytes) → n ≡ suc m → drop n (x ∷ xs) ≡ drop m xs
drop_some n m x xs h = rw h

take-drop_nil : (n m : ℕ) → take {A = Bytes} n (drop m []) ≡ []
take-drop_nil zero m = refl
take-drop_nil (suc n) zero = refl
take-drop_nil (suc n) (suc m) = refl

same_place : (i start : ℕ) → i ≤ start → start ≤ i → i ≡ start
same_place i start h k = omega arith

-- The loop at the node of place `i`, before and inside the slice.
range_loop_inside :
    (vals : List Bytes) (i start stop : ℕ)
    → start ≤ i
    → range_loop vals i start stop ≡ take (stop + 1 - i) vals
unfolding range_loop
range_loop_inside [] i start stop h = sym (take-drop_nil (stop + 1 - i) 0)
range_loop_inside (v ∷ rest) i start stop h =
    let ih = range_loop_inside rest (i + 1) start stop (omega arith) in
    elim (Bool-cases (leb i stop)) [
      | inl more ↦
          ground (arith, ih, take_some (stop + 1 - i) (stop + 1 - (i + 1)) v rest (ground arith))
      | inr over ↦ ground (arith, take_none (stop + 1 - i) (v ∷ rest) (ground arith))
    ]

range_loop_before :
    (vals : List Bytes) (i start stop : ℕ)
    → i ≤ start
    → start ≤ stop
    → range_loop vals i start stop ≡ take (stop + 1 - start) (drop (start - i) vals)
unfolding range_loop
range_loop_before [] i start stop h k = sym (take-drop_nil (stop + 1 - start) (start - i))
range_loop_before (v ∷ rest) i start stop h k = elim (Bool-cases (leb start i)) [
  | inl there ↦
      range_loop_inside (v ∷ rest) i start stop (ground arith)
      ∙ ap (λ n. take (stop + 1 - n) (v ∷ rest)) (same_place i start h (leb→le start i there))
      ∙ ap (take (stop + 1 - start)) (sym (drop_none (start - i) (v ∷ rest) (ground arith)))
  | inr before ↦
      let ih = range_loop_before rest (i + 1) start stop (ground arith) k in
      ground (arith, ih, drop_some (start - i) (start - (i + 1)) v rest (ground arith))
]

-- The loop of `Range`, for places that do not cross, gives the slice of the values from the first
-- place to the last one, both included.
pub range_loop-eq-slice :
    (vals : List Bytes) (start stop : ℕ)
    → start ≤ stop
    → range_loop vals 0 start stop ≡ take (stop + 1 - start) (drop start vals)
range_loop-eq-slice vals start stop h =
    range_loop_before vals 0 start stop (omega arith) h
    ∙ ap (λ n. take (stop + 1 - start) (drop n vals)) (omega arith)

-- For a list that is not empty, the bounds that `Range` and `Trim` compute, where they select
-- something, do not cross and lie inside the list.
pub bounds_range :
    (len : ℕ) (start stop : ℤ) {s e : ℕ}
    → 0 < len
    → bounds len start stop ≡ some (s, e)
    → (s ≤ e) × (e < len)
unfolding bounds ◌+ℤ◌
bounds_range len start stop h b = ground arith

-- How often a value occurs.
pub occurrences : Bytes → List Bytes → ℕ
occurrences val [] = 0
occurrences val (v ∷ rest) = if eqb v val then occurrences val rest + 1 else occurrences val rest

-- The walk of `RemoveElement` takes out the smaller of its limit and the number of nodes with the
-- value, the other nodes stay in number, and the nodes with the value become fewer by what it
-- answers.
pub remove_loop_count :
    (val : Bytes) (n : ℕ) (vals : List Bytes)
    → ((remove_loop val n vals).1 ≡ min n (occurrences val vals))
      × (length (remove_loop val n vals).0 + (remove_loop val n vals).1 ≡ length vals)
      × (occurrences val (remove_loop val n vals).0 + (remove_loop val n vals).1
          ≡ occurrences val vals)
unfolding remove_loop occurrences
remove_loop_count val zero [] = ground arith
remove_loop_count val (suc n) [] = ground arith
remove_loop_count val zero (v ∷ rest) = ground arith
remove_loop_count val (suc n) (v ∷ rest) =
    ground (arith, remove_loop_count val n rest, remove_loop_count val (suc n) rest)

-- `Trim`, for any bounds, keeps the counter equal to the number of nodes.
pub trim-IsValid : (l : DoubleList) (start stop : ℤ) → IsValid l → IsValid (trim l start stop)
unfolding trim clear
trim-IsValid l start stop h = elim (Bool-cases (l.len == 0)) [
  | inl e ↦ rw e h
  | inr e ↦ elim (Option-cases (bounds l.len start stop)) [
    | inl nothing ↦ ground arith
    | inr (p, some_bounds) ↦
        let (s, stop') = p in
        let (le, lt) = bounds_range l.len start stop (ground arith) some_bounds in
        ground (
          arith,
          range_loop-eq-slice l.vals s stop' le,
          length-take (stop' + 1 - s) (drop s l.vals),
          length-drop s l.vals,
        )
  ]
]

-- `RemoveElement`, for any count, keeps the counter equal to the number of nodes.
pub remove_element-IsValid :
    (l : DoubleList) (val : Bytes) (count : ℤ) → IsValid l → IsValid (remove_element l val count).0
unfolding remove_element
remove_element-IsValid l val count h =
    let n = if pos_part count == 0 then l.len else pos_part count in
    let back = remove_loop val (pos_part (wrap64 (pos 0 -ℤ count))) (reverse l.vals) in
    ground (
      arith,
      remove_loop_count val n l.vals,
      remove_loop_count val (pos_part (wrap64 (pos 0 -ℤ count))) (reverse l.vals),
      length-reverse l.vals,
      length-reverse back.0,
    )
