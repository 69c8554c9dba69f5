-- ===== src/Ttl/Index.antt =====
-- The index in every item of a TTL shard (`item.index` of pkg/memdb/db.go): the heap has the item's key
-- there, which `Swap` and `Push` see to and heap.Fix and heap.Remove rely on.
use tinyredis.Prelude.{
  ℕ, zero, suc, ◌+◌, ◌-◌, ◌*◌, ◌/◌, ◌<◌, ◌≤◌, ◌≡◌, ◌≢◌, refl, sym, ap, ◌∙◌, not, false, Option,
  none, some, List, [], ◌∷◌, ◌++◌, arith, Bytes, eqb, eqb_iff, if◌then◌else◌, ltb, leb, ◌==◌,
  ==_iff, length, ◌||◌, find, find-replace, Bool-cases, Option-cases, inl, inr, get_elem?, take,
  set as set_at, get_elem?-set_if, get_elem?-of_lt, length-set,
}
use tinyredis.Prelude.Int.{ℤ}
use tinyredis.Ttl.Heap.{
  TtlItem, TtlShard, key_at, set_index, swap, up, down, sift, push, less, smaller_child, remove_at,
  drop_last,
}

-- The index of the item of a key.
abbrev pub place : List (Bytes × TtlItem) → Bytes → Option ℕ
place items k = elim (find k items) [ none ↦ none | some item ↦ some item.index ]

-- The heap has every key at the index of its item.
abbrev pub Placed : TtlShard → Type 0
Placed s = (k : Bytes) (p : ℕ) → place s.items k ≡ some p → get_elem? s.heap p ≡ some k

module _ {ℓ} {A : Type ℓ} where
  pub lt-get_elem? : (xs : List A) (i : ℕ) (a : A) → get_elem? xs i ≡ some a → i < length xs
  lt-get_elem? [] i a h = cc h
  lt-get_elem? (x ∷ xs) zero a h = omega arith
  lt-get_elem? (x ∷ xs) (suc i) a h = omega (arith, lt-get_elem? xs i a h)

  pub get_elem?-take :
      (n : ℕ) (xs : List A) (i : ℕ) → i < n → get_elem? (take n xs) i ≡ get_elem? xs i
  get_elem?-take zero xs i h = elim h [ ]
  get_elem?-take (suc n) [] i h = refl
  get_elem?-take (suc n) (x ∷ xs) zero h = refl
  get_elem?-take (suc n) (x ∷ xs) (suc i) h = get_elem?-take n xs i (omega arith)

  get_elem?-append :
      (xs ys : List A) (i : ℕ) → i < length xs → get_elem? (xs ++ ys) i ≡ get_elem? xs i
  get_elem?-append [] ys i h = elim h [ ]
  get_elem?-append (x ∷ xs) ys zero h = refl
  get_elem?-append (x ∷ xs) ys (suc i) h = get_elem?-append xs ys i (omega arith)

  get_elem?-snoc : (xs : List A) (a : A) → get_elem? (xs ++ a ∷ []) (length xs) ≡ some a
  get_elem?-snoc [] a = refl
  get_elem?-snoc (x ∷ xs) a = get_elem?-snoc xs a

  length-snoc : (xs : List A) (a : A) → length (xs ++ a ∷ []) ≡ length xs + 1
  length-snoc [] a = refl
  length-snoc (x ∷ xs) a = omega (arith, length-snoc xs a)

place-set_index :
    (c k : Bytes) (i : ℕ) (items : List (Bytes × TtlItem))
    → place (set_index c i items) k
      ≡ (if eqb c k then elim (place items k) [ none ↦ none | some _ ↦ some i ] else place items k)
unfolding set_index
place-set_index c k i items = elim (Option-cases (find c items)) [
  | inl e ↦ rw (e, set_index) (ground (arith, eqb_iff c k))
  | inr (item, e) ↦
      rw (e, set_index)
        (ground (arith, find-replace c k (record item { index = i }) items, eqb_iff c k))
]

pub at_key : (s : TtlShard) (i : ℕ) → i < length s.heap → get_elem? s.heap i ≡ some (key_at s i)
unfolding key_at
at_key s i h = let (k, e) = get_elem?-of_lt s.heap i h in ground (arith, e)

-- What the functions of the heap keep that move items below place `n`: the indices, the length, and
-- what stands from `n` on.
pub record Moves (n : ℕ) (s s' : TtlShard) : Type 0 where
  pub placed : Placed s → Placed s'
  pub same_length : length s'.heap ≡ length s.heap
  pub above : (q : ℕ) → n ≤ q → get_elem? s'.heap q ≡ get_elem? s.heap q

pub Moves-refl : (n : ℕ) (s : TtlShard) → Moves n s s
Moves-refl n s = record { placed = λ p. p; same_length = refl; above = λ q h. refl }

pub Moves-trans : {n : ℕ} {s t u : TtlShard} → Moves n s t → Moves n t u → Moves n s u
Moves-trans p q = record {
  placed = λ h. q.placed (p.placed h);
  same_length = q.same_length ∙ p.same_length;
  above = λ i h. q.above i h ∙ p.above i h;
}

-- The heap after `Swap`, place by place.
heap-swap :
    (s : TtlShard) (i j q : ℕ)
    → i < length s.heap
    → j < length s.heap
    → get_elem? (swap s i j).heap q ≡ (
        if j == q
        then some (key_at s i)
        else if i == q
        then some (key_at s j)
        else get_elem? s.heap q)
unfolding swap
heap-swap s i j q hi hj =
    let bound : j < length (set_at s.heap i (key_at s j)) =
      omega (arith, length-set s.heap i (key_at s j)) in
    get_elem?-set_if (set_at s.heap i (key_at s j)) j q (key_at s i) bound
    ∙ rw (get_elem?-set_if s.heap i q (key_at s j) hi) refl

swap-Placed :
    (s : TtlShard) (i j : ℕ)
    → i < length s.heap
    → j < length s.heap
    → Placed s
    → Placed (swap s i j)
unfolding swap
swap-Placed s i j hi hj h k p e =
    let outer = place-set_index (key_at s i) k j (set_index (key_at s j) i s.items) in
    let inner = place-set_index (key_at s j) k i s.items in
    heap-swap s i j p hi hj
    ∙ ground (
      arith,
      outer,
      inner,
      at_key s i hi,
      at_key s j hj,
      h k p,
      eqb_iff (key_at s i) k,
      eqb_iff (key_at s j) k,
    )

pub Moves-swap :
    (n : ℕ) (s : TtlShard) (i j : ℕ) → i < n → j < n → n ≤ length s.heap → Moves n s (swap s i j)
Moves-swap n s i j hi hj hn = record {
  placed = swap-Placed s i j (omega arith) (omega arith);
  same_length = unfold swap in length-set _ j _ ∙ length-set s.heap i _;
  above =
      λ q h. heap-swap s i j q (omega arith) (omega arith) ∙ ground (arith, ==_iff j q, ==_iff i q);
}

pub Moves-up :
    (n fuel : ℕ) (s : TtlShard) (j : ℕ) → j < n → n ≤ length s.heap → Moves n s (up fuel s j)
unfolding up
Moves-up n zero s j hj hn = Moves-refl n s
Moves-up n (suc fuel) s j hj hn =
    let i = (j - 1) / 2 in
    let swapped = Moves-swap n s i j (omega arith) hj hn in
    elim (Bool-cases ((i == j) || not (less s j i))) [
      | inl stop ↦ rw stop (Moves-refl n s)
      | inr go ↦ rw go (
          Moves-trans swapped
            (Moves-up n fuel (swap s i j) i (omega arith) (omega (arith, swapped.same_length))))
    ]

smaller_child_lt : (s : TtlShard) (i n : ℕ) → leb n (2 * i + 1) ≡ false → smaller_child s i n < n
unfolding smaller_child
smaller_child_lt s i n h = ground arith

pub Moves-down :
    (fuel : ℕ) (s : TtlShard) (i n : ℕ) → i < n → n ≤ length s.heap → Moves n s (down fuel s i n).0
unfolding down
Moves-down zero s i n hi hn = Moves-refl n s
Moves-down (suc fuel) s i n hi hn =
    let j = smaller_child s i n in
    elim (Bool-cases (leb n (2 * i + 1))) [
      | inl leaf ↦ rw leaf (Moves-refl n s)
      | inr inner ↦
          let below = smaller_child_lt s i n inner in
          let swapped = Moves-swap n s i j hi below hn in
          elim (Bool-cases (less s j i)) [
            | inl go ↦
                rw (inner, go)
                  (Moves-trans swapped
                    (Moves-down fuel (swap s i j) j n below (omega (arith, swapped.same_length))))
            | inr stop ↦ rw (inner, stop) (Moves-refl n s)
          ]
    ]

pub Moves-sift : (s : TtlShard) (i n : ℕ) → i < n → n ≤ length s.heap → Moves n s (sift s i n)
unfolding sift
Moves-sift s i n hi hn =
    let (s', i') = down (length s.heap) s i n in
    let sunk = Moves-down (length s.heap) s i n hi hn in
    elim (Bool-cases (ltb i i')) [
      | inl moved ↦ rw moved sunk
      | inr still ↦
          rw still (
            Moves-trans sunk (Moves-up n (length s.heap) s' i hi (omega (arith, sunk.same_length))))
    ]

-- An item that is new stands at the end of the heap.
put_last :
    (s : TtlShard) (k : Bytes) (e : ℤ) (j : Bytes) (p : ℕ)
    → Placed s
    → place ((k, record { expire_at = e; index = length s.heap }) ∷ s.items) j ≡ some p
    → get_elem? (s.heap ++ k ∷ []) p ≡ some j
unfolding find
put_last s k e j p h at = elim (Bool-cases (eqb k j)) [
  | inl same ↦
      let last : length s.heap ≡ p = ground arith in
      ap (get_elem? (s.heap ++ k ∷ [])) (sym last)
      ∙ get_elem?-snoc s.heap k
      ∙ ap some ((eqb_iff k j).0 same)
  | inr other ↦
      let old : get_elem? s.heap p ≡ some j = h j p (ground arith) in
      get_elem?-append s.heap (k ∷ []) p (lt-get_elem? s.heap p j old) ∙ old
]

pub push-Placed : (s : TtlShard) (k : Bytes) (e : ℤ) → Placed s → Placed (push s k e)
unfolding push
push-Placed s k e h =
    let n = length s.heap in
    let item : TtlItem = record { expire_at = e; index = n } in
    let s' : TtlShard = record { heap = s.heap ++ k ∷ []; items = (k, item) ∷ s.items } in
    let longer = length-snoc s.heap k in
    (Moves-up (n + 1) (n + 1) s' n (omega arith) (omega (arith, longer))).placed
      (λ j p at. put_last s k e j p h at)

-- Every key but `r` stands at the index of its item.
abbrev pub PlacedBut : Bytes → TtlShard → Type 0
PlacedBut r s =
    (k : Bytes) (p : ℕ) → eqb r k ≡ false → place s.items k ≡ some p → get_elem? s.heap p ≡ some k

-- When the last place goes, its key alone loses its place.
drop_last-Placed :
    (s : TtlShard) (n : ℕ) (r : Bytes)
    → length s.heap ≡ n + 1
    → get_elem? s.heap n ≡ some r
    → Placed s
    → PlacedBut r (drop_last s)
unfolding drop_last
drop_last-Placed s n r len last h k p other at =
    let old = h k p at in
    let below = lt-get_elem? s.heap p k old in
    let apart : p ≢ n = λ e.
      let same : some k ≡ some r = sym old ∙ ap (get_elem? s.heap) e ∙ last in
      ground (arith, eqb_iff r k) in
    get_elem?-take (length s.heap - 1) s.heap p (omega arith) ∙ old

-- heap.Remove takes the item out that stands at place `i`.
pub remove_at-Placed :
    (s : TtlShard) (i : ℕ) → i < length s.heap → Placed s → PlacedBut (key_at s i) (remove_at s i)
unfolding remove_at
remove_at-Placed s i hi h =
    let n = length s.heap - 1 in
    elim (Bool-cases (n == i)) [
      | inl last ↦
          let end : i ≡ n = ground arith in
          rw last (
            drop_last-Placed s n (key_at s i) (omega arith)
              (ap (get_elem? s.heap) (sym end) ∙ at_key s i hi) h)
      | inr inner ↦
          let below : i < n = ground arith in
          let swapped = Moves-swap (n + 1) s i n (omega arith) (omega arith) (omega arith) in
          let sifted = Moves-sift (swap s i n) i n below (omega (arith, swapped.same_length)) in
          let at_end : get_elem? (swap s i n).heap n ≡ some (key_at s i) =
            heap-swap s i n n hi (omega arith) ∙ ground (arith, ==_iff n n) in
          rw inner (
            drop_last-Placed (sift (swap s i n) i n) n (key_at s i)
              (omega (arith, swapped.same_length, sifted.same_length))
              (sifted.above n (omega arith) ∙ at_end) (sifted.placed (swapped.placed h)))
    ]
