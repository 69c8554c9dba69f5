-- ===== src/Sets/Laws.antt =====
-- The sets of pkg/memdb/set_struct.go against the sets of their members: each operation by what it
-- holds, and that the counter stays the number of members.
use tinyredis.Prelude.{
  ℕ, suc, ◌+◌, ◌==◌, ◌≡◌, refl, sym, ap, ◌∙◌, ==_iff, some, get_elem?, Bool, true, false, not, List,
  [], ◌∷◌, arith, Bytes, if◌then◌else◌, ltb, ◌&&◌, ◌||◌, length, eqb, eqb_iff, Bool-cases, inl, inr,
}
use tinyredis.Value.{SetTable}
use tinyredis.Sets.{
  new_set, contains, without_member, add, remove, has, add_all, union_loop, union, smallest_of,
  in_others, intersect_loop, intersect, remove_all, difference_loop, difference,
}

-- No member stands twice in the table.
abbrev pub Unique : List Bytes → Type 0
Unique [] = Unit
Unique (key ∷ rest) = (contains key rest ≡ false) × Unique rest

-- The counter is the number of members.
pub record IsValid (s : SetTable) : Type 0 where
  pub unique : Unique s.table
  pub counted : s.size ≡ length s.table

pub new_set-IsValid : IsValid new_set
new_set-IsValid = record { unique = tt; counted = refl }

contains-without_member :
    (k j : Bytes) (l : List Bytes) → contains j (without_member k l) ≡ contains j l && not (eqb k j)
unfolding contains without_member
contains-without_member k j [] = refl
contains-without_member k j (i ∷ l) =
    ground (arith, eqb_iff i k, eqb_iff i j, eqb_iff k j, contains-without_member k j l)

without_member_absent : (k : Bytes) (l : List Bytes) → contains k l ≡ false → without_member k l ≡ l
unfolding contains without_member
without_member_absent k [] h = refl
without_member_absent k (i ∷ l) h = ground (arith, without_member_absent k l)

without_member-Unique : (k : Bytes) (l : List Bytes) → Unique l → Unique (without_member k l)
unfolding without_member
without_member-Unique k [] h = tt
without_member-Unique k (i ∷ l) h =
    ground (arith, contains-without_member k i l, without_member-Unique k l h.1)

length-without_member :
    (k : Bytes) (l : List Bytes)
    → Unique l
    → contains k l ≡ true
    → length (without_member k l) + 1 ≡ length l
unfolding contains without_member
length-without_member k [] u h = cc
length-without_member k (i ∷ l) u h =
    ground (arith, eqb_iff i k, without_member_absent k l, length-without_member k l u.1)

pub has-add : (s : SetTable) (k j : Bytes) → has (add s k).0 j ≡ eqb k j || has s j
unfolding has add contains
has-add s k j = ground (arith, eqb_iff k j)

pub has-remove : (s : SetTable) (k j : Bytes) → has (remove s k).0 j ≡ has s j && not (eqb k j)
unfolding has remove
has-remove s k j = ground (arith, eqb_iff k j, contains-without_member k j s.table)

pub add-IsValid : (s : SetTable) (k : Bytes) → IsValid s → IsValid (add s k).0
unfolding add
add-IsValid s k h = ground arith

pub remove-IsValid : (s : SetTable) (k : Bytes) → IsValid s → IsValid (remove s k).0
unfolding remove
remove-IsValid s k h =
    ground
      (arith, without_member-Unique k s.table h.unique, length-without_member k s.table h.unique)

add_all-IsValid : (s : SetTable) (l : List Bytes) → IsValid s → IsValid (add_all s l)
unfolding add_all
add_all-IsValid s [] h = h
add_all-IsValid s (k ∷ l) h = add_all-IsValid (add s k).0 l (add-IsValid s k h)

remove_all-IsValid : (s : SetTable) (l : List Bytes) → IsValid s → IsValid (remove_all s l)
unfolding remove_all
remove_all-IsValid s [] h = h
remove_all-IsValid s (k ∷ l) h = remove_all-IsValid (remove s k).0 l (remove-IsValid s k h)

has-add_all :
    (s : SetTable) (l : List Bytes) (j : Bytes) → has (add_all s l) j ≡ has s j || contains j l
unfolding add_all contains
has-add_all s [] j = ground arith
has-add_all s (k ∷ l) j = ground (arith, has-add_all (add s k).0 l j, has-add s k j)

has-remove_all :
    (s : SetTable) (l : List Bytes) (j : Bytes)
    → has (remove_all s l) j ≡ has s j && not (contains j l)
unfolding remove_all contains
has-remove_all s [] j = ground arith
has-remove_all s (k ∷ l) j = ground (arith, has-remove_all (remove s k).0 l j, has-remove s k j)

-- Whether a key is in one of the sets.
unfoldable pub in_any : Bytes → List SetTable → Bool
in_any key [] = false
in_any key (s ∷ rest) = has s key || in_any key rest

has-union_loop :
    (s : SetTable) (sets : List SetTable) (j : Bytes)
    → has (union_loop s sets) j ≡ has s j || in_any j sets
unfolding union_loop in_any has
has-union_loop s [] j = ground arith
has-union_loop s (t ∷ sets) j =
    ground (arith, has-union_loop (add_all s t.table) sets j, has-add_all s t.table j)

pub has-union :
    (s : SetTable) (sets : List SetTable) (j : Bytes)
    → has (union s sets) j ≡ has s j || in_any j sets
unfolding union has
has-union s sets j = has-union_loop (record { table = s.table; size = length s.table }) sets j

has-difference_loop :
    (s : SetTable) (sets : List SetTable) (j : Bytes)
    → has (difference_loop s sets) j ≡ has s j && not (in_any j sets)
unfolding difference_loop in_any has
has-difference_loop s [] j = ground arith
has-difference_loop s (t ∷ sets) j =
    ground (arith, has-difference_loop (remove_all s t.table) sets j, has-remove_all s t.table j)

pub has-difference :
    (s : SetTable) (sets : List SetTable) (j : Bytes)
    → has (difference s sets) j ≡ has s j && not (in_any j sets)
unfolding difference has contains
has-difference s sets j =
    ground
      (arith, has-difference_loop (add_all new_set s.table) sets j, has-add_all new_set s.table j)

-- Whether a key is in every one of the sets.
unfoldable pub in_every : Bytes → List SetTable → Bool
in_every key [] = true
in_every key (s ∷ rest) = has s key && in_every key rest

has-intersect_loop :
    (s : SetTable) (sets : List SetTable) (place : ℕ) (l : List Bytes) (j : Bytes)
    → has (intersect_loop s sets place l) j
      ≡ contains j l && (((place == 0) || has s j) && in_others j place 1 sets)
unfolding intersect_loop has contains
has-intersect_loop s sets place [] j = refl
has-intersect_loop s sets place (k ∷ l) j =
    ground (arith, eqb_iff k j, has-intersect_loop s sets place l j)

in_smallest :
    (place : ℕ) (s : SetTable) (i : ℕ) (sets : List SetTable) (j : Bytes)
    → has s j ≡ true
    → in_every j sets ≡ true
    → has (smallest_of place s i sets).1 j ≡ true
unfolding smallest_of in_every
in_smallest place s i [] j h a = h
in_smallest place s i (t ∷ sets) j h a =
    in_smallest (if ltb t.size s.size then i else place) (if ltb t.size s.size then t else s)
      (suc i) sets j (ground arith) (ground arith)

-- The smallest set stands at its place.
smallest_of-place :
    (all : List SetTable) (place : ℕ) (least : SetTable) (i : ℕ) (rest : List SetTable)
    → get_elem? all place ≡ some least
    → ((k : ℕ) → get_elem? all (i + k) ≡ get_elem? rest k)
    → get_elem? all (smallest_of place least i rest).0 ≡ some (smallest_of place least i rest).1
unfolding smallest_of
smallest_of-place all place least i [] at from = at
smallest_of-place all place least i (s ∷ rest) at from =
    smallest_of-place all (if ltb s.size least.size then i else place)
      (if ltb s.size least.size then s else least) (suc i) rest (ground (arith, from 0))
      (λ k.
        let moved : suc i + k ≡ i + suc k = omega arith in ap (get_elem? all) moved ∙ from (suc k))

-- Passing over a set that has the key changes nothing.
in_others-every :
    (place i : ℕ) (sets : List SetTable) (j : Bytes)
    → ((k : ℕ) (t : SetTable) → place ≡ i + k → get_elem? sets k ≡ some t → has t j ≡ true)
    → in_others j place i sets ≡ in_every j sets
unfolding in_others in_every
in_others-every place i [] j h = refl
in_others-every place i (t ∷ sets) j h =
    let rest = in_others-every place (suc i) sets j (λ k u e at. h (suc k) u (omega arith) at) in
    elim (Bool-cases (i == place)) [
      | inl here ↦ let there : has t j ≡ true = h 0 t (ground arith) refl in rw (here, there) rest
      | inr other ↦ rw (other, rest) refl
    ]

-- The set at the place of the smallest one is the smallest one.
first_has :
    (s : SetTable) (sets : List SetTable) (j : Bytes) (place : ℕ) (least : SetTable)
    → place ≡ 0
    → get_elem? (s ∷ sets) place ≡ some least
    → contains j least.table ≡ true
    → has s j ≡ true
unfolding has
first_has s sets j place least e at found =
    let at0 : some s ≡ some least = ap (get_elem? (s ∷ sets)) (sym e) ∙ at in
    let same : s ≡ least = cc at0 in ap (λ t. contains j t.table) same ∙ found

other_has :
    (s : SetTable) (sets : List SetTable) (j : Bytes) (place : ℕ) (least : SetTable) (k : ℕ)
    (u : SetTable)
    → place ≡ 1 + k
    → get_elem? sets k ≡ some u
    → get_elem? (s ∷ sets) place ≡ some least
    → contains j least.table ≡ true
    → has u j ≡ true
unfolding has
other_has s sets j place least k u e there at found =
    let e' : place ≡ suc k = omega arith in
    let at' : some u ≡ some least = sym there ∙ ap (get_elem? (s ∷ sets)) (sym e') ∙ at in
    let same : u ≡ least = cc at' in ap (λ t. contains j t.table) same ∙ found

-- What the loops ask of a key of the smallest set, which is not asked again, is that all have it.
passed_over :
    (s : SetTable) (sets : List SetTable) (j : Bytes) (place : ℕ) (least : SetTable)
    → get_elem? (s ∷ sets) place ≡ some least
    → (has s j ≡ true → in_every j sets ≡ true → has least j ≡ true)
    → contains j least.table && (((place == 0) || has s j) && in_others j place 1 sets)
      ≡ has s j && in_every j sets
unfolding has
passed_over s sets j place least at h = elim (Bool-cases (contains j least.table)) [
  | inl found ↦
      let first : place ≡ 0 → has s j ≡ true = λ e. first_has s sets j place least e at found in
      let others =
        in_others-every place 1 sets j
          (λ k u here there. other_has s sets j place least k u here there at found) in
      ground (arith, ==_iff place 0)
  | inr absent ↦ ground arith
]

pub has-intersect :
    (s : SetTable) (sets : List SetTable) (j : Bytes)
    → has (intersect s sets) j ≡ has s j && in_every j sets
unfolding intersect has in_every
has-intersect s [] j = ground arith
has-intersect s (t ∷ sets) j =
    let place = (smallest_of 0 s 1 (t ∷ sets)).0 in
    let least = (smallest_of 0 s 1 (t ∷ sets)).1 in
    let at : get_elem? (s ∷ t ∷ sets) place ≡ some least =
      smallest_of-place (s ∷ t ∷ sets) 0 s 1 (t ∷ sets) refl
        (λ k. let next : 1 + k ≡ suc k = omega arith in ap (get_elem? (s ∷ t ∷ sets)) next) in
    has-intersect_loop s (t ∷ sets) place least.table j
    ∙ passed_over s (t ∷ sets) j place least at (in_smallest 0 s 1 (t ∷ sets) j)

abbrev pub AllValid : List SetTable → Type 0
AllValid [] = Unit
AllValid (s ∷ rest) = IsValid s × AllValid rest

copy-IsValid :
    (s : SetTable) → IsValid s → IsValid (record { table = s.table; size = length s.table })
copy-IsValid s h = record { unique = h.unique; counted = refl }

union_loop-IsValid : (s : SetTable) (sets : List SetTable) → IsValid s → IsValid (union_loop s sets)
unfolding union_loop
union_loop-IsValid s [] h = h
union_loop-IsValid s (t ∷ sets) h =
    union_loop-IsValid (add_all s t.table) sets (add_all-IsValid s t.table h)

pub union-IsValid : (s : SetTable) (sets : List SetTable) → IsValid s → IsValid (union s sets)
unfolding union
union-IsValid s sets h = union_loop-IsValid _ sets (copy-IsValid s h)

difference_loop-IsValid :
    (s : SetTable) (sets : List SetTable) → IsValid s → IsValid (difference_loop s sets)
unfolding difference_loop
difference_loop-IsValid s [] h = h
difference_loop-IsValid s (t ∷ sets) h =
    difference_loop-IsValid (remove_all s t.table) sets (remove_all-IsValid s t.table h)

pub difference-IsValid : (s : SetTable) (sets : List SetTable) → IsValid (difference s sets)
unfolding difference
difference-IsValid s sets =
    difference_loop-IsValid (add_all new_set s.table) sets
      (add_all-IsValid new_set s.table new_set-IsValid)

smallest_of-IsValid :
    (place : ℕ) (s : SetTable) (i : ℕ) (sets : List SetTable)
    → IsValid s
    → AllValid sets
    → IsValid (smallest_of place s i sets).1
unfolding smallest_of
smallest_of-IsValid place s i [] h a = h
smallest_of-IsValid place s i (t ∷ sets) h a = elim (Bool-cases (ltb t.size s.size)) [
  | inl less ↦ rw (smallest_of, less) (smallest_of-IsValid i t (suc i) sets a.0 a.1)
  | inr more ↦ rw (smallest_of, more) (smallest_of-IsValid place s (suc i) sets h a.1)
]

intersect_loop-IsValid :
    (s : SetTable) (sets : List SetTable) (place : ℕ) (l : List Bytes)
    → Unique l
    → IsValid (intersect_loop s sets place l)
unfolding intersect_loop
intersect_loop-IsValid s sets place [] u = new_set-IsValid
intersect_loop-IsValid s sets place (k ∷ l) u =
    let rest = intersect_loop-IsValid s sets place l u.1 in
    let absent : contains k (intersect_loop s sets place l).table ≡ false =
      unfold has in ground (arith, has-intersect_loop s sets place l k) in
    elim (Bool-cases (((place == 0) || has s k) && in_others k place 1 sets)) [
      | inl both ↦
          rw both
            (record { unique = (absent, rest.unique); counted = ground (arith, rest.counted) })
      | inr other ↦ rw other rest
    ]

pub intersect-IsValid :
    (s : SetTable) (sets : List SetTable) → IsValid s → AllValid sets → IsValid (intersect s sets)
unfolding intersect
intersect-IsValid s [] h a = copy-IsValid s h
intersect-IsValid s (t ∷ sets) h a =
    intersect_loop-IsValid s (t ∷ sets) (smallest_of 0 s 1 (t ∷ sets)).0 _
      (smallest_of-IsValid 0 s 1 (t ∷ sets) h a).unique

-- Of sets without repeated members whose counters are right, `Union` has the members that one of
-- them has, `Difference` those of the first that no other has, and `Intersect` those that all
-- have, although it looks for the members of the smallest set in the other ones alone; each result
-- has no repeated member and a right counter.
pub set_operations :
    (s : SetTable) (sets : List SetTable) (j : Bytes)
    → IsValid s
    → AllValid sets
    → (IsValid (union s sets) × (has (union s sets) j ≡ has s j || in_any j sets))
      × (IsValid (difference s sets) × (has (difference s sets) j ≡ has s j && not (in_any j sets)))
      × (IsValid (intersect s sets) × (has (intersect s sets) j ≡ has s j && in_every j sets))
set_operations s sets j h a = (
  (union-IsValid s sets h, has-union s sets j),
  (difference-IsValid s sets, has-difference s sets j),
  (intersect-IsValid s sets h a, has-intersect s sets j),
)
