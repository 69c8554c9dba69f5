-- ===== src/Sets.antt =====
-- pkg/memdb/set_struct.go: `Set`, a Go map from members to nothing with a counter. The table lists the
-- members of the map; the order in which Go visits a map is a parameter, `visit`, where it shows. The
-- random choices of `Random` are not modelled.
pub mod Laws
pub mod Commands
pub mod Members
pub mod Algebra
use tinyredis.Prelude.{
  ℕ, zero, suc, ◌+◌, ◌-◌, Bool, true, false, not, List, [], ◌∷◌, ◌++◌, Bytes, if◌then◌else◌, ltb,
  ◌==◌, ◌&&◌, ◌||◌, length, eqb,
}
use tinyredis.Value.{SetTable}

abbrev pub new_set : SetTable
new_set = record { table = []; size = 0 }

-- A key of a map.
unfoldable pub contains : Bytes → List Bytes → Bool
contains key [] = false
contains key (k ∷ rest) = eqb k key || contains key rest

-- `delete(table, key)`
unfoldable pub without_member : Bytes → List Bytes → List Bytes
without_member key [] = []
without_member key (k ∷ rest) =
    let rest' = without_member key rest in if eqb k key then rest' else k ∷ rest'

unfoldable pub add : SetTable → Bytes → SetTable × ℕ
unfolding contains
add s key =
    if contains key s.table
    then (s, 0)
    else (record { table = key ∷ s.table; size = s.size + 1 }, 1)

unfoldable pub remove : SetTable → Bytes → SetTable × ℕ
unfolding contains without_member
remove s key =
    if contains key s.table
    then (record { table = without_member key s.table; size = s.size - 1 }, 1)
    else (s, 0)

unfoldable pub has : SetTable → Bytes → Bool
unfolding contains
has s key = contains key s.table

-- `Pop`: the first member that is visited goes; the empty name if there is none.
unfoldable pub pop : (List Bytes → List Bytes) → SetTable → SetTable × Bytes
unfolding remove
pop visit s = elim (visit s.table) [ [] ↦ (s, []) | key ∷ _ ↦ ((remove s key).0, key) ]

unfoldable pub members : (List Bytes → List Bytes) → SetTable → List Bytes
members visit s = visit s.table

-- The loops of `Union` over the keys of one set, and over the sets.
unfoldable pub add_all : SetTable → List Bytes → SetTable
unfolding add
add_all res [] = res
add_all res (key ∷ rest) = add_all (add res key).0 rest

unfoldable pub union_loop : SetTable → List SetTable → SetTable
unfolding add_all
union_loop res [] = res
union_loop res (s ∷ rest) = union_loop (add_all res s.table) rest

unfoldable pub union : SetTable → List SetTable → SetTable
unfolding union_loop
union s sets = union_loop (record { table = s.table; size = length s.table }) sets

-- The loop of `Intersect` that looks for the smallest set, with its place: 0 for the set itself and
-- the others from 1 on. The place stands for the pointer that the source compares; a set that stands
-- twice is looked into a second time here, and has the key.
unfoldable pub smallest_of : ℕ → SetTable → ℕ → List SetTable → ℕ × SetTable
smallest_of place least i [] = (place, least)
smallest_of place least i (s ∷ rest) =
    let less = ltb s.size least.size in
    smallest_of (if less then i else place) (if less then s else least) (suc i) rest

-- The loop over the other sets, from place `i` on, which passes over the smallest one.
unfoldable pub in_others : Bytes → ℕ → ℕ → List SetTable → Bool
unfolding has
in_others key place i [] = true
in_others key place i (s ∷ rest) = ((i == place) || has s key) && in_others key place (suc i) rest

-- The loop over the keys of the smallest set, which stands at `place`.
unfoldable pub intersect_loop : SetTable → List SetTable → ℕ → List Bytes → SetTable
unfolding has in_others
intersect_loop s sets place [] = new_set
intersect_loop s sets place (key ∷ rest) =
    let res = intersect_loop s sets place rest in
    if ((place == 0) || has s key) && in_others key place 1 sets
    then record { table = key ∷ res.table; size = res.size + 1 }
    else res

unfoldable pub intersect : SetTable → List SetTable → SetTable
unfolding intersect_loop smallest_of
intersect s [] = record { table = s.table; size = length s.table }
intersect s (t ∷ sets) =
    let (place, least) = smallest_of 0 s 1 (t ∷ sets) in
    intersect_loop s (t ∷ sets) place least.table

-- The loops of `Difference`.
unfoldable pub remove_all : SetTable → List Bytes → SetTable
unfolding remove
remove_all res [] = res
remove_all res (key ∷ rest) = remove_all (remove res key).0 rest

unfoldable pub difference_loop : SetTable → List SetTable → SetTable
unfolding remove_all
difference_loop res [] = res
difference_loop res (s ∷ rest) = difference_loop (remove_all res s.table) rest

unfoldable pub difference : SetTable → List SetTable → SetTable
unfolding difference_loop add_all
difference s sets = difference_loop (add_all new_set s.table) sets

unfoldable pub subset_of : SetTable → List Bytes → Bool
unfolding has
subset_of t [] = true
subset_of t (key ∷ rest) = has t key && subset_of t rest

unfoldable pub is_subset : SetTable → SetTable → Bool
unfolding subset_of
is_subset s t = subset_of t s.table
