-- ===== src/Locks.antt =====
-- pkg/memdb/dblock.go: the locks of the keys, in which order a command takes them, and the commands that
-- take and release them, as processes. The locks of a command are all for reading or all for writing,
-- and a lock that nobody holds can be taken, whichever way; that readers share is not used.
pub mod Laws
pub mod Progress
use tinyredis.Prelude.{
  ℕ, suc, ◌+◌, ◌-◌, ◌%◌, ◌<◌, ◌≡◌, Bool, true, false, not, Option, none, some, List, [], ◌∷◌, Bytes,
  if◌then◌else◌, ltb, ◌==◌, ◌||◌, bit_and, length, set, get_elem?, among,
}

-- `GetKeyPos` for `n` locks, `none` for -1.
unfoldable pub lock_pos : (Bytes → ℕ) → ℕ → Bytes → Option ℕ
lock_pos hash n key =
    if n == 0
    then none
    else if bit_and n (n - 1) == 0
    then some (bit_and (hash key) (n - 1))
    else some (hash key % n)

-- A position into the sorted ones, unless it is among them: the keys of a Go map through `sort.Ints`.
unfoldable pub insert_pos : ℕ → List ℕ → List ℕ
insert_pos p [] = p ∷ []
insert_pos p (q ∷ poses) =
    let rest = insert_pos p poses in
    if p == q then q ∷ poses else if ltb p q then p ∷ q ∷ poses else q ∷ rest

-- `sortedLockPoses`, `none` for nil.
unfoldable pub sorted_lock_poses : (Bytes → ℕ) → ℕ → List Bytes → Option (List ℕ)
unfolding lock_pos insert_pos
sorted_lock_poses hash n [] = some []
sorted_lock_poses hash n (key ∷ keys) = elim (lock_pos hash n key) [
  | none ↦ none
  | some p ↦ elim (sorted_lock_poses hash n keys) [
    | none ↦ none
    | some poses ↦ some (insert_pos p poses)
  ]
]

-- A command: the locks that it holds and, in order, those that it still has to take.
pub record Process : Type 0 where
  pub held : List ℕ
  pub wanted : List ℕ

-- `LockMulti` or `RLockMulti` before its first lock. Without positions it takes none.
unfoldable pub lock_multi : (Bytes → ℕ) → ℕ → List Bytes → Process
unfolding sorted_lock_poses
lock_multi hash n keys = record {
  held = [];
  wanted = elim (sorted_lock_poses hash n keys) [ none ↦ [] | some poses ↦ poses ];
}

unfoldable pub held_by_one : ℕ → List Process → Bool
unfolding among
held_by_one p [] = false
held_by_one p (q ∷ ps) = among p q.held || held_by_one p ps

unfoldable pub finished : Process → Bool
finished q = length q.wanted + length q.held == 0

-- A command takes its next lock, or, with all of its locks, releases them: `UnLockMulti`.
unfoldable pub can_move : List Process → List ℕ → List ℕ → Bool
unfolding held_by_one
can_move ps held [] = not (length held == 0)
can_move ps held (p ∷ rest) = not (held_by_one p ps)

unfoldable pub moved : List ℕ → List ℕ → Process
moved held [] = record { held = []; wanted = [] }
moved held (p ∷ rest) = record { held = p ∷ held; wanted = rest }

-- One command moves, or a new one comes in the place of one that has finished.
pub data Step (hash : Bytes → ℕ) (n : ℕ) : List Process → List Process → Type 0 where
  move :
      (ps : List Process) (i : ℕ) (q : Process)
      → get_elem? ps i ≡ some q
      → can_move ps q.held q.wanted ≡ true
      → Step hash n ps (set ps i (moved q.held q.wanted))
  arrive : (ps : List Process) (keys : List Bytes) → Step hash n ps (lock_multi hash n keys ∷ ps)

-- The states that commands reach which come in one by one and move in any order.
pub data Reachable (hash : Bytes → ℕ) (n : ℕ) : List Process → Type 0 where
  start : Reachable hash n []
  next : (ps ps' : List Process) → Reachable hash n ps → Step hash n ps ps' → Reachable hash n ps'
