-- ===== src/Locks/Laws.antt =====
-- sortedLockPoses of pkg/memdb/dblock.go: the positions of the keys, in ascending order.
use tinyredis.Prelude.{
  among, ℕ, ◌<◌, ◌≡◌, ◌≢◌, refl, Bool, false, none, some, List, [], ◌∷◌, Bytes, ltb, ◌==◌, ◌||◌,
  All, arith, Bool-cases, inl, inr, bit_and, bit_and-le, ◌%◌, ◌-◌,
}
use tinyredis.Locks.{lock_pos, insert_pos, sorted_lock_poses}

abbrev pub Ascending : List ℕ → Type 0
Ascending [] = Unit
Ascending (p ∷ poses) = All (λ q. p < q) poses × Ascending poses

All-insert_pos :
    (P : ℕ → Type 0) (p : ℕ) (poses : List ℕ) → P p → All P poses → All P (insert_pos p poses)
unfolding insert_pos
All-insert_pos P p [] h a = (h, tt)
All-insert_pos P p (q ∷ poses) h a =
    let rest = All-insert_pos P p poses h a.1 in
    elim (Bool-cases (p == q)) [
      | inl same ↦ rw same a
      | inr other ↦ elim (Bool-cases (ltb p q)) [
        | inl less ↦ rw (other, less) (h, a)
        | inr more ↦ rw (other, more) (a.0, rest)
      ]
    ]

All-below : (p q : ℕ) (poses : List ℕ) → p < q → All (λ r. q < r) poses → All (λ r. p < r) poses
All-below p q [] h a = tt
All-below p q (r ∷ poses) h a = (omega (arith, a.0), All-below p q poses h a.1)

Ascending-insert_pos : (p : ℕ) (poses : List ℕ) → Ascending poses → Ascending (insert_pos p poses)
unfolding insert_pos
Ascending-insert_pos p [] a = (tt, tt)
Ascending-insert_pos p (q ∷ poses) a =
    let rest = Ascending-insert_pos p poses a.1 in
    elim (Bool-cases (p == q)) [
      | inl same ↦ rw same a
      | inr other ↦ elim (Bool-cases (ltb p q)) [
        | inl less ↦
            let h : p < q = ground arith in rw (other, less) ((h, All-below p q poses h a.0), a)
        | inr more ↦
            let h : q < p = ground arith in
            rw (other, more) (All-insert_pos (λ r. q < r) p poses h a.0, rest)
      ]
    ]

among-insert_pos :
    (p q : ℕ) (poses : List ℕ) → among q (insert_pos p poses) ≡ (q == p) || among q poses
unfolding among insert_pos
among-insert_pos p q [] = refl
among-insert_pos p q (r ∷ poses) = ground (arith, among-insert_pos p q poses)

-- Whether a position is that of one of the keys.
unfoldable pub pos_of_one : (Bytes → ℕ) → ℕ → ℕ → List Bytes → Bool
pos_of_one hash n p [] = false
pos_of_one hash n p (key ∷ keys) =
    elim (lock_pos hash n key) [ none ↦ false | some q ↦ p == q ] || pos_of_one hash n p keys

lock_pos-some :
    (hash : Bytes → ℕ) (n : ℕ) (key : Bytes)
    → n ≢ 0
    → (p : ℕ) × (p < n) × (lock_pos hash n key ≡ some p)
unfolding lock_pos
lock_pos-some hash n key h =
    let positive : (n == 0) ≡ false = ground arith in
    let small = bit_and-le (hash key) (n - 1) in
    elim (Bool-cases (bit_and n (n - 1) == 0)) [
      | inl power ↦ (bit_and (hash key) (n - 1), omega (arith, small), rw (positive, power) refl)
      | inr other ↦ (hash key % n, omega arith, rw (positive, other) refl)
    ]

-- With one lock or more, `sortedLockPoses` gives positions in ascending order, none twice, that
-- are exactly those of the keys, all of them below the number of locks.
pub sorted_lock_poses_lem :
    (hash : Bytes → ℕ) (n : ℕ) (keys : List Bytes)
    → n ≢ 0
    → (poses : List ℕ) × (sorted_lock_poses hash n keys ≡ some poses)
      × Ascending poses
      × All (λ p. p < n) poses
      × ((p : ℕ) → among p poses ≡ pos_of_one hash n p keys)
unfolding sorted_lock_poses pos_of_one among
sorted_lock_poses_lem hash n [] h = ([], refl, tt, tt, λ p. refl)
sorted_lock_poses_lem hash n (key ∷ keys) h =
    let (p, small, first) = lock_pos-some hash n key h in
    let (poses, e, ascending, bounded, same) = sorted_lock_poses_lem hash n keys h in
    (
      insert_pos p poses,
      rw (sorted_lock_poses, first, e) refl,
      Ascending-insert_pos p poses ascending,
      All-insert_pos (λ q. q < n) p poses small bounded,
      λ q. rw (pos_of_one, first) (ground (arith, among-insert_pos p q poses, same q)),
    )
