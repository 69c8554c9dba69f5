-- ===== src/Locks/Progress.antt =====
-- Commands that take locks by LockMulti of pkg/memdb/dblock.go cannot wait for each other for ever.
use tinyredis.Prelude.{
  among, ℕ, zero, suc, ◌+◌, ◌*◌, ◌<◌, ◌≤◌, ◌≡◌, ◌≢◌, refl, ap, subst, sym, ◌∙◌, true, false, none,
  some, List, [], ◌∷◌, Bytes, ◌==◌, All, arith, Bool-cases, inl, inr, ◌⊎◌, set, get_elem?, length,
}
use tinyredis.Locks.{
  lock_multi, Process, Step, move, arrive, Reachable, start, next, moved, can_move, held_by_one,
  finished,
}
use tinyredis.Locks.Laws.{Ascending, sorted_lock_poses_lem}

-- The locks that a command holds stand before those that it wants, which ascend.
record Ordered (q : Process) : Type 0 where
  pub ascending : Ascending q.wanted
  pub below : All (λ h. All (λ w. h < w) q.wanted) q.held

All-at :
    {A : Type 0} (P : A → Type 0) (xs : List A) (i : ℕ) (x : A)
    → All P xs
    → get_elem? xs i ≡ some x
    → P x
All-at P [] i x a e = absurd cc
All-at P (y ∷ xs) zero x a e = let same : y ≡ x = cc in subst P same a.0
All-at P (y ∷ xs) (suc i) x a e = All-at P xs i x a.1 e

All-set :
    {A : Type 0} (P : A → Type 0) (xs : List A) (i : ℕ) (x : A)
    → All P xs
    → P x
    → All P (set xs i x)
All-set P [] i x a h = tt
All-set P (y ∷ xs) zero x a h = (h, a.1)
All-set P (y ∷ xs) (suc i) x a h = (a.0, All-set P xs i x a.1 h)

All-tails :
    (held : List ℕ) (p : ℕ) (rest : List ℕ)
    → All (λ h. All (λ w. h < w) (p ∷ rest)) held
    → All (λ h. All (λ w. h < w) rest) held
All-tails [] p rest a = tt
All-tails (h ∷ held) p rest a = (a.0.1, All-tails held p rest a.1)

-- A move keeps the order, and so does a command that comes in.
moved-Ordered :
    (held wanted : List ℕ)
    → Ordered (record { held = held; wanted = wanted })
    → Ordered (moved held wanted)
unfolding moved
moved-Ordered held [] o = record { ascending = tt; below = tt }
moved-Ordered held (p ∷ rest) o = record {
  ascending = o.ascending.1;
  below = (o.ascending.0, All-tails held p rest o.below);
}

lock_multi-Ordered :
    (hash : Bytes → ℕ) (n : ℕ) (keys : List Bytes) → n ≢ 0 → Ordered (lock_multi hash n keys)
unfolding lock_multi
lock_multi-Ordered hash n keys h =
    let (poses, e, ascending, bounded, same) = sorted_lock_poses_lem hash n keys h in
    record {
      ascending = subst (λ o. Ascending (elim o [ none ↦ [] | some l ↦ l ])) (sym e) ascending;
      below = tt;
    }

Step-Ordered :
    (hash : Bytes → ℕ) (n : ℕ) (ps ps' : List Process)
    → n ≢ 0
    → Step hash n ps ps'
    → All Ordered ps
    → All Ordered ps'
Step-Ordered hash n _ _ h (move ps i q e can) a =
    All-set Ordered ps i (moved q.held q.wanted) a
      (moved-Ordered q.held q.wanted (All-at Ordered ps i q a e))
Step-Ordered hash n _ _ h (arrive ps keys) a = (lock_multi-Ordered hash n keys h, a)

-- No lock that is wanted next is above this.
top : List Process → ℕ
top [] = 0
top (q ∷ ps) = elim q.wanted [ [] ↦ top ps | p ∷ rest ↦ p + top ps ]

le-next : (wanted : List ℕ) (t : ℕ) → t ≤ elim wanted [ [] ↦ t | p ∷ rest ↦ p + t ]
le-next [] t = omega arith
le-next (p ∷ rest) t = omega arith

wanted-top :
    (ps : List Process) (i : ℕ) (q : Process) (p : ℕ) (rest : List ℕ)
    → get_elem? ps i ≡ some q
    → q.wanted ≡ p ∷ rest
    → p ≤ top ps
unfolding top
wanted-top [] i q p rest e w = absurd cc
wanted-top (r ∷ ps) zero q p rest e w =
    let same : r ≡ q = cc in rw (ap (λ t. t.wanted) same ∙ w, top) (omega arith)
wanted-top (r ∷ ps) (suc i) q p rest e w =
    omega (arith, wanted-top ps i q p rest e w, le-next r.wanted (top ps))

-- Who holds a lock that is held.
holder :
    (p : ℕ) (ps : List Process)
    → held_by_one p ps ≡ true
    → (i : ℕ) × (q : Process) × (get_elem? ps i ≡ some q) × (among p q.held ≡ true)
unfolding held_by_one
holder p [] e = absurd cc
holder p (q ∷ ps) e = elim (Bool-cases (among p q.held)) [
  | inl here ↦ (0, q, refl, here)
  | inr other ↦ let (i, r, at, holds) = holder p ps (ground arith) in (suc i, r, at, holds)
]

held_below :
    (p r : ℕ) (rest held : List ℕ)
    → All (λ h. All (λ w. h < w) (r ∷ rest)) held
    → among p held ≡ true
    → p < r
unfolding among
held_below p r rest [] a e = absurd cc
held_below p r rest (h ∷ held) a e = elim (Bool-cases (p == h)) [
  | inl same ↦ let least : h < r = a.0.0 in ground arith
  | inr other ↦ held_below p r rest held a.1 (ground arith)
]

abbrev Moves : List Process → Type 0
Moves ps =
    (i : ℕ) × (q : Process) × (get_elem? ps i ≡ some q) × (can_move ps q.held q.wanted ≡ true)

among-length : (p : ℕ) (held : List ℕ) → among p held ≡ true → (length held == 0) ≡ false
unfolding among
among-length p [] e = absurd cc
among-length p (h ∷ held) e = ground arith

-- A command that holds a lock and wants no more can release it; one that wants more wants a higher
-- lock.
holder-Moves :
    (ps : List Process) (p i : ℕ) (q : Process)
    → Ordered q
    → get_elem? ps i ≡ some q
    → among p q.held ≡ true
    → ((r : ℕ) (rest : List ℕ) → q.wanted ≡ r ∷ rest → p < r → Moves ps)
    → Moves ps
holder-Moves ps p i q o at holds higher = by_wanted q.wanted refl
  where
    by_wanted : (w : List ℕ) → q.wanted ≡ w → Moves ps
    by_wanted [] e = (
      i,
      q,
      at,
      subst (λ w. can_move ps q.held w ≡ true) (sym e)
          (unfold can_move in ground (arith, among-length p q.held holds)),
    )
    by_wanted (r ∷ rest) e = higher r rest e (
        held_below p r rest q.held (subst (λ w. All (λ h. All (λ x. h < x) w) q.held) e o.below)
          holds)

-- From a command that wants `p`, up the locks to one that can move.
climb :
    (fuel : ℕ) (ps : List Process) (i : ℕ) (q : Process) (p : ℕ) (rest : List ℕ)
    → All Ordered ps
    → get_elem? ps i ≡ some q
    → q.wanted ≡ p ∷ rest
    → top ps < p + fuel
    → Moves ps
climb zero ps i q p rest a e w bound = absurd (omega (arith, wanted-top ps i q p rest e w))
climb (suc fuel) ps i q p rest a e w bound = elim (Bool-cases (held_by_one p ps)) [
  | inl taken ↦
      let (j, r, at, holds) = holder p ps taken in
      holder-Moves ps p j r (All-at Ordered ps j r a at) at holds
        (λ p' rest' w' less. climb fuel ps j r p' rest' a at w' (omega arith))
  | inr free ↦ (
    i,
    q,
    e,
    subst (λ ws. can_move ps q.held ws ≡ true) (sym w) (unfold can_move in rw free refl),
  )
]

-- The work that a command has left: a step for each lock, and one to release them.
abbrev pub left_to_do : List Process → ℕ
left_to_do [] = 0
left_to_do (q ∷ ps) = 2 * length q.wanted + length q.held + left_to_do ps

moved-less :
    (ps : List Process) (held wanted : List ℕ)
    → can_move ps held wanted ≡ true
    → 2 * length (moved held wanted).wanted + length (moved held wanted).held
      < 2 * length wanted + length held
unfolding moved can_move
moved-less ps held [] e = ground arith
moved-less ps held (p ∷ rest) e = omega arith

set-less :
    (ps : List Process) (i : ℕ) (q x : Process)
    → get_elem? ps i ≡ some q
    → 2 * length x.wanted + length x.held < 2 * length q.wanted + length q.held
    → left_to_do (set ps i x) < left_to_do ps
set-less [] i q x e h = absurd cc
set-less (r ∷ ps) zero q x e h = let same : r ≡ q = cc in rw same (omega arith)
set-less (r ∷ ps) (suc i) q x e h = omega (arith, set-less ps i q x e h)

-- A command that has not finished.
unfinished :
    (ps : List Process)
    → All (λ q. finished q ≡ true) ps
      ⊎ ((i : ℕ) × (q : Process) × (get_elem? ps i ≡ some q) × (finished q ≡ false))
unfinished [] = inl tt
unfinished (q ∷ ps) = elim (Bool-cases (finished q)) [
  | inl done ↦ elim (unfinished ps) [
    | inl all_done ↦ inl (done, all_done)
    | inr (i, r, at, busy) ↦ inr (suc i, r, at, busy)
  ]
  | inr busy ↦ inr (0, q, refl, busy)
]

some-Moves :
    (ps : List Process) (i : ℕ) (q : Process)
    → All Ordered ps
    → get_elem? ps i ≡ some q
    → finished q ≡ false
    → Moves ps
some-Moves ps i q a at busy = by_wanted q.wanted refl
  where
    by_wanted : (w : List ℕ) → q.wanted ≡ w → Moves ps
    by_wanted [] e = (
      i,
      q,
      at,
      subst (λ w. can_move ps q.held w ≡ true) (sym e)
          (unfold can_move in unfold finished in ground (arith, ap length e)),
    )
    by_wanted (p ∷ rest) e = climb (top ps + 1) ps i q p rest a at e (omega arith)

reachable-Ordered :
    (hash : Bytes → ℕ) (n : ℕ) (ps : List Process) → n ≢ 0 → Reachable hash n ps → All Ordered ps
reachable-Ordered hash n _ h start = tt
reachable-Ordered hash n _ h (next ps ps' r step) =
    Step-Ordered hash n ps ps' h step (reachable-Ordered hash n ps h r)

-- With one lock or more, in every state that commands reach which come in one by one, each with
-- the positions of `LockMulti` for its keys, and take their locks and release them in any order,
-- all commands have finished or one of them can move; a move leaves less to do, so that without
-- new commands all finish. A lock that nobody holds can be taken.
pub locks-progress :
    (hash : Bytes → ℕ) (n : ℕ) (ps : List Process)
    → n ≢ 0
    → Reachable hash n ps
    → All (λ q. finished q ≡ true) ps
      ⊎ ((ps' : List Process) × Step hash n ps ps' × (left_to_do ps' < left_to_do ps))
locks-progress hash n ps h reached = elim (unfinished ps) [
  | inl done ↦ inl done
  | inr (i, q, at, busy) ↦
      let (j, r, at', can) = some-Moves ps i q (reachable-Ordered hash n ps h reached) at busy in
      inr (
        set ps j (moved r.held r.wanted),
        move ps j r at' can,
        set-less ps j r (moved r.held r.wanted) at' (moved-less ps r.held r.wanted can),
      )
]
