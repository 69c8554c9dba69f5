-- ===== src/Ttl/ShardLaws.antt =====
-- A TTL shard as a map from keys to expiration times. The heap functions move items and rewrite
-- their indices, and leave every expiration time.
use tinyredis.Prelude.{
  ℕ, zero, suc, ◌+◌, ◌-◌, ◌*◌, ◌/◌, ◌≡◌, ◌<◌, get_elem?, unlink, subst, sym, ap, refl, ◌∙◌, Bool,
  not, true, false, Option, none, some, List, [], ◌∷◌, ◌++◌, arith, Bytes, eqb, eqb_iff,
  if◌then◌else◌, ltb, leb, ◌==◌, length, ◌||◌, find, replace, Distinct, find-replace, find-unlink,
  replace-Distinct, unlink-Distinct, Bool-cases, Option-cases, inl, inr,
}
use tinyredis.Prelude.Int.{ℤ, ltb_ℤ, eqb_ℤ, eqb_ℤ_iff}
use tinyredis.Ttl.Heap.{
  TtlItem, TtlShard, set_index, swap, up, down, sift, fix, push, drop_last, remove_at, less,
  smaller_child, key_at,
}
use tinyredis.Ttl.{
  shard_expire_at, shard_set_ttl, shard_remove_ttl, shard_check_ttl, drop_item, release,
}
use tinyredis.Ttl.Index.{
  Placed, PlacedBut, place, lt-get_elem?, at_key, Moves-sift, push-Placed, remove_at-Placed,
}

-- Two memories that hold the same keys and expiration times.
abbrev times : List (Bytes × TtlItem) → Bytes → Option ℤ
times items k = elim (find k items) [ none ↦ none | some item ↦ some item.expire_at ]

-- What a heap function keeps: the index stays a map, and every time stays.
record Keeps (s s' : TtlShard) : Type 0 where
  distinct : Distinct s.items → Distinct s'.items
  same : (k : Bytes) → times s'.items k ≡ times s.items k

Keeps-refl : (s : TtlShard) → Keeps s s
Keeps-refl s = record { distinct = λ d. d; same = λ k. refl }

Keeps-trans : {s t u : TtlShard} → Keeps s t → Keeps t u → Keeps s u
Keeps-trans p q = record {
  distinct = λ d. q.distinct (p.distinct d);
  same = λ k. q.same k ∙ p.same k;
}

times-set_index :
    (k j : Bytes) (i : ℕ) (items : List (Bytes × TtlItem))
    → times (set_index k i items) j ≡ times items j
unfolding set_index
times-set_index k j i items = elim (Option-cases (find k items)) [
  | inl e ↦ rw (e, set_index)
  | inr (item, e) ↦ ground (arith, find-replace k j (record item { index = i }) items, eqb_iff k j)
]

set_index-Distinct :
    (k : Bytes) (i : ℕ) (items : List (Bytes × TtlItem))
    → Distinct items
    → Distinct (set_index k i items)
unfolding set_index
set_index-Distinct k i items d = elim (Option-cases (find k items)) [
  | inl e ↦ rw (e, set_index) d
  | inr (item, e) ↦ rw (e, set_index) (replace-Distinct k (record item { index = i }) items d)
]

Keeps-swap : (s : TtlShard) (i j : ℕ) → Keeps s (swap s i j)
unfolding swap
Keeps-swap s i j = record {
  distinct = λ d. set_index-Distinct _ j _ (set_index-Distinct _ i s.items d);
  same = λ k. times-set_index _ k j _ ∙ times-set_index _ k i s.items;
}

Keeps-up : (fuel : ℕ) (s : TtlShard) (j : ℕ) → Keeps s (up fuel s j)
unfolding up
Keeps-up zero s j = Keeps-refl s
Keeps-up (suc fuel) s j =
    let i = (j - 1) / 2 in
    elim (Bool-cases ((i == j) || not (less s j i))) [
      | inl stop ↦ rw stop (Keeps-refl s)
      | inr go ↦ rw go (Keeps-trans (Keeps-swap s i j) (Keeps-up fuel (swap s i j) i))
    ]

Keeps-down : (fuel : ℕ) (s : TtlShard) (i n : ℕ) → Keeps s (down fuel s i n).0
unfolding down
Keeps-down zero s i n = Keeps-refl s
Keeps-down (suc fuel) s i n =
    let j = smaller_child s i n in
    elim (Bool-cases (leb n (2 * i + 1) || not (less s j i))) [
      | inl stop ↦ rw stop (Keeps-refl s)
      | inr go ↦ rw go (Keeps-trans (Keeps-swap s i j) (Keeps-down fuel (swap s i j) j n))
    ]

Keeps-sift : (s : TtlShard) (i n : ℕ) → Keeps s (sift s i n)
unfolding sift
Keeps-sift s i n =
    let (s', i') = down (length s.heap) s i n in
    elim (Bool-cases (ltb i i')) [
      | inl moved ↦ rw moved (Keeps-down (length s.heap) s i n)
      | inr still ↦
          rw still (Keeps-trans (Keeps-down (length s.heap) s i n) (Keeps-up (length s.heap) s' i))
    ]

Keeps-remove_at : (s : TtlShard) (i : ℕ) → Keeps s (remove_at s i)
unfolding remove_at drop_last
Keeps-remove_at s i =
    let n = length s.heap - 1 in
    elim (Bool-cases (n == i)) [
      | inl last ↦ rw last (record { distinct = λ d. d; same = λ k. refl })
      | inr inner ↦ rw inner (
          let kept = Keeps-trans (Keeps-swap s i n) (Keeps-sift (swap s i n) i n) in
          record { distinct = λ d. kept.distinct d; same = λ k. kept.same k })
    ]

-- A shard has at most one item for a key, and the heap has it at the item's index.
pub record IsValid (s : TtlShard) : Type 0 where
  pub distinct : Distinct s.items
  pub placed : Placed s

Keeps-push :
    (s : TtlShard) (k j : Bytes) (e : ℤ)
    → times (push s k e).items j ≡ (if eqb k j then some e else times s.items j)
unfolding push
Keeps-push s k j e =
    let n = length s.heap in
    let item : TtlItem = record { expire_at = e; index = n } in
    let s' : TtlShard = record { heap = s.heap ++ k ∷ []; items = (k, item) ∷ s.items } in
    (Keeps-up (n + 1) s' n).same j ∙ times-cons k j item s.items
  where
    times-cons :
        (k j : Bytes) (item : TtlItem) (items : List (Bytes × TtlItem))
        → times ((k, item) ∷ items) j ≡ (if eqb k j then some item.expire_at else times items j)
    times-cons k j item items = unfold find in ground arith

-- What `SetTTL` leaves: the new time under its key, and every other time as it was.
pub expire_at-shard_set_ttl :
    (s : TtlShard) (k j : Bytes) (e : ℤ)
    → shard_expire_at (shard_set_ttl s k e) j ≡ (if eqb k j then some e else shard_expire_at s j)
unfolding shard_set_ttl shard_expire_at fix
expire_at-shard_set_ttl s k j e = elim (Option-cases (find k s.items)) [
  | inl missing ↦ rw (missing, shard_set_ttl) (Keeps-push s k j e)
  | inr (item, found) ↦ elim (Bool-cases (eqb_ℤ item.expire_at e)) [
    | inl same ↦
        rw (found, shard_set_ttl, same) (ground (arith, eqb_iff k j, eqb_ℤ_iff item.expire_at e))
    | inr changed ↦
        rw (found, shard_set_ttl, changed)
          (let items = replace k (record item { expire_at = e }) s.items in
            let s' = record s { items = items } in
            (Keeps-sift s' item.index (length s.heap)).same j
            ∙ ground (arith, find-replace k j (record item { expire_at = e }) s.items, eqb_iff k j))
  ]
]

push-IsValid :
    (s : TtlShard) (k : Bytes) (e : ℤ) → find k s.items ≡ none → IsValid s → IsValid (push s k e)
unfolding push
push-IsValid s k e fresh h =
    let n = length s.heap in
    let item : TtlItem = record { expire_at = e; index = n } in
    let s' : TtlShard = record { heap = s.heap ++ k ∷ []; items = (k, item) ∷ s.items } in
    record {
      distinct = (Keeps-up (n + 1) s' n).distinct (fresh, h.distinct);
      placed = push-Placed s k e h.placed;
    }

-- A new time leaves the indices.
place-new_time :
    (k j : Bytes) (e : ℤ) (item : TtlItem) (items : List (Bytes × TtlItem))
    → find k items ≡ some item
    → place (replace k (record item { expire_at = e }) items) j ≡ place items j
place-new_time k j e item items found =
    ground (arith, find-replace k j (record item { expire_at = e }) items, eqb_iff k j)

changed-IsValid :
    (s : TtlShard) (k : Bytes) (e : ℤ) (item : TtlItem)
    → find k s.items ≡ some item
    → IsValid s
    → IsValid
        (fix (record s { items = replace k (record item { expire_at = e }) s.items }) item.index)
unfolding fix
changed-IsValid s k e item found h =
    let items = replace k (record item { expire_at = e }) s.items in
    let s' : TtlShard = record s { items = items } in
    let there : get_elem? s.heap item.index ≡ some k =
      h.placed k item.index (rw (place, found) refl) in
    let inside = lt-get_elem? s.heap item.index k there in
    record {
      distinct =
          (Keeps-sift s' item.index (length s.heap)).distinct
            (replace-Distinct k (record item { expire_at = e }) s.items h.distinct);
      placed =
          (Moves-sift s' item.index (length s.heap) inside (omega arith)).placed
            (λ j p at. h.placed j p (sym (place-new_time k j e item s.items found) ∙ at));
    }

pub shard_set_ttl-IsValid :
    (s : TtlShard) (k : Bytes) (e : ℤ) → IsValid s → IsValid (shard_set_ttl s k e)
unfolding shard_set_ttl
shard_set_ttl-IsValid s k e h = elim (Option-cases (find k s.items)) [
  | inl missing ↦ rw (missing, shard_set_ttl) (push-IsValid s k e missing h)
  | inr (item, found) ↦ elim (Bool-cases (eqb_ℤ item.expire_at e)) [
    | inl same ↦ rw (found, shard_set_ttl, same) h
    | inr changed ↦ rw (found, shard_set_ttl, changed) (changed-IsValid s k e item found h)
  ]
]

-- The heap has the key where its item says.
held :
    (s : TtlShard) (k : Bytes) (item : TtlItem)
    → IsValid s
    → find k s.items ≡ some item
    → (item.index < length s.heap) × (key_at s item.index ≡ k)
held s k item h found =
    let there : get_elem? s.heap item.index ≡ some k =
      h.placed k item.index (rw (place, found) refl) in
    let inside = lt-get_elem? s.heap item.index k there in
    let same : some (key_at s item.index) ≡ some k = sym (at_key s item.index inside) ∙ there in
    (inside, cc same)

release_missing :
    (k : Bytes) (items : List (Bytes × TtlItem)) → find k items ≡ none → release k items ≡ items
unfolding release
release_missing k items e = rw (release, e) refl

-- The item that heap.Remove takes out is the key's own, so that the release of it changes nothing that
-- is left in the index.
dropped-items :
    (s : TtlShard) (k : Bytes) (item : TtlItem)
    → IsValid s
    → find k s.items ≡ some item
    → drop_item s k item.index
      ≡ record (remove_at s item.index) { items = unlink k (remove_at s item.index).items }
unfolding drop_item
dropped-items s k item h found =
    let s' = remove_at s item.index in
    let gone : find k (unlink k s'.items) ≡ none = ground (
      arith,
      find-unlink k k s'.items ((Keeps-remove_at s item.index).distinct h.distinct),
      eqb_iff k k,
    ) in
    ap (λ l. record s' { items = l })
      (ap (λ c. release c (unlink k s'.items)) (held s k item h found).1
        ∙ release_missing k (unlink k s'.items) gone)

times-drop_item :
    (s : TtlShard) (k j : Bytes) (item : TtlItem)
    → IsValid s
    → find k s.items ≡ some item
    → shard_expire_at (drop_item s k item.index) j ≡ (if eqb k j then none else shard_expire_at s j)
unfolding shard_expire_at
times-drop_item s k j item h found =
    let s' = remove_at s item.index in
    let kept = Keeps-remove_at s item.index in
    rw (dropped-items s k item h found)
      (ground (arith, find-unlink k j s'.items (kept.distinct h.distinct), kept.same j))

drop_item-IsValid :
    (s : TtlShard) (k : Bytes) (item : TtlItem)
    → IsValid s
    → find k s.items ≡ some item
    → IsValid (drop_item s k item.index)
drop_item-IsValid s k item h found =
    let s' = remove_at s item.index in
    let kept = (Keeps-remove_at s item.index).distinct h.distinct in
    let (inside, same) = held s k item h found in
    let others : PlacedBut k s' =
      subst (λ r. PlacedBut r s') same (remove_at-Placed s item.index inside h.placed) in
    rw (dropped-items s k item h found) (record {
      distinct = unlink-Distinct k s'.items kept;
      placed = λ j p at. left s' kept others j p at;
    })
  where
    left :
        (s' : TtlShard)
        → Distinct s'.items
        → PlacedBut k s'
        → (j : Bytes) (p : ℕ) → place (unlink k s'.items) j ≡ some p
        → get_elem? s'.heap p ≡ some j
    left s' kept others j p at = ground (arith, find-unlink k j s'.items kept, others j p)

-- `RemoveTTL` takes the time of its key away, and no other.
pub expire_at-shard_remove_ttl :
    (s : TtlShard) (k j : Bytes)
    → IsValid s
    → shard_expire_at (shard_remove_ttl s k) j ≡ (if eqb k j then none else shard_expire_at s j)
unfolding shard_remove_ttl
expire_at-shard_remove_ttl s k j h = elim (Option-cases (find k s.items)) [
  | inl missing ↦
      rw (missing, shard_remove_ttl) (unfold shard_expire_at in ground (arith, eqb_iff k j))
  | inr (item, found) ↦ rw (found, shard_remove_ttl) (times-drop_item s k j item h found)
]

pub shard_remove_ttl-IsValid :
    (s : TtlShard) (k : Bytes) → IsValid s → IsValid (shard_remove_ttl s k)
unfolding shard_remove_ttl
shard_remove_ttl-IsValid s k h = elim (Option-cases (find k s.items)) [
  | inl missing ↦ rw (missing, shard_remove_ttl) h
  | inr (item, found) ↦ rw (found, shard_remove_ttl) (drop_item-IsValid s k item h found)
]

-- Whether a time has passed. A key with no time never expires.
abbrev pub lapsed : Option ℤ → ℤ → Bool
lapsed none now = false
lapsed (some e) now = not (ltb_ℤ now e)

-- `CheckTTL` answers whether the key lives, and takes the time of a lapsed key away.
pub shard_check_ttl_lem :
    (s : TtlShard) (k : Bytes) (now : ℤ)
    → shard_check_ttl s k now
      ≡ (if lapsed (shard_expire_at s k) now then (shard_remove_ttl s k, false) else (s, true))
unfolding shard_check_ttl shard_expire_at shard_remove_ttl
shard_check_ttl_lem s k now = ground arith
