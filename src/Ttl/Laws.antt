-- ===== src/Ttl/Laws.antt =====
-- The manager as a map from keys to expiration times.
use tinyredis.Prelude.{
  ℕ, ◌+◌, ◌<◌, ◌≡◌, sym, ap, subst, ◌∙◌, true, false, not, ◌&&◌, Option, none, some, arith, Bytes,
  eqb, eqb_iff, eqb_ne, if◌then◌else◌, ◌==◌, ==_iff, length, Bool-cases, inl, inr, bit_and-le,
  get_elem?, set as set_at, get_elem?-set_if, get_elem?-of_lt, length-set,
}
use tinyredis.Prelude.Int.{ℤ}
use tinyredis.Ttl.Heap.{TtlShard}
use tinyredis.Ttl.{
  TtlManager, shard_for, expire_at, set_ttl, remove_ttl, check_ttl, shard_expire_at,
  shard_remove_ttl,
}
use tinyredis.Ttl.ShardLaws
use tinyredis.Ttl.ShardLaws.{
  lapsed, expire_at-shard_set_ttl, shard_set_ttl-IsValid, expire_at-shard_remove_ttl,
  shard_remove_ttl-IsValid, shard_check_ttl_lem,
}

pub record IsValid (tm : TtlManager) : Type 0 where
  pub shards_valid : (i : ℕ) (s : TtlShard) → get_elem? tm.shards i ≡ some s → ShardLaws.IsValid s
  pub masked : length tm.shards ≡ tm.shard_mask + 1

module _ (murmur : Bytes → ℕ) where
  -- The position of a key lies inside the table of shards.
  pub shard_for_lt :
      (tm : TtlManager) (k : Bytes) → IsValid tm → shard_for murmur tm k < length tm.shards
  unfolding shard_for
  shard_for_lt tm k h = omega (arith, h.masked, bit_and-le _ tm.shard_mask)

  pub shard_of :
      (tm : TtlManager) (k : Bytes)
      → IsValid tm
      → (s : TtlShard) × (get_elem? tm.shards (shard_for murmur tm k) ≡ some s)
  shard_of tm k h = get_elem?-of_lt tm.shards _ (shard_for_lt tm k h)

  -- The manager with the shard of `k` replaced.
  abbrev written : TtlManager → Bytes → TtlShard → TtlManager
  written tm k s' = record tm { shards = set_at tm.shards (shard_for murmur tm k) s' }

  pub expire_at-shard :
      (tm : TtlManager) (j : Bytes) {s : TtlShard}
      → get_elem? tm.shards (shard_for murmur tm j) ≡ some s
      → expire_at murmur tm j ≡ shard_expire_at s j
  unfolding expire_at
  expire_at-shard tm j e = rw (e, expire_at)

  -- Keys at two positions differ.
  one_position :
      (tm : TtlManager) (k j : Bytes)
      → (shard_for murmur tm k == shard_for murmur tm j) ≡ false
      → eqb k j ≡ false
  one_position tm k j h = eqb_ne k j (λ e. cc (h, (==_iff _ _).1 (ap (shard_for murmur tm) e)))

  -- A write that changes the times of one shard at `k` alone changes those of the manager so.
  expire_at-written :
      (tm : TtlManager) (k j : Bytes) (s s' : TtlShard) (o : Option ℤ)
      → IsValid tm
      → get_elem? tm.shards (shard_for murmur tm k) ≡ some s
      → shard_expire_at s' j ≡ (if eqb k j then o else shard_expire_at s j)
      → expire_at murmur (written tm k s') j ≡ (if eqb k j then o else expire_at murmur tm j)
  unfolding expire_at shard_for
  expire_at-written tm k j s s' o h e change =
      elim (Bool-cases (shard_for murmur tm k == shard_for murmur tm j)) [
        | inl same ↦
            let e' : get_elem? tm.shards (shard_for murmur tm j) ≡ some s =
              ap (get_elem? tm.shards) (sym ((==_iff _ _).0 same)) ∙ e in
            expire_at-shard (written tm k s') j
              (get_elem?-set_if tm.shards _ _ s' (shard_for_lt tm k h) ∙ rw same)
            ∙ change
            ∙ rw (expire_at-shard tm j e')
        | inr other ↦ ground (
          arith,
          one_position tm k j other,
          get_elem?-set_if tm.shards (shard_for murmur tm k) (shard_for murmur tm j) s'
              (shard_for_lt tm k h),
        )
      ]

  written-IsValid :
      (tm : TtlManager) (k : Bytes) (s' : TtlShard)
      → IsValid tm
      → ShardLaws.IsValid s'
      → IsValid (written tm k s')
  written-IsValid tm k s' h hs = record {
    shards_valid = λ i s e. valid_at i s e;
    masked = length-set tm.shards _ s' ∙ h.masked;
  }
    where
      valid_at :
          (i : ℕ) (s : TtlShard)
          → get_elem? (written tm k s').shards i ≡ some s
          → ShardLaws.IsValid s
      valid_at i s e =
          let at_i =
            get_elem?-set_if tm.shards (shard_for murmur tm k) i s' (shard_for_lt tm k h) in
          elim (Bool-cases (shard_for murmur tm k == i)) [
            | inl same ↦ let eq : s' ≡ s = ground (arith, at_i) in subst ShardLaws.IsValid eq hs
            | inr other ↦
                let eq : get_elem? tm.shards i ≡ some s = ground (arith, at_i) in
                h.shards_valid i s eq
          ]

  pub set_ttl-IsValid :
      (tm : TtlManager) (k : Bytes) (t : ℤ) → IsValid tm → IsValid (set_ttl murmur tm k t)
  unfolding set_ttl
  set_ttl-IsValid tm k t h =
      let (s, e) = shard_of tm k h in
      rw (e, set_ttl)
        (written-IsValid tm k _ h (shard_set_ttl-IsValid s k t (h.shards_valid _ s e)))

  -- After `SetTTL` on a well-formed manager, a key that had a time or one that had none has the
  -- new time, and every other key has the time that it had.
  pub expire_at-set_ttl :
      (tm : TtlManager) (k j : Bytes) (t : ℤ)
      → IsValid tm
      → expire_at murmur (set_ttl murmur tm k t) j
        ≡ (if eqb k j then some t else expire_at murmur tm j)
  unfolding set_ttl
  expire_at-set_ttl tm k j t h =
      let (s, e) = shard_of tm k h in
      rw (e, set_ttl) (expire_at-written tm k j s _ (some t) h e (expire_at-shard_set_ttl s k j t))

  pub remove_ttl-IsValid :
      (tm : TtlManager) (k : Bytes) → IsValid tm → IsValid (remove_ttl murmur tm k)
  unfolding remove_ttl
  remove_ttl-IsValid tm k h =
      let (s, e) = shard_of tm k h in
      rw (e, remove_ttl)
        (written-IsValid tm k _ h (shard_remove_ttl-IsValid s k (h.shards_valid _ s e)))

  -- After `RemoveTTL` on a well-formed manager the key has no expiration time, and every other key
  -- has the time that it had.
  pub expire_at-remove_ttl :
      (tm : TtlManager) (k j : Bytes)
      → IsValid tm
      → expire_at murmur (remove_ttl murmur tm k) j
        ≡ (if eqb k j then none else expire_at murmur tm j)
  unfolding remove_ttl
  expire_at-remove_ttl tm k j h =
      let (s, e) = shard_of tm k h in
      rw (e, remove_ttl)
        (expire_at-written tm k j s _ none h e
          (expire_at-shard_remove_ttl s k j (h.shards_valid _ s e)))

  check_ttl_shape :
      (tm : TtlManager) (k : Bytes) (now : ℤ) {s : TtlShard}
      → get_elem? tm.shards (shard_for murmur tm k) ≡ some s
      → check_ttl murmur tm k now ≡ (
          if lapsed (expire_at murmur tm k) now
          then (written tm k (shard_remove_ttl s k), false)
          else (written tm k s, true))
  unfolding check_ttl
  check_ttl_shape tm k now {s} e =
      ground (arith, shard_check_ttl_lem s k now, expire_at-shard tm k e)

  pub check_ttl-IsValid :
      (tm : TtlManager) (k : Bytes) (now : ℤ) → IsValid tm → IsValid (check_ttl murmur tm k now).0
  check_ttl-IsValid tm k now h =
      let (s, e) = shard_of tm k h in
      let hs = h.shards_valid _ s e in
      elim (Bool-cases (lapsed (expire_at murmur tm k) now)) [
        | inl gone ↦
            rw (check_ttl_shape tm k now e, gone)
              (written-IsValid tm k _ h (shard_remove_ttl-IsValid s k hs))
        | inr live ↦ rw (check_ttl_shape tm k now e, live) (written-IsValid tm k s h hs)
      ]

  pub check_ttl_live :
      (tm : TtlManager) (k : Bytes) (now : ℤ)
      → IsValid tm
      → (check_ttl murmur tm k now).1 ≡ (if lapsed (expire_at murmur tm k) now then false else true)
  check_ttl_live tm k now h =
      let (s, e) = shard_of tm k h in ground (arith, check_ttl_shape tm k now e)

  -- `CheckTTL` takes the time of its key away if that has passed, and no other.
  pub expire_at-check_ttl :
      (tm : TtlManager) (k j : Bytes) (now : ℤ)
      → IsValid tm
      → expire_at murmur (check_ttl murmur tm k now).0 j ≡ (
          if lapsed (expire_at murmur tm k) now
          then (if eqb k j then none else expire_at murmur tm j)
          else expire_at murmur tm j)
  expire_at-check_ttl tm k j now h =
      let (s, e) = shard_of tm k h in
      let removed = expire_at-shard_remove_ttl s k j (h.shards_valid _ s e) in
      elim (Bool-cases (lapsed (expire_at murmur tm k) now)) [
        | inl gone ↦
            rw (check_ttl_shape tm k now e, gone) (expire_at-written tm k j s _ none h e removed)
        | inr live ↦
            rw (check_ttl_shape tm k now e, live)
              (expire_at-written tm k j s s (shard_expire_at s k) h e (kept s)
                ∙ ground (arith, expire_at-shard tm k e, eqb_iff k j))
      ]
    where
      kept :
          (s : TtlShard)
          → shard_expire_at s j ≡ (if eqb k j then shard_expire_at s k else shard_expire_at s j)
      kept s = ground (arith, eqb_iff k j)

  -- On a well-formed manager, in which every key stands in the heap at the index of its item,
  -- `CheckTTL` of a key at a time leaves the manager well formed, answers whether the expiration
  -- time of the key is still to come or there is none, takes the time away if it has passed, and
  -- changes no other expiration time, although it moves items of the heap and zeroes the one that
  -- the heap gives back.
  pub manager_check_lem :
      (tm : TtlManager) (k : Bytes) (now : ℤ)
      → IsValid tm
      → IsValid (check_ttl murmur tm k now).0
        × ((check_ttl murmur tm k now).1 ≡ not (lapsed (expire_at murmur tm k) now))
        × ((j : Bytes)
            → expire_at murmur (check_ttl murmur tm k now).0 j ≡ (
                if lapsed (expire_at murmur tm k) now && eqb k j
                then none
                else expire_at murmur tm j))
  manager_check_lem tm k now h = (
    check_ttl-IsValid tm k now h,
    ground (arith, check_ttl_live tm k now h),
    λ j. ground (arith, expire_at-check_ttl tm k j now h),
  )
