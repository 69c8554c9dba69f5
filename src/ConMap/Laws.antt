-- ===== src/ConMap/Laws.antt =====
-- The table as a map from keys to values: look-ups after every kind of write.
use tinyredis.Prelude.{
  ℕ, ◌+◌, ◌-◌, ◌%◌, ◌^◌, ◌<◌, ◌≡◌, refl, sym, ap, subst, ◌∙◌, ◌&&◌, true, false, none, some, List,
  arith, Bytes, eqb, eqb_iff, eqb_ne, if◌then◌else◌, ◌==◌, length, is_some, Bool-cases, ==_iff, inl,
  inr, bit_and-le, get_elem?, set as set_at, get_elem?-set_self, get_elem?-set_ne, get_elem?-of_lt,
  length-set,
}
use tinyredis.ConMap.Tree.{RedBlackTree}
use tinyredis.ConMap.Shard
use tinyredis.ConMap.Shard.{Shard}
use tinyredis.ConMap.{
  ConcurrentMap, get, set, delete, set_if_exist, set_if_not_exist, get_key_pos, store_set,
}

module _ {V : Type 0} (T : RedBlackTree V) where
  -- Every shard is well formed, and the mask fits the table.
  pub record IsValid (m : ConcurrentMap T) : Type 0 where
    pub shards_valid :
        (i : ℕ) (s : Shard T) → get_elem? m.shards i ≡ some s → Shard.Laws.IsValid T s
    pub masked : length m.shards ≡ m.shard_mask + 1

module _ {V : Type 0} (T : RedBlackTree V) (murmur : Bytes → ℕ) where
  -- The position of a key lies inside the table.
  pub get_key_pos_lt :
      (m : ConcurrentMap T) (k : Bytes) → IsValid T m → get_key_pos T murmur m k < length m.shards
  unfolding get_key_pos
  get_key_pos_lt m k h = omega (arith, h.masked, bit_and-le _ m.shard_mask)

  -- The shard of a key.
  pub shard_of :
      (m : ConcurrentMap T) (k : Bytes)
      → IsValid T m
      → (s : Shard T) × (get_elem? m.shards (get_key_pos T murmur m k) ≡ some s)
  shard_of m k h = get_elem?-of_lt m.shards _ (get_key_pos_lt m k h)

  -- A table whose shard for `k` has been replaced.
  abbrev pub written : ConcurrentMap T → Bytes → Shard T → List (Shard T)
  written m k s' = set_at m.shards (get_key_pos T murmur m k) s'

  get_elem?-written :
      (m : ConcurrentMap T) (k : Bytes) (s' : Shard T) (i : ℕ)
      → IsValid T m
      → get_elem? (written m k s') i
        ≡ (if get_key_pos T murmur m k == i then some s' else get_elem? m.shards i)
  get_elem?-written m k s' i h = elim (Bool-cases (get_key_pos T murmur m k == i)) [
    | inl same ↦
        ground
          (arith, get_elem?-set_self m.shards (get_key_pos T murmur m k) s' (get_key_pos_lt m k h))
    | inr other ↦
        ground
          (arith, get_elem?-set_ne m.shards (get_key_pos T murmur m k) i s' (λ e. ground arith))
  ]

  -- A look-up in the table is a look-up in the shard of the key.
  pub get-shard :
      (m : ConcurrentMap T) (j : Bytes) {s : Shard T}
      → get_elem? m.shards (get_key_pos T murmur m j) ≡ some s
      → get T murmur m j ≡ Shard.get T s j
  unfolding get
  get-shard m j e = rw (e, get)

  get-written :
      (m m' : ConcurrentMap T) (k j : Bytes) (s' : Shard T)
      → IsValid T m
      → m'.shards ≡ written m k s'
      → m'.shard_mask ≡ m.shard_mask
      → get T murmur m' j ≡ (
          if get_key_pos T murmur m k == get_key_pos T murmur m j
          then Shard.get T s' j
          else get T murmur m j)
  unfolding get get_key_pos
  get-written m m' k j s' h es em =
      elim (Bool-cases (get_key_pos T murmur m k == get_key_pos T murmur m j)) [
        | inl same ↦ ground (arith, em, es, get_elem?-written m k s' (get_key_pos T murmur m j) h)
        | inr other ↦ ground (arith, em, es, get_elem?-written m k s' (get_key_pos T murmur m j) h)
      ]

  written-IsValid :
      (m m' : ConcurrentMap T) (k : Bytes) (s' : Shard T)
      → IsValid T m
      → Shard.Laws.IsValid T s'
      → m'.shards ≡ written m k s'
      → m'.shard_mask ≡ m.shard_mask
      → IsValid T m'
  written-IsValid m m' k s' h hs es em = record {
    shards_valid = λ i s e. valid_at i s (rw es at e);
    masked = ap length es ∙ length-set m.shards _ s' ∙ h.masked ∙ ap (λ t. t + 1) (sym em);
  }
    where
      valid_at :
          (i : ℕ) (s : Shard T) → get_elem? (written m k s') i ≡ some s → Shard.Laws.IsValid T s
      valid_at i s e = elim (Bool-cases (get_key_pos T murmur m k == i)) [
        | inl same ↦
            let eq : s' ≡ s = ground (arith, get_elem?-written m k s' i h) in
            subst (Shard.Laws.IsValid T) eq hs
        | inr other ↦
            let eq : get_elem? m.shards i ≡ some s = ground (arith, get_elem?-written m k s' i h) in
            h.shards_valid i s eq
      ]

  -- Keys that are equal have one position.
  one_position :
      (m : ConcurrentMap T) (k j : Bytes)
      → (get_key_pos T murmur m k == get_key_pos T murmur m j) ≡ false
      → eqb k j ≡ false
  one_position m k j h = eqb_ne k j (λ e. cc (h, position_refl (ap (get_key_pos T murmur m) e)))
    where
      position_refl : {a b : ℕ} → a ≡ b → (a == b) ≡ true
      position_refl e = ground arith

  -- The shards that `set` and `delete` leave, and that they keep the mask.
  pub shards-set :
      (m : ConcurrentMap T) (k : Bytes) (v : V) {s : Shard T}
      → get_elem? m.shards (get_key_pos T murmur m k) ≡ some s
      → ((set T murmur m k v).0.shards ≡ written m k (Shard.set T s k v).0)
        × ((set T murmur m k v).0.shard_mask ≡ m.shard_mask)
        × ((set T murmur m k v).1 ≡ (if (Shard.set T s k v).1 then 1 else 0))
        × ((set T murmur m k v).0.count
            ≡ (if (Shard.set T s k v).1 then (m.count + 1) % 2 ^ 32 else m.count))
  unfolding set store_set
  shards-set m k v {s} e = ground arith

  -- Two keys at one position look into one shard.
  same_shard :
      (m : ConcurrentMap T) (k j : Bytes) {s : Shard T}
      → get_elem? m.shards (get_key_pos T murmur m k) ≡ some s
      → (get_key_pos T murmur m k == get_key_pos T murmur m j) ≡ true
      → get T murmur m j ≡ Shard.get T s j
  same_shard m k j {s} e same =
      get-shard m j (ap (get_elem? m.shards) (sym ((==_iff _ _).0 same)) ∙ e)

  -- After `Set` on a well-formed table, whichever form its shard takes and whether it is
  -- converted, a look-up gives the value that was set under its key, and what it gave before under
  -- every other key.
  pub get-set :
      (m : ConcurrentMap T) (k j : Bytes) (v : V)
      → IsValid T m
      → get T murmur (set T murmur m k v).0 j ≡ (if eqb k j then some v else get T murmur m j)
  get-set m k j v h =
      let (s, e) = shard_of m k h in
      let (es, em, _, _) = shards-set m k v e in
      get-written m _ k j _ h es em
      ∙ elim (Bool-cases (get_key_pos T murmur m k == get_key_pos T murmur m j)) [
        | inl same ↦
            rw (same, same_shard m k j e same) (Shard.Laws.get-set T s k j v (h.shards_valid _ s e))
        | inr other ↦ rw (other, one_position m k j other)
      ]

  pub set-IsValid :
      (m : ConcurrentMap T) (k : Bytes) (v : V) → IsValid T m → IsValid T (set T murmur m k v).0
  set-IsValid m k v h =
      let (s, e) = shard_of m k h in
      let (es, em, _, _) = shards-set m k v e in
      written-IsValid m _ k _ h (Shard.Laws.set-IsValid T s k v (h.shards_valid _ s e)) es em

  -- `Set` answers 1 for a key that was not there, and 0 for one that was overwritten.
  pub set_result :
      (m : ConcurrentMap T) (k : Bytes) (v : V)
      → IsValid T m
      → (set T murmur m k v).1 ≡ (if is_some (get T murmur m k) then 0 else 1)
  set_result m k v h =
      let (s, e) = shard_of m k h in
      ground (arith, (shards-set m k v e).2, Shard.Laws.set_fresh T s k v, get-shard m k e)

  pub delete_shape :
      (m : ConcurrentMap T) (k : Bytes) {s : Shard T}
      → get_elem? m.shards (get_key_pos T murmur m k) ≡ some s
      → delete T murmur m k ≡ (
          if is_some (get T murmur m k)
          then (
            record m {
              shards = written m k (Shard.delete T s k).0;
              count = (m.count + 2 ^ 32 - 1) % 2 ^ 32;
            },
            1,
          )
          else (m, 0))
  unfolding delete
  delete_shape m k {s} e = ground (arith, Shard.Laws.delete_found T s k, get-shard m k e)

  pub delete-IsValid :
      (m : ConcurrentMap T) (k : Bytes) → IsValid T m → IsValid T (delete T murmur m k).0
  delete-IsValid m k h =
      let (s, e) = shard_of m k h in
      let hs = Shard.Laws.delete-IsValid T s k (h.shards_valid _ s e) in
      elim (Bool-cases (is_some (get T murmur m k))) [
        | inl found ↦ rw (delete_shape m k e, found) (written-IsValid m _ k _ h hs refl refl)
        | inr missing ↦ rw (delete_shape m k e, missing) h
      ]

  -- After `Delete` on a well-formed table, whether a tree is turned back into a list or not, a
  -- look-up gives nothing under the deleted key, and what it gave before under every other key.
  pub get-delete :
      (m : ConcurrentMap T) (k j : Bytes)
      → IsValid T m
      → get T murmur (delete T murmur m k).0 j ≡ (if eqb k j then none else get T murmur m j)
  get-delete m k j h =
      let (s, e) = shard_of m k h in
      elim (Bool-cases (is_some (get T murmur m k))) [
        | inl found ↦
            rw (delete_shape m k e, found)
              (get-written m _ k j _ h refl refl
                ∙ elim (Bool-cases (get_key_pos T murmur m k == get_key_pos T murmur m j)) [
                  | inl same ↦
                      rw (same, same_shard m k j e same)
                        (Shard.Laws.get-delete T s k j (h.shards_valid _ s e))
                  | inr other ↦ rw (other, one_position m k j other)
                ])
        | inr missing ↦ rw (delete_shape m k e, missing) (ground (arith, eqb_iff k j))
      ]

  -- `Delete` answers 1 exactly for a key that was there.
  pub delete_result :
      (m : ConcurrentMap T) (k : Bytes)
      → IsValid T m
      → (delete T murmur m k).1 ≡ (if is_some (get T murmur m k) then 1 else 0)
  delete_result m k h = let (s, e) = shard_of m k h in ground (arith, delete_shape m k e)

  -- On a well-formed table `SetIfNotExist` is `Set`, with the answer 1, where the key is missing,
  -- and otherwise answers 0 and leaves the table as it is.
  pub set_if_not_exist_lem :
      (m : ConcurrentMap T) (k : Bytes) (v : V)
      → IsValid T m
      → set_if_not_exist T murmur m k v
        ≡ (if is_some (get T murmur m k) then (m, 0) else ((set T murmur m k v).0, 1))
  unfolding set_if_not_exist set
  set_if_not_exist_lem m k v h = let (s, e) = shard_of m k h in ground (arith, get-shard m k e)

  set_if_exist_shape :
      (m : ConcurrentMap T) (k : Bytes) (v : V) {s : Shard T}
      → get_elem? m.shards (get_key_pos T murmur m k) ≡ some s
      → set_if_exist T murmur m k v ≡ (
          if is_some (get T murmur m k)
          then (record m { shards = written m k (Shard.put T s k v).0 }, 1)
          else (m, 0))
  unfolding set_if_exist
  set_if_exist_shape m k v e = ground (arith, get-shard m k e)

  -- After `SetIfExist` on a well-formed table, a look-up of the key gives the value if the key was
  -- there and nothing otherwise, and a look-up of another key gives what it did.
  pub get-set_if_exist :
      (m : ConcurrentMap T) (k j : Bytes) (v : V)
      → IsValid T m
      → get T murmur (set_if_exist T murmur m k v).0 j
        ≡ (if eqb k j && is_some (get T murmur m k) then some v else get T murmur m j)
  get-set_if_exist m k j v h =
      let (s, e) = shard_of m k h in
      elim (Bool-cases (is_some (get T murmur m k))) [
        | inl found ↦
            rw (set_if_exist_shape m k v e, found)
              (get-written m _ k j _ h refl refl
                ∙ elim (Bool-cases (get_key_pos T murmur m k == get_key_pos T murmur m j)) [
                  | inl same ↦
                      rw (same, same_shard m k j e same)
                        (ground (arith, Shard.Laws.get-put T s k j v))
                  | inr other ↦ rw (other, one_position m k j other)
                ])
        | inr missing ↦ ground (arith, set_if_exist_shape m k v e)
      ]
