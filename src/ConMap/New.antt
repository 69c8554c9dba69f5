-- ===== src/ConMap/New.antt =====
-- What `NewConcurrentMap` and `Clear` of pkg/memdb/concurrentmap.go make: an empty table whose
-- number of shards is a power of two, so that masking the hash picks a shard.
use tinyredis.Prelude.{
  ℕ, zero, suc, ◌-◌, ◌*◌, ◌^◌, ◌≤◌, ◌<◌, ◌≡◌, refl, sym, subst, ◌∙◌, if◌then◌else◌, ◌||◌, ◌==◌,
  Bool-cases, ==_iff, inl, inr, ◌/◌, none, some, arith, Bytes, find, get_elem?, length-replicate,
  elem-replicate,
}
use tinyredis.Prelude.Int.{ℤ, pos, ltb_ℤ, leb_ℤ}
use native.Mathlib.Nat.{pow-suc, mod-eq_of_lt}
use native.Mathlib.Numerals.{add-one}
use tinyredis.ConMap.Tree.{RedBlackTree}
use tinyredis.ConMap.Chain
use tinyredis.ConMap.Shard
use tinyredis.ConMap.Shard.{Shard, empty_shard}
use tinyredis.ConMap.{
  max_con_size, new_map, table_size, number_of_leading_zeros, get, get_key_pos, bit_length,
}
use tinyredis.ConMap.Laws.{IsValid, get-shard, shard_of}

pub pow_pos : (n : ℕ) → 0 < 2 ^ n
pow_pos zero = omega arith
pow_pos (suc n) = omega (arith, pow-suc 2 n, pow_pos n)

table_size_pos : (size : ℤ) → 0 < table_size size
unfolding table_size bit_length
table_size_pos size = pow_pos _

module _ {V : Type 0} (T : RedBlackTree V) where
  empty_shard-IsValid : Shard.Laws.IsValid T (empty_shard T)
  empty_shard-IsValid = record { distinct = tt; counted = refl }

  pub new_map-IsValid : (size : ℤ) → IsValid T (new_map T size)
  unfolding new_map
  new_map-IsValid size = record {
    shards_valid = λ i s e.
        subst (Shard.Laws.IsValid T) (sym (elem-replicate (table_size size) i (empty_shard T) s e))
          empty_shard-IsValid;
    masked = omega (arith, length-replicate (table_size size) (empty_shard T), table_size_pos size);
  }

module _ {V : Type 0} (T : RedBlackTree V) (murmur : Bytes → ℕ) where
  get-empty_shard : (k : Bytes) → Shard.get T (empty_shard T) k ≡ none
  unfolding Shard.get Chain.get find
  get-empty_shard k = refl

  -- A new table has no key.
  pub get-new_map : (size : ℤ) (k : Bytes) → get T murmur (new_map T size) k ≡ none
  get-new_map size k =
      let m = new_map T size in
      let (s, e) = shard_of T murmur m k (new_map-IsValid T size) in
      get-shard T murmur m k e ∙ rw (fresh_shard s e) (get-empty_shard k)
    where
      fresh_shard :
          (s : Shard T)
          → get_elem? (new_map T size).shards (get_key_pos T murmur (new_map T size) k) ≡ some s
          → s ≡ empty_shard T
      fresh_shard s e = unfold new_map in elem-replicate (table_size size) _ (empty_shard T) s e

bit_length_lt : (fuel n : ℕ) → n < 2 ^ fuel → n < 2 ^ bit_length fuel n
unfolding bit_length
bit_length_lt zero n h = h
bit_length_lt (suc fuel) n h = elim (Bool-cases (n == 0)) [
  | inl zeroed ↦ rw zeroed (ground arith)
  | inr more ↦
      rw (more, add-one)
        (omega (
          arith,
          pow-suc 2 fuel,
          pow-suc 2 (bit_length fuel (n / 2)),
          bit_length_lt fuel (n / 2) (omega (arith, pow-suc 2 fuel)),
        ))
]

bit_length_zero : (fuel : ℕ) → bit_length fuel 0 ≡ 0
unfolding bit_length
bit_length_zero zero = refl
bit_length_zero (suc fuel) = refl

bit_length-le : (fuel n : ℕ) → bit_length fuel n ≤ fuel
unfolding bit_length
bit_length-le zero n = omega arith
bit_length-le (suc fuel) n = ground (arith, bit_length-le fuel (n / 2))

bit_length_tight : (fuel n : ℕ) → 0 < n → 2 ^ bit_length fuel n ≤ 2 * n
unfolding bit_length
bit_length_tight zero n h = omega arith
bit_length_tight (suc fuel) n h = elim (Bool-cases (n == 0)) [
  | inl zeroed ↦ rw zeroed (omega arith)
  | inr more ↦
      rw (more, add-one)
        (elim (Bool-cases (n / 2 == 0)) [
          | inl half ↦
              rw ((==_iff (n / 2) 0).0 half, bit_length_zero fuel) (omega (arith, pow-suc 2 0))
          | inr some_left ↦ omega (
            arith,
            pow-suc 2 (bit_length fuel (n / 2)),
            bit_length_tight fuel (n / 2) (ground arith),
          )
        ])
]

nlz_small : (n : ℕ) → n < 2 ^ 32 → 32 - number_of_leading_zeros (pos n) ≡ bit_length 32 n
unfolding number_of_leading_zeros
nlz_small n h = elim (Bool-cases (n == 0)) [
  | inl e ↦ ground (arith, bit_length_zero 32)
  | inr e ↦ ground (arith, bit_length-le 32 n, mod-eq_of_lt h)
]

in_range :
    (n : ℕ)
    → 0 < n
    → n ≤ max_con_size
    → (if ltb_ℤ (pos max_con_size) (pos n) || leb_ℤ (pos n) (pos 0) then max_con_size else n) ≡ n
in_range n h small = ground arith

-- For a size from 1 to MaxConSize, `NewConcurrentMap` makes at least that many shards, and fewer
-- than twice as many.
pub table_size_bounds :
    (n : ℕ) → 0 < n → n ≤ max_con_size → (n ≤ table_size (pos n)) × (table_size (pos n) < 2 * n)
unfolding table_size bit_length
table_size_bounds n h small =
    rw (in_range n h small, nlz_small (n - 1) (omega arith))
      (elim (Bool-cases (n == 1)) [
        | inl e ↦ rw ((==_iff n 1).0 e) (omega arith, omega arith)
        | inr e ↦ (
          omega (arith, bit_length_lt 32 (n - 1) (omega arith)),
          omega (arith, bit_length_tight 32 (n - 1) (ground arith)),
        )
      ])
