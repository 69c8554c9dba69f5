-- ===== src/Dispatch/Safety/Sets.antt =====
-- The commands of pkg/memdb/set.go.
use tinyredis.Prelude.{not, Option, none, some, List, [], ◌∷◌, Bytes, if◌then◌else◌, ◌==◌, length}
use tinyredis.Prelude.Int.{ℤ, pos}
use tinyredis.Resp.{RedisData, int_data}
use tinyredis.Keyspace.{Keyspace}
use tinyredis.Expiry.{Expiry}
use tinyredis.Value.{Value, set_value, as_set, Found, missing, wrong, found}
use tinyredis.MemDb.{MemDb, named, lookup, store, check_ttl}
use tinyredis.MemDb.View.{IsValid, store-IsValid}
use tinyredis.MemDb.Checks.{check_ttl-IsValid}
use tinyredis.Command.Laws.{update_key-IsValid, live_key-IsValid}
use tinyredis.Dispatch.Safety.{
  Keeps, if-Ok, option-Ok, one_word, two_words, three_words, more_words, pick,
}
use tinyredis.Strings.{Outcome, wrong_type}
use tinyredis.Value.{SetTable}
use tinyredis.Lists.{empty_array}
use tinyredis.Sets.{new_set, remove, union, difference}
use tinyredis.Sets.Commands.{
  sadd_set, srem_set, scard_set, sismember_set, smembers_set, spop_set, spop_count, smove_set,
  smove_locked, move_member,
}
use tinyredis.Sets.Algebra.{
  keep_sets, intersect_sets, check_keys, live_keys, read_sets, sunion_set, sdiff_set, sinter_set,
  store_result, store_sets, finish_union, finish_diff, finish_inter, sunionstore_set,
  sdiffstore_set, sinterstore_set,
}

module _ (K : Keyspace Value) (E : Expiry) where
  pub sadd_set-Keeps : Keeps K E (sadd_set K E)
  unfolding sadd_set
  sadd_set-Keeps m now name args h =
      if-Ok K E (not (named name "sadd")) _ _ h
        (more_words K E args _ _ h (λ key word rest. update_key-IsValid K E m now key _ h))

  pub srem_set-Keeps : Keeps K E (srem_set K E)
  unfolding srem_set
  srem_set-Keeps m now name args h =
      if-Ok K E (not (named name "srem")) _ _ h
        (more_words K E args _ _ h (λ key word rest. live_key-IsValid K E m now key _ _ h))

  pub scard_set-Keeps : Keeps K E (scard_set K E)
  unfolding scard_set
  scard_set-Keeps m now name args h =
      if-Ok K E (not (named name "scard")) _ _ h
        (one_word K E args _ _ h (λ key. live_key-IsValid K E m now key _ _ h))

  pub sismember_set-Keeps : Keeps K E (sismember_set K E)
  unfolding sismember_set
  sismember_set-Keeps m now name args h =
      if-Ok K E (not (named name "sismember")) _ _ h
        (two_words K E args _ _ h (λ key word. live_key-IsValid K E m now key _ _ h))

  move_member-Ok :
      (m : MemDb K E) (src des val : Bytes) (s : SetTable)
      → IsValid K E m
      → IsValid K E (move_member K E m src des val s).0
  unfolding move_member
  move_member-Ok m src des val s h =
      if-Ok K E ((remove s val).1 == 0) _ _ h
        (store-IsValid K E _ des (store-IsValid K E m src h (set_value (remove s val).0)) _)

  smove_locked-Ok :
      (m : MemDb K E) (src des val : Bytes) (o d : Found SetTable)
      → IsValid K E m
      → IsValid K E (smove_locked K E m src des val o d).0
  unfolding smove_locked
  smove_locked-Ok m src des val missing d h = h
  smove_locked-Ok m src des val wrong d h = h
  smove_locked-Ok m src des val (found s) wrong h = h
  smove_locked-Ok m src des val (found s) missing h = move_member-Ok m src des val s h
  smove_locked-Ok m src des val (found s) (found t) h = move_member-Ok m src des val s h

  pub smove_set-Keeps : Keeps K E (smove_set K E)
  unfolding smove_set
  smove_set-Keeps m now name args h = if-Ok K E (not (named name "smove")) _ _ h (
      three_words K E args _ _ h (λ src des val.
        let h1 = check_ttl-IsValid K E m des now h in
        let h2 = check_ttl-IsValid K E _ src now h1 in
        if-Ok K E (check_ttl K E (check_ttl K E m des now).0 src now).1 _ _
          (smove_locked-Ok _ src des val _ _ h2) h2))

  check_keys-IsValid :
      (m : MemDb K E) (now : ℤ) (keys : List Bytes)
      → IsValid K E m
      → IsValid K E (check_keys K E m now keys)
  unfolding check_keys
  check_keys-IsValid m now [] h = h
  check_keys-IsValid m now (key ∷ keys) h =
      check_keys-IsValid (check_ttl K E m key now).0 now keys (check_ttl-IsValid K E m key now h)

  live_keys-IsValid :
      (m : MemDb K E) (now : ℤ) (keys : List Bytes)
      → IsValid K E m
      → IsValid K E (live_keys K E m now keys).0
  unfolding live_keys
  live_keys-IsValid m now [] h = h
  live_keys-IsValid m now (key ∷ keys) h =
      live_keys-IsValid (check_ttl K E m key now).0 now keys (check_ttl-IsValid K E m key now h)

  store_result-Ok :
      (m : MemDb K E) (now : ℤ) (des : Bytes) (s : SetTable)
      → IsValid K E m
      → IsValid K E (store_result K E m now des s).0
  unfolding store_result
  store_result-Ok m now des s h = by_kind (as_set (lookup K E (check_ttl K E m des now).0 des))
    where
      m' : MemDb K E
      m' = (check_ttl K E m des now).0

      stored : IsValid K E (if s.size == 0 then m' else store K E m' des (set_value s))
      stored =
          let h' = check_ttl-IsValid K E m des now h in
          pick K E (s.size == 0) _ _ h' (store-IsValid K E m' des h' (set_value s))

      by_kind :
          (o : Found SetTable)
          → IsValid K E
              (elim o as (λ _. Outcome K E) [
                | wrong ↦ (m', wrong_type)
                | _ ↦ (
                  (if s.size == 0 then m' else store K E m' des (set_value s)),
                  int_data (pos s.size),
                )
              ]).0
      by_kind missing = stored
      by_kind wrong = check_ttl-IsValid K E m des now h
      by_kind (found t) = stored

  store_sets-Ok :
      {R : Type 0} (m : MemDb K E) (now : ℤ) (des : Bytes) (keys : List Bytes)
      (answer : RedisData → R) (finish : MemDb K E → List Bytes → MemDb K E × R)
      → IsValid K E m
      → ((m' : MemDb K E) (keys' : List Bytes) → IsValid K E m' → IsValid K E (finish m' keys').0)
      → IsValid K E (store_sets K E m now des keys answer finish).0
  unfolding store_sets
  store_sets-Ok {R} m now des keys answer finish h next = by_kind (as_set (lookup K E m1 des))
    where
      m1 : MemDb K E
      m1 = (check_ttl K E m des now).0

      h1 : IsValid K E m1
      h1 = check_ttl-IsValid K E m des now h

      going :
          IsValid K E
            (if length (live_keys K E m1 now keys).1 == 0
              then ((live_keys K E m1 now keys).0, answer (int_data (pos 0)))
              else finish (live_keys K E m1 now keys).0 (live_keys K E m1 now keys).1).0
      going =
          let h2 = live_keys-IsValid m1 now keys h1 in
          if-Ok K E (length (live_keys K E m1 now keys).1 == 0) _ _ h2 (next _ _ h2)

      by_kind :
          (o : Found SetTable)
          → IsValid K E
              (elim o as (λ _. MemDb K E × R) [
                | wrong ↦ (m1, answer wrong_type)
                | _ ↦
                    if length (live_keys K E m1 now keys).1 == 0
                    then ((live_keys K E m1 now keys).0, answer (int_data (pos 0)))
                    else finish (live_keys K E m1 now keys).0 (live_keys K E m1 now keys).1
              ]).0
      by_kind missing = going
      by_kind wrong = h1
      by_kind (found t) = going

  finish_union-Ok :
      (now : ℤ) (des : Bytes) (m : MemDb K E) (keys : List Bytes)
      → IsValid K E m
      → IsValid K E (finish_union K E now des m keys).0
  unfolding finish_union
  finish_union-Ok now des m keys h = by_sets (keep_sets (read_sets K E m keys))
    where
      by_sets :
          (o : Option (List SetTable))
          → IsValid K E
              (elim o as (λ _. Outcome K E) [
                | none ↦ (m, wrong_type)
                | some [] ↦ (m, empty_array)
                | some (s ∷ sets) ↦ store_result K E m now des (union s sets)
              ]).0
      by_sets none = h
      by_sets (some []) = h
      by_sets (some (s ∷ sets)) = store_result-Ok m now des (union s sets) h

  finish_diff-Ok :
      (now : ℤ) (des : Bytes) (m : MemDb K E) (keys : List Bytes)
      → IsValid K E m
      → IsValid K E (finish_diff K E now des m keys).0
  unfolding finish_diff
  finish_diff-Ok now des m [] h = h
  finish_diff-Ok now des m (key ∷ rest) h = by_kind (as_set (lookup K E m key))
    where
      by_kind :
          (o : Found SetTable)
          → IsValid K E
              (elim o as (λ _. Outcome K E) [
                | missing ↦ store_result K E m now des new_set
                | wrong ↦ (m, wrong_type)
                | found s ↦ elim (keep_sets (read_sets K E m rest)) [
                  | none ↦ (m, wrong_type)
                  | some sets ↦ store_result K E m now des (difference s sets)
                ]
              ]).0
      by_kind missing = store_result-Ok m now des new_set h
      by_kind wrong = h
      by_kind (found s) =
          option-Ok K E (keep_sets (read_sets K E m rest)) _ _ h
            (λ sets. store_result-Ok m now des (difference s sets) h)

  finish_inter-Ok :
      (now : ℤ) (des : Bytes) (m : MemDb K E) (keys : List Bytes)
      → IsValid K E m
      → IsValid K E (finish_inter K E now des m keys).0
  unfolding finish_inter
  finish_inter-Ok now des m keys h =
      option-Ok K E (keep_sets (read_sets K E m keys)) _ _ h
        (λ sets. option-Ok K E (intersect_sets sets) _ _ h (λ s. store_result-Ok m now des s h))

  pub sunionstore_set-Keeps : Keeps K E (sunionstore_set K E)
  unfolding sunionstore_set
  sunionstore_set-Keeps m now name args h = if-Ok K E (not (named name "sunionstore")) _ _ h (
      more_words K E args _ _ h (λ des key keys.
        store_sets-Ok m now des (key ∷ keys) (λ r. r) (finish_union K E now des) h
          (finish_union-Ok now des)))

  pub sdiffstore_set-Keeps : Keeps K E (sdiffstore_set K E)
  unfolding sdiffstore_set
  sdiffstore_set-Keeps m now name args h = if-Ok K E (not (named name "sdiffstore")) _ _ h (
      more_words K E args _ _ h (λ des key keys.
        store_sets-Ok m now des (key ∷ keys) (λ r. r) (finish_diff K E now des) h
          (finish_diff-Ok now des)))

  pub sinterstore_set-Keeps : Keeps K E (sinterstore_set K E)
  unfolding sinterstore_set
  sinterstore_set-Keeps m now name args h = if-Ok K E (not (named name "sinterstore")) _ _ h (
      more_words K E args _ _ h (λ des key keys.
        store_sets-Ok m now des (key ∷ keys) some (finish_inter K E now des) h
          (finish_inter-Ok now des)))

  module _ (visit : List Bytes → List Bytes) where
    pub smembers_set-Keeps : Keeps K E (smembers_set K E visit)
    unfolding smembers_set
    smembers_set-Keeps m now name args h =
        if-Ok K E (not (named name "smembers")) _ _ h
          (one_word K E args _ _ h (λ key. live_key-IsValid K E m now key _ _ h))

    pub spop_set-Keeps : Keeps K E (spop_set K E visit)
    unfolding spop_set
    spop_set-Keeps m now name [] h = if-Ok K E (not (named name "spop")) _ _ h h
    spop_set-Keeps m now name (key ∷ []) h =
        if-Ok K E (not (named name "spop")) _ _ h (live_key-IsValid K E m now key _ _ h)
    spop_set-Keeps m now name (key ∷ count ∷ []) h =
        if-Ok K E (not (named name "spop")) _ _ h
          (option-Ok K E (spop_count count) _ _ h (λ n. live_key-IsValid K E m now key _ _ h))
    spop_set-Keeps m now name (key ∷ count ∷ _ ∷ _) h = if-Ok K E (not (named name "spop")) _ _ h h

    pub sunion_set-Keeps : Keeps K E (sunion_set K E visit)
    unfolding sunion_set
    sunion_set-Keeps m now name [] h = h
    sunion_set-Keeps m now name (key ∷ rest) h =
        let h' = live_keys-IsValid m now (key ∷ rest) h in
        if-Ok K E (not (named name "sunion")) _ _ h
          (if-Ok K E (length (live_keys K E m now (key ∷ rest)).1 == 0) _ _ h' h')

    pub sdiff_set-Keeps : Keeps K E (sdiff_set K E visit)
    unfolding sdiff_set
    sdiff_set-Keeps m now name [] h = h
    sdiff_set-Keeps m now name (key ∷ rest) h =
        if-Ok K E (not (named name "sdiff")) _ _ h (check_keys-IsValid m now (key ∷ rest) h)

    pub sinter_set-Keeps : Keeps K E (sinter_set K E visit)
    unfolding sinter_set
    sinter_set-Keeps m now name [] h = h
    sinter_set-Keeps m now name (key ∷ rest) h =
        if-Ok K E (not (named name "sinter")) _ _ h (check_keys-IsValid m now (key ∷ rest) h)
