-- ===== src/Dispatch/Safety/Lists.antt =====
-- The commands of pkg/memdb/list.go.
use tinyredis.Prelude.{not, [], ◌∷◌, Bytes, if◌then◌else◌, ◌==◌, length, ◌%◌}
use tinyredis.Prelude.Int.{ℤ}
use tinyredis.Decimal.{parse_int}
use tinyredis.Keyspace.{Keyspace}
use tinyredis.Expiry.{Expiry}
use tinyredis.Value.{Value, list_value, as_list, Found, missing, wrong, found}
use tinyredis.MemDb.{MemDb, named, lookup, check_ttl}
use tinyredis.MemDb.View.{IsValid, store-IsValid}
use tinyredis.MemDb.Checks.{check_ttl-IsValid}
use tinyredis.Command.Laws.{update_key-IsValid, live_key-IsValid, apply_effect-IsValid}
use tinyredis.Dispatch.Safety.{
  Keeps, if-Ok, option-Ok, one_word, two_words, three_words, more_words, pick,
}
use tinyredis.Strings.{Outcome, wrong_type}
use tinyredis.Command.{erase, apply_effect}
use tinyredis.DoubleList.{DoubleList}
use tinyredis.Lists.Commands.{
  llen_list, lindex_list, lpush_list, rpush_list, lpushx_list, rpushx_list, lpop_list, rpop_list,
  lset_list, lrem_list, ltrim_list, lrange_list, pop_count, two_numbers,
}
use tinyredis.Lists.Move.{
  End, lmove_list, move_keys, move_locked, move_element, drop_if_empty, end_of, pop_at,
}
use tinyredis.Lists.Position.{
  lpos_list, ParsedPos, PosOptions, pos_options, pos_refused, read_options,
}

module _ (K : Keyspace Value) (E : Expiry) where
  pub llen_list-Keeps : Keeps K E (llen_list K E)
  unfolding llen_list
  llen_list-Keeps m now name args h =
      if-Ok K E (not (named name "llen")) _ _ h
        (one_word K E args _ _ h (λ key. live_key-IsValid K E m now key _ _ h))

  pub lindex_list-Keeps : Keeps K E (lindex_list K E)
  unfolding lindex_list
  lindex_list-Keeps m now name args h = if-Ok K E (not (named name "lindex")) _ _ h (
      two_words K E args _ _ h (λ key word.
        option-Ok K E (parse_int word) _ _ h (λ n. live_key-IsValid K E m now key _ _ h)))

  pub lpush_list-Keeps : Keeps K E (lpush_list K E)
  unfolding lpush_list
  lpush_list-Keeps m now name args h =
      if-Ok K E (not (named name "lpush")) _ _ h
        (more_words K E args _ _ h (λ key word rest. update_key-IsValid K E m now key _ h))

  pub rpush_list-Keeps : Keeps K E (rpush_list K E)
  unfolding rpush_list
  rpush_list-Keeps m now name args h =
      if-Ok K E (not (named name "rpush")) _ _ h
        (more_words K E args _ _ h (λ key word rest. update_key-IsValid K E m now key _ h))

  pub lpushx_list-Keeps : Keeps K E (lpushx_list K E)
  unfolding lpushx_list
  lpushx_list-Keeps m now name args h =
      if-Ok K E (not (named name "lpushx")) _ _ h
        (more_words K E args _ _ h (λ key word rest. update_key-IsValid K E m now key _ h))

  pub rpushx_list-Keeps : Keeps K E (rpushx_list K E)
  unfolding rpushx_list
  rpushx_list-Keeps m now name args h =
      if-Ok K E (not (named name "rpushx")) _ _ h
        (more_words K E args _ _ h (λ key word rest. update_key-IsValid K E m now key _ h))

  pub lpop_list-Keeps : Keeps K E (lpop_list K E)
  unfolding lpop_list
  lpop_list-Keeps m now name [] h = if-Ok K E (not (named name "lpop")) _ _ h h
  lpop_list-Keeps m now name (key ∷ []) h =
      if-Ok K E (not (named name "lpop")) _ _ h (live_key-IsValid K E m now key _ _ h)
  lpop_list-Keeps m now name (key ∷ count ∷ []) h =
      if-Ok K E (not (named name "lpop")) _ _ h
        (option-Ok K E (pop_count count) _ _ h (λ cnt. live_key-IsValid K E m now key _ _ h))
  lpop_list-Keeps m now name (key ∷ count ∷ _ ∷ _) h = if-Ok K E (not (named name "lpop")) _ _ h h

  pub rpop_list-Keeps : Keeps K E (rpop_list K E)
  unfolding rpop_list
  rpop_list-Keeps m now name [] h = if-Ok K E (not (named name "rpop")) _ _ h h
  rpop_list-Keeps m now name (key ∷ []) h =
      if-Ok K E (not (named name "rpop")) _ _ h (live_key-IsValid K E m now key _ _ h)
  rpop_list-Keeps m now name (key ∷ count ∷ []) h =
      if-Ok K E (not (named name "rpop")) _ _ h
        (option-Ok K E (pop_count count) _ _ h (λ cnt. live_key-IsValid K E m now key _ _ h))
  rpop_list-Keeps m now name (key ∷ count ∷ _ ∷ _) h = if-Ok K E (not (named name "rpop")) _ _ h h

  pub lset_list-Keeps : Keeps K E (lset_list K E)
  unfolding lset_list
  lset_list-Keeps m now name args h = if-Ok K E (not (named name "lset")) _ _ h (
      three_words K E args _ _ h (λ key word next.
        option-Ok K E (parse_int word) _ _ h (λ n. live_key-IsValid K E m now key _ _ h)))

  pub lrem_list-Keeps : Keeps K E (lrem_list K E)
  unfolding lrem_list
  lrem_list-Keeps m now name args h = if-Ok K E (not (named name "lrem")) _ _ h (
      three_words K E args _ _ h (λ key word next.
        option-Ok K E (parse_int word) _ _ h (λ n. live_key-IsValid K E m now key _ _ h)))

  pub ltrim_list-Keeps : Keeps K E (ltrim_list K E)
  unfolding ltrim_list
  ltrim_list-Keeps m now name args h = if-Ok K E (not (named name "ltrim")) _ _ h (
      three_words K E args _ _ h (λ key word next.
        option-Ok K E (two_numbers word next) _ _ h (λ n. live_key-IsValid K E m now key _ _ h)))

  pub lrange_list-Keeps : Keeps K E (lrange_list K E)
  unfolding lrange_list
  lrange_list-Keeps m now name args h = if-Ok K E (not (named name "lrange")) _ _ h (
      three_words K E args _ _ h (λ key word next.
        option-Ok K E (two_numbers word next) _ _ h (λ n. live_key-IsValid K E m now key _ _ h)))

  drop_if_empty-IsValid :
      (m : MemDb K E) (src : Bytes) → IsValid K E m → IsValid K E (drop_if_empty K E m src)
  unfolding drop_if_empty
  drop_if_empty-IsValid m src h = by_kind (as_list (lookup K E m src))
    where
      by_kind :
          (o : Found DoubleList)
          → IsValid K E
              (elim o [ found l ↦ if l.len == 0 then apply_effect K E m src erase else m | _ ↦ m ])
      by_kind missing = h
      by_kind wrong = h
      by_kind (found l) = pick K E (l.len == 0) _ _ (apply_effect-IsValid K E m src erase h) h

  move_element-Ok :
      (m : MemDb K E) (src des : Bytes) (from to : End) (l : DoubleList)
      → IsValid K E m
      → IsValid K E (move_element K E m src des from to l).0
  unfolding move_element
  move_element-Ok m src des from to l h =
      let h1 = store-IsValid K E m src h (list_value (pop_at from l).0) in
      option-Ok K E (pop_at from l).1 _ _ (drop_if_empty-IsValid _ src h1)
        (λ v. drop_if_empty-IsValid _ src (store-IsValid K E _ des h1 _))

  move_locked-Ok :
      (m : MemDb K E) (src des : Bytes) (from to : End) (o d : Found DoubleList)
      → IsValid K E m
      → IsValid K E (move_locked K E m src des from to o d).0
  unfolding move_locked
  move_locked-Ok m src des from to missing d h = h
  move_locked-Ok m src des from to wrong d h = h
  move_locked-Ok m src des from to (found l) d h =
      if-Ok K E (l.len == 0) _ _ (apply_effect-IsValid K E m src erase h) (by_kind d)
    where
      by_kind :
          (d : Found DoubleList)
          → IsValid K E
              (elim d as (λ _. Outcome K E) [
                | wrong ↦ (m, wrong_type)
                | _ ↦ move_element K E m src des from to l
              ]).0
      by_kind missing = move_element-Ok m src des from to l h
      by_kind wrong = h
      by_kind (found t) = move_element-Ok m src des from to l h

  move_keys-Ok :
      (m : MemDb K E) (now : ℤ) (src des : Bytes) (from to : End)
      → IsValid K E m
      → IsValid K E (move_keys K E m now src des from to).0
  unfolding move_keys
  move_keys-Ok m now src des from to h =
      let h1 = check_ttl-IsValid K E m src now h in
      if-Ok K E (check_ttl K E m src now).1 _ _
        (move_locked-Ok _ src des from to
          (as_list (lookup K E (check_ttl K E (check_ttl K E m src now).0 des now).0 src))
          (as_list (lookup K E (check_ttl K E (check_ttl K E m src now).0 des now).0 des))
          (check_ttl-IsValid K E _ des now h1))
        h1

  pub lmove_list-Keeps : Keeps K E (lmove_list K E)
  unfolding lmove_list
  lmove_list-Keeps m now name [] h = if-Ok K E (not (named name "lmove")) _ _ h h
  lmove_list-Keeps m now name (_ ∷ []) h = if-Ok K E (not (named name "lmove")) _ _ h h
  lmove_list-Keeps m now name (_ ∷ _ ∷ []) h = if-Ok K E (not (named name "lmove")) _ _ h h
  lmove_list-Keeps m now name (_ ∷ _ ∷ _ ∷ []) h = if-Ok K E (not (named name "lmove")) _ _ h h
  lmove_list-Keeps m now name (src ∷ des ∷ from ∷ to ∷ []) h =
      if-Ok K E (not (named name "lmove")) _ _ h (
        option-Ok K E (end_of from) _ _ h
          (λ e. option-Ok K E (end_of to) _ _ h (λ e'. move_keys-Ok m now src des e e' h)))
  lmove_list-Keeps m now name (_ ∷ _ ∷ _ ∷ _ ∷ _ ∷ _) h =
      if-Ok K E (not (named name "lmove")) _ _ h h

  parsed-Ok :
      (p : ParsedPos) (m : MemDb K E) (f : PosOptions → Outcome K E)
      → IsValid K E m
      → ((o : PosOptions) → IsValid K E (f o).0)
      → IsValid K E
          (elim p as (λ _. Outcome K E) [ pos_refused reply ↦ (m, reply) | pos_options o ↦ f o ]).0
  parsed-Ok (pos_options o) m f h h' = h' o
  parsed-Ok (pos_refused reply) m f h h' = h

  pub lpos_list-Keeps : Keeps K E (lpos_list K E)
  unfolding lpos_list
  lpos_list-Keeps m now name args h = if-Ok K E (not (named name "lpos")) _ _ h (
      more_words K E args _ _ h (λ key elem rest.
        if-Ok K E (length rest % 2 == 1) _ _ h
          (parsed-Ok (read_options rest _) m _ h (λ o. live_key-IsValid K E m now key _ _ h))))
