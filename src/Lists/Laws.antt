-- ===== src/Lists/Laws.antt =====
-- The commands of pkg/memdb/list.go, as a client sees them: a list shows as the sequence of its values.
use tinyredis.Prelude.{
  ℕ, zero, suc, ◌≡◌, refl, sym, ap, subst, ◌∙◌, true, Option, none, some, List, [], ◌∷◌, ◌++◌,
  arith, Bytes, reverse, length, length-append, append-nil, append_assoc, take, drop,
}
use tinyredis.Prelude.Int.{ℤ, pos}
use tinyredis.Decimal.{parse_int}
use tinyredis.Resp.{RedisData, int_data, null_bulk}
use tinyredis.Keyspace.{Keyspace}
use tinyredis.Expiry.{Expiry}
use tinyredis.DoubleList.{DoubleList, new_list, lpush, rpush, lpop, rpop}
use mathlib.Core.List.{reverse-cons, reverse-reverse}
use native.Mathlib.Numerals.{add-one}
use tinyredis.DoubleList.Laws.{rpop-rpush, lpop-lpush}
use tinyredis.Value.{Value, list_value, as_list}
use tinyredis.MemDb.{MemDb, named}
use tinyredis.MemDb.View
use tinyredis.MemDb.View.{live}
use tinyredis.Command.{Effect, keep, put, erase, by_type, update_key, live_key}
use tinyredis.Command.Laws.{Does, update_key_lem, live_key_lem}
use tinyredis.Lists.{bulks, put_list, lpush_loop, rpush_loop, push_value, pop_loop, pop_value}
use tinyredis.Lists.Commands.{lpush_list, rpush_list, lpop_list, rpop_list, pop_count}

-- A list with its right counter.
abbrev pub of_vals : List Bytes → DoubleList
of_vals vals = record { vals = vals; len = length vals }

-- What a key holds for a sequence: an empty list is not kept.
abbrev pub listed : List Bytes → Option Value
listed [] = none
listed (v ∷ vals) = some (list_value (of_vals (v ∷ vals)))

lpush-of_vals : (vals : List Bytes) (v : Bytes) → lpush (of_vals vals) v ≡ of_vals (v ∷ vals)
unfolding lpush
lpush-of_vals vals v = rw add-one

rpush-of_vals : (vals : List Bytes) (v : Bytes) → rpush (of_vals vals) v ≡ of_vals (vals ++ v ∷ [])
unfolding rpush
rpush-of_vals vals v = rw (length-append vals (v ∷ []))

lpop-of_vals : (v : Bytes) (vals : List Bytes) → lpop (of_vals (v ∷ vals)) ≡ (of_vals vals, some v)
lpop-of_vals v vals = ap lpop (sym (lpush-of_vals vals v)) ∙ lpop-lpush (of_vals vals) v

rpop-of_vals :
    (vals : List Bytes) (v : Bytes) → rpop (of_vals (vals ++ v ∷ [])) ≡ (of_vals vals, some v)
rpop-of_vals vals v =
    ap rpop (sym (rpush-of_vals vals v)) ∙ rpop-rpush (of_vals vals) v (record { counted = refl })

lpush_loop_lem :
    (vals more : List Bytes) → lpush_loop (of_vals vals) more ≡ of_vals (reverse more ++ vals)
unfolding lpush_loop
lpush_loop_lem vals [] = refl
lpush_loop_lem vals (v ∷ more) =
    ap (λ l. lpush_loop l more) (lpush-of_vals vals v)
    ∙ lpush_loop_lem (v ∷ vals) more
    ∙ ap of_vals (
        sym (append_assoc (reverse more) (v ∷ []) vals)
        ∙ ap (λ l. l ++ vals) (sym (reverse-cons v more)))

rpush_loop_lem : (vals more : List Bytes) → rpush_loop (of_vals vals) more ≡ of_vals (vals ++ more)
unfolding rpush_loop
rpush_loop_lem vals [] = rw (append-nil vals)
rpush_loop_lem vals (v ∷ more) =
    ap (λ l. rpush_loop l more) (rpush-of_vals vals v)
    ∙ rpush_loop_lem (vals ++ v ∷ []) more
    ∙ ap of_vals (append_assoc vals (v ∷ []) more)

-- A round of the loop, after its pop.
abbrev popped :
    (DoubleList → DoubleList × Option Bytes)
    → ℕ
    → DoubleList × Option Bytes
    → DoubleList × List Bytes
popped pop n p = elim p.1 [
  | none ↦ (p.0, [])
  | some v ↦ ((pop_loop pop n p.0).0, v ∷ (pop_loop pop n p.0).1)
]

pop_loop-suc :
    (pop : DoubleList → DoubleList × Option Bytes) (n : ℕ) {l l' : DoubleList} {v : Bytes}
    → pop l ≡ (l', some v)
    → pop_loop pop (suc n) l ≡ ((pop_loop pop n l').0, v ∷ (pop_loop pop n l').1)
unfolding pop_loop
pop_loop-suc pop n e = ap (popped pop n) e

lpop_loop_lem :
    (n : ℕ) (vals : List Bytes)
    → pop_loop lpop n (of_vals vals) ≡ (of_vals (drop n vals), take n vals)
unfolding pop_loop
lpop_loop_lem zero vals = refl
lpop_loop_lem (suc n) [] = unfold lpop in refl
lpop_loop_lem (suc n) (v ∷ vals) =
    pop_loop-suc lpop n (lpop-of_vals v vals) ∙ rw (lpop_loop_lem n vals)

rpop_loop_lem :
    (n : ℕ) (vals : List Bytes)
    → pop_loop rpop n (of_vals (reverse vals)) ≡ (of_vals (reverse (drop n vals)), take n vals)
unfolding pop_loop
rpop_loop_lem zero vals = refl
rpop_loop_lem (suc n) [] = unfold rpop in refl
rpop_loop_lem (suc n) (v ∷ vals) =
    pop_loop-suc rpop n
      (ap (λ l. rpop (of_vals l)) (reverse-cons v vals) ∙ rpop-of_vals (reverse vals) v)
    ∙ rw (rpop_loop_lem n vals)

-- What is put back for a sequence: an empty list goes.
abbrev pub put_vals : List Bytes → Effect
put_vals [] = erase
put_vals (v ∷ vals) = put (list_value (of_vals (v ∷ vals)))

put_list-of_vals : (vals : List Bytes) → put_list (of_vals vals) ≡ put_vals vals
unfolding put_list
put_list-of_vals [] = refl
put_list-of_vals (v ∷ vals) = ground arith

-- A list that is pushed to: it holds what `push` makes of the values that show.
push_lem :
    (push : DoubleList → List Bytes → DoubleList) (old vals new : List Bytes)
    → push (of_vals old) vals ≡ of_vals new
    → by_type (push_value push vals new_list) (push_value push vals) (as_list (listed old))
      ≡ (put (list_value (of_vals new)), int_data (pos (length new)))
unfolding by_type push_value as_list
push_lem push [] vals new e = rw e
push_lem push (v ∷ old) vals new e = rw e

pop_lem :
    (pop : DoubleList → DoubleList × Option Bytes) (n : ℕ) (v : Bytes)
    (vals left taken : List Bytes)
    → pop_loop pop (suc n) (of_vals (v ∷ vals)) ≡ (of_vals left, taken)
    → pop_value pop (suc n) (listed (v ∷ vals)) ≡ (put_vals left, bulks taken)
unfolding pop_value by_type as_list
pop_lem pop n v vals left taken e = rw (e, put_list-of_vals left)

-- What RPUSH and LPOP with a count do to a key, by the values that it shows.
abbrev pub pushed : List Bytes → Effect × RedisData
pushed new = (put (list_value (of_vals new)), int_data (pos (length new)))

abbrev pub taken_from : List Bytes → List Bytes → Effect × RedisData
taken_from left taken = (put_vals left, bulks taken)

pop_missing :
    (pop : DoubleList → DoubleList × Option Bytes) (n : ℕ)
    → pop_value pop n none ≡ (keep, null_bulk)
unfolding pop_value by_type as_list
pop_missing pop zero = refl
pop_missing pop (suc n) = refl

pop_count-number :
    (count : Bytes) (n : ℕ) → parse_int count ≡ some (pos (suc n)) → pop_count count ≡ some (suc n)
unfolding pop_count
pop_count-number count n e = rw (e, pop_count) (ground arith)

module _ (K : Keyspace Value) (E : Expiry) (m : MemDb K E) (now : ℤ) (name key : Bytes)
    (h : View.IsValid K E m) where
  pushed_to :
      (push : DoubleList → List Bytes → DoubleList) (old vals new : List Bytes)
      → live K E m now key ≡ listed old
      → push (of_vals old) vals ≡ of_vals new
      → Does K E m now key (pushed new) (
          update_key K E m now key
            (λ w. by_type (push_value push vals new_list) (push_value push vals) (as_list w)))
  pushed_to push old vals new shown e =
      subst (λ o. Does K E m now key o (update_key K E m now key f))
        (ap f shown ∙ push_lem push old vals new e) (update_key_lem K E m now key h f)
    where
      f : Option Value → Effect × RedisData
      f w = by_type (push_value push vals new_list) (push_value push vals) (as_list w)

  -- LPUSH of one value or more on a well-formed database, where the key shows nothing or a list
  -- with its right counter, leaves under the key the pushed values in reverse before the old ones
  -- and answers the new length; other keys show what they did.
  pub lpush_list_lem :
      (v : Bytes) (vals old : List Bytes)
      → named name "lpush" ≡ true
      → live K E m now key ≡ listed old
      → Does K E m now key
          (pushed (reverse (v ∷ vals) ++ old))
          (lpush_list K E m now name (key ∷ v ∷ vals))
  unfolding lpush_list
  lpush_list_lem v vals old e shown =
      rw e (pushed_to lpush_loop old (v ∷ vals) _ shown (lpush_loop_lem old (v ∷ vals)))

  pub rpush_list_lem :
      (v : Bytes) (vals old : List Bytes)
      → named name "rpush" ≡ true
      → live K E m now key ≡ listed old
      → Does K E m now key (pushed (old ++ v ∷ vals)) (rpush_list K E m now name (key ∷ v ∷ vals))
  unfolding rpush_list
  rpush_list_lem v vals old e shown =
      rw e (pushed_to rpush_loop old (v ∷ vals) _ shown (rpush_loop_lem old (v ∷ vals)))

  popped_from :
      (pop : DoubleList → DoubleList × Option Bytes) (n : ℕ) (v : Bytes)
      (vals left taken : List Bytes)
      → live K E m now key ≡ listed (v ∷ vals)
      → pop_loop pop (suc n) (of_vals (v ∷ vals)) ≡ (of_vals left, taken)
      → Does K E m now key
          (taken_from left taken)
          (live_key K E m now key null_bulk (pop_value pop (suc n)))
  popped_from pop n v vals left taken shown e =
      subst (λ o. Does K E m now key o (live_key K E m now key null_bulk (pop_value pop (suc n))))
        (ap (pop_value pop (suc n)) shown ∙ pop_lem pop n v vals left taken e)
        (live_key_lem K E m now key h null_bulk (pop_value pop (suc n)) (pop_missing pop (suc n)))

  -- LPOP with a count above 0 answers the first values of the list that shows, and leaves the others.
  pub lpop_list_lem :
      (count v : Bytes) (n : ℕ) (vals : List Bytes)
      → named name "lpop" ≡ true
      → parse_int count ≡ some (pos (suc n))
      → live K E m now key ≡ listed (v ∷ vals)
      → Does K E m now key
          (taken_from (drop (suc n) (v ∷ vals)) (take (suc n) (v ∷ vals)))
          (lpop_list K E m now name (key ∷ count ∷ []))
  unfolding lpop_list
  lpop_list_lem count v n vals e parsed shown =
      rw (e, pop_count-number count n parsed)
        (popped_from lpop n v vals _ _ shown (lpop_loop_lem (suc n) (v ∷ vals)))

  -- RPOP with a count above 0 on a well-formed database, where the key shows a list that is not
  -- empty, answers the last values from the end on, as many as the count or as there are, and
  -- leaves the others under the key in their order, or no key where none is left; other keys show
  -- what they did.
  pub rpop_list_lem :
      (count v : Bytes) (n : ℕ) (vals : List Bytes)
      → named name "rpop" ≡ true
      → parse_int count ≡ some (pos (suc n))
      → live K E m now key ≡ listed (v ∷ vals)
      → Does K E m now key
          (taken_from
            (reverse (drop (suc n) (reverse (v ∷ vals))))
            (take (suc n) (reverse (v ∷ vals))))
          (rpop_list K E m now name (key ∷ count ∷ []))
  unfolding rpop_list
  rpop_list_lem count v n vals e parsed shown =
      rw (e, pop_count-number count n parsed)
        (popped_from rpop n v vals _ _ shown (
          ap (λ l. pop_loop rpop (suc n) (of_vals l)) (sym (reverse-reverse (v ∷ vals)))
          ∙ rpop_loop_lem (suc n) (reverse (v ∷ vals))))
