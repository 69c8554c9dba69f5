-- ===== src/Lists/Move.antt =====
-- pkg/memdb/list.go: `lMoveList`. The two names may be one, and then the two lists are one object, so
-- the list that is pushed to is read after the other one has been popped from.
use tinyredis.Prelude.{not, Option, none, some, List, [], ◌∷◌, Bytes, if◌then◌else◌, ◌==◌}
use tinyredis.Prelude.Int.{ℤ}
use tinyredis.Resp.{null_bulk, bulk_data}
use tinyredis.Keyspace.{Keyspace}
use tinyredis.Expiry.{Expiry}
use tinyredis.DoubleList.{DoubleList, new_list, lpush, rpush, lpop, rpop}
use tinyredis.Value.{Value, list_value, as_list, Found, missing, wrong, found}
use tinyredis.MemDb.{MemDb, named, lookup, store, check_ttl}
use tinyredis.Strings.{Outcome, error, wrong_type}
use tinyredis.Command.{erase, apply_effect}

pub data End : Type 0 where
  left right : End

unfoldable pub end_of : Bytes → Option End
unfolding named
end_of word =
    if named word "left" then some left else if named word "right" then some right else none

unfoldable pub pop_at : End → DoubleList → DoubleList × Option Bytes
pop_at left l = lpop l
pop_at right l = rpop l

unfoldable pub push_at : End → DoubleList → Bytes → DoubleList
push_at left l val = lpush l val
push_at right l val = rpush l val

-- The list under a key, a new one if there is none.
unfoldable pub list_or_new : Found DoubleList → DoubleList
list_or_new (found l) = l
list_or_new _ = new_list

module _ (K : Keyspace Value) (E : Expiry) where
  -- The deferred check of the list that was popped from.
  unfoldable pub drop_if_empty : MemDb K E → Bytes → MemDb K E
  unfolding apply_effect
  drop_if_empty m src = elim (as_list (lookup K E m src)) [
    | found l ↦ if l.len == 0 then apply_effect K E m src erase else m
    | _ ↦ m
  ]

  -- From the pop on, for lists under both names.
  unfoldable pub move_element : MemDb K E → Bytes → Bytes → End → End → DoubleList → Outcome K E
  unfolding pop_at push_at list_or_new drop_if_empty
  move_element m src des from to l =
      let (l', val) = pop_at from l in
      let m1 = store K E m src (list_value l') in
      let target = list_or_new (as_list (lookup K E m1 des)) in
      elim val [
        | none ↦ (drop_if_empty m1 src, null_bulk)
        | some v ↦
            (drop_if_empty (store K E m1 des (list_value (push_at to target v))) src, bulk_data v)
      ]

  -- The part under the locks.
  unfoldable pub move_locked :
      MemDb K E → Bytes → Bytes → End → End → Found DoubleList → Found DoubleList → Outcome K E
  unfolding move_element apply_effect
  move_locked m src des from to missing dest = (m, null_bulk)
  move_locked m src des from to wrong dest = (m, wrong_type)
  move_locked m src des from to (found l) dest =
      if l.len == 0
      then (apply_effect K E m src erase, null_bulk)
      else elim dest [ wrong ↦ (m, wrong_type) | _ ↦ move_element m src des from to l ]

  unfoldable pub move_keys : MemDb K E → ℤ → Bytes → Bytes → End → End → Outcome K E
  unfolding move_locked
  move_keys m now src des from to =
      let (m1, live) = check_ttl K E m src now in
      let m2 = (check_ttl K E m1 des now).0 in
      if live
      then move_locked m2 src des from to (as_list (lookup K E m2 src))
          (as_list (lookup K E m2 des))
      else (m1, null_bulk)

  unfoldable pub lmove_list : MemDb K E → ℤ → Bytes → List Bytes → Outcome K E
  unfolding move_keys end_of
  lmove_list m now name args =
      if not (named name "lmove") then (m, error "Server error") else elim args [
        | src ∷ des ∷ from ∷ to ∷ [] ↦ elim (end_of from) [
          | none ↦ (m, error "options must be left or right")
          | some e ↦ elim (end_of to) [
            | none ↦ (m, error "options must be left or right")
            | some e' ↦ move_keys m now src des e e'
          ]
        ]
        | _ ↦ (m, error "wrong number of arguments for 'lmove' command")
      ]
