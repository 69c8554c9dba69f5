-- ===== src/Sets/Members.antt =====
-- SADD of pkg/memdb/set.go, as a client sees it.
use tinyredis.Prelude.{
  ◌+◌, ◌-◌, ◌≡◌, ◌≢◌, refl, ap, ◌∙◌, subst, true, List, [], ◌∷◌, arith, Bytes, ◌||◌,
}
use tinyredis.Prelude.Int.{ℤ, pos}
use tinyredis.Resp.{int_data}
use tinyredis.Keyspace.{Keyspace}
use tinyredis.Expiry.{Expiry}
use tinyredis.Value.{Value, SetTable, set_value, as_set, Found, missing, wrong, found}
use tinyredis.MemDb.{MemDb, named}
use tinyredis.MemDb.View
use tinyredis.MemDb.View.{live}
use tinyredis.Command.{put, by_type, update_key}
use tinyredis.Command.Laws.{Does, update_key_lem}
use tinyredis.Sets.{new_set, contains, add, has}
use tinyredis.Sets.Laws.{IsValid, add-IsValid, has-add}
use tinyredis.Sets.Commands.{add_loop, sadd_value, sadd_set}

add_loop-IsValid : (s : SetTable) (keys : List Bytes) → IsValid s → IsValid (add_loop s keys).0
unfolding add_loop
add_loop-IsValid s [] h = h
add_loop-IsValid s (key ∷ keys) h = add_loop-IsValid (add s key).0 keys (add-IsValid s key h)

has-add_loop :
    (s : SetTable) (keys : List Bytes) (j : Bytes)
    → has (add_loop s keys).0 j ≡ has s j || contains j keys
unfolding add_loop contains
has-add_loop s [] j = ground arith
has-add_loop s (key ∷ keys) j = ground (arith, has-add_loop (add s key).0 keys j, has-add s key j)

size-add : (s : SetTable) (key : Bytes) → (add s key).0.size ≡ s.size + (add s key).1
unfolding add
size-add s key = ground arith

size-add_loop :
    (s : SetTable) (keys : List Bytes) → (add_loop s keys).0.size ≡ s.size + (add_loop s keys).1
unfolding add_loop
size-add_loop s [] = omega arith
size-add_loop s (key ∷ keys) = omega (arith, size-add s key, size-add_loop (add s key).0 keys)

-- The set that a command starts from.
abbrev pub set_before : Found SetTable → SetTable
set_before (found s) = s
set_before _ = new_set

sadd_value_lem :
    (keys : List Bytes) (v : Found SetTable)
    → v ≢ wrong
    → by_type
        (put (set_value (add_loop new_set keys).0), int_data (pos (add_loop new_set keys).1))
        (λ s. (put (set_value (add_loop s keys).0), int_data (pos (add_loop s keys).1)))
        v
      ≡ (
        put (set_value (add_loop (set_before v) keys).0),
        int_data (pos (add_loop (set_before v) keys).1),
      )
unfolding by_type
sadd_value_lem keys missing h = refl
sadd_value_lem keys wrong h = absurd (h refl)
sadd_value_lem keys (found s) h = refl

module _ (K : Keyspace Value) (E : Expiry) (m : MemDb K E) (now : ℤ) (name key : Bytes)
    (h : View.IsValid K E m) where
  -- SADD of one member or more on a well-formed database, of a key that shows a set with a right
  -- counter, or nothing, which counts as the empty set, leaves a set with a right counter that has
  -- the members from before and the added ones and no others, and answers by how many it has
  -- grown; other keys show what they did.
  pub sadd_set_lem :
      (val : Bytes) (vals : List Bytes)
      → named name "sadd" ≡ true
      → as_set (live K E m now key) ≢ wrong
      → IsValid (set_before (as_set (live K E m now key)))
      → (t : SetTable) × IsValid t
        × ((j : Bytes)
            → has t j ≡ has (set_before (as_set (live K E m now key))) j || contains j (val ∷ vals))
        × Does K E m now key
            (
              put (set_value t),
              int_data (pos (t.size - (set_before (as_set (live K E m now key))).size)),
            )
            (sadd_set K E m now name (key ∷ val ∷ vals))
  unfolding sadd_set sadd_value
  sadd_set_lem val vals e free valid =
      let keys : List Bytes = val ∷ vals in
      let old : SetTable = set_before (as_set (live K E m now key)) in
      let t : SetTable = (add_loop old keys).0 in
      let count : (add_loop old keys).1 ≡ t.size - old.size =
        omega (arith, size-add_loop old keys) in
      (
        t,
        add_loop-IsValid old keys valid,
        has-add_loop old keys,
        rw e (
            subst (λ o. Does K E m now key o (update_key K E m now key (sadd_value keys)))
              (sadd_value_lem keys (as_set (live K E m now key)) free
                ∙ ap (λ n. (put (set_value t), int_data (pos n))) count)
              (update_key_lem K E m now key h (sadd_value keys))),
      )
