-- ===== src/Sets/Algebra.antt =====
-- pkg/memdb/set.go: the commands that combine sets, and their STORE variants. SINTER and SINTERSTORE
-- index an empty slice where no key is there, and panic: `none` stands for that in place of a reply.
use tinyredis.Prelude.{
  not, Option, none, some, List, [], ◌∷◌, Bytes, if◌then◌else◌, ltb, ◌==◌, length,
}
use tinyredis.Prelude.Int.{ℤ, pos}
use tinyredis.Resp.{RedisData, int_data}
use tinyredis.Keyspace.{Keyspace}
use tinyredis.Expiry.{Expiry}
use tinyredis.Value.{Value, SetTable, set_value, as_set, Found, missing, wrong, found}
use tinyredis.MemDb.{MemDb, named, lookup, store, check_ttl}
use tinyredis.Strings.{Outcome, error, wrong_type}
use tinyredis.Lists.{bulks, empty_array}
use tinyredis.Sets.{new_set, members, union, intersect, difference}

-- The sets that were found, without the missing ones; `none` if a value has another type.
unfoldable pub keep_sets : List (Found SetTable) → Option (List SetTable)
keep_sets [] = some []
keep_sets (missing ∷ rest) = keep_sets rest
keep_sets (wrong ∷ rest) = none
keep_sets (found s ∷ rest) = elim (keep_sets rest) [ none ↦ none | some sets ↦ some (s ∷ sets) ]

-- The first of the shortest sets comes first; the others keep their order.
unfoldable pub shortest_first : SetTable → List SetTable → SetTable × List SetTable
shortest_first s [] = (s, [])
shortest_first s (t ∷ rest) =
    let (least, others) = shortest_first t rest in
    if ltb least.size s.size then (least, s ∷ others) else (s, t ∷ rest)

unfoldable pub intersect_sets : List SetTable → Option SetTable
unfolding shortest_first
intersect_sets [] = none
intersect_sets (s ∷ rest) =
    let (least, others) = shortest_first s rest in some (intersect least others)

module _ (K : Keyspace Value) (E : Expiry) where
  -- `CheckTTL` of every key.
  unfoldable pub check_keys : MemDb K E → ℤ → List Bytes → MemDb K E
  check_keys m now [] = m
  check_keys m now (key ∷ rest) = check_keys (check_ttl K E m key now).0 now rest

  -- The keys that have not expired.
  unfoldable pub live_keys : MemDb K E → ℤ → List Bytes → MemDb K E × List Bytes
  live_keys m now [] = (m, [])
  live_keys m now (key ∷ rest) =
      let (m1, live) = check_ttl K E m key now in
      let (m2, keys) = live_keys m1 now rest in (m2, (if live then key ∷ keys else keys))

  -- What the keys hold.
  unfoldable pub read_sets : MemDb K E → List Bytes → List (Found SetTable)
  read_sets m [] = []
  read_sets m (key ∷ rest) = as_set (lookup K E m key) ∷ read_sets m rest

  -- The reply of SUNION, SINTER and SDIFF.
  unfoldable pub member_array : (List Bytes → List Bytes) → SetTable → RedisData
  member_array visit s = bulks (members visit s)

  unfoldable pub union_reply : (List Bytes → List Bytes) → Option (List SetTable) → RedisData
  unfolding member_array
  union_reply visit none = wrong_type
  union_reply visit (some []) = empty_array
  union_reply visit (some (s ∷ sets)) = member_array visit (union s sets)

  unfoldable pub sunion_set :
      (List Bytes → List Bytes) → MemDb K E → ℤ → Bytes → List Bytes → Outcome K E
  unfolding live_keys read_sets keep_sets union_reply
  sunion_set visit m now name [] = (
    m,
    error (
        if named name "sunion"
        then "wrong number of arguments for 'sunion' command"
        else "Server error"),
  )
  sunion_set visit m now name (key ∷ rest) =
      let (m', keys) = live_keys m now (key ∷ rest) in
      if not (named name "sunion")
      then (m, error "Server error")
      else if length keys == 0
      then (m', empty_array)
      else (m', union_reply visit (keep_sets (read_sets m' keys)))

  -- SDIFF, by what its first key holds and what the others do. A wrong type among the others shows
  -- only if the first key is there.
  unfoldable pub diff_reply :
      (List Bytes → List Bytes) → Found SetTable → List (Found SetTable) → RedisData
  unfolding keep_sets member_array
  diff_reply visit missing others = empty_array
  diff_reply visit wrong others = wrong_type
  diff_reply visit (found s) [] = bulks (members visit s)
  diff_reply visit (found s) (t ∷ others) = elim (keep_sets (t ∷ others)) [
    | none ↦ wrong_type
    | some sets ↦ member_array visit (difference s sets)
  ]

  unfoldable pub sdiff_set :
      (List Bytes → List Bytes) → MemDb K E → ℤ → Bytes → List Bytes → Outcome K E
  unfolding check_keys read_sets diff_reply
  sdiff_set visit m now name [] = (
    m,
    error (
        if named name "sdiff"
        then "wrong number of arguments for 'sdiff' command"
        else "Server error"),
  )
  sdiff_set visit m now name (key ∷ rest) =
      let m' = check_keys m now (key ∷ rest) in
      if not (named name "sdiff")
      then (m, error "Server error")
      else (m', diff_reply visit (as_set (lookup K E m' key)) (read_sets m' rest))

  -- The reply of SINTER; `none` for the panic.
  unfoldable pub inter_reply : (List Bytes → List Bytes) → Option (List SetTable) → Option RedisData
  unfolding intersect_sets member_array
  inter_reply visit none = some wrong_type
  inter_reply visit (some sets) = elim (intersect_sets sets) [
    | none ↦ none
    | some s ↦ some (member_array visit s)
  ]

  unfoldable pub sinter_set :
      (List Bytes → List Bytes) → MemDb K E → ℤ → Bytes → List Bytes → MemDb K E × Option RedisData
  unfolding check_keys read_sets keep_sets inter_reply
  sinter_set visit m now name [] = (
    m,
    some (
        error (
          if named name "sinter"
          then "wrong number of arguments for 'sinter' command"
          else "Server error")),
  )
  sinter_set visit m now name (key ∷ rest) =
      let m' = check_keys m now (key ∷ rest) in
      if not (named name "sinter")
      then (m, some (error "Server error"))
      else (m', inter_reply visit (keep_sets (read_sets m' (key ∷ rest))))

  -- The end of the STORE commands: the type of the destination is looked at again, and an empty
  -- result is not stored.
  unfoldable pub store_result : MemDb K E → ℤ → Bytes → SetTable → Outcome K E
  store_result m now des s =
      let m' = (check_ttl K E m des now).0 in
      elim (as_set (lookup K E m' des)) [
        | wrong ↦ (m', wrong_type)
        | _ ↦ ((if s.size == 0 then m' else store K E m' des (set_value s)), int_data (pos s.size))
      ]

  -- The keys of a STORE command are read, and `finish` goes on.
  unfoldable pub store_sets :
      {R : Type 0}
      → MemDb K E
      → ℤ
      → Bytes
      → List Bytes
      → (RedisData → R)
      → (MemDb K E → List Bytes → MemDb K E × R)
      → MemDb K E × R
  unfolding live_keys
  store_sets m now des keys answer finish =
      let m1 = (check_ttl K E m des now).0 in
      let (m2, keys') = live_keys m1 now keys in
      elim (as_set (lookup K E m1 des)) [
        | wrong ↦ (m1, answer wrong_type)
        | _ ↦ if length keys' == 0 then (m2, answer (int_data (pos 0))) else finish m2 keys'
      ]

  unfoldable pub finish_union : ℤ → Bytes → MemDb K E → List Bytes → Outcome K E
  unfolding read_sets keep_sets store_result
  finish_union now des m keys = elim (keep_sets (read_sets m keys)) [
    | none ↦ (m, wrong_type)
    | some [] ↦ (m, empty_array)
    | some (s ∷ sets) ↦ store_result m now des (union s sets)
  ]

  unfoldable pub sunionstore_set : MemDb K E → ℤ → Bytes → List Bytes → Outcome K E
  unfolding store_sets finish_union
  sunionstore_set m now name args =
      if not (named name "sunionstore") then (m, error "Server error") else elim args [
        | des ∷ key ∷ keys ↦ store_sets m now des (key ∷ keys) (λ r. r) (finish_union now des)
        | _ ↦ (m, error "wrong number of arguments for 'sunionstore' command")
      ]

  unfoldable pub finish_diff : ℤ → Bytes → MemDb K E → List Bytes → Outcome K E
  unfolding read_sets keep_sets store_result
  finish_diff now des m [] = (m, int_data (pos 0))
  finish_diff now des m (key ∷ rest) = elim (as_set (lookup K E m key)) [
    | missing ↦ store_result m now des new_set
    | wrong ↦ (m, wrong_type)
    | found s ↦ elim (keep_sets (read_sets m rest)) [
      | none ↦ (m, wrong_type)
      | some sets ↦ store_result m now des (difference s sets)
    ]
  ]

  unfoldable pub sdiffstore_set : MemDb K E → ℤ → Bytes → List Bytes → Outcome K E
  unfolding store_sets finish_diff
  sdiffstore_set m now name args =
      if not (named name "sdiffstore") then (m, error "Server error") else elim args [
        | des ∷ key ∷ keys ↦ store_sets m now des (key ∷ keys) (λ r. r) (finish_diff now des)
        | _ ↦ (m, error "wrong number of arguments for 'sdiffstore' command")
      ]

  unfoldable pub finish_inter : ℤ → Bytes → MemDb K E → List Bytes → MemDb K E × Option RedisData
  unfolding read_sets keep_sets intersect_sets store_result
  finish_inter now des m keys = elim (keep_sets (read_sets m keys)) [
    | none ↦ (m, some wrong_type)
    | some sets ↦ elim (intersect_sets sets) [
      | none ↦ (m, none)
      | some s ↦ let (m', reply) = store_result m now des s in (m', some reply)
    ]
  ]

  unfoldable pub sinterstore_set : MemDb K E → ℤ → Bytes → List Bytes → MemDb K E × Option RedisData
  unfolding store_sets finish_inter
  sinterstore_set m now name args =
      if not (named name "sinterstore") then (m, some (error "Server error")) else elim args [
        | des ∷ key ∷ keys ↦ store_sets m now des (key ∷ keys) some (finish_inter now des)
        | _ ↦ (m, some (error "wrong number of arguments for 'sinterstore' command"))
      ]
