-- ===== src/Strings/Writes.antt =====
-- pkg/memdb/string.go: `mSetString`, `setExString`, `setNxString` and `appendString`.
use tinyredis.Prelude.{
  ◌≡◌, refl, ap, ◌∙◌, Bool, true, not, Option, none, some, List, [], ◌∷◌, ◌++◌, arith, Bytes,
  if◌then◌else◌, length, text, Bool-cases, inl, inr, eqb, eqb_iff, is_some, ◌&&◌,
}
use tinyredis.Prelude.Int.{ℤ, pos, ◌+ℤ◌, wrap64}
use tinyredis.Decimal.{parse_int}
use tinyredis.Resp.{error_data, int_data}
use tinyredis.Keyspace.{Keyspace}
use tinyredis.Expiry.{Expiry}
use tinyredis.Ttl.ShardLaws.{lapsed}
use tinyredis.Value.{Value, string_value, as_string, Found, missing, wrong, found}
use tinyredis.MemDb.{MemDb, named, lookup, store, check_ttl, set_ttl, del_ttl}
use tinyredis.MemDb.View.{
  IsValid, live, store-IsValid, del_ttl-IsValid, lookup-store, expiry_of-del_ttl,
}
use tinyredis.MemDb.Checks.{
  check_ttl-IsValid, lookup-check_ttl_self, live-check_ttl, live-store, live-set_ttl, live-del_ttl,
  expiry_lives,
}
use tinyredis.Strings.{Outcome, error, wrong_type, ok_reply}

-- The keys and values of MSET: `none` if a key has no value.
unfoldable pub pairs_of : List Bytes → Option (List (Bytes × Bytes))
pairs_of [] = some []
pairs_of (key ∷ []) = none
pairs_of (key ∷ value ∷ rest) = elim (pairs_of rest) [
  | none ↦ none
  | some ps ↦ some ((key, value) ∷ ps)
]

-- Keys with their values as the words of a command.
abbrev pub in_turn : List (Bytes × Bytes) → List Bytes
in_turn [] = []
in_turn ((key, value) ∷ rest) = key ∷ value ∷ in_turn rest

pairs_of-in_turn : (ps : List (Bytes × Bytes)) → pairs_of (in_turn ps) ≡ some ps
unfolding pairs_of
pairs_of-in_turn [] = refl
pairs_of-in_turn ((k, v) ∷ ps) = rw (pairs_of-in_turn ps)

module _ (K : Keyspace Value) (E : Expiry) where
  -- The loop of MSET: the expiration time of the key goes, and the value is stored.
  unfoldable pub mset_loop : MemDb K E → List (Bytes × Bytes) → MemDb K E
  mset_loop m [] = m
  mset_loop m ((key, value) ∷ rest) =
      mset_loop (store K E (del_ttl K E m key) key (string_value value)) rest

  unfoldable pub mset_string : MemDb K E → Bytes → List Bytes → Outcome K E
  unfolding mset_loop
  mset_string m name [] =
      (m, error (if named name "mset" then "error; commands is invalid" else "Server error"))
  mset_string m name (key ∷ rest) =
      if not (named name "mset") then (m, error "Server error") else elim (pairs_of (key ∷ rest)) [
        | none ↦ (m, error "error; commands is invalid")
        | some ps ↦ (mset_loop m ps, ok_reply)
      ]

  -- SETEX stores the value without a look at the old one, and sets the expiration time.
  unfoldable pub setex_string : MemDb K E → ℤ → Bytes → List Bytes → Outcome K E
  setex_string m now name (key ∷ seconds ∷ value ∷ []) =
      if not (named name "setex") then (m, error "Server error") else elim (parse_int seconds) [
        | none ↦ (m, error_data (text "error: " ++ (seconds ++ text " is not a integer")))
        | some ex ↦ (
          (set_ttl K E (store K E m key (string_value value)) key (wrap64 (now +ℤ ex))).0,
          ok_reply,
        )
      ]
  setex_string m now name _ =
      (m, error (if named name "setex" then "error; commands is invalid" else "Server error"))

  unfoldable pub setnx_string : MemDb K E → ℤ → Bytes → List Bytes → Outcome K E
  setnx_string m now name (key ∷ value ∷ []) =
      let m' = (check_ttl K E m key now).0 in
      let (db, n) = K.set_if_not_exist m'.db key (string_value value) in
      if not (named name "setnx")
      then (m, error "Server")
      else (record m' { db = db }, int_data (pos n))
  setnx_string m now name _ =
      (m, error (if named name "setnx" then "error: commands is in valid" else "Server"))

  -- APPEND under the lock.
  unfoldable pub append_locked : MemDb K E → Bytes → Bytes → Found Bytes → Outcome K E
  append_locked m key val missing =
      (store K E m key (string_value val), int_data (pos (length val)))
  append_locked m key val wrong = (m, wrong_type)
  append_locked m key val (found old) =
      (store K E m key (string_value (old ++ val)), int_data (pos (length (old ++ val))))

  unfoldable pub append_string : MemDb K E → ℤ → Bytes → List Bytes → Outcome K E
  unfolding append_locked
  append_string m now name (key ∷ val ∷ []) =
      let m' = (check_ttl K E m key now).0 in
      if not (named name "append")
      then (m, error "Server error")
      else append_locked m' key val (as_string (lookup K E m' key))
  append_string m now name _ =
      (m, error (if named name "append" then "error: commands is invalid" else "Server error"))

  -- What a list of writes shows under a key: the last write to it, and else what was there.
  pub last_write : List (Bytes × Bytes) → Bytes → Option Value → Option Value
  last_write [] j o = o
  last_write ((k, v) ∷ rest) j o = last_write rest j (if eqb k j then some (string_value v) else o)

  mset_step :
      (m : MemDb K E) (k v : Bytes) (now : ℤ) (j : Bytes)
      → IsValid K E m
      → live K E (store K E (del_ttl K E m k) k (string_value v)) now j
        ≡ (if eqb k j then some (string_value v) else live K E m now j)
  mset_step m k v now j h =
      let h' = del_ttl-IsValid K E m k h in
      ground (
        arith,
        live-store K E (del_ttl K E m k) k h' (string_value v) now j,
        live-del_ttl K E m k h now j,
        expiry_of-del_ttl K E m k h k,
        eqb_iff k k,
      )

  mset_loop_lem :
      (m : MemDb K E) (ps : List (Bytes × Bytes)) (now : ℤ) (j : Bytes)
      → IsValid K E m
      → live K E (mset_loop m ps) now j ≡ last_write ps j (live K E m now j)
  unfolding mset_loop last_write
  mset_loop_lem m [] now j h = refl
  mset_loop_lem m ((k, v) ∷ ps) now j h =
      let m' = del_ttl K E m k in
      mset_loop_lem (store K E m' k (string_value v)) ps now j
        (store-IsValid K E m' k (del_ttl-IsValid K E m k h) (string_value v))
      ∙ ap (last_write ps j) (mset_step m k v now j h)

  -- MSET on a well-formed database, of one pair or more of a key and a value, the words of each
  -- behind those of the one before, answers OK; each key then shows, at every time, the last value
  -- that the pairs have for it, and every other key shows what it did.
  pub mset_string_lem :
      (m : MemDb K E) (name : Bytes) (p : Bytes × Bytes) (ps : List (Bytes × Bytes))
      → IsValid K E m
      → named name "mset" ≡ true
      → ((mset_string m name (in_turn (p ∷ ps))).1 ≡ ok_reply)
        × ((now : ℤ) (j : Bytes)
            → live K E (mset_string m name (in_turn (p ∷ ps))).0 now j
              ≡ last_write (p ∷ ps) j (live K E m now j))
  unfolding mset_string
  mset_string_lem m name (k, v) ps h e =
      let pairs = pairs_of-in_turn ((k, v) ∷ ps) in
      (rw (e, pairs), λ now j. rw (e, pairs) (mset_loop_lem m ((k, v) ∷ ps) now j h))

  -- SETEX on a well-formed database, for seconds that are a number, answers OK; the key shows the
  -- value before the sum of the clock and the seconds, which wraps around as int64 does, and
  -- nothing from then on, and every other key shows at every time what it did.
  pub setex_string_lem :
      (m : MemDb K E) (now : ℤ) (name key seconds value : Bytes) (ex : ℤ)
      → IsValid K E m
      → named name "setex" ≡ true
      → parse_int seconds ≡ some ex
      → ((setex_string m now name (key ∷ seconds ∷ value ∷ [])).1 ≡ ok_reply)
        × ((later : ℤ) (j : Bytes)
            → live K E (setex_string m now name (key ∷ seconds ∷ value ∷ [])).0 later j ≡ (
                if eqb key j
                then (if lapsed (some (wrap64 (now +ℤ ex))) later
                    then none
                    else some (string_value value))
                else live K E m later j))
  unfolding setex_string
  setex_string_lem m now name key seconds value ex h e parses =
      let m' = store K E m key (string_value value) in
      let h' = store-IsValid K E m key h (string_value value) in
      (
        rw (e, parses),
        λ later j.
            rw (e, parses)
              (ground (
                arith,
                live-set_ttl K E m' key h' (wrap64 (now +ℤ ex)) later j,
                live-store K E m key h (string_value value) later j,
                lookup-store K E m key h (string_value value) key,
                eqb_iff key key,
              )),
      )

  -- A value that is stored after the expiration check shows at once.
  pub live-store_checked :
      (m : MemDb K E) (now : ℤ) (k : Bytes) (v : Value) (j : Bytes)
      → IsValid K E m
      → live K E (store K E (check_ttl K E m k now).0 k v) now j
        ≡ (if eqb k j then some v else live K E m now j)
  live-store_checked m now k v j h = ground (
    arith,
    live-store K E (check_ttl K E m k now).0 k (check_ttl-IsValid K E m k now h) v now j,
    expiry_lives K E m k now h,
    live-check_ttl K E m k now h j,
  )

  -- What APPEND makes of what the key holds.
  abbrev pub appended : Found Bytes → Bytes → Option Bytes
  appended missing val = some val
  appended wrong val = none
  appended (found old) val = some (old ++ val)

  -- APPEND on a well-formed database puts its argument behind the string that the key shows, or
  -- stores it where the key shows nothing, and answers the new length; for another type it answers
  -- WRONGTYPE and nothing changes that shows. Other keys show what they did.
  pub append_string_lem :
      (m : MemDb K E) (now : ℤ) (name key val : Bytes)
      → IsValid K E m
      → named name "append" ≡ true
      → ((append_string m now name (key ∷ val ∷ [])).1
          ≡ elim (appended (as_string (live K E m now key)) val) [
            | none ↦ wrong_type
            | some new ↦ int_data (pos (length new))
          ])
        × ((j : Bytes)
            → live K E (append_string m now name (key ∷ val ∷ [])).0 now j
              ≡ elim (appended (as_string (live K E m now key)) val) [
                | none ↦ live K E m now j
                | some new ↦ if eqb key j then some (string_value new) else live K E m now j
              ])
  unfolding append_string
  append_string_lem m now name key val h e =
      rw (e, lookup-check_ttl_self K E m key now h) (by_kind (as_string (live K E m now key)))
    where
      by_kind :
          (old : Found Bytes)
          → ((append_locked (check_ttl K E m key now).0 key val old).1 ≡ elim (appended old val) [
            | none ↦ wrong_type
            | some new ↦ int_data (pos (length new))
          ])
            × ((j : Bytes)
                → live K E (append_locked (check_ttl K E m key now).0 key val old).0 now j
                  ≡ elim (appended old val) [
                    | none ↦ live K E m now j
                    | some new ↦ if eqb key j then some (string_value new) else live K E m now j
                  ])
      by_kind missing = (refl, λ j. live-store_checked m now key (string_value val) j h)
      by_kind wrong = (refl, λ j. live-check_ttl K E m key now h j)
      by_kind (found old) =
          (refl, λ j. live-store_checked m now key (string_value (old ++ val)) j h)

  module _ (m : MemDb K E) (now : ℤ) (key val : Bytes) (h : IsValid K E m) where
    present :
        {b : Bool}
        → is_some (live K E m now key) ≡ b
        → is_some (K.get (check_ttl K E m key now).0.db key) ≡ b
    unfolding lookup
    present same = ap is_some (lookup-check_ttl_self K E m key now h) ∙ same

    stored :
        (j : Bytes)
        → live K E
            (record (check_ttl K E m key now).0 {
              db = (K.set (check_ttl K E m key now).0.db key (string_value val)).0;
            })
            now
            j
          ≡ (if eqb key j then some (string_value val) else live K E m now j)
    unfolding store
    stored j = live-store_checked m now key (string_value val) j h

  -- SETNX on a well-formed database stores the value and answers 1 where the key shows nothing;
  -- otherwise it answers 0 and nothing changes that shows. Other keys show what they did.
  pub setnx_string_lem :
      (m : MemDb K E) (now : ℤ) (name key val : Bytes)
      → IsValid K E m
      → named name "setnx" ≡ true
      → ((setnx_string m now name (key ∷ val ∷ [])).1
          ≡ int_data (pos (if is_some (live K E m now key) then 0 else 1)))
        × ((j : Bytes)
            → live K E (setnx_string m now name (key ∷ val ∷ [])).0 now j ≡ (
                if eqb key j && not (is_some (live K E m now key))
                then some (string_value val)
                else live K E m now j))
  unfolding setnx_string
  setnx_string_lem m now name key val h e =
      let m' = (check_ttl K E m key now).0 in
      let checked = check_ttl-IsValid K E m key now h in
      let result = K.set_if_not_exist_lem m'.db key (string_value val) checked.db_valid in
      elim (Bool-cases (is_some (live K E m now key))) [
        | inl there ↦
            rw (e, result, present m now key val h there, there)
              (refl, λ j. ground (arith, live-check_ttl K E m key now h j))
        | inr gone ↦
            rw (e, result, present m now key val h gone, gone)
              (refl, λ j. ground (arith, stored m now key val h j))
      ]
