-- ===== src/Strings/Reads.antt =====
-- pkg/memdb/string.go: `getString`, `strLenString`, `getRangeString` and `mGetString`.
use tinyredis.Prelude.{
  text, ◌+◌, ◌-◌, ◌≡◌, refl, ap, ap₂, fun_ext, ◌∙◌, true, not, Option, none, some, List, [], ◌∷◌,
  arith, Bytes, if◌then◌else◌, ◌==◌, length, take, drop, map,
}
use tinyredis.Prelude.Int.{ℤ, pos, negsuc, pos_part, ◌+ℤ◌, ltb_ℤ, leb_ℤ}
use tinyredis.Decimal.{parse_int}
use tinyredis.Resp.{RedisData, error_data, int_data, null_bulk, bulk_data, array_data, elements}
use tinyredis.Keyspace.{Keyspace}
use tinyredis.Expiry.{Expiry}
use tinyredis.Value.{
  Value, string_value, list_value, set_value, hash_value, zset_value, as_string, Found, missing,
  wrong, found,
}
use tinyredis.MemDb.{MemDb, named, lookup, check_ttl}
use tinyredis.MemDb.View.{IsValid, live}
use tinyredis.MemDb.Checks.{
  check_ttl_lives, check_ttl-IsValid, lookup-check_ttl_self, live-check_ttl, live_missing,
}
use tinyredis.Strings.{Outcome, error, wrong_type}

-- `byteVal[start : end+1]` after the bounds of GETRANGE are put in order.
unfoldable pub get_range : Bytes → ℤ → ℤ → Bytes
get_range val start stop =
    let n = pos (length val) in
    let s1 = if ltb_ℤ start (pos 0) then n +ℤ start else start in
    let e1 = if ltb_ℤ stop (pos 0) then n +ℤ stop else stop in
    let s = if ltb_ℤ s1 (pos 0) then pos 0 else s1 in
    let e = if leb_ℤ n e1 then n +ℤ negsuc 0 else e1 in
    if length val == 0
    then []
    else if ltb_ℤ n s
    then []
    else if ltb_ℤ e s
    then []
    else take (pos_part e + 1 - pos_part s) (drop (pos_part s) val)

-- What the read commands answer about a string that was found.
unfoldable pub get_reply : Found Bytes → RedisData
get_reply missing = null_bulk
get_reply wrong = wrong_type
get_reply (found v) = bulk_data v

unfoldable pub strlen_reply : Found Bytes → RedisData
strlen_reply missing = null_bulk
strlen_reply wrong = error "WRONGTYPE Operation against a key holding the wrong kind of val"
strlen_reply (found v) = int_data (pos (length v))

unfoldable pub getrange_reply : Found Bytes → Option ℤ → Option ℤ → RedisData
unfolding get_range
getrange_reply missing start stop = null_bulk
getrange_reply wrong start stop = wrong_type
getrange_reply (found v) none stop = error "error: commands is invalid"
getrange_reply (found v) (some s) none = error "error: commands is invalid"
getrange_reply (found v) (some s) (some e) = bulk_data (get_range v s e)

unfoldable pub mget_reply : Found Bytes → RedisData
mget_reply (found v) = bulk_data v
mget_reply _ = null_bulk

-- What a client reads of a value that it asks for as a string: the string, null for a key without a
-- value, and an error for another type.
abbrev pub read_as : Option Value → RedisData
read_as none = null_bulk
read_as (some (string_value v)) = bulk_data v
read_as (some other) =
    error_data (text "WRONGTYPE Operation against a key holding the wrong kind of value")

get_reply-read_as : (o : Option Value) → get_reply (as_string o) ≡ read_as o
unfolding get_reply as_string
get_reply-read_as none = refl
get_reply-read_as (some (string_value v)) = refl
get_reply-read_as (some (list_value v)) = refl
get_reply-read_as (some (set_value v)) = refl
get_reply-read_as (some (hash_value v)) = refl
get_reply-read_as (some (zset_value v)) = refl

-- What stands for a key in the reply of MGET: its string, and null for all else.
abbrev pub string_or_null : Option Value → RedisData
string_or_null (some (string_value v)) = bulk_data v
string_or_null other = null_bulk

mget_reply-string_or_null : (o : Option Value) → mget_reply (as_string o) ≡ string_or_null o
unfolding mget_reply as_string
mget_reply-string_or_null none = refl
mget_reply-string_or_null (some (string_value v)) = refl
mget_reply-string_or_null (some (list_value v)) = refl
mget_reply-string_or_null (some (set_value v)) = refl
mget_reply-string_or_null (some (hash_value v)) = refl
mget_reply-string_or_null (some (zset_value v)) = refl

module _ (K : Keyspace Value) (E : Expiry) where
  unfoldable pub get_string : MemDb K E → ℤ → Bytes → List Bytes → Outcome K E
  unfolding get_reply
  get_string m now name (key ∷ []) =
      let (m', lives) = check_ttl K E m key now in
      if not (named name "get")
      then (m, error "server error")
      else if not lives
      then (m', null_bulk)
      else (m', get_reply (as_string (lookup K E m' key)))
  get_string m now name _ =
      (m, error (if named name "get" then "error: commands is invalid" else "server error"))

  -- The result of `CheckTTL` is not looked at here.
  unfoldable pub strlen_string : MemDb K E → ℤ → Bytes → List Bytes → Outcome K E
  unfolding strlen_reply
  strlen_string m now name (key ∷ []) =
      let m' = (check_ttl K E m key now).0 in
      if not (named name "strlen")
      then (m, error "Server error")
      else (m', strlen_reply (as_string (lookup K E m' key)))
  strlen_string m now name _ =
      (m, error (if named name "strlen" then "error: commands is invalid" else "Server error"))

  unfoldable pub get_range_string : MemDb K E → ℤ → Bytes → List Bytes → Outcome K E
  unfolding getrange_reply
  get_range_string m now name (key ∷ start ∷ stop ∷ []) =
      let (m', lives) = check_ttl K E m key now in
      if not (named name "getrange")
      then (m, error "Server error")
      else if not lives
      then (m', null_bulk)
      else (m', getrange_reply (as_string (lookup K E m' key)) (parse_int start) (parse_int stop))
  get_range_string m now name _ = (
    m,
    error (if named name "getrange" then "error: commands is not invalid" else "Server error"),
  )

  -- The loop of MGET, with the replies for the keys in their order.
  unfoldable pub mget_loop : MemDb K E → ℤ → List Bytes → MemDb K E × List RedisData
  unfolding mget_reply
  mget_loop m now [] = (m, [])
  mget_loop m now (key ∷ keys) =
      let (m', lives) = check_ttl K E m key now in
      let (m'', replies) = mget_loop m' now keys in
      (m'', (if lives then mget_reply (as_string (lookup K E m' key)) else null_bulk) ∷ replies)

  unfoldable pub mget_string : MemDb K E → ℤ → Bytes → List Bytes → Outcome K E
  unfolding mget_loop
  mget_string m now name [] =
      (m, error (if named name "mget" then "error: commands is invalid" else "Server error"))
  mget_string m now name (key ∷ keys) =
      let (m', replies) = mget_loop m now (key ∷ keys) in
      if not (named name "mget")
      then (m, error "Server error")
      else (m', array_data (elements replies))

  -- GET on a well-formed database answers by what the key shows: its string as a bulk string, null
  -- where there is nothing, WRONGTYPE for a list, a set, a hash or a sorted set; nothing changes
  -- that shows.
  pub get_string_lem :
      (m : MemDb K E) (now : ℤ) (name key : Bytes)
      → IsValid K E m
      → named name "get" ≡ true
      → ((get_string m now name (key ∷ [])).1 ≡ read_as (live K E m now key))
        × ((j : Bytes) → live K E (get_string m now name (key ∷ [])).0 now j ≡ live K E m now j)
  unfolding get_string as_string
  get_string_lem m now name key h e = (
    by_view (
        ground (
          arith,
          check_ttl_lives K E m key now h,
          lookup-check_ttl_self K E m key now h,
          live_missing K E m key now h,
        )),
    λ j. ground (arith, live-check_ttl K E m key now h j),
  )
    where
      by_view :
          (get_string m now name (key ∷ [])).1 ≡ get_reply (as_string (live K E m now key))
          → (get_string m now name (key ∷ [])).1 ≡ read_as (live K E m now key)
      by_view same = same ∙ get_reply-read_as (live K E m now key)

  -- What one key contributes to the reply of MGET, as a client sees the database.
  abbrev pub mget_view : MemDb K E → ℤ → Bytes → RedisData
  mget_view m now k = string_or_null (live K E m now k)

  mget_first :
      (m : MemDb K E) (now : ℤ) (key : Bytes)
      → IsValid K E m
      → (if (check_ttl K E m key now).1
          then mget_reply (as_string (lookup K E (check_ttl K E m key now).0 key))
          else null_bulk)
        ≡ mget_view m now key
  unfolding mget_reply as_string
  mget_first m now key h = ground (
    arith,
    check_ttl_lives K E m key now h,
    lookup-check_ttl_self K E m key now h,
    live_missing K E m key now h,
    mget_reply-string_or_null (live K E m now key),
  )

  mget_loop_lem :
      (m : MemDb K E) (now : ℤ) (keys : List Bytes)
      → IsValid K E m
      → ((mget_loop m now keys).1 ≡ map (mget_view m now) keys)
        × ((j : Bytes) → live K E (mget_loop m now keys).0 now j ≡ live K E m now j)
  unfolding mget_loop
  mget_loop_lem m now [] h = (refl, λ j. refl)
  mget_loop_lem m now (key ∷ keys) h =
      let m' = (check_ttl K E m key now).0 in
      let same = live-check_ttl K E m key now h in
      let (replies, views) = mget_loop_lem m' now keys (check_ttl-IsValid K E m key now h) in
      (
        ap₂ (λ a b. a ∷ b) (mget_first m now key h)
            (replies ∙ ap (λ f. map (λ k. string_or_null (f k)) keys) (fun_ext same)),
        λ j. views j ∙ same j,
      )

  -- MGET of one key or more on a well-formed database answers an array with, key by key in order,
  -- the string that the key shows as a bulk string, and null for a key that shows none; nothing
  -- changes that shows.
  pub mget_string_lem :
      (m : MemDb K E) (now : ℤ) (name key : Bytes) (keys : List Bytes)
      → IsValid K E m
      → named name "mget" ≡ true
      → ((mget_string m now name (key ∷ keys)).1
          ≡ array_data (elements (map (mget_view m now) (key ∷ keys))))
        × ((j : Bytes) → live K E (mget_string m now name (key ∷ keys)).0 now j ≡ live K E m now j)
  unfolding mget_string
  mget_string_lem m now name key keys h e =
      let (replies, views) = mget_loop_lem m now (key ∷ keys) h in
      (rw e (ap (λ l. array_data (elements l)) replies), λ j. rw e (views j))
