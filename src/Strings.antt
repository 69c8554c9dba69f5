-- ===== src/Strings.antt =====
-- pkg/memdb/string.go: the string commands. A command is its name, `cmd[0]`, and its other words,
-- and returns the database with the reply. `incrbyfloat` is not modelled.
pub mod Reads
pub mod Writes
pub mod Counters
pub mod Ranges
pub mod SetLaws
pub mod SetOptionLaws
pub mod SetWords
use tinyredis.Prelude.{
  ℕ, zero, suc, ◌+◌, ◌-◌, ◌%◌, Bool, true, false, not, Option, none, some, List, [], ◌∷◌, ◌++◌,
  Bytes, if◌then◌else◌, ltb, leb, ◌==◌, ◌&&◌, ◌||◌, length, take, drop, text, String, eqb, to_lower,
  is_some,
}
use tinyredis.Prelude.Int.{ℤ, pos, negsuc, pos_part, ◌+ℤ◌, ◌-ℤ◌, ltb_ℤ, leb_ℤ, wrap64}
use tinyredis.Decimal.{parse_int, format_int}
use tinyredis.Resp.{
  RedisData, string_data, error_data, int_data, null_bulk, bulk_data, array_data, elements,
}
use tinyredis.Keyspace.{Keyspace}
use tinyredis.Expiry.{Expiry}
use tinyredis.Value.{Value, string_value, as_string, Found, missing, wrong, found}
use tinyredis.MemDb.{MemDb, named, lookup, store, check_ttl, set_ttl, del_ttl}

abbrev pub error : String → RedisData
error message = error_data (text message)

abbrev pub wrong_type : RedisData
wrong_type = error "WRONGTYPE Operation against a key holding the wrong kind of value"

abbrev pub ok_reply : RedisData
ok_reply = string_data (text "OK")

-- The options of SET.
pub record SetOptions : Type 0 where
  pub nx : Bool
  pub xx : Bool
  pub get : Bool
  pub ex : Bool
  pub keepttl : Bool
  pub exval : ℤ

abbrev pub no_options : SetOptions
no_options = record {
  nx = false;
  xx = false;
  get = false;
  ex = false;
  keepttl = false;
  exval = pos 0;
}

pub data ParsedOptions : Type 0 where
  options : SetOptions → ParsedOptions
  refused : RedisData → ParsedOptions

-- An option that takes no value.
unfoldable pub set_flag : Bytes → SetOptions → Option SetOptions
unfolding named
set_flag word o =
    if named word "nx"
    then some (record o { nx = true })
    else if named word "xx"
    then some (record o { xx = true })
    else if named word "get"
    then some (record o { get = true })
    else if named word "keepttl"
    then some (record o { keepttl = true })
    else none

unfoldable pub unsupported : Bytes → ParsedOptions
unsupported word = refused (error_data (text "Error unsupported option: " ++ word))

-- The loop over `cmd[3:]`. `ex` takes the word behind it.
unfoldable pub set_options : List Bytes → SetOptions → ParsedOptions
unfolding set_flag unsupported
set_options [] o = options o
set_options (word ∷ []) o =
    if named word "ex"
    then refused (error "error: commands is invalid")
    else elim (set_flag word o) [ none ↦ unsupported word | some o' ↦ options o' ]
set_options (word ∷ next ∷ rest) o =
    if named word "ex"
    then elim (parse_int next) [
      | none ↦
          refused
            (error_data (text "error: commands is invalid, " ++ (next ++ text " is not interger")))
      | some n ↦ set_options rest (record o { ex = true; exval = n })
    ]
    else elim (set_flag word o) [ none ↦ unsupported word | some o' ↦ set_options (next ∷ rest) o' ]

-- Whether SET writes, by `nx` and `xx` and whether the key is there.
unfoldable pub set_writes : SetOptions → Bool → Bool
set_writes o there = if o.nx || o.xx then (if o.nx then not there else there) else true

module _ (K : Keyspace Value) (E : Expiry) where
  -- What a command answers, with the database that it leaves.
  abbrev pub Outcome : Type 0
  Outcome = MemDb K E × RedisData

  -- The reply of SET: OK or the null bulk string, and with `get` what the key held.
  unfoldable pub set_reply : SetOptions → Bool → Found Bytes → RedisData
  set_reply o wrote old =
      if o.get
      then elim old [ found v ↦ bulk_data v | _ ↦ null_bulk ]
      else if wrote
      then ok_reply
      else null_bulk

  -- The part of SET under the lock, for options that go together.
  unfoldable pub set_locked : MemDb K E → ℤ → Bytes → Bytes → SetOptions → Found Bytes → Outcome
  unfolding set_writes set_reply
  set_locked m now key value o wrong = (m, wrong_type)
  set_locked m now key value o old =
      let there = is_some (lookup K E m key) in
      let wrote = set_writes o there in
      let m1 = if wrote then store K E m key (string_value value) else m in
      let m2 = if o.keepttl then m1 else del_ttl K E m1 key in
      let m3 = if o.ex then (set_ttl K E m2 key (wrap64 (o.exval +ℤ now))).0 else m2 in
      (m3, set_reply o wrote old)

  unfoldable pub set_with : MemDb K E → ℤ → Bytes → Bytes → ParsedOptions → Outcome
  unfolding set_locked
  set_with m now key value (refused reply) = (m, reply)
  set_with m now key value (options o) =
      if (o.nx && o.xx) || (o.ex && o.keepttl)
      then (m, error "error: commands is invalid")
      else set_locked m now key value o (as_string (lookup K E m key))

  unfoldable pub set_string : MemDb K E → ℤ → Bytes → List Bytes → Outcome
  unfolding set_with
  set_string m now name (key ∷ value ∷ opts) =
      if not (named name "set")
      then (m, error "server error ")
      else set_with (check_ttl K E m key now).0 now key value (set_options opts no_options)
  set_string m now name _ =
      (m, error (if named name "set" then "error: commands is invalid" else "server error "))
