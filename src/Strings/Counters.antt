-- ===== src/Strings/Counters.antt =====
-- pkg/memdb/string.go: `incrString`, `incrByString`, `decrString` and `decrByString`. The sums are
-- those of `int64`, which wrap around.
use tinyredis.Prelude.{
  ◌≡◌, refl, true, not, Option, none, some, List, [], ◌∷◌, Bytes, if◌then◌else◌, eqb,
}
use tinyredis.Prelude.Int.{ℤ, pos, negsuc, ◌+ℤ◌, ◌-ℤ◌, wrap64}
use tinyredis.Decimal.{parse_int, format_int}
use tinyredis.Resp.{RedisData, int_data}
use tinyredis.Keyspace.{Keyspace}
use tinyredis.Expiry.{Expiry}
use tinyredis.Value.{Value, string_value, as_string, Found, missing, wrong, found}
use tinyredis.MemDb.{MemDb, named, lookup, store, check_ttl}
use tinyredis.MemDb.View.{IsValid, live}
use tinyredis.MemDb.Checks.{lookup-check_ttl_self, live-check_ttl}
use tinyredis.Strings.{Outcome, error, wrong_type}
use tinyredis.Strings.Writes.{live-store_checked}

module _ (K : Keyspace Value) (E : Expiry) where
  -- The four commands under the lock: `first` is what a missing key becomes, and `step` the sum.
  unfoldable pub count_locked : MemDb K E → Bytes → ℤ → (ℤ → ℤ) → Found Bytes → Outcome K E
  count_locked m key first step missing =
      (store K E m key (string_value (format_int first)), int_data first)
  count_locked m key first step wrong = (m, wrong_type)
  count_locked m key first step (found old) = elim (parse_int old) [
    | none ↦ (m, error "value is not an integer")
    | some n ↦ (store K E m key (string_value (format_int (step n))), int_data (step n))
  ]

  unfoldable pub incr_string : MemDb K E → ℤ → Bytes → List Bytes → Outcome K E
  unfolding count_locked
  incr_string m now name (key ∷ []) =
      let m' = (check_ttl K E m key now).0 in
      if not (named name "incr")
      then (m, error "Server error")
      else count_locked m' key (pos 1) (λ n. wrap64 (n +ℤ pos 1)) (as_string (lookup K E m' key))
  incr_string m now name _ =
      (m, error (if named name "incr" then "error: commands is invalid" else "Server error"))

  unfoldable pub decr_string : MemDb K E → ℤ → Bytes → List Bytes → Outcome K E
  unfolding count_locked
  decr_string m now name (key ∷ []) =
      let m' = (check_ttl K E m key now).0 in
      if not (named name "decr")
      then (m, error "Server error")
      else count_locked m' key (negsuc 0) (λ n. wrap64 (n -ℤ pos 1)) (as_string (lookup K E m' key))
  decr_string m now name _ =
      (m, error (if named name "decr" then "error: commands is invalid" else "Server error"))

  unfoldable pub incr_by_string : MemDb K E → ℤ → Bytes → List Bytes → Outcome K E
  unfolding count_locked
  incr_by_string m now name (key ∷ amount ∷ []) =
      let m' = (check_ttl K E m key now).0 in
      if not (named name "incrby") then (m, error "Server error") else elim (parse_int amount) [
        | none ↦ (m, error "commands invalid: increment value is not an integer")
        | some inc ↦
            count_locked m' key inc (λ n. wrap64 (n +ℤ inc)) (as_string (lookup K E m' key))
      ]
  incr_by_string m now name _ =
      (m, error (if named name "incrby" then "error: commands is invalid" else "Server error"))

  unfoldable pub decr_by_string : MemDb K E → ℤ → Bytes → List Bytes → Outcome K E
  unfolding count_locked
  decr_by_string m now name (key ∷ amount ∷ []) =
      let m' = (check_ttl K E m key now).0 in
      if not (named name "decrby") then (m, error "Server error") else elim (parse_int amount) [
        | none ↦ (m, error "commands invalid: increment value is not an integer")
        | some dec ↦
            count_locked m' key (wrap64 (pos 0 -ℤ dec)) (λ n. wrap64 (n -ℤ dec))
              (as_string (lookup K E m' key))
      ]
  decr_by_string m now name _ =
      (m, error (if named name "decrby" then "error: commands is invalid" else "Server error"))

  -- The number that a counter has after a step, and the error otherwise.
  pub data Counted : Type 0 where
    counted : ℤ → Counted
    not_counted : RedisData → Counted

  abbrev pub after_count : ℤ → (ℤ → ℤ) → Found Bytes → Counted
  after_count first step missing = counted first
  after_count first step wrong = not_counted wrong_type
  after_count first step (found old) = elim (parse_int old) [
    | none ↦ not_counted (error "value is not an integer")
    | some n ↦ counted (step n)
  ]

  -- What a counting command answers, and what it leaves to see: the new number in decimal under its
  -- key, and every other key as it was; or an error, and everything as it was.
  abbrev pub Counts : MemDb K E → ℤ → Bytes → Outcome K E → Counted → Type 0
  Counts m now key (m', reply) (counted n) =
      (reply ≡ int_data n)
      × ((j : Bytes)
          → live K E m' now j
            ≡ (if eqb key j then some (string_value (format_int n)) else live K E m now j))
  Counts m now key (m', reply) (not_counted err) =
      (reply ≡ err) × ((j : Bytes) → live K E m' now j ≡ live K E m now j)

  count_locked_lem :
      (m : MemDb K E) (now : ℤ) (key : Bytes) (first : ℤ) (step : ℤ → ℤ) (old : Found Bytes)
      → IsValid K E m
      → Counts m now key
          (count_locked (check_ttl K E m key now).0 key first step old)
          (after_count first step old)
  unfolding count_locked
  count_locked_lem m now key first step missing h =
      (refl, λ j. live-store_checked K E m now key _ j h)
  count_locked_lem m now key first step wrong h = (refl, λ j. live-check_ttl K E m key now h j)
  count_locked_lem m now key first step (found old) h = by_number (parse_int old)
    where
      by_number :
          (n : Option ℤ)
          → Counts m now key
              (elim n [
                | none ↦ ((check_ttl K E m key now).0, error "value is not an integer")
                | some i ↦ (
                  store K E (check_ttl K E m key now).0 key (string_value (format_int (step i))),
                  int_data (step i),
                )
              ])
              (elim n [
                | none ↦ not_counted (error "value is not an integer")
                | some i ↦ counted (step i)
              ])
      by_number none = (refl, λ j. live-check_ttl K E m key now h j)
      by_number (some i) = (refl, λ j. live-store_checked K E m now key _ j h)

  -- INCR on a well-formed database adds 1, modulo the width of int64, to the number that the key
  -- shows, and makes 1 where it shows nothing; the reply is the new number, and the other keys are
  -- as they were. For a value of another type or one that is no number the reply is an error and
  -- nothing changes that shows.
  pub incr_string_lem :
      (m : MemDb K E) (now : ℤ) (name key : Bytes)
      → IsValid K E m
      → named name "incr" ≡ true
      → Counts m now key
          (incr_string m now name (key ∷ []))
          (after_count (pos 1) (λ n. wrap64 (n +ℤ pos 1)) (as_string (live K E m now key)))
  unfolding incr_string
  incr_string_lem m now name key h e =
      rw (e, lookup-check_ttl_self K E m key now h)
        (count_locked_lem m now key (pos 1) (λ n. wrap64 (n +ℤ pos 1))
          (as_string (live K E m now key)) h)

  -- DECR on a well-formed database takes 1, modulo the width of int64, from the number that the
  -- key shows, and makes -1 where it shows nothing; the reply is the new number. For a value of
  -- another type or one that is no number the reply is an error and nothing changes that shows.
  -- Other keys show what they did.
  pub decr_string_lem :
      (m : MemDb K E) (now : ℤ) (name key : Bytes)
      → IsValid K E m
      → named name "decr" ≡ true
      → Counts m now key
          (decr_string m now name (key ∷ []))
          (after_count (negsuc 0) (λ n. wrap64 (n -ℤ pos 1)) (as_string (live K E m now key)))
  unfolding decr_string
  decr_string_lem m now name key h e =
      rw (e, lookup-check_ttl_self K E m key now h)
        (count_locked_lem m now key (negsuc 0) (λ n. wrap64 (n -ℤ pos 1))
          (as_string (live K E m now key)) h)

  -- INCRBY on a well-formed database, for an argument that is a number, adds it, modulo the width
  -- of int64, to the number that the key shows, and stores it where the key shows nothing; the
  -- reply is the new number. For a value of another type or one that is no number the reply is an
  -- error and nothing changes that shows. Other keys show what they did.
  pub incr_by_string_lem :
      (m : MemDb K E) (now : ℤ) (name key amount : Bytes) (inc : ℤ)
      → IsValid K E m
      → named name "incrby" ≡ true
      → parse_int amount ≡ some inc
      → Counts m now key
          (incr_by_string m now name (key ∷ amount ∷ []))
          (after_count (inc) (λ n. wrap64 (n +ℤ inc)) (as_string (live K E m now key)))
  unfolding incr_by_string
  incr_by_string_lem m now name key amount inc h e parsed =
      rw (e, parsed, lookup-check_ttl_self K E m key now h)
        (count_locked_lem m now key (inc) (λ n. wrap64 (n +ℤ inc)) (as_string (live K E m now key))
          h)

  -- DECRBY on a well-formed database, for an argument that is a number, takes it, modulo the width
  -- of int64, from the number that the key shows, 0 where it shows nothing; the reply is the new
  -- number. For a value of another type or one that is no number the reply is an error and nothing
  -- changes that shows. Other keys show what they did.
  pub decr_by_string_lem :
      (m : MemDb K E) (now : ℤ) (name key amount : Bytes) (dec : ℤ)
      → IsValid K E m
      → named name "decrby" ≡ true
      → parse_int amount ≡ some dec
      → Counts m now key (decr_by_string m now name (key ∷ amount ∷ [])) (
          after_count
            (wrap64 (pos 0 -ℤ dec))
            (λ n. wrap64 (n -ℤ dec))
            (as_string (live K E m now key)))
  unfolding decr_by_string
  decr_by_string_lem m now name key amount dec h e parsed =
      rw (e, parsed, lookup-check_ttl_self K E m key now h)
        (count_locked_lem m now key (wrap64 (pos 0 -ℤ dec)) (λ n. wrap64 (n -ℤ dec))
          (as_string (live K E m now key)) h)
