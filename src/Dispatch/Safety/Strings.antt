-- ===== src/Dispatch/Safety/Strings.antt =====
-- The commands of pkg/memdb/string.go.
use tinyredis.Prelude.{
  ℕ, Bool, not, List, [], ◌∷◌, arith, Bytes, if◌then◌else◌, is_some, ◌&&◌, ◌||◌, ◌++◌,
}
use tinyredis.Prelude.Int.{ℤ, ◌+ℤ◌, wrap64}
use tinyredis.Decimal.{parse_int, format_int}
use tinyredis.Keyspace.{Keyspace}
use tinyredis.Expiry.{Expiry}
use tinyredis.Value.{Value, string_value, as_string, Found, missing, wrong, found}
use tinyredis.MemDb.{MemDb, named, lookup, store, check_ttl, set_ttl, del_ttl}
use tinyredis.MemDb.View.{IsValid, store-IsValid, del_ttl-IsValid, set_ttl-IsValid}
use tinyredis.MemDb.Checks.{check_ttl-IsValid}
use tinyredis.Dispatch.Safety.{Keeps, if-Ok, option-Ok, pick}
use tinyredis.Strings.{
  SetOptions, ParsedOptions, options, refused, no_options, set_options, set_writes, set_string,
  set_locked, set_with,
}
use tinyredis.Strings.Reads.{get_string, get_range_string, mget_loop, mget_string, strlen_string}
use tinyredis.Strings.Writes.{
  mset_loop, mset_string, pairs_of, setex_string, setnx_string, append_locked, append_string,
}
use tinyredis.Strings.Ranges.{
  set_range, offset_of, set_range_old, set_range_locked, set_range_string,
}
use tinyredis.Strings.Counters.{
  count_locked, incr_string, incr_by_string, decr_string, decr_by_string,
}

module _ (K : Keyspace Value) (E : Expiry) where
  set_written-IsValid :
      (m : MemDb K E) (now : ℤ) (key value : Bytes) (o : SetOptions) (wrote : Bool)
      → IsValid K E m
      → let m1 : MemDb K E = if wrote then store K E m key (string_value value) else m in
        let m2 : MemDb K E = if o.keepttl then m1 else del_ttl K E m1 key in
        IsValid K E (if o.ex then (set_ttl K E m2 key (wrap64 (o.exval +ℤ now))).0 else m2)
  set_written-IsValid m now key value o wrote h =
      let m1 : MemDb K E = if wrote then store K E m key (string_value value) else m in
      let m2 : MemDb K E = if o.keepttl then m1 else del_ttl K E m1 key in
      let h1 =
        pick K E wrote (store K E m key (string_value value)) m
          (store-IsValid K E m key h (string_value value)) h in
      let h2 = pick K E o.keepttl m1 (del_ttl K E m1 key) h1 (del_ttl-IsValid K E m1 key h1) in
      pick K E o.ex (set_ttl K E m2 key (wrap64 (o.exval +ℤ now))).0 m2
        (set_ttl-IsValid K E m2 key h2 _) h2

  set_locked-Ok :
      (m : MemDb K E) (now : ℤ) (key value : Bytes) (o : SetOptions) (old : Found Bytes)
      → IsValid K E m
      → IsValid K E (set_locked K E m now key value o old).0
  unfolding set_locked
  set_locked-Ok m now key value o missing h =
      set_written-IsValid m now key value o (set_writes o (is_some (lookup K E m key))) h
  set_locked-Ok m now key value o wrong h = h
  set_locked-Ok m now key value o (found v) h =
      set_written-IsValid m now key value o (set_writes o (is_some (lookup K E m key))) h

  set_with-Ok :
      (m : MemDb K E) (now : ℤ) (key value : Bytes) (o : ParsedOptions)
      → IsValid K E m
      → IsValid K E (set_with K E m now key value o).0
  unfolding set_with
  set_with-Ok m now key value (options o) h =
      if-Ok K E ((o.nx && o.xx) || (o.ex && o.keepttl)) _ _ h
        (set_locked-Ok m now key value o (as_string (lookup K E m key)) h)
  set_with-Ok m now key value (refused reply) h = h

  pub set_string-Keeps : Keeps K E (set_string K E)
  unfolding set_string
  set_string-Keeps m now name [] h = h
  set_string-Keeps m now name (_ ∷ []) h = h
  set_string-Keeps m now name (key ∷ value ∷ opts) h = if-Ok K E (not (named name "set")) _ _ h (
      set_with-Ok (check_ttl K E m key now).0 now key value (set_options opts no_options)
        (check_ttl-IsValid K E m key now h))

  pub get_string-Keeps : Keeps K E (get_string K E)
  unfolding get_string
  get_string-Keeps m now name [] h = h
  get_string-Keeps m now name (key ∷ []) h =
      let h' = check_ttl-IsValid K E m key now h in
      if-Ok K E (not (named name "get")) _ _ h
        (if-Ok K E (not (check_ttl K E m key now).1) _ _ h' h')
  get_string-Keeps m now name (_ ∷ _ ∷ _) h = h

  pub strlen_string-Keeps : Keeps K E (strlen_string K E)
  unfolding strlen_string
  strlen_string-Keeps m now name [] h = h
  strlen_string-Keeps m now name (key ∷ []) h =
      if-Ok K E (not (named name "strlen")) _ _ h (check_ttl-IsValid K E m key now h)
  strlen_string-Keeps m now name (_ ∷ _ ∷ _) h = h

  pub get_range_string-Keeps : Keeps K E (get_range_string K E)
  unfolding get_range_string
  get_range_string-Keeps m now name [] h = h
  get_range_string-Keeps m now name (_ ∷ []) h = h
  get_range_string-Keeps m now name (_ ∷ _ ∷ []) h = h
  get_range_string-Keeps m now name (key ∷ _ ∷ _ ∷ []) h =
      let h' = check_ttl-IsValid K E m key now h in
      if-Ok K E (not (named name "getrange")) _ _ h
        (if-Ok K E (not (check_ttl K E m key now).1) _ _ h' h')
  get_range_string-Keeps m now name (_ ∷ _ ∷ _ ∷ _ ∷ _) h = h

  mget_loop-IsValid :
      (m : MemDb K E) (now : ℤ) (keys : List Bytes)
      → IsValid K E m
      → IsValid K E (mget_loop K E m now keys).0
  unfolding mget_loop
  mget_loop-IsValid m now [] h = h
  mget_loop-IsValid m now (key ∷ keys) h =
      mget_loop-IsValid (check_ttl K E m key now).0 now keys (check_ttl-IsValid K E m key now h)

  pub mget_string-Keeps : Keeps K E (mget_string K E)
  unfolding mget_string
  mget_string-Keeps m now name [] h = h
  mget_string-Keeps m now name (key ∷ keys) h =
      if-Ok K E (not (named name "mget")) _ _ h (mget_loop-IsValid m now (key ∷ keys) h)

  mset_loop-IsValid :
      (m : MemDb K E) (ps : List (Bytes × Bytes)) → IsValid K E m → IsValid K E (mset_loop K E m ps)
  unfolding mset_loop
  mset_loop-IsValid m [] h = h
  mset_loop-IsValid m ((key, value) ∷ rest) h =
      mset_loop-IsValid (store K E (del_ttl K E m key) key (string_value value)) rest (
        store-IsValid K E (del_ttl K E m key) key (del_ttl-IsValid K E m key h)
          (string_value value))

  mset-Ok :
      (m : MemDb K E) (name : Bytes) (args : List Bytes)
      → IsValid K E m
      → IsValid K E (mset_string K E m name args).0
  unfolding mset_string
  mset-Ok m name [] h = h
  mset-Ok m name (key ∷ rest) h =
      if-Ok K E (not (named name "mset")) _ _ h
        (option-Ok K E (pairs_of (key ∷ rest)) _ _ h (λ ps. mset_loop-IsValid m ps h))

  pub mset_string-Keeps : Keeps K E (λ m now. mset_string K E m)
  mset_string-Keeps m now name args h = mset-Ok m name args h

  pub setex_string-Keeps : Keeps K E (setex_string K E)
  unfolding setex_string
  setex_string-Keeps m now name [] h = h
  setex_string-Keeps m now name (_ ∷ []) h = h
  setex_string-Keeps m now name (_ ∷ _ ∷ []) h = h
  setex_string-Keeps m now name (key ∷ seconds ∷ value ∷ []) h =
      if-Ok K E (not (named name "setex")) _ _ h (
        option-Ok K E (parse_int seconds) _ _ h
          (λ ex. set_ttl-IsValid K E _ key (store-IsValid K E m key h (string_value value)) _))
  setex_string-Keeps m now name (_ ∷ _ ∷ _ ∷ _ ∷ _) h = h

  pub setnx_string-Keeps : Keeps K E (setnx_string K E)
  unfolding setnx_string
  setnx_string-Keeps m now name [] h = h
  setnx_string-Keeps m now name (_ ∷ []) h = h
  setnx_string-Keeps m now name (key ∷ value ∷ []) h =
      let m' = (check_ttl K E m key now).0 in
      let h' = check_ttl-IsValid K E m key now h in
      if-Ok K E (not (named name "setnx")) _ _ h (record {
        db_valid = ground (
          arith,
          K.set_if_not_exist_lem m'.db key (string_value value) h'.db_valid,
          K.set-IsValid m'.db key (string_value value) h'.db_valid,
          h'.db_valid,
        );
        ttl_valid = h'.ttl_valid;
      })
  setnx_string-Keeps m now name (_ ∷ _ ∷ _ ∷ _) h = h

  append_locked-Ok :
      (m : MemDb K E) (key val : Bytes) (o : Found Bytes)
      → IsValid K E m
      → IsValid K E (append_locked K E m key val o).0
  unfolding append_locked
  append_locked-Ok m key val missing h = store-IsValid K E m key h (string_value val)
  append_locked-Ok m key val wrong h = h
  append_locked-Ok m key val (found old) h = store-IsValid K E m key h (string_value (old ++ val))

  pub append_string-Keeps : Keeps K E (append_string K E)
  unfolding append_string
  append_string-Keeps m now name [] h = h
  append_string-Keeps m now name (_ ∷ []) h = h
  append_string-Keeps m now name (key ∷ val ∷ []) h = if-Ok K E (not (named name "append")) _ _ h (
      append_locked-Ok (check_ttl K E m key now).0 key val
        (as_string (lookup K E (check_ttl K E m key now).0 key))
        (check_ttl-IsValid K E m key now h))
  append_string-Keeps m now name (_ ∷ _ ∷ _ ∷ _) h = h

  count_locked-Ok :
      (m : MemDb K E) (key : Bytes) (first : ℤ) (step : ℤ → ℤ) (o : Found Bytes)
      → IsValid K E m
      → IsValid K E (count_locked K E m key first step o).0
  unfolding count_locked
  count_locked-Ok m key first step missing h =
      store-IsValid K E m key h (string_value (format_int first))
  count_locked-Ok m key first step wrong h = h
  count_locked-Ok m key first step (found old) h =
      option-Ok K E (parse_int old) _ _ h
        (λ n. store-IsValid K E m key h (string_value (format_int (step n))))

  pub incr_string-Keeps : Keeps K E (incr_string K E)
  unfolding incr_string
  incr_string-Keeps m now name [] h = h
  incr_string-Keeps m now name (key ∷ []) h = if-Ok K E (not (named name "incr")) _ _ h (
      count_locked-Ok (check_ttl K E m key now).0 key _ _
        (as_string (lookup K E (check_ttl K E m key now).0 key))
        (check_ttl-IsValid K E m key now h))
  incr_string-Keeps m now name (_ ∷ _ ∷ _) h = h

  pub decr_string-Keeps : Keeps K E (decr_string K E)
  unfolding decr_string
  decr_string-Keeps m now name [] h = h
  decr_string-Keeps m now name (key ∷ []) h = if-Ok K E (not (named name "decr")) _ _ h (
      count_locked-Ok (check_ttl K E m key now).0 key _ _
        (as_string (lookup K E (check_ttl K E m key now).0 key))
        (check_ttl-IsValid K E m key now h))
  decr_string-Keeps m now name (_ ∷ _ ∷ _) h = h

  pub incr_by_string-Keeps : Keeps K E (incr_by_string K E)
  unfolding incr_by_string
  incr_by_string-Keeps m now name [] h = h
  incr_by_string-Keeps m now name (_ ∷ []) h = h
  incr_by_string-Keeps m now name (key ∷ amount ∷ []) h =
      if-Ok K E (not (named name "incrby")) _ _ h (
        option-Ok K E (parse_int amount) _ _ h (λ n.
          count_locked-Ok (check_ttl K E m key now).0 key _ _
            (as_string (lookup K E (check_ttl K E m key now).0 key))
            (check_ttl-IsValid K E m key now h)))
  incr_by_string-Keeps m now name (_ ∷ _ ∷ _ ∷ _) h = h

  pub decr_by_string-Keeps : Keeps K E (decr_by_string K E)
  unfolding decr_by_string
  decr_by_string-Keeps m now name [] h = h
  decr_by_string-Keeps m now name (_ ∷ []) h = h
  decr_by_string-Keeps m now name (key ∷ amount ∷ []) h =
      if-Ok K E (not (named name "decrby")) _ _ h (
        option-Ok K E (parse_int amount) _ _ h (λ n.
          count_locked-Ok (check_ttl K E m key now).0 key _ _
            (as_string (lookup K E (check_ttl K E m key now).0 key))
            (check_ttl-IsValid K E m key now h)))
  decr_by_string-Keeps m now name (_ ∷ _ ∷ _ ∷ _) h = h

  set_range_old-Ok :
      (m : MemDb K E) (key : Bytes) (offset : ℕ) (val old : Bytes)
      → IsValid K E m
      → IsValid K E (set_range_old K E m key offset val old).0
  unfolding set_range_old
  set_range_old-Ok m key offset val old h =
      option-Ok K E (set_range old offset val) _ _ h
        (λ new. store-IsValid K E m key h (string_value new))

  set_range_locked-Ok :
      (m : MemDb K E) (key : Bytes) (offset : ℕ) (val : Bytes) (o : Found Bytes)
      → IsValid K E m
      → IsValid K E (set_range_locked K E m key offset val o).0
  unfolding set_range_locked
  set_range_locked-Ok m key offset val missing h = set_range_old-Ok m key offset val [] h
  set_range_locked-Ok m key offset val wrong h = h
  set_range_locked-Ok m key offset val (found old) h = set_range_old-Ok m key offset val old h

  pub set_range_string-Keeps : Keeps K E (set_range_string K E)
  unfolding set_range_string
  set_range_string-Keeps m now name [] h = h
  set_range_string-Keeps m now name (_ ∷ []) h = h
  set_range_string-Keeps m now name (_ ∷ _ ∷ []) h = h
  set_range_string-Keeps m now name (key ∷ word ∷ val ∷ []) h =
      if-Ok K E (not (named name "setrange")) _ _ h (
        option-Ok K E (offset_of word) _ _ h (λ offset.
          set_range_locked-Ok (check_ttl K E m key now).0 key offset val
            (as_string (lookup K E (check_ttl K E m key now).0 key))
            (check_ttl-IsValid K E m key now h)))
  set_range_string-Keeps m now name (_ ∷ _ ∷ _ ∷ _ ∷ _) h = h
