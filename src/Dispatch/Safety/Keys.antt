-- ===== src/Dispatch/Safety/Keys.antt =====
-- The commands of pkg/memdb/keys.go.
use tinyredis.Prelude.{
  not, Option, none, some, List, [], ◌∷◌, Bytes, if◌then◌else◌, is_some, ◌++◌, text, to_lower,
}
use tinyredis.Prelude.Int.{ℤ, pos}
use tinyredis.Decimal.{parse_int}
use tinyredis.Resp.{error_data, int_data}
use tinyredis.Keyspace.{Keyspace}
use tinyredis.Expiry.{Expiry}
use tinyredis.Value.{Value}
use tinyredis.MemDb.{MemDb, named, lookup, discard, check_ttl, set_ttl, del_ttl, expiry_of}
use tinyredis.MemDb.View.{IsValid, store-IsValid, discard-IsValid, del_ttl-IsValid, set_ttl-IsValid}
use tinyredis.MemDb.Checks.{check_ttl-IsValid}
use tinyredis.Dispatch.Safety.{Keeps, if-Ok, option-Ok, pick}
use tinyredis.Strings.{Outcome}
use tinyredis.Keys.{
  ping_keys, del_loop, del_key, exists_loop, exists_key, expire_locked, expire_words, expire_key,
  expire_option, expire_sets, ExpireOption, always, nx, xx, gt, lt, unknown, persist_key, ttl_key,
  type_key, rename_key, rename_locked,
}

module _ (K : Keyspace Value) (E : Expiry) where
  ping-Ok :
      (m : MemDb K E) (name : Bytes) (args : List Bytes)
      → IsValid K E m
      → IsValid K E (ping_keys K E m name args).0
  unfolding ping_keys
  ping-Ok m name [] h = if-Ok K E (not (named name "ping")) _ _ h h
  ping-Ok m name (_ ∷ []) h = if-Ok K E (not (named name "ping")) _ _ h h
  ping-Ok m name (_ ∷ _ ∷ _) h = if-Ok K E (not (named name "ping")) _ _ h h

  pub ping_keys-Keeps : Keeps K E (λ m now. ping_keys K E m)
  ping_keys-Keeps m now name args h = ping-Ok m name args h

  dropped-IsValid :
      (m : MemDb K E) (key : Bytes)
      → IsValid K E m
      → IsValid K E (del_ttl K E (discard K E m key) key)
  dropped-IsValid m key h =
      del_ttl-IsValid K E (discard K E m key) key (discard-IsValid K E m key h)

  del_loop-IsValid :
      (m : MemDb K E) (now : ℤ) (keys : List Bytes)
      → IsValid K E m
      → IsValid K E (del_loop K E m now keys).0
  unfolding del_loop discard
  del_loop-IsValid m now [] h = h
  del_loop-IsValid m now (key ∷ rest) h =
      let h' = check_ttl-IsValid K E m key now h in
      del_loop-IsValid
        (if (check_ttl K E m key now).1
          then del_ttl K E (discard K E (check_ttl K E m key now).0 key) key
          else (check_ttl K E m key now).0)
        now rest
        (pick K E (check_ttl K E m key now).1 _ _
          (dropped-IsValid (check_ttl K E m key now).0 key h') h')

  pub del_key-Keeps : Keeps K E (del_key K E)
  unfolding del_key
  del_key-Keeps m now name args h =
      if-Ok K E (not (named name "del")) _ _ h (del_loop-IsValid m now args h)

  exists_loop-IsValid :
      (m : MemDb K E) (now : ℤ) (keys : List Bytes)
      → IsValid K E m
      → IsValid K E (exists_loop K E m now keys).0
  unfolding exists_loop
  exists_loop-IsValid m now [] h = h
  exists_loop-IsValid m now (key ∷ rest) h =
      exists_loop-IsValid (check_ttl K E m key now).0 now rest (check_ttl-IsValid K E m key now h)

  pub exists_key-Keeps : Keeps K E (exists_key K E)
  unfolding exists_key
  exists_key-Keeps m now name [] h = h
  exists_key-Keeps m now name (key ∷ rest) h =
      if-Ok K E (not (named name "exists")) _ _ h (exists_loop-IsValid m now (key ∷ rest) h)

  expire_locked-Ok :
      (m : MemDb K E) (key : Bytes) (expire : ℤ) (option : Bytes)
      → IsValid K E m
      → IsValid K E (expire_locked K E m key expire option).0
  unfolding expire_locked
  expire_locked-Ok m key expire option h = by_option (expire_option option)
    where
      going :
          (o : ExpireOption)
          → IsValid K E
              (if◌then◌else◌ {A = Outcome K E}
                (expire_sets o (expiry_of K E m key) expire)
                ((set_ttl K E m key expire).0, int_data (pos (set_ttl K E m key expire).1))
                (m, int_data (pos 0))).0
      going o =
          if-Ok K E (expire_sets o (expiry_of K E m key) expire) _ _
            (set_ttl-IsValid K E m key h expire) h

      by_option :
          (o : ExpireOption)
          → IsValid K E
              (elim o as (λ _. Outcome K E) [
                | unknown ↦ (
                  m,
                  error_data (
                      text "error: unsupport "
                      ++ (to_lower option ++ text ", except nx, xx, gt, lt")),
                )
                | kind ↦
                    if expire_sets kind (expiry_of K E m key) expire
                    then ((set_ttl K E m key expire).0, int_data (pos (set_ttl K E m key expire).1))
                    else (m, int_data (pos 0))
              ]).0
      by_option always = going always
      by_option nx = going nx
      by_option xx = going xx
      by_option gt = going gt
      by_option lt = going lt
      by_option unknown = h

  expire_words-Ok :
      (m : MemDb K E) (now : ℤ) (key seconds option : Bytes)
      → IsValid K E m
      → IsValid K E (expire_words K E m now key seconds option).0
  unfolding expire_words
  expire_words-Ok m now key seconds option h =
      let h' = check_ttl-IsValid K E m key now h in
      option-Ok K E (parse_int seconds) _ _ h (λ v.
        if-Ok K E (not (check_ttl K E m key now).1) _ _ h'
          (expire_locked-Ok (check_ttl K E m key now).0 key _ option h'))

  pub expire_key-Keeps : Keeps K E (expire_key K E)
  unfolding expire_key
  expire_key-Keeps m now name [] h = h
  expire_key-Keeps m now name (_ ∷ []) h = h
  expire_key-Keeps m now name (key ∷ seconds ∷ []) h =
      if-Ok K E (named name "expire") _ _ (expire_words-Ok m now key seconds [] h) h
  expire_key-Keeps m now name (key ∷ seconds ∷ option ∷ []) h =
      if-Ok K E (named name "expire") _ _ (expire_words-Ok m now key seconds option h) h
  expire_key-Keeps m now name (_ ∷ _ ∷ _ ∷ _ ∷ _) h = h

  pub persist_key-Keeps : Keeps K E (persist_key K E)
  unfolding persist_key
  persist_key-Keeps m now name [] h = h
  persist_key-Keeps m now name (key ∷ []) h =
      let h' = check_ttl-IsValid K E m key now h in
      if-Ok K E (not (named name "persist")) _ _ h
        (if-Ok K E (check_ttl K E m key now).1 _ _ (del_ttl-IsValid K E _ key h') h')
  persist_key-Keeps m now name (_ ∷ _ ∷ _) h = h

  pub ttl_key-Keeps : Keeps K E (ttl_key K E)
  unfolding ttl_key
  ttl_key-Keeps m now name [] h = h
  ttl_key-Keeps m now name (key ∷ []) h = if-Ok K E (not (named name "ttl")) _ _ h (
      if-Ok K E (not (is_some (lookup K E m key))) _ _ h
        (option-Ok K E (expiry_of K E m key) _ _ h (λ e. h)))
  ttl_key-Keeps m now name (_ ∷ _ ∷ _) h = h

  pub type_key-Keeps : Keeps K E (type_key K E)
  unfolding type_key
  type_key-Keeps m now name [] h = h
  type_key-Keeps m now name (key ∷ []) h =
      let h' = check_ttl-IsValid K E m key now h in
      if-Ok K E (not (named name "type")) _ _ h (if-Ok K E (check_ttl K E m key now).1 _ _ h' h')
  type_key-Keeps m now name (_ ∷ _ ∷ _) h = h

  rename_locked-Ok :
      (m : MemDb K E) (old new : Bytes) (o : Option Value)
      → IsValid K E m
      → IsValid K E (rename_locked K E m old new o).0
  unfolding rename_locked
  rename_locked-Ok m old new none h = h
  rename_locked-Ok m old new (some v) h =
      store-IsValid K E _ new (dropped-IsValid _ new (dropped-IsValid m old h)) v

  pub rename_key-Keeps : Keeps K E (rename_key K E)
  unfolding rename_key
  rename_key-Keeps m now name [] h = h
  rename_key-Keeps m now name (_ ∷ []) h = h
  rename_key-Keeps m now name (old ∷ new ∷ []) h =
      let h' = check_ttl-IsValid K E m old now h in
      if-Ok K E (not (named name "rename")) _ _ h (
        if-Ok K E (check_ttl K E m old now).1 _ _
          (rename_locked-Ok (check_ttl K E m old now).0 old new _ h') h')
  rename_key-Keeps m now name (_ ∷ _ ∷ _ ∷ _) h = h
