-- ===== src/Keys/Pattern.antt =====
-- pkg/memdb/keys.go: `keysKey`. A panic of the pattern, which the connection recovers, is no reply.
use tinyredis.Prelude.{
  ◌+◌, Bool, true, false, not, Option, none, some, List, [], ◌∷◌, ◌++◌, Bytes, if◌then◌else◌,
  length, text,
}
use tinyredis.Prelude.Int.{ℤ, pos}
use tinyredis.Decimal.{format_int}
use tinyredis.Resp.{RedisData, error_data, bulk_data, array_data, elements}
use tinyredis.Keyspace.{Keyspace}
use tinyredis.Expiry.{Expiry}
use tinyredis.Value.{Value}
use tinyredis.MemDb.{MemDb, named, check_ttl}
use tinyredis.MemDb.View.{IsValid}
use tinyredis.MemDb.Checks.{check_ttl-IsValid}
use tinyredis.Glob.{Matched, matched, out_of_range, pattern_match}

module _ (K : Keyspace Value) (E : Expiry) where
  -- The loop over the keys of the table, with the replies for those that match.
  unfoldable pub keys_loop :
      MemDb K E → ℤ → Bytes → List Bytes → MemDb K E × Option (List RedisData)
  keys_loop m now pattern [] = (m, some [])
  keys_loop m now pattern (key ∷ keys) =
      let (m', lives) = check_ttl K E m key now in
      elim (if lives then pattern_match pattern key else matched false) [
        | out_of_range ↦ (m', none)
        | matched b ↦
            let (m'', found) = keys_loop m' now pattern keys in
            (m'', elim found [ none ↦ none | some l ↦ some (if b then bulk_data key ∷ l else l) ])
      ]

  unfoldable pub keys_key : MemDb K E → ℤ → Bytes → List Bytes → MemDb K E × Option RedisData
  unfolding keys_loop
  keys_key m now name (pattern ∷ []) =
      let (m', found) = keys_loop m now pattern (K.keys m.db) in
      if not (named name "keys")
      then (m, some (error_data (text "error: keys function got invalid command " ++ name)))
      else (m', elim found [ none ↦ none | some l ↦ some (array_data (elements l)) ])
  keys_key m now name args = (
    m,
    some (
        error_data (
          text "error: keys function requires exactly 2 arguments, got "
          ++ format_int (pos (length args + 1)))),
  )

  keys_loop-IsValid :
      (m : MemDb K E) (now : ℤ) (pattern : Bytes) (keys : List Bytes)
      → IsValid K E m
      → IsValid K E (keys_loop m now pattern keys).0
  unfolding keys_loop
  keys_loop-IsValid m now pattern [] h = h
  keys_loop-IsValid m now pattern (key ∷ keys) h =
      let h' = check_ttl-IsValid K E m key now h in
      by_match (if (check_ttl K E m key now).1 then pattern_match pattern key else matched false) h'
        (keys_loop-IsValid (check_ttl K E m key now).0 now pattern keys h')
    where
      by_match :
          (o : Matched)
          → IsValid K E (check_ttl K E m key now).0
          → IsValid K E (keys_loop (check_ttl K E m key now).0 now pattern keys).0
          → IsValid K E
              (elim o as (λ _. MemDb K E × Option (List RedisData)) [
                | out_of_range ↦ ((check_ttl K E m key now).0, none)
                | matched b ↦
                    let (m'', found) = keys_loop (check_ttl K E m key now).0 now pattern keys in
                    (
                      m'',
                      elim found [
                        | none ↦ none
                        | some l ↦ some (if b then bulk_data key ∷ l else l)
                      ],
                    )
              ]).0
      by_match out_of_range h' rest = h'
      by_match (matched b) h' rest = rest

  pub keys_key-IsValid :
      (m : MemDb K E) (now : ℤ) (name : Bytes) (args : List Bytes)
      → IsValid K E m
      → IsValid K E (keys_key m now name args).0
  unfolding keys_key
  keys_key-IsValid m now name [] h = h
  keys_key-IsValid m now name (pattern ∷ []) h = by_name (not (named name "keys"))
    where
      by_name :
          (b : Bool)
          → IsValid K E
              (if◌then◌else◌ {A = MemDb K E × Option RedisData} b
                (m, some (error_data (text "error: keys function got invalid command " ++ name)))
                (
                  (keys_loop m now pattern (K.keys m.db)).0,
                  elim (keys_loop m now pattern (K.keys m.db)).1 [
                    | none ↦ none
                    | some l ↦ some (array_data (elements l))
                  ],
                )).0
      by_name true = h
      by_name false = keys_loop-IsValid m now pattern (K.keys m.db) h
  keys_key-IsValid m now name (_ ∷ _ ∷ _) h = h
