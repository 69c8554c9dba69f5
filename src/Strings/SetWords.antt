-- ===== src/Strings/SetWords.antt =====
-- SET of pkg/memdb/string.go by the options that its words spell.
use tinyredis.Prelude.{
  ◌≡◌, ◌≢◌, refl, sym, ap, ◌∙◌, Bool, true, false, not, Option, none, some, List, [], ◌∷◌, arith,
  Bytes, if◌then◌else◌, ◌&&◌, ◌||◌, is_some, Bool-cases, inl, inr, text, to_lower, eqb,
}
use tinyredis.Prelude.Int.{ℤ, ◌+ℤ◌, wrap64}
use tinyredis.Decimal.{parse_int}
use tinyredis.Resp.{RedisData, bulk_data, null_bulk}
use tinyredis.Keyspace.{Keyspace}
use tinyredis.Expiry.{Expiry}
use tinyredis.Ttl.ShardLaws.{lapsed}
use tinyredis.Value.{
  Value, string_value, list_value, set_value, hash_value, zset_value, as_string, wrong,
}
use tinyredis.MemDb.{MemDb, named, lookup, expiry_of}
use tinyredis.MemDb.View.{IsValid, live}
use tinyredis.Strings.{
  Outcome, SetOptions, no_options, set_flag, set_options, options, set_writes, set_reply,
  set_string, ok_reply,
}
use tinyredis.Strings.SetOptionLaws.{value_after, time_after, set_string-Left}

-- The options of SET.
pub data SetWord : Type 0 where
  only_new only_old answer_old keep_time : SetWord
  expires_in : ℤ → SetWord

-- The words of a command spell options: NX, XX, GET, KEEPTTL, and EX with a number, in letters of either
-- case.
pub data Spells : List Bytes → List SetWord → Type 0 where
  no_words : Spells [] []
  nx_word :
      (w : Bytes) (ws : List Bytes) (os : List SetWord)
      → to_lower w ≡ text "nx"
      → Spells ws os
      → Spells (w ∷ ws) (only_new ∷ os)
  xx_word :
      (w : Bytes) (ws : List Bytes) (os : List SetWord)
      → to_lower w ≡ text "xx"
      → Spells ws os
      → Spells (w ∷ ws) (only_old ∷ os)
  get_word :
      (w : Bytes) (ws : List Bytes) (os : List SetWord)
      → to_lower w ≡ text "get"
      → Spells ws os
      → Spells (w ∷ ws) (answer_old ∷ os)
  keepttl_word :
      (w : Bytes) (ws : List Bytes) (os : List SetWord)
      → to_lower w ≡ text "keepttl"
      → Spells ws os
      → Spells (w ∷ ws) (keep_time ∷ os)
  ex_words :
      (w n : Bytes) (e : ℤ) (ws : List Bytes) (os : List SetWord)
      → to_lower w ≡ text "ex"
      → parse_int n ≡ some e
      → Spells ws os
      → Spells (w ∷ n ∷ ws) (expires_in e ∷ os)

abbrev pub wants_new : List SetWord → Bool
wants_new [] = false
wants_new (only_new ∷ os) = true
wants_new (o ∷ os) = wants_new os

abbrev pub wants_old : List SetWord → Bool
wants_old [] = false
wants_old (only_old ∷ os) = true
wants_old (o ∷ os) = wants_old os

abbrev pub answers_old : List SetWord → Bool
answers_old [] = false
answers_old (answer_old ∷ os) = true
answers_old (o ∷ os) = answers_old os

abbrev pub keeps_time : List SetWord → Bool
keeps_time [] = false
keeps_time (keep_time ∷ os) = true
keeps_time (o ∷ os) = keeps_time os

-- The seconds of the last EX.
abbrev pub lifetime : List SetWord → Option ℤ
lifetime [] = none
lifetime (expires_in e ∷ os) = elim (lifetime os) [ none ↦ some e | some later ↦ some later ]
lifetime (o ∷ os) = lifetime os

-- Whether the options let SET write.
abbrev pub may_write : List SetWord → Option Value → Bool
may_write os shown =
    not (wants_new os && is_some shown) && not (wants_old os && not (is_some shown))

abbrev pub written_value : List SetWord → Option Value → Bytes → Option Value
written_value os shown val = if may_write os shown then some (string_value val) else shown

-- The time that the key has afterwards, by what it holds then and the time that it had.
abbrev pub written_time : List SetWord → Option Value → Option ℤ → ℤ → Option ℤ
written_time os left time now = elim (lifetime os) [
  | none ↦ if keeps_time os then time else none
  | some e ↦ if is_some left then some (wrap64 (e +ℤ now)) else none
]

abbrev pub old_string : Option Value → RedisData
old_string (some (string_value v)) = bulk_data v
old_string other = null_bulk

abbrev pub set_answer : List SetWord → Option Value → RedisData
set_answer os shown =
    if answers_old os then old_string shown else if may_write os shown then ok_reply else null_bulk

-- What the options make of a record of options.
merged : List SetWord → SetOptions → SetOptions
merged [] o = o
merged (only_new ∷ os) o = merged os (record o { nx = true })
merged (only_old ∷ os) o = merged os (record o { xx = true })
merged (answer_old ∷ os) o = merged os (record o { get = true })
merged (keep_time ∷ os) o = merged os (record o { keepttl = true })
merged (expires_in e ∷ os) o = merged os (record o { ex = true; exval = e })

flag_step :
    (w : Bytes) (ws : List Bytes) (o o' : SetOptions)
    → named w "ex" ≡ false
    → set_flag w o ≡ some o'
    → set_options (w ∷ ws) o ≡ set_options ws o'
unfolding set_options
flag_step w [] o o' plain e = rw (set_options, plain, e) refl
flag_step w (n ∷ ws) o o' plain e = rw (set_options, plain, e) refl

ex_step :
    (w n : Bytes) (e : ℤ) (ws : List Bytes) (o : SetOptions)
    → named w "ex" ≡ true
    → parse_int n ≡ some e
    → set_options (w ∷ n ∷ ws) o ≡ set_options ws (record o { ex = true; exval = e })
unfolding set_options
ex_step w n e ws o is_ex p = rw (set_options, is_ex, p) refl

set_options-merged :
    (ws : List Bytes) (os : List SetWord) (o : SetOptions)
    → Spells ws os
    → set_options ws o ≡ options (merged os o)
unfolding merged set_flag named eqb text
set_options-merged _ _ o no_words = unfold set_options in refl
set_options-merged _ _ o (nx_word w ws os e s) =
    flag_step w ws o (record o { nx = true }) (rw e refl) (rw e refl)
    ∙ set_options-merged ws os (record o { nx = true }) s
set_options-merged _ _ o (xx_word w ws os e s) =
    flag_step w ws o (record o { xx = true }) (rw e refl) (rw e refl)
    ∙ set_options-merged ws os (record o { xx = true }) s
set_options-merged _ _ o (get_word w ws os e s) =
    flag_step w ws o (record o { get = true }) (rw e refl) (rw e refl)
    ∙ set_options-merged ws os (record o { get = true }) s
set_options-merged _ _ o (keepttl_word w ws os e s) =
    flag_step w ws o (record o { keepttl = true }) (rw e refl) (rw e refl)
    ∙ set_options-merged ws os (record o { keepttl = true }) s
set_options-merged _ _ o (ex_words w n v ws os e p s) =
    ex_step w n v ws o (rw e refl) p
    ∙ set_options-merged ws os (record o { ex = true; exval = v }) s

abbrev given : List SetWord → SetOptions
given os = merged os no_options

merged-nx : (os : List SetWord) (o : SetOptions) → (merged os o).nx ≡ o.nx || wants_new os
unfolding merged
merged-nx [] o = ground arith
merged-nx (only_new ∷ os) o = ground (arith, merged-nx os (record o { nx = true }))
merged-nx (only_old ∷ os) o = merged-nx os (record o { xx = true })
merged-nx (answer_old ∷ os) o = merged-nx os (record o { get = true })
merged-nx (keep_time ∷ os) o = merged-nx os (record o { keepttl = true })
merged-nx (expires_in e ∷ os) o = merged-nx os (record o { ex = true; exval = e })

merged-xx : (os : List SetWord) (o : SetOptions) → (merged os o).xx ≡ o.xx || wants_old os
unfolding merged
merged-xx [] o = ground arith
merged-xx (only_new ∷ os) o = merged-xx os (record o { nx = true })
merged-xx (only_old ∷ os) o = ground (arith, merged-xx os (record o { xx = true }))
merged-xx (answer_old ∷ os) o = merged-xx os (record o { get = true })
merged-xx (keep_time ∷ os) o = merged-xx os (record o { keepttl = true })
merged-xx (expires_in e ∷ os) o = merged-xx os (record o { ex = true; exval = e })

merged-get : (os : List SetWord) (o : SetOptions) → (merged os o).get ≡ o.get || answers_old os
unfolding merged
merged-get [] o = ground arith
merged-get (only_new ∷ os) o = merged-get os (record o { nx = true })
merged-get (only_old ∷ os) o = merged-get os (record o { xx = true })
merged-get (answer_old ∷ os) o = ground (arith, merged-get os (record o { get = true }))
merged-get (keep_time ∷ os) o = merged-get os (record o { keepttl = true })
merged-get (expires_in e ∷ os) o = merged-get os (record o { ex = true; exval = e })

merged-keepttl :
    (os : List SetWord) (o : SetOptions) → (merged os o).keepttl ≡ o.keepttl || keeps_time os
unfolding merged
merged-keepttl [] o = ground arith
merged-keepttl (only_new ∷ os) o = merged-keepttl os (record o { nx = true })
merged-keepttl (only_old ∷ os) o = merged-keepttl os (record o { xx = true })
merged-keepttl (answer_old ∷ os) o = merged-keepttl os (record o { get = true })
merged-keepttl (keep_time ∷ os) o = ground (arith, merged-keepttl os (record o { keepttl = true }))
merged-keepttl (expires_in e ∷ os) o = merged-keepttl os (record o { ex = true; exval = e })

-- The seconds that the options give, if they do.
abbrev seconds_of : SetOptions → Option ℤ
seconds_of o = if o.ex then some o.exval else none

merged-lifetime :
    (os : List SetWord) (o : SetOptions)
    → seconds_of (merged os o) ≡ elim (lifetime os) [ none ↦ seconds_of o | some e ↦ some e ]
unfolding merged
merged-lifetime [] o = refl
merged-lifetime (only_new ∷ os) o = merged-lifetime os (record o { nx = true })
merged-lifetime (only_old ∷ os) o = merged-lifetime os (record o { xx = true })
merged-lifetime (answer_old ∷ os) o = merged-lifetime os (record o { get = true })
merged-lifetime (keep_time ∷ os) o = merged-lifetime os (record o { keepttl = true })
merged-lifetime (expires_in e ∷ os) o =
    merged-lifetime os (record o { ex = true; exval = e }) ∙ by_later (lifetime os)
  where
    by_later :
        (l : Option ℤ)
        → elim l [ none ↦ some e | some x ↦ some x ]
          ≡ elim (elim l as (λ _. Option ℤ) [ none ↦ some e | some later ↦ some later ]) [
            | none ↦ seconds_of o
            | some x ↦ some x
          ]
    by_later none = refl
    by_later (some x) = refl

module _ (os : List SetWord) where
  given-nx : (given os).nx ≡ wants_new os
  given-nx = merged-nx os no_options

  given-xx : (given os).xx ≡ wants_old os
  given-xx = merged-xx os no_options

  given-get : (given os).get ≡ answers_old os
  given-get = merged-get os no_options

  given-keepttl : (given os).keepttl ≡ keeps_time os
  given-keepttl = merged-keepttl os no_options

  given-seconds : seconds_of (given os) ≡ lifetime os
  given-seconds = merged-lifetime os no_options ∙ same (lifetime os)
    where
      same : (l : Option ℤ) → elim l as (λ _. Option ℤ) [ none ↦ none | some e ↦ some e ] ≡ l
      same none = refl
      same (some e) = refl

  given-ex : (given os).ex ≡ is_some (lifetime os)
  given-ex = sym (some_seconds (given os)) ∙ ap is_some given-seconds
    where
      some_seconds : (o : SetOptions) → is_some (seconds_of o) ≡ o.ex
      some_seconds o = ground arith

  given-writes :
      (shown : Option Value)
      → wants_new os && wants_old os ≡ false
      → set_writes (given os) (is_some shown) ≡ may_write os shown
  unfolding set_writes
  given-writes shown apart = ground (arith, given-nx, given-xx)

module _ (K : Keyspace Value) (E : Expiry) where
  given-reply :
      (os : List SetWord) (shown : Option Value)
      → as_string shown ≢ wrong
      → wants_new os && wants_old os ≡ false
      → set_reply K E (given os) (set_writes (given os) (is_some shown)) (as_string shown)
        ≡ set_answer os shown
  unfolding set_reply as_string
  given-reply os none h apart = rw (given-writes os none apart, given-get os) refl
  given-reply os (some (string_value v)) h apart =
      rw (given-writes os (some (string_value v)) apart, given-get os) refl
  given-reply os (some (list_value v)) h apart = absurd (h refl)
  given-reply os (some (set_value v)) h apart = absurd (h refl)
  given-reply os (some (hash_value v)) h apart = absurd (h refl)
  given-reply os (some (zset_value v)) h apart = absurd (h refl)

  -- The time by a record of options, of which `l` are the seconds.
  time_of :
      (o : SetOptions) (keeps : Bool) (l : Option ℤ) (left : Option Value) (time : Option ℤ)
      (now : ℤ)
      → seconds_of o ≡ l
      → o.keepttl ≡ keeps
      → is_some l && keeps ≡ false
      → time_after K E o left time (wrap64 (o.exval +ℤ now)) ≡ elim l [
        | none ↦ if keeps then time else none
        | some e ↦ if is_some left then some (wrap64 (e +ℤ now)) else none
      ]
  time_of o keeps l left time now secs keep apart = elim (Bool-cases o.ex) [
    | inl given_ex ↦ ex_given l secs keep apart given_ex
    | inr absent ↦ no_ex l secs keep absent
  ]
    where
      ex_given :
          (l : Option ℤ)
          → seconds_of o ≡ l
          → o.keepttl ≡ keeps
          → is_some l && keeps ≡ false
          → o.ex ≡ true
          → time_after K E o left time (wrap64 (o.exval +ℤ now)) ≡ elim l [
            | none ↦ if keeps then time else none
            | some e ↦ if is_some left then some (wrap64 (e +ℤ now)) else none
          ]
      ex_given none secs keep apart is_ex =
          let bad : some o.exval ≡ none = rw is_ex at secs in absurd cc
      ex_given (some e) secs keep apart is_ex =
          let same : some o.exval ≡ some e = rw is_ex at secs in
          let value : o.exval ≡ e = cc in rw (is_ex, keep, apart, value) refl

      no_ex :
          (l : Option ℤ)
          → seconds_of o ≡ l
          → o.keepttl ≡ keeps
          → o.ex ≡ false
          → time_after K E o left time (wrap64 (o.exval +ℤ now)) ≡ elim l [
            | none ↦ if keeps then time else none
            | some e ↦ if is_some left then some (wrap64 (e +ℤ now)) else none
          ]
      no_ex none secs keep absent = rw (absent, keep) refl
      no_ex (some e) secs keep absent = let bad : none ≡ some e = rw absent at secs in absurd cc

  -- What SET leaves and answers, by the options, what the key showed and the time that it had.
  abbrev pub Leaves :
      ℤ → Bytes → Bytes → List SetWord → Option Value → Option ℤ → Outcome K E → Type 0
  Leaves now key val os shown time (m', reply) =
      (lookup K E m' key ≡ written_value os shown val)
      × (expiry_of K E m' key ≡ written_time os (written_value os shown val) time now)
      × (reply ≡ set_answer os shown)

  -- SET on a well-formed database, on a key that shows no value or a string, with words that spell
  -- options: NX, XX, GET, KEEPTTL, and EX with a number of seconds, in letters of either case and
  -- in any order, but not NX with XX, nor EX with KEEPTTL. The key then holds the new value,
  -- unless NX is given and it showed one or XX is given and it showed none; then it holds what it
  -- showed. In both cases, if the key holds a value in the end, its expiration time is with EX the
  -- sum of the clock and the last number of seconds, wrapped around as int64 does, and with
  -- KEEPTTL the one it had, unless that has passed; otherwise it has none. The reply is OK or null
  -- by whether the value was written, or with GET the string that the key showed, null for none.
  pub set_string_options :
      (m : MemDb K E) (now : ℤ) (name key val : Bytes) (opts : List Bytes) (os : List SetWord)
      → IsValid K E m
      → named name "set" ≡ true
      → Spells opts os
      → wants_new os && wants_old os ≡ false
      → is_some (lifetime os) && keeps_time os ≡ false
      → as_string (live K E m now key) ≢ wrong
      → Leaves now key val os
          (live K E m now key)
          (if lapsed (expiry_of K E m key) now then none else expiry_of K E m key)
          (set_string K E m now name (key ∷ val ∷ opts))
  set_string_options m now name key val opts os h e spelled apart alone is_string =
      let shown = live K E m now key in
      let time = if lapsed (expiry_of K E m key) now then none else expiry_of K E m key in
      let left = value_after K E (given os) shown val in
      let together : ((given os).nx && (given os).xx) || ((given os).ex && (given os).keepttl)
          ≡ false =
        rw (given-nx os, given-xx os, given-ex os, given-keepttl os, apart, alone) refl in
      let (value, at, reply) =
        set_string-Left K E m now name key val opts (given os) h e
          (set_options-merged opts os no_options spelled) together is_string in
      let same : left ≡ written_value os shown val =
        ap (λ b. if b then some (string_value val) else shown) (given-writes os shown apart) in
      (
        value ∙ same,
        at
            ∙ time_of (given os) (keeps_time os) (lifetime os) left time now (given-seconds os)
                (given-keepttl os) alone
            ∙ ap (λ o. written_time os o time now) same,
        reply ∙ given-reply os shown is_string apart,
      )
