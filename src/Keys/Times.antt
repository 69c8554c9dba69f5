-- ===== src/Keys/Times.antt =====
-- EXPIRE, PERSIST, TTL and RENAME of pkg/memdb/keys.go: what becomes of expiration times.
use tinyredis.Prelude.{
  ◌≡◌, ◌≢◌, refl, ap, subst, ◌∙◌, Bool, true, false, Option, none, some, text, to_lower, [], ◌∷◌,
  arith, Bytes, if◌then◌else◌, ◌&&◌, Bool-cases, inl, inr, eqb, eqb_iff, eqb_refl, is_some,
}
use tinyredis.Prelude.Int.{ℤ, pos, ◌+ℤ◌, ltb_ℤ, wrap64}
use tinyredis.Decimal.{parse_int}
use tinyredis.Resp.{int_data}
use tinyredis.Keyspace.{Keyspace}
use tinyredis.Expiry.{Expiry}
use tinyredis.Ttl.ShardLaws.{lapsed}
use tinyredis.Value.{Value}
use tinyredis.MemDb.{MemDb, named, lookup, store, discard, expiry_of, check_ttl, set_ttl, del_ttl}
use tinyredis.MemDb.View.{
  IsValid, live, del_ttl-IsValid, discard-IsValid, lookup-discard, expiry_of-del_ttl,
}
use tinyredis.MemDb.Checks.{
  check_ttl_lives, check_ttl-IsValid, lookup-check_ttl_self, live-check_ttl, live-store,
  live-discard, live-set_ttl, live-del_ttl, live_missing, expiry_of-check_ttl,
}
use tinyredis.Strings.{Outcome, ok_reply}
use tinyredis.Keys.{
  expire_locked, expire_words, expire_key, expire_option, expire_sets, ExpireOption, always, nx, xx,
  gt, lt, unknown, persist_key, rename_key, rename_locked,
}

-- The conditions that EXPIRE can be given, by what they ask of the time that the key has.
pub data Condition : Type 0 where
  no_condition untimed timed later sooner : Condition

abbrev pub word_of : Condition → Bytes
word_of no_condition = []
word_of untimed = text "nx"
word_of timed = text "xx"
word_of later = text "gt"
word_of sooner = text "lt"

-- Whether a condition allows a new time beside the time that the key has.
pub allows : Condition → Option ℤ → ℤ → Bool
allows no_condition time new = true
allows untimed none new = true
allows untimed (some t) new = false
allows timed none new = false
allows timed (some t) new = true
allows later none new = false
allows later (some t) new = ltb_ℤ t new
allows sooner none new = false
allows sooner (some t) new = ltb_ℤ new t

option_of : Condition → ExpireOption
option_of no_condition = always
option_of untimed = nx
option_of timed = xx
option_of later = gt
option_of sooner = lt

expire_option-word_of :
    (word : Bytes) (c : Condition) → to_lower word ≡ word_of c → expire_option word ≡ option_of c
unfolding expire_option option_of named eqb text
expire_option-word_of word no_condition e = rw e refl
expire_option-word_of word untimed e = rw e refl
expire_option-word_of word timed e = rw e refl
expire_option-word_of word later e = rw e refl
expire_option-word_of word sooner e = rw e refl

option_of-known : (c : Condition) → option_of c ≢ unknown
unfolding option_of
option_of-known no_condition e = cc
option_of-known untimed e = cc
option_of-known timed e = cc
option_of-known later e = cc
option_of-known sooner e = cc

expire_sets-allows :
    (c : Condition) (time : Option ℤ) (new : ℤ)
    → expire_sets (option_of c) time new ≡ allows c time new
unfolding expire_sets option_of allows
expire_sets-allows no_condition time new = refl
expire_sets-allows untimed none new = refl
expire_sets-allows untimed (some t) new = refl
expire_sets-allows timed none new = refl
expire_sets-allows timed (some t) new = refl
expire_sets-allows later none new = refl
expire_sets-allows later (some t) new = refl
expire_sets-allows sooner none new = refl
expire_sets-allows sooner (some t) new = refl

module _ (K : Keyspace Value) (E : Expiry) where
  -- Whether EXPIRE sets a time: a client sees the key, and the option allows it.
  abbrev sets : MemDb K E → ℤ → Bytes → ExpireOption → ℤ → Bool
  sets m now key o expire =
      is_some (live K E m now key) && expire_sets o (expiry_of K E m key) expire

  -- What EXPIRE answers, and what it leaves to see: the key up to the time that was set, at every
  -- time to come, if one was set, and all as it was otherwise.
  abbrev pub Expires : MemDb K E → ℤ → Bytes → ℤ → Bool → Outcome K E → Type 0
  Expires m now key expire true (m', reply) =
      (reply ≡ int_data (pos 1))
      × ((t : ℤ)
          → live K E m' t key ≡ (if lapsed (some expire) t then none else live K E m now key))
      × ((j : Bytes) → eqb key j ≡ false → live K E m' now j ≡ live K E m now j)
  Expires m now key expire false (m', reply) =
      (reply ≡ int_data (pos 0)) × ((j : Bytes) → live K E m' now j ≡ live K E m now j)

  and_false : (b : Bool) → (b && false) ≡ false
  and_false b = ground arith

  known :
      (m : MemDb K E) (key : Bytes) (expire : ℤ) (option : Bytes) (o : ExpireOption)
      → expire_option option ≡ o
      → o ≢ unknown
      → expire_locked K E m key expire option ≡ (
          if expire_sets o (expiry_of K E m key) expire
          then ((set_ttl K E m key expire).0, int_data (pos (set_ttl K E m key expire).1))
          else (m, int_data (pos 0)))
  unfolding expire_locked
  known m key expire option always e h = rw (e, expire_locked)
  known m key expire option nx e h = rw (e, expire_locked)
  known m key expire option xx e h = rw (e, expire_locked)
  known m key expire option gt e h = rw (e, expire_locked)
  known m key expire option lt e h = rw (e, expire_locked)
  known m key expire option unknown e h = absurd (h refl)

  set_ttl_result :
      (m : MemDb K E) (key : Bytes) (e : ℤ)
      → (set_ttl K E m key e).1 ≡ (if is_some (lookup K E m key) then 1 else 0)
  unfolding set_ttl
  set_ttl_result m key e = ground arith

  set_ttl_missing :
      (m : MemDb K E) (key : Bytes) (e : ℤ)
      → is_some (lookup K E m key) ≡ false
      → (set_ttl K E m key e).0 ≡ m
  unfolding set_ttl
  set_ttl_missing m key e h = rw h

  module _ (m : MemDb K E) (now : ℤ) (key : Bytes) (h : IsValid K E m) where
    abbrev m' : MemDb K E
    m' = (check_ttl K E m key now).0

    checked : IsValid K E m'
    checked = check_ttl-IsValid K E m key now h

    unchanged : (j : Bytes) → live K E m' now j ≡ live K E m now j
    unchanged = live-check_ttl K E m key now h

    there : {b : Bool} → is_some (live K E m now key) ≡ b → is_some (lookup K E m' key) ≡ b
    there e = ap is_some (lookup-check_ttl_self K E m key now h) ∙ e

    kept_time : (check_ttl K E m key now).1 ≡ true → expiry_of K E m' key ≡ expiry_of K E m key
    kept_time e =
        ground (arith, check_ttl_lives K E m key now h, expiry_of-check_ttl K E m key now h key)

    expired_missing : (check_ttl K E m key now).1 ≡ false → live K E m now key ≡ none
    expired_missing e =
        live_missing K E m key now h (ground (arith, check_ttl_lives K E m key now h))

    set_time :
        (expire : ℤ)
        → is_some (live K E m now key) ≡ true
        → Expires m now key expire true
            ((set_ttl K E m' key expire).0, int_data (pos (set_ttl K E m' key expire).1))
    set_time expire e = (
      rw (set_ttl_result m' key expire, there e),
      λ t. rw (
        live-set_ttl K E m' key checked expire t key,
        eqb_refl key,
        lookup-check_ttl_self K E m key now h,
      ),
      λ j other. rw (live-set_ttl K E m' key checked expire now j, other, unchanged j),
    )

    expire_live :
        (expire : ℤ) (option : Bytes) (o : ExpireOption)
        → expire_option option ≡ o
        → o ≢ unknown
        → (check_ttl K E m key now).1 ≡ true
        → Expires m now key expire
            (sets m now key o expire)
            (expire_locked K E m' key expire option)
    expire_live expire option o eo known_option lives =
        rw (known m' key expire option o eo known_option, kept_time lives)
          (elim (Bool-cases (expire_sets o (expiry_of K E m key) expire)) [
            | inl allowed ↦ elim (Bool-cases (is_some (live K E m now key))) [
              | inl seen ↦ rw (allowed, seen) (set_time expire seen)
              | inr missing ↦
                  rw (allowed, missing, set_ttl_missing m' key expire (there missing))
                    (rw (set_ttl_result m' key expire, there missing), unchanged)
            ]
            | inr refused ↦ rw (refused, and_false (is_some (live K E m now key))) (refl, unchanged)
          ])

    expire_lapsed :
        (expire : ℤ) (o : ExpireOption)
        → (check_ttl K E m key now).1 ≡ false
        → Expires m now key expire (sets m now key o expire) (m', int_data (pos 0))
    expire_lapsed expire o gone = rw (expired_missing gone) (refl, unchanged)

    expire_checked :
        (v : ℤ) (seconds option : Bytes) (o : ExpireOption)
        → parse_int seconds ≡ some v
        → expire_option option ≡ o
        → o ≢ unknown
        → Expires m now key
            (wrap64 (now +ℤ v))
            (sets m now key o (wrap64 (now +ℤ v)))
            (expire_words K E m now key seconds option)
    unfolding expire_words
    expire_checked v seconds option o parsed eo known_option =
        rw (parsed, expire_words)
          (elim (Bool-cases (check_ttl K E m key now).1) [
            | inl lives ↦ rw lives (expire_live (wrap64 (now +ℤ v)) option o eo known_option lives)
            | inr gone ↦ rw gone (expire_lapsed (wrap64 (now +ℤ v)) o gone)
          ])

    -- What PERSIST leaves, after its check.
    persist_view :
        (t : ℤ)
        → (live K E (del_ttl K E m' key) t key ≡ live K E m now key)
          × ((j : Bytes) → live K E (del_ttl K E m' key) now j ≡ live K E m now j)
    persist_view t = (
      rw (live-del_ttl K E m' key checked t key, eqb_refl key)
          (lookup-check_ttl_self K E m key now h),
      λ j. ground (
        arith,
        live-del_ttl K E m' key checked now j,
        lookup-check_ttl_self K E m key now h,
        unchanged j,
        eqb_iff key j,
      ),
    )

    gone_view :
        (t : ℤ) → (check_ttl K E m key now).1 ≡ false → live K E m' t key ≡ live K E m now key
    unfolding live
    gone_view t gone = ground (arith, lookup-check_ttl_self K E m key now h, expired_missing gone)

    abbrev dropped : MemDb K E
    dropped = del_ttl K E (discard K E m' key) key

    dropped-IsValid : IsValid K E dropped
    dropped-IsValid =
        del_ttl-IsValid K E (discard K E m' key) key (discard-IsValid K E m' key checked)

    live-dropped :
        (j : Bytes) → live K E dropped now j ≡ (if eqb key j then none else live K E m now j)
    live-dropped j =
        let discarded = discard-IsValid K E m' key checked in
        elim (Bool-cases (eqb key j)) [
          | inl same ↦ rw (
            live-del_ttl K E (discard K E m' key) key discarded now j,
            same,
            lookup-discard K E m' key checked key,
            eqb_refl key,
          )
          | inr other ↦ rw (
            live-del_ttl K E (discard K E m' key) key discarded now j,
            other,
            live-discard K E m' key checked now j,
            other,
            unchanged j,
          )
        ]

  -- A key that is made anew: it shows its value at every time, and the other keys stay.
  module _ (m : MemDb K E) (key : Bytes) (v : Value) (h : IsValid K E m) where
    abbrev emptied : MemDb K E
    emptied = del_ttl K E (discard K E m key) key

    discarded : IsValid K E (discard K E m key)
    discarded = discard-IsValid K E m key h

    emptied-IsValid : IsValid K E emptied
    emptied-IsValid = del_ttl-IsValid K E (discard K E m key) key discarded

    live_anew : (t : ℤ) → live K E (store K E emptied key v) t key ≡ some v
    live_anew t = rw (
      live-store K E emptied key emptied-IsValid v t key,
      eqb_refl key,
      expiry_of-del_ttl K E (discard K E m key) key discarded key,
      eqb_refl key,
    )

    live_beside :
        (t : ℤ) (j : Bytes)
        → eqb key j ≡ false
        → live K E (store K E emptied key v) t j ≡ live K E m t j
    live_beside t j other = rw (
      live-store K E emptied key emptied-IsValid v t j,
      other,
      live-del_ttl K E (discard K E m key) key discarded t j,
      other,
      live-discard K E m key h t j,
      other,
    )

  -- EXPIRE on a well-formed database, for a number of seconds and one of the words NX, XX, GT and
  -- LT in letters of either case, or the empty word, which allows any time. The new time is the
  -- sum of the clock and the seconds, which wraps around as int64 does. NX allows it for a key
  -- without an expiration time, XX for a key with one, GT if the key has an earlier one, LT if the
  -- key has a later one. If a client sees the key and the word allows the time, the reply is 1,
  -- the key shows its value at every time before the new one, nothing from then on, and the other
  -- keys are as they were; otherwise the reply is 0 and nothing changes that shows.
  pub expire_key_lem :
      (m : MemDb K E) (now : ℤ) (name key seconds word : Bytes) (v : ℤ) (c : Condition)
      → IsValid K E m
      → named name "expire" ≡ true
      → parse_int seconds ≡ some v
      → to_lower word ≡ word_of c
      → Expires m now key
          (wrap64 (now +ℤ v))
          (is_some (live K E m now key) && allows c (expiry_of K E m key) (wrap64 (now +ℤ v)))
          (expire_key K E m now name (key ∷ seconds ∷ word ∷ []))
  unfolding expire_key
  expire_key_lem m now name key seconds word v c h e parsed known_word = rw e (
      subst
        (λ b.
          Expires m now key (wrap64 (now +ℤ v)) (is_some (live K E m now key) && b)
            (expire_words K E m now key seconds word))
        (expire_sets-allows c (expiry_of K E m key) (wrap64 (now +ℤ v)))
        (expire_checked m now key h v seconds word (option_of c) parsed
          (expire_option-word_of word c known_word) (option_of-known c)))

  -- After PERSIST on a well-formed database the key shows, at every time to come, what it shows
  -- now, and the other keys are as they were; the reply is 0 if the key had expired, and 1
  -- otherwise, even for a key that is missing or has no expiration time.
  pub persist_key_lem :
      (m : MemDb K E) (now t : ℤ) (name key : Bytes)
      → IsValid K E m
      → named name "persist" ≡ true
      → ((persist_key K E m now name (key ∷ [])).1
          ≡ int_data (pos (if lapsed (expiry_of K E m key) now then 0 else 1)))
        × (live K E (persist_key K E m now name (key ∷ [])).0 t key ≡ live K E m now key)
        × ((j : Bytes)
            → live K E (persist_key K E m now name (key ∷ [])).0 now j ≡ live K E m now j)
  unfolding persist_key
  persist_key_lem m now t name key h e = elim (Bool-cases (check_ttl K E m key now).1) [
    | inl lives ↦
        rw (e, lives)
          (
            ground (arith, check_ttl_lives K E m key now h),
            (persist_view m now key h t).0,
            (persist_view m now key h t).1,
          )
    | inr gone ↦
        rw (e, gone)
          (
            ground (arith, check_ttl_lives K E m key now h),
            gone_view m now key h t gone,
            unchanged m now key h,
          )
  ]

  -- RENAME on a well-formed database, of a key that a client sees, answers OK; the new name shows
  -- the value at every time to come, the old name shows nothing unless it is the new one, and the
  -- other keys are as they were.
  pub rename_key_lem :
      (m : MemDb K E) (now t : ℤ) (name old new : Bytes) (v : Value)
      → IsValid K E m
      → named name "rename" ≡ true
      → live K E m now old ≡ some v
      → ((rename_key K E m now name (old ∷ new ∷ [])).1 ≡ ok_reply)
        × (live K E (rename_key K E m now name (old ∷ new ∷ [])).0 t new ≡ some v)
        × ((j : Bytes)
            → eqb new j ≡ false
            → live K E (rename_key K E m now name (old ∷ new ∷ [])).0 now j
              ≡ (if eqb old j then none else live K E m now j))
  unfolding rename_key rename_locked
  rename_key_lem m now t name old new v h e seen = elim (Bool-cases (check_ttl K E m old now).1) [
    | inl lives ↦
        let valid = dropped-IsValid m now old h in
        rw (e, lives, lookup-check_ttl_self K E m old now h, seen)
          (
            refl,
            live_anew (dropped m now old h) new v valid t,
            λ j other.
                live_beside (dropped m now old h) new v valid now j other
                ∙ live-dropped m now old h j,
          )
    | inr gone ↦ absurd (cc (expired_missing m now old h gone, seen))
  ]
