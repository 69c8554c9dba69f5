-- ===== src/Command/Laws.antt =====
-- What a command on one key answers and leaves, as a client sees it.
use tinyredis.Prelude.{
  ◌≡◌, refl, Option, none, some, arith, Bytes, if◌then◌else◌, Bool-cases, inl, inr, eqb, eqb_iff,
  eqb_refl,
}
use tinyredis.Prelude.Int.{ℤ}
use tinyredis.Resp.{RedisData}
use tinyredis.Keyspace.{Keyspace}
use tinyredis.Expiry.{Expiry}
use tinyredis.Value.{Value}
use tinyredis.MemDb.{MemDb, discard, check_ttl}
use tinyredis.MemDb.View.{
  IsValid, live, store-IsValid, discard-IsValid, del_ttl-IsValid, lookup-discard,
}
use tinyredis.MemDb.Checks.{
  check_ttl-IsValid, check_ttl_lives, lookup-check_ttl_self, live-check_ttl, live_missing,
  live-store, live-discard, live-del_ttl, expiry_lives,
}
use tinyredis.Strings.{Outcome}
use tinyredis.Command.{Effect, keep, put, erase, apply_effect, locked, update_key, live_key}

-- What a key shows after an effect.
abbrev pub shown_after : Effect → Option Value → Option Value
shown_after keep shown = shown
shown_after (put v) shown = some v
shown_after erase shown = none

module _ (K : Keyspace Value) (E : Expiry) where
  -- A command on one key answers `reply` and does `effect` to what the key shows; what the other
  -- keys show stays.
  abbrev pub Does : MemDb K E → ℤ → Bytes → Effect × RedisData → Outcome K E → Type 0
  Does m now key (effect, reply) (m', answer) =
      (answer ≡ reply)
      × ((j : Bytes)
          → live K E m' now j
            ≡ (if eqb key j then shown_after effect (live K E m now key) else live K E m now j))

  module _ (m : MemDb K E) (now : ℤ) (key : Bytes) (h : IsValid K E m) where
    abbrev m' : MemDb K E
    m' = (check_ttl K E m key now).0

    checked : IsValid K E m'
    checked = check_ttl-IsValid K E m key now h

    unchanged :
        (j : Bytes)
        → live K E m' now j ≡ (if eqb key j then live K E m now key else live K E m now j)
    unchanged j = ground (arith, live-check_ttl K E m key now h j, eqb_iff key j)

    live-apply_effect :
        (e : Effect) (j : Bytes)
        → live K E (apply_effect K E m' key e) now j
          ≡ (if eqb key j then shown_after e (live K E m now key) else live K E m now j)
    unfolding apply_effect
    live-apply_effect keep j = unchanged j
    live-apply_effect (put v) j = ground (
      arith,
      live-store K E m' key checked v now j,
      expiry_lives K E m key now h,
      live-check_ttl K E m key now h j,
    )
    live-apply_effect erase j = ground (
      arith,
      live-del_ttl K E (discard K E m' key) key (discard-IsValid K E m' key checked) now j,
      lookup-discard K E m' key checked key,
      eqb_refl key,
      live-discard K E m' key checked now j,
      live-check_ttl K E m key now h j,
    )

    pub update_key_lem :
        (f : Option Value → Effect × RedisData)
        → Does m now key (f (live K E m now key)) (update_key K E m now key f)
    unfolding update_key locked
    update_key_lem f =
        rw (lookup-check_ttl_self K E m key now h)
          (refl, live-apply_effect (f (live K E m now key)).0)

    pub live_key_lem :
        (gone : RedisData) (f : Option Value → Effect × RedisData)
        → f none ≡ (keep, gone)
        → Does m now key (f (live K E m now key)) (live_key K E m now key gone f)
    unfolding live_key update_key
    live_key_lem gone f absent = elim (Bool-cases (check_ttl K E m key now).1) [
      | inl lives ↦ rw lives (update_key_lem f)
      | inr lapsed ↦
          let missing : live K E m now key ≡ none =
            live_missing K E m key now h (ground (arith, check_ttl_lives K E m key now h)) in
          rw (lapsed, missing, absent) (refl, λ j. rw⁻¹ missing (unchanged j))
    ]

  pub apply_effect-IsValid :
      (m : MemDb K E) (key : Bytes) (e : Effect)
      → IsValid K E m
      → IsValid K E (apply_effect K E m key e)
  unfolding apply_effect
  apply_effect-IsValid m key keep h = h
  apply_effect-IsValid m key (put v) h = store-IsValid K E m key h v
  apply_effect-IsValid m key erase h =
      del_ttl-IsValid K E (discard K E m key) key (discard-IsValid K E m key h)

  -- Such a command keeps the database well formed.
  pub update_key-IsValid :
      (m : MemDb K E) (now : ℤ) (key : Bytes) (f : Option Value → Effect × RedisData)
      → IsValid K E m
      → IsValid K E (update_key K E m now key f).0
  unfolding update_key locked
  update_key-IsValid m now key f h =
      apply_effect-IsValid (check_ttl K E m key now).0 key _ (check_ttl-IsValid K E m key now h)

  pub live_key-IsValid :
      (m : MemDb K E) (now : ℤ) (key : Bytes) (gone : RedisData)
      (f : Option Value → Effect × RedisData)
      → IsValid K E m
      → IsValid K E (live_key K E m now key gone f).0
  unfolding live_key update_key
  live_key-IsValid m now key gone f h = elim (Bool-cases (check_ttl K E m key now).1) [
    | inl lives ↦ rw lives (update_key-IsValid m now key f h)
    | inr lapsed ↦ rw lapsed (check_ttl-IsValid K E m key now h)
  ]
