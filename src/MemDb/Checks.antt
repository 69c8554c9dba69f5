-- ===== src/MemDb/Checks.antt =====
-- `CheckTTL` of pkg/memdb/db.go, which every command makes before it looks a key up: it changes what
-- is stored, and nothing of what a client can see.
use tinyredis.Prelude.{
  ◌≡◌, refl, true, false, not, none, some, arith, Bytes, eqb, eqb_iff, if◌then◌else◌, ◌&&◌,
  Bool-cases, inl, inr,
}
use tinyredis.Prelude.Int.{ℤ}
use tinyredis.Keyspace.{Keyspace}
use tinyredis.Expiry.{Expiry}
use tinyredis.Ttl.ShardLaws.{lapsed}
use tinyredis.Value.{Value}
use tinyredis.MemDb.{MemDb, lookup, store, discard, expiry_of, check_ttl, set_ttl, del_ttl}
use tinyredis.MemDb.View.{
  IsValid, live, lookup-store, lookup-discard, expiry_of-del_ttl, expiry_of-set_ttl,
}

module _ (K : Keyspace Value) (E : Expiry) (m : MemDb K E) (k : Bytes) (now : ℤ)
    (h : IsValid K E m) where
  -- `CheckTTL` answers whether the key lives.
  pub check_ttl_lives : (check_ttl K E m k now).1 ≡ not (lapsed (expiry_of K E m k) now)
  unfolding check_ttl expiry_of
  check_ttl_lives = ground (arith, E.check_ttl_live m.ttl k now h.ttl_valid)

  pub check_ttl-IsValid : IsValid K E (check_ttl K E m k now).0
  unfolding check_ttl
  check_ttl-IsValid =
      let valid = E.check_ttl-IsValid m.ttl k now h.ttl_valid in
      elim (Bool-cases (E.check_ttl m.ttl k now).1) [
        | inl lives ↦ rw lives (record { db_valid = h.db_valid; ttl_valid = valid })
        | inr gone ↦
            rw gone (record { db_valid = K.delete-IsValid m.db k h.db_valid; ttl_valid = valid })
      ]

  pub lookup-check_ttl :
      (j : Bytes)
      → lookup K E (check_ttl K E m k now).0 j ≡ (
          if lapsed (expiry_of K E m k) now
          then (if eqb k j then none else lookup K E m j)
          else lookup K E m j)
  unfolding check_ttl lookup expiry_of
  lookup-check_ttl j =
      ground (arith, E.check_ttl_live m.ttl k now h.ttl_valid, K.get-delete m.db k j h.db_valid)

  pub expiry_of-check_ttl :
      (j : Bytes)
      → expiry_of K E (check_ttl K E m k now).0 j ≡ (
          if lapsed (expiry_of K E m k) now
          then (if eqb k j then none else expiry_of K E m j)
          else expiry_of K E m j)
  unfolding check_ttl expiry_of
  expiry_of-check_ttl j = ground (
    arith,
    E.check_ttl_live m.ttl k now h.ttl_valid,
    E.expire_at-check_ttl m.ttl k j now h.ttl_valid,
  )

  -- After the check a look-up of the key is what a client can see of it.
  pub lookup-check_ttl_self : lookup K E (check_ttl K E m k now).0 k ≡ live K E m now k
  unfolding live
  lookup-check_ttl_self = ground (arith, lookup-check_ttl k, eqb_iff k k)

  -- After the check the key has no expiration time that has passed.
  pub expiry_lives : lapsed (expiry_of K E (check_ttl K E m k now).0 k) now ≡ false
  expiry_lives = ground (arith, expiry_of-check_ttl k, eqb_iff k k)

  -- The check changes nothing that a client can see.
  pub live-check_ttl : (j : Bytes) → live K E (check_ttl K E m k now).0 now j ≡ live K E m now j
  unfolding live
  live-check_ttl j = ground (arith, lookup-check_ttl j, expiry_of-check_ttl j, eqb_iff k j)

  -- On a well-formed database, `CheckTTL` of a key answers whether its expiration time is still to
  -- come, or it has none. If the time has passed, the value of the key and its expiration time are
  -- gone from the tables, and otherwise both stay; those of the other keys stay in both cases.
  -- What a client can see at that time, under any key, is the same before and after.
  pub check_ttl_lem :
      ((j : Bytes) → live K E (check_ttl K E m k now).0 now j ≡ live K E m now j)
      × ((check_ttl K E m k now).1 ≡ not (lapsed (expiry_of K E m k) now))
      × ((j : Bytes)
          → lookup K E (check_ttl K E m k now).0 j
            ≡ (if lapsed (expiry_of K E m k) now && eqb k j then none else lookup K E m j))
      × ((j : Bytes)
          → expiry_of K E (check_ttl K E m k now).0 j
            ≡ (if lapsed (expiry_of K E m k) now && eqb k j then none else expiry_of K E m j))
  check_ttl_lem = (
    live-check_ttl,
    check_ttl_lives,
    λ j. ground (arith, lookup-check_ttl j),
    λ j. ground (arith, expiry_of-check_ttl j),
  )

  -- A key that has expired shows nothing.
  pub live_missing : lapsed (expiry_of K E m k) now ≡ true → live K E m now k ≡ none
  unfolding live
  live_missing e = rw e

-- Writes, as a client sees them.
module _ (K : Keyspace Value) (E : Expiry) (m : MemDb K E) (k : Bytes) (h : IsValid K E m) where
  pub expiry_of-store :
      (v : Value) (j : Bytes) → expiry_of K E (store K E m k v) j ≡ expiry_of K E m j
  unfolding expiry_of store
  expiry_of-store v j = refl

  pub expiry_of-discard : (j : Bytes) → expiry_of K E (discard K E m k) j ≡ expiry_of K E m j
  unfolding expiry_of discard
  expiry_of-discard j = refl

  pub lookup-del_ttl : (j : Bytes) → lookup K E (del_ttl K E m k) j ≡ lookup K E m j
  unfolding lookup del_ttl
  lookup-del_ttl j = refl

  pub lookup-set_ttl : (e : ℤ) (j : Bytes) → lookup K E (set_ttl K E m k e).0 j ≡ lookup K E m j
  unfolding lookup set_ttl
  lookup-set_ttl e j = ground arith

  -- A stored value shows unless an expiration time of the key has passed.
  pub live-store :
      (v : Value) (now : ℤ) (j : Bytes)
      → live K E (store K E m k v) now j ≡ (
          if eqb k j
          then (if lapsed (expiry_of K E m k) now then none else some v)
          else live K E m now j)
  unfolding live
  live-store v now j = ground (arith, lookup-store K E m k h v j, expiry_of-store v j, eqb_iff k j)

  pub live-discard :
      (now : ℤ) (j : Bytes)
      → live K E (discard K E m k) now j ≡ (if eqb k j then none else live K E m now j)
  unfolding live
  live-discard now j = ground (arith, lookup-discard K E m k h j, expiry_of-discard j, eqb_iff k j)

  pub live-del_ttl :
      (now : ℤ) (j : Bytes)
      → live K E (del_ttl K E m k) now j ≡ (if eqb k j then lookup K E m k else live K E m now j)
  unfolding live
  live-del_ttl now j = ground (arith, expiry_of-del_ttl K E m k h j, lookup-del_ttl j, eqb_iff k j)

  -- After `SetTTL` on a well-formed database, a key that is there shows its value until the time
  -- that was set and nothing from then on, a key that is not there shows nothing, and the other
  -- keys show what they did.
  pub live-set_ttl :
      (e now : ℤ) (j : Bytes)
      → live K E (set_ttl K E m k e).0 now j ≡ (
          if eqb k j
          then (if lapsed (some e) now then none else lookup K E m k)
          else live K E m now j)
  unfolding live
  live-set_ttl e now j =
      ground (arith, expiry_of-set_ttl K E m k h e j, lookup-set_ttl e j, eqb_iff k j)
