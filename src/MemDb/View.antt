-- ===== src/MemDb/View.antt =====
-- What a client can see of the database at a time: a key that has expired is as good as absent,
-- whether its entry has been taken away yet or not.
use tinyredis.Prelude.{
  ◌≡◌, Option, none, some, arith, Bytes, eqb, if◌then◌else◌, is_some, Bool-cases, inl, inr,
}
use tinyredis.Prelude.Int.{ℤ}
use tinyredis.Keyspace.{Keyspace}
use tinyredis.Expiry.{Expiry}
use tinyredis.Ttl.ShardLaws.{lapsed}
use tinyredis.Value.{Value}
use tinyredis.MemDb.{MemDb, new_mem_db, lookup, store, discard, expiry_of, set_ttl, del_ttl}

module _ (K : Keyspace Value) (E : Expiry) where
  -- Both tables are well formed.
  pub record IsValid (m : MemDb K E) : Type 0 where
    pub db_valid : K.IsValid m.db
    pub ttl_valid : E.IsValid m.ttl

  -- The value that a key has at time `now`, if it is there and has not expired.
  unfoldable pub live : MemDb K E → ℤ → Bytes → Option Value
  live m now k = if lapsed (expiry_of K E m k) now then none else lookup K E m k

  pub new_mem_db-IsValid : (n : ℤ) → IsValid (new_mem_db K E n)
  unfolding new_mem_db
  new_mem_db-IsValid n = record { db_valid = K.new_map-IsValid n; ttl_valid = E.new_ttl-IsValid n }

  module _ (m : MemDb K E) (k : Bytes) (h : IsValid m) where
    pub store-IsValid : (v : Value) → IsValid (store K E m k v)
    unfolding store
    store-IsValid v = record {
      db_valid = K.set-IsValid m.db k v h.db_valid;
      ttl_valid = h.ttl_valid;
    }

    pub discard-IsValid : IsValid (discard K E m k)
    unfolding discard
    discard-IsValid = record {
      db_valid = K.delete-IsValid m.db k h.db_valid;
      ttl_valid = h.ttl_valid;
    }

    pub del_ttl-IsValid : IsValid (del_ttl K E m k)
    unfolding del_ttl
    del_ttl-IsValid = record {
      db_valid = h.db_valid;
      ttl_valid = E.remove_ttl-IsValid m.ttl k h.ttl_valid;
    }

    pub set_ttl-IsValid : (e : ℤ) → IsValid (set_ttl K E m k e).0
    unfolding set_ttl
    set_ttl-IsValid e = elim (Bool-cases (is_some (lookup K E m k))) [
      | inl there ↦
          rw there
            (record { db_valid = h.db_valid; ttl_valid = E.set_ttl-IsValid m.ttl k e h.ttl_valid })
      | inr gone ↦ rw gone h
    ]

    pub lookup-store :
        (v : Value) (j : Bytes)
        → lookup K E (store K E m k v) j ≡ (if eqb k j then some v else lookup K E m j)
    unfolding lookup store
    lookup-store v j = K.get-set m.db k j v h.db_valid

    pub lookup-discard :
        (j : Bytes) → lookup K E (discard K E m k) j ≡ (if eqb k j then none else lookup K E m j)
    unfolding lookup discard
    lookup-discard j = K.get-delete m.db k j h.db_valid

    pub expiry_of-del_ttl :
        (j : Bytes)
        → expiry_of K E (del_ttl K E m k) j ≡ (if eqb k j then none else expiry_of K E m j)
    unfolding expiry_of del_ttl
    expiry_of-del_ttl j = E.expire_at-remove_ttl m.ttl k j h.ttl_valid

    pub expiry_of-set_ttl :
        (e : ℤ) (j : Bytes)
        → expiry_of K E (set_ttl K E m k e).0 j ≡ (
            if is_some (lookup K E m k)
            then (if eqb k j then some e else expiry_of K E m j)
            else expiry_of K E m j)
    unfolding expiry_of set_ttl
    expiry_of-set_ttl e j = ground (arith, E.expire_at-set_ttl m.ttl k j e h.ttl_valid)
