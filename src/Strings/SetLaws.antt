-- ===== src/Strings/SetLaws.antt =====
-- SET of pkg/memdb/string.go, `setString`, as a client sees it.
use tinyredis.Prelude.{
  ◌≡◌, refl, true, none, some, [], ◌∷◌, Bytes, if◌then◌else◌, Bool-cases, inl, inr, eqb, eqb_refl,
}
use tinyredis.Prelude.Int.{ℤ}
use tinyredis.Keyspace.{Keyspace}
use tinyredis.Expiry.{Expiry}
use tinyredis.Value.{Value, string_value, as_string, Found, missing, wrong, found}
use tinyredis.MemDb.{MemDb, named, lookup, store, expiry_of, check_ttl, del_ttl}
use tinyredis.MemDb.View.{IsValid, live, store-IsValid, lookup-store, expiry_of-del_ttl}
use tinyredis.MemDb.Checks.{check_ttl-IsValid, lookup-check_ttl_self, live-check_ttl, live-del_ttl}
use tinyredis.Strings.Writes.{live-store_checked}
use tinyredis.Strings.{
  Outcome, no_options, set_options, set_writes, set_reply, set_string, set_locked, set_with,
  ok_reply, wrong_type,
}

module _ (K : Keyspace Value) (E : Expiry) where
  -- What a SET leaves that stores `val` and takes the expiration time away; on a key that holds
  -- another type it leaves all as it was.
  abbrev pub PlainSet : MemDb K E → ℤ → Bytes → Bytes → Outcome K E → Found Bytes → Type 0
  PlainSet m now key val (m', reply) wrong =
      (reply ≡ wrong_type) × ((j : Bytes) → live K E m' now j ≡ live K E m now j)
  PlainSet m now key val (m', reply) _ =
      (reply ≡ ok_reply)
      × (expiry_of K E m' key ≡ none)
      × ((j : Bytes)
          → live K E m' now j ≡ (if eqb key j then some (string_value val) else live K E m now j))

  module _ (m : MemDb K E) (now : ℤ) (key val : Bytes) (h : IsValid K E m) where
    abbrev m' : MemDb K E
    m' = (check_ttl K E m key now).0

    abbrev stored : MemDb K E
    stored = store K E m' key (string_value val)

    abbrev overwritten : MemDb K E
    overwritten = del_ttl K E stored key

    checked : IsValid K E m'
    checked = check_ttl-IsValid K E m key now h

    stored-IsValid : IsValid K E stored
    stored-IsValid = store-IsValid K E m' key checked (string_value val)

    after_del :
        (j : Bytes)
        → live K E overwritten now j
          ≡ (if eqb key j then lookup K E stored key else live K E stored now j)
    after_del = live-del_ttl K E stored key stored-IsValid now

    live-overwritten :
        (j : Bytes)
        → live K E overwritten now j
          ≡ (if eqb key j then some (string_value val) else live K E m now j)
    live-overwritten j = elim (Bool-cases (eqb key j)) [
      | inl same ↦
          rw (
            after_del j,
            same,
            lookup-store K E m' key checked (string_value val) key,
            eqb_refl key,
          )
      | inr other ↦
          rw (after_del j, other, live-store_checked K E m now key (string_value val) j h, other)
    ]

    untimed : expiry_of K E overwritten key ≡ none
    untimed = rw (expiry_of-del_ttl K E stored key stored-IsValid key, eqb_refl key)

    plain_locked :
        (old : Found Bytes)
        → PlainSet m now key val
            (set_locked K E (check_ttl K E m key now).0 now key val no_options old)
            old
    unfolding set_locked set_writes set_reply del_ttl store
    plain_locked wrong = (refl, live-check_ttl K E m key now h)
    plain_locked missing = (refl, untimed, live-overwritten)
    plain_locked (found old) = (refl, untimed, live-overwritten)

  -- SET without options on a well-formed database, on a key that shows no value or a string,
  -- stores the value, answers OK and takes the expiration time away; on a key that shows another
  -- type it answers WRONGTYPE. What other keys show stays in both cases.
  pub set_string_lem :
      (m : MemDb K E) (now : ℤ) (name key val : Bytes)
      → IsValid K E m
      → named name "set" ≡ true
      → PlainSet m now key val
          (set_string K E m now name (key ∷ val ∷ []))
          (as_string (live K E m now key))
  unfolding set_string set_options set_with
  set_string_lem m now name key val h e =
      rw (e, lookup-check_ttl_self K E m key now h)
        (plain_locked m now key val h (as_string (live K E m now key)))
