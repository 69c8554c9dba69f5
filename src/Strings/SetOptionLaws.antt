-- ===== src/Strings/SetOptionLaws.antt =====
-- SET of pkg/memdb/string.go with options that go together: what `setString` leaves under the key.
use tinyredis.Prelude.{
  ◌≡◌, ◌≢◌, refl, sym, ap, ap₂, subst, ◌∙◌, Bool, true, false, Option, none, some, List, ◌∷◌, arith,
  Bytes, if◌then◌else◌, ◌&&◌, ◌||◌, Bool-cases, inl, inr, eqb_refl, is_some,
}
use tinyredis.Prelude.Int.{ℤ, ◌+ℤ◌, wrap64}
use tinyredis.Keyspace.{Keyspace}
use tinyredis.Expiry.{Expiry}
use tinyredis.Ttl.ShardLaws.{lapsed}
use tinyredis.Value.{Value, string_value, as_string, Found, missing, wrong, found}
use tinyredis.MemDb.{MemDb, named, lookup, store, expiry_of, check_ttl, set_ttl, del_ttl}
use tinyredis.MemDb.View.{
  IsValid, live, store-IsValid, del_ttl-IsValid, lookup-store, expiry_of-del_ttl, expiry_of-set_ttl,
}
use tinyredis.MemDb.Checks.{
  check_ttl-IsValid, lookup-check_ttl_self, expiry_of-check_ttl, lookup-del_ttl, lookup-set_ttl,
  expiry_of-store,
}
use tinyredis.Strings.{
  Outcome, SetOptions, no_options, set_options, options, set_writes, set_reply, set_string,
  set_locked, set_with,
}

module _ (K : Keyspace Value) (E : Expiry) where
  -- What SET leaves under its key: the value and the expiration time, by the options, what the key
  -- showed and the time that it had.
  abbrev pub value_after : SetOptions → Option Value → Bytes → Option Value
  value_after o shown val = if set_writes o (is_some shown) then some (string_value val) else shown

  abbrev pub time_after : SetOptions → Option Value → Option ℤ → ℤ → Option ℤ
  time_after o left time new =
      if o.ex && is_some left then some new else if o.keepttl then time else none

  -- What SET leaves and answers, by what the key showed and the time that it had.
  abbrev pub Left : ℤ → Bytes → Bytes → SetOptions → Option Value → Option ℤ → Outcome K E → Type 0
  Left now key val o shown time (m', reply) =
      (lookup K E m' key ≡ value_after o shown val)
      × (expiry_of K E m' key
          ≡ time_after o (value_after o shown val) time (wrap64 (o.exval +ℤ now)))
      × (reply ≡ set_reply K E o (set_writes o (is_some shown)) (as_string shown))

  module _ (m : MemDb K E) (now : ℤ) (key val : Bytes) (o : SetOptions) (h : IsValid K E m) where
    abbrev written : MemDb K E
    written =
        if set_writes o (is_some (lookup K E m key)) then store K E m key (string_value val) else m

    written-IsValid : IsValid K E written
    written-IsValid = elim (Bool-cases (set_writes o (is_some (lookup K E m key)))) [
      | inl holds ↦ rw holds (store-IsValid K E m key h (string_value val))
      | inr fails ↦ rw fails h
    ]

    lookup-written : lookup K E written key ≡ value_after o (lookup K E m key) val
    lookup-written = elim (Bool-cases (set_writes o (is_some (lookup K E m key)))) [
      | inl holds ↦ rw (holds, lookup-store K E m key h (string_value val) key, eqb_refl key)
      | inr fails ↦ rw fails
    ]

    expiry_of-written : expiry_of K E written key ≡ expiry_of K E m key
    expiry_of-written = elim (Bool-cases (set_writes o (is_some (lookup K E m key)))) [
      | inl holds ↦ rw (holds, expiry_of-store K E m key h (string_value val) key)
      | inr fails ↦ rw fails
    ]

    abbrev timed : MemDb K E
    timed = if o.keepttl then written else del_ttl K E written key

    timed-IsValid : IsValid K E timed
    timed-IsValid = kept o.keepttl
      where
        kept : (b : Bool) → IsValid K E (if b then written else del_ttl K E written key)
        kept true = written-IsValid
        kept false = del_ttl-IsValid K E written key written-IsValid

    lookup-timed : lookup K E timed key ≡ value_after o (lookup K E m key) val
    lookup-timed = kept o.keepttl ∙ lookup-written
      where
        kept :
            (b : Bool)
            → lookup K E (if b then written else del_ttl K E written key) key
              ≡ lookup K E written key
        kept true = refl
        kept false = lookup-del_ttl K E written key written-IsValid key

    expiry_of-timed : expiry_of K E timed key ≡ (if o.keepttl then expiry_of K E m key else none)
    expiry_of-timed = kept o.keepttl
      where
        kept :
            (b : Bool)
            → expiry_of K E (if b then written else del_ttl K E written key) key
              ≡ (if b then expiry_of K E m key else none)
        kept true = expiry_of-written
        kept false = rw (expiry_of-del_ttl K E written key written-IsValid key, eqb_refl key)

    abbrev new_time : ℤ
    new_time = wrap64 (o.exval +ℤ now)

    abbrev expiring : MemDb K E
    expiring = if o.ex then (set_ttl K E timed key new_time).0 else timed

    lookup-expiring : lookup K E expiring key ≡ value_after o (lookup K E m key) val
    lookup-expiring = set_or_not o.ex ∙ lookup-timed
      where
        set_or_not :
            (b : Bool)
            → lookup K E (if b then (set_ttl K E timed key new_time).0 else timed) key
              ≡ lookup K E timed key
        set_or_not true = lookup-set_ttl K E timed key timed-IsValid new_time key
        set_or_not false = refl

    expiry_of-expiring :
        expiry_of K E expiring key
        ≡ time_after o (value_after o (lookup K E m key) val) (expiry_of K E m key) new_time
    expiry_of-expiring =
        set_or_not o.ex
        ∙ ap (λ v. if o.ex && is_some v then some new_time else expiry_of K E timed key)
            lookup-timed
        ∙ ap
            (λ t.
              if o.ex && is_some (value_after o (lookup K E m key) val) then some new_time else t)
            expiry_of-timed
      where
        set_or_not :
            (b : Bool)
            → expiry_of K E (if b then (set_ttl K E timed key new_time).0 else timed) key ≡ (
                if b && is_some (lookup K E timed key)
                then some new_time
                else expiry_of K E timed key)
        set_or_not true =
            rw (expiry_of-set_ttl K E timed key timed-IsValid new_time key, eqb_refl key)
        set_or_not false = refl

    left :
        (old : Found Bytes)
        → old ≢ wrong
        → as_string (lookup K E m key) ≡ old
        → Left now key val o
            (lookup K E m key)
            (expiry_of K E m key)
            (set_locked K E m now key val o old)
    unfolding set_locked
    left wrong ne e = absurd (ne refl)
    left missing ne e = (lookup-expiring, expiry_of-expiring, ap (set_reply K E o _) (sym e))
    left (found v) ne e = (lookup-expiring, expiry_of-expiring, ap (set_reply K E o _) (sym e))

  -- SET on a well-formed database, with options that it reads and that go together, on a key that
  -- shows no value or a string, leaves the new value under the key where NX and XX allow it and
  -- the shown value otherwise; in both cases the expiration time becomes the EX time if EX is
  -- given and the key holds a value, stays, unless it has passed, with KEEPTTL, and goes
  -- otherwise. The reply is OK or null by whether the value was written, or with GET what the key
  -- showed.
  pub set_string-Left :
      (m : MemDb K E) (now : ℤ) (name key val : Bytes) (opts : List Bytes) (o : SetOptions)
      → IsValid K E m
      → named name "set" ≡ true
      → set_options opts no_options ≡ options o
      → (o.nx && o.xx) || (o.ex && o.keepttl) ≡ false
      → as_string (live K E m now key) ≢ wrong
      → Left now key val o
          (live K E m now key)
          (if lapsed (expiry_of K E m key) now then none else expiry_of K E m key)
          (set_string K E m now name (key ∷ val ∷ opts))
  unfolding set_string set_with
  set_string-Left m now name key val opts o h e parsed together is_string =
      let m' = (check_ttl K E m key now).0 in
      let shown = lookup-check_ttl_self K E m key now h in
      let time : expiry_of K E m' key
          ≡ (if lapsed (expiry_of K E m key) now then none else expiry_of K E m key) =
        ground (arith, expiry_of-check_ttl K E m key now h key, eqb_refl key) in
      rw (e, parsed, together)
        (subst
          (λ (t : Option Value × Option ℤ).
            Left now key val o t.0 t.1
              (set_locked K E m' now key val o (as_string (lookup K E m' key))))
          (ap₂ (λ v t. (v, t)) shown time)
          (left m' now key val o (check_ttl-IsValid K E m key now h) (as_string (lookup K E m' key))
            (λ w. is_string (ap as_string (sym shown) ∙ w)) refl))
