-- ===== src/Keys/Laws.antt =====
-- The commands of pkg/memdb/keys.go, as a client sees them.
use tinyredis.Prelude.{
  text, ℕ, ◌+◌, ◌≡◌, refl, ap, fun_ext, ◌∙◌, true, false, Option, none, some, List, [], ◌∷◌, arith,
  Bytes, if◌then◌else◌, Bool-cases, inl, inr, eqb, eqb_iff, eqb_refl, is_some,
}
use tinyredis.Prelude.Int.{ℤ, pos}
use tinyredis.Resp.{bulk_data, int_data, string_data}
use tinyredis.Keyspace.{Keyspace}
use tinyredis.Expiry.{Expiry}
use tinyredis.Value.{Value, string_value, list_value, set_value, hash_value, zset_value}
use tinyredis.MemDb.{expiry_of, MemDb, named, lookup, discard, check_ttl, del_ttl}
use tinyredis.MemDb.View.{IsValid, live, del_ttl-IsValid, discard-IsValid, lookup-discard}
use tinyredis.MemDb.Checks.{
  check_ttl_lives, check_ttl-IsValid, lookup-check_ttl_self, live-check_ttl, live-discard,
  live-del_ttl, live_missing,
}
use tinyredis.Ttl.ShardLaws.{lapsed}
use tinyredis.Keys.{del_loop, del_key, exists_loop, exists_key, type_key, type_reply}

-- A view without a key.
abbrev pub without : (Bytes → Option Value) → Bytes → Bytes → Option Value
without see k j = if eqb k j then none else see j

-- The view that is left when keys go, one after the other, and how many of them could be seen when
-- their turn came.
abbrev pub without_all : (Bytes → Option Value) → List Bytes → Bytes → Option Value
without_all see [] = see
without_all see (k ∷ rest) = without_all (without see k) rest

unfoldable pub seen : (Bytes → Option Value) → List Bytes → ℕ
seen see [] = 0
seen see (k ∷ rest) =
    let others = seen (without see k) rest in if is_some (see k) then 1 + others else others

-- What TYPE calls a value, and a key without one.
abbrev pub type_name : Option Value → Bytes
type_name none = text "none"
type_name (some (string_value v)) = text "string"
type_name (some (list_value l)) = text "list"
type_name (some (set_value s)) = text "set"
type_name (some (hash_value h)) = text "hash"
type_name (some (zset_value z)) = text "zset"

type_reply-type_name : (o : Option Value) → type_reply o ≡ string_data (type_name o)
unfolding type_reply
type_reply-type_name none = refl
type_reply-type_name (some (string_value v)) = refl
type_reply-type_name (some (list_value l)) = refl
type_reply-type_name (some (set_value s)) = refl
type_reply-type_name (some (hash_value h)) = refl
type_reply-type_name (some (zset_value z)) = refl

-- How many of the keys can be seen, a key that is repeated as often as it stands there.
unfoldable pub visible : (Bytes → Option Value) → List Bytes → ℕ
visible see [] = 0
visible see (k ∷ rest) =
    let others = visible see rest in if is_some (see k) then 1 + others else others

module _ (K : Keyspace Value) (E : Expiry) where
  module _ (m : MemDb K E) (now : ℤ) (key : Bytes) (h : IsValid K E m) where
    abbrev m' : MemDb K E
    m' = (check_ttl K E m key now).0

    checked : IsValid K E m'
    checked = check_ttl-IsValid K E m key now h

    -- One round of DEL, for a key that lives.
    abbrev removed : MemDb K E
    removed = del_ttl K E (discard K E m' key) key

    removed-IsValid : IsValid K E removed
    removed-IsValid =
        del_ttl-IsValid K E (discard K E m' key) key (discard-IsValid K E m' key checked)

    live-removed : (j : Bytes) → live K E removed now j ≡ without (live K E m now) key j
    live-removed j = elim (Bool-cases (eqb key j)) [
      | inl same ↦ rw (
        live-del_ttl K E (discard K E m' key) key (discard-IsValid K E m' key checked) now j,
        same,
        lookup-discard K E m' key checked key,
        eqb_refl key,
      )
      | inr other ↦ rw (
        live-del_ttl K E (discard K E m' key) key (discard-IsValid K E m' key checked) now j,
        other,
        live-discard K E m' key checked now j,
        other,
        live-check_ttl K E m key now h j,
      )
    ]

    view_removed : live K E removed now ≡ without (live K E m now) key
    view_removed = fun_ext live-removed

    view_checked : live K E m' now ≡ live K E m now
    view_checked = fun_ext (live-check_ttl K E m key now h)

    -- A key that the check finds expired cannot be seen.
    expired_missing : (check_ttl K E m key now).1 ≡ false → live K E m now key ≡ none
    expired_missing e =
        live_missing K E m key now h (ground (arith, check_ttl_lives K E m key now h))

    view_expired :
        (check_ttl K E m key now).1 ≡ false → live K E m' now ≡ without (live K E m now) key
    view_expired e = view_checked ∙ fun_ext (λ j. ground (arith, expired_missing e, eqb_iff key j))

    delete_count : (K.delete m'.db key).1 ≡ (if is_some (live K E m now key) then 1 else 0)
    unfolding lookup
    delete_count =
        K.delete_result m'.db key checked.db_valid
        ∙ ap (λ o. if is_some o then 1 else 0) (lookup-check_ttl_self K E m key now h)

  counted_more :
      {n a b : ℕ} (o : Option Value)
      → n ≡ (if is_some o then 1 else 0)
      → a ≡ b
      → n + a ≡ (if is_some o then 1 + b else b)
  counted_more none e f = omega arith
  counted_more (some v) e f = omega arith

  counted_same :
      {a b : ℕ} {o : Option Value} → o ≡ none → a ≡ b → a ≡ (if is_some o then 1 + b else b)
  counted_same e f = rw (e, f)

  del_loop_lem :
      (m : MemDb K E) (now : ℤ) (keys : List Bytes)
      → IsValid K E m
      → (live K E (del_loop K E m now keys).0 now ≡ without_all (live K E m now) keys)
        × ((del_loop K E m now keys).1 ≡ seen (live K E m now) keys)
  unfolding del_loop seen discard
  del_loop_lem m now [] h = (refl, refl)
  del_loop_lem m now (key ∷ rest) h = elim (Bool-cases (check_ttl K E m key now).1) [
    | inl lives ↦
        let (view, count) =
          del_loop_lem (removed m now key h) now rest (removed-IsValid m now key h) in
        let gone = view_removed m now key h in
        rw lives (
          view ∙ ap (λ see. without_all see rest) gone,
          counted_more (live K E m now key) (delete_count m now key h)
              (count ∙ ap (λ see. seen see rest) gone),
        )
    | inr expired ↦
        let (view, count) = del_loop_lem (m' m now key h) now rest (checked m now key h) in
        let gone = view_expired m now key h expired in
        rw expired (
          view ∙ ap (λ see. without_all see rest) gone,
          counted_same (expired_missing m now key h expired)
              (count ∙ ap (λ see. seen see rest) gone),
        )
  ]

  exists_loop_lem :
      (m : MemDb K E) (now : ℤ) (keys : List Bytes)
      → IsValid K E m
      → (live K E (exists_loop K E m now keys).0 now ≡ live K E m now)
        × ((exists_loop K E m now keys).1 ≡ visible (live K E m now) keys)
  unfolding exists_loop visible
  exists_loop_lem m now [] h = (refl, refl)
  exists_loop_lem m now (key ∷ rest) h =
      let (view, count) = exists_loop_lem (m' m now key h) now rest (checked m now key h) in
      let same = view_checked m now key h in
      let more : (exists_loop K E (m' m now key h) now rest).1 ≡ visible (live K E m now) rest =
        count ∙ ap (λ see. visible see rest) same in
      (
        view ∙ same,
        elim (Bool-cases (check_ttl K E m key now).1) [
          | inl lives ↦ rw (lives, lookup-check_ttl_self K E m key now h, more)
          | inr expired ↦ rw (expired, expired_missing m now key h expired, more)
        ],
      )

  -- DEL on a well-formed database leaves what is seen without its keys, taken away one after the
  -- other, and answers how many of them could be seen when their turn came, so that a repeated key
  -- counts once.
  pub del_key_lem :
      (m : MemDb K E) (now : ℤ) (name : Bytes) (keys : List Bytes)
      → IsValid K E m
      → named name "del" ≡ true
      → (live K E (del_key K E m now name keys).0 now ≡ without_all (live K E m now) keys)
        × ((del_key K E m now name keys).1 ≡ int_data (pos (seen (live K E m now) keys)))
  unfolding del_key
  del_key_lem m now name keys h e =
      let (view, count) = del_loop_lem m now keys h in rw e (view, ap (λ n. int_data (pos n)) count)

  -- EXISTS with one key or more, on a well-formed database, answers how many of its words are keys
  -- that a client sees, a repeated key as often as it stands there; nothing changes that shows.
  pub exists_key_lem :
      (m : MemDb K E) (now : ℤ) (name key : Bytes) (keys : List Bytes)
      → IsValid K E m
      → named name "exists" ≡ true
      → (live K E (exists_key K E m now name (key ∷ keys)).0 now ≡ live K E m now)
        × ((exists_key K E m now name (key ∷ keys)).1
            ≡ int_data (pos (visible (live K E m now) (key ∷ keys))))
  unfolding exists_key
  exists_key_lem m now name key keys h e =
      let (view, count) = exists_loop_lem m now (key ∷ keys) h in
      rw e (view, ap (λ n. int_data (pos n)) count)

  -- TYPE on a well-formed database answers string, list, set, hash or zset by the type of the
  -- value that the key shows, and none where it shows nothing, as a bulk string if the key has
  -- expired and as a simple string otherwise; nothing changes that shows.
  pub type_key_lem :
      (m : MemDb K E) (now : ℤ) (name key : Bytes)
      → IsValid K E m
      → named name "type" ≡ true
      → ((type_key K E m now name (key ∷ [])).1 ≡ (
          if lapsed (expiry_of K E m key) now
          then bulk_data (text "none")
          else string_data (type_name (live K E m now key))))
        × (live K E (type_key K E m now name (key ∷ [])).0 now ≡ live K E m now)
  unfolding type_key
  type_key_lem m now name key h e = elim (Bool-cases (check_ttl K E m key now).1) [
    | inl lives ↦
        rw
          (
            e,
            lives,
            lookup-check_ttl_self K E m key now h,
            type_reply-type_name (live K E m now key),
          )
          (ground (arith, check_ttl_lives K E m key now h), view_checked m now key h)
    | inr gone ↦
        rw (e, gone) (ground (arith, check_ttl_lives K E m key now h), view_checked m now key h)
  ]
