-- ===== src/Examples/Commands.antt =====
-- The theorems on the commands at concrete inputs.
use tinyredis.Prelude.{
  ◌≢◌, ◌≡◌, refl, true, false, none, some, [], ◌∷◌, map, Bytes, if◌then◌else◌, length, text,
  to_lower, eqb, eqb_refl, is_some, ◌&&◌, not,
}
use tinyredis.Prelude.Int.{ℤ, pos, ◌+ℤ◌, wrap64}
use tinyredis.Decimal.{parse_int}
use tinyredis.Resp.{bulk_data, string_data, int_data, array_data, elements}
use tinyredis.Ttl.ShardLaws.{lapsed}
use tinyredis.Value.{wrong, string_value, as_string}
use tinyredis.MemDb.{new_mem_db, named, expiry_of}
use tinyredis.MemDb.View.{live, new_mem_db-IsValid}
use tinyredis.MemDb.Checks.{live-store}
use tinyredis.Strings.{set_string, ok_reply, wrong_type}
use tinyredis.Strings.SetWords.{only_new, Spells, no_words, nx_word, Leaves, set_string_options}
use tinyredis.Strings.SetLaws.{PlainSet, set_string_lem}
use tinyredis.Strings.Reads.{
  get_string, read_as, get_string_lem, mget_string, mget_view, mget_string_lem,
}
use tinyredis.Strings.Writes.{
  mset_string, mset_string_lem, last_write, setex_string, setex_string_lem, setnx_string,
  setnx_string_lem, append_string, append_string_lem, appended, in_turn,
}
use tinyredis.Strings.Counters.{Counts, after_count, incr_string, incr_string_lem}
use tinyredis.Keys.{type_key, del_key, exists_key, expire_key, persist_key, rename_key}
use tinyredis.Keys.Laws.{
  type_name, type_key_lem, without_all, seen, visible, del_key_lem, exists_key_lem,
}
use tinyredis.Keys.Times.{
  Expires, later, word_of, allows, expire_key_lem, persist_key_lem, rename_key_lem,
}
use tinyredis.Examples.{K, E, a, b, filled, filled-IsValid}

get_named : named (text "get") "get" ≡ true
unfolding named to_lower eqb text
get_named = refl

mget_named : named (text "mget") "mget" ≡ true
unfolding named to_lower eqb text
mget_named = refl

mset_named : named (text "mset") "mset" ≡ true
unfolding named to_lower eqb text
mset_named = refl

set_named : named (text "set") "set" ≡ true
unfolding named to_lower eqb text
set_named = refl

setex_named : named (text "setex") "setex" ≡ true
unfolding named to_lower eqb text
setex_named = refl

setnx_named : named (text "setnx") "setnx" ≡ true
unfolding named to_lower eqb text
setnx_named = refl

append_named : named (text "append") "append" ≡ true
unfolding named to_lower eqb text
append_named = refl

incr_named : named (text "incr") "incr" ≡ true
unfolding named to_lower eqb text
incr_named = refl

del_named : named (text "del") "del" ≡ true
unfolding named to_lower eqb text
del_named = refl

exists_named : named (text "exists") "exists" ≡ true
unfolding named to_lower eqb text
exists_named = refl

expire_named : named (text "expire") "expire" ≡ true
unfolding named to_lower eqb text
expire_named = refl

persist_named : named (text "persist") "persist" ≡ true
unfolding named to_lower eqb text
persist_named = refl

type_named : named (text "type") "type" ≡ true
unfolding named to_lower eqb text
type_named = refl

rename_named : named (text "rename") "rename" ≡ true
unfolding named to_lower eqb text
rename_named = refl

sixty : parse_int (text "60") ≡ some (pos 60)
unfolding parse_int text
sixty = refl

shown : live K E filled (pos 7) a ≡ some (string_value (text "41"))
shown = rw (
  live-store K E (new_mem_db K E (pos 16)) a (new_mem_db-IsValid K E (pos 16))
      (string_value (text "41")) (pos 7) a,
  eqb_refl a,
  fresh,
)
  where
    fresh : expiry_of K E (new_mem_db K E (pos 16)) a ≡ none
    fresh = unfold expiry_of in unfold new_mem_db in E.expire_at-new_ttl (pos 16) a

set_string_example :
    PlainSet K E filled
      (pos 7)
      a
      b
      (set_string K E filled (pos 7) (text "set") (a ∷ b ∷ []))
      (as_string (live K E filled (pos 7) a))
set_string_example = set_string_lem K E filled (pos 7) (text "set") a b filled-IsValid set_named

get_string_example :
    ((get_string K E filled (pos 7) (text "get") (a ∷ [])).1 ≡ read_as (live K E filled (pos 7) a))
    × ((j : Bytes)
        → live K E (get_string K E filled (pos 7) (text "get") (a ∷ [])).0 (pos 7) j
          ≡ live K E filled (pos 7) j)
get_string_example = get_string_lem K E filled (pos 7) (text "get") a filled-IsValid get_named

mget_string_example :
    ((mget_string K E filled (pos 7) (text "mget") (a ∷ b ∷ [])).1
      ≡ array_data (elements (map (mget_view K E filled (pos 7)) (a ∷ b ∷ []))))
    × ((j : Bytes)
        → live K E (mget_string K E filled (pos 7) (text "mget") (a ∷ b ∷ [])).0 (pos 7) j
          ≡ live K E filled (pos 7) j)
mget_string_example =
    mget_string_lem K E filled (pos 7) (text "mget") a (b ∷ []) filled-IsValid mget_named

mset_string_example :
    ((mset_string K E filled (text "mset") (in_turn ((a, b) ∷ (b, a) ∷ []))).1 ≡ ok_reply)
    × ((now : ℤ) (j : Bytes)
        → live K E (mset_string K E filled (text "mset") (in_turn ((a, b) ∷ (b, a) ∷ []))).0 now j
          ≡ last_write K E ((a, b) ∷ (b, a) ∷ []) j (live K E filled now j))
mset_string_example =
    mset_string_lem K E filled (text "mset") (a, b) ((b, a) ∷ []) filled-IsValid mset_named

setex_string_example :
    ((setex_string K E filled (pos 7) (text "setex") (a ∷ text "60" ∷ b ∷ [])).1 ≡ ok_reply)
    × ((later : ℤ) (j : Bytes)
        → live K E
            (setex_string K E filled (pos 7) (text "setex") (a ∷ text "60" ∷ b ∷ [])).0
            later
            j
          ≡ (if eqb a j
              then (if lapsed (some (wrap64 (pos 7 +ℤ pos 60))) later
                  then none
                  else some (string_value b))
              else live K E filled later j))
setex_string_example =
    setex_string_lem K E filled (pos 7) (text "setex") a (text "60") b (pos 60) filled-IsValid
      setex_named sixty

setnx_string_example :
    ((setnx_string K E filled (pos 7) (text "setnx") (b ∷ a ∷ [])).1
      ≡ int_data (pos (if is_some (live K E filled (pos 7) b) then 0 else 1)))
    × ((j : Bytes)
        → live K E (setnx_string K E filled (pos 7) (text "setnx") (b ∷ a ∷ [])).0 (pos 7) j ≡ (
            if eqb b j && not (is_some (live K E filled (pos 7) b))
            then some (string_value a)
            else live K E filled (pos 7) j))
setnx_string_example =
    setnx_string_lem K E filled (pos 7) (text "setnx") b a filled-IsValid setnx_named

append_string_example :
    ((append_string K E filled (pos 7) (text "append") (a ∷ b ∷ [])).1
      ≡ elim (appended K E (as_string (live K E filled (pos 7) a)) b) [
        | none ↦ wrong_type
        | some new ↦ int_data (pos (length new))
      ])
    × ((j : Bytes)
        → live K E (append_string K E filled (pos 7) (text "append") (a ∷ b ∷ [])).0 (pos 7) j
          ≡ elim (appended K E (as_string (live K E filled (pos 7) a)) b) [
            | none ↦ live K E filled (pos 7) j
            | some new ↦ if eqb a j then some (string_value new) else live K E filled (pos 7) j
          ])
append_string_example =
    append_string_lem K E filled (pos 7) (text "append") a b filled-IsValid append_named

incr_string_example :
    Counts K E filled
      (pos 7)
      a
      (incr_string K E filled (pos 7) (text "incr") (a ∷ []))
      (after_count K E (pos 1) (λ n. wrap64 (n +ℤ pos 1)) (as_string (live K E filled (pos 7) a)))
incr_string_example = incr_string_lem K E filled (pos 7) (text "incr") a filled-IsValid incr_named

del_key_example :
    (live K E (del_key K E filled (pos 7) (text "del") (a ∷ a ∷ b ∷ [])).0 (pos 7)
      ≡ without_all (live K E filled (pos 7)) (a ∷ a ∷ b ∷ []))
    × ((del_key K E filled (pos 7) (text "del") (a ∷ a ∷ b ∷ [])).1
        ≡ int_data (pos (seen (live K E filled (pos 7)) (a ∷ a ∷ b ∷ []))))
del_key_example =
    del_key_lem K E filled (pos 7) (text "del") (a ∷ a ∷ b ∷ []) filled-IsValid del_named

exists_key_example :
    (live K E (exists_key K E filled (pos 7) (text "exists") (a ∷ b ∷ [])).0 (pos 7)
      ≡ live K E filled (pos 7))
    × ((exists_key K E filled (pos 7) (text "exists") (a ∷ b ∷ [])).1
        ≡ int_data (pos (visible (live K E filled (pos 7)) (a ∷ b ∷ []))))
exists_key_example =
    exists_key_lem K E filled (pos 7) (text "exists") a (b ∷ []) filled-IsValid exists_named

gt_word : to_lower (text "gt") ≡ word_of later
unfolding to_lower text
gt_word = refl

expire_key_example :
    Expires K E filled
      (pos 7)
      a
      (wrap64 (pos 7 +ℤ pos 60))
      (is_some (live K E filled (pos 7) a)
        && allows later (expiry_of K E filled a) (wrap64 (pos 7 +ℤ pos 60)))
      (expire_key K E filled (pos 7) (text "expire") (a ∷ text "60" ∷ text "gt" ∷ []))
expire_key_example =
    expire_key_lem K E filled (pos 7) (text "expire") a (text "60") (text "gt") (pos 60) later
      filled-IsValid expire_named sixty gt_word

persist_key_example :
    ((persist_key K E filled (pos 7) (text "persist") (a ∷ [])).1
      ≡ int_data (pos (if lapsed (expiry_of K E filled a) (pos 7) then 0 else 1)))
    × (live K E (persist_key K E filled (pos 7) (text "persist") (a ∷ [])).0 (pos 9) a
        ≡ live K E filled (pos 7) a)
    × ((j : Bytes)
        → live K E (persist_key K E filled (pos 7) (text "persist") (a ∷ [])).0 (pos 7) j
          ≡ live K E filled (pos 7) j)
persist_key_example =
    persist_key_lem K E filled (pos 7) (pos 9) (text "persist") a filled-IsValid persist_named

rename_key_example :
    ((rename_key K E filled (pos 7) (text "rename") (a ∷ b ∷ [])).1 ≡ ok_reply)
    × (live K E (rename_key K E filled (pos 7) (text "rename") (a ∷ b ∷ [])).0 (pos 9) b
        ≡ some (string_value (text "41")))
    × ((j : Bytes)
        → eqb b j ≡ false
        → live K E (rename_key K E filled (pos 7) (text "rename") (a ∷ b ∷ [])).0 (pos 7) j
          ≡ (if eqb a j then none else live K E filled (pos 7) j))
rename_key_example =
    rename_key_lem K E filled (pos 7) (pos 9) (text "rename") a b (string_value (text "41"))
      filled-IsValid rename_named shown

a_string : as_string (live K E filled (pos 7) a) ≢ wrong
unfolding as_string
a_string = rw shown (λ e. cc)

nx_spelled : Spells (text "nx" ∷ []) (only_new ∷ [])
unfolding to_lower text
nx_spelled = nx_word (text "nx") [] [] refl no_words

set_string_options_example :
    Leaves K E
      (pos 7)
      a
      b
      (only_new ∷ [])
      (live K E filled (pos 7) a)
      (if lapsed (expiry_of K E filled a) (pos 7) then none else expiry_of K E filled a)
      (set_string K E filled (pos 7) (text "set") (a ∷ b ∷ text "nx" ∷ []))
set_string_options_example =
    set_string_options K E filled (pos 7) (text "set") a b (text "nx" ∷ []) (only_new ∷ [])
      filled-IsValid set_named nx_spelled refl refl a_string

type_key_example :
    ((type_key K E filled (pos 7) (text "type") (a ∷ [])).1 ≡ (
      if lapsed (expiry_of K E filled a) (pos 7)
      then bulk_data (text "none")
      else string_data (type_name (live K E filled (pos 7) a))))
    × (live K E (type_key K E filled (pos 7) (text "type") (a ∷ [])).0 (pos 7)
        ≡ live K E filled (pos 7))
type_key_example = type_key_lem K E filled (pos 7) (text "type") a filled-IsValid type_named
