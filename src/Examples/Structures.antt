-- ===== src/Examples/Structures.antt =====
-- The theorems on lists, sets, hashes and connections at concrete inputs.
use tinyredis.Prelude.{
  ◌≢◌, ◌⊎◌, ◌∙◌, ap, Bytes, ◌-◌, All, among, ℕ, ◌<◌, ◌+◌, ◌≡◌, refl, true, none, some, [], ◌∷◌,
  ◌++◌, List, length, reverse, take, drop, arith, if◌then◌else◌, text, to_lower, eqb, eqb_refl,
  find, ◌&&◌, ◌||◌, not,
}
use tinyredis.Prelude.Int.{ℤ, pos}
use tinyredis.Decimal.{parse_int, format_int}
use tinyredis.Resp.Parse.{parse}
use tinyredis.Value.{
  list_value, string_value, as_string, wrong, found, set_value, as_set, Value, SetTable, HashTable,
}
use tinyredis.MemDb.{MemDb, new_mem_db, named, store, expiry_of}
use tinyredis.MemDb.View.{IsValid, live, new_mem_db-IsValid, store-IsValid}
use tinyredis.MemDb.Checks.{live-store}
use tinyredis.Command.Laws.{Does}
use tinyredis.Lists.Commands.{lpush_list, rpop_list}
use tinyredis.Lists.Laws.{of_vals, listed, pushed, taken_from, lpush_list_lem, rpop_list_lem}
use tinyredis.Sets
use tinyredis.Command.{put}
use tinyredis.Sets.Commands.{sadd_set}
use tinyredis.Sets.Members.{set_before, sadd_set_lem}
use tinyredis.Sets.{contains, new_set, union, difference, intersect, has}
use tinyredis.Sets.Laws.{in_any, in_every, AllValid, new_set-IsValid, add-IsValid, set_operations}
use tinyredis.Hashes
use tinyredis.Hashes.{new_hash, incr_by}
use tinyredis.Hashes.Laws.{field, number_after, incr_by_lem, incr_by_count, set-IsValid}
use tinyredis.Dispatch.{Visits, command_table}
use tinyredis.Resp.{int_data, to_bytes, bulk_data}
use tinyredis.Strings.{ok_reply}
use tinyredis.Server.{ExecNode, handle, peer_closed}
use tinyredis.Server.Session.{all_written, set-get_session}
use tinyredis.Server.Local.{LocalState, local_node}
use tinyredis.Server.Pipeline.{Command, pipeline, one_by_one, handle-pipeline}
use tinyredis.Locks.{
  Process, Step, lock_multi, sorted_lock_poses, finished, Reachable, start as begin, next, arrive,
}
use tinyredis.Locks.Laws.{Ascending, pos_of_one, sorted_lock_poses_lem}
use tinyredis.Locks.Progress.{left_to_do, locks-progress}
use tinyredis.Glob.{pattern_match, matched, out_of_range, part_of}
use tinyredis.Glob.Laws.{Literal, starts_with, pattern_match-Literal, pattern_match-out_of_range}
use tinyredis.Examples.{K, E, a, b, filled, filled-IsValid}

-- A database with the list b, a under `a`.
abbrev listing : MemDb K E
listing = store K E (new_mem_db K E (pos 16)) a (list_value (of_vals (b ∷ a ∷ [])))

listing-IsValid : IsValid K E listing
listing-IsValid =
    store-IsValid K E (new_mem_db K E (pos 16)) a (new_mem_db-IsValid K E (pos 16))
      (list_value (of_vals (b ∷ a ∷ [])))

-- What is stored alone shows.
stored_shown :
    (v : Value) (now : ℤ) → live K E (store K E (new_mem_db K E (pos 16)) a v) now a ≡ some v
stored_shown v now = rw (
  live-store K E (new_mem_db K E (pos 16)) a (new_mem_db-IsValid K E (pos 16)) v now a,
  eqb_refl a,
  fresh,
)
  where
    fresh : expiry_of K E (new_mem_db K E (pos 16)) a ≡ none
    fresh = unfold expiry_of in unfold new_mem_db in E.expire_at-new_ttl (pos 16) a

list_shown : live K E listing (pos 7) a ≡ listed (b ∷ a ∷ [])
list_shown = stored_shown (list_value (of_vals (b ∷ a ∷ []))) (pos 7)

lpush_named : named (text "lpush") "lpush" ≡ true
unfolding named to_lower eqb text
lpush_named = refl

rpop_named : named (text "rpop") "rpop" ≡ true
unfolding named to_lower eqb text
rpop_named = refl

one : parse_int (text "1") ≡ some (pos 1)
unfolding parse_int text
one = refl

lpush_list_example :
    Does K E listing
      (pos 7)
      a
      (pushed (reverse (a ∷ b ∷ []) ++ (b ∷ a ∷ [])))
      (lpush_list K E listing (pos 7) (text "lpush") (a ∷ a ∷ b ∷ []))
lpush_list_example =
    lpush_list_lem K E listing (pos 7) (text "lpush") a listing-IsValid a (b ∷ []) (b ∷ a ∷ [])
      lpush_named list_shown

rpop_list_example :
    Does K E listing
      (pos 7)
      a
      (taken_from (reverse (drop 1 (reverse (b ∷ a ∷ [])))) (take 1 (reverse (b ∷ a ∷ []))))
      (rpop_list K E listing (pos 7) (text "rpop") (a ∷ text "1" ∷ []))
rpop_list_example =
    rpop_list_lem K E listing (pos 7) (text "rpop") a listing-IsValid (text "1") b 0 (a ∷ [])
      rpop_named one list_shown

abbrev s1 : SetTable
s1 = (Sets.add (Sets.add new_set a).0 b).0

abbrev s2 : SetTable
s2 = (Sets.add new_set b).0

s1-IsValid : Sets.Laws.IsValid s1
s1-IsValid = add-IsValid (Sets.add new_set a).0 b (add-IsValid new_set a new_set-IsValid)

s2-IsValid : Sets.Laws.IsValid s2
s2-IsValid = add-IsValid new_set b new_set-IsValid

set_operations_example :
    (Sets.Laws.IsValid (union s1 (s2 ∷ []))
      × (has (union s1 (s2 ∷ [])) b ≡ has s1 b || in_any b (s2 ∷ [])))
    × (Sets.Laws.IsValid (difference s1 (s2 ∷ []))
        × (has (difference s1 (s2 ∷ [])) b ≡ has s1 b && not (in_any b (s2 ∷ []))))
    × (Sets.Laws.IsValid (intersect s1 (s2 ∷ []))
        × (has (intersect s1 (s2 ∷ [])) b ≡ has s1 b && in_every b (s2 ∷ [])))
set_operations_example = set_operations s1 (s2 ∷ []) b s1-IsValid (s2-IsValid, tt)

-- A database with the set under `a`.
abbrev setting : MemDb K E
setting = store K E (new_mem_db K E (pos 16)) a (set_value s1)

setting-IsValid : IsValid K E setting
setting-IsValid =
    store-IsValid K E (new_mem_db K E (pos 16)) a (new_mem_db-IsValid K E (pos 16)) (set_value s1)

set_found : as_set (live K E setting (pos 7) a) ≡ found s1
set_found = ap as_set (stored_shown (set_value s1) (pos 7)) ∙ (unfold as_set in refl)

sadd_named : named (text "sadd") "sadd" ≡ true
unfolding named to_lower eqb text
sadd_named = refl

sadd_set_example :
    (t : SetTable) × Sets.Laws.IsValid t
    × ((j : Bytes)
        → has t j
          ≡ has (set_before (as_set (live K E setting (pos 7) a))) j
            || contains j (b ∷ text "c" ∷ []))
    × Does K E setting
        (pos 7)
        a
        (
          put (set_value t),
          int_data (pos (t.size - (set_before (as_set (live K E setting (pos 7) a))).size)),
        )
        (sadd_set K E setting (pos 7) (text "sadd") (a ∷ b ∷ text "c" ∷ []))
sadd_set_example =
    sadd_set_lem K E setting (pos 7) (text "sadd") a setting-IsValid b (text "c" ∷ []) sadd_named
      (rw set_found (λ e. cc)) (rw set_found s1-IsValid)

abbrev h1 : HashTable
h1 = Hashes.set new_hash a []

h1-IsValid : Hashes.Laws.IsValid h1
h1-IsValid = set-IsValid new_hash a [] (record { distinct = tt; counted = refl })

incr_by_example :
    ((incr_by h1 b (pos 60)).1 ≡ number_after (field h1 b) (pos 60))
    × (field (incr_by h1 b (pos 60)).0 b ≡ elim (number_after (field h1 b) (pos 60)) [
      | none ↦ field h1 b
      | some i ↦ if eqb b b then some (format_int i) else field h1 b
    ])
incr_by_example = incr_by_lem h1 b b (pos 60)

empty_value : field h1 a ≡ some []
unfolding find eqb text Hashes.set Hashes.assign
empty_value = refl

incr_by_count_example : (incr_by h1 a (pos 60)).0.size ≡ length (incr_by h1 a (pos 60)).0.table + 1
incr_by_count_example = incr_by_count h1 a (pos 60) h1-IsValid empty_value

abbrev visits : Visits
visits = record { set_order = λ l. l; hash_order = λ l. l }

abbrev node : ExecNode (LocalState (MemDb K E))
node = local_node K E (command_table K E visits)

abbrev start : LocalState (MemDb K E)
start = record { db = filled; clock = λ n. pos n }

-- SET a b, then GET a.
abbrev commands : List Command
commands = (text "set", a ∷ b ∷ []) ∷ (text "get", a ∷ []) ∷ []

handle-pipeline_example :
    handle node (λ n. true) 0 start (parse (pipeline commands))
    ≡ one_by_one node (λ n. true) 0 start commands
unfolding text
handle-pipeline_example =
    handle-pipeline node (λ n. true) 0 start commands
      (
        ((omega arith, (omega arith, (omega arith, tt))), omega arith),
        (((omega arith, (omega arith, tt)), omega arith), tt),
      )

not_wrong : as_string (live K E filled (pos 0) a) ≢ wrong
unfolding as_string
not_wrong = rw (stored_shown (string_value (text "41")) (pos 0)) (λ e. cc)

set-get_session_example :
    ((handle node all_written 0 start (parse (pipeline commands))).1
      ≡ to_bytes ok_reply ∷ to_bytes (bulk_data b) ∷ [])
    × ((handle node all_written 0 start (parse (pipeline commands))).2 ≡ peer_closed)
unfolding text
set-get_session_example =
    set-get_session K E visits start a b filled-IsValid not_wrong (omega arith) (omega arith)

-- An earlier client that has sent a line that is no command.
abbrev earlier : Bytes
earlier = 43 ∷ 120 ∷ 13 ∷ 10 ∷ []

abbrev fresh : LocalState (MemDb K E)
fresh = record { db = new_mem_db K E (pos 16); clock = λ n. pos n }

-- Two commands, on the keys a and a longer one, that have taken no lock yet.
abbrev two : List Process
two = lock_multi length 16 (text "ab" ∷ a ∷ []) ∷ lock_multi length 16 (a ∷ text "ab" ∷ []) ∷ []

two-reached : Reachable length 16 two
two-reached =
    next (lock_multi length 16 (a ∷ text "ab" ∷ []) ∷ []) two
      (next [] _ begin (arrive [] (a ∷ text "ab" ∷ [])))
      (arrive (lock_multi length 16 (a ∷ text "ab" ∷ []) ∷ []) (text "ab" ∷ a ∷ []))

locks-progress_example :
    All (λ q. finished q ≡ true) two
    ⊎ ((ps' : List Process) × Step length 16 two ps' × (left_to_do ps' < left_to_do two))
locks-progress_example = locks-progress length 16 two (λ e. cc) two-reached

sorted_lock_poses_example :
    (poses : List ℕ) × (sorted_lock_poses length 16 (text "ab" ∷ a ∷ []) ≡ some poses)
    × Ascending poses
    × All (λ p. p < 16) poses
    × ((p : ℕ) → among p poses ≡ pos_of_one length 16 p (text "ab" ∷ a ∷ []))
sorted_lock_poses_example = sorted_lock_poses_lem length 16 (text "ab" ∷ a ∷ []) (λ e. cc)

plain : Literal (98 ∷ [])
unfolding part_of
plain = (refl, tt)

pattern_match-Literal_example :
    (pattern_match (98 ∷ []) b ≡ matched (eqb (98 ∷ []) b))
    × (pattern_match ((98 ∷ []) ++ b'*' ∷ []) b ≡ matched (starts_with (98 ∷ []) b))
pattern_match-Literal_example = pattern_match-Literal (98 ∷ []) b plain

-- The pattern b*c on the text ba.
pattern_match-out_of_range_example :
    pattern_match ((98 ∷ []) ++ b'*' ∷ 99 ∷ []) ((98 ∷ []) ++ 97 ∷ []) ≡ out_of_range
unfolding among
pattern_match-out_of_range_example =
    pattern_match-out_of_range (98 ∷ []) [] 99 97 [] plain (λ e. cc) refl
