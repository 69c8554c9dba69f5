-- ===== src/Server/Session.antt =====
-- A session of a client with pkg/server/handler.go on the local node of local_node.go: the bytes that come
-- back for SET and GET behind each other.
use tinyredis.Prelude.{
  ℕ, suc, ◌≡◌, ◌≢◌, refl, ap, ap₂, ◌∙◌, Bool, true, none, some, List, [], ◌∷◌, Bytes, Bool-cases,
  inl, inr, eqb, eqb_refl, find, to_lower, text, arith, All,
}
use tinyredis.Prelude.Int.{ℤ}
use tinyredis.Resp.{bulk_data, to_bytes}
use tinyredis.Resp.Parse.{parse}
use tinyredis.Resp.RoundTrip.{Fits}
use tinyredis.Keyspace.{Keyspace}
use tinyredis.Keyspace.Sharded.{sharded}
use tinyredis.ConMap.Tree.{RedBlackTree}
use tinyredis.Expiry.{Expiry}
use tinyredis.Expiry.Managed.{managed}
use tinyredis.Value.{Value, string_value, as_string, Found, missing, wrong, found}
use tinyredis.MemDb.{MemDb, new_mem_db, named, expiry_of}
use tinyredis.MemDb.View.{IsValid, live}
use tinyredis.Strings.{Outcome, set_string, ok_reply}
use tinyredis.Strings.SetLaws.{PlainSet, set_string_lem}
use tinyredis.Strings.Reads.{get_string, get_string_lem, read_as}
use tinyredis.Dispatch.{Visits, command_table, exec_command, executed}
use tinyredis.Dispatch.Safety.Strings.{set_string-Keeps}
use tinyredis.Server.{
  Answer, answered, ExecNode, peer_closed, serve, handle, write_answer, response, is_write_command,
}
use tinyredis.Server.Local.{LocalState, run_local, local_node, result_bytes}
use tinyredis.Server.Pipeline.{Command, words, pipeline, one_by_one, Sendable, handle-pipeline}

abbrev pub all_written : ℕ → Bool
all_written n = true

module _ {S : Type 0} (node : ExecNode S) where
  -- A command that is answered, with the commands behind it.
  one_by_one_step :
      (n : ℕ) (s s' : S) (c : Command) (cs : List Command) (bytes : Bytes)
      → serve node all_written s (words c) ≡ (s', answered bytes)
      → one_by_one node all_written n s (c ∷ cs) ≡ (
        (one_by_one node all_written (suc n) s' cs).0,
        bytes ∷ (one_by_one node all_written (suc n) s' cs).1,
        (one_by_one node all_written (suc n) s' cs).2,
      )
  unfolding one_by_one write_answer response
  one_by_one_step n s s' c cs bytes e =
      ap (write_answer node all_written n (λ t. one_by_one node all_written (suc n) t cs)) e

module _ (K : Keyspace Value) (E : Expiry) (v : Visits) where
  abbrev node : ExecNode (LocalState (MemDb K E))
  node = local_node K E (command_table K E v)

  abbrev after : LocalState (MemDb K E) → Outcome K E → LocalState (MemDb K E) × Answer
  after s o = (record { db = o.0; clock = λ n. s.clock (suc n) }, answered (to_bytes o.1))

  serve_local :
      (s : LocalState (MemDb K E)) (cmd : List Bytes)
      → serve node all_written s cmd ≡ run_local K E (command_table K E v) s cmd
  unfolding serve local_node
  serve_local s cmd = elim (Bool-cases (is_write_command cmd)) [
    | inl e ↦ rw e refl
    | inr e ↦ rw e refl
  ]

  set_served :
      (s : LocalState (MemDb K E)) (key val : Bytes)
      → serve node all_written s (text "set" ∷ key ∷ val ∷ [])
        ≡ after s (set_string K E s.db (s.clock 0) (text "set") (key ∷ val ∷ []))
  unfolding run_local result_bytes exec_command executed find to_lower eqb text
  set_served s key val = serve_local s (text "set" ∷ key ∷ val ∷ []) ∙ refl

  get_served :
      (s : LocalState (MemDb K E)) (key : Bytes)
      → serve node all_written s (text "get" ∷ key ∷ [])
        ≡ after s (get_string K E s.db (s.clock 0) (text "get") (key ∷ []))
  unfolding run_local result_bytes exec_command executed find to_lower eqb text
  get_served s key = serve_local s (text "get" ∷ key ∷ []) ∙ refl

  plain_written :
      (m : MemDb K E) (now : ℤ) (key val : Bytes) (out : Outcome K E) (old : Found Bytes)
      → old ≢ wrong
      → PlainSet K E m now key val out old
      → (out.1 ≡ ok_reply)
        × (expiry_of K E out.0 key ≡ none)
        × (live K E out.0 now key ≡ some (string_value val))
  plain_written m now key val out wrong h p = absurd (h refl)
  plain_written m now key val out missing h (r, e, view) = (r, e, view key ∙ rw (eqb_refl key) refl)
  plain_written m now key val out (found o) h (r, e, view) =
      (r, e, view key ∙ rw (eqb_refl key) refl)

  -- Without an expiration time a key shows the same at all times.
  live_untimed :
      (m : MemDb K E) (now later : ℤ) (key : Bytes)
      → expiry_of K E m key ≡ none
      → live K E m later key ≡ live K E m now key
  unfolding live
  live_untimed m now later key e = rw e refl

  module _ (s : LocalState (MemDb K E)) (key val : Bytes) (h : IsValid K E s.db) where
    abbrev out : Outcome K E
    out = set_string K E s.db (s.clock 0) (text "set") (key ∷ val ∷ [])

    set_named : named (text "set") "set" ≡ true
    unfolding named to_lower eqb text
    set_named = refl

    get_named : named (text "get") "get" ≡ true
    unfolding named to_lower eqb text
    get_named = refl

    read_back :
        as_string (live K E s.db (s.clock 0) key) ≢ wrong
        → (out.1 ≡ ok_reply)
          × ((get_string K E out.0 (s.clock 1) (text "get") (key ∷ [])).1 ≡ bulk_data val)
    read_back free =
        let (reply, untimed, shown) =
          plain_written s.db (s.clock 0) key val out (as_string (live K E s.db (s.clock 0) key))
            free (set_string_lem K E s.db (s.clock 0) (text "set") key val h set_named) in
        let valid = set_string-Keeps K E s.db (s.clock 0) (text "set") (key ∷ val ∷ []) h in
        let later = live_untimed out.0 (s.clock 0) (s.clock 1) key untimed ∙ shown in
        (
          reply,
          (get_string_lem K E out.0 (s.clock 1) (text "get") key valid get_named).0
              ∙ ap read_as later,
        )

    abbrev both : List Command
    both = (text "set", key ∷ val ∷ []) ∷ (text "get", key ∷ []) ∷ []

    -- What the two commands write, one behind the other.
    replies :
        let s1 : LocalState (MemDb K E) = (after s out).0 in
        let found : Outcome K E = get_string K E out.0 (s.clock 1) (text "get") (key ∷ []) in
        one_by_one node all_written 0 s both
        ≡ ((after s1 found).0, to_bytes out.1 ∷ to_bytes found.1 ∷ [], peer_closed)
    unfolding one_by_one
    replies =
        let s1 : LocalState (MemDb K E) = (after s out).0 in
        let found : Outcome K E = get_string K E out.0 (s.clock 1) (text "get") (key ∷ []) in
        one_by_one_step node 0 s s1 (text "set", key ∷ val ∷ []) ((text "get", key ∷ []) ∷ [])
          (to_bytes out.1) (set_served s key val)
        ∙ ap (λ r. (r.0, to_bytes out.1 ∷ r.1, r.2))
            (one_by_one_step node 1 s1 (after s1 found).0 (text "get", key ∷ []) []
              (to_bytes found.1) (get_served s1 key))

    -- On a local node with a well-formed database, at any times of the clock, a client that sends
    -- SET of a key and a value (both fitting a bulk string) and GET of the key behind it, and
    -- whose writes are taken, gets the bytes of OK and then of the value as a bulk string, and the
    -- connection ends when the client closes it, unless the key shows a value of another type than
    -- string.
    pub set-get_session :
        as_string (live K E s.db (s.clock 0) key) ≢ wrong
        → Fits key
        → Fits val
        → ((handle node all_written 0 s (parse (pipeline both))).1
            ≡ to_bytes ok_reply ∷ to_bytes (bulk_data val) ∷ [])
          × ((handle node all_written 0 s (parse (pipeline both))).2 ≡ peer_closed)
    unfolding text
    set-get_session free fits fits' =
        let sendable : All Sendable both = (
          ((omega arith, (fits, (fits', tt))), omega arith),
          (((omega arith, (fits, tt)), omega arith), tt),
        ) in
        let run = handle-pipeline node all_written 0 s both sendable ∙ replies in
        let (ok, value) = read_back free in
        (ap (λ r. r.1) run ∙ ap₂ (λ a b. to_bytes a ∷ to_bytes b ∷ []) ok value, ap (λ r. r.2) run)

-- The node on the table and the manager of the source, from a new database on.
module _ (tree : RedBlackTree Value) (murmur : Bytes → ℕ) (v : Visits) where
  abbrev pub table : Keyspace Value
  table = sharded tree murmur

  abbrev pub manager : Expiry
  manager = managed murmur

  -- What an earlier connection with these bytes leaves.
  abbrev pub left_by : ℤ → (ℕ → ℤ) → Bytes → LocalState (MemDb table manager)
  left_by size clock earlier =
      let new : LocalState (MemDb table manager) = record {
        db = new_mem_db table manager size;
        clock = clock;
      } in
      (handle (node table manager v) all_written 0 new (parse earlier)).0
