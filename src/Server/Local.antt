-- ===== src/Server/Local.antt =====
-- pkg/server/local_node.go: the node that runs commands on a database of its own, and what it keeps.
use tinyredis.Prelude.{
  ℕ, suc, Bool, Option, none, some, List, [], ◌∷◌, Bytes, if◌then◌else◌, text, true, false,
}
use tinyredis.Prelude.Int.{ℤ}
use tinyredis.Resp.{error_data, to_bytes}
use tinyredis.Resp.Parse.{Event, parsed, failed, closed, panicked, parse}
use tinyredis.Keyspace.{Keyspace}
use tinyredis.Expiry.{Expiry}
use tinyredis.Value.{Value}
use tinyredis.MemDb.{MemDb}
use tinyredis.MemDb.View.{IsValid}
use tinyredis.Dispatch.{
  Visits, CmdTable, command_table, Executed, no_result, crashed, replied, exec_command,
}
use tinyredis.Dispatch.Safety.Table.{exec_command-IsValid}
use tinyredis.Server.{
  Answer, answered, panics, ExecNode, recovered, write_error, command_of, response, serve, handle,
  is_write_command, Served, write_answer,
}

-- `ToBytes` of the result, with the error for no result.
unfoldable pub result_bytes : Executed → Answer
result_bytes no_result = answered (to_bytes (error_data (text "unknown error")))
result_bytes crashed = panics
result_bytes (replied reply) = answered (to_bytes reply)

-- A database with the time of each command to come.
pub record LocalState (D : Type 0) : Type 0 where
  pub db : D
  pub clock : ℕ → ℤ

module _ (K : Keyspace Value) (E : Expiry) (table : CmdTable K E) where
  -- `ApplyCommand` and `ReadCommand` of `localNode`, which are the same.
  unfoldable pub run_local : LocalState (MemDb K E) → List Bytes → LocalState (MemDb K E) × Answer
  unfolding result_bytes
  run_local s cmd =
      let (m, result) = exec_command K E table s.db (s.clock 0) cmd in
      (record { db = m; clock = λ n. s.clock (suc n) }, result_bytes result)

  unfoldable pub local_node : ExecNode (LocalState (MemDb K E))
  unfolding run_local
  local_node = record { apply_command = run_local; read_command = run_local }

module _ {S : Type 0} (node : ExecNode S) (accepts : ℕ → Bool) (P : S → Type 0) where
  write_answer-keeps :
      (n : ℕ) (next : S → Served node accepts) (sa : S × Answer)
      → ((s : S) → P s → P (next s).0)
      → P sa.0
      → P (write_answer node accepts n next sa).0
  unfolding write_answer
  write_answer-keeps n next (s, answer) kept h = by_response (response answer)
    where
      by_write :
          (b : Bool) (bytes : Bytes)
          → P
              (if◌then◌else◌ {A = Served node accepts} b
                ((next s).0, bytes ∷ (next s).1, (next s).2)
                (s, [], write_error)).0
      by_write true bytes = kept s h
      by_write false bytes = h

      by_response :
          (o : Option Bytes)
          → P
              (elim o as (λ _. Served node accepts) [
                | none ↦ (s, [], recovered)
                | some bytes ↦
                    let (s', replies, ending) = next s in
                    if accepts n then (s', bytes ∷ replies, ending) else (s, [], write_error)
              ]).0
      by_response none = h
      by_response (some bytes) = by_write (accepts n) bytes

  -- What the commands of a node keep, a connection keeps, whatever the peer sends.
  handle-keeps :
      (n : ℕ) (s : S) (events : List Event)
      → ((s : S) (cmd : List Bytes) → P s → P (serve node accepts s cmd).0)
      → P s
      → P (handle node accepts n s events).0
  unfolding handle
  handle-keeps n s [] kept h = h
  handle-keeps n s (closed ∷ events) kept h = h
  handle-keeps n s (failed ∷ events) kept h = h
  handle-keeps n s (panicked ∷ events) kept h = h
  handle-keeps n s (parsed value ∷ events) kept h =
      by_command (command_of value) (handle-keeps n s events kept h)
        (λ s' h'. handle-keeps (suc n) s' events kept h')
    where
      by_command :
          (o : Option (List Bytes))
          → P (handle node accepts n s events).0
          → ((s' : S) → P s' → P (handle node accepts (suc n) s' events).0)
          → P
              (elim o as (λ _. Served node accepts) [
                | none ↦ handle node accepts n s events
                | some cmd ↦
                    write_answer node accepts n
                      (λ s'. handle node accepts (suc n) s' events)
                      (serve node accepts s cmd)
              ]).0
      by_command none skipped next = skipped
      by_command (some cmd) skipped next =
          write_answer-keeps n (λ s'. handle node accepts (suc n) s' events)
            (serve node accepts s cmd) next (kept s cmd h)

module _ (K : Keyspace Value) (E : Expiry) (v : Visits) (accepts : ℕ → Bool) where
  abbrev node : ExecNode (LocalState (MemDb K E))
  node = local_node K E (command_table K E v)

  served-IsValid :
      (s : LocalState (MemDb K E)) (cmd : List Bytes)
      → IsValid K E s.db
      → IsValid K E (serve node accepts s cmd).0.db
  unfolding serve local_node run_local
  served-IsValid s cmd h = by_kind (is_write_command cmd)
    where
      by_kind :
          (b : Bool)
          → IsValid K E (if b then node.apply_command s cmd else node.read_command s cmd).0.db
      by_kind true = exec_command-IsValid K E v s.db (s.clock 0) cmd h
      by_kind false = exec_command-IsValid K E v s.db (s.clock 0) cmd h

  -- A connection keeps the database well formed.
  pub handle-IsValid :
      (s : LocalState (MemDb K E)) (input : Bytes)
      → IsValid K E s.db
      → IsValid K E (handle node accepts 0 s (parse input)).0.db
  handle-IsValid s input h =
      handle-keeps node accepts (λ t. IsValid K E t.db) 0 s (parse input) served-IsValid h
