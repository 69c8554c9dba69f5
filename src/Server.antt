-- ===== src/Server.antt =====
-- pkg/server/write.go, handler.go and local_node.go: which commands count as writes, a node that runs
-- commands, and how a connection is served from the results of the parser.
pub mod Local
pub mod Pipeline
pub mod Session
use tinyredis.Prelude.{
  ℕ, suc, ◌+◌, ◌-◌, Bool, true, false, Option, none, some, List, [], ◌∷◌, Bytes, if◌then◌else◌, leb,
  ◌&&◌, ◌||◌, eqb, text, map, String,
}
use tinyredis.Resp.{RedisData, array_data, null_array, error_data, to_bytes, to_command}
use tinyredis.Resp.Parse.{Event, parsed, failed, closed, panicked}

upper : ℕ → ℕ
upper c = if leb 97 c && leb c 122 then c - 32 else c

-- `strings.ToUpper`, for texts of ASCII letters.
unfoldable pub to_upper : Bytes → Bytes
unfolding upper
to_upper = map upper

abbrev pub write_names : List String
write_names =
    "SET" ∷ "SETNX" ∷ "SETEX" ∷ "PSETEX" ∷ "DEL" ∷ "INCR" ∷ "DECR" ∷ "APPEND" ∷ "MSET" ∷ "MSETNX"
    ∷ "HSET" ∷ "HSETNX" ∷ "HDEL" ∷ "HINCRBY" ∷ "HINCRBYFLOAT" ∷ "HMSET" ∷ "LPUSH" ∷ "RPUSH" ∷ "LPOP"
    ∷ "RPOP" ∷ "LREM" ∷ "LSET" ∷ "LTRIM" ∷ "SADD" ∷ "SREM" ∷ "SPOP" ∷ "SMOVE" ∷ "ZADD" ∷ "ZREM"
    ∷ "ZINCRBY" ∷ "ZPOPMAX" ∷ "ZPOPMIN" ∷ "EXPIRE" ∷ "EXPIREAT" ∷ "PERSIST" ∷ "RENAME" ∷ "RENAMENX"
    ∷ "FLUSHDB" ∷ "FLUSHALL" ∷ "MULTI" ∷ "EXEC" ∷ "DISCARD" ∷ "WATCH" ∷ "UNWATCH" ∷ []

one_of : Bytes → List String → Bool
one_of word [] = false
one_of word (name ∷ names) = eqb word (text name) || one_of word names

unfoldable pub is_write_command : List Bytes → Bool
unfolding to_upper one_of
is_write_command [] = false
is_write_command (name ∷ args) = one_of (to_upper name) write_names

-- What a node makes of a command: bytes, an error, or a panic.
pub data Answer : Type 0 where
  answered : Bytes → Answer
  refused : Bytes → Answer
  panics : Answer

-- `ExecNode`, with the state of the node passed on.
pub record ExecNode (S : Type 0) : Type 0 where
  pub apply_command : S → List Bytes → S × Answer
  pub read_command : S → List Bytes → S × Answer

-- How the service of a connection ends.
pub data Ending : Type 0 where
  peer_closed parse_error write_error recovered process_down : Ending

-- The command of a parsed value: only arrays are commands.
unfoldable pub command_of : RedisData → Option (List Bytes)
unfolding to_command
command_of (array_data ds) = some (to_command ds)
command_of null_array = some []
command_of _ = none

-- The bytes to write for an answer, none for a panic.
unfoldable pub response : Answer → Option Bytes
response (answered bytes) = some bytes
response (refused message) = some (to_bytes (error_data message))
response panics = none

module _ {S : Type 0} (node : ExecNode S) (accepts : ℕ → Bool) where
  unfoldable pub serve : S → List Bytes → S × Answer
  unfolding is_write_command
  serve s cmd = if is_write_command cmd then node.apply_command s cmd else node.read_command s cmd

  -- The node's state, the replies that were written, and the ending.
  abbrev pub Served : Type 0
  Served = S × List Bytes × Ending

  -- What `Handle` does with an answer: it writes the reply, and goes on by `next`. `accepts n` says
  -- whether the connection takes the write of reply `n`. A panic of a command is recovered.
  unfoldable pub write_answer : ℕ → (S → Served) → S × Answer → Served
  unfolding response
  write_answer n next (s, answer) = elim (response answer) [
    | none ↦ (s, [], recovered)
    | some bytes ↦
        let (s', replies, ending) = next s in
        if accepts n then (s', bytes ∷ replies, ending) else (s, [], write_error)
  ]

  -- The loop of `Handle` over what the parser sends. A panic of the parser is not recovered, since it
  -- runs in a goroutine of its own.
  unfoldable pub handle : ℕ → S → List Event → Served
  unfolding command_of write_answer serve
  handle n s [] = (s, [], peer_closed)
  handle n s (closed ∷ events) = (s, [], peer_closed)
  handle n s (failed ∷ events) = (s, [], parse_error)
  handle n s (panicked ∷ events) = (s, [], process_down)
  handle n s (parsed value ∷ events) = elim (command_of value) [
    | none ↦ handle n s events
    | some cmd ↦ write_answer n (λ s'. handle (suc n) s' events) (serve s cmd)
  ]
