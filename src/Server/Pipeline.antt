-- ===== src/Server/Pipeline.antt =====
-- pkg/server/handler.go with pkg/RESP/parsestream.go: a connection on which a client sends commands, one
-- behind the other, without waiting for the replies.
use tinyredis.Prelude.{
  ℕ, suc, ◌+◌, ◌^◌, ◌<◌, ◌≡◌, refl, ap, fun_ext, ◌∙◌, Bool, none, some, List, [], ◌∷◌, ◌++◌, Bytes,
  length, map, All,
}
use tinyredis.Resp.{RedisData, array_data, bulk_data, elements, to_bytes, to_command, byte_data}
use tinyredis.Resp.Parse.{Event, parsed, parse, parse_loop, read_line}
use tinyredis.Resp.RoundTrip.{Fits, parse-command}
use tinyredis.Server.{ExecNode, peer_closed, command_of, serve, handle, Served, write_answer}

-- A command of one word or more, as its name and its other words.
abbrev pub Command : Type 0
Command = Bytes × List Bytes

abbrev pub words : Command → List Bytes
words c = c.0 ∷ c.1

abbrev pub encoded : Command → Bytes
encoded c = to_bytes (array_data (elements (map bulk_data (words c))))

-- The bytes of a pipeline.
abbrev pub pipeline : List Command → Bytes
pipeline [] = []
pipeline (c ∷ cs) = encoded c ++ pipeline cs

-- Commands within the bounds of the protocol.
abbrev pub Sendable : Command → Type 0
Sendable c = All Fits (words c) × (length c.1 + 1 < 2 ^ 63)

to_command-bulks : (ws : List Bytes) → to_command (elements (map bulk_data ws)) ≡ ws
unfolding to_command elements byte_data
to_command-bulks [] = refl
to_command-bulks (w ∷ ws) = ap (λ t. w ∷ t) (to_command-bulks ws)

command_of-encoded :
    (c : Command) → command_of (array_data (elements (map bulk_data (words c)))) ≡ some (words c)
unfolding command_of
command_of-encoded c = ap some (to_command-bulks (words c))

module _ {S : Type 0} (node : ExecNode S) (accepts : ℕ → Bool) where
  -- The commands run one by one: each is served on the state that the ones before it left, and its
  -- reply is written before the next one runs. A panic or a write that fails ends this.
  unfoldable pub one_by_one : ℕ → S → List Command → Served node accepts
  one_by_one n s [] = (s, [], peer_closed)
  one_by_one n s (c ∷ cs) =
      write_answer node accepts n (λ s'. one_by_one (suc n) s' cs) (serve node accepts s (words c))

  handle_next :
      (n : ℕ) (s : S) (value : RedisData) (cmd : List Bytes) (events : List Event)
      → command_of value ≡ some cmd
      → handle node accepts n s (parsed value ∷ events)
        ≡ write_answer node accepts n
            (λ s'. handle node accepts (suc n) s' events)
            (serve node accepts s cmd)
  unfolding handle
  handle_next n s value cmd events e =
      ap
        (λ o. elim o as (λ _. Served node accepts) [
          | none ↦ handle node accepts n s events
          | some c ↦
              write_answer node accepts n (λ s'. handle node accepts (suc n) s' events)
                (serve node accepts s c)
        ])
        e

  handle_end : (n : ℕ) (s : S) → handle node accepts n s (parse []) ≡ (s, [], peer_closed)
  unfolding handle parse parse_loop read_line
  handle_end n s = refl

  -- For commands of one word or more within the bounds of the protocol (each word fits a bulk
  -- string, and a command has fewer than 2^63 words), written one behind the other as arrays of
  -- bulk strings, `Handle` on the parsed stream leaves the state, writes the replies and ends as
  -- the commands do that are served one by one, each on the state that the ones before it left,
  -- whatever the node is and whichever writes the connection takes.
  pub handle-pipeline :
      (n : ℕ) (s : S) (cs : List Command)
      → All Sendable cs
      → handle node accepts n s (parse (pipeline cs)) ≡ one_by_one n s cs
  unfolding one_by_one
  handle-pipeline n s [] h = handle_end n s
  handle-pipeline n s (c ∷ cs) h =
      ap (handle node accepts n s) (parse-command c.0 c.1 (pipeline cs) h.0.0 h.0.1)
      ∙ handle_next n s _ (words c) (parse (pipeline cs)) (command_of-encoded c)
      ∙ ap (λ f. write_answer node accepts n f (serve node accepts s (words c)))
          (fun_ext (λ s'. handle-pipeline (suc n) s' cs h.1))
