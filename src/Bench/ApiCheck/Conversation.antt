-- ===== src/Bench/ApiCheck/Conversation.antt =====
-- The three requests of glm53-api-check.py: a sum, a tool call, and the answer to its result.
use nix_strix_halo.Prelude.{ℕ, Bool, true, false, ◌&&◌, not, Option, none, some, List, [], ◌∷◌}
use nix_strix_halo.Prelude.Text.{Text, codes, text_eq, strip}
use nix_strix_halo.Json.{Json, text, object, fields, json_eq}
use nix_strix_halo.Bench.ApiCheck.{Call, Message, start, read_lines, accepted, ◌>>=◌}

pub data Turn : Type 0 where
  user : Text → Turn
  assistant : Message → Turn
  tool : Text → Text → Turn

-- The answers of the server to the messages: the content and the finish reason, or the lines of a
-- stream.
pub record Service : Type 0 where
  pub plain : List Turn → Option (Text × Json)
  pub stream : List Turn → Option (List Text)
  pub loads : Text → Option Json
  pub clock : ℕ → ℕ

abbrev pub check : Bool → Option (Unit {0})
check true = some tt
check false = none

abbrev pub only_call : List Call → Option Call
only_call [] = none
only_call (c ∷ []) = some c
only_call (c ∷ d ∷ cs) = none

abbrev pub first_question : Turn
first_question = user (codes "Calculate 137 * 29. Give only the integer as your final answer.")

abbrev pub second_question : Turn
second_question = user (
    codes
      "Use read_file to read marker.txt. Then reply with the exact marker inside, and nothing else.")

abbrev pub is_path : Option Json → Bool
is_path none = false
is_path (some v) = json_eq v (object (fields ((codes "path", text (codes "marker.txt")) ∷ [])))

module _ (service : Service) where
  -- chat(…, stream=True)
  unfoldable pub streamed : List Turn → Option Message
  unfolding read_lines accepted
  streamed messages = do
    lines ← service.stream messages
    loop ← read_lines service.loads service.clock lines start
    accepted loop

  unfoldable pub plain_answer : List Turn → Option Text
  plain_answer messages = do
    answer ← service.plain messages
    check (not (json_eq answer.1 (text (codes "length")))) >>= λ _. some answer.0

  unfoldable pub main : Option (Unit {0})
  unfolding streamed plain_answer
  main = do
    number_said ← plain_answer (first_question ∷ [])
    seen ← check (text_eq (strip number_said) (codes "3973"))
    message ← streamed (second_question ∷ [])
    call ← only_call message.tool_calls
    named ← check (not (text_eq call.id []) && text_eq call.name (codes "read_file"))
    right ← check (is_path (service.loads call.arguments))
    last ←
        streamed (
          second_question ∷ assistant message ∷ tool call.id (codes "GLM_AGENT_ACCEPTANCE_53") ∷ [])
    check (text_eq (strip last.content) (codes "GLM_AGENT_ACCEPTANCE_53"))
