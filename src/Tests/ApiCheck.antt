-- ===== src/Tests/ApiCheck.antt =====
-- A streamed answer whose two tool calls alternate.
use nix_strix_halo.Prelude.{
  ℕ, In, ◌≢◌, ◌↔◌, ◌≡◌, refl, Option, some, List, [], ◌∷◌, map, if◌then◌else◌,
}
use nix_strix_halo.Prelude.Text.{Text, codes, text_eq}
use nix_strix_halo.Prelude.Sort.{sorted}
use nix_strix_halo.Prelude.Sort.Numbers.{IsRising}
use nix_strix_halo.Json.{
  Json, null, number, text, array, object, Items, nil, cons, end, field, get_field,
}
use nix_strix_halo.Bench.ApiCheck.{Delta, Loop, read_lines, start, concat, fresh_call, message_of}
use nix_strix_halo.Bench.ApiCheck.Fragments.{joined_all, of_index}
use nix_strix_halo.Bench.ApiCheck.Streamed.{all_parts, last_finish, deltas_of, message_of-calls}

abbrev fragment : ℕ → Text → Text → Text → Json
fragment i own called given = object (
    field (codes "index") (number i) (
      field (codes "id") (text own) (
        field (codes "function")
          (object (field (codes "name") (text called) (field (codes "arguments") (text given) end)))
          end)))

abbrev event_of : Items → Json
event_of parts = object (
    field (codes "choices")
      (array (
        cons
          (object
            (field (codes "delta") (object (field (codes "tool_calls") (array parts) end)) end))
          nil))
      end)

abbrev events : Text → Option Json
events t =
    if text_eq t (codes "1")
    then some (event_of (cons (fragment 1 (codes "b") (codes "list") (codes "{")) nil))
    else if text_eq t (codes "2")
    then some (
        event_of (
          cons (fragment 0 (codes "a") (codes "read") (codes "[1"))
            (cons (fragment 1 [] [] (codes "}")) nil)))
    else some (event_of (cons (fragment 0 [] [] (codes "]")) nil))

abbrev response : List Text
response =
    codes "data: 1"
    ∷ codes ": ping"
    ∷ codes "data: 2"
    ∷ codes "data: 3"
    ∷ codes "data: [DONE]"
    ∷ codes "data: 4"
    ∷ []

ended : (t : Loop) × (read_lines events (λ n. n) response start ≡ some t)
unfolding read_lines get_field
ended = (_, refl)

message_test :
    (message_of (ended.0)).tool_calls
    ≡ record { id = codes "a"; name = codes "read"; arguments = codes "[1]" }
      ∷ record { id = codes "b"; name = codes "list"; arguments = codes "{}" }
      ∷ []
unfolding message_of sorted ended
message_test = refl

message_of-calls_example :
    (ds : List Delta) × (deltas_of events (λ n. n) response ≡ some ds)
    × ((is : List ℕ) × IsRising is
        × ((i : ℕ) → In i is ↔ (of_index i (all_parts ds) ≢ []))
        × ((message_of (ended.0)).tool_calls
            ≡ map (λ i. joined_all fresh_call (of_index i (all_parts ds))) is))
    × ((message_of (ended.0)).content ≡ concat (map (λ d. d.said) ds))
    × ((message_of (ended.0)).reasoning_content ≡ concat (map (λ d. d.thought) ds))
    × ((ended.0).finish ≡ last_finish null ds)
message_of-calls_example = message_of-calls events (λ n. n) response (ended.0) (ended.1)
