-- ===== src/Bench/ApiCheck.antt =====
-- lib/bench/glm53-api-check.py: the reading of a streamed answer, whose tool calls come in fragments,
-- and the three requests of the check.
pub mod Fragments
pub mod Gathered
pub mod Streamed
pub mod Conversation
use nix_strix_halo.Prelude.{
  ℕ, zero, suc, ◌+◌, compare, Bool, true, false, ◌&&◌, not, Option, none, some, List, [], ◌∷◌, ◌++◌,
  map, if◌then◌else◌, ◌==◌, drop,
}
use nix_strix_halo.Prelude.Text.{Text, codes, text_eq, starts_with, strip}
use nix_strix_halo.Prelude.Sort.{sorted}
use nix_strix_halo.Json.{
  Json, null, bool, number, text, array, object, Items, nil, cons, Fields, end, get_field,
  is_truthy, iterated, fields, json_eq,
}

-- A fragment of a call, and a call that is put together.
pub record Part : Type 0 where
  pub index : ℕ
  pub part_id : Text
  pub part_name : Text
  pub part_arguments : Text

pub record Call : Type 0 where
  pub id : Text
  pub name : Text
  pub arguments : Text

-- The dictionary `calls`, in the order of insertion.
abbrev pub Calls : Type 0
Calls = List (ℕ × Call)

-- d.get(k) or "", where it is added to a text: `none` is a TypeError.
abbrev pub text_of : Json → Option Text
text_of (text t) = some t
text_of _ = none

abbrev pub or_empty : Option Json → Option Text
or_empty none = some []
or_empty (some v) = if is_truthy v then text_of v else some []

-- part.get("function", {})
abbrev pub fields_or_none : Option Json → Option Fields
fields_or_none none = some end
fields_or_none (some (object d)) = some d
fields_or_none (some _) = none

-- part["index"]; the protocol has numbers there.
abbrev pub index_of : Option Json → Option ℕ
index_of (some (number i)) = some i
index_of _ = none

infixl 5 ◌>>=◌
abbrev pub ◌>>=◌ : {A B : Type 0} → Option A → (A → Option B) → Option B
none >>= next = none
some a >>= next = next a

unfoldable pub read_part : Json → Option Part
read_part (object d) = do
  i ← index_of (get_field (codes "index") d)
  own ← or_empty (get_field (codes "id") d)
  function ← fields_or_none (get_field (codes "function") d)
  called ← or_empty (get_field (codes "name") function)
  given ← or_empty (get_field (codes "arguments") function)
  some (record { index = i; part_id = own; part_name = called; part_arguments = given })
read_part _ = none

unfoldable pub read_parts : Items → Option (List Part)
unfolding read_part
read_parts nil = some []
read_parts (cons v vs) = do p ← read_part v; ps ← read_parts vs; some (p ∷ ps)

-- delta.get("tool_calls") or []
abbrev pub items_or_none : Option Json → Option Items
items_or_none none = some nil
items_or_none (some (array vs)) = some vs
items_or_none (some v) = if is_truthy v then none else some nil

-- What a choice adds; `speaks` is the test for the first token.
pub record Delta : Type 0 where
  pub speaks : Bool
  pub said : Text
  pub thought : Text
  pub finish_reason : Json
  pub parts : List Part

abbrev pub truthy_field : Text → Fields → Bool
truthy_field k d = elim (get_field k d) [ none ↦ false | some v ↦ is_truthy v ]

abbrev pub get_or_null : Text → Fields → Json
get_or_null k d = elim (get_field k d) [ none ↦ null | some v ↦ v ]

unfoldable pub read_choice : Json → Option Delta
unfolding read_parts
read_choice (object choice) = do
  delta ← fields_or_none (get_field (codes "delta") choice)
  said ← or_empty (get_field (codes "content") delta)
  thought ← or_empty (get_field (codes "reasoning_content") delta)
  items ← items_or_none (get_field (codes "tool_calls") delta)
  ps ← read_parts items
  some (record {
    speaks =
        if truthy_field (codes "content") delta
        then true
        else if truthy_field (codes "reasoning_content") delta
        then true
        else truthy_field (codes "tool_calls") delta;
    said = said;
    thought = thought;
    finish_reason = get_or_null (codes "finish_reason") choice;
    parts = ps;
  })
read_choice _ = none

-- The variables of the loop; `readings` counts the readings of the clock.
pub record Loop : Type 0 where
  pub calls : Calls
  pub content : List Text
  pub reasoning : List Text
  pub first : Option ℕ
  pub usage : Json
  pub finish : Json
  pub readings : ℕ

abbrev pub joined : Call → Part → Call
joined c p = record {
  id = c.id ++ p.part_id;
  name = c.name ++ p.part_name;
  arguments = c.arguments ++ p.part_arguments;
}

abbrev pub fresh_call : Call
fresh_call = record { id = []; name = []; arguments = [] }

-- calls.setdefault(part["index"], …) and what is added to it
unfoldable pub add_part : Part → Calls → Calls
add_part p [] = (p.index, joined fresh_call p) ∷ []
add_part p ((i, c) ∷ cs) = if i == p.index then (i, joined c p) ∷ cs else (i, c) ∷ add_part p cs

unfoldable pub add_parts : List Part → Calls → Calls
unfolding add_part
add_parts [] cs = cs
add_parts (p ∷ ps) cs = add_parts ps (add_part p cs)

module _ (loads : Text → Option Json) (clock : ℕ → ℕ) where
  abbrev pub timed : Bool → Loop → Loop
  timed false s = s
  timed true s = elim s.first [
    | none ↦ record s { first = some (clock s.readings); readings = s.readings + 1 }
    | some t ↦ s
  ]

  unfoldable pub add_delta : Delta → Loop → Loop
  unfolding add_parts
  add_delta d s =
      let t = timed d.speaks s in
      record t {
        content = s.content ++ d.said ∷ [];
        reasoning = s.reasoning ++ d.thought ∷ [];
        finish = if is_truthy d.finish_reason then d.finish_reason else s.finish;
        calls = add_parts d.parts s.calls;
      }

  unfoldable pub visit_choices : Items → Loop → Option Loop
  unfolding add_delta read_choice
  visit_choices nil s = some s
  visit_choices (cons v vs) s = do d ← read_choice v; visit_choices vs (add_delta d s)

  -- event.get("choices", [])
  abbrev pub choices_of : Fields → Option Items
  choices_of event = elim (get_field (codes "choices") event) [
    | none ↦ some nil
    | some v ↦ iterated v
  ]

  abbrev pub take_usage : Fields → Loop → Loop
  take_usage event s =
      if truthy_field (codes "usage") event
      then record s { usage = get_or_null (codes "usage") event }
      else s

  unfoldable pub visit_event : Json → Loop → Option Loop
  unfolding visit_choices
  visit_event (object event) s = do
    choices ← choices_of event
    visit_choices choices (take_usage event s)
  visit_event _ s = none

  -- for line in response
  unfoldable pub read_lines : List Text → Loop → Option Loop
  unfolding visit_event
  read_lines [] s = some s
  read_lines (line ∷ lines) s = elim (starts_with (codes "data: ") line) [
    | false ↦ read_lines lines s
    | true ↦ elim (text_eq (strip (drop 6 line)) (codes "[DONE]")) [
      | true ↦ some s
      | false ↦ do
        event ← loads (strip (drop 6 line))
        after ← visit_event event s
        read_lines lines after
    ]
  ]

abbrev pub start : Loop
start = record {
  calls = [];
  content = [];
  reasoning = [];
  first = none;
  usage = null;
  finish = null;
  readings = 0;
}

abbrev pub concat : List Text → Text
concat [] = []
concat (t ∷ ts) = t ++ concat ts

unfoldable pub get_call : ℕ → Calls → Option Call
get_call i [] = none
get_call i ((j, c) ∷ cs) = if j == i then some c else get_call i cs

abbrev pub indices : Calls → List ℕ
indices [] = []
indices ((i, c) ∷ cs) = i ∷ indices cs

abbrev pub picked : Calls → List ℕ → List Call
picked cs [] = []
picked cs (i ∷ is) = elim (get_call i cs) [ none ↦ picked cs is | some c ↦ c ∷ picked cs is ]

pub record Message : Type 0 where
  pub content : Text
  pub reasoning_content : Text
  pub tool_calls : List Call

-- The message, with [calls[i] for i in sorted(calls)].
unfoldable pub message_of : Loop → Message
unfolding get_call
message_of s = record {
  content = concat s.content;
  reasoning_content = concat s.reasoning;
  tool_calls = picked s.calls (sorted compare (indices s.calls));
}

-- assert result["choices"][0]["finish_reason"] != "length"
unfoldable pub accepted : Loop → Option Message
unfolding message_of
accepted s = if json_eq s.finish (text (codes "length")) then none else some (message_of s)
