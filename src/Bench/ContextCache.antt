-- ===== src/Bench/ContextCache.antt =====
-- lib/bench/glm53-context-cache.py: the search for the longest prompt that fits the context, and the
-- comparison of its cold and its warm answer.
pub mod Markers
pub mod Fit
pub mod Phases
use nix_strix_halo.Prelude.{
  ℕ, zero, suc, ◌+◌, ◌-◌, ◌*◌, ◌/◌, ◌%◌, Bool, true, false, ◌&&◌, ◌||◌, not, Option, none, some,
  List, [], ◌∷◌, ◌++◌, if◌then◌else◌, ltb, leb, ◌==◌, length,
}
use nix_strix_halo.Prelude.Text.{Text, codes, text_eq, strip}
use nix_strix_halo.Prelude.Decimal.{show}
use nix_strix_halo.Json.{Json, text, object, Fields, fields, json_eq}
use nix_strix_halo.Bench.Script.{
  Stop, request_failed, value_error, out_of_fuel, Outcome, gives, stops, Script, ◌>>=◌, ◌>>◌, check,
  finish,
}
use nix_strix_halo.Bench.Server.{flushed, answered}

-- {i:06d}
abbrev pub zeros : ℕ → Text
zeros zero = []
zeros (suc n) = b'0' ∷ zeros n

unfoldable pub padded : ℕ → Text
padded i = zeros (6 - length (show i)) ++ show i

unfoldable pub row_of : ℕ → Text
unfolding padded
row_of i =
    codes "record_"
    ++ padded i
    ++ codes ": build="
    ++ show (i % 97)
    ++ codes ", tests="
    ++ show (i % 31)
    ++ codes ", status=passed\n"

unfoldable pub marker : Text → Text → Text
marker key value = codes "ACCEPTANCE_MARKER " ++ key ++ codes " = " ++ value ++ codes "\n"

unfoldable pub rows_from : ℕ → ℕ → List Text
rows_from zero first = []
rows_from (suc count) first = row_of first ∷ rows_from count (first + 1)

-- rows[i] = row; `none` is an IndexError.
unfoldable pub set_row : ℕ → Text → List Text → Option (List Text)
set_row i row [] = none
set_row zero row (r ∷ rs) = some (row ∷ rs)
set_row (suc i) row (r ∷ rs) = elim (set_row i row rs) [ none ↦ none | some rest ↦ some (r ∷ rest) ]

abbrev pub then_set : Option (List Text) → ℕ → Text → Option (List Text)
then_set none i row = none
then_set (some rows) i row = set_row i row rows

abbrev pub early_row : Text
early_row = marker (codes "early") (codes "amber-7251")

abbrev pub middle_row : Text
middle_row = marker (codes "middle") (codes "cedar-4938")

abbrev pub late_row : Text
late_row = marker (codes "late") (codes "violet-8614")

-- The indices int(count * fraction) for 0.1, 0.5 and 0.9: the doubles nearest to 0.1 and 0.9 lie
-- above them, so that for every count below 2 ^ 48 the truncated product is the exact quotient.
unfoldable pub marked_rows : ℕ → Option (List Text)
unfolding rows_from set_row marker
marked_rows count =
    then_set (then_set (set_row (count / 10) early_row (rows_from count 0)) (count / 2) middle_row)
      (9 * count / 10) late_row

abbrev pub concat : List Text → Text
concat [] = []
concat (r ∷ rs) = r ++ concat rs

-- The content of the one message.
unfoldable pub content_of : List Text → Text
content_of rows =
    codes "Read these build records. Three ACCEPTANCE_MARKER records contain values to remember.\n"
    ++ concat rows
    ++ codes
        "\nReturn only a JSON object mapping early, middle, and late to the exact values in their ACCEPTANCE_MARKER records."

abbrev pub with_content : Option (List Text) → Option Text
with_content none = none
with_content (some rows) = some (content_of rows)

unfoldable pub make_messages : ℕ → Option Text
unfolding marked_rows content_of
make_messages count = with_content (marked_rows count)

-- What is read of an answer of /v1/chat/completions.
pub record Details : Type 0 where
  pub cached_tokens : Option ℕ

pub record Completion : Type 0 where
  pub finish_reason : Text
  pub content : Text
  pub reasoning_content : Option Text
  pub prompt_tokens : ℕ
  pub prompt_tokens_details : Option Details

-- (usage.get("prompt_tokens_details") or {}).get("cached_tokens", 0)
unfoldable pub cached_of : Completion → ℕ
cached_of c = elim c.prompt_tokens_details [
  | none ↦ 0
  | some d ↦ elim d.cached_tokens [ none ↦ 0 | some n ↦ n ]
]

-- The server: `tokenize` gives result["count"], `complete` takes the messages and max_tokens; and
-- json.loads.
pub record Chat : Type 1 where
  pub State : Type 0
  pub tokenize : Text → State → Option ℕ × State
  pub flush : State → Bool × State
  pub complete : Text → ℕ → State → Option Completion × State
  pub loads : Text → Option Json

abbrev pub expected : Json
expected = object (
    fields (
      (codes "early", text (codes "amber-7251"))
      ∷ (codes "middle", text (codes "cedar-4938"))
      ∷ (codes "late", text (codes "violet-8614"))
      ∷ []))

-- The content and the reasoning of an answer.
pub record Comparable : Type 0 where
  pub answer : Text
  pub reasoning : Option Text

abbrev pub optional_eq : Option Text → Option Text → Bool
optional_eq none none = true
optional_eq none (some t) = false
optional_eq (some s) none = false
optional_eq (some s) (some t) = text_eq s t

unfoldable pub is_same : Comparable → Comparable → Bool
is_same a b = text_eq a.answer b.answer && optional_eq a.reasoning b.reasoning

abbrev pub is_loaded : Option Json → Bool
is_loaded none = false
is_loaded (some v) = json_eq v expected

pub data Phase : Type 0 where
  cold warm : Phase

abbrev pub is_cold : Phase → Bool
is_cold cold = true
is_cold warm = false

module _ (chat : Chat) where
  open chat use {State}

  abbrev pub made_of : Option Text → Script State Text
  made_of none = stops value_error
  made_of (some t) = finish t

  abbrev pub prompt_of : ℕ → Script State Text
  prompt_of count = made_of (make_messages count)

  -- tokenize(count)
  unfoldable pub tokenize : ℕ → Script State (Text × ℕ)
  tokenize count = do
    messages ← prompt_of count
    tokens ← λ s. answered (chat.tokenize messages s)
    finish (messages, tokens)

  -- while tokenize(hi)[1] <= target: lo, hi = hi, hi * 2
  unfoldable pub grow : ℕ → ℕ → ℕ → ℕ → Script State (ℕ × ℕ)
  unfolding tokenize
  grow zero target lo hi = stops out_of_fuel
  grow (suc fuel) target lo hi = do
    measured ← tokenize hi
    elim (leb measured.1 target) [ true ↦ grow fuel target hi (hi * 2) | false ↦ finish (lo, hi) ]

  -- while lo + 1 < hi: ...
  unfoldable pub narrow : ℕ → ℕ → ℕ → ℕ → Script State ℕ
  unfolding tokenize
  narrow zero target lo hi = stops out_of_fuel
  narrow (suc fuel) target lo hi = elim (ltb (lo + 1) hi) [
    | false ↦ finish lo
    | true ↦ do
      measured ← tokenize ((lo + hi) / 2)
      elim (leb measured.1 target) [
        | true ↦ narrow fuel target ((lo + hi) / 2) hi
        | false ↦ narrow fuel target lo ((lo + hi) / 2)
      ]
  ]

  unfoldable pub fit : ℕ → ℕ → Script State ℕ
  unfolding grow narrow
  fit fuel target = do
    bracket ← grow fuel target 10 256
    narrow bracket.1 target bracket.0 bracket.1

  abbrev pub agrees : Option Comparable → Comparable → Bool
  agrees none now = true
  agrees (some before) now = is_same now before

  -- if phase == "cold" or args.expect_cache == "off": cached == 0, else: cached > prompt_tokens // 2
  unfoldable pub is_cached_as_expected : Bool → Phase → ℕ → ℕ → Bool
  is_cached_as_expected expect_cache phase cached prompt_tokens =
      if is_cold phase || not expect_cache then cached == 0 else ltb (prompt_tokens / 2) cached

  -- The body of the loop over the phases; what it returns is the next `previous`.
  unfoldable pub answer_in :
      Bool → Text → ℕ → ℕ → Phase → Option Comparable → Script State Comparable
  unfolding cached_of is_cached_as_expected is_same
  answer_in expect_cache messages prompt_tokens reserve phase previous = do
    result ← λ s. answered (chat.complete messages reserve s)
    check (text_eq result.finish_reason (codes "stop"))
    check (is_loaded (chat.loads (strip result.content)))
    check (result.prompt_tokens == prompt_tokens)
    check (is_cached_as_expected expect_cache phase (cached_of result) prompt_tokens)
    let now : Comparable = record {
      answer = strip result.content;
      reasoning = result.reasoning_content;
    }
    check (agrees previous now)
    finish now

  unfoldable pub run : ℕ → ℕ → ℕ → Bool → Script State (ℕ × ℕ)
  unfolding fit tokenize answer_in
  run fuel context reserve expect_cache = do
    check (ltb 0 reserve && ltb reserve context)
    lo ← fit fuel (context - reserve)
    measured ← tokenize lo
    check (leb (context - reserve) (measured.1 + 64) && leb measured.1 (context - reserve))
    λ s. flushed (chat.flush s)
    first ← answer_in expect_cache measured.0 measured.1 reserve cold none
    answer_in expect_cache measured.0 measured.1 reserve warm (some first)
    finish (lo, measured.1)
