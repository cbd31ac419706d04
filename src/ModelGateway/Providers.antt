-- ===== src/ModelGateway/Providers.antt =====
-- The adapters of ai_gateway/adapters/openai.py, anthropic.py and gemini.py: what they make of the
-- answers and of the streamed lines of their providers. The HTTP client and `json.loads` are
-- parameters; a line that is no JSON is read as `none`.
pub mod Told
use kitematic.Base.{
  codes, String, ◌<>◌, str_eq, is_empty, starts_with, Bool, false, ◌||◌, Option, none, some, List,
  [], ◌∷◌, ◌++◌, get_or, if◌then◌else◌, Outcome, returned, raised, ◌>>=◌, ℕ, ◌==◌,
}
use kitematic.Base.Dict.{Dict}
use kitematic.Base.Strip.{strip}
use kitematic.Kernel.Values.{
  Value, Fields, null, flag, number, text, items, object, nil, cons, end, field, truthy,
  field_value,
}
use kitematic.ModelGateway.{StreamChunk, content, finished, back}
use kitematic.ModelGateway.Json.{
  PyError, attribute_error, as_dict, get_in, at_key, at_first, loop_over, len_of, texts_in,
  joined_texts,
}

-- What one line of a stream yields, and whether the loop goes on.
pub data Next : Type 0 where
  go_on stopped : Next
  failed : PyError → Next

pub record StreamStep : Type 0 where
  pub yielded : List (StreamChunk Value)
  pub next : Next

abbrev pub silent : StreamStep
silent = record { yielded = []; next = go_on }

abbrev pub ending : StreamStep
ending = record { yielded = finished "stop" ∷ []; next = stopped }

-- The text of a line after `data: `, unless the line is blank or a comment.
unfoldable pub data_of : String → Option String
data_of line =
    if is_empty (strip line) || starts_with (codes ":") (codes line)
    then none
    else some (if starts_with (codes "data: ") (codes line) then back 6 line else line)

-- `if content: yield StreamChunk(content=content)`
unfoldable pub content_step : Outcome PyError Value → StreamStep
unfolding truthy
content_step (returned v) = record {
  yielded = if truthy v then content v ∷ [] else [];
  next = go_on;
}
content_step (raised e) = record { yielded = []; next = failed e }

abbrev pub empty_object : Value
empty_object = object end

unfoldable pub read_openai : Value → StreamStep
unfolding content_step get_in at_first
read_openai chunk = content_step (do
  choices ← get_in "choices" (items (cons empty_object nil)) chunk
  choice ← at_first choices
  delta ← get_in "delta" empty_object choice
  get_in "content" null delta)

unfoldable pub is_text : String → Value → Bool
is_text s (text t) = str_eq t s
is_text s _ = false

unfoldable pub typed_step : Outcome PyError Value → Value → StreamStep
unfolding is_text content_step get_in
typed_step (raised e) chunk = record { yielded = []; next = failed e }
typed_step (returned t) chunk =
    if is_text "content_block_delta" t
    then content_step (get_in "delta" empty_object chunk >>= get_in "text" (text ""))
    else if is_text "message_stop" t
    then ending
    else silent

unfoldable pub read_anthropic : Value → StreamStep
unfolding typed_step get_in
read_anthropic chunk = typed_step (get_in "type" null chunk) chunk

unfoldable pub after_next : Next → List (StreamChunk Value) → StreamStep → StreamStep
after_next go_on chunks rest = record { yielded = chunks ++ rest.yielded; next = rest.next }
after_next stopped chunks rest = record { yielded = chunks; next = stopped }
after_next (failed e) chunks rest = record { yielded = chunks; next = failed e }

-- What follows a step is taken only if the loop goes on.
unfoldable pub after_step : StreamStep → StreamStep → StreamStep
unfolding after_next
after_step s rest = after_next s.next s.yielded rest

unfoldable pub part_steps : List Value → StreamStep
unfolding after_step content_step get_in
part_steps [] = silent
part_steps (p ∷ ps) = after_step (content_step (get_in "text" (text "") p)) (part_steps ps)

unfoldable pub parts_step : Outcome PyError (List Value) → StreamStep
unfolding part_steps
parts_step (returned ps) = part_steps ps
parts_step (raised e) = record { yielded = []; next = failed e }

-- `candidates[0].get("content", {}).get("parts", [])`
unfoldable pub parts_of : Value → Outcome PyError (List Value)
unfolding at_first get_in loop_over
parts_of candidates = do
  candidate ← at_first candidates
  c ← get_in "content" empty_object candidate
  parts ← get_in "parts" (items nil) c
  loop_over parts

unfoldable pub candidates_step : Outcome PyError Value → StreamStep
unfolding parts_step parts_of truthy
candidates_step (returned cs) = if truthy cs then parts_step (parts_of cs) else silent
candidates_step (raised e) = record { yielded = []; next = failed e }

unfoldable pub read_gemini : Value → StreamStep
unfolding candidates_step get_in
read_gemini chunk = candidates_step (get_in "candidates" (items nil) chunk)

pub data Provider : Type 0 where
  openai anthropic gemini : Provider

module _ (loads : String → Option Value) where
  -- `except json.JSONDecodeError: continue`
  unfoldable pub parsed_step : (Value → StreamStep) → String → StreamStep
  parsed_step read line = elim (loads line) [ none ↦ silent | some chunk ↦ read chunk ]

  unfoldable pub data_step : Provider → String → StreamStep
  data_step openai line =
      if str_eq (strip line) "[DONE]" then ending else parsed_step read_openai line
  data_step anthropic line = parsed_step read_anthropic line
  data_step gemini line = parsed_step read_gemini line

  unfoldable pub line_step : Provider → String → StreamStep
  line_step p line = elim (data_of line) [ none ↦ silent | some d ↦ data_step p d ]

  -- the loop over the lines of a response that has opened
  unfoldable pub read_stream : Provider → List String → StreamStep
  read_stream p [] = silent
  read_stream p (line ∷ lines) = after_step (line_step p line) (read_stream p lines)
