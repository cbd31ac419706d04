-- ===== src/ModelGateway/Answers.antt =====
-- The calls of ai_gateway/adapters/openai.py, anthropic.py and gemini.py that wait for a whole
-- answer, `execute` around them, and `health_check`. `post` and the outcome of `get` are the HTTP
-- client's: the parsed JSON, or the exception that it raised.
pub mod Same
use kitematic.Base.{String, ◌<>◌, Bool, [], ◌∷◌, get_or, Outcome, returned, raised, ◌>>=◌, ℕ, ◌==◌}
use kitematic.Base.Dict.{Dict}
use kitematic.Kernel.Values.{
  Value, number, text, items, object, nil, cons, end, field, truthy, field_value,
}
use kitematic.ModelGateway.Json.{
  PyError, attribute_error, as_dict, get_in, at_key, at_first, loop_over, len_of, texts_in,
  joined_texts,
}
use kitematic.ModelGateway.Providers.{empty_object, parts_of}

pub record Request : Type 0 where
  pub url : String
  pub headers : Dict String
  pub params : Dict String
  pub body : Value

pub record Answer : Type 0 where
  pub answer_text : Value
  pub input_units : Value
  pub output_units : Value

-- `usage.get(key, len(counted))`
unfoldable pub units : String → Value → Value → Outcome PyError Value
units key counted usage = do
  fs ← as_dict usage
  n ← len_of counted
  returned (get_or (field_value key fs) (number n))

-- the answer with the units that `usage` gives for these keys
unfoldable pub with_usage :
    (input output : String) (prompt said usage : Value) → Outcome PyError Answer
with_usage input output prompt said usage = do
  i ← units input prompt usage
  o ← units output said usage
  returned (record { answer_text = said; input_units = i; output_units = o })

abbrev user_message : Value → Value
user_message prompt =
    items (cons (object (field "role" (text "user") (field "content" prompt end))) nil)

unfoldable pub read_openai_answer : (prompt parsed : Value) → Outcome PyError Answer
read_openai_answer prompt parsed = do
  choices ← at_key "choices" parsed
  choice ← at_first choices
  message ← at_key "message" choice
  said ← at_key "content" message
  usage ← get_in "usage" empty_object parsed
  with_usage "prompt_tokens" "completion_tokens" prompt said usage

unfoldable pub read_anthropic_answer : (prompt parsed : Value) → Outcome PyError Answer
read_anthropic_answer prompt parsed = do
  blocks ← get_in "content" (items nil) parsed
  xs ← loop_over blocks
  ts ← texts_in xs
  s ← joined_texts ts
  usage ← get_in "usage" empty_object parsed
  with_usage "input_tokens" "output_tokens" prompt (text s) usage

-- the text of the first candidate, empty if there is none
unfoldable pub candidate_text : Value → Outcome PyError String
candidate_text candidates = elim (truthy candidates) [
  | Bool.true ↦ (do parts ← parts_of candidates; ts ← texts_in parts; joined_texts ts)
  | Bool.false ↦ returned ""
]

unfoldable pub read_gemini_answer : (prompt parsed : Value) → Outcome PyError Answer
read_gemini_answer prompt parsed = do
  candidates ← get_in "candidates" (items nil) parsed
  s ← candidate_text candidates
  usage ← get_in "usageMetadata" empty_object parsed
  with_usage "promptTokenCount" "candidatesTokenCount" prompt (text s) usage

module _ (post : Request → Outcome PyError Value) where
  unfoldable pub call_openai : Value → (model api_key base_url : String) → Outcome PyError Answer
  call_openai prompt model api_key base_url =
      post (record {
        url = base_url <> "/chat/completions";
        headers =
            ("Authorization", "Bearer " <> api_key) ∷ ("Content-Type", "application/json") ∷ [];
        params = [];
        body = object (field "model" (text model) (field "messages" (user_message prompt) end));
      })
      >>= read_openai_answer prompt

  unfoldable pub call_anthropic : Value → (model api_key base_url : String) → Outcome PyError Answer
  call_anthropic prompt model api_key base_url =
      post (record {
        url = base_url <> "/messages";
        headers =
            ("x-api-key", api_key)
            ∷ ("anthropic-version", "2023-06-01")
            ∷ ("Content-Type", "application/json")
            ∷ [];
        params = [];
        body = object (
            field "model" (text model)
              (field "max_tokens" (number 4096) (field "messages" (user_message prompt) end)));
      })
      >>= read_anthropic_answer prompt

  unfoldable pub call_gemini : Value → (model api_key base_url : String) → Outcome PyError Answer
  call_gemini prompt model api_key base_url =
      post (record {
        url = base_url <> "/models/" <> model <> ":generateContent";
        headers = [];
        params = ("key", api_key) ∷ [];
        body = object (
            field "contents"
              (items (
                cons
                  (object (field "parts" (items (cons (object (field "text" prompt end)) nil)) end))
                  nil))
              end);
      })
      >>= read_gemini_answer prompt

-- `{"success": True, ...}`, of which the answer is kept, and `{"success": False, "error": ...}`
pub data Executed : Type 0 where
  succeeded : Answer → Executed
  failed_by : PyError → Executed

-- the `try` of `execute`
unfoldable pub attempted : Outcome PyError Answer → Executed
attempted (returned a) = succeeded a
attempted (raised e) = failed_by e

-- `request.get("payload", {}).get("prompt", "")`
unfoldable pub prompt_of : Value → Outcome PyError Value
prompt_of request = do
  payload ← get_in "payload" empty_object request
  get_in "prompt" (text "") payload

-- `self._call_openai` and `self._call_anthropic` are no attributes of their objects.
unfoldable pub execute_openai : Value → Outcome PyError Executed
execute_openai request = prompt_of request >>= λ _. returned (attempted (raised attribute_error))

unfoldable pub execute_anthropic : Value → Outcome PyError Executed
execute_anthropic request = prompt_of request >>= λ _. returned (attempted (raised attribute_error))

abbrev pub gemini_model : String
gemini_model = "gemini-2.0-flash"

abbrev pub gemini_url : String
gemini_url = "https://generativelanguage.googleapis.com/v1beta"

unfoldable pub execute_gemini :
    (post : Request → Outcome PyError Value) → Value → Outcome PyError Executed
execute_gemini post request = prompt_of request >>= λ prompt.
    returned (attempted (call_gemini post prompt gemini_model "" gemini_url))

-- What `health_check` reports of the status of a response, or of the exception.
pub data Health : Type 0 where
  answered : (healthy : Bool) (status_code : ℕ) → Health
  unreachable : PyError → Health

unfoldable pub health_check : Outcome PyError ℕ → Health
health_check (returned status) = answered (status == 200) status
health_check (raised e) = unreachable e
