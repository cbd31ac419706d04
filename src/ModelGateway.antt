-- ===== src/ModelGateway.antt =====
-- The gateway to model providers (ai_gateway/): the registry of adapters of
-- ai_gateway/registry/adapter_registry.py, the adapter of ai_gateway/adapters/local.py, and what
-- every adapter says that it supports.
pub mod Streamed
pub mod Json
pub mod Providers
pub mod Answers
pub mod Tests
use kitematic.Base.{
  ℕ, zero, suc, ◌+◌, codes, String, ◌<>◌, str_eq, is_empty, Bool, Option, none, some, List, [], ◌∷◌,
  any, all, length, leb, map, if◌then◌else◌, Outcome, returned, raised,
}
use kitematic.Base.Dict.{Dict, lookup, insert, erase, values}

pub data RegistryError : Type 0 where
  without_adapter_id : RegistryError

-- Adapters of any kind, with the `adapter_id` of their metadata, empty where there is none.
module _ {A : Type 0} (adapter_id : A → String) where
  unfoldable pub register_adapter : A → Dict A → Outcome RegistryError (Dict A)
  register_adapter a adapters =
      if is_empty (adapter_id a)
      then raised without_adapter_id
      else returned (insert (adapter_id a) a adapters)

module _ {A : Type 0} where
  unfoldable pub unregister_adapter : String → Dict A → Dict A
  unregister_adapter id adapters = erase id adapters

  unfoldable pub get_adapter : String → Dict A → Option A
  get_adapter id adapters = lookup id adapters

  unfoldable pub list_adapters : Dict A → List A
  list_adapters adapters = values adapters

-- `required_capabilities.issubset(capabilities)`
unfoldable pub supports : (capabilities required : List String) → Bool
supports capabilities required = all (λ c. any (str_eq c) capabilities) required

abbrev pub local_capabilities : List String
local_capabilities = "model.text.generate" ∷ "model.code.generate" ∷ []

abbrev pub openai_capabilities : List String
openai_capabilities = "model.text.generate" ∷ "model.code.generate" ∷ "model.embed.create" ∷ []

abbrev pub anthropic_capabilities : List String
anthropic_capabilities = "model.text.generate" ∷ "model.code.generate" ∷ "model.reasoning" ∷ []

-- `s[:n]`
unfoldable pub front : ℕ → String → String
front zero s = ""
front (suc n) String.[] = ""
front (suc n) (String.◌∷◌ c s) = String.◌∷◌ c (front n s)

unfoldable pub back : ℕ → String → String
back zero s = s
back (suc n) String.[] = ""
back (suc n) (String.◌∷◌ c s) = back n s

abbrev pub local_text : String → String
local_text prompt = "Local response to: " <> front 50 prompt <> "..."

-- A chunk of a stream: its content, or its end with a reason.
pub data StreamChunk (A : Type 0) : Type 0 where
  content : A → StreamChunk A
  finished : String → StreamChunk A

-- The usage that `execute` reports, beside the text.
pub record LocalResult : Type 0 where
  pub text : String
  pub input_units : ℕ
  pub output_units : ℕ

unfoldable pub execute_local : String → LocalResult
unfolding front
execute_local prompt = record {
  text = local_text prompt;
  input_units = length (codes prompt);
  output_units = 50;
}

-- `for i in range(0, len(text), 10)`, on fuel
unfoldable pub chunks_of : ℕ → String → List (StreamChunk String)
unfolding front back
chunks_of zero s = []
chunks_of (suc fuel) s =
    let rest = chunks_of fuel (back 10 s) in
    if is_empty s then finished "stop" ∷ [] else content (front 10 s) ∷ rest

unfoldable pub execute_stream_local : String → List (StreamChunk String)
unfolding chunks_of
execute_stream_local prompt =
    chunks_of (suc (length (codes (local_text prompt)))) (local_text prompt)
