-- ===== src/ModelGateway/Tests.antt =====
-- A prompt to the model of OpenAI, and an answer of Gemini.
use kitematic.Base.{
  String, ◌<>◌, str_eq, ◌≡◌, refl, Option, none, some, List, [], ◌∷◌, ◌++◌, map, if◌then◌else◌,
  returned, raised, starts_with, inl, inr,
}
use kitematic.Base.Strip.{strip, strip_left, strip_right, is_space}
use kitematic.Kernel.Values.{
  elements, characters, Value, Fields, null, number, text, items, object, nil, cons, end, field,
  truthy, field_value,
}
use kitematic.ModelGateway.{content}
use kitematic.ModelGateway.Json.{
  type_error, as_dict, get_in, at_key, at_first, loop_over, listed, len_of, texts_in, joined_texts,
}
use kitematic.ModelGateway.Providers.{go_on, openai, read_stream, read_gemini, parts_of}
use kitematic.ModelGateway.Providers.Told.{
  Carries, last, quiet, told, blank, comment, last_step, read_stream-Carries,
}
use kitematic.ModelGateway.Answers.{
  read_openai_answer, read_gemini_answer, with_usage, units, candidate_text,
}
use kitematic.ModelGateway.Answers.Same.{text_told, read_gemini-answer}

-- {"id": "c1", "choices": [{"index": 0, "delta": ...}]}
abbrev chunk : Fields → Value
chunk delta = object (
    field "id" (text "c1") (
      field "choices"
        (items (cons (object (field "index" (number 0) (field "delta" (object delta) end))) nil))
        end))

abbrev role_text : String
role_text =
    "{\"id\":\"c1\",\"choices\":[{\"index\":0,\"delta\":{\"role\":\"assistant\",\"content\":\"\"}}]}"

abbrev hello_text : String
hello_text = "{\"id\":\"c1\",\"choices\":[{\"index\":0,\"delta\":{\"content\":\"Hello\"}}]}"

abbrev finish_text : String
finish_text = "{\"id\":\"c1\",\"choices\":[{\"index\":0,\"delta\":{}}]}"

-- A reader of the JSON texts of these events; every other text is no JSON.
abbrev loads : String → Option Value
loads d =
    if str_eq (strip d) "[DONE]"
    then none
    else if str_eq d role_text
    then some (chunk (field "role" (text "assistant") (field "content" (text "") end)))
    else if str_eq d hello_text
    then some (chunk (field "content" (text "Hello") end))
    else if str_eq d finish_text
    then some (chunk end)
    else none

loads_end : (d : String) → strip d ≡ "[DONE]" → loads d ≡ none
loads_end d e = rw e refl

abbrev greeting : List String
greeting =
    ": keep-alive"
    ∷ ("data: " <> role_text)
    ∷ ""
    ∷ ("data: " <> hello_text)
    ∷ ("data: " <> finish_text)
    ∷ ("data: " <> "[DONE]")
    ∷ "data: never read"
    ∷ []

greeting-Carries : Carries loads openai greeting ("Hello" ∷ [])
unfolding strip strip_left strip_right is_space starts_with field_value
greeting-Carries = quiet (comment refl) (
    told role_text _ [] refl
      (_, _, _, (_, refl, refl), (_, refl, refl), inl (inr (inr (_, refl, refl)), refl)) refl
      (quiet (blank refl) (
        told hello_text _ ("Hello" ∷ []) refl
          (_, _, _, (_, refl, refl), (_, refl, refl), inr ("Hello", (_, refl, refl), refl, refl))
          refl
          (told finish_text _ [] refl
            (_, _, _, (_, refl, refl), (_, refl, refl), inl (inl (_, refl, refl), refl)) refl
            (last "[DONE]" refl)))))

read_stream-Carries_example : read_stream loads openai greeting ≡ record {
  yielded = map (λ s. content (text s)) ("Hello" ∷ []) ++ (last_step openai).yielded;
  next = (last_step openai).next;
}
read_stream-Carries_example = read_stream-Carries loads loads_end openai greeting-Carries

-- {"candidates": [{"content": {"parts": [{"text": "Hello "}, {}, {"text": "there"}]}}]}
abbrev from_gemini : Value
from_gemini = object (
    field "candidates"
      (items (
        cons
          (object (
            field "content"
              (object (
                field "parts"
                  (items (
                    cons (object (field "text" (text "Hello ") end))
                      (cons (object end) (cons (object (field "text" (text "there") end)) nil))))
                  end))
              end))
          nil))
      end)

from_gemini_read :
    read_gemini_answer (text "Hi") from_gemini
    ≡ returned (record {
      answer_text = text "Hello there";
      input_units = number 2;
      output_units = number 11;
    })
unfolding read_gemini_answer candidate_text with_usage units as_dict get_in at_first loop_over
    listed len_of elements characters texts_in joined_texts truthy field_value parts_of
from_gemini_read = refl

read_gemini-answer_example :
    (text "Hello there" ≡ text (text_told (read_gemini from_gemini).yielded))
    × ((read_gemini from_gemini).next ≡ go_on)
read_gemini-answer_example = read_gemini-answer (text "Hi") from_gemini from_gemini_read

-- An answer without a text, as OpenAI gives it for a call of a tool, is not read.
null_content :
    read_openai_answer (text "Hi") (
      object (
        field "choices"
          (items (cons (object (field "message" (object (field "content" null end)) end)) nil))
          end))
    ≡ raised type_error
unfolding read_openai_answer with_usage units as_dict get_in at_key at_first loop_over len_of
    characters field_value
null_content = refl
