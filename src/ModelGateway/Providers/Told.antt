-- ===== src/ModelGateway/Providers/Told.antt =====
-- A streamed answer is the texts of its events, in order, and then its end.
use mathlib.Core.List.{map-append, append_assoc}
use package.text.Mathlib.TextLemmas.{nil-append, cons-append}
use kitematic.Base.{
  codes, String, ◌<>◌, str_eq, str_eq_cases, ◌||◌, ◌⊎◌, returned, is_empty, starts_with, Bool-cases,
  true, false, ◌≡◌, ◌≢◌, refl, ap, ◌∙◌, inl, inr, Option, Never, none, some, List, [], ◌∷◌, ◌++◌,
  map,
}
use kitematic.Base.Strip.{is_space, strip, strip-nonempty}
use kitematic.Kernel.Values.{
  Value, Values, Fields, null, text, items, object, nil, cons, truthy, field_value, elements,
}
use kitematic.ModelGateway.{content, back}
use kitematic.ModelGateway.Json.{as_dict, get_in, at_first, loop_over, listed}
use kitematic.ModelGateway.Providers.{
  StreamStep, go_on, silent, ending, data_of, Provider, openai, anthropic, gemini, data_step,
  line_step, read_stream, after_step, after_next, parsed_step, read_openai, read_anthropic,
  read_gemini, typed_step, is_text, content_step, candidates_step, parts_step, parts_of, part_steps,
}

-- the characters of `data: ` before a text
abbrev prefixed : String → String
prefixed d =
    String.◌∷◌ "d"
      (String.◌∷◌ "a" (String.◌∷◌ "t" (String.◌∷◌ "a" (String.◌∷◌ ":" (String.◌∷◌ " " d)))))

prefixed-append : (d : String) → "data: " <> d ≡ prefixed d
prefixed-append d =
    cons-append "d" "ata: " d
    ∙ ap (λ t. String.◌∷◌ "d" t)
        (cons-append "a" "ta: " d
          ∙ ap (λ t. String.◌∷◌ "a" t)
              (cons-append "t" "a: " d
                ∙ ap (λ t. String.◌∷◌ "t" t)
                    (cons-append "a" ": " d
                      ∙ ap (λ t. String.◌∷◌ "a" t)
                          (cons-append ":" " " d
                            ∙ ap (λ t. String.◌∷◌ ":" t)
                                (cons-append " " "" d
                                  ∙ ap (λ t. String.◌∷◌ " " t) (nil-append d))))))

data_of-prefixed : (d : String) → data_of (prefixed d) ≡ some d
unfolding data_of starts_with back
data_of-prefixed d =
    rw
      (strip-nonempty "d"
        (String.◌∷◌ "a" (String.◌∷◌ "t" (String.◌∷◌ "a" (String.◌∷◌ ":" (String.◌∷◌ " " d)))))
        (unfold is_space in refl))
      refl

data_of-data : (d : String) → data_of ("data: " <> d) ≡ some d
data_of-data d = ap data_of (prefixed-append d) ∙ data_of-prefixed d

-- The dict has the key with this value, or it has not the key.
abbrev pub HasField : String → Value → Value → Type 0
HasField key v w = (fs : Fields) × (v ≡ object fs) × (field_value key fs ≡ some w)

abbrev pub LacksField : String → Value → Type 0
LacksField key v = (fs : Fields) × (v ≡ object fs) × (field_value key fs ≡ none)

-- What the dict has under the key: no text, or one of at least one character.
abbrev pub TextAt : String → Value → List String → Type 0
TextAt key d texts =
    ((LacksField key d ⊎ (HasField key d null ⊎ HasField key d (text ""))) × (texts ≡ []))
    ⊎ ((s : String) × HasField key d (text s) × (is_empty s ≡ false) × (texts ≡ s ∷ []))

-- The texts of the parts of an event of Gemini.
abbrev pub PartTexts : Values → List String → Type 0
PartTexts nil texts = texts ≡ []
PartTexts (cons p ps) texts =
    (here : List String) × (rest : List String) × TextAt "text" p here
    × PartTexts ps rest
    × (texts ≡ here ++ rest)

-- The pieces of text in an event of a provider, whatever other keys it has. OpenAI has one in the
-- delta of the first choice. Anthropic has one in an event of type `content_block_delta`, and none
-- in the other events but the last. Gemini has them in the parts of the first candidate.
abbrev pub Tells : Provider → Value → List String → Type 0
Tells openai v texts =
    (choice : Value) × (rest : Values) × (delta : Value) × HasField "choices" v
      (items (cons choice rest))
    × HasField "delta" choice delta
    × TextAt "content" delta texts
Tells anthropic v texts =
    ((delta : Value) × HasField "type" v (text "content_block_delta")
      × HasField "delta" v delta
      × TextAt "text" delta texts)
    ⊎ ((type : String) × HasField "type" v (text type)
        × (str_eq type "content_block_delta" ≡ false)
        × (str_eq type "message_stop" ≡ false)
        × (texts ≡ []))
Tells gemini v texts =
    (LacksField "candidates" v × (texts ≡ []))
    ⊎ ((candidate : Value) × (rest : Values) × (told : Value) × HasField "candidates" v
          (items (cons candidate rest))
        × HasField "content" candidate told
        × ((LacksField "parts" told × (texts ≡ []))
            ⊎ ((parts : Values) × HasField "parts" told (items parts) × PartTexts parts texts)))

get_in-HasField :
    (key : String) (default v w : Value) → HasField key v w → get_in key default v ≡ returned w
unfolding get_in as_dict
get_in-HasField key default v w (fs, e, h) = rw (e, h) refl

get_in-LacksField :
    (key : String) (default v : Value) → LacksField key v → get_in key default v ≡ returned default
unfolding get_in as_dict
get_in-LacksField key default v (fs, e, h) = rw (e, h) refl

-- a step of the loop that gives these texts, and goes on
abbrev pub told_step : List String → StreamStep
told_step texts = record { yielded = map (λ s. content (text s)) texts; next = go_on }

content-TextAt :
    (key : String) (default d : Value) (texts : List String)
    → truthy default ≡ false
    → TextAt key d texts
    → content_step (get_in key default d) ≡ told_step texts
unfolding content_step
content-TextAt key default d texts f (inl (inl lacks, e)) =
    rw (get_in-LacksField key default d lacks, f, e) refl
content-TextAt key default d texts f (inl (inr (inl has), e)) =
    rw (get_in-HasField key default d null has, e) (unfold truthy in refl)
content-TextAt key default d texts f (inl (inr (inr has), e)) =
    rw (get_in-HasField key default d (text "") has, e) (unfold truthy in refl)
content-TextAt key default d texts f (inr (s, has, n, e)) =
    rw (get_in-HasField key default d (text s) has, e) (unfold truthy in rw n refl)

part_steps-PartTexts :
    (ps : Values) (texts : List String)
    → PartTexts ps texts
    → part_steps (listed ps) ≡ told_step texts
unfolding listed part_steps after_step after_next
part_steps-PartTexts nil texts e = rw e refl
part_steps-PartTexts (cons p ps) texts (here, rest, t, more, e) =
    rw
      (
        content-TextAt "text" (text "") p here (unfold truthy in refl) t,
        part_steps-PartTexts ps rest more,
        e,
        map-append,
      )
      refl

read_openai-Tells :
    (v : Value) (texts : List String) → Tells openai v texts → read_openai v ≡ told_step texts
unfolding read_openai at_first
read_openai-Tells v texts (choice, rest, delta, h, k, t) =
    rw
      (
        get_in-HasField "choices" _ v _ h,
        get_in-HasField "delta" _ choice delta k,
        content-TextAt "content" null delta texts (unfold truthy in refl) t,
      )
      refl

read_anthropic-Tells :
    (v : Value) (texts : List String) → Tells anthropic v texts → read_anthropic v ≡ told_step texts
unfolding read_anthropic typed_step is_text
read_anthropic-Tells v texts (inl (delta, h, k, t)) =
    rw
      (
        get_in-HasField "type" _ v _ h,
        get_in-HasField "delta" _ v delta k,
        content-TextAt "text" (text "") delta texts (unfold truthy in refl) t,
      )
      refl
read_anthropic-Tells v texts (inr (type, h, n, m, e)) =
    rw (get_in-HasField "type" _ v _ h, n, m, e) refl

parts_of-parts :
    (cs candidate told : Value) (rest parts : Values)
    → HasField "content" candidate told
    → HasField "parts" told (items parts)
    → parts_of (items (cons candidate rest)) ≡ returned (listed parts)
unfolding parts_of at_first loop_over elements
parts_of-parts cs candidate told rest parts h k =
    rw (get_in-HasField "content" _ candidate told h, get_in-HasField "parts" _ told _ k) refl

read_gemini-Tells :
    (v : Value) (texts : List String) → Tells gemini v texts → read_gemini v ≡ told_step texts
unfolding read_gemini candidates_step truthy parts_step
read_gemini-Tells v texts (inl (lacks, e)) = rw (get_in-LacksField "candidates" _ v lacks, e) refl
read_gemini-Tells v texts (inr (candidate, rest, told, h, k, inl (lacks, e))) =
    rw
      (
        get_in-HasField "candidates" _ v _ h,
        parts_of,
        at_first,
        get_in-HasField "content" _ candidate told k,
        get_in-LacksField "parts" _ told lacks,
        e,
      )
      (unfold loop_over elements listed part_steps in refl)
read_gemini-Tells v texts (inr (candidate, rest, told, h, k, inr (parts, l, t))) =
    rw
      (
        get_in-HasField "candidates" _ v _ h,
        parts_of-parts v candidate told rest parts k l,
        part_steps-PartTexts parts texts t,
      )
      refl

-- How the loop ends: a provider but Gemini says that its text has ended.
abbrev pub last_step : Provider → StreamStep
last_step gemini = silent
last_step _ = ending

module _ (loads : String → Option Value) where
  -- A line that carries nothing: blank, a comment, or one that is no JSON, behind `data: ` or with
  -- no such prefix (as `event: ping`), and not the end.
  pub data IsQuiet (line : String) : Type 0 where
    blank : is_empty (strip line) ≡ true → IsQuiet line
    comment : starts_with (codes ":") (codes line) ≡ true → IsQuiet line
    unreadable :
        (d : String) → line ≡ "data: " <> d → loads d ≡ none → strip d ≢ "[DONE]" → IsQuiet line
    other :
        starts_with (codes "data: ") (codes line) ≡ false
        → loads line ≡ none
        → strip line ≢ "[DONE]"
        → IsQuiet line

  -- The data that a provider ends its answer with; Gemini just stops.
  abbrev pub IsEnd : Provider → String → Type 0
  IsEnd openai d = strip d ≡ "[DONE]"
  IsEnd anthropic d = (v : Value) × (loads d ≡ some v) × HasField "type" v (text "message_stop")
  IsEnd gemini d = Never

  -- The lines carry these pieces of text, and then the end.
  pub data Carries (p : Provider) : List String → List String → Type 0 where
    closed : p ≡ gemini → Carries p [] []
    last : (d : String) {lines : List String} → IsEnd p d → Carries p (("data: " <> d) ∷ lines) []
    quiet :
        {line : String} {lines texts : List String}
        → IsQuiet line
        → Carries p lines texts
        → Carries p (line ∷ lines) texts
    told :
        (d : String) (v : Value) (here : List String) {lines texts all : List String}
        → loads d ≡ some v
        → Tells p v here
        → all ≡ here ++ texts
        → Carries p lines texts
        → Carries p (("data: " <> d) ∷ lines) all

  line_step-data :
      (p : Provider) (d : String) → line_step loads p ("data: " <> d) ≡ data_step loads p d
  unfolding line_step
  line_step-data p d = rw (line_step, data_of-data d) refl

  line_step_skipped :
      (p : Provider) (line : String) → data_of line ≡ none → line_step loads p line ≡ silent
  unfolding line_step
  line_step_skipped p line e = rw (line_step, e) refl

  data_of_comment :
      (line : String) → starts_with (codes ":") (codes line) ≡ true → data_of line ≡ none
  unfolding data_of
  data_of_comment line e = elim (Bool-cases (is_empty (strip line))) [
    | inl b ↦ rw b refl
    | inr b ↦ rw (b, e) refl
  ]

  parsed_step-none :
      (read : Value → StreamStep) (d : String) → loads d ≡ none → parsed_step loads read d ≡ silent
  unfolding parsed_step
  parsed_step-none read d e = rw (e, parsed_step) refl

  parsed_step-some :
      (read : Value → StreamStep) (d : String) (v : Value)
      → loads d ≡ some v
      → parsed_step loads read d ≡ read v
  unfolding parsed_step
  parsed_step-some read d v e = rw (e, parsed_step) refl

  data_step-unreadable :
      (p : Provider) (d : String)
      → loads d ≡ none
      → strip d ≢ "[DONE]"
      → data_step loads p d ≡ silent
  unfolding data_step
  data_step-unreadable openai d e n = elim (str_eq_cases (strip d) "[DONE]") [
    | inl (b, same) ↦ absurd (n same)
    | inr (b, _) ↦ rw b (parsed_step-none read_openai d e)
  ]
  data_step-unreadable anthropic d e n = parsed_step-none read_anthropic d e
  data_step-unreadable gemini d e n = parsed_step-none read_gemini d e

  data_of_other :
      (line : String)
      → starts_with (codes "data: ") (codes line) ≡ false
      → (data_of line ≡ none) ⊎ (data_of line ≡ some line)
  unfolding data_of
  data_of_other line e =
      elim (Bool-cases (is_empty (strip line) || starts_with (codes ":") (codes line))) [
        | inl b ↦ inl (rw b refl)
        | inr b ↦ inr (rw (b, e) refl)
      ]

  line_step-some :
      (p : Provider) (line d : String)
      → data_of line ≡ some d
      → line_step loads p line ≡ data_step loads p d
  unfolding line_step
  line_step-some p line d e = rw (line_step, e) refl

  read_quiet : (p : Provider) (line : String) → IsQuiet line → line_step loads p line ≡ silent
  read_quiet p line (blank e) = line_step_skipped p line (unfold data_of in rw e refl)
  read_quiet p line (comment e) = line_step_skipped p line (data_of_comment line e)
  read_quiet p line (unreadable d same e n) =
      ap (λ l. line_step loads p l) same ∙ line_step-data p d ∙ data_step-unreadable p d e n
  read_quiet p line (other s e n) = elim (data_of_other line s) [
    | inl none_ ↦ line_step_skipped p line none_
    | inr same ↦ line_step-some p line line same ∙ data_step-unreadable p line e n
  ]

  read_end : (p : Provider) (d : String) → IsEnd p d → data_step loads p d ≡ last_step p
  unfolding data_step
  read_end openai d e = rw e refl
  read_end anthropic d (v, e, h) =
      parsed_step-some read_anthropic d v e
      ∙ (unfold read_anthropic typed_step is_text in
          rw (get_in-HasField "type" null v (text "message_stop") h) refl)
  read_end gemini d e = elim e [ ]

  nothing_after :
      (p : Provider) (d : String) (rest : StreamStep)
      → IsEnd p d
      → after_next (last_step p).next (last_step p).yielded rest ≡ last_step p
  unfolding after_next
  nothing_after openai d rest e = refl
  nothing_after anthropic d rest e = refl
  nothing_after gemini d rest e = elim e [ ]

  module _ (loads_end : (d : String) → strip d ≡ "[DONE]" → loads d ≡ none) where
    read_told :
        (p : Provider) (d : String) (v : Value) (texts : List String)
        → loads d ≡ some v
        → Tells p v texts
        → data_step loads p d ≡ told_step texts
    unfolding data_step
    read_told openai d v texts e t = elim (str_eq_cases (strip d) "[DONE]") [
      | inl (b, same) ↦ (let no = loads_end d same in cc)
      | inr (b, _) ↦ rw b (parsed_step-some read_openai d v e ∙ read_openai-Tells v texts t)
    ]
    read_told anthropic d v texts e t =
        parsed_step-some read_anthropic d v e ∙ read_anthropic-Tells v texts t
    read_told gemini d v texts e t =
        parsed_step-some read_gemini d v e ∙ read_gemini-Tells v texts t

    -- An answer that is streamed in lines gives the pieces of text that the events in its lines
    -- tell, in their order, and then, but for Gemini, the end with the reason "stop". Events without
    -- a text, blank lines, comments, and lines that are no JSON behind `data: ` or have no such
    -- prefix and are no JSON, change nothing, and what follows the end is not read. The text that
    -- marks the end of a stream of OpenAI is taken to be no JSON itself.
    pub read_stream-Carries :
        (p : Provider) {lines texts : List String}
        → Carries p lines texts
        → read_stream loads p lines ≡ record {
          yielded = map (λ s. content (text s)) texts ++ (last_step p).yielded;
          next = (last_step p).next;
        }
    unfolding read_stream after_step after_next
    read_stream-Carries p (closed e) = rw e refl
    read_stream-Carries p (last d {lines} e) =
        rw (line_step-data p d, read_end p d e) (nothing_after p d (read_stream loads p lines) e)
    read_stream-Carries p (quiet {line} q rest) =
        rw (read_quiet p line q, read_stream-Carries p rest) refl
    read_stream-Carries p (told d v here e t same rest) =
        rw
          (
            line_step-data p d,
            read_told p d v here e t,
            read_stream-Carries p rest,
            same,
            map-append,
            append_assoc,
          )
          refl
