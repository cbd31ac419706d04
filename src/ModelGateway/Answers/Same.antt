-- ===== src/ModelGateway/Answers/Same.antt =====
-- ai_gateway/adapters/gemini.py reads the JSON of a whole answer and of a streamed one alike.
use package.text.Mathlib.TextLemmas.{nil-append}
use mathlib.Core.Path.{subst₂}
use kitematic.Base.{
  String, ◌<>◌, str_eq_cases, Bool-cases, ◌≡◌, refl, ap, sym, ◌∙◌, inl, inr, List, [], ◌∷◌, Outcome,
  returned, raised, ◌>>=◌, bind-returned,
}
use kitematic.Kernel.Values.{Value, text, truthy, items, nil}
use kitematic.ModelGateway.{StreamChunk, content}
use kitematic.ModelGateway.Json.{PyError, get_in, texts_in, joined_texts}
use kitematic.ModelGateway.Providers.{
  StreamStep, go_on, content_step, after_step, after_next, part_steps, parts_step, parts_of,
  candidates_step, empty_object, read_gemini,
}
use kitematic.ModelGateway.Answers.{Answer, units, with_usage, candidate_text, read_gemini_answer}

-- The texts of chunks, one after the other.
abbrev pub text_told : List (StreamChunk Value) → String
text_told [] = ""
text_told (content (text s) ∷ chunks) = s <> text_told chunks
text_told (_ ∷ chunks) = text_told chunks

-- the text of an answer
abbrev answer_or : String → Outcome PyError Answer → Value
answer_or s (returned a) = a.answer_text
answer_or s (raised e) = text s

-- The loop has not ended, and has yielded this text.
abbrev pub Tells : String → StreamStep → Type 0
Tells s step = (text_told step.yielded ≡ s) × (step.next ≡ go_on)

joined_texts-cons :
    (t : Value) (ts : List Value) {s : String}
    → joined_texts (t ∷ ts) ≡ returned s
    → (u : String) × (v : String) × (t ≡ text u) × (joined_texts ts ≡ returned v) × (u <> v ≡ s)
unfolding joined_texts
joined_texts-cons (text u) ts h =
    let (v, e, same) = bind-returned (joined_texts ts) _ h in (u, v, refl, e, cc)
joined_texts-cons _ ts h = cc

text_step-Tells :
    (u v : String) (rest : StreamStep)
    → Tells v rest
    → Tells (u <> v) (after_step (content_step (returned (text u))) rest)
unfolding after_step after_next content_step truthy
text_step-Tells u v rest (e, n) = elim (str_eq_cases u "") [
  | inl (b, empty) ↦ rw b (e ∙ sym (nil-append v) ∙ ap (λ x. x <> v) (sym empty), n)
  | inr (b, _) ↦ rw b (ap (λ x. u <> x) e, n)
]

part_steps-Tells :
    (ps : List Value) {ts : List Value} {s : String}
    → texts_in ps ≡ returned ts
    → joined_texts ts ≡ returned s
    → Tells s (part_steps ps)
unfolding part_steps texts_in joined_texts
part_steps-Tells [] {ts} {s} e h =
    let same : returned "" ≡ returned s = ap (λ o. o >>= joined_texts) e ∙ h in (cc, refl)
part_steps-Tells (p ∷ ps) {ts} {s} e h =
    let (t, got, e') = bind-returned (get_in "text" (text "") p) _ e in
    let (rest, more, e'') = bind-returned (texts_in ps) _ e' in
    let (u, v, is_text, later, same) =
      joined_texts-cons t rest (ap (λ o. o >>= joined_texts) e'' ∙ h) in
    subst₂ (λ o x. Tells x (after_step (content_step o) (part_steps ps)))
      (sym (got ∙ ap returned is_text)) same
      (text_step-Tells u v (part_steps ps) (part_steps-Tells ps more later))

parts_step-Tells :
    (o : Outcome PyError (List Value)) {s : String}
    → (o >>= λ ps. texts_in ps >>= joined_texts) ≡ returned s
    → Tells s (parts_step o)
unfolding parts_step
parts_step-Tells (returned ps) h =
    let (ts, e, k) = bind-returned (texts_in ps) joined_texts h in part_steps-Tells ps e k
parts_step-Tells (raised e) h = cc

candidates_step-Tells :
    (candidates : Value) {s : String}
    → candidate_text candidates ≡ returned s
    → Tells s (candidates_step (returned candidates))
unfolding candidates_step candidate_text
candidates_step-Tells candidates {s} h = elim (Bool-cases (truthy candidates)) [
  | inl b ↦ rw b (parts_step-Tells (parts_of candidates) (rw (b, candidate_text) at h))
  | inr b ↦ (let same : returned "" ≡ returned s = rw (b, candidate_text) at h in rw b (cc, refl))
]

-- What Gemini sends as a whole answer, the loop over a streamed answer reads as well: if the
-- former is read, its text is what the chunks of the latter hold, one after the other, and the loop
-- goes on.
pub read_gemini-answer :
    (prompt parsed : Value) {a : Answer}
    → read_gemini_answer prompt parsed ≡ returned a
    → (a.answer_text ≡ text (text_told (read_gemini parsed).yielded))
      × ((read_gemini parsed).next ≡ go_on)
unfolding read_gemini_answer read_gemini with_usage
read_gemini-answer prompt parsed {a} h =
    let (candidates, got, h') = bind-returned (get_in "candidates" (items nil) parsed) _ h in
    let (s, read, h'') = bind-returned (candidate_text candidates) _ h' in
    let (usage, _, k) = bind-returned (get_in "usageMetadata" empty_object parsed) _ h'' in
    let (i, _, k') = bind-returned (units "promptTokenCount" prompt usage) _ k in
    let (o, _, k'') = bind-returned (units "candidatesTokenCount" (text s) usage) _ k' in
    let (e, n) = candidates_step-Tells candidates read in
    let same : text s ≡ a.answer_text = ap (λ x. answer_or s x) k'' in
    rw got (sym same ∙ ap text (sym e), n)
