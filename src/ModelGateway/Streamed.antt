-- ===== src/ModelGateway/Streamed.antt =====
-- ai_gateway/adapters/local.py: a stream tells the text of a request, and then its end.
use text.Mathlib.TextLemmas.{nil-append, cons-append}
use kitematic.Base.{
  eq_refl, ℕ, zero, suc, ◌≤◌, ◌<◌, codes, String, ◌<>◌, str_eq, str_eq_cases, is_empty, Bool, true,
  false, ◌≡◌, refl, ap, sym, ◌∙◌, inl, inr, List, [], ◌∷◌, length, arith, if◌then◌else◌,
}
use kitematic.ModelGateway.{
  StreamChunk, content, finished, front, back, chunks_of, local_text, execute_local,
  execute_stream_local,
}

-- the contents of the chunks, one after the other
abbrev pub contents : List (StreamChunk String) → String
contents [] = ""
contents (content s ∷ chunks) = s <> contents chunks
contents (finished reason ∷ chunks) = contents chunks

-- Each content has characters, and the end comes once, last, with the reason "stop".
abbrev pub ends_once : List (StreamChunk String) → Bool
ends_once [] = false
ends_once (content s ∷ chunks) = if is_empty s then false else ends_once chunks
ends_once (finished reason ∷ []) = str_eq reason "stop"
ends_once (finished reason ∷ chunk ∷ chunks) = false

front-back : (n : ℕ) (s : String) → front n s <> back n s ≡ s
unfolding front back
front-back zero s = nil-append s
front-back (suc n) String.[] = refl
front-back (suc n) (String.◌∷◌ c s) =
    cons-append c (front n s) (back n s) ∙ ap (λ t. String.◌∷◌ c t) (front-back n s)

length-back : (n : ℕ) (s : String) → length (codes (back n s)) ≤ length (codes s)
unfolding back
length-back zero s = omega arith
length-back (suc n) String.[] = omega arith
length-back (suc n) (String.◌∷◌ c s) = omega (arith, length-back n s)

length-back_lt : (s : String) → is_empty s ≡ false → length (codes (back 10 s)) < length (codes s)
unfolding back
length-back_lt String.[] h = cc
length-back_lt (String.◌∷◌ c s) h = omega (arith, length-back 9 s)

front-nonempty : (s : String) → is_empty s ≡ false → is_empty (front 10 s) ≡ false
unfolding front
front-nonempty String.[] h = cc
front-nonempty (String.◌∷◌ c s) h = elim (str_eq_cases (String.◌∷◌ c (front 9 s)) "") [
  | inl (e, same) ↦
      let n : suc (length (codes (front 9 s))) ≡ 0 = ap (λ t. length (codes t)) same in
      absurd (omega (arith, n))
  | inr (e, n) ↦ e
]

chunks_of-tells :
    (fuel : ℕ) (s : String)
    → length (codes s) < fuel
    → (contents (chunks_of fuel s) ≡ s) × (ends_once (chunks_of fuel s) ≡ true)
unfolding chunks_of
chunks_of-tells zero s h = absurd (omega (arith, h))
chunks_of-tells (suc fuel) s h = elim (str_eq_cases s "") [
  | inl (e, same) ↦ rw e (sym same, eq_refl "stop")
  | inr (e, n) ↦
      let (told, ends) = chunks_of-tells fuel (back 10 s) (omega (arith, length-back_lt s e, h)) in
      rw e (ap (λ t. front 10 s <> t) told ∙ front-back 10 s, rw (front-nonempty s e) ends)
]

-- The contents of a stream, each of at least one character, are together the text that the same
-- request gets in one piece, and then the stream ends, once, with "stop".
pub execute_stream_local-tells :
    (prompt : String)
    → (contents (execute_stream_local prompt) ≡ (execute_local prompt).text)
      × (ends_once (execute_stream_local prompt) ≡ true)
unfolding execute_stream_local execute_local
execute_stream_local-tells prompt =
    chunks_of-tells (suc (length (codes (local_text prompt)))) (local_text prompt) (omega arith)
