-- ===== src/ModelGateway/Json.antt =====
-- What the adapters of ai_gateway/adapters/ do with the parsed JSON of a provider: `get`, subscripts,
-- loops, `len` and `join`, each with the exception that it raises for a value of another type.
use kitematic.Base.{
  String, ◌<>◌, Option, none, some, List, [], ◌∷◌, length, get_or, ℕ, Outcome, returned, raised,
  ◌>>=◌,
}
use kitematic.Kernel.Values.{
  Value, Values, Fields, text, items, object, nil, cons, field_value, elements,
}

pub data PyError : Type 0 where
  attribute_error index_error key_error type_error : PyError
  -- an exception of the HTTP client, by its text
  client_error : String → PyError

-- A value with the method `get`: a dict.
unfoldable pub as_dict : Value → Outcome PyError Fields
as_dict (object fs) = returned fs
as_dict _ = raised attribute_error

-- `v.get(key, default)`
unfoldable pub get_in : String → Value → Value → Outcome PyError Value
unfolding as_dict field_value
get_in key default v = do fs ← as_dict v; returned (get_or (field_value key fs) default)

unfoldable or_key_error : Option Value → Outcome PyError Value
or_key_error none = raised key_error
or_key_error (some v) = returned v

-- `v[key]`
unfoldable pub at_key : String → Value → Outcome PyError Value
unfolding or_key_error field_value
at_key key (object fs) = or_key_error (field_value key fs)
at_key key _ = raised type_error

-- `v[0]`; the keys of a JSON object are texts
unfoldable pub at_first : Value → Outcome PyError Value
at_first (items nil) = raised index_error
at_first (items (cons v vs)) = returned v
at_first (text String.[]) = raised index_error
at_first (text (String.◌∷◌ c s)) = returned (text (String.◌∷◌ c ""))
at_first (object fs) = raised key_error
at_first _ = raised type_error

unfoldable pub listed : Values → List Value
listed nil = []
listed (cons v vs) = v ∷ listed vs

unfoldable pub iterated : Option Values → Outcome PyError (List Value)
unfolding listed
iterated none = raised type_error
iterated (some vs) = returned (listed vs)

-- `for x in v`
unfoldable pub loop_over : Value → Outcome PyError (List Value)
unfolding iterated elements
loop_over v = iterated (elements v)

-- `len(v)`
unfoldable pub len_of : Value → Outcome PyError ℕ
unfolding loop_over
len_of v = do xs ← loop_over v; returned (length xs)

-- the values of `x.get("text", "") for x in xs`
unfoldable pub texts_in : List Value → Outcome PyError (List Value)
unfolding get_in
texts_in [] = returned []
texts_in (x ∷ xs) =
    let rest = texts_in xs in get_in "text" (text "") x >>= λ t. rest >>= λ ts. returned (t ∷ ts)

-- `"".join(xs)`
unfoldable pub joined_texts : List Value → Outcome PyError String
joined_texts [] = returned ""
joined_texts (text s ∷ xs) = joined_texts xs >>= λ t. returned (s <> t)
joined_texts (_ ∷ xs) = raised type_error
