-- ===== src/Kernel/Values.antt =====
-- The JSON-like values of `dict[str, Any]`: what parameters, tool data and checkpoints hold.
use kitematic.Base.{
  ℕ, String, str_eq, is_empty, Bool, true, false, Option, none, some, [], ◌∷◌, leb, if◌then◌else◌,
}
use kitematic.Base.Dict.{Dict}

mutual
  pub data Value : Type 0 where
    null : Value
    flag : Bool → Value
    number : ℕ → Value
    text : String → Value
    items : Values → Value
    object : Fields → Value

  pub data Values : Type 0 where
    nil : Values
    cons : Value → Values → Values

  pub data Fields : Type 0 where
    end : Fields
    field : String → Value → Fields → Fields

-- A dict as the value of a key of another.
abbrev fields : Dict Value → Fields
fields [] = end
fields ((k, v) ∷ d) = field k v (fields d)

abbrev pub dict_value : Dict Value → Value
dict_value d = object (fields d)

-- `bool(value)`
unfoldable pub truthy : Value → Bool
truthy null = false
truthy (flag b) = b
truthy (number n) = leb 1 n
truthy (text s) = if is_empty s then false else true
truthy (items nil) = false
truthy (items (cons v vs)) = true
truthy (object end) = false
truthy (object (field k v fs)) = true

-- `d.get(key)`
unfoldable pub field_value : String → Fields → Option Value
field_value key end = none
field_value key (field k v fs) = if str_eq k key then some v else field_value key fs

unfoldable pub characters : String → Values
characters String.[] = nil
characters (String.◌∷◌ c s) = cons (text (String.◌∷◌ c "")) (characters s)

unfoldable pub field_names : Fields → Values
field_names end = nil
field_names (field k v fs) = cons (text k) (field_names fs)

-- what a loop over a value goes through
unfoldable pub elements : Value → Option Values
unfolding characters field_names
elements (items vs) = some vs
elements (text s) = some (characters s)
elements (object fs) = some (field_names fs)
elements _ = none
