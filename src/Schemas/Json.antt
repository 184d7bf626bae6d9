-- ===== src/Schemas/Json.antt =====
-- A JSON value as `request.get_json` gives it. What `str` prints of a number, a list or a dict is
-- kept with it.
use realynk.Base.{
  ℕ, Bool, true, false, not, ◌||◌, any, Option, List, [], ◌∷◌, Text, codes, text_eq, if◌then◌else◌,
}
use realynk.Auth.{Uuids}

mutual
  pub data Json : Type 0 where
    null : Json
    boolean : Bool → Json
    number : Text → Json
    string : Text → Json
    array : Text → Items → Json
    object : Text → Fields → Json

  pub data Items : Type 0 where
    no_items : Items
    item : Json → Items → Items

  -- the entries of a dict, with distinct keys
  pub data Fields : Type 0 where
    no_fields : Fields
    field : Text → Json → Fields → Fields

-- `payload.get(key)`, where a missing key reads as `None`
unfoldable pub get : Text → Fields → Json
get key no_fields = null
get key (field k v rest) = let later = get key rest in if text_eq k key then v else later

-- the keys of a dict
unfoldable pub keys : Fields → List Text
keys no_fields = []
keys (field k v rest) = k ∷ keys rest

abbrev pub is_null : Json → Bool
is_null null = true
is_null j = false

-- `str(value)`
abbrev pub str_of : Json → Text
str_of null = codes "None"
str_of (boolean true) = codes "True"
str_of (boolean false) = codes "False"
str_of (number s) = s
str_of (string s) = s
str_of (array s items) = s
str_of (object s entries) = s

-- `UUID(str(value))`
abbrev pub uuid_of : Uuids → Json → Option ℕ
uuid_of uuids j = uuids.parse (str_of j)

-- `key in payload`
abbrev pub has_key : Text → Fields → Bool
has_key key entries = any (λ k. text_eq k key) (keys entries)

-- whether `set(payload) - allowed` has an element
abbrev pub has_others : List Text → Fields → Bool
has_others allowed entries = any (λ k. not (any (λ a. text_eq a k) allowed)) (keys entries)

-- `set(payload) != names`
abbrev pub has_not_just : List Text → Fields → Bool
has_not_just names entries =
    has_others names entries || any (λ name. not (has_key name entries)) names

-- a string, without a condition of its own
abbrev pub is_string_with : (Text → Bool) → Json → Bool
is_string_with p (string s) = p s
is_string_with p j = false

-- `isinstance(value, bool)`
abbrev pub is_boolean : Json → Bool
is_boolean (boolean b) = true
is_boolean j = false
