-- ===== src/Context/Json.antt =====
-- What the program reads of JSON values: emptiness, `dict.get`, lists, and the text of a preview.
use Prim.Native.String.{String, ◌++◌ as concat}
use careerops_agent.Shared.{
  ℕ, zero, suc, Bool, true, false, List, [], ◌∷◌, leb, if◌then◌else◌, ◌==◌, Eq_text,
}
use careerops_agent.Tool.Rows.{Json, null, str, arr, obj, Items, nil, cons, Fields, end, field}

-- `value in (None, "", [], {})`
abbrev pub is_empty : Json → Bool
is_empty null = true
is_empty (str s) = s == ""
is_empty (arr nil) = true
is_empty (obj end) = true
is_empty _ = false

pub get_field : String → Fields → Json
get_field key end = null
get_field key (field name value rest) =
    let later = get_field key rest in if name == key then value else later

-- `observation.get(key)`, with `null` for `None`.
unfoldable pub get : String → Json → Json
unfolding get_field
get key (obj fields) = get_field key fields
get key _ = null

pub put_field : String → Json → Fields → Fields
put_field key value end = field key value end
put_field key value (field name old rest) =
    let later = put_field key value rest in
    if name == key then field name value rest else field name old later

-- `{**value, key: new}`, of a dictionary.
unfoldable pub with_field : String → Json → Json → Json
unfolding put_field
with_field key new (obj fields) = obj (put_field key new fields)
with_field key new value = value

abbrev pub items : List Json → Items
items [] = nil
items (x ∷ xs) = cons x (items xs)

abbrev pub array : List Json → Json
array xs = arr (items xs)

abbrev fields_of : List (String × Json) → Fields
fields_of [] = end
fields_of ((name, value) ∷ rest) = field name value (fields_of rest)

-- A dictionary that is written out.
unfoldable pub object : List (String × Json) → Json
object entries = obj (fields_of entries)

-- The number of characters of a text, and its first characters.
unfoldable pub char_count : String → ℕ
char_count String.[] = 0
char_count (String.◌∷◌ c s) = suc (char_count s)

pub take_chars : ℕ → String → String
take_chars zero s = String.[]
take_chars (suc n) String.[] = String.[]
take_chars (suc n) (String.◌∷◌ c s) = String.◌∷◌ c (take_chars n s)

-- `_preview`, over the text of `json.dumps`.
unfoldable pub preview : (dumps : Json → String) → ℕ → Json → Json
unfolding char_count take_chars
preview dumps limit null = null
preview dumps limit value =
    let rendered = dumps value in
    if leb (char_count rendered) limit
    then str rendered
    else str (concat (take_chars limit rendered) "…")
