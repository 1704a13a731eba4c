-- ===== src/Clients/Json.antt =====
-- The values that `json.loads` gives, and what Python does with them. Floats are not modelled.
use hermes_agent_runtime.Base.{
  zero, Bool, true, false, String, List, [], ◌∷◌, ℤ, pos, Option, none, some, ◌==◌, string_eq,
  if◌then◌else◌,
}
use hermes_agent_runtime.Base.Result.{ok, err}
use hermes_agent_runtime.Runtime.Exceptions.{Call, error}

mutual
  pub data Json : Type 0 where
    null : Json
    bool : Bool → Json
    number : ℤ → Json
    text : String → Json
    array : Items → Json
    object : Members → Json

  pub data Items : Type 0 where
    nil : Items
    cons : Json → Items → Items

  pub data Members : Type 0 where
    end : Members
    member : String → Json → Members → Members

-- `bool(value)`
abbrev pub is_truthy : Json → Bool
is_truthy null = false
is_truthy (bool b) = b
is_truthy (number (pos zero)) = false
is_truthy (number _) = true
is_truthy (text s) = if s == "" then false else true
is_truthy (array nil) = false
is_truthy (array (cons _ _)) = true
is_truthy (object end) = false
is_truthy (object (member _ _ _)) = true

unfoldable pub find_member : String → Members → Option Json
find_member name end = none
find_member name (member key value members) =
    if name == key then some value else find_member name members

abbrev pub or_default : Option Json → Json → Json
or_default none default = default
or_default (some value) default = value

-- `value.get(name, default)`
unfoldable pub get : Json → String → Json → Call Json
unfolding find_member
get (object members) name default = ok (or_default (find_member name members) default)
get _ name default = err (error "AttributeError" "get")

abbrev found : String → Option Json → Call Json
found name none = err (error "KeyError" name)
found name (some value) = ok value

-- `value[name]`
unfoldable pub item : Json → String → Call Json
unfolding find_member
item (object members) name = found name (find_member name members)
item _ name = err (error "TypeError" name)

unfoldable pub to_list : Items → List Json
to_list nil = []
to_list (cons value items) = value ∷ to_list items

unfoldable pub names : Members → List Json
names end = []
names (member key _ members) = text key ∷ names members

unfoldable pub letters : String → List Json
letters String.[] = []
letters (String.◌∷◌ c s) = text (String.◌∷◌ c "") ∷ letters s

-- `iter(value)`
unfoldable pub elements : Json → Call (List Json)
unfolding to_list names letters
elements (array items) = ok (to_list items)
elements (object members) = ok (names members)
elements (text s) = ok (letters s)
elements _ = err (error "TypeError" "not iterable")

-- A name that Linear gives. Its schema says that it is a text; anything else raises here.
unfoldable pub text_of : Json → Call String
text_of (text s) = ok s
text_of _ = err (error "TypeError" "a text is expected")

-- `value or {}`
abbrev pub or_empty : Json → Json
or_empty value = if is_truthy value then value else object end
