-- ===== src/Nostr/Json.antt =====
-- What `JSON.parse` makes of a message. Numbers have no fraction. A key stands once in an object.
use nostr_swarm.Base.{
  if◌then◌else◌, Text, eqb, ℤ, Bool, true, false, Option, none, some, List, [], ◌∷◌,
}

mutual
  pub data Json : Type 0 where
    null : Json
    boolean : Bool → Json
    number : ℤ → Json
    string : Text → Json
    array : Items → Json
    object : Fields → Json

  pub data Items : Type 0 where
    nil : Items
    cons : Json → Items → Items

  pub data Fields : Type 0 where
    end : Fields
    field : Text → Json → Fields → Fields

abbrev pub items : Items → List Json
items nil = []
items (cons j js) = j ∷ items js

abbrev pub to_items : List Json → Items
to_items [] = nil
to_items (j ∷ js) = cons j (to_items js)

-- `none` is `undefined`.
abbrev pub get_field : Text → Fields → Option Json
get_field k end = none
get_field k (field j v fs) = if eqb j k then some v else get_field k fs

-- `value?.id`: only an object has such a field.
abbrev pub get_member : Text → Option Json → Option Json
get_member k (some (object fs)) = get_field k fs
get_member k _ = none

-- `value ?? ''`
abbrev pub or_blank : Option Json → Json
or_blank none = string []
or_blank (some null) = string []
or_blank (some j) = j

unfoldable pub is_string : Json → Bool
is_string (string s) = true
is_string _ = false

unfoldable pub is_number : Json → Bool
is_number (number z) = true
is_number _ = false

unfoldable pub is_array : Json → Bool
is_array (array js) = true
is_array _ = false
