-- ===== src/Nostr/Filter/Validate.antt =====
-- The validation of a filter that arrives in a message (`validateFilter` of src/nostr/filters.ts), and
-- the typed filter that stands behind it. A kind below zero, which no event has, is left out.
use nostr_swarm.Nostr.Json.{
  Json, Fields, items, get_field, is_string, is_number, number, string, array, object, end, field,
}
use nostr_swarm.Nostr.Filter.{NostrFilter}
use nostr_swarm.Base.{
  ◌==◌, if◌then◌else◌, length, drop, all, Text, text, starts_with, ℤ, pos, ltb_ℤ, ℕ, Bool, true,
  false, not, ◌&&◌, Option, none, some, List, [], ◌∷◌,
}

abbrev all_of : (Json → Bool) → Json → Bool
all_of test (array js) = all test (items js)
all_of test _ = false

unfoldable pub is_string_array : Json → Bool
unfolding is_string
is_string_array j = all_of is_string j

unfoldable pub is_number_array : Json → Bool
unfolding is_number
is_number_array j = all_of is_number j

abbrev pub below_zero : Json → Bool
below_zero (number z) = ltb_ℤ z (pos 0)
below_zero _ = false

-- `value !== undefined && !test(value)`
abbrev pub given_wrong : (Json → Bool) → Option Json → Bool
given_wrong test none = false
given_wrong test (some j) = not (test j)

-- The loop over the keys, of those that start with `#`.
unfoldable pub valid_tags : Fields → Bool
unfolding is_string_array
valid_tags end = true
valid_tags (field key value fs) =
    let rest = valid_tags fs in
    if starts_with key (text "#")
    then if not (length key == 2)
      then false
      else if not (is_string_array value)
      then false
      else rest
    else rest

unfoldable pub valid_fields : Fields → Bool
unfolding is_string_array is_number_array is_number is_string valid_tags
valid_fields f =
    if given_wrong is_string_array (get_field (text "ids") f)
    then false
    else if given_wrong is_string_array (get_field (text "authors") f)
    then false
    else if given_wrong is_number_array (get_field (text "kinds") f)
    then false
    else if given_wrong is_number (get_field (text "since") f)
    then false
    else if given_wrong is_number (get_field (text "until") f)
    then false
    else if given_wrong (λ j. is_number j && not (below_zero j)) (get_field (text "limit") f)
    then false
    else if given_wrong is_string (get_field (text "search") f)
    then false
    else valid_tags f

unfoldable pub validate_filter : Json → Bool
unfolding valid_fields
validate_filter (object f) = valid_fields f
validate_filter _ = false

-- The typed filter: each field that has the declared type, and the tag filters in their order.

abbrev pub map_option : {A B : Type 0} → (A → B) → Option A → Option B
map_option f none = none
map_option f (some a) = some (f a)

abbrev pub texts_in : List Json → List Text
texts_in [] = []
texts_in (string s ∷ js) = s ∷ texts_in js
texts_in (_ ∷ js) = texts_in js

abbrev pub texts_of : Json → List Text
texts_of (array js) = texts_in (items js)
texts_of _ = []

abbrev kinds_in : List Json → List ℕ
kinds_in [] = []
kinds_in (number (pos n) ∷ js) = n ∷ kinds_in js
kinds_in (_ ∷ js) = kinds_in js

abbrev kinds_of : Json → List ℕ
kinds_of (array js) = kinds_in (items js)
kinds_of _ = []

abbrev pub read_number : Option Json → Option ℤ
read_number (some (number z)) = some z
read_number _ = none

abbrev pub read_size : Option Json → Option ℕ
read_size (some (number (pos n))) = some n
read_size _ = none

abbrev pub read_text : Option Json → Option Text
read_text (some (string s)) = some s
read_text _ = none

abbrev pub typed_tags : Fields → List (Text × List Text)
typed_tags end = []
typed_tags (field key value fs) =
    let rest = typed_tags fs in
    if starts_with key (text "#") then (drop 1 key, texts_of value) ∷ rest else rest

unfoldable pub typed_filter : Fields → NostrFilter
typed_filter f = record {
  ids = map_option texts_of (get_field (text "ids") f);
  authors = map_option texts_of (get_field (text "authors") f);
  kinds = map_option kinds_of (get_field (text "kinds") f);
  since = read_number (get_field (text "since") f);
  until = read_number (get_field (text "until") f);
  limit = read_size (get_field (text "limit") f);
  search = read_text (get_field (text "search") f);
  tag_filters = typed_tags f;
}
