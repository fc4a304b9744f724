-- ===== src/Nostr/Filter/Typed.antt =====
-- A filter that passes `validateFilter` of src/nostr/filters.ts has the type that the code gives it.
use nostr_swarm.Nostr.Json.{
  Items, Json, Fields, items, to_items, get_field, is_string, is_number, number, string, array,
  object, nil, cons, end, field,
}
use nostr_swarm.Nostr.Filter.Validate.{
  read_number, read_size, below_zero, typed_tags, map_option, texts_of, read_text, typed_filter,
  validate_filter, is_string_array, valid_fields, is_number_array, valid_tags, given_wrong,
  texts_in,
}
use nostr_swarm.Nostr.Filter.{NostrFilter}
use nostr_swarm.Base.{
  ◌==◌, if◌then◌else◌, Bool-cases, length, drop, all, All, Text, text, starts_with, pos, negsuc, ℕ,
  ◌≡◌, refl, sym, ap, ap₂, inl, inr, Bool, true, false, not, ◌&&◌, Option, none, some, List, [],
  ◌∷◌, map, arith,
}

-- A list of texts in a message.
abbrev to_texts : List Text → Json
to_texts ss = array (to_items (map string ss))

-- The fields whose keys start with `#`.
abbrev tag_fields : Fields → List (Text × Json)
tag_fields end = []
tag_fields (field key value fs) =
    let rest = tag_fields fs in if starts_with key (text "#") then (key, value) ∷ rest else rest

abbrev write_tag : Text × List Text → Text × Json
write_tag (letter, values) = (35 ∷ letter, to_texts values)

-- The fields of the message are those of the typed filter.
abbrev pub IsTyped : Fields → NostrFilter → Type 0
IsTyped f t =
    (get_field (text "ids") f ≡ map_option to_texts t.ids)
    × (get_field (text "authors") f ≡ map_option to_texts t.authors)
    × (get_field (text "since") f ≡ map_option number t.since)
    × (get_field (text "until") f ≡ map_option number t.until)
    × (get_field (text "limit") f ≡ map_option (λ n. number (pos n)) t.limit)
    × (get_field (text "search") f ≡ map_option string t.search)
    × (tag_fields f ≡ map write_tag t.tag_filters)
    × All (λ tag. length tag.0 ≡ 1) t.tag_filters

to_items-texts_in :
    (js : Items)
    → all is_string (items js) ≡ true
    → to_items (map string (texts_in (items js))) ≡ js
unfolding is_string
to_items-texts_in nil h = refl
to_items-texts_in (cons (string s) js) h = ap (cons (string s)) (to_items-texts_in js h)
to_items-texts_in (cons _ js) h = ground arith

to_texts-texts_of : (j : Json) → is_string_array j ≡ true → to_texts (texts_of j) ≡ j
unfolding is_string_array
to_texts-texts_of (array js) h = ap array (to_items-texts_in js h)
to_texts-texts_of _ h = ground arith

read_strings :
    (o : Option Json)
    → given_wrong is_string_array o ≡ false
    → o ≡ map_option to_texts (map_option texts_of o)
read_strings none h = refl
read_strings (some j) h = ap some (sym (to_texts-texts_of j (ground arith)))

read_time :
    (o : Option Json) → given_wrong is_number o ≡ false → o ≡ map_option number (read_number o)
unfolding is_number
read_time none h = refl
read_time (some (number z)) h = refl
read_time (some _) h = ground arith

read_limit :
    (o : Option Json)
    → given_wrong (λ j. is_number j && not (below_zero j)) o ≡ false
    → o ≡ map_option (λ n. number (pos n)) (read_size o)
unfolding is_number
read_limit none h = refl
read_limit (some (number (pos n))) h = refl
read_limit (some (number (negsuc n))) h = ground arith
read_limit (some _) h = ground arith

read_search :
    (o : Option Json) → given_wrong is_string o ≡ false → o ≡ map_option string (read_text o)
unfolding is_string
read_search none h = refl
read_search (some (string s)) h = refl
read_search (some _) h = ground arith

-- A test that does not end the function.
passes : (b c : Bool) → (if b then false else c) ≡ true → (b ≡ false) × (c ≡ true)
passes b c h = ground arith

starts_with_first : (c : ℕ) (key : Text) → starts_with (c ∷ key) (text "#") ≡ true → 35 ≡ c
unfolding starts_with
starts_with_first c [] h = ground arith
starts_with_first c (d ∷ key) h = ground arith

one_letter : (key : Text) → not (length key == 2) ≡ false → length (drop 1 key) ≡ 1
one_letter [] h = ground arith
one_letter (c ∷ key) h = ground arith

tag_split : (key : Text) → starts_with key (text "#") ≡ true → 35 ∷ drop 1 key ≡ key
unfolding starts_with
tag_split [] h = ground arith
tag_split (c ∷ key) h = ap (λ (x : ℕ). x ∷ key) (omega (arith, starts_with_first c key h))

tags-IsTyped :
    (f : Fields)
    → valid_tags f ≡ true
    → (tag_fields f ≡ map write_tag (typed_tags f)) × All (λ tag. length tag.0 ≡ 1) (typed_tags f)
unfolding valid_tags
tags-IsTyped end h = (refl, tt)
tags-IsTyped (field key value fs) h = elim (Bool-cases (starts_with key (text "#"))) [
  | inr other ↦ rw other (tags-IsTyped fs (rw other at h))
  | inl tag ↦
      let (two, h1) = passes (not (length key == 2)) _ (rw tag at h) in
      let (strings, h2) = passes (not (is_string_array value)) _ h1 in
      let (rest, letters) = tags-IsTyped fs h2 in
      rw tag (
        ap₂ (λ (a : Text × Json) b. a ∷ b)
            (ap₂ (λ a b. (a, b)) (sym (tag_split key tag))
              (sym (to_texts-texts_of value (ground arith))))
            rest,
        (one_letter key two, letters),
      )
]

-- The guard `filter is NostrFilter` is honest: every field of a message's object that passes
-- `validateFilter` has its declared type, so the typed filter writes back to the same fields, tag
-- filters have keys of one letter, and the limit is not negative. (The kinds are not in the
-- statement, as those below zero are left out.)
pub validate_filter-IsTyped :
    (f : Fields) → validate_filter (object f) ≡ true → IsTyped f (typed_filter f)
unfolding validate_filter valid_fields typed_filter
validate_filter-IsTyped f h =
    let (ids, h1) = passes (given_wrong is_string_array (get_field (text "ids") f)) _ h in
    let (authors, h2) = passes (given_wrong is_string_array (get_field (text "authors") f)) _ h1 in
    let (kinds, h3) = passes (given_wrong is_number_array (get_field (text "kinds") f)) _ h2 in
    let (since, h4) = passes (given_wrong is_number (get_field (text "since") f)) _ h3 in
    let (until, h5) = passes (given_wrong is_number (get_field (text "until") f)) _ h4 in
    let (limit, h6) =
      passes (given_wrong (λ j. is_number j && not (below_zero j)) (get_field (text "limit") f)) _
        h5 in
    let (search, h7) = passes (given_wrong is_string (get_field (text "search") f)) _ h6 in
    (
      read_strings _ ids,
      read_strings _ authors,
      read_time _ since,
      read_time _ until,
      read_limit _ limit,
      read_search _ search,
      (tags-IsTyped f h7).0,
      (tags-IsTyped f h7).1,
    )
