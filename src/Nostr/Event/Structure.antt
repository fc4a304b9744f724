-- ===== src/Nostr/Event/Structure.antt =====
-- The validation of an event that arrives in a message (`validateEventStructure` of
-- src/nostr/events.ts), and the typed event that stands behind it.
use nostr_swarm.Nostr.Json.{Json, Fields, items, get_field, number, string, array, object}
use nostr_swarm.Nostr.Event.{NostrEvent, or_empty, validate_event_structure}
use nostr_swarm.Nostr.Filter.Validate.{texts_of, read_text}
use nostr_swarm.Base.{
  ◌==◌, length, Text, text, ℤ, pos, pos_part, leb_ℤ, ℕ, ◌≡◌, Bool, true, false, ◌&&◌, Option, none,
  some, List, [], ◌∷◌, arith,
}

abbrev has_text : Option Json → Bool
has_text (some (string s)) = true
has_text _ = false

-- `typeof value === 'string' && value.length === n`
abbrev pub has_length : ℕ → Option Json → Bool
has_length n (some (string s)) = length s == n
has_length n _ = false

abbrev has_integer : Option Json → Bool
has_integer (some (number z)) = true
has_integer _ = false

abbrev has_natural : Option Json → Bool
has_natural (some (number z)) = leb_ℤ (pos 0) z
has_natural _ = false

abbrev has_array : Option Json → Bool
has_array (some (array js)) = true
has_array _ = false

unfoldable pub is_event_structure : Json → Bool
is_event_structure (object e) =
    has_length 64 (get_field (text "id") e)
    && has_length 64 (get_field (text "pubkey") e)
    && has_integer (get_field (text "created_at") e)
    && has_natural (get_field (text "kind") e)
    && has_array (get_field (text "tags") e)
    && has_text (get_field (text "content") e)
    && has_length 128 (get_field (text "sig") e)
is_event_structure _ = false

abbrev tags_in : List Json → List (List Text)
tags_in [] = []
tags_in (j ∷ js) = texts_of j ∷ tags_in js

abbrev read_tags : Option Json → List (List Text)
read_tags (some (array js)) = tags_in (items js)
read_tags _ = []

abbrev read_time : Option Json → ℤ
read_time (some (number z)) = z
read_time _ = pos 0

abbrev read_kind : Option Json → ℕ
read_kind (some (number z)) = pos_part z
read_kind _ = 0

-- The event of the declared type behind a payload whose tags are arrays of texts.
unfoldable pub typed_event : Fields → NostrEvent
typed_event e = record {
  id = or_empty (read_text (get_field (text "id") e));
  pubkey = or_empty (read_text (get_field (text "pubkey") e));
  created_at = read_time (get_field (text "created_at") e);
  kind = read_kind (get_field (text "kind") e);
  tags = read_tags (get_field (text "tags") e);
  content = or_empty (read_text (get_field (text "content") e));
  sig = or_empty (read_text (get_field (text "sig") e));
}

has_length-read :
    (n : ℕ) (o : Option Json)
    → has_length n o ≡ true
    → (length (or_empty (read_text o)) == n) ≡ true
has_length-read n none h = ground arith
has_length-read n (some (string [])) h = h
has_length-read n (some (string (c ∷ s))) h = h
has_length-read n (some _) h = ground arith

-- The guard on a message and the guard on a stored event agree: what passes the first passes the
-- second, as an event of the declared type.
pub validate-is_event_structure :
    (e : Fields)
    → is_event_structure (object e) ≡ true
    → validate_event_structure (typed_event e) ≡ true
unfolding is_event_structure typed_event validate_event_structure
validate-is_event_structure e h =
    let (id, pubkey, sig) : (has_length 64 (get_field (text "id") e) ≡ true)
        × (has_length 64 (get_field (text "pubkey") e) ≡ true)
        × (has_length 128 (get_field (text "sig") e) ≡ true) =
      ground arith in
    ground (
      arith,
      has_length-read 64 (get_field (text "id") e) id,
      has_length-read 64 (get_field (text "pubkey") e) pubkey,
      has_length-read 128 (get_field (text "sig") e) sig,
    )
