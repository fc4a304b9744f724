-- ===== src/Shim/Stats.antt =====
-- The engagement of events (src/primal-shim/stats.ts, with `EventStats` of src/primal-shim/synth.ts).
-- `JSON.parse` is the parameter `parse`, and `none` is what it throws; the amount in a zap request is a
-- text or a number.
pub mod Counts
use nostr_swarm.Shim.Lru.{LruCache, get_cached, set_cached}
use nostr_swarm.Util.Maps.{get_entry, set_entry, add_value}
use nostr_swarm.Nostr.Json.{Json, get_field, get_member, items, null, number, string, array, object}
use nostr_swarm.Nostr.Filter.{NostrFilter}
use nostr_swarm.Nostr.Event.{NostrEvent, has_name, tag_value, truthy}
use nostr_swarm.Base.Number.{parse_int}
use nostr_swarm.Base.{
  ltb, leb, ◌==◌, if◌then◌else◌, ltb→lt, lt→ltb, ltb_false→le, leb_false→lt, leb→le, le→leb, ==_iff,
  tests, Bool-cases, on_branches, Option-cases, some-eq, none-ne-some, length, get_elem?, take,
  drop, replicate, length-append, length-take-le, find, keep, any, all, In, In-append_left,
  In-append_right, In-append_cases, All, Text, text, eqb, eqb→eq, eqb_refl, eqb_iff, eqb_comm,
  text_lt, text_le, text_lt_irrefl, text_lt_trans, text_lt_total, text_lt_asymm, text_lt-append,
  text_le-append, starts_with, starts_with-append, includes, includes_text, includes_text→In,
  In→includes_text, ℤ, pos, negsuc, pos_part, neg_part, sub_ℕ, ltb_ℤ, leb_ℤ, eqb_ℤ, leb_ℤ-pos, ◌+ℤ◌,
  ◌-ℤ◌, to_u32, ℕ, zero, suc, ◌+◌, ◌-◌, ◌*◌, ◌/◌, ◌%◌, ◌^◌, ◌≤◌, ◌<◌, ◌≡◌, refl, sym, ap, ap₂, ◌∙◌,
  subst, ◌≡⟨◌⟩◌, ◌∎, ◌≢◌, ◌↔◌, ◌⊎◌, inl, inr, Bool, true, false, not, ◌&&◌, ◌||◌, Option, none,
  some, List, [], ◌∷◌, ◌++◌, map, append_assoc, append-nil, arith,
}

pub record EventStats : Type 0 where
  pub event_id : Text
  pub likes : ℕ
  pub replies : ℕ
  pub mentions : ℕ
  pub reposts : ℕ
  pub zaps : ℕ
  pub satszapped : ℕ
  pub score : ℕ
  pub score24h : ℕ
  pub bookmarks : ℕ

unfoldable pub empty_stats : Text → EventStats
empty_stats id = record {
  event_id = id;
  likes = 0;
  replies = 0;
  mentions = 0;
  reposts = 0;
  zaps = 0;
  satszapped = 0;
  score = 0;
  score24h = 0;
  bookmarks = 0;
}

-- `t[k]`; `none` is `undefined`.
abbrev element_at : ℕ → Text → Json → Option Json
element_at k key (array js) = get_elem? (items js) k
element_at k key (object fs) = get_field key fs
element_at k key _ = none

abbrev is_name : Text → Option Json → Bool
is_name name (some (string s)) = eqb s name
is_name name _ = false

-- The second element of the first tag of that name; a `null` among the tags ends the search, as an
-- error is thrown.
abbrev find_tag : Text → List Json → Option Json
find_tag name [] = none
find_tag name (null ∷ tags) = none
find_tag name (tag ∷ tags) =
    if is_name name (element_at 0 (text "0") tag)
    then element_at 1 (text "1") tag
    else find_tag name tags

abbrev to_integer : Option Json → Option ℤ
to_integer (some (string s)) = parse_int 10 s
to_integer (some (number z)) = some z
to_integer _ = none

-- Thousandths, rounded down; nothing for what is no number or is negative.
abbrev whole_sats : Option ℤ → ℕ
whole_sats (some (pos msats)) = msats / 1000
whole_sats _ = 0

abbrev amount_in : Option Json → ℕ
amount_in (some (array js)) = whole_sats (to_integer (find_tag (text "amount") (items js)))
amount_in _ = 0

abbrev full_key : Option Json → Option Text
full_key (some (string s)) = if length s == 64 then some s else none
full_key _ = none

-- The ids of the `e` tags that are 64 characters long.
unfoldable pub referenced_ids : List (List Text) → List Text
unfolding has_name
referenced_ids [] = []
referenced_ids ((name ∷ value ∷ rest) ∷ tags) =
    let ids = referenced_ids tags in
    if eqb name (text "e") && (length value == 64) then value ∷ ids else ids
referenced_ids (tag ∷ tags) = referenced_ids tags

-- `new Set(ids)`
unfoldable pub unique_from : List Text → List Text → List Text
unique_from seen [] = seen
unique_from seen (id ∷ ids) = unique_from (add_value seen id) ids

module _ (parse : Text → Option Json) where
  abbrev zap_request : Option Text → Option Json
  zap_request none = none
  zap_request (some description) = parse description

  abbrev description_of : NostrEvent → Option Text
  description_of receipt = truthy (tag_value (find (has_name (text "description")) receipt.tags))

  unfoldable pub zap_sender_pubkey : NostrEvent → Option Text
  unfolding has_name
  zap_sender_pubkey receipt =
      full_key (get_member (text "pubkey") (zap_request (description_of receipt)))

  unfoldable pub zap_amount_sats : NostrEvent → ℕ
  unfolding has_name
  zap_amount_sats receipt =
      amount_in (get_member (text "tags") (zap_request (description_of receipt)))

  abbrev pub scored : EventStats → EventStats
  scored e =
      let score = e.likes + e.reposts + 2 * e.replies + 2 * e.zaps in
      record e { score = score; score24h = score }

  -- One event in the stats of an id that it references.
  unfoldable pub count_in : NostrEvent → EventStats → EventStats
  unfolding zap_amount_sats
  count_in event e =
      if event.kind == 1
      then scored (record e { replies = e.replies + 1 })
      else if event.kind == 6
      then scored (record e { reposts = e.reposts + 1 })
      else if event.kind == 7
      then scored (record e { likes = e.likes + 1 })
      else if event.kind == 9735
      then scored
          (record e { zaps = e.zaps + 1; satszapped = e.satszapped + zap_amount_sats event })
      else scored e

  abbrev pub tally_one :
      NostrEvent → Text → Option EventStats → List (Text × EventStats) → List (Text × EventStats)
  tally_one event id none stats = stats
  tally_one event id (some e) stats = set_entry id (count_in event e) stats

  unfoldable pub tally_ids :
      NostrEvent → List Text → List (Text × EventStats) → List (Text × EventStats)
  tally_ids event [] stats = stats
  tally_ids event (id ∷ ids) stats =
      tally_ids event ids (tally_one event id (get_entry id stats) stats)

  unfoldable pub tally_interaction :
      NostrEvent → List (Text × EventStats) → List (Text × EventStats)
  unfolding tally_ids referenced_ids unique_from
  tally_interaction event stats = tally_ids event (unique_from [] (referenced_ids event.tags)) stats

  unfoldable pub tally_all : List NostrEvent → List (Text × EventStats) → List (Text × EventStats)
  unfolding tally_interaction
  tally_all [] stats = stats
  tally_all (event ∷ events) stats = tally_all events (tally_interaction event stats)
