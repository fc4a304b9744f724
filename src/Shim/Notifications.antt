-- ===== src/Shim/Notifications.antt =====
-- What an event means to a user (`classifyInteraction` of src/primal-shim/verbs/notifications.ts).
-- `JSON.parse` is the parameter `parse`. The ids of the user's own notes are a list.
pub mod About
use nostr_swarm.Shim.Stats.{zap_sender_pubkey, zap_amount_sats}
use nostr_swarm.Nostr.Json.{Json}
use nostr_swarm.Nostr.Event.{NostrEvent, truthy}
use nostr_swarm.Base.{
  ltb, leb, ◌==◌, if◌then◌else◌, ltb→lt, lt→ltb, ltb_false→le, leb_false→lt, leb→le, le→leb, ==_iff,
  tests, Bool-cases, on_branches, Option-cases, some-eq, none-ne-some, length, get_elem?, take,
  drop, replicate, length-append, length-take-le, find, keep, any, all, In, In-append_left,
  In-append_right, In-append_cases, All, Text, text, eqb, eqb→eq, eqb_refl, eqb_iff, eqb_comm,
  text_lt, text_le, text_lt_irrefl, text_lt_trans, text_lt_total, text_lt_asymm, text_lt-append,
  text_le-append, starts_with, starts_with-append, includes, includes_text, includes_text→In,
  In→includes_text, ℤ, pos, negsuc, pos_part, neg_part, sub_ℕ, ltb_ℤ, leb_ℤ, eqb_ℤ, leb_ℤ-pos, ◌+ℤ◌,
  ◌-ℤ◌, to_u32, ℕ, zero, suc, ◌+◌, ◌-◌, ◌*◌, ◌/◌, ◌%◌, ◌^◌, ◌≤◌, ◌<◌, ◌≡◌, refl, sym, ap, ap₂, ◌∙◌,
  subst, ◌≡⟨◌⟩◌, ◌∎, ◌≢◌, ◌↔◌, ◌⊎◌, inl, inr, Bool, true, false, not, ◌&&◌, ◌||◌, Option, none,
  some, List, [], ◌∷◌, ◌++◌, map, append_assoc, append-nil, arith,
}

-- `NOTIFICATION_TYPE`, and its numbers.
pub data NotificationType : Type 0 where
  your_post_was_zapped : NotificationType
  your_post_was_liked : NotificationType
  your_post_was_reposted : NotificationType
  your_post_was_replied_to : NotificationType
  you_were_mentioned : NotificationType

abbrev pub type_number : NotificationType → ℕ
type_number your_post_was_zapped = 3
type_number your_post_was_liked = 4
type_number your_post_was_reposted = 5
type_number your_post_was_replied_to = 6
type_number you_were_mentioned = 7

-- An argument of a notification.
pub data Arg : Type 0 where
  words : Text → Arg
  amount : ℕ → Arg

pub record Classified : Type 0 where
  pub type : NotificationType
  pub created_at : ℤ
  pub source_id : Text
  pub actor : Text
  pub args : List (Text × Arg)
  pub ref_ids : List Text
  pub ref_events : List NostrEvent

-- The value of the first `e` tag whose value is 64 characters long.
unfoldable pub first_e_tag : List (List Text) → Option Text
first_e_tag [] = none
first_e_tag ((name ∷ value ∷ rest) ∷ tags) =
    if eqb name (text "e") && (length value == 64) then some value else first_e_tag tags
first_e_tag (tag ∷ tags) = first_e_tag tags

-- The values of the `e` tags.
unfoldable pub e_values : List (List Text) → List Text
e_values [] = []
e_values ((name ∷ value ∷ rest) ∷ tags) =
    let values = e_values tags in if eqb name (text "e") then value ∷ values else values
e_values (tag ∷ tags) = e_values tags

-- A reply to the user's own note, or else a mention.
abbrev pub reply_or_mention : NostrEvent → Option Text → Classified
reply_or_mention event (some replied_to) = record {
  type = your_post_was_replied_to;
  created_at = event.created_at;
  source_id = event.id;
  actor = event.pubkey;
  args =
      (text "your_post", words replied_to)
      ∷ (text "who_replied_to_it", words event.pubkey)
      ∷ (text "reply", words event.id)
      ∷ [];
  ref_ids = replied_to ∷ [];
  ref_events = event ∷ [];
}
reply_or_mention event none = record {
  type = you_were_mentioned;
  created_at = event.created_at;
  source_id = event.id;
  actor = event.pubkey;
  args =
      (text "you_were_mentioned_in", words event.id)
      ∷ (text "you_were_mentioned_by", words event.pubkey)
      ∷ [];
  ref_ids = [];
  ref_events = event ∷ [];
}

-- A notification on the user's own note, if the event refers to one.
abbrev pub on_own : List Text → Option Text → (Text → Classified) → Option Classified
on_own own_ids none notify = none
on_own own_ids (some id) notify = if includes_text own_ids id then some (notify id) else none

abbrev pub reposted : NostrEvent → Text → Classified
reposted event id = record {
  type = your_post_was_reposted;
  created_at = event.created_at;
  source_id = event.id;
  actor = event.pubkey;
  args = (text "your_post", words id) ∷ (text "who_reposted_it", words event.pubkey) ∷ [];
  ref_ids = id ∷ [];
  ref_events = [];
}

abbrev pub liked : NostrEvent → Text → Classified
liked event id = record {
  type = your_post_was_liked;
  created_at = event.created_at;
  source_id = event.id;
  actor = event.pubkey;
  args =
      (text "your_post", words id)
      ∷ (text "who_liked_it", words event.pubkey)
      ∷ (text "reaction", words event.content)
      ∷ [];
  ref_ids = id ∷ [];
  ref_events = [];
}

module _ (parse : Text → Option Json) where
  abbrev pub zapped : NostrEvent → Text → Text → Classified
  zapped event sender id = record {
    type = your_post_was_zapped;
    created_at = event.created_at;
    source_id = event.id;
    actor = sender;
    args =
        (text "your_post", words id)
        ∷ (text "who_zapped_it", words sender)
        ∷ (text "satszapped", amount (zap_amount_sats parse event))
        ∷ [];
    ref_ids = id ∷ [];
    ref_events = [];
  }

  -- A zap, by whoever asked for it.
  abbrev pub classify_zap : NostrEvent → Text → List Text → Option Text → Option Classified
  classify_zap event pubkey own_ids none = none
  classify_zap event pubkey own_ids (some sender) =
      if eqb sender pubkey
      then none
      else on_own own_ids (first_e_tag event.tags) (zapped event sender)

  unfoldable pub classify_interaction : NostrEvent → Text → List Text → Option Classified
  unfolding first_e_tag e_values
  classify_interaction event pubkey own_ids =
      if event.kind == 1
      then (if eqb event.pubkey pubkey
          then none
          else some (
              reply_or_mention event (truthy (find (includes_text own_ids) (e_values event.tags)))))
      else if event.kind == 6
      then (if eqb event.pubkey pubkey
          then none
          else on_own own_ids (first_e_tag event.tags) (reposted event))
      else if event.kind == 7
      then (if eqb event.pubkey pubkey
          then none
          else on_own own_ids (first_e_tag event.tags) (liked event))
      else if event.kind == 9735
      then classify_zap event pubkey own_ids (zap_sender_pubkey parse event)
      else none

  -- The notifications among the interactions, in their order.
  abbrev pub push_some : Option Classified → List Classified → List Classified
  push_some none rest = rest
  push_some (some notification) rest = notification ∷ rest

  unfoldable pub classify_all : List NostrEvent → Text → List Text → List Classified
  unfolding classify_interaction
  classify_all [] pubkey own_ids = []
  classify_all (event ∷ events) pubkey own_ids =
      push_some (classify_interaction event pubkey own_ids) (classify_all events pubkey own_ids)
