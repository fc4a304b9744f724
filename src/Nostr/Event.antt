-- ===== src/Nostr/Event.antt =====
-- Events (src/util/types.ts) and what the relay reads from them (src/nostr/events.ts).
-- An event is modelled after it is decoded, with the field types of `NostrEvent`.
pub mod Replace
pub mod Kinds
pub mod Structure
use nostr_swarm.Base.Number.{parse_int}
use nostr_swarm.Base.{
  ltb, leb, ◌==◌, if◌then◌else◌, ltb→lt, lt→ltb, ltb_false→le, leb_false→lt, leb→le, le→leb, ==_iff,
  tests, Bool-cases, on_branches, Option-cases, some-eq, none-ne-some, length, get_elem?, take,
  drop, replicate, length-append, length-take-le, find, keep, any, all, In, In-append_left,
  In-append_right, In-append_cases, All, Text, text, eqb, eqb→eq, eqb_refl, eqb_iff, eqb_comm,
  text_lt, text_le, text_lt_irrefl, text_lt_trans, text_lt_total, text_lt_asymm, text_lt-append,
  text_le-append, starts_with, starts_with-append, includes, includes_text, includes_text→In,
  In→includes_text, ℤ, pos, negsuc, pos_part, neg_part, sub_ℕ, ltb_ℤ, leb_ℤ, eqb_ℤ, leb_ℤ-pos, ◌+ℤ◌,
  ◌-ℤ◌, to_u32, ℕ, zero, suc, ◌+◌, ◌-◌, ◌*◌, ◌/◌, ◌%◌, ◌^◌, ◌≤◌, ◌<◌, ◌≡◌, refl, sym, ap, ap₂, ◌∙◌,
  subst, ◌≡⟨◌⟩◌, ◌∎, ◌≢◌, ◌↔◌, ◌⊎◌, inl, inr, Bool, true, false, not, ◌&&◌, ◌||◌, Option, none,
  some, List, [], ◌∷◌, ◌++◌, map, append_assoc, append-nil, arith,
}

pub record NostrEvent : Type 0 where
  pub id : Text
  pub pubkey : Text
  pub created_at : ℤ
  pub kind : ℕ
  pub tags : List (List Text)
  pub content : Text
  pub sig : Text

pub data EventKind : Type 0 where
  regular replaceable ephemeral addressable : EventKind

unfoldable pub classify_kind : ℕ → EventKind
classify_kind kind =
    if (kind == 0) || (kind == 3) || (leb 10000 kind && ltb kind 20000)
    then EventKind.replaceable
    else if leb 20000 kind && ltb kind 30000
    then EventKind.ephemeral
    else if leb 30000 kind && ltb kind 40000
    then EventKind.addressable
    else EventKind.regular

unfoldable pub is_deletion : ℕ → Bool
is_deletion kind = kind == 5

-- What `verifyEvent` of nostr-tools gives: a Boolean, or an error that it throws.
pub data Verdict : Type 0 where
  genuine : Verdict
  bogus : Verdict
  thrown : Verdict

abbrev pub is_genuine : Verdict → Bool
is_genuine genuine = true
is_genuine _ = false

abbrev pub is_thrown : Verdict → Bool
is_thrown thrown = true
is_thrown _ = false

-- `t[0] === name`
unfoldable pub has_name : Text → List Text → Bool
has_name name [] = false
has_name name (n ∷ rest) = eqb n name

-- `tag?.[1]`
abbrev pub tag_value : Option (List Text) → Option Text
tag_value none = none
tag_value (some tag) = get_elem? tag 1

-- A missing and an empty text are both falsy.
abbrev pub truthy : Option Text → Option Text
truthy none = none
truthy (some []) = none
truthy (some (c ∷ s)) = some (c ∷ s)

abbrev pub or_empty : Option Text → Text
or_empty none = []
or_empty (some s) = s

unfoldable pub get_d_tag : NostrEvent → Text
unfolding has_name
get_d_tag event = or_empty (tag_value (find (has_name (text "d")) event.tags))

-- What `parseInt` makes of the tag; `none` is `null`.
abbrev pub parse_expiration : Option Text → Option ℤ
parse_expiration none = none
parse_expiration (some s) = parse_int 10 s

unfoldable pub get_expiration : NostrEvent → Option ℤ
unfolding has_name
get_expiration event =
    parse_expiration (truthy (tag_value (find (has_name (text "expiration")) event.tags)))

abbrev pub passed : ℤ → Option ℤ → Bool
passed now none = false
passed now (some exp) = leb_ℤ exp now

-- `now` is `Math.floor(Date.now() / 1000)`.
unfoldable pub is_expired : ℤ → NostrEvent → Bool
is_expired now event = passed now (get_expiration event)

unfoldable pub is_protected : NostrEvent → Bool
unfolding has_name
is_protected event = any (has_name (text "-")) event.tags

-- The name and the value of a tag that is indexed: one letter, and a value that is not empty.
unfoldable pub indexable : List Text → Option (Text × Text)
indexable ((c ∷ []) ∷ (d ∷ value) ∷ rest) = some (c ∷ [], d ∷ value)
indexable _ = none

abbrev pub push : Option (Text × Text) → List (Text × Text) → List (Text × Text)
push none tags = tags
push (some tag) tags = tag ∷ tags

unfoldable pub indexable_tags : List (List Text) → List (Text × Text)
unfolding indexable
indexable_tags [] = []
indexable_tags (tag ∷ tags) = push (indexable tag) (indexable_tags tags)

unfoldable pub get_indexable_tags : NostrEvent → List (Text × Text)
unfolding indexable_tags
get_indexable_tags event = indexable_tags event.tags

-- The lengths; the types of the fields are those of `NostrEvent`.
unfoldable pub validate_event_structure : NostrEvent → Bool
validate_event_structure e = (length e.id == 64) && (length e.pubkey == 64) && (length e.sig == 128)

unfoldable pub should_replace : NostrEvent → NostrEvent → Bool
should_replace existing incoming =
    ltb_ℤ existing.created_at incoming.created_at
    || (eqb_ℤ incoming.created_at existing.created_at && text_lt incoming.id existing.id)
