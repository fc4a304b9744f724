-- ===== src/Keys.antt =====
-- The composite keys of the index (src/util/keys.ts). The proofs are in the modules below.
pub mod Fixed
pub mod Order
pub mod Ranges
pub mod Roundtrip
use nostr_swarm.Hyperbee.{Range}
use nostr_swarm.Base.Number.{to_string16, pad_start, parse_int}
use nostr_swarm.Base.{
  ltb, leb, ◌==◌, if◌then◌else◌, ltb→lt, lt→ltb, ltb_false→le, leb_false→lt, leb→le, le→leb, ==_iff,
  tests, Bool-cases, Option-cases, length, get_elem?, take, drop, replicate, length-append,
  length-take-le, find, keep, any, all, In, In-append_left, In-append_right, In-append_cases, All,
  Text, text, eqb, eqb→eq, eqb_refl, eqb_iff, eqb_comm, text_lt, text_le, text_lt_irrefl,
  text_lt_trans, text_lt_total, text_lt_asymm, text_lt-append, text_le-append, starts_with,
  starts_with-append, includes, ℤ, pos, negsuc, pos_part, neg_part, sub_ℕ, ltb_ℤ, leb_ℤ, eqb_ℤ,
  ◌+ℤ◌, ◌-ℤ◌, to_u32, ℕ, zero, suc, ◌+◌, ◌-◌, ◌*◌, ◌/◌, ◌%◌, ◌^◌, ◌≤◌, ◌<◌, ◌≡◌, refl, sym, ap, ap₂,
  ◌∙◌, subst, ◌≡⟨◌⟩◌, ◌∎, ◌≢◌, ◌↔◌, ◌⊎◌, inl, inr, Bool, true, false, not, ◌&&◌, ◌||◌, Option, none,
  some, List, [], ◌∷◌, ◌++◌, map, append_assoc, append-nil, arith,
}

-- The code of `!`.
abbrev pub separator : ℕ
separator = 33

-- The code of `~`.
abbrev pub tilde : ℕ
tilde = 126

abbrev pub max_u32 : ℕ
max_u32 = 0xffffffff

unfoldable pub hex8 : ℕ → Text
unfolding to_string16 pad_start
hex8 n = pad_start 8 48 (to_string16 n)

unfoldable pub invert_timestamp : ℤ → Text
invert_timestamp ts = let inverted = to_u32 (pos max_u32 -ℤ ts) in hex8 inverted

unfoldable pub recover_timestamp : Text → ℕ
recover_timestamp hex = elim (parse_int 16 hex) [
  | none ↦ 0
  | some inverted ↦ to_u32 (pos max_u32 -ℤ inverted)
]

unfoldable pub encode_kind : ℕ → Text
encode_kind kind = hex8 (to_u32 (pos kind))

unfoldable pub decode_kind : Text → Option ℤ
decode_kind hex = parse_int 16 hex

abbrev pub join_key : List Text → Text
join_key [] = []
join_key (p ∷ []) = p
join_key (p ∷ q ∷ parts) = p ++ separator ∷ join_key (q ∷ parts)

-- Puts a character in front of the first part.
abbrev pub push_first : ℕ → List Text → List Text
push_first c [] = (c ∷ []) ∷ []
push_first c (p ∷ parts) = (c ∷ p) ∷ parts

-- `key.split('!')`.
unfoldable pub split_key : Text → List Text
split_key [] = [] ∷ []
split_key (c ∷ key) =
    let parts = split_key key in if c == separator then [] ∷ parts else push_first c parts

abbrev pub event_key : Text → Text
event_key event_id = event_id

unfoldable pub kind_key : ℕ → ℤ → Text → Text
kind_key kind created_at event_id =
    join_key (encode_kind kind ∷ invert_timestamp created_at ∷ event_id ∷ [])

unfoldable pub author_key : Text → ℤ → Text → Text
author_key pubkey created_at event_id =
    join_key (pubkey ∷ invert_timestamp created_at ∷ event_id ∷ [])

unfoldable pub author_kind_key : Text → ℕ → ℤ → Text → Text
author_kind_key pubkey kind created_at event_id =
    join_key (pubkey ∷ encode_kind kind ∷ invert_timestamp created_at ∷ event_id ∷ [])

unfoldable pub tag_key : Text → Text → ℤ → Text → Text
tag_key tag_name tag_value created_at event_id =
    join_key (tag_name ∷ tag_value ∷ invert_timestamp created_at ∷ event_id ∷ [])

unfoldable pub created_at_key : ℤ → Text → Text
created_at_key created_at event_id = join_key (invert_timestamp created_at ∷ event_id ∷ [])

unfoldable pub replaceable_key : Text → ℕ → Text
replaceable_key pubkey kind = join_key (pubkey ∷ encode_kind kind ∷ [])

unfoldable pub addressable_key : Text → ℕ → Text → Text
addressable_key pubkey kind d_tag = join_key (pubkey ∷ encode_kind kind ∷ d_tag ∷ [])

unfoldable pub expiration_key : ℤ → Text → Text
expiration_key expiry event_id = join_key (invert_timestamp (pos max_u32 -ℤ expiry) ∷ event_id ∷ [])

abbrev pub deletion_key : Text → Text
deletion_key deleted_event_id = deleted_event_id

unfoldable pub prefix_range : Text → Range
prefix_range prefix = record {
  gte = some (prefix ++ separator ∷ []);
  lt = some (prefix ++ tilde ∷ []);
  lte = none;
}

-- The lower bound of a window: `until` is its newest timestamp.
abbrev pub lower_bound : Text → Option ℤ → Option Text
lower_bound prefix none = some (prefix ++ separator ∷ [])
lower_bound prefix (some until) = some (prefix ++ separator ∷ invert_timestamp until)

-- The upper bounds of a window, exclusive and inclusive: `since` is its oldest timestamp.
abbrev pub upper_lt : Text → Option ℤ → Option Text
upper_lt prefix none = some (prefix ++ tilde ∷ [])
upper_lt prefix (some since) = none

abbrev pub upper_lte : Text → Option ℤ → Option Text
upper_lte prefix none = none
upper_lte prefix (some since) = some (prefix ++ separator ∷ (invert_timestamp since ++ tilde ∷ []))

unfoldable pub time_range : Text → Option ℤ → Option ℤ → Range
time_range prefix since until = record {
  gte = lower_bound prefix until;
  lt = upper_lt prefix since;
  lte = upper_lte prefix since;
}
