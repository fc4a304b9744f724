-- ===== src/Storage/Indexes.antt =====
-- The sub-databases of the view (src/storage/indexes.ts), and the loops that write and delete index
-- entries of one event.
pub mod Tracks
use nostr_swarm.Hyperbee.{Hyperbee}
use nostr_swarm.Keys.{
  kind_key, author_key, author_kind_key, tag_key, created_at_key, replaceable_key, addressable_key,
  expiration_key,
}
use nostr_swarm.Nostr.Event.{
  NostrEvent, EventKind, classify_kind, get_d_tag, get_expiration, get_indexable_tags,
}
use nostr_swarm.Base.{
  ltb, leb, ◌==◌, if◌then◌else◌, ltb→lt, lt→ltb, ltb_false→le, leb_false→lt, leb→le, le→leb, ==_iff,
  tests, Bool-cases, Option-cases, length, get_elem?, take, drop, replicate, length-append,
  length-take-le, find, keep, any, all, In, In-append_left, In-append_right, In-append_cases, All,
  Text, text, eqb, eqb→eq, eqb_refl, eqb_iff, eqb_comm, text_lt, text_le, text_lt_irrefl,
  text_lt_trans, text_lt_total, text_lt_asymm, text_lt-append, text_le-append, starts_with,
  starts_with-append, includes, includes_text, includes_text→In, In→includes_text, ℤ, pos, negsuc,
  pos_part, neg_part, sub_ℕ, ltb_ℤ, leb_ℤ, eqb_ℤ, leb_ℤ-pos, ◌+ℤ◌, ◌-ℤ◌, to_u32, ℕ, zero, suc, ◌+◌,
  ◌-◌, ◌*◌, ◌/◌, ◌%◌, ◌^◌, ◌≤◌, ◌<◌, ◌≡◌, refl, sym, ap, ap₂, ◌∙◌, subst, ◌≡⟨◌⟩◌, ◌∎, ◌≢◌, ◌↔◌, ◌⊎◌,
  inl, inr, Bool, true, false, not, ◌&&◌, ◌||◌, Option, none, some, List, [], ◌∷◌, ◌++◌, map,
  append_assoc, append-nil, arith,
}

-- A record of the deletion sub: a legacy plain text, or the id and the pubkey of the deleter.
pub data Tombstone : Type 0 where
  legacy : Text → Tombstone
  tombstone : Text → Text → Tombstone

pub record IndexSubs (bee : Hyperbee) : Type 0 where
  pub events : bee.Sub NostrEvent
  pub kind : bee.Sub Text
  pub author : bee.Sub Text
  pub author_kind : bee.Sub Text
  pub tag : bee.Sub Text
  pub created_at : bee.Sub Text
  pub replaceable : bee.Sub Text
  pub addressable : bee.Sub Text
  pub expiration : bee.Sub Text
  pub deletion : bee.Sub Tombstone
  pub writers : bee.Sub Text
  pub config : bee.Sub Bool

unfoldable pub create_subs : (bee : Hyperbee) → IndexSubs bee
create_subs bee = record {
  events = bee.empty;
  kind = bee.empty;
  author = bee.empty;
  author_kind = bee.empty;
  tag = bee.empty;
  created_at = bee.empty;
  replaceable = bee.empty;
  addressable = bee.empty;
  expiration = bee.empty;
  deletion = bee.empty;
  writers = bee.empty;
  config = bee.empty;
}

-- The keys under which an event stands in each index.
abbrev pub kind_keys : NostrEvent → List Text
kind_keys e = kind_key e.kind e.created_at e.id ∷ []

abbrev pub author_keys : NostrEvent → List Text
author_keys e = author_key e.pubkey e.created_at e.id ∷ []

abbrev pub author_kind_keys : NostrEvent → List Text
author_kind_keys e = author_kind_key e.pubkey e.kind e.created_at e.id ∷ []

abbrev pub created_at_keys : NostrEvent → List Text
created_at_keys e = created_at_key e.created_at e.id ∷ []

unfoldable pub tag_keys : NostrEvent → List Text
tag_keys e = map (λ t. tag_key t.0 t.1 e.created_at e.id) (get_indexable_tags e)

abbrev pub expiry_keys : Option ℤ → Text → List Text
expiry_keys none id = []
expiry_keys (some expiry) id = expiration_key expiry id ∷ []

unfoldable pub expiration_keys : NostrEvent → List Text
expiration_keys e = expiry_keys (get_expiration e) e.id

abbrev pub if_replaceable : EventKind → Text → List Text
if_replaceable EventKind.replaceable key = key ∷ []
if_replaceable _ key = []

abbrev pub if_addressable : EventKind → Text → List Text
if_addressable EventKind.addressable key = key ∷ []
if_addressable _ key = []

-- The pointer that an event may hold: of its author and kind, or of these and its `d` tag.
unfoldable pub replaceable_keys : NostrEvent → List Text
replaceable_keys e = if_replaceable (classify_kind e.kind) (replaceable_key e.pubkey e.kind)

unfoldable pub addressable_keys : NostrEvent → List Text
addressable_keys e =
    if_addressable (classify_kind e.kind) (addressable_key e.pubkey e.kind (get_d_tag e))

module _ (bee : Hyperbee) where
  -- `for (...) await sub.put(key, id)`
  unfoldable pub put_all : bee.Sub Text → List Text → Text → bee.Sub Text
  put_all sub [] id = sub
  put_all sub (k ∷ ks) id = put_all (bee.put sub k id) ks id

  -- `for (...) await sub.del(key)`
  unfoldable pub del_all : bee.Sub Text → List Text → bee.Sub Text
  del_all sub [] = sub
  del_all sub (k ∷ ks) = del_all (bee.del sub k) ks

  -- Deletes a pointer if it still references the id.
  abbrev pub del_if_value : bee.Sub Text → Text → Text → Option Text → bee.Sub Text
  del_if_value sub key id none = sub
  del_if_value sub key id (some value) = if eqb value id then bee.del sub key else sub

  unfoldable pub del_pointers : bee.Sub Text → List Text → Text → bee.Sub Text
  del_pointers sub [] id = sub
  del_pointers sub (k ∷ ks) id = del_pointers (del_if_value sub k id (bee.get sub k)) ks id
