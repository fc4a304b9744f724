-- ===== src/Storage/Client.antt =====
-- The methods of the store that append operations and read the view (src/storage/store.ts), apart
-- from `apply`. What they append stands in `sent`, each operation with its `optimistic` flag.
pub mod Admit
use nostr_swarm.Storage.Store.{count_writers, is_true, is_admitted}
use nostr_swarm.Storage.Store.Ops.{
  max_writers, consensus_version, StoreOp, is_writer_key, Action, to_hex, Bytes,
}
use nostr_swarm.Keys.{tilde, hex8}
use nostr_swarm.Nostr.Event.{NostrEvent}
use nostr_swarm.Storage.Indexes.{IndexSubs}
use nostr_swarm.Hyperbee.{everything, Hyperbee}
use nostr_swarm.Base.{
  ltb, leb, ◌==◌, if◌then◌else◌, ltb→lt, lt→ltb, ltb_false→le, leb_false→lt, leb→le, le→leb, ==_iff,
  tests, Bool-cases, Option-cases, some-eq, none-ne-some, length, get_elem?, take, drop, replicate,
  length-append, length-take-le, find, keep, any, all, In, In-append_left, In-append_right,
  In-append_cases, All, Text, text, eqb, eqb→eq, eqb_refl, eqb_iff, eqb_comm, text_lt, text_le,
  text_lt_irrefl, text_lt_trans, text_lt_total, text_lt_asymm, text_lt-append, text_le-append,
  starts_with, starts_with-append, includes, includes_text, includes_text→In, In→includes_text, ℤ,
  pos, negsuc, pos_part, neg_part, sub_ℕ, ltb_ℤ, leb_ℤ, eqb_ℤ, leb_ℤ-pos, ◌+ℤ◌, ◌-ℤ◌, to_u32, ℕ,
  zero, suc, ◌+◌, ◌-◌, ◌*◌, ◌/◌, ◌%◌, ◌^◌, ◌≤◌, ◌<◌, ◌≡◌, refl, sym, ap, ap₂, ◌∙◌, subst, ◌≡⟨◌⟩◌,
  ◌∎, ◌≢◌, ◌↔◌, ◌⊎◌, inl, inr, Bool, true, false, not, ◌&&◌, ◌||◌, Option, none, some, List, [],
  ◌∷◌, ◌++◌, map, append_assoc, append-nil, arith,
}

pub record Client (bee : Hyperbee) : Type 0 where
  pub base_key : Option Bytes
  pub local_key : Bytes
  pub writable : Bool
  pub indexes : IndexSubs bee
  pub sent : List (StoreOp × Bool)

-- What `admitWriter` returns, or throws: the last two.
pub data Admission : Type 0 where
  appended : Admission
  already_admitted : Admission
  cap_reached : Admission
  not_writable : Admission
  invalid_writer_key : Admission

-- Whether the key is the base's own, in hexadecimal digits.
abbrev pub is_base_key : Option Bytes → Text → Bool
is_base_key none key = false
is_base_key (some base_key) key = eqb key (to_hex base_key)

abbrev pub is_local : Option Bytes → Bytes → Bool
is_local none local_key = false
is_local (some base_key) local_key = eqb base_key local_key

module _ (bee : Hyperbee) where
  unfoldable pub append_op : Client bee → Action → Option ℕ → Bool → Client bee
  append_op s action v optimistic = record s {
    sent = s.sent ++ (record { action = action; v = v }, optimistic) ∷ [];
  }

  unfoldable pub is_founder : Client bee → Bool
  is_founder s = is_local s.base_key s.local_key

  unfoldable pub put_event : Client bee → NostrEvent → Client bee
  unfolding append_op
  put_event s event =
      if s.writable
      then append_op s (Action.put event) none false
      else append_op s (Action.put event) (some consensus_version) true

  unfoldable pub get_config : Client bee → Text → Bool
  get_config s key = is_true (bee.get s.indexes.config key)

  unfoldable pub accepts_optimistic : Client bee → Bool
  unfolding get_config
  accepts_optimistic s = get_config s (text "accept_optimistic")

  unfoldable pub delete_event : Client bee → NostrEvent → Client bee
  unfolding append_op
  delete_event s deletion_event = append_op s (Action.delete deletion_event) none false

  unfoldable pub list_writers : Client bee → List Text
  list_writers s = map (λ entry. entry.0) (bee.read_stream s.indexes.writers everything)

  -- The loop over the stream: it ends once there are as many ids as the limit.
  unfoldable pub collect_ids : ℕ → List (Text × Text) → List Text → List Text
  collect_ids limit [] ids = ids
  collect_ids limit ((key, id) ∷ entries) ids =
      let more = collect_ids limit entries (ids ++ id ∷ []) in
      if leb limit (length (ids ++ id ∷ [])) then ids ++ id ∷ [] else more

  unfoldable pub list_expired : Client bee → ℤ → ℕ → List Text
  list_expired s now limit =
      collect_ids limit
        (bee.read_stream s.indexes.expiration
          (record { gte = none; lt = none; lte = some (hex8 (to_u32 now) ++ tilde ∷ []) }))
        []

  unfoldable pub expire_events : Client bee → List Text → Client bee
  expire_events s [] = s
  expire_events s (id ∷ ids) =
      append_op s (Action.expiry_delete (id ∷ ids)) (some consensus_version) false

  unfoldable pub prune_events : Client bee → List Text → Client bee
  prune_events s [] = s
  prune_events s (id ∷ ids) =
      append_op s (Action.prune_delete (id ∷ ids)) (some consensus_version) false

  unfoldable pub set_config : Client bee → Text → Bool → Client bee
  set_config s key value = append_op s (Action.set_config key value) (some consensus_version) false

  module _ (to_lower_case : Text → Text) where
    unfoldable pub admit_writer : Client bee → Text → Client bee × Admission
    unfolding append_op
    admit_writer s key_hex =
        let key = to_lower_case key_hex in
        if not s.writable
        then (s, not_writable)
        else if not (is_writer_key key)
        then (s, invalid_writer_key)
        else if is_base_key s.base_key key
        then (s, already_admitted)
        else if is_admitted (bee.get s.indexes.writers key)
        then (s, already_admitted)
        else if leb max_writers (count_writers bee s.indexes)
        then (s, cap_reached)
        else (append_op s (Action.add_writer key) none false, appended)

    unfoldable pub is_admitted_writer : Client bee → Text → Bool
    is_admitted_writer s key_hex =
        let key = to_lower_case key_hex in
        if not (is_writer_key key)
        then false
        else if is_base_key s.base_key key
        then true
        else is_admitted (bee.get s.indexes.writers key)
