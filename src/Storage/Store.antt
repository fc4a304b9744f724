-- ===== src/Storage/Store.antt =====
-- The deterministic consensus rules of the store: `apply` and its helpers (src/storage/store.ts).
-- `verify_event` is the check of id and signature of the package nostr-tools.
pub mod Ops
pub mod Sound
pub mod Effects
pub mod Deletions
pub mod Lasting
pub mod Authority
pub mod Writers
use nostr_swarm.Nostr.Event.{
  Verdict, is_thrown, is_genuine, NostrEvent, EventKind, classify_kind, has_name, tag_value, truthy,
  get_d_tag, get_expiration, is_protected, validate_event_structure, should_replace,
}
use nostr_swarm.Storage.Store.Ops.{crashed}
use nostr_swarm.Hyperbee.{Hyperbee, everything}
use nostr_swarm.Keys.{event_key, deletion_key, replaceable_key, addressable_key}
use nostr_swarm.Storage.Indexes.{
  IndexSubs, Tombstone, legacy, tombstone, kind_keys, author_keys, author_kind_keys,
  created_at_keys, tag_keys, expiration_keys, replaceable_keys, addressable_keys, put_all, del_all,
  del_pointers,
}
use Ops.{
  Bytes, consensus_version, max_writers, stored_emit_lru_max, Action, StoreOp, ApplyNode, State,
  Outcome, running, interrupted, to_hex, from_hex, is_writer_key,
}
use nostr_swarm.Base.{
  ltb, leb, ◌==◌, if◌then◌else◌, ltb→lt, lt→ltb, ltb_false→le, leb_false→lt, leb→le, le→leb, ==_iff,
  tests, Bool-cases, on_branches, Option-cases, some-eq, none-ne-some, length, get_elem?, take,
  drop, replicate, length-append, length-take-le, find, keep, any, all, In, In-append_left,
  In-append_right, In-append_cases, All, Text, text, eqb, eqb→eq, eqb_refl, eqb_iff, eqb_comm,
  text_lt, text_le, text_lt_irrefl, text_lt_trans, text_lt_total, text_lt_asymm, text_lt-append,
  text_le-append, starts_with, starts_with-append, includes, includes_text, includes_text→In,
  In→includes_text, ℤ, pos, negsuc, pos_part, neg_part, sub_ℕ, ltb_ℤ, leb_ℤ, eqb_ℤ, leb_ℤ-pos, ◌+ℤ◌,
  ◌-ℤ◌, to_u32, ℕ, zero, suc, ◌+◌, ◌-◌, ◌*◌, ◌/◌, ◌%◌, ◌^◌, ◌≤◌, ◌<◌, ◌≡◌, refl, sym, ap, ap₂, ◌∙◌,
  subst, ◌≡⟨◌⟩◌, ◌∎, ◌≢◌, ◌↔◌, ◌⊎◌, inl, inr, Bool, true, false, not, ◌&&◌, ◌||◌, Option, none,
  some, List, [], ◌∷◌, ◌++◌, map, append_assoc, append-nil, arith,
}

-- Removes the oldest entry past the bound.
abbrev pub bounded : List Text → List Text
bounded [] = []
bounded (oldest ∷ ids) =
    if ltb stored_emit_lru_max (length (oldest ∷ ids)) then ids else oldest ∷ ids

unfoldable pub without : Text → List Text → List Text
without id [] = []
without id (j ∷ ids) = let rest = without id ids in if eqb j id then rest else j ∷ rest

-- A tombstone blocks if it is a legacy one or its author is the event's.
unfoldable pub blocked : Option Tombstone → NostrEvent → Bool
blocked none event = false
blocked (some (legacy kind5)) event = true
blocked (some (tombstone kind5 pubkey)) event = eqb pubkey event.pubkey

abbrev pub is_stored : Option NostrEvent → Bool
is_stored none = false
is_stored (some e) = true

abbrev pub is_valid : (NostrEvent → Verdict) → NostrEvent → Bool
is_valid verify_event event = validate_event_structure event && is_genuine (verify_event event)

abbrev pub is_admitted : Option Text → Bool
is_admitted none = false
is_admitted (some added_by) = true

abbrev pub is_true : Option Bool → Bool
is_true none = false
is_true (some value) = value

abbrev pub is_newer : Option ℕ → Bool
is_newer none = false
is_newer (some v) = ltb consensus_version v

module _ (bee : Hyperbee) where
  unfoldable pub remove_indexes : IndexSubs bee → NostrEvent → IndexSubs bee
  unfolding put_all del_all del_pointers
  remove_indexes subs event = record subs {
    kind = del_all bee subs.kind (kind_keys event);
    author = del_all bee subs.author (author_keys event);
    author_kind = del_all bee subs.author_kind (author_kind_keys event);
    tag = del_all bee subs.tag (tag_keys event);
    created_at = del_all bee subs.created_at (created_at_keys event);
    replaceable = del_pointers bee subs.replaceable (replaceable_keys event) event.id;
    addressable = del_pointers bee subs.addressable (addressable_keys event) event.id;
    expiration = del_all bee subs.expiration (expiration_keys event);
  }

  -- The event and its entries in the indexes.
  unfoldable pub store_event : IndexSubs bee → NostrEvent → IndexSubs bee
  store_event subs event = record subs {
    events = bee.put subs.events (event_key event.id) event;
    kind = put_all bee subs.kind (kind_keys event) event.id;
    author = put_all bee subs.author (author_keys event) event.id;
    author_kind = put_all bee subs.author_kind (author_kind_keys event) event.id;
    tag = put_all bee subs.tag (tag_keys event) event.id;
    created_at = put_all bee subs.created_at (created_at_keys event) event.id;
    expiration = put_all bee subs.expiration (expiration_keys event) event.id;
  }

  unfoldable pub emit_stored : State bee → NostrEvent → State bee
  emit_stored s event =
      if includes_text s.emitted_stored_ids event.id
      then record s { emitted_stored_ids = without event.id s.emitted_stored_ids ++ event.id ∷ [] }
      else record s {
        emitted_stored_ids = bounded (s.emitted_stored_ids ++ event.id ∷ []);
        emissions = s.emissions ++ event ∷ [];
      }

  -- The stored event that a pointer references.
  abbrev pub deref : IndexSubs bee → Option Text → Option NostrEvent
  deref subs none = none
  deref subs (some id) = bee.get subs.events (event_key id)

  -- The indexes without those of the version that is replaced; `none` if it is not.
  abbrev pub supersede : IndexSubs bee → Option NostrEvent → NostrEvent → Option (IndexSubs bee)
  supersede subs none event = some subs
  supersede subs (some prev) event =
      if should_replace prev event then some (remove_indexes subs prev) else none

  abbrev pub point_replaceable : Text → Text → Option (IndexSubs bee) → Option (IndexSubs bee)
  point_replaceable key id none = none
  point_replaceable key id (some subs) =
      some (record subs { replaceable = bee.put subs.replaceable key id })

  abbrev pub point_addressable : Text → Text → Option (IndexSubs bee) → Option (IndexSubs bee)
  point_addressable key id none = none
  point_addressable key id (some subs) =
      some (record subs { addressable = bee.put subs.addressable key id })

  -- The view with room for an event of that kind; `none` if the event is not stored.
  unfoldable pub make_way : EventKind → IndexSubs bee → NostrEvent → Option (IndexSubs bee)
  make_way EventKind.regular subs event = some subs
  make_way EventKind.ephemeral subs event = none
  make_way EventKind.replaceable subs event =
      let r_key = replaceable_key event.pubkey event.kind in
      point_replaceable r_key event.id
        (supersede subs (deref subs (bee.get subs.replaceable r_key)) event)
  make_way EventKind.addressable subs event =
      let a_key = addressable_key event.pubkey event.kind (get_d_tag event) in
      point_addressable a_key event.id
        (supersede subs (deref subs (bee.get subs.addressable a_key)) event)

  abbrev pub finish_put : State bee → NostrEvent → Option (IndexSubs bee) → State bee
  finish_put s event none = s
  finish_put s event (some subs) = emit_stored (record s { view = store_event subs event }) event

  module _ (verify_event : NostrEvent → Verdict) where
    unfoldable pub apply_put : State bee → NostrEvent → State bee
    apply_put s event =
        if not (is_valid verify_event event)
        then s
        else if is_protected event
        then s
        else if is_stored (bee.get s.events (event_key event.id))
        then s
        else if blocked (bee.get s.deletion (deletion_key event.id)) event
        then s
        else finish_put s event (make_way (classify_kind event.kind) s.view event)

  -- The event and its indexes go.
  unfoldable pub drop_event : IndexSubs bee → NostrEvent → Text → IndexSubs bee
  drop_event subs event id =
      let rest = remove_indexes subs event in
      record rest { events = bee.del rest.events (event_key id) }

  -- Only the author can delete an event.
  abbrev pub delete_own : IndexSubs bee → Option NostrEvent → NostrEvent → Text → IndexSubs bee
  delete_own subs none deletion_event target_id = subs
  delete_own subs (some target) deletion_event target_id =
      if eqb target.pubkey deletion_event.pubkey then drop_event subs target target_id else subs

  abbrev pub delete_target : IndexSubs bee → NostrEvent → Option Text → IndexSubs bee
  delete_target subs deletion_event none = subs
  delete_target subs deletion_event (some target_id) =
      let subs' =
        delete_own subs (bee.get subs.events (event_key target_id)) deletion_event target_id in
      record subs' {
        deletion =
            bee.put subs'.deletion (deletion_key target_id)
              (tombstone deletion_event.id deletion_event.pubkey);
      }

  -- The loop over the `e` tags; a tag without a value is passed over.
  unfoldable pub delete_targets : IndexSubs bee → NostrEvent → List (List Text) → IndexSubs bee
  unfolding has_name
  delete_targets subs deletion_event [] = subs
  delete_targets subs deletion_event (tag ∷ tags) =
      delete_targets
        (if has_name (text "e") tag
          then delete_target subs deletion_event (truthy (tag_value (some tag)))
          else subs)
        deletion_event tags

  abbrev pub expire_one : IndexSubs bee → Text → Option NostrEvent → IndexSubs bee
  expire_one subs id none = subs
  expire_one subs id (some event) = elim (get_expiration event) [
    | none ↦ subs
    | some expiry ↦ drop_event subs event id
  ]

  unfoldable pub expire_all : IndexSubs bee → List Text → IndexSubs bee
  expire_all subs [] = subs
  expire_all subs (id ∷ ids) =
      expire_all (expire_one subs id (bee.get subs.events (event_key id))) ids

  abbrev pub prune_one : IndexSubs bee → Text → Option NostrEvent → IndexSubs bee
  prune_one subs id none = subs
  prune_one subs id (some event) = drop_event subs event id

  unfoldable pub prune_all : IndexSubs bee → List Text → IndexSubs bee
  prune_all subs [] = subs
  prune_all subs (id ∷ ids) = prune_all (prune_one subs id (bee.get subs.events (event_key id))) ids

  unfoldable pub count_writers : IndexSubs bee → ℕ
  count_writers subs = length (bee.read_stream subs.writers everything)

  -- `host_key` is the founder's writer key, the key of the base.
  module _ (host_key : Bytes) where
    unfoldable pub apply_add_writer : State bee → Text → Bytes → State bee
    unfolding count_writers
    apply_add_writer s key from =
        if not (is_writer_key key)
        then s
        else if eqb key (to_hex host_key)
        then s
        else if is_admitted (bee.get s.writers key)
        then s
        else if leb max_writers (count_writers s.view)
        then s
        else record s {
          added_writers = s.added_writers ++ from_hex key ∷ [];
          view = record s.view { writers = bee.put s.writers key (to_hex from) };
        }

    unfoldable pub apply_expiry_delete : State bee → List Text → Bytes → State bee
    apply_expiry_delete s ids from =
        if eqb from host_key then record s { view = expire_all s.view ids } else s

    unfoldable pub apply_prune_delete : State bee → List Text → Bytes → State bee
    apply_prune_delete s ids from =
        if eqb from host_key then record s { view = prune_all s.view ids } else s

    unfoldable pub apply_set_config : State bee → Text → Bool → Bytes → State bee
    apply_set_config s key value from =
        if eqb from host_key
        then record s { view = record s.view { config = bee.put s.config key value } }
        else s

    module _ (verify_event : NostrEvent → Verdict) where
      unfoldable pub apply_delete : State bee → NostrEvent → State bee
      apply_delete s deletion_event =
          if not (is_valid verify_event deletion_event)
          then s
          else apply_put verify_event
              (record s { view = delete_targets s.view deletion_event deletion_event.tags })
              deletion_event

      unfoldable pub apply_op : State bee → Action → Bytes → State bee
      apply_op s (Action.put event) from = apply_put verify_event s event
      apply_op s (Action.delete event) from = apply_delete s event
      apply_op s (Action.add_writer key) from = apply_add_writer s key from
      apply_op s (Action.expiry_delete ids) from = apply_expiry_delete s ids from
      apply_op s (Action.prune_delete ids) from = apply_prune_delete s ids from
      apply_op s (Action.set_config key value) from = apply_set_config s key value from

      unfoldable pub accept_optimistic : State bee → NostrEvent → Bytes → State bee
      accept_optimistic s event from =
          if not (is_true (bee.get s.config (text "accept_optimistic")))
          then s
          else if not (is_valid verify_event event)
          then s
          else if is_protected event
          then s
          else let s' = apply_put verify_event s event in
            record s' { acked_writers = s'.acked_writers ++ from ∷ [] }

      abbrev pub if_put : State bee → Action → Bytes → State bee
      if_put s (Action.put event) from = accept_optimistic s event from
      if_put s _ from = s

      -- Whether the check of the signature throws, where a block gets so far. In an operation of a
      -- writer the `catch` of `apply` turns that into no change, as of a forged event.
      abbrev pub put_throws : State bee → Action → Bool
      put_throws s (Action.put event) =
          is_true (bee.get s.config (text "accept_optimistic"))
          && validate_event_structure event
          && is_thrown (verify_event event)
      put_throws s _ = false

      abbrev pub optimistic_throws : State bee → StoreOp → Bool
      optimistic_throws s op = not (is_newer op.v) && put_throws s op.action

      -- A block of a peer that is no writer, where nothing throws.
      unfoldable pub apply_optimistic : State bee → StoreOp → Bytes → State bee
      apply_optimistic s op from = if is_newer op.v then s else if_put s op.action from

      abbrev pub apply_value : State bee → Option StoreOp → Bool → Bytes → Outcome bee
      apply_value s none optimistic from = running s
      apply_value s (some op) true from =
          if optimistic_throws s op then crashed s else running (apply_optimistic s op from)
      apply_value s (some op) false from =
          if is_newer op.v then interrupted s else running (apply_op s op.action from)

      unfoldable pub apply : List ApplyNode → State bee → Outcome bee
      apply [] s = running s
      apply (node ∷ nodes) s = elim (apply_value s node.value node.optimistic node.from_key) [
        | running s' ↦ apply nodes s'
        | interrupted s' ↦ interrupted s'
        | crashed s' ↦ crashed s'
      ]
