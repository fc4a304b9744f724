-- ===== src/Storage/Store/Sound.antt =====
-- The indexes are sound: an invariant of `apply` (src/storage/store.ts). Every stored event is valid
-- and stands under its id, and every index entry and pointer references a stored event that has the
-- entry's key.
pub mod Puts
pub mod Ops
use nostr_swarm.Nostr.Event.{
  Verdict, NostrEvent, EventKind, classify_kind, has_name, tag_value, truthy, get_d_tag,
  get_expiration, is_protected, should_replace,
}
use nostr_swarm.Hyperbee.{Hyperbee}
use nostr_swarm.Keys.{replaceable_key, addressable_key}
use nostr_swarm.Storage.Indexes.{
  IndexSubs, kind_keys, author_keys, author_kind_keys, created_at_keys, tag_keys, expiration_keys,
  replaceable_keys, addressable_keys, if_replaceable, if_addressable, put_all, del_all,
  del_pointers, create_subs,
}
use nostr_swarm.Storage.Indexes.Tracks.{
  Tracks, Tracks-put_all, Tracks-del_all, Tracks-remove, Tracks-del_pointers,
  Tracks-remove_pointers,
}
use nostr_swarm.Storage.Store.Ops.{
  Bytes, Action, StoreOp, ApplyNode, State, Outcome, running, interrupted,
}
use nostr_swarm.Storage.Store.{
  is_valid, remove_indexes, store_event, drop_event, make_way, supersede, deref, finish_put,
  emit_stored, apply_put, delete_targets, delete_target, delete_own, expire_all, expire_one,
  prune_all, prune_one, apply_add_writer, apply_expiry_delete, apply_prune_delete, apply_set_config,
  apply_delete, apply_op, accept_optimistic, apply_optimistic, apply_value, apply,
}
use nostr_swarm.Base.{
  ltb, leb, ◌==◌, if◌then◌else◌, ltb→lt, lt→ltb, ltb_false→le, leb_false→lt, leb→le, le→leb, ==_iff,
  tests, Bool-cases, on_branches, Option-cases, some-eq, none-ne-some, length, get_elem?, take,
  drop, replicate, length-append, length-take-le, find, keep, any, all, In, In-append_left,
  In-append_right, In-append_cases, All, Text, text, eqb, eqb→eq, eqb_refl, eqb_iff, eqb_comm,
  text_lt, text_le, text_lt_irrefl, text_lt_trans, text_lt_total, text_lt_asymm, text_lt-append,
  text_le-append, starts_with, starts_with-append, includes, includes_text, includes_text→In,
  In→includes_text, ℤ, pos, negsuc, pos_part, neg_part, sub_ℕ, ltb_ℤ, leb_ℤ, eqb_ℤ, leb_ℤ-pos, ◌+ℤ◌,
  ◌-ℤ◌, to_u32, ℕ, zero, suc, ◌+◌, ◌-◌, ◌*◌, ◌/◌, ◌%◌, ◌^◌, ◌≤◌, ◌<◌, ◌≡◌, refl, sym, ap, ap₂, ◌∙◌,
  subst, ◌≡⟨◌⟩◌, ◌∎, ◌≢◌, ◌↔◌, ◌⊎◌, inl, inr, Bool, true, false, not, ◌&&◌, ◌||◌, Option, none,
  some, List, [], ◌∷◌, ◌++◌, map, append_assoc, append-nil, arith,
}

module _ (bee : Hyperbee) (verify_event : NostrEvent → Verdict) where
  -- What `apply` has checked of an event that it stores under a key.
  pub record Kept (k : Text) (e : NostrEvent) : Type 0 where
    pub own_id : e.id ≡ k
    pub valid : is_valid verify_event e ≡ true
    pub unprotected : is_protected e ≡ false
    pub durable : classify_kind e.kind ≢ EventKind.ephemeral

  pub record IsSound (subs : IndexSubs bee) : Type 0 where
    pub stored : (k : Text) (e : NostrEvent) → bee.get subs.events k ≡ some e → Kept k e
    pub kind : Tracks bee kind_keys subs.kind subs.events
    pub author : Tracks bee author_keys subs.author subs.events
    pub author_kind : Tracks bee author_kind_keys subs.author_kind subs.events
    pub created_at : Tracks bee created_at_keys subs.created_at subs.events
    pub tag : Tracks bee tag_keys subs.tag subs.events
    pub expiration : Tracks bee expiration_keys subs.expiration subs.events
    pub replaceable : Tracks bee replaceable_keys subs.replaceable subs.events
    pub addressable : Tracks bee addressable_keys subs.addressable subs.events

  pub remove_indexes-IsSound :
      (subs : IndexSubs bee) (e : NostrEvent) → IsSound subs → IsSound (remove_indexes bee subs e)
  unfolding remove_indexes
  remove_indexes-IsSound subs e s = record {
    stored = s.stored;
    kind = Tracks-del_all bee kind_keys subs.kind subs.events (kind_keys e) s.kind;
    author = Tracks-del_all bee author_keys subs.author subs.events (author_keys e) s.author;
    author_kind =
        Tracks-del_all bee author_kind_keys subs.author_kind subs.events (author_kind_keys e)
          s.author_kind;
    created_at =
        Tracks-del_all bee created_at_keys subs.created_at subs.events (created_at_keys e)
          s.created_at;
    tag = Tracks-del_all bee tag_keys subs.tag subs.events (tag_keys e) s.tag;
    expiration =
        Tracks-del_all bee expiration_keys subs.expiration subs.events (expiration_keys e)
          s.expiration;
    replaceable =
        Tracks-del_pointers bee replaceable_keys subs.replaceable subs.events (replaceable_keys e)
          e.id s.replaceable;
    addressable =
        Tracks-del_pointers bee addressable_keys subs.addressable subs.events (addressable_keys e)
          e.id s.addressable;
  }

  drop_own-IsSound :
      (subs : IndexSubs bee) (e : NostrEvent)
      → bee.get subs.events e.id ≡ some e
      → IsSound subs
      → IsSound (drop_event bee subs e e.id)
  unfolding drop_event remove_indexes
  drop_own-IsSound subs e there s = record {
    stored = λ k f h. s.stored k f (ground (arith, bee.get-del subs.events e.id k));
    kind = Tracks-remove bee kind_keys subs.kind subs.events e there s.kind;
    author = Tracks-remove bee author_keys subs.author subs.events e there s.author;
    author_kind =
        Tracks-remove bee author_kind_keys subs.author_kind subs.events e there s.author_kind;
    created_at = Tracks-remove bee created_at_keys subs.created_at subs.events e there s.created_at;
    tag = Tracks-remove bee tag_keys subs.tag subs.events e there s.tag;
    expiration = Tracks-remove bee expiration_keys subs.expiration subs.events e there s.expiration;
    replaceable =
        Tracks-remove_pointers bee replaceable_keys subs.replaceable subs.events e there
          s.replaceable;
    addressable =
        Tracks-remove_pointers bee addressable_keys subs.addressable subs.events e there
          s.addressable;
  }

  pub drop_event-IsSound :
      (subs : IndexSubs bee) (e : NostrEvent) (id : Text)
      → bee.get subs.events id ≡ some e
      → IsSound subs
      → IsSound (drop_event bee subs e id)
  drop_event-IsSound subs e id there s =
      let own : e.id ≡ id = (s.stored id e there).own_id in
      subst (λ x. IsSound (drop_event bee subs e x)) own
        (drop_own-IsSound subs e (ap (bee.get subs.events) own ∙ there) s)

  -- The view with the pointers that an event of that kind holds.
  abbrev pub pointed : EventKind → IndexSubs bee → NostrEvent → IndexSubs bee
  pointed kind subs e = record subs {
    replaceable =
        put_all bee subs.replaceable (if_replaceable kind (replaceable_key e.pubkey e.kind)) e.id;
    addressable =
        put_all bee subs.addressable
          (if_addressable kind (addressable_key e.pubkey e.kind (get_d_tag e))) e.id;
  }

  pub store_event-IsSound :
      (subs : IndexSubs bee) (e : NostrEvent)
      → bee.get subs.events e.id ≡ none
      → Kept e.id e
      → IsSound subs
      → IsSound (store_event bee (pointed (classify_kind e.kind) subs e) e)
  unfolding store_event replaceable_keys addressable_keys
  store_event-IsSound subs e fresh kept s = record {
    stored = λ k f h. elim (Bool-cases (eqb e.id k)) [
      | inl here ↦ fresh_one k f here h
      | inr other ↦ s.stored k f (ground (arith, bee.get-put subs.events e.id k e))
    ];
    kind = Tracks-put_all bee kind_keys subs.kind subs.events e fresh s.kind;
    author = Tracks-put_all bee author_keys subs.author subs.events e fresh s.author;
    author_kind =
        Tracks-put_all bee author_kind_keys subs.author_kind subs.events e fresh s.author_kind;
    created_at =
        Tracks-put_all bee created_at_keys subs.created_at subs.events e fresh s.created_at;
    tag = Tracks-put_all bee tag_keys subs.tag subs.events e fresh s.tag;
    expiration =
        Tracks-put_all bee expiration_keys subs.expiration subs.events e fresh s.expiration;
    replaceable =
        Tracks-put_all bee replaceable_keys subs.replaceable subs.events e fresh s.replaceable;
    addressable =
        Tracks-put_all bee addressable_keys subs.addressable subs.events e fresh s.addressable;
  }
    where
      fresh_one :
          (k : Text) (f : NostrEvent)
          → eqb e.id k ≡ true
          → bee.get (bee.put subs.events e.id e) k ≡ some f
          → Kept k f
      fresh_one k f here h =
          let same_key : e.id ≡ k = eqb→eq e.id k here in
          let same : e ≡ f = ground (arith, bee.get-put subs.events e.id k e) in
          subst (λ x. Kept k x) same (subst (λ x. Kept x e) same_key kept)
