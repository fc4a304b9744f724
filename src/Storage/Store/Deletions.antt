-- ===== src/Storage/Store/Deletions.antt =====
-- What `applyDelete` of src/storage/store.ts does to the events and to the tombstones.
use nostr_swarm.Nostr.Event.{
  Verdict, EventKind, classify_kind, is_protected, tag_value, truthy, has_name, NostrEvent,
}
use nostr_swarm.Storage.Store.{
  emit_stored, store_event, make_way, blocked, is_valid, apply_delete, apply_put, State, Bytes,
  delete_own, delete_target, remove_indexes, drop_event, delete_targets,
}
use nostr_swarm.Nostr.Deletion.{is_valid_deletion, push_target, e_target, e_targets}
use nostr_swarm.Storage.Store.Effects.{apply_put_cases}
use nostr_swarm.Storage.Indexes.{tombstone, IndexSubs}
use nostr_swarm.Hyperbee.{Hyperbee}
use nostr_swarm.Base.{
  if◌then◌else◌, Bool-cases, Text, text, eqb, eqb_refl, eqb_iff, includes_text, ◌≡◌, refl, ap, ◌∙◌,
  ◌≢◌, inl, inr, Bool, true, false, ◌&&◌, Option, none, some, List, [], ◌∷◌, arith,
}

e_target_lem :
    (tag : List Text)
    → (if has_name (text "e") tag then truthy (tag_value (some tag)) else none) ≡ e_target tag
unfolding has_name e_target
e_target_lem [] = refl
e_target_lem (n ∷ []) = ground arith
e_target_lem (n ∷ [] ∷ rest) = ground arith
e_target_lem (n ∷ (c ∷ v) ∷ rest) = ground arith

-- The stored event outlives a deletion unless the deleter is its author.
abbrev pub unless_own : NostrEvent → Option NostrEvent → Option NostrEvent
unless_own d none = none
unless_own d (some f) = if eqb f.pubkey d.pubkey then none else some f

module _ (bee : Hyperbee) where
  drop_event_effects :
      (subs : IndexSubs bee) (f : NostrEvent) (id : Text)
      → ((drop_event bee subs f id).events ≡ bee.del subs.events id)
        × ((drop_event bee subs f id).deletion ≡ subs.deletion)
  unfolding drop_event remove_indexes
  drop_event_effects subs f id = (refl, refl)

  events-delete_own :
      (subs : IndexSubs bee) (d : NostrEvent) (t k : Text) (o : Option NostrEvent)
      → bee.get subs.events t ≡ o
      → bee.get (delete_own bee subs o d t).events k
        ≡ (if eqb t k then unless_own d (bee.get subs.events k) else bee.get subs.events k)
  unfolding drop_event remove_indexes
  events-delete_own subs d t k none there = ground (arith, eqb_iff t k)
  events-delete_own subs d t k (some f) there =
      ground (arith, eqb_iff t k, bee.get-del subs.events t k)

  deletion-delete_own :
      (subs : IndexSubs bee) (d : NostrEvent) (t : Text) (o : Option NostrEvent)
      → (delete_own bee subs o d t).deletion ≡ subs.deletion
  unfolding drop_event remove_indexes
  deletion-delete_own subs d t none = refl
  deletion-delete_own subs d t (some f) = ground arith

  deletion-delete_target :
      (subs : IndexSubs bee) (d : NostrEvent) (t k : Text)
      → bee.get (delete_target bee subs d (some t)).deletion k
        ≡ (if eqb t k then some (tombstone d.id d.pubkey) else bee.get subs.deletion k)
  deletion-delete_target subs d t k =
      rw (bee.get-put, deletion-delete_own subs d t (bee.get subs.events t)) refl

  pub delete_targets_cons :
      (subs : IndexSubs bee) (d : NostrEvent) (tag : List Text) (tags : List (List Text))
      → delete_targets bee subs d (tag ∷ tags)
        ≡ delete_targets bee (delete_target bee subs d (e_target tag)) d tags
  unfolding delete_targets
  delete_targets_cons subs d tag tags =
      ap (λ x. delete_targets bee x d tags)
        (push_if (has_name (text "e") tag) ∙ ap (delete_target bee subs d) (e_target_lem tag))
    where
      push_if :
          (b : Bool)
          → (if b then delete_target bee subs d (truthy (tag_value (some tag))) else subs)
            ≡ delete_target bee subs d (if b then truthy (tag_value (some tag)) else none)
      push_if true = refl
      push_if false = refl

  -- The loop over the tags, seen at one key of the event store.
  events-delete_targets :
      (subs : IndexSubs bee) (d : NostrEvent) (tags : List (List Text)) (k : Text)
      → bee.get (delete_targets bee subs d tags).events k ≡ (
          if includes_text (e_targets tags) k
          then unless_own d (bee.get subs.events k)
          else bee.get subs.events k)
  unfolding e_targets includes_text
  events-delete_targets subs d [] k = unfold delete_targets in refl
  events-delete_targets subs d (tag ∷ tags) k =
      ap (λ v. bee.get v.events k) (delete_targets_cons subs d tag tags)
      ∙ events-delete_targets (delete_target bee subs d (e_target tag)) d tags k
      ∙ step (e_target tag)
    where
      step :
          (o : Option Text)
          → (if includes_text (e_targets tags) k
              then unless_own d (bee.get (delete_target bee subs d o).events k)
              else bee.get (delete_target bee subs d o).events k)
            ≡ (if includes_text (push_target o (e_targets tags)) k
                then unless_own d (bee.get subs.events k)
                else bee.get subs.events k)
      step none = refl
      step (some t) = ground (arith, events-delete_own subs d t k (bee.get subs.events t) refl)

  -- The loop over the tags, seen at one key of the tombstones.
  deletion-delete_targets :
      (subs : IndexSubs bee) (d : NostrEvent) (tags : List (List Text)) (k : Text)
      → bee.get (delete_targets bee subs d tags).deletion k ≡ (
          if includes_text (e_targets tags) k
          then some (tombstone d.id d.pubkey)
          else bee.get subs.deletion k)
  unfolding e_targets includes_text
  deletion-delete_targets subs d [] k = unfold delete_targets in refl
  deletion-delete_targets subs d (tag ∷ tags) k =
      ap (λ v. bee.get v.deletion k) (delete_targets_cons subs d tag tags)
      ∙ deletion-delete_targets (delete_target bee subs d (e_target tag)) d tags k
      ∙ step (e_target tag)
    where
      step :
          (o : Option Text)
          → (if includes_text (e_targets tags) k
              then some (tombstone d.id d.pubkey)
              else bee.get (delete_target bee subs d o).deletion k)
            ≡ (if includes_text (push_target o (e_targets tags)) k
                then some (tombstone d.id d.pubkey)
                else bee.get subs.deletion k)
      step none = refl
      step (some t) = ground (arith, deletion-delete_target subs d t k)

  module _ (host_key : Bytes) (verify_event : NostrEvent → Verdict) (s : State bee)
      (d : NostrEvent) where
    -- The state before the deletion event itself is put.
    abbrev after_targets : State bee
    after_targets = record s { view = delete_targets bee s.view d d.tags }

    pub deletion-apply_put :
        (t : State bee) (e : NostrEvent) → (apply_put bee verify_event t e).deletion ≡ t.deletion
    deletion-apply_put t e = elim (apply_put_cases bee verify_event t e) [
      | inl same ↦ ap (λ x. x.deletion) same
      | inr st ↦ st.deletion
    ]

    pub events-apply_put_ne :
        (t : State bee) (e : NostrEvent) (k : Text)
        → e.id ≢ k
        → bee.get (apply_put bee verify_event t e).events k ≡ bee.get t.events k
    events-apply_put_ne t e k ne = elim (apply_put_cases bee verify_event t e) [
      | inl same ↦ ap (λ x. bee.get x.events k) same
      | inr st ↦
          ap (λ ev. bee.get ev k) st.events
          ∙ ground (arith, bee.get-put t.events e.id k e, eqb_iff e.id k)
    ]

    -- A valid deletion records its own tombstone at each of its targets, over any that is there, and
    -- no other tombstone changes; one that is not valid changes none.
    pub deletion-apply_delete :
        (k : Text)
        → bee.get (apply_delete bee host_key verify_event s d).deletion k ≡ (
            if is_valid verify_event d && includes_text (e_targets d.tags) k
            then some (tombstone d.id d.pubkey)
            else bee.get s.deletion k)
    unfolding apply_delete
    deletion-apply_delete k = elim (Bool-cases (is_valid verify_event d)) [
      | inl valid ↦ rw valid (
          ap (λ x. bee.get x k) (deletion-apply_put after_targets d)
          ∙ deletion-delete_targets s.view d d.tags k)
      | inr bad ↦ rw bad refl
    ]

    -- Apart from the deletion event itself, a valid deletion removes exactly those of its targets that
    -- its author wrote, and every other event stays as it is; one that is not valid removes nothing.
    pub events-apply_delete :
        (k : Text)
        → d.id ≢ k
        → bee.get (apply_delete bee host_key verify_event s d).events k ≡ (
            if is_valid verify_event d && includes_text (e_targets d.tags) k
            then unless_own d (bee.get s.events k)
            else bee.get s.events k)
    unfolding apply_delete
    events-apply_delete k ne = elim (Bool-cases (is_valid verify_event d)) [
      | inl valid ↦
          rw valid
            (events-apply_put_ne after_targets d k ne ∙ events-delete_targets s.view d d.tags k)
      | inr bad ↦ rw bad refl
    ]

    -- A deletion by another author does not block a put of its target.
    forged_tombstone_harmless :
        (e : NostrEvent)
        → is_valid verify_event d ≡ true
        → includes_text (e_targets d.tags) e.id ≡ true
        → d.pubkey ≢ e.pubkey
        → blocked (bee.get (apply_delete bee host_key verify_event s d).deletion e.id) e ≡ false
    unfolding blocked
    forged_tombstone_harmless e valid target other =
        ground (arith, deletion-apply_delete e.id, eqb_iff d.pubkey e.pubkey)

    events-apply_put_regular :
        (t : State bee) (e : NostrEvent)
        → is_valid verify_event e ≡ true
        → is_protected e ≡ false
        → classify_kind e.kind ≡ EventKind.regular
        → bee.get t.events e.id ≡ none
        → blocked (bee.get t.deletion e.id) e ≡ false
        → bee.get (apply_put bee verify_event t e).events e.id ≡ some e
    unfolding apply_put make_way store_event emit_stored
    events-apply_put_regular t e valid unprotected regular fresh unblocked =
        ground (arith, bee.get-put t.events e.id e.id e, eqb_refl e.id)

    -- A regular, unprotected and valid event that its author deleted, and that a valid deletion of
    -- another author targets later, is stored again when it is put again: the author's tombstone
    -- blocked it, and the later one has replaced that.
    pub forged_deletion_revives :
        (e : NostrEvent) (kind5 : Text)
        → bee.get s.deletion e.id ≡ some (tombstone kind5 e.pubkey)
        → bee.get s.events e.id ≡ none
        → is_valid verify_event e ≡ true
        → is_protected e ≡ false
        → classify_kind e.kind ≡ EventKind.regular
        → is_valid verify_event d ≡ true
        → includes_text (e_targets d.tags) e.id ≡ true
        → d.pubkey ≢ e.pubkey
        → d.id ≢ e.id
        → (blocked (bee.get s.deletion e.id) e ≡ true)
          × (bee.get
                (apply_put bee verify_event (apply_delete bee host_key verify_event s d) e).events
                e.id
              ≡ some e)
    unfolding blocked
    forged_deletion_revives e kind5 old gone valid unprotected regular forged target other ne = (
      rw old (eqb_refl e.pubkey),
      events-apply_put_regular (apply_delete bee host_key verify_event s d) e valid unprotected
          regular (ground (arith, events-apply_delete e.id ne))
          (forged_tombstone_harmless e forged target other),
    )

    -- A delete operation removes an event of its author on the strength of a valid event that is no
    -- deletion: of any other kind than 5, with an `e` tag of the target.
    pub delete_by_any_kind :
        (f : NostrEvent) (k : Text)
        → d.kind ≢ 5
        → is_valid verify_event d ≡ true
        → includes_text (e_targets d.tags) k ≡ true
        → d.id ≢ k
        → bee.get s.events k ≡ some f
        → f.pubkey ≡ d.pubkey
        → (is_valid_deletion d ≡ false)
          × (bee.get (apply_delete bee host_key verify_event s d).events k ≡ none)
    unfolding is_valid_deletion
    delete_by_any_kind f k kind valid target ne there own =
        (ground arith, ground (arith, events-apply_delete k ne, eqb_iff f.pubkey d.pubkey))
