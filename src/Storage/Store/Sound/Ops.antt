-- ===== src/Storage/Store/Sound/Ops.antt =====
-- Every operation, and so `apply`, keeps the indexes sound.
use nostr_swarm.Nostr.Event.{
  Verdict, is_protected, NostrEvent, has_name, tag_value, truthy, get_expiration,
}
use nostr_swarm.Storage.Store.Ops.{crashed, interrupted, is_writer_key, running}
use nostr_swarm.Storage.Store.{
  optimistic_throws, count_writers, max_writers, is_admitted, is_true, to_hex, is_newer, if_put,
}
use nostr_swarm.Storage.Indexes.{
  addressable_keys, replaceable_keys, expiration_keys, tag_keys, created_at_keys, author_kind_keys,
  author_keys, kind_keys, create_subs, tombstone, Tombstone,
}
use nostr_swarm.Storage.Store.Sound.{
  Tracks, apply_set_config, apply_prune_delete, ApplyNode, apply_value, Action, apply_expiry_delete,
  is_valid, apply, StoreOp, Outcome, apply_optimistic, accept_optimistic, apply_op, apply_delete,
  apply_add_writer, Bytes, prune_one, expire_one, delete_target, delete_own, State, prune_all,
  expire_all, delete_targets, IndexSubs, IsSound, drop_event-IsSound,
}
use nostr_swarm.Hyperbee.{Hyperbee}
use nostr_swarm.Storage.Store.Sound.Puts.{apply_put-IsSound}
use nostr_swarm.Base.{
  leb, if◌then◌else◌, Bool-cases, on_branches, Option-cases, Text, text, eqb, ◌≡◌, refl, inl, inr,
  Bool, true, false, not, Option, none, some, List, [], ◌∷◌,
}

module _ (bee : Hyperbee) (verify_event : NostrEvent → Verdict) where
  delete_own-IsSound :
      (subs : IndexSubs bee) (d : NostrEvent) (id : Text) (o : Option NostrEvent)
      → bee.get subs.events id ≡ o
      → IsSound bee verify_event subs
      → IsSound bee verify_event (delete_own bee subs o d id)
  delete_own-IsSound subs d id none there s = s
  delete_own-IsSound subs d id (some e) there s = elim (Bool-cases (eqb e.pubkey d.pubkey)) [
    | inl own ↦ rw own (drop_event-IsSound bee verify_event subs e id there s)
    | inr other ↦ rw other s
  ]

  -- The other subs are no indexes of events.
  others-IsSound :
      (subs : IndexSubs bee) (deletion : bee.Sub Tombstone) (writers : bee.Sub Text)
      (config : bee.Sub Bool)
      → IsSound bee verify_event subs
      → IsSound bee verify_event
          (record subs { deletion = deletion; writers = writers; config = config })
  others-IsSound subs deletion writers config s = record {
    stored = s.stored;
    kind = s.kind;
    author = s.author;
    author_kind = s.author_kind;
    created_at = s.created_at;
    tag = s.tag;
    expiration = s.expiration;
    replaceable = s.replaceable;
    addressable = s.addressable;
  }

  delete_target-IsSound :
      (subs : IndexSubs bee) (d : NostrEvent) (o : Option Text)
      → IsSound bee verify_event subs
      → IsSound bee verify_event (delete_target bee subs d o)
  delete_target-IsSound subs d none s = s
  delete_target-IsSound subs d (some id) s =
      let subs' = delete_own bee subs (bee.get subs.events id) d id in
      others-IsSound subs' (bee.put subs'.deletion id (tombstone d.id d.pubkey)) subs'.writers
        subs'.config (delete_own-IsSound subs d id (bee.get subs.events id) refl s)

  delete_targets-IsSound :
      (subs : IndexSubs bee) (d : NostrEvent) (tags : List (List Text))
      → IsSound bee verify_event subs
      → IsSound bee verify_event (delete_targets bee subs d tags)
  unfolding delete_targets
  delete_targets-IsSound subs d [] s = s
  delete_targets-IsSound subs d (tag ∷ tags) s = elim (Bool-cases (has_name (text "e") tag)) [
    | inl e_tag ↦ rw e_tag (
        delete_targets-IsSound (delete_target bee subs d (truthy (tag_value (some tag)))) d tags
          (delete_target-IsSound subs d (truthy (tag_value (some tag))) s))
    | inr other ↦ rw other (delete_targets-IsSound subs d tags s)
  ]

  expire_one-IsSound :
      (subs : IndexSubs bee) (id : Text) (o : Option NostrEvent)
      → bee.get subs.events id ≡ o
      → IsSound bee verify_event subs
      → IsSound bee verify_event (expire_one bee subs id o)
  expire_one-IsSound subs id none there s = s
  expire_one-IsSound subs id (some e) there s = elim (Option-cases (get_expiration e)) [
    | inl keeps ↦ rw (keeps, expire_one) s
    | inr (expiry, expires) ↦
        rw (expires, expire_one) (drop_event-IsSound bee verify_event subs e id there s)
  ]

  expire_all-IsSound :
      (subs : IndexSubs bee) (ids : List Text)
      → IsSound bee verify_event subs
      → IsSound bee verify_event (expire_all bee subs ids)
  unfolding expire_all
  expire_all-IsSound subs [] s = s
  expire_all-IsSound subs (id ∷ ids) s =
      expire_all-IsSound (expire_one bee subs id (bee.get subs.events id)) ids
        (expire_one-IsSound subs id (bee.get subs.events id) refl s)

  prune_one-IsSound :
      (subs : IndexSubs bee) (id : Text) (o : Option NostrEvent)
      → bee.get subs.events id ≡ o
      → IsSound bee verify_event subs
      → IsSound bee verify_event (prune_one bee subs id o)
  prune_one-IsSound subs id none there s = s
  prune_one-IsSound subs id (some e) there s = drop_event-IsSound bee verify_event subs e id there s

  prune_all-IsSound :
      (subs : IndexSubs bee) (ids : List Text)
      → IsSound bee verify_event subs
      → IsSound bee verify_event (prune_all bee subs ids)
  unfolding prune_all
  prune_all-IsSound subs [] s = s
  prune_all-IsSound subs (id ∷ ids) s =
      prune_all-IsSound (prune_one bee subs id (bee.get subs.events id)) ids
        (prune_one-IsSound subs id (bee.get subs.events id) refl s)

  if-IsSound :
      (b : Bool) (x y : State bee)
      → IsSound bee verify_event x.view
      → IsSound bee verify_event y.view
      → IsSound bee verify_event (if b then x else y).view
  if-IsSound true x y sx sy = sx
  if-IsSound false x y sx sy = sy

  module _ (host_key : Bytes) where
    apply_add_writer-IsSound :
        (s : State bee) (key : Text) (from : Bytes)
        → IsSound bee verify_event s.view
        → IsSound bee verify_event (apply_add_writer bee host_key s key from).view
    unfolding apply_add_writer
    apply_add_writer-IsSound s key from h = if-IsSound (not (is_writer_key key)) s _ h (
        if-IsSound (eqb key (to_hex host_key)) s _ h (
          if-IsSound (is_admitted (bee.get s.writers key)) s _ h (
            if-IsSound (leb max_writers (count_writers bee s.view)) s _ h
              (others-IsSound s.view s.deletion (bee.put s.writers key (to_hex from)) s.config h))))

    apply_delete-IsSound :
        (s : State bee) (d : NostrEvent)
        → IsSound bee verify_event s.view
        → IsSound bee verify_event (apply_delete bee host_key verify_event s d).view
    unfolding apply_delete
    apply_delete-IsSound s d h =
        if-IsSound (not (is_valid verify_event d)) s _ h
          (apply_put-IsSound bee verify_event _ d (delete_targets-IsSound s.view d d.tags h))

    -- Every operation keeps sound indexes sound, whoever wrote it.
    pub apply_op-IsSound :
        (s : State bee) (a : Action) (from : Bytes)
        → IsSound bee verify_event s.view
        → IsSound bee verify_event (apply_op bee host_key verify_event s a from).view
    unfolding apply_op apply_expiry_delete apply_prune_delete apply_set_config
    apply_op-IsSound s (Action.put e) from h = apply_put-IsSound bee verify_event s e h
    apply_op-IsSound s (Action.delete e) from h = apply_delete-IsSound s e h
    apply_op-IsSound s (Action.add_writer key) from h = apply_add_writer-IsSound s key from h
    apply_op-IsSound s (Action.expiry_delete ids) from h =
        if-IsSound (eqb from host_key) _ s (expire_all-IsSound s.view ids h) h
    apply_op-IsSound s (Action.prune_delete ids) from h =
        if-IsSound (eqb from host_key) _ s (prune_all-IsSound s.view ids h) h
    apply_op-IsSound s (Action.set_config key value) from h =
        if-IsSound (eqb from host_key) _ s
          (others-IsSound s.view s.deletion s.writers (bee.put s.config key value) h) h

    if_put-IsSound :
        (s : State bee) (a : Action) (from : Bytes)
        → IsSound bee verify_event s.view
        → IsSound bee verify_event (if_put bee host_key verify_event s a from).view
    unfolding accept_optimistic
    if_put-IsSound s (Action.put e) from h =
        if-IsSound (not (is_true (bee.get s.config (text "accept_optimistic")))) s _ h (
          if-IsSound (not (is_valid verify_event e)) s _ h
            (if-IsSound (is_protected e) s _ h (apply_put-IsSound bee verify_event s e h)))
    if_put-IsSound s _ from h = h

    apply_optimistic-IsSound :
        (s : State bee) (op : StoreOp) (from : Bytes)
        → IsSound bee verify_event s.view
        → IsSound bee verify_event (apply_optimistic bee host_key verify_event s op from).view
    unfolding apply_optimistic
    apply_optimistic-IsSound s op from h =
        if-IsSound (is_newer op.v) s _ h (if_put-IsSound s op.action from h)

    abbrev pub final : Outcome bee → State bee
    final (running s) = s
    final (interrupted s) = s
    final (crashed s) = s

    apply_value-IsSound :
        (s : State bee) (o : Option StoreOp) (optimistic : Bool) (from : Bytes)
        → IsSound bee verify_event s.view
        → IsSound bee verify_event
            (final (apply_value bee host_key verify_event s o optimistic from)).view
    apply_value-IsSound s none optimistic from h = h
    apply_value-IsSound s (some op) true from h =
        on_branches (λ (o : Outcome bee). IsSound bee verify_event (final o).view)
          (optimistic_throws bee host_key verify_event s op) (crashed s) _ (λ raised. h)
          (λ quiet. apply_optimistic-IsSound s op from h)
    apply_value-IsSound s (some op) false from h = elim (Bool-cases (is_newer op.v)) [
      | inl newer ↦ rw newer h
      | inr known ↦ rw known (apply_op-IsSound s op.action from h)
    ]

    run_rest :
        (nodes : List ApplyNode) (o : Outcome bee)
        → IsSound bee verify_event (final o).view
        → ((s : State bee)
            → IsSound bee verify_event s.view
            → IsSound bee verify_event (final (apply bee host_key verify_event nodes s)).view)
        → IsSound bee verify_event
            (final (elim o [
              | running s' ↦ apply bee host_key verify_event nodes s'
              | interrupted s' ↦ interrupted s'
              | crashed s' ↦ crashed s'
            ])).view
    run_rest nodes (running s) h rec = rec s h
    run_rest nodes (interrupted s) h rec = h
    run_rest nodes (crashed s) h rec = h

    -- From sound indexes, whatever the nodes are, `apply` ends with sound indexes, also where it is
    -- interrupted, or stopped by an error that it throws.
    pub apply-IsSound :
        (nodes : List ApplyNode) (s : State bee)
        → IsSound bee verify_event s.view
        → IsSound bee verify_event (final (apply bee host_key verify_event nodes s)).view
    unfolding apply
    apply-IsSound [] s h = h
    apply-IsSound (node ∷ nodes) s h =
        run_rest nodes
          (apply_value bee host_key verify_event s node.value node.optimistic node.from_key)
          (apply_value-IsSound s node.value node.optimistic node.from_key h)
          (λ s' h'. apply-IsSound nodes s' h')

  -- The empty view is sound.
  pub create_subs-IsSound : IsSound bee verify_event (create_subs bee)
  unfolding create_subs
  create_subs-IsSound = record {
    stored = λ k e h. cc (h, bee.get-empty {V = NostrEvent} k);
    kind = no_entries kind_keys;
    author = no_entries author_keys;
    author_kind = no_entries author_kind_keys;
    created_at = no_entries created_at_keys;
    tag = no_entries tag_keys;
    expiration = no_entries expiration_keys;
    replaceable = no_entries replaceable_keys;
    addressable = no_entries addressable_keys;
  }
    where
      no_entries : (keys : NostrEvent → List Text) → Tracks bee keys bee.empty bee.empty
      no_entries keys = record { entry = λ k id h. cc (h, bee.get-empty {V = Text} k) }
