-- ===== src/Storage/Store/Authority.antt =====
-- Who may change what: the writers, the configuration and the stored events, by operation and author.
use nostr_swarm.Nostr.Event.{Verdict, is_thrown}
use nostr_swarm.Storage.Store.Ops.{crashed, interrupted, running, Bytes}
use nostr_swarm.Storage.Store.{
  optimistic_throws, put_throws, Verdict, apply_add_writer, is_protected, apply_set_config,
  is_newer, is_true, apply_prune_delete, apply_value, if_put, Outcome, apply_expiry_delete, StoreOp,
  Action, is_valid, apply_put, apply, ApplyNode, apply_op, apply_optimistic, accept_optimistic,
  apply_delete, State, prune_one, delete_targets, delete_target, expire_one, NostrEvent,
  remove_indexes, expire_all, prune_all, drop_event,
}
use nostr_swarm.Nostr.Deletion.{e_target}
use nostr_swarm.Storage.Store.Deletions.{delete_targets_cons}
use nostr_swarm.Storage.Store.Effects.{events-apply_put, apply_put_cases}
use nostr_swarm.Storage.Store.Sound.Ops.{final}
use nostr_swarm.Storage.Indexes.{IndexSubs}
use nostr_swarm.Hyperbee.{Hyperbee}
use nostr_swarm.Base.{
  if◌then◌else◌, Bool-cases, on_branches, All, Text, text, eqb, ◌≡◌, refl, sym, ap, ◌∙◌, subst, inl,
  inr, Bool, true, false, not, Option, none, some, List, [], ◌∷◌, arith,
}

module _ (bee : Hyperbee) where
  -- The writers and the configuration are those of the other view.
  abbrev pub SameAuthority : IndexSubs bee → IndexSubs bee → Type 0
  SameAuthority v w = (w.writers ≡ v.writers) × (w.config ≡ v.config)

  SameAuthority-trans :
      (u v w : IndexSubs bee) → SameAuthority u v → SameAuthority v w → SameAuthority u w
  SameAuthority-trans u v w p q = (q.0 ∙ p.0, q.1 ∙ p.1)

  delete_target-SameAuthority :
      (v : IndexSubs bee) (d : NostrEvent) (o : Option Text)
      → SameAuthority v (delete_target bee v d o)
  unfolding drop_event remove_indexes
  delete_target-SameAuthority v d none = (refl, refl)
  delete_target-SameAuthority v d (some t) = ground arith

  pub delete_targets-SameAuthority :
      (v : IndexSubs bee) (d : NostrEvent) (tags : List (List Text))
      → SameAuthority v (delete_targets bee v d tags)
  delete_targets-SameAuthority v d [] = unfold delete_targets in (refl, refl)
  delete_targets-SameAuthority v d (tag ∷ tags) =
      subst (λ x. SameAuthority v x) (sym (delete_targets_cons bee v d tag tags))
        (SameAuthority-trans v (delete_target bee v d (e_target tag))
          (delete_targets bee (delete_target bee v d (e_target tag)) d tags)
          (delete_target-SameAuthority v d (e_target tag))
          (delete_targets-SameAuthority (delete_target bee v d (e_target tag)) d tags))

  expire_one-SameAuthority :
      (v : IndexSubs bee) (id : Text) (o : Option NostrEvent)
      → SameAuthority v (expire_one bee v id o)
  unfolding drop_event remove_indexes
  expire_one-SameAuthority v id none = (refl, refl)
  expire_one-SameAuthority v id (some e) = ground arith

  pub expire_all-SameAuthority :
      (v : IndexSubs bee) (ids : List Text) → SameAuthority v (expire_all bee v ids)
  unfolding expire_all
  expire_all-SameAuthority v [] = (refl, refl)
  expire_all-SameAuthority v (id ∷ ids) =
      let w = expire_one bee v id (bee.get v.events id) in
      SameAuthority-trans v w (expire_all bee w ids)
        (expire_one-SameAuthority v id (bee.get v.events id)) (expire_all-SameAuthority w ids)

  pub prune_all-SameAuthority :
      (v : IndexSubs bee) (ids : List Text) → SameAuthority v (prune_all bee v ids)
  unfolding prune_all
  prune_all-SameAuthority v [] = (refl, refl)
  prune_all-SameAuthority v (id ∷ ids) =
      let w = prune_one bee v id (bee.get v.events id) in
      SameAuthority-trans v w (prune_all bee w ids) (prune_one-SameAuthority (bee.get v.events id))
        (prune_all-SameAuthority w ids)
    where
      prune_one-SameAuthority : (o : Option NostrEvent) → SameAuthority v (prune_one bee v id o)
      prune_one-SameAuthority none = (refl, refl)
      prune_one-SameAuthority (some e) = unfold drop_event remove_indexes in (refl, refl)

  module _ (host_key : Bytes) (verify_event : NostrEvent → Verdict) where
    pub apply_put-SameAuthority :
        (s : State bee) (e : NostrEvent)
        → SameAuthority s.view (apply_put bee verify_event s e).view
    apply_put-SameAuthority s e = elim (apply_put_cases bee verify_event s e) [
      | inl same ↦ (ap (λ t. t.writers) same, ap (λ t. t.config) same)
      | inr st ↦ (st.writers, st.config)
    ]

    pub apply_delete-SameAuthority :
        (s : State bee) (d : NostrEvent)
        → SameAuthority s.view (apply_delete bee host_key verify_event s d).view
    unfolding apply_delete
    apply_delete-SameAuthority s d = elim (Bool-cases (is_valid verify_event d)) [
      | inl valid ↦
          let t : State bee = record s { view = delete_targets bee s.view d d.tags } in
          rw valid (
            SameAuthority-trans s.view t.view (apply_put bee verify_event t d).view
              (delete_targets-SameAuthority s.view d d.tags) (apply_put-SameAuthority t d))
      | inr bad ↦ rw bad (refl, refl)
    ]

    -- What an optimistic block cannot do: change a writer, the configuration or a tombstone, add a
    -- writer to the base, remove or change a stored event.
    pub record IsNarrow (s t : State bee) : Type 0 where
      pub writers : t.writers ≡ s.writers
      pub config : t.config ≡ s.config
      pub deletion : t.deletion ≡ s.deletion
      pub added : t.added_writers ≡ s.added_writers
      pub events :
          (k : Text) (f : NostrEvent) → bee.get s.events k ≡ some f → bee.get t.events k ≡ some f

    IsNarrow-refl : (s : State bee) → IsNarrow s s
    IsNarrow-refl s = record {
      writers = refl;
      config = refl;
      deletion = refl;
      added = refl;
      events = λ k f h. h;
    }

    apply_put-IsNarrow :
        (s : State bee) (e : NostrEvent) → IsNarrow s (apply_put bee verify_event s e)
    apply_put-IsNarrow s e = elim (apply_put_cases bee verify_event s e) [
      | inl same ↦ subst (λ t. IsNarrow s t) (sym same) (IsNarrow-refl s)
      | inr st ↦ record {
        writers = st.writers;
        config = st.config;
        deletion = st.deletion;
        added = st.added;
        events = λ k f h. events-apply_put bee verify_event s e f k h;
      }
    ]

    if-IsNarrow :
        (b : Bool) (s x y : State bee)
        → IsNarrow s x
        → IsNarrow s y
        → IsNarrow s (if b then x else y)
    if-IsNarrow true s x y h k = h
    if-IsNarrow false s x y h k = k

    if_put-IsNarrow :
        (s : State bee) (a : Action) (from : Bytes)
        → IsNarrow s (if_put bee host_key verify_event s a from)
    unfolding accept_optimistic
    if_put-IsNarrow s (Action.put e) from =
        let p = apply_put-IsNarrow s e in
        if-IsNarrow (not (is_true (bee.get s.config (text "accept_optimistic")))) s s _
          (IsNarrow-refl s)
          (if-IsNarrow (not (is_valid verify_event e)) s s _ (IsNarrow-refl s) (
            if-IsNarrow (is_protected e) s s _ (IsNarrow-refl s) (record {
              writers = p.writers;
              config = p.config;
              deletion = p.deletion;
              added = p.added;
              events = p.events;
            })))
    if_put-IsNarrow s _ from = IsNarrow-refl s

    pub optimistic_put-IsNarrow :
        (s : State bee) (op : StoreOp) (from : Bytes)
        → IsNarrow s (apply_optimistic bee host_key verify_event s op from)
    unfolding apply_optimistic
    optimistic_put-IsNarrow s op from =
        if-IsNarrow (is_newer op.v) s s _ (IsNarrow-refl s) (if_put-IsNarrow s op.action from)

    -- `apply` goes on, or it is stopped by an error of the check of a put's signature, on a base that
    -- takes optimistic blocks.
    pub data IsContained (s : State bee) (op : StoreOp) : Outcome bee → Type 0 where
      goes_on : (t : State bee) → IsNarrow s t → IsContained s op (running t)
      stops :
          (e : NostrEvent)
          → op.action ≡ Action.put e
          → is_thrown (verify_event e) ≡ true
          → is_true (bee.get s.config (text "accept_optimistic")) ≡ true
          → IsContained s op (crashed s)

    stopped :
        (s : State bee) (op : StoreOp) (a : Action)
        → op.action ≡ a
        → put_throws bee host_key verify_event s a ≡ true
        → IsContained s op (crashed s)
    stopped s op (Action.put e) same h = stops e same (ground (arith, h)) (ground (arith, h))
    stopped s op (Action.delete d) same h = absurd cc
    stopped s op (Action.add_writer key) same h = absurd cc
    stopped s op (Action.expiry_delete ids) same h = absurd cc
    stopped s op (Action.prune_delete ids) same h = absurd cc
    stopped s op (Action.set_config key value) same h = absurd cc

    -- An optimistic block, whatever operation it holds, leaves `apply` in one of two ways. Either
    -- `apply` goes on, and the block has changed no writer, no configuration and no tombstone, has
    -- added no writer to the base, and has neither removed nor changed a stored event; or `apply` is
    -- stopped with the state as it was, and then the base takes optimistic blocks, the operation is a
    -- put, and the check of the signature of its event has thrown.
    pub optimistic-IsContained :
        (s : State bee) (op : StoreOp) (from : Bytes)
        → IsContained s op (apply_value bee host_key verify_event s (some op) true from)
    optimistic-IsContained s op from =
        on_branches (IsContained s op) (optimistic_throws bee host_key verify_event s op) _ _
          (λ raised. stopped s op op.action refl (ground (arith, raised)))
          (λ quiet. goes_on _ (optimistic_put-IsNarrow s op from))

    pub optimistic-final :
        (s : State bee) (op : StoreOp) (from : Bytes)
        → IsNarrow s (
            final bee verify_event host_key
              (apply_value bee host_key verify_event s (some op) true from))
    optimistic-final s op from =
        on_branches (λ (o : Outcome bee). IsNarrow s (final bee verify_event host_key o))
          (optimistic_throws bee host_key verify_event s op) (crashed s) _
          (λ raised. IsNarrow-refl s) (λ quiet. optimistic_put-IsNarrow s op from)

    -- A founder's key, and only it, changes the configuration.
    apply_op-config :
        (s : State bee) (a : Action) (from : Bytes)
        → eqb from host_key ≡ false
        → (apply_op bee host_key verify_event s a from).config ≡ s.config
    unfolding apply_op apply_expiry_delete apply_prune_delete apply_set_config apply_add_writer
    apply_op-config s (Action.put e) from h = (apply_put-SameAuthority s e).1
    apply_op-config s (Action.delete d) from h = (apply_delete-SameAuthority s d).1
    apply_op-config s (Action.add_writer key) from h = ground arith
    apply_op-config s (Action.expiry_delete ids) from h = rw h refl
    apply_op-config s (Action.prune_delete ids) from h = rw h refl
    apply_op-config s (Action.set_config key value) from h = rw h refl

    abbrev pub NotFounder : List ApplyNode → Type 0
    NotFounder nodes = All (λ n. eqb n.from_key host_key ≡ false) nodes

    apply_value-config :
        (s : State bee) (o : Option StoreOp) (optimistic : Bool) (from : Bytes)
        → eqb from host_key ≡ false
        → (final bee verify_event host_key
            (apply_value bee host_key verify_event s o optimistic from)).config
          ≡ s.config
    apply_value-config s none optimistic from h = refl
    apply_value-config s (some op) true from h = (optimistic-final s op from).config
    apply_value-config s (some op) false from h = elim (Bool-cases (is_newer op.v)) [
      | inl newer ↦ rw newer refl
      | inr known ↦ rw known (apply_op-config s op.action from h)
    ]

    rest-config :
        (nodes : List ApplyNode) (o : Outcome bee)
        → ((s : State bee)
            → (final bee verify_event host_key (apply bee host_key verify_event nodes s)).config
              ≡ s.config)
        → (final bee verify_event host_key (elim o [
          | running s' ↦ apply bee host_key verify_event nodes s'
          | interrupted s' ↦ interrupted s'
          | crashed s' ↦ crashed s'
        ])).config
          ≡ (final bee verify_event host_key o).config
    rest-config nodes (running s) rec = rec s
    rest-config nodes (interrupted s) rec = refl
    rest-config nodes (crashed s) rec = refl

    -- Nodes none of which the founder wrote leave the configuration of the base as it is.
    pub config-apply :
        (nodes : List ApplyNode) (s : State bee)
        → NotFounder nodes
        → (final bee verify_event host_key (apply bee host_key verify_event nodes s)).config
          ≡ s.config
    unfolding apply
    config-apply [] s h = refl
    config-apply (node ∷ nodes) s h =
        rest-config nodes
          (apply_value bee host_key verify_event s node.value node.optimistic node.from_key)
          (λ t. config-apply nodes t h.1)
        ∙ apply_value-config s node.value node.optimistic node.from_key h.0
