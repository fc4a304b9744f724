-- ===== src/Storage/Store/Writers.antt =====
-- The writers sub: at most `MAX_WRITERS` entries, well-formed keys, and never the founder.
use nostr_swarm.Nostr.Event.{Verdict, NostrEvent}
use nostr_swarm.Storage.Store.Ops.{crashed, interrupted, running, Bytes}
use nostr_swarm.Storage.Store.Authority.{
  optimistic-final, prune_all-SameAuthority, expire_all-SameAuthority, apply_delete-SameAuthority,
  apply_put-SameAuthority,
}
use nostr_swarm.Storage.Store.{
  is_newer, Action, apply_set_config, apply_value, apply_prune_delete, is_admitted, Outcome,
  StoreOp, apply_expiry_delete, is_writer_key, to_hex, apply, ApplyNode, apply_op, State,
  max_writers, apply_add_writer, count_writers,
}
use nostr_swarm.Hyperbee.Count.{length-put}
use nostr_swarm.Storage.Store.Sound.Ops.{final}
use nostr_swarm.Storage.Indexes.{IndexSubs}
use nostr_swarm.Hyperbee.{Hyperbee}
use nostr_swarm.Base.{
  leb, leb_false→lt, Bool-cases, Text, eqb, eqb→eq, ◌≤◌, ◌≡◌, refl, inl, inr, Bool, true, false,
  Option, none, some, List, [], ◌∷◌, arith,
}

module _ (bee : Hyperbee) (host_key : Bytes) where
  pub record WritersOk (v : IndexSubs bee) : Type 0 where
    pub capped : count_writers bee v ≤ max_writers
    pub no_founder : bee.get v.writers (to_hex host_key) ≡ none
    pub well_formed : (k a : Text) → bee.get v.writers k ≡ some a → is_writer_key k ≡ true

  WritersOk-same : (v w : IndexSubs bee) → w.writers ≡ v.writers → WritersOk v → WritersOk w
  unfolding count_writers
  WritersOk-same v w e h = record {
    capped = rw e h.capped;
    no_founder = rw e h.no_founder;
    well_formed = λ k a g. h.well_formed k a (rw e at g);
  }

  admit-WritersOk :
      (s : State bee) (key added_by : Text)
      → is_writer_key key ≡ true
      → eqb key (to_hex host_key) ≡ false
      → leb max_writers (count_writers bee s.view) ≡ false
      → WritersOk s.view
      → WritersOk (record s.view { writers = bee.put s.writers key added_by })
  unfolding count_writers
  admit-WritersOk s key added_by valid other room h = record {
    capped = omega (arith, length-put bee s.writers key added_by, leb_false→lt _ _ room);
    no_founder = ground (arith, bee.get-put s.writers key (to_hex host_key) added_by, h.no_founder);
    well_formed = λ k a g. elim (Bool-cases (eqb key k)) [
      | inl same ↦ rw (← eqb→eq key k same) valid
      | inr ne ↦ h.well_formed k a (ground (arith, bee.get-put s.writers key k added_by))
    ];
  }

  apply_add_writer-WritersOk :
      (s : State bee) (key : Text) (from : Bytes)
      → WritersOk s.view
      → WritersOk (apply_add_writer bee host_key s key from).view
  unfolding apply_add_writer
  apply_add_writer-WritersOk s key from h = elim (Bool-cases (is_writer_key key)) [
    | inr bad ↦ rw bad h
    | inl valid ↦ elim (Bool-cases (eqb key (to_hex host_key))) [
      | inl founder ↦ rw (valid, founder) h
      | inr other ↦ elim (Bool-cases (is_admitted (bee.get s.writers key))) [
        | inl old ↦ rw (valid, other, old) h
        | inr new ↦ elim (Bool-cases (leb max_writers (count_writers bee s.view))) [
          | inl full ↦ rw (valid, other, new, full) h
          | inr room ↦
              rw (valid, other, new, room) (admit-WritersOk s key (to_hex from) valid other room h)
        ]
      ]
    ]
  ]

  module _ (verify_event : NostrEvent → Verdict) where
    pub apply_op-WritersOk :
        (s : State bee) (a : Action) (from : Bytes)
        → WritersOk s.view
        → WritersOk (apply_op bee host_key verify_event s a from).view
    unfolding apply_op apply_expiry_delete apply_prune_delete apply_set_config
    apply_op-WritersOk s (Action.put e) from h =
        WritersOk-same s.view _ (apply_put-SameAuthority bee host_key verify_event s e).0 h
    apply_op-WritersOk s (Action.delete d) from h =
        WritersOk-same s.view _ (apply_delete-SameAuthority bee host_key verify_event s d).0 h
    apply_op-WritersOk s (Action.add_writer key) from h = apply_add_writer-WritersOk s key from h
    apply_op-WritersOk s (Action.expiry_delete ids) from h = elim (Bool-cases (eqb from host_key)) [
      | inl own ↦ rw own (WritersOk-same s.view _ (expire_all-SameAuthority bee s.view ids).0 h)
      | inr other ↦ rw other h
    ]
    apply_op-WritersOk s (Action.prune_delete ids) from h = elim (Bool-cases (eqb from host_key)) [
      | inl own ↦ rw own (WritersOk-same s.view _ (prune_all-SameAuthority bee s.view ids).0 h)
      | inr other ↦ rw other h
    ]
    apply_op-WritersOk s (Action.set_config key value) from h =
        elim (Bool-cases (eqb from host_key)) [
          | inl own ↦ rw own (WritersOk-same s.view _ refl h)
          | inr other ↦ rw other h
        ]

    apply_value-WritersOk :
        (s : State bee) (o : Option StoreOp) (optimistic : Bool) (from : Bytes)
        → WritersOk s.view
        → WritersOk
            (final bee verify_event host_key
              (apply_value bee host_key verify_event s o optimistic from)).view
    apply_value-WritersOk s none optimistic from h = h
    apply_value-WritersOk s (some op) true from h =
        let n = optimistic-final bee host_key verify_event s op from in
        WritersOk-same s.view _ n.writers h
    apply_value-WritersOk s (some op) false from h = elim (Bool-cases (is_newer op.v)) [
      | inl newer ↦ rw newer h
      | inr known ↦ rw known (apply_op-WritersOk s op.action from h)
    ]

    rest-WritersOk :
        (nodes : List ApplyNode) (o : Outcome bee)
        → WritersOk (final bee verify_event host_key o).view
        → ((s : State bee)
            → WritersOk s.view
            → WritersOk
                (final bee verify_event host_key (apply bee host_key verify_event nodes s)).view)
        → WritersOk
            (final bee verify_event host_key (elim o [
              | running s' ↦ apply bee host_key verify_event nodes s'
              | interrupted s' ↦ interrupted s'
              | crashed s' ↦ crashed s'
            ])).view
    rest-WritersOk nodes (running s) h rec = rec s h
    rest-WritersOk nodes (interrupted s) h rec = h
    rest-WritersOk nodes (crashed s) h rec = h

    -- `apply` keeps the writers sub in order, whatever the nodes are: it holds at most 64 keys, each of
    -- 64 lower-case hexadecimal digits, and never the founder's.
    pub apply-WritersOk :
        (nodes : List ApplyNode) (s : State bee)
        → WritersOk s.view
        → WritersOk (final bee verify_event host_key (apply bee host_key verify_event nodes s)).view
    unfolding apply
    apply-WritersOk [] s h = h
    apply-WritersOk (node ∷ nodes) s h =
        rest-WritersOk nodes
          (apply_value bee host_key verify_event s node.value node.optimistic node.from_key)
          (apply_value-WritersOk s node.value node.optimistic node.from_key h)
          (λ t g. apply-WritersOk nodes t g)
