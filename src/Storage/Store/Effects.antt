-- ===== src/Storage/Store/Effects.antt =====
-- What `applyPut` does to the events, and what it leaves alone.
use nostr_swarm.Nostr.Event.{Verdict, is_protected, classify_kind, EventKind, NostrEvent}
use nostr_swarm.Storage.Store.{
  store_event, finish_put, apply_put, emit_stored, blocked, is_stored, is_valid, State, supersede,
  remove_indexes, make_way,
}
use nostr_swarm.Storage.Indexes.{IndexSubs}
use nostr_swarm.Hyperbee.{Hyperbee}
use nostr_swarm.Base.{
  Bool-cases, Text, eqb_refl, eqb_iff, ◌≡◌, refl, ap, ◌∙◌, ◌⊎◌, inl, inr, true, false, Option, none,
  some, arith,
}

pub is_stored-none : (o : Option NostrEvent) → is_stored o ≡ false → o ≡ none
is_stored-none none h = refl
is_stored-none (some e) h = cc

module _ (bee : Hyperbee) where
  -- The subs that making way does not touch.
  record SameRest (subs w : IndexSubs bee) : Type 0 where
    events : w.events ≡ subs.events
    deletion : w.deletion ≡ subs.deletion
    writers : w.writers ≡ subs.writers
    config : w.config ≡ subs.config

  supersede-SameRest :
      (subs w : IndexSubs bee) (o : Option NostrEvent) (e : NostrEvent)
      → supersede bee subs o e ≡ some w
      → SameRest subs w
  unfolding remove_indexes
  supersede-SameRest subs w none e h = ground arith
  supersede-SameRest subs w (some prev) e h = ground arith

  make_way-SameRest :
      (kind : EventKind) (subs w : IndexSubs bee) (e : NostrEvent)
      → make_way bee kind subs e ≡ some w
      → SameRest subs w
  unfolding make_way remove_indexes
  make_way-SameRest EventKind.regular subs w e h = ground arith
  make_way-SameRest EventKind.ephemeral subs w e h = ground arith
  make_way-SameRest EventKind.replaceable subs w e h = ground arith
  make_way-SameRest EventKind.addressable subs w e h = ground arith

  -- An event that was stored by `t` from `s`.
  pub record Stored (verify_event : NostrEvent → Verdict) (s : State bee) (e : NostrEvent)
      (t : State bee) : Type 0 where
    pub fresh : bee.get s.events e.id ≡ none
    pub valid : is_valid verify_event e ≡ true
    pub unprotected : is_protected e ≡ false
    pub unblocked : blocked (bee.get s.deletion e.id) e ≡ false
    pub events : t.events ≡ bee.put s.events e.id e
    pub deletion : t.deletion ≡ s.deletion
    pub writers : t.writers ≡ s.writers
    pub config : t.config ≡ s.config
    pub added : t.added_writers ≡ s.added_writers
    pub acked : t.acked_writers ≡ s.acked_writers

  emit_stored_effects :
      (s : State bee) (e : NostrEvent)
      → ((emit_stored bee s e).view ≡ s.view)
        × ((emit_stored bee s e).added_writers ≡ s.added_writers)
        × ((emit_stored bee s e).acked_writers ≡ s.acked_writers)
  unfolding emit_stored
  emit_stored_effects s e = ground arith

  module _ (verify_event : NostrEvent → Verdict) where
    finish_put_cases :
        (s : State bee) (e : NostrEvent) (o : Option (IndexSubs bee))
        → make_way bee (classify_kind e.kind) s.view e ≡ o
        → bee.get s.events e.id ≡ none
        → is_valid verify_event e ≡ true
        → is_protected e ≡ false
        → blocked (bee.get s.deletion e.id) e ≡ false
        → (finish_put bee s e o ≡ s) ⊎ Stored verify_event s e (finish_put bee s e o)
    finish_put_cases s e none way fresh valid unprotected unblocked = inl refl
    finish_put_cases s e (some w) way fresh valid unprotected unblocked =
        let rest = make_way-SameRest (classify_kind e.kind) s.view w e way in
        let emitted = emit_stored_effects (record s { view = store_event bee w e }) e in
        inr (record {
          fresh = fresh;
          valid = valid;
          unprotected = unprotected;
          unblocked = unblocked;
          events =
              ap (λ v. v.events) (emitted.0)
              ∙ (unfold store_event in ap (λ v. bee.put v e.id e) rest.events);
          deletion = ap (λ v. v.deletion) (emitted.0) ∙ (unfold store_event in rest.deletion);
          writers = ap (λ v. v.writers) (emitted.0) ∙ (unfold store_event in rest.writers);
          config = ap (λ v. v.config) (emitted.0) ∙ (unfold store_event in rest.config);
          added = emitted.1;
          acked = emitted.2;
        })

    -- An event that is put is stored, or the state stays as it is.
    pub apply_put_cases :
        (s : State bee) (e : NostrEvent)
        → (apply_put bee verify_event s e ≡ s)
          ⊎ Stored verify_event s e (apply_put bee verify_event s e)
    unfolding apply_put
    apply_put_cases s e = elim (Bool-cases (is_valid verify_event e)) [
      | inr bad ↦ rw bad (inl refl)
      | inl valid ↦ elim (Bool-cases (is_protected e)) [
        | inl closed ↦ rw (valid, closed) (inl refl)
        | inr unprotected ↦ elim (Bool-cases (is_stored (bee.get s.events e.id))) [
          | inl old ↦ rw (valid, unprotected, old) (inl refl)
          | inr fresh ↦ elim (Bool-cases (blocked (bee.get s.deletion e.id) e)) [
            | inl gone ↦ rw (valid, unprotected, fresh, gone) (inl refl)
            | inr free ↦
                rw (valid, unprotected, fresh, free)
                  (finish_put_cases s e (make_way bee (classify_kind e.kind) s.view e) refl
                    (is_stored-none (bee.get s.events e.id) fresh) valid unprotected free)
          ]
        ]
      ]
    ]

    apply_put_again :
        (t : State bee) (e f : NostrEvent)
        → bee.get t.events e.id ≡ some f
        → apply_put bee verify_event t e ≡ t
    unfolding apply_put
    apply_put_again t e f h = ground arith

    -- Putting an event twice is putting it once: replays change nothing.
    pub apply_put_idem :
        (s : State bee) (e : NostrEvent)
        → apply_put bee verify_event (apply_put bee verify_event s e) e
          ≡ apply_put bee verify_event s e
    apply_put_idem s e = elim (apply_put_cases s e) [
      | inl same ↦ ap (λ t. apply_put bee verify_event t e) same
      | inr st ↦ apply_put_again (apply_put bee verify_event s e) e e (
          ap (λ ev. bee.get ev e.id) st.events
          ∙ ground (arith, bee.get-put s.events e.id e.id e, eqb_refl e.id))
    ]

    -- No put removes or changes a stored event.
    pub events-apply_put :
        (s : State bee) (e f : NostrEvent) (k : Text)
        → bee.get s.events k ≡ some f
        → bee.get (apply_put bee verify_event s e).events k ≡ some f
    events-apply_put s e f k h = elim (apply_put_cases s e) [
      | inl same ↦ rw same h
      | inr st ↦
          ap (λ ev. bee.get ev k) st.events
          ∙ ground (arith, bee.get-put s.events e.id k e, eqb_iff e.id k, st.fresh)
    ]
