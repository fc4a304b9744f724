-- ===== src/Storage/Store/Sound/Puts.antt =====
-- `applyPut` keeps the indexes sound.
use nostr_swarm.Nostr.Event.{
  Verdict, is_protected, classify_kind, NostrEvent, EventKind, get_d_tag, should_replace,
}
use nostr_swarm.Storage.Store.Sound.{
  store_event-IsSound, Kept, IsSound, pointed, remove_indexes-IsSound,
}
use nostr_swarm.Storage.Store.{
  store_event, emit_stored, blocked, finish_put, is_valid, apply_put, is_stored, State, make_way,
  supersede, deref, point_replaceable, point_addressable, remove_indexes,
}
use nostr_swarm.Storage.Store.Effects.{is_stored-none}
use nostr_swarm.Hyperbee.{Hyperbee}
use nostr_swarm.Keys.{replaceable_key, addressable_key}
use nostr_swarm.Storage.Indexes.{IndexSubs, put_all}
use nostr_swarm.Base.{
  Bool-cases, some-eq, none-ne-some, Text, ◌≡◌, refl, sym, ap, ◌∙◌, subst, ◌≢◌, inl, inr, true,
  false, Option, none, some, arith,
}

-- A view that is sound and holds the same events.
module _ (bee : Hyperbee) (verify_event : NostrEvent → Verdict) where
  record Cleared (subs cleared : IndexSubs bee) : Type 0 where
    sound : IsSound bee verify_event cleared
    same_events : cleared.events ≡ subs.events

  point_replaceable-some :
      (o : Option (IndexSubs bee)) (key id : Text) (w : IndexSubs bee)
      → point_replaceable bee key id o ≡ some w
      → (subs : IndexSubs bee) × (o ≡ some subs)
        × (record subs { replaceable = bee.put subs.replaceable key id } ≡ w)
  point_replaceable-some none key id w h = absurd (none-ne-some h)
  point_replaceable-some (some subs) key id w h = (subs, refl, some-eq h)

  point_addressable-some :
      (o : Option (IndexSubs bee)) (key id : Text) (w : IndexSubs bee)
      → point_addressable bee key id o ≡ some w
      → (subs : IndexSubs bee) × (o ≡ some subs)
        × (record subs { addressable = bee.put subs.addressable key id } ≡ w)
  point_addressable-some none key id w h = absurd (none-ne-some h)
  point_addressable-some (some subs) key id w h = (subs, refl, some-eq h)

  supersede-Cleared :
      (subs cleared : IndexSubs bee) (o : Option NostrEvent) (e : NostrEvent)
      → IsSound bee verify_event subs
      → supersede bee subs o e ≡ some cleared
      → Cleared subs cleared
  supersede-Cleared subs cleared none e s h =
      subst (λ x. Cleared subs x) (some-eq h) (record { sound = s; same_events = refl })
  supersede-Cleared subs cleared (some prev) e s h = elim (Bool-cases (should_replace prev e)) [
    | inl wins ↦
        subst (λ x. Cleared subs x) (some-eq (rw wins at h))
          (record {
            sound = remove_indexes-IsSound bee verify_event subs prev s;
            same_events = unfold remove_indexes in refl;
          })
    | inr loses ↦ absurd (none-ne-some (rw loses at h))
  ]

  make_way-pointed :
      (kind : EventKind) (subs w : IndexSubs bee) (e : NostrEvent)
      → IsSound bee verify_event subs
      → make_way bee kind subs e ≡ some w
      → (cleared : IndexSubs bee) × Cleared subs cleared
        × (pointed bee verify_event kind cleared e ≡ w)
  unfolding make_way put_all
  make_way-pointed EventKind.regular subs w e s h =
      (subs, record { sound = s; same_events = refl }, some-eq h)
  make_way-pointed EventKind.ephemeral subs w e s h = absurd (none-ne-some h)
  make_way-pointed EventKind.replaceable subs w e s h =
      let r_key = replaceable_key e.pubkey e.kind in
      let o = deref bee subs (bee.get subs.replaceable r_key) in
      let (cleared, found, same) = point_replaceable-some (supersede bee subs o e) r_key e.id w h in
      (cleared, supersede-Cleared subs cleared o e s found, same)
  make_way-pointed EventKind.addressable subs w e s h =
      let a_key = addressable_key e.pubkey e.kind (get_d_tag e) in
      let o = deref bee subs (bee.get subs.addressable a_key) in
      let (cleared, found, same) = point_addressable-some (supersede bee subs o e) a_key e.id w h in
      (cleared, supersede-Cleared subs cleared o e s found, same)

  pub view-emit_stored : (s : State bee) (e : NostrEvent) → (emit_stored bee s e).view ≡ s.view
  unfolding emit_stored
  view-emit_stored s e = ground arith

  finish_put-IsSound :
      (s : State bee) (e : NostrEvent) (o : Option (IndexSubs bee))
      → make_way bee (classify_kind e.kind) s.view e ≡ o
      → bee.get s.events e.id ≡ none
      → is_valid verify_event e ≡ true
      → is_protected e ≡ false
      → IsSound bee verify_event s.view
      → IsSound bee verify_event (finish_put bee s e o).view
  unfolding make_way
  finish_put-IsSound s e none way fresh valid open_ h = h
  finish_put-IsSound s e (some w) way fresh valid open_ h =
      let (cleared, c, same) = make_way-pointed (classify_kind e.kind) s.view w e h way in
      let durable : classify_kind e.kind ≢ EventKind.ephemeral =
        λ eph. none-ne-some (sym (ap (λ k. make_way bee k s.view e) eph) ∙ way) in
      let kept : Kept bee verify_event e.id e = record {
        own_id = refl;
        valid = valid;
        unprotected = open_;
        durable = durable;
      } in
      let empty : bee.get cleared.events e.id ≡ none =
        ap (λ events. bee.get events e.id) c.same_events ∙ fresh in
      rw view-emit_stored (
        subst (λ x. IsSound bee verify_event (store_event bee x e)) same
          (store_event-IsSound bee verify_event cleared e empty kept c.sound))

  -- Whatever is put, sound indexes stay sound.
  pub apply_put-IsSound :
      (s : State bee) (e : NostrEvent)
      → IsSound bee verify_event s.view
      → IsSound bee verify_event (apply_put bee verify_event s e).view
  unfolding apply_put
  apply_put-IsSound s e h = elim (Bool-cases (is_valid verify_event e)) [
    | inr bad ↦ rw bad h
    | inl valid ↦ elim (Bool-cases (is_protected e)) [
      | inl closed ↦ rw (valid, closed) h
      | inr unprotected ↦ elim (Bool-cases (is_stored (bee.get s.events e.id))) [
        | inl old ↦ rw (valid, unprotected, old) h
        | inr fresh ↦ elim (Bool-cases (blocked (bee.get s.deletion e.id) e)) [
          | inl gone ↦ rw (valid, unprotected, fresh, gone) h
          | inr free ↦
              rw (valid, unprotected, fresh, free)
                (finish_put-IsSound s e (make_way bee (classify_kind e.kind) s.view e) refl
                  (is_stored-none (bee.get s.events e.id) fresh) valid unprotected h)
        ]
      ]
    ]
  ]
