-- ===== src/Tests/Deletions.antt =====
-- Tests of `applyPut` and `applyDelete`, and instances of their theorems.
use nostr_swarm.Storage.Store.Lasting.{deletion_outlasts_puts, apply_puts}
use nostr_swarm.Tests.Data.{
  with_note, new_profile, forged, start, host_key, verify_all, deletion, alice, note, event_of,
  id_c, id_b, id_a, bob,
}
use nostr_swarm.Nostr.Event.{classify_kind, is_protected, validate_event_structure, NostrEvent}
use nostr_swarm.Keys.{deletion_key}
use nostr_swarm.Storage.Store.Effects.{apply_put_idem, events-apply_put}
use nostr_swarm.Storage.Store.Deletions.{
  forged_deletion_revives, delete_by_any_kind, events-apply_delete, unless_own,
}
use nostr_swarm.Storage.Indexes.{create_subs, tombstone}
use nostr_swarm.Hyperbee.Sorted.{sorted_hyperbee}
use nostr_swarm.Nostr.Deletion.{is_valid_deletion, e_target, e_targets}
use nostr_swarm.Storage.Store.{is_valid, blocked, apply_put, apply_delete}
use nostr_swarm.Hyperbee.{Hyperbee}
use nostr_swarm.Storage.Store.Ops.{State}
use nostr_swarm.Base.{
  if◌then◌else◌, Text, text, eqb, eqb_refl, includes_text, ◌≡◌, refl, ap, ◌≢◌, true, false, ◌&&◌,
  none, some, [], ◌∷◌, arith,
}

abbrev bee : Hyperbee
bee = sorted_hyperbee

-- A base in which Alice has deleted the note.
abbrev after_deletion : State sorted_hyperbee
after_deletion = record start {
  view = record (create_subs sorted_hyperbee) {
    deletion = bee.put bee.empty (deletion_key id_a) (tombstone id_b alice);
  };
}

-- A reaction by Alice that names the note.
abbrev reaction : NostrEvent
reaction = event_of id_b alice 200 7 ((text "e" ∷ id_a ∷ []) ∷ [])

note_there : bee.get with_note.events id_a ≡ some note
unfolding eqb
note_there = rw bee.get-put refl

valid_event : is_valid verify_all note ≡ true
unfolding validate_event_structure
valid_event = refl

valid_deletion : is_valid verify_all deletion ≡ true
unfolding validate_event_structure
valid_deletion = refl

valid_forged : is_valid verify_all forged ≡ true
unfolding validate_event_structure
valid_forged = refl

valid_reaction : is_valid verify_all reaction ≡ true
unfolding validate_event_structure
valid_reaction = refl

targets_note : includes_text (e_targets deletion.tags) id_a ≡ true
unfolding e_targets e_target includes_text eqb
targets_note = refl

differ : (a b : Text) → eqb a b ≡ false → a ≢ b
differ a b e h = cc (e, ap (eqb a) h, eqb_refl a)

b_not_a : id_b ≢ id_a
b_not_a = differ id_b id_a (unfold eqb in refl)

c_not_a : id_c ≢ id_a
c_not_a = differ id_c id_a (unfold eqb in refl)

bob_not_alice : bob ≢ alice
bob_not_alice = differ bob alice (unfold eqb in refl)

gone : unless_own deletion (bee.get with_note.events id_a) ≡ none
gone = rw note_there (unfold eqb in refl)

alice_tombstone : bee.get after_deletion.deletion id_a ≡ some (tombstone id_b alice)
alice_tombstone = rw bee.get-put (unfold eqb in refl)

apply_put_idem_example :
    apply_put bee verify_all (apply_put bee verify_all start note) note
    ≡ apply_put bee verify_all start note
apply_put_idem_example = apply_put_idem bee verify_all start note

events-apply_put_example :
    bee.get (apply_put bee verify_all with_note new_profile).events id_a ≡ some note
events-apply_put_example =
    events-apply_put bee verify_all with_note new_profile note id_a note_there

events-apply_delete_example :
    bee.get (apply_delete bee host_key verify_all with_note deletion).events id_a ≡ (
      if is_valid verify_all deletion && includes_text (e_targets deletion.tags) id_a
      then unless_own deletion (bee.get with_note.events id_a)
      else bee.get with_note.events id_a)
events-apply_delete_example =
    events-apply_delete bee host_key verify_all with_note deletion id_a b_not_a

deletion_outlasts_puts_example :
    bee.get
      (apply_puts bee host_key verify_all
        (apply_delete bee host_key verify_all with_note deletion)
        (new_profile ∷ note ∷ [])).events
      id_a
    ≡ none
deletion_outlasts_puts_example =
    deletion_outlasts_puts bee host_key verify_all with_note deletion id_a (new_profile ∷ note ∷ [])
      valid_deletion targets_note b_not_a gone ((λ h. refl), ((λ h. refl), tt))

forged_deletion_revives_example :
    (blocked (bee.get after_deletion.deletion id_a) note ≡ true)
    × (bee.get
          (apply_put bee verify_all
            (apply_delete bee host_key verify_all after_deletion forged)
            note).events
          id_a
        ≡ some note)
forged_deletion_revives_example =
    forged_deletion_revives bee host_key verify_all after_deletion forged note id_b alice_tombstone
      (unfold create_subs in bee.get-empty id_a) valid_event (unfold is_protected in refl)
      (unfold classify_kind in refl) valid_forged targets_note bob_not_alice c_not_a

delete_by_any_kind_example :
    (is_valid_deletion reaction ≡ false)
    × (bee.get (apply_delete bee host_key verify_all with_note reaction).events id_a ≡ none)
delete_by_any_kind_example =
    delete_by_any_kind bee host_key verify_all with_note reaction note id_a (λ h. omega arith)
      valid_reaction targets_note b_not_a note_there refl
