-- ===== src/Tests/Nostr.antt =====
-- Tests of events.
use nostr_swarm.Tests.Data.{alice, id_c, id_b, event_of, id_a, profile, new_profile}
use nostr_swarm.Nostr.Event.{NostrEvent, should_replace}
use nostr_swarm.Base.{eqb, ◌≡◌, refl, true, false, []}

replaced : should_replace profile new_profile ≡ true
unfolding should_replace
replaced = refl

abbrev newer_yet : NostrEvent
newer_yet = event_of id_c alice 300 0 []

replaced_again : should_replace new_profile newer_yet ≡ true
unfolding should_replace
replaced_again = refl

apart : eqb id_a id_b ≡ false
unfolding eqb
apart = refl
