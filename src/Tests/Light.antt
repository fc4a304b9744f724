-- ===== src/Tests/Light.antt =====
-- Instances of the theorems on the light store.
use nostr_swarm.Light.Prune.{to_drop-MayDrop, MayDrop}
use nostr_swarm.Light.{prune_batch, to_drop}
use nostr_swarm.Storage.Client.{Client}
use nostr_swarm.Tests.Data.{id_a, start, with_note, id_c, id_b, host_key, bob, alice, event_of}
use nostr_swarm.Wot.Graph.{is_explicitly_muted, WotConfig, WotGraph, get_score}
use nostr_swarm.Hyperbee.Sorted.{sorted_hyperbee}
use nostr_swarm.Util.Maps.{get_entry}
use nostr_swarm.Nostr.Event.{NostrEvent}
use nostr_swarm.Base.{length, All, eqb, includes_text, ◌≤◌, ◌≡◌, refl, true, false, some, [], ◌∷◌}

abbrev no_graph : WotGraph
no_graph = record { follows = []; mutes = (alice, bob ∷ []) ∷ []; degrees = []; scores = [] }

abbrev light_config : WotConfig
light_config = record {
  owner_pubkey = alice;
  max_depth = 3;
  trust_by_degree = λ d. some 1;
  ttl_by_degree = λ d. some 0;
  refresh_interval_ms = 1000;
  discovery_enabled = true;
  discovery_ttl = 7200;
  discovery_max_events_per_pubkey = 5;
}

abbrev store : Client sorted_hyperbee
store = record {
  base_key = some host_key;
  local_key = host_key;
  writable = true;
  indexes = start.view;
  sent = [];
}

-- A note by Bob, whom Alice mutes, and one by an author whom nobody knows.
abbrev bobs_note : NostrEvent
bobs_note = event_of id_b bob 200 1 []

abbrev strangers_note : NostrEvent
strangers_note = event_of id_c id_a 200 1 []

bob_muted : (get_score light_config no_graph bob).muted ≡ true
unfolding get_score get_entry is_explicitly_muted eqb includes_text
bob_muted = refl

stranger_unmuted : (get_score light_config no_graph id_a).muted ≡ false
unfolding get_score get_entry is_explicitly_muted eqb includes_text
stranger_unmuted = refl

to_drop-MayDrop_example :
    All
      (MayDrop sorted_hyperbee (λ e. 100) with_note.view)
      (to_drop sorted_hyperbee (λ e. 100) with_note.view 50)
    × length (to_drop sorted_hyperbee (λ e. 100) with_note.view 50) ≤ prune_batch
to_drop-MayDrop_example = to_drop-MayDrop sorted_hyperbee (λ e. 100) with_note.view 50
