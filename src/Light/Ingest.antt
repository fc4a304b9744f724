-- ===== src/Light/Ingest.antt =====
-- What the light store of src/light/store.ts takes in.
use nostr_swarm.Light.{
  count_author_events, put_event, is_exempt, light_delete_event, light_put_event,
}
use nostr_swarm.Wot.Graph.{get_score, WotGraph, WotConfig}
use nostr_swarm.Nostr.Event.{NostrEvent}
use nostr_swarm.Storage.Client.{Client}
use nostr_swarm.Hyperbee.{Hyperbee}
use nostr_swarm.Wot.Policy.{evaluate}
use nostr_swarm.Base.{ltb, if◌then◌else◌, eqb, negsuc, ◌≡◌, true, false, ◌&&◌, arith}

module _ (bee : Hyperbee) (config : WotConfig) (graph : WotGraph) (s : Client bee)
    (event : NostrEvent) where
  -- From a muted author nothing is put and nothing is deleted, but for a put of an exempt kind.
  muted_is_refused :
      (get_score config graph event.pubkey).muted ≡ true
      → (light_put_event bee config graph s event
          ≡ (if is_exempt event.kind then (put_event bee s event, true) else (s, false)))
        × (light_delete_event bee config graph s event ≡ (s, false))
  unfolding light_put_event light_delete_event evaluate
  muted_is_refused muted = ground arith

  -- Outside the exempt kinds, an event of an unknown author is put only if discovery is on and the
  -- author has fewer stored events than the bound.
  light_put_event_unknown :
      (get_score config graph event.pubkey).muted ≡ false
      → eqb event.pubkey config.owner_pubkey ≡ false
      → (get_score config graph event.pubkey).degree ≡ negsuc 0
      → is_exempt event.kind ≡ false
      → light_put_event bee config graph s event ≡ (
          if config.discovery_enabled
            && ltb
                (count_author_events bee s.indexes event.pubkey)
                config.discovery_max_events_per_pubkey
          then (put_event bee s event, true)
          else (s, false))
  unfolding light_put_event evaluate
  light_put_event_unknown unmuted other unknown kept = ground arith
