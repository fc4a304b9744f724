-- ===== src/Ws/Server/Delivery.antt =====
-- The delivery of events to live subscriptions (`broadcastToSubscriptions` of src/ws/handler.ts), and
-- the connections under their ids.
use nostr_swarm.Ws.Server.{broadcast_to_subscriptions, deliver_to, update_connection}
use nostr_swarm.Ws.{Connection, Reply, send_event, event_reply}
use nostr_swarm.Util.Maps.{get_entry}
use nostr_swarm.Nostr.Filter.{match_filters, NostrFilter}
use nostr_swarm.Nostr.Event.{NostrEvent}
use nostr_swarm.Base.{
  if◌then◌else◌, Bool-cases, keep, Text, eqb, eqb_iff, ◌≡◌, refl, sym, ap, ap₂, ◌∙◌, inl, inr,
  Option, none, some, List, [], ◌∷◌, ◌++◌, map, append_assoc, append-nil, arith,
}

abbrev pub map_found : {A B : Type 0} → (A → B) → Option A → Option B
map_found f none = none
map_found f (some a) = some (f a)

-- Changing the connection of one id leaves those of the others.
pub get_entry-update_connection :
    (key j : Text) (f : Connection → Connection) (conns : List (Text × Connection))
    → get_entry j (update_connection key f conns)
      ≡ (if eqb key j then map_found f (get_entry j conns) else get_entry j conns)
unfolding get_entry update_connection
get_entry-update_connection key j f [] = ground arith
get_entry-update_connection key j f ((i, conn) ∷ conns) =
    ground
      (arith, get_entry-update_connection key j f conns, eqb_iff i key, eqb_iff i j, eqb_iff key j)

module _ (to_lower_case : Text → Text) (event : NostrEvent) where
  -- What a connection is owed: the event for each of its subscriptions that matches, in their order.
  abbrev pub owed : Connection → List Reply
  owed conn =
      map (λ sub. event_reply sub.0 event)
        (keep (λ sub. match_filters to_lower_case sub.1 event) conn.subscriptions)

  abbrev pub with_owed : Connection → Connection
  with_owed conn = record conn { sent = conn.sent ++ owed conn }

  deliver_to_lem :
      (subs : List (Text × List NostrFilter)) (conn : Connection)
      → deliver_to to_lower_case event subs conn ≡ record conn {
        sent =
            conn.sent
            ++ map
                (λ sub. event_reply sub.0 event)
                (keep (λ sub. match_filters to_lower_case sub.1 event) subs);
      }
  unfolding deliver_to send_event
  deliver_to_lem [] conn = ap (λ l. record conn { sent = l }) (sym (append-nil conn.sent))
  deliver_to_lem ((sub_id, filters) ∷ subs) conn =
      elim (Bool-cases (match_filters to_lower_case filters event)) [
        | inr other ↦ rw other (deliver_to_lem subs conn)
        | inl matching ↦ rw matching (
            deliver_to_lem subs (send_event conn sub_id event)
            ∙ ap (λ l. record conn { sent = l }) (append_assoc conn.sent _ _))
      ]

  -- Every connection, and no other, gets what it is owed: the event once for each of its own
  -- subscriptions with a filter that matches, after what it was sent before; nothing else changes.
  pub broadcast_to_subscriptions_lem :
      (conns : List (Text × Connection))
      → broadcast_to_subscriptions to_lower_case event conns
        ≡ map (λ entry. (entry.0, with_owed entry.1)) conns
  unfolding broadcast_to_subscriptions
  broadcast_to_subscriptions_lem [] = refl
  broadcast_to_subscriptions_lem ((key, conn) ∷ conns) =
      ap₂ (λ (c : Connection) rest. (key, c) ∷ rest) (deliver_to_lem conn.subscriptions conn)
        (broadcast_to_subscriptions_lem conns)

  pub get_entry-broadcast :
      (key : Text) (conns : List (Text × Connection))
      → get_entry key (broadcast_to_subscriptions to_lower_case event conns)
        ≡ map_found with_owed (get_entry key conns)
  unfolding get_entry
  get_entry-broadcast key conns = rw (broadcast_to_subscriptions_lem conns) (go conns)
    where
      go :
          (l : List (Text × Connection))
          → get_entry key (map (λ entry. (entry.0, with_owed entry.1)) l)
            ≡ map_found with_owed (get_entry key l)
      go [] = refl
      go ((j, conn) ∷ l) = ground (arith, go l)
