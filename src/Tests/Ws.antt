-- ===== src/Tests/Ws.antt =====
-- The relay on small inputs: one connection, and messages as their values.
use nostr_swarm.Nostr.Event.{Verdict, genuine, NostrEvent}
use nostr_swarm.Nostr.Json.{Fields, Json, object, field, end, array, cons, nil, string, number}
use nostr_swarm.Tests.Data.{note, id_a, alice, sig_128}
use nostr_swarm.Ws.Server.Limits.{run-AllWithin, AllWithin, run}
use nostr_swarm.Ws.Server.Appends.{step-Appends, Appends}
use nostr_swarm.Ws.Server.Answers.{handle_event-Answered, Answered}
use nostr_swarm.Ws.Server.Delivery.{broadcast_to_subscriptions_lem, with_owed}
use nostr_swarm.Ws.Server.{
  Relay, Input, handle_event, step, opened, received, emitted, broadcast_to_subscriptions,
}
use nostr_swarm.Ws.Handler.Requests.{handle_req-Replied, Replied}
use nostr_swarm.Ws.Handler.Auth.{handle_auth-validate_auth, settle, checked}
use nostr_swarm.Ws.Handler.{handle_req, handle_auth, event_id, fields_of}
use nostr_swarm.Ws.{Connection, RelayConfig, new_connection, send_ok}
use nostr_swarm.Nostr.Filter.Typed.{validate_filter-IsTyped, IsTyped}
use nostr_swarm.Nostr.Filter.Validate.{typed_filter, validate_filter}
use nostr_swarm.Nostr.Event.Structure.{is_event_structure, typed_event}
use nostr_swarm.Util.Maps.{get_entry}
use nostr_swarm.Storage.Client.{Client}
use nostr_swarm.Storage.Indexes.{create_subs}
use nostr_swarm.Storage.Query.Sound.{UnderOwnId}
use nostr_swarm.Hyperbee.Sorted.{sorted_hyperbee}
use nostr_swarm.Storage.Store.{store_event}
use nostr_swarm.Hyperbee.{Hyperbee}
use nostr_swarm.Base.{
  if◌then◌else◌, Text, text, eqb, eqb_iff, starts_with, ℤ, pos, ◌≡◌, refl, true, false, Option,
  none, some, List, [], ◌∷◌, map, arith,
}

abbrev verify_any : Fields → Verdict
verify_any fs = genuine

abbrev bee : Hyperbee
bee = sorted_hyperbee

abbrev same_case : Text → Text
same_case s = s

abbrev client : Client bee
client = record {
  base_key = none;
  local_key = [];
  writable = true;
  indexes = store_event bee (create_subs sorted_hyperbee) note;
  sent = [];
}

abbrev config : RelayConfig
config = record {
  max_message_size = 1000;
  max_subscriptions_per_conn = 1;
  max_filters_per_req = 2;
  event_rate_per_sec = 5;
  req_rate_per_sec = 5;
}

abbrev filter_json : Fields
filter_json = field (text "kinds") (array (cons (number (pos 1)) nil)) (
    field (text "#e") (array (cons (string (text "x")) nil))
      (field (text "limit") (number (pos 5)) end))

valid_json : validate_filter (object filter_json) ≡ true
unfolding validate_filter eqb starts_with
valid_json = refl

validate_filter-IsTyped_example : IsTyped filter_json (typed_filter filter_json)
validate_filter-IsTyped_example = validate_filter-IsTyped filter_json valid_json

abbrev note_json : Json
note_json = object (
    field (text "id") (string id_a) (
      field (text "pubkey") (string alice) (
        field (text "created_at") (number (pos 100)) (
          field (text "kind") (number (pos 1)) (
            field (text "tags") (array nil)
              (field (text "content") (string []) (field (text "sig") (string sig_128) end)))))))

abbrev fresh : Connection
fresh = new_connection config (text "c0ffee") (pos 0)

abbrev listening : Connection
listening = record fresh { subscriptions = (text "s", typed_filter end ∷ []) ∷ [] }

abbrev relay : Relay bee
relay = record { store = client; connections = (text "a", listening) ∷ []; append_fails = false }

abbrev event_message : List Json
event_message = string (text "EVENT") ∷ note_json ∷ []

is_open : get_entry (text "a") relay.connections ≡ some listening
unfolding get_entry eqb
is_open = refl

handle_event-Answered_example :
    Answered bee verify_any same_case
      (pos 1)
      (pos 1)
      listening
      false
      note_json
      (event_id note_json)
      (handle_event bee verify_any same_case
        (pos 1)
        (pos 1)
        relay
        (text "a")
        listening
        event_message).connections
      (text "a")
handle_event-Answered_example =
    handle_event-Answered bee verify_any same_case (pos 1) (pos 1) relay (text "a") listening
      (string (text "EVENT")) note_json [] is_open

broadcast_to_subscriptions_example :
    broadcast_to_subscriptions same_case note relay.connections
    ≡ map (λ entry. (entry.0, with_owed same_case note entry.1)) relay.connections
broadcast_to_subscriptions_example = broadcast_to_subscriptions_lem same_case note relay.connections

abbrev req_message : Json
req_message =
    array (cons (string (text "REQ")) (cons (string (text "s")) (cons (object filter_json) nil)))

-- The messages of this test: one text is an event, all others are a request.
abbrev parse : Text → Option Json
parse [] = some (array (cons (string (text "EVENT")) (cons note_json nil)))
parse _ = some req_message

step-Appends_example :
    Appends bee verify_any same_case
      (pos 1)
      (pos 1)
      relay
      (step bee verify_any same_case (pos 1) (pos 1) parse config relay (received (text "a") []))
step-Appends_example =
    step-Appends bee verify_any same_case (pos 1) (pos 1) parse config relay
      (received (text "a") [])

abbrev nobody : Relay bee
nobody = record { store = client; connections = []; append_fails = false }

nobody_within : AllWithin bee config nobody
unfolding AllWithin
nobody_within = tt

abbrev inputs : List (ℤ × ℤ × Input)
inputs =
    (pos 0, pos 0, opened (text "a") (text "c0ffee"))
    ∷ (pos 1, pos 0, received (text "a") (text "req"))
    ∷ (pos 2, pos 0, emitted note)
    ∷ []

run-AllWithin_example :
    AllWithin bee config (run bee config verify_any same_case parse nobody inputs)
run-AllWithin_example =
    run-AllWithin bee config verify_any same_case parse nobody inputs nobody_within

client-UnderOwnId : UnderOwnId bee client.indexes
unfolding store_event create_subs
client-UnderOwnId k e h = ground (
  arith,
  bee.get-put (bee.empty {V = NostrEvent}) id_a k note,
  bee.get-empty {V = NostrEvent} k,
  eqb_iff id_a k,
)

handle_req-Replied_example :
    Replied bee same_case
      (pos 1)
      (pos 1)
      client
      client-UnderOwnId
      fresh
      (string (text "REQ") ∷ string (text "s") ∷ object filter_json ∷ [])
      (handle_req bee same_case
        (pos 1)
        (pos 1)
        client
        fresh
        (string (text "REQ") ∷ string (text "s") ∷ object filter_json ∷ []))
handle_req-Replied_example =
    handle_req-Replied bee same_case (pos 1) (pos 1) client client-UnderOwnId fresh
      (string (text "REQ") ∷ string (text "s") ∷ object filter_json ∷ [])

handle_auth-validate_auth_example :
    handle_auth verify_any (pos 1) fresh (string (text "AUTH") ∷ note_json ∷ []) ≡ (
      if is_event_structure note_json
      then settle fresh
          (typed_event (fields_of note_json)).id
          (checked verify_any (pos 1) fresh (fields_of note_json))
      else send_ok fresh (event_id note_json) false (text "invalid: bad event structure"))
handle_auth-validate_auth_example =
    handle_auth-validate_auth verify_any (pos 1) fresh (string (text "AUTH")) note_json []
