-- ===== src/Tests/Shim.antt =====
-- Instances of the theorems on the adapter.
use nostr_swarm.Util.Maps.{set_entry, get_entry}
use nostr_swarm.Shim.Lru.{delete_entry}
use nostr_swarm.Base.{
  length, In, All, Text, text, eqb, includes_text, ◌+◌, ◌≤◌, ◌≡◌, refl, ◌⊎◌, true, Option, none,
  some, List, [], ◌∷◌, arith,
}
use nostr_swarm.Shim.Upstream.Counting.{text_count, started, key_count, settled_count}
use nostr_swarm.Shim.Upstream.Socket.{
  closes, drops, advance, on_open, query, route, Occurrence, on_close, opens, queries, receives,
  eose_in,
}
use nostr_swarm.Shim.Upstream.{fail_all_pending, UpstreamSocket, new_socket}
use nostr_swarm.Shim.Notifications.{classify_interaction, classify_all}
use nostr_swarm.Shim.Notifications.About.{classify_all-IsAbout, IsAbout}
use nostr_swarm.Tests.Data.{id_a, alice, bob, event_of, id_b}
use nostr_swarm.Shim.Upstream.Settles.{run_settles_queries, run}
use nostr_swarm.Shim.Upstream.Pool.{pick-IsBest, IsBest, pick}
use nostr_swarm.Shim.Session.Bounds.{request_supersedes, IsGivenUp}
use nostr_swarm.Shim.Session.{
  Session, Call, new_session, begin_request, cancel, begins, registers, cancels,
}
use nostr_swarm.Shim.Stats.Counts.{tally_all-Counted, Counted}
use nostr_swarm.Shim.Stats.{EventStats, empty_stats, tally_all}
use nostr_swarm.Nostr.Event.{NostrEvent}
use nostr_swarm.Nostr.Json.{Json}

abbrev course : List Occurrence
course = opens ∷ queries (text "q1") [] ∷ receives (eose_in (text "q1")) ∷ []

course_once : (j : Text) → started j course ≤ 1
unfolding started
course_once j = ground arith

run_settles_queries_example :
    (key_count (text "q1") (run new_socket course).pending_queries
        + settled_count (text "q1") (run new_socket course).settled
        + text_count (text "q1") (run new_socket course).uncaught
      ≡ started (text "q1") course)
    × (settled_count (text "q1") (on_close (run new_socket course)).settled
          + text_count (text "q1") (run new_socket course).uncaught
        ≡ started (text "q1") course)
    × ((text_count (text "q1") (run new_socket course).uncaught ≡ 0) ⊎ In closes course)
run_settles_queries_example = run_settles_queries course course_once (text "q1")

-- An EOSE between the closing handshake and the end of the connection: the query is lost.
abbrev late_course : List Occurrence
late_course = opens ∷ queries (text "q1") [] ∷ closes ∷ receives (eose_in (text "q1")) ∷ drops ∷ []

late_query_is_lost : (run new_socket late_course).settled ≡ []
unfolding run advance on_open query route on_close fail_all_pending new_socket get_entry set_entry
    eqb delete_entry
late_query_is_lost = refl

abbrev open_socket : UpstreamSocket
open_socket = record new_socket { connected = true }

pick-IsBest_example : IsBest (new_socket ∷ open_socket ∷ []) (pick (new_socket ∷ open_socket ∷ []))
pick-IsBest_example = pick-IsBest (new_socket ∷ open_socket ∷ [])

abbrev calls : List Call
calls = begins (text "s") ∷ registers (text "s") 0 ∷ cancels (text "s") ∷ []

new_session_fits : length new_session.live_subs ≤ 8
unfolding new_session
new_session_fits = omega arith

abbrev busy : Session
busy = record new_session {
  active = (text "s", 0) ∷ [];
  live_subs = (text "s", 7) ∷ [];
  controllers = 1;
}

request_supersedes_example :
    (IsGivenUp busy (text "s") (begin_request busy (text "s")).0
      × (get_entry (text "s") (begin_request busy (text "s")).0.active
          ≡ some (begin_request busy (text "s")).1))
    × IsGivenUp busy (text "s") (cancel busy (text "s"))
    × (get_entry (text "s") (cancel busy (text "s")).active ≡ none)
request_supersedes_example = request_supersedes busy (text "s")

abbrev like : NostrEvent
like = event_of id_b bob 200 7 ((text "e" ∷ id_a ∷ []) ∷ [])

abbrev no_json : Text → Option Json
no_json s = none

tracked : get_entry id_a ((id_a, empty_stats id_a) ∷ []) ≡ some (empty_stats id_a)
unfolding get_entry eqb
tracked = refl

tally_all-Counted_example :
    (t : EventStats) × (get_entry id_a
        (tally_all no_json (like ∷ []) ((id_a, empty_stats id_a) ∷ []))
      ≡ some t)
    × Counted no_json id_a (like ∷ []) (empty_stats id_a) t
tally_all-Counted_example =
    tally_all-Counted no_json id_a (like ∷ []) ((id_a, empty_stats id_a) ∷ []) (empty_stats id_a)
      tracked

-- A like and a reply of another to a note of Alice's, and her own reply.
abbrev interactions : List NostrEvent
interactions =
    event_of id_b bob 200 7 ((text "e" ∷ id_a ∷ []) ∷ [])
    ∷ event_of id_b bob 201 1 ((text "e" ∷ id_a ∷ []) ∷ [])
    ∷ event_of id_b alice 202 1 ((text "e" ∷ id_a ∷ []) ∷ [])
    ∷ []

two_notifications : length (classify_all no_json interactions alice (id_a ∷ [])) ≡ 2
unfolding classify_all classify_interaction eqb includes_text
two_notifications = refl

classify_all-IsAbout_example :
    All (IsAbout alice (id_a ∷ [])) (classify_all no_json interactions alice (id_a ∷ []))
classify_all-IsAbout_example = classify_all-IsAbout alice (id_a ∷ []) no_json interactions
