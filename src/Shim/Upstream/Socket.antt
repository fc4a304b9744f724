-- ===== src/Shim/Upstream/Socket.antt =====
-- What happens to a socket of the client of the backing relay, one function for each occurrence
-- (`UpstreamSocket` of src/primal-shim/upstream.ts).
use nostr_swarm.Shim.Upstream.{
  reconnect_min_ms, reconnect_max_ms, PublishResult, Request, req_request, count_request,
  close_request, event_request, fetched, fetch_failed, counted, count_failed, published,
  publish_failed, UpstreamSocket, settle, to_wire, try_send, fail_all_pending,
}
use nostr_swarm.Shim.Lru.{delete_entry}
use nostr_swarm.Util.Maps.{get_entry, set_entry, has_entry}
use nostr_swarm.Nostr.Filter.{NostrFilter}
use nostr_swarm.Nostr.Event.{NostrEvent}
use nostr_swarm.Base.{
  leb, ◌==◌, if◌then◌else◌, Text, text, ℕ, ◌*◌, Bool, true, false, Option, none, some, List, [],
  ◌∷◌, ◌++◌,
}

-- The messages of the relay that the client acts on.
pub data Incoming : Type 0 where
  event_in : Text → NostrEvent → Incoming
  eose_in : Text → Incoming
  closed_in : Text → Text → Incoming
  count_in : Text → ℕ → Incoming
  ok_in : Text → PublishResult → Incoming

abbrev pub push_event :
    UpstreamSocket → Text → NostrEvent → Option (List NostrEvent) → UpstreamSocket
push_event s sub_id event (some events) = record s {
  pending_queries = set_entry sub_id (events ++ event ∷ []) s.pending_queries;
}
push_event s sub_id event none =
    if has_entry sub_id s.live_subs
    then record s { delivered = s.delivered ++ (sub_id, event) ∷ [] }
    else s

-- The query is no longer pending when CLOSE is sent. Where that throws, as the connection is closing,
-- the promise is not settled.
abbrev pub finish_query : UpstreamSocket → Text → Option (List NostrEvent) → UpstreamSocket
finish_query s sub_id none = s
finish_query s sub_id (some events) =
    let rest = record s { pending_queries = delete_entry sub_id s.pending_queries } in
    if s.connected
    then settle (to_wire rest (close_request sub_id)) (fetched sub_id events)
    else record rest { uncaught = s.uncaught ++ sub_id ∷ [] }

abbrev pub fail_query : UpstreamSocket → Text → Text → Option (List NostrEvent) → UpstreamSocket
fail_query s sub_id reason none = s
fail_query s sub_id reason (some events) =
    settle (record s { pending_queries = delete_entry sub_id s.pending_queries })
      (fetch_failed sub_id reason)

abbrev pub finish_count : UpstreamSocket → Text → ℕ → Option Bool → UpstreamSocket
finish_count s sub_id count none = s
finish_count s sub_id count (some waits) =
    settle (record s { pending_counts = delete_entry sub_id s.pending_counts })
      (counted sub_id count)

-- The oldest waiter of the id gets the result.
abbrev pub pop_waiter : UpstreamSocket → Text → PublishResult → Option (List ℕ) → UpstreamSocket
pop_waiter s id result none = s
pop_waiter s id result (some []) = s
pop_waiter s id result (some (timer ∷ [])) =
    settle (record s { ok_waiters = delete_entry id s.ok_waiters }) (published timer result)
pop_waiter s id result (some (timer ∷ t ∷ timers)) =
    settle (record s { ok_waiters = set_entry id (t ∷ timers) s.ok_waiters })
      (published timer result)

unfoldable pub route : UpstreamSocket → Incoming → UpstreamSocket
route s (event_in sub_id event) = push_event s sub_id event (get_entry sub_id s.pending_queries)
route s (eose_in sub_id) = finish_query s sub_id (get_entry sub_id s.pending_queries)
route s (closed_in sub_id reason) = fail_query s sub_id reason (get_entry sub_id s.pending_queries)
route s (count_in sub_id count) = finish_count s sub_id count (get_entry sub_id s.pending_counts)
route s (ok_in id result) = pop_waiter s id result (get_entry id s.ok_waiters)

-- The live subscriptions, sent again on a new connection.
unfoldable pub resend_all : List (Text × List NostrFilter) → List Request
resend_all [] = []
resend_all ((sub_id, filters) ∷ subs) = req_request sub_id filters ∷ resend_all subs

unfoldable pub on_open : UpstreamSocket → UpstreamSocket
unfolding resend_all
on_open s = record s {
  connected = true;
  reconnect_delay = reconnect_min_ms;
  wire = s.wire ++ resend_all s.live_subs;
}

-- The delay that the reconnect waits is the one before it doubles.
unfoldable pub on_close : UpstreamSocket → UpstreamSocket
unfolding fail_all_pending
on_close s =
    let failed =
      fail_all_pending (text "upstream relay connection closed") (record s { connected = false }) in
    if s.closed then failed else record failed {
      reconnect_delay =
          if leb (s.reconnect_delay * 2) reconnect_max_ms
          then s.reconnect_delay * 2
          else reconnect_max_ms;
    }

unfoldable pub close : UpstreamSocket → UpstreamSocket
unfolding fail_all_pending
close s = record (fail_all_pending (text "shim shutting down") (record s { closed = true })) {
  connected = false;
}

-- The id of the subscription is a fresh one (`nextSubId`).
unfoldable pub query : UpstreamSocket → Text → List NostrFilter → UpstreamSocket
query s sub_id filters =
    if s.connected
    then to_wire (record s { pending_queries = set_entry sub_id [] s.pending_queries })
        (req_request sub_id filters)
    else settle s (fetch_failed sub_id (text "upstream relay not connected"))

unfoldable pub count : UpstreamSocket → Text → List NostrFilter → UpstreamSocket
count s sub_id filters =
    if s.connected
    then to_wire (record s { pending_counts = set_entry sub_id true s.pending_counts })
        (count_request sub_id filters)
    else settle s (count_failed sub_id (text "upstream relay not connected"))

-- The timers. They are cleared when the promise is settled, and do nothing then.
abbrev pub time_out_query : UpstreamSocket → Text → Option (List NostrEvent) → UpstreamSocket
time_out_query s sub_id none = s
time_out_query s sub_id (some events) =
    settle
      (try_send (record s { pending_queries = delete_entry sub_id s.pending_queries })
        (close_request sub_id))
      (fetch_failed sub_id (text "upstream query timed out"))

abbrev pub time_out_count : UpstreamSocket → Text → Option Bool → UpstreamSocket
time_out_count s sub_id none = s
time_out_count s sub_id (some waits) =
    settle (record s { pending_counts = delete_entry sub_id s.pending_counts })
      (count_failed sub_id (text "upstream count timed out"))

unfoldable pub open_live_sub : UpstreamSocket → Text → List NostrFilter → UpstreamSocket
open_live_sub s sub_id filters =
    try_send (record s { live_subs = set_entry sub_id filters s.live_subs })
      (req_request sub_id filters)

unfoldable pub close_live_sub : UpstreamSocket → Text → UpstreamSocket
close_live_sub s sub_id =
    try_send (record s { live_subs = delete_entry sub_id s.live_subs }) (close_request sub_id)

abbrev pub resubscribe_to : UpstreamSocket → Text → Option (List NostrFilter) → UpstreamSocket
resubscribe_to s sub_id none = s
resubscribe_to s sub_id (some filters) =
    if s.closed then s else try_send s (req_request sub_id filters)

abbrev pub waiters_of : Option (List ℕ) → List ℕ
waiters_of none = []
waiters_of (some timers) = timers

-- One attempt of `publish`, whose waiter has the number of its timer. Where the send throws, the
-- waiter stays.
unfoldable pub publish_once : UpstreamSocket → ℕ → NostrEvent → UpstreamSocket
publish_once s timer event =
    let waiting = record s {
      ok_waiters =
          set_entry event.id (waiters_of (get_entry event.id s.ok_waiters) ++ timer ∷ [])
            s.ok_waiters;
    } in
    if s.connected
    then to_wire waiting (event_request event)
    else settle waiting (publish_failed timer (text "error: upstream relay not connected"))

-- The timers of an id without one.
unfoldable pub remove_timer : ℕ → List ℕ → List ℕ
remove_timer timer [] = []
remove_timer timer (t ∷ timers) =
    let rest = remove_timer timer timers in if t == timer then timers else t ∷ rest

abbrev pub set_waiters : UpstreamSocket → Text → List ℕ → UpstreamSocket
set_waiters s id [] = record s { ok_waiters = delete_entry id s.ok_waiters }
set_waiters s id (t ∷ timers) = record s { ok_waiters = set_entry id (t ∷ timers) s.ok_waiters }

abbrev pub time_out_ok : UpstreamSocket → Text → ℕ → Option (List ℕ) → UpstreamSocket
time_out_ok s id timer none = s
time_out_ok s id timer (some timers) =
    settle (set_waiters s id (remove_timer timer timers)) (
      published timer
        (record { accepted = false; reason = text "error: timed out waiting for OK" }))

-- What happens to the socket; `closes` is the closing handshake, after which messages can still
-- arrive until the connection drops. In the order in which it happens.
pub data Occurrence : Type 0 where
  opens : Occurrence
  closes : Occurrence
  drops : Occurrence
  shuts : Occurrence
  receives : Incoming → Occurrence
  queries : Text → List NostrFilter → Occurrence
  counts : Text → List NostrFilter → Occurrence
  query_timer : Text → Occurrence
  count_timer : Text → Occurrence
  publishes : ℕ → NostrEvent → Occurrence
  ok_timer : Text → ℕ → Occurrence
  subscribes : Text → List NostrFilter → Occurrence
  unsubscribes : Text → Occurrence
  resubscribe_timer : Text → Occurrence

unfoldable pub advance : UpstreamSocket → Occurrence → UpstreamSocket
unfolding on_open on_close close route query count publish_once remove_timer open_live_sub
    close_live_sub
advance s opens = on_open s
advance s closes = record s { connected = false }
advance s drops = on_close s
advance s shuts = close s
advance s (receives message) = route s message
advance s (queries sub_id filters) = query s sub_id filters
advance s (counts sub_id filters) = count s sub_id filters
advance s (query_timer sub_id) = time_out_query s sub_id (get_entry sub_id s.pending_queries)
advance s (count_timer sub_id) = time_out_count s sub_id (get_entry sub_id s.pending_counts)
advance s (publishes timer event) = publish_once s timer event
advance s (ok_timer id timer) = time_out_ok s id timer (get_entry id s.ok_waiters)
advance s (subscribes sub_id filters) = open_live_sub s sub_id filters
advance s (unsubscribes sub_id) = close_live_sub s sub_id
advance s (resubscribe_timer sub_id) = resubscribe_to s sub_id (get_entry sub_id s.live_subs)
