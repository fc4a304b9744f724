-- ===== src/Ws/Server.antt =====
-- The relay's connections and the handling of a message (src/ws/handler.ts, src/ws/server.ts). What
-- stands in `connections` are the open sockets, each under the id of its connection. `JSON.parse` is
-- the parameter `parse`, and `none` is what it throws.
pub mod Limits
pub mod Delivery
pub mod Events
pub mod Answers
pub mod Appends
use nostr_swarm.Nostr.Event.{
  is_genuine, is_thrown, Verdict, NostrEvent, classify_kind, EventKind, is_expired, is_protected,
  ephemeral,
}
use nostr_swarm.Nostr.Json.{Fields, Json, items, null, string, array}
use nostr_swarm.Ws.Handler.{
  event_id, fields_of, handle_req, handle_count, handle_close, handle_auth,
}
use nostr_swarm.Ws.{
  Connection, RelayConfig, send, send_ok, send_notice, send_auth, new_connection, send_event,
}
use nostr_swarm.Util.Maps.{get_entry, set_entry}
use nostr_swarm.Shim.Lru.{delete_entry}
use nostr_swarm.Util.RateLimit.{consume}
use nostr_swarm.Nostr.Filter.{match_filters, NostrFilter}
use nostr_swarm.Nostr.Event.Structure.{is_event_structure, typed_event}
use nostr_swarm.Storage.Client.{Client, put_event, delete_event, accepts_optimistic}
use nostr_swarm.Hyperbee.{Hyperbee}
use nostr_swarm.Base.{
  ltb, leb, ◌==◌, if◌then◌else◌, ltb→lt, lt→ltb, ltb_false→le, leb_false→lt, leb→le, le→leb, ==_iff,
  tests, Bool-cases, on_branches, Option-cases, some-eq, none-ne-some, length, get_elem?, take,
  drop, replicate, length-append, length-take-le, find, keep, any, all, In, In-append_left,
  In-append_right, In-append_cases, All, Text, text, eqb, eqb→eq, eqb_refl, eqb_iff, eqb_comm,
  text_lt, text_le, text_lt_irrefl, text_lt_trans, text_lt_total, text_lt_asymm, text_lt-append,
  text_le-append, starts_with, starts_with-append, includes, includes_text, includes_text→In,
  In→includes_text, ℤ, pos, negsuc, pos_part, neg_part, sub_ℕ, ltb_ℤ, leb_ℤ, eqb_ℤ, leb_ℤ-pos, ◌+ℤ◌,
  ◌-ℤ◌, to_u32, ℕ, zero, suc, ◌+◌, ◌-◌, ◌*◌, ◌/◌, ◌%◌, ◌^◌, ◌≤◌, ◌<◌, ◌≡◌, refl, sym, ap, ap₂, ◌∙◌,
  subst, ◌≡⟨◌⟩◌, ◌∎, ◌≢◌, ◌↔◌, ◌⊎◌, inl, inr, Bool, true, false, not, ◌&&◌, ◌||◌, Option, none,
  some, List, [], ◌∷◌, ◌++◌, map, append_assoc, append-nil, arith,
}

-- Appends to the base fail while it is closed or cannot write.
pub record Relay (bee : Hyperbee) : Type 0 where
  pub store : Client bee
  pub connections : List (Text × Connection)
  pub append_fails : Bool

pub data Input : Type 0 where
  opened : Text → Text → Input
  received : Text → Text → Input
  closed : Text → Input
  emitted : NostrEvent → Input
  base_fails : Bool → Input

abbrev pub is_ephemeral : EventKind → Bool
is_ephemeral ephemeral = true
is_ephemeral _ = false

-- A change of one open connection.
unfoldable pub update_connection :
    Text → (Connection → Connection) → List (Text × Connection) → List (Text × Connection)
update_connection key f [] = []
update_connection key f ((j, conn) ∷ conns) =
    let rest = update_connection key f conns in
    if eqb j key then (j, f conn) ∷ conns else (j, conn) ∷ rest

module _ (to_lower_case : Text → Text) where
  -- The loop over the subscriptions of one connection.
  unfoldable pub deliver_to : NostrEvent → List (Text × List NostrFilter) → Connection → Connection
  unfolding match_filters send_event
  deliver_to event [] conn = conn
  deliver_to event ((sub_id, filters) ∷ subs) conn =
      deliver_to event subs
        (if match_filters to_lower_case filters event then send_event conn sub_id event else conn)

  -- The loop over the connections.
  unfoldable pub broadcast_to_subscriptions :
      NostrEvent → List (Text × Connection) → List (Text × Connection)
  unfolding deliver_to
  broadcast_to_subscriptions event [] = []
  broadcast_to_subscriptions event ((key, conn) ∷ conns) =
      (key, deliver_to event conn.subscriptions conn) ∷ broadcast_to_subscriptions event conns

module _ (bee : Hyperbee) (verify_event : Fields → Verdict) (to_lower_case : Text → Text)
    (now_ms now : ℤ) where
  unfoldable pub answer : Relay bee → Text → Json → Bool → Text → Relay bee
  unfolding update_connection
  answer s key id accepted message = record s {
    connections = update_connection key (λ conn. send_ok conn id accepted message) s.connections;
  }

  -- The `catch` of `handle`, for an error that a handler of EVENT throws.
  unfoldable pub internal_error : Relay bee → Text → Relay bee
  unfolding update_connection
  internal_error s key = record s {
    connections =
        update_connection key (λ conn. send_notice conn (text "error: internal error"))
          s.connections;
  }

  -- The end of `handleEvent` with an append.
  abbrev pub append_to : Relay bee → Text → NostrEvent → Client bee → Relay bee
  append_to s key event store =
      if s.append_fails
      then internal_error s key
      else answer (record s { store = store }) key (string event.id) true []

  -- `handleEvent` on an object of the structure of an event.
  unfoldable pub handle_signed : Relay bee → Text → Fields → Relay bee
  unfolding answer internal_error
  handle_signed s key fs =
      let event = typed_event fs in
      if is_thrown (verify_event fs)
      then internal_error s key
      else if not (is_genuine (verify_event fs))
      then answer s key (string event.id) false (text "invalid: bad signature")
      else if is_expired now event
      then answer s key (string event.id) false (text "invalid: event expired")
      else if is_protected event
      then answer s key (string event.id) false
          (text "blocked: protected events (NIP-70) are not accepted by replicated relays")
      else if is_ephemeral (classify_kind event.kind)
      then answer
          (record s { connections = broadcast_to_subscriptions to_lower_case event s.connections })
          key (string event.id) true []
      else if not s.store.writable
      then if not (event.kind == 5) && accepts_optimistic bee s.store
        then append_to s key event (put_event bee s.store event)
        else answer s key (string event.id) false
            (text "blocked: read-only replica awaiting writer admission")
      else if event.kind == 5
      then append_to s key event (delete_event bee s.store event)
      else append_to s key event (put_event bee s.store event)

  unfoldable pub handle_payload : Relay bee → Text → Json → Relay bee
  unfolding handle_signed
  handle_payload s key payload =
      if not (is_event_structure payload)
      then answer s key (event_id payload) false (text "invalid: bad event structure")
      else handle_signed s key (fields_of payload)

  unfoldable pub handle_event : Relay bee → Text → Connection → List Json → Relay bee
  unfolding handle_payload
  handle_event s key conn (type ∷ payload ∷ rest) =
      let (limiter, allowed) = consume conn.event_limiter now_ms in
      let charged = record s {
        connections =
            update_connection key (λ c. record c { event_limiter = limiter }) s.connections;
      } in
      if not allowed
      then answer charged key (event_id payload) false (text "rate-limited: slow down")
      else handle_payload charged key payload
  handle_event s key conn _ = record s {
    connections =
        update_connection key (λ c. send_notice c (text "error: EVENT requires an event object"))
          s.connections;
  }

  -- The handlers that concern only the connection.
  abbrev pub on_connection : Relay bee → Text → (Connection → Connection) → Relay bee
  on_connection s key f = record s { connections = update_connection key f s.connections }

  unfoldable pub dispatch : Relay bee → Text → Connection → Text → List Json → Relay bee
  unfolding handle_event
  dispatch s key conn type msg =
      if eqb type (text "EVENT")
      then handle_event s key conn msg
      else if eqb type (text "REQ")
      then on_connection s key (λ c. handle_req bee to_lower_case now_ms now s.store c msg)
      else if eqb type (text "CLOSE")
      then on_connection s key (λ c. handle_close c msg)
      else if eqb type (text "COUNT")
      then on_connection s key (λ c. handle_count bee to_lower_case now_ms now s.store c msg)
      else if eqb type (text "AUTH")
      then on_connection s key (λ c. handle_auth verify_event now c msg)
      else on_connection s key (λ c. send_notice c (text "error: unknown message type: " ++ type))

  -- An array whose first element is a text.
  unfoldable pub handle_array : Relay bee → Text → Connection → List Json → Relay bee
  unfolding dispatch
  handle_array s key conn (string type ∷ rest) = dispatch s key conn type (string type ∷ rest)
  handle_array s key conn _ =
      on_connection s key (λ c. send_notice c (text "error: invalid message format"))

  unfoldable pub handle_parsed : Relay bee → Text → Connection → Option Json → Relay bee
  unfolding handle_array
  handle_parsed s key conn none =
      on_connection s key (λ c. send_notice c (text "error: invalid JSON"))
  handle_parsed s key conn (some (array js)) = handle_array s key conn (items js)
  handle_parsed s key conn (some _) =
      on_connection s key (λ c. send_notice c (text "error: invalid message format"))

  module _ (parse : Text → Option Json) (config : RelayConfig) where
    unfoldable pub handle : Relay bee → Text → Connection → Text → Relay bee
    unfolding handle_parsed
    handle s key conn raw =
        if ltb config.max_message_size (length raw)
        then on_connection s key (λ c. send_notice c (text "error: message too large"))
        else handle_parsed s key conn (parse raw)

    -- A message on a socket; one that is closed has no handler.
    abbrev on_message : Relay bee → Text → Text → Option Connection → Relay bee
    on_message s key raw none = s
    on_message s key raw (some conn) = handle s key conn raw

    -- What happens to the relay: a socket opens, with the random id and challenge of its connection,
    -- a message arrives, a socket closes, the store has emitted `event:stored`, or appends to the base
    -- begin or cease to fail.
    unfoldable pub step : Relay bee → Input → Relay bee
    unfolding handle
    step s (opened key challenge) = record s {
      connections = s.connections ++ (key, send_auth (new_connection config challenge now_ms)) ∷ [];
    }
    step s (received key raw) = on_message s key raw (get_entry key s.connections)
    step s (base_fails failing) = record s { append_fails = failing }
    step s (closed key) = record s { connections = delete_entry key s.connections }
    step s (emitted event) = record s {
      connections = broadcast_to_subscriptions to_lower_case event s.connections;
    }
