-- ===== src/Ws/Server/Limits.antt =====
-- The limits of all connections (src/ws/handler.ts), over any course of the relay.
use nostr_swarm.Ws.Server.{
  base_fails, internal_error, Relay, Input, step, handle, handle_parsed, handle_array, dispatch,
  handle_event, handle_payload, answer, on_connection, on_message, update_connection,
  broadcast_to_subscriptions, deliver_to, opened, received, closed, emitted,
}
use nostr_swarm.Ws.Server.Events.{
  gave_up, Handled, perform, handle_signed-Handled, refused, accepted, delivered, put, deleted,
}
use nostr_swarm.Nostr.Event.{Verdict, NostrEvent}
use nostr_swarm.Nostr.Json.{Fields, Json, string, array, items}
use nostr_swarm.Ws.Handler.Limits.{
  IsWithin, send-IsWithin, charge_event-IsWithin, handle_req-IsWithin, handle_count-IsWithin,
  handle_close-IsWithin, handle_auth-IsWithin, new_connection-IsWithin,
}
use nostr_swarm.Ws.Handler.{
  handle_req, handle_count, handle_close, handle_auth, fields_of, event_id,
}
use nostr_swarm.Ws.{
  Connection, RelayConfig, send_ok, send_notice, send_auth, send_event, event_reply,
}
use nostr_swarm.Util.Maps.{get_entry}
use nostr_swarm.Util.RateLimit.{consume}
use nostr_swarm.Nostr.Filter.{match_filters, NostrFilter}
use nostr_swarm.Storage.Client.{Client}
use nostr_swarm.Nostr.Event.Structure.{typed_event, is_event_structure}
use nostr_swarm.Ws.Handler.Sizes.{All-delete_entry, either_branch}
use nostr_swarm.Hyperbee.{Hyperbee}
use nostr_swarm.Base.{
  ltb, Bool-cases, on_branches, length, All, Text, text, eqb, ℤ, inl, inr, Bool, true, false, not,
  Option, none, some, List, [], ◌∷◌, ◌++◌,
}

All-update_connection :
    (P : Connection → Type 0) (key : Text) (f : Connection → Connection)
    (conns : List (Text × Connection))
    → ((conn : Connection) → P conn → P (f conn))
    → All (λ entry. P entry.1) conns
    → All (λ entry. P entry.1) (update_connection key f conns)
unfolding update_connection
All-update_connection P key f [] keeps a = tt
All-update_connection P key f ((j, conn) ∷ conns) keeps a = elim (Bool-cases (eqb j key)) [
  | inl same ↦ rw same (keeps conn a.0, a.1)
  | inr other ↦ rw other (a.0, All-update_connection P key f conns keeps a.1)
]

All-append : {A : Type 0} (P : A → Type 0) (xs ys : List A) → All P xs → All P ys → All P (xs ++ ys)
All-append P [] ys a b = b
All-append P (x ∷ xs) ys a b = (a.0, All-append P xs ys a.1 b)

module _ (bee : Hyperbee) (config : RelayConfig) where
  -- Every connection is within its limits.
  unfoldable pub AllWithin : Relay bee → Type 0
  AllWithin s = All (λ entry. IsWithin config entry.1) s.connections

  on_connection-AllWithin :
      (s : Relay bee) (key : Text) (f : Connection → Connection)
      → ((conn : Connection) → IsWithin config conn → IsWithin config (f conn))
      → AllWithin s
      → AllWithin (record s { connections = update_connection key f s.connections })
  unfolding AllWithin
  on_connection-AllWithin s key f keeps a =
      All-update_connection (IsWithin config) key f s.connections keeps a

  deliver_to-IsWithin :
      (to_lower_case : Text → Text) (event : NostrEvent) (subs : List (Text × List NostrFilter))
      (conn : Connection)
      → IsWithin config conn
      → IsWithin config (deliver_to to_lower_case event subs conn)
  unfolding deliver_to send_event
  deliver_to-IsWithin to_lower_case event [] conn w = w
  deliver_to-IsWithin to_lower_case event ((sub_id, filters) ∷ subs) conn w =
      deliver_to-IsWithin to_lower_case event subs _ (
        either_branch (IsWithin config) (match_filters to_lower_case filters event)
          (send-IsWithin config conn (event_reply sub_id event) w) w)

  broadcast-IsWithin :
      (to_lower_case : Text → Text) (event : NostrEvent) (conns : List (Text × Connection))
      → All (λ entry. IsWithin config entry.1) conns
      → All
          (λ entry. IsWithin config entry.1)
          (broadcast_to_subscriptions to_lower_case event conns)
  unfolding broadcast_to_subscriptions
  broadcast-IsWithin to_lower_case event [] a = tt
  broadcast-IsWithin to_lower_case event ((key, conn) ∷ conns) a = (
    deliver_to-IsWithin to_lower_case event conn.subscriptions conn a.0,
    broadcast-IsWithin to_lower_case event conns a.1,
  )

  broadcast-AllWithin :
      (to_lower_case : Text → Text) (s : Relay bee) (event : NostrEvent)
      → AllWithin s
      → AllWithin
          (record s { connections = broadcast_to_subscriptions to_lower_case event s.connections })
  unfolding AllWithin
  broadcast-AllWithin to_lower_case s event a =
      broadcast-IsWithin to_lower_case event s.connections a

  store-AllWithin :
      (s : Relay bee) (store : Client bee) → AllWithin s → AllWithin (record s { store = store })
  unfolding AllWithin
  store-AllWithin s store a = a

  module _ (verify_event : Fields → Verdict) (to_lower_case : Text → Text) (now_ms now : ℤ) where
    answer-AllWithin :
        (s : Relay bee) (key : Text) (id : Json) (verdict : Bool) (message : Text)
        → AllWithin s
        → AllWithin (answer bee verify_event to_lower_case now_ms now s key id verdict message)
    unfolding answer send_ok
    answer-AllWithin s key id verdict message a =
        on_connection-AllWithin s key (λ conn. send_ok conn id verdict message)
          (λ conn w. send-IsWithin config conn _ w) a

    Handled-AllWithin :
        (s : Relay bee) (key : Text) (fs : Fields) (t : Relay bee)
        → Handled bee verify_event to_lower_case now_ms now s key fs t
        → AllWithin s
        → AllWithin t
    unfolding send_notice internal_error
    Handled-AllWithin s key fs _ (gave_up threw) a =
        on_connection-AllWithin s key (λ conn. send_notice conn (text "error: internal error"))
          (λ conn w. send-IsWithin config conn _ w) a
    Handled-AllWithin s key fs _ (refused message) a = answer-AllWithin s key _ false message a
    Handled-AllWithin s key fs _ (accepted delivered ok may) a =
        answer-AllWithin
          (perform bee verify_event to_lower_case now_ms now s (typed_event fs) delivered) key _
          true [] (broadcast-AllWithin to_lower_case s (typed_event fs) a)
    Handled-AllWithin s key fs _ (accepted put ok may) a =
        answer-AllWithin (perform bee verify_event to_lower_case now_ms now s (typed_event fs) put)
          key _ true [] (store-AllWithin s _ a)
    Handled-AllWithin s key fs _ (accepted deleted ok may) a =
        answer-AllWithin
          (perform bee verify_event to_lower_case now_ms now s (typed_event fs) deleted) key _ true
          [] (store-AllWithin s _ a)

    handle_event-AllWithin :
        (s : Relay bee) (key : Text) (conn : Connection) (msg : List Json)
        → AllWithin s
        → AllWithin (handle_event bee verify_event to_lower_case now_ms now s key conn msg)
    unfolding handle_event handle_payload send_notice
    handle_event-AllWithin s key conn (type ∷ payload ∷ rest) a =
        let limiter = (consume conn.event_limiter now_ms).0 in
        let charged : Relay bee = record s {
          connections =
              update_connection key (λ c. record c { event_limiter = limiter }) s.connections;
        } in
        let within : AllWithin charged =
          on_connection-AllWithin s key (λ c. record c { event_limiter = limiter })
            (λ c w. charge_event-IsWithin config c limiter w) a in
        let by = on_branches AllWithin in
        by (not (consume conn.event_limiter now_ms).1) _ _
          (λ limited. answer-AllWithin charged key (event_id payload) false _ within)
          (λ allowed.
            by (not (is_event_structure payload)) _ _
              (λ bad. answer-AllWithin charged key (event_id payload) false _ within)
              (λ good.
                Handled-AllWithin charged key (fields_of payload) _
                  (handle_signed-Handled bee verify_event to_lower_case now_ms now charged key
                    (fields_of payload))
                  within))
    handle_event-AllWithin s key conn _ a =
        on_connection-AllWithin s key
          (λ c. send_notice c (text "error: EVENT requires an event object"))
          (λ c w. send-IsWithin config c _ w) a

    notice-AllWithin :
        (s : Relay bee) (key : Text) (message : Text)
        → AllWithin s
        → AllWithin (
            on_connection bee verify_event to_lower_case now_ms now s key
              (λ c. send_notice c message))
    unfolding send_notice
    notice-AllWithin s key message a =
        on_connection-AllWithin s key (λ c. send_notice c message)
          (λ c w. send-IsWithin config c _ w) a

    dispatch-AllWithin :
        (s : Relay bee) (key : Text) (conn : Connection) (type : Text) (msg : List Json)
        → AllWithin s
        → AllWithin (dispatch bee verify_event to_lower_case now_ms now s key conn type msg)
    unfolding dispatch
    dispatch-AllWithin s key conn type msg a =
        let by = on_branches AllWithin in
        by (eqb type (text "EVENT")) _ _ (λ h. handle_event-AllWithin s key conn msg a)
          (λ h1.
            by (eqb type (text "REQ")) _ _
              (λ h.
                on_connection-AllWithin s key
                  (λ c. handle_req bee to_lower_case now_ms now s.store c msg)
                  (λ c w. handle_req-IsWithin bee to_lower_case now_ms now config s.store c msg w)
                  a)
              (λ h2.
                by (eqb type (text "CLOSE")) _ _
                  (λ h.
                    on_connection-AllWithin s key (λ c. handle_close c msg)
                      (λ c w. handle_close-IsWithin config c msg w) a)
                  (λ h3.
                    by (eqb type (text "COUNT")) _ _
                      (λ h.
                        on_connection-AllWithin s key
                          (λ c. handle_count bee to_lower_case now_ms now s.store c msg)
                          (λ c w.
                            handle_count-IsWithin bee to_lower_case now_ms now config s.store c msg
                              w)
                          a)
                      (λ h4.
                        by (eqb type (text "AUTH")) _ _
                          (λ h.
                            on_connection-AllWithin s key (λ c. handle_auth verify_event now c msg)
                              (λ c w. handle_auth-IsWithin config verify_event now c msg w) a)
                          (λ h5. notice-AllWithin s key _ a)))))

    handle_array-AllWithin :
        (s : Relay bee) (key : Text) (conn : Connection) (js : List Json)
        → AllWithin s
        → AllWithin (handle_array bee verify_event to_lower_case now_ms now s key conn js)
    unfolding handle_array
    handle_array-AllWithin s key conn (string type ∷ rest) a =
        dispatch-AllWithin s key conn type (string type ∷ rest) a
    handle_array-AllWithin s key conn _ a = notice-AllWithin s key _ a

    handle_parsed-AllWithin :
        (s : Relay bee) (key : Text) (conn : Connection) (o : Option Json)
        → AllWithin s
        → AllWithin (handle_parsed bee verify_event to_lower_case now_ms now s key conn o)
    unfolding handle_parsed
    handle_parsed-AllWithin s key conn (some (array js)) a =
        handle_array-AllWithin s key conn (items js) a
    handle_parsed-AllWithin s key conn _ a = notice-AllWithin s key _ a

    module _ (parse : Text → Option Json) where
      on_message-AllWithin :
          (s : Relay bee) (key : Text) (raw : Text) (o : Option Connection)
          → AllWithin s
          → AllWithin
              (on_message bee verify_event to_lower_case now_ms now parse config s key raw o)
      unfolding handle
      on_message-AllWithin s key raw none a = a
      on_message-AllWithin s key raw (some conn) a =
          on_branches AllWithin (ltb config.max_message_size (length raw)) _ _
            (λ big. notice-AllWithin s key _ a)
            (λ fits. handle_parsed-AllWithin s key conn (parse raw) a)

      step-AllWithin :
          (s : Relay bee) (input : Input)
          → AllWithin s
          → AllWithin (step bee verify_event to_lower_case now_ms now parse config s input)
      unfolding step send_auth AllWithin
      step-AllWithin s (opened key challenge) a =
          All-append (λ entry. IsWithin config entry.1) s.connections _ a
            (send-IsWithin config _ _ (new_connection-IsWithin config challenge now_ms), tt)
      step-AllWithin s (received key raw) a =
          on_message-AllWithin s key raw (get_entry key s.connections) a
      step-AllWithin s (base_fails failing) a = a
      step-AllWithin s (closed key) a =
          All-delete_entry (λ entry. IsWithin config entry.1) key s.connections a
      step-AllWithin s (emitted event) a = broadcast-IsWithin to_lower_case event s.connections a

  module _ (verify_event : Fields → Verdict) (to_lower_case : Text → Text)
      (parse : Text → Option Json) where
    -- The inputs of the relay, each with the readings of the clock.
    abbrev pub run : Relay bee → List (ℤ × ℤ × Input) → Relay bee
    run s [] = s
    run s ((now_ms, now, input) ∷ inputs) =
        run (step bee verify_event to_lower_case now_ms now parse config s input) inputs

    -- Whatever the clients send, and however connections, messages and stored events interleave: every
    -- connection keeps at most `maxSubscriptionsPerConn` subscriptions, each under an id of 1 to 64
    -- characters and with at most `maxFiltersPerReq` filters.
    pub run-AllWithin :
        (s : Relay bee) (inputs : List (ℤ × ℤ × Input)) → AllWithin s → AllWithin (run s inputs)
    run-AllWithin s [] a = a
    run-AllWithin s ((now_ms, now, input) ∷ inputs) a =
        run-AllWithin (step bee verify_event to_lower_case now_ms now parse config s input) inputs
          (step-AllWithin verify_event to_lower_case now_ms now parse s input a)
