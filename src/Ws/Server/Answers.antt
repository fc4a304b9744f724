-- ===== src/Ws/Server/Answers.antt =====
-- The answers to EVENT messages (`handleEvent` of src/ws/handler.ts).
use nostr_swarm.Ws.Server.Events.{
  gave_up, Effect, Handled, perform, handle_signed-Handled, refused, accepted, delivered, put,
  deleted,
}
use nostr_swarm.Ws.{send_notice, notice_reply, ok_reply, event_reply, Reply}
use nostr_swarm.Ws.Server.{
  internal_error, match_filters, fields_of, consume, event_id, handle_payload, get_entry,
  handle_event, NostrFilter, send_ok, Connection, Relay, answer, update_connection,
}
use nostr_swarm.Nostr.Event.{is_thrown, Verdict, NostrEvent, or_empty}
use nostr_swarm.Nostr.Json.{Fields, Json, string, object, get_field, or_blank}
use nostr_swarm.Nostr.Event.Structure.{is_event_structure, typed_event, has_length}
use nostr_swarm.Ws.Server.Delivery.{
  map_found, get_entry-broadcast, owed, with_owed, get_entry-update_connection,
}
use nostr_swarm.Nostr.Filter.Validate.{read_text}
use nostr_swarm.Hyperbee.{Hyperbee}
use nostr_swarm.Base.{
  on_branches, keep, In, All, Text, text, eqb_refl, ℤ, ℕ, ◌≡◌, refl, sym, ap, ◌∙◌, subst, inl, inr,
  Bool, true, false, not, ◌||◌, Option, none, some, List, [], ◌∷◌, ◌++◌, map, append-nil, arith,
}

-- The message is the answer OK to an EVENT with this id; or, only if its handler fails, the notice of an
-- internal error.
pub data IsAnswer (id : Json) (fails : Bool) : Reply → Type 0 where
  answers : (verdict : Bool) (message : Text) → IsAnswer id fails (ok_reply id verdict message)
  gives_up : fails ≡ true → IsAnswer id fails (notice_reply (text "error: internal error"))

-- The message is this event, under a subscription of the connection with a filter that matches it.
abbrev pub IsDelivery : (Text → Text) → Connection → NostrEvent → Reply → Type 0
IsDelivery to_lower_case conn event (event_reply sub_id e) =
    (e ≡ event)
    × ((filters : List NostrFilter) × In (sub_id, filters) conn.subscriptions
        × (match_filters to_lower_case filters event ≡ true))
IsDelivery to_lower_case conn event _ = ⊥

has_length-text :
    (n : ℕ) (o : Option Json)
    → has_length n o ≡ true
    → (n ≡ 64)
    → or_blank o ≡ string (or_empty (read_text o))
has_length-text n none h k = ground arith
has_length-text n (some (string [])) h k = refl
has_length-text n (some (string (c ∷ s))) h k = refl
has_length-text n (some _) h k = ground arith

event_id-typed_event :
    (payload : Json)
    → is_event_structure payload ≡ true
    → string (typed_event (fields_of payload)).id ≡ event_id payload
unfolding is_event_structure typed_event
event_id-typed_event (object fs) h =
    sym (has_length-text 64 (get_field (text "id") fs) (ground arith) refl)
event_id-typed_event _ h = ground arith

module _ (bee : Hyperbee) (verify_event : Fields → Verdict) (to_lower_case : Text → Text)
    (now_ms now : ℤ) where
  -- An answer on an open connection.
  get_entry-answer :
      (s : Relay bee) (key : Text) (conn : Connection) (id : Json) (verdict : Bool) (message : Text)
      → get_entry key s.connections ≡ some conn
      → get_entry key
          (answer bee verify_event to_lower_case now_ms now s key id verdict message).connections
        ≡ some (send_ok conn id verdict message)
  unfolding answer
  get_entry-answer s key conn id verdict message h =
      rw
        (
          get_entry-update_connection key key (λ c. send_ok c id verdict message) s.connections,
          eqb_refl key,
          h,
        )
        refl

  -- The connection has been sent deliveries of the event, and then one answer to it.
  pub record Answered (conn : Connection) (failing : Bool) (payload id : Json)
      (connections : List (Text × Connection)) (key : Text) : Type 0 where
    pub after : Connection
    pub events : List Reply
    pub reply : Reply
    pub still : get_entry key connections ≡ some after
    pub sent : after.sent ≡ conn.sent ++ events ++ reply ∷ []
    pub answer_last : IsAnswer id (is_thrown (verify_event (fields_of payload)) || failing) reply
    pub only_events : All (IsDelivery to_lower_case conn (typed_event (fields_of payload))) events

  answer-Answered :
      (s : Relay bee) (key : Text) (conn from : Connection) (payload id : Json) (verdict : Bool)
      (message : Text)
      → get_entry key s.connections ≡ some conn
      → conn.sent ≡ from.sent
      → Answered from s.append_fails payload id
          (answer bee verify_event to_lower_case now_ms now s key id verdict message).connections
          key
  unfolding send_ok
  answer-Answered s key conn from payload id verdict message h same = record {
    after = send_ok conn id verdict message;
    events = [];
    reply = ok_reply id verdict message;
    still = get_entry-answer s key conn id verdict message h;
    sent = ap (λ l. l ++ ok_reply id verdict message ∷ []) (same ∙ sym (append-nil from.sent));
    answer_last = answers verdict message;
    only_events = tt;
  }

  internal_error-Answered :
      (s : Relay bee) (key : Text) (conn from : Connection) (payload id : Json)
      → get_entry key s.connections ≡ some conn
      → conn.sent ≡ from.sent
      → (is_thrown (verify_event (fields_of payload)) || s.append_fails) ≡ true
      → Answered from s.append_fails payload id
          (internal_error bee verify_event to_lower_case now_ms now s key).connections
          key
  unfolding internal_error send_notice
  internal_error-Answered s key conn from payload id h same threw = record {
    after = send_notice conn (text "error: internal error");
    events = [];
    reply = notice_reply (text "error: internal error");
    still =
        rw
          (
            get_entry-update_connection key key (λ c. send_notice c (text "error: internal error"))
                s.connections,
            eqb_refl key,
            h,
          )
          refl;
    sent =
        ap (λ l. l ++ notice_reply (text "error: internal error") ∷ [])
          (same ∙ sym (append-nil from.sent));
    answer_last = gives_up threw;
    only_events = tt;
  }

  owed-IsDelivery :
      (event : NostrEvent) (conn : Connection) (subs : List (Text × List NostrFilter))
      → ((sub : Text × List NostrFilter) → In sub subs → In sub conn.subscriptions)
      → All (IsDelivery to_lower_case conn event) (
          map
            (λ sub. event_reply sub.0 event)
            (keep (λ sub. match_filters to_lower_case sub.1 event) subs))
  owed-IsDelivery event conn [] inside = tt
  owed-IsDelivery event conn ((sub_id, filters) ∷ subs) inside =
      let rest = owed-IsDelivery event conn subs (λ sub h. inside sub (inr h)) in
      on_branches
        (λ (l : List (Text × List NostrFilter)).
          All (IsDelivery to_lower_case conn event) (map (λ sub. event_reply sub.0 event) l))
        (match_filters to_lower_case filters event) _ _
        (λ match. ((refl, (filters, inside (sub_id, filters) (inl refl), match)), rest))
        (λ miss. rest)

  perform-Answered :
      (s : Relay bee) (key : Text) (conn from : Connection) (payload : Json) (effect : Effect)
      (id : Json) (verdict : Bool) (message : Text)
      → get_entry key s.connections ≡ some conn
      → conn.sent ≡ from.sent
      → conn.subscriptions ≡ from.subscriptions
      → Answered from s.append_fails payload id
          (answer bee verify_event to_lower_case now_ms now
            (perform bee verify_event to_lower_case now_ms now s
              (typed_event (fields_of payload))
              effect)
            key
            id
            verdict
            message).connections
          key
  unfolding send_ok
  perform-Answered s key conn from payload delivered id verdict message h same subs =
      let event = typed_event (fields_of payload) in
      record {
        after = send_ok (with_owed to_lower_case event conn) id verdict message;
        events = owed to_lower_case event conn;
        reply = ok_reply id verdict message;
        still = get_entry-answer _ key (with_owed to_lower_case event conn) id verdict message (
            get_entry-broadcast to_lower_case event key s.connections
            ∙ ap (map_found (with_owed to_lower_case event)) h);
        sent =
            ap (λ l. l ++ owed to_lower_case event conn ++ ok_reply id verdict message ∷ []) same;
        answer_last = answers verdict message;
        only_events =
            owed-IsDelivery event from conn.subscriptions
              (λ sub inside. subst (λ l. In sub l) subs inside);
      }
  perform-Answered s key conn from payload put id verdict message h same subs =
      answer-Answered
        (perform bee verify_event to_lower_case now_ms now s (typed_event (fields_of payload)) put)
        key conn from payload id verdict message h same
  perform-Answered s key conn from payload deleted id verdict message h same subs =
      answer-Answered
        (perform bee verify_event to_lower_case now_ms now s (typed_event (fields_of payload))
          deleted)
        key conn from payload id verdict message h same

  Handled-Answered :
      (s : Relay bee) (key : Text) (conn from : Connection) (payload : Json) (t : Relay bee)
      → Handled bee verify_event to_lower_case now_ms now s key (fields_of payload) t
      → get_entry key s.connections ≡ some conn
      → conn.sent ≡ from.sent
      → conn.subscriptions ≡ from.subscriptions
      → Answered from s.append_fails payload
          (string (typed_event (fields_of payload)).id)
          t.connections
          key
  Handled-Answered s key conn from payload _ (gave_up threw) h same subs =
      internal_error-Answered s key conn from payload _ h same threw
  Handled-Answered s key conn from payload _ (refused message) h same subs =
      answer-Answered s key conn from payload _ false message h same
  Handled-Answered s key conn from payload _ (accepted effect ok may) h same subs =
      perform-Answered s key conn from payload effect _ true [] h same subs

  same_id :
      {conn : Connection} {failing : Bool} {payload id id' : Json}
      {conns : List (Text × Connection)} {key : Text}
      → id ≡ id'
      → Answered conn failing payload id conns key
      → Answered conn failing payload id' conns key
  same_id {conn} {failing} {payload} {id} {id'} {conns} {key} e a =
      subst (λ i. Answered conn failing payload i conns key) e a

  -- Every EVENT message with a payload, whatever it is, gets exactly one answer, as the last message
  -- to its connection: OK with the id that the payload bears, or, only if the check of its signature
  -- throws or appends to the base fail, the notice of an internal error. Before it come only
  -- deliveries of this event, under subscriptions of the connection with a filter that matches it.
  pub handle_event-Answered :
      (s : Relay bee) (key : Text) (conn : Connection) (type payload : Json) (rest : List Json)
      → get_entry key s.connections ≡ some conn
      → Answered conn s.append_fails payload
          (event_id payload)
          (handle_event bee verify_event to_lower_case now_ms now s key conn
            (type ∷ payload ∷ rest)).connections
          key
  unfolding handle_event handle_payload
  handle_event-Answered s key conn type payload rest h =
      let limiter = (consume conn.event_limiter now_ms).0 in
      let charged : Relay bee = record s {
        connections =
            update_connection key (λ c. record c { event_limiter = limiter }) s.connections;
      } in
      let here : get_entry key charged.connections
          ≡ some (record conn { event_limiter = limiter }) =
        rw
          (
            get_entry-update_connection key key (λ c. record c { event_limiter = limiter })
                s.connections,
            eqb_refl key,
            h,
          )
          refl in
      let by = on_branches (λ (t : Relay bee).
        Answered conn s.append_fails payload (event_id payload) t.connections key) in
      by (not (consume conn.event_limiter now_ms).1) _ _
        (λ limited. answer-Answered charged key _ conn payload (event_id payload) false _ here refl)
        (λ allowed.
          by (not (is_event_structure payload)) _ _
            (λ bad. answer-Answered charged key _ conn payload (event_id payload) false _ here refl)
            (λ good. same_id (event_id-typed_event payload (ground (arith, good))) (
              Handled-Answered charged key _ conn payload _
                (handle_signed-Handled bee verify_event to_lower_case now_ms now charged key
                  (fields_of payload))
                here refl refl)))
