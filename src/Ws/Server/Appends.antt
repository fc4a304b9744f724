-- ===== src/Ws/Server/Appends.antt =====
-- What reaches the store (src/ws/handler.ts): every input of the relay either leaves it alone or
-- appends one operation for an event that passed all checks.
use nostr_swarm.Ws.Server.{
  base_fails, internal_error, Relay, Input, step, handle, handle_parsed, handle_array, dispatch,
  handle_event, handle_payload, answer, on_message, update_connection, opened, received, closed,
  emitted,
}
use nostr_swarm.Ws.Server.Events.{
  gave_up, Effect, Handled, Admissible, MayHave, perform, handle_signed-Handled, refused, accepted,
  delivered, put, deleted,
}
use nostr_swarm.Nostr.Event.{Verdict, NostrEvent, validate_event_structure}
use nostr_swarm.Nostr.Json.{Fields, Json, string, array, object, items}
use nostr_swarm.Ws.Handler.{fields_of}
use nostr_swarm.Ws.{Connection, RelayConfig}
use nostr_swarm.Util.Maps.{get_entry}
use nostr_swarm.Util.RateLimit.{consume}
use nostr_swarm.Nostr.Event.Structure.{typed_event, is_event_structure, validate-is_event_structure}
use nostr_swarm.Storage.Client.{put_event, delete_event}
use nostr_swarm.Hyperbee.{Hyperbee}
use nostr_swarm.Base.{
  ltb, on_branches, length, Text, text, eqb, ℤ, ◌≡◌, refl, ap, ◌∙◌, subst, true, not, Option, none,
  some, List, ◌∷◌, arith,
}

module _ (bee : Hyperbee) (verify_event : Fields → Verdict) (to_lower_case : Text → Text)
    (now_ms now : ℤ) where
  -- From one state to the next: the store is the same, or it is the one after an effect of an event
  -- that may have it. The structure is the one that `apply` asks for.
  pub data Appends (s t : Relay bee) : Type 0 where
    unchanged : t.store ≡ s.store → Appends s t
    appended :
        (fs : Fields) (effect : Effect)
        → validate_event_structure (typed_event fs) ≡ true
        → Admissible bee verify_event to_lower_case now_ms now fs
        → MayHave bee verify_event to_lower_case now_ms now s.store (typed_event fs) effect
        → t.store
          ≡ (perform bee verify_event to_lower_case now_ms now s (typed_event fs) effect).store
        → Appends s t

  perform-store :
      (s t : Relay bee) (event : NostrEvent) (effect : Effect)
      → s.store ≡ t.store
      → (perform bee verify_event to_lower_case now_ms now s event effect).store
        ≡ (perform bee verify_event to_lower_case now_ms now t event effect).store
  perform-store s t event delivered e = e
  perform-store s t event put e = ap (λ store. put_event bee store event) e
  perform-store s t event deleted e = ap (λ store. delete_event bee store event) e

  Handled-Appends :
      (s : Relay bee) (key : Text) (fs : Fields) (t : Relay bee)
      → is_event_structure (object fs) ≡ true
      → Handled bee verify_event to_lower_case now_ms now s key fs t
      → Appends s t
  unfolding answer internal_error
  Handled-Appends s key fs _ whole (gave_up threw) = unchanged refl
  Handled-Appends s key fs _ whole (refused message) = unchanged refl
  Handled-Appends s key fs _ whole (accepted effect ok may) =
      appended fs effect (validate-is_event_structure fs whole) ok may refl

  from_charged :
      (s charged t : Relay bee) → charged.store ≡ s.store → Appends charged t → Appends s t
  from_charged s charged t e (unchanged h) = unchanged (h ∙ e)
  from_charged s charged t e (appended fs effect whole ok may h) =
      appended fs effect whole ok
        (subst
          (λ store. MayHave bee verify_event to_lower_case now_ms now store (typed_event fs) effect)
          e may)
        (h ∙ perform-store charged s (typed_event fs) effect e)

  object-fields_of :
      (j : Json) → is_event_structure j ≡ true → is_event_structure (object (fields_of j)) ≡ true
  unfolding is_event_structure
  object-fields_of (object fs) h = h
  object-fields_of _ h = ground arith

  handle_event-Appends :
      (s : Relay bee) (key : Text) (conn : Connection) (msg : List Json)
      → Appends s (handle_event bee verify_event to_lower_case now_ms now s key conn msg)
  unfolding handle_event handle_payload answer
  handle_event-Appends s key conn (type ∷ payload ∷ rest) =
      let limiter = (consume conn.event_limiter now_ms).0 in
      let charged : Relay bee = record s {
        connections =
            update_connection key (λ c. record c { event_limiter = limiter }) s.connections;
      } in
      let by = on_branches (Appends s) in
      by (not (consume conn.event_limiter now_ms).1) _ _ (λ limited. unchanged refl)
        (λ allowed.
          by (not (is_event_structure payload)) _ _ (λ bad. unchanged refl)
            (λ good. from_charged s charged _ refl (
              Handled-Appends charged key (fields_of payload) _
                (object-fields_of payload (ground (arith, good)))
                (handle_signed-Handled bee verify_event to_lower_case now_ms now charged key
                  (fields_of payload)))))
  handle_event-Appends s key conn _ = unchanged refl

  dispatch-Appends :
      (s : Relay bee) (key : Text) (conn : Connection) (type : Text) (msg : List Json)
      → Appends s (dispatch bee verify_event to_lower_case now_ms now s key conn type msg)
  unfolding dispatch
  dispatch-Appends s key conn type msg =
      let by = on_branches (Appends s) in
      by (eqb type (text "EVENT")) _ _ (λ h. handle_event-Appends s key conn msg)
        (λ h1.
          by (eqb type (text "REQ")) _ _ (λ h. unchanged refl)
            (λ h2.
              by (eqb type (text "CLOSE")) _ _ (λ h. unchanged refl)
                (λ h3.
                  by (eqb type (text "COUNT")) _ _ (λ h. unchanged refl)
                    (λ h4.
                      by (eqb type (text "AUTH")) _ _ (λ h. unchanged refl)
                        (λ h5. unchanged refl)))))

  handle_array-Appends :
      (s : Relay bee) (key : Text) (conn : Connection) (js : List Json)
      → Appends s (handle_array bee verify_event to_lower_case now_ms now s key conn js)
  unfolding handle_array
  handle_array-Appends s key conn (string type ∷ rest) =
      dispatch-Appends s key conn type (string type ∷ rest)
  handle_array-Appends s key conn _ = unchanged refl

  handle_parsed-Appends :
      (s : Relay bee) (key : Text) (conn : Connection) (o : Option Json)
      → Appends s (handle_parsed bee verify_event to_lower_case now_ms now s key conn o)
  unfolding handle_parsed
  handle_parsed-Appends s key conn (some (array js)) = handle_array-Appends s key conn (items js)
  handle_parsed-Appends s key conn _ = unchanged refl

  module _ (parse : Text → Option Json) (config : RelayConfig) where
    on_message-Appends :
        (s : Relay bee) (key : Text) (raw : Text) (o : Option Connection)
        → Appends s (on_message bee verify_event to_lower_case now_ms now parse config s key raw o)
    unfolding handle
    on_message-Appends s key raw none = unchanged refl
    on_message-Appends s key raw (some conn) =
        on_branches (Appends s) (ltb config.max_message_size (length raw)) _ _
          (λ big. unchanged refl) (λ fits. handle_parsed-Appends s key conn (parse raw))

    -- No input of the relay puts anything into the store but, at most, one operation for an event of a
    -- message that has the structure which `apply` asks for, a good signature, has not expired and is
    -- not protected: a put, of an event that is not ephemeral and no deletion, on a writer or where
    -- optimistic blocks are accepted, or a deletion of kind 5 on a writer.
    pub step-Appends :
        (s : Relay bee) (input : Input)
        → Appends s (step bee verify_event to_lower_case now_ms now parse config s input)
    unfolding step
    step-Appends s (opened key challenge) = unchanged refl
    step-Appends s (received key raw) = on_message-Appends s key raw (get_entry key s.connections)
    step-Appends s (closed key) = unchanged refl
    step-Appends s (base_fails failing) = unchanged refl
    step-Appends s (emitted event) = unchanged refl
