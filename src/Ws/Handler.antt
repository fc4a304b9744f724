-- ===== src/Ws/Handler.antt =====
-- The handlers of the messages that concern one connection (`MessageHandler` of src/ws/handler.ts):
-- REQ, CLOSE, COUNT and AUTH. A message runs as one step. `now_ms` and `now` are the readings of the
-- clock in milliseconds and in seconds.

pub mod Auth
pub mod Sizes
pub mod Limits
pub mod Requests
use nostr_swarm.Nostr.Event.{
  is_genuine, is_thrown, Verdict, NostrEvent, has_name, tag_value, truthy,
}
use nostr_swarm.Nostr.Json.{Fields, Json, get_member, or_blank, string, object, end}
use nostr_swarm.Ws.{
  Connection, send_ok, send_event, send_eose, send_closed, send_notice, send_count,
}
use nostr_swarm.Util.Maps.{set_entry, has_entry}
use nostr_swarm.Shim.Lru.{delete_entry}
use nostr_swarm.Util.RateLimit.{consume}
use nostr_swarm.Nostr.Auth.{is_value, present, too_far}
use nostr_swarm.Nostr.Filter.Validate.{validate_filter, typed_filter}
use nostr_swarm.Nostr.Filter.{NostrFilter}
use nostr_swarm.Nostr.Event.Structure.{is_event_structure, typed_event}
use nostr_swarm.Storage.Query.{query_filters, count_filters}
use nostr_swarm.Storage.Client.{Client}
use nostr_swarm.Hyperbee.{Hyperbee}
use nostr_swarm.Base.{
  ltb, leb, ◌==◌, if◌then◌else◌, ltb→lt, lt→ltb, ltb_false→le, leb_false→lt, leb→le, le→leb, ==_iff,
  tests, Bool-cases, on_branches, Option-cases, some-eq, none-ne-some, length, get_elem?, take,
  drop, replicate, length-append, length-take-le, find, keep, any, all, In, In-append_left,
  In-append_right, In-append_cases, All, Text, text, eqb, eqb→eq, eqb_refl, eqb_iff, eqb_comm,
  text_lt, text_le, text_lt_irrefl, text_lt_trans, text_lt_total, text_lt_asymm, text_lt-append,
  text_le-append, starts_with, starts_with-append, includes, includes_text, includes_text→In,
  In→includes_text, ℤ, pos, negsuc, pos_part, neg_part, sub_ℕ, ltb_ℤ, leb_ℤ, eqb_ℤ, leb_ℤ-pos, ◌+ℤ◌,
  ◌-ℤ◌, to_u32, ℕ, zero, suc, ◌+◌, ◌-◌, ◌*◌, ◌/◌, ◌%◌, ◌^◌, ◌≤◌, ◌<◌, ◌≡◌, refl, sym, ap, ap₂, ◌∙◌,
  subst, ◌≡⟨◌⟩◌, ◌∎, ◌≢◌, ◌↔◌, ◌⊎◌, inl, inr, Bool, true, false, not, ◌&&◌, ◌||◌, Option, none,
  some, List, [], ◌∷◌, ◌++◌, map, append_assoc, append-nil, arith,
}

-- `event?.id ?? ''`
abbrev pub event_id : Json → Json
event_id payload = or_blank (get_member (text "id") (some payload))

abbrev pub fields_of : Json → Fields
fields_of (object fs) = fs
fields_of _ = end

-- A text, or the empty text in place of another value.
abbrev pub text_or_empty : Json → Text
text_or_empty (string s) = s
text_or_empty _ = []

-- `typeof subId === 'string' && subId.length !== 0 && subId.length <= 64`
abbrev pub is_subscription_id : Json → Bool
is_subscription_id (string s) = not (length s == 0) && leb (length s) 64
is_subscription_id _ = false

abbrev pub is_text : Json → Bool
is_text (string s) = true
is_text _ = false

abbrev pub push_filter : NostrFilter → Option (List NostrFilter) → Option (List NostrFilter)
push_filter f none = none
push_filter f (some fs) = some (f ∷ fs)

-- The loop that validates the filters; `none` if one is not valid.
unfoldable pub collect_filters : List Json → Option (List NostrFilter)
unfolding validate_filter typed_filter
collect_filters [] = some []
collect_filters (raw ∷ raws) =
    if validate_filter raw
    then push_filter (typed_filter (fields_of raw)) (collect_filters raws)
    else none

unfoldable pub send_events : Connection → Text → List NostrEvent → Connection
unfolding send_event
send_events conn sub_id [] = conn
send_events conn sub_id (event ∷ events) = send_events (send_event conn sub_id event) sub_id events

module _ (bee : Hyperbee) (to_lower_case : Text → Text) (now_ms now : ℤ) where
  -- `handleReq` once the filters are valid.
  unfoldable pub serve_req : Client bee → Connection → Text → Option (List NostrFilter) → Connection
  unfolding send_events send_eose
  serve_req store conn sub_id none = send_closed conn sub_id (text "error: invalid filter")
  serve_req store conn sub_id (some filters) =
      let subscribed = record conn {
        subscriptions = set_entry sub_id filters conn.subscriptions;
      } in
      send_eose
        (send_events subscribed sub_id (query_filters bee to_lower_case now store.indexes filters))
        sub_id

  unfoldable pub open_subscription : Client bee → Connection → Text → List Json → Connection
  unfolding serve_req collect_filters
  open_subscription store conn sub_id raw_filters =
      if not (has_entry sub_id conn.subscriptions)
        && leb conn.max_subscriptions (length conn.subscriptions)
      then send_closed conn sub_id (text "error: too many subscriptions")
      else if ltb conn.max_filters_per_req (length raw_filters)
      then send_closed conn sub_id (text "error: too many filters")
      else serve_req store conn sub_id (collect_filters raw_filters)

  unfoldable pub handle_req : Client bee → Connection → List Json → Connection
  unfolding open_subscription
  handle_req store conn (type ∷ sub_id ∷ raw_filter ∷ raw_filters) =
      let (limiter, allowed) = consume conn.req_limiter now_ms in
      let charged = record conn { req_limiter = limiter } in
      if not allowed
      then send_closed charged (text_or_empty sub_id) (text "rate-limited: slow down")
      else if not (is_subscription_id sub_id)
      then send_notice charged (text "error: invalid subscription ID")
      else open_subscription store charged (text_or_empty sub_id) (raw_filter ∷ raw_filters)
  handle_req store conn _ =
      send_notice conn (text "error: REQ requires subscription ID and at least one filter")

  unfoldable pub serve_count :
      Client bee → Connection → Text → Option (List NostrFilter) → Connection
  serve_count store conn query_id none = send_notice conn (text "error: invalid filter in COUNT")
  serve_count store conn query_id (some filters) =
      send_count conn query_id (count_filters bee to_lower_case now store.indexes filters)

  unfoldable pub handle_count : Client bee → Connection → List Json → Connection
  unfolding serve_count collect_filters
  handle_count store conn (type ∷ query_id ∷ raw_filter ∷ raw_filters) =
      let (limiter, allowed) = consume conn.req_limiter now_ms in
      let charged = record conn { req_limiter = limiter } in
      if not allowed
      then charged
      else if not (is_text query_id)
      then send_notice charged (text "error: invalid query ID")
      else serve_count store charged (text_or_empty query_id)
          (collect_filters (raw_filter ∷ raw_filters))
  handle_count store conn _ =
      send_notice conn (text "error: COUNT requires query ID and at least one filter")

unfoldable pub handle_close : Connection → List Json → Connection
handle_close conn (type ∷ string sub_id ∷ rest) =
    send_closed (record conn { subscriptions = delete_entry sub_id conn.subscriptions }) sub_id []
handle_close conn _ = send_notice conn (text "error: CLOSE requires subscription ID")

module _ (verify_event : Fields → Verdict) (now : ℤ) where
  -- `handleAuth` on an object of the structure of an event. `verify_event` is `verifyEvent` of the
  -- object that arrived; what it throws is caught by `handle`, which sends a NOTICE.
  unfoldable pub authenticate : Connection → Fields → Connection
  unfolding has_name too_far typed_event
  authenticate conn fs =
      let event = typed_event fs in
      if not (event.kind == 22242)
      then send_ok conn (string event.id) false (text "invalid: auth event must be kind 22242")
      else if is_thrown (verify_event fs)
      then send_notice conn (text "error: internal error")
      else if not (is_genuine (verify_event fs))
      then send_ok conn (string event.id) false (text "invalid: bad signature")
      else if not
          (is_value conn.challenge (tag_value (find (has_name (text "challenge")) event.tags)))
      then send_ok conn (string event.id) false (text "invalid: wrong challenge")
      else if not (present (truthy (tag_value (find (has_name (text "relay")) event.tags))))
      then send_ok conn (string event.id) false (text "invalid: missing relay tag")
      else if too_far now event.created_at
      then send_ok conn (string event.id) false (text "invalid: auth event too old or too new")
      else send_ok (record conn { auth_pubkey = some event.pubkey }) (string event.id) true []

  unfoldable pub handle_auth : Connection → List Json → Connection
  unfolding authenticate
  handle_auth conn (type ∷ payload ∷ rest) =
      if not (is_event_structure payload)
      then send_ok conn (event_id payload) false (text "invalid: bad event structure")
      else authenticate conn (fields_of payload)
  handle_auth conn _ = send_notice conn (text "error: AUTH requires a signed event")
