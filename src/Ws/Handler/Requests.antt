-- ===== src/Ws/Handler/Requests.antt =====
-- How a REQ message ends (`handleReq` of src/ws/handler.ts).
use nostr_swarm.Ws.Handler.{
  handle_req, open_subscription, serve_req, send_events, collect_filters, is_subscription_id,
  text_or_empty,
}
use nostr_swarm.Ws.{
  Connection, Reply, send_event, send_closed, send_notice, send_eose, event_reply, eose_reply,
  closed_reply, notice_reply,
}
use nostr_swarm.Storage.Query.Sound.{query_filters_sound, ServedAny, UnderOwnId}
use nostr_swarm.Storage.Query.Sorted.{IsSorted, IsDistinct}
use nostr_swarm.Storage.Query.{query_filters}
use nostr_swarm.Storage.Client.{Client}
use nostr_swarm.Util.Maps.{set_entry, has_entry}
use nostr_swarm.Util.RateLimit.{TokenBucket, consume}
use nostr_swarm.Nostr.Json.{Json, string}
use nostr_swarm.Nostr.Filter.{NostrFilter}
use nostr_swarm.Nostr.Event.{NostrEvent}
use nostr_swarm.Hyperbee.{Hyperbee}
use nostr_swarm.Nostr.Filter.Validate.{validate_filter}
use nostr_swarm.Base.{
  ltb, leb, Bool-cases, on_branches, Option-cases, length, all, All, Text, ℤ, ◌≡◌, refl, sym, ap,
  ◌∙◌, inl, inr, Bool, true, false, not, ◌&&◌, ◌||◌, Option, none, some, List, [], ◌∷◌, ◌++◌, map,
  append_assoc, append-nil, arith,
}

send_events_lem :
    (conn : Connection) (sub_id : Text) (events : List NostrEvent)
    → send_events conn sub_id events
      ≡ record conn { sent = conn.sent ++ map (event_reply sub_id) events }
unfolding send_events send_event
send_events_lem conn sub_id [] = ap (λ l. record conn { sent = l }) (sym (append-nil conn.sent))
send_events_lem conn sub_id (event ∷ events) =
    send_events_lem (send_event conn sub_id event) sub_id events
    ∙ ap (λ l. record conn { sent = l }) (append_assoc conn.sent _ _)

-- The values are filters exactly if all of them are valid.
collect_filters-none :
    (raws : List Json) → collect_filters raws ≡ none → all validate_filter raws ≡ false
unfolding collect_filters
collect_filters-none [] h = cc
collect_filters-none (raw ∷ raws) h = elim (Option-cases (collect_filters raws)) [
  | inl e ↦ let rest = collect_filters-none raws e in ground arith
  | inr (fs, e) ↦ elim (Bool-cases (validate_filter raw)) [
    | inl valid ↦ let some_left = rw (valid, e) at h in absurd cc
    | inr bad ↦ ground arith
  ]
]

collect_filters-some :
    (raws : List Json) (fs : List NostrFilter)
    → collect_filters raws ≡ some fs
    → all validate_filter raws ≡ true
unfolding collect_filters
collect_filters-some [] fs h = refl
collect_filters-some (raw ∷ raws) fs h = elim (Bool-cases (validate_filter raw)) [
  | inr bad ↦ let none_left = rw bad at h in absurd cc
  | inl valid ↦ elim (Option-cases (collect_filters raws)) [
    | inl e ↦ let none_left = rw (valid, e) at h in absurd cc
    | inr (gs, e) ↦ let rest = collect_filters-some raws gs e in ground arith
  ]
]

-- A reply that ends this request without a subscription: a NOTICE, or CLOSED with the request's id.
abbrev pub IsRefusal : List Json → Reply → Type 0
IsRefusal (type ∷ raw_id ∷ rest) (closed_reply sub_id message) = sub_id ≡ text_or_empty raw_id
IsRefusal msg (notice_reply message) = Unit
IsRefusal _ _ = ⊥

-- What a REQ has to meet: a token, an id of 1 to 64 characters, room for a subscription or one under
-- that id already, and from one to `maxFiltersPerReq` filters, all valid.
pub is_served : ℤ → Connection → List Json → Bool
is_served now_ms conn (type ∷ string sub_id ∷ raw ∷ raws) =
    (consume conn.req_limiter now_ms).1
    && is_subscription_id (string sub_id)
    && (has_entry sub_id conn.subscriptions
        || not (leb conn.max_subscriptions (length conn.subscriptions)))
    && not (ltb conn.max_filters_per_req (length (raw ∷ raws)))
    && all validate_filter (raw ∷ raws)
is_served now_ms conn _ = false

module _ (bee : Hyperbee) (to_lower_case : Text → Text) (now_ms now : ℤ) (store : Client bee)
    (own : UnderOwnId bee store.indexes) where
  pub data Replied (conn : Connection) (msg : List Json) (after : Connection) : Type 0 where
    refused :
        (reply : Reply)
        → is_served now_ms conn msg ≡ false
        → IsRefusal msg reply
        → after.subscriptions ≡ conn.subscriptions
        → after.sent ≡ conn.sent ++ reply ∷ []
        → Replied conn msg after
    subscribed :
        (type : Json) (sub_id : Text) (raws : List Json) (filters : List NostrFilter)
        (events : List NostrEvent)
        → is_served now_ms conn msg ≡ true
        → msg ≡ type ∷ string sub_id ∷ raws
        → collect_filters raws ≡ some filters
        → after.subscriptions ≡ set_entry sub_id filters conn.subscriptions
        → after.sent ≡ conn.sent ++ map (event_reply sub_id) events ++ eose_reply sub_id ∷ []
        → All (ServedAny bee to_lower_case now store.indexes own filters) events
        → IsDistinct events
        → IsSorted events
        → Replied conn msg after

  -- The guards before the filters are met.
  abbrev is_let_in : Connection → Text → List Json → Bool
  is_let_in conn sub_id raws =
      (consume conn.req_limiter now_ms).1
      && is_subscription_id (string sub_id)
      && (has_entry sub_id conn.subscriptions
          || not (leb conn.max_subscriptions (length conn.subscriptions)))
      && not (ltb conn.max_filters_per_req (length raws))

  serve_req-Replied :
      (conn : Connection) (limiter : TokenBucket) (type : Json) (sub_id : Text) (raw : Json)
      (raws : List Json) (o : Option (List NostrFilter))
      → collect_filters (raw ∷ raws) ≡ o
      → is_let_in conn sub_id (raw ∷ raws) ≡ true
      → Replied conn (type ∷ string sub_id ∷ raw ∷ raws) (
          serve_req bee to_lower_case now_ms now store
            (record conn { req_limiter = limiter })
            sub_id
            o)
  unfolding serve_req send_closed send_eose is_served
  serve_req-Replied conn limiter type sub_id raw raws none e let_in =
      let bad = collect_filters-none (raw ∷ raws) e in
      refused _ (ground (arith, bad)) refl refl refl
  serve_req-Replied conn limiter type sub_id raw raws (some filters) e let_in =
      let valid = collect_filters-some (raw ∷ raws) filters e in
      let events = query_filters bee to_lower_case now store.indexes filters in
      let (served, distinct, sorted) =
        query_filters_sound bee to_lower_case now store.indexes own filters in
      let base : Connection = record conn {
        req_limiter = limiter;
        subscriptions = set_entry sub_id filters conn.subscriptions;
      } in
      rw (send_events_lem base sub_id events) (
        subscribed type sub_id (raw ∷ raws) filters events (ground (arith, valid, let_in)) refl e
          refl refl served distinct sorted)

  -- Every REQ comes to an end. If it lacks something that a REQ has to meet, one reply, a NOTICE or
  -- CLOSED with its id, and the subscriptions as they were. Otherwise its id is subscribed to its
  -- filters, no other subscription changes, and the events come once each, newest first, all of them
  -- stored, unexpired and matched by one of its filters, and then EOSE with its id. In the view every
  -- event stands under its id.
  pub handle_req-Replied :
      (conn : Connection) (msg : List Json)
      → Replied conn msg (handle_req bee to_lower_case now_ms now store conn msg)
  unfolding handle_req open_subscription send_closed send_notice is_served
  handle_req-Replied conn (type ∷ string sub_id ∷ raw ∷ raws) =
      let msg : List Json = type ∷ string sub_id ∷ raw ∷ raws in
      let (limiter, allowed) = consume conn.req_limiter now_ms in
      let charged : Connection = record conn { req_limiter = limiter } in
      let by = on_branches (Replied conn msg) in
      by (not allowed) _ _ (λ limited. refused _ (ground (arith, limited)) refl refl refl)
        (λ paid.
          by (not (is_subscription_id (string sub_id))) _ _
            (λ bad. refused _ (ground (arith, bad)) tt refl refl)
            (λ good.
              by
                (not (has_entry sub_id conn.subscriptions)
                  && leb conn.max_subscriptions (length conn.subscriptions))
                _ _ (λ full. refused _ (ground (arith, full)) refl refl refl)
                (λ room.
                  by (ltb conn.max_filters_per_req (length (raw ∷ raws))) _ _
                    (λ many. refused _ (ground (arith, many)) refl refl refl)
                    (λ few.
                      serve_req-Replied conn limiter type sub_id raw raws _ refl
                        (ground (arith, paid, good, room, few))))))
  handle_req-Replied conn (type ∷ sub_id ∷ raw ∷ raws) =
      on_branches (Replied conn (type ∷ sub_id ∷ raw ∷ raws))
        (not (consume conn.req_limiter now_ms).1) _ _ (λ limited. refused _ refl refl refl refl)
        (λ paid. refused _ refl tt refl refl)
  handle_req-Replied conn _ = refused _ refl tt refl refl
