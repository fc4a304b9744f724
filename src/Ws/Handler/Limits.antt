-- ===== src/Ws/Handler/Limits.antt =====
-- The limits of the connections (src/ws/handler.ts, `handleReq`), whatever the clients send.
use nostr_swarm.Ws.Handler.Auth.{settle, authenticate-checked}
use nostr_swarm.Nostr.Auth.{AuthResult}
use nostr_swarm.Nostr.Event.{Verdict, NostrEvent}
use nostr_swarm.Nostr.Json.{Fields, Json, string}
use nostr_swarm.Ws.Handler.Sizes.{
  All-delete_entry, is_subscription_id_lem, room, either_branch, length-delete_entry,
  length-collect_filters, length-set_entry,
}
use nostr_swarm.Util.RateLimit.{consume, TokenBucket}
use nostr_swarm.Ws.Handler.{
  fields_of, serve_count, handle_auth, authenticate, handle_close, handle_count, handle_req,
  serve_req, open_subscription, send_events, collect_filters, is_subscription_id, text_or_empty,
}
use nostr_swarm.Ws.{
  Reply, event_reply, eose_reply, send_ok, send_count, Connection, RelayConfig, send, send_notice,
  send_event, send_closed, send_eose, new_connection,
}
use nostr_swarm.Util.Maps.{All-set_entry, set_entry, has_entry}
use nostr_swarm.Shim.Lru.{delete_entry}
use nostr_swarm.Nostr.Filter.{NostrFilter}
use nostr_swarm.Storage.Query.{query_filters}
use nostr_swarm.Hyperbee.{Hyperbee}
use nostr_swarm.Storage.Client.{Client}
use nostr_swarm.Base.{
  ltb, leb, ltb_false→le, Bool-cases, length, All, Text, ℤ, ℕ, ◌≤◌, ◌≡◌, refl, sym, subst, inl, inr,
  Bool, false, not, ◌&&◌, Option, none, some, List, [], ◌∷◌, arith,
}

-- An id of 1 to 64 characters, and not too many filters.
abbrev pub IsAllowed : RelayConfig → Text × List NostrFilter → Type 0
IsAllowed config (sub_id, filters) =
    (1 ≤ length sub_id) × (length sub_id ≤ 64) × (length filters ≤ config.max_filters_per_req)

-- A connection within its limits, which are those of the configuration.
unfoldable pub IsWithin : RelayConfig → Connection → Type 0
IsWithin config conn =
    (conn.max_subscriptions ≡ config.max_subscriptions_per_conn)
    × (conn.max_filters_per_req ≡ config.max_filters_per_req)
    × (length conn.subscriptions ≤ config.max_subscriptions_per_conn)
    × All (IsAllowed config) conn.subscriptions

module _ (config : RelayConfig) (conn : Connection) where
  -- What leaves the limits alone.
  pub send-IsWithin : (reply : Reply) → IsWithin config conn → IsWithin config (send conn reply)
  unfolding send IsWithin
  send-IsWithin reply w = w

  pub charge_req-IsWithin :
      (limiter : TokenBucket)
      → IsWithin config conn
      → IsWithin config (record conn { req_limiter = limiter })
  unfolding IsWithin
  charge_req-IsWithin limiter w = w

  pub charge_event-IsWithin :
      (limiter : TokenBucket)
      → IsWithin config conn
      → IsWithin config (record conn { event_limiter = limiter })
  unfolding IsWithin
  charge_event-IsWithin limiter w = w

  auth_pubkey-IsWithin :
      (pubkey : Option Text)
      → IsWithin config conn
      → IsWithin config (record conn { auth_pubkey = pubkey })
  unfolding IsWithin
  auth_pubkey-IsWithin pubkey w = w

send_events-IsWithin :
    (config : RelayConfig) (conn : Connection) (sub_id : Text) (events : List NostrEvent)
    → IsWithin config conn
    → IsWithin config (send_events conn sub_id events)
unfolding send_events send_event
send_events-IsWithin config conn sub_id [] w = w
send_events-IsWithin config conn sub_id (event ∷ events) w =
    send_events-IsWithin config (send_event conn sub_id event) sub_id events
      (send-IsWithin config conn (event_reply sub_id event) w)

abbrev is_full : Connection → Text → Bool
is_full conn sub_id =
    not (has_entry sub_id conn.subscriptions)
    && leb conn.max_subscriptions (length conn.subscriptions)

module _ (bee : Hyperbee) (to_lower_case : Text → Text) (now_ms now : ℤ)
    (config : RelayConfig) where
  subscribed-IsWithin :
      (conn : Connection) (sub_id : Text) (filters : List NostrFilter)
      → IsWithin config conn
      → (1 ≤ length sub_id) × (length sub_id ≤ 64)
      → is_full conn sub_id ≡ false
      → length filters ≤ config.max_filters_per_req
      → IsWithin config
          (record conn { subscriptions = set_entry sub_id filters conn.subscriptions })
  unfolding IsWithin
  subscribed-IsWithin conn sub_id filters w k guard few = (
    w.0,
    w.1,
    rw (length-set_entry sub_id filters conn.subscriptions) (
        room (length conn.subscriptions) config.max_subscriptions_per_conn _ w.2 (rw w.0 at guard)),
    All-set_entry (IsAllowed config) sub_id filters conn.subscriptions w.3 (k.0, k.1, few),
  )

  filters_fit :
      (conn : Connection) (n : ℕ)
      → IsWithin config conn
      → ltb conn.max_filters_per_req n ≡ false
      → n ≤ config.max_filters_per_req
  unfolding IsWithin
  filters_fit conn n w h = subst (λ (m : ℕ). n ≤ m) w.1 (ltb_false→le _ _ h)

  serve_req-IsWithin :
      (store : Client bee) (conn : Connection) (sub_id : Text) (o : Option (List NostrFilter))
      → IsWithin config conn
      → (1 ≤ length sub_id) × (length sub_id ≤ 64)
      → is_full conn sub_id ≡ false
      → ((fs : List NostrFilter) → o ≡ some fs → length fs ≤ config.max_filters_per_req)
      → IsWithin config (serve_req bee to_lower_case now_ms now store conn sub_id o)
  unfolding serve_req send_closed send_eose
  serve_req-IsWithin store conn sub_id none w k guard few = send-IsWithin config conn _ w
  serve_req-IsWithin store conn sub_id (some filters) w k guard few =
      send-IsWithin config _ (eose_reply sub_id) (
        send_events-IsWithin config _ sub_id
          (query_filters bee to_lower_case now store.indexes filters)
          (subscribed-IsWithin conn sub_id filters w k guard (few filters refl)))

  open_subscription-IsWithin :
      (store : Client bee) (conn : Connection) (sub_id : Text) (raws : List Json)
      → IsWithin config conn
      → (1 ≤ length sub_id) × (length sub_id ≤ 64)
      → IsWithin config (open_subscription bee to_lower_case now_ms now store conn sub_id raws)
  unfolding open_subscription send_closed
  open_subscription-IsWithin store conn sub_id raws w k = elim (Bool-cases (is_full conn sub_id)) [
    | inl full ↦ rw full (send-IsWithin config conn _ w)
    | inr free ↦ elim (Bool-cases (ltb conn.max_filters_per_req (length raws))) [
      | inl many ↦ rw (free, many) (send-IsWithin config conn _ w)
      | inr few ↦
          rw (free, few)
            (serve_req-IsWithin store conn sub_id (collect_filters raws) w k free (λ fs h.
              subst (λ (m : ℕ). m ≤ config.max_filters_per_req)
                (sym (length-collect_filters raws fs h)) (filters_fit conn (length raws) w few)))
    ]
  ]

  pub handle_req-IsWithin :
      (store : Client bee) (conn : Connection) (msg : List Json)
      → IsWithin config conn
      → IsWithin config (handle_req bee to_lower_case now_ms now store conn msg)
  unfolding handle_req send_notice send_closed
  handle_req-IsWithin store conn (a ∷ j ∷ raw ∷ raws) w =
      let (limiter, allowed) = consume conn.req_limiter now_ms in
      let charged = charge_req-IsWithin config conn limiter w in
      elim (Bool-cases (is_subscription_id j)) [
        | inr bad ↦ rw bad (
            either_branch (IsWithin config) _ (send-IsWithin config _ _ charged)
              (send-IsWithin config _ _ charged))
        | inl good ↦ rw good (
            either_branch (IsWithin config) _ (send-IsWithin config _ _ charged) (
              open_subscription-IsWithin store _ (text_or_empty j) (raw ∷ raws) charged
                (is_subscription_id_lem j good)))
      ]
  handle_req-IsWithin store conn _ w = send-IsWithin config conn _ w

  serve_count-IsWithin :
      (store : Client bee) (conn : Connection) (query_id : Text) (o : Option (List NostrFilter))
      → IsWithin config conn
      → IsWithin config (serve_count bee to_lower_case now_ms now store conn query_id o)
  unfolding serve_count send_notice send_count
  serve_count-IsWithin store conn query_id none w = send-IsWithin config conn _ w
  serve_count-IsWithin store conn query_id (some filters) w = send-IsWithin config conn _ w

  pub handle_count-IsWithin :
      (store : Client bee) (conn : Connection) (msg : List Json)
      → IsWithin config conn
      → IsWithin config (handle_count bee to_lower_case now_ms now store conn msg)
  unfolding handle_count send_notice
  handle_count-IsWithin store conn (a ∷ j ∷ raw ∷ raws) w =
      let (limiter, allowed) = consume conn.req_limiter now_ms in
      let charged = charge_req-IsWithin config conn limiter w in
      either_branch (IsWithin config) _ charged (
        either_branch (IsWithin config) _ (send-IsWithin config _ _ charged)
          (serve_count-IsWithin store _ (text_or_empty j) (collect_filters (raw ∷ raws)) charged))
  handle_count-IsWithin store conn _ w = send-IsWithin config conn _ w

closed-IsWithin :
    (config : RelayConfig) (conn : Connection) (sub_id : Text)
    → IsWithin config conn
    → IsWithin config (record conn { subscriptions = delete_entry sub_id conn.subscriptions })
unfolding IsWithin
closed-IsWithin config conn sub_id w =
    let shorter = length-delete_entry sub_id conn.subscriptions in
    (
      w.0,
      w.1,
      omega (arith, shorter, w.2),
      All-delete_entry (IsAllowed config) sub_id conn.subscriptions w.3,
    )

pub handle_close-IsWithin :
    (config : RelayConfig) (conn : Connection) (msg : List Json)
    → IsWithin config conn
    → IsWithin config (handle_close conn msg)
unfolding handle_close send_notice send_closed
handle_close-IsWithin config conn (a ∷ string sub_id ∷ rest) w =
    send-IsWithin config _ _ (closed-IsWithin config conn sub_id w)
handle_close-IsWithin config conn _ w = send-IsWithin config conn _ w

module _ (config : RelayConfig) (verify_event : Fields → Verdict) (now : ℤ) where
  settle-IsWithin :
      (conn : Connection) (id : Text) (o : Option AuthResult)
      → IsWithin config conn
      → IsWithin config (settle conn id o)
  unfolding send_ok send_notice
  settle-IsWithin conn id none w = send-IsWithin config conn _ w
  settle-IsWithin conn id (some result) w =
      send-IsWithin config _ _ (auth_pubkey-IsWithin config conn _ w)

  authenticate-IsWithin :
      (conn : Connection) (fs : Fields)
      → IsWithin config conn
      → IsWithin config (authenticate verify_event now conn fs)
  unfolding send_ok
  authenticate-IsWithin conn fs w =
      subst (IsWithin config) (sym (authenticate-checked verify_event now conn fs))
        (settle-IsWithin conn _ _ w)

  pub handle_auth-IsWithin :
      (conn : Connection) (msg : List Json)
      → IsWithin config conn
      → IsWithin config (handle_auth verify_event now conn msg)
  unfolding handle_auth send_ok send_notice
  handle_auth-IsWithin conn (a ∷ payload ∷ rest) w =
      either_branch (IsWithin config) _ (send-IsWithin config conn _ w)
        (authenticate-IsWithin conn (fields_of payload) w)
  handle_auth-IsWithin conn _ w = send-IsWithin config conn _ w

pub new_connection-IsWithin :
    (config : RelayConfig) (challenge : Text) (now_ms : ℤ)
    → IsWithin config (new_connection config challenge now_ms)
unfolding IsWithin new_connection
new_connection-IsWithin config challenge now_ms = (refl, refl, omega arith, tt)
