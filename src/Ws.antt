-- ===== src/Ws.antt =====
-- The state of a connection and what the relay sends over it (src/ws/connection.ts). The sockets are
-- outside: what was sent stands in `sent`. `now_ms` is the reading of the clock in milliseconds.
pub mod Handler
pub mod Server
use nostr_swarm.Util.RateLimit.{TokenBucket, new_bucket}
use nostr_swarm.Nostr.Json.{Json}
use nostr_swarm.Nostr.Filter.{NostrFilter}
use nostr_swarm.Nostr.Event.{NostrEvent}
use nostr_swarm.Base.{
  ltb, leb, ◌==◌, if◌then◌else◌, ltb→lt, lt→ltb, ltb_false→le, leb_false→lt, leb→le, le→leb, ==_iff,
  tests, Bool-cases, Option-cases, some-eq, none-ne-some, length, get_elem?, take, drop, replicate,
  length-append, length-take-le, find, keep, any, all, In, In-append_left, In-append_right,
  In-append_cases, All, Text, text, eqb, eqb→eq, eqb_refl, eqb_iff, eqb_comm, text_lt, text_le,
  text_lt_irrefl, text_lt_trans, text_lt_total, text_lt_asymm, text_lt-append, text_le-append,
  starts_with, starts_with-append, includes, includes_text, includes_text→In, In→includes_text, ℤ,
  pos, negsuc, pos_part, neg_part, sub_ℕ, ltb_ℤ, leb_ℤ, eqb_ℤ, leb_ℤ-pos, ◌+ℤ◌, ◌-ℤ◌, to_u32, ℕ,
  zero, suc, ◌+◌, ◌-◌, ◌*◌, ◌/◌, ◌%◌, ◌^◌, ◌≤◌, ◌<◌, ◌≡◌, refl, sym, ap, ap₂, ◌∙◌, subst, ◌≡⟨◌⟩◌,
  ◌∎, ◌≢◌, ◌↔◌, ◌⊎◌, inl, inr, Bool, true, false, not, ◌&&◌, ◌||◌, Option, none, some, List, [],
  ◌∷◌, ◌++◌, map, append_assoc, append-nil, arith,
}

-- The limits of the configuration that concern a connection.
pub record RelayConfig : Type 0 where
  pub max_message_size : ℕ
  pub max_subscriptions_per_conn : ℕ
  pub max_filters_per_req : ℕ
  pub event_rate_per_sec : ℕ
  pub req_rate_per_sec : ℕ

-- The messages to a client. The id of an `OK` may be any value that the client sent.
pub data Reply : Type 0 where
  ok_reply : Json → Bool → Text → Reply
  event_reply : Text → NostrEvent → Reply
  eose_reply : Text → Reply
  closed_reply : Text → Text → Reply
  notice_reply : Text → Reply
  count_reply : Text → ℕ → Reply
  auth_reply : Text → Reply

pub record Connection : Type 0 where
  pub subscriptions : List (Text × List NostrFilter)
  pub event_limiter : TokenBucket
  pub req_limiter : TokenBucket
  pub max_subscriptions : ℕ
  pub max_filters_per_req : ℕ
  pub auth_pubkey : Option Text
  pub challenge : Text
  pub sent : List Reply

-- The constructor; the random challenge is an argument. A token has 1000 parts.
unfoldable pub new_connection : RelayConfig → Text → ℤ → Connection
new_connection config challenge now_ms = record {
  subscriptions = [];
  event_limiter = new_bucket (config.event_rate_per_sec * 2) config.event_rate_per_sec 1000 now_ms;
  req_limiter = new_bucket (config.req_rate_per_sec * 2) config.req_rate_per_sec 1000 now_ms;
  max_subscriptions = config.max_subscriptions_per_conn;
  max_filters_per_req = config.max_filters_per_req;
  auth_pubkey = none;
  challenge = challenge;
  sent = [];
}

unfoldable pub send : Connection → Reply → Connection
send conn reply = record conn { sent = conn.sent ++ reply ∷ [] }

unfoldable pub send_ok : Connection → Json → Bool → Text → Connection
unfolding send
send_ok conn event_id accepted message = send conn (ok_reply event_id accepted message)

unfoldable pub send_event : Connection → Text → NostrEvent → Connection
unfolding send
send_event conn subscription_id event = send conn (event_reply subscription_id event)

unfoldable pub send_eose : Connection → Text → Connection
unfolding send
send_eose conn subscription_id = send conn (eose_reply subscription_id)

unfoldable pub send_closed : Connection → Text → Text → Connection
unfolding send
send_closed conn subscription_id message = send conn (closed_reply subscription_id message)

unfoldable pub send_notice : Connection → Text → Connection
unfolding send
send_notice conn message = send conn (notice_reply message)

unfoldable pub send_count : Connection → Text → ℕ → Connection
unfolding send
send_count conn query_id count = send conn (count_reply query_id count)

unfoldable pub send_auth : Connection → Connection
unfolding send
send_auth conn = send conn (auth_reply conn.challenge)
