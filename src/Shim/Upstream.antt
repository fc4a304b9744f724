-- ===== src/Shim/Upstream.antt =====
-- The client of the backing relay over one socket (`UpstreamSocket` of src/primal-shim/upstream.ts). A
-- promise is the id of its request; what it was settled with stands in `settled`. Timers are inputs.
-- A message of the relay is modelled after it is decoded.
pub mod Socket
pub mod Counting
pub mod Pool
pub mod Accounts
pub mod Steady
pub mod Settles
use nostr_swarm.Shim.Lru.{delete_entry}
use nostr_swarm.Util.Maps.{get_entry, set_entry, has_entry}
use nostr_swarm.Nostr.Filter.{NostrFilter}
use nostr_swarm.Nostr.Event.{NostrEvent}
use nostr_swarm.Base.{
  ltb, leb, ◌==◌, if◌then◌else◌, ltb→lt, lt→ltb, ltb_false→le, leb_false→lt, leb→le, le→leb, ==_iff,
  tests, Bool-cases, on_branches, Option-cases, some-eq, none-ne-some, length, get_elem?, take,
  drop, replicate, length-append, length-take-le, find, keep, any, all, In, In-append_left,
  In-append_right, In-append_cases, All, Text, text, eqb, eqb→eq, eqb_refl, eqb_iff, eqb_comm,
  text_lt, text_le, text_lt_irrefl, text_lt_trans, text_lt_total, text_lt_asymm, text_lt-append,
  text_le-append, starts_with, starts_with-append, includes, includes_text, includes_text→In,
  In→includes_text, ℤ, pos, negsuc, pos_part, neg_part, sub_ℕ, ltb_ℤ, leb_ℤ, eqb_ℤ, leb_ℤ-pos, ◌+ℤ◌,
  ◌-ℤ◌, to_u32, ℕ, zero, suc, ◌+◌, ◌-◌, ◌*◌, ◌/◌, ◌%◌, ◌^◌, ◌≤◌, ◌<◌, ◌≡◌, refl, sym, ap, ap₂, ◌∙◌,
  subst, ◌≡⟨◌⟩◌, ◌∎, ◌≢◌, ◌↔◌, ◌⊎◌, inl, inr, Bool, true, false, not, ◌&&◌, ◌||◌, Option, none,
  some, List, [], ◌∷◌, ◌++◌, map, append_assoc, append-nil, arith,
}

abbrev pub reconnect_min_ms : ℕ
reconnect_min_ms = 500

abbrev pub reconnect_max_ms : ℕ
reconnect_max_ms = 10000

pub record PublishResult : Type 0 where
  pub accepted : Bool
  pub reason : Text

-- What is sent to the relay.
pub data Request : Type 0 where
  req_request : Text → List NostrFilter → Request
  count_request : Text → List NostrFilter → Request
  close_request : Text → Request
  event_request : NostrEvent → Request

-- How a promise was settled: with its result, or with the message of an error.
pub data Settlement : Type 0 where
  fetched : Text → List NostrEvent → Settlement
  fetch_failed : Text → Text → Settlement
  counted : Text → ℕ → Settlement
  count_failed : Text → Text → Settlement
  published : ℕ → PublishResult → Settlement
  publish_failed : ℕ → Text → Settlement

-- The map of the counts that are waited for has no values of account. `ok_waiters` has the waiters of
-- an event id, oldest first, each by the number of its timer. `uncaught` has the ids of the queries at
-- whose EOSE the handler threw.
pub record UpstreamSocket : Type 0 where
  pub connected : Bool
  pub closed : Bool
  pub reconnect_delay : ℕ
  pub pending_queries : List (Text × List NostrEvent)
  pub pending_counts : List (Text × Bool)
  pub ok_waiters : List (Text × List ℕ)
  pub live_subs : List (Text × List NostrFilter)
  pub delivered : List (Text × NostrEvent)
  pub wire : List Request
  pub settled : List Settlement
  pub uncaught : List Text

unfoldable pub new_socket : UpstreamSocket
new_socket = record {
  connected = false;
  closed = false;
  reconnect_delay = reconnect_min_ms;
  pending_queries = [];
  pending_counts = [];
  ok_waiters = [];
  live_subs = [];
  delivered = [];
  wire = [];
  settled = [];
  uncaught = [];
}

unfoldable pub inflight : UpstreamSocket → ℕ
inflight s = length s.pending_queries + length s.pending_counts

abbrev pub settle : UpstreamSocket → Settlement → UpstreamSocket
settle s outcome = record s { settled = s.settled ++ outcome ∷ [] }

abbrev pub to_wire : UpstreamSocket → Request → UpstreamSocket
to_wire s request = record s { wire = s.wire ++ request ∷ [] }

-- `send` where an error that it throws is caught and dropped.
abbrev pub try_send : UpstreamSocket → Request → UpstreamSocket
try_send s request = if s.connected then to_wire s request else s

unfoldable pub fail_queries : Text → List (Text × List NostrEvent) → List Settlement
fail_queries message [] = []
fail_queries message ((sub_id, events) ∷ pending) =
    fetch_failed sub_id message ∷ fail_queries message pending

unfoldable pub fail_counts : Text → List (Text × Bool) → List Settlement
fail_counts message [] = []
fail_counts message ((sub_id, waits) ∷ pending) =
    count_failed sub_id message ∷ fail_counts message pending

unfoldable pub fail_waiters : PublishResult → List (Text × List ℕ) → List Settlement
fail_waiters result [] = []
fail_waiters result ((id, waiters) ∷ rest) =
    map (λ timer. published timer result) waiters ++ fail_waiters result rest

unfoldable pub fail_all_pending : Text → UpstreamSocket → UpstreamSocket
unfolding fail_queries fail_counts fail_waiters
fail_all_pending message s = record s {
  pending_queries = [];
  pending_counts = [];
  ok_waiters = [];
  settled =
      s.settled
      ++ fail_queries message s.pending_queries
      ++ fail_counts message s.pending_counts
      ++ fail_waiters (record { accepted = false; reason = text "error: " ++ message })
          s.ok_waiters;
}
