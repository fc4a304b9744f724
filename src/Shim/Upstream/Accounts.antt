-- ===== src/Shim/Upstream/Accounts.antt =====
-- What each occurrence of a socket (src/primal-shim/upstream.ts) does to the queries that are pending and
-- settled.
use nostr_swarm.Shim.Upstream.Counting.{
  text_count-append, key_count, settles, accounted, key_count-set_entry, key_count-delete_entry,
  absent, settled_count-append, settled_count-fail_queries, settled_count-fail_counts,
  settled_count-fail_waiters, key_count-some, settled_count-one, key_count-nil,
}
use nostr_swarm.Shim.Upstream.{
  to_wire, UpstreamSocket, Settlement, fetched, fetch_failed, counted, count_failed, published,
  publish_failed, fail_all_pending, fail_queries, fail_counts, fail_waiters, PublishResult, settle,
  try_send, Request, close_request,
}
use nostr_swarm.Shim.Upstream.Socket.{
  Occurrence, route, push_event, finish_query, fail_query, finish_count, pop_waiter, time_out_query,
  time_out_count, resubscribe_to, set_waiters, time_out_ok, remove_timer, event_in, eose_in,
  closed_in, count_in, ok_in, queries, Incoming,
}
use nostr_swarm.Shim.Lru.{delete_entry}
use nostr_swarm.Util.Maps.{get_entry, set_entry, has_entry}
use nostr_swarm.Nostr.Filter.{NostrFilter}
use nostr_swarm.Nostr.Event.{NostrEvent}
use nostr_swarm.Base.{
  if◌then◌else◌, Bool-cases, on_branches, Text, text, eqb, eqb→eq, ℕ, ◌+◌, ◌≤◌, ◌≡◌, refl, ap, ◌∙◌,
  inl, inr, Bool, true, false, Option, none, some, List, [], ◌∷◌, ◌++◌, arith,
}

pub accounted-fail_all_pending :
    (sub_id message : Text) (s : UpstreamSocket)
    → accounted sub_id (fail_all_pending message s) ≡ accounted sub_id s
unfolding fail_all_pending
accounted-fail_all_pending sub_id message s =
    let result : PublishResult = record { accepted = false; reason = text "error: " ++ message } in
    let a = fail_queries message s.pending_queries in
    let b = fail_counts message s.pending_counts in
    let c = fail_waiters result s.ok_waiters in
    let one = settled_count-append sub_id (s.settled ++ a ++ b) c in
    let two = settled_count-append sub_id (s.settled ++ a) b in
    let three = settled_count-append sub_id s.settled a in
    let qs = settled_count-fail_queries sub_id message s.pending_queries in
    let cs = settled_count-fail_counts sub_id message s.pending_counts in
    let ws = settled_count-fail_waiters sub_id result s.ok_waiters in
    let nil = key_count-nil (List NostrEvent) sub_id in omega arith

pub accounted-settle :
    (sub_id : Text) (s : UpstreamSocket) (outcome : Settlement)
    → accounted sub_id (settle s outcome) ≡ accounted sub_id s + settles sub_id outcome
accounted-settle sub_id s outcome =
    let all = settled_count-append sub_id s.settled (outcome ∷ []) in
    let one = settled_count-one sub_id outcome in omega arith

-- A query that is pending is settled.
pub accounted-delete :
    (sub_id j : Text) (s : UpstreamSocket) (events : List NostrEvent)
    → get_entry j s.pending_queries ≡ some events
    → key_count j s.pending_queries ≤ 1
    → accounted sub_id (record s { pending_queries = delete_entry j s.pending_queries })
        + (if eqb j sub_id then 1 else 0)
      ≡ accounted sub_id s
accounted-delete sub_id j s events h once =
    let gone = key_count-delete_entry sub_id j s.pending_queries in
    let there = key_count-some j s.pending_queries (rw h refl) in
    elim (Bool-cases (eqb j sub_id)) [
      | inr other ↦ let less = rw other at gone in rw other (omega arith)
      | inl same ↦
          let less = rw same at gone in
          let one = ap (λ k. key_count k s.pending_queries) (eqb→eq j sub_id same) in
          rw same (omega arith)
    ]

-- What the query of an occurrence finds: its id is fresh.
abbrev pub FreshFor : UpstreamSocket → Occurrence → Type 0
FreshFor s (queries j filters) = key_count j s.pending_queries ≡ 0
FreshFor s _ = Unit

pub accounted-query :
    (sub_id j : Text) (s : UpstreamSocket)
    → key_count j s.pending_queries ≡ 0
    → accounted sub_id (record s { pending_queries = set_entry j [] s.pending_queries })
      ≡ accounted sub_id s + (if eqb j sub_id then 1 else 0)
accounted-query sub_id j s fresh =
    let grown = key_count-set_entry {A = List NostrEvent} sub_id j [] s.pending_queries in
    let new = absent j s.pending_queries fresh in ground (arith, grown, new)

pub accounted-try_send :
    (sub_id : Text) (s : UpstreamSocket) (request : Request)
    → accounted sub_id (try_send s request) ≡ accounted sub_id s
accounted-try_send sub_id s request =
    on_branches (λ (t : UpstreamSocket). accounted sub_id t ≡ accounted sub_id s) s.connected _ _
      (λ h. refl) (λ h. refl)

pub accounted-finish_query :
    (sub_id j : Text) (s : UpstreamSocket) (o : Option (List NostrEvent))
    → get_entry j s.pending_queries ≡ o
    → key_count j s.pending_queries ≤ 1
    → (accounted sub_id (finish_query s j o) ≡ accounted sub_id s)
      × (accounted sub_id (time_out_query s j o) ≡ accounted sub_id s)
      × ((reason : Text) → accounted sub_id (fail_query s j reason o) ≡ accounted sub_id s)
accounted-finish_query sub_id j s none e once = (refl, refl, λ reason. refl)
accounted-finish_query sub_id j s (some events) e once =
    let less : UpstreamSocket = record s { pending_queries = delete_entry j s.pending_queries } in
    let sent = accounted-try_send sub_id less (close_request j) in
    let gone = accounted-delete sub_id j s events e once in
    let more = text_count-append sub_id j s.uncaught in
    (
      on_branches (λ (t : UpstreamSocket). accounted sub_id t ≡ accounted sub_id s) s.connected _ _
          (λ h. accounted-settle sub_id (to_wire less (close_request j)) (fetched j events) ∙ gone)
          (λ h. omega arith),
      accounted-settle sub_id (try_send less (close_request j)) (fetch_failed j _)
          ∙ ap (λ (n : ℕ). n + (if eqb j sub_id then 1 else 0)) sent
          ∙ gone,
      λ reason. accounted-settle sub_id less (fetch_failed j reason) ∙ gone,
    )

pub accounted-push_event :
    (sub_id j : Text) (s : UpstreamSocket) (event : NostrEvent) (o : Option (List NostrEvent))
    → get_entry j s.pending_queries ≡ o
    → accounted sub_id (push_event s j event o) ≡ accounted sub_id s
accounted-push_event sub_id j s event none e =
    on_branches (λ (t : UpstreamSocket). accounted sub_id t ≡ accounted sub_id s)
      (has_entry j s.live_subs) _ _ (λ h. refl) (λ h. refl)
accounted-push_event sub_id j s event (some events) e =
    let here : has_entry j s.pending_queries ≡ true = rw e refl in
    let grown =
      key_count-set_entry {A = List NostrEvent} sub_id j (events ++ event ∷ []) s.pending_queries in
    ground (arith, grown, here)

pub nothing_settled :
    (sub_id : Text) (s : UpstreamSocket) (outcome : Settlement)
    → settles sub_id outcome ≡ 0
    → accounted sub_id (settle s outcome) ≡ accounted sub_id s
nothing_settled sub_id s outcome h = let all = accounted-settle sub_id s outcome in omega arith

pub unsent :
    (sub_id : Text) (s : UpstreamSocket) (timer : ℕ) (waiters : List (Text × List ℕ))
    (message : Text)
    → accounted sub_id (settle (record s { ok_waiters = waiters }) (publish_failed timer message))
      ≡ accounted sub_id s
unsent sub_id s timer waiters message =
    nothing_settled sub_id (record s { ok_waiters = waiters }) (publish_failed timer message) refl

pub accounted-finish_count :
    (sub_id j : Text) (s : UpstreamSocket) (n : ℕ) (o : Option Bool)
    → (accounted sub_id (finish_count s j n o) ≡ accounted sub_id s)
      × (accounted sub_id (time_out_count s j o) ≡ accounted sub_id s)
accounted-finish_count sub_id j s n none = (refl, refl)
accounted-finish_count sub_id j s n (some waits) = (
  nothing_settled sub_id (record s { pending_counts = delete_entry j s.pending_counts })
      (counted j n) refl,
  nothing_settled sub_id (record s { pending_counts = delete_entry j s.pending_counts })
      (count_failed j _) refl,
)

pub accounted-pop_waiter :
    (sub_id id : Text) (s : UpstreamSocket) (result : PublishResult) (o : Option (List ℕ))
    → accounted sub_id (pop_waiter s id result o) ≡ accounted sub_id s
accounted-pop_waiter sub_id id s result none = refl
accounted-pop_waiter sub_id id s result (some []) = refl
accounted-pop_waiter sub_id id s result (some (timer ∷ [])) =
    nothing_settled sub_id (record s { ok_waiters = delete_entry id s.ok_waiters })
      (published timer result) refl
accounted-pop_waiter sub_id id s result (some (timer ∷ t ∷ timers)) =
    nothing_settled sub_id (record s { ok_waiters = set_entry id (t ∷ timers) s.ok_waiters })
      (published timer result) refl

pub accounted-time_out_ok :
    (sub_id id : Text) (s : UpstreamSocket) (timer : ℕ) (o : Option (List ℕ))
    → accounted sub_id (time_out_ok s id timer o) ≡ accounted sub_id s
accounted-time_out_ok sub_id id s timer none = refl
accounted-time_out_ok sub_id id s timer (some timers) =
    nothing_settled sub_id (set_waiters s id (remove_timer timer timers)) (published timer _) refl
    ∙ go (remove_timer timer timers)
  where
    go : (l : List ℕ) → accounted sub_id (set_waiters s id l) ≡ accounted sub_id s
    go [] = refl
    go (t ∷ l) = refl

pub accounted-resubscribe_to :
    (sub_id j : Text) (s : UpstreamSocket) (o : Option (List NostrFilter))
    → accounted sub_id (resubscribe_to s j o) ≡ accounted sub_id s
accounted-resubscribe_to sub_id j s none = refl
accounted-resubscribe_to sub_id j s (some filters) =
    on_branches (λ (t : UpstreamSocket). accounted sub_id t ≡ accounted sub_id s) s.closed _ _
      (λ h. refl) (λ h. accounted-try_send sub_id s _)

pub accounted-route :
    (sub_id : Text) (s : UpstreamSocket) (message : Incoming)
    → ((j : Text) → key_count j s.pending_queries ≤ 1)
    → accounted sub_id (route s message) ≡ accounted sub_id s
unfolding route
accounted-route sub_id s (event_in j event) once = accounted-push_event sub_id j s event _ refl
accounted-route sub_id s (eose_in j) once = (accounted-finish_query sub_id j s _ refl (once j)).0
accounted-route sub_id s (closed_in j reason) once =
    (accounted-finish_query sub_id j s _ refl (once j)).2 reason
accounted-route sub_id s (count_in j n) once = (accounted-finish_count sub_id j s n _).0
accounted-route sub_id s (ok_in id result) once = accounted-pop_waiter sub_id id s result _
