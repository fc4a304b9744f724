-- ===== src/Shim/Upstream/Steady.antt =====
-- A socket of src/primal-shim/upstream.ts that never closes by the handshake has nothing pending while it
-- is not connected.
use nostr_swarm.Shim.Upstream.Socket.{
  Occurrence, Incoming, advance, route, push_event, finish_query, fail_query, finish_count,
  pop_waiter, time_out_query, time_out_count, resubscribe_to, set_waiters, time_out_ok,
  remove_timer, event_in, eose_in, closed_in, count_in, ok_in, on_open, on_close, close, query,
  count, publish_once, open_live_sub, close_live_sub, opens, closes, drops, shuts, receives,
  queries, counts, query_timer, count_timer, publishes, ok_timer, subscribes, unsubscribes,
  resubscribe_timer,
}
use nostr_swarm.Shim.Upstream.{
  UpstreamSocket, fail_all_pending, Request, PublishResult, try_send, settle, fetch_failed,
}
use nostr_swarm.Util.Maps.{get_entry, has_entry}
use nostr_swarm.Nostr.Event.{NostrEvent}
use nostr_swarm.Nostr.Filter.{NostrFilter}
use nostr_swarm.Base.{
  on_branches, Text, text, ℕ, ◌≡◌, refl, sym, ap, ◌∙◌, ◌⊎◌, inl, inr, Bool, true, Option, none,
  some, List, [], ◌∷◌,
}

abbrev pub IsSteady : UpstreamSocket → Type 0
IsSteady s = ((s.connected ≡ true) ⊎ (s.pending_queries ≡ [])) × (s.uncaught ≡ [])

-- Where something is pending the socket is connected.
live :
    (s : UpstreamSocket) (j : Text) (events : List NostrEvent)
    → IsSteady s
    → get_entry j s.pending_queries ≡ some events
    → s.connected ≡ true
unfolding get_entry
live s j events (inl on, caught) e = on
live s j events (inr empty, caught) e = absurd (cc (sym (ap (get_entry j) empty) ∙ e))

finish_query-IsSteady :
    (s : UpstreamSocket) (j : Text) (o : Option (List NostrEvent))
    → get_entry j s.pending_queries ≡ o
    → IsSteady s
    → IsSteady (finish_query s j o)
      × IsSteady (time_out_query s j o)
      × ((reason : Text) → IsSteady (fail_query s j reason o))
finish_query-IsSteady s j none e h = (h, h, λ reason. h)
finish_query-IsSteady s j (some events) e h =
    let on = live s j events h e in
    (
      on_branches IsSteady s.connected _ _ (λ yes. (inl on, h.1)) (λ no. absurd (cc (on, no))),
      on_branches
          (λ (t : UpstreamSocket).
            IsSteady (settle t (fetch_failed j (text "upstream query timed out"))))
          s.connected _ _ (λ yes. (inl on, h.1)) (λ no. (inl on, h.1)),
      λ reason. (inl on, h.1),
    )

push_event-IsSteady :
    (s : UpstreamSocket) (j : Text) (event : NostrEvent) (o : Option (List NostrEvent))
    → get_entry j s.pending_queries ≡ o
    → IsSteady s
    → IsSteady (push_event s j event o)
push_event-IsSteady s j event none e h =
    on_branches IsSteady (has_entry j s.live_subs) _ _ (λ yes. h) (λ no. h)
push_event-IsSteady s j event (some events) e h = (inl (live s j events h e), h.1)

try_send-IsSteady :
    (s : UpstreamSocket) (request : Request) → IsSteady s → IsSteady (try_send s request)
try_send-IsSteady s request h = on_branches IsSteady s.connected _ _ (λ yes. h) (λ no. h)

pop_waiter-IsSteady :
    (s : UpstreamSocket) (id : Text) (result : PublishResult) (o : Option (List ℕ))
    → IsSteady s
    → IsSteady (pop_waiter s id result o)
pop_waiter-IsSteady s id result none h = h
pop_waiter-IsSteady s id result (some []) h = h
pop_waiter-IsSteady s id result (some (timer ∷ [])) h = h
pop_waiter-IsSteady s id result (some (timer ∷ t ∷ timers)) h = h

count-IsSteady :
    (s : UpstreamSocket) (j : Text) (n : ℕ) (o : Option Bool)
    → IsSteady s
    → IsSteady (finish_count s j n o) × IsSteady (time_out_count s j o)
count-IsSteady s j n none h = (h, h)
count-IsSteady s j n (some waits) h = (h, h)

time_out_ok-IsSteady :
    (s : UpstreamSocket) (id : Text) (timer : ℕ) (o : Option (List ℕ))
    → IsSteady s
    → IsSteady (time_out_ok s id timer o)
time_out_ok-IsSteady s id timer none h = h
time_out_ok-IsSteady s id timer (some timers) h = go (remove_timer timer timers)
  where
    go : (l : List ℕ) → IsSteady (set_waiters s id l)
    go [] = h
    go (t ∷ l) = h

resubscribe_to-IsSteady :
    (s : UpstreamSocket) (j : Text) (o : Option (List NostrFilter))
    → IsSteady s
    → IsSteady (resubscribe_to s j o)
resubscribe_to-IsSteady s j none h = h
resubscribe_to-IsSteady s j (some filters) h =
    on_branches IsSteady s.closed _ _ (λ yes. h) (λ no. try_send-IsSteady s _ h)

route-IsSteady : (s : UpstreamSocket) (message : Incoming) → IsSteady s → IsSteady (route s message)
unfolding route
route-IsSteady s (event_in j event) h = push_event-IsSteady s j event _ refl h
route-IsSteady s (eose_in j) h = (finish_query-IsSteady s j _ refl h).0
route-IsSteady s (closed_in j reason) h = (finish_query-IsSteady s j _ refl h).2 reason
route-IsSteady s (count_in j n) h = (count-IsSteady s j n _ h).0
route-IsSteady s (ok_in id result) h = pop_waiter-IsSteady s id result _ h

-- Any occurrence but the closing handshake.
abbrev pub IsNotClosing : Occurrence → Type 0
IsNotClosing closes = ⊥
IsNotClosing _ = Unit

pub advance-IsSteady :
    (s : UpstreamSocket) (o : Occurrence) → IsNotClosing o → IsSteady s → IsSteady (advance s o)
unfolding advance on_open on_close close query count publish_once open_live_sub close_live_sub
    fail_all_pending
advance-IsSteady s opens never h = (inl refl, h.1)
advance-IsSteady s closes never h = absurd never
advance-IsSteady s drops never h =
    on_branches IsSteady s.closed _ _ (λ yes. (inr refl, h.1)) (λ no. (inr refl, h.1))
advance-IsSteady s shuts never h = (inr refl, h.1)
advance-IsSteady s (receives message) never h = route-IsSteady s message h
advance-IsSteady s (queries j filters) never h =
    on_branches IsSteady s.connected _ _ (λ yes. (inl yes, h.1)) (λ no. h)
advance-IsSteady s (counts j filters) never h =
    on_branches IsSteady s.connected _ _ (λ yes. h) (λ no. h)
advance-IsSteady s (query_timer j) never h = (finish_query-IsSteady s j _ refl h).1
advance-IsSteady s (count_timer j) never h = (count-IsSteady s j 0 _ h).1
advance-IsSteady s (publishes timer event) never h =
    on_branches IsSteady s.connected _ _ (λ yes. h) (λ no. h)
advance-IsSteady s (ok_timer id timer) never h = time_out_ok-IsSteady s id timer _ h
advance-IsSteady s (subscribes j filters) never h = try_send-IsSteady _ _ h
advance-IsSteady s (unsubscribes j) never h = try_send-IsSteady _ _ h
advance-IsSteady s (resubscribe_timer j) never h = resubscribe_to-IsSteady s j _ h
