-- ===== src/Shim/Upstream/Settles.antt =====
-- Every query of the client (src/primal-shim/upstream.ts) is settled once.
use nostr_swarm.Base.{
  if◌then◌else◌, on_branches, In, All, Text, text, eqb, eqb_refl, ◌+◌, ◌≤◌, ◌≡◌, refl, ◌∙◌, ◌⊎◌,
  inl, inr, true, false, List, [], ◌∷◌, ◌++◌, arith,
}
use nostr_swarm.Shim.Upstream.{
  new_socket, UpstreamSocket, fetch_failed, count_failed, fail_all_pending,
}
use nostr_swarm.Shim.Upstream.Steady.{IsSteady, IsNotClosing, advance-IsSteady}
use nostr_swarm.Shim.Upstream.Counting.{
  text_count, key_count, settled_count, begins, started, accounted,
}
use nostr_swarm.Shim.Upstream.Socket.{
  closes, waiters_of, Occurrence, advance, query, count, on_open, on_close, close, publish_once,
  open_live_sub, close_live_sub, opens, drops, shuts, receives, queries, counts, query_timer,
  count_timer, publishes, ok_timer, subscribes, unsubscribes, resubscribe_timer,
}
use nostr_swarm.Shim.Upstream.Accounts.{
  accounted-fail_all_pending, accounted-settle, FreshFor, accounted-query, accounted-finish_query,
  accounted-try_send, nothing_settled, unsent, accounted-finish_count, accounted-time_out_ok,
  accounted-resubscribe_to, accounted-route,
}
use nostr_swarm.Util.Maps.{get_entry, set_entry}

-- One step: only the start of a query accounts for one more.
accounted-advance :
    (sub_id : Text) (s : UpstreamSocket) (o : Occurrence)
    → ((j : Text) → key_count j s.pending_queries ≤ 1)
    → FreshFor s o
    → accounted sub_id (advance s o) ≡ accounted sub_id s + begins sub_id o
unfolding advance on_open query count publish_once open_live_sub close_live_sub on_close close
accounted-advance sub_id s opens once fresh = omega arith
accounted-advance sub_id s closes once fresh = omega arith
accounted-advance sub_id s drops once fresh =
    let failed =
      accounted-fail_all_pending sub_id (text "upstream relay connection closed")
        (record s { connected = false }) in
    omega (
      arith,
      on_branches (λ (t : UpstreamSocket). accounted sub_id t ≡ accounted sub_id s) s.closed _ _
          (λ h. failed) (λ h. failed),
    )
accounted-advance sub_id s shuts once fresh = omega (
  arith,
  accounted-fail_all_pending sub_id (text "shim shutting down") (record s { closed = true }),
)
accounted-advance sub_id s (receives message) once fresh =
    omega (arith, accounted-route sub_id s message once)
accounted-advance sub_id s (queries j filters) once fresh =
    on_branches
      (λ (t : UpstreamSocket).
        accounted sub_id t ≡ accounted sub_id s + (if eqb j sub_id then 1 else 0))
      s.connected _ _ (λ h. accounted-query sub_id j s fresh)
      (λ h. accounted-settle sub_id s (fetch_failed j _))
accounted-advance sub_id s (counts j filters) once fresh =
    let same : accounted sub_id (count s j filters) ≡ accounted sub_id s =
      on_branches (λ (t : UpstreamSocket). accounted sub_id t ≡ accounted sub_id s) s.connected _ _
        (λ h. refl) (λ h. nothing_settled sub_id s (count_failed j _) refl) in
    omega arith
accounted-advance sub_id s (query_timer j) once fresh =
    omega (arith, (accounted-finish_query sub_id j s _ refl (once j)).1)
accounted-advance sub_id s (count_timer j) once fresh =
    omega (arith, (accounted-finish_count sub_id j s 0 _).1)
accounted-advance sub_id s (publishes timer event) once fresh =
    let same : accounted sub_id (publish_once s timer event) ≡ accounted sub_id s =
      on_branches (λ (t : UpstreamSocket). accounted sub_id t ≡ accounted sub_id s) s.connected _ _
        (λ h. refl)
        (λ h.
          unsent sub_id s timer
            (set_entry event.id (waiters_of (get_entry event.id s.ok_waiters) ++ timer ∷ [])
              s.ok_waiters)
            (text "error: upstream relay not connected")) in
    omega arith
accounted-advance sub_id s (ok_timer id timer) once fresh =
    omega (arith, accounted-time_out_ok sub_id id s timer _)
accounted-advance sub_id s (subscribes j filters) once fresh =
    omega (arith, accounted-try_send sub_id _ _)
accounted-advance sub_id s (unsubscribes j) once fresh =
    omega (arith, accounted-try_send sub_id _ _)
accounted-advance sub_id s (resubscribe_timer j) once fresh =
    omega (arith, accounted-resubscribe_to sub_id j s _)

-- Occurrences, one after another.
unfoldable pub run : UpstreamSocket → List Occurrence → UpstreamSocket
run s [] = s
run s (o ∷ os) = run (advance s o) os

is_fresh :
    (s : UpstreamSocket) (o : Occurrence) (os : List Occurrence)
    → ((j : Text) → accounted j s + started j (o ∷ os) ≤ 1)
    → FreshFor s o
unfolding started
is_fresh s (queries j filters) os once = let few = once j in ground (arith, few, eqb_refl j)
is_fresh s _ os once = tt

accounted-run :
    (s : UpstreamSocket) (os : List Occurrence)
    → ((j : Text) → accounted j s + started j os ≤ 1)
    → (sub_id : Text) → accounted sub_id (run s os) ≡ accounted sub_id s + started sub_id os
unfolding run started
accounted-run s [] once sub_id = omega arith
accounted-run s (o ∷ os) once sub_id =
    let moves : (j : Text) → accounted j (advance s o) ≡ accounted j s + begins j o =
      λ j. accounted-advance j s o (λ k. let few = once k in omega arith) (is_fresh s o os once) in
    let rest =
      accounted-run (advance s o) os (λ j. let few = once j in let step = moves j in omega arith)
        sub_id in
    let step = moves sub_id in omega arith

-- A connection that drops leaves nothing pending.
dropped :
    (sub_id : Text) (s : UpstreamSocket)
    → settled_count sub_id (on_close s).settled + text_count sub_id s.uncaught ≡ accounted sub_id s
unfolding on_close fail_all_pending key_count
dropped sub_id s =
    let failed =
      accounted-fail_all_pending sub_id (text "upstream relay connection closed")
        (record s { connected = false }) in
    on_branches
      (λ (t : UpstreamSocket).
        settled_count sub_id t.settled + text_count sub_id s.uncaught ≡ accounted sub_id s)
      s.closed _ _ (λ h. omega arith) (λ h. omega arith)

run-IsSteady :
    (s : UpstreamSocket) (os : List Occurrence)
    → All IsNotClosing os
    → IsSteady s
    → IsSteady (run s os)
unfolding run
run-IsSteady s [] never h = h
run-IsSteady s (o ∷ os) never h =
    run-IsSteady (advance s o) os never.1 (advance-IsSteady s o never.0 h)

uncaught_empty : (sub_id : Text) (l : List Text) → l ≡ [] → text_count sub_id l ≡ 0
unfolding text_count
uncaught_empty sub_id [] h = refl
uncaught_empty sub_id (x ∷ l) h = absurd cc

closing_or_not : (os : List Occurrence) → All IsNotClosing os ⊎ In closes os
closing_or_not [] = inl tt
closing_or_not (closes ∷ os) = inr (inl refl)
closing_or_not (o ∷ os) = elim (closing_or_not os) [
  | inl never ↦ inl (tt, never)
  | inr among ↦ inr (inr among)
]

-- With ids that differ, as `nextSubId` gives them, whatever the relay sends and in whatever order
-- timers fire and connections open, close and drop: each query that was started is, once, either
-- pending, or settled, or lost to an EOSE whose handler threw; when the connection drops, those that
-- were not lost have all been settled; and none is lost, so that each is pending or settled once, and
-- all are settled when it drops, unless a connection went through the closing handshake.
pub run_settles_queries :
    (os : List Occurrence)
    → ((j : Text) → started j os ≤ 1)
    → (sub_id : Text)
    → (key_count sub_id (run new_socket os).pending_queries
          + settled_count sub_id (run new_socket os).settled
          + text_count sub_id (run new_socket os).uncaught
        ≡ started sub_id os)
      × (settled_count sub_id (on_close (run new_socket os)).settled
            + text_count sub_id (run new_socket os).uncaught
          ≡ started sub_id os)
      × ((text_count sub_id (run new_socket os).uncaught ≡ 0) ⊎ In closes os)
unfolding new_socket key_count settled_count text_count on_close
run_settles_queries os once sub_id =
    let s = run new_socket os in
    let all = accounted-run new_socket os (λ j. let few = once j in omega arith) sub_id in
    (
      omega arith,
      dropped sub_id s ∙ omega arith,
      elim (closing_or_not os) [
        | inl never ↦
            inl (
              uncaught_empty sub_id s.uncaught
                (run-IsSteady new_socket os never (inr refl, refl)).1)
        | inr among ↦ inr among
      ],
    )
