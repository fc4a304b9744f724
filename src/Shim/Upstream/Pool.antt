-- ===== src/Shim/Upstream/Pool.antt =====
-- The choice of a socket for a query (`RelayClient.pick` of src/primal-shim/upstream.ts).
use nostr_swarm.Shim.Upstream.{UpstreamSocket, inflight}
use nostr_swarm.Base.{
  ltb, if◌then◌else◌, ltb→lt, ltb_false→le, on_branches, In, In-append_left, In-append_right,
  In-append_cases, ◌≤◌, ◌≡◌, refl, sym, ap, ◌∙◌, subst, ◌⊎◌, inl, inr, true, false, not, Option,
  none, some, List, [], ◌∷◌, ◌++◌, append_assoc, append-nil, arith,
}

abbrev better : UpstreamSocket → Option UpstreamSocket → Option UpstreamSocket
better socket none = some socket
better socket (some best) = if ltb (inflight socket) (inflight best) then some socket else some best

-- The loop over the sockets; `none` at the end is the error that none is connected.
unfoldable pub pick_from : Option UpstreamSocket → List UpstreamSocket → Option UpstreamSocket
unfolding inflight
pick_from best [] = best
pick_from best (socket ∷ sockets) =
    pick_from (if not socket.connected then best else better socket best) sockets

unfoldable pub pick : List UpstreamSocket → Option UpstreamSocket
unfolding pick_from
pick sockets = pick_from none sockets

-- The best so far among those that were seen.
abbrev pub IsBest : List UpstreamSocket → Option UpstreamSocket → Type 0
IsBest seen none = (s : UpstreamSocket) → In s seen → s.connected ≡ false
IsBest seen (some best) =
    In best seen
    × (best.connected ≡ true)
    × ((s : UpstreamSocket) → In s seen → s.connected ≡ true → inflight best ≤ inflight s)

In-last : (s t : UpstreamSocket) (l : List UpstreamSocket) → In s (l ++ t ∷ []) → In s l ⊎ (s ≡ t)
In-last s t l m = elim (In-append_cases s l (t ∷ []) m) [
  | inl old ↦ inl old
  | inr (inl e) ↦ inr e
  | inr (inr h) ↦ elim h [ ]
]

is_down : (s : UpstreamSocket) → not s.connected ≡ true → s.connected ≡ false
is_down s h = ground (arith, h)

next-IsBest :
    (seen : List UpstreamSocket) (socket : UpstreamSocket) (o : Option UpstreamSocket)
    → IsBest seen o
    → IsBest (seen ++ socket ∷ []) (if not socket.connected then o else better socket o)
next-IsBest seen socket none b =
    let last = In-append_right socket seen (socket ∷ []) (inl refl) in
    on_branches (IsBest (seen ++ socket ∷ [])) (not socket.connected) none (some socket)
      (λ down s m. elim (In-last s socket seen m) [
        | inl old ↦ b s old
        | inr e ↦ ap (λ (t : UpstreamSocket). t.connected) e ∙ ground (arith, down)
      ])
      (λ up. (
        last,
        ground (arith, up),
        λ s m c. elim (In-last s socket seen m) [
          | inl old ↦ absurd (cc (b s old, c))
          | inr e ↦
              subst (λ (t : UpstreamSocket). inflight socket ≤ inflight t) (sym e) (omega arith)
        ],
      ))
next-IsBest seen socket (some best) b =
    let last = In-append_right socket seen (socket ∷ []) (inl refl) in
    let kept : In best (seen ++ socket ∷ []) = In-append_left best seen (socket ∷ []) b.0 in
    on_branches (IsBest (seen ++ socket ∷ [])) (not socket.connected) (some best) _
      (λ down. (
        kept,
        b.1,
        λ s m c. elim (In-last s socket seen m) [
          | inl old ↦ b.2 s old c
          | inr e ↦ absurd (cc (ap (λ (t : UpstreamSocket). t.connected) e, c, is_down socket down))
        ],
      ))
      (λ up.
        on_branches (IsBest (seen ++ socket ∷ [])) (ltb (inflight socket) (inflight best))
          (some socket) (some best)
          (λ less. (
            last,
            ground (arith, up),
            λ s m c. elim (In-last s socket seen m) [
              | inl old ↦ let few = b.2 s old c in let lower = ltb→lt _ _ less in omega arith
              | inr e ↦
                  subst (λ (t : UpstreamSocket). inflight socket ≤ inflight t) (sym e) (omega arith)
            ],
          ))
          (λ more. (
            kept,
            b.1,
            λ s m c. elim (In-last s socket seen m) [
              | inl old ↦ b.2 s old c
              | inr e ↦
                  subst (λ (t : UpstreamSocket). inflight best ≤ inflight t) (sym e)
                    (ltb_false→le _ _ more)
            ],
          )))

pick_from-IsBest :
    (seen sockets : List UpstreamSocket) (o : Option UpstreamSocket)
    → IsBest seen o
    → IsBest (seen ++ sockets) (pick_from o sockets)
unfolding pick_from
pick_from-IsBest seen [] o b = subst (λ l. IsBest l o) (sym (append-nil seen)) b
pick_from-IsBest seen (socket ∷ sockets) o b =
    subst (λ l. IsBest l (pick_from o (socket ∷ sockets))) (append_assoc seen (socket ∷ []) sockets)
      (pick_from-IsBest (seen ++ socket ∷ []) sockets _ (next-IsBest seen socket o b))

-- A query goes to a socket of the pool that is connected and has the fewest requests in flight among
-- those; it fails only if no socket is connected.
pub pick-IsBest : (sockets : List UpstreamSocket) → IsBest sockets (pick sockets)
unfolding pick
pick-IsBest sockets = pick_from-IsBest [] sockets none (λ s m. elim m [ ])
