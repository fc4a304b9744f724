-- ===== src/Swarm/Admission/Service/Limits.antt =====
-- How many requests of one connection a granter evaluates (src/swarm/admission.ts).
use nostr_swarm.Swarm.Admission.Service.{
  on_request, handle_request, Granter, Channel, add_reply, max_requests_per_conn,
}
use nostr_swarm.Swarm.Admission.{AdmissionRequest, AdmissionReply, AdmissionOptions}
use nostr_swarm.Storage.Store.Ops.{Bytes}
use nostr_swarm.Util.RateLimit.{consume}
use nostr_swarm.Hyperbee.{Hyperbee}
use nostr_swarm.Base.{
  leb, on_branches, length, length-append, Text, ℤ, ◌+◌, ◌≤◌, ◌≡◌, false, not, Option, none, some,
  List, [], ◌∷◌, arith,
}

-- A channel takes at most 16 requests, and replies at most once to each.
pub IsLimited : Channel → Type 0
IsLimited c = (c.requests_handled ≤ 16) × (length c.replies ≤ c.requests_handled)

-- A request is counted before it is handled.
count-IsLimited :
    (c : Channel) (o : Option AdmissionReply)
    → IsLimited c
    → leb 16 c.requests_handled ≡ false
    → IsLimited (add_reply (record c { requests_handled = c.requests_handled + 1 }) o)
unfolding IsLimited
count-IsLimited c none (few, answered) h = (ground arith, omega arith)
count-IsLimited c (some reply) (few, answered) h =
    let longer = length-append c.replies (reply ∷ []) in (ground arith, omega arith)

module _ (bee : Hyperbee) (hmac : Bytes → Bytes → Bytes) (to_lower_case : Text → Text)
    (opts : AdmissionOptions) (handshake_hash : Option Bytes) where
  abbrev pub serve : Granter bee × Channel → AdmissionRequest × ℤ → Granter bee × Channel
  serve (g, c) (req, now) = on_request bee hmac to_lower_case opts g c handshake_hash req now

  serve-IsLimited :
      (g : Granter bee) (c : Channel) (req : AdmissionRequest) (now : ℤ)
      → IsLimited c
      → IsLimited (serve (g, c) (req, now)).1
  unfolding on_request handle_request
  serve-IsLimited g c req now h =
      on_branches (λ (r : Granter bee × Channel). IsLimited r.1) (not opts.auto_admit) (g, c) _
        (λ off. h)
        (λ on.
          on_branches (λ (r : Granter bee × Channel). IsLimited r.1)
            (leb max_requests_per_conn c.requests_handled) (g, c) _ (λ full. h)
            (λ fits.
              on_branches (λ (r : Granter bee × Channel). IsLimited r.1)
                (not (consume g.request_budget now).1) _ _ (λ spent. count-IsLimited c none h fits)
                (λ paid. count-IsLimited c _ h fits)))

  pub serve_all : Granter bee × Channel → List (AdmissionRequest × ℤ) → Granter bee × Channel
  serve_all r [] = r
  serve_all r (req ∷ reqs) = serve_all (serve r req) reqs

  serve_all-keeps :
      (g : Granter bee) (c : Channel) (reqs : List (AdmissionRequest × ℤ))
      → IsLimited c
      → IsLimited (serve_all (g, c) reqs).1
  unfolding serve_all
  serve_all-keeps g c [] h = h
  serve_all-keeps g c ((req, now) ∷ reqs) h =
      serve_all-keeps (serve (g, c) (req, now)).0 (serve (g, c) (req, now)).1 reqs
        (serve-IsLimited g c req now h)

  -- However many requests arrive on a fresh channel, the granter handles and answers at most 16 of
  -- them, with at most one reply for each that it counted.
  pub serve_all-IsLimited :
      (g : Granter bee) (reqs : List (AdmissionRequest × ℤ))
      → IsLimited (serve_all (g, record { requests_handled = 0; replies = [] }) reqs).1
  unfolding IsLimited
  serve_all-IsLimited g reqs = serve_all-keeps g _ reqs (omega arith, omega arith)
