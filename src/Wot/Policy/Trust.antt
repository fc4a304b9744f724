-- ===== src/Wot/Policy/Trust.antt =====
-- What an accepted event says of its author (src/wot/policy.ts over src/wot/graph.ts).
use nostr_swarm.Util.Maps.{All-get_entry, get_entry, All-set_entry}
use nostr_swarm.Wot.Graph.{
  compute_degrees, WotGraph, scan_lists, rebuild, get_score, score_of, compute_scores, TrustScore,
  WotConfig,
}
use nostr_swarm.Wot.Graph.Degrees.{compute_degrees_lem, IsDegree, Walk}
use nostr_swarm.Wot.Policy.{reject, accept, NostrEvent, evaluate}
use nostr_swarm.Storage.Indexes.{IndexSubs}
use nostr_swarm.Hyperbee.{Hyperbee}
use nostr_swarm.Base.{
  if◌then◌else◌, Bool-cases, Option-cases, All, Text, text, eqb, eqb→eq, pos, ℕ, ◌≤◌, ◌≡◌, refl,
  sym, subst, ◌≢◌, ◌⊎◌, inl, inr, Bool, true, false, Option, some, List, [], ◌∷◌, arith,
}

module _ (config : WotConfig) where
  -- An entry of the scores whose degree is one of the search.
  abbrev Scored : List (Text × List Text) → Text × TrustScore → Type 0
  Scored follows e =
      (d : ℕ) × (e.1.degree ≡ pos d) × Walk follows config.owner_pubkey d e.0 × d ≤ config.max_depth

  compute_scores-Scored :
      (follows mutes : List (Text × List Text)) (degrees : List (Text × ℕ))
      (scores : List (Text × TrustScore))
      → All (IsDegree config.max_depth follows config.owner_pubkey) degrees
      → All (Scored follows) scores
      → All (Scored follows) (compute_scores config follows mutes degrees scores)
  unfolding compute_scores score_of
  compute_scores-Scored follows mutes [] scores good known = known
  compute_scores-Scored follows mutes ((p, d) ∷ degrees) scores good known =
      compute_scores-Scored follows mutes degrees _ good.1
        (All-set_entry (Scored follows) p _ scores known (d, refl, good.0.0, good.0.1))

  untrusted_cases :
      (event : NostrEvent) (muted : Bool) (ttl : Option ℕ)
      → (if muted
          then reject (text "muted")
          else if config.discovery_enabled
          then accept (some config.discovery_ttl) true
          else reject (text "untrusted"))
        ≢ accept ttl false
  untrusted_cases event muted ttl = ground arith

  accepted_cases :
      (graph : WotGraph) (event : NostrEvent) (ttl : Option ℕ)
      → evaluate config graph event ≡ accept ttl false
      → (event.pubkey ≡ config.owner_pubkey)
        ⊎ ((score : TrustScore) × (get_entry event.pubkey graph.scores ≡ some score))
  unfolding evaluate get_score
  accepted_cases graph event ttl h = elim (Bool-cases (eqb event.pubkey config.owner_pubkey)) [
    | inl own ↦ inl (eqb→eq event.pubkey config.owner_pubkey own)
    | inr other ↦ elim (Option-cases (get_entry event.pubkey graph.scores)) [
      | inl missing ↦ elim (untrusted_cases event _ ttl (rw (get_score, missing, other) at h)) [ ]
      | inr (score, found) ↦ inr (score, found)
    ]
  ]

  -- An event that the policy of a graph just built accepts outside discovery is the owner's or of an
  -- author whom the owner reaches within the bound along follows.
  pub accepted_is_trusted :
      (bee : Hyperbee) (indexes : IndexSubs bee) (event : NostrEvent) (ttl : Option ℕ)
      → config.owner_pubkey ≢ []
      → evaluate config (rebuild config bee indexes) event ≡ accept ttl false
      → (event.pubkey ≡ config.owner_pubkey)
        ⊎ ((d : ℕ) × Walk (scan_lists bee indexes 3) config.owner_pubkey d event.pubkey
            × d ≤ config.max_depth)
  unfolding rebuild
  accepted_is_trusted bee indexes event ttl named h =
      elim (accepted_cases (rebuild config bee indexes) event ttl h) [
        | inl own ↦ inl own
        | inr (score, found) ↦
            let follows = scan_lists bee indexes 3 in
            let mutes = scan_lists bee indexes 10000 in
            let (result, ends, kept, good) = compute_degrees_lem config follows named in
            let known : All (IsDegree config.max_depth follows config.owner_pubkey)
                (compute_degrees config follows) =
              subst (All (IsDegree config.max_depth follows config.owner_pubkey)) (sym kept) good in
            let (d, e, walk, near) =
              All-get_entry (Scored follows) event.pubkey score _
                (compute_scores-Scored follows mutes (compute_degrees config follows) [] known tt)
                found in
            inr (d, walk, near)
      ]
