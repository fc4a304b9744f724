-- ===== src/Tests/Wot.antt =====
-- Instances of the theorems on the web of trust.
use nostr_swarm.Wot.Graph.{
  score_of, scan_stream, expand, compute_scores, get_score, scan_lists, lists_key, compute_degrees,
  rebuild, all_followed, search_degrees, Visit, is_explicitly_muted, WotConfig,
}
use nostr_swarm.Util.Maps.{set_entry, get_entry}
use nostr_swarm.Wot.Policy.{accept, evaluate}
use nostr_swarm.Wot.Graph.Votes.{is_explicitly_muted_lem, outvoted}
use nostr_swarm.Wot.Policy.Trust.{accepted_is_trusted}
use nostr_swarm.Tests.Data.{note, bob, alice}
use nostr_swarm.Wot.Graph.Distances.{compute_degrees_shortest}
use nostr_swarm.Wot.Graph.Degrees.{compute_degrees_lem, IsDegree, Walk}
use nostr_swarm.Storage.Indexes.{create_subs}
use nostr_swarm.Hyperbee.Sorted.{sorted_hyperbee}
use nostr_swarm.Base.{
  length, All, Text, eqb, ℕ, suc, ◌+◌, ◌/◌, ◌≤◌, ◌≡◌, refl, ◌≢◌, ◌⊎◌, false, ◌||◌, none, some, List,
  [], ◌∷◌,
}

abbrev config : WotConfig
config = record {
  owner_pubkey = alice;
  max_depth = 3;
  trust_by_degree = λ d. some (100 / (d + 1));
  ttl_by_degree = λ d. some 0;
  refresh_interval_ms = 1000;
  discovery_enabled = false;
  discovery_ttl = 7200;
  discovery_max_events_per_pubkey = 5;
}

abbrev alice_follows : List (Text × List Text)
alice_follows = (alice, bob ∷ []) ∷ []

abbrev search_start : List Visit
search_start = record { pubkey = alice; depth = 0 } ∷ []

named : alice ≢ []
named h = cc h

compute_degrees_example :
    (result : List (Text × ℕ)) × (search_degrees 3 alice_follows
        (suc (length (all_followed alice_follows)))
        search_start
        ((alice, 0) ∷ [])
      ≡ some result)
    × (compute_degrees config alice_follows ≡ result)
    × All (IsDegree 3 alice_follows alice) result
compute_degrees_example = compute_degrees_lem config alice_follows named

compute_degrees_shortest_example :
    ((d : ℕ)
      → get_entry bob (compute_degrees config alice_follows) ≡ some d
      → Walk alice_follows alice d bob × d ≤ 3 × ((n : ℕ) → Walk alice_follows alice n bob → d ≤ n))
    × ((n : ℕ)
        → Walk alice_follows alice n bob
        → n ≤ 3
        → (d : ℕ) × (get_entry bob (compute_degrees config alice_follows) ≡ some d) × d ≤ n)
compute_degrees_shortest_example = compute_degrees_shortest config alice_follows named bob

is_explicitly_muted_example :
    is_explicitly_muted config alice_follows [] bob
    ≡ (lists_key (get_entry alice []) bob || outvoted [] bob (get_entry alice alice_follows))
is_explicitly_muted_example = is_explicitly_muted_lem config alice_follows [] bob

own_accepted :
    evaluate config (rebuild config sorted_hyperbee (create_subs sorted_hyperbee)) note
    ≡ accept none false
unfolding evaluate get_score get_entry rebuild compute_scores compute_degrees search_degrees expand
    scan_lists scan_stream sorted_hyperbee create_subs set_entry eqb score_of is_explicitly_muted
own_accepted = refl

accepted_is_trusted_example :
    (alice ≡ alice)
    ⊎ ((d : ℕ) × Walk (scan_lists sorted_hyperbee (create_subs sorted_hyperbee) 3) alice d alice
        × d ≤ 3)
accepted_is_trusted_example =
    accepted_is_trusted config sorted_hyperbee (create_subs sorted_hyperbee) note none named
      own_accepted
