-- ===== src/Light.antt =====
-- The light store (src/light/store.ts): the filter before a put, and the pruning to a budget. The
-- number of bytes of an event's JSON is a parameter.
pub mod Prune
pub mod Ingest
use nostr_swarm.Storage.Client.{delete_event, put_event, prune_events, Client}
use nostr_swarm.Wot.Policy.{evaluate, reject, accept, ReplicationPolicy}
use nostr_swarm.Keys.{prefix_range, event_key}
use nostr_swarm.Hyperbee.{everything, Hyperbee}
use nostr_swarm.Wot.Graph.{WotGraph, WotConfig}
use nostr_swarm.Storage.Indexes.{IndexSubs}
use nostr_swarm.Nostr.Event.{NostrEvent}
use nostr_swarm.Base.{
  ltb, leb, ◌==◌, if◌then◌else◌, ltb→lt, lt→ltb, ltb_false→le, leb_false→lt, leb→le, le→leb, ==_iff,
  tests, Bool-cases, Option-cases, some-eq, none-ne-some, length, get_elem?, take, drop, replicate,
  length-append, length-take-le, find, keep, any, all, In, In-append_left, In-append_right,
  In-append_cases, All, Text, text, eqb, eqb→eq, eqb_refl, eqb_iff, eqb_comm, text_lt, text_le,
  text_lt_irrefl, text_lt_trans, text_lt_total, text_lt_asymm, text_lt-append, text_le-append,
  starts_with, starts_with-append, includes, includes_text, includes_text→In, In→includes_text, ℤ,
  pos, negsuc, pos_part, neg_part, sub_ℕ, ltb_ℤ, leb_ℤ, eqb_ℤ, leb_ℤ-pos, ◌+ℤ◌, ◌-ℤ◌, to_u32, ℕ,
  zero, suc, ◌+◌, ◌-◌, ◌*◌, ◌/◌, ◌%◌, ◌^◌, ◌≤◌, ◌<◌, ◌≡◌, refl, sym, ap, ap₂, ◌∙◌, subst, ◌≡⟨◌⟩◌,
  ◌∎, ◌≢◌, ◌↔◌, ◌⊎◌, inl, inr, Bool, true, false, not, ◌&&◌, ◌||◌, Option, none, some, List, [],
  ◌∷◌, ◌++◌, map, append_assoc, append-nil, arith,
}

unfoldable pub is_exempt : ℕ → Bool
is_exempt kind = kind == 0 || kind == 3 || kind == 10000

abbrev pub prune_batch : ℕ
prune_batch = 1000

-- What of an event the pruning looks at.
pub record Candidate : Type 0 where
  pub id : Text
  pub created_at : ℤ
  pub bytes : ℕ

abbrev pub allowed : ReplicationPolicy → Bool
allowed (accept ttl discovery) = true
allowed (reject reason) = false

abbrev pub in_discovery : ReplicationPolicy → Bool
in_discovery (accept ttl discovery) = discovery
in_discovery (reject reason) = false

abbrev pub counts : Option NostrEvent → Bool
counts none = false
counts (some event) = not (is_exempt event.kind)

module _ (bee : Hyperbee) where
  -- The loop over the author's entries.
  unfoldable pub count_entries : IndexSubs bee → List (Text × Text) → ℕ
  count_entries subs [] = 0
  count_entries subs ((key, event_id) ∷ entries) =
      let rest = count_entries subs entries in
      if counts (bee.get subs.events (event_key event_id)) then suc rest else rest

  unfoldable pub count_author_events : IndexSubs bee → Text → ℕ
  count_author_events subs pubkey =
      count_entries subs (bee.read_stream subs.author (prefix_range pubkey))

  module _ (config : WotConfig) (graph : WotGraph) where
    unfoldable pub light_put_event : Client bee → NostrEvent → Client bee × Bool
    light_put_event s event =
        let decision = evaluate config graph event in
        let full =
          in_discovery decision
          && leb config.discovery_max_events_per_pubkey
              (count_author_events s.indexes event.pubkey) in
        if is_exempt event.kind
        then (put_event bee s event, true)
        else if not (allowed decision)
        then (s, false)
        else if full
        then (s, false)
        else (put_event bee s event, true)

    unfoldable pub light_delete_event : Client bee → NostrEvent → Client bee × Bool
    light_delete_event s deletion_event =
        if not (allowed (evaluate config graph deletion_event))
        then (s, false)
        else (delete_event bee s deletion_event, true)

module _ (byte_length : NostrEvent → ℕ) where
  unfoldable pub total_bytes : List (Text × NostrEvent) → ℕ
  total_bytes [] = 0
  total_bytes ((key, event) ∷ entries) = byte_length event + total_bytes entries

  unfoldable pub candidates : List (Text × NostrEvent) → List Candidate
  candidates [] = []
  candidates ((key, event) ∷ entries) =
      let rest = candidates entries in
      if is_exempt event.kind
      then rest
      else record { id = event.id; created_at = event.created_at; bytes = byte_length event } ∷ rest

-- `candidates.sort((a, b) => a.createdAt - b.createdAt)`, which keeps the order of equals.
unfoldable pub insert_oldest : Candidate → List Candidate → List Candidate
insert_oldest c [] = c ∷ []
insert_oldest c (d ∷ ds) =
    let rest = insert_oldest c ds in
    if leb_ℤ c.created_at d.created_at then c ∷ d ∷ ds else d ∷ rest

unfoldable pub sort_oldest : List Candidate → List Candidate
sort_oldest [] = []
sort_oldest (c ∷ cs) = insert_oldest c (sort_oldest cs)

-- The ids to drop: until no more than 80% of the budget is left, or the batch is full.
unfoldable pub choose_drops : ℕ → List Candidate → ℕ → ℕ → List Text
choose_drops max [] projected dropped = []
choose_drops max (c ∷ cs) projected dropped =
    let rest = choose_drops max cs (projected - c.bytes) (suc dropped) in
    if leb (5 * projected) (4 * max) || leb prune_batch dropped then [] else c.id ∷ rest

module _ (bee : Hyperbee) (byte_length : NostrEvent → ℕ) where
  unfoldable pub to_drop : IndexSubs bee → ℕ → List Text
  to_drop subs max =
      let entries = bee.read_stream subs.events everything in
      let total = total_bytes byte_length entries in
      if leb total max
      then []
      else choose_drops max (sort_oldest (candidates byte_length entries)) total 0

  -- `max` is `maxStorageBytes`; one that is not positive is no budget.
  unfoldable pub prune : Client bee → ℕ → Client bee
  prune s max =
      if not s.writable
      then s
      else if max == 0
      then s
      else prune_events bee s (to_drop s.indexes max)
