-- ===== src/Wot/Graph.antt =====
-- The graph of trust (src/wot/graph.ts): the lists of follows and mutes from the view, the degrees by
-- a breadth-first search from the owner, and the scores. Trust is counted in exact units.
pub mod Degrees
pub mod Distances
pub mod Levels
pub mod Votes
use nostr_swarm.Keys.{tilde, event_key}
use nostr_swarm.Nostr.Event.{tag_value, truthy, has_name, NostrEvent}
use nostr_swarm.Storage.Indexes.{IndexSubs}
use nostr_swarm.Hyperbee.{Hyperbee}
use nostr_swarm.Util.Maps.{add_value, has_entry, get_entry, set_entry}
use nostr_swarm.Base.{
  ltb, leb, ◌==◌, if◌then◌else◌, ltb→lt, lt→ltb, ltb_false→le, leb_false→lt, leb→le, le→leb, ==_iff,
  tests, Bool-cases, Option-cases, some-eq, none-ne-some, length, get_elem?, take, drop, replicate,
  length-append, length-take-le, find, keep, any, all, In, In-append_left, In-append_right,
  In-append_cases, All, Text, text, eqb, eqb→eq, eqb_refl, eqb_iff, eqb_comm, text_lt, text_le,
  text_lt_irrefl, text_lt_trans, text_lt_total, text_lt_asymm, text_lt-append, text_le-append,
  starts_with, starts_with-append, includes, includes_text, includes_text→In, In→includes_text, ℤ,
  pos, negsuc, pos_part, neg_part, sub_ℕ, ltb_ℤ, leb_ℤ, eqb_ℤ, leb_ℤ-pos, ◌+ℤ◌, ◌-ℤ◌, to_u32, ℕ,
  zero, suc, ◌+◌, ◌-◌, ◌*◌, ◌/◌, ◌%◌, ◌^◌, ◌≤◌, ◌<◌, ◌≡◌, refl, sym, ap, ap₂, ◌∙◌, subst, ◌≡⟨◌⟩◌,
  ◌∎, ◌≢◌, ◌↔◌, ◌⊎◌, inl, inr, Bool, true, false, not, ◌&&◌, ◌||◌, Option, none, some, List, [],
  ◌∷◌, ◌++◌, map, append_assoc, append-nil, arith,
}

pub record WotConfig : Type 0 where
  pub owner_pubkey : Text
  pub max_depth : ℕ
  pub trust_by_degree : ℕ → Option ℕ
  pub ttl_by_degree : ℕ → Option ℕ
  pub refresh_interval_ms : ℕ
  pub discovery_enabled : Bool
  pub discovery_ttl : ℕ
  pub discovery_max_events_per_pubkey : ℕ

pub record TrustScore : Type 0 where
  pub pubkey : Text
  pub degree : ℤ
  pub score : ℕ
  pub muted : Bool

pub record WotGraph : Type 0 where
  pub follows : List (Text × List Text)
  pub mutes : List (Text × List Text)
  pub degrees : List (Text × ℕ)
  pub scores : List (Text × TrustScore)

abbrev pub add_if : List Text → Option Text → List Text
add_if l none = l
add_if l (some s) = add_value l s

-- The values of the `p` tags that have one.
unfoldable pub p_values : List (List Text) → List Text → List Text
unfolding has_name
p_values [] l = l
p_values (tag ∷ tags) l =
    p_values tags
      (add_if l (if has_name (text "p") tag then truthy (tag_value (some tag)) else none))

-- The authors whose list was seen, and the lists that are not empty.
pub record Scanned : Type 0 where
  pub seen_authors : List Text
  pub lists : List (Text × List Text)

abbrev pub set_list : Text → List Text → List (Text × List Text) → List (Text × List Text)
set_list author [] lists = lists
set_list author (v ∷ vs) lists = set_entry author (v ∷ vs) lists

abbrev pub scan_event : ℕ → Option NostrEvent → Scanned → Scanned
scan_event kind none s = s
scan_event kind (some event) s =
    if not (event.kind == kind)
    then s
    else if includes_text s.seen_authors event.pubkey
    then s
    else record {
      seen_authors = add_value s.seen_authors event.pubkey;
      lists = set_list event.pubkey (p_values event.tags []) s.lists;
    }

module _ (bee : Hyperbee) (indexes : IndexSubs bee) where
  unfoldable pub scan_stream : ℕ → List (Text × Text) → Scanned → Scanned
  scan_stream kind [] s = s
  scan_stream kind ((key, event_id) ∷ entries) s =
      scan_stream kind entries (scan_event kind (bee.get indexes.events (event_key event_id)) s)

  -- `scanContactLists` at kind 3 and `scanMuteLists` at kind 10000.
  unfoldable pub scan_lists : ℕ → List (Text × List Text)
  scan_lists kind =
      (scan_stream kind
        (bee.read_stream indexes.author_kind
          (record { gte = some []; lt = some (tilde ∷ []); lte = none }))
        (record { seen_authors = []; lists = [] })).lists

-- An entry of the queue: a pubkey and its depth.
pub record Visit : Type 0 where
  pub pubkey : Text
  pub depth : ℕ

-- The queue and the degrees, after the followed keys of one list.
unfoldable pub visit_all :
    List Text → ℕ → List Visit → List (Text × ℕ) → List Visit × List (Text × ℕ)
visit_all [] depth queue degrees = (queue, degrees)
visit_all (followed ∷ follows) depth queue degrees =
    let next : List Visit × List (Text × ℕ) =
      if has_entry followed degrees then (queue, degrees) else (
        queue ++ record { pubkey = followed; depth = depth } ∷ [],
        set_entry followed depth degrees,
      ) in
    visit_all follows depth next.0 next.1

abbrev pub visit_list :
    Option (List Text) → ℕ → List Visit → List (Text × ℕ) → List Visit × List (Text × ℕ)
visit_list none depth queue degrees = (queue, degrees)
visit_list (some follows) depth queue degrees = visit_all follows depth queue degrees

module _ (max_depth : ℕ) (follows : List (Text × List Text)) where
  unfoldable pub expand : Visit → List Visit → List (Text × ℕ) → List Visit × List (Text × ℕ)
  expand current queue degrees =
      if leb max_depth current.depth
      then (queue, degrees)
      else visit_list (get_entry current.pubkey follows) (suc current.depth) queue degrees

  -- The loop over the queue; `none` if the fuel runs out.
  unfoldable pub search_degrees : ℕ → List Visit → List (Text × ℕ) → Option (List (Text × ℕ))
  search_degrees fuel [] degrees = some degrees
  search_degrees zero (current ∷ queue) degrees = none
  search_degrees (suc fuel) (current ∷ queue) degrees =
      let next = expand current queue degrees in search_degrees fuel next.0 next.1

-- All the keys that are followed, as often as they are.
unfoldable pub all_followed : List (Text × List Text) → List Text
all_followed [] = []
all_followed ((p, fs) ∷ follows) = fs ++ all_followed follows

abbrev pub given_degrees : Option (List (Text × ℕ)) → List (Text × ℕ)
given_degrees none = []
given_degrees (some degrees) = degrees

-- Without an owner there are no degrees.
abbrev pub if_named : Text → List (Text × ℕ) → List (Text × ℕ)
if_named [] degrees = []
if_named (c ∷ cs) degrees = degrees

-- The fuel: one step for the owner and one for each followed key.
unfoldable pub compute_degrees : WotConfig → List (Text × List Text) → List (Text × ℕ)
compute_degrees config follows = if_named config.owner_pubkey (
    given_degrees (
      search_degrees config.max_depth follows (suc (length (all_followed follows)))
        (record { pubkey = config.owner_pubkey; depth = 0 } ∷ []) ((config.owner_pubkey, 0) ∷ [])))

-- Whether a list, if there is one, has the key.
abbrev pub lists_key : Option (List Text) → Text → Bool
lists_key none pubkey = false
lists_key (some l) pubkey = includes_text l pubkey

unfoldable pub threshold : ℕ → ℕ
threshold size = if leb 1 (size / 2) then size / 2 else 1

-- The loop over the follows of the owner, which ends at the threshold.
unfoldable pub mute_votes : List (Text × List Text) → Text → ℕ → List Text → ℕ → Bool
mute_votes mutes pubkey needed [] count = false
mute_votes mutes pubkey needed (f ∷ fs) count =
    let on = mute_votes mutes pubkey needed fs count in
    let counted = mute_votes mutes pubkey needed fs (count + 1) in
    if lists_key (get_entry f mutes) pubkey
    then (if leb needed (count + 1) then true else counted)
    else on

abbrev pub muted_by_follows : List (Text × List Text) → Text → Option (List Text) → Bool
muted_by_follows mutes pubkey none = false
muted_by_follows mutes pubkey (some fs) = mute_votes mutes pubkey (threshold (length fs)) fs 0

unfoldable pub is_explicitly_muted :
    WotConfig → List (Text × List Text) → List (Text × List Text) → Text → Bool
is_explicitly_muted config follows mutes pubkey =
    if lists_key (get_entry config.owner_pubkey mutes) pubkey
    then true
    else muted_by_follows mutes pubkey (get_entry config.owner_pubkey follows)

abbrev pub or_zero : Option ℕ → ℕ
or_zero none = 0
or_zero (some n) = n

module _ (config : WotConfig) where
  unfoldable pub score_of :
      List (Text × List Text) → List (Text × List Text) → Text → ℕ → TrustScore
  score_of follows mutes pubkey degree =
      let muted = is_explicitly_muted config follows mutes pubkey in
      record {
        pubkey = pubkey;
        degree = pos degree;
        score = if muted then 0 else or_zero (config.trust_by_degree degree);
        muted = muted;
      }

  unfoldable pub compute_scores :
      List (Text × List Text)
      → List (Text × List Text)
      → List (Text × ℕ)
      → List (Text × TrustScore)
      → List (Text × TrustScore)
  compute_scores follows mutes [] scores = scores
  compute_scores follows mutes ((pubkey, degree) ∷ degrees) scores =
      compute_scores follows mutes degrees
        (set_entry pubkey (score_of follows mutes pubkey degree) scores)

  unfoldable pub rebuild : (bee : Hyperbee) → IndexSubs bee → WotGraph
  rebuild bee indexes =
      let follows = scan_lists bee indexes 3 in
      let mutes = scan_lists bee indexes 10000 in
      let degrees = compute_degrees config follows in
      record {
        follows = follows;
        mutes = mutes;
        degrees = degrees;
        scores = compute_scores follows mutes degrees [];
      }

  -- A pubkey outside the graph has the degree -1.
  abbrev pub score_or_unknown : WotGraph → Text → Option TrustScore → TrustScore
  score_or_unknown graph pubkey (some score) = score
  score_or_unknown graph pubkey none = record {
    pubkey = pubkey;
    degree = negsuc 0;
    score = 0;
    muted = is_explicitly_muted config graph.follows graph.mutes pubkey;
  }

  unfoldable pub get_score : WotGraph → Text → TrustScore
  get_score graph pubkey = score_or_unknown graph pubkey (get_entry pubkey graph.scores)

  unfoldable pub is_trusted : WotGraph → Text → Bool
  is_trusted graph pubkey =
      let score = get_score graph pubkey in ltb 0 score.score && not score.muted

-- The degree, or -1 outside the graph.
unfoldable pub get_degree : WotGraph → Text → ℤ
get_degree graph pubkey = elim (get_entry pubkey graph.degrees) [
  | none ↦ negsuc 0
  | some degree ↦ pos degree
]

abbrev pub trusted_keys : List (Text × TrustScore) → List Text
trusted_keys [] = []
trusted_keys ((pubkey, score) ∷ scores) =
    let rest = trusted_keys scores in
    if ltb 0 score.score && not score.muted then pubkey ∷ rest else rest

unfoldable pub get_trusted_pubkeys : WotGraph → List Text
get_trusted_pubkeys graph = trusted_keys graph.scores

-- The statistics: how many are scored, how many of each degree, and how many are muted.
pub record Stats : Type 0 where
  pub total : ℕ
  pub by_degree : ℤ → ℕ
  pub muted : ℕ

abbrev pub no_stats : Stats
no_stats = record { total = 0; by_degree = λ d. 0; muted = 0 }

abbrev pub count_score : TrustScore → Stats → Stats
count_score score stats =
    if score.muted then record stats { muted = stats.muted + 1 } else record stats {
      by_degree = λ d. if eqb_ℤ d score.degree then stats.by_degree d + 1 else stats.by_degree d;
    }

abbrev pub count_scores : List (Text × TrustScore) → Stats → Stats
count_scores [] stats = stats
count_scores ((pubkey, score) ∷ scores) stats = count_scores scores (count_score score stats)

unfoldable pub get_stats : WotGraph → Stats
get_stats graph = record (count_scores graph.scores no_stats) { total = length graph.scores }
