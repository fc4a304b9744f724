-- ===== src/Storage/Query.antt =====
-- Queries over the index (src/storage/query.ts). `now` is the second at which the query runs; the
-- mapping to lower case is a parameter.
pub mod Sorted
pub mod Sound
use nostr_swarm.Nostr.Filter.{match_filter, NostrFilter}
use nostr_swarm.Keys.{
  event_key, upper_lte, encode_kind, upper_lt, separator, lower_bound, tilde, invert_timestamp,
}
use nostr_swarm.Nostr.Event.{is_expired, NostrEvent}
use nostr_swarm.Storage.Indexes.{IndexSubs}
use nostr_swarm.Hyperbee.{Hyperbee, Range}
use nostr_swarm.Base.{
  ltb, leb, ◌==◌, if◌then◌else◌, ltb→lt, lt→ltb, ltb_false→le, leb_false→lt, leb→le, le→leb, ==_iff,
  tests, Bool-cases, Option-cases, some-eq, none-ne-some, length, get_elem?, take, drop, replicate,
  length-append, length-take-le, find, keep, any, all, In, In-append_left, In-append_right,
  In-append_cases, All, Text, text, eqb, eqb→eq, eqb_refl, eqb_iff, eqb_comm, text_lt, text_le,
  text_lt_irrefl, text_lt_trans, text_lt_total, text_lt_asymm, text_lt-append, text_le-append,
  starts_with, starts_with-append, includes, includes_text, includes_text→In, In→includes_text, ℤ,
  pos, negsuc, pos_part, neg_part, sub_ℕ, ltb_ℤ, leb_ℤ, eqb_ℤ, leb_ℤ-pos, ◌+ℤ◌, ◌-ℤ◌, to_u32, ℕ,
  zero, suc, ◌+◌, ◌-◌, ◌*◌, ◌/◌, ◌%◌, ◌^◌, ◌≤◌, ◌<◌, ◌≡◌, refl, sym, ap, ap₂, ◌∙◌, subst, ◌≡⟨◌⟩◌,
  ◌∎, ◌≢◌, ◌↔◌, ◌⊎◌, inl, inr, Bool, true, false, not, ◌&&◌, ◌||◌, Option, none, some, List, [],
  ◌∷◌, ◌++◌, map, append_assoc, append-nil, arith,
}

pub record QueryResult : Type 0 where
  pub events : List NostrEvent
  pub count : ℕ

-- `results` and `seen`, which the scans of one query share.
pub record Collected : Type 0 where
  pub results : List NostrEvent
  pub seen : List Text

abbrev pub nothing_collected : Collected
nothing_collected = record { results = []; seen = [] }

abbrev pub add_found : Collected → Text → NostrEvent → Collected
add_found c id event = record { results = c.results ++ event ∷ []; seen = id ∷ c.seen }

-- Negative if `a` comes first: newest first, then by id.
unfoldable pub compare_newest_first : NostrEvent → NostrEvent → ℤ
unfolding ◌-ℤ◌
compare_newest_first a b =
    if not (eqb_ℤ a.created_at b.created_at)
    then b.created_at -ℤ a.created_at
    else if text_lt a.id b.id
    then negsuc 0
    else pos 1

unfoldable pub insert_sorted : NostrEvent → List NostrEvent → List NostrEvent
insert_sorted e [] = e ∷ []
insert_sorted e (f ∷ fs) =
    let rest = insert_sorted e fs in
    if ltb_ℤ (compare_newest_first e f) (pos 0) then e ∷ f ∷ fs else f ∷ rest

-- `events.sort(compareNewestFirst)`
unfoldable pub sort_events : List NostrEvent → List NostrEvent
sort_events [] = []
sort_events (e ∷ es) = insert_sorted e (sort_events es)

unfoldable pub finalize : List NostrEvent → ℕ → QueryResult
finalize events limit =
    let sorted = sort_events events in
    let sliced = if ltb limit (length sorted) then take limit sorted else sorted in
    record { events = sliced; count = length sliced }

-- The bounds of a scan of an index by prefix.
unfoldable pub time_range_for_prefix : Text → Option ℤ → Option ℤ → Range
time_range_for_prefix prefix since until = record {
  gte = lower_bound prefix until;
  lt = upper_lt prefix since;
  lte = upper_lte prefix since;
}

abbrev pub created_gte : Option ℤ → Text
created_gte none = []
created_gte (some until) = invert_timestamp until

abbrev pub created_lt : Option ℤ → Option Text
created_lt none = some (tilde ∷ [])
created_lt (some since) = none

abbrev pub created_lte : Option ℤ → Option Text
created_lte none = none
created_lte (some since) = some (invert_timestamp since ++ tilde ∷ [])

unfoldable pub time_range_for_created_at : Option ℤ → Option ℤ → Range
time_range_for_created_at since until = record {
  gte = some (created_gte until);
  lt = created_lt since;
  lte = created_lte since;
}

-- The tag filters that have values.
unfoldable pub get_tag_filters : List (Text × List Text) → List (Text × List Text)
get_tag_filters [] = []
get_tag_filters ((name, []) ∷ tags) = get_tag_filters tags
get_tag_filters ((name, v ∷ vs) ∷ tags) = (name, v ∷ vs) ∷ get_tag_filters tags

abbrev pub default_limit : Option ℕ → Option ℕ → ℕ
default_limit (some limit) filter_limit = limit
default_limit none (some limit) = limit
default_limit none none = 500

abbrev pub given : {A : Type 0} → Option (List A) → List A
given none = []
given (some xs) = xs

-- Full ids, and at least one.
abbrev pub full_ids : List Text → Bool
full_ids [] = false
full_ids (id ∷ ids) = all (λ i. length i == 64) (id ∷ ids)

-- The ranges of the author and kind index: each author with each kind.
unfoldable pub author_kind_ranges : List Text → List ℕ → Option ℤ → Option ℤ → List Range
author_kind_ranges [] kinds since until = []
author_kind_ranges (author ∷ authors) kinds since until =
    map (λ kind. time_range_for_prefix (author ++ separator ∷ encode_kind kind) since until) kinds
    ++ author_kind_ranges authors kinds since until

module _ (bee : Hyperbee) (to_lower_case : Text → Text) (now : ℤ) (subs : IndexSubs bee)
    (filter : NostrFilter) where
  abbrev pub wanted : Option NostrEvent → Option NostrEvent
  wanted none = none
  wanted (some event) =
      if is_expired now event
      then none
      else if match_filter to_lower_case filter event
      then some event
      else none

  -- The event of an id that was not seen, if it is stored, not expired, and matches.
  unfoldable pub candidate : Collected → Text → Option NostrEvent
  candidate c id =
      if includes_text c.seen id then none else wanted (bee.get subs.events (event_key id))

  -- The loop over a read stream; `match_cap` bounds the matches of this scan.
  unfoldable pub scan_entries : List (Text × Text) → ℕ → ℕ → Collected → Collected
  scan_entries [] matched match_cap c = c
  scan_entries ((key, event_id) ∷ entries) matched match_cap c = elim (leb match_cap matched) [
    | true ↦ c
    | false ↦ elim (candidate c event_id) [
      | none ↦ scan_entries entries matched match_cap c
      | some event ↦ scan_entries entries (matched + 1) match_cap (add_found c event_id event)
    ]
  ]

  unfoldable pub scan_index : bee.Sub Text → Range → ℕ → Collected → Collected
  scan_index index_sub range match_cap c =
      scan_entries (bee.read_stream index_sub range) 0 match_cap c

  -- One scan after another, over a shared result.
  unfoldable pub scan_all : bee.Sub Text → List Range → ℕ → Collected → Collected
  scan_all index_sub [] match_cap c = c
  scan_all index_sub (range ∷ ranges) match_cap c =
      scan_all index_sub ranges match_cap (scan_index index_sub range match_cap c)

  -- The lookup of full ids, one by one.
  unfoldable pub look_up_ids : List Text → Collected → Collected
  look_up_ids [] c = c
  look_up_ids (id ∷ ids) c = elim (candidate c id) [
    | none ↦ look_up_ids ids c
    | some event ↦ look_up_ids ids (add_found c id event)
  ]

  abbrev pub scan_tags : List (Text × List Text) → ℕ → Collected
  scan_tags [] limit =
      scan_index subs.created_at (time_range_for_created_at filter.since filter.until) limit
        nothing_collected
  scan_tags ((name, values) ∷ more) limit =
      scan_all subs.tag
        (map (λ value. time_range_for_prefix (name ++ separator ∷ value) filter.since filter.until)
          values)
        limit nothing_collected

  -- The index that is scanned if the filter has no full ids.
  unfoldable pub scan_by_index : List Text → List ℕ → ℕ → Collected
  scan_by_index (author ∷ authors) (kind ∷ kinds) limit =
      scan_all subs.author_kind
        (author_kind_ranges (author ∷ authors) (kind ∷ kinds) filter.since filter.until) limit
        nothing_collected
  scan_by_index (author ∷ authors) [] limit =
      scan_all subs.author
        (map (λ a. time_range_for_prefix a filter.since filter.until) (author ∷ authors)) limit
        nothing_collected
  scan_by_index [] (kind ∷ kinds) limit =
      scan_all subs.kind
        (map (λ k. time_range_for_prefix (encode_kind k) filter.since filter.until) (kind ∷ kinds))
        limit nothing_collected
  scan_by_index [] [] limit = scan_tags (get_tag_filters filter.tag_filters) limit

  unfoldable pub query_filter : Option ℕ → QueryResult
  query_filter limit_override =
      let limit = default_limit limit_override filter.limit in
      if full_ids (given filter.ids)
      then finalize (look_up_ids (given filter.ids) nothing_collected).results limit
      else finalize (scan_by_index (given filter.authors) (given filter.kinds) limit).results limit

-- Adds the events whose ids were not seen.
unfoldable pub merge_results : List NostrEvent → Collected → Collected
merge_results [] c = c
merge_results (event ∷ events) c =
    merge_results events (if includes_text c.seen event.id then c else add_found c event.id event)

module _ (bee : Hyperbee) (to_lower_case : Text → Text) (now : ℤ) (subs : IndexSubs bee) where
  unfoldable pub query_all : Option ℕ → List NostrFilter → Collected → Collected
  query_all limit_override [] c = c
  query_all limit_override (filter ∷ filters) c =
      query_all limit_override filters
        (merge_results (query_filter bee to_lower_case now subs filter limit_override).events c)

  unfoldable pub query_filters : List NostrFilter → List NostrEvent
  query_filters filters = sort_events (query_all none filters nothing_collected).results

  unfoldable pub count_filters : List NostrFilter → ℕ
  count_filters filters = length (query_all (some 100000) filters nothing_collected).results
