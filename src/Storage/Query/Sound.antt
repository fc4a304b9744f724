-- ===== src/Storage/Query/Sound.antt =====
-- What a query serves: stored events that match and have not expired, each once, newest first.
use nostr_swarm.Storage.Query.Sorted.{
  sort_events-IsSorted, sort_events-IsDistinct, sort_events-All, finalize_bounds,
  finalize-IsDistinct, finalize-All, IsSorted, append-IsDistinct, append-All, IsDistinct, Unlike,
}
use nostr_swarm.Storage.Query.{
  query_filters, query_all, merge_results, given, full_ids, default_limit, get_tag_filters,
  query_filter, finalize, scan_by_index, scan_tags, look_up_ids, scan_all, scan_index, scan_entries,
  candidate, wanted, add_found, Collected, nothing_collected,
}
use nostr_swarm.Hyperbee.{Range, Hyperbee}
use nostr_swarm.Nostr.Filter.{match_filter, NostrFilter}
use nostr_swarm.Nostr.Event.{is_expired, NostrEvent}
use nostr_swarm.Storage.Indexes.{IndexSubs}
use nostr_swarm.Base.{
  leb, Bool-cases, Option-cases, some-eq, none-ne-some, length, In, All, Text, eqb_refl,
  includes_text, ℤ, ℕ, ◌+◌, ◌≤◌, ◌≡◌, refl, ap, ◌∙◌, subst, inl, inr, true, false, Option, none,
  some, List, [], ◌∷◌, arith,
}

All-map :
    {P Q : NostrEvent → Type 0} (l : List NostrEvent)
    → ((e : NostrEvent) → P e → Q e)
    → All P l
    → All Q l
All-map [] f a = tt
All-map (e ∷ l) f a = (f e a.0, All-map l f a.1)

-- Every stored event stands under its id.
abbrev pub UnderOwnId : (bee : Hyperbee) → IndexSubs bee → Type 0
UnderOwnId bee subs = (k : Text) (e : NostrEvent) → bee.get subs.events k ≡ some e → e.id ≡ k

module _ (bee : Hyperbee) (to_lower_case : Text → Text) (now : ℤ) (subs : IndexSubs bee) where
  -- What makes an event fit to be served for a filter.
  pub record Served (filter : NostrFilter) (e : NostrEvent) : Type 0 where
    pub stored : bee.get subs.events e.id ≡ some e
    pub unexpired : is_expired now e ≡ false
    pub matched : match_filter to_lower_case filter e ≡ true

  record Good (P : NostrEvent → Type 0) (c : Collected) : Type 0 where
    served : All P c.results
    distinct : IsDistinct c.results
    seen : All (λ e. includes_text c.seen e.id ≡ true) c.results

  Good-nothing : (P : NostrEvent → Type 0) → Good P nothing_collected
  Good-nothing P = record { served = tt; distinct = tt; seen = tt }

  seen-Unlike :
      (e : NostrEvent) (seen : List Text) (l : List NostrEvent)
      → includes_text seen e.id ≡ false
      → All (λ f. includes_text seen f.id ≡ true) l
      → All (λ f. Unlike f e) l
  seen-Unlike e seen l new a = All-map l (λ f h same. cc (h, new, ap (includes_text seen) same)) a

  Good-add_found :
      (P : NostrEvent → Type 0) (c : Collected) (e : NostrEvent)
      → P e
      → includes_text c.seen e.id ≡ false
      → Good P c
      → Good P (add_found c e.id e)
  unfolding includes_text
  Good-add_found P c e h new g = record {
    served = append-All P c.results e g.served h;
    distinct = append-IsDistinct c.results e g.distinct (seen-Unlike e c.seen c.results new g.seen);
    seen =
        append-All (λ f. includes_text (e.id ∷ c.seen) f.id ≡ true) c.results e
          (All-map c.results (λ f s. ground arith) g.seen) (ground (arith, eqb_refl e.id));
  }

  module _ (filter : NostrFilter) (own : UnderOwnId bee subs) where
    wanted_lem :
        (id : Text) (e : NostrEvent) (o : Option NostrEvent)
        → bee.get subs.events id ≡ o
        → wanted bee to_lower_case now subs filter o ≡ some e
        → Served filter e × (e.id ≡ id)
    wanted_lem id e none there h = cc
    wanted_lem id e (some f) there h = elim (Bool-cases (is_expired now f)) [
      | inl expired ↦ absurd (none-ne-some (rw expired at h))
      | inr alive ↦ elim (Bool-cases (match_filter to_lower_case filter f)) [
        | inr other ↦ absurd (none-ne-some (rw (alive, other) at h))
        | inl matched ↦
            let same : f ≡ e = some-eq (rw (alive, matched) at h) in
            subst (λ x. Served filter x × (x.id ≡ id)) same
              (
                record {
                  stored = ap (bee.get subs.events) (own id f there) ∙ there;
                  unexpired = alive;
                  matched = matched;
                },
                own id f there,
              )
      ]
    ]

    candidate_lem :
        (c : Collected) (id : Text) (e : NostrEvent)
        → candidate bee to_lower_case now subs filter c id ≡ some e
        → Served filter e × (e.id ≡ id) × (includes_text c.seen id ≡ false)
    unfolding candidate
    candidate_lem c id e h = elim (Bool-cases (includes_text c.seen id)) [
      | inl old ↦ absurd (none-ne-some (rw old at h))
      | inr new ↦
          let (s, i) = wanted_lem id e (bee.get subs.events id) refl (rw new at h) in (s, i, new)
    ]

    Good-candidate :
        (c : Collected) (id : Text) (e : NostrEvent)
        → candidate bee to_lower_case now subs filter c id ≡ some e
        → Good (Served filter) c
        → Good (Served filter) (add_found c id e)
    Good-candidate c id e h g =
        let (s, i, new) = candidate_lem c id e h in
        subst (λ x. Good (Served filter) (add_found c x e)) i
          (Good-add_found (Served filter) c e s (ap (includes_text c.seen) i ∙ new) g)

    Good-scan_entries :
        (entries : List (Text × Text)) (matched match_cap : ℕ) (c : Collected)
        → Good (Served filter) c
        → Good
            (Served filter)
            (scan_entries bee to_lower_case now subs filter entries matched match_cap c)
    unfolding scan_entries
    Good-scan_entries [] matched match_cap c g = g
    Good-scan_entries ((k, id) ∷ entries) matched match_cap c g =
        elim (Bool-cases (leb match_cap matched)) [
          | inl full ↦ rw (full, scan_entries) g
          | inr room ↦ elim (Option-cases (candidate bee to_lower_case now subs filter c id)) [
            | inl nothing ↦
                rw (room, nothing, scan_entries) (Good-scan_entries entries matched match_cap c g)
            | inr (e, found) ↦
                rw (room, found, scan_entries)
                  (Good-scan_entries entries (matched + 1) match_cap (add_found c id e)
                    (Good-candidate c id e found g))
          ]
        ]

    Good-scan_index :
        (index_sub : bee.Sub Text) (range : Range) (match_cap : ℕ) (c : Collected)
        → Good (Served filter) c
        → Good
            (Served filter)
            (scan_index bee to_lower_case now subs filter index_sub range match_cap c)
    unfolding scan_index
    Good-scan_index index_sub range match_cap c g =
        Good-scan_entries (bee.read_stream index_sub range) 0 match_cap c g

    Good-scan_all :
        (index_sub : bee.Sub Text) (ranges : List Range) (match_cap : ℕ) (c : Collected)
        → Good (Served filter) c
        → Good
            (Served filter)
            (scan_all bee to_lower_case now subs filter index_sub ranges match_cap c)
    unfolding scan_all
    Good-scan_all index_sub [] match_cap c g = g
    Good-scan_all index_sub (range ∷ ranges) match_cap c g =
        Good-scan_all index_sub ranges match_cap
          (scan_index bee to_lower_case now subs filter index_sub range match_cap c)
          (Good-scan_index index_sub range match_cap c g)

    Good-look_up_ids :
        (ids : List Text) (c : Collected)
        → Good (Served filter) c
        → Good (Served filter) (look_up_ids bee to_lower_case now subs filter ids c)
    unfolding look_up_ids
    Good-look_up_ids [] c g = g
    Good-look_up_ids (id ∷ ids) c g =
        elim (Option-cases (candidate bee to_lower_case now subs filter c id)) [
          | inl nothing ↦ rw (nothing, look_up_ids) (Good-look_up_ids ids c g)
          | inr (e, found) ↦
              rw (found, look_up_ids)
                (Good-look_up_ids ids (add_found c id e) (Good-candidate c id e found g))
        ]

    Good-scan_tags :
        (tags : List (Text × List Text)) (limit : ℕ)
        → Good (Served filter) (scan_tags bee to_lower_case now subs filter tags limit)
    Good-scan_tags [] limit =
        Good-scan_index subs.created_at _ limit nothing_collected (Good-nothing (Served filter))
    Good-scan_tags ((name, values) ∷ more) limit =
        Good-scan_all subs.tag _ limit nothing_collected (Good-nothing (Served filter))

    Good-scan_by_index :
        (authors : List Text) (kinds : List ℕ) (limit : ℕ)
        → Good (Served filter) (scan_by_index bee to_lower_case now subs filter authors kinds limit)
    unfolding scan_by_index
    Good-scan_by_index (a ∷ authors) (k ∷ kinds) limit =
        Good-scan_all subs.author_kind _ limit nothing_collected (Good-nothing (Served filter))
    Good-scan_by_index (a ∷ authors) [] limit =
        Good-scan_all subs.author _ limit nothing_collected (Good-nothing (Served filter))
    Good-scan_by_index [] (k ∷ kinds) limit =
        Good-scan_all subs.kind _ limit nothing_collected (Good-nothing (Served filter))
    Good-scan_by_index [] [] limit = Good-scan_tags (get_tag_filters filter.tag_filters) limit

    -- What a query promises of its result.
    pub record IsAnswer (limit : ℕ) (result : List NostrEvent) : Type 0 where
      pub served : All (Served filter) result
      pub distinct : IsDistinct result
      pub sorted : IsSorted result
      pub limited : length result ≤ limit

    finalize-IsAnswer :
        (c : Collected) (limit : ℕ)
        → Good (Served filter) c
        → IsAnswer limit (finalize c.results limit).events
    finalize-IsAnswer c limit g = record {
      served = finalize-All (Served filter) c.results limit g.served;
      distinct = finalize-IsDistinct c.results limit g.distinct;
      sorted = (finalize_bounds c.results limit).1;
      limited = (finalize_bounds c.results limit).0;
    }

    -- The answer to one filter: each event is stored, matches, and has not expired; no event comes
    -- twice, none is newer than one before it, and there are no more than the limit. In the view every
    -- event stands under its id.
    pub query_filter-IsAnswer :
        (limit_override : Option ℕ)
        → IsAnswer
            (default_limit limit_override filter.limit)
            (query_filter bee to_lower_case now subs filter limit_override).events
    unfolding query_filter
    query_filter-IsAnswer limit_override =
        let limit = default_limit limit_override filter.limit in
        elim (Bool-cases (full_ids (given filter.ids))) [
          | inl full ↦ rw full (
              finalize-IsAnswer
                (look_up_ids bee to_lower_case now subs filter (given filter.ids) nothing_collected)
                limit
                (Good-look_up_ids (given filter.ids) nothing_collected
                  (Good-nothing (Served filter))))
          | inr scan ↦ rw scan (
              finalize-IsAnswer
                (scan_by_index bee to_lower_case now subs filter (given filter.authors)
                  (given filter.kinds) limit)
                limit (Good-scan_by_index (given filter.authors) (given filter.kinds) limit))
        ]

  Good-merge_results :
      (P : NostrEvent → Type 0) (events : List NostrEvent) (c : Collected)
      → All P events
      → Good P c
      → Good P (merge_results events c)
  unfolding merge_results
  Good-merge_results P [] c a g = g
  Good-merge_results P (e ∷ events) c a g = elim (Bool-cases (includes_text c.seen e.id)) [
    | inl old ↦ rw (old, merge_results) (Good-merge_results P events c a.1 g)
    | inr new ↦
        rw (new, merge_results)
          (Good-merge_results P events (add_found c e.id e) a.1 (Good-add_found P c e a.0 new g))
  ]

  module _ (own : UnderOwnId bee subs) where
    -- Served for one of the filters.
    abbrev pub ServedAny : List NostrFilter → NostrEvent → Type 0
    ServedAny filters e = (f : NostrFilter) × In f filters × Served f e

    Good-query_all :
        (all_filters filters : List NostrFilter) (limit_override : Option ℕ) (c : Collected)
        → ((f : NostrFilter) → In f filters → In f all_filters)
        → Good (ServedAny all_filters) c
        → Good
            (ServedAny all_filters)
            (query_all bee to_lower_case now subs limit_override filters c)
    unfolding query_all
    Good-query_all all_filters [] limit_override c sub g = g
    Good-query_all all_filters (f ∷ filters) limit_override c sub g =
        let events = (query_filter bee to_lower_case now subs f limit_override).events in
        Good-query_all all_filters filters limit_override (merge_results events c)
          (λ h m. sub h (inr m))
          (Good-merge_results (ServedAny all_filters) events c
            (All-map events (λ e s. (f, sub f (inl refl), s))
              (query_filter-IsAnswer f own limit_override).served)
            g)

    -- The answer to several filters: each event is stored, has not expired and matches one of the
    -- filters; no event comes twice, and none is newer than one before it. In the view every event
    -- stands under its id.
    pub query_filters_sound :
        (filters : List NostrFilter)
        → All (ServedAny filters) (query_filters bee to_lower_case now subs filters)
          × IsDistinct (query_filters bee to_lower_case now subs filters)
          × IsSorted (query_filters bee to_lower_case now subs filters)
    unfolding query_filters
    query_filters_sound filters =
        let c = query_all bee to_lower_case now subs none filters nothing_collected in
        let g =
          Good-query_all filters filters none nothing_collected (λ f m. m)
            (Good-nothing (ServedAny filters)) in
        (
          sort_events-All (ServedAny filters) c.results g.served,
          sort_events-IsDistinct c.results g.distinct,
          sort_events-IsSorted c.results,
        )
