-- ===== src/Tests/Query.antt =====
-- Instances of the theorems on the answers to queries.
use nostr_swarm.Storage.Query.Sorted.{IsSorted, IsDistinct}
use nostr_swarm.Tests.Data.{id_a, note, alice}
use nostr_swarm.Storage.Query.{query_filters, query_filter}
use nostr_swarm.Storage.Query.Sound.{
  query_filters_sound, ServedAny, query_filter-IsAnswer, UnderOwnId, IsAnswer,
}
use nostr_swarm.Nostr.Event.{NostrEvent}
use nostr_swarm.Storage.Indexes.{create_subs, IndexSubs}
use nostr_swarm.Storage.Store.{store_event}
use nostr_swarm.Hyperbee.Sorted.{sorted_hyperbee}
use nostr_swarm.Nostr.Filter.{NostrFilter}
use nostr_swarm.Hyperbee.{Hyperbee}
use nostr_swarm.Base.{All, Text, eqb_iff, pos, none, some, [], ◌∷◌, arith}

abbrev bee : Hyperbee
bee = sorted_hyperbee

abbrev same_case : Text → Text
same_case s = s

-- A view in which the note is stored under its id.
abbrev view : IndexSubs sorted_hyperbee
view = store_event bee (create_subs sorted_hyperbee) note

abbrev by_alice : NostrFilter
by_alice = record {
  ids = none;
  authors = some (alice ∷ []);
  kinds = none;
  since = none;
  until = none;
  limit = some 10;
  search = none;
  tag_filters = [];
}

view-UnderOwnId : UnderOwnId sorted_hyperbee view
unfolding store_event create_subs
view-UnderOwnId k e h = ground (
  arith,
  bee.get-put (bee.empty {V = NostrEvent}) id_a k note,
  bee.get-empty {V = NostrEvent} k,
  eqb_iff id_a k,
)

query_filter-IsAnswer_example :
    IsAnswer bee same_case
      (pos 200)
      view
      by_alice
      view-UnderOwnId
      10
      (query_filter bee same_case (pos 200) view by_alice none).events
query_filter-IsAnswer_example =
    query_filter-IsAnswer bee same_case (pos 200) view by_alice view-UnderOwnId none

query_filters_sound_example :
    All
      (ServedAny bee same_case (pos 200) view view-UnderOwnId (by_alice ∷ []))
      (query_filters bee same_case (pos 200) view (by_alice ∷ []))
    × IsDistinct (query_filters bee same_case (pos 200) view (by_alice ∷ []))
    × IsSorted (query_filters bee same_case (pos 200) view (by_alice ∷ []))
query_filters_sound_example =
    query_filters_sound bee same_case (pos 200) view view-UnderOwnId (by_alice ∷ [])
