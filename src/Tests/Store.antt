-- ===== src/Tests/Store.antt =====
-- Tests of the store.
use nostr_swarm.Storage.Store.{apply}
use nostr_swarm.Storage.Store.Ops.{Action, ApplyNode}
use nostr_swarm.Hyperbee.Sorted.{sorted_hyperbee}
use nostr_swarm.Storage.Store.Sound.{IsSound}
use nostr_swarm.Storage.Store.Sound.Ops.{apply-IsSound, create_subs-IsSound, final}
use nostr_swarm.Tests.Data.{start, note, deletion, verify_all, host_key, node_of}
use nostr_swarm.Base.{List, [], ◌∷◌}

abbrev put_then_delete : List ApplyNode
put_then_delete = node_of (Action.put note) ∷ node_of (Action.delete deletion) ∷ []

apply-IsSound_example :
    IsSound sorted_hyperbee verify_all
      (final sorted_hyperbee verify_all host_key
        (apply sorted_hyperbee host_key verify_all put_then_delete start)).view
apply-IsSound_example =
    apply-IsSound sorted_hyperbee verify_all host_key put_then_delete start
      (create_subs-IsSound sorted_hyperbee verify_all)
