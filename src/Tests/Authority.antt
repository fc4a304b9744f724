-- ===== src/Tests/Authority.antt =====
-- Instances of the theorems on who may change what.
use nostr_swarm.Storage.Store.Ops.{to_hex, Action, ApplyNode, Bytes, StoreOp}
use nostr_swarm.Hyperbee.Sorted.{within, sorted_hyperbee}
use nostr_swarm.Storage.Store.Authority.{optimistic-IsContained, IsContained, config-apply}
use nostr_swarm.Storage.Store.Writers.{apply-WritersOk, WritersOk}
use nostr_swarm.Storage.Store.{apply_value, apply, count_writers}
use nostr_swarm.Tests.Data.{start, note, host_key, node_of, verify_all}
use nostr_swarm.Storage.Indexes.{create_subs}
use nostr_swarm.Storage.Store.Sound.Ops.{final}
use nostr_swarm.Hyperbee.{Hyperbee}
use nostr_swarm.Base.{
  replicate, Text, text, eqb, ◌≡◌, refl, true, false, none, some, List, [], ◌∷◌, arith,
}

abbrev bee : Hyperbee
bee = sorted_hyperbee

-- A joiner's writer key, and the op of a writer that admits it.
abbrev joiner : Text
joiner = replicate 64 57

abbrev admit : List ApplyNode
admit = node_of (Action.add_writer joiner) ∷ []

abbrev guest : Bytes
guest = replicate 32 9

abbrev by_guest : List ApplyNode
by_guest =
    record {
      value =
          some (record { action = Action.set_config (text "accept_optimistic") true; v = none });
      optimistic = false;
      from_key = guest;
    }
    ∷ []

abbrev optimistic_put : StoreOp
optimistic_put = record { action = Action.put note; v = some 2 }

start-WritersOk : WritersOk bee host_key start.view
unfolding count_writers create_subs sorted_hyperbee within
start-WritersOk = record {
  capped = omega arith;
  no_founder = bee.get-empty (to_hex host_key);
  well_formed = λ k a h. cc (bee.get-empty {V = Text} k, h);
}

apply-WritersOk_example :
    WritersOk bee host_key
      (final bee verify_all host_key (apply bee host_key verify_all admit start)).view
apply-WritersOk_example = apply-WritersOk bee host_key verify_all admit start start-WritersOk

optimistic-IsContained_example :
    IsContained bee host_key verify_all start optimistic_put
      (apply_value bee host_key verify_all start (some optimistic_put) true guest)
optimistic-IsContained_example =
    optimistic-IsContained bee host_key verify_all start optimistic_put guest

config-apply_example :
    (final bee verify_all host_key (apply bee host_key verify_all by_guest start)).config
    ≡ start.config
config-apply_example = config-apply bee host_key verify_all by_guest start (unfold eqb in refl, tt)
