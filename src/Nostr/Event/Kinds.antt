-- ===== src/Nostr/Event/Kinds.antt =====
-- The ranges of `classifyKind` in src/nostr/events.ts.
use nostr_swarm.Nostr.Event.{EventKind, classify_kind}
use nostr_swarm.Base.{ℕ, ◌<◌, ◌≡◌, refl, arith}

pub regular_deletion : classify_kind 5 ≡ EventKind.regular
unfolding classify_kind
regular_deletion = refl

-- A kind is replaceable or addressable only below 2 ^ 32, where its encoding is faithful.
pub replaceable_lt : (kind : ℕ) → classify_kind kind ≡ EventKind.replaceable → kind < 20000
unfolding classify_kind
replaceable_lt kind h = ground arith

pub addressable_lt : (kind : ℕ) → classify_kind kind ≡ EventKind.addressable → kind < 40000
unfolding classify_kind
addressable_lt kind h = ground arith
