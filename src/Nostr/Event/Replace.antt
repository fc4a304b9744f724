-- ===== src/Nostr/Event/Replace.antt =====
-- `shouldReplace` of src/nostr/events.ts is a strict order that is total on distinct versions, so
-- the versions of a replaceable event have one winner.
use nostr_swarm.Nostr.Event.{NostrEvent, should_replace}
use nostr_swarm.Base.{
  text_lt_irrefl, text_lt_trans, text_lt_total, text_lt_asymm, ◌≡◌, ◌≢◌, true, false, not, arith,
}

-- No event replaces itself.
pub should_replace_irrefl : (a : NostrEvent) → should_replace a a ≡ false
unfolding should_replace
should_replace_irrefl a = ground (arith, text_lt_irrefl a.id)

-- Of two versions at most one replaces the other.
pub should_replace_asymm :
    (a b : NostrEvent) → should_replace a b ≡ true → should_replace b a ≡ false
unfolding should_replace
should_replace_asymm a b h = ground (arith, text_lt_asymm a.id b.id, text_lt_asymm b.id a.id)

-- If `b` replaces `a` and `c` replaces `b`, then `c` replaces `a`.
pub should_replace_trans :
    (a b c : NostrEvent)
    → should_replace a b ≡ true
    → should_replace b c ≡ true
    → should_replace a c ≡ true
unfolding should_replace
should_replace_trans a b c h k = ground (arith, text_lt_trans c.id b.id a.id)

-- Of two events with different ids exactly one replaces the other.
should_replace_total :
    (a b : NostrEvent) → a.id ≢ b.id → should_replace a b ≡ not (should_replace b a)
unfolding should_replace
should_replace_total a b h =
    ground (arith, text_lt_total a.id b.id, text_lt_asymm a.id b.id, text_lt_asymm b.id a.id)
