-- ===== src/Nostr/Protected.antt =====
-- Protected events (src/nostr/nip-70.ts).
use nostr_swarm.Nostr.Event.{NostrEvent, has_name}
use nostr_swarm.Base.{
  if◌then◌else◌, any, Text, text, eqb, Bool, true, false, not, Option, none, some,
}

unfoldable pub is_protected_event : NostrEvent → Bool
unfolding has_name
is_protected_event event = any (has_name (text "-")) event.tags

-- `authPubkey !== event.pubkey`
abbrev pub differs : Option Text → Text → Bool
differs none pubkey = true
differs (some auth) pubkey = not (eqb auth pubkey)

unfoldable pub should_reject_protected : NostrEvent → Option Text → Bool
unfolding is_protected_event
should_reject_protected event auth_pubkey =
    if is_protected_event event then differs auth_pubkey event.pubkey else false
