-- ===== src/Nostr/Deletion.antt =====
-- Deletion events (src/nostr/nip-09.ts).
use nostr_swarm.Nostr.Event.{NostrEvent}
use nostr_swarm.Base.{
  ◌==◌, if◌then◌else◌, any, Text, text, eqb, Bool, true, false, ◌&&◌, Option, none, some, List, [],
  ◌∷◌,
}

-- `t[0] === 'e' && t[1]`, and the value then.
unfoldable pub e_target : List Text → Option Text
e_target (name ∷ (c ∷ value) ∷ rest) = if eqb name (text "e") then some (c ∷ value) else none
e_target _ = none

abbrev pub push_target : Option Text → List Text → List Text
push_target none targets = targets
push_target (some t) targets = t ∷ targets

unfoldable pub e_targets : List (List Text) → List Text
unfolding e_target
e_targets [] = []
e_targets (tag ∷ tags) = push_target (e_target tag) (e_targets tags)

unfoldable pub get_deletion_targets : NostrEvent → List Text
unfolding e_targets
get_deletion_targets event = if event.kind == 5 then e_targets event.tags else []

abbrev pub is_some : Option Text → Bool
is_some none = false
is_some (some t) = true

unfoldable pub is_valid_deletion : NostrEvent → Bool
unfolding e_target
is_valid_deletion event = event.kind == 5 && any (λ t. is_some (e_target t)) event.tags
