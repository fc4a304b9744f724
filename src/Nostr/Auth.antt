-- ===== src/Nostr/Auth.antt =====
-- The answer to an authentication challenge (src/nostr/nip-42.ts). The check of a signature is a
-- parameter: it is a function of the package nostr-tools.
use nostr_swarm.Nostr.Event.{
  Verdict, is_genuine, is_thrown, NostrEvent, has_name, tag_value, truthy,
}
use nostr_swarm.Base.{
  ltb, ◌==◌, if◌then◌else◌, find, Text, text, eqb, ℤ, pos_part, neg_part, ◌-ℤ◌, ◌+◌, Bool, true,
  false, not, Option, none, some, [],
}

pub record AuthResult : Type 0 where
  pub ok : Bool
  pub pubkey : Option Text
  pub message : Text

abbrev pub failed : Text → AuthResult
failed message = record { ok = false; pubkey = none; message = message }

-- `tag?.[1] !== expected`
abbrev pub is_value : Text → Option Text → Bool
is_value expected none = false
is_value expected (some v) = eqb v expected

abbrev pub present : Option Text → Bool
present none = false
present (some v) = true

-- `Math.abs(now - created_at) > 600`
unfoldable pub too_far : ℤ → ℤ → Bool
unfolding ◌-ℤ◌
too_far now created_at = let d = now -ℤ created_at in ltb 600 (pos_part d + neg_part d)

module _ (verify_event : NostrEvent → Verdict) (now : ℤ) where
  -- `none` is an error that the check of the signature throws.
  unfoldable pub validate_auth : NostrEvent → Text → Option AuthResult
  unfolding has_name too_far
  validate_auth event expected_challenge =
      if not (event.kind == 22242)
      then some (failed (text "invalid: auth event must be kind 22242"))
      else if is_thrown (verify_event event)
      then none
      else if not (is_genuine (verify_event event))
      then some (failed (text "invalid: bad signature"))
      else if not
          (is_value expected_challenge (tag_value (find (has_name (text "challenge")) event.tags)))
      then some (failed (text "invalid: wrong challenge"))
      else if not (present (truthy (tag_value (find (has_name (text "relay")) event.tags))))
      then some (failed (text "invalid: missing relay tag"))
      else if too_far now event.created_at
      then some (failed (text "invalid: auth event too old or too new"))
      else some (record { ok = true; pubkey = some event.pubkey; message = [] })
