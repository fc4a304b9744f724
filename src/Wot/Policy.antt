-- ===== src/Wot/Policy.antt =====
-- Which events a light client takes, and for how long (src/wot/policy.ts).
pub mod Trust
use nostr_swarm.Wot.Graph.{get_score, WotGraph, WotConfig}
use nostr_swarm.Nostr.Event.{NostrEvent}
use nostr_swarm.Base.{
  ◌==◌, if◌then◌else◌, Text, text, eqb, ℤ, pos, negsuc, ltb_ℤ, eqb_ℤ, ◌-ℤ◌, ℕ, Bool, true, false,
  Option, none, some,
}

-- `ttl` is `none` for ever.
pub data ReplicationPolicy : Type 0 where
  accept : Option ℕ → Bool → ReplicationPolicy
  reject : Text → ReplicationPolicy

-- 0 is for ever, and so is a degree without a time to live.
abbrev pub forever : Option ℕ → Option ℕ
forever none = none
forever (some ttl) = if ttl == 0 then none else some ttl

abbrev pub ttl_at : WotConfig → ℤ → Option ℕ
ttl_at config (pos degree) = config.ttl_by_degree degree
ttl_at config (negsuc n) = none

module _ (config : WotConfig) where
  unfoldable pub evaluate : WotGraph → NostrEvent → ReplicationPolicy
  evaluate graph event =
      let score = get_score config graph event.pubkey in
      if score.muted
      then reject (text "muted")
      else if eqb event.pubkey config.owner_pubkey
      then accept none false
      else if eqb_ℤ score.degree (negsuc 0)
      then (if config.discovery_enabled
          then accept (some config.discovery_ttl) true
          else reject (text "untrusted"))
      else accept (forever (ttl_at config score.degree)) false

  abbrev pub outlived : ℤ → ReplicationPolicy → Bool
  outlived age (reject reason) = true
  outlived age (accept none discovery) = false
  outlived age (accept (some ttl) discovery) = ltb_ℤ (pos ttl) age

  -- `now` is in seconds.
  unfoldable pub is_expired_by_policy : WotGraph → ℤ → NostrEvent → Bool
  is_expired_by_policy graph now event = outlived (now -ℤ event.created_at) (evaluate graph event)
