-- ===== src/Tests/Bootstrap.antt =====
-- An instance of the theorem on the recorded key.
use nostr_swarm.Storage.Store.Ops.{Bytes, from_hex, to_hex, is_writer_key}
use nostr_swarm.Util.Invite.{lower_hex, parse_bootstrap}
use nostr_swarm.Storage.Bootstrap.{
  resolved, recorded, resolve_bootstrap, recorded_key_is_kept, read_persisted_key,
  persist_bootstrap_key,
}
use nostr_swarm.Base.{take, replicate, Text, eqb, ◌≡◌, refl, some, []}

abbrev stored_key : Bytes
stored_key = replicate 32 7

abbrev content : Text
content = persist_bootstrap_key (stored_key)

abbrev trim_last : Text → Text
trim_last t = take 64 t

there : read_persisted_key trim_last (some content) ≡ recorded (stored_key)
unfolding read_persisted_key is_writer_key lower_hex to_hex from_hex
there = refl

kept :
    resolve_bootstrap trim_last (λ b. []) (λ b. b) some (some content) []
    ≡ resolved (some (stored_key)) (some content)
unfolding resolve_bootstrap parse_bootstrap eqb read_persisted_key is_writer_key lower_hex to_hex
    from_hex
kept = refl

recorded_key_is_kept_example :
    (some (stored_key) ≡ some (stored_key)) × (some content ≡ some content)
recorded_key_is_kept_example =
    recorded_key_is_kept trim_last (λ b. []) (λ b. b) some (some content) [] (stored_key)
      (some (stored_key)) (some content) there kept
