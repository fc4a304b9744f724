-- ===== src/Tests/Invite.antt =====
-- Instances of the theorems on invites, with a constant digest and an encoding that changes nothing.
use nostr_swarm.Util.Invite.{
  decode_invite-encode_invite, decode_invite_sound, ok, key_length, checksum, encode_invite,
  version, and_then, prefix, decode_invite,
}
use nostr_swarm.Storage.Store.Ops.{Bytes}
use nostr_swarm.Base.{
  length, drop, replicate, Text, eqb, starts_with, ◌≡◌, refl, true, some, ◌∷◌, ◌++◌,
}

abbrev digest : Bytes → Bytes
digest b = replicate 32 0

abbrev plain : Bytes → Text
plain b = b

abbrev key : Bytes
key = replicate 32 7

abbrev invite : Text
invite = prefix ++ version ∷ key ++ replicate 4 0

decode_invite-encode_invite_example :
    and_then (encode_invite digest plain some key) (decode_invite digest plain some) ≡ ok key
decode_invite-encode_invite_example =
    decode_invite-encode_invite digest plain some key refl (λ b. refl) (λ b. refl)

decoded : decode_invite digest plain some invite ≡ ok key
unfolding decode_invite checksum starts_with eqb
decoded = refl

decode_invite_sound_example :
    (starts_with invite prefix ≡ true)
    × (length key ≡ key_length)
    × (some (drop 4 invite) ≡ some (version ∷ key ++ checksum digest plain some (version ∷ key)))
decode_invite_sound_example = decode_invite_sound digest plain some invite key decoded
