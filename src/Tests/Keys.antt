-- ===== src/Tests/Keys.antt =====
-- Tests of the keys.
use nostr_swarm.Base.Number.{pad_start, to_string16}
use nostr_swarm.Keys.{separator, time_range, hex8, invert_timestamp, encode_kind}
use nostr_swarm.Hyperbee.{in_range}
use nostr_swarm.Keys.Ranges.{in_range-time_range, since_ok, until_ok}
use nostr_swarm.Base.{text, pos, ◌-ℤ◌, to_u32, ◌≡◌, refl, ◌&&◌, some, ◌∷◌, ◌++◌, arith}

invert_zero : invert_timestamp (pos 0) ≡ text "ffffffff"
unfolding invert_timestamp hex8 to_u32 ◌-ℤ◌ to_string16 pad_start
invert_zero = refl

kind_of_one : encode_kind 1 ≡ text "00000001"
unfolding encode_kind hex8 to_u32 to_string16 pad_start
kind_of_one = refl

in_range-time_range_example :
    in_range
      (time_range (text "p") (some (pos 50)) (some (pos 150)))
      (text "p" ++ separator ∷ (invert_timestamp (pos 100) ++ separator ∷ text "id"))
    ≡ (until_ok (some (pos 150)) (pos 100) && since_ok (some (pos 50)) (pos 100))
in_range-time_range_example =
    in_range-time_range (text "p") (some (pos 50)) (some (pos 150)) 100 (text "id")
      (50, refl, omega arith) (150, refl, omega arith) (omega arith)
