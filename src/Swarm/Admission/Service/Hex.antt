-- ===== src/Swarm/Admission/Service/Hex.antt =====
-- The hexadecimal text of bytes, and back (`Buffer.toString('hex')` as src/swarm/admission.ts uses it).
use nostr_swarm.Swarm.Admission.{is_hex}
use nostr_swarm.Storage.Store.Ops.{Bytes, to_hex, from_hex, hex_byte, nibble, is_lower_hex}
use nostr_swarm.Base.{
  ltb, if◌then◌else◌, length, all, All, Text, ℕ, ◌+◌, ◌*◌, ◌/◌, ◌%◌, ◌<◌, ◌≡◌, refl, ap₂, ◌∙◌, true,
  List, [], ◌∷◌, arith,
}

-- Numbers that are bytes.
abbrev pub IsBytes : List ℕ → Type 0
IsBytes bs = All (λ b. b < 256) bs

nibble_low : (n : ℕ) → n < 16 → nibble (if ltb n 10 then 48 + n else 87 + n) ≡ n
unfolding nibble
nibble_low n h = ground arith

halves : (b : ℕ) → b / 16 * 16 + b % 16 ≡ b
halves b = omega arith

pub from_hex-to_hex : (bs : Bytes) → IsBytes bs → from_hex (to_hex bs) ≡ bs
unfolding from_hex to_hex hex_byte
from_hex-to_hex [] h = refl
from_hex-to_hex (b ∷ bs) h =
    let low = h.0 in
    ap₂ (λ (x : ℕ) xs. x ∷ xs)
      (ap₂ (λ (x y : ℕ). x * 16 + y) (nibble_low (b / 16) (omega arith))
          (nibble_low (b % 16) (omega arith))
        ∙ halves b)
      (from_hex-to_hex bs h.1)

pub length-to_hex : (bs : Bytes) → length (to_hex bs) ≡ 2 * length bs
unfolding to_hex hex_byte
length-to_hex [] = refl
length-to_hex (b ∷ bs) = let rest = length-to_hex bs in omega arith

lower_digit : (n : ℕ) → n < 16 → is_lower_hex (if ltb n 10 then 48 + n else 87 + n) ≡ true
unfolding is_lower_hex
lower_digit n h = ground arith

pub all-to_hex : (bs : Bytes) → IsBytes bs → all is_lower_hex (to_hex bs) ≡ true
unfolding to_hex hex_byte
all-to_hex [] h = refl
all-to_hex (b ∷ bs) h =
    let low = h.0 in
    ground (
      arith,
      lower_digit (b / 16) (omega arith),
      lower_digit (b % 16) (omega arith),
      all-to_hex bs h.1,
    )

pub all-is_hex : (s : Text) → all is_lower_hex s ≡ true → all is_hex s ≡ true
unfolding is_hex
all-is_hex [] h = refl
all-is_hex (c ∷ s) h = ground (arith, all-is_hex s, h)
