-- ===== src/Keys/Order.antt =====
-- The keys sort as the design of src/util/keys.ts says: padded numbers by value, and inverted
-- timestamps newest first.
use nostr_swarm.Base.Number.{hex_digit}
use nostr_swarm.Keys.{max_u32, invert_timestamp, encode_kind}
use nostr_swarm.Keys.Fixed.{fixed, pow16-suc, hex8-fixed}
use nostr_swarm.Base.{
  ltb, ltb→lt, ltb_false→le, Bool-cases, Text, text_lt, text_lt-append, pos, ◌-ℤ◌, to_u32, ℕ, zero,
  suc, ◌-◌, ◌/◌, ◌%◌, ◌^◌, ◌<◌, ◌≡◌, inl, inr, true, [], ◌∷◌, ◌++◌, append_assoc, arith,
}

hex_digit_lt : (x y : ℕ) → x < y → y < 16 → hex_digit x < hex_digit y
unfolding hex_digit
hex_digit_lt x y h k = ground arith

-- Fixed-width numbers compare as numbers, whatever follows them.
pub fixed_lt :
    (w a b : ℕ) (s t : Text) → a < b → b < 16 ^ w → text_lt (fixed w a ++ s) (fixed w b ++ t) ≡ true
unfolding fixed
fixed_lt zero a b s t h k = absurd (omega arith)
fixed_lt (suc w) a b s t h k =
    rw
      (
        append_assoc (fixed w (a / 16)) (hex_digit (a % 16) ∷ []) s,
        append_assoc (fixed w (b / 16)) (hex_digit (b % 16) ∷ []) t,
      )
      (elim (Bool-cases (ltb (a / 16) (b / 16))) [
        | inl front ↦
            fixed_lt w (a / 16) (b / 16) (hex_digit (a % 16) ∷ s) (hex_digit (b % 16) ∷ t)
              (ltb→lt _ _ front) (omega (arith, pow16-suc w))
        | inr back ↦
            let e : a / 16 ≡ b / 16 = omega (arith, ltb_false→le _ _ back) in
            let l : a % 16 < b % 16 = omega arith in
            rw (e, text_lt-append)
              (last (hex_digit (a % 16)) (hex_digit (b % 16))
                (hex_digit_lt (a % 16) (b % 16) l (omega arith)))
      ])
  where
    last : (x y : ℕ) → x < y → text_lt (x ∷ s) (y ∷ t) ≡ true
    last x y h = unfold text_lt in ground arith

pub to_u32-invert : (n : ℕ) → n < 2 ^ 32 → to_u32 (pos max_u32 -ℤ pos n) ≡ max_u32 - n
unfolding to_u32 ◌-ℤ◌
to_u32-invert n h = ground arith

-- An inverted timestamp of 32 bits is eight digits.
pub invert-fixed : (n : ℕ) → n < 2 ^ 32 → invert_timestamp (pos n) ≡ fixed 8 (max_u32 - n)
unfolding invert_timestamp
invert-fixed n h = rw (to_u32-invert n h) (hex8-fixed (max_u32 - n) (omega arith))

pub encode_kind-fixed : (n : ℕ) → n < 2 ^ 32 → encode_kind n ≡ fixed 8 n
unfolding encode_kind to_u32
encode_kind-fixed n h = let e : n % 2 ^ 32 ≡ n = omega arith in rw e (hex8-fixed n h)

-- A newer event has the smaller inverted timestamp, whatever follows in the key, and so comes first.
invert_timestamp_newest_first :
    (old new : ℕ) (s t : Text)
    → old < new
    → new < 2 ^ 32
    → text_lt (invert_timestamp (pos new) ++ s) (invert_timestamp (pos old) ++ t) ≡ true
invert_timestamp_newest_first old new s t h k =
    rw (invert-fixed new k, invert-fixed old (omega arith))
      (fixed_lt 8 (max_u32 - new) (max_u32 - old) s t (omega arith) (omega arith))
