-- ===== src/Keys/Roundtrip.antt =====
-- The decoders of src/util/keys.ts undo the encoders.
use nostr_swarm.Base.Number.{
  hex_digit, trim_start, is_space, digit_value, digits_value, parse_digits, strip_prefix,
  parse_signed, parse_int,
}
use nostr_swarm.Keys.{
  separator, max_u32, invert_timestamp, recover_timestamp, encode_kind, decode_kind, join_key,
  split_key,
}
use nostr_swarm.Keys.Fixed.{fixed, length-fixed, pow16-suc}
use mathlib.Core.Option
use nostr_swarm.Keys.Order.{to_u32-invert, invert-fixed, encode_kind-fixed}
use nostr_swarm.Base.{
  ltb, lt→ltb, length, All, Text, pos, ℕ, zero, suc, ◌+◌, ◌-◌, ◌*◌, ◌/◌, ◌%◌, ◌^◌, ◌<◌, ◌≡◌, refl,
  sym, ap, ◌∙◌, ◌≢◌, true, some, List, [], ◌∷◌, ◌++◌, arith,
}

digit_value-hex_digit : (d : ℕ) → d < 16 → digit_value (hex_digit d) ≡ d
unfolding hex_digit digit_value
digit_value-hex_digit d h = ground arith

abbrev IsDigits : Text → Type 0
IsDigits s = All (λ c. (d : ℕ) × (d < 16) × (c ≡ hex_digit d)) s

IsDigits-snoc : (s : Text) (d : ℕ) → d < 16 → IsDigits s → IsDigits (s ++ hex_digit d ∷ [])
IsDigits-snoc [] d h a = ((d, h, refl), tt)
IsDigits-snoc (c ∷ s) d h a = (a.0, IsDigits-snoc s d h a.1)

fixed-IsDigits : (w n : ℕ) → IsDigits (fixed w n)
unfolding fixed
fixed-IsDigits zero n = tt
fixed-IsDigits (suc w) n =
    IsDigits-snoc (fixed w (n / 16)) (n % 16) (omega arith) (fixed-IsDigits w (n / 16))

digits_value-append :
    (acc : ℕ) (s : Text) (d : ℕ)
    → d < 16
    → IsDigits s
    → digits_value 16 acc (s ++ hex_digit d ∷ []) ≡ digits_value 16 acc s * 16 + d
unfolding digits_value
digits_value-append acc [] d h a =
    let e : digit_value (hex_digit d) ≡ d = digit_value-hex_digit d h in rw (e, lt→ltb d 16 h)
digits_value-append acc (c ∷ s) d h ((x, lt, is), a) =
    let e : digit_value c ≡ x = rw is (digit_value-hex_digit x lt) in
    rw (e, lt→ltb x 16 lt) (digits_value-append (acc * 16 + x) s d h a)

digits_value-fixed : (w n : ℕ) → n < 16 ^ w → digits_value 16 0 (fixed w n) ≡ n
unfolding fixed
digits_value-fixed zero n h = unfold digits_value in omega arith
digits_value-fixed (suc w) n h =
    digits_value-append 0 (fixed w (n / 16)) (n % 16) (omega arith) (fixed-IsDigits w (n / 16))
    ∙ rw (digits_value-fixed w (n / 16) (omega (arith, pow16-suc w))) (omega arith)

trim_start-hex_digit : (d : ℕ) (s : Text) → d < 16 → trim_start (hex_digit d ∷ s) ≡ hex_digit d ∷ s
unfolding trim_start is_space hex_digit
trim_start-hex_digit d s h = ground arith

strip_prefix-digits : (s : Text) → IsDigits s → strip_prefix 16 s ≡ s
unfolding strip_prefix
strip_prefix-digits [] a = refl
strip_prefix-digits (c ∷ []) a = refl
strip_prefix-digits (c ∷ d ∷ s) (_, ((x, h, e), _)) = rw e (
    let n : (hex_digit x ≢ 120) × (hex_digit x ≢ 88) = unfold hex_digit in ground arith in
    ground arith)

parse_signed_plain :
    (c : ℕ) (s : Text)
    → c ≢ 45
    → c ≢ 43
    → parse_signed 16 (c ∷ s) ≡ Option.map pos (parse_digits 16 (strip_prefix 16 (c ∷ s)))
unfolding parse_signed
parse_signed_plain c s h k = ground arith

hex_digit_plain : (c d : ℕ) → d < 16 → c ≡ hex_digit d → (c ≢ 45) × (c ≢ 43)
unfolding hex_digit
hex_digit_plain c d h e = ground arith

parse_int-digits :
    (c : ℕ) (s : Text)
    → IsDigits (c ∷ s)
    → parse_int 16 (c ∷ s) ≡ some (pos (digits_value 16 0 (c ∷ s)))
unfolding parse_int
parse_int-digits c s a =
    let (x, h, e) = a.0 in
    let v : ltb (digit_value c) 16 ≡ true = rw (e, digit_value-hex_digit x h) (lt→ltb x 16 h) in
    let trimmed : trim_start (c ∷ s) ≡ c ∷ s = rw e (trim_start-hex_digit x s h) in
    let (n, m) = hex_digit_plain c x h e in
    let signed = parse_signed_plain c s n m in
    rw (trimmed, signed, strip_prefix-digits (c ∷ s) a) (unfold parse_digits in rw v refl)

-- `parseInt` reads a padded number back.
parse_int-fixed : (w n : ℕ) → n < 16 ^ suc w → parse_int 16 (fixed (suc w) n) ≡ some (pos n)
parse_int-fixed w n h = read (fixed (suc w) n) refl
  where
    read : (s : Text) → fixed (suc w) n ≡ s → parse_int 16 s ≡ some (pos n)
    read [] e = absurd (omega (arith, length-fixed (suc w) n, ap length e))
    read (c ∷ s) e =
        parse_int-digits c s (rw e at (fixed-IsDigits (suc w) n))
        ∙ ap (λ v. some (pos v)) (ap (digits_value 16 0) (sym e) ∙ digits_value-fixed (suc w) n h)

-- Decoding an encoded kind of 32 bits gives the kind.
decode_kind-encode_kind :
    (kind : ℕ) → kind < 2 ^ 32 → decode_kind (encode_kind kind) ≡ some (pos kind)
unfolding decode_kind
decode_kind-encode_kind kind h = rw (encode_kind-fixed kind h) (parse_int-fixed 7 kind h)

-- Recovering an inverted timestamp of 32 bits gives the timestamp.
recover_timestamp-invert_timestamp :
    (ts : ℕ) → ts < 2 ^ 32 → recover_timestamp (invert_timestamp (pos ts)) ≡ ts
unfolding recover_timestamp
recover_timestamp-invert_timestamp ts h =
    rw (invert-fixed ts h, parse_int-fixed 7 (max_u32 - ts) (omega arith), recover_timestamp)
      (to_u32-invert (max_u32 - ts) (omega arith) ∙ omega arith)

abbrev NoSeparator : Text → Type 0
NoSeparator p = All (λ c. c ≢ separator) p

split_key-part :
    (p : Text) (key : Text) → NoSeparator p → split_key (p ++ separator ∷ key) ≡ p ∷ split_key key
unfolding split_key
split_key-part [] key n = refl
split_key-part (c ∷ p) key n = rw (split_key-part p key n.1) (ground arith)

split_key-last : (p : Text) → NoSeparator p → split_key p ≡ p ∷ []
unfolding split_key
split_key-last [] n = refl
split_key-last (c ∷ p) n = rw (split_key-last p n.1) (ground arith)

-- Splitting a joined key gives the parts, when no part holds the separator and there is a part.
split_key-join_key :
    (p : Text) (parts : List Text)
    → All NoSeparator (p ∷ parts)
    → split_key (join_key (p ∷ parts)) ≡ p ∷ parts
split_key-join_key p [] n = split_key-last p n.0
split_key-join_key p (q ∷ parts) n =
    split_key-part p (join_key (q ∷ parts)) n.0 ∙ ap (◌∷◌ p) (split_key-join_key q parts n.1)
