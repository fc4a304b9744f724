-- ===== src/Base/Number.antt =====
-- Numbers as text: `toString(16)`, `padStart` and `Number.parseInt` of the language.
use Prim.Native.Nat.{ℕ, zero, suc, ◌+◌, ◌-◌, ◌*◌, ◌/◌, ◌%◌}
use mathlib.Core.Bool.{Bool, ◌&&◌, ◌||◌}
use mathlib.Core.Option
use mathlib.Core.Option.{Option, none, some}
use mathlib.Core.List.{[], ◌∷◌, ◌++◌}
use nostr_swarm.Base.Tests.{ltb, leb, ◌==◌, if◌then◌else◌}
use nostr_swarm.Base.Lists.{length, replicate}
use nostr_swarm.Base.Strings.{Text}
use nostr_swarm.Base.Int.{ℤ, pos, negsuc}

unfoldable pub hex_digit : ℕ → ℕ
hex_digit d = if ltb d 10 then 48 + d else 87 + d

-- The hexadecimal digits of a number that has at most `fuel` of them.
unfoldable pub digits16 : ℕ → ℕ → Text
unfolding hex_digit
digits16 zero n = []
digits16 (suc fuel) n =
    let front = digits16 fuel (n / 16) in
    if ltb n 16 then hex_digit n ∷ [] else front ++ hex_digit (n % 16) ∷ []

-- `n.toString(16)` of a number below 2 ^ 32, which has at most eight digits.
unfoldable pub to_string16 : ℕ → Text
unfolding digits16
to_string16 n = digits16 8 n

-- `s.padStart(width, c)`.
unfoldable pub pad_start : ℕ → ℕ → Text → Text
pad_start width c s = replicate (width - length s) c ++ s

-- The white space that `parseInt` skips.
unfoldable pub is_space : ℕ → Bool
is_space c =
    (leb 9 c && leb c 13)
    || (c == 32)
    || (c == 160)
    || (c == 5760)
    || (leb 8192 c && leb c 8202)
    || (c == 8232)
    || (c == 8233)
    || (c == 8239)
    || (c == 8287)
    || (c == 12288)
    || (c == 65279)

unfoldable pub trim_start : Text → Text
unfolding is_space
trim_start [] = []
trim_start (c ∷ s) = let rest = trim_start s in if is_space c then rest else c ∷ s

-- The value of a digit, below any radix.
unfoldable pub digit_value : ℕ → ℕ
digit_value c =
    if leb 48 c && leb c 57
    then c - 48
    else if leb 97 c && leb c 122
    then c - 87
    else if leb 65 c && leb c 90
    then c - 55
    else 36

-- The digits up to the first character that is none.
unfoldable pub digits_value : ℕ → ℕ → Text → ℕ
unfolding digit_value
digits_value radix acc [] = acc
digits_value radix acc (c ∷ s) =
    let rest = digits_value radix (acc * radix + digit_value c) s in
    if ltb (digit_value c) radix then rest else acc

-- `none` is `NaN`: there is no digit.
unfoldable pub parse_digits : ℕ → Text → Option ℕ
unfolding digits_value
parse_digits radix [] = none
parse_digits radix (c ∷ s) =
    if ltb (digit_value c) radix then some (digits_value radix 0 (c ∷ s)) else none

-- A hexadecimal number may begin with `0x`.
unfoldable pub strip_prefix : ℕ → Text → Text
strip_prefix radix (c ∷ d ∷ s) =
    if (radix == 16) && (c == 48) && ((d == 120) || (d == 88)) then s else c ∷ d ∷ s
strip_prefix radix s = s

abbrev pub negate : ℕ → ℤ
negate zero = pos 0
negate (suc n) = negsuc n

unfoldable pub parse_signed : ℕ → Text → Option ℤ
unfolding strip_prefix parse_digits
parse_signed radix [] = none
parse_signed radix (c ∷ s) =
    if c == 45
    then Option.map negate (parse_digits radix (strip_prefix radix s))
    else if c == 43
    then Option.map pos (parse_digits radix (strip_prefix radix s))
    else Option.map pos (parse_digits radix (strip_prefix radix (c ∷ s)))

-- `Number.parseInt(s, radix)`.
unfoldable pub parse_int : ℕ → Text → Option ℤ
unfolding parse_signed trim_start
parse_int radix s = parse_signed radix (trim_start s)
