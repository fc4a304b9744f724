-- ===== src/Keys/Fixed.antt =====
-- Zero-padded hexadecimal as eight digits of fixed place, and what `parseInt` reads from them.
use nostr_swarm.Base.Number.{hex_digit, digits16, pad_start}
use native.Mathlib.Nat.{pow-suc}
use nostr_swarm.Keys.{hex8}
use nostr_swarm.Base.{
  ltb, ltb→lt, ltb_false→le, Bool-cases, length, replicate, length-append, Text, ℕ, zero, suc, ◌-◌,
  ◌*◌, ◌/◌, ◌%◌, ◌^◌, ◌<◌, ◌≡◌, refl, sym, ap, ◌∙◌, inl, inr, [], ◌∷◌, ◌++◌, append_assoc, arith,
}

-- The last `w` hexadecimal digits of a number, the highest first.
unfoldable pub fixed : ℕ → ℕ → Text
fixed zero n = []
fixed (suc w) n = fixed w (n / 16) ++ hex_digit (n % 16) ∷ []

pub length-fixed : (w n : ℕ) → length (fixed w n) ≡ w
unfolding fixed
length-fixed zero n = refl
length-fixed (suc w) n =
    omega (
      arith,
      length-append {0} (fixed w (n / 16)) (hex_digit (n % 16) ∷ []),
      length-fixed w (n / 16),
    )

replicate_snoc : (w c : ℕ) → c ∷ replicate w c ≡ replicate w c ++ c ∷ []
replicate_snoc zero c = refl
replicate_snoc (suc w) c = ap (◌∷◌ c) (replicate_snoc w c)

fixed-zero : (w : ℕ) → fixed w 0 ≡ replicate w 48
unfolding fixed hex_digit
fixed-zero zero = refl
fixed-zero (suc w) = rw (fixed-zero w) (sym (replicate_snoc w 48))

pad_start_snoc :
    (w c d : ℕ) (s : Text) → pad_start (suc w) c (s ++ d ∷ []) ≡ pad_start w c s ++ d ∷ []
unfolding pad_start
pad_start_snoc w c d s =
    let e : length (s ++ d ∷ []) ≡ suc (length s) = omega (arith, length-append s (d ∷ [])) in
    let f : suc w - suc (length s) ≡ w - length s = omega arith in
    rw (e, f) (sym (append_assoc (replicate (w - length s) c) s (d ∷ [])))

pub pow16-suc : (w : ℕ) → 16 ^ suc w ≡ 16 * 16 ^ w
pow16-suc w = rw pow-suc (omega arith)

pad_start_one : (w d : ℕ) → pad_start (suc w) 48 (d ∷ []) ≡ replicate w 48 ++ d ∷ []
unfolding pad_start
pad_start_one w d = let e : suc w - 1 ≡ w = omega arith in rw e

pad_start-digits16 :
    (w n : ℕ) → n < 16 ^ suc w → pad_start (suc w) 48 (digits16 (suc w) n) ≡ fixed (suc w) n
unfolding digits16 fixed
pad_start-digits16 zero n h = elim (Bool-cases (ltb n 16)) [
  | inl small ↦
      let e : n % 16 ≡ n = omega (arith, ltb→lt) in rw (small, e) (pad_start_one 0 (hex_digit n))
  | inr large ↦ absurd (omega (arith, ltb_false→le n 16 large, pow16-suc 0))
]
pad_start-digits16 (suc w) n h = elim (Bool-cases (ltb n 16)) [
  | inl small ↦
      let e : n % 16 ≡ n = omega (arith, ltb→lt) in
      let z : n / 16 ≡ 0 = omega (arith, ltb→lt) in
      rw (small, e, z)
        (pad_start_one (suc w) (hex_digit n)
          ∙ ap (λ (t : Text). t ++ hex_digit n ∷ []) (sym (fixed-zero (suc w))))
  | inr large ↦ rw large (
      pad_start_snoc (suc w) 48 (hex_digit (n % 16)) (digits16 (suc w) (n / 16))
      ∙ ap (λ (t : Text). t ++ hex_digit (n % 16) ∷ [])
          (pad_start-digits16 w (n / 16) (omega (arith, pow16-suc (suc w)))))
]

-- Below 2 ^ 32 the padded text is the eight digits.
pub hex8-fixed : (n : ℕ) → n < 2 ^ 32 → hex8 n ≡ fixed 8 n
unfolding hex8
hex8-fixed n h = pad_start-digits16 7 n h
