-- ===== src/Keys/Ranges.antt =====
-- A range scan of an index sees exactly the keys of the window of time that was asked for.
use nostr_swarm.Hyperbee.{in_range, above, below, up_to}
use nostr_swarm.Keys.{
  separator, tilde, max_u32, invert_timestamp, time_range, lower_bound, upper_lt, upper_lte,
}
use nostr_swarm.Keys.Fixed.{fixed}
use nostr_swarm.Keys.Order.{fixed_lt, invert-fixed}
use nostr_swarm.Base.{
  ltb, leb, ltb→lt, ltb_false→le, leb_false→lt, leb→le, Bool-cases, Text, text_lt, text_le,
  text_lt_asymm, text_lt-append, text_le-append, ℤ, pos, leb_ℤ, leb_ℤ-pos, ℕ, ◌-◌, ◌^◌, ◌≤◌, ◌<◌,
  ◌≡◌, refl, sym, ap, ap₂, ◌∙◌, inl, inr, Bool, true, false, not, ◌&&◌, Option, none, some, [], ◌∷◌,
  ◌++◌, append-nil, arith,
}

-- Both bounds of the window are inclusive.
abbrev pub since_ok : Option ℤ → ℤ → Bool
since_ok none ts = true
since_ok (some since) ts = leb_ℤ since ts

abbrev pub until_ok : Option ℤ → ℤ → Bool
until_ok none ts = true
until_ok (some until) ts = leb_ℤ ts until

abbrev pub IsU32 : Option ℤ → Type 0
IsU32 none = Unit
IsU32 (some z) = (n : ℕ) × (z ≡ pos n) × (n < 2 ^ 32)

not-lt_of_le :
    (a b : ℕ) (c : ℕ) (s : Text)
    → b ≤ a
    → a < 2 ^ 32
    → text_lt (fixed 8 a ++ c ∷ s) (fixed 8 b ++ []) ≡ false
not-lt_of_le a b c s h k = elim (Bool-cases (ltb b a)) [
  | inl less ↦
      text_lt_asymm (fixed 8 b ++ []) (fixed 8 a ++ c ∷ s)
        (fixed_lt 8 b a [] (c ∷ s) (ltb→lt b a less) k)
  | inr equal ↦
      let e : a ≡ b = omega (arith, ltb_false→le b a equal) in
      rw (e, text_lt-append) (unfold text_lt in refl)
]

above_window :
    (until ts : ℕ) (id : Text)
    → until < 2 ^ 32
    → ts < 2 ^ 32
    → text_le (invert_timestamp (pos until)) (invert_timestamp (pos ts) ++ separator ∷ id)
      ≡ leb ts until
unfolding text_le
above_window until ts id h k =
    rw (invert-fixed until h, invert-fixed ts k, ← append-nil (fixed 8 (max_u32 - until)))
      (elim (Bool-cases (leb ts until)) [
        | inl inside ↦ rw (
          inside,
          not-lt_of_le (max_u32 - ts) (max_u32 - until) separator id
              (omega (arith, leb→le ts until inside)) (omega arith),
        )
        | inr outside ↦ rw (
          outside,
          fixed_lt 8 (max_u32 - ts) (max_u32 - until) (separator ∷ id) []
              (omega (arith, leb_false→lt ts until outside)) (omega arith),
        )
      ])

below_window :
    (since ts : ℕ) (id : Text)
    → since < 2 ^ 32
    → ts < 2 ^ 32
    → text_le
        (invert_timestamp (pos ts) ++ separator ∷ id)
        (invert_timestamp (pos since) ++ tilde ∷ [])
      ≡ leb since ts
unfolding text_le
below_window since ts id h k =
    rw (invert-fixed since h, invert-fixed ts k)
      (elim (Bool-cases (leb since ts)) [
        | inl inside ↦ rw inside (ap not (not_after (leb→le since ts inside)))
        | inr outside ↦ rw (
          outside,
          fixed_lt 8 (max_u32 - since) (max_u32 - ts) (tilde ∷ []) (separator ∷ id)
              (omega (arith, leb_false→lt since ts outside)) (omega arith),
        )
      ])
  where
    not_after :
        since ≤ ts
        → text_lt
            (fixed 8 (max_u32 - since) ++ tilde ∷ [])
            (fixed 8 (max_u32 - ts) ++ separator ∷ id)
          ≡ false
    not_after le = elim (Bool-cases (ltb since ts)) [
      | inl less ↦
          text_lt_asymm (fixed 8 (max_u32 - ts) ++ separator ∷ id)
            (fixed 8 (max_u32 - since) ++ tilde ∷ [])
            (fixed_lt 8 (max_u32 - ts) (max_u32 - since) (separator ∷ id) (tilde ∷ [])
              (omega (arith, ltb→lt since ts less)) (omega arith))
      | inr equal ↦
          let e : since ≡ ts = omega (arith, ltb_false→le since ts equal) in
          rw (e, text_lt-append) (unfold text_lt in refl)
    ]

-- The lower bound of `time_range` lets exactly the timestamps up to `until` through.
above-lower_bound :
    (prefix : Text) (until : Option ℤ) (ts : ℕ) (id : Text)
    → IsU32 until
    → ts < 2 ^ 32
    → above
        (lower_bound prefix until)
        (prefix ++ separator ∷ (invert_timestamp (pos ts) ++ separator ∷ id))
      ≡ until_ok until (pos ts)
above-lower_bound prefix none ts id u k =
    text_le-append prefix (separator ∷ []) _ ∙ bare (invert_timestamp (pos ts) ++ separator ∷ id)
  where
    bare : (s : Text) → text_le (separator ∷ []) (separator ∷ s) ≡ true
    bare [] = unfold text_le text_lt in refl
    bare (c ∷ s) = unfold text_le text_lt in refl
above-lower_bound prefix (some until) ts id (n, e, h) k = rw e (
    text_le-append prefix (separator ∷ invert_timestamp (pos n)) _
    ∙ text_le-append (separator ∷ []) (invert_timestamp (pos n)) _
    ∙ above_window n ts id h k
    ∙ sym (leb_ℤ-pos ts n))

-- The upper bounds of `time_range` let exactly the timestamps from `since` on through.
below-upper_bounds :
    (prefix : Text) (since : Option ℤ) (ts : ℕ) (id : Text)
    → IsU32 since
    → ts < 2 ^ 32
    → (below
          (upper_lt prefix since)
          (prefix ++ separator ∷ (invert_timestamp (pos ts) ++ separator ∷ id))
        && up_to
            (upper_lte prefix since)
            (prefix ++ separator ∷ (invert_timestamp (pos ts) ++ separator ∷ id)))
      ≡ since_ok since (pos ts)
below-upper_bounds prefix none ts id u k = rw text_lt-append (unfold text_lt in refl)
below-upper_bounds prefix (some since) ts id (n, e, h) k = rw e (
    text_le-append prefix _ (separator ∷ (invert_timestamp (pos n) ++ tilde ∷ []))
    ∙ text_le-append (separator ∷ []) _ (invert_timestamp (pos n) ++ tilde ∷ [])
    ∙ below_window n ts id h k
    ∙ sym (leb_ℤ-pos n ts))

-- A key of the index whose prefix is that of the range lies in the range exactly if its timestamp
-- lies in the window, both ends included; all times are of 32 bits.
pub in_range-time_range :
    (prefix : Text) (since until : Option ℤ) (ts : ℕ) (id : Text)
    → IsU32 since
    → IsU32 until
    → ts < 2 ^ 32
    → in_range
        (time_range prefix since until)
        (prefix ++ separator ∷ (invert_timestamp (pos ts) ++ separator ∷ id))
      ≡ (until_ok until (pos ts) && since_ok since (pos ts))
unfolding in_range time_range
in_range-time_range prefix since until ts id u v k =
    ap₂ (λ a b. a && b) (above-lower_bound prefix until ts id v k)
      (below-upper_bounds prefix since ts id u k)
