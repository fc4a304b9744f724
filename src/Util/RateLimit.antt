-- ===== src/Util/RateLimit.antt =====
-- The token bucket (src/util/rate-limit.ts). Times are in milliseconds. The fractions of a token are
-- exact: `scale` parts make a token, and `rate` parts come back each millisecond.
pub mod Bounds
pub mod Refund
use nostr_swarm.Base.{
  ltb, leb, ◌==◌, if◌then◌else◌, ltb→lt, lt→ltb, ltb_false→le, leb_false→lt, leb→le, le→leb, ==_iff,
  tests, Bool-cases, Option-cases, some-eq, none-ne-some, length, get_elem?, take, drop, replicate,
  length-append, length-take-le, find, keep, any, all, In, In-append_left, In-append_right,
  In-append_cases, All, Text, text, eqb, eqb→eq, eqb_refl, eqb_iff, eqb_comm, text_lt, text_le,
  text_lt_irrefl, text_lt_trans, text_lt_total, text_lt_asymm, text_lt-append, text_le-append,
  starts_with, starts_with-append, includes, includes_text, includes_text→In, In→includes_text, ℤ,
  pos, negsuc, pos_part, neg_part, sub_ℕ, ltb_ℤ, leb_ℤ, eqb_ℤ, leb_ℤ-pos, ◌+ℤ◌, ◌-ℤ◌, to_u32, ℕ,
  zero, suc, ◌+◌, ◌-◌, ◌*◌, ◌/◌, ◌%◌, ◌^◌, ◌≤◌, ◌<◌, ◌≡◌, refl, sym, ap, ap₂, ◌∙◌, subst, ◌≡⟨◌⟩◌,
  ◌∎, ◌≢◌, ◌↔◌, ◌⊎◌, inl, inr, Bool, true, false, not, ◌&&◌, ◌||◌, Option, none, some, List, [],
  ◌∷◌, ◌++◌, map, append_assoc, append-nil, arith,
}

pub record TokenBucket : Type 0 where
  pub tokens : ℤ
  pub last_refill : ℤ
  pub capacity : ℕ
  pub rate : ℕ
  pub scale : ℕ

-- The constructor; `capacity` is in tokens.
unfoldable pub new_bucket : ℕ → ℕ → ℕ → ℤ → TokenBucket
new_bucket capacity rate scale now = record {
  tokens = pos (capacity * scale);
  last_refill = now;
  capacity = capacity * scale;
  rate = rate;
  scale = scale;
}

abbrev pub min_ℤ : ℤ → ℤ → ℤ
min_ℤ a b = if leb_ℤ a b then a else b

-- A number of milliseconds, which is negative where the clock was set back, at a rate.
abbrev pub earned : ℤ → ℕ → ℤ
earned elapsed rate = sub_ℕ (pos_part elapsed * rate) (neg_part elapsed * rate)

unfoldable pub refill : TokenBucket → ℤ → TokenBucket
refill b now =
    let elapsed = now -ℤ b.last_refill in
    record b {
      tokens = min_ℤ (pos b.capacity) (b.tokens +ℤ earned elapsed b.rate);
      last_refill = now;
    }

unfoldable pub consume : TokenBucket → ℤ → TokenBucket × Bool
consume b now =
    let r = refill b now in
    if leb_ℤ (pos r.scale) r.tokens
    then (record r { tokens = r.tokens -ℤ pos r.scale }, true)
    else (r, false)

unfoldable pub refund : TokenBucket → ℤ → TokenBucket
refund b now =
    let r = refill b now in record r { tokens = min_ℤ (pos r.capacity) (r.tokens +ℤ pos r.scale) }
