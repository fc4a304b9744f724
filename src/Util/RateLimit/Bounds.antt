-- ===== src/Util/RateLimit/Bounds.antt =====
-- How much the token bucket of src/util/rate-limit.ts lets through.
use native.Mathlib.Nat.{add-mul, add_assoc}
use nostr_swarm.Util.RateLimit.{TokenBucket, min_ℤ, earned, refill, consume, refund}
use nostr_swarm.Base.{
  leb, if◌then◌else◌, leb→le, Bool-cases, ℤ, pos, negsuc, leb_ℤ, leb_ℤ-pos, ◌+ℤ◌, ◌-ℤ◌, ℕ, ◌+◌, ◌-◌,
  ◌*◌, ◌≤◌, ◌≡◌, refl, sym, ap, ◌∙◌, inl, inr, true, false, List, [], ◌∷◌, arith,
}

-- The fill is within the capacity.
abbrev pub IsFilled : TokenBucket → Type 0
IsFilled b = leb_ℤ b.tokens (pos b.capacity) ≡ true

min_ℤ-le : (cap : ℕ) (z : ℤ) → leb_ℤ (min_ℤ (pos cap) z) (pos cap) ≡ true
min_ℤ-le n (pos z) = ground arith
min_ℤ-le n (negsuc z) = ground arith

less-IsFilled : (c m : ℕ) (z : ℤ) → leb_ℤ z (pos c) ≡ true → leb_ℤ (z -ℤ pos m) (pos c) ≡ true
unfolding ◌-ℤ◌
less-IsFilled c m (pos z) h = ground arith
less-IsFilled c m (negsuc z) h = ground arith

refill-IsFilled : (b : TokenBucket) (now : ℤ) → IsFilled (refill b now)
unfolding refill
refill-IsFilled b now = min_ℤ-le b.capacity _

consume-IsFilled : (b : TokenBucket) (now : ℤ) → IsFilled (consume b now).0
unfolding consume
consume-IsFilled b now =
    let r = refill b now in
    elim (Bool-cases (leb_ℤ (pos r.scale) r.tokens)) [
      | inl allowed ↦
          rw (allowed, consume) (less-IsFilled r.capacity r.scale r.tokens (refill-IsFilled b now))
      | inr limited ↦ rw (limited, consume) (refill-IsFilled b now)
    ]

-- Whatever the clock says, no operation leaves the bucket fuller than its capacity.
bucket-IsFilled :
    (b : TokenBucket) (now : ℤ)
    → IsFilled (refill b now) × IsFilled (consume b now).0 × IsFilled (refund b now)
unfolding refund
bucket-IsFilled b now =
    (refill-IsFilled b now, consume-IsFilled b now, min_ℤ-le (refill b now).capacity _)

-- A bucket whose clock and fill are not negative.
abbrev pub bucket : ℕ → ℕ → ℕ → ℕ → ℕ → TokenBucket
bucket tokens last capacity rate scale = record {
  tokens = pos tokens;
  last_refill = pos last;
  capacity = capacity;
  rate = rate;
  scale = scale;
}

abbrev with_tokens : ℤ → ℕ → ℕ → ℕ → ℕ → TokenBucket
with_tokens z last capacity rate scale = record {
  tokens = z;
  last_refill = pos last;
  capacity = capacity;
  rate = rate;
  scale = scale;
}

abbrev pub refilled : ℕ → ℕ → ℕ
refilled capacity tokens = if leb capacity tokens then capacity else tokens

pos-sub : (t l : ℕ) → l ≤ t → pos t -ℤ pos l ≡ pos (t - l)
unfolding ◌-ℤ◌
pos-sub t l h = ground arith

pub pos-add : (a b : ℕ) → pos a +ℤ pos b ≡ pos (a + b)
unfolding ◌+ℤ◌
pos-add a b = ground arith

earned-pos : (n rate : ℕ) → earned (pos n) rate ≡ pos (n * rate)
earned-pos n rate = ground arith

earned_sum : (x l r t : ℕ) → l ≤ t → pos x +ℤ earned (pos t -ℤ pos l) r ≡ pos (x + (t - l) * r)
earned_sum x l r t h = rw (pos-sub t l h, earned-pos (t - l) r, pos-add x ((t - l) * r)) refl

pub min_ℤ-pos : (c n : ℕ) → min_ℤ (pos c) (pos n) ≡ pos (refilled c n)
min_ℤ-pos c n = ground arith

pub refill-bucket :
    (x l c r s t : ℕ)
    → l ≤ t
    → refill (bucket x l c r s) (pos t) ≡ bucket (refilled c (x + (t - l) * r)) t c r s
unfolding refill
refill-bucket x l c r s t h =
    ap (λ (z : ℤ). with_tokens z t c r s)
      (ap (min_ℤ (pos c)) (earned_sum x l r t h) ∙ min_ℤ-pos c (x + (t - l) * r))

-- The tokens that are left once one is taken, if there is one.
abbrev pub spent : ℕ → ℕ → ℕ
spent s n = if leb s n then n - s else n

sub-pos : (s n : ℕ) → leb s n ≡ true → pos n -ℤ pos s ≡ pos (n - s)
sub-pos s n h = pos-sub n s (leb→le s n h)

pub consume-bucket :
    (x l c r s t : ℕ)
    → l ≤ t
    → consume (bucket x l c r s) (pos t) ≡ (
      bucket (spent s (refilled c (x + (t - l) * r))) t c r s,
      leb s (refilled c (x + (t - l) * r)),
    )
unfolding consume
consume-bucket x l c r s t h =
    let n : ℕ = refilled c (x + (t - l) * r) in
    elim (Bool-cases (leb s n)) [
      | inl allowed ↦
          rw (refill-bucket x l c r s t h, leb_ℤ-pos s n, allowed, sub-pos s n allowed) refl
      | inr limited ↦ rw (refill-bucket x l c r s t h, leb_ℤ-pos s n, limited) refl
    ]

-- Requests at some times: the bucket that is left and how many were allowed.
abbrev pub run_requests : TokenBucket → List ℕ → TokenBucket × ℕ
run_requests b [] = (b, 0)
run_requests b (t ∷ times) =
    let step = consume b (pos t) in
    let rest = run_requests step.0 times in (rest.0, if step.1 then 1 + rest.1 else rest.1)

-- Times that do not decrease, from one time to another.
abbrev pub IsBetween : ℕ → List ℕ → ℕ → Type 0
IsBetween l [] end = l ≤ end
IsBetween l (t ∷ times) end = l ≤ t × IsBetween t times end

IsBetween-le : (l : ℕ) (times : List ℕ) (end : ℕ) → IsBetween l times end → l ≤ end
IsBetween-le l [] end h = h
IsBetween-le l (t ∷ times) end h =
    let rest = IsBetween-le t times end h.1 in let first = h.0 in omega arith

add_times : (l t end r : ℕ) → l ≤ t → t ≤ end → (end - l) * r ≡ (t - l) * r + (end - t) * r
add_times l t end r h k =
    let sum : end - l ≡ (t - l) + (end - t) = omega arith in rw sum (add-mul (t - l) (end - t) r)

refilled-le : (c n : ℕ) → refilled c n ≤ n
refilled-le c n = ground arith

spent_one : (s m : ℕ) → leb s m ≡ true → spent s m + s ≡ m
spent_one s m h = ground arith

spent_none : (s m : ℕ) → leb s m ≡ false → spent s m ≡ m
spent_none s m h = ground arith

-- With the time that is to come named by itself, the rest is linear.
spend_linear :
    (s m y n b : ℕ) → m ≤ y → n * s ≤ spent s m + b → (if leb s m then 1 + n else n) * s ≤ y + b
spend_linear s m y n b h bound = elim (Bool-cases (leb s m)) [
  | inl allowed ↦ let paid = spent_one s m allowed in rw (allowed, add-mul 1 n s) (omega arith)
  | inr limited ↦ let kept = spent_none s m limited in rw limited (omega arith)
]

spend_bound :
    (x l c r s t n end : ℕ)
    → l ≤ t
    → t ≤ end
    → n * s ≤ spent s (refilled c (x + (t - l) * r)) + (end - t) * r
    → (if leb s (refilled c (x + (t - l) * r)) then 1 + n else n) * s ≤ x + (end - l) * r
spend_bound x l c r s t n end h k bound =
    let total : x + (end - l) * r ≡ x + (t - l) * r + (end - t) * r =
      ap (λ (z : ℕ). x + z) (add_times l t end r h k)
      ∙ sym (add_assoc x ((t - l) * r) ((end - t) * r)) in
    rw total (
      spend_linear s (refilled c (x + (t - l) * r)) (x + (t - l) * r) n ((end - t) * r)
        (refilled-le c (x + (t - l) * r)) bound)

-- Between two times the bucket allows no more than what it held and what came back: `n` requests
-- cost at most the tokens at the start and the tokens of the time that went by.
pub rate_is_limited :
    (x l c r s end : ℕ) (times : List ℕ)
    → IsBetween l times end
    → (run_requests (bucket x l c r s) times).1 * s ≤ x + (end - l) * r
rate_is_limited x l c r s end [] h = omega arith
rate_is_limited x l c r s end (t ∷ times) h = rw (consume-bucket x l c r s t h.0) (
    spend_bound x l c r s t _ end h.0 (IsBetween-le t times end h.1)
      (rate_is_limited (spent s (refilled c (x + (t - l) * r))) t c r s end times h.1))
