-- ===== src/Util/RateLimit/Refund.antt =====
-- A token that is given back at once (src/util/rate-limit.ts).
use nostr_swarm.Util.RateLimit.Bounds.{
  bucket, refill-bucket, consume-bucket, refilled, spent, pos-add, min_ℤ-pos,
}
use nostr_swarm.Util.RateLimit.{TokenBucket, min_ℤ, refill, consume, refund}
use nostr_swarm.Base.{
  leb, on_branches, ℤ, pos, leb_ℤ, ◌+ℤ◌, ℕ, ◌+◌, ◌-◌, ◌*◌, ◌≤◌, ◌≡◌, refl, sym, ap, ◌∙◌, Bool, true,
  false, arith,
}

no_time : (t r : ℕ) → (t - t) * r ≡ 0
no_time t r = let gone : t - t ≡ 0 = omega arith in rw gone (omega arith)

refilled-capped : (c n : ℕ) → refilled c n ≤ c
refilled-capped c n = ground arith

given_back : (c s n : ℕ) → n ≤ c → leb s n ≡ true → refilled c (refilled c (spent s n) + s) ≡ n
given_back c s n h k = ground arith

refund-bucket :
    (x c r s t : ℕ)
    → refund (bucket x t c r s) (pos t) ≡ bucket (refilled c (refilled c x + s)) t c r s
unfolding refund
refund-bucket x c r s t =
    ap (λ (b : TokenBucket). record b { tokens = min_ℤ (pos b.capacity) (b.tokens +ℤ pos b.scale) })
      (refill-bucket x t c r s t (omega arith)
        ∙ ap (λ (n : ℕ). bucket (refilled c n) t c r s)
            (ap (λ (n : ℕ). x + n) (no_time t r) ∙ omega arith))
    ∙ ap (λ (z : ℤ). record (bucket 0 t c r s) { tokens = z })
        (ap (min_ℤ (pos c)) (pos-add (refilled c x) s) ∙ min_ℤ-pos c (refilled c x + s))

-- What is refunded at the time of the request leaves the bucket as if nothing had been asked of it.
pub refund-consume :
    (x l c r s t : ℕ)
    → l ≤ t
    → (consume (bucket x l c r s) (pos t)).1 ≡ true
    → refund (consume (bucket x l c r s) (pos t)).0 (pos t) ≡ refill (bucket x l c r s) (pos t)
refund-consume x l c r s t h allowed =
    let n : ℕ = refilled c (x + (t - l) * r) in
    let within : leb s n ≡ true =
      sym (ap (λ (p : TokenBucket × Bool). p.1) (consume-bucket x l c r s t h)) ∙ allowed in
    ap (λ (p : TokenBucket × Bool). refund p.0 (pos t)) (consume-bucket x l c r s t h)
    ∙ refund-bucket (spent s n) c r s t
    ∙ ap (λ (m : ℕ). bucket m t c r s) (given_back c s n (refilled-capped c _) within)
    ∙ sym (refill-bucket x l c r s t h)

-- A request that is not let through costs nothing.
pub limited-consume :
    (b : TokenBucket) (now : ℤ) → (consume b now).1 ≡ false → (consume b now).0 ≡ refill b now
unfolding consume
limited-consume b now =
    on_branches (λ (p : TokenBucket × Bool). p.1 ≡ false → p.0 ≡ refill b now)
      (leb_ℤ (pos (refill b now).scale) (refill b now).tokens) _ _ (λ allowed h. absurd cc)
      (λ limited h. refl)
