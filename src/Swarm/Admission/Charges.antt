-- ===== src/Swarm/Admission/Charges.antt =====
-- What an admission request costs the granter (src/swarm/admission.ts, src/util/rate-limit.ts).
use nostr_swarm.Storage.Client.{
  is_admitted_writer, append_op, is_base_key, Admission, admit_writer, Client, appended,
  already_admitted, cap_reached, not_writable, invalid_writer_key,
}
use nostr_swarm.Swarm.Admission.{
  is_proof, wants_writer, admission_version, refuse, granted, settle, attempt, check_proof,
  evaluate_admission_request, Evaluation, AdmissionRequest,
}
use nostr_swarm.Storage.Store.Ops.{Action, max_writers, is_writer_key, Bytes}
use nostr_swarm.Storage.Store.{count_writers, is_admitted}
use nostr_swarm.Util.RateLimit.{TokenBucket, consume, refill}
use nostr_swarm.Util.RateLimit.Bounds.{bucket}
use nostr_swarm.Util.RateLimit.Refund.{refund-consume, limited-consume}
use nostr_swarm.Hyperbee.{Hyperbee}
use nostr_swarm.Base.{
  leb, ◌==◌, on_branches, Text, text, pos, ℕ, ◌≤◌, ◌≡◌, refl, ◌⊎◌, inl, inr, Bool, true, false, not,
  ◌&&◌, Option, none, some, arith,
}

module _ (bee : Hyperbee) (hmac : Bytes → Bytes → Bytes) (to_lower_case : Text → Text)
    (s : Client bee) (tokens last capacity rate scale now : ℕ) where
  abbrev pub before : TokenBucket
  before = bucket tokens last capacity rate scale

  -- Nothing is appended or spent, or a token was there and is spent, an add_writer is appended, and
  -- the reply is a grant.
  pub IsCharged : Evaluation bee → Type 0
  IsCharged e =
      (e.store ≡ s) × ((e.bucket ≡ before) ⊎ (e.bucket ≡ refill before (pos now)))
      ⊎ ((key : Text) × ((consume before (pos now)).1 ≡ true)
          × (e.store ≡ append_op bee s (Action.add_writer key) none false)
          × (e.bucket ≡ (consume before (pos now)).0)
          × (e.reply ≡ some granted))

  refuse-IsCharged : (reason : Text) → IsCharged (refuse bee hmac to_lower_case s before reason)
  unfolding IsCharged
  refuse-IsCharged reason = inl (refl, inl refl)

  settle-IsCharged :
      (key : Text)
      → last ≤ now
      → s.writable ≡ true
      → is_writer_key (to_lower_case key) ≡ true
      → (consume before (pos now)).1 ≡ true
      → IsCharged (
          settle bee hmac to_lower_case
            (pos now)
            (consume before (pos now)).0
            (admit_writer bee to_lower_case s key))
  unfolding admit_writer IsCharged
  settle-IsCharged key later writable valid allowed =
      let back = refund-consume tokens last capacity rate scale now later allowed in
      let by = on_branches (λ (r : Client bee × Admission).
        IsCharged (settle bee hmac to_lower_case (pos now) (consume before (pos now)).0 r)) in
      by (not s.writable) (s, not_writable) _ (λ shut. absurd (ground (arith, shut, writable)))
        (λ may.
          by (not (is_writer_key (to_lower_case key))) (s, invalid_writer_key) _
            (λ bad. absurd (ground (arith, bad, valid)))
            (λ good.
              by (is_base_key s.base_key (to_lower_case key)) (s, already_admitted) _
                (λ own. inl (refl, inr back))
                (λ other.
                  by (is_admitted (bee.get s.indexes.writers (to_lower_case key)))
                    (s, already_admitted) _ (λ old. inl (refl, inr back))
                    (λ new.
                      by (leb max_writers (count_writers bee s.indexes)) (s, cap_reached)
                        (
                          append_op bee s (Action.add_writer (to_lower_case key)) none false,
                          appended,
                        )
                        (λ full. inl (refl, inr back))
                        (λ fits. inr (to_lower_case key, allowed, refl, refl, refl))))))

  check_proof-IsCharged :
      (key : Text) (o : Option Bool)
      → last ≤ now
      → s.writable ≡ true
      → is_writer_key (to_lower_case key) ≡ true
      → IsCharged (check_proof bee hmac to_lower_case s before (pos now) key o)
  unfolding check_proof attempt IsCharged
  check_proof-IsCharged key none later writable valid =
      refuse-IsCharged (text "connection not ready")
  check_proof-IsCharged key (some false) later writable valid =
      refuse-IsCharged (text "invalid proof")
  check_proof-IsCharged key (some true) later writable valid =
      on_branches IsCharged (is_admitted_writer bee to_lower_case s key)
        (record { store = s; bucket = before; reply = some granted }) _
        (λ known. inl (refl, inl refl))
        (λ new.
          on_branches IsCharged (not (consume before (pos now)).1) _ _
            (λ shut. inl (refl, inr (limited-consume before (pos now) (ground (arith, shut)))))
            (λ paid. settle-IsCharged key later writable valid (ground (arith, paid))))

  -- A token is spent only on an operation that is appended: an evaluation that leaves the store as it
  -- was leaves the bucket as it was, or as it is once refilled; any other found a token, takes it,
  -- appends one add_writer, and its reply is a grant. (The bucket's fill and clock are not negative,
  -- the clock does not go back, and the mapping to lower case changes nothing the second time.)
  pub evaluation-IsCharged :
      (handshake_hash : Option Bytes) (req : AdmissionRequest)
      → last ≤ now
      → ((t : Text) → to_lower_case (to_lower_case t) ≡ to_lower_case t)
      → IsCharged
          (evaluate_admission_request bee hmac to_lower_case s handshake_hash req before (pos now))
  unfolding evaluate_admission_request
  evaluation-IsCharged handshake_hash req later twice =
      let by = on_branches IsCharged in
      by (not (req.v == admission_version && wants_writer req.wants)) _ _
        (λ h. refuse-IsCharged (text "malformed request"))
        (λ h.
          by (not (is_writer_key (to_lower_case req.writer_key))) _ _
            (λ h. refuse-IsCharged (text "invalid writer key"))
            (λ valid.
              by (not (is_proof req.proof)) _ _ (λ h. refuse-IsCharged (text "invalid proof"))
                (λ h.
                  by (not s.writable) _ _ (λ h. refuse-IsCharged (text "granter not writable"))
                    (λ w.
                      check_proof-IsCharged (to_lower_case req.writer_key) _ later (ground arith)
                        (ground (arith, twice req.writer_key))))))
