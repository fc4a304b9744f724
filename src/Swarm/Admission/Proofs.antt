-- ===== src/Swarm/Admission/Proofs.antt =====
-- An admission request needs a proof of the invite, and always has a reply.
use nostr_swarm.Storage.Client.{
  is_admitted_writer, append_op, is_base_key, Admission, admit_writer, Client, appended,
  already_admitted, cap_reached, not_writable, invalid_writer_key,
}
use nostr_swarm.Swarm.Admission.{
  consume, is_proof, wants_writer, admission_version, refuse, granted, settle, AdmissionReply,
  attempt, refused, check_proof, evaluate_admission_request, proves, Evaluation, TokenBucket,
  AdmissionRequest,
}
use nostr_swarm.Storage.Store.Ops.{Action, max_writers, is_writer_key, Bytes}
use nostr_swarm.Storage.Store.{count_writers, is_admitted}
use nostr_swarm.Hyperbee.{Hyperbee}
use nostr_swarm.Base.{
  leb, ◌==◌, on_branches, Text, text, ℤ, ◌≡◌, refl, ◌≢◌, Bool, true, false, not, ◌&&◌, Option, none,
  some, arith,
}

clash : (b : Bool) → b ≡ true → not b ≡ true → ⊥
clash b h k = ground arith

module _ (bee : Hyperbee) (hmac : Bytes → Bytes → Bytes) (to_lower_case : Text → Text)
    (s : Client bee) (handshake_hash : Option Bytes) (req : AdmissionRequest) (bucket : TokenBucket)
    (now : ℤ) where
  abbrev pub evaluation : Evaluation bee
  evaluation = evaluate_admission_request bee hmac to_lower_case s handshake_hash req bucket now

  -- The proof holds for the key that asks, on this connection, at a store that can write.
  abbrev pub IsProven : Type 0
  IsProven =
      (s.writable ≡ true)
      × (proves hmac s.base_key handshake_hash (to_lower_case req.writer_key)
            (to_lower_case req.proof)
          ≡ some true)

  IsInert : Evaluation bee → Type 0
  IsInert e =
      (e.store ≡ s) × (e.bucket ≡ bucket) × ((reason : Text) × (e.reply ≡ some (refused reason)))

  refuse-IsInert : (reason : Text) → IsInert (refuse bee hmac to_lower_case s bucket reason)
  unfolding IsInert
  refuse-IsInert reason = (refl, refl, (reason, refl))

  check_proof-IsInert :
      (key : Text) (o : Option Bool)
      → o ≢ some true
      → IsInert (check_proof bee hmac to_lower_case s bucket now key o)
  unfolding check_proof
  check_proof-IsInert key none h = refuse-IsInert (text "connection not ready")
  check_proof-IsInert key (some false) h = refuse-IsInert (text "invalid proof")
  check_proof-IsInert key (some true) h = elim (h refl) [ ]

  evaluation-IsInert : ¬ IsProven → IsInert evaluation
  unfolding evaluate_admission_request
  evaluation-IsInert unproven =
      on_branches IsInert (not (req.v == admission_version && wants_writer req.wants)) _ _
        (λ h. refuse-IsInert (text "malformed request"))
        (λ h.
          on_branches IsInert (not (is_writer_key (to_lower_case req.writer_key))) _ _
            (λ h. refuse-IsInert (text "invalid writer key"))
            (λ h.
              on_branches IsInert (not (is_proof req.proof)) _ _
                (λ h. refuse-IsInert (text "invalid proof"))
                (λ h.
                  on_branches IsInert (not s.writable) _ _
                    (λ h. refuse-IsInert (text "granter not writable"))
                    (λ (w : not s.writable ≡ false).
                      check_proof-IsInert (to_lower_case req.writer_key) _
                        (λ e. unproven (ground arith, e))))))

  -- Without a proof of the invite for this key and connection, nothing is appended, no token is
  -- spent, and the reply is a refusal; the same on a store that is not writable.
  pub unproven_is_inert :
      ¬ IsProven
      → (evaluation.store ≡ s)
        × (evaluation.bucket ≡ bucket)
        × ((reason : Text) × (evaluation.reply ≡ some (refused reason)))
  unfolding IsInert
  unproven_is_inert unproven = evaluation-IsInert unproven

  HasReply : Evaluation bee → Type 0
  HasReply e = (reply : AdmissionReply) × (e.reply ≡ some reply)

  replies : (e : Evaluation bee) (reply : AdmissionReply) → e.reply ≡ some reply → HasReply e
  unfolding HasReply
  replies e reply h = (reply, h)

  settle-HasReply :
      (t : TokenBucket) (key : Text)
      → s.writable ≡ true
      → is_writer_key (to_lower_case key) ≡ true
      → HasReply (settle bee hmac to_lower_case now t (admit_writer bee to_lower_case s key))
  unfolding admit_writer
  settle-HasReply t key w valid =
      let P : Client bee × Admission → Type 0 =
        (λ r. HasReply (settle bee hmac to_lower_case now t r)) in
      on_branches P (not s.writable) (s, not_writable) _ (λ h. elim (clash s.writable w h) [ ])
        (λ h.
          on_branches P (not (is_writer_key (to_lower_case key))) (s, invalid_writer_key) _
            (λ h. elim (clash (is_writer_key (to_lower_case key)) valid h) [ ])
            (λ h.
              on_branches P (is_base_key s.base_key (to_lower_case key)) (s, already_admitted) _
                (λ h. replies _ granted refl)
                (λ h.
                  on_branches P (is_admitted (bee.get s.indexes.writers (to_lower_case key)))
                    (s, already_admitted) _ (λ h. replies _ granted refl)
                    (λ h.
                      on_branches P (leb max_writers (count_writers bee s.indexes)) (s, cap_reached)
                        (
                          append_op bee s (Action.add_writer (to_lower_case key)) none false,
                          appended,
                        )
                        (λ h. replies _ (refused (text "writer cap reached")) refl)
                        (λ h. replies _ granted refl)))))

  check_proof-HasReply :
      (key : Text) (o : Option Bool)
      → s.writable ≡ true
      → is_writer_key (to_lower_case key) ≡ true
      → HasReply (check_proof bee hmac to_lower_case s bucket now key o)
  unfolding check_proof attempt
  check_proof-HasReply key none w valid = replies _ (refused (text "connection not ready")) refl
  check_proof-HasReply key (some false) w valid = replies _ (refused (text "invalid proof")) refl
  check_proof-HasReply key (some true) w valid =
      let kept : Evaluation bee = record { store = s; bucket = bucket; reply = some granted } in
      let spent : TokenBucket = (consume bucket now).0 in
      on_branches HasReply (is_admitted_writer bee to_lower_case s key) kept _
        (λ h. replies kept granted refl)
        (λ h.
          on_branches HasReply (not (consume bucket now).1)
            (refuse bee hmac to_lower_case s spent (text "rate limited"))
            (settle bee hmac to_lower_case now spent (admit_writer bee to_lower_case s key))
            (λ h. replies _ (refused (text "rate limited")) refl)
            (λ h. settle-HasReply spent key w valid))

  evaluation-HasReply :
      ((t : Text) → to_lower_case (to_lower_case t) ≡ to_lower_case t) → HasReply evaluation
  unfolding evaluate_admission_request
  evaluation-HasReply twice =
      on_branches HasReply (not (req.v == admission_version && wants_writer req.wants)) _ _
        (λ h. replies _ (refused (text "malformed request")) refl)
        (λ h.
          on_branches HasReply (not (is_writer_key (to_lower_case req.writer_key))) _ _
            (λ h. replies _ (refused (text "invalid writer key")) refl)
            (λ valid.
              on_branches HasReply (not (is_proof req.proof)) _ _
                (λ h. replies _ (refused (text "invalid proof")) refl)
                (λ h.
                  on_branches HasReply (not s.writable) _ _
                    (λ h. replies _ (refused (text "granter not writable")) refl)
                    (λ w.
                      check_proof-HasReply (to_lower_case req.writer_key) _ (ground arith)
                        (ground (arith, twice req.writer_key))))))

  -- Every request has a reply: the exceptions of `admitWriter` cannot happen here. The mapping to
  -- lower case changes nothing the second time.
  pub request-replies :
      ((t : Text) → to_lower_case (to_lower_case t) ≡ to_lower_case t)
      → (reply : AdmissionReply) × (evaluation.reply ≡ some reply)
  unfolding HasReply
  request-replies twice = evaluation-HasReply twice
