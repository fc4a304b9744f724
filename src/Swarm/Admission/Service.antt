-- ===== src/Swarm/Admission/Service.antt =====
-- The two sides of the admission channel (`AdmissionService` of src/swarm/admission.ts): the request of
-- a joiner, and the budgets of a granter. The channel itself is the package protomux's.
pub mod Hex
pub mod Honest
pub mod Limits
use nostr_swarm.Swarm.Admission.{
  AdmissionRequest, AdmissionReply, AdmissionOptions, Evaluation, compute_admission_proof,
  admission_version, evaluate_admission_request, writer,
}
use nostr_swarm.Storage.Client.{Client}
use nostr_swarm.Storage.Store.Ops.{Bytes, to_hex}
use nostr_swarm.Util.RateLimit.{TokenBucket, consume}
use nostr_swarm.Hyperbee.{Hyperbee}
use nostr_swarm.Base.{
  ltb, leb, ◌==◌, if◌then◌else◌, ltb→lt, lt→ltb, ltb_false→le, leb_false→lt, leb→le, le→leb, ==_iff,
  tests, Bool-cases, on_branches, Option-cases, some-eq, none-ne-some, length, get_elem?, take,
  drop, replicate, length-append, length-take-le, find, keep, any, all, In, In-append_left,
  In-append_right, In-append_cases, All, Text, text, eqb, eqb→eq, eqb_refl, eqb_iff, eqb_comm,
  text_lt, text_le, text_lt_irrefl, text_lt_trans, text_lt_total, text_lt_asymm, text_lt-append,
  text_le-append, starts_with, starts_with-append, includes, includes_text, includes_text→In,
  In→includes_text, ℤ, pos, negsuc, pos_part, neg_part, sub_ℕ, ltb_ℤ, leb_ℤ, eqb_ℤ, leb_ℤ-pos, ◌+ℤ◌,
  ◌-ℤ◌, to_u32, ℕ, zero, suc, ◌+◌, ◌-◌, ◌*◌, ◌/◌, ◌%◌, ◌^◌, ◌≤◌, ◌<◌, ◌≡◌, refl, sym, ap, ap₂, ◌∙◌,
  subst, ◌≡⟨◌⟩◌, ◌∎, ◌≢◌, ◌↔◌, ◌⊎◌, inl, inr, Bool, true, false, not, ◌&&◌, ◌||◌, Option, none,
  some, List, [], ◌∷◌, ◌++◌, map, append_assoc, append-nil, arith,
}

abbrev pub max_requests_per_conn : ℕ
max_requests_per_conn = 16

-- What a granter keeps: over all connections, and of one connection how many requests it took.
pub record Granter (bee : Hyperbee) : Type 0 where
  pub store : Client bee
  pub bucket : TokenBucket
  pub request_budget : TokenBucket

pub record Channel : Type 0 where
  pub requests_handled : ℕ
  pub replies : List AdmissionReply

abbrev add_reply : Channel → Option AdmissionReply → Channel
add_reply channel none = channel
add_reply channel (some reply) = record channel { replies = channel.replies ++ reply ∷ [] }

module _ (bee : Hyperbee) (hmac : Bytes → Bytes → Bytes) where
  -- The request of a joiner, once its base and the connection are ready.
  abbrev pub request_of : Client bee → Option Bytes → Option Bytes → Option AdmissionRequest
  request_of s (some base_key) (some handshake_hash) = some (record {
    v = admission_version;
    writer_key = to_hex s.local_key;
    wants = writer;
    proof = to_hex (compute_admission_proof hmac base_key handshake_hash s.local_key);
  })
  request_of s _ _ = none

  unfoldable pub send_request : Client bee → Option Bytes → Option AdmissionRequest
  unfolding compute_admission_proof
  send_request s handshake_hash = request_of s s.base_key handshake_hash

  -- What a joiner sends when the channel opens.
  unfoldable pub on_channel_open :
      AdmissionOptions → Client bee → Option Bytes → Option AdmissionRequest
  unfolding send_request
  on_channel_open opts s handshake_hash =
      if opts.request_writer && not s.writable then send_request s handshake_hash else none

  module _ (to_lower_case : Text → Text) where
    unfoldable pub handle_request :
        Granter bee → Channel → Option Bytes → AdmissionRequest → ℤ → Granter bee × Channel
    unfolding evaluate_admission_request
    handle_request g channel handshake_hash req now =
        let e : Evaluation bee =
          evaluate_admission_request bee hmac to_lower_case g.store handshake_hash req g.bucket
            now in
        (record g { store = e.store; bucket = e.bucket }, add_reply channel e.reply)

    unfoldable pub on_request :
        AdmissionOptions
        → Granter bee
        → Channel
        → Option Bytes
        → AdmissionRequest
        → ℤ
        → Granter bee × Channel
    unfolding handle_request
    on_request opts g channel handshake_hash req now =
        if not opts.auto_admit
        then (g, channel)
        else if leb max_requests_per_conn channel.requests_handled
        then (g, channel)
        else (let counted = record channel { requests_handled = channel.requests_handled + 1 } in
            let (budget, allowed) = consume g.request_budget now in
            let charged = record g { request_budget = budget } in
            if not allowed
            then (charged, counted)
            else handle_request charged counted handshake_hash req now)
