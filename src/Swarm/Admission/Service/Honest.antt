-- ===== src/Swarm/Admission/Service/Honest.antt =====
-- A joiner that holds the invite is admitted (src/swarm/admission.ts).
use nostr_swarm.Swarm.Admission.Service.{send_request, request_of}
use nostr_swarm.Swarm.Admission.{
  AdmissionRequest, Evaluation, compute_admission_proof, admission_version,
  evaluate_admission_request, check_proof, proves, attempt, granted, settle, is_proof, writer,
}
use nostr_swarm.Storage.Client.{
  Client, is_admitted_writer, admit_writer, Admission, appended, already_admitted, cap_reached,
  not_writable, invalid_writer_key, is_base_key, append_op,
}
use nostr_swarm.Storage.Store.{count_writers, is_admitted}
use nostr_swarm.Storage.Store.Ops.{Action, Bytes, to_hex, is_lower_hex, is_writer_key, max_writers}
use nostr_swarm.Util.RateLimit.{TokenBucket, consume}
use nostr_swarm.Hyperbee.{Hyperbee}
use nostr_swarm.Base.{
  leb, on_branches, length, all, Text, eqb_refl, ℤ, ◌≡◌, refl, ap, ap₂, ◌∙◌, Bool, true, false, not,
  Option, none, some, arith,
}
use nostr_swarm.Swarm.Admission.Service.Hex.{
  IsBytes, from_hex-to_hex, length-to_hex, all-to_hex, all-is_hex,
}

module _ (bee : Hyperbee) (hmac : Bytes → Bytes → Bytes) (to_lower_case : Text → Text) where
  -- HMAC-SHA256 gives 32 bytes, and the mapping to lower case leaves lower-case digits.
  abbrev pub IsDigest : Type 0
  IsDigest = (k m : Bytes) → IsBytes (hmac k m) × (length (hmac k m) ≡ 32)

  abbrev pub KeepsLower : Type 0
  KeepsLower = (t : Text) → all is_lower_hex t ≡ true → to_lower_case t ≡ t

  to_hex-is_writer_key :
      (bs : Bytes) → IsBytes bs → length bs ≡ 32 → is_writer_key (to_hex bs) ≡ true
  unfolding is_writer_key
  to_hex-is_writer_key bs h long =
      let digits = all-to_hex bs h in
      let twice = length-to_hex bs in
      let size : length (to_hex bs) ≡ 64 = omega arith in ground (arith, digits, size)

  to_hex-is_proof : (bs : Bytes) → IsBytes bs → length bs ≡ 32 → is_proof (to_hex bs) ≡ true
  unfolding is_proof
  to_hex-is_proof bs h long =
      let digits = all-is_hex (to_hex bs) (all-to_hex bs h) in
      let twice = length-to_hex bs in
      let size : length (to_hex bs) ≡ 64 = omega arith in ground (arith, digits, size)

  attempt-granted :
      (s : Client bee) (bucket : TokenBucket) (now : ℤ) (key : Text)
      → s.writable ≡ true
      → to_lower_case key ≡ key
      → is_writer_key key ≡ true
      → (consume bucket now).1 ≡ true
      → leb max_writers (count_writers bee s.indexes) ≡ false
      → (attempt bee hmac to_lower_case s bucket now key).reply ≡ some granted
  unfolding attempt admit_writer
  attempt-granted s bucket now key writable same valid allowed room =
      let spent : TokenBucket = (consume bucket now).0 in
      let by = on_branches (λ (r : Client bee × Admission).
        (settle bee hmac to_lower_case now spent r).reply ≡ some granted) in
      on_branches (λ (e : Evaluation bee). e.reply ≡ some granted) (not (consume bucket now).1) _ _
        (λ none_left. absurd (ground (arith, none_left, allowed)))
        (λ paid.
          by (not s.writable) (s, not_writable) _ (λ shut. absurd (ground (arith, shut, writable)))
            (λ may.
              by (not (is_writer_key (to_lower_case key))) (s, invalid_writer_key) _
                (λ bad. absurd (cc (bad, ap is_writer_key same ∙ valid)))
                (λ good.
                  by (is_base_key s.base_key (to_lower_case key)) (s, already_admitted) _
                    (λ own. refl)
                    (λ other.
                      by (is_admitted (bee.get s.indexes.writers (to_lower_case key)))
                        (s, already_admitted) _ (λ old. refl)
                        (λ new.
                          by (leb max_writers (count_writers bee s.indexes)) (s, cap_reached)
                            (
                              append_op bee s (Action.add_writer (to_lower_case key)) none false,
                              appended,
                            )
                            (λ full. absurd (cc (full, room))) (λ fits. refl))))))

  module _ (joiner granter : Client bee) (base_key handshake_hash : Bytes) (bucket : TokenBucket)
      (now : ℤ) where
    abbrev pub joiner_key : Text
    joiner_key = to_hex joiner.local_key

    abbrev pub evaluated : AdmissionRequest → Evaluation bee
    evaluated req =
        evaluate_admission_request bee hmac to_lower_case granter (some handshake_hash) req bucket
          now

    abbrev pub made : Bytes
    made = compute_admission_proof hmac base_key handshake_hash joiner.local_key

    made-IsBytes : IsDigest → IsBytes made × (length made ≡ 32)
    unfolding compute_admission_proof
    made-IsBytes digest = digest base_key _

    honest_proof :
        IsDigest
        → IsBytes joiner.local_key
        → proves hmac (some base_key) (some handshake_hash) joiner_key (to_hex made) ≡ some true
    unfolding proves
    honest_proof digest bytes =
        rw (from_hex-to_hex joiner.local_key bytes, from_hex-to_hex made (made-IsBytes digest).0)
          (ap some (eqb_refl made))

    granter_proves :
        KeepsLower
        → IsDigest
        → IsBytes joiner.local_key
        → granter.base_key ≡ some base_key
        → proves hmac granter.base_key
            (some handshake_hash)
            (to_lower_case joiner_key)
            (to_lower_case (to_hex made))
          ≡ some true
    granter_proves lower digest bytes kept =
        ap
          (λ o.
            proves hmac o (some handshake_hash) (to_lower_case joiner_key)
              (to_lower_case (to_hex made)))
          kept
        ∙ ap₂ (proves hmac (some base_key) (some handshake_hash))
            (lower joiner_key (all-to_hex joiner.local_key bytes))
            (lower (to_hex made) (all-to_hex made (made-IsBytes digest).0))
        ∙ honest_proof digest bytes

    checked :
        (key : Text)
        → to_lower_case key ≡ key
        → is_writer_key key ≡ true
        → granter.writable ≡ true
        → (consume bucket now).1 ≡ true
        → leb max_writers (count_writers bee granter.indexes) ≡ false
        → (check_proof bee hmac to_lower_case granter bucket now key (some true)).reply
          ≡ some granted
    unfolding check_proof
    checked key same valid writable allowed room =
        on_branches (λ (e : Evaluation bee). e.reply ≡ some granted)
          (is_admitted_writer bee to_lower_case granter key)
          (record { store = granter; bucket = bucket; reply = some granted })
          (attempt bee hmac to_lower_case granter bucket now key) (λ known. refl)
          (λ new. attempt-granted granter bucket now key writable same valid allowed room)

    believed :
        KeepsLower
        → IsDigest
        → IsBytes joiner.local_key
        → length joiner.local_key ≡ 32
        → granter.base_key ≡ some base_key
        → granter.writable ≡ true
        → (consume bucket now).1 ≡ true
        → leb max_writers (count_writers bee granter.indexes) ≡ false
        → (check_proof bee hmac to_lower_case granter bucket now (to_lower_case joiner_key) (
            proves hmac granter.base_key
              (some handshake_hash)
              (to_lower_case joiner_key)
              (to_lower_case (to_hex made)))).reply
          ≡ some granted
    believed lower digest bytes long kept writable allowed room =
        let same : to_lower_case joiner_key ≡ joiner_key =
          lower joiner_key (all-to_hex joiner.local_key bytes) in
        let valid = ap is_writer_key same ∙ to_hex-is_writer_key joiner.local_key bytes long in
        ap
          (λ (o : Option Bool).
            (check_proof bee hmac to_lower_case granter bucket now (to_lower_case joiner_key)
              o).reply)
          (granter_proves lower digest bytes kept)
        ∙ checked (to_lower_case joiner_key) (ap to_lower_case same) valid writable allowed room

    -- A joiner with the base key of the granter, on a connection they share, sends a request, and a
    -- granter that can write, with a token left and room for a writer, replies to it with a grant. (The
    -- HMAC gives 32 bytes, the joiner's key is 32 bytes, and the mapping to lower case leaves lower-case
    -- digits as they are.)
    pub honest_joiner_is_admitted :
        IsDigest
        → KeepsLower
        → IsBytes joiner.local_key
        → length joiner.local_key ≡ 32
        → joiner.base_key ≡ some base_key
        → granter.base_key ≡ some base_key
        → granter.writable ≡ true
        → (consume bucket now).1 ≡ true
        → leb max_writers (count_writers bee granter.indexes) ≡ false
        → (req : AdmissionRequest) × (send_request bee hmac joiner (some handshake_hash) ≡ some req)
          × ((evaluated req).reply ≡ some granted)
    unfolding send_request evaluate_admission_request
    honest_joiner_is_admitted digest lower bytes long held kept writable allowed room =
        let same : to_lower_case joiner_key ≡ joiner_key =
          lower joiner_key (all-to_hex joiner.local_key bytes) in
        let valid = ap is_writer_key same ∙ to_hex-is_writer_key joiner.local_key bytes long in
        let (octets, size) = made-IsBytes digest in
        let fits : is_proof (to_hex made) ≡ true = to_hex-is_proof made octets size in
        let by = on_branches (λ (e : Evaluation bee). e.reply ≡ some granted) in
        let req : AdmissionRequest = record {
          v = admission_version;
          writer_key = joiner_key;
          wants = writer;
          proof = to_hex made;
        } in
        (
          req,
          ap (λ o. request_of bee hmac joiner o (some handshake_hash)) held,
          by (not (is_writer_key (to_lower_case joiner_key))) _ _
              (λ bad. absurd (ground (arith, bad, valid)))
              (λ good.
                by (not (is_proof (to_hex made))) _ _ (λ bad. absurd (ground (arith, bad, fits)))
                  (λ proof.
                    by (not granter.writable) _ _ (λ shut. absurd (ground (arith, shut, writable)))
                      (λ may. believed lower digest bytes long kept writable allowed room))),
        )
