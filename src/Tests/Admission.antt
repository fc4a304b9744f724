-- ===== src/Tests/Admission.antt =====
-- Instances of the theorems on admission, with a constant code in place of HMAC.
use nostr_swarm.Storage.Client.{is_admitted_writer, admit_writer, Client}
use nostr_swarm.Storage.Client.Admit.{apply_add_writer-admit_writer, is_appended}
use nostr_swarm.Storage.Store.Ops.{to_hex, Bytes}
use nostr_swarm.Swarm.Admission.Proofs.{unproven_is_inert, request-replies, evaluation}
use nostr_swarm.Swarm.Admission.Service.{send_request}
use nostr_swarm.Swarm.Admission.Service.Honest.{honest_joiner_is_admitted, evaluated}
use nostr_swarm.Swarm.Admission.Service.Hex.{IsBytes}
use nostr_swarm.Swarm.Admission.Service.Limits.{serve_all-IsLimited, serve_all, IsLimited}
use nostr_swarm.Swarm.Admission.{
  AdmissionOptions, evaluate_admission_request, granted, refused, writer, AdmissionReply,
  AdmissionRequest,
}
use nostr_swarm.Swarm.Admission.Charges.{evaluation-IsCharged, IsCharged, before}
use nostr_swarm.Tests.Data.{start, host_key}
use nostr_swarm.Storage.Store.{apply_add_writer, count_writers}
use nostr_swarm.Hyperbee.Sorted.{sorted_hyperbee}
use nostr_swarm.Storage.Indexes.{create_subs}
use nostr_swarm.Base.Int.{◌+ℤ◌, ◌-ℤ◌}
use nostr_swarm.Util.RateLimit.{consume, refill, new_bucket, TokenBucket}
use nostr_swarm.Base.{
  if◌then◌else◌, replicate, Text, pos, ◌+ℤ◌, ◌-ℤ◌, ◌≡◌, refl, Bool, true, false, some, [], ◌∷◌,
  arith,
}

abbrev constant_mac : Bytes → Bytes → Bytes
constant_mac k b = replicate 32 0

abbrev same_case : Text → Text
same_case t = t

abbrev joiner : Text
joiner = replicate 64 57

abbrev granter : Bool → Client sorted_hyperbee
granter writable = record {
  base_key = some host_key;
  local_key = host_key;
  writable = writable;
  indexes = start.view;
  sent = [];
}

abbrev request : AdmissionRequest
request = record { v = 1; writer_key = joiner; wants = writer; proof = replicate 64 48 }

abbrev bucket : TokenBucket
bucket = new_bucket 16 16 3600000 (pos 0)

abbrev admits : AdmissionOptions
admits = record { request_writer = false; auto_admit = true }

unproven_is_inert_example :
    ((evaluation sorted_hyperbee constant_mac same_case
        (granter false)
        (some [])
        request
        bucket
        (pos 5)).store
      ≡ granter false)
    × ((evaluation sorted_hyperbee constant_mac same_case
          (granter false)
          (some [])
          request
          bucket
          (pos 5)).bucket
        ≡ bucket)
    × ((reason : Text) × ((evaluation sorted_hyperbee constant_mac same_case
            (granter false)
            (some [])
            request
            bucket
            (pos 5)).reply
          ≡ some (refused reason)))
unproven_is_inert_example =
    unproven_is_inert sorted_hyperbee constant_mac same_case (granter false) (some []) request
      bucket (pos 5) (λ p. cc (p.0))

request-replies_example :
    (reply : AdmissionReply) × ((evaluation sorted_hyperbee constant_mac same_case
        (granter true)
        (some [])
        request
        bucket
        (pos 5)).reply
      ≡ some reply)
request-replies_example =
    request-replies sorted_hyperbee constant_mac same_case (granter true) (some []) request bucket
      (pos 5) (λ t. refl)

apply_add_writer-admit_writer_example :
    sorted_hyperbee.get
      (apply_add_writer sorted_hyperbee host_key start joiner host_key).writers
      joiner
    ≡ (if is_appended (admit_writer sorted_hyperbee same_case (granter true) joiner).1
        then some (to_hex host_key)
        else sorted_hyperbee.get start.writers joiner)
apply_add_writer-admit_writer_example =
    apply_add_writer-admit_writer sorted_hyperbee host_key same_case (granter true) start joiner
      host_key refl refl refl

abbrev newcomer : Client sorted_hyperbee
newcomer = record {
  base_key = some host_key;
  local_key = replicate 32 9;
  writable = false;
  indexes = start.view;
  sent = [];
}

zeros : IsBytes (replicate 32 0)
zeros = ground arith

nines : IsBytes (replicate 32 9)
nines = ground arith

honest_joiner_is_admitted_example :
    (req : AdmissionRequest) × (send_request sorted_hyperbee constant_mac newcomer (some [])
      ≡ some req)
    × ((evaluated sorted_hyperbee constant_mac same_case newcomer
          (granter true)
          host_key
          []
          bucket
          (pos 5)
          req).reply
        ≡ some granted)
unfolding is_admitted_writer consume refill new_bucket ◌+ℤ◌ ◌-ℤ◌ count_writers sorted_hyperbee
    create_subs
honest_joiner_is_admitted_example =
    honest_joiner_is_admitted sorted_hyperbee constant_mac same_case newcomer (granter true)
      host_key [] bucket (pos 5) (λ k m. (zeros, refl)) (λ t h. refl) nines refl refl refl refl refl
      refl

serve_all-IsLimited_example :
    IsLimited
      (serve_all sorted_hyperbee constant_mac same_case admits
        (some [])
        (
          record {
            store = granter true;
            bucket = bucket;
            request_budget = new_bucket 64 8 1000 (pos 0);
          },
          record { requests_handled = 0; replies = [] },
        )
        ((request, pos 5) ∷ (request, pos 6) ∷ [])).1
serve_all-IsLimited_example =
    serve_all-IsLimited sorted_hyperbee constant_mac same_case admits (some [])
      (record {
        store = granter true;
        bucket = bucket;
        request_budget = new_bucket 64 8 1000 (pos 0);
      })
      ((request, pos 5) ∷ (request, pos 6) ∷ [])

evaluation-IsCharged_example :
    IsCharged sorted_hyperbee constant_mac same_case
      (granter true)
      57600000
      0
      57600000
      16
      3600000
      5
      (evaluate_admission_request sorted_hyperbee constant_mac same_case
        (granter true)
        (some [])
        request
        (before sorted_hyperbee constant_mac same_case
          (granter true)
          57600000
          0
          57600000
          16
          3600000
          5)
        (pos 5))
evaluation-IsCharged_example =
    evaluation-IsCharged sorted_hyperbee constant_mac same_case (granter true) 57600000 0 57600000
      16 3600000 5 (some []) request (omega arith) (λ t. refl)
