-- ===== src/Swarm/Admission.antt =====
-- The granter's evaluation of an admission request (src/swarm/admission.ts, src/swarm/protocol.ts).
-- `hmac` is HMAC-SHA256 of the runtime; the mapping to lower case is a parameter.
pub mod Charges
pub mod Proofs
pub mod Service
use nostr_swarm.Storage.Client.{
  admit_writer, is_admitted_writer, Admission, Client, appended, already_admitted, cap_reached,
  not_writable, invalid_writer_key,
}
use nostr_swarm.Util.RateLimit.{refund, consume, TokenBucket}
use nostr_swarm.Storage.Store.Ops.{is_writer_key, from_hex, is_lower_hex, Bytes}
use nostr_swarm.Hyperbee.{Hyperbee}
use nostr_swarm.Base.{
  ltb, leb, ◌==◌, if◌then◌else◌, ltb→lt, lt→ltb, ltb_false→le, leb_false→lt, leb→le, le→leb, ==_iff,
  tests, Bool-cases, Option-cases, some-eq, none-ne-some, length, get_elem?, take, drop, replicate,
  length-append, length-take-le, find, keep, any, all, In, In-append_left, In-append_right,
  In-append_cases, All, Text, text, eqb, eqb→eq, eqb_refl, eqb_iff, eqb_comm, text_lt, text_le,
  text_lt_irrefl, text_lt_trans, text_lt_total, text_lt_asymm, text_lt-append, text_le-append,
  starts_with, starts_with-append, includes, includes_text, includes_text→In, In→includes_text, ℤ,
  pos, negsuc, pos_part, neg_part, sub_ℕ, ltb_ℤ, leb_ℤ, eqb_ℤ, leb_ℤ-pos, ◌+ℤ◌, ◌-ℤ◌, to_u32, ℕ,
  zero, suc, ◌+◌, ◌-◌, ◌*◌, ◌/◌, ◌%◌, ◌^◌, ◌≤◌, ◌<◌, ◌≡◌, refl, sym, ap, ap₂, ◌∙◌, subst, ◌≡⟨◌⟩◌,
  ◌∎, ◌≢◌, ◌↔◌, ◌⊎◌, inl, inr, Bool, true, false, not, ◌&&◌, ◌||◌, Option, none, some, List, [],
  ◌∷◌, ◌++◌, map, append_assoc, append-nil, arith,
}

abbrev pub admission_version : ℕ
admission_version = 1

abbrev pub admission_domain : Text
admission_domain = text "nostr-swarm/admit/1"

pub data Wants : Type 0 where
  writer : Wants
  reader : Wants

pub record AdmissionRequest : Type 0 where
  pub v : ℕ
  pub writer_key : Text
  pub wants : Wants
  pub proof : Text

pub record AdmissionReply : Type 0 where
  pub admitted : Bool
  pub reason : Option Text

abbrev pub granted : AdmissionReply
granted = record { admitted = true; reason = none }

abbrev pub refused : Text → AdmissionReply
refused reason = record { admitted = false; reason = some reason }

pub record AdmissionOptions : Type 0 where
  pub request_writer : Bool
  pub auto_admit : Bool

-- Whether the channel is opened at all.
unfoldable pub active : AdmissionOptions → Bool
active opts = opts.request_writer || opts.auto_admit

-- The store, the bucket, and the reply, which is `none` if the call throws.
pub record Evaluation (bee : Hyperbee) : Type 0 where
  pub store : Client bee
  pub bucket : TokenBucket
  pub reply : Option AdmissionReply

abbrev pub wants_writer : Wants → Bool
wants_writer writer = true
wants_writer reader = false

unfoldable pub is_hex : ℕ → Bool
is_hex c = is_lower_hex c || (leb 65 c && leb c 70)

-- `/^[0-9a-f]{64}$/i`
unfoldable pub is_proof : Text → Bool
unfolding is_hex
is_proof s = length s == 64 && all is_hex s

module _ (hmac : Bytes → Bytes → Bytes) where
  unfoldable pub compute_admission_proof : Bytes → Bytes → Bytes → Bytes
  compute_admission_proof base_key handshake_hash writer_key =
      hmac base_key (admission_domain ++ handshake_hash ++ writer_key)

  -- Whether the proof is that of the key on this connection; `none` if either key is not ready.
  unfoldable pub proves : Option Bytes → Option Bytes → Text → Text → Option Bool
  unfolding compute_admission_proof
  proves (some base_key) (some handshake_hash) writer_key proof =
      some (eqb proof_bytes (compute_admission_proof base_key handshake_hash (from_hex writer_key)))
    where
      proof_bytes : Bytes
      proof_bytes = from_hex proof
  proves _ _ writer_key proof = none

module _ (bee : Hyperbee) (hmac : Bytes → Bytes → Bytes) (to_lower_case : Text → Text) where
  -- The end of an evaluation: a token is refunded if the append was a no-op.
  abbrev pub settle : ℤ → TokenBucket → Client bee × Admission → Evaluation bee
  settle now bucket (s, appended) = record { store = s; bucket = bucket; reply = some granted }
  settle now bucket (s, already_admitted) = record {
    store = s;
    bucket = refund bucket now;
    reply = some granted;
  }
  settle now bucket (s, cap_reached) = record {
    store = s;
    bucket = refund bucket now;
    reply = some (refused (text "writer cap reached"));
  }
  settle now bucket (s, not_writable) = record { store = s; bucket = bucket; reply = none }
  settle now bucket (s, invalid_writer_key) = record { store = s; bucket = bucket; reply = none }

  abbrev pub refuse : Client bee → TokenBucket → Text → Evaluation bee
  refuse s bucket reason = record { store = s; bucket = bucket; reply = some (refused reason) }

  -- Spends a token and appends.
  unfoldable pub attempt : Client bee → TokenBucket → ℤ → Text → Evaluation bee
  attempt s bucket now key =
      let (spent, allowed) = consume bucket now in
      if not allowed
      then refuse s spent (text "rate limited")
      else settle now spent (admit_writer bee to_lower_case s key)

  unfoldable pub check_proof : Client bee → TokenBucket → ℤ → Text → Option Bool → Evaluation bee
  check_proof s bucket now key none = refuse s bucket (text "connection not ready")
  check_proof s bucket now key (some false) = refuse s bucket (text "invalid proof")
  check_proof s bucket now key (some true) =
      if is_admitted_writer bee to_lower_case s key
      then record { store = s; bucket = bucket; reply = some granted }
      else attempt s bucket now key

  unfoldable pub evaluate_admission_request :
      Client bee → Option Bytes → AdmissionRequest → TokenBucket → ℤ → Evaluation bee
  evaluate_admission_request s handshake_hash req bucket now =
      let key = to_lower_case req.writer_key in
      if not (req.v == admission_version && wants_writer req.wants)
      then refuse s bucket (text "malformed request")
      else if not (is_writer_key key)
      then refuse s bucket (text "invalid writer key")
      else if not (is_proof req.proof)
      then refuse s bucket (text "invalid proof")
      else if not s.writable
      then refuse s bucket (text "granter not writable")
      else check_proof s bucket now key
          (proves hmac s.base_key handshake_hash key (to_lower_case req.proof))
