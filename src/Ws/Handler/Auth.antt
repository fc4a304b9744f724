-- ===== src/Ws/Handler/Auth.antt =====
-- The two copies of the check of an authentication: `handleAuth` of src/ws/handler.ts, and
-- `validateAuth` of src/nostr/nip-42.ts.
use nostr_swarm.Ws.{send_notice, Connection, send_ok}
use nostr_swarm.Nostr.Event.{Verdict, has_name}
use nostr_swarm.Nostr.Json.{Fields, Json, string}
use nostr_swarm.Ws.Handler.{event_id, fields_of, handle_auth, authenticate}
use nostr_swarm.Nostr.Event.Structure.{is_event_structure, typed_event}
use nostr_swarm.Nostr.Auth.{validate_auth, AuthResult}
use nostr_swarm.Base.{
  if◌then◌else◌, Bool-cases, Text, text, ℤ, ◌≡◌, false, Option, none, some, List, ◌∷◌, arith,
}

-- The connection once it has the result of the check.
abbrev pub settle : Connection → Text → Option AuthResult → Connection
settle conn id none = send_notice conn (text "error: internal error")
settle conn id (some result) =
    send_ok (record conn { auth_pubkey = if result.ok then result.pubkey else conn.auth_pubkey })
      (string id) result.ok result.message

module _ (verify_event : Fields → Verdict) (now : ℤ) (conn : Connection) (fs : Fields) where
  abbrev pub checked : Option AuthResult
  checked = validate_auth (λ event. verify_event fs) now (typed_event fs) conn.challenge

  pub authenticate-checked :
      authenticate verify_event now conn fs ≡ settle conn (typed_event fs).id checked
  unfolding authenticate validate_auth has_name
  authenticate-checked = ground arith

-- The handler's own chain of checks does what `validateAuth` says: on a payload of the structure of an
-- event, the client is told the result and the message of `validateAuth`, with the handler's check of
-- the signature and the challenge of this connection, and the connection takes its pubkey exactly if
-- the result is good; where the check of the signature throws, in both, the client is told of an
-- internal error. On any other payload the connection only answers that the structure is bad.
pub handle_auth-validate_auth :
    (verify_event : Fields → Verdict) (now : ℤ) (conn : Connection) (type payload : Json)
    (rest : List Json)
    → handle_auth verify_event now conn (type ∷ payload ∷ rest) ≡ (
        if is_event_structure payload
        then settle conn
            (typed_event (fields_of payload)).id
            (checked verify_event now conn (fields_of payload))
        else send_ok conn (event_id payload) false (text "invalid: bad event structure"))
unfolding handle_auth
handle_auth-validate_auth verify_event now conn type payload rest =
    rw (authenticate-checked verify_event now conn (fields_of payload))
      (ground (arith, Bool-cases (is_event_structure payload)))
