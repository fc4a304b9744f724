-- ===== src/Ws/Server/Events.antt =====
-- What an EVENT message makes the relay do (`handleEvent` of src/ws/handler.ts).
use nostr_swarm.Ws.Server.{
  append_to, internal_error, Relay, handle_signed, answer, broadcast_to_subscriptions, is_ephemeral,
}
use nostr_swarm.Base.{
  ◌==◌, on_branches, Text, ℤ, ◌≡◌, refl, sym, subst, true, false, not, ◌&&◌, ◌||◌, [], arith,
}
use nostr_swarm.Nostr.Event.{
  bogus, genuine, thrown, is_genuine, is_thrown, Verdict, NostrEvent, classify_kind, is_expired,
  is_protected,
}
use nostr_swarm.Nostr.Json.{Fields, string}
use nostr_swarm.Nostr.Event.Structure.{typed_event}
use nostr_swarm.Storage.Client.{Client, put_event, delete_event, accepts_optimistic}
use nostr_swarm.Hyperbee.{Hyperbee}

-- What an accepted event does.
pub data Effect : Type 0 where
  delivered : Effect
  put : Effect
  deleted : Effect

genuine_lem : (v : Verdict) → not (is_genuine v) ≡ false → v ≡ genuine
genuine_lem genuine h = refl
genuine_lem bogus h = cc
genuine_lem thrown h = cc

module _ (bee : Hyperbee) (verify_event : Fields → Verdict) (to_lower_case : Text → Text)
    (now_ms now : ℤ) where
  abbrev pub perform : Relay bee → NostrEvent → Effect → Relay bee
  perform s event delivered = record s {
    connections = broadcast_to_subscriptions to_lower_case event s.connections;
  }
  perform s event put = record s { store = put_event bee s.store event }
  perform s event deleted = record s { store = delete_event bee s.store event }

  -- When an event may have an effect.
  abbrev pub MayHave : Client bee → NostrEvent → Effect → Type 0
  MayHave store event delivered = is_ephemeral (classify_kind event.kind) ≡ true
  MayHave store event put =
      (is_ephemeral (classify_kind event.kind) ≡ false)
      × ((event.kind == 5) ≡ false)
      × ((store.writable || accepts_optimistic bee store) ≡ true)
  MayHave store event deleted = ((event.kind == 5) ≡ true) × (store.writable ≡ true)

  -- An event that passes all checks.
  pub record Admissible (fs : Fields) : Type 0 where
    pub verified : verify_event fs ≡ genuine
    pub unexpired : is_expired now (typed_event fs) ≡ false
    pub unprotected : is_protected (typed_event fs) ≡ false

  pub data Handled (s : Relay bee) (key : Text) (fs : Fields) : Relay bee → Type 0 where
    gave_up :
        (is_thrown (verify_event fs) || s.append_fails) ≡ true
        → Handled s key fs (internal_error bee verify_event to_lower_case now_ms now s key)
    refused :
        (message : Text)
        → Handled s key fs (
            answer bee verify_event to_lower_case now_ms now s key
              (string (typed_event fs).id)
              false
              message)
    accepted :
        (effect : Effect)
        → Admissible fs
        → MayHave s.store (typed_event fs) effect
        → Handled s key fs (
            answer bee verify_event to_lower_case now_ms now
              (perform s (typed_event fs) effect)
              key
              (string (typed_event fs).id)
              true
              [])

  appends :
      (s : Relay bee) (key : Text) (fs : Fields) (effect : Effect) (store : Client bee)
      → Admissible fs
      → record s { store = store } ≡ perform s (typed_event fs) effect
      → MayHave s.store (typed_event fs) effect
      → Handled s key fs
          (append_to bee verify_event to_lower_case now_ms now s key (typed_event fs) store)
  appends s key fs effect store ok same may =
      on_branches (Handled s key fs) s.append_fails _ _ (λ fails. gave_up (ground (arith, fails)))
        (λ works.
          subst
            (λ t. Handled s key fs (
              answer bee verify_event to_lower_case now_ms now t key (string (typed_event fs).id)
                true []))
            (sym same) (accepted effect ok may))

  pub handle_signed-Handled :
      (s : Relay bee) (key : Text) (fs : Fields)
      → Handled s key fs (handle_signed bee verify_event to_lower_case now_ms now s key fs)
  unfolding handle_signed
  handle_signed-Handled s key fs =
      let event = typed_event fs in
      let by = on_branches (Handled s key fs) in
      by (is_thrown (verify_event fs)) _ _ (λ threw. gave_up (ground (arith, threw)))
        (λ quiet.
          by (not (is_genuine (verify_event fs))) _ _ (λ bad. refused _)
            (λ good.
              by (is_expired now event) _ _ (λ old. refused _)
                (λ alive.
                  by (is_protected event) _ _ (λ kept. refused _)
                    (λ free.
                      let ok : Admissible fs = record {
                        verified = genuine_lem (verify_event fs) good;
                        unexpired = alive;
                        unprotected = free;
                      } in
                      by (is_ephemeral (classify_kind event.kind)) _ _ (accepted delivered ok)
                        (λ lasting.
                          by (not s.store.writable) _ _
                            (λ reader.
                              by (not (event.kind == 5) && accepts_optimistic bee s.store) _ _
                                (λ opted.
                                  appends s key fs put (put_event bee s.store event) ok refl
                                    (lasting, ground (arith, opted), ground (arith, opted)))
                                (λ shut. refused _))
                            (λ writer.
                              by (event.kind == 5) _ _
                                (λ deletes.
                                  appends s key fs deleted (delete_event bee s.store event) ok refl
                                    (deletes, ground (arith, writer)))
                                (λ stores.
                                  appends s key fs put (put_event bee s.store event) ok refl
                                    (lasting, stores, ground (arith, writer)))))))))
