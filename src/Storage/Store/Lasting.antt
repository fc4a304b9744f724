-- ===== src/Storage/Store/Lasting.antt =====
-- How long a deletion of src/storage/store.ts lasts.
use nostr_swarm.Storage.Store.Deletions.{
  deletion-apply_put, events-apply_put_ne, deletion-apply_delete, events-apply_delete, unless_own,
}
use nostr_swarm.Storage.Store.Effects.{apply_put_cases}
use nostr_swarm.Storage.Store.{apply_put, apply_delete, is_valid, blocked}
use nostr_swarm.Storage.Store.Ops.{State, Bytes}
use nostr_swarm.Storage.Indexes.{tombstone}
use nostr_swarm.Nostr.Deletion.{e_targets}
use nostr_swarm.Nostr.Event.{NostrEvent, Verdict}
use nostr_swarm.Hyperbee.{Hyperbee}
use nostr_swarm.Base.{
  Bool-cases, All, Text, eqb, eqb→eq, eqb_iff, includes_text, ◌≡◌, sym, ap, ◌∙◌, ◌≢◌, inl, inr,
  true, false, none, some, List, [], ◌∷◌, arith,
}

module _ (bee : Hyperbee) (host_key : Bytes) (verify_event : NostrEvent → Verdict) where
  -- Puts, one after another.
  pub apply_puts : State bee → List NostrEvent → State bee
  apply_puts s [] = s
  apply_puts s (e ∷ es) = apply_puts (apply_put bee verify_event s e) es

  -- The id of an event fixes its author: those among the events with this id have this author.
  abbrev pub HaveAuthor : Text → Text → List NostrEvent → Type 0
  HaveAuthor id pubkey es = All (λ e. e.id ≡ id → e.pubkey ≡ pubkey) es

  -- The id has a tombstone, and no event.
  abbrev IsGone : Text → Text → Text → State bee → Type 0
  IsGone deleter id pubkey t =
      (bee.get t.deletion id ≡ some (tombstone deleter pubkey)) × (bee.get t.events id ≡ none)

  apply_put-IsGone :
      (deleter id pubkey : Text) (t : State bee) (e : NostrEvent)
      → (e.id ≡ id → e.pubkey ≡ pubkey)
      → IsGone deleter id pubkey t
      → IsGone deleter id pubkey (apply_put bee verify_event t e)
  unfolding blocked
  apply_put-IsGone deleter id pubkey t e author (dead, gone) =
      let kept : bee.get (apply_put bee verify_event t e).deletion id
          ≡ some (tombstone deleter pubkey) =
        ap (λ d. bee.get d id) (deletion-apply_put bee host_key verify_event t e t e) ∙ dead in
      elim (apply_put_cases bee verify_event t e) [
        | inl same ↦ (kept, ap (λ x. bee.get x.events id) same ∙ gone)
        | inr st ↦ elim (Bool-cases (eqb e.id id)) [
          | inl here ↦
              let is = eqb→eq e.id id here in
              let stays : blocked (some (tombstone deleter pubkey)) e ≡ false =
                ap (λ o. blocked o e) (sym (ap (λ k. bee.get t.deletion k) is ∙ dead))
                ∙ st.unblocked in
              let own = author is in absurd (ground (arith, stays, eqb_iff pubkey e.pubkey, own))
          | inr other ↦ (
            kept,
            events-apply_put_ne bee host_key verify_event t e t e id
                  (λ is. ground (arith, other, eqb_iff e.id id, is))
                ∙ gone,
          )
        ]
      ]

  apply_puts-IsGone :
      (deleter id pubkey : Text) (t : State bee) (es : List NostrEvent)
      → HaveAuthor id pubkey es
      → IsGone deleter id pubkey t
      → IsGone deleter id pubkey (apply_puts t es)
  unfolding apply_puts
  apply_puts-IsGone deleter id pubkey t [] authors h = h
  apply_puts-IsGone deleter id pubkey t (e ∷ es) authors h =
      apply_puts-IsGone deleter id pubkey (apply_put bee verify_event t e) es authors.1
        (apply_put-IsGone deleter id pubkey t e authors.0 h)

  -- After a valid deletion of an id by the author of its event, the id has no event, and has none
  -- after any puts that follow, of whatever events in whatever order, where those with this id are by
  -- the same author. (The deletion is not its own target, and what is stored under the id before it is
  -- its author's or nothing. Another deletion in between can replace the tombstone.)
  pub deletion_outlasts_puts :
      (s : State bee) (d : NostrEvent) (id : Text) (es : List NostrEvent)
      → is_valid verify_event d ≡ true
      → includes_text (e_targets d.tags) id ≡ true
      → d.id ≢ id
      → unless_own d (bee.get s.events id) ≡ none
      → HaveAuthor id d.pubkey es
      → bee.get (apply_puts (apply_delete bee host_key verify_event s d) es).events id ≡ none
  deletion_outlasts_puts s d id es valid target ne mine authors =
      (apply_puts-IsGone d.id id d.pubkey (apply_delete bee host_key verify_event s d) es authors (
        ground (arith, deletion-apply_delete bee host_key verify_event s d id),
        ground (arith, events-apply_delete bee host_key verify_event s d id ne),
      )).1
