-- ===== src/Shim/Notifications/About.antt =====
-- Notifications are about others, and about the user's own notes (src/primal-shim/verbs/notifications.ts).
use nostr_swarm.Shim.Notifications.{
  classify_interaction, classify_all, classify_zap, push_some, on_own, reply_or_mention, reposted,
  liked, zapped, first_e_tag, e_values, Classified,
}
use nostr_swarm.Shim.Stats.{zap_sender_pubkey}
use nostr_swarm.Nostr.Json.{Json}
use nostr_swarm.Nostr.Event.{NostrEvent, truthy}
use nostr_swarm.Base.{
  ◌==◌, on_branches, find, In, All, Text, eqb, includes_text, includes_text→In, ◌≡◌, false, Option,
  none, some, List, [], ◌∷◌,
}

module _ (pubkey : Text) (own_ids : List Text) where
  -- Another has acted, and the posts it refers to are the user's own.
  pub IsAbout : Classified → Type 0
  IsAbout n = (eqb n.actor pubkey ≡ false) × All (λ id. In id own_ids) n.ref_ids

  MayBeAbout : Option Classified → Type 0
  MayBeAbout none = Unit
  MayBeAbout (some n) = IsAbout n

  MayBeOwn : Option Text → Type 0
  MayBeOwn none = Unit
  MayBeOwn (some id) = In id own_ids

  find-MayBeOwn : (ids : List Text) → MayBeOwn (find (includes_text own_ids) ids)
  unfolding MayBeOwn
  find-MayBeOwn [] = tt
  find-MayBeOwn (id ∷ ids) =
      on_branches MayBeOwn (includes_text own_ids id) (some id) (find (includes_text own_ids) ids)
        (λ own. includes_text→In own_ids id own) (λ other. find-MayBeOwn ids)

  truthy-MayBeOwn : (o : Option Text) → MayBeOwn o → MayBeOwn (truthy o)
  unfolding MayBeOwn
  truthy-MayBeOwn none h = h
  truthy-MayBeOwn (some []) h = tt
  truthy-MayBeOwn (some (c ∷ s)) h = h

  on_own-MayBeAbout :
      (o : Option Text) (notify : Text → Classified)
      → ((id : Text) → In id own_ids → IsAbout (notify id))
      → MayBeAbout (on_own own_ids o notify)
  unfolding MayBeAbout
  on_own-MayBeAbout none notify h = tt
  on_own-MayBeAbout (some id) notify h =
      on_branches MayBeAbout (includes_text own_ids id) (some (notify id)) none
        (λ own. h id (includes_text→In own_ids id own)) (λ other. tt)

  reply_or_mention-IsAbout :
      (event : NostrEvent) (o : Option Text)
      → eqb event.pubkey pubkey ≡ false
      → MayBeOwn o
      → IsAbout (reply_or_mention event o)
  unfolding IsAbout MayBeOwn
  reply_or_mention-IsAbout event none other own = (other, tt)
  reply_or_mention-IsAbout event (some id) other own = (other, (own, tt))

  module _ (parse : Text → Option Json) where
    classify_zap-MayBeAbout :
        (event : NostrEvent) (o : Option Text)
        → MayBeAbout (classify_zap parse event pubkey own_ids o)
    unfolding MayBeAbout IsAbout
    classify_zap-MayBeAbout event none = tt
    classify_zap-MayBeAbout event (some sender) =
        on_branches MayBeAbout (eqb sender pubkey) none _ (λ self. tt)
          (λ other.
            on_own-MayBeAbout (first_e_tag event.tags) (zapped parse event sender)
              (λ id own. (other, (own, tt))))

    classify-MayBeAbout :
        (event : NostrEvent) → MayBeAbout (classify_interaction parse event pubkey own_ids)
    unfolding classify_interaction MayBeAbout IsAbout
    classify-MayBeAbout event =
        let by = on_branches MayBeAbout in
        by (event.kind == 1) _ _
          (λ note.
            by (eqb event.pubkey pubkey) none _ (λ self. tt)
              (λ other.
                reply_or_mention-IsAbout event _ other
                  (truthy-MayBeOwn _ (find-MayBeOwn (e_values event.tags)))))
          (λ rest.
            by (event.kind == 6) _ _
              (λ repost.
                by (eqb event.pubkey pubkey) none _ (λ self. tt)
                  (λ other.
                    on_own-MayBeAbout (first_e_tag event.tags) (reposted event)
                      (λ id own. (other, (own, tt)))))
              (λ rest.
                by (event.kind == 7) _ _
                  (λ reaction.
                    by (eqb event.pubkey pubkey) none _ (λ self. tt)
                      (λ other.
                        on_own-MayBeAbout (first_e_tag event.tags) (liked event)
                          (λ id own. (other, (own, tt)))))
                  (λ rest.
                    by (event.kind == 9735) _ none
                      (λ zap. classify_zap-MayBeAbout event (zap_sender_pubkey parse event))
                      (λ rest. tt))))

    push_some-IsAbout :
        (o : Option Classified) (ns : List Classified)
        → MayBeAbout o
        → All IsAbout ns
        → All IsAbout (push_some parse o ns)
    unfolding MayBeAbout
    push_some-IsAbout none ns h k = k
    push_some-IsAbout (some n) ns h k = (h, k)

    -- Whatever the events are, none of a user's notifications has the user as its actor, zaps by their
    -- sender, and every post that one of them refers to is among the user's own notes.
    pub classify_all-IsAbout :
        (events : List NostrEvent) → All IsAbout (classify_all parse events pubkey own_ids)
    unfolding classify_all
    classify_all-IsAbout [] = tt
    classify_all-IsAbout (event ∷ events) =
        push_some-IsAbout (classify_interaction parse event pubkey own_ids)
          (classify_all parse events pubkey own_ids) (classify-MayBeAbout event)
          (classify_all-IsAbout events)
