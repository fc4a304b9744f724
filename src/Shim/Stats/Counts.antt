-- ===== src/Shim/Stats/Counts.antt =====
-- The engagement of an event (src/primal-shim/stats.ts) is the number of events that reference it.
use nostr_swarm.Shim.Stats.{
  EventStats, referenced_ids, unique_from, zap_amount_sats, count_in, tally_one, tally_ids,
  tally_interaction, tally_all,
}
use nostr_swarm.Util.Maps.{get_entry, add_value, get_entry-set_entry}
use nostr_swarm.Nostr.Json.{Json}
use nostr_swarm.Nostr.Event.{NostrEvent}
use nostr_swarm.Base.{
  ◌==◌, if◌then◌else◌, Bool-cases, on_branches, Text, eqb, eqb→eq, eqb_iff, eqb_comm, includes_text,
  ℕ, ◌+◌, ◌*◌, ◌≡◌, refl, sym, ap, ◌∙◌, inl, inr, Bool, true, false, ◌&&◌, ◌||◌, Option, none, some,
  List, [], ◌∷◌, ◌++◌, arith,
}

-- No text comes twice.
IsUnique : List Text → Type 0
IsUnique [] = Unit
IsUnique (x ∷ l) = (includes_text l x ≡ false) × IsUnique l

includes_text-last :
    (l : List Text) (x y : Text) → includes_text (l ++ x ∷ []) y ≡ (includes_text l y || eqb x y)
unfolding includes_text
includes_text-last [] x y = ground arith
includes_text-last (z ∷ l) x y = ground (arith, includes_text-last l x y)

append-IsUnique :
    (l : List Text) (x : Text) → IsUnique l → includes_text l x ≡ false → IsUnique (l ++ x ∷ [])
unfolding IsUnique includes_text
append-IsUnique [] x u new = (refl, tt)
append-IsUnique (y ∷ l) x u new = (
  ground (arith, includes_text-last l x y, u.0, eqb_comm x y, new),
  append-IsUnique l x u.1 (ground (arith, new)),
)

add_value-IsUnique : (l : List Text) (x : Text) → IsUnique l → IsUnique (add_value l x)
add_value-IsUnique l x u =
    on_branches IsUnique (includes_text l x) l (l ++ x ∷ []) (λ old. u) (append-IsUnique l x u)

includes_text-add_value :
    (l : List Text) (x y : Text) → includes_text (add_value l x) y ≡ (includes_text l y || eqb x y)
includes_text-add_value l x y =
    on_branches (λ (m : List Text). includes_text m y ≡ (includes_text l y || eqb x y))
      (includes_text l x) l (l ++ x ∷ [])
      (λ old. ground (arith, eqb_iff x y, same_member l x y, old)) (λ new. includes_text-last l x y)
  where
    same_member : (l : List Text) (x y : Text) → x ≡ y → includes_text l x ≡ includes_text l y
    same_member l x y e = ap (includes_text l) e

unique_from-IsUnique : (seen ids : List Text) → IsUnique seen → IsUnique (unique_from seen ids)
unfolding unique_from
unique_from-IsUnique seen [] u = u
unique_from-IsUnique seen (id ∷ ids) u =
    unique_from-IsUnique (add_value seen id) ids (add_value-IsUnique seen id u)

includes_text-unique_from :
    (seen ids : List Text) (x : Text)
    → includes_text (unique_from seen ids) x ≡ (includes_text seen x || includes_text ids x)
unfolding unique_from includes_text
includes_text-unique_from seen [] x = ground arith
includes_text-unique_from seen (id ∷ ids) x =
    ground (
      arith,
      includes_text-unique_from (add_value seen id) ids x,
      includes_text-add_value seen id x,
    )

module _ (parse : Text → Option Json) where
  -- What the event is for an id.
  abbrev about : Text → NostrEvent → Bool
  about id event = includes_text (referenced_ids event.tags) id

  abbrev step_of : Bool → NostrEvent → EventStats → EventStats
  step_of counts event e = if counts then count_in parse event e else e

  abbrev stepped : Bool → NostrEvent → Option EventStats → Option EventStats
  stepped counts event none = none
  stepped counts event (some e) = some (step_of counts event e)

  stepped_not : (event : NostrEvent) (o : Option EventStats) → o ≡ stepped false event o
  stepped_not event none = refl
  stepped_not event (some e) = refl

  get_entry-tally_one :
      (event : NostrEvent) (id x : Text) (stats : List (Text × EventStats)) (o : Option EventStats)
      → get_entry id stats ≡ o
      → get_entry x (tally_one parse event id o stats)
        ≡ stepped (eqb id x) event (get_entry x stats)
  get_entry-tally_one event id x stats none h = elim (Bool-cases (eqb id x)) [
    | inr apart ↦ rw apart (stepped_not event (get_entry x stats))
    | inl same ↦ rw (sym (eqb→eq id x same), h) refl
  ]
  get_entry-tally_one event id x stats (some e) h = elim (Bool-cases (eqb id x)) [
    | inr apart ↦
        rw (get_entry-set_entry id x (count_in parse event e) stats, apart)
          (stepped_not event (get_entry x stats))
    | inl same ↦
        rw
          (get_entry-set_entry id x (count_in parse event e) stats, same, sym (eqb→eq id x same), h)
          refl
  ]

  -- The steps of one event, for an id that comes once at most.
  stepped_twice :
      (event : NostrEvent) (a b : Bool) (o : Option EventStats)
      → (a && b) ≡ false
      → stepped b event (stepped a event o) ≡ stepped (a || b) event o
  stepped_twice event a b none h = refl
  stepped_twice event true true (some e) h = ground arith
  stepped_twice event true false (some e) h = refl
  stepped_twice event false b (some e) h = refl

  get_entry-tally_ids :
      (event : NostrEvent) (ids : List Text) (x : Text) (stats : List (Text × EventStats))
      → IsUnique ids
      → get_entry x (tally_ids parse event ids stats)
        ≡ stepped (includes_text ids x) event (get_entry x stats)
  unfolding tally_ids IsUnique includes_text
  get_entry-tally_ids event [] x stats u = stepped_not event (get_entry x stats)
  get_entry-tally_ids event (id ∷ ids) x stats u =
      get_entry-tally_ids event ids x (tally_one parse event id (get_entry id stats) stats) u.1
      ∙ ap (stepped (includes_text ids x) event)
          (get_entry-tally_one event id x stats (get_entry id stats) refl)
      ∙ stepped_twice event (eqb id x) (includes_text ids x) (get_entry x stats)
          (ground (arith, u.0, eqb_iff id x, ap (includes_text ids)))

  get_entry-tally_interaction :
      (event : NostrEvent) (x : Text) (stats : List (Text × EventStats))
      → get_entry x (tally_interaction parse event stats)
        ≡ stepped (about x event) event (get_entry x stats)
  unfolding tally_interaction IsUnique includes_text
  get_entry-tally_interaction event x stats =
      get_entry-tally_ids event (unique_from [] (referenced_ids event.tags)) x stats
        (unique_from-IsUnique [] (referenced_ids event.tags) tt)
      ∙ ap (λ b. stepped b event (get_entry x stats))
          (includes_text-unique_from [] (referenced_ids event.tags) x)

  -- How many of the events are of a kind and about an id, and the amounts of those that are zaps.
  abbrev pub count_about : ℕ → Text → List NostrEvent → ℕ
  count_about kind id [] = 0
  count_about kind id (event ∷ events) =
      (if (event.kind == kind) && about id event then 1 else 0) + count_about kind id events

  abbrev pub sats_about : Text → List NostrEvent → ℕ
  sats_about id [] = 0
  sats_about id (event ∷ events) =
      (if (event.kind == 9735) && about id event then zap_amount_sats parse event else 0)
      + sats_about id events

  abbrev pub IsScored : EventStats → Type 0
  IsScored e = e.score ≡ e.likes + e.reposts + 2 * e.replies + 2 * e.zaps

  -- The numbers of the stats after the events.
  pub record Counted (id : Text) (events : List NostrEvent) (e t : EventStats) : Type 0 where
    pub likes : t.likes ≡ e.likes + count_about 7 id events
    pub replies : t.replies ≡ e.replies + count_about 1 id events
    pub reposts : t.reposts ≡ e.reposts + count_about 6 id events
    pub zaps : t.zaps ≡ e.zaps + count_about 9735 id events
    pub satszapped : t.satszapped ≡ e.satszapped + sats_about id events
    pub score : IsScored e → IsScored t

  Counted-one :
      (id : Text) (event : NostrEvent) (e : EventStats)
      → Counted id (event ∷ []) e (step_of (about id event) event e)
  unfolding count_in
  Counted-one id event e =
      let by = on_branches (Counted id (event ∷ []) e) in
      by (about id event) _ _
        (λ named.
          by (event.kind == 1) _ _
            (λ k. record {
              likes = ground arith;
              replies = ground arith;
              reposts = ground arith;
              zaps = ground arith;
              satszapped = ground arith;
              score = λ s. refl;
            })
            (λ k1.
              by (event.kind == 6) _ _
                (λ k. record {
                  likes = ground arith;
                  replies = ground arith;
                  reposts = ground arith;
                  zaps = ground arith;
                  satszapped = ground arith;
                  score = λ s. refl;
                })
                (λ k6.
                  by (event.kind == 7) _ _
                    (λ k. record {
                      likes = ground arith;
                      replies = ground arith;
                      reposts = ground arith;
                      zaps = ground arith;
                      satszapped = ground arith;
                      score = λ s. refl;
                    })
                    (λ k7.
                      by (event.kind == 9735) _ _
                        (λ k. record {
                          likes = ground arith;
                          replies = ground arith;
                          reposts = ground arith;
                          zaps = ground arith;
                          satszapped = ground arith;
                          score = λ s. refl;
                        })
                        (λ k. record {
                          likes = ground arith;
                          replies = ground arith;
                          reposts = ground arith;
                          zaps = ground arith;
                          satszapped = ground arith;
                          score = λ s. refl;
                        })))))
        (λ other. record {
          likes = ground arith;
          replies = ground arith;
          reposts = ground arith;
          zaps = ground arith;
          satszapped = ground arith;
          score = λ s. s;
        })

  Counted-more :
      (id : Text) (event : NostrEvent) (events : List NostrEvent) (e m t : EventStats)
      → Counted id (event ∷ []) e m
      → Counted id events m t
      → Counted id (event ∷ events) e t
  Counted-more id event events e m t a b = record {
    likes = let x = a.likes in let y = b.likes in omega arith;
    replies = let x = a.replies in let y = b.replies in omega arith;
    reposts = let x = a.reposts in let y = b.reposts in omega arith;
    zaps = let x = a.zaps in let y = b.zaps in omega arith;
    satszapped = let x = a.satszapped in let y = b.satszapped in omega arith;
    score = λ s. b.score (a.score s);
  }

  -- The stats of an id that is tracked, after any events: likes, replies, reposts and zaps have grown by
  -- the numbers of events of kinds 7, 1, 6 and 9735 that reference the id, each event counted once
  -- however often it names the id, the amount by what those zaps carry, and the score is kept in step.
  pub tally_all-Counted :
      (id : Text) (events : List NostrEvent) (stats : List (Text × EventStats)) (e : EventStats)
      → get_entry id stats ≡ some e
      → (t : EventStats) × (get_entry id (tally_all parse events stats) ≡ some t)
        × Counted id events e t
  unfolding tally_all
  tally_all-Counted id [] stats e h = (
    e,
    h,
    record {
      likes = omega arith;
      replies = omega arith;
      reposts = omega arith;
      zaps = omega arith;
      satszapped = omega arith;
      score = λ s. s;
    },
  )
  tally_all-Counted id (event ∷ events) stats e h =
      let m = step_of (about id event) event e in
      let now : get_entry id (tally_interaction parse event stats) ≡ some m =
        get_entry-tally_interaction event id stats ∙ ap (stepped (about id event) event) h in
      let (t, found, counted) =
        tally_all-Counted id events (tally_interaction parse event stats) m now in
      (t, found, Counted-more id event events e m t (Counted-one id event e) counted)
