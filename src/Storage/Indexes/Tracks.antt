-- ===== src/Storage/Indexes/Tracks.antt =====
-- When a sub-database indexes the stored events, and how the loops keep it so.
use nostr_swarm.Hyperbee.{Hyperbee}
use nostr_swarm.Nostr.Event.{NostrEvent}
use nostr_swarm.Storage.Indexes.{put_all, del_all, del_if_value, del_pointers}
use nostr_swarm.Base.{
  if◌then◌else◌, Bool-cases, In, Text, eqb, eqb_refl, eqb_iff, includes_text, includes_text→In,
  In→includes_text, ◌≡◌, refl, sym, ap, ◌∙◌, subst, ◌≢◌, inl, inr, true, Option, none, some, List,
  [], ◌∷◌, arith,
}

module _ (bee : Hyperbee) where
  pub get-put_all :
      (sub : bee.Sub Text) (ks : List Text) (id k : Text)
      → bee.get (put_all bee sub ks id) k ≡ (if includes_text ks k then some id else bee.get sub k)
  unfolding put_all includes_text
  get-put_all sub [] id k = refl
  get-put_all sub (j ∷ ks) id k =
      ground (arith, get-put_all (bee.put sub j id) ks id k, bee.get-put sub j k id)

  pub get-del_all :
      (sub : bee.Sub Text) (ks : List Text) (k : Text)
      → bee.get (del_all bee sub ks) k ≡ (if includes_text ks k then none else bee.get sub k)
  unfolding del_all includes_text
  get-del_all sub [] k = refl
  get-del_all sub (j ∷ ks) k = ground (arith, get-del_all (bee.del sub j) ks k, bee.get-del sub j k)

  -- Every entry references a stored event that has the entry's key.
  pub record Tracks (keys : NostrEvent → List Text) (sub : bee.Sub Text)
      (events : bee.Sub NostrEvent) : Type 0 where
    pub entry :
        (k id : Text)
        → bee.get sub k ≡ some id
        → (e : NostrEvent) × (bee.get events id ≡ some e) × (e.id ≡ id) × In k (keys e)

  module _ (keys : NostrEvent → List Text) (sub : bee.Sub Text) (events : bee.Sub NostrEvent) where
    -- A new event and its entries.
    pub Tracks-put_all :
        (e : NostrEvent)
        → bee.get events e.id ≡ none
        → Tracks keys sub events
        → Tracks keys (put_all bee sub (keys e) e.id) (bee.put events e.id e)
    Tracks-put_all e fresh t = record {
      entry = λ k id h. elim (Bool-cases (includes_text (keys e) k)) [
        | inl here ↦
            let own : e.id ≡ id = ground (arith, get-put_all sub (keys e) e.id k) in
            (
              e,
              ground (arith, bee.get-put events e.id id e, eqb_iff e.id id),
              own,
              includes_text→In (keys e) k here,
            )
        | inr there ↦
            let old : bee.get sub k ≡ some id = ground (arith, get-put_all sub (keys e) e.id k) in
            let (f, stored, own, m) = t.entry k id old in
            (f, ground (arith, bee.get-put events e.id id e, eqb_iff e.id id), own, m)
      ];
    }

    -- Entries may be dropped.
    pub Tracks-del_all :
        (ks : List Text) → Tracks keys sub events → Tracks keys (del_all bee sub ks) events
    Tracks-del_all ks t = record {
      entry = λ k id h. t.entry k id (ground (arith, get-del_all sub ks k));
    }

    same_entry :
        (e f : NostrEvent) (k id : Text)
        → bee.get events e.id ≡ some e
        → bee.get events id ≡ some f
        → e.id ≡ id
        → In k (keys f)
        → includes_text (keys e) k ≡ true
    same_entry e f k id stored there same m =
        let one : f ≡ e = cc in In→includes_text (keys e) k (subst (λ x. In k (keys x)) one m)

    -- The part of an index that does not concern the event `e` outlives it.
    Tracks-without :
        (e : NostrEvent) (sub' : bee.Sub Text)
        → bee.get events e.id ≡ some e
        → Tracks keys sub events
        → ((k id : Text) → bee.get sub' k ≡ some id → bee.get sub k ≡ some id)
        → ((k : Text) → includes_text (keys e) k ≡ true → bee.get sub' k ≢ some e.id)
        → Tracks keys sub' (bee.del events e.id)
    Tracks-without e sub' stored t older cleared = record {
      entry = λ k id h. survive k id h (t.entry k id (older k id h));
    }
      where
        survive :
            (k id : Text)
            → bee.get sub' k ≡ some id
            → (e : NostrEvent) × (bee.get events id ≡ some e) × (e.id ≡ id) × In k (keys e)
            → (f : NostrEvent) × (bee.get (bee.del events e.id) id ≡ some f)
              × (f.id ≡ id)
              × In k (keys f)
        survive k id h (f, there, own, m) =
            let other : e.id ≢ id = λ same.
              cleared k (same_entry e f k id stored there same m) (h ∙ ap some (sym same)) in
            (f, ground (arith, bee.get-del events e.id id, eqb_iff e.id id), own, m)

    -- A stored event goes, and all its entries with it.
    pub Tracks-remove :
        (e : NostrEvent)
        → bee.get events e.id ≡ some e
        → Tracks keys sub events
        → Tracks keys (del_all bee sub (keys e)) (bee.del events e.id)
    Tracks-remove e stored t =
        Tracks-without e (del_all bee sub (keys e)) stored t
          (λ k id h. ground (arith, get-del_all sub (keys e) k))
          (λ k m h. ground (arith, get-del_all sub (keys e) k))

  -- What `del_pointers` leaves of a value.
  abbrev pub unless : Text → Option Text → Option Text
  unless id none = none
  unless id (some v) = if eqb v id then none else some v

  get-del_if_value :
      (sub : bee.Sub Text) (j id k : Text)
      → bee.get (del_if_value bee sub j id (bee.get sub j)) k
        ≡ (if eqb j k then unless id (bee.get sub k) else bee.get sub k)
  get-del_if_value sub j id k = ground (arith, eqb_iff j k, bee.get-del sub j k)

  pub get-del_pointers :
      (sub : bee.Sub Text) (ks : List Text) (id k : Text)
      → bee.get (del_pointers bee sub ks id) k
        ≡ (if includes_text ks k then unless id (bee.get sub k) else bee.get sub k)
  unfolding del_pointers includes_text
  get-del_pointers sub [] id k = refl
  get-del_pointers sub (j ∷ ks) id k = ground (
    arith,
    get-del_pointers (del_if_value bee sub j id (bee.get sub j)) ks id k,
    get-del_if_value sub j id k,
  )

  module _ (keys : NostrEvent → List Text) (sub : bee.Sub Text) (events : bee.Sub NostrEvent) where
    -- A pointer that references another event stays; the events stay.
    pub Tracks-del_pointers :
        (ks : List Text) (id : Text)
        → Tracks keys sub events
        → Tracks keys (del_pointers bee sub ks id) events
    Tracks-del_pointers ks id t = record {
      entry = λ k v h. t.entry k v (ground (arith, get-del_pointers sub ks id k));
    }

    -- A stored event goes, and the pointers to it with it.
    pub Tracks-remove_pointers :
        (e : NostrEvent)
        → bee.get events e.id ≡ some e
        → Tracks keys sub events
        → Tracks keys (del_pointers bee sub (keys e) e.id) (bee.del events e.id)
    Tracks-remove_pointers e stored t =
        Tracks-without keys sub events e (del_pointers bee sub (keys e) e.id) stored t
          (λ k v h. ground (arith, get-del_pointers sub (keys e) e.id k))
          (λ k m h. ground (arith, get-del_pointers sub (keys e) e.id k, eqb_refl e.id))
