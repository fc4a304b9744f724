-- ===== src/Light/Prune.antt =====
-- What the pruning of src/light/store.ts may drop.
use nostr_swarm.Light.{
  total_bytes, prune_batch, candidates, Candidate, insert_oldest, to_drop, is_exempt, sort_oldest,
  choose_drops,
}
use nostr_swarm.Hyperbee.{everything, Hyperbee}
use nostr_swarm.Storage.Indexes.{IndexSubs}
use nostr_swarm.Nostr.Event.{NostrEvent}
use nostr_swarm.Base.{
  leb, Bool-cases, length, In, All, Text, leb_ℤ, ℕ, suc, ◌+◌, ◌-◌, ◌*◌, ◌≤◌, ◌<◌, ◌≡◌, refl, inl,
  inr, false, ◌||◌, some, List, [], ◌∷◌, arith,
}

module _ (bee : Hyperbee) (byte_length : NostrEvent → ℕ) (subs : IndexSubs bee) where
  -- The id of a stored event that may be dropped.
  abbrev pub MayDrop : Text → Type 0
  MayDrop id =
      (k : Text) × (e : NostrEvent) × (bee.get subs.events k ≡ some e)
      × (e.id ≡ id)
      × (is_exempt e.kind ≡ false)

  abbrev IsCandidate : Candidate → Type 0
  IsCandidate c = MayDrop c.id

  candidates-IsCandidate :
      (entries : List (Text × NostrEvent))
      → ((k : Text) (e : NostrEvent) → In (k, e) entries → bee.get subs.events k ≡ some e)
      → All IsCandidate (candidates byte_length entries)
  unfolding candidates
  candidates-IsCandidate [] stored = tt
  candidates-IsCandidate ((k, e) ∷ entries) stored =
      let rest = candidates-IsCandidate entries (λ j f m. stored j f (inr m)) in
      elim (Bool-cases (is_exempt e.kind)) [
        | inl exempt ↦ rw exempt rest
        | inr other ↦ rw other ((k, e, stored k e (inl refl), refl, other), rest)
      ]

  insert-IsCandidate :
      (c : Candidate) (cs : List Candidate)
      → IsCandidate c
      → All IsCandidate cs
      → All IsCandidate (insert_oldest c cs)
  unfolding insert_oldest
  insert-IsCandidate c [] h a = (h, tt)
  insert-IsCandidate c (d ∷ ds) h a = elim (Bool-cases (leb_ℤ c.created_at d.created_at)) [
    | inl first ↦ rw first (h, a)
    | inr later ↦ rw later (a.0, insert-IsCandidate c ds h a.1)
  ]

  sort-IsCandidate : (cs : List Candidate) → All IsCandidate cs → All IsCandidate (sort_oldest cs)
  unfolding sort_oldest
  sort-IsCandidate [] a = tt
  sort-IsCandidate (c ∷ cs) a = insert-IsCandidate c (sort_oldest cs) a.0 (sort-IsCandidate cs a.1)

  choose-MayDrop :
      (max : ℕ) (cs : List Candidate) (projected dropped : ℕ)
      → All IsCandidate cs
      → dropped ≤ prune_batch
      → All MayDrop (choose_drops max cs projected dropped)
        × (length (choose_drops max cs projected dropped) + dropped ≤ prune_batch)
  unfolding choose_drops
  choose-MayDrop max [] projected dropped a h = (tt, omega arith)
  choose-MayDrop max (c ∷ cs) projected dropped a h =
      elim (Bool-cases (leb (5 * projected) (4 * max) || leb prune_batch dropped)) [
        | inl stop ↦ rw stop (tt, omega arith)
        | inr go ↦
            let room : dropped < prune_batch = ground arith in
            let rest =
              choose-MayDrop max cs (projected - c.bytes) (suc dropped) a.1 (omega arith) in
            let bound = rest.1 in rw go ((a.0, rest.0), omega arith)
      ]

  -- Pruning drops at most 1000 events at a time, each of them stored, and never a profile, a contact
  -- list or a mute list.
  pub to_drop-MayDrop :
      (max : ℕ)
      → All MayDrop (to_drop bee byte_length subs max)
        × (length (to_drop bee byte_length subs max) ≤ prune_batch)
  unfolding to_drop
  to_drop-MayDrop max =
      let entries = bee.read_stream subs.events everything in
      let chosen =
        choose-MayDrop max (sort_oldest (candidates byte_length entries))
          (total_bytes byte_length entries) 0
          (sort-IsCandidate _ (
            candidates-IsCandidate entries
              (λ k e m. (bee.get-read_stream subs.events everything k e m).0)))
          (omega arith) in
      let few = chosen.1 in
      elim (Bool-cases (leb (total_bytes byte_length entries) max)) [
        | inl fits ↦ rw fits (tt, omega arith)
        | inr over ↦ rw over (chosen.0, omega arith)
      ]
