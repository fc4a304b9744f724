-- ===== src/Wot/Graph/Distances.antt =====
-- The degrees of src/wot/graph.ts are the distances from the owner along the follows.
use nostr_swarm.Wot.Graph.Levels.{
  IsLevel, InOrder, visit_of, visit_all-IsLevel, visit_all-keeps, visit_all-queue, visit_all-new,
  visit_all-covers, All-weaken,
}
use nostr_swarm.Wot.Graph.Degrees.{Walk, Follows, IsDegree, compute_degrees_lem}
use nostr_swarm.Wot.Graph.{
  WotConfig, compute_degrees, search_degrees, expand, visit_list, visit_all, Visit,
}
use nostr_swarm.Util.Maps.{All-get_entry, get_entry}
use nostr_swarm.Base.{
  leb, leb_false→lt, leb→le, Bool-cases, on_branches, Option-cases, some-eq, none-ne-some, In, All,
  Text, eqb, eqb→eq, eqb_refl, ℕ, zero, suc, ◌≤◌, ◌<◌, ◌≡◌, refl, sym, ap, ap₂, ◌∙◌, subst, ◌≢◌,
  ◌⊎◌, inl, inr, true, Option, none, some, List, [], ◌∷◌, arith,
}

-- The next level: what is left of the queue lies on the level of the visit that is taken from it.
next-IsLevel :
    (k : ℕ) (v : Visit) (queue : List Visit) (degrees : List (Text × ℕ))
    → IsLevel k (v ∷ queue, degrees)
    → IsLevel v.depth (queue, degrees)
unfolding InOrder
next-IsLevel k v queue degrees (order, level, bound) =
    let low = level.0.0 in
    (
      order.1,
      both queue order.0 level.1,
      All-weaken _ (λ e. e.1 ≤ suc v.depth) degrees (λ e h. omega (arith, low, h)) bound,
    )
  where
    both :
        (l : List Visit)
        → All (λ w. v.depth ≤ w.depth) l
        → All (λ w. k ≤ w.depth × w.depth ≤ suc k) l
        → All (λ w. v.depth ≤ w.depth × w.depth ≤ suc v.depth) l
    both [] a b = tt
    both (w ∷ l) a b = ((a.0, let up = b.0.1 in let low = level.0.0 in omega arith), both l a.1 b.1)

module _ (max_depth : ℕ) (follows : List (Text × List Text)) where
  -- All that the key follows has a degree, at most one more.
  abbrev Covered : List (Text × ℕ) → Text → ℕ → Type 0
  Covered degrees p d =
      (q : Text) → Follows follows p q → (e : ℕ) × (get_entry q degrees ≡ some e) × e ≤ suc d

  -- A key with a degree below the bound is to be visited yet, or all it follows has its degree.
  abbrev Pending : List Visit × List (Text × ℕ) → Type 0
  Pending s =
      (p : Text) (d : ℕ)
      → get_entry p s.1 ≡ some d
      → suc d ≤ max_depth
      → In (visit_of p d) s.0 ⊎ Covered s.1 p d

  Covered-visit_all :
      (fs : List Text) (depth : ℕ) (queue : List Visit) (degrees : List (Text × ℕ)) (p : Text)
      (d : ℕ)
      → Covered degrees p d
      → Covered (visit_all fs depth queue degrees).1 p d
  Covered-visit_all fs depth queue degrees p d c q f =
      let (e, h, le) = c q f in (e, visit_all-keeps fs depth queue degrees q e h, le)

  -- The key whose list is visited is covered.
  visit_list-Covered :
      (p : Text) (k : ℕ) (o : Option (List Text)) (queue : List Visit) (degrees : List (Text × ℕ))
      → get_entry p follows ≡ o
      → All (λ e. e.1 ≤ suc k) degrees
      → Covered (visit_list o (suc k) queue degrees).1 p k
  visit_list-Covered p k none queue degrees e bound q (fs, h, m) = absurd (none-ne-some (sym e ∙ h))
  visit_list-Covered p k (some fs) queue degrees e bound q (gs, h, m) =
      let same : gs ≡ fs = some-eq (sym h ∙ e) in
      visit_all-covers fs (suc k) queue degrees q bound (subst (λ l. In q l) same m)

  visit_list-IsLevel :
      (k : ℕ) (o : Option (List Text)) (queue : List Visit) (degrees : List (Text × ℕ))
      → IsLevel k (queue, degrees)
      → IsLevel k (visit_list o (suc k) queue degrees)
  visit_list-IsLevel k none queue degrees l = l
  visit_list-IsLevel k (some fs) queue degrees l = visit_all-IsLevel fs k queue degrees l

  visit_list-Pending :
      (v : Visit) (o : Option (List Text)) (queue : List Visit) (degrees : List (Text × ℕ))
      → get_entry v.pubkey follows ≡ o
      → All (λ e. e.1 ≤ suc v.depth) degrees
      → Pending (v ∷ queue, degrees)
      → Pending (visit_list o (suc v.depth) queue degrees)
  visit_list-Pending v none queue degrees e bound pend p d h below = elim (pend p d h below) [
    | inr covered ↦ inr covered
    | inl (inr later) ↦ inl later
    | inl (inl now) ↦ inr (λ q f.
        absurd
          (none-ne-some (sym e ∙ ap (λ (w : Visit). get_entry w.pubkey follows) (sym now) ∙ f.1)))
  ]
  visit_list-Pending v (some fs) queue degrees e bound pend p d h below =
      elim (visit_all-new fs (suc v.depth) queue degrees p d h) [
        | inr queued ↦ inl queued
        | inl old ↦ elim (pend p d old below) [
          | inr covered ↦ inr (Covered-visit_all fs (suc v.depth) queue degrees p d covered)
          | inl (inr later) ↦
              inl (visit_all-queue fs (suc v.depth) queue degrees (visit_of p d) later)
          | inl (inl now) ↦ inr (
              subst
                (λ (w : Visit).
                  Covered (visit_all fs (suc v.depth) queue degrees).1 w.pubkey w.depth)
                (sym now) (visit_list-Covered v.pubkey v.depth (some fs) queue degrees e bound))
        ]
      ]

  expand-IsLevel :
      (k : ℕ) (v : Visit) (queue : List Visit) (degrees : List (Text × ℕ))
      → IsLevel k (v ∷ queue, degrees)
      → IsLevel v.depth (expand max_depth follows v queue degrees)
  unfolding expand
  expand-IsLevel k v queue degrees l =
      on_branches (IsLevel v.depth) (leb max_depth v.depth) _ _
        (λ deep. next-IsLevel k v queue degrees l)
        (λ near. visit_list-IsLevel v.depth _ queue degrees (next-IsLevel k v queue degrees l))

  expand-Pending :
      (k : ℕ) (v : Visit) (queue : List Visit) (degrees : List (Text × ℕ))
      → IsLevel k (v ∷ queue, degrees)
      → Pending (v ∷ queue, degrees)
      → Pending (expand max_depth follows v queue degrees)
  unfolding expand
  expand-Pending k v queue degrees l pend =
      on_branches Pending (leb max_depth v.depth) _ _ (too_deep v queue degrees pend) (λ near.
        visit_list-Pending v _ queue degrees refl (next-IsLevel k v queue degrees l).2 pend)
    where
      too_deep :
          (v : Visit) (queue : List Visit) (degrees : List (Text × ℕ))
          → Pending (v ∷ queue, degrees)
          → leb max_depth v.depth ≡ true
          → Pending (queue, degrees)
      too_deep v queue degrees pend deep p d h below = elim (pend p d h below) [
        | inr covered ↦ inr covered
        | inl (inr later) ↦ inl later
        | inl (inl now) ↦
            let same : d ≡ v.depth = ap (λ (w : Visit). w.depth) now in
            let high = leb→le max_depth v.depth deep in absurd (omega arith)
      ]

  search-Covered :
      (fuel k : ℕ) (queue : List Visit) (degrees result : List (Text × ℕ))
      → IsLevel k (queue, degrees)
      → Pending (queue, degrees)
      → search_degrees max_depth follows fuel queue degrees ≡ some result
      → Pending ([], result)
  unfolding search_degrees
  search-Covered fuel k [] degrees result l pend h = subst (λ ds. Pending ([], ds)) (some-eq h) pend
  search-Covered zero k (v ∷ queue) degrees result l pend h = absurd (none-ne-some h)
  search-Covered (suc fuel) k (v ∷ queue) degrees result l pend h =
      search-Covered fuel v.depth _ _ result (expand-IsLevel k v queue degrees l)
        (expand-Pending k v queue degrees l pend) h

  expand-keeps :
      (v : Visit) (queue : List Visit) (degrees : List (Text × ℕ)) (p : Text) (d : ℕ)
      → get_entry p degrees ≡ some d
      → get_entry p (expand max_depth follows v queue degrees).1 ≡ some d
  unfolding expand
  expand-keeps v queue degrees p d h =
      on_branches (λ (s : List Visit × List (Text × ℕ)). get_entry p s.1 ≡ some d)
        (leb max_depth v.depth) _ _ (λ deep. h)
        (λ near. elim (Option-cases (get_entry v.pubkey follows)) [
          | inl nobody ↦ rw nobody h
          | inr (fs, found) ↦ rw found (visit_all-keeps fs (suc v.depth) queue degrees p d h)
        ])

  search-keeps :
      (fuel : ℕ) (queue : List Visit) (degrees result : List (Text × ℕ)) (p : Text) (d : ℕ)
      → get_entry p degrees ≡ some d
      → search_degrees max_depth follows fuel queue degrees ≡ some result
      → get_entry p result ≡ some d
  unfolding search_degrees
  search-keeps fuel [] degrees result p d h e = subst (λ ds. get_entry p ds ≡ some d) (some-eq e) h
  search-keeps zero (v ∷ queue) degrees result p d h e = absurd (none-ne-some e)
  search-keeps (suc fuel) (v ∷ queue) degrees result p d h e =
      search-keeps fuel _ _ result p d (expand-keeps v queue degrees p d h) e

  -- Along a walk the degrees grow by one at most.
  reached :
      (owner : Text) (result : List (Text × ℕ))
      → get_entry owner result ≡ some 0
      → Pending ([], result)
      → (n : ℕ) (p : Text) → Walk follows owner n p
      → n ≤ max_depth
      → (d : ℕ) × (get_entry p result ≡ some d) × d ≤ n
  unfolding Walk
  reached owner result start pend zero p w le =
      (0, ap (λ x. get_entry x result) w ∙ start, omega arith)
  reached owner result start pend (suc n) p (q, walk, step) le =
      let (d, h, few) = reached owner result start pend n q walk (omega arith) in
      elim (pend q d h (omega arith)) [
        | inl m ↦ elim m [ ]
        | inr covered ↦ let (e, g, less) = covered p step in (e, g, omega arith)
      ]

only_owner : (owner : Text) → get_entry {A = ℕ} owner ((owner, 0) ∷ []) ≡ some 0
unfolding get_entry
only_owner owner = rw (eqb_refl owner) refl

first_visit :
    (owner q : Text) (d : ℕ)
    → get_entry q ((owner, 0) ∷ []) ≡ some d
    → visit_of q d ≡ visit_of owner 0
unfolding get_entry
first_visit owner q d h = elim (Bool-cases (eqb owner q)) [
  | inr other ↦ absurd (none-ne-some (rw other at h))
  | inl same ↦
      let none_yet : ℕ = 0 in
      let zero_depth : some none_yet ≡ some d = rw same at h in
      ap₂ visit_of (sym (eqb→eq owner q same)) (sym (some-eq zero_depth))
]

first-IsLevel : (owner : Text) → IsLevel 0 (visit_of owner 0 ∷ [], (owner, 0) ∷ [])
unfolding InOrder
first-IsLevel owner = ((tt, tt), ((omega arith, omega arith), tt), (omega arith, tt))

shortest : (d n : ℕ) → (n < d → d ≤ n) → d ≤ n
shortest d n f = elim (Bool-cases (leb d n)) [
  | inl fits ↦ leb→le d n fits
  | inr over ↦ f (leb_false→lt d n over)
]

-- The degrees are the distances from the owner along the follows, up to the bound: a key has the
-- degree `d` exactly if some walk of `d` follows leads to it, `d` is within the bound and no walk is
-- shorter; and every key that a walk within the bound reaches has a degree. The owner's key is not
-- empty.
pub compute_degrees_shortest :
    (config : WotConfig) (follows : List (Text × List Text))
    → config.owner_pubkey ≢ []
    → (p : Text)
    → ((d : ℕ)
        → get_entry p (compute_degrees config follows) ≡ some d
        → Walk follows config.owner_pubkey d p
          × d ≤ config.max_depth
          × ((n : ℕ) → Walk follows config.owner_pubkey n p → d ≤ n))
      × ((n : ℕ)
          → Walk follows config.owner_pubkey n p
          → n ≤ config.max_depth
          → (d : ℕ) × (get_entry p (compute_degrees config follows) ≡ some d) × d ≤ n)
compute_degrees_shortest config follows named p =
    let owner = config.owner_pubkey in
    let (result, ends, kept, good) = compute_degrees_lem config follows named in
    let start : get_entry owner result ≡ some 0 =
      search-keeps config.max_depth follows _ (visit_of owner 0 ∷ []) ((owner, 0) ∷ []) result owner
        0 (only_owner owner) ends in
    let pend : Pending config.max_depth follows ([], result) =
      search-Covered config.max_depth follows _ 0 (visit_of owner 0 ∷ []) ((owner, 0) ∷ []) result
        (first-IsLevel owner) (λ q d h below. inl (inl (first_visit owner q d h))) ends in
    let within = reached config.max_depth follows owner result start pend in
    rw kept (
      λ d h.
          let (walk, le) =
            All-get_entry (IsDegree config.max_depth follows owner) p d result good h in
          (
            walk,
            le,
            λ n w. shortest d n (λ few.
                let (e, g, less) = within n p w (omega arith) in
                let same : e ≡ d = some-eq (sym g ∙ h) in omega arith),
          ),
      λ n w le. within n p w le,
    )
