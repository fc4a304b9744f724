-- ===== src/Wot/Graph/Degrees.antt =====
-- The breadth-first search of src/wot/graph.ts: it ends, and every degree is that of a walk.
use nostr_swarm.Wot.Graph.{
  given_degrees, if_named, WotConfig, compute_degrees, search_degrees, expand, visit_list,
  all_followed, visit_all, Visit,
}
use nostr_swarm.Util.Maps.{All-set_entry, get_entry-set_entry, get_entry, set_entry, has_entry}
use nostr_swarm.Base.{
  leb, if◌then◌else◌, leb_false→lt, Bool-cases, some-eq, none-ne-some, length, length-append, In,
  In-append_left, In-append_right, All, Text, eqb, eqb_refl, ℕ, zero, suc, ◌+◌, ◌≤◌, ◌≡◌, refl, sym,
  ap, ◌∙◌, subst, ◌≢◌, inl, inr, false, Option, none, some, List, [], ◌∷◌, ◌++◌, arith,
}

-- `p` follows `q`.
abbrev pub Follows : List (Text × List Text) → Text → Text → Type 0
Follows follows p q = (fs : List Text) × (get_entry p follows ≡ some fs) × In q fs

-- A walk of that many steps from the owner along the follows.
unfoldable pub Walk : List (Text × List Text) → Text → ℕ → Text → Type 0
Walk follows owner zero p = p ≡ owner
Walk follows owner (suc n) p = (q : Text) × Walk follows owner n q × Follows follows q p

-- The keys of a list that have no degree yet.
unvisited : List (Text × ℕ) → List Text → ℕ
unvisited degrees [] = 0
unvisited degrees (u ∷ us) =
    if has_entry u degrees then unvisited degrees us else suc (unvisited degrees us)

unvisited-set_le :
    (degrees : List (Text × ℕ)) (f : Text) (d : ℕ) (us : List Text)
    → unvisited (set_entry f d degrees) us ≤ unvisited degrees us
unfolding unvisited
unvisited-set_le degrees f d [] = omega arith
unvisited-set_le degrees f d (u ∷ us) =
    ground (arith, unvisited-set_le degrees f d us, get_entry-set_entry f u d degrees)

set_here :
    (f : Text) (d : ℕ) (degrees : List (Text × ℕ)) → get_entry f (set_entry f d degrees) ≡ some d
set_here f d degrees = ground (arith, get_entry-set_entry f f d degrees, eqb_refl f)

-- A degree for a key that had none leaves one key less.
unvisited-set :
    (degrees : List (Text × ℕ)) (f : Text) (d : ℕ) (us : List Text)
    → has_entry f degrees ≡ false
    → In f us
    → suc (unvisited (set_entry f d degrees) us) ≤ unvisited degrees us
unfolding unvisited
unvisited-set degrees f d [] new m = elim m [ ]
unvisited-set degrees f d (u ∷ us) new (inl here) =
    ground (arith, unvisited-set_le degrees f d us, set_here f d degrees, here, new)
unvisited-set degrees f d (u ∷ us) new (inr there) =
    ground (arith, unvisited-set degrees f d us new there, get_entry-set_entry f u d degrees)

-- What is still to be done: the queue, and the keys that may yet come into it.
abbrev work : List Text → List Visit × List (Text × ℕ) → ℕ
work us s = length s.0 + unvisited s.1 us

work-visit_all :
    (us fs : List Text) (depth : ℕ) (queue : List Visit) (degrees : List (Text × ℕ))
    → All (λ f. In f us) fs
    → work us (visit_all fs depth queue degrees) ≤ work us (queue, degrees)
unfolding visit_all
work-visit_all us [] depth queue degrees known = omega arith
work-visit_all us (f ∷ fs) depth queue degrees known = elim (Bool-cases (has_entry f degrees)) [
  | inl old ↦ rw (old, visit_all) (work-visit_all us fs depth queue degrees known.1)
  | inr new ↦
      let v : Visit = record { pubkey = f; depth = depth } in
      let rest = work-visit_all us fs depth (queue ++ v ∷ []) (set_entry f depth degrees) known.1 in
      let less = unvisited-set degrees f depth us new known.0 in
      let longer = length-append queue (v ∷ []) in rw (new, visit_all) (omega arith)
]

In-all_followed :
    (p q : Text) (fs : List Text) (follows : List (Text × List Text))
    → get_entry p follows ≡ some fs
    → In q fs
    → In q (all_followed follows)
unfolding get_entry all_followed
In-all_followed p q fs [] h m = cc
In-all_followed p q fs ((r, gs) ∷ follows) h m = elim (Bool-cases (eqb r p)) [
  | inl same ↦
      let found : some gs ≡ some fs = rw same at h in
      In-append_left q gs (all_followed follows) (subst (λ l. In q l) (sym (some-eq found)) m)
  | inr other ↦
      In-append_right q gs (all_followed follows) (In-all_followed p q fs follows (rw other at h) m)
]

All-In : (P : Text → Type 0) (l : List Text) → ((x : Text) → In x l → P x) → All P l
All-In P [] h = tt
All-In P (x ∷ l) h = (h x (inl refl), All-In P l (λ y m. h y (inr m)))

module _ (max_depth : ℕ) (follows : List (Text × List Text)) where
  work-visit_list :
      (p : Text) (o : Option (List Text)) (depth : ℕ) (queue : List Visit)
      (degrees : List (Text × ℕ))
      → get_entry p follows ≡ o
      → work (all_followed follows) (visit_list o depth queue degrees)
        ≤ work (all_followed follows) (queue, degrees)
  work-visit_list p none depth queue degrees e = omega arith
  work-visit_list p (some fs) depth queue degrees e =
      work-visit_all (all_followed follows) fs depth queue degrees
        (All-In _ fs (λ q m. In-all_followed p q fs follows e m))

  work-expand :
      (v : Visit) (queue : List Visit) (degrees : List (Text × ℕ))
      → work (all_followed follows) (expand max_depth follows v queue degrees)
        ≤ work (all_followed follows) (queue, degrees)
  unfolding expand
  work-expand v queue degrees = elim (Bool-cases (leb max_depth v.depth)) [
    | inl deep ↦ rw deep (omega arith)
    | inr near ↦ rw near (work-visit_list v.pubkey _ (suc v.depth) queue degrees refl)
  ]

  search_ends :
      (fuel : ℕ) (queue : List Visit) (degrees : List (Text × ℕ))
      → work (all_followed follows) (queue, degrees) ≤ fuel
      → (result : List (Text × ℕ)) × (search_degrees max_depth follows fuel queue degrees
          ≡ some result)
  unfolding search_degrees
  search_ends fuel [] degrees enough = (degrees, refl)
  search_ends zero (v ∷ queue) degrees enough =
      let impossible : ⊥ = omega arith in elim impossible [ ]
  search_ends (suc fuel) (v ∷ queue) degrees enough =
      let less = work-expand v queue degrees in search_ends fuel _ _ (omega arith)

  module _ (owner : Text) where
    -- A degree that is the length of a walk from the owner, within the bound.
    abbrev pub IsDegree : Text × ℕ → Type 0
    IsDegree e = Walk follows owner e.1 e.0 × e.1 ≤ max_depth

    abbrev IsVisit : Visit → Type 0
    IsVisit v = IsDegree (v.pubkey, v.depth)

    abbrev IsState : List Visit × List (Text × ℕ) → Type 0
    IsState s = All IsVisit s.0 × All IsDegree s.1

    append-IsVisit :
        (l : List Visit) (v : Visit) → All IsVisit l → IsVisit v → All IsVisit (l ++ v ∷ [])
    append-IsVisit [] v a h = (h, tt)
    append-IsVisit (w ∷ l) v a h = (a.0, append-IsVisit l v a.1 h)

    visit_all-IsState :
        (fs : List Text) (depth : ℕ) (queue : List Visit) (degrees : List (Text × ℕ))
        → All (λ f. IsDegree (f, depth)) fs
        → IsState (queue, degrees)
        → IsState (visit_all fs depth queue degrees)
    unfolding visit_all
    visit_all-IsState [] depth queue degrees good st = st
    visit_all-IsState (f ∷ fs) depth queue degrees good st =
        elim (Bool-cases (has_entry f degrees)) [
          | inl old ↦ rw (old, visit_all) (visit_all-IsState fs depth queue degrees good.1 st)
          | inr new ↦
              let v : Visit = record { pubkey = f; depth = depth } in
              rw (new, visit_all)
                (visit_all-IsState fs depth (queue ++ v ∷ []) (set_entry f depth degrees) good.1 (
                  append-IsVisit queue v st.0 good.0,
                  All-set_entry IsDegree f depth degrees st.1 good.0,
                ))
        ]

    visit_list-IsState :
        (v : Visit) (o : Option (List Text)) (queue : List Visit) (degrees : List (Text × ℕ))
        → get_entry v.pubkey follows ≡ o
        → IsVisit v
        → suc v.depth ≤ max_depth
        → IsState (queue, degrees)
        → IsState (visit_list o (suc v.depth) queue degrees)
    unfolding Walk
    visit_list-IsState v none queue degrees e good near st = st
    visit_list-IsState v (some fs) queue degrees e good near st =
        visit_all-IsState fs (suc v.depth) queue degrees
          (All-In _ fs (λ f m. ((v.pubkey, good.0, (fs, e, m)), near))) st

    search-IsDegree :
        (fuel : ℕ) (queue : List Visit) (degrees result : List (Text × ℕ))
        → IsState (queue, degrees)
        → search_degrees max_depth follows fuel queue degrees ≡ some result
        → All IsDegree result
    unfolding search_degrees expand
    search-IsDegree fuel [] degrees result st h = subst (All IsDegree) (some-eq h) st.1
    search-IsDegree zero (v ∷ queue) degrees result st h = elim (none-ne-some h) [ ]
    search-IsDegree (suc fuel) (v ∷ queue) degrees result st h =
        search-IsDegree fuel _ _ result
          (elim (Bool-cases (leb max_depth v.depth)) [
            | inl deep ↦ rw deep (st.0.1, st.1)
            | inr near ↦ rw near (
                visit_list-IsState v _ queue degrees refl st.0.0
                  (leb_false→lt max_depth v.depth near) (st.0.1, st.1))
          ])
          h

unvisited-le : (degrees : List (Text × ℕ)) (us : List Text) → unvisited degrees us ≤ length us
unfolding unvisited
unvisited-le degrees [] = omega arith
unvisited-le degrees (u ∷ us) = ground (arith, unvisited-le degrees us)

if_named_lem :
    (owner : Text) (degrees : List (Text × ℕ)) → owner ≢ [] → if_named owner degrees ≡ degrees
if_named_lem [] degrees named = elim (named refl) [ ]
if_named_lem (c ∷ cs) degrees named = refl

-- The search from the owner ends within its fuel, and its result is the one that is kept. Every key
-- of the result is reached from the owner by a walk of as many follows as its degree, which is no more
-- than the bound. The owner's key is not empty.
pub compute_degrees_lem :
    (config : WotConfig) (follows : List (Text × List Text))
    → config.owner_pubkey ≢ []
    → (result : List (Text × ℕ)) × (search_degrees config.max_depth follows
          (suc (length (all_followed follows)))
          (record { pubkey = config.owner_pubkey; depth = 0 } ∷ [])
          ((config.owner_pubkey, 0) ∷ [])
        ≡ some result)
      × (compute_degrees config follows ≡ result)
      × All (IsDegree config.max_depth follows config.owner_pubkey) result
unfolding compute_degrees Walk
compute_degrees_lem config follows named =
    let first : List Visit = record { pubkey = config.owner_pubkey; depth = 0 } ∷ [] in
    let known : List (Text × ℕ) = (config.owner_pubkey, 0) ∷ [] in
    let few = unvisited-le known (all_followed follows) in
    let (result, ends) =
      search_ends config.max_depth follows (suc (length (all_followed follows))) first known
        (omega arith) in
    (
      result,
      ends,
      if_named_lem config.owner_pubkey _ named ∙ ap given_degrees ends,
      search-IsDegree config.max_depth follows config.owner_pubkey _ first known result
          (((refl, omega arith), tt), ((refl, omega arith), tt)) ends,
    )
