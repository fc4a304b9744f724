-- ===== src/Wot/Graph/Levels.antt =====
-- One step of the breadth-first search of src/wot/graph.ts: the levels of its queue, and what becomes of
-- the keys of a list.
use nostr_swarm.Wot.Graph.{visit_all, Visit}
use nostr_swarm.Util.Maps.{
  All-set_entry, All-get_entry, get_entry-set_entry, get_entry, set_entry, has_entry, is_some,
}
use nostr_swarm.Base.{
  Bool-cases, some-eq, In, In-append_left, In-append_right, All, Text, eqb, eqb→eq, eqb_iff, ℕ, suc,
  ◌≤◌, ◌≡◌, refl, sym, ap, ap₂, ◌∙◌, ◌⊎◌, inl, inr, true, Option, none, some, List, [], ◌∷◌, ◌++◌,
  arith,
}

-- The queue in the order of the depths.
unfoldable pub InOrder : List Visit → Type 0
InOrder [] = Unit
InOrder (v ∷ queue) = All (λ w. v.depth ≤ w.depth) queue × InOrder queue

-- What is in the queue lies on one level or the next, and no degree is beyond that.
abbrev pub IsLevel : ℕ → List Visit × List (Text × ℕ) → Type 0
IsLevel k s =
    InOrder s.0 × All (λ w. k ≤ w.depth × w.depth ≤ suc k) s.0 × All (λ e. e.1 ≤ suc k) s.1

append-All :
    {A : Type 0} (P : A → Type 0) (l : List A) (a : A) → All P l → P a → All P (l ++ a ∷ [])
append-All P [] a h p = (p, tt)
append-All P (x ∷ l) a h p = (h.0, append-All P l a h.1 p)

pub All-weaken :
    {A : Type 0} (P Q : A → Type 0) (l : List A) → ((a : A) → P a → Q a) → All P l → All Q l
All-weaken P Q [] f h = tt
All-weaken P Q (x ∷ l) f h = (f x h.0, All-weaken P Q l f h.1)

append-InOrder :
    (queue : List Visit) (v : Visit)
    → InOrder queue
    → All (λ w. w.depth ≤ v.depth) queue
    → InOrder (queue ++ v ∷ [])
unfolding InOrder
append-InOrder [] v o h = (tt, tt)
append-InOrder (w ∷ queue) v o h =
    (append-All (λ x. w.depth ≤ x.depth) queue v o.0 h.0, append-InOrder queue v o.1 h.1)

abbrev pub visit_of : Text → ℕ → Visit
visit_of p d = record { pubkey = p; depth = d }

pub visit_all-IsLevel :
    (fs : List Text) (k : ℕ) (queue : List Visit) (degrees : List (Text × ℕ))
    → IsLevel k (queue, degrees)
    → IsLevel k (visit_all fs (suc k) queue degrees)
unfolding visit_all
visit_all-IsLevel [] k queue degrees l = l
visit_all-IsLevel (f ∷ fs) k queue degrees l = elim (Bool-cases (has_entry f degrees)) [
  | inl old ↦ rw (old, visit_all) (visit_all-IsLevel fs k queue degrees l)
  | inr new ↦
      rw (new, visit_all)
        (visit_all-IsLevel fs k (queue ++ visit_of f (suc k) ∷ []) (set_entry f (suc k) degrees) (
          append-InOrder queue (visit_of f (suc k)) l.0 (All-weaken _ _ queue (λ w h. h.1) l.1),
          append-All _ queue (visit_of f (suc k)) l.1 (omega arith, omega arith),
          All-set_entry _ f (suc k) degrees l.2 (omega arith),
        ))
]

-- A key that has a degree keeps it.
pub visit_all-keeps :
    (fs : List Text) (depth : ℕ) (queue : List Visit) (degrees : List (Text × ℕ)) (p : Text) (d : ℕ)
    → get_entry p degrees ≡ some d
    → get_entry p (visit_all fs depth queue degrees).1 ≡ some d
unfolding visit_all
visit_all-keeps [] depth queue degrees p d h = h
visit_all-keeps (f ∷ fs) depth queue degrees p d h = elim (Bool-cases (has_entry f degrees)) [
  | inl old ↦ rw (old, visit_all) (visit_all-keeps fs depth queue degrees p d h)
  | inr new ↦
      rw (new, visit_all)
        (visit_all-keeps fs depth _ (set_entry f depth degrees) p d
          (ground (arith, get_entry-set_entry f p depth degrees, eqb_iff f p, h, new)))
]

pub visit_all-queue :
    (fs : List Text) (depth : ℕ) (queue : List Visit) (degrees : List (Text × ℕ)) (v : Visit)
    → In v queue
    → In v (visit_all fs depth queue degrees).0
unfolding visit_all
visit_all-queue [] depth queue degrees v m = m
visit_all-queue (f ∷ fs) depth queue degrees v m = elim (Bool-cases (has_entry f degrees)) [
  | inl old ↦ rw (old, visit_all) (visit_all-queue fs depth queue degrees v m)
  | inr new ↦
      rw (new, visit_all)
        (visit_all-queue fs depth _ (set_entry f depth degrees) v
          (In-append_left v queue (visit_of f depth ∷ []) m))
]

-- A key that got its degree stands in the queue.
pub visit_all-new :
    (fs : List Text) (depth : ℕ) (queue : List Visit) (degrees : List (Text × ℕ)) (p : Text) (d : ℕ)
    → get_entry p (visit_all fs depth queue degrees).1 ≡ some d
    → (get_entry p degrees ≡ some d) ⊎ In (visit_of p d) (visit_all fs depth queue degrees).0
unfolding visit_all
visit_all-new [] depth queue degrees p d h = inl h
visit_all-new (f ∷ fs) depth queue degrees p d h = elim (Bool-cases (has_entry f degrees)) [
  | inl old ↦
      rw (old, visit_all) (visit_all-new fs depth queue degrees p d (rw (old, visit_all) at h))
  | inr new ↦
      let grown = queue ++ visit_of f depth ∷ [] in
      let given = set_entry f depth degrees in
      let later : get_entry p (visit_all fs depth grown given).1 ≡ some d =
        rw (new, visit_all) at h in
      rw (new, visit_all)
        (elim (visit_all-new fs depth grown given p d later) [
          | inr queued ↦ inr queued
          | inl here ↦ elim (Bool-cases (eqb f p)) [
            | inr other ↦ inl (ground (arith, get_entry-set_entry f p depth degrees, other, here))
            | inl same ↦
                let at_depth : depth ≡ d =
                  some-eq (ground (arith, get_entry-set_entry f p depth degrees, same, here)) in
                inr (
                  visit_all-queue fs depth grown given (visit_of p d) (
                    In-append_right (visit_of p d) queue (visit_of f depth ∷ [])
                      (inl (ap₂ visit_of (sym (eqb→eq f p same)) (sym at_depth)))))
          ]
        ])
]

found_below :
    (depth : ℕ) (degrees : List (Text × ℕ)) (f : Text) (o : Option ℕ)
    → get_entry f degrees ≡ o
    → is_some o ≡ true
    → All (λ e. e.1 ≤ depth) degrees
    → (d : ℕ) × (get_entry f degrees ≡ some d) × d ≤ depth
found_below depth degrees f none e h bound = ground arith
found_below depth degrees f (some d) e h bound =
    (d, e, All-get_entry (λ x. x.1 ≤ depth) f d degrees bound e)

-- Every followed key has a degree, at most the depth.
pub visit_all-covers :
    (fs : List Text) (depth : ℕ) (queue : List Visit) (degrees : List (Text × ℕ)) (f : Text)
    → All (λ e. e.1 ≤ depth) degrees
    → In f fs
    → (d : ℕ) × (get_entry f (visit_all fs depth queue degrees).1 ≡ some d) × d ≤ depth
unfolding visit_all
visit_all-covers [] depth queue degrees f bound m = elim m [ ]
visit_all-covers (g ∷ fs) depth queue degrees f bound (inl here) =
    elim (Bool-cases (has_entry g degrees)) [
      | inl old ↦
          let (d, e, le) =
            found_below depth degrees f _ refl (ap (λ x. has_entry x degrees) here ∙ old) bound in
          rw (old, visit_all) (d, visit_all-keeps fs depth queue degrees f d e, le)
      | inr new ↦
          rw (new, visit_all)
            (
              depth,
              visit_all-keeps fs depth _ (set_entry g depth degrees) f depth
                  (ground (arith, get_entry-set_entry g f depth degrees, eqb_iff g f, here)),
              omega arith,
            )
    ]
visit_all-covers (g ∷ fs) depth queue degrees f bound (inr there) =
    elim (Bool-cases (has_entry g degrees)) [
      | inl old ↦ rw (old, visit_all) (visit_all-covers fs depth queue degrees f bound there)
      | inr new ↦
          rw (new, visit_all)
            (visit_all-covers fs depth _ (set_entry g depth degrees) f
              (All-set_entry (λ e. e.1 ≤ depth) g depth degrees bound (omega arith)) there)
    ]
