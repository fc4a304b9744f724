-- ===== src/Storage/Query/Sorted.antt =====
-- Sorting by `compareNewestFirst`: the order of the results, and what it leaves as it was.
use nostr_swarm.Nostr.Event.Replace.{should_replace_trans, should_replace_asymm}
use nostr_swarm.Nostr.Event.{should_replace, NostrEvent}
use nostr_swarm.Storage.Query.{compare_newest_first, finalize, sort_events, insert_sorted}
use nostr_swarm.Base.{
  ltb, ltb_false→le, Bool-cases, length, take, length-take-le, All, pos, ltb_ℤ, ◌-ℤ◌, ℕ, zero, suc,
  ◌≤◌, ◌≡◌, sym, ◌∙◌, ◌≢◌, inl, inr, true, false, List, [], ◌∷◌, ◌++◌, arith,
}

-- Nothing that comes later is newer.
abbrev pub NoneNewer : NostrEvent → List NostrEvent → Type 0
NoneNewer e l = All (λ f. should_replace e f ≡ false) l

abbrev pub IsSorted : List NostrEvent → Type 0
IsSorted [] = Unit
IsSorted (e ∷ es) = NoneNewer e es × IsSorted es

-- The comparator puts one event before another exactly if it would replace the other.
compare-should_replace :
    (a b : NostrEvent) → ltb_ℤ (compare_newest_first a b) (pos 0) ≡ should_replace b a
unfolding compare_newest_first should_replace ◌-ℤ◌
compare-should_replace a b = ground arith

NoneNewer-insert :
    (a e : NostrEvent) (l : List NostrEvent)
    → should_replace a e ≡ false
    → NoneNewer a l
    → NoneNewer a (insert_sorted e l)
unfolding insert_sorted
NoneNewer-insert a e [] h n = (h, tt)
NoneNewer-insert a e (f ∷ fs) h n = ground (arith, NoneNewer-insert a e fs h n.1)

-- If `e` is newer than `f`, nothing that is not newer than `f` is newer than `e`.
not_newer_trans :
    (e f g : NostrEvent)
    → should_replace f e ≡ true
    → should_replace f g ≡ false
    → should_replace e g ≡ false
not_newer_trans e f g h k = elim (Bool-cases (should_replace e g)) [
  | inl newer ↦ cc (should_replace_trans f e g h newer, k)
  | inr old ↦ old
]

NoneNewer-trans :
    (e f : NostrEvent) (l : List NostrEvent)
    → should_replace f e ≡ true
    → NoneNewer f l
    → NoneNewer e l
NoneNewer-trans e f [] h n = tt
NoneNewer-trans e f (g ∷ l) h n = (not_newer_trans e f g h n.0, NoneNewer-trans e f l h n.1)

insert_sorted-IsSorted :
    (e : NostrEvent) (l : List NostrEvent) → IsSorted l → IsSorted (insert_sorted e l)
unfolding insert_sorted
insert_sorted-IsSorted e [] s = (tt, tt)
insert_sorted-IsSorted e (f ∷ fs) s = elim (Bool-cases (should_replace f e)) [
  | inl newer ↦
      let test : ltb_ℤ (compare_newest_first e f) (pos 0) ≡ true =
        compare-should_replace e f ∙ newer in
      rw test ((should_replace_asymm f e newer, NoneNewer-trans e f fs newer s.0), s)
  | inr older ↦
      let test : ltb_ℤ (compare_newest_first e f) (pos 0) ≡ false =
        compare-should_replace e f ∙ older in
      rw test (NoneNewer-insert f e fs older s.0, insert_sorted-IsSorted e fs s.1)
]

-- In a sorted list of results no event would replace one that comes before it: newest first, and the
-- smaller id first at one time.
pub sort_events-IsSorted : (l : List NostrEvent) → IsSorted (sort_events l)
unfolding sort_events
sort_events-IsSorted [] = tt
sort_events-IsSorted (e ∷ es) = insert_sorted-IsSorted e (sort_events es) (sort_events-IsSorted es)

NoneNewer-take :
    (n : ℕ) (e : NostrEvent) (l : List NostrEvent) → NoneNewer e l → NoneNewer e (take n l)
NoneNewer-take zero e l h = tt
NoneNewer-take (suc n) e [] h = tt
NoneNewer-take (suc n) e (f ∷ l) h = (h.0, NoneNewer-take n e l h.1)

take-IsSorted : (n : ℕ) (l : List NostrEvent) → IsSorted l → IsSorted (take n l)
take-IsSorted zero l s = tt
take-IsSorted (suc n) [] s = tt
take-IsSorted (suc n) (e ∷ l) s = (NoneNewer-take n e l s.0, take-IsSorted n l s.1)

-- A property of all events of a list, and of any pair, outlives sorting and truncation.
module _ (P : NostrEvent → Type 0) where
  insert_sorted-All :
      (e : NostrEvent) (l : List NostrEvent) → P e → All P l → All P (insert_sorted e l)
  unfolding insert_sorted
  insert_sorted-All e [] h a = (h, tt)
  insert_sorted-All e (f ∷ fs) h a = ground (arith, insert_sorted-All e fs h a.1)

  pub sort_events-All : (l : List NostrEvent) → All P l → All P (sort_events l)
  unfolding sort_events
  sort_events-All [] a = tt
  sort_events-All (e ∷ es) a = insert_sorted-All e (sort_events es) a.0 (sort_events-All es a.1)

  pub take-All : (n : ℕ) (l : List NostrEvent) → All P l → All P (take n l)
  take-All zero l a = tt
  take-All (suc n) [] a = tt
  take-All (suc n) (e ∷ l) a = (a.0, take-All n l a.1)

  pub append-All : (l : List NostrEvent) (e : NostrEvent) → All P l → P e → All P (l ++ e ∷ [])
  append-All [] e a h = (h, tt)
  append-All (f ∷ l) e a h = (a.0, append-All l e a.1 h)

-- No two events have one id.
abbrev pub Unlike : NostrEvent → NostrEvent → Type 0
Unlike e f = e.id ≢ f.id

abbrev pub IsDistinct : List NostrEvent → Type 0
IsDistinct [] = Unit
IsDistinct (e ∷ es) = All (Unlike e) es × IsDistinct es

insert_sorted-IsDistinct :
    (e : NostrEvent) (l : List NostrEvent)
    → All (Unlike e) l
    → IsDistinct l
    → IsDistinct (insert_sorted e l)
unfolding insert_sorted
insert_sorted-IsDistinct e [] a d = (tt, tt)
insert_sorted-IsDistinct e (f ∷ fs) a d =
    elim (Bool-cases (ltb_ℤ (compare_newest_first e f) (pos 0))) [
      | inl first ↦ rw first (a, d)
      | inr later ↦ rw later (
        insert_sorted-All (Unlike f) e fs (λ h. a.0 (sym h)) d.0,
        insert_sorted-IsDistinct e fs a.1 d.1,
      )
    ]

pub sort_events-IsDistinct : (l : List NostrEvent) → IsDistinct l → IsDistinct (sort_events l)
unfolding sort_events
sort_events-IsDistinct [] d = tt
sort_events-IsDistinct (e ∷ es) d =
    insert_sorted-IsDistinct e (sort_events es) (sort_events-All (Unlike e) es d.0)
      (sort_events-IsDistinct es d.1)

pub take-IsDistinct : (n : ℕ) (l : List NostrEvent) → IsDistinct l → IsDistinct (take n l)
take-IsDistinct zero l d = tt
take-IsDistinct (suc n) [] d = tt
take-IsDistinct (suc n) (e ∷ l) d = (take-All (Unlike e) n l d.0, take-IsDistinct n l d.1)

pub append-IsDistinct :
    (l : List NostrEvent) (e : NostrEvent)
    → IsDistinct l
    → All (λ f. Unlike f e) l
    → IsDistinct (l ++ e ∷ [])
append-IsDistinct [] e d a = (tt, tt)
append-IsDistinct (f ∷ l) e d a = (append-All (Unlike f) l e d.0 a.0, append-IsDistinct l e d.1 a.1)

-- What `finalize` returns: no more events than the limit, newest first.
pub finalize_bounds :
    (l : List NostrEvent) (limit : ℕ)
    → (length (finalize l limit).events ≤ limit) × IsSorted (finalize l limit).events
unfolding finalize
finalize_bounds l limit = elim (Bool-cases (ltb limit (length (sort_events l)))) [
  | inl over ↦ rw over (
    length-take-le limit (sort_events l),
    take-IsSorted limit (sort_events l) (sort_events-IsSorted l),
  )
  | inr fits ↦ rw fits (ltb_false→le limit (length (sort_events l)) fits, sort_events-IsSorted l)
]

pub finalize-All :
    (P : NostrEvent → Type 0) (l : List NostrEvent) (limit : ℕ)
    → All P l
    → All P (finalize l limit).events
unfolding finalize
finalize-All P l limit a = elim (Bool-cases (ltb limit (length (sort_events l)))) [
  | inl over ↦ rw over (take-All P limit (sort_events l) (sort_events-All P l a))
  | inr fits ↦ rw fits (sort_events-All P l a)
]

pub finalize-IsDistinct :
    (l : List NostrEvent) (limit : ℕ) → IsDistinct l → IsDistinct (finalize l limit).events
unfolding finalize
finalize-IsDistinct l limit d = elim (Bool-cases (ltb limit (length (sort_events l)))) [
  | inl over ↦ rw over (take-IsDistinct limit (sort_events l) (sort_events-IsDistinct l d))
  | inr fits ↦ rw fits (sort_events-IsDistinct l d)
]
