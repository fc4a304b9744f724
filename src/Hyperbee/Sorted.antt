-- ===== src/Hyperbee/Sorted.antt =====
-- A Hyperbee that exists: a sorted association list. It shows that the laws can be met.
use nostr_swarm.Hyperbee.{Range, in_range, AllAfter, IsAscending, Hyperbee}
use nostr_swarm.Base.{
  if◌then◌else◌, Bool-cases, In, Text, eqb, eqb→eq, eqb_iff, text_lt, text_lt_irrefl, text_lt_trans,
  text_lt_total, ◌≡◌, refl, sym, ap, inl, inr, true, Option, none, some, List, [], ◌∷◌, arith,
}

module _ {V : Type 0} where
  unfoldable pub lookup : Text → List (Text × V) → Option V
  lookup k [] = none
  lookup k ((j, v) ∷ l) = if eqb j k then some v else lookup k l

  unfoldable pub insert : Text → V → List (Text × V) → List (Text × V)
  insert k v [] = (k, v) ∷ []
  insert k v ((j, w) ∷ l) =
      let rest = insert k v l in
      if eqb j k then (k, v) ∷ l else if text_lt k j then (k, v) ∷ (j, w) ∷ l else (j, w) ∷ rest

  unfoldable pub remove : Text → List (Text × V) → List (Text × V)
  remove k [] = []
  remove k ((j, w) ∷ l) = let rest = remove k l in if eqb j k then rest else (j, w) ∷ rest

  pub lookup-insert :
      (k j : Text) (v : V) (l : List (Text × V))
      → lookup j (insert k v l) ≡ (if eqb k j then some v else lookup j l)
  unfolding lookup insert
  lookup-insert k j v [] = refl
  lookup-insert k j v ((i, w) ∷ l) =
      ground (arith, eqb_iff k j, eqb_iff i k, eqb_iff i j, lookup-insert k j v l)

  pub lookup-remove :
      (k j : Text) (l : List (Text × V))
      → lookup j (remove k l) ≡ (if eqb k j then none else lookup j l)
  unfolding lookup remove
  lookup-remove k j [] = ground arith
  lookup-remove k j ((i, w) ∷ l) =
      ground (arith, eqb_iff k j, eqb_iff i k, eqb_iff i j, lookup-remove k j l)

  AllAfter-trans :
      (k j : Text) (l : List (Text × V)) → text_lt k j ≡ true → AllAfter j l → AllAfter k l
  AllAfter-trans k j [] h a = tt
  AllAfter-trans k j ((i, w) ∷ l) h a = (text_lt_trans k j i h a.0, AllAfter-trans k j l h a.1)

  AllAfter-insert :
      (b k : Text) (v : V) (l : List (Text × V))
      → text_lt b k ≡ true
      → AllAfter b l
      → AllAfter b (insert k v l)
  unfolding insert
  AllAfter-insert b k v [] h a = (h, tt)
  AllAfter-insert b k v ((j, w) ∷ l) h a = ground (arith, AllAfter-insert b k v l h a.1)

  pub insert-IsAscending :
      (k : Text) (v : V) (l : List (Text × V)) → IsAscending l → IsAscending (insert k v l)
  unfolding insert
  insert-IsAscending k v [] s = (tt, tt)
  insert-IsAscending k v ((j, w) ∷ l) s = elim (Bool-cases (eqb j k)) [
    | inl same ↦ rw same (rw (eqb→eq j k same) at s)
    | inr other ↦ elim (Bool-cases (text_lt k j)) [
      | inl before ↦ rw (other, before) ((before, AllAfter-trans k j l before s.0), s)
      | inr after ↦
          let later : text_lt j k ≡ true = ground (arith, text_lt_total k j, eqb_iff j k) in
          rw (other, after) (AllAfter-insert j k v l later s.0, insert-IsAscending k v l s.1)
    ]
  ]

  AllAfter-remove : (b k : Text) (l : List (Text × V)) → AllAfter b l → AllAfter b (remove k l)
  unfolding remove
  AllAfter-remove b k [] a = tt
  AllAfter-remove b k ((j, w) ∷ l) a = ground (arith, AllAfter-remove b k l a.1)

  pub remove-IsAscending :
      (k : Text) (l : List (Text × V)) → IsAscending l → IsAscending (remove k l)
  unfolding remove
  remove-IsAscending k [] s = tt
  remove-IsAscending k ((j, w) ∷ l) s = elim (Bool-cases (eqb j k)) [
    | inl same ↦ rw same (remove-IsAscending k l s.1)
    | inr other ↦ rw other (AllAfter-remove j k l s.0, remove-IsAscending k l s.1)
  ]

  unfoldable pub within : Range → List (Text × V) → List (Text × V)
  within r [] = []
  within r ((k, v) ∷ l) = let rest = within r l in if in_range r k then (k, v) ∷ rest else rest

  AllAfter-within :
      (b : Text) (r : Range) (l : List (Text × V)) → AllAfter b l → AllAfter b (within r l)
  unfolding within
  AllAfter-within b r [] a = tt
  AllAfter-within b r ((j, w) ∷ l) a = ground (arith, AllAfter-within b r l a.1)

  pub within-IsAscending :
      (r : Range) (l : List (Text × V)) → IsAscending l → IsAscending (within r l)
  unfolding within
  within-IsAscending r [] s = tt
  within-IsAscending r ((j, w) ∷ l) s = elim (Bool-cases (in_range r j)) [
    | inl inside ↦ rw inside (AllAfter-within j r l s.0, within-IsAscending r l s.1)
    | inr outside ↦ rw outside (within-IsAscending r l s.1)
  ]

  lookup-AllAfter :
      (k : Text) (v : V) (b : Text) (l : List (Text × V))
      → AllAfter b l
      → In (k, v) l
      → text_lt b k ≡ true
  lookup-AllAfter k v b [] a m = elim m [ ]
  lookup-AllAfter k v b ((j, w) ∷ l) a (inl e) = rw (ap (λ p. p.0) e) a.0
  lookup-AllAfter k v b ((j, w) ∷ l) a (inr m) = lookup-AllAfter k v b l a.1 m

  pub lookup-In :
      (k : Text) (v : V) (l : List (Text × V)) → IsAscending l → In (k, v) l → lookup k l ≡ some v
  unfolding lookup
  lookup-In k v [] s m = elim m [ ]
  lookup-In k v ((j, w) ∷ l) s (inl e) =
      rw ((eqb_iff j k).1 (sym (ap (λ p. p.0) e))) (sym (ap (λ p. some p.1) e))
  lookup-In k v ((j, w) ∷ l) s (inr m) =
      let later : text_lt j k ≡ true = lookup-AllAfter k v j l s.0 m in
      ground (arith, eqb_iff j k, text_lt_irrefl j, lookup-In k v l s.1 m)

  pub In-within :
      (r : Range) (k : Text) (v : V) (l : List (Text × V))
      → In (k, v) (within r l)
      → In (k, v) l × (in_range r k ≡ true)
  unfolding within
  In-within r k v [] m = elim m [ ]
  In-within r k v ((j, w) ∷ l) m = elim (Bool-cases (in_range r j)) [
    | inl inside ↦ elim (rw inside at m) [
      | inl e ↦ (inl e, rw (ap (λ p. p.0) e) inside)
      | inr later ↦ let (there, ok) = In-within r k v l later in (inr there, ok)
    ]
    | inr outside ↦ let (there, ok) = In-within r k v l (rw outside at m) in (inr there, ok)
  ]

  pub within-In :
      (r : Range) (k : Text) (v : V) (l : List (Text × V))
      → lookup k l ≡ some v
      → in_range r k ≡ true
      → In (k, v) (within r l)
  unfolding within lookup
  within-In r k v [] h g = cc
  within-In r k v ((j, w) ∷ l) h g = elim (Bool-cases (eqb j k)) [
    | inl same ↦
        let e : j ≡ k = eqb→eq j k same in let f : w ≡ v = ground arith in rw (e, g, f) (inl refl)
    | inr other ↦
        let rest : In (k, v) (within r l) = within-In r k v l (rw other at h) g in
        elim (Bool-cases (in_range r j)) [
          | inl inside ↦ rw inside (inr rest)
          | inr outside ↦ rw outside rest
        ]
  ]

pub record SortedMap (V : Type 0) : Type 0 where
  pub entries : List (Text × V)
  pub ascending : IsAscending entries

unfoldable pub sorted_hyperbee : Hyperbee
unfolding lookup insert remove within
sorted_hyperbee = record {
  Sub = SortedMap;
  empty = record { entries = []; ascending = tt };
  get = λ s k. lookup k s.entries;
  put = λ s k v. record {
    entries = insert k v s.entries;
    ascending = insert-IsAscending k v s.entries s.ascending;
  };
  del = λ s k. record {
    entries = remove k s.entries;
    ascending = remove-IsAscending k s.entries s.ascending;
  };
  read_stream = λ s r. within r s.entries;
  get-empty = λ k. refl;
  get-put = λ s k j v. lookup-insert k j v s.entries;
  get-del = λ s k j. lookup-remove k j s.entries;
  get-read_stream = λ s r k v m.
      let (there, ok) = In-within r k v s.entries m in
      (lookup-In k v s.entries s.ascending there, ok);
  read_stream-get = λ s r k v h g. within-In r k v s.entries h g;
  read_stream-IsAscending = λ s r. within-IsAscending r s.entries s.ascending;
}
