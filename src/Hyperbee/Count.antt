-- ===== src/Hyperbee/Count.antt =====
-- A put adds at most one entry to what a read stream of everything yields.
use nostr_swarm.Hyperbee.{AllAfter, IsAscending, Hyperbee, everything, in_range}
use nostr_swarm.Base.{
  if◌then◌else◌, Bool-cases, length, In, Text, eqb, eqb→eq, eqb_iff, text_lt, text_lt_irrefl,
  text_lt_trans, ◌+◌, ◌≤◌, ◌≡◌, refl, sym, ap, ◌∙◌, ◌≢◌, ◌⊎◌, inl, inr, true, some, List, [], ◌∷◌,
  arith,
}

module _ {V : Type 0} where
  abbrev HasKey : Text → List (Text × V) → Type 0
  HasKey k [] = ⊥
  HasKey k ((j, v) ∷ l) = (k ≡ j) ⊎ HasKey k l

  HasKey-In : (k : Text) (v : V) (l : List (Text × V)) → In (k, v) l → HasKey k l
  HasKey-In k v [] m = elim m [ ]
  HasKey-In k v ((j, w) ∷ l) (inl e) = inl (ap (λ p. p.0) e)
  HasKey-In k v ((j, w) ∷ l) (inr m) = inr (HasKey-In k v l m)

  lt_of_AllAfter :
      (b k : Text) (l : List (Text × V)) → AllAfter b l → HasKey k l → text_lt b k ≡ true
  lt_of_AllAfter b k [] a m = elim m [ ]
  lt_of_AllAfter b k ((j, w) ∷ l) a (inl e) = rw e a.0
  lt_of_AllAfter b k ((j, w) ∷ l) a (inr m) = lt_of_AllAfter b k l a.1 m

  -- All keys of one list are keys of another.
  abbrev KeysIn : List (Text × V) → List (Text × V) → Type 0
  KeysIn xs ys = (k : Text) → HasKey k xs → HasKey k ys

  drop_smaller :
      (xs : List (Text × V)) (y : Text) (w : V) (ys : List (Text × V))
      → ((k : Text) → HasKey k xs → text_lt y k ≡ true)
      → KeysIn xs ((y, w) ∷ ys)
      → KeysIn xs ys
  drop_smaller xs y w ys later sub k m = elim (sub k m) [
    | inl e ↦ cc (later k m, text_lt_irrefl y, ap (text_lt y) e)
    | inr there ↦ there
  ]

  length-KeysIn :
      (ys xs : List (Text × V))
      → IsAscending xs
      → IsAscending ys
      → KeysIn xs ys
      → length xs ≤ length ys
  length-KeysIn [] [] a b sub = omega arith
  length-KeysIn [] ((x, v) ∷ xs) a b sub = elim (sub x (inl refl)) [ ]
  length-KeysIn ((y, w) ∷ ys) [] a b sub = omega arith
  length-KeysIn ((y, w) ∷ ys) ((x, v) ∷ xs) a b sub = elim (sub x (inl refl)) [
    | inl same ↦ omega (
      arith,
      length-KeysIn ys xs a.1 b.1 (
          drop_smaller xs y w ys (λ k m. rw (← same) (lt_of_AllAfter x k xs a.0 m))
            (λ k m. sub k (inr m))),
    )
    | inr there ↦
        let after : text_lt y x ≡ true = lt_of_AllAfter y x ys b.0 there in
        omega (
          arith,
          length-KeysIn ys ((x, v) ∷ xs) a b.1 (
              drop_smaller ((x, v) ∷ xs) y w ys
                (λ k m. elim m [
                  | inl e ↦ rw e after
                  | inr m' ↦ text_lt_trans y x k after (lt_of_AllAfter x k xs a.0 m')
                ])
                sub),
        )
  ]

  -- Without the first entry of a key.
  erase : Text → List (Text × V) → List (Text × V)
  erase k [] = []
  erase k ((j, v) ∷ l) = let rest = erase k l in if eqb j k then l else (j, v) ∷ rest

  length-erase : (k : Text) (l : List (Text × V)) → length l ≤ length (erase k l) + 1
  unfolding erase
  length-erase k [] = omega arith
  length-erase k ((j, v) ∷ l) = ground (arith, length-erase k l)

  HasKey-erase :
      (k j : Text) (l : List (Text × V))
      → IsAscending l
      → HasKey j (erase k l)
      → HasKey j l × (j ≢ k)
  unfolding erase
  HasKey-erase k j [] a m = elim m [ ]
  HasKey-erase k j ((i, v) ∷ l) a m = elim (Bool-cases (eqb i k)) [
    | inl same ↦
        let there : HasKey j l = rw same at m in
        (
          inr there,
          λ e. cc (
            lt_of_AllAfter i j l a.0 there,
            text_lt_irrefl i,
            ap (text_lt i) (e ∙ sym (eqb→eq i k same)),
          ),
        )
    | inr other ↦ elim (rw other at m) [
      | inl e ↦ (inl e, λ same. cc (other, (eqb_iff i k).1 (sym e ∙ same)))
      | inr later ↦ let (there, ne) = HasKey-erase k j l a.1 later in (inr there, ne)
    ]
  ]

  AllAfter-erase : (b k : Text) (l : List (Text × V)) → AllAfter b l → AllAfter b (erase k l)
  unfolding erase
  AllAfter-erase b k [] a = tt
  AllAfter-erase b k ((j, v) ∷ l) a = ground (arith, AllAfter-erase b k l a.1)

  erase-IsAscending : (k : Text) (l : List (Text × V)) → IsAscending l → IsAscending (erase k l)
  unfolding erase
  erase-IsAscending k [] a = tt
  erase-IsAscending k ((j, v) ∷ l) a = elim (Bool-cases (eqb j k)) [
    | inl same ↦ rw same a.1
    | inr other ↦ rw other (AllAfter-erase j k l a.0, erase-IsAscending k l a.1)
  ]

module _ (bee : Hyperbee) {V : Type 0} where
  abbrev entries : bee.Sub V → List (Text × V)
  entries s = bee.read_stream s everything

  value_of : (k : Text) (l : List (Text × V)) → HasKey k l → (v : V) × In (k, v) l
  value_of k [] m = elim m [ ]
  value_of k ((j, w) ∷ l) (inl e) = (w, inl (ap (λ x. (x, w)) e))
  value_of k ((j, w) ∷ l) (inr m) = let (v, there) = value_of k l m in (v, inr there)

  old_key :
      (s : bee.Sub V) (k j : Text) (v : V)
      → HasKey j (entries (bee.put s k v))
      → j ≢ k
      → HasKey j (entries s)
  unfolding in_range
  old_key s k j v m ne =
      let (w, there) = value_of j (entries (bee.put s k v)) m in
      HasKey-In j w (entries s) (
        bee.read_stream-get s everything j w
          (get_old w (bee.get-read_stream (bee.put s k v) everything j w there).0) refl)
    where
      get_old : (w : V) → bee.get (bee.put s k v) j ≡ some w → bee.get s j ≡ some w
      get_old w h = ground (arith, bee.get-put s k j v, eqb_iff k j)

  -- Putting a key adds at most one entry.
  pub length-put :
      (s : bee.Sub V) (k : Text) (v : V) → length (entries (bee.put s k v)) ≤ length (entries s) + 1
  length-put s k v =
      let xs = entries (bee.put s k v) in
      let a = bee.read_stream-IsAscending (bee.put s k v) everything in
      let sub : KeysIn (erase k xs) (entries s) =
        λ j m. old_key s k j v (HasKey-erase k j xs a m).0 (HasKey-erase k j xs a m).1 in
      omega (
        arith,
        length-erase k xs,
        length-KeysIn (entries s) (erase k xs) (erase-IsAscending k xs a)
            (bee.read_stream-IsAscending s everything) sub,
      )
