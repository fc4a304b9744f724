-- ===== src/Util/Maps.antt =====
-- The maps and sets of the language, as lists in the order of insertion.
use nostr_swarm.Base.{
  if◌then◌else◌, Bool-cases, some-eq, All, Text, eqb, eqb→eq, eqb_iff, includes_text, ◌≡◌, refl,
  sym, subst, inl, inr, Bool, true, false, Option, none, some, List, [], ◌∷◌, ◌++◌, arith,
}

unfoldable pub get_entry : {A : Type 0} → Text → List (Text × A) → Option A
get_entry k [] = none
get_entry k ((j, v) ∷ m) = if eqb j k then some v else get_entry k m

-- `map.set(k, v)`
unfoldable pub set_entry : {A : Type 0} → Text → A → List (Text × A) → List (Text × A)
set_entry k v [] = (k, v) ∷ []
set_entry k v ((j, w) ∷ m) =
    let rest = set_entry k v m in if eqb j k then (j, v) ∷ m else (j, w) ∷ rest

abbrev pub is_some : {A : Type 0} → Option A → Bool
is_some none = false
is_some (some v) = true

abbrev pub has_entry : {A : Type 0} → Text → List (Text × A) → Bool
has_entry k m = is_some (get_entry k m)

-- `set.add(s)`
abbrev pub add_value : List Text → Text → List Text
add_value l s = if includes_text l s then l else l ++ s ∷ []

pub get_entry-set_entry :
    {A : Type 0} (k j : Text) (v : A) (m : List (Text × A))
    → get_entry j (set_entry k v m) ≡ (if eqb k j then some v else get_entry j m)
unfolding get_entry set_entry
get_entry-set_entry k j v [] = refl
get_entry-set_entry k j v ((i, w) ∷ m) =
    ground (arith, get_entry-set_entry k j v m, eqb_iff i k, eqb_iff i j, eqb_iff k j)

-- What holds of all entries holds of those that are found.
pub All-get_entry :
    {A : Type 0} (P : Text × A → Type 0) (k : Text) (v : A) (m : List (Text × A))
    → All P m
    → get_entry k m ≡ some v
    → P (k, v)
unfolding get_entry
All-get_entry P k v [] a h = cc
All-get_entry P k v ((j, w) ∷ m) a h = elim (Bool-cases (eqb j k)) [
  | inl same ↦
      let found : some w ≡ some v = rw same at h in
      subst (λ x. P (x, v)) (eqb→eq j k same) (subst (λ x. P (j, x)) (some-eq found) a.0)
  | inr other ↦ All-get_entry P k v m a.1 (rw other at h)
]

pub All-set_entry :
    {A : Type 0} (P : Text × A → Type 0) (k : Text) (v : A) (m : List (Text × A))
    → All P m
    → P (k, v)
    → All P (set_entry k v m)
unfolding set_entry
All-set_entry P k v [] a h = (h, tt)
All-set_entry P k v ((j, w) ∷ m) a h = elim (Bool-cases (eqb j k)) [
  | inl same ↦ rw same (subst (λ x. P (x, v)) (sym (eqb→eq j k same)) h, a.1)
  | inr other ↦ rw other (a.0, All-set_entry P k v m a.1 h)
]
