-- ===== src/Hyperbee.antt =====
-- The sub-databases of a Hyperbee, a package that the source calls: an ordered map from texts. The
-- laws are its documented behaviour. Keys that hold no surrogates are ordered by their code units as
-- by the bytes of their UTF-8 form.
pub mod Sorted
pub mod Count
use nostr_swarm.Base.{
  ltb, leb, ◌==◌, if◌then◌else◌, ltb→lt, lt→ltb, ltb_false→le, leb_false→lt, leb→le, le→leb, ==_iff,
  tests, Bool-cases, Option-cases, some-eq, none-ne-some, length, get_elem?, take, drop, replicate,
  length-append, length-take-le, find, keep, any, all, In, In-append_left, In-append_right,
  In-append_cases, All, Text, text, eqb, eqb→eq, eqb_refl, eqb_iff, eqb_comm, text_lt, text_le,
  text_lt_irrefl, text_lt_trans, text_lt_total, text_lt_asymm, text_lt-append, text_le-append,
  starts_with, starts_with-append, includes, includes_text, includes_text→In, In→includes_text, ℤ,
  pos, negsuc, pos_part, neg_part, sub_ℕ, ltb_ℤ, leb_ℤ, eqb_ℤ, leb_ℤ-pos, ◌+ℤ◌, ◌-ℤ◌, to_u32, ℕ,
  zero, suc, ◌+◌, ◌-◌, ◌*◌, ◌/◌, ◌%◌, ◌^◌, ◌≤◌, ◌<◌, ◌≡◌, refl, sym, ap, ap₂, ◌∙◌, subst, ◌≡⟨◌⟩◌,
  ◌∎, ◌≢◌, ◌↔◌, ◌⊎◌, inl, inr, Bool, true, false, not, ◌&&◌, ◌||◌, Option, none, some, List, [],
  ◌∷◌, ◌++◌, map, append_assoc, append-nil, arith,
}

-- The bounds of a read stream; a bound that is absent is `none`.
pub record Range : Type 0 where
  pub gte : Option Text
  pub lt : Option Text
  pub lte : Option Text

abbrev pub above : Option Text → Text → Bool
above none k = true
above (some b) k = text_le b k

abbrev pub below : Option Text → Text → Bool
below none k = true
below (some b) k = text_lt k b

abbrev pub up_to : Option Text → Text → Bool
up_to none k = true
up_to (some b) k = text_le k b

unfoldable pub in_range : Range → Text → Bool
in_range r k = above r.gte k && (below r.lt k && up_to r.lte k)

abbrev pub everything : Range
everything = record { gte = none; lt = none; lte = none }

-- Keys in ascending order, none of them twice.
abbrev pub AllAfter : {V : Type 0} → Text → List (Text × V) → Type 0
AllAfter k [] = Unit
AllAfter k ((j, v) ∷ l) = (text_lt k j ≡ true) × AllAfter k l

abbrev pub IsAscending : {V : Type 0} → List (Text × V) → Type 0
IsAscending [] = Unit
IsAscending ((k, v) ∷ l) = AllAfter k l × IsAscending l

pub record Hyperbee : Type 1 where
  pub Sub : Type 0 → Type 0
  pub empty : {V : Type 0} → Sub V
  pub get : {V : Type 0} → Sub V → Text → Option V
  pub put : {V : Type 0} → Sub V → Text → V → Sub V
  pub del : {V : Type 0} → Sub V → Text → Sub V
  pub read_stream : {V : Type 0} → Sub V → Range → List (Text × V)
  pub get-empty : {V : Type 0} (k : Text) → get (empty {V = V}) k ≡ none
  pub get-put :
      {V : Type 0} (s : Sub V) (k j : Text) (v : V)
      → get (put s k v) j ≡ (if eqb k j then some v else get s j)
  pub get-del :
      {V : Type 0} (s : Sub V) (k j : Text) → get (del s k) j ≡ (if eqb k j then none else get s j)
  -- A stream yields the entries whose keys are in the range, in the order of the keys.
  pub get-read_stream :
      {V : Type 0} (s : Sub V) (r : Range) (k : Text) (v : V)
      → In (k, v) (read_stream s r)
      → (get s k ≡ some v) × (in_range r k ≡ true)
  pub read_stream-get :
      {V : Type 0} (s : Sub V) (r : Range) (k : Text) (v : V)
      → get s k ≡ some v
      → in_range r k ≡ true
      → In (k, v) (read_stream s r)
  pub read_stream-IsAscending : {V : Type 0} (s : Sub V) (r : Range) → IsAscending (read_stream s r)
