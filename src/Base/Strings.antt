-- ===== src/Base/Strings.antt =====
-- Texts as lists of UTF-16 code units: equality and the lexicographic order of the `<` of strings.
use Prim.Native.Nat.{ℕ}
use Prim.Native.Char.{code}
use Prim.Native.String.{String}
use mathlib.Core.Path.{◌≡◌, refl, ap}
use mathlib.Core.Logic.{◌↔◌}
use mathlib.Core.Bool.{Bool, true, false, not, ◌&&◌, ◌||◌}
use mathlib.Core.List.{List, [], ◌∷◌, ◌++◌}
use native.Mathlib.Omega.{arith}
use mathlib.Core.Path.{sym}
use mathlib.Core.Logic.{inl, inr}
use nostr_swarm.Base.Lists.{In}
use nostr_swarm.Base.Tests.{Bool-cases, ltb, ◌==◌}

abbrev pub Text : Type 0
Text = List ℕ

-- A literal of the source.
abbrev pub text : String → Text
text String.[] = []
text (String.◌∷◌ c s) = code c ∷ text s

unfoldable pub eqb : Text → Text → Bool
eqb [] [] = true
eqb (a ∷ as') (b ∷ bs) = a == b && eqb as' bs
eqb _ _ = false

pub eqb→eq : (s t : Text) → eqb s t ≡ true → s ≡ t
unfolding eqb
eqb→eq [] [] h = refl
eqb→eq [] (b ∷ t) h = ground arith
eqb→eq (a ∷ s) [] h = ground arith
eqb→eq (a ∷ s) (b ∷ t) h = ground (arith, eqb→eq s t)

pub eqb_refl : (s : Text) → eqb s s ≡ true
unfolding eqb
eqb_refl [] = refl
eqb_refl (a ∷ s) = ground (arith, eqb_refl s)

pub eqb_iff : (s t : Text) → (eqb s t ≡ true) ↔ (s ≡ t)
eqb_iff s t = (eqb→eq s t, λ e. rw e (eqb_refl t))

pub eqb_comm : (s t : Text) → eqb s t ≡ eqb t s
unfolding eqb
eqb_comm [] [] = refl
eqb_comm [] (b ∷ t) = refl
eqb_comm (a ∷ s) [] = refl
eqb_comm (a ∷ s) (b ∷ t) = ground (arith, eqb_comm s t)

-- `s < t` of two strings.
unfoldable pub text_lt : Text → Text → Bool
text_lt [] [] = false
text_lt [] (b ∷ t) = true
text_lt (a ∷ s) [] = false
text_lt (a ∷ s) (b ∷ t) = ltb a b || (a == b && text_lt s t)

unfoldable pub text_le : Text → Text → Bool
text_le s t = not (text_lt t s)

pub text_lt_irrefl : (s : Text) → text_lt s s ≡ false
unfolding text_lt
text_lt_irrefl [] = refl
text_lt_irrefl (a ∷ s) = ground (arith, text_lt_irrefl s)

pub text_lt_trans : (s t u : Text) → text_lt s t ≡ true → text_lt t u ≡ true → text_lt s u ≡ true
unfolding text_lt
text_lt_trans [] [] u h k = ground arith
text_lt_trans [] (b ∷ t) [] h k = ground arith
text_lt_trans [] (b ∷ t) (c ∷ u) h k = refl
text_lt_trans (a ∷ s) [] u h k = ground arith
text_lt_trans (a ∷ s) (b ∷ t) [] h k = ground arith
text_lt_trans (a ∷ s) (b ∷ t) (c ∷ u) h k = ground (arith, text_lt_trans s t u)

pub text_lt_total : (s t : Text) → text_lt s t ≡ false → text_lt t s ≡ false → s ≡ t
unfolding text_lt
text_lt_total [] [] h k = refl
text_lt_total [] (b ∷ t) h k = ground arith
text_lt_total (a ∷ s) [] h k = ground arith
text_lt_total (a ∷ s) (b ∷ t) h k = ground (arith, text_lt_total s t)

pub text_lt_asymm : (s t : Text) → text_lt s t ≡ true → text_lt t s ≡ false
unfolding text_lt
text_lt_asymm [] [] h = refl
text_lt_asymm [] (b ∷ t) h = refl
text_lt_asymm (a ∷ s) [] h = ground arith
text_lt_asymm (a ∷ s) (b ∷ t) h = ground (arith, text_lt_asymm s t)

-- A common prefix does not matter.
pub text_lt-append : (p s t : Text) → text_lt (p ++ s) (p ++ t) ≡ text_lt s t
unfolding text_lt
text_lt-append [] s t = refl
text_lt-append (a ∷ p) s t = ground (arith, text_lt-append p s t)

pub text_le-append : (p s t : Text) → text_le (p ++ s) (p ++ t) ≡ text_le s t
unfolding text_le
text_le-append p s t = ap not (text_lt-append p t s)

-- `t.startsWith(p)`.
unfoldable pub starts_with : Text → Text → Bool
starts_with t [] = true
starts_with [] (p ∷ ps) = false
starts_with (a ∷ t) (p ∷ ps) = a == p && starts_with t ps

pub starts_with-append : (p t : Text) → starts_with (p ++ t) p ≡ true
unfolding starts_with
starts_with-append [] t = refl
starts_with-append (a ∷ p) t = ground (arith, starts_with-append p t)

-- `t.includes(s)`.
unfoldable pub includes : Text → Text → Bool
unfolding starts_with
includes [] s = starts_with [] s
includes (a ∷ t) s = starts_with (a ∷ t) s || includes t s

-- `ts.includes(s)` of an array of texts.
unfoldable pub includes_text : List Text → Text → Bool
includes_text [] s = false
includes_text (t ∷ ts) s = eqb t s || includes_text ts s

pub includes_text→In : (ts : List Text) (s : Text) → includes_text ts s ≡ true → In s ts
unfolding includes_text
includes_text→In [] s h = cc
includes_text→In (t ∷ ts) s h = elim (Bool-cases (eqb t s)) [
  | inl same ↦ inl (sym (eqb→eq t s same))
  | inr other ↦ inr (includes_text→In ts s (rw other at h))
]

pub In→includes_text : (ts : List Text) (s : Text) → In s ts → includes_text ts s ≡ true
unfolding includes_text
In→includes_text [] s m = elim m [ ]
In→includes_text (t ∷ ts) s (inl e) = rw (e, eqb_refl t)
In→includes_text (t ∷ ts) s (inr m) = ground (arith, In→includes_text ts s m)
