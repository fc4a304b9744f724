-- ===== src/Shim/Marks/Forward.antt =====
-- Marks move forward only (src/primal-shim/seen.ts, src/primal-shim/dm-read.ts).
use nostr_swarm.Shim.Marks.{
  or_never, get_seen, set_seen, dm_all_senders, dm_key, max_ℤ, get_read, set_read,
}
use nostr_swarm.Util.Maps.{get_entry, set_entry, get_entry-set_entry}
use nostr_swarm.Base.{
  if◌then◌else◌, Bool-cases, on_branches, length, Text, eqb, eqb→eq, eqb_refl, ℤ, leb_ℤ, ◌≡◌, refl,
  ap₂, subst, inl, inr, true, false, List, [], ◌∷◌, arith,
}

-- Both marks are kept by the same rule, on the key.
abbrev advance : List (Text × ℤ) → Text → ℤ → List (Text × ℤ)
advance marks key ts =
    if leb_ℤ ts (or_never (get_entry key marks)) then marks else set_entry key ts marks

same_key :
    (marks : List (Text × ℤ)) (key : Text) (ts : ℤ)
    → or_never (get_entry key (advance marks key ts)) ≡ max_ℤ ts (or_never (get_entry key marks))
same_key marks key ts = elim (Bool-cases (leb_ℤ ts (or_never (get_entry key marks)))) [
  | inl old ↦ rw old refl
  | inr newer ↦ rw (newer, get_entry-set_entry key key ts marks, eqb_refl key) refl
]

other_key :
    (marks : List (Text × ℤ)) (key other : Text) (ts : ℤ)
    → eqb key other ≡ false
    → or_never (get_entry other (advance marks key ts)) ≡ or_never (get_entry other marks)
other_key marks key other ts apart =
    on_branches
      (λ (m : List (Text × ℤ)). or_never (get_entry other m) ≡ or_never (get_entry other marks))
      (leb_ℤ ts (or_never (get_entry key marks))) _ _ (λ old. refl)
      (λ newer. rw (get_entry-set_entry key other ts marks, apart) refl)

unfoldable pub AtLeast : ℤ → ℤ → Type 0
AtLeast a b = leb_ℤ a b ≡ true

le_refl : (a : ℤ) → AtLeast a a
unfolding AtLeast
le_refl a = ground arith

le_max_left : (a b : ℤ) → AtLeast a (max_ℤ a b)
unfolding AtLeast
le_max_left a b = on_branches (AtLeast a) (leb_ℤ a b) b a (λ h. h) (λ h. le_refl a)

le_max_right : (a b : ℤ) → AtLeast b (max_ℤ a b)
unfolding AtLeast
le_max_right a b = on_branches (AtLeast b) (leb_ℤ a b) b a (λ h. le_refl b) (λ h. ground (arith, h))

le_trans : (a b c : ℤ) → AtLeast a b → AtLeast b c → AtLeast a c
unfolding AtLeast
le_trans a b c h k = ground (arith, h, k)

max_mono : (a b c d : ℤ) → AtLeast a c → AtLeast b d → AtLeast (max_ℤ a b) (max_ℤ c d)
unfolding AtLeast
max_mono a b c d h k =
    on_branches (λ (x : ℤ). AtLeast x (max_ℤ c d)) (leb_ℤ a b) b a
      (λ l. le_trans b d _ k (le_max_right c d)) (λ l. le_trans a c _ h (le_max_left c d))

advance_forward :
    (marks : List (Text × ℤ)) (key other : Text) (ts : ℤ)
    → AtLeast (or_never (get_entry other marks)) (or_never (get_entry other (advance marks key ts)))
advance_forward marks key other ts = elim (Bool-cases (eqb key other)) [
  | inr apart ↦ rw (other_key marks key other ts apart) (le_refl _)
  | inl same ↦
      subst
        (λ (k : Text).
          AtLeast (or_never (get_entry k marks)) (or_never (get_entry k (advance marks key ts))))
        (eqb→eq key other same) (rw (same_key marks key ts) (le_max_right ts _))
]

advance_reaches :
    (marks : List (Text × ℤ)) (key : Text) (ts : ℤ)
    → AtLeast ts (or_never (get_entry key (advance marks key ts)))
advance_reaches marks key ts = rw (same_key marks key ts) (le_max_left ts _)

-- The mark of notifications is the latest that was set, of its own user.
pub get_seen-set_seen :
    (seen : List (Text × ℤ)) (pubkey other : Text) (ts : ℤ)
    → get_seen (set_seen seen pubkey ts) other
      ≡ (if eqb pubkey other then max_ℤ ts (get_seen seen other) else get_seen seen other)
unfolding get_seen set_seen
get_seen-set_seen seen pubkey other ts = elim (Bool-cases (eqb pubkey other)) [
  | inr apart ↦ rw apart (other_key seen pubkey other ts apart)
  | inl same ↦ rw same (
      subst
        (λ (k : Text).
          or_never (get_entry k (advance seen pubkey ts)) ≡ max_ℤ ts (or_never (get_entry k seen)))
        (eqb→eq pubkey other same) (same_key seen pubkey ts))
]

dm_key-apart :
    (u v s t : Text) → length u ≡ length v → eqb u v ≡ false → eqb (dm_key u s) (dm_key v t) ≡ false
unfolding dm_key eqb
dm_key-apart [] [] s t same apart = ground arith
dm_key-apart [] (b ∷ v) s t same apart = absurd (omega arith)
dm_key-apart (a ∷ u) [] s t same apart = absurd (omega arith)
dm_key-apart (a ∷ u) (b ∷ v) s t same apart = elim (Bool-cases (eqb u v)) [
  | inr tails ↦ let rest = dm_key-apart u v s t (omega arith) tails in ground (arith, rest)
  | inl tails ↦ ground (arith, tails, apart)
]

-- Marking messages read: the mark of the sender, or of every sender where all are marked, reaches the
-- time; no mark of anyone goes back; and the marks of other users, whose keys are as long, stay as they
-- are.
set_read_forward :
    (marks : List (Text × ℤ)) (user sender : Text) (ts : ℤ)
    → AtLeast ts (get_read (set_read marks user sender ts) user sender)
      × ((s : Text) → AtLeast ts (get_read (set_read marks user dm_all_senders ts) user s))
      × ((u s : Text) → AtLeast (get_read marks u s) (get_read (set_read marks user sender ts) u s))
      × ((u s : Text)
          → length user ≡ length u
          → eqb user u ≡ false
          → get_read (set_read marks user sender ts) u s ≡ get_read marks u s)
unfolding get_read set_read
set_read_forward marks user sender ts = (
  le_trans ts _ _ (advance_reaches marks (dm_key user sender) ts) (le_max_left _ _),
  λ s. le_trans ts _ _ (advance_reaches marks (dm_key user dm_all_senders) ts) (
      le_max_right
        (or_never (get_entry (dm_key user s) (advance marks (dm_key user dm_all_senders) ts))) _),
  λ u s.
      max_mono _ _ _ _ (advance_forward marks (dm_key user sender) (dm_key u s) ts)
        (advance_forward marks (dm_key user sender) (dm_key u dm_all_senders) ts),
  λ u s long apart.
      ap₂ max_ℤ (other_key marks _ _ ts (dm_key-apart user u sender s long apart))
        (other_key marks _ _ ts (dm_key-apart user u sender dm_all_senders long apart)),
)
