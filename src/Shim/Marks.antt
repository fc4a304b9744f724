-- ===== src/Shim/Marks.antt =====
-- How far a user has read: notifications (src/primal-shim/seen.ts) and messages
-- (src/primal-shim/dm-read.ts). The files that keep the marks are outside; times have no fraction.
pub mod Forward
use nostr_swarm.Util.Maps.{get_entry, set_entry}
use nostr_swarm.Base.{
  ltb, leb, ◌==◌, if◌then◌else◌, ltb→lt, lt→ltb, ltb_false→le, leb_false→lt, leb→le, le→leb, ==_iff,
  tests, Bool-cases, on_branches, Option-cases, some-eq, none-ne-some, length, get_elem?, take,
  drop, replicate, length-append, length-take-le, find, keep, any, all, In, In-append_left,
  In-append_right, In-append_cases, All, Text, text, eqb, eqb→eq, eqb_refl, eqb_iff, eqb_comm,
  text_lt, text_le, text_lt_irrefl, text_lt_trans, text_lt_total, text_lt_asymm, text_lt-append,
  text_le-append, starts_with, starts_with-append, includes, includes_text, includes_text→In,
  In→includes_text, ℤ, pos, negsuc, pos_part, neg_part, sub_ℕ, ltb_ℤ, leb_ℤ, eqb_ℤ, leb_ℤ-pos, ◌+ℤ◌,
  ◌-ℤ◌, to_u32, ℕ, zero, suc, ◌+◌, ◌-◌, ◌*◌, ◌/◌, ◌%◌, ◌^◌, ◌≤◌, ◌<◌, ◌≡◌, refl, sym, ap, ap₂, ◌∙◌,
  subst, ◌≡⟨◌⟩◌, ◌∎, ◌≢◌, ◌↔◌, ◌⊎◌, inl, inr, Bool, true, false, not, ◌&&◌, ◌||◌, Option, none,
  some, List, [], ◌∷◌, ◌++◌, map, append_assoc, append-nil, arith,
}

abbrev pub or_never : Option ℤ → ℤ
or_never none = pos 0
or_never (some ts) = ts

unfoldable pub get_seen : List (Text × ℤ) → Text → ℤ
get_seen seen pubkey = or_never (get_entry pubkey seen)

unfoldable pub set_seen : List (Text × ℤ) → Text → ℤ → List (Text × ℤ)
unfolding get_seen
set_seen seen pubkey ts = if leb_ℤ ts (get_seen seen pubkey) then seen else set_entry pubkey ts seen

abbrev pub dm_all_senders : Text
dm_all_senders = text "*"

unfoldable pub dm_key : Text → Text → Text
dm_key user sender = user ++ text ":" ++ sender

abbrev pub max_ℤ : ℤ → ℤ → ℤ
max_ℤ a b = if leb_ℤ a b then b else a

unfoldable pub get_read : List (Text × ℤ) → Text → Text → ℤ
unfolding dm_key
get_read marks user sender =
    max_ℤ (or_never (get_entry (dm_key user sender) marks))
      (or_never (get_entry (dm_key user dm_all_senders) marks))

unfoldable pub set_read : List (Text × ℤ) → Text → Text → ℤ → List (Text × ℤ)
unfolding dm_key
set_read marks user sender ts =
    if leb_ℤ ts (or_never (get_entry (dm_key user sender) marks))
    then marks
    else set_entry (dm_key user sender) ts marks
