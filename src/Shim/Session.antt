-- ===== src/Shim/Session.antt =====
-- The session of one client (src/primal-shim/session.ts). A controller or a cleanup is a number; those
-- that were aborted or run stand in `aborted` and `cleaned`, in the order of the calls.
pub mod Bounds
use nostr_swarm.Shim.Lru.{delete_entry}
use nostr_swarm.Util.Maps.{get_entry, set_entry, has_entry}
use nostr_swarm.Base.{
  ltb, leb, ◌==◌, if◌then◌else◌, ltb→lt, lt→ltb, ltb_false→le, leb_false→lt, leb→le, le→leb, ==_iff,
  tests, Bool-cases, on_branches, Option-cases, some-eq, none-ne-some, length, get_elem?, take,
  drop, replicate, length-append, length-take-le, find, keep, any, all, In, In-append_left,
  In-append_right, In-append_cases, All, Text, text, eqb, eqb→eq, eqb_refl, eqb_iff, eqb_comm,
  text_lt, text_le, text_lt_irrefl, text_lt_trans, text_lt_total, text_lt_asymm, text_lt-append,
  text_le-append, starts_with, starts_with-append, includes, includes_text, includes_text→In,
  In→includes_text, ℤ, pos, negsuc, pos_part, neg_part, sub_ℕ, ltb_ℤ, leb_ℤ, eqb_ℤ, leb_ℤ-pos, ◌+ℤ◌,
  ◌-ℤ◌, to_u32, ℕ, zero, suc, ◌+◌, ◌-◌, ◌*◌, ◌/◌, ◌%◌, ◌^◌, ◌≤◌, ◌<◌, ◌≡◌, refl, sym, ap, ap₂, ◌∙◌,
  subst, ◌≡⟨◌⟩◌, ◌∎, ◌≢◌, ◌↔◌, ◌⊎◌, inl, inr, Bool, true, false, not, ◌&&◌, ◌||◌, Option, none,
  some, List, [], ◌∷◌, ◌++◌, map, append_assoc, append-nil, arith,
}

abbrev pub max_live_subs_per_session : ℕ
max_live_subs_per_session = 8

-- `controllers` is how many were made.
pub record Session : Type 0 where
  pub active : List (Text × ℕ)
  pub live_subs : List (Text × ℕ)
  pub controllers : ℕ
  pub aborted : List ℕ
  pub cleaned : List ℕ

unfoldable pub new_session : Session
new_session = record { active = []; live_subs = []; controllers = 0; aborted = []; cleaned = [] }

-- `active.get(subId)?.abort()`
abbrev pub abort_if : Session → Option ℕ → Session
abort_if s none = s
abort_if s (some controller) = record s { aborted = s.aborted ++ controller ∷ [] }

abbrev pub clean_if : Session → Text → Option ℕ → Session
clean_if s sub_id none = s
clean_if s sub_id (some cleanup) = record s {
  live_subs = delete_entry sub_id s.live_subs;
  cleaned = s.cleaned ++ cleanup ∷ [];
}

unfoldable pub clear_live_sub : Session → Text → Session
clear_live_sub s sub_id = clean_if s sub_id (get_entry sub_id s.live_subs)

-- The session, and the signal of the new controller.
unfoldable pub begin_request : Session → Text → Session × ℕ
unfolding clear_live_sub
begin_request s sub_id =
    let cleared = clear_live_sub (abort_if s (get_entry sub_id s.active)) sub_id in
    (
      record cleared {
        controllers = suc cleared.controllers;
        active = set_entry sub_id cleared.controllers cleared.active;
      },
      cleared.controllers,
    )

abbrev pub end_if : Session → Text → ℕ → Option ℕ → Session
end_if s sub_id signal none = s
end_if s sub_id signal (some current) =
    if current == signal then record s { active = delete_entry sub_id s.active } else s

unfoldable pub end_request : Session → Text → ℕ → Session
end_request s sub_id signal = end_if s sub_id signal (get_entry sub_id s.active)

unfoldable pub register_live_sub : Session → Text → ℕ → Session × Bool
register_live_sub s sub_id cleanup =
    if not (has_entry sub_id s.live_subs) && leb max_live_subs_per_session (length s.live_subs)
    then (s, false)
    else (record s { live_subs = set_entry sub_id cleanup s.live_subs }, true)

unfoldable pub cancel : Session → Text → Session
unfolding clear_live_sub
cancel s sub_id =
    let stopped = abort_if s (get_entry sub_id s.active) in
    clear_live_sub (record stopped { active = delete_entry sub_id stopped.active }) sub_id

abbrev pub values : List (Text × ℕ) → List ℕ
values [] = []
values ((k, v) ∷ m) = v ∷ values m

unfoldable pub close_session : Session → Session
close_session s = record s {
  aborted = s.aborted ++ values s.active;
  active = [];
  cleaned = s.cleaned ++ values s.live_subs;
  live_subs = [];
}

-- The calls on a session.
pub data Call : Type 0 where
  begins : Text → Call
  ends : Text → ℕ → Call
  registers : Text → ℕ → Call
  cancels : Text → Call
  closes : Call

unfoldable pub apply_call : Session → Call → Session
unfolding begin_request end_request register_live_sub cancel close_session
apply_call s (begins sub_id) = (begin_request s sub_id).0
apply_call s (ends sub_id signal) = end_request s sub_id signal
apply_call s (registers sub_id cleanup) = (register_live_sub s sub_id cleanup).0
apply_call s (cancels sub_id) = cancel s sub_id
apply_call s closes = close_session s
