-- ===== src/Shim/Session/Bounds.antt =====
-- What a session (src/primal-shim/session.ts) holds, and what becomes of its controllers.
use nostr_swarm.Shim.Session.{
  set_entry, Session, Call, apply_call, begin_request, end_request, register_live_sub, cancel,
  close_session, clear_live_sub, clean_if, abort_if, end_if, max_live_subs_per_session, begins,
  ends, registers, cancels, closes,
}
use nostr_swarm.Ws.Handler.Sizes.{length-set_entry, length-delete_entry, room}
use nostr_swarm.Shim.Lru.{delete_entry}
use nostr_swarm.Util.Maps.{get_entry-set_entry, get_entry, has_entry}
use nostr_swarm.Base.{
  leb, ◌==◌, on_branches, some-eq, none-ne-some, length, In, In-append_right, Text, eqb_refl, ℕ,
  ◌≤◌, ◌≡◌, refl, sym, ap, ◌∙◌, subst, inl, Bool, not, ◌&&◌, Option, none, some, List, [], ◌∷◌,
  ◌++◌, arith,
}

clear_live_sub-length :
    (s : Session) (sub_id : Text) (o : Option ℕ)
    → length (clean_if s sub_id o).live_subs ≤ length s.live_subs
clear_live_sub-length s sub_id none = omega arith
clear_live_sub-length s sub_id (some cleanup) = length-delete_entry sub_id s.live_subs

abort_if-live : (s : Session) (o : Option ℕ) → (abort_if s o).live_subs ≡ s.live_subs
abort_if-live s none = refl
abort_if-live s (some c) = refl

end_if-live :
    (s : Session) (sub_id : Text) (signal : ℕ) (o : Option ℕ)
    → (end_if s sub_id signal o).live_subs ≡ s.live_subs
end_if-live s sub_id signal none = refl
end_if-live s sub_id signal (some c) =
    on_branches (λ (t : Session). t.live_subs ≡ s.live_subs) (c == signal) _ _ (λ h. refl)
      (λ h. refl)

abbrev is_full : Session → Text → Bool
is_full s sub_id =
    not (has_entry sub_id s.live_subs) && leb max_live_subs_per_session (length s.live_subs)

call-live :
    (s : Session) (call : Call)
    → length s.live_subs ≤ max_live_subs_per_session
    → length (apply_call s call).live_subs ≤ max_live_subs_per_session
unfolding apply_call begin_request end_request cancel close_session clear_live_sub register_live_sub
call-live s (begins sub_id) fits =
    let stopped = abort_if s (get_entry sub_id s.active) in
    let less = clear_live_sub-length stopped sub_id (get_entry sub_id stopped.live_subs) in
    let same =
      ap (λ (l : List (Text × ℕ)). length l) (abort_if-live s (get_entry sub_id s.active)) in
    omega arith
call-live s (ends sub_id signal) fits =
    let same =
      ap (λ (l : List (Text × ℕ)). length l)
        (end_if-live s sub_id signal (get_entry sub_id s.active)) in
    omega arith
call-live s (registers sub_id cleanup) fits =
    on_branches (λ (t : Session × Bool). length t.0.live_subs ≤ max_live_subs_per_session)
      (is_full s sub_id) _ _ (λ full. fits)
      (λ free.
        subst (λ (n : ℕ). n ≤ max_live_subs_per_session)
          (sym (length-set_entry sub_id cleanup s.live_subs))
          (room (length s.live_subs) max_live_subs_per_session _ fits free))
call-live s (cancels sub_id) fits =
    let stopped = abort_if s (get_entry sub_id s.active) in
    let less =
      clear_live_sub-length (record stopped { active = delete_entry sub_id stopped.active }) sub_id
        (get_entry sub_id stopped.live_subs) in
    let same =
      ap (λ (l : List (Text × ℕ)). length l) (abort_if-live s (get_entry sub_id s.active)) in
    omega arith
call-live s closes fits = omega arith

-- Calls, one after another.
pub run_calls : Session → List Call → Session
run_calls s [] = s
run_calls s (call ∷ calls) = run_calls (apply_call s call) calls

-- However a client opens, ends and cancels requests, its session never holds more than 8 live
-- subscriptions.
run_calls-live :
    (s : Session) (calls : List Call)
    → length s.live_subs ≤ max_live_subs_per_session
    → length (run_calls s calls).live_subs ≤ max_live_subs_per_session
unfolding run_calls
run_calls-live s [] fits = fits
run_calls-live s (call ∷ calls) fits =
    run_calls-live (apply_call s call) calls (call-live s call fits)

get_entry-delete_entry :
    {A : Type 0} (k : Text) (m : List (Text × A)) → get_entry k (delete_entry k m) ≡ none
unfolding get_entry delete_entry
get_entry-delete_entry k [] = refl
get_entry-delete_entry k ((j, v) ∷ m) = ground (arith, get_entry-delete_entry k m)

-- What stood under an id was given up: aborted or cleaned up, and no longer live.
abbrev pub IsGivenUp : Session → Text → Session → Type 0
IsGivenUp s sub_id t =
    ((c : ℕ) → get_entry sub_id s.active ≡ some c → In c t.aborted)
    × ((k : ℕ) → get_entry sub_id s.live_subs ≡ some k → In k t.cleaned)
    × (get_entry sub_id t.live_subs ≡ none)

In-last : (x : ℕ) (l : List ℕ) → In x (l ++ x ∷ [])
In-last x l = In-append_right x l (x ∷ []) (inl refl)

clean_if-gives_up :
    (s : Session) (sub_id : Text) (o : Option ℕ)
    → get_entry sub_id s.live_subs ≡ o
    → ((k : ℕ) → o ≡ some k → In k (clean_if s sub_id o).cleaned)
      × (get_entry sub_id (clean_if s sub_id o).live_subs ≡ none)
      × ((clean_if s sub_id o).aborted ≡ s.aborted)
      × ((clean_if s sub_id o).active ≡ s.active)
clean_if-gives_up s sub_id none e = (λ k h. absurd (none-ne-some h), e, refl, refl)
clean_if-gives_up s sub_id (some c) e = (
  λ k h. subst (λ (x : ℕ). In x (s.cleaned ++ c ∷ [])) (some-eq h) (In-last c s.cleaned),
  get_entry-delete_entry sub_id s.live_subs,
  refl,
  refl,
)

abort_if-aborts : (s : Session) (o : Option ℕ) (c : ℕ) → o ≡ some c → In c (abort_if s o).aborted
abort_if-aborts s none c h = absurd (none-ne-some h)
abort_if-aborts s (some d) c h =
    subst (λ (x : ℕ). In x (s.aborted ++ d ∷ [])) (some-eq h) (In-last d s.aborted)

begin_request-gives_up :
    (s : Session) (sub_id : Text)
    → IsGivenUp s sub_id (begin_request s sub_id).0
      × (get_entry sub_id (begin_request s sub_id).0.active ≡ some (begin_request s sub_id).1)
unfolding begin_request clear_live_sub
begin_request-gives_up s sub_id =
    let stopped = abort_if s (get_entry sub_id s.active) in
    let same = abort_if-live s (get_entry sub_id s.active) in
    let (cleaned, gone, aborted, active) =
      clean_if-gives_up stopped sub_id (get_entry sub_id stopped.live_subs) refl in
    (
      (
        λ c h.
            subst (λ l. In c l) (sym aborted) (abort_if-aborts s (get_entry sub_id s.active) c h),
        λ k h. cleaned k (ap (get_entry sub_id) same ∙ h),
        gone,
      ),
      here sub_id _ (clear_live_sub stopped sub_id).active,
    )
  where
    here : (k : Text) (n : ℕ) (m : List (Text × ℕ)) → get_entry k (set_entry k n m) ≡ some n
    here k n m = ground (arith, get_entry-set_entry k k n m, eqb_refl k)

cancel-gives_up :
    (s : Session) (sub_id : Text)
    → IsGivenUp s sub_id (cancel s sub_id) × (get_entry sub_id (cancel s sub_id).active ≡ none)
unfolding cancel clear_live_sub
cancel-gives_up s sub_id =
    let stopped = abort_if s (get_entry sub_id s.active) in
    let removed : Session = record stopped { active = delete_entry sub_id stopped.active } in
    let same = abort_if-live s (get_entry sub_id s.active) in
    let (cleaned, gone, aborted, active) =
      clean_if-gives_up removed sub_id (get_entry sub_id removed.live_subs) refl in
    (
      (
        λ c h.
            subst (λ l. In c l) (sym aborted) (abort_if-aborts s (get_entry sub_id s.active) c h),
        λ k h. cleaned k (ap (get_entry sub_id) same ∙ h),
        gone,
      ),
      ap (get_entry sub_id) active ∙ get_entry-delete_entry sub_id stopped.active,
    )

-- A request that begins supersedes what was under its id: the request in flight is aborted, the live
-- subscription is cleaned up and gone, and the id has the new controller. CLOSE does the same, and
-- leaves nothing under the id.
pub request_supersedes :
    (s : Session) (sub_id : Text)
    → (IsGivenUp s sub_id (begin_request s sub_id).0
        × (get_entry sub_id (begin_request s sub_id).0.active ≡ some (begin_request s sub_id).1))
      × IsGivenUp s sub_id (cancel s sub_id)
      × (get_entry sub_id (cancel s sub_id).active ≡ none)
request_supersedes s sub_id =
    let (given_up, empty) = cancel-gives_up s sub_id in
    (begin_request-gives_up s sub_id, given_up, empty)
