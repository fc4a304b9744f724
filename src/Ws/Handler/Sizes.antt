-- ===== src/Ws/Handler/Sizes.antt =====
-- The sizes of the maps of a connection, and of the filters and ids of a request (src/ws/handler.ts).
use nostr_swarm.Ws.Handler.{collect_filters, push_filter, is_subscription_id, text_or_empty}
use nostr_swarm.Nostr.Json.{Json, string}
use nostr_swarm.Util.Maps.{get_entry, set_entry, has_entry}
use nostr_swarm.Shim.Lru.{delete_entry}
use nostr_swarm.Nostr.Filter.{NostrFilter}
use nostr_swarm.Nostr.Filter.Validate.{validate_filter}
use nostr_swarm.Base.{
  leb, if◌then◌else◌, Bool-cases, some-eq, none-ne-some, length, All, Text, eqb, ℕ, suc, ◌≤◌, ◌≡◌,
  refl, ap, subst, inl, inr, Bool, true, false, not, ◌&&◌, Option, none, some, List, [], ◌∷◌, arith,
}

pub length-set_entry :
    {A : Type 0} (k : Text) (v : A) (m : List (Text × A))
    → length (set_entry k v m) ≡ (if has_entry k m then length m else suc (length m))
unfolding get_entry set_entry
length-set_entry k v [] = refl
length-set_entry k v ((j, w) ∷ m) = ground (arith, length-set_entry k v m)

pub length-delete_entry :
    {A : Type 0} (k : Text) (m : List (Text × A)) → length (delete_entry k m) ≤ length m
unfolding delete_entry
length-delete_entry k [] = omega arith
length-delete_entry k ((j, w) ∷ m) = ground (arith, length-delete_entry k m)

pub All-delete_entry :
    {A : Type 0} (P : Text × A → Type 0) (k : Text) (m : List (Text × A))
    → All P m
    → All P (delete_entry k m)
unfolding delete_entry
All-delete_entry P k [] a = tt
All-delete_entry P k ((j, w) ∷ m) a = elim (Bool-cases (eqb j k)) [
  | inl same ↦ rw same (All-delete_entry P k m a.1)
  | inr other ↦ rw other (a.0, All-delete_entry P k m a.1)
]

-- What holds of both branches.
pub either_branch {ℓ} :
    {A : Type 0} (P : A → Type ℓ) (b : Bool) {x y : A} → P x → P y → P (if b then x else y)
either_branch P true p q = p
either_branch P false p q = q

length-push_filter :
    (f : NostrFilter) (o : Option (List NostrFilter)) (filters : List NostrFilter) (n : ℕ)
    → push_filter f o ≡ some filters
    → ((gs : List NostrFilter) → o ≡ some gs → length gs ≡ n)
    → length filters ≡ suc n
length-push_filter f none filters n h k = cc
length-push_filter f (some gs) filters n h k =
    subst (λ fs. length fs ≡ suc n) (some-eq h) (ap (λ (m : ℕ). suc m) (k gs refl))

pub length-collect_filters :
    (raws : List Json) (filters : List NostrFilter)
    → collect_filters raws ≡ some filters
    → length filters ≡ length raws
unfolding collect_filters
length-collect_filters [] filters h = subst (λ fs. length fs ≡ 0) (some-eq h) refl
length-collect_filters (raw ∷ raws) filters h = elim (Bool-cases (validate_filter raw)) [
  | inr bad ↦ absurd (none-ne-some (rw bad at h))
  | inl good ↦
      length-push_filter _ _ filters (length raws) (rw good at h)
        (λ gs k. length-collect_filters raws gs k)
]

pub is_subscription_id_lem :
    (j : Json)
    → is_subscription_id j ≡ true
    → (1 ≤ length (text_or_empty j)) × (length (text_or_empty j) ≤ 64)
is_subscription_id_lem (string s) h = ground arith
is_subscription_id_lem _ h = ground arith

-- One more subscription, unless the id has one or there is no room.
pub room :
    (n cap : ℕ) (here : Bool)
    → n ≤ cap
    → (not here && leb cap n) ≡ false
    → (if here then n else suc n) ≤ cap
room n cap here h k = ground arith
