-- ===== src/Shim/Upstream/Counting.antt =====
-- How often a query of the client (src/primal-shim/upstream.ts) is pending, settled and started.
use nostr_swarm.Shim.Upstream.Socket.{Occurrence, queries}
use nostr_swarm.Shim.Upstream.{
  UpstreamSocket, Settlement, fetched, fetch_failed, published, fail_queries, fail_counts,
  fail_waiters, PublishResult,
}
use nostr_swarm.Shim.Lru.{delete_entry}
use nostr_swarm.Util.Maps.{get_entry, set_entry, has_entry}
use nostr_swarm.Nostr.Event.{NostrEvent}
use nostr_swarm.Base.{
  if◌then◌else◌, Text, eqb, eqb_iff, ℕ, suc, ◌+◌, ◌≤◌, ◌≡◌, refl, Bool, true, false, List, [], ◌∷◌,
  ◌++◌, map, arith,
}

-- How often a key stands in a map.
unfoldable pub key_count : {A : Type 0} → Text → List (Text × A) → ℕ
key_count k [] = 0
key_count k ((j, v) ∷ m) = let rest = key_count k m in if eqb j k then suc rest else rest

abbrev pub settles : Text → Settlement → ℕ
settles sub_id (fetched j events) = if eqb j sub_id then 1 else 0
settles sub_id (fetch_failed j message) = if eqb j sub_id then 1 else 0
settles sub_id _ = 0

-- How often a query was settled, with its events or with an error.
unfoldable pub settled_count : Text → List Settlement → ℕ
settled_count sub_id [] = 0
settled_count sub_id (outcome ∷ outcomes) = settles sub_id outcome + settled_count sub_id outcomes

abbrev pub begins : Text → Occurrence → ℕ
begins sub_id (queries j filters) = if eqb j sub_id then 1 else 0
begins sub_id _ = 0

-- How often a query of that id was made.
unfoldable pub started : Text → List Occurrence → ℕ
started sub_id [] = 0
started sub_id (o ∷ os) = begins sub_id o + started sub_id os

-- How often the EOSE of a query was met by an error.
unfoldable pub text_count : Text → List Text → ℕ
text_count sub_id [] = 0
text_count sub_id (j ∷ js) = (if eqb j sub_id then 1 else 0) + text_count sub_id js

pub text_count-append :
    (sub_id j : Text) (l : List Text)
    → text_count sub_id (l ++ j ∷ []) ≡ text_count sub_id l + (if eqb j sub_id then 1 else 0)
unfolding text_count
text_count-append sub_id j [] = omega arith
text_count-append sub_id j (x ∷ l) = omega (arith, text_count-append sub_id j l)

-- A query is pending, was settled, or was met by an error.
abbrev pub accounted : Text → UpstreamSocket → ℕ
accounted sub_id s =
    key_count sub_id s.pending_queries
    + settled_count sub_id s.settled
    + text_count sub_id s.uncaught

pub key_count-set_entry :
    {A : Type 0} (k j : Text) (v : A) (m : List (Text × A))
    → key_count k (set_entry j v m)
      ≡ (if has_entry j m then key_count k m else key_count k m + (if eqb j k then 1 else 0))
unfolding key_count set_entry get_entry
key_count-set_entry k j v [] = ground arith
key_count-set_entry k j v ((i, w) ∷ m) =
    ground (arith, key_count-set_entry k j v m, eqb_iff i j, eqb_iff i k, eqb_iff j k)

pub key_count-delete_entry :
    {A : Type 0} (k j : Text) (m : List (Text × A))
    → key_count k (delete_entry j m) ≡ (if eqb j k then 0 else key_count k m)
unfolding key_count delete_entry
key_count-delete_entry k j [] = ground arith
key_count-delete_entry k j ((i, w) ∷ m) =
    ground (arith, key_count-delete_entry k j m, eqb_iff i j, eqb_iff i k, eqb_iff j k)

pub key_count-some :
    {A : Type 0} (k : Text) (m : List (Text × A)) → has_entry k m ≡ true → 1 ≤ key_count k m
unfolding key_count get_entry
key_count-some k [] h = ground arith
key_count-some k ((j, v) ∷ m) h = ground (arith, key_count-some k m)

pub absent :
    {A : Type 0} (k : Text) (m : List (Text × A)) → key_count k m ≡ 0 → has_entry k m ≡ false
absent k m h = let most = key_count-some k m in ground (arith, most)

pub settled_count-append :
    (sub_id : Text) (l r : List Settlement)
    → settled_count sub_id (l ++ r) ≡ settled_count sub_id l + settled_count sub_id r
unfolding settled_count
settled_count-append sub_id [] r = omega arith
settled_count-append sub_id (x ∷ l) r = omega (arith, settled_count-append sub_id l r)

pub settled_count-fail_queries :
    (sub_id message : Text) (pending : List (Text × List NostrEvent))
    → settled_count sub_id (fail_queries message pending) ≡ key_count sub_id pending
unfolding settled_count fail_queries key_count
settled_count-fail_queries sub_id message [] = refl
settled_count-fail_queries sub_id message ((j, events) ∷ pending) =
    ground (arith, settled_count-fail_queries sub_id message pending)

pub settled_count-fail_counts :
    (sub_id message : Text) (pending : List (Text × Bool))
    → settled_count sub_id (fail_counts message pending) ≡ 0
unfolding settled_count fail_counts
settled_count-fail_counts sub_id message [] = refl
settled_count-fail_counts sub_id message ((j, waits) ∷ pending) =
    omega (arith, settled_count-fail_counts sub_id message pending)

settled_count-waiters :
    (sub_id : Text) (result : PublishResult) (timers : List ℕ)
    → settled_count sub_id (map (λ timer. published timer result) timers) ≡ 0
unfolding settled_count
settled_count-waiters sub_id result [] = refl
settled_count-waiters sub_id result (t ∷ timers) =
    omega (arith, settled_count-waiters sub_id result timers)

pub settled_count-fail_waiters :
    (sub_id : Text) (result : PublishResult) (rest : List (Text × List ℕ))
    → settled_count sub_id (fail_waiters result rest) ≡ 0
unfolding settled_count fail_waiters
settled_count-fail_waiters sub_id result [] = refl
settled_count-fail_waiters sub_id result ((id, timers) ∷ rest) =
    rw
      (settled_count-append sub_id (map (λ timer. published timer result) timers)
        (fail_waiters result rest))
      (omega (
        arith,
        settled_count-waiters sub_id result timers,
        settled_count-fail_waiters sub_id result rest,
      ))

pub settled_count-one :
    (sub_id : Text) (outcome : Settlement)
    → settled_count sub_id (outcome ∷ []) ≡ settles sub_id outcome
unfolding settled_count
settled_count-one sub_id outcome = omega arith

pub key_count-nil : (A : Type 0) (k : Text) → key_count {A = A} k [] ≡ 0
unfolding key_count
key_count-nil A k = refl
