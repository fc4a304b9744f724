-- ===== src/Shim/Lru.antt =====
-- The cache with a time to live for each entry (src/primal-shim/lru.ts), oldest entry first. Keys are
-- texts; `now` is the reading of the clock in milliseconds.
pub mod Bounds
use nostr_swarm.Util.Maps.{get_entry}
use nostr_swarm.Base.{
  ltb, leb, ◌==◌, if◌then◌else◌, ltb→lt, lt→ltb, ltb_false→le, leb_false→lt, leb→le, le→leb, ==_iff,
  tests, Bool-cases, Option-cases, some-eq, none-ne-some, length, get_elem?, take, drop, replicate,
  length-append, length-take-le, find, keep, any, all, In, In-append_left, In-append_right,
  In-append_cases, All, Text, text, eqb, eqb→eq, eqb_refl, eqb_iff, eqb_comm, text_lt, text_le,
  text_lt_irrefl, text_lt_trans, text_lt_total, text_lt_asymm, text_lt-append, text_le-append,
  starts_with, starts_with-append, includes, includes_text, includes_text→In, In→includes_text, ℤ,
  pos, negsuc, pos_part, neg_part, sub_ℕ, ltb_ℤ, leb_ℤ, eqb_ℤ, leb_ℤ-pos, ◌+ℤ◌, ◌-ℤ◌, to_u32, ℕ,
  zero, suc, ◌+◌, ◌-◌, ◌*◌, ◌/◌, ◌%◌, ◌^◌, ◌≤◌, ◌<◌, ◌≡◌, refl, sym, ap, ap₂, ◌∙◌, subst, ◌≡⟨◌⟩◌,
  ◌∎, ◌≢◌, ◌↔◌, ◌⊎◌, inl, inr, Bool, true, false, not, ◌&&◌, ◌||◌, Option, none, some, List, [],
  ◌∷◌, ◌++◌, map, append_assoc, append-nil, arith,
}

pub record LruCache (V : Type 0) : Type 0 where
  pub entries : List (Text × (V × ℤ))
  pub max_entries : ℕ
  pub ttl_ms : ℤ

unfoldable pub new_cache : {V : Type 0} → ℕ → ℤ → LruCache V
new_cache max_entries ttl_ms = record { entries = []; max_entries = max_entries; ttl_ms = ttl_ms }

-- `map.delete(key)`
unfoldable pub delete_entry : {A : Type 0} → Text → List (Text × A) → List (Text × A)
delete_entry k [] = []
delete_entry k ((j, v) ∷ m) = let rest = delete_entry k m in if eqb j k then rest else (j, v) ∷ rest

abbrev pub read_entry :
    {V : Type 0} → LruCache V → Text → ℤ → Option (V × ℤ) → LruCache V × Option V
read_entry c key now none = (c, none)
read_entry c key now (some (value, expires)) =
    let others = delete_entry key c.entries in
    if leb_ℤ expires now
    then (record c { entries = others }, none)
    else (record c { entries = others ++ (key, (value, expires)) ∷ [] }, some value)

unfoldable pub get_cached : {V : Type 0} → LruCache V → Text → ℤ → LruCache V × Option V
get_cached c key now = read_entry c key now (get_entry key c.entries)

unfoldable pub set_cached : {V : Type 0} → LruCache V → Text → V → ℤ → LruCache V
set_cached c key value now =
    let entries = delete_entry key c.entries ++ (key, (value, now +ℤ c.ttl_ms)) ∷ [] in
    record c { entries = if ltb c.max_entries (length entries) then drop 1 entries else entries }
