-- ===== src/Shim/Lru/Bounds.antt =====
-- The cache of src/primal-shim/lru.ts keeps its bound, and what was just set is there.
use nostr_swarm.Shim.Lru.{read_entry, get_cached, set_cached, LruCache, delete_entry}
use nostr_swarm.Util.Maps.{get_entry}
use nostr_swarm.Base.{
  ltb, if◌then◌else◌, ltb→lt, ltb_false→le, Bool-cases, length, drop, length-append, Text, eqb_refl,
  ℤ, leb_ℤ, ◌+ℤ◌, ℕ, suc, ◌-◌, ◌≤◌, ◌<◌, ◌≡◌, refl, inl, inr, false, Option, none, some, List, [],
  ◌∷◌, ◌++◌, arith,
}

module _ {A : Type 0} where
  delete_entry-le : (k : Text) (m : List (Text × A)) → length (delete_entry k m) ≤ length m
  unfolding delete_entry
  delete_entry-le k [] = omega arith
  delete_entry-le k ((j, v) ∷ m) = ground (arith, delete_entry-le k m)

  delete_entry_lt :
      (k : Text) (v : A) (m : List (Text × A))
      → get_entry k m ≡ some v
      → length (delete_entry k m) < length m
  unfolding delete_entry get_entry
  delete_entry_lt k v [] h = cc
  delete_entry_lt k v ((j, w) ∷ m) h = ground (arith, delete_entry-le k m, delete_entry_lt k v m)

  get_entry-delete_entry : (k : Text) (m : List (Text × A)) → get_entry k (delete_entry k m) ≡ none
  unfolding delete_entry get_entry
  get_entry-delete_entry k [] = refl
  get_entry-delete_entry k ((j, w) ∷ m) = ground (arith, get_entry-delete_entry k m)

  get_entry-last :
      (k : Text) (v : A) (m : List (Text × A))
      → get_entry k m ≡ none
      → get_entry k (m ++ (k, v) ∷ []) ≡ some v
  unfolding get_entry
  get_entry-last k v [] h = ground (arith, eqb_refl k)
  get_entry-last k v ((j, w) ∷ m) h = ground (arith, get_entry-last k v m)

  get_entry-tail :
      (k : Text) (v : A) (m : List (Text × A))
      → get_entry k m ≡ none
      → 1 ≤ length m
      → get_entry k (drop 1 (m ++ (k, v) ∷ [])) ≡ some v
  unfolding get_entry
  get_entry-tail k v [] h few = ground arith
  get_entry-tail k v ((j, w) ∷ m) h few = get_entry-last k v m (ground arith)

  length-drop_one : (m : List (Text × A)) → length (drop 1 m) ≡ length m - 1
  length-drop_one [] = refl
  length-drop_one (e ∷ m) = omega arith

capped :
    {A : Type 0} (max : ℕ) (m : List (Text × A))
    → length m ≤ suc max
    → length (if ltb max (length m) then drop 1 m else m) ≤ max
capped max m h = elim (Bool-cases (ltb max (length m))) [
  | inl over ↦ let shorter = length-drop_one m in rw over (omega arith)
  | inr fits ↦ let within = ltb_false→le max (length m) fits in rw fits within
]

module _ {V : Type 0} (c : LruCache V) (key : Text) (now : ℤ) where
  read_entry-le :
      (o : Option (V × ℤ))
      → get_entry key c.entries ≡ o
      → length c.entries ≤ c.max_entries
      → length (read_entry c key now o).0.entries ≤ c.max_entries
  read_entry-le none found h = h
  read_entry-le (some (value, expires)) found h =
      let fewer = delete_entry_lt key (value, expires) c.entries found in
      let longer = length-append (delete_entry key c.entries) ((key, (value, expires)) ∷ []) in
      elim (Bool-cases (leb_ℤ expires now)) [
        | inl old ↦ rw old (omega arith)
        | inr fresh ↦ rw fresh (omega arith)
      ]

  set_found :
      (entry : V × ℤ)
      → 1 ≤ c.max_entries
      → get_entry key (
          if ltb c.max_entries (length (delete_entry key c.entries ++ (key, entry) ∷ []))
          then drop 1 (delete_entry key c.entries ++ (key, entry) ∷ [])
          else delete_entry key c.entries ++ (key, entry) ∷ [])
        ≡ some entry
  set_found entry room =
      let others = delete_entry key c.entries in
      let absent = get_entry-delete_entry key c.entries in
      let longer = length-append others ((key, entry) ∷ []) in
      elim (Bool-cases (ltb c.max_entries (length (others ++ (key, entry) ∷ [])))) [
        | inl over ↦
            let more = ltb→lt c.max_entries (length (others ++ (key, entry) ∷ [])) over in
            rw over (get_entry-tail key entry others absent (omega arith))
        | inr fits ↦ rw fits (get_entry-last key entry others absent)
      ]

  -- A cache within its bound stays within it, whatever is read or set.
  cache_is_bounded :
      (value : V)
      → length c.entries ≤ c.max_entries
      → (length (get_cached c key now).0.entries ≤ c.max_entries)
        × (length (set_cached c key value now).entries ≤ c.max_entries)
  unfolding set_cached get_cached
  cache_is_bounded value h =
      let fewer = delete_entry-le key c.entries in
      let longer =
        length-append (delete_entry key c.entries) ((key, (value, now +ℤ c.ttl_ms)) ∷ []) in
      (read_entry-le (get_entry key c.entries) refl h, capped c.max_entries _ (omega arith))

  -- A value that was just set is read back until its time is over, in a cache that has room for one.
  get_cached-set_cached :
      (value : V) (later : ℤ)
      → 1 ≤ c.max_entries
      → leb_ℤ (now +ℤ c.ttl_ms) later ≡ false
      → (get_cached (set_cached c key value now) key later).1 ≡ some value
  unfolding set_cached get_cached
  get_cached-set_cached value later room fresh =
      rw (set_found (value, now +ℤ c.ttl_ms) room, fresh) refl
