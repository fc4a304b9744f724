-- ===== src/Tests/Lru.antt =====
-- Instances of the theorems on the cache.
use nostr_swarm.Shim.Lru.{LruCache}
use nostr_swarm.Base.{pos, ℕ, []}

abbrev empty_cache : LruCache ℕ
empty_cache = record { entries = []; max_entries = 2; ttl_ms = pos 100 }
