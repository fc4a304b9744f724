-- ===== src/Storage/Store/Ops.antt =====
-- Operations, nodes and the state of `apply` (src/util/types.ts, src/storage/store.ts).
use nostr_swarm.Hyperbee.{Hyperbee}
use nostr_swarm.Nostr.Event.{NostrEvent}
use nostr_swarm.Storage.Indexes.{IndexSubs}
use nostr_swarm.Base.{
  ltb, leb, ◌==◌, if◌then◌else◌, length, all, Text, ℕ, ◌+◌, ◌-◌, ◌*◌, ◌/◌, ◌%◌, Bool, ◌&&◌, ◌||◌,
  Option, List, [], ◌∷◌, ◌++◌,
}

-- The bytes of a key.
abbrev pub Bytes : Type 0
Bytes = List ℕ

abbrev pub consensus_version : ℕ
consensus_version = 2

abbrev pub max_writers : ℕ
max_writers = 64

abbrev pub stored_emit_lru_max : ℕ
stored_emit_lru_max = 4096

pub data Action : Type 0 where
  put : NostrEvent → Action
  delete : NostrEvent → Action
  add_writer : Text → Action
  expiry_delete : List Text → Action
  set_config : Text → Bool → Action
  prune_delete : List Text → Action

pub record StoreOp : Type 0 where
  pub action : Action
  pub v : Option ℕ

-- `value` is `none` at an ack node.
pub record ApplyNode : Type 0 where
  pub value : Option StoreOp
  pub optimistic : Bool
  pub from_key : Bytes

-- The view, the record of what was emitted (oldest first), the events that await their emission, and
-- the calls that were made of the host.
pub record State (bee : Hyperbee) : Type 0 where
  pub view : IndexSubs bee
  pub open view use *
  pub emitted_stored_ids : List Text
  pub emissions : List NostrEvent
  pub added_writers : List Bytes
  pub acked_writers : List Bytes

-- `host.interrupt` halts the node.
pub data Outcome (bee : Hyperbee) : Type 0 where
  running : State bee → Outcome bee
  interrupted : State bee → Outcome bee
  crashed : State bee → Outcome bee

unfoldable pub hex_byte : ℕ → Text
hex_byte b =
    (if ltb (b / 16) 10 then 48 + b / 16 else 87 + b / 16)
    ∷ (if ltb (b % 16) 10 then 48 + b % 16 else 87 + b % 16)
    ∷ []

-- `key.toString('hex')`
unfoldable pub to_hex : Bytes → Text
unfolding hex_byte
to_hex [] = []
to_hex (b ∷ bs) = hex_byte b ++ to_hex bs

unfoldable pub nibble : ℕ → ℕ
nibble c = if ltb c 58 then c - 48 else c - 87

-- `Buffer.from(key, 'hex')` of a text of lower-case hexadecimal digits.
unfoldable pub from_hex : Text → Bytes
unfolding nibble
from_hex (c ∷ d ∷ s) = (nibble c * 16 + nibble d) ∷ from_hex s
from_hex _ = []

unfoldable pub is_lower_hex : ℕ → Bool
is_lower_hex c = (leb 48 c && leb c 57) || (leb 97 c && leb c 102)

-- `/^[0-9a-f]{64}$/`
unfoldable pub is_writer_key : Text → Bool
unfolding is_lower_hex
is_writer_key key = length key == 64 && all is_lower_hex key
