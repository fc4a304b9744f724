-- ===== src/Tests/Data.antt =====
-- The data of the tests: a few events, and a check of signatures that accepts all but one.
use nostr_swarm.Nostr.Event.{Verdict, genuine, NostrEvent}
use nostr_swarm.Keys.{event_key}
use nostr_swarm.Storage.Indexes.{create_subs}
use nostr_swarm.Storage.Store.Ops.{ApplyNode, Action, Bytes, State}
use nostr_swarm.Hyperbee.Sorted.{sorted_hyperbee}
use nostr_swarm.Base.{replicate, Text, text, pos, ℕ, false, none, some, List, [], ◌∷◌}

abbrev pub id_a : Text
id_a = replicate 64 97

abbrev pub id_b : Text
id_b = replicate 64 98

abbrev pub id_c : Text
id_c = replicate 64 99

abbrev pub alice : Text
alice = replicate 64 100

abbrev pub bob : Text
bob = replicate 64 101

abbrev pub sig_128 : Text
sig_128 = replicate 128 48

abbrev pub event_of : Text → Text → ℕ → ℕ → List (List Text) → NostrEvent
event_of id pubkey time kind tags = record {
  id = id;
  pubkey = pubkey;
  created_at = pos time;
  kind = kind;
  tags = tags;
  content = [];
  sig = sig_128;
}

abbrev pub note : NostrEvent
note = event_of id_a alice 100 1 []

abbrev pub profile : NostrEvent
profile = event_of id_a alice 100 0 []

abbrev pub new_profile : NostrEvent
new_profile = event_of id_b alice 200 0 []

-- A deletion of `id_a` by its author, and one by another.
abbrev pub deletion : NostrEvent
deletion = event_of id_b alice 200 5 ((text "e" ∷ id_a ∷ []) ∷ [])

abbrev pub forged : NostrEvent
forged = event_of id_c bob 300 5 ((text "e" ∷ id_a ∷ []) ∷ [])

abbrev pub verify_all : NostrEvent → Verdict
verify_all e = genuine

abbrev pub host_key : Bytes
host_key = replicate 32 7

abbrev pub start : State sorted_hyperbee
start = record {
  view = create_subs sorted_hyperbee;
  emitted_stored_ids = [];
  emissions = [];
  added_writers = [];
  acked_writers = [];
}

abbrev pub node_of : Action → ApplyNode
node_of action = record {
  value = some (record { action = action; v = none });
  optimistic = false;
  from_key = host_key;
}

-- A base in which the note is stored.
abbrev pub with_note : State sorted_hyperbee
with_note = record start {
  view = record (create_subs sorted_hyperbee) {
    events = sorted_hyperbee.put sorted_hyperbee.empty (event_key id_a) note;
  };
}
