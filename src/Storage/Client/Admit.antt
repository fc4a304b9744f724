-- ===== src/Storage/Client/Admit.antt =====
-- `admitWriter` of src/storage/store.ts, and what `apply` makes of the operation it appends.
use nostr_swarm.Storage.Client.{to_hex, Client, admit_writer, Bytes, Admission, appended}
use nostr_swarm.Storage.Store.Ops.{State}
use nostr_swarm.Storage.Store.{apply_add_writer}
use nostr_swarm.Hyperbee.{Hyperbee}
use nostr_swarm.Base.{if◌then◌else◌, Text, eqb_refl, ◌≡◌, Bool, true, false, some, arith}

abbrev pub is_appended : Admission → Bool
is_appended appended = true
is_appended _ = false

module _ (bee : Hyperbee) (host_key : Bytes) (to_lower_case : Text → Text) where
  -- The check before the append agrees with the rule of `apply` on the same view: on a writable store
  -- of a base, the key stands in the writers sub after `apply` handles it exactly if it was there, or
  -- `admitWriter` appended the operation.
  pub apply_add_writer-admit_writer :
      (s : Client bee) (st : State bee) (key_hex : Text) (from : Bytes)
      → s.writable ≡ true
      → s.base_key ≡ some host_key
      → s.indexes ≡ st.view
      → bee.get
          (apply_add_writer bee host_key st (to_lower_case key_hex) from).writers
          (to_lower_case key_hex)
        ≡ (if is_appended (admit_writer bee to_lower_case s key_hex).1
            then some (to_hex from)
            else bee.get st.writers (to_lower_case key_hex))
  unfolding apply_add_writer admit_writer
  apply_add_writer-admit_writer s st key_hex from writable base same =
      rw (admit_writer, writable, base, same)
        (ground (
          arith,
          bee.get-put st.writers (to_lower_case key_hex) (to_lower_case key_hex) (to_hex from),
          eqb_refl (to_lower_case key_hex),
        ))
