-- ===== src/Storage/Bootstrap.antt =====
-- The key that a storage directory belongs to (src/storage/bootstrap.ts). The file `bootstrap-key` is
-- its content, or `none` where there is no such file; `trim` is the runtime's.
use nostr_swarm.Util.Invite.{ok, thrown, parse_bootstrap, Parsed, lower_hex, InviteError}
use nostr_swarm.Storage.Store.Ops.{from_hex, is_writer_key, to_hex, Bytes}
use nostr_swarm.Base.{if◌then◌else◌, Text, eqb, ◌≡◌, not, Option, none, some, [], ◌∷◌, ◌++◌, arith}

pub data BootstrapError : Type 0 where
  invalid : InviteError → BootstrapError
  corrupted : BootstrapError
  mismatch : Bytes → Bytes → BootstrapError

-- What `resolveBootstrap` returns, with the file afterwards, or throws.
pub data Resolved : Type 0 where
  resolved : Option Bytes → Option Text → Resolved
  fatal : BootstrapError → Resolved

-- The persisted key: none, or the key of the file, or an error.
pub data Persisted : Type 0 where
  absent : Persisted
  recorded : Bytes → Persisted
  unreadable : Persisted

abbrev pub persist_bootstrap_key : Bytes → Text
persist_bootstrap_key key = to_hex key ++ 10 ∷ []

module _ (trim : Text → Text) where
  unfoldable pub read_persisted_key : Option Text → Persisted
  read_persisted_key none = absent
  read_persisted_key (some content) =
      let raw = lower_hex (trim content) in
      if is_writer_key raw then recorded (from_hex raw) else unreadable

  abbrev pub resolve_key : Option Text → Persisted → Option Bytes → Resolved
  resolve_key file unreadable configured = fatal corrupted
  resolve_key file (recorded persisted) none = resolved (some persisted) file
  resolve_key file (recorded persisted) (some configured) =
      if not (eqb configured persisted)
      then fatal (mismatch persisted configured)
      else resolved (some persisted) file
  resolve_key file absent (some configured) =
      resolved (some configured) (some (persist_bootstrap_key configured))
  resolve_key file absent none = resolved none file

  abbrev pub resolve_parsed : Option Text → Parsed (Option Bytes) → Resolved
  resolve_parsed file (thrown e) = fatal (invalid e)
  resolve_parsed file (ok configured) = resolve_key file (read_persisted_key file) configured

  module _ (sha256 : Bytes → Bytes) (encode : Bytes → Text) (decode : Text → Option Bytes) where
    unfoldable pub resolve_bootstrap : Option Text → Text → Resolved
    resolve_bootstrap file configured =
        resolve_parsed file (parse_bootstrap sha256 encode decode configured)

    -- A directory that records a key keeps it: whatever is configured, the call returns the recorded
    -- key and leaves the file, or it fails; it never founds a base and never takes another key.
    pub recorded_key_is_kept :
        (file : Option Text) (configured : Text) (key : Bytes) (result : Option Bytes)
        (after : Option Text)
        → read_persisted_key file ≡ recorded key
        → resolve_bootstrap file configured ≡ resolved result after
        → (result ≡ some key) × (after ≡ file)
    unfolding resolve_bootstrap
    recorded_key_is_kept file configured key result after there h =
        parsed_lem (parse_bootstrap sha256 encode decode configured) h
      where
        key_lem :
            (o : Option Bytes)
            → resolve_key file (recorded key) o ≡ resolved result after
            → (result ≡ some key) × (after ≡ file)
        key_lem none g = ground arith
        key_lem (some c) g = ground arith

        parsed_lem :
            (p : Parsed (Option Bytes))
            → resolve_parsed file p ≡ resolved result after
            → (result ≡ some key) × (after ≡ file)
        parsed_lem (thrown e) g = ground arith
        parsed_lem (ok o) g = key_lem o (rw there at g)
