-- ===== src/Util/Invite.antt =====
-- The invite codec (src/util/invite.ts). The packages' SHA-256 and z-base-32 are parameters.
use nostr_swarm.Storage.Store.Ops.{from_hex, is_lower_hex, Bytes}
use nostr_swarm.Base.{
  leb, ◌==◌, if◌then◌else◌, Bool-cases, length, take, drop, length-append, all, Text, text, eqb,
  eqb_refl, eqb_iff, starts_with, starts_with-append, ℕ, zero, suc, ◌+◌, ◌≤◌, ◌≡◌, refl, sym, ap,
  ap₂, ◌∙◌, inl, inr, Bool, true, false, not, ◌&&◌, Option, none, some, [], ◌∷◌, ◌++◌, map, arith,
}

abbrev pub prefix : Text
prefix = text "nsw1"

abbrev pub version : ℕ
version = 1

abbrev pub key_length : ℕ
key_length = 32

abbrev pub checksum_length : ℕ
checksum_length = 4

abbrev pub payload_length : ℕ
payload_length = 37

-- The errors that are thrown.
pub data InviteError : Type 0 where
  invalid_base_key : ℕ → InviteError
  missing_prefix : InviteError
  not_decoded : InviteError
  wrong_length : ℕ → InviteError
  unsupported_version : Option ℕ → InviteError
  checksum_mismatch : InviteError
  invalid_bootstrap : Text → InviteError

pub data Parsed (A : Type 0) : Type 0 where
  ok : A → Parsed A
  thrown : InviteError → Parsed A

abbrev pub map_ok : {A B : Type 0} → (A → B) → Parsed A → Parsed B
map_ok f (ok a) = ok (f a)
map_ok f (thrown e) = thrown e

abbrev pub and_then : {A B : Type 0} → Parsed A → (A → Parsed B) → Parsed B
and_then (ok a) f = f a
and_then (thrown e) f = thrown e

abbrev pub first_byte : Bytes → Option ℕ
first_byte [] = none
first_byte (b ∷ bs) = some b

abbrev pub is_version : Option ℕ → Bool
is_version none = false
is_version (some b) = b == version

-- `toLowerCase` of a text of hexadecimal digits.
unfoldable pub lower_hex : Text → Text
lower_hex = map (λ c. if leb 65 c && leb c 70 then c + 32 else c)

unfoldable pub is_hex64 : Text → Bool
is_hex64 value = length value == 64 && all is_lower_hex (lower_hex value)

module _ (sha256 : Bytes → Bytes) (encode : Bytes → Text) (decode : Text → Option Bytes) where
  unfoldable pub checksum : Bytes → Bytes
  checksum version_and_key = take checksum_length (sha256 version_and_key)

  unfoldable pub encode_invite : Bytes → Parsed Text
  unfolding checksum
  encode_invite base_key =
      let version_and_key = version ∷ base_key in
      if not (length base_key == key_length)
      then thrown (invalid_base_key (length base_key))
      else ok (prefix ++ encode (version_and_key ++ checksum version_and_key))

  abbrev pub read_payload : Option Bytes → Parsed Bytes
  read_payload none = thrown not_decoded
  read_payload (some payload) =
      if not (length payload == payload_length)
      then thrown (wrong_length (length payload))
      else if not (is_version (first_byte payload))
      then thrown (unsupported_version (first_byte payload))
      else if not (eqb (checksum (take (1 + key_length) payload)) (drop (1 + key_length) payload))
      then thrown checksum_mismatch
      else ok (take key_length (drop 1 payload))

  unfoldable pub decode_invite : Text → Parsed Bytes
  unfolding checksum
  decode_invite code =
      if not (starts_with code prefix)
      then thrown missing_prefix
      else read_payload (decode (drop 4 code))

  unfoldable pub parse_bootstrap : Text → Parsed (Option Bytes)
  parse_bootstrap value =
      if eqb value []
      then ok none
      else if starts_with value prefix
      then map_ok some (decode_invite value)
      else if is_hex64 value
      then ok (some (from_hex (lower_hex value)))
      else thrown (invalid_bootstrap value)

  length-take : (n : ℕ) (xs : Bytes) → n ≤ length xs → length (take n xs) ≡ n
  length-take zero xs h = refl
  length-take (suc n) [] h = ground arith
  length-take (suc n) (x ∷ xs) h = let rest = length-take n xs (omega arith) in omega arith

  take-drop : (n : ℕ) (xs : Bytes) → take n xs ++ drop n xs ≡ xs
  take-drop zero xs = refl
  take-drop (suc n) [] = refl
  take-drop (suc n) (x ∷ xs) = ap (λ l. x ∷ l) (take-drop n xs)

  take-append : (xs ys : Bytes) → take (length xs) (xs ++ ys) ≡ xs
  take-append [] ys = refl
  take-append (x ∷ xs) ys = ground (arith, take-append xs ys)

  drop-append : (xs ys : Bytes) → drop (length xs) (xs ++ ys) ≡ ys
  drop-append [] ys = refl
  drop-append (x ∷ xs) ys = ground (arith, drop-append xs ys)

  take_key : (key c : Bytes) → length key ≡ key_length → take key_length (key ++ c) ≡ key
  take_key key c sized = ap (λ n. take n (key ++ c)) (sym sized) ∙ take-append key c

  drop_key : (key c : Bytes) → length key ≡ key_length → drop key_length (key ++ c) ≡ c
  drop_key key c sized = ap (λ n. drop n (key ++ c)) (sym sized) ∙ drop-append key c

  read_payload_lem :
      (key : Bytes)
      → length key ≡ key_length
      → length (checksum (version ∷ key)) ≡ checksum_length
      → read_payload (some (version ∷ key ++ checksum (version ∷ key))) ≡ ok key
  read_payload_lem key sized four =
      let c : Bytes = checksum (version ∷ key) in
      rw (length-append key c, sized, four, take_key key c sized, drop_key key c sized, eqb_refl c)
        refl

  -- An invite decodes to the key it was made from. The base key has 32 bytes, a digest has 32, and
  -- z-base-32 decodes what it encodes.
  pub decode_invite-encode_invite :
      (base_key : Bytes)
      → length base_key ≡ key_length
      → ((b : Bytes) → decode (encode b) ≡ some b)
      → ((b : Bytes) → length (sha256 b) ≡ 32)
      → and_then (encode_invite base_key) decode_invite ≡ ok base_key
  unfolding encode_invite decode_invite checksum
  decode_invite-encode_invite base_key sized inverse digest =
      rw (sized, starts_with-append, inverse)
        (read_payload_lem base_key sized (
          length-take 4 (sha256 (version ∷ base_key))
            (ground (arith, digest (version ∷ base_key)))))

  -- The checks that a payload has passed.
  checked :
      (b : ℕ) (rest key : Bytes)
      → read_payload (some (b ∷ rest)) ≡ ok key
      → (length rest ≡ 36)
        × (b ≡ version)
        × (checksum (b ∷ take key_length rest) ≡ drop key_length rest)
        × (take key_length rest ≡ key)
  checked b rest key h =
      ground (arith, eqb_iff (checksum (b ∷ take key_length rest)) (drop key_length rest))

  sound_lem :
      (o : Option Bytes) (key : Bytes)
      → read_payload o ≡ ok key
      → (length key ≡ key_length) × (o ≡ some (version ∷ key ++ checksum (version ∷ key)))
  sound_lem none key h = ground arith
  sound_lem (some []) key h = ground arith
  sound_lem (some (b ∷ rest)) key h =
      let (sized, same, sum, made) = checked b rest key h in
      (
        sym (ap length made) ∙ length-take key_length rest (omega arith),
        ap some (
            ap (λ l. b ∷ l) (sym (take-drop key_length rest))
            ∙ ap (λ l. b ∷ take key_length rest ++ l) (sym sum)
            ∙ ap₂ (λ k v. v ∷ k ++ checksum (v ∷ k)) made same),
      )

  -- A text that decodes is `nsw1` and a payload of the version, the key and the key's checksum: no
  -- other payload is taken for an invite.
  pub decode_invite_sound :
      (code : Text) (key : Bytes)
      → decode_invite code ≡ ok key
      → (starts_with code prefix ≡ true)
        × (length key ≡ key_length)
        × (decode (drop 4 code) ≡ some (version ∷ key ++ checksum (version ∷ key)))
  unfolding decode_invite
  decode_invite_sound code key h = elim (Bool-cases (starts_with code prefix)) [
    | inl there ↦ let s = sound_lem (decode (drop 4 code)) key (rw there at h) in (there, s.0, s.1)
    | inr bad ↦ ground arith
  ]
