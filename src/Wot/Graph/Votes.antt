-- ===== src/Wot/Graph/Votes.antt =====
-- Muting by the follows of the owner, counted without the early exit of src/wot/graph.ts.
use nostr_swarm.Wot.Graph.{
  WotConfig, threshold, get_entry, mute_votes, is_explicitly_muted, lists_key,
}
use nostr_swarm.Base.{
  leb, if◌then◌else◌, leb_false→lt, Bool-cases, Option-cases, length, Text, ℕ, suc, ◌+◌, ◌/◌, ◌<◌,
  ◌≡◌, refl, ◌∙◌, inl, inr, Bool, false, ◌&&◌, ◌||◌, Option, none, some, List, [], ◌∷◌, arith,
}

-- How many of the keys mute the pubkey.
pub muters : List (Text × List Text) → Text → List Text → ℕ
muters mutes pubkey [] = 0
muters mutes pubkey (f ∷ fs) =
    if lists_key (get_entry f mutes) pubkey
    then suc (muters mutes pubkey fs)
    else muters mutes pubkey fs

mute_votes_lem :
    (mutes : List (Text × List Text)) (pubkey : Text) (needed : ℕ) (fs : List Text) (count : ℕ)
    → count < needed
    → mute_votes mutes pubkey needed fs count ≡ leb needed (count + muters mutes pubkey fs)
unfolding mute_votes muters
mute_votes_lem mutes pubkey needed [] count below = ground arith
mute_votes_lem mutes pubkey needed (f ∷ fs) count below =
    elim (Bool-cases (lists_key (get_entry f mutes) pubkey)) [
      | inr silent ↦
          rw (silent, mute_votes, muters) (mute_votes_lem mutes pubkey needed fs count below)
      | inl mutes_it ↦ elim (Bool-cases (leb needed (count + 1))) [
        | inl over ↦ rw (mutes_it, over, mute_votes, muters) (ground arith)
        | inr under ↦
            let rest =
              mute_votes_lem mutes pubkey needed fs (count + 1)
                (leb_false→lt needed (count + 1) under) in
            rw (mutes_it, under, mute_votes, muters) (ground (arith, rest))
      ]
    ]

threshold_pos : (n : ℕ) → 0 < threshold n
unfolding threshold
threshold_pos n = ground arith

threshold_lem : (n m : ℕ) → leb (threshold n) (0 + m) ≡ (leb 1 m && leb (n / 2) m)
unfolding threshold
threshold_lem n m = ground arith

-- Whether as many of the follows mute the pubkey as the threshold asks; without a list none do.
pub outvoted : List (Text × List Text) → Text → Option (List Text) → Bool
outvoted mutes pubkey none = false
outvoted mutes pubkey (some fs) =
    leb 1 (muters mutes pubkey fs) && leb (length fs / 2) (muters mutes pubkey fs)

-- A pubkey is muted exactly if the owner mutes it, or the owner has a list of follows of whom as many
-- mute it as the threshold asks: half of them, rounded down, and at least one. Without a list of
-- follows only the owner's own mutes count.
pub is_explicitly_muted_lem :
    (config : WotConfig) (follows mutes : List (Text × List Text)) (pubkey : Text)
    → is_explicitly_muted config follows mutes pubkey ≡ (
        lists_key (get_entry config.owner_pubkey mutes) pubkey
        || outvoted mutes pubkey (get_entry config.owner_pubkey follows))
unfolding is_explicitly_muted outvoted
is_explicitly_muted_lem config follows mutes pubkey =
    elim (Bool-cases (lists_key (get_entry config.owner_pubkey mutes) pubkey)) [
      | inl own ↦ rw own refl
      | inr votes ↦ elim (Option-cases (get_entry config.owner_pubkey follows)) [
        | inl none_kept ↦ rw (votes, none_kept) refl
        | inr (fs, e) ↦
            rw (votes, e)
              (mute_votes_lem mutes pubkey (threshold (length fs)) fs 0 (threshold_pos (length fs))
                ∙ threshold_lem (length fs) (muters mutes pubkey fs))
      ]
    ]
