-- ===== src/Nostr/Filter.antt =====
-- Filters (src/util/types.ts) and their matching (src/nostr/filters.ts).
-- The mapping of Unicode letters to lower case is a parameter.
pub mod Validate
pub mod Typed
use nostr_swarm.Nostr.Event.{NostrEvent, has_name, truthy}
use nostr_swarm.Base.{
  ◌==◌, if◌then◌else◌, any, all, Text, eqb, starts_with, includes, includes_text, ℤ, ltb_ℤ, ℕ, Bool,
  true, false, not, ◌&&◌, ◌||◌, Option, none, some, List, [], ◌∷◌,
}

-- `tag_filters` has the fields of the filter whose keys are `#` and one letter, in their order.
pub record NostrFilter : Type 0 where
  pub ids : Option (List Text)
  pub authors : Option (List Text)
  pub kinds : Option (List ℕ)
  pub since : Option ℤ
  pub until : Option ℤ
  pub limit : Option ℕ
  pub search : Option Text
  pub tag_filters : List (Text × List Text)

-- A list that is absent filters nothing.
abbrev pub unless_given : {A : Type 0} → (A → Bool) → Option A → Bool
unless_given test none = true
unless_given test (some a) = test a

unfoldable pub includes_number : List ℕ → ℕ → Bool
includes_number [] n = false
includes_number (k ∷ ks) n = k == n || includes_number ks n

-- The values of the event's tags of that name; a tag without a value yields no text.
unfoldable pub tag_values : Text → List (List Text) → List Text
unfolding has_name
tag_values name [] = []
tag_values name ([] ∷ tags) = tag_values name tags
tag_values name ((n ∷ []) ∷ tags) = tag_values name tags
tag_values name ((n ∷ value ∷ rest) ∷ tags) =
    let values = tag_values name tags in if eqb n name then value ∷ values else values

unfoldable pub match_tag : List (List Text) → Text × List Text → Bool
unfolding includes_text tag_values
match_tag tags (name, []) = true
match_tag tags (name, v ∷ vs) = any (includes_text (tag_values name tags)) (v ∷ vs)

module _ (to_lower_case : Text → Text) where
  unfoldable pub match_search : Option Text → Text → Bool
  match_search none content = true
  match_search (some needle) content = includes (to_lower_case content) (to_lower_case needle)

  unfoldable pub match_filter : NostrFilter → NostrEvent → Bool
  unfolding includes_number match_tag match_search
  match_filter filter event =
      unless_given (any (starts_with event.id)) filter.ids
      && unless_given (any (starts_with event.pubkey)) filter.authors
      && unless_given (λ ks. includes_number ks event.kind) filter.kinds
      && unless_given (λ since. not (ltb_ℤ event.created_at since)) filter.since
      && unless_given (λ until. not (ltb_ℤ until event.created_at)) filter.until
      && all (match_tag event.tags) filter.tag_filters
      && match_search (truthy filter.search) event.content

  unfoldable pub match_filters : List NostrFilter → NostrEvent → Bool
  unfolding match_filter
  match_filters filters event = any (λ f. match_filter f event) filters
