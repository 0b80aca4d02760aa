-- ===== src/Embedded/Lookup.antt =====
-- The lookup of `subsessionAwareRegistry` of garlic_sam_embed.go.
use onramp.Prelude.{◌≡◌, ◌⊎◌, none, some, String, List, [], ◌∷◌}
use onramp.Embedded.{Registry, subsession_of}

abbrev pub In : String → List String → Type 0
In id [] = ⊥
In id (j ∷ js) = (j ≡ id) ⊎ In id js

module _ {S : Type 0} (r : Registry S) where
  -- A session has an id: it is registered under it; or nothing is, and it stands under a PRIMARY session
  -- that is listed.
  abbrev pub Has : String → S → Type 0
  Has id s =
      (r.registered id ≡ some s)
      ⊎ ((r.registered id ≡ none)
          × ((p : String) × In p r.all × (subsession_of r id (r.registered p) ≡ some s)))

  -- No two PRIMARY sessions have different sessions of one id under them.
  abbrev pub IsUnique : String → Type 0
  IsUnique id =
      (p q : String) (s t : S)
      → subsession_of r id (r.registered p) ≡ some s
      → subsession_of r id (r.registered q) ≡ some t
      → s ≡ t
