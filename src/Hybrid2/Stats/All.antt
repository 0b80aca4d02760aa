-- ===== src/Hybrid2/Stats/All.antt =====
-- `GetAllPathStats` of hybrid2/session.go.
use onramp.Prelude.{◌≡◌, refl, ◌∙◌, none, some, String, [], ◌∷◌, map, arith, string_eq}
use mathlib.Core.Path.{ap}
use onramp.Prelude.Map.{Map, AllEntries, IsMap, lookup}
use onramp.Prelude.Float.{Floats}
use onramp.Keys.{Keys}
use onramp.Hybrid2.Sender.{SenderState}
use onramp.Hybrid2.Session.{HybridSession}
use onramp.Hybrid2.Stats.{PathStats, get_path_stats, path_stats_of, get_all_path_stats}

module _ {A : Type 0} where
  abbrev Found : Map String A → String → A → Type 0
  Found m k v = lookup k m ≡ some v

  lookup_below :
      (k : String) (v : A) (m : Map String A)
      → lookup k m ≡ none
      → (m' : Map String A) → AllEntries (Found m) m'
      → AllEntries (Found ((k, v) ∷ m)) m'
  lookup_below k v m free [] f = tt
  lookup_below k v m free ((j, w) ∷ m') f =
      (ground (arith, string_eq.beq_iff k j, f.0, free), lookup_below k v m free m' f.1)

  -- In a map each entry is found under its key.
  IsMap-Found : (m : Map String A) → IsMap m → AllEntries (Found m) m
  IsMap-Found [] i = tt
  IsMap-Found ((k, v) ∷ m) i =
      (ground (arith, string_eq.beq_iff k k), lookup_below k v m i.0 m (IsMap-Found m i.1))

module _ {F : Floats} (k : Keys) (h : HybridSession F) where
  -- A state stands under the key of its destination.
  abbrev pub UnderDestination : String → SenderState F → Type 0
  UnderDestination key s = k.base64 s.destination ≡ key

  path_stats_of-destinations :
      (m : Map String (SenderState F))
      → AllEntries (Found h.sender_states) m
      → AllEntries UnderDestination m
      → map (λ (p : PathStats F). p.destination) (path_stats_of k h m)
        ≡ map (λ (e : String × SenderState F). e.1.destination) m
  unfolding path_stats_of get_path_stats
  path_stats_of-destinations [] f u = refl
  path_stats_of-destinations ((key, s) ∷ m) f u =
      let found : lookup (k.base64 s.destination) h.sender_states ≡ some s =
        ap (λ j. lookup j h.sender_states) u.0 ∙ f.0 in
      rw (found, path_stats_of, get_path_stats)
        (ap (λ ds. s.destination ∷ ds) (path_stats_of-destinations m f.1 u.1))

  -- Where each key stands once and each state under the key of its destination, the statistics are those
  -- of every destination, in the order of the map.
  pub get_all_path_stats-destinations :
      IsMap h.sender_states
      → AllEntries UnderDestination h.sender_states
      → map (λ (p : PathStats F). p.destination) (get_all_path_stats k h)
        ≡ map (λ (e : String × SenderState F). e.1.destination) h.sender_states
  unfolding get_all_path_stats
  get_all_path_stats-destinations i u =
      path_stats_of-destinations h.sender_states (IsMap-Found h.sender_states i) u
