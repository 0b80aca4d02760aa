-- ===== src/Hybridcommon/Integration/Packages.antt =====
-- The integrations of hybrid1/integration.go and hybrid2/integration.go: what they open, and what their
-- `Close` closes.
use onramp.Prelude.{ℕ, ◌≡◌, ◌⊎◌, inl, inr, Option, String, [], ◌∷◌, if◌then◌else◌}
use onramp.Prelude.Float.{Floats}
use onramp.Hybridcommon.Integration.{
  Resource, primary_session, sam_connection, child_session, SetupError, Closes, GarlicIntegration,
  close_integration, new_garlic_integration_from_primary,
}
use onramp.Hybridcommon.Integration.Laws.{
  Closable, new_garlic_integration-Closable, from_primary-closes,
}
use onramp.Hybrid1.Opening.{new_hybrid1_integration, new_hybrid1_integration_from_primary}
use onramp.Hybrid2.Opening as Opening
use onramp.Hybrid2.Opening.{new_hybrid_session}
use onramp.Hybrid2.Integration.{new_hybrid2_integration, new_hybrid2_integration_from_primary}

-- Whatever the library answers, the constructor of an integration of hybrid1 or of hybrid2 ends
-- with an error, and has closed what it had opened, or with an integration whose `Close` calls
-- `Close` on the child session, the PRIMARY session and the connection, in this order, whichever
-- of them fail, reports the errors of all of them and does not panic.
pub integrations-Closable :
    (F : Floats) (answer : Resource → Option String) (sub : Opening.Resource → Option String)
    (generated : String) (keys : Option String) (name local_addr : String) (c : Closes)
    → Closable c (new_hybrid1_integration c answer generated keys name local_addr)
      × Closable c (new_hybrid2_integration F c answer sub generated keys name local_addr)
unfolding new_hybrid1_integration new_hybrid2_integration
integrations-Closable F answer sub generated keys name local_addr c = (
  new_garlic_integration-Closable answer generated keys _ c,
  new_garlic_integration-Closable answer generated keys _ c,
)

-- What `Close` does on an integration that was made from a PRIMARY session of the caller.
abbrev pub ClosesBorrowed : {T : Type 0} → Closes → SetupError ⊎ GarlicIntegration T → Type 0
ClosesBorrowed c (inl e) = Unit {0}
ClosesBorrowed c (inr gi) =
    ((close_integration c gi).panicked ≡ c.nil_panics)
    × ((close_integration c gi).calls
        ≡ child_session ∷ primary_session ∷ (if c.nil_panics then [] else sam_connection ∷ []))

borrowed :
    {T : Type 0} (child : SetupError ⊎ T) (c : Closes)
    → ClosesBorrowed c (new_garlic_integration_from_primary child)
borrowed (inl e) c = tt
borrowed (inr session) c = from_primary-closes session c

-- The `Close` of an integration of hybrid1 or hybrid2 that was made from a PRIMARY session of the
-- caller closes the child session and that PRIMARY session, and then calls `Close` on a nil
-- connection: it panics if the library does there.
integrations_from_primary-close :
    (F : Floats) (answer : Resource → Option String) (sub : Opening.Resource → Option String)
    (name local_addr : String) (port : ℕ) (c : Closes)
    → ClosesBorrowed c (new_hybrid1_integration_from_primary answer name local_addr port)
      × ClosesBorrowed c (new_hybrid2_integration_from_primary F sub name local_addr)
unfolding new_hybrid2_integration_from_primary
integrations_from_primary-close F answer sub name local_addr port c = (borrowed _ c, borrowed _ c)
