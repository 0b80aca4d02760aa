-- ===== src/Hybrid2/Integration.antt =====
-- The integration of hybrid2/integration.go, over `NewHybridSession`.
use onramp.Prelude.{◌⊎◌, inl, inr, Option, String}
use Prim.Native.String.{◌++◌ as text_append}
use onramp.Prelude.Float.{Floats}
use onramp.Hybrid2.Session.{HybridSession}
use onramp.Hybrid2.Opening as Opening
use onramp.Hybrid2.Opening.{OpenError, new_hybrid_session}
use onramp.Hybridcommon.Integration.{
  Closes, Resource, child_session, SetupError, creating, Setup, GarlicIntegration,
  new_garlic_integration, new_garlic_integration_from_primary,
}

-- The error of a child session, which `createSession` hands on.
abbrev pub child_result : {T : Type 0} → OpenError ⊎ T → SetupError ⊎ T
child_result (inl (Opening.creating r e)) = inl (creating child_session e)
child_result (inr session) = inr session

-- `NewGarlicIntegration` of hybrid2/integration.go; `sub` is what the library answers to the requests of
-- `NewHybridSession`, and `local_addr` the address of the PRIMARY session.
unfoldable pub new_hybrid2_integration :
    (F : Floats)
    → Closes
    → (Resource → Option String)
    → (Opening.Resource → Option String)
    → String
    → Option String
    → String
    → String
    → Setup (GarlicIntegration (HybridSession F))
unfolding new_garlic_integration new_hybrid_session
new_hybrid2_integration F c answer sub generated keys name local_addr =
    new_garlic_integration c answer generated keys
      (child_result (new_hybrid_session F sub (text_append name "-hybrid") local_addr).result)

-- `NewGarlicIntegrationFromPrimary` of hybrid2/integration.go
unfoldable pub new_hybrid2_integration_from_primary :
    (F : Floats)
    → (Opening.Resource → Option String)
    → String
    → String
    → SetupError ⊎ GarlicIntegration (HybridSession F)
unfolding new_hybrid_session
new_hybrid2_integration_from_primary F sub name local_addr =
    new_garlic_integration_from_primary
      (child_result (new_hybrid_session F sub name local_addr).result)
