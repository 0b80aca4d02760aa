-- ===== src/Hybrid1/Opening.antt =====
-- `NewHybrid1Session` of hybrid1/session.go, and the integration of hybrid1/integration.go over it. What
-- the SAM library answers is an argument: `none` is success, else the text of its error.
use onramp.Prelude.{ℕ, ◌⊎◌, inl, inr, false, Option, none, some, String, []}
use Prim.Native.String.{◌++◌ as text_append}
use onramp.Hybrid1.Session.{Hybrid1Session}
use onramp.Hybridcommon.Integration.{
  Closes, Resource, child_session, SetupError, creating, Setup, GarlicIntegration,
  new_garlic_integration, new_garlic_integration_from_primary,
}

-- The session of the constructor; `local_port` is what the options set, or 0.
abbrev pub opened_session : String → String → ℕ → Hybrid1Session
opened_session id local_addr local_port = record {
  id = id;
  local_addr = local_addr;
  local_port = local_port;
  sender_states = [];
  receiver_map = [];
  recv_chan = [];
  recv_err_chan = [];
  recv_stop = false;
  cleanup_done = false;
  closed = false;
  datagram_closed = false;
}

-- `NewHybrid1Session`
abbrev pub new_hybrid1_session :
    (Resource → Option String) → String → String → ℕ → SetupError ⊎ Hybrid1Session
new_hybrid1_session answer id local_addr local_port = elim (answer child_session) [
  | some e ↦ inl (creating child_session e)
  | none ↦ inr (opened_session id local_addr local_port)
]

-- `NewGarlicIntegration` of hybrid1/integration.go; `local_addr` is the address of the PRIMARY session.
unfoldable pub new_hybrid1_integration :
    Closes
    → (Resource → Option String)
    → String
    → Option String
    → String
    → String
    → Setup (GarlicIntegration Hybrid1Session)
unfolding new_garlic_integration
new_hybrid1_integration c answer generated keys name local_addr =
    new_garlic_integration c answer generated keys
      (new_hybrid1_session answer (text_append name "-hybrid1") local_addr 0)

-- `NewGarlicIntegrationFromPrimary` of hybrid1/integration.go
abbrev pub new_hybrid1_integration_from_primary :
    (Resource → Option String) → String → String → ℕ → SetupError ⊎ GarlicIntegration Hybrid1Session
new_hybrid1_integration_from_primary answer name local_addr local_port =
    new_garlic_integration_from_primary (new_hybrid1_session answer name local_addr local_port)
