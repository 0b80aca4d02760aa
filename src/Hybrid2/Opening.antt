-- ===== src/Hybrid2/Opening.antt =====
-- Opening a session: `NewHybridSession` and `NewHybridSessionFromSAM` of hybrid2/session.go, with
-- `initializeReceivers` and `startReceiveLoops` of hybrid2/receiver.go and `NewSessionFromSAM` of
-- internal/hybridcommon/integration.go; and a round of `ackCleanupLoop` in an open session. What the SAM
-- library answers to each request is an argument: `none` is success, else the text of its error.
pub mod Laws
use onramp.Prelude.{ℕ, suc, ◌⊎◌, inl, inr, Bool, false, Option, none, some, String, List, [], ◌∷◌}
use onramp.Prelude.Map.{Map}
use onramp.Prelude.Float.{Floats}
use onramp.Hybrid2.Sender.{SenderState, cleanup_stale_unacked}
use onramp.Hybrid2.Session.{HybridSession}

-- What is asked of the SAM library, and has to be closed.
pub data Resource : Type 0 where
  primary_session datagram2_sub datagram3_sub : Resource

-- The step that failed, with the text of the library's error.
pub data OpenError : Type 0 where
  creating : Resource → String → OpenError

-- The end of a call: the error or what was made, and the resources that are open.
pub record Acquired (T : Type 0) : Type 0 where
  pub result : OpenError ⊎ T
  pub open_resources : List Resource

-- The session of the constructor, with `initializeReceivers`, which does not fail, and
-- `startReceiveLoops`. Options are kept for the library only and left out.
abbrev pub opened_session : (F : Floats) → String → String → HybridSession F
opened_session F id local_addr = record {
  id = id;
  local_addr = local_addr;
  sender_states = [];
  mappings = [];
  recv_chan = [];
  recv_err_chan = [];
  recv_stop = false;
  stop_cleanup = false;
  ack_cleanup_stop = false;
  cleanup_done = false;
  closed = false;
  datagram2_closed = false;
  datagram3_closed = false;
}

-- `NewHybridSession`: the datagram2 subsession is closed where the other cannot be made.
unfoldable pub new_hybrid_session :
    (F : Floats) → (Resource → Option String) → String → String → Acquired (HybridSession F)
new_hybrid_session F answer id local_addr = elim (answer datagram2_sub) [
  | some e ↦ record { result = inl (creating datagram2_sub e); open_resources = [] }
  | none ↦ elim (answer datagram3_sub) [
    | some e ↦ record { result = inl (creating datagram3_sub e); open_resources = [] }
    | none ↦ record {
      result = inr (opened_session F id local_addr);
      open_resources = datagram2_sub ∷ datagram3_sub ∷ [];
    }
  ]
]

-- The end of `NewSessionFromSAM` once the PRIMARY session is made: it is closed where the child is not
-- made.
abbrev pub with_primary : {T : Type 0} → List Resource → OpenError ⊎ T → Acquired T
with_primary child (inl e) = record { result = inl e; open_resources = child }
with_primary child (inr session) = record {
  result = inr session;
  open_resources = primary_session ∷ child;
}

-- `NewSessionFromSAM`, over what `createSession` ends with.
unfoldable pub new_session_from_sam :
    {T : Type 0} → (Resource → Option String) → Acquired T → Acquired T
new_session_from_sam answer child = elim (answer primary_session) [
  | some e ↦ record { result = inl (creating primary_session e); open_resources = [] }
  | none ↦ with_primary child.open_resources child.result
]

-- `NewHybridSessionFromSAM`
unfoldable pub new_hybrid_session_from_sam :
    (F : Floats) → (Resource → Option String) → String → String → Acquired (HybridSession F)
unfolding new_session_from_sam new_hybrid_session
new_hybrid_session_from_sam F answer id local_addr =
    new_session_from_sam answer (new_hybrid_session F answer id local_addr)

module _ {F : Floats} where
  -- The loop of `cleanupStaleUnacked` over the states; `now` gives its readings of the clock from `i` on.
  unfoldable pub cleanup_states :
      (ℕ → ℕ) → ℕ → Map String (SenderState F) → Map String (SenderState F)
  unfolding cleanup_stale_unacked
  cleanup_states now i [] = []
  cleanup_states now i ((key, s) ∷ m) =
      (key, (cleanup_stale_unacked (now i) s).0) ∷ cleanup_states now (suc i) m

  -- `HybridSession.cleanupStaleUnacked`, the round of `ackCleanupLoop`.
  unfoldable pub cleanup_all_stale_unacked : (ℕ → ℕ) → HybridSession F → HybridSession F
  unfolding cleanup_states
  cleanup_all_stale_unacked now h = record h {
    sender_states = cleanup_states now 0 h.sender_states;
  }
