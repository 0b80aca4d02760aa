-- ===== src/Hybrid2/Opening/Laws.antt =====
-- What opening a session (hybrid2/session.go) gives and leaves open, and what a round of the cleanup of
-- ACKs keeps.
use onramp.Prelude.{
  ℕ, suc, ◌≡◌, refl, ◌⊎◌, inl, inr, false, Option, Option-cases, Bool-cases, none, some, String, [],
  ◌∷◌, string_eq, nat_eq, arith,
}
use onramp.Prelude.Map.{Map, AllEntries, lookup}
use onramp.Prelude.Float.{Floats}
use onramp.Keys.{Keys}
use onramp.Hybrid2.Sender.{SenderState, cleanup_stale_unacked}
use onramp.Hybrid2.Sender.Invariant.{IsValid, cleanup_stale_unacked-IsValid}
use onramp.Hybrid2.Session.{HybridSession}
use onramp.Hybrid2.Session.Lifecycle.{IsConsistent}
use onramp.Hybrid2.Receive.Invariant.{IsReceiving}
use onramp.Hybrid2.Opening.{
  Resource, primary_session, datagram2_sub, datagram3_sub, creating, Acquired, opened_session,
  new_hybrid_session_from_sam, cleanup_states, cleanup_all_stale_unacked,
}

pub opened_session-IsConsistent :
    (F : Floats) (id local_addr : String) → IsConsistent (opened_session F id local_addr)
opened_session-IsConsistent F id local_addr = record {
  stops = refl;
  cleans = refl;
  acks = refl;
  finishes = refl;
  frees2 = refl;
  frees3 = refl;
}

pub opened_session-IsReceiving :
    (F : Floats) (k : Keys) (id local_addr : String)
    → IsReceiving k (opened_session F id local_addr)
opened_session-IsReceiving F k id local_addr = record {
  keyed = tt;
  sound = tt;
  attributed = tt;
  bounded = omega arith;
  one_error = omega arith;
}

-- What a call may end with: an error for a request that was refused, with nothing left open; or an open
-- session in its invariants, with the three resources.
abbrev pub Opens :
    {F : Floats} → Keys → (Resource → Option String) → Acquired (HybridSession F) → Type 0
Opens {F} k answer a =
    ((r : Resource) × (e : String) × (answer r ≡ some e)
      × (a.result ≡ inl (creating r e))
      × (a.open_resources ≡ []))
    ⊎ ((h : HybridSession F) × (a.result ≡ inr h)
        × (a.open_resources ≡ primary_session ∷ datagram2_sub ∷ datagram3_sub ∷ [])
        × (h.closed ≡ false)
        × IsConsistent h
        × IsReceiving k h)

-- Opening a session ends with the error of a request that the library refused, and then nothing
-- that was made is left open; or with an open session whose signals are not given, which has the
-- invariant of the receive loops, and with the PRIMARY session and both subsessions open.
pub new_hybrid_session_from_sam-Opens :
    (F : Floats) (k : Keys) (answer : Resource → Option String) (id local_addr : String)
    → Opens k answer (new_hybrid_session_from_sam F answer id local_addr)
unfolding new_hybrid_session_from_sam
new_hybrid_session_from_sam-Opens F k answer id local_addr =
    elim (Option-cases (answer primary_session)) [
      | inr (e, q) ↦ inl (primary_session, e, q, ground arith, ground arith)
      | inl p ↦ elim (Option-cases (answer datagram2_sub)) [
        | inr (e, q) ↦ inl (datagram2_sub, e, q, ground arith, ground arith)
        | inl two ↦ elim (Option-cases (answer datagram3_sub)) [
          | inr (e, q) ↦ inl (datagram3_sub, e, q, ground arith, ground arith)
          | inl three ↦ inr (
            opened_session F id local_addr,
            ground arith,
            ground arith,
            refl,
            opened_session-IsConsistent F id local_addr,
            opened_session-IsReceiving F k id local_addr,
          )
        ]
      ]
    ]

module _ {F : Floats} where
  abbrev pub ValidEntry : String → SenderState F → Type 0
  ValidEntry key s = IsValid s

  -- The states are valid, each under its destination's key.
  cleanup_states-ValidEntry :
      (now : ℕ → ℕ) (i : ℕ) (m : Map String (SenderState F))
      → AllEntries ValidEntry m
      → AllEntries ValidEntry (cleanup_states now i m)
  unfolding cleanup_states
  cleanup_states-ValidEntry now i [] v = tt
  cleanup_states-ValidEntry now i ((key, s) ∷ m) v =
      (cleanup_stale_unacked-IsValid (now i) s v.0, cleanup_states-ValidEntry now (suc i) m v.1)

  -- The state under a key after the loop is the cleaned one, at one of the readings.
  abbrev pub Cleaned : (ℕ → ℕ) → Option (SenderState F) → Option (SenderState F) → Type 0
  Cleaned now none after = after ≡ none
  Cleaned now (some s) after = (j : ℕ) × (after ≡ some (cleanup_stale_unacked (now j) s).0)

  lookup-cleanup_states :
      (now : ℕ → ℕ) (i : ℕ) (key : String) (m : Map String (SenderState F))
      → Cleaned now (lookup key m) (lookup key (cleanup_states now i m))
  unfolding cleanup_states
  lookup-cleanup_states now i key [] = refl
  lookup-cleanup_states now i key ((j, s) ∷ m) = elim (Bool-cases (string_eq.beq j key)) [
    | inl e ↦ rw e (i, refl)
    | inr e ↦ rw e (lookup-cleanup_states now (suc i) key m)
  ]

  -- In a session whose sender states are valid, a round of the ACK cleanup keeps each of them
  -- valid, and under every key it leaves the state of before as its own cleanup leaves it at one
  -- of the readings of the clock, and none where there was none.
  pub cleanup_all-Cleaned :
      (now : ℕ → ℕ) (key : String) (h : HybridSession F)
      → AllEntries ValidEntry h.sender_states
      → let h' = cleanup_all_stale_unacked now h in
        AllEntries ValidEntry h'.sender_states
        × Cleaned now (lookup key h.sender_states) (lookup key h'.sender_states)
  unfolding cleanup_all_stale_unacked
  cleanup_all-Cleaned now key h v = (
    cleanup_states-ValidEntry now 0 h.sender_states v,
    lookup-cleanup_states now 0 key h.sender_states,
  )
