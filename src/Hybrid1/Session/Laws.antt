-- ===== src/Hybrid1/Session/Laws.antt =====
-- The table of senders and the lifecycle of a session (hybrid1/session.go).
use onramp.Prelude.{
  ℕ, ◌≡◌, inl, inr, Bool, true, not, Option, Option-cases, none, some, String, ltb, if◌then◌else◌,
  bytes_eq, bytes_beq, arith,
}
use onramp.Prelude.Map.{Map, IsMap, lookup, lookup-insert, lookup-retain}
use onramp.Prelude.Clock.{since}
use onramp.Hybrid1.Session.{
  SenderHash, Hybrid1Session, ReceiverMapping, hash_expiry_duration, update_receiver_mapping,
  remove_expired_mappings, close,
}

-- What the table holds of a hash: the first destination, the last port and the last time.
abbrev pub mapped : (ℕ → ℕ) → SenderHash → String → ℕ → Option ReceiverMapping → ReceiverMapping
mapped now hash source port none = record {
  hash = hash;
  destination = source;
  port = port;
  first_seen = now 0;
  last_refresh = now 1;
}
mapped now hash source port (some r) = record r { last_refresh = now 0; port = port }

-- After an update, the table holds under the hash the mapping that it had there with the new port
-- and time, or else a new one with the source, and elsewhere what it held before.
pub lookup-update_receiver_mapping :
    (now : ℕ → ℕ) (hash j : SenderHash) (source : String) (port : ℕ)
    (m : Map SenderHash ReceiverMapping)
    → lookup j (update_receiver_mapping now hash source port m) ≡ (
        if bytes_beq hash j then some (mapped now hash source port (lookup hash m)) else lookup j m)
unfolding update_receiver_mapping
lookup-update_receiver_mapping now hash j source port m = elim (Option-cases (lookup hash m)) [
  | inl e ↦
      rw (e, update_receiver_mapping) (lookup-insert hash j (mapped now hash source port none) m)
  | inr (r, e) ↦
      rw (e, update_receiver_mapping)
        (lookup-insert hash j (mapped now hash source port (some r)) m)
]

-- Whether a mapping is still in use.
abbrev pub is_live : ℕ → ReceiverMapping → Bool
is_live now r = not (ltb hash_expiry_duration (since now r.last_refresh))

abbrev pub live : ℕ → Option ReceiverMapping → Option ReceiverMapping
live now none = none
live now (some r) = if is_live now r then some r else none

pub lookup-live :
    (now : ℕ) (j : SenderHash) (m : Map SenderHash ReceiverMapping)
    → IsMap m
    → lookup j (remove_expired_mappings now m) ≡ live now (lookup j m)
unfolding remove_expired_mappings
lookup-live now j m v = ground (arith, lookup-retain (λ _ r. is_live now r) j m v)

-- The signals are given exactly when the session is closed.
pub record IsConsistent (h : Hybrid1Session) : Type 0 where
  pub stops : h.recv_stop ≡ h.closed
  pub finishes : h.cleanup_done ≡ h.closed
  pub frees : h.datagram_closed ≡ h.closed

abbrev pub shut : Hybrid1Session → Hybrid1Session
shut h = record h { closed = true; recv_stop = true; datagram_closed = true; cleanup_done = true }

-- `Close` does not panic on a session whose signals are given exactly when it is closed, leaves
-- it closed with its signals given and the subsession closed, and closing it once more changes
-- nothing.
pub close-IsConsistent :
    (h : Hybrid1Session)
    → IsConsistent h
    → (close h ≡ some (shut h)) × IsConsistent (shut h) × (close (shut h) ≡ some (shut h))
unfolding close
close-IsConsistent h v = ground arith
