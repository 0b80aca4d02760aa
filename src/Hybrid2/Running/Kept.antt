-- ===== src/Hybrid2/Running/Kept.antt =====
-- What the steps of a running session (Hybrid2/Running) other than the rounds of the receive loops keep.
use onramp.Prelude.{
  ℕ, ◌≤◌, ◌≡◌, refl, ◌⊎◌, inl, inr, Option-cases, String, List, length, All, arith,
}
use mathlib.Core.Path.{subst}
use onramp.Prelude.Float.{Floats}
use onramp.Keys.{Keys}
use onramp.Hybrid2.Receiver.{remove_expired_mappings}
use onramp.Hybrid2.Receiver.Table.{remove_expired_mappings-IsMap}
use onramp.Hybrid2.Receiver.Soundness.{remove_expired_mappings-IsSound}
use onramp.Hybrid2.Sender.{SenderState}
use onramp.Hybrid2.Config.{recv_chan_buffer_size}
use onramp.Hybrid2.Session.{HybridSession, HybridDatagram, Error, ensure_session_open}
use onramp.Hybrid2.Send.{Sent, get_sender_state, on_sender_state}
use onramp.Hybrid2.Receive.{Receives, refuses, takes_datagram, takes_error}
use onramp.Hybrid2.Receive.Invariant.{IsReceiving, IsAttributed}
use onramp.Hybrid2.Opening.{cleanup_all_stale_unacked}
use onramp.Hybrid2.Running.Signals.{signals}

module _ {F : Floats} (k : Keys) where
  -- Sending changes the states of destinations only.
  pub on_sender_state-IsReceiving :
      (dest : String) (op : SenderState F → Sent (SenderState F)) (h : HybridSession F)
      → IsReceiving k h
      → IsReceiving k (on_sender_state k dest op h).state
  unfolding get_sender_state
  on_sender_state-IsReceiving dest op h v = elim (Option-cases (ensure_session_open h)) [
    | inr (x, e) ↦ rw (e, on_sender_state) v
    | inl e ↦
        rw (e, on_sender_state)
          (record {
            keyed = v.keyed;
            sound = v.sound;
            attributed = v.attributed;
            bounded = v.bounded;
            one_error = v.one_error;
          })
  ]

  pub on_sender_state-signals :
      (dest : String) (op : SenderState F → Sent (SenderState F)) (h : HybridSession F)
      → signals (on_sender_state k dest op h).state ≡ signals h
  unfolding get_sender_state
  on_sender_state-signals dest op h = elim (Option-cases (ensure_session_open h)) [
    | inr (x, e) ↦ rw (e, on_sender_state)
    | inl e ↦ rw (e, on_sender_state)
  ]

  pub Receives-IsReceiving :
      (x : Error ⊎ HybridDatagram) (h h' : HybridSession F)
      → Receives h h' x
      → IsReceiving k h
      → IsReceiving k h' × (signals h' ≡ signals h)
  Receives-IsReceiving (inl e) h h' (refuses c same) v = rw same (v, refl)
  Receives-IsReceiving (inr dg) h h' (takes_datagram d rest c q same) v =
      let all = subst (All (IsAttributed k)) q v.attributed in
      let few =
        subst (λ (ds : List HybridDatagram). length ds ≤ recv_chan_buffer_size) q v.bounded in
      rw same (
        record {
          keyed = v.keyed;
          sound = v.sound;
          attributed = all.1;
          bounded = omega (arith, few);
          one_error = v.one_error;
        },
        refl,
      )
  Receives-IsReceiving (inl e) h h' (takes_error d rest c q same) v =
      let few = subst (λ (es : List Error). length es ≤ 1) q v.one_error in
      rw same (
        record {
          keyed = v.keyed;
          sound = v.sound;
          attributed = v.attributed;
          bounded = v.bounded;
          one_error = omega (arith, few);
        },
        refl,
      )

  pub cleaned-IsReceiving :
      (now : ℕ) (h : HybridSession F)
      → IsReceiving k h
      → IsReceiving k (record h { mappings = remove_expired_mappings now h.mappings })
  cleaned-IsReceiving now h v = record {
    keyed = remove_expired_mappings-IsMap now h.mappings v.keyed;
    sound = remove_expired_mappings-IsSound k now h.mappings v.sound;
    attributed = v.attributed;
    bounded = v.bounded;
    one_error = v.one_error;
  }

  pub acks-IsReceiving :
      (now : ℕ → ℕ) (h : HybridSession F)
      → IsReceiving k h
      → IsReceiving k (cleanup_all_stale_unacked now h)
        × (signals (cleanup_all_stale_unacked now h) ≡ signals h)
  unfolding cleanup_all_stale_unacked
  acks-IsReceiving now h v = (
    record {
      keyed = v.keyed;
      sound = v.sound;
      attributed = v.attributed;
      bounded = v.bounded;
      one_error = v.one_error;
    },
    refl,
  )
