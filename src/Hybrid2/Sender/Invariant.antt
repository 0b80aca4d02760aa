-- ===== src/Hybrid2/Sender/Invariant.antt =====
-- The invariant of a `SenderState` (hybrid2/types.go), over the methods of hybrid2/sender.go.
use onramp.Prelude.{ℕ, ◌+◌, ◌/◌, ◌≤◌, ◌<◌, [], ◌∷◌, inl, inr, Option-cases, arith, not, leb, nat_eq}
use onramp.Prelude.Map.{
  Map, IsMap, AllEntries, lookup, retain-IsMap, retain-AllEntries, insert-IsMap, insert-AllEntries,
  lookup-AllEntries,
}
use onramp.Prelude.Clock.{max_duration, since}
use onramp.Prelude.Float.{Floats}
use onramp.Hybrid2.Config.{millisecond}
use onramp.Hybrid2.Sender.{
  SenderState, uint64_mod, increment_counter, mark_datagram2_sent, track_unacked_datagram,
  process_ack, cleanup_stale_unacked, reset_counter, next_rtt, is_fresh,
}

-- The largest sample of the round-trip time, in milliseconds.
abbrev pub max_rtt : ℕ
max_rtt = max_duration / millisecond

-- A sequence number that has been assigned.
abbrev pub Assigned : ℕ → ℕ → ℕ → Type 0
Assigned last seq send_time = seq ≤ last

-- The moving average stays within the largest sample: the uint64 arithmetic does not wrap.
pub next_rtt-le :
    (old sample : ℕ) → old ≤ max_rtt → sample ≤ max_rtt → next_rtt old sample ≤ max_rtt
next_rtt-le old sample h k = ground arith

module _ {F : Floats} where
  pub record IsValid (s : SenderState F) : Type 0 where
    pub keyed : IsMap s.unacked_datagrams
    pub assigned : AllEntries (Assigned s.last_datagram2_seq_num) s.unacked_datagrams
    pub acked : s.last_acked_seq_num ≤ s.last_datagram2_seq_num
    pub counted : s.counter < uint64_mod
    pub numbered : s.last_datagram2_seq_num < uint64_mod
    pub measured : s.rtt ≤ max_rtt

  pub increment_counter-IsValid :
      (now : ℕ) (s : SenderState F) → IsValid s → IsValid (increment_counter now s).0
  unfolding increment_counter
  increment_counter-IsValid now s v = record {
    keyed = v.keyed;
    assigned = v.assigned;
    acked = v.acked;
    counted = omega arith;
    numbered = v.numbered;
    measured = v.measured;
  }

  pub reset_counter-IsValid :
      (now value : ℕ) (s : SenderState F)
      → value < uint64_mod
      → IsValid s
      → IsValid (reset_counter now value s)
  unfolding reset_counter
  reset_counter-IsValid now value s h v = record {
    keyed = v.keyed;
    assigned = v.assigned;
    acked = v.acked;
    counted = h;
    numbered = v.numbered;
    measured = v.measured;
  }

AllAssigned-mono :
    (a b : ℕ) (m : Map ℕ ℕ) → a ≤ b → AllEntries (Assigned a) m → AllEntries (Assigned b) m
AllAssigned-mono a b [] h k = tt
AllAssigned-mono a b ((s, t) ∷ m) h k = (omega arith, AllAssigned-mono a b m h k.1)

module _ {F : Floats} where
  pub mark_datagram2_sent-IsValid :
      (now : ℕ) (s : SenderState F)
      → s.last_datagram2_seq_num + 1 < uint64_mod
      → IsValid s
      → IsValid (mark_datagram2_sent now s).0
  unfolding mark_datagram2_sent
  mark_datagram2_sent-IsValid now s h v = record {
    keyed = v.keyed;
    assigned =
        AllAssigned-mono s.last_datagram2_seq_num _ s.unacked_datagrams (omega arith) v.assigned;
    acked = omega (arith, v.acked);
    counted = v.counted;
    numbered = omega arith;
    measured = v.measured;
  }

  pub track_unacked_datagram-IsValid :
      (now seq : ℕ) (s : SenderState F)
      → seq ≤ s.last_datagram2_seq_num
      → IsValid s
      → IsValid (track_unacked_datagram now seq s)
  unfolding track_unacked_datagram
  track_unacked_datagram-IsValid now seq s h v = record {
    keyed = insert-IsMap seq now s.unacked_datagrams v.keyed;
    assigned = insert-AllEntries (Assigned s.last_datagram2_seq_num) seq now _ h v.assigned;
    acked = v.acked;
    counted = v.counted;
    numbered = v.numbered;
    measured = v.measured;
  }

  pub process_ack-IsValid :
      (now acked : ℕ) (s : SenderState F) → IsValid s → IsValid (process_ack now acked s)
  unfolding process_ack
  process_ack-IsValid now acked s v = elim (Option-cases (lookup acked s.unacked_datagrams)) [
    | inl e ↦ rw (e, process_ack) v
    | inr (t, e) ↦
        rw (e, process_ack)
          (record {
            keyed = retain-IsMap (λ seq _. not (leb seq acked)) s.unacked_datagrams v.keyed;
            assigned = retain-AllEntries (Assigned s.last_datagram2_seq_num) _ _ v.assigned;
            acked = ground (
              arith,
              v.acked,
              lookup-AllEntries (Assigned s.last_datagram2_seq_num) acked t s.unacked_datagrams
                  v.assigned e,
            );
            counted = v.counted;
            numbered = v.numbered;
            measured = next_rtt-le s.rtt (since now t / millisecond) v.measured (omega arith);
          })
  ]

  pub cleanup_stale_unacked-IsValid :
      (now : ℕ) (s : SenderState F) → IsValid s → IsValid (cleanup_stale_unacked now s).0
  unfolding cleanup_stale_unacked
  cleanup_stale_unacked-IsValid now s v = record {
    keyed = retain-IsMap (is_fresh now) s.unacked_datagrams v.keyed;
    assigned = retain-AllEntries (Assigned s.last_datagram2_seq_num) _ _ v.assigned;
    acked = v.acked;
    counted = v.counted;
    numbered = v.numbered;
    measured = v.measured;
  }
