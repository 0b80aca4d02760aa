-- ===== src/Hybrid2/Delivery.antt =====
-- A sender (hybrid2/sender.go) and a receiver's table (hybrid2/receiver.go) on one path: the messages of
-- a conversation, each taken by the SAM library and received in the order of sending, with rounds of
-- `removeExpiredMappings` in between. Both clocks are read against one time.
use onramp.Prelude.{
  ℕ, ◌+◌, ◌-◌, ◌%◌, ◌≤◌, ◌<◌, ◌≡◌, refl, ◌⊎◌, inl, inr, true, false, Bool-cases, Option,
  Option-cases, none, some, String, List, [], ◌∷◌, not, bytes_eq, bytes_beq_iff, All, arith,
}
use onramp.Prelude.Map.{IsMap, lookup, lookup-insert, lookup-retain}
use onramp.Prelude.Float.{Floats}
use onramp.Keys.{Keys}
use onramp.Hybrid2.Config.{repliable_interval, repliable_time_interval, hash_expiry_duration}
use onramp.Hybrid2.Sender.{
  SenderState, should_use_datagram2, mark_datagram2_sent, track_unacked_datagram, increment_counter,
}
use onramp.Hybrid2.Receiver.{
  Mappings, ReceiverMappingEntry, compute_sender_hash, is_expired, refresh, remove_expired_mappings,
  register_sender, lookup_sender,
}
use onramp.Hybrid2.Receiver.Table.{register_sender-IsMap, remove_expired_mappings-IsMap}
use onramp.Hybrid2.Send.{new_sender_state, send_state}
use onramp.Hybrid2.Send.Cadence.{Call, accepting, is_datagram2}

-- A message with the time at which it is received, or a round of the receiver's cleanup.
pub data Event : Type 0 where
  message : Call → ℕ → Event
  cleanup : ℕ → Event

module _ {F : Floats} (k : Keys) (source dest : String) where
  -- What the receiver's table says of the source, for each datagram3 in turn.
  pub deliver : List Event → SenderState F → Mappings → List (Option String)
  deliver [] s m = []
  deliver (cleanup at ∷ es) s m = deliver es s (remove_expired_mappings at m)
  deliver (message c at ∷ es) s m =
      let r = send_state accepting c.now c.payload dest s in
      let hash = compute_sender_hash k source in
      let after = deliver es r.state in
      elim (is_datagram2 r.packet) [
        | true ↦ after (register_sender at hash source m)
        | false ↦ lookup_sender at hash m ∷ after m
      ]

-- The longest time on the way that the margin between the two intervals allows.
abbrev pub margin : ℕ
margin = hash_expiry_duration - repliable_time_interval

-- The messages are sent and the cleanups run at times that go forward from `time` on, where the time of
-- a message is that of its sending, and no message is on its way for longer than the margin.
abbrev pub IsTimely : ℕ → List Event → Type 0
IsTimely time [] = Unit
IsTimely time (cleanup at ∷ es) = (time ≤ at) × IsTimely at es
IsTimely time (message c at ∷ es) =
    (time ≤ c.now 0)
    × (c.now 0 ≤ c.now 1)
    × (c.now 1 ≤ at)
    × (at ≤ c.now 0 + margin)
    × IsTimely (c.now 0) es

-- The table knows the source since the last datagram2.
abbrev IsFresh : {F : Floats} → String → SenderState F → Option ReceiverMappingEntry → Type 0
IsFresh source s none = ⊥
IsFresh source s (some r) = (r.destination ≡ source) × (s.last_datagram2_time ≤ r.last_refresh)

-- An entry that may have stayed from before is the source's.
abbrev IsOwn : String → Option ReceiverMappingEntry → Type 0
IsOwn source none = Unit {0}
IsOwn source (some r) = r.destination ≡ source

-- What holds between two events: the next message is a datagram2 by its number, or the last datagram2 is
-- so long ago that the next message is one, or the table knows the source.
record IsTracked {F : Floats} (k : Keys) (source : String) (time : ℕ) (s : SenderState F)
    (m : Mappings) : Type 0 where
  keyed : IsMap m
  own : IsOwn source (lookup (compute_sender_hash k source) m)
  known :
      (s.counter % repliable_interval ≡ 0)
      ⊎ (s.last_datagram2_time + hash_expiry_duration < time)
      ⊎ IsFresh source s (lookup (compute_sender_hash k source) m)

module _ {F : Floats} (k : Keys) (source : String) where
  cleanup_step :
      (time at : ℕ) (s : SenderState F) (m : Mappings)
      → time ≤ at
      → IsTracked k source time s m
      → IsTracked k source at s (remove_expired_mappings at m)
  unfolding remove_expired_mappings is_expired
  cleanup_step time at s m h v =
      let hash = compute_sender_hash k source in
      let kept = lookup-retain (λ _ r. not (is_expired at r)) hash m v.keyed in
      elim (Option-cases (lookup hash m)) [
        | inl e ↦ record {
          keyed = remove_expired_mappings-IsMap at m v.keyed;
          own = ground (arith, kept, v.own);
          known = ground (arith, kept, v.known);
        }
        | inr (r, e) ↦ record {
          keyed = remove_expired_mappings-IsMap at m v.keyed;
          own = ground (arith, kept, v.own);
          known = ground (arith, kept, v.known);
        }
      ]

  -- After a datagram2 the table has the source, refreshed when it came in.
  register_step :
      (time at : ℕ) (s : SenderState F) (m : Mappings)
      → IsMap m
      → IsOwn source (lookup (compute_sender_hash k source) m)
      → s.last_datagram2_time ≤ at
      → IsTracked k source time s (register_sender at (compute_sender_hash k source) source m)
  unfolding register_sender
  register_step time at s m v own h =
      let hash = compute_sender_hash k source in
      let self = (bytes_beq_iff hash hash).1 refl in
      elim (Option-cases (lookup hash m)) [
        | inl e ↦
            let r : ReceiverMappingEntry = record {
              hash = hash;
              destination = source;
              first_seen = at;
              last_refresh = at;
            } in
            let put = lookup-insert hash hash r m in
            record {
              keyed = register_sender-IsMap at hash source m v;
              own = ground (arith, self, put);
              known = ground (arith, self, put);
            }
        | inr (r, e) ↦
            let put = lookup-insert hash hash (refresh at r) m in
            record {
              keyed = register_sender-IsMap at hash source m v;
              own = ground (arith, self, put);
              known = ground (arith, self, put);
            }
      ]

  -- A message that goes as a datagram3 finds the source in the table.
  bulk_step :
      (c : Call) (time at : ℕ) (p : List ℕ) (dest : String) (s : SenderState F) (m : Mappings)
      → time ≤ c.now 0
      → at ≤ c.now 0 + margin
      → should_use_datagram2 (c.now 0) s ≡ false
      → IsTracked k source time s m
      → let s' = (send_state accepting c.now p dest s).state in
        (lookup_sender at (compute_sender_hash k source) m ≡ some source)
        × IsTracked k source (c.now 0) s' m
  unfolding send_state should_use_datagram2 increment_counter lookup_sender is_expired
  bulk_step c time at p dest s m h late bulk v =
      let hash = compute_sender_hash k source in
      elim (Option-cases (lookup hash m)) [
        | inl e ↦ absurd (ground (arith, v.known))
        | inr (r, e) ↦ (
          ground (arith, v.known),
          record { keyed = v.keyed; own = v.own; known = ground (arith, v.known) },
        )
      ]

  -- The protocol of a message that is taken, and when it was last authenticated.
  authenticated_step :
      (c : Call) (p : List ℕ) (dest : String) (s : SenderState F)
      → should_use_datagram2 (c.now 0) s ≡ true
      → let r = send_state accepting c.now p dest s in
        (is_datagram2 r.packet ≡ true) × (r.state.last_datagram2_time ≡ c.now 1)
  unfolding send_state mark_datagram2_sent track_unacked_datagram increment_counter
  authenticated_step c p dest s due = ground arith

  bulk_protocol :
      (c : Call) (p : List ℕ) (dest : String) (s : SenderState F)
      → should_use_datagram2 (c.now 0) s ≡ false
      → is_datagram2 (send_state accepting c.now p dest s).packet ≡ false
  unfolding send_state
  bulk_protocol c p dest s bulk = ground arith

  deliver-resolves_from :
      (dest : String) (es : List Event) (time : ℕ) (s : SenderState F) (m : Mappings)
      → IsTimely time es
      → IsTracked k source time s m
      → All (λ o. o ≡ some source) (deliver k source dest es s m)
  unfolding deliver
  deliver-resolves_from dest [] time s m t v = tt
  deliver-resolves_from dest (cleanup at ∷ es) time s m t v =
      deliver-resolves_from dest es at s (remove_expired_mappings at m) t.1
        (cleanup_step time at s m t.0 v)
  deliver-resolves_from dest (message c at ∷ es) time s m t v =
      let r = send_state accepting c.now c.payload dest s in
      let hash = compute_sender_hash k source in
      elim (Bool-cases (should_use_datagram2 (c.now 0) s)) [
        | inl due ↦
            let sent = authenticated_step c c.payload dest s due in
            rw (sent.0, deliver)
              (deliver-resolves_from dest es (c.now 0) r.state (register_sender at hash source m)
                t.4
                (register_step (c.now 0) at r.state m v.keyed v.own (omega (arith, sent.1, t.2))))
        | inr bulk ↦
            let step = bulk_step c time at c.payload dest s m t.0 t.3 bulk v in
            rw (bulk_protocol c c.payload dest s bulk, deliver)
              (step.0, deliver-resolves_from dest es (c.now 0) r.state m t.4 step.1)
      ]

-- On one path from a new sender's state and an empty table, where the network takes every packet,
-- the messages are sent at times that run forward and come in in that order, each within six
-- minutes, and no cleanup is earlier than the sending before it, each datagram3 is attributed to
-- its source by the table of the receiver.
pub deliver-resolves :
    (F : Floats) (k : Keys) (source dest : String) (es : List Event) (time : ℕ)
    → IsTimely time es
    → All (λ o. o ≡ some source) (deliver k source dest es (new_sender_state F dest) [])
deliver-resolves F k source dest es time t =
    deliver-resolves_from k source dest es time (new_sender_state F dest) [] t
      (record { keyed = tt; own = tt; known = inl refl })
