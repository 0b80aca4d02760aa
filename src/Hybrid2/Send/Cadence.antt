-- ===== src/Hybrid2/Send/Cadence.antt =====
-- Which of a sequence of sends to one destination go as datagram2 (hybrid2/sender.go).
use onramp.Prelude.{
  ℕ, suc, ◌+◌, ◌/◌, ◌%◌, ◌≤◌, ◌<◌, ◌==◌, ◌≡◌, refl, ◌⊎◌, inl, Bool, true, false, Option, none, some,
  String, List, [], ◌∷◌, length, if◌then◌else◌, arith,
}
use onramp.Prelude.Float.{Floats}
use onramp.Hybrid2.Config.{repliable_interval, repliable_time_interval}
use onramp.Hybrid2.Sender.{
  SenderState, uint64_mod, should_use_datagram2, mark_datagram2_sent, track_unacked_datagram,
  increment_counter,
}
use onramp.Hybrid2.Send.{Network, Packet, datagram2, datagram3, send_state, new_sender_state}

-- A call of `SendDatagram`: its readings of the clock and its payload.
pub record Call : Type 0 where
  pub now : ℕ → ℕ
  pub payload : List ℕ

-- A network that takes every packet.
abbrev pub accepting : Network
accepting p = none

abbrev pub is_datagram2 : Option Packet → Bool
is_datagram2 none = false
is_datagram2 (some (datagram2 payload dest)) = true
is_datagram2 (some (datagram3 payload dest)) = false

-- For each of the calls in turn, whether it goes as datagram2.
pub protocols : {F : Floats} → String → List Call → SenderState F → List Bool
protocols dest [] s = []
protocols dest (c ∷ cs) s =
    let r = send_state accepting c.now c.payload dest s in
    is_datagram2 r.packet ∷ protocols dest cs r.state

-- The pattern that the package documents, from the n-th message on.
pub pattern_from : ℕ → List Call → List Bool
pattern_from n [] = []
pattern_from n (c ∷ cs) = ((n % repliable_interval) == 0) ∷ pattern_from (suc n) cs

pub count_true : List Bool → ℕ
count_true [] = 0
count_true (b ∷ bs) = if b then suc (count_true bs) else count_true bs

-- All readings of the clock lie within the time interval from `start` on.
abbrev pub InWindow : ℕ → List Call → Type 0
InWindow start [] = Unit
InWindow start (c ∷ cs) =
    ((i : ℕ) → (start ≤ c.now i) × (c.now i < start + repliable_time_interval)) × InWindow start cs

-- The next message is due by its number, or the last datagram2 lies in the window.
abbrev pub IsCovered : {F : Floats} → ℕ → SenderState F → Type 0
IsCovered start s = (s.counter % repliable_interval ≡ 0) ⊎ (start ≤ s.last_datagram2_time)

module _ {F : Floats} (start : ℕ) (dest : String) where
  -- One send in the window.
  send_state_step :
      (c : Call) (s : SenderState F)
      → 0 < start
      → (start ≤ c.now 0) × (c.now 0 < start + repliable_time_interval)
      → start ≤ c.now 1
      → s.counter + 1 < uint64_mod
      → IsCovered start s
      → let r = send_state accepting c.now c.payload dest s in
        (is_datagram2 r.packet ≡ ((s.counter % repliable_interval) == 0))
        × (r.state.counter ≡ suc s.counter)
        × IsCovered start r.state
  unfolding send_state should_use_datagram2 mark_datagram2_sent track_unacked_datagram
      increment_counter
  send_state_step c s pos w k h covered = ground arith

  pub protocols-pattern_from :
      (cs : List Call) (s : SenderState F)
      → 0 < start
      → InWindow start cs
      → s.counter + length cs < uint64_mod
      → IsCovered start s
      → protocols dest cs s ≡ pattern_from s.counter cs
  unfolding protocols pattern_from
  protocols-pattern_from [] s pos w h covered = refl
  protocols-pattern_from (c ∷ cs) s pos w h covered =
      let step = send_state_step c s pos (w.0 0) (w.0 1).0 (omega arith) covered in
      let s' = (send_state accepting c.now c.payload dest s).state in
      let rest = protocols-pattern_from cs s' pos w.1 (omega (arith, step.1)) step.2 in
      ground (arith, step.0, step.1, rest)

-- So many of a run of numbers fall on the interval.
count-pattern_from :
    (n : ℕ) (cs : List Call)
    → count_true (pattern_from n cs) + (n + 499) / 500 ≡ (n + length cs + 499) / 500
unfolding count_true pattern_from
count-pattern_from n [] = omega arith
count-pattern_from n (c ∷ cs) = ground (arith, count-pattern_from (suc n) cs)

-- Where every reading of the clock lies in one window of four minutes that starts after the zero
-- time, the network takes every packet, and there are fewer than 2^64 messages, the messages to a
-- new destination go as datagram2 at every 500th and as datagram3 else, so that one in 500,
-- rounded up, is authenticated.
pub protocols_cadence :
    (F : Floats) (start : ℕ) (dest : String) (cs : List Call)
    → 0 < start
    → InWindow start cs
    → length cs < uint64_mod
    → let kinds = protocols dest cs (new_sender_state F dest) in
      (kinds ≡ pattern_from 0 cs) × (count_true kinds ≡ (length cs + 499) / 500)
protocols_cadence F start dest cs pos w h =
    let same =
      protocols-pattern_from start dest cs (new_sender_state F dest) pos w (omega arith)
        (inl refl) in
    (same, rw same (omega (arith, count-pattern_from 0 cs)))
