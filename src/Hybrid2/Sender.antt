-- ===== src/Hybrid2/Sender.antt =====
-- `SenderState` of hybrid2/types.go and its methods in hybrid2/sender.go. Each method takes the
-- reading of the clock that it makes; the mutex makes each of them one step.
pub mod Acks
pub mod Invariant
use onramp.Prelude.{
  ℕ, zero, suc, ◌+◌, ◌-◌, ◌*◌, ◌/◌, ◌%◌, ◌^◌, ◌==◌, Bool, true, false, Option, none, some, String,
  List, [], ◌∷◌, not, length, ltb, leb, if◌then◌else◌, nat_eq,
}
use onramp.Prelude.Map.{Map, lookup, insert, retain}
use onramp.Prelude.Clock.{since, is_zero}
use onramp.Prelude.Float.{Floats}
use onramp.Hybrid2.Config.{
  repliable_interval, first_message_index, repliable_time_interval, ack_request_interval,
  max_unacked_datagrams, ack_timeout, millisecond,
}

abbrev pub uint64_mod : ℕ
uint64_mod = 2 ^ 64

pub record SenderState (F : Floats) : Type 0 where
  pub destination : String
  pub counter : ℕ
  pub last_send_time : ℕ
  pub last_datagram2_time : ℕ
  pub last_datagram2_seq_num : ℕ
  pub last_acked_seq_num : ℕ
  pub unacked_datagrams : Map ℕ ℕ
  pub rtt : ℕ
  pub path_quality : F.Float

-- The moving average of `processAck`, in a uint64.
abbrev pub next_rtt : ℕ → ℕ → ℕ
next_rtt old sample = if old == 0 then sample else (7 * old + sample) % uint64_mod / 8

-- Whether `cleanupStaleUnacked` lets an entry stay.
abbrev pub is_fresh : ℕ → ℕ → ℕ → Bool
is_fresh now seq_num send_time = not (ltb ack_timeout (since now send_time))

-- The `timedOut` that it counts: one for each entry that it deletes.
unfoldable pub count_stale : ℕ → Map ℕ ℕ → ℕ
count_stale now [] = 0
count_stale now ((seq_num, send_time) ∷ m) =
    if is_fresh now seq_num send_time then count_stale now m else suc (count_stale now m)

module _ (F : Floats) where
  -- The quality after an ACK.
  abbrev pub acked_quality : F.Float → F.Float
  acked_quality q =
      if F.eq_f q F.zero_f then F.one_f else F.add_f (F.mul_f F.nine_tenths q) F.one_tenth

  -- The quality after so many ACKs were lost.
  unfoldable pub degrade : ℕ → F.Float → F.Float
  degrade zero q = q
  degrade (suc n) q = degrade n (if F.gt_f q F.zero_f then F.mul_f F.nine_tenths q else q)

module _ {F : Floats} where
  -- `shouldUseDatagram2`
  unfoldable pub should_use_datagram2 : ℕ → SenderState F → Bool
  should_use_datagram2 now s =
      if (s.counter % repliable_interval) == first_message_index
      then true
      else if is_zero s.last_datagram2_time
      then true
      else if leb repliable_time_interval (since now s.last_datagram2_time)
      then true
      else false

  -- `incrementCounter`
  unfoldable pub increment_counter : ℕ → SenderState F → SenderState F × ℕ
  increment_counter now s =
      let next = (s.counter + 1) % uint64_mod in
      (record s { counter = next; last_send_time = now }, next)

  -- `markDatagram2Sent`
  unfoldable pub mark_datagram2_sent : ℕ → SenderState F → SenderState F × ℕ
  mark_datagram2_sent now s =
      let next = (s.last_datagram2_seq_num + 1) % uint64_mod in
      (record s { last_datagram2_time = now; last_datagram2_seq_num = next }, next)

  -- `shouldRequestAck`
  unfoldable pub should_request_ack : SenderState F → Bool
  should_request_ack s =
      if s.rtt == 0
      then true
      else if (s.last_datagram2_seq_num % ack_request_interval) == 0
      then true
      else if leb (max_unacked_datagrams - 1) (length s.unacked_datagrams)
      then true
      else false

  -- `trackUnackedDatagram`
  unfoldable pub track_unacked_datagram : ℕ → ℕ → SenderState F → SenderState F
  track_unacked_datagram now seq_num s = record s {
    unacked_datagrams = insert seq_num now s.unacked_datagrams;
  }

  -- `processAck`, when the sequence number is known with its send time.
  unfoldable pub process_known_ack : ℕ → ℕ → ℕ → SenderState F → SenderState F
  process_known_ack now acked send_time s = record s {
    rtt = next_rtt s.rtt (since now send_time / millisecond);
    path_quality = acked_quality F s.path_quality;
    last_acked_seq_num = if ltb s.last_acked_seq_num acked then acked else s.last_acked_seq_num;
    unacked_datagrams = retain (λ seq _. not (leb seq acked)) s.unacked_datagrams;
  }

  -- `processAck`
  unfoldable pub process_ack : ℕ → ℕ → SenderState F → SenderState F
  unfolding process_known_ack
  process_ack now acked s = elim (lookup acked s.unacked_datagrams) [
    | none ↦ s
    | some send_time ↦ process_known_ack now acked send_time s
  ]

  -- `cleanupStaleUnacked`
  unfoldable pub cleanup_stale_unacked : ℕ → SenderState F → SenderState F × ℕ
  unfolding count_stale degrade
  cleanup_stale_unacked now s =
      let timed_out = count_stale now s.unacked_datagrams in
      (
        record s {
          unacked_datagrams = retain (is_fresh now) s.unacked_datagrams;
          path_quality = degrade F timed_out s.path_quality;
        },
        timed_out,
      )

  -- `resetCounter`
  unfoldable pub reset_counter : ℕ → ℕ → SenderState F → SenderState F
  reset_counter now value s = record s { counter = value; last_send_time = now }
