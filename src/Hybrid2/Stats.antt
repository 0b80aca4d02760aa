-- ===== src/Hybrid2/Stats.antt =====
-- `GetPathStats` and `GetAllPathStats` of hybrid2/session.go.
pub mod Laws
pub mod All
use onramp.Prelude.{
  ℕ, Option, none, some, String, List, [], ◌∷◌, ◌||◌, length, ltb, ◌==◌, not, ◌&&◌, if◌then◌else◌,
  string_eq,
}
use onramp.Prelude.Map.{Map, lookup}
use onramp.Prelude.Clock.{is_zero}
use onramp.Prelude.Float.{Floats}
use onramp.Keys.{Keys}
use onramp.Hybrid2.Sender.{SenderState}
use onramp.Hybrid2.Session.{HybridSession}

pub record PathStats (F : Floats) : Type 0 where
  pub destination : String
  pub rtt : ℕ
  pub path_quality : F.Float
  pub unacked_count : ℕ
  pub last_datagram2 : ℕ
  pub last_acked : ℕ
  pub total_sent : ℕ
  pub total_acked : ℕ

-- The loop over the send times.
unfoldable pub scan_send_times : ℕ → Map ℕ ℕ → ℕ
scan_send_times last_acked [] = last_acked
scan_send_times last_acked ((seq_num, send_time) ∷ m) =
    scan_send_times
      (if ltb send_time last_acked || is_zero last_acked then send_time else last_acked) m

module _ {F : Floats} where
  -- The `LastAcked` that is reported.
  unfoldable pub last_acked_time : SenderState F → ℕ
  unfolding scan_send_times
  last_acked_time s =
      let last_acked = scan_send_times 0 s.unacked_datagrams in
      if length s.unacked_datagrams == 0 && not (is_zero s.last_datagram2_time)
      then s.last_datagram2_time
      else last_acked

  -- `GetPathStats`; `none` is nil.
  unfoldable pub get_path_stats : Keys → String → HybridSession F → Option (PathStats F)
  unfolding last_acked_time
  get_path_stats k dest h = elim (lookup (k.base64 dest) h.sender_states) [
    | none ↦ none
    | some s ↦ some (record {
      destination = dest;
      rtt = s.rtt;
      path_quality = s.path_quality;
      unacked_count = length s.unacked_datagrams;
      last_datagram2 = s.last_datagram2_time;
      last_acked = last_acked_time s;
      total_sent = s.last_datagram2_seq_num;
      total_acked = s.last_acked_seq_num;
    })
  ]

  -- The loop of `GetAllPathStats` over the states.
  unfoldable pub path_stats_of :
      Keys → HybridSession F → Map String (SenderState F) → List (PathStats F)
  unfolding get_path_stats
  path_stats_of k h [] = []
  path_stats_of k h ((key, s) ∷ m) = elim (get_path_stats k s.destination h) [
    | none ↦ path_stats_of k h m
    | some stats ↦ stats ∷ path_stats_of k h m
  ]

  -- `GetAllPathStats`
  unfoldable pub get_all_path_stats : Keys → HybridSession F → List (PathStats F)
  unfolding path_stats_of
  get_all_path_stats k h = path_stats_of k h h.sender_states
