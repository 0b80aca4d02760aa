-- ===== src/Hybrid2/Stats/Laws.antt =====
-- What `GetPathStats` (hybrid2/session.go) reports as the time of the last ACK.
use onramp.Prelude.{
  ℕ, ◌≤◌, ◌<◌, ◌≡◌, refl, ◌≢◌, ◌⊎◌, inl, some, String, [], ◌∷◌, ◌==◌, false, length, arith, nat_eq,
  string_eq,
}
use onramp.Prelude.Map.{Map, lookup, AllEntries}
use onramp.Prelude.Float.{Floats}
use onramp.Keys.{Keys}
use onramp.Hybrid2.Sender.{SenderState}
use onramp.Hybrid2.Session.{HybridSession}
use onramp.Hybrid2.Stats.{PathStats, scan_send_times, last_acked_time, get_path_stats}

-- A datagram2 without an ACK was sent at a time, and none before it.
abbrev pub IsSendTime : ℕ → Map ℕ ℕ → Type 0
IsSendTime t [] = ⊥
IsSendTime t ((seq, u) ∷ m) = (u ≡ t) ⊎ IsSendTime t m

abbrev pub NotBefore : ℕ → ℕ → ℕ → Type 0
NotBefore t seq send_time = t ≤ send_time

abbrev pub WasSent : ℕ → ℕ → Type 0
WasSent seq send_time = 0 < send_time

scan-minimum :
    (t : ℕ) (m : Map ℕ ℕ)
    → 0 < t
    → AllEntries WasSent m
    → let u = scan_send_times t m in
      (u ≤ t) × AllEntries (NotBefore u) m × ((u ≡ t) ⊎ IsSendTime u m)
unfolding scan_send_times
scan-minimum t [] h v = (omega arith, tt, inl refl)
scan-minimum t ((seq, x) ∷ m) h v = ground (arith, scan-minimum t m h v.1, scan-minimum x m v.0 v.1)

scan-oldest :
    (m : Map ℕ ℕ)
    → AllEntries WasSent m
    → m ≢ []
    → let u = scan_send_times 0 m in AllEntries (NotBefore u) m × IsSendTime u m
unfolding scan_send_times
scan-oldest [] v full = absurd (full refl)
scan-oldest ((seq, x) ∷ m) v full = ground (arith, scan-minimum x m v.0 v.1)

length-full : (m : Map ℕ ℕ) → m ≢ [] → (length m == 0) ≡ false
length-full [] full = absurd (full refl)
length-full ((seq, x) ∷ m) full = ground arith

-- Of a known destination with ACKs outstanding, all of them with a send time that is set, the
-- statistics report as the time of the last ACK the oldest of these send times.
last_acked-oldest :
    {F : Floats} (k : Keys) (dest : String) (h : HybridSession F) (s : SenderState F)
    → lookup (k.base64 dest) h.sender_states ≡ some s
    → AllEntries WasSent s.unacked_datagrams
    → s.unacked_datagrams ≢ []
    → (stats : PathStats F) × (get_path_stats k dest h ≡ some stats)
      × AllEntries (NotBefore stats.last_acked) s.unacked_datagrams
      × IsSendTime stats.last_acked s.unacked_datagrams
unfolding get_path_stats last_acked_time
last_acked-oldest {F} k dest h s e v full =
    let oldest = scan-oldest s.unacked_datagrams v full in
    let last : last_acked_time s ≡ scan_send_times 0 s.unacked_datagrams =
      rw (length-full s.unacked_datagrams full, last_acked_time) refl in
    (
      record {
        destination = dest;
        rtt = s.rtt;
        path_quality = s.path_quality;
        unacked_count = length s.unacked_datagrams;
        last_datagram2 = s.last_datagram2_time;
        last_acked = last_acked_time s;
        total_sent = s.last_datagram2_seq_num;
        total_acked = s.last_acked_seq_num;
      },
      rw (e, get_path_stats) refl,
      rw last oldest.0,
      rw last oldest.1,
    )
