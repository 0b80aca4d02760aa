-- ===== src/Onion/Races.antt =====
-- Two threads in `getTor` on one `Onion` (onion.go): `hasRef` is read before `torpMu` is taken.
use onramp.Prelude.{ℕ, ◌+◌, ◌≡◌, true, false, none, nat_eq, arith}
use onramp.Prelude.Map.{insert, lookup-insert}
use onramp.Onion.{launched, Tor, has_ref, get_tor_locked, close}
use onramp.Onion.Refs.{IsCounted, holders, holders-insert}

-- Both threads read the flag, and then each comes to the locked part.
unfoldable pub get_tor_race : ℕ → Tor → Tor
unfolding get_tor_locked has_ref
get_tor_race o t =
    let already = has_ref o t in
    (get_tor_locked already launched o (get_tor_locked already launched o t).0).0

-- Where two threads read the flag of one `Onion` without a reference before either takes the lock
-- of Tor, and Tor starts if it is not running, the count exceeds the holders by one, and Tor
-- still runs after the `Onion` has been closed, when closing it once more changes nothing.
pub race_leaks :
    (o : ℕ) (t : Tor)
    → IsCounted t
    → has_ref o t ≡ false
    → let raced = get_tor_race o t in
      let closed = (close none o raced).0 in
      (raced.refs ≡ holders raced.flags + 1)
      × (closed.running ≡ true)
      × (has_ref o closed ≡ false)
      × (close none o closed ≡ (closed, none))
unfolding get_tor_race close
race_leaks o t v free =
    let twice = insert o true (insert o true t.flags) in
    ground (
      arith,
      v.counted,
      holders-insert o true t.flags,
      holders-insert o true (insert o true t.flags),
      lookup-insert o o true t.flags,
      lookup-insert o o true (insert o true t.flags),
      lookup-insert o o false twice,
    )
