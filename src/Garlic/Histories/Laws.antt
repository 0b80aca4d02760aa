-- ===== src/Garlic/Histories/Laws.antt =====
-- What any sequence of calls on one `Garlic` (garlic.go) leaves open.
use onramp.Prelude.{◌≡◌, Option, none, some, List, [], ◌∷◌, All}
use onramp.Prelude.Int.{ℤ}
use onramp.Garlic.Ports.{Bytes}
use onramp.Garlic.{Garlic, Outside}
use onramp.Garlic.Sessions.Owned.{IsOwned}
use onramp.Garlic.Sessions.Owned.Setup.{keyed-IsOwned}
use onramp.Garlic.Calls.Laws.{
  primary_call-Keeps, old_listen-Keeps, listen_packet-Keeps, listen_packet_with_mode-Keeps,
  dial_context-Keeps, dial_context_to_port-Keeps,
}
use onramp.Garlic.Closing.{Bridge, close, new_garlic}
use onramp.Garlic.Closing.Laws.{all_close, close-nil, close-IsOwned}
use onramp.Garlic.Closing.Construction.{Constructed-IsOwned, new_garlic-Constructed}
use onramp.Garlic.Histories.{
  Call, asks_primary, listens, listens_packet, listens_with_mode, dials, dials_to_port,
  deletes_keys, closes, step, run, IsFair,
}

step-IsOwned :
    (lookup_port : Bytes → Option ℤ) (g : Garlic) (c : Call)
    → IsFair c
    → IsOwned g
    → IsOwned (step lookup_port g c)
unfolding step
step-IsOwned lookup_port g (asks_primary out) f v = primary_call-Keeps out g v
step-IsOwned lookup_port g (listens out args) f v = old_listen-Keeps out args g v
step-IsOwned lookup_port g (listens_packet out) f v = listen_packet-Keeps out g v
step-IsOwned lookup_port g (listens_with_mode out mode) f v =
    listen_packet_with_mode-Keeps out mode g v
step-IsOwned lookup_port g (dials out addr) f v = dial_context-Keeps lookup_port out addr f g v
step-IsOwned lookup_port g (dials_to_port out addr ports) f v =
    dial_context_to_port-Keeps lookup_port out addr ports f g v
step-IsOwned lookup_port g (deletes_keys (some e)) f v = v
step-IsOwned lookup_port g (deletes_keys none) f v = keyed-IsOwned none g v
step-IsOwned lookup_port g (closes c) f v = rw f (close-IsOwned g v)

run-IsOwned :
    (lookup_port : Bytes → Option ℤ) (g : Garlic) (cs : List Call)
    → All IsFair cs
    → IsOwned g
    → IsOwned (run lookup_port g cs)
unfolding run
run-IsOwned lookup_port g [] f v = v
run-IsOwned lookup_port g (c ∷ cs) f v =
    run-IsOwned lookup_port (step lookup_port g c) cs f.1 (step-IsOwned lookup_port g c f.0 v)

-- After the constructor of a `Garlic`, whether or not it fails, and any sequence of its calls to
-- ask for the PRIMARY session, listen, dial, delete the keys and close, in which random numbers
-- lie in their range and each `Close` closes everything, whatever the library answered: each
-- session that is open is held by a field, or stands under the PRIMARY session of the field and
-- is that of a field or of the map of ports; each session of a field or of the map is open; the
-- local port is 0 or ephemeral; and a `Close` that closes everything leaves nothing open.
pub run-new_garlic-IsOwned :
    (lookup_port : Bytes → Option ℤ) (out : Outside) (b : Bridge) (cs : List Call)
    → All IsFair cs
    → let g = run lookup_port (new_garlic out b).1 cs in
      IsOwned g × ((close all_close g).1.open_handles ≡ [])
run-new_garlic-IsOwned lookup_port out b cs f =
    let g = (new_garlic out b).1 in
    let v =
      run-IsOwned lookup_port g cs f
        (Constructed-IsOwned (new_garlic out b) (new_garlic-Constructed out b)) in
    (v, close-nil (run lookup_port g cs) v)
