-- ===== src/Garlic/Tests.antt =====
-- The theorems on garlic.go at concrete values.
use onramp.Prelude.{
  ℕ, ◌+◌, ◌*◌, leb, ◌-◌, ◌&&◌, ◌≡◌, refl, inl, inr, Option, none, some, String, List, [], ◌∷◌, ◌++◌,
  arith, if◌then◌else◌,
}
use onramp.Prelude.Int.{ℤ, pos}
use onramp.Garlic.{Garlic, Request, dial, new_primary, refused, Outside}
use onramp.Garlic.Ports.{Bytes, parse_i2p_addr_and_virtual_port, contains_text, i2p_text}
use onramp.Garlic.Ports.Laws.{parse_i2p_addr-append}
use onramp.Garlic.Sessions.Owned.{IsOwned}
use onramp.Garlic.Sessions.Reuse.{by_port, setup, setup_again}
use onramp.Garlic.Calls.{listen_packet, listen_stream, dial_context_to_port}
use onramp.Garlic.Calls.Redial.{dial_again}
use onramp.Garlic.Closing.{no_bridge, runs, close, new_garlic}
use onramp.Garlic.Closing.Laws.{all_close, reopened_on_closed}
use onramp.Garlic.Closing.Construction.{Constructed, Constructed-IsOwned, new_garlic-Constructed}
use onramp.Garlic.Managed.{
  PackageCall, remove, listens_garlic, dials_garlic, closes_garlic, registers_hook, package_run,
  started, close_all_garlic, cleanup_all,
}
use onramp.Garlic.Managed.Invariant.{IsManaged}
use onramp.Garlic.Managed.Closing.{AllClosed}
use onramp.Garlic.Managed.Package.{package_run-closes}
use onramp.Garlic.Histories.{Call, listens, listens_packet, dials, closes, run}
use onramp.Garlic.Histories.Laws.{run-new_garlic-IsOwned}

-- A library that gives everything, and one that gives no PRIMARY session.
abbrev friendly : Outside
friendly = record { answer = λ r. none; keys = inr "me.b32.i2p"; random = inr 7 }

abbrev no_primary : Request → Option String
no_primary (new_primary c) = some "closed"
no_primary r = none

abbrev unfriendly : Outside
unfriendly = record { answer = no_primary; keys = inr "me.b32.i2p"; random = inr 7 }

-- The ports that are written in digits.
abbrev digits : ℕ → Bytes → Option ℤ
digits n [] = some (pos n)
digits n (c ∷ text) = if leb b'0' c && leb c b'9' then digits (10 * n + (c - b'0')) text else none

-- "a.i2p", "80", and the two with a colon between them.
abbrev host : Bytes
host = b'a' ∷ i2p_text

abbrev port_text : Bytes
port_text = b'8' ∷ b'0' ∷ []

abbrev address : Bytes
address = host ++ b':' ∷ port_text

abbrev opened : Garlic
unfolding new_garlic
opened = (new_garlic friendly no_bridge).1

run-new_garlic-IsOwned_example :
    let cs : List Call =
      listens friendly []
      ∷ dials friendly address
      ∷ closes all_close
      ∷ listens_packet friendly
      ∷ [] in
    let g = run (digits 0) (new_garlic friendly runs).1 cs in
    IsOwned g × ((close all_close g).1.open_handles ≡ [])
run-new_garlic-IsOwned_example =
    run-new_garlic-IsOwned (digits 0) friendly runs
      (listens friendly []
        ∷ dials friendly address
        ∷ closes all_close
        ∷ listens_packet friendly
        ∷ [])
      (tt, (ground arith, (refl, (tt, tt))))

-- What a first dial leaves.
abbrev dialled_once : Garlic
unfolding dial_context_to_port
dialled_once = (dial_context_to_port (digits 0) friendly address [] opened).1

dial_again_example :
    dial_context_to_port (digits 0) friendly address [] dialled_once
    ≡ (inr 2, record dialled_once { requests = dial 2 host ∷ dialled_once.requests })
unfolding dial_context_to_port parse_i2p_addr_and_virtual_port opened
dial_again_example =
    dial_again (digits 0) friendly friendly address host 80 2 [] opened dialled_once refl refl refl

abbrev set_up_once : Garlic
unfolding setup
set_up_once = (setup (by_port (1031, 80)) friendly opened).1

setup_again_example : setup (by_port (1031, 80)) unfriendly set_up_once ≡ (inr 2, set_up_once)
unfolding setup opened
setup_again_example = setup_again (by_port (1031, 80)) friendly unfriendly opened set_up_once 2 refl

reopened_on_closed_example :
    let g' = (close all_close opened).1 in
    (g'.open_handles ≡ [])
    × ((listen_stream unfriendly g').0 ≡ inl (refused "closed"))
    × ((listen_packet unfriendly g').0 ≡ inl (refused "closed"))
unfolding opened new_garlic
reopened_on_closed_example =
    reopened_on_closed unfriendly opened 0 "me.b32.i2p" "closed"
      (Constructed-IsOwned (new_garlic friendly no_bridge)
        (new_garlic-Constructed friendly no_bridge))
      refl refl refl

new_garlic-Constructed_example : Constructed (new_garlic friendly runs)
new_garlic-Constructed_example = new_garlic-Constructed friendly runs

parse_i2p_addr-append_example : parse_i2p_addr_and_virtual_port (digits 0) address ≡ inr (host, 80)
unfolding contains_text
parse_i2p_addr-append_example =
    parse_i2p_addr-append (digits 0) host port_text 80 refl refl refl refl (omega arith)

-- Two listeners under one key, a dial, a hook, and a key that is closed.
abbrev package_calls : List PackageCall
package_calls =
    listens_garlic friendly no_bridge "alice"
    ∷ listens_garlic friendly no_bridge "bob"
    ∷ listens_garlic unfriendly no_bridge "bob"
    ∷ dials_garlic friendly no_bridge address
    ∷ registers_hook 1
    ∷ closes_garlic all_close "alice"
    ∷ []

package_run-closes_example :
    let w = package_run (digits 0) started package_calls in
    IsManaged w
    × AllClosed (close_all_garlic all_close w)
    × ((close_all_garlic all_close w).garlics ≡ [])
    × ((close_all_garlic all_close w).default_dialer ≡ none)
    × AllClosed (cleanup_all all_close w)
package_run-closes_example =
    package_run-closes (digits 0) package_calls (tt, (tt, (tt, (ground arith, (tt, (refl, tt))))))

-- They leave two instances that are registered, one of them under a key.
package_calls_leave :
    let w = package_run (digits 0) started package_calls in
    (w.garlics ≡ ("bob", 1) ∷ []) × (w.default_dialer ≡ some 2) × (w.instances ≡ 2 ∷ 1 ∷ [])
unfolding package_run remove
package_calls_leave = (refl, refl, refl)
