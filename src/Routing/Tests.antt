-- ===== src/Routing/Tests.antt =====
-- The theorems on common.go at concrete values.
use onramp.Prelude.{
  refl, true, List, Option, none, some, inr, String, [], ◌∷◌, if◌then◌else◌, string_eq, arith,
}
use onramp.Garlic.Ports.{Bytes, i2p_text}
use onramp.Garlic.Closing.{no_bridge}
use onramp.Garlic.Closing.Laws.{all_close}
use onramp.Onion.{launched, no_start}
use onramp.Routing.{Library, Answers, dial, close_all, cleanup}
use onramp.Routing.Laws.{Sided, dial-Sided}
use onramp.Routing.Closing.{Use, dials, listens, use_run, started, IsShut, use_run-close_all}

-- The texts that the tests use, in bytes; and the hostname of a URL, where an address with no slashes
-- has none.
abbrev bytes_of : String → Bytes
bytes_of s =
    if string_eq.beq s "a.i2p"
    then b'a' ∷ i2p_text
    else if string_eq.beq s "http://a.i2p"
    then b'/' ∷ b'a' ∷ i2p_text
    else []

abbrev host_of : String → Option String
host_of s =
    if string_eq.beq s "http://a.i2p"
    then some "a.i2p"
    else if string_eq.beq s ":"
    then none
    else some ""

abbrev library : Library
library = record { text_bytes = bytes_of; hostname = host_of; lookup_port = λ text. none }

abbrev answers : Answers
answers = record {
  out = record { answer = λ r. none; keys = inr "me.b32.i2p"; random = inr 7 };
  bridge = no_bridge;
  start = launched;
  tor = none;
}

dial-Sided_example :
    Sided library
      (library.hostname "http://a.i2p")
      started
      (dial library answers "http://a.i2p" started)
dial-Sided_example = dial-Sided library answers "http://a.i2p" started

-- A dial to Tor fails, and the library gives a Tor with the error.
abbrev failing : Answers
failing = record answers { start = no_start true "busy" }

abbrev uses : List Use
uses =
    dials answers "http://a.i2p"
    ∷ listens answers "i2p" "shop"
    ∷ dials answers "b.onion"
    ∷ dials failing "c.onion"
    ∷ []

use_run-close_all_example :
    let w = use_run library started uses in
    IsShut w (close_all all_close (λ o. none) w) × IsShut w (cleanup all_close (λ o. none) w)
use_run-close_all_example =
    use_run-close_all library uses (ground arith, (refl, (ground arith, (ground arith, tt))))
