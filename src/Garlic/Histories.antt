-- ===== src/Garlic/Histories.antt =====
-- Any sequence of calls on one `Garlic` (garlic.go), each with answers of its own.
pub mod Laws
use onramp.Prelude.{ℕ, ◌⊎◌, ◌≡◌, inl, inr, Option, none, some, String, List, [], ◌∷◌, All}
use onramp.Prelude.Int.{ℤ}
use onramp.Garlic.Ports.{Bytes}
use onramp.Garlic.{Garlic, Outside}
use onramp.Garlic.Calls.{
  primary_call, listen_packet_with_mode, listen_packet, old_listen, dial_context,
  dial_context_to_port,
}
use onramp.Garlic.Calls.Laws.{IsRandom}
use onramp.Garlic.Closing.{Closes, close, delete_keys}
use onramp.Garlic.Closing.Laws.{all_close}

pub data Call : Type 0 where
  asks_primary : Outside → Call
  listens : Outside → List String → Call
  listens_packet : Outside → Call
  listens_with_mode : Outside → ℕ → Call
  dials : Outside → Bytes → Call
  dials_to_port : Outside → Bytes → List ℤ → Call
  deletes_keys : Option String → Call
  closes : Closes → Call

-- What a call leaves, whatever its result.
unfoldable pub step : (Bytes → Option ℤ) → Garlic → Call → Garlic
unfolding primary_call old_listen listen_packet_with_mode listen_packet dial_context
    dial_context_to_port close
step lookup_port g (asks_primary out) = (primary_call out g).1
step lookup_port g (listens out args) = (old_listen out args g).1
step lookup_port g (listens_packet out) = (listen_packet out g).1
step lookup_port g (listens_with_mode out mode) = (listen_packet_with_mode out mode g).1
step lookup_port g (dials out addr) = (dial_context lookup_port out addr g).1
step lookup_port g (dials_to_port out addr ports) =
    (dial_context_to_port lookup_port out addr ports g).1
step lookup_port g (deletes_keys e) = (delete_keys e g).1
step lookup_port g (closes c) = (close c g).1

unfoldable pub run : (Bytes → Option ℤ) → Garlic → List Call → Garlic
unfolding step
run lookup_port g [] = g
run lookup_port g (c ∷ cs) = run lookup_port (step lookup_port g c) cs

-- Random numbers lie in their range, and a `Close` closes everything.
abbrev pub IsFair : Call → Type 0
IsFair (dials out addr) = IsRandom out.random
IsFair (dials_to_port out addr ports) = IsRandom out.random
IsFair (closes c) = c ≡ all_close
IsFair c = Unit {0}
