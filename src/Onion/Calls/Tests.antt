-- ===== src/Onion/Calls/Tests.antt =====
-- The theorems on the methods of an `Onion` at concrete calls.
use onramp.Prelude.{ℕ, ◌≡◌, refl, inr, false, none, List, [], ◌∷◌}
use onramp.Keystore.{ensure_keystore_path}
use onramp.Keystore.Onion.{tor_keys, get_listen_conf, delete_onion_keys}
use onramp.Onion.{launched, no_start, get_tor}
use onramp.Onion.Calls.{
  Service, Answers, Call, deletes_keys, closes, plain, over_tls, opens, run, listen_base,
  listen_conf_of, listen_tls, keys, delete_keys, close,
}
use onramp.Onion.Calls.Laws.{HasSameKey, same_key}
use onramp.Samples.{filepath, system, onion_keys}

abbrev service : Service ℕ
service = record {
  name = [];
  listen_conf = none;
  tor = record { running = false; refs = 0; flags = [] };
  disk = record { i2p_path = []; tor_path = []; tls_path = []; files = []; sam_connections = 0 };
}

-- Everything works, and these keys are made.
abbrev makes : ℕ → Answers ℕ
makes k = record {
  os = system;
  gen = record { generated = inr k; write = none };
  start = launched;
  listen_error = none;
  dialer_error = none;
  dial_error = none;
  tls_error = none;
}

abbrev first : Service ℕ
first = (opens onion_keys filepath 1 plain (makes 7) service).1

-- Between two listeners the keys are deleted and the service is closed.
abbrev between : List (Call onion_keys filepath 1)
between = deletes_keys (makes 7) ∷ closes none ∷ []

same_key_example :
    HasSameKey onion_keys filepath 1 7
      (opens onion_keys filepath 1 over_tls (makes 8) (run onion_keys filepath 1 between first)).0
unfolding listen_base get_tor listen_conf_of get_listen_conf tor_keys ensure_keystore_path
same_key_example =
    same_key onion_keys filepath 1 plain over_tls (makes 7) (makes 8) between service 7 refl

-- The later listener is made.
second_key :
    (opens onion_keys filepath 1 over_tls (makes 8) (run onion_keys filepath 1 between first)).0
    ≡ inr 7
unfolding listen_tls run close delete_keys keys listen_base get_tor listen_conf_of get_listen_conf
    tor_keys ensure_keystore_path delete_onion_keys onramp.Onion.close
second_key = refl
