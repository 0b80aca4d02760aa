-- ===== src/Onion/Calls.antt =====
-- The methods of an `Onion` in onion.go, with its `TLSKeys` of tls.go, over the shared Tor process of Onion
-- and the key files of Keystore/Onion. What the Tor library answers is an argument.
pub mod Keeping
pub mod Laws
mod Tests
use onramp.Prelude.{ℕ, ◌≡◌, ◌⊎◌, inl, inr, Option, none, some, String, List, [], ◌∷◌}
use onramp.Prelude.Text.{codes}
use onramp.Keystore.{Bytes, Disk, Filepath, Os, KeyError}
use onramp.Keystore.Onion.{OnionKeys, Generation, tor_keys, get_listen_conf, delete_onion_keys}
use onramp.Onion.{Tor, Start, get_tor}
use onramp.Onion as Onion

-- The fields `name` and `ListenConf`, here its key, of one `Onion`, with the shared Tor process and the
-- files.
pub record Service (K : Type 0) : Type 0 where
  pub name : Bytes
  pub listen_conf : Option K
  pub tor : Tor
  pub disk : Disk

-- What is answered during one call: the system, the making of keys, the start of Tor, and the errors of
-- `t.Listen`, `t.Dialer`, `dialer.DialContext` and of `TLSKeys` for the host of the keys.
pub record Answers (K : Type 0) : Type 0 where
  pub os : Os
  pub gen : Generation K
  pub start : Start
  pub listen_error : Option String
  pub dialer_error : Option String
  pub dial_error : Option String
  pub tls_error : Option String

pub data Error : Type 0 where
  from_tor from_library from_tls : String → Error
  from_keys : KeyError → Error

-- A call that can fail.
abbrev pub M : Type 0 → Type 0 → Type 0
M K A = Service K → (Error ⊎ A) × Service K

abbrev pub continued :
    {K A B : Type 0} → (Error ⊎ A) × Service K → (A → M K B) → (Error ⊎ B) × Service K
continued (inl e, w) f = (inl e, w)
continued (inr a, w) f = f a w

infixl 5 ◌>>=◌
abbrev pub ◌>>=◌ : {K A B : Type 0} → M K A → (A → M K B) → M K B
(m >>= f) w = continued (m w) f

-- What a library answers.
abbrev pub answered : {K A : Type 0} → (String → Error) → Option String → A → M K A
answered wrap none a w = (inr a, w)
answered wrap (some e) a w = (inl (wrap e), w)

-- `getName`, which keeps the default name.
abbrev pub name_or_default : Bytes → Bytes
name_or_default [] = codes "onramp-onion"
name_or_default (c ∷ cs) = c ∷ cs

abbrev pub named : {K : Type 0} → Service K → Service K
named w = record w { name = name_or_default w.name }

-- `getTor`, of the `Onion` with a number
abbrev pub get_tor_of : {K : Type 0} → ℕ → Answers K → M K (Unit {0})
get_tor_of o a w =
    let (t, e) = get_tor a.start o w.tor in
    (elim e [ none ↦ inr tt | some x ↦ inl (from_tor x) ], record w { tor = t })

abbrev pub key_result : {A : Type 0} → KeyError ⊎ A → Error ⊎ A
key_result (inl e) = inl (from_keys e)
key_result (inr a) = inr a

module _ {K : Type 0} (ok : OnionKeys K) (fp : Filepath) (o : ℕ) where
  -- `Keys`
  unfoldable pub keys : Answers K → M K K
  keys a w =
      let n = named w in
      let (r, d) = tor_keys ok fp a.os a.gen n.name n.disk in (key_result r, record n { disk = d })

  -- `getListenConf`
  unfoldable pub listen_conf_of : Answers K → M K K
  unfolding get_listen_conf
  listen_conf_of a w =
      let n = named w in
      let ((r, conf), d) = get_listen_conf ok fp a.os a.gen n.name n.listen_conf n.disk in
      (key_result r, record n { listen_conf = conf; disk = d })

  -- `listenBase`; a listener is the key that it has.
  unfoldable pub listen_base : Answers K → M K K
  unfolding listen_conf_of
  listen_base a =
      get_tor_of o a >>= λ u. listen_conf_of a >>= λ k. answered from_library a.listen_error k

  -- `OldListen`, and so `Listen` and `NewListener`
  abbrev pub listen : Answers K → M K K
  listen a w = listen_base a (named w)

  -- `TLSKeys` of an `Onion`
  abbrev pub tls_keys : Answers K → M K (Unit {0})
  tls_keys a = keys a >>= λ k. answered from_tls a.tls_error tt

  -- `ListenTLS`
  unfoldable pub listen_tls : Answers K → M K K
  unfolding keys listen_base
  listen_tls a = tls_keys a >>= λ u. listen_base a

  -- `getDialer`
  abbrev pub get_dialer : Answers K → M K (Unit {0})
  get_dialer a = get_tor_of o a >>= λ u. answered from_library a.dialer_error tt

  -- `Dial`
  unfoldable pub dial : Answers K → M K (Unit {0})
  dial a = get_dialer a >>= λ u. answered from_library a.dial_error tt

  -- `DeleteKeys`
  unfoldable pub delete_keys : Answers K → M K (Unit {0})
  unfolding delete_onion_keys
  delete_keys a w =
      let n = named w in
      let (r, d) = delete_onion_keys fp a.os n.name n.disk in (key_result r, record n { disk = d })

  -- `Close`; `stop` is the error of `torp.Close`.
  unfoldable pub close : Option String → Service K → Option String × Service K
  close stop w = let (t, e) = Onion.close stop o w.tor in (e, record (named w) { tor = t })

  -- The two ways to a listener.
  pub data Kind : Type 0 where
    plain over_tls : Kind

  abbrev pub opens : Kind → Answers K → M K K
  opens plain = listen
  opens over_tls = listen_tls

  -- A call of the application.
  pub data Call : Type 0 where
    listens : Kind → Answers K → Call
    dials asks_keys deletes_keys : Answers K → Call
    closes : Option String → Call

  unfoldable pub step : Call → Service K → Service K
  unfolding listen_base listen_tls dial keys delete_keys close
  step (listens l a) w = (opens l a w).1
  step (dials a) w = (dial a w).1
  step (asks_keys a) w = (keys a w).1
  step (deletes_keys a) w = (delete_keys a w).1
  step (closes stop) w = (close stop w).1

  unfoldable pub run : List Call → Service K → Service K
  unfolding step
  run [] w = w
  run (c ∷ cs) w = run cs (step c w)
