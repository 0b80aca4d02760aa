-- ===== src/Onion/Calls/Keeping.antt =====
-- What the parts of the methods of an `Onion` keep, the methods keep.
use onramp.Prelude.{
  All, ℕ, ◌≡◌, refl, sym, ap, ◌∙◌, ◌⊎◌, inl, inr, Option, none, some, String, List, [], ◌∷◌, arith,
}
use mathlib.Core.Path.{subst}
use onramp.Keystore.{Filepath, KeyError}
use onramp.Keystore.Onion.{OnionKeys, tor_keys, with_conf, get_listen_conf}
use onramp.Onion.Calls.{
  Service, Answers, Error, from_library, from_tls, M, continued, ◌>>=◌, answered, named, get_tor_of,
  key_result, keys, listen_conf_of, listen_base, tls_keys, listen_tls, get_dialer, dial,
  delete_keys, close, Kind, plain, over_tls, opens, Call, listens, dials, asks_keys, deletes_keys,
  closes, step, run,
}

module _ {K : Type 0} where
  -- A call keeps what holds of the fields and of Tor.
  abbrev pub Keeps : {A : Type 0} → (Service K → Type 0) → M K A → Type 0
  Keeps P m = (w : Service K) → P w → P (m w).1

  bind-Keeps :
      {A B : Type 0} (P : Service K → Type 0) (m : M K A) (f : A → M K B)
      → Keeps P m
      → ((a : A) → Keeps P (f a))
      → Keeps P (m >>= f)
  bind-Keeps P m f v u w p = go (m w) (v w p)
    where
      go : (x : (Error ⊎ _) × Service K) → P x.1 → P (continued x f).1
      go (inl e, w') q = q
      go (inr a, w') q = u a w' q

  answered-Keeps :
      {A : Type 0} (P : Service K → Type 0) (wrap : String → Error) (e : Option String) (a : A)
      → Keeps P (answered wrap e a)
  answered-Keeps P wrap none a w p = p
  answered-Keeps P wrap (some e) a w p = p

  -- A sequence of calls that gives something: the first one has, and what follows it.
  bind-inr :
      {A B : Type 0} (m : M K A) (f : A → M K B) (w : Service K) (b : B)
      → ((m >>= f) w).0 ≡ inr b
      → (a : A) × ((m w).0 ≡ inr a)
        × ((f a (m w).1).0 ≡ inr b)
        × (((m >>= f) w).1 ≡ (f a (m w).1).1)
  bind-inr m f w b h = go (m w) h
    where
      go :
          (x : (Error ⊎ _) × Service K)
          → (continued x f).0 ≡ inr b
          → (a : _) × (x.0 ≡ inr a) × ((f a x.1).0 ≡ inr b) × ((continued x f).1 ≡ (f a x.1).1)
      go (inl e, w') h = absurd (ground arith)
      go (inr a, w') h = (a, refl, h, refl)

  answered-inr :
      {A : Type 0} (wrap : String → Error) (e : Option String) (a b : A) (w : Service K)
      → (answered wrap e a w).0 ≡ inr b
      → (a ≡ b) × ((answered wrap e a w).1 ≡ w)
  answered-inr wrap none a b w h = (ground arith, refl)
  answered-inr wrap (some e) a b w h = absurd (ground arith)

  -- The configuration has a key.
  abbrev pub HasKey : K → Service K → Type 0
  HasKey k w = w.listen_conf ≡ some k

  module _ (ok : OnionKeys K) (fp : Filepath) (o : ℕ) where
    with_conf-set :
        (conf : Option K) (r : KeyError ⊎ K) (k : K)
        → key_result (with_conf ok conf r).0 ≡ inr k
        → (with_conf ok conf r).1 ≡ some k
    with_conf-set none (inr j) k h = ground arith
    with_conf-set (some i) (inr j) k h = ground arith
    with_conf-set conf (inl e) k h = absurd (ground arith)

    with_conf-keeps : (k : K) (r : KeyError ⊎ K) → (with_conf ok (some k) r).1 ≡ some k
    with_conf-keeps k (inl e) = refl
    with_conf-keeps k (inr j) = refl

    listen_conf_of-sets :
        (a : Answers K) (w : Service K) (k : K)
        → (listen_conf_of ok fp o a w).0 ≡ inr k
        → HasKey k (listen_conf_of ok fp o a w).1
    unfolding listen_conf_of get_listen_conf
    listen_conf_of-sets a w k h =
        with_conf-set w.listen_conf (tor_keys ok fp a.os a.gen (named w).name w.disk).0 k h

    pub listen_conf_of-Keeps : (a : Answers K) (k : K) → Keeps (HasKey k) (listen_conf_of ok fp o a)
    unfolding listen_conf_of get_listen_conf
    listen_conf_of-Keeps a k w h =
        let r = (tor_keys ok fp a.os a.gen (named w).name w.disk).0 in
        subst (λ (conf : Option K). (with_conf ok conf r).1 ≡ some k) (sym h) (with_conf-keeps k r)

    listen_base-sets :
        (a : Answers K) (w : Service K) (k : K)
        → (listen_base ok fp o a w).0 ≡ inr k
        → HasKey k (listen_base ok fp o a w).1
    unfolding listen_base
    listen_base-sets a w k h =
        let f = λ (j : K). answered from_library a.listen_error j in
        let (u, x, y, z) = bind-inr (get_tor_of o a) (λ u. listen_conf_of ok fp o a >>= f) w k h in
        let v = (get_tor_of o a w).1 in
        let (j, x', y', z') = bind-inr (listen_conf_of ok fp o a) f v k y in
        let (same, left) = answered-inr from_library a.listen_error j k _ y' in
        ap (λ (r : Service K). r.listen_conf) (z ∙ z' ∙ left)
        ∙ listen_conf_of-sets a v j x'
        ∙ ap some same

    pub opens-sets :
        (l : Kind ok fp o) (a : Answers K) (w : Service K) (k : K)
        → (opens ok fp o l a w).0 ≡ inr k
        → HasKey k (opens ok fp o l a w).1
    unfolding listen_tls
    opens-sets plain a w k h = listen_base-sets a (named w) k h
    opens-sets over_tls a w k h =
        let (u, x, y, z) = bind-inr (tls_keys ok fp o a) (λ u. listen_base ok fp o a) w k h in
        ap (λ (r : Service K). r.listen_conf) z ∙ listen_base-sets a (tls_keys ok fp o a w).1 k y

    -- A call whose answers are fair.
    abbrev pub IsFair : (Answers K → Type 0) → (Option String → Type 0) → Call ok fp o → Type 0
    IsFair Fair FairStop (listens l a) = Fair a
    IsFair Fair FairStop (dials a) = Fair a
    IsFair Fair FairStop (asks_keys a) = Unit
    IsFair Fair FairStop (deletes_keys a) = Unit
    IsFair Fair FairStop (closes stop) = FairStop stop

    -- Something that each part of a call keeps, where its answers are fair.
    module _ (P : Service K → Type 0) (Fair : Answers K → Type 0)
        (FairStop : Option String → Type 0) (by_name : (w : Service K) → P w → P (named w))
        (by_tor : (a : Answers K) → Fair a → Keeps P (get_tor_of o a))
        (by_conf : (a : Answers K) → Keeps P (listen_conf_of ok fp o a))
        (by_keys : (a : Answers K) → Keeps P (keys ok fp o a))
        (by_deleting : (a : Answers K) → Keeps P (delete_keys ok fp o a))
        (by_close : (stop : Option String) (w : Service K)
          → FairStop stop
          → P w
          → P (close ok fp o stop w).1) where
      listen_base-Keeps : (a : Answers K) → Fair a → Keeps P (listen_base ok fp o a)
      unfolding listen_base
      listen_base-Keeps a fair =
          bind-Keeps P (get_tor_of o a)
            (λ u. listen_conf_of ok fp o a >>= λ j. answered from_library a.listen_error j)
            (by_tor a fair)
            (λ u.
              bind-Keeps P (listen_conf_of ok fp o a) (λ j. answered from_library a.listen_error j)
                (by_conf a) (λ j. answered-Keeps P from_library a.listen_error j))

      pub opens-Keeps : (l : Kind ok fp o) (a : Answers K) → Fair a → Keeps P (opens ok fp o l a)
      unfolding listen_tls
      opens-Keeps plain a fair w p = listen_base-Keeps a fair (named w) (by_name w p)
      opens-Keeps over_tls a fair w p =
          bind-Keeps P (tls_keys ok fp o a) (λ u. listen_base ok fp o a)
            (bind-Keeps P (keys ok fp o a) (λ k. answered from_tls a.tls_error tt) (by_keys a)
              (λ k. answered-Keeps P from_tls a.tls_error tt))
            (λ u. listen_base-Keeps a fair) w p

      dial-Keeps : (a : Answers K) → Fair a → Keeps P (dial ok fp o a)
      unfolding dial
      dial-Keeps a fair =
          bind-Keeps P (get_dialer ok fp o a) (λ u. answered from_library a.dial_error tt)
            (bind-Keeps P (get_tor_of o a) (λ u. answered from_library a.dialer_error tt)
              (by_tor a fair) (λ u. answered-Keeps P from_library a.dialer_error tt))
            (λ u. answered-Keeps P from_library a.dial_error tt)

      step-Keeps :
          (c : Call ok fp o) (w : Service K) → IsFair Fair FairStop c → P w → P (step ok fp o c w)
      unfolding step
      step-Keeps (listens l a) w fair p = opens-Keeps l a fair w p
      step-Keeps (dials a) w fair p = dial-Keeps a fair w p
      step-Keeps (asks_keys a) w fair p = by_keys a w p
      step-Keeps (deletes_keys a) w fair p = by_deleting a w p
      step-Keeps (closes stop) w fair p = by_close stop w fair p

      pub run-Keeps :
          (cs : List (Call ok fp o)) (w : Service K)
          → All (IsFair Fair FairStop) cs
          → P w
          → P (run ok fp o cs w)
      unfolding run
      run-Keeps [] w fair p = p
      run-Keeps (c ∷ cs) w fair p = run-Keeps cs (step ok fp o c w) fair.1 (step-Keeps c w fair.0 p)
